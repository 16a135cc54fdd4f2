-- ===== src/Router/Steps.antt =====
-- The router at work: any interleaving of accepted connections, packets and ends of connections.
use arduino_router.Prelude.{
  ℕ, ◌<◌, ◌≡◌, ◌≢◌, inl, inr, some, true, false, Bytes, arith, bytes_eq_instance,
}
use arduino_router.Dict.{Dict, empty, lookup, lookup-empty}
use arduino_router.Value.{Value}
use arduino_router.Connection.{new_connection}
use arduino_router.Connection.Decode.{RpcPacket}
use arduino_router.Router.Routes.Laws.{remove_methods_lem}
use arduino_router.Router.Ownership.{handle_packet-TablesBy}
use arduino_router.Router.{World, Forward, Handler, Env, fwd_res, handle_packet, accept, finish}

-- New(), after the internal methods were registered.
unfoldable pub new_router : {S : Type 0} → Dict Bytes (Handler S) → S → World S
new_router internal s = record {
  conns = λ c. new_connection;
  live = λ c. false;
  next = 0;
  routes = empty;
  routes_internal = internal;
  state = s;
}

-- A packet or an end comes from a connection whose loop still runs. The handler of an internal method
-- that has not answered before it returned, or still waits, may answer at any time.
pub data Step {S : Type 0} (env : Env) : World S → World S → Type 0 where
  accepts : (w : World S) → Step env w (accept w)
  receives :
      (w : World S) (conn : ℕ) (p : RpcPacket)
      → w.live conn ≡ true
      → Step env w (handle_packet env w conn p)
  ends : (w : World S) (conn : ℕ) → w.live conn ≡ true → Step env w (finish w conn)
  answers_late :
      (w : World S) (f : Forward) (result error : Value) → Step env w (fwd_res env w f result error)

pub data Reach {S : Type 0} (env : Env) (s : World S) : World S → Type 0 where
  here : Reach env s s
  next : {t u : World S} → Reach env s t → Step env t u → Reach env s u

pub record IsValid {S : Type 0} (w : World S) : Type 0 where
  pub routed : (m : Bytes) (c : ℕ) → lookup m w.routes ≡ some c → w.live c ≡ true
  pub allocated : (c : ℕ) → w.live c ≡ true → c < w.next

module _ {S : Type 0} where
  pub new_router-IsValid :
      (internal : Dict Bytes (Handler S)) (s : S) → IsValid (new_router internal s)
  unfolding new_router
  new_router-IsValid internal s = record {
    routed = λ m c h. ground (arith, lookup-empty {V = ℕ} m);
    allocated = λ c h. cc;
  }

  accept-IsValid : (w : World S) → IsValid w → IsValid (accept w)
  unfolding accept
  accept-IsValid w v = record {
    routed = λ m c h. ground (arith, v.routed m c h);
    allocated = λ c h. ground (arith, v.allocated c);
  }

  finish-IsValid : (w : World S) (conn : ℕ) → IsValid w → IsValid (finish w conn)
  unfolding finish
  finish-IsValid w conn v = record {
    routed = λ m c h.
        let (old, other) = (remove_methods_lem w.routes conn m c).0 h in
        ground (arith, v.routed m c old, other);
    allocated = λ c h. ground (arith, v.allocated c);
  }

  handle_packet-IsValid :
      (env : Env) (w : World S) (conn : ℕ) (p : RpcPacket)
      → w.live conn ≡ true
      → IsValid w
      → IsValid (handle_packet env w conn p)
  handle_packet-IsValid env w conn p alive v =
      let by = handle_packet-TablesBy env w conn p in
      record {
        routed = λ m c h.
            rw by.live (elim (by.routes.gains m c h) [
              | inl own ↦ rw own alive
              | inr old ↦ v.routed m c old
            ]);
        allocated = λ c h. rw by.next (v.allocated c (rw by.live at h));
      }

  fwd_res-IsValid :
      (env : Env) (w : World S) (f : Forward) (result error : Value)
      → IsValid w
      → IsValid (fwd_res env w f result error)
  unfolding fwd_res
  fwd_res-IsValid env w f result error v = record { routed = v.routed; allocated = v.allocated }

  pub Step-IsValid : {env : Env} {w w' : World S} → Step env w w' → IsValid w → IsValid w'
  Step-IsValid (accepts w) v = accept-IsValid w v
  Step-IsValid {env} (receives w conn p alive) v = handle_packet-IsValid env w conn p alive v
  Step-IsValid (ends w conn alive) v = finish-IsValid w conn v
  Step-IsValid {env} (answers_late w f result error) v = fwd_res-IsValid env w f result error v

  pub Reach-IsValid : {env : Env} {w w' : World S} → Reach env w w' → IsValid w → IsValid w'
  Reach-IsValid here v = v
  Reach-IsValid (next r s) v = Step-IsValid s (Reach-IsValid r v)

  -- From a new router, after any interleaving of accepted connections, packets of running
  -- connections, ends of connections and late answers of internal methods, a method is routed to
  -- a connection only while its loop runs.
  pub routes_are_live :
      (env : Env) (internal : Dict Bytes (Handler S)) (s : S) (w : World S) (m : Bytes) (c : ℕ)
      → Reach env (new_router internal s) w
      → lookup m w.routes ≡ some c
      → w.live c ≡ true
  routes_are_live env internal s w m c r h =
      (Reach-IsValid r (new_router-IsValid internal s)).routed m c h

  -- A pointer that was given out and whose connection has ended is never live again.
  pub record IsGone (c : ℕ) (w : World S) : Type 0 where
    pub given : c < w.next
    pub ended : w.live c ≡ false

  Step-IsGone : {env : Env} {w w' : World S} (c : ℕ) → Step env w w' → IsGone c w → IsGone c w'
  unfolding accept finish fwd_res
  Step-IsGone c (accepts w) g = record {
    given = omega (arith, g.given);
    ended = ground (arith, g.given, g.ended);
  }
  Step-IsGone {env} c (receives w conn p alive) g =
      let by = handle_packet-TablesBy env w conn p in
      record { given = rw by.next g.given; ended = rw by.live g.ended }
  Step-IsGone c (ends w conn alive) g = record { given = g.given; ended = ground (arith, g.ended) }
  Step-IsGone c (answers_late w f result error) g = record { given = g.given; ended = g.ended }

  Reach-IsGone : {env : Env} {w w' : World S} (c : ℕ) → Reach env w w' → IsGone c w → IsGone c w'
  Reach-IsGone c here g = g
  Reach-IsGone c (next r s) g = Step-IsGone c s (Reach-IsGone c r g)

  -- In a valid world, once the loop of a live connection has ended, no method is routed to it in
  -- any world reached later.
  pub ended_is_unrouted :
      (env : Env) (w w' : World S) (conn : ℕ) (m : Bytes)
      → IsValid w
      → w.live conn ≡ true
      → Reach env (finish w conn) w'
      → lookup m w'.routes ≢ some conn
  unfolding finish
  ended_is_unrouted env w w' conn m v alive r h =
      let gone =
        Reach-IsGone conn r (record { given = v.allocated conn alive; ended = ground arith }) in
      let routed = (Reach-IsValid r (finish-IsValid w conn v)).routed m conn h in
      cc (gone.ended, routed)
