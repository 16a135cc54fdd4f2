-- ===== src/Router/Lasting.antt =====
-- internal/msgpackrouter/router.go: a request waits until it is answered, whatever else the router does.
use arduino_router.Prelude.{
  ℕ, ◌+◌, ◌<◌, ◌^◌, ◌≡◌, ◌≢◌, ◌⊎◌, inl, inr, Bytes, Bool-cases, some, arith, nat_eq, ==_iff, ◌==◌,
}
use arduino_router.Dict.{Dict, lookup, delete}
use arduino_router.Value.{Value}
use arduino_router.Router.Forwarding.{response_returns}
use arduino_router.Connection.{OutRequest, close}
use arduino_router.Connection.Decode.{kind, response}
use arduino_router.Router.Ids.{taken, id_counters}
use arduino_router.Router.Keeping.{fwd_res-same, waiting_is_kept}
use arduino_router.Router.Ownership.{handle_packet-TablesBy}
use arduino_router.Router.Steps.{
  new_router, Step, accepts, receives, ends, answers_late, Reach, here, next,
}
use arduino_router.Router.{
  World, Forward, Handler, Env, put, fwd_res, accept, finish, handle_response,
}

-- The step is not a response of `client` with the ID `j`.
abbrev pub IsOther : {S : Type 0} {env : Env} {w w' : World S} → ℕ → ℕ → Step env w w' → Type 0
IsOther client j (receives w conn p alive) =
    kind p.msg_type ≡ response → (conn ≢ client) ⊎ (p.msg_id ≢ j)
IsOther client j (accepts w) = Unit {0}
IsOther client j (ends w conn alive) = Unit {0}
IsOther client j (answers_late w f r e) = Unit {0}

abbrev pub AllOther : {S : Type 0} {env : Env} {w w' : World S} → ℕ → ℕ → Reach env w w' → Type 0
AllOther client j here = Unit {0}
AllOther client j (next r s) = AllOther client j r × IsOther client j s

-- The one after the other.
abbrev pub further :
    {S : Type 0} {env : Env} {u v w : World S} → Reach env u v → Reach env v w → Reach env u w
further r here = r
further r (next q s) = next (further r q) s

module _ {S : Type 0} {env : Env} where
  taken-further :
      {u v w : World S} (r : Reach env u v) (q : Reach env v w)
      → taken (further r q) ≡ taken r + taken q
  taken-further r here = omega arith
  taken-further r (next q s) = let ih = taken-further r q in omega (arith, ih)

  -- A pointer that was given out stays so.
  Step-given : {w w' : World S} (c : ℕ) → Step env w w' → c < w.next → c < w'.next
  unfolding accept finish fwd_res
  Step-given c (accepts w) h = omega (arith, h)
  Step-given c (receives w conn p alive) h = rw ((handle_packet-TablesBy env w conn p).next) h
  Step-given c (ends w conn alive) h = h
  Step-given c (answers_late w f r e) h = h

  Reach-given : {w w' : World S} (c : ℕ) → Reach env w w' → c < w.next → c < w'.next
  Reach-given c here h = h
  Reach-given c (next r s) h = Step-given c s (Reach-given c r h)

module _ {S : Type 0} (env : Env) (internal : Dict Bytes (Handler S)) (s : S) (client j : ℕ)
    (req : OutRequest Forward) where
  Step-waits :
      {w w' : World S} (r : Reach env (new_router internal s) w) (step : Step env w w')
      → taken r + 1 < 2 ^ 32
      → IsOther client j step
      → client < w.next
      → lookup j (w.conns client).active ≡ some req
      → lookup j (w'.conns client).active ≡ some req
  unfolding accept finish close
  Step-waits r (accepts w) few other given waiting = ground (arith, ==_iff w.next client)
  Step-waits r (receives w conn p alive) few other given waiting =
      waiting_is_kept env client j req w conn p
        (λ owner.
          let (bound, fresh) = id_counters env internal s w r (omega arith) owner in
          (omega (arith, bound), fresh))
        other waiting
  Step-waits r (ends w conn alive) few other given waiting = elim (Bool-cases (conn == client)) [
    | inl e ↦ rw (e, (==_iff conn client).0 e) waiting
    | inr e ↦ rw e waiting
  ]
  Step-waits r (answers_late w f v e) few other given waiting =
      rw ((fwd_res-same env w f v e client).active) waiting

  waits_until_answered :
      (w w' : World S) (r : Reach env (new_router internal s) w) (q : Reach env w w')
      → taken r + taken q < 2 ^ 32
      → AllOther client j q
      → client < w.next
      → lookup j (w.conns client).active ≡ some req
      → lookup j (w'.conns client).active ≡ some req
  waits_until_answered w w' r here few others given waiting = waiting
  waits_until_answered w w' r (next {t} q step) few others given waiting =
      Step-waits (further r q) step (omega (arith, taken-further r q)) others.1
        (Reach-given client q given)
        (waits_until_answered w t r q (omega arith) others.0 given waiting)

  -- From a world that a new router reaches, over further steps, fewer than 2 ^ 32 steps in all: a
  -- request that waits at a client whose pointer was given out goes on waiting there under its ID
  -- through accepted connections, packets of any kind, ends of connections and late answers of
  -- internal methods, as long as the steps have no response of that client with that ID; such a
  -- response then ends that wait and is delivered by the request's callback.
  pub answered_at_last :
      (w w' : World S) (r : Reach env (new_router internal s) w) (q : Reach env w w')
      → taken r + taken q < 2 ^ 32
      → AllOther client j q
      → client < w.next
      → lookup j (w.conns client).active ≡ some req
      → (lookup j (w'.conns client).active ≡ some req)
        × ((error result : Value)
            → handle_response env w' client j error result
              ≡ fwd_res env
                  (put w' client
                    (record (w'.conns client) { active = delete j (w'.conns client).active }))
                  req.res
                  result
                  error)
  answered_at_last w w' r q few others given waiting =
      let waits = waits_until_answered w w' r q few others given waiting in
      (waits, λ error result. response_returns env w' client j req error result waits)
