-- ===== src/Router/Ids.antt =====
-- internal/msgpackrouter/router.go with msgpackrpc/connection.go: the IDs of the requests that the router
-- passes on.
use arduino_router.Prelude.{
  ℕ, zero, suc, ◌+◌, ◌<◌, ◌≤◌, ◌^◌, subst, inl, inr, true, Bytes, List, arith, bytes_eq_instance,
  nat_eq, Option-cases,
}
use arduino_router.Dict.{Dict, lookup}
use arduino_router.Error.{Result, ok, err}
use arduino_router.Value.{Value, nil}
use arduino_router.Connection.{
  Connection, OutRequest, new_connection, set_keep_raw, close, handle_incoming_response,
}
use arduino_router.Connection.Decode.{
  RpcPacket, Kind, kind, request, response, notification, unknown,
}
use arduino_router.Connection.Requests.{
  IsFresh, new_connection-IsFresh, send_request-IsFresh, send_request_counter, response-IsFresh,
  response_found, response_unknown,
}
use arduino_router.Connection.Sending.{SameRequests}
use arduino_router.Router.Dispatch.{this}
use arduino_router.Router.Answering.{
  Outcome, answered, refused, waits, unanswered, handle_request-Outcome, passed_to, update_related,
}
use arduino_router.Router.Keeping.{Untouched, fwd_res-same, notification-same}
use arduino_router.Router.Steps.{
  new_router, Step, accepts, receives, ends, answers_late, Reach, here, next,
}
use arduino_router.Router.{
  World, Forward, Handler, Env, put, fwd_res, response_outcome, handle_response,
  handle_notification, handle_request, handle_packet, accept, finish,
}

-- The counter of a connection is at most `n`, and has passed the IDs of its waiting requests.
pub record IsCounted (n : ℕ) (c : Connection Forward) : Type 0 where
  pub bounded : c.last_index ≤ n
  pub fresh : IsFresh c

same-IsCounted :
    (n : ℕ) (c c' : Connection Forward) → SameRequests c c' → IsCounted n c → IsCounted n c'
same-IsCounted n c c' same v = record {
  bounded = omega (arith, same.last_index, v.bounded);
  fresh = record {
    passed = λ i above. rw same.active (v.fresh.passed i (omega (arith, same.last_index)));
  };
}

later-IsCounted : (n : ℕ) (c : Connection Forward) → IsCounted n c → IsCounted (suc n) c
later-IsCounted n c v = record { bounded = omega (arith, v.bounded); fresh = v.fresh }

settled-IsCounted :
    (n : ℕ) (c : Connection Forward) (id : ℕ)
    → IsCounted n c
    → IsCounted n (handle_incoming_response c id).0
settled-IsCounted n c id v = record {
  bounded = elim (Option-cases (lookup id c.active)) [
    | inl h ↦ rw (response_unknown c id h) v.bounded
    | inr (q, h) ↦ rw (response_found c id q h) v.bounded
  ];
  fresh = response-IsFresh c id v.fresh;
}

accepted-IsCounted : (n : ℕ) → IsCounted n (set_keep_raw new_connection true)
unfolding set_keep_raw new_connection
accepted-IsCounted n = record {
  bounded = omega arith;
  fresh = record { passed = new_connection-IsFresh.passed };
}

abbrev AllCounted : {S : Type 0} → ℕ → World S → Type 0
AllCounted n w = (c : ℕ) → IsCounted n (w.conns c)

module _ {S : Type 0} (env : Env) (n : ℕ) where
  same-AllCounted : (w w' : World S) → Untouched w w' → AllCounted n w → AllCounted n w'
  same-AllCounted w w' same v c = same-IsCounted n (w.conns c) (w'.conns c) (same c) (v c)

  later-AllCounted : (w : World S) → AllCounted n w → AllCounted (suc n) w
  later-AllCounted w v c = later-IsCounted n (w.conns c) (v c)

  put-AllCounted :
      (w : World S) (k : ℕ) (c : Connection Forward)
      → IsCounted n c
      → AllCounted n w
      → AllCounted n (put w k c)
  put-AllCounted w k c new v j = update_related (λ a b. IsCounted n b) w.conns k c v new j

module _ {S : Type 0} (env : Env) (n : ℕ) (room : n + 1 < 2 ^ 32) where
  passed-AllCounted :
      (w : World S) (f : Forward) (raw : List Value) (owner : ℕ)
      → AllCounted n w
      → AllCounted (suc n) (put w owner (passed_to env w f raw owner).0)
  passed-AllCounted w f raw owner v =
      let c = w.conns owner in
      let enough : c.last_index + 1 < 2 ^ 32 = omega (arith, (v owner).bounded) in
      put-AllCounted env (suc n) w owner (passed_to env w f raw owner).0
        (record {
          bounded = omega (
            arith,
            (v owner).bounded,
            send_request_counter (env.wire owner) c f.method raw f enough,
          );
          fresh = send_request-IsFresh (env.wire owner) c f.method raw f enough (v owner).fresh;
        })
        (later-AllCounted env n w v)

  Outcome-AllCounted :
      (w : World S) (f : Forward) (raw : List Value) {w' : World S}
      → Outcome env w f raw w'
      → AllCounted n w
      → AllCounted (suc n) w'
  Outcome-AllCounted w f raw (answered w' r e quiet) v =
      same-AllCounted env (suc n) w' (fwd_res env w' f r e) (fwd_res-same env w' f r e)
        (same-AllCounted env (suc n) w w' quiet.requests (later-AllCounted env n w v))
  Outcome-AllCounted w f raw (refused owner e error routed failed) v =
      let p = put w owner (passed_to env w f raw owner).0 in
      same-AllCounted env (suc n) p (fwd_res env p f nil error) (fwd_res-same env p f nil error)
        (passed-AllCounted w f raw owner v)
  Outcome-AllCounted w f raw (unanswered h params known silent) v = later-AllCounted env n w v
  Outcome-AllCounted w f raw (waits owner id routed sent entry) v =
      passed-AllCounted w f raw owner v

  response_outcome-AllCounted :
      (w : World S) (conn : ℕ) (r e : Value) (p : Connection Forward × Result (OutRequest Forward))
      → AllCounted n (put w conn p.0)
      → AllCounted n (response_outcome env w conn r e p)
  unfolding response_outcome
  response_outcome-AllCounted w conn r e (c, err x) v = v
  response_outcome-AllCounted w conn r e (c, ok q) v =
      let p = put w conn c in
      same-AllCounted env n p (fwd_res env p q.res r e) (fwd_res-same env p q.res r e) v

  handle_packet-AllCounted :
      (w : World S) (conn : ℕ) (p : RpcPacket)
      → AllCounted n w
      → AllCounted (suc n) (handle_packet env w conn p)
  unfolding handle_packet handle_response
  handle_packet-AllCounted w conn p v = of_kind (kind p.msg_type)
    where
      of_kind :
          (k : Kind)
          → AllCounted (suc n) (elim k [
            | request ↦ handle_request env w conn p.msg_id p.method p.params
            | response ↦ handle_response env w conn p.msg_id p.req_error p.req_result
            | notification ↦ handle_notification env w conn p.method p.params
            | unknown ↦ w
          ])
      of_kind request =
          Outcome-AllCounted w (this env w conn p.msg_id p.method p.params) p.params
            (handle_request-Outcome env w conn p.msg_id p.method p.params) v
      of_kind response =
          let settled = handle_incoming_response (w.conns conn) p.msg_id in
          later-AllCounted env n (response_outcome env w conn p.req_result p.req_error settled) (
            response_outcome-AllCounted w conn p.req_result p.req_error settled (
              put-AllCounted env n w conn settled.0
                (settled-IsCounted n (w.conns conn) p.msg_id (v conn)) v))
      of_kind notification =
          later-AllCounted env n (handle_notification env w conn p.method p.params) (
            same-AllCounted env n w (handle_notification env w conn p.method p.params)
              (notification-same env w conn p.method p.params) v)
      of_kind unknown = later-AllCounted env n w v

  accept-AllCounted : (w : World S) → AllCounted n w → AllCounted n (accept w)
  unfolding accept
  accept-AllCounted w v =
      put-AllCounted env n w w.next (set_keep_raw new_connection true) (accepted-IsCounted n) v

  finish-AllCounted : (w : World S) (conn : ℕ) → AllCounted n w → AllCounted n (finish w conn)
  unfolding finish close
  finish-AllCounted w conn v =
      put-AllCounted env n w conn (close (w.conns conn))
        (record { bounded = (v conn).bounded; fresh = record { passed = (v conn).fresh.passed } }) v

  Step-AllCounted : {w w' : World S} → Step env w w' → AllCounted n w → AllCounted (suc n) w'
  Step-AllCounted (accepts w) v = later-AllCounted env n (accept w) (accept-AllCounted w v)
  Step-AllCounted (receives w conn p alive) v = handle_packet-AllCounted w conn p v
  Step-AllCounted (ends w conn alive) v =
      later-AllCounted env n (finish w conn) (finish-AllCounted w conn v)
  Step-AllCounted (answers_late w f r e) v =
      let w' = fwd_res env w f r e in
      later-AllCounted env n w' (same-AllCounted env n w w' (fwd_res-same env w f r e) v)

-- The number of steps.
abbrev pub taken : {S : Type 0} {env : Env} {w w' : World S} → Reach env w w' → ℕ
taken here = zero
taken (next r s) = suc (taken r)

module _ {S : Type 0} (env : Env) where
  Reach-AllCounted :
      (n : ℕ) (w w' : World S) (r : Reach env w w')
      → taken r + n < 2 ^ 32
      → AllCounted n w
      → AllCounted (taken r + n) w'
  Reach-AllCounted n w w' here few v = subst (λ k. AllCounted k w') (omega arith) v
  Reach-AllCounted n w w' (next {t} r s) few v =
      subst (λ k. AllCounted k w') (omega arith)
        (Step-AllCounted env (taken r + n) (omega arith) s
          (Reach-AllCounted n w t r (omega arith) v))

  new_router-AllCounted :
      (internal : Dict Bytes (Handler S)) (s : S) → AllCounted 0 (new_router internal s)
  unfolding new_router
  new_router-AllCounted internal s c = record {
    bounded = unfold new_connection in omega arith;
    fresh = new_connection-IsFresh;
  }

  -- In each world that a new router reaches in fewer than 2 ^ 32 steps, the ID counter of every
  -- connection is at most the number of steps and has passed the IDs of all its waiting requests.
  pub id_counters :
      (internal : Dict Bytes (Handler S)) (s : S) (w : World S)
      (r : Reach env (new_router internal s) w)
      → taken r < 2 ^ 32
      → (c : ℕ) → ((w.conns c).last_index ≤ taken r) × IsFresh (w.conns c)
  id_counters internal s w r few c =
      let v =
        Reach-AllCounted 0 (new_router internal s) w r (omega arith)
          (new_router-AllCounted internal s) c in
      (omega (arith, v.bounded), v.fresh)
