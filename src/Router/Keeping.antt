-- ===== src/Router/Keeping.antt =====
-- internal/msgpackrouter/router.go: how long a request waits at the owner of its method.
use arduino_router.Prelude.{
  ℕ, ◌+◌, ◌<◌, ◌^◌, ◌≡◌, ◌≢◌, ◌⊎◌, refl, sym, subst, inl, inr, Option, none, some, Bytes, List, [],
  ◌∷◌, ℤ, arith, bytes_eq, bytes_eq_instance, nat_eq, ==_iff, Option-cases, Bool-cases, leb_ℤ, pos,
  text, ◌==◌,
}
use arduino_router.Dict.{lookup, lookup-delete}
use arduino_router.Error.{Result, ok, err}
use arduino_router.Value.{Value, nil}
use arduino_router.Conversion.{to_int}
use arduino_router.Connection.{Connection, OutRequest, handle_incoming_response}
use arduino_router.Connection.Decode.{
  RpcPacket, Kind, kind, request, response, notification, unknown,
}
use arduino_router.Connection.Requests.{
  IsFresh, send_request_keeps, response_found, response_unknown,
}
use arduino_router.Connection.Sending.{SameRequests, send_notification-SameRequests}
use arduino_router.Router.Delivery.{deliver-SameRequests}
use arduino_router.Router.Dispatch.{this}
use arduino_router.Router.Answering.{
  Outcome, answered, refused, waits, unanswered, SameRequests-refl, update_related,
  limit_messages-Quiet, handle_request-Outcome, passed_to,
}
use arduino_router.Router.{
  World, Forward, Env, put, fwd_res, notify_max_msg_size, handle_notified_max, notify_internal,
  forward_notification, notify_other, handle_notification, response_outcome, handle_response,
  handle_request, handle_packet,
}

-- The same requests wait on all connections.
abbrev pub Untouched : {S : Type 0} → World S → World S → Type 0
Untouched w w' = (c : ℕ) → SameRequests (w.conns c) (w'.conns c)

module _ {S : Type 0} (env : Env) where
  pub fwd_res-same : (w : World S) (f : Forward) (r e : Value) → Untouched w (fwd_res env w f r e)
  unfolding fwd_res
  fwd_res-same w f r e =
      update_related SameRequests w.conns f.caller _ (λ j. SameRequests-refl (w.conns j))
        (deliver-SameRequests (env.wire f.caller) (w.conns f.caller) f.id r e)

  notify_max-same :
      (w : World S) (conn : ℕ) (n : Option ℤ) → Untouched w (notify_max_msg_size env w conn n)
  unfolding notify_max_msg_size
  notify_max-same w conn none = λ c. SameRequests-refl (w.conns c)
  notify_max-same w conn (some size) = elim (Bool-cases (leb_ℤ size (pos 127))) [
    | inl h ↦ rw h (λ c. SameRequests-refl (w.conns c))
    | inr h ↦ rw h ((limit_messages-Quiet w conn size).requests)
  ]

  notified_max-same :
      (w : World S) (conn : ℕ) (params : List Value)
      → Untouched w (handle_notified_max env w conn params)
  unfolding handle_notified_max
  notified_max-same w conn (v ∷ []) = notify_max-same w conn (to_int v)
  notified_max-same w conn [] = λ c. SameRequests-refl (w.conns c)
  notified_max-same w conn (v ∷ u ∷ rest) = λ c. SameRequests-refl (w.conns c)

  forward_notification-same :
      (w : World S) (method : Bytes) (raw : List Value) (client : Option ℕ)
      → Untouched w (forward_notification env w method raw client)
  unfolding forward_notification
  forward_notification-same w method raw none = λ c. SameRequests-refl (w.conns c)
  forward_notification-same w method raw (some client) =
      update_related SameRequests w.conns client _ (λ j. SameRequests-refl (w.conns j))
        (send_notification-SameRequests (env.wire client) (w.conns client) method raw)

  notify_other-same :
      (w : World S) (conn : ℕ) (method : Bytes) (raw : List Value)
      → Untouched w (notify_other env w conn method raw)
  unfolding notify_other notify_internal
  notify_other-same w conn method raw = elim (Option-cases (lookup method w.routes_internal)) [
    | inl e ↦ rw (e, notify_other) (forward_notification-same w method raw _)
    | inr (h, e) ↦ rw (e, notify_other) (λ c. SameRequests-refl (w.conns c))
  ]

  pub notification-same :
      (w : World S) (conn : ℕ) (method : Bytes) (raw : List Value)
      → Untouched w (handle_notification env w conn method raw)
  unfolding handle_notification
  notification-same w conn method raw =
      elim (Bool-cases (bytes_eq method (text "$/setMaxMsgSize"))) [
        | inl h ↦ rw h (notified_max-same w conn _)
        | inr h ↦ rw h (notify_other-same w conn method raw)
      ]

response_keeps :
    (c : Connection Forward) (id j : ℕ) (req : OutRequest Forward)
    → id ≢ j
    → lookup j c.active ≡ some req
    → lookup j (handle_incoming_response c id).0.active ≡ some req
response_keeps c id j req ne waiting = elim (Option-cases (lookup id c.active)) [
  | inl h ↦ rw (response_unknown c id h) waiting
  | inr (q, h) ↦ rw (response_found c id q h) (rw (lookup-delete, waiting) (ground (arith, ne)))
]

module _ {S : Type 0} (env : Env) (client j : ℕ) (req : OutRequest Forward) where
  -- The request waits at `client` under the ID `j`.
  abbrev Waits : World S → Type 0
  Waits w = lookup j (w.conns client).active ≡ some req

  same-Waits : (w w' : World S) → Untouched w w' → Waits w → Waits w'
  same-Waits w w' same waiting = rw ((same client).active) waiting

  answer-Waits : (w : World S) (f : Forward) (r e : Value) → Waits w → Waits (fwd_res env w f r e)
  answer-Waits w f r e waiting =
      same-Waits w (fwd_res env w f r e) (fwd_res-same env w f r e) waiting

  passed-Waits :
      (w : World S) (f : Forward) (raw : List Value) (owner : ℕ)
      → (w.conns owner).last_index + 1 < 2 ^ 32
      → IsFresh (w.conns owner)
      → Waits w
      → Waits (put w owner (passed_to env w f raw owner).0)
  passed-Waits w f raw owner room fresh waiting = elim (Bool-cases (owner == client)) [
    | inl e ↦
        let same = (==_iff owner client).0 e in
        rw e (
          send_request_keeps (env.wire owner) (w.conns owner) f.method raw f room fresh j req
            (subst (λ k. lookup j (w.conns k).active ≡ some req) (sym same) waiting))
    | inr e ↦ rw e waiting
  ]

  Outcome-Waits :
      (w : World S) (f : Forward) (raw : List Value) {w' : World S}
      → Outcome env w f raw w'
      → ((owner : ℕ) → ((w.conns owner).last_index + 1 < 2 ^ 32) × IsFresh (w.conns owner))
      → Waits w
      → Waits w'
  Outcome-Waits w f raw (answered w' r e quiet) room waiting =
      answer-Waits w' f r e (same-Waits w w' quiet.requests waiting)
  Outcome-Waits w f raw (refused owner e error routed failed) room waiting =
      answer-Waits (put w owner (passed_to env w f raw owner).0) f nil error
        (passed-Waits w f raw owner (room owner).0 (room owner).1 waiting)
  Outcome-Waits w f raw (unanswered h params known silent) room waiting = waiting
  Outcome-Waits w f raw (waits owner id routed sent entry) room waiting =
      passed-Waits w f raw owner (room owner).0 (room owner).1 waiting

  settled-Waits :
      (w : World S) (conn id : ℕ)
      → (conn ≢ client) ⊎ (id ≢ j)
      → Waits w
      → Waits (put w conn (handle_incoming_response (w.conns conn) id).0)
  settled-Waits w conn id other waiting = elim (Bool-cases (conn == client)) [
    | inr e ↦ rw e waiting
    | inl e ↦
        let same = (==_iff conn client).0 e in
        let here = subst (λ k. lookup j (w.conns k).active ≡ some req) (sym same) waiting in
        rw e (elim other [
          | inl ne ↦ absurd (ne same)
          | inr ne ↦ response_keeps (w.conns conn) id j req ne here
        ])
  ]

  response_outcome-Waits :
      (w : World S) (conn : ℕ) (r e : Value) (p : Connection Forward × Result (OutRequest Forward))
      → Waits (put w conn p.0)
      → Waits (response_outcome env w conn r e p)
  unfolding response_outcome
  response_outcome-Waits w conn r e (c, err x) waiting = waiting
  response_outcome-Waits w conn r e (c, ok q) waiting =
      answer-Waits (put w conn c) q.res r e waiting

  response-Waits :
      (w : World S) (conn id : ℕ) (e r : Value)
      → (conn ≢ client) ⊎ (id ≢ j)
      → Waits w
      → Waits (handle_response env w conn id e r)
  unfolding handle_response
  response-Waits w conn id e r other waiting =
      response_outcome-Waits w conn r e (handle_incoming_response (w.conns conn) id)
        (settled-Waits w conn id other waiting)

  -- Where the ID counter of every connection has room below 2 ^ 32 and has passed the IDs of all
  -- its waiting requests: a request that waits at a client goes on waiting there after any packet
  -- of any connection, other than a response of that client with the ID of the request.
  pub waiting_is_kept :
      (w : World S) (conn : ℕ) (p : RpcPacket)
      → ((owner : ℕ) → ((w.conns owner).last_index + 1 < 2 ^ 32) × IsFresh (w.conns owner))
      → (kind p.msg_type ≡ response → (conn ≢ client) ⊎ (p.msg_id ≢ j))
      → lookup j (w.conns client).active ≡ some req
      → lookup j ((handle_packet env w conn p).conns client).active ≡ some req
  unfolding handle_packet
  waiting_is_kept w conn p room other waiting = of_kind (kind p.msg_type) refl
    where
      of_kind :
          (k : Kind)
          → kind p.msg_type ≡ k
          → Waits (elim k [
            | request ↦ handle_request env w conn p.msg_id p.method p.params
            | response ↦ handle_response env w conn p.msg_id p.req_error p.req_result
            | notification ↦ handle_notification env w conn p.method p.params
            | unknown ↦ w
          ])
      of_kind request is =
          Outcome-Waits w (this env w conn p.msg_id p.method p.params) p.params
            (handle_request-Outcome env w conn p.msg_id p.method p.params) room waiting
      of_kind response is =
          response-Waits w conn p.msg_id p.req_error p.req_result (other is) waiting
      of_kind notification is =
          same-Waits w (handle_notification env w conn p.method p.params)
            (notification-same env w conn p.method p.params) waiting
      of_kind unknown is = waiting
