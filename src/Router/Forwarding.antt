-- ===== src/Router/Forwarding.antt =====
-- The way of a request to the owner of its method, and of the response back to the caller.
use arduino_router.Prelude.{
  ℕ, ◌+◌, ◌<◌, ◌^◌, ◌≡◌, ◌≢◌, refl, ap, ◌∙◌, none, some, false, Bytes, List, arith,
  bytes_eq_instance, nat_eq,
}
use arduino_router.Dict.{lookup, delete}
use arduino_router.Error.{Result}
use arduino_router.Value.{Value}
use arduino_router.Connection.{Connection, OutRequest, send_request}
use arduino_router.Connection.Requests.{
  IsFresh, request_sent, send_request_sent, send_request_waits, response_found,
}
use arduino_router.Router.Routes.{get_connection_for_method}
use arduino_router.Router.Dispatch.{is_reserved, this, handle_request_other}
use arduino_router.Router.{
  World, Forward, Env, put, update, deliver, fwd_res, forward_request, forward_outcome,
  handle_other, handle_request, handle_response, response_outcome,
}

update_other : {A : Type 0} (f : ℕ → A) (k j : ℕ) (a : A) → j ≢ k → update f k a j ≡ f j
update_other f k j a ne = ground arith

update_self : {A : Type 0} (f : ℕ → A) (k : ℕ) (a : A) → update f k a k ≡ a
update_self f k a = ground arith

-- The response to a waiting request goes to the caller of that request, under the ID that the caller
-- gave it, and the request waits no longer.
pub response_returns :
    {S : Type 0} (env : Env) (w : World S) (client j : ℕ) (req : OutRequest Forward)
    (error result : Value)
    → lookup j (w.conns client).active ≡ some req
    → handle_response env w client j error result
      ≡ fwd_res env
          (put w client (record (w.conns client) { active = delete j (w.conns client).active }))
          req.res
          result
          error
unfolding handle_response response_outcome
response_returns env w client j req error result h = rw (response_found (w.conns client) j req h)

module _ {S : Type 0} (env : Env) (w : World S) (conn id : ℕ) (method : Bytes) (raw : List Value)
    (client : ℕ) (free : is_reserved method ≡ false)
    (external : lookup method w.routes_internal ≡ none)
    (routed : lookup method w.routes ≡ some client) where
  abbrev owner : Connection Forward
  owner = w.conns client

  abbrev passed : Connection Forward × Result ℕ
  passed = send_request (env.wire client) owner method raw (this env w conn id method raw)

  handle_request-forward :
      handle_request env w conn id method raw
      ≡ forward_outcome env (put w client passed.0) (this env w conn id method raw) passed.1
  unfolding handle_other forward_request get_connection_for_method
  handle_request-forward = handle_request_other env w conn id method raw free ∙ ground arith

  module _ (room : owner.last_index + 1 < 2 ^ 32) (fresh : IsFresh owner)
      (sent : (request_sent (env.wire client) owner method raw (this env w conn id method raw)).1
        ≡ none) where
    abbrev asked : World S
    asked = handle_request env w conn id method raw

    forwarded_world :
        asked
        ≡ put w client
            (request_sent (env.wire client) owner method raw (this env w conn id method raw)).0
    unfolding forward_outcome
    forwarded_world =
        handle_request-forward
        ∙ rw
            (send_request_sent (env.wire client) owner method raw (this env w conn id method raw)
              room sent)
            refl

    waiting :
        lookup (owner.last_index + 1) (asked.conns client).active
        ≡ some (record { res = this env w conn id method raw; method = method })
    waiting =
        let f = this env w conn id method raw in
        let waits = send_request_waits (env.wire client) owner method raw f room fresh in
        let step = send_request_sent (env.wire client) owner method raw f room sent in
        rw (forwarded_world, update_self w.conns client)
          (rw step at (waits.0 sent).1 (owner.last_index + 1) ∙ ground arith)

    module _ (other : conn ≢ client) (error result : Value) where
      abbrev answered : World S
      answered = handle_response env asked client (owner.last_index + 1) error result

      asked_self :
          asked.conns client
          ≡ (request_sent (env.wire client) owner method raw (this env w conn id method raw)).0
      asked_self = rw forwarded_world (update_self w.conns client _)

      asked_other : (c : ℕ) → c ≢ client → asked.conns c ≡ w.conns c
      asked_other c ne = rw forwarded_world (update_other w.conns client c _ ne)

      settled : World S
      settled = put asked client (record (asked.conns client) {
        active = delete (owner.last_index + 1) (asked.conns client).active;
      })

      settled_other : (c : ℕ) → c ≢ client → settled.conns c ≡ w.conns c
      unfolding settled
      settled_other c ne = update_other asked.conns client c _ ne ∙ asked_other c ne

      answered_lem :
          answered ≡ put settled conn (deliver (env.wire conn) (settled.conns conn) id result error)
      unfolding settled fwd_res
      answered_lem =
          response_returns env asked client (owner.last_index + 1)
            (record { res = this env w conn id method raw; method = method }) error result waiting

      -- If the method is not reserved and not internal and is routed to another connection, whose
      -- ID counter has room below 2 ^ 32, has passed the IDs of its waiting requests, and to
      -- which the send succeeds: the request changes that connection only, to the state after
      -- sending it under a new ID; the response with that ID changes the caller's connection to
      -- the state after delivering it under the caller's own ID; no third connection changes.
      pub forward_roundtrip :
          (asked.conns client
            ≡ (request_sent (env.wire client) owner method raw (this env w conn id method raw)).0)
          × ((c : ℕ) → c ≢ client → asked.conns c ≡ w.conns c)
          × (answered.conns conn ≡ deliver (env.wire conn) (w.conns conn) id result error)
          × ((c : ℕ) → c ≢ client → c ≢ conn → answered.conns c ≡ w.conns c)
      forward_roundtrip = (
        asked_self,
        asked_other,
        rw answered_lem (
            update_self settled.conns conn _
            ∙ ap (λ c. deliver (env.wire conn) c id result error) (settled_other conn other)),
        λ c ne ne'. rw answered_lem (update_other settled.conns conn c _ ne' ∙ settled_other c ne),
      )
