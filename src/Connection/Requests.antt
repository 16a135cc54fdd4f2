-- ===== src/Connection/Requests.antt =====
-- Requests and the responses to them: each request gets one answer, under the ID that it was sent with.
use arduino_router.Prelude.{
  ==_iff, ℕ, ◌+◌, ◌%◌, ◌^◌, ◌<◌, ◌≡◌, ◌≢◌, refl, ◌∙◌, Option, none, some, Bytes, List, [], ◌∷◌,
  arith, inl, inr, Option-cases, pos, nat_eq, if◌then◌else◌, ◌==◌, text,
}
use arduino_router.Dict.{
  lookup, insert, delete, lookup-insert, lookup-delete, lookup-delete-insert, lookup-delete_self,
  lookup-empty,
}
use arduino_router.Error.{Error, ok, err, wrapped}
use arduino_router.Value.{Value, int, uint, string, array, items}
use arduino_router.Connection.{
  Connection, OutRequest, Wire, message_type_request, new_connection, send, after_request,
  send_request, handle_incoming_response, unknown_response,
}
use arduino_router.Connection.Sending.{SameRequests, send-SameRequests}

-- Every waiting request has an ID that the counter has passed.
pub record IsFresh {H : Type 0} (c : Connection H) : Type 0 where
  pub passed : (i : ℕ) → c.last_index < i → lookup i c.active ≡ none

pub new_connection-IsFresh : {H : Type 0} → IsFresh (new_connection {H = H})
unfolding new_connection
new_connection-IsFresh = record { passed = λ i h. lookup-empty i }

-- The message of a request.
abbrev pub request_message : ℕ → Bytes → List Value → List Value
request_message id method params =
    int (pos message_type_request) ∷ uint id ∷ string method ∷ array (items params) ∷ []

module _ {H : Type 0} (wire : Wire) (c : Connection H) (method : Bytes) (params : List Value)
    (res : H) where
  -- The connection just before the request is sent.
  abbrev pub registered : Connection H
  registered = record c {
    last_index = c.last_index + 1;
    active = insert (c.last_index + 1) (record { res = res; method = method }) c.active;
  }

  abbrev pub request_sent : Connection H × Option Error
  request_sent = send wire registered (request_message (c.last_index + 1) method params)

  after_request_entry :
      (new id : ℕ) (r : Connection H × Option Error)
      → lookup new r.0.active ≡ some (record { res = res; method = method })
      → (after_request wire new r).1 ≡ ok id
      → lookup id (after_request wire new r).0.active ≡ some (record { res = res; method = method })
  unfolding after_request
  after_request_entry new id (c', none) entry h = cc (entry, h)
  after_request_entry new id (c', some e) entry h = cc h

  -- A request that was sent waits under the ID that is returned, whatever IDs are in use.
  pub send_request_entry :
      (id : ℕ)
      → (send_request wire c method params res).1 ≡ ok id
      → lookup id (send_request wire c method params res).0.active
        ≡ some (record { res = res; method = method })
  unfolding send_request
  send_request_entry id h =
      let new = (c.last_index + 1) % 2 ^ 32 in
      let c' : Connection H = record c {
        last_index = new;
        active = insert new (record { res = res; method = method }) c.active;
      } in
      let message = request_message new method params in
      after_request_entry new id (send wire c' message)
        (rw ((send-SameRequests wire c' message).active, lookup-insert) (ground arith)) h

  module _ (room : c.last_index + 1 < 2 ^ 32) where
    send_request_lem :
        send_request wire c method params res ≡ after_request wire (c.last_index + 1) request_sent
    unfolding send_request
    send_request_lem = let e : (c.last_index + 1) % 2 ^ 32 ≡ c.last_index + 1 = omega arith in rw e

    -- The connection after the request, when the message was sent and when it was not.
    pub send_request_sent :
        request_sent.1 ≡ none
        → send_request wire c method params res ≡ (request_sent.0, ok (c.last_index + 1))
    send_request_sent h = send_request_lem ∙ unfold after_request in ground arith

    send_request_failed :
        (e : Error)
        → request_sent.1 ≡ some e
        → send_request wire c method params res ≡ (
          record request_sent.0 { active = delete (c.last_index + 1) request_sent.0.active },
          err (wrapped (text "sending request: ") e []),
        )
    send_request_failed e h = send_request_lem ∙ unfold after_request in ground arith

    sent_requests : SameRequests registered request_sent.0
    sent_requests = send-SameRequests wire registered _

    -- If the ID counter has room below 2 ^ 32 and has passed the IDs of all waiting requests:
    -- after a successful send the request waits under the next ID, which is returned, and the
    -- others wait as before; after a failed one the error is returned, wrapped, and no waiting
    -- request has changed.
    pub send_request_waits :
        IsFresh c
        → (request_sent.1 ≡ none
            → ((send_request wire c method params res).1 ≡ ok (c.last_index + 1))
              × ((i : ℕ)
                  → lookup i (send_request wire c method params res).0.active ≡ (
                      if (c.last_index + 1) == i
                      then some (record { res = res; method = method })
                      else lookup i c.active)))
          × ((e : Error)
              → request_sent.1 ≡ some e
              → ((send_request wire c method params res).1
                  ≡ err (wrapped (text "sending request: ") e []))
                × ((i : ℕ)
                    → lookup i (send_request wire c method params res).0.active
                      ≡ lookup i c.active))
    send_request_waits f = (
      λ h.
          rw (send_request_sent h)
            (refl, λ i. rw sent_requests.active (lookup-insert (c.last_index + 1) i _ c.active)),
      λ e h. rw (send_request_failed e h) (
        refl,
        λ i. rw sent_requests.active (
            lookup-delete-insert (c.last_index + 1) i _ c.active
              (f.passed (c.last_index + 1) (omega arith))),
      ),
    )

    -- The counter goes on by one, sent or not.
    pub send_request_counter :
        (send_request wire c method params res).0.last_index ≡ c.last_index + 1
    send_request_counter = elim (Option-cases request_sent.1) [
      | inl h ↦ rw (send_request_sent h) (omega (arith, sent_requests.last_index))
      | inr (e, h) ↦ rw (send_request_failed e h) (omega (arith, sent_requests.last_index))
    ]

    -- A request keeps those that wait.
    pub send_request_keeps :
        IsFresh c
        → (i : ℕ) (r : OutRequest H) → lookup i c.active ≡ some r
        → lookup i (send_request wire c method params res).0.active ≡ some r
    send_request_keeps f i r waiting =
        let (done, failed) = send_request_waits f in
        elim (Option-cases request_sent.1) [
          | inl h ↦
              let now = (done h).1 i in
              let free = f.passed (c.last_index + 1) (omega arith) in grind (arith, ==_iff)
          | inr (e, h) ↦ (failed e h).1 i ∙ waiting
        ]

    -- If the ID counter has room below 2 ^ 32 and has passed the IDs of all waiting requests, it
    -- has also after a request, sent or not.
    pub send_request-IsFresh : IsFresh c → IsFresh (send_request wire c method params res).0
    send_request-IsFresh f = elim (Option-cases request_sent.1) [
      | inl h ↦ rw (send_request_sent h) (record {
        passed = λ i above.
            let over : c.last_index + 1 < i = omega (arith, sent_requests.last_index) in
            rw (sent_requests.active, lookup-insert, f.passed i (omega arith)) (ground arith);
      })
      | inr (e, h) ↦ rw (send_request_failed e h) (record {
        passed = λ i above.
            let over : c.last_index + 1 < i = omega (arith, sent_requests.last_index) in
            rw sent_requests.active (
              lookup-delete-insert (c.last_index + 1) i _ c.active
                (f.passed (c.last_index + 1) (omega arith))
              ∙ f.passed i (omega arith));
      })
    ]

pub response_found :
    {H : Type 0} (c : Connection H) (id : ℕ) (req : OutRequest H)
    → lookup id c.active ≡ some req
    → handle_incoming_response c id ≡ (record c { active = delete id c.active }, ok req)
unfolding handle_incoming_response
response_found c id req h = ground arith

-- A response that no request waits for changes nothing.
pub response_unknown :
    {H : Type 0} (c : Connection H) (id : ℕ)
    → lookup id c.active ≡ none
    → handle_incoming_response c id ≡ (c, err (unknown_response id))
unfolding handle_incoming_response
response_unknown c id h = ground arith

pub response-IsFresh :
    {H : Type 0} (c : Connection H) (id : ℕ) → IsFresh c → IsFresh (handle_incoming_response c id).0
response-IsFresh c id f = elim (Option-cases (lookup id c.active)) [
  | inl h ↦ rw (response_unknown c id h) f
  | inr (req, h) ↦
      rw (response_found c id req h)
        (record { passed = λ i above. rw (lookup-delete, f.passed i above) (ground arith) })
]

-- The first response with the ID of a waiting request gets its callback, a second response with
-- that ID is the error of an unknown response, and the requests under other IDs keep waiting.
pub response_once :
    {H : Type 0} (c : Connection H) (id : ℕ) (req : OutRequest H)
    → lookup id c.active ≡ some req
    → ((handle_incoming_response c id).1 ≡ ok req)
      × ((handle_incoming_response (handle_incoming_response c id).0 id).1
          ≡ err (unknown_response id))
      × ((i : ℕ) → i ≢ id → lookup i (handle_incoming_response c id).0.active ≡ lookup i c.active)
response_once c id req h = rw (response_found c id req h) (
  refl,
  rw (
      response_unknown (record c { active = delete id c.active }) id
        (lookup-delete_self id c.active)),
  λ i ne. rw lookup-delete (ground (arith, ne)),
)
