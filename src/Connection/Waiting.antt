-- ===== src/Connection/Waiting.antt =====
-- msgpackrpc/connection.go, SendRequest: a request whose caller waits for the response or for the end
-- of its context. `Requests` has the request itself.
use arduino_router.Prelude.{
  nat_eq, ℕ, ◌+◌, ◌^◌, ◌<◌, ◌≡◌, refl, Option, none, some, Bytes, List, if◌then◌else◌, ◌==◌, ==_iff,
  arith,
}
use arduino_router.Dict.{lookup, lookup-delete}
use arduino_router.Error.{Error, Result, ok, err}
use arduino_router.Value.{Value}
use arduino_router.Connection.{Connection, Wire, OutRequest, send_request, handle_incoming_response}
use arduino_router.Connection.Requests.{
  IsFresh, request_sent, send_request_sent, send_request_waits, response_found,
}

-- What ends the wait: the response with the request's ID, which the loop of the connection takes, or
-- the error of the context.
pub data Wake : Type 0 where
  responds : Value → Value → Wake
  cancels : Error → Wake

module _ {H : Type 0} where
  -- Only a callback that runs closes `done`; without one the caller waits on.
  woken :
      Value
      → Value
      → Connection H × Result (OutRequest H)
      → Connection H × Option (Result (Value × Value))
  woken v e (c, ok req) = (c, some (ok (v, e)))
  woken v e (c, err unknown) = (c, none)

  after_wait : Connection H × Result ℕ → Wake → Connection H × Option (Result (Value × Value))
  unfolding woken
  after_wait (c, err e) wake = (c, some (err e))
  after_wait (c, ok id) (responds v e) = woken v e (handle_incoming_response c id)
  after_wait (c, ok id) (cancels e) = (c, some (err e))

  -- SendRequest, with `none` for a call that has not returned; `res` is the callback that stores the response and closes `done`.
  unfoldable pub send_request_sync :
      Wire
      → Connection H
      → Bytes
      → List Value
      → H
      → Wake
      → Connection H × Option (Result (Value × Value))
  unfolding after_wait
  send_request_sync wire c method params res wake =
      after_wait (send_request wire c method params res) wake

module _ {H : Type 0} (wire : Wire) (c : Connection H) (method : Bytes) (params : List Value)
    (res : H) (room : c.last_index + 1 < 2 ^ 32) (fresh : IsFresh c)
    (sent : (request_sent wire c method params res).1 ≡ none) where
  -- The requests that wait once the message is sent.
  sent_waits :
      (i : ℕ)
      → lookup i (request_sent wire c method params res).0.active ≡ (
          if (c.last_index + 1) == i
          then some (record { res = res; method = method })
          else lookup i c.active)
  sent_waits i =
      let whole = send_request_sent wire c method params res room sent in
      let waits = ((send_request_waits wire c method params res room fresh).0 sent).1 i in
      rw whole at waits

  entry_waits :
      lookup (c.last_index + 1) (request_sent wire c method params res).0.active
      ≡ some (record { res = res; method = method })
  entry_waits = let all = sent_waits (c.last_index + 1) in ground (arith, all)

  pub send_request_sync_woken :
      (v e : Value)
      → send_request_sync wire c method params res (responds v e) ≡ (
        (handle_incoming_response (request_sent wire c method params res).0 (c.last_index + 1)).0,
        some (ok (v, e)),
      )
  unfolding send_request_sync
  send_request_sync_woken v e =
      rw
        (
          send_request_sent wire c method params res room sent,
          response_found (request_sent wire c method params res).0 (c.last_index + 1)
              (record { res = res; method = method }) entry_waits,
        )
        refl

  send_request_responds :
      (v e : Value)
      → ((send_request_sync wire c method params res (responds v e)).1 ≡ some (ok (v, e)))
        × ((i : ℕ)
            → lookup i (send_request_sync wire c method params res (responds v e)).0.active
              ≡ lookup i c.active)
  unfolding send_request_sync
  send_request_responds v e =
      let id = c.last_index + 1 in
      let c' = (request_sent wire c method params res).0 in
      rw
        (
          send_request_sent wire c method params res room sent,
          response_found c' id (record { res = res; method = method }) entry_waits,
        )
        (
          refl,
          λ i.
              let old = sent_waits i in
              let gone = lookup-delete id i c'.active in
              let free = fresh.passed id (omega arith) in grind (arith, ==_iff),
        )

  send_request_cancels :
      (e : Error)
      → ((send_request_sync wire c method params res (cancels e)).1 ≡ some (err e))
        × (lookup
              (c.last_index + 1)
              (send_request_sync wire c method params res (cancels e)).0.active
            ≡ some (record { res = res; method = method }))
  unfolding send_request_sync
  send_request_cancels e =
      rw (send_request_sent wire c method params res room sent) (refl, entry_waits)

  -- Where the request's message is sent, on a connection whose ID counter has room below 2 ^ 32
  -- and has passed the IDs of all waiting requests: a caller that waits gets the response, and
  -- then the same requests wait as before; if the context ends first, it gets that error, and the
  -- request goes on waiting.
  pub send_request_sync_lem :
      ((v e : Value)
        → ((send_request_sync wire c method params res (responds v e)).1 ≡ some (ok (v, e)))
          × ((i : ℕ)
              → lookup i (send_request_sync wire c method params res (responds v e)).0.active
                ≡ lookup i c.active))
      × ((e : Error)
          → ((send_request_sync wire c method params res (cancels e)).1 ≡ some (err e))
            × (lookup
                  (c.last_index + 1)
                  (send_request_sync wire c method params res (cancels e)).0.active
                ≡ some (record { res = res; method = method })))
  send_request_sync_lem = (send_request_responds, send_request_cancels)
