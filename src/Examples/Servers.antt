-- ===== src/Examples/Servers.antt =====
-- examples/ping_server/main.go and examples/mult_server/main.go: what a server writes, from its start.
use arduino_router.Prelude.{
  ◌+◌, ◌<◌, ◌^◌, ◌≡◌, refl, ◌∙◌, ap, none, some, Option, Bytes, List, [], ◌∷◌, ◌++◌, pos, text,
  arith,
}
use arduino_router.Error.{Error, Result, ok, err}
use arduino_router.Value.{Value, nil, int, uint, string, array, items}
use arduino_router.Connection.{Connection, new_connection, message_type_request}
use arduino_router.Connection.Requests.{request_sent, new_connection-IsFresh}
use arduino_router.Connection.Decode.{RpcPacket}
use arduino_router.Connection.Waiting.{responds, send_request_sync, send_request_sync_woken}
use arduino_router.Connection.Serving.{
  RequestHandler, IsUp, serve_all, responses, all_writes, send_whole, response_writes_nothing,
  serve_all_lem,
}
use arduino_router.Cli.Sending.{Link}
use arduino_router.Examples.{serves, server_main, reached_server, registered}

-- [REQUEST, 1, "$/register", [method]]
abbrev pub register_message : Bytes → List Value
register_message method =
    int (pos message_type_request)
    ∷ uint 1
    ∷ string (text "$/register")
    ∷ array (items (string method ∷ []))
    ∷ []

room : (new_connection {H = Unit {0}}).last_index + 1 < 2 ^ 32
unfolding new_connection
room = omega arith

registered_serves :
    (r : Connection (Unit {0}) × Option (Result (Value × Value))) (result : Value)
    → r.1 ≡ some (ok (result, nil))
    → registered r ≡ serves r.0
unfolding registered
registered_serves (c, none) result h = cc
registered_serves (c, some (err e)) result h = cc
registered_serves (c, some (ok (v, e))) result h = let accepted : e ≡ nil = cc in rw accepted

module _ (link : Link) (up : IsUp link.wire) (method : Bytes) where
  abbrev asks_router : Value → Connection (Unit {0}) × Option (Result (Value × Value))
  asks_router result =
      send_request_sync link.wire new_connection (text "$/register") (string method ∷ []) tt
        (responds result nil)

  abbrev asking : Connection (Unit {0}) × Option Error
  asking = request_sent link.wire new_connection (text "$/register") (string method ∷ []) tt

  asking_whole :
      (asking.0.buffer ≡ none)
      × (asking.0.out ≡ link.wire.chunks (register_message method))
      × (asking.1 ≡ none)
  unfolding new_connection items
  asking_whole =
      let e = send_whole link.wire up _ (register_message method) refl in
      (ap (λ r. r.0.buffer) e, ap (λ r. r.0.out) e, ap (λ r. r.1) e)

  register_is_sent :
      (result : Value)
      → ((asks_router result).0.buffer ≡ none)
        × ((asks_router result).0.out ≡ link.wire.chunks (register_message method))
        × ((asks_router result).1 ≡ some (ok (result, nil)))
  unfolding new_connection
  register_is_sent result =
      let (unlimited, whole, fine) = asking_whole in
      let (same_buffer, same_out) = response_writes_nothing asking.0 1 in
      rw
        (send_request_sync_woken link.wire new_connection (text "$/register") (string method ∷ [])
          tt room new_connection-IsFresh fine result nil)
        (same_buffer ∙ unlimited, same_out ∙ whole, refl)

  -- Over a stream and an encoder without errors, where the router is reached and answers the
  -- registration without an error: the server of a method waits forever, and over any packets,
  -- what it writes is its registration and then, for each request in order, the handler's answer
  -- under the ID of that request.
  pub server_answers :
      (handler : RequestHandler) (result : Value)
      → link.dial (text "tcp") (text ":8900") ≡ none
      → link.wake ≡ responds result nil
      → (c : Connection (Unit {0})) × (server_main link method ≡ serves c)
        × ((packets : List RpcPacket)
            → (serve_all link.wire handler c packets).out
              ≡ all_writes link.wire (register_message method ∷ responses handler packets))
  unfolding server_main reached_server registered
  server_answers handler result reached woken =
      let (unlimited, whole, answer) = register_is_sent result in
      (
        (asks_router result).0,
        rw (reached, woken) (registered_serves (asks_router result) result answer),
        λ packets.
            serve_all_lem link.wire up handler (asks_router result).0 packets unlimited
            ∙ ap (λ l. l ++ all_writes link.wire (responses handler packets)) whole,
      )
