-- ===== src/Examples/Tests.antt =====
-- The examples at concrete calls, and the theorems at these.
use arduino_router.Prelude.{
  ℕ, ◌+◌, ◌*◌, ◌<◌, ◌^◌, ◌≡◌, ◌≢◌, refl, Option, none, false, Bytes, List, [], ◌∷◌, map, Bool, pos,
  text, arith, bytes_eq, bytes_eq_instance, nat_eq,
}
use arduino_router.Dict.{empty, lookup, insert, lookup-empty}
use arduino_router.Error.{Result}
use arduino_router.Value.{Value, nil, bool, int, int8, uint, float64, string, array, items}
use arduino_router.Strings.{cut_prefix}
use arduino_router.Connection.Requests.{IsFresh, request_sent}
use arduino_router.Router.Routes.{register_method}
use arduino_router.Connection.{Connection, Wire, new_connection, set_keep_raw, send, respond}
use arduino_router.Connection.Decode.{RpcPacket, zero_packet}
use arduino_router.Connection.Serving.{IsUp, serve_all, responses, all_writes}
use arduino_router.Connection.Waiting.{responds}
use arduino_router.Cli.{Floats, command, call}
use arduino_router.Cli.Sending.{Link, requested}
use arduino_router.Cli.Sending
use arduino_router.Router.Errors.{router_error, method_not_available}
use arduino_router.Router.Params.{get}
use arduino_router.Router.Dispatch.{this, decoded_params}
use arduino_router.Router.Steps.{new_router}
use arduino_router.Router.{
  World, Env, deliver, fwd_res, accept, finish, handle_request, handle_packet,
}
use arduino_router.Examples.Through.{reply, ping_through}
use arduino_router.Examples.Words.{AllPlain, argument, same_call, socket_client, after_call}
use arduino_router.Examples.Servers.{register_message, server_answers}
use arduino_router.Examples.{serves, server_main, ping, mult}

-- An encoder that makes one write, and a stream that takes everything.
abbrev wire : Wire
wire = record {
  chunks = λ m. text "m" ∷ [];
  encode_error = λ m. none;
  write_error = λ before p. none;
}

wire-IsUp : IsUp wire
wire-IsUp = record { writes = λ before p. refl; encodes = λ m. refl }

-- The router accepts what is registered.
abbrev link : Link
link = record { dial = λ network server. none; wire = wire; wake = responds (bool Bool.true) nil }

server_answers_example :
    (c : Connection (Unit {0})) × (server_main link (text "ping") ≡ serves c)
    × ((packets : List RpcPacket)
        → (serve_all wire ping c packets).out
          ≡ all_writes wire (register_message (text "ping") ∷ responses ping packets))
server_answers_example = server_answers link wire-IsUp (text "ping") ping (bool Bool.true) refl refl

abbrev calls_ping : RpcPacket
calls_ping = record zero_packet { msg_id = 7; method = text "ping"; params = int8 (pos 1) ∷ [] }

-- A request, a notification and a request of another method.
ping-responses :
    responses ping (
      calls_ping
      ∷ record calls_ping { msg_type = pos 2 }
      ∷ record calls_ping { msg_id = 8; method = text "p" }
      ∷ [])
    ≡ (int (pos 1) ∷ uint 7 ∷ nil ∷ array (items (int8 (pos 1) ∷ [])) ∷ [])
      ∷ (int (pos 1) ∷ uint 8 ∷ string (text "method not found: p") ∷ nil ∷ [])
      ∷ []
unfolding ping bytes_eq
ping-responses = refl

abbrev factors : List Value
factors = float64 2 ∷ float64 3 ∷ []

-- An integer is no factor.
mult_of_integers :
    mult ◌*◌ (text "mult") (int8 (pos 2) ∷ int8 (pos 3) ∷ [])
    ≡ (nil, string (text "invalid param type, expected float64"))
unfolding mult bytes_eq
mult_of_integers = refl

abbrev floats : Floats
floats = record {
  parse32 = λ s. none;
  parse64 = λ s. none;
  eq32 = λ a b. false;
  eq64 = λ a b. false;
}

abbrev words : List Bytes
words = text "true" ∷ text "-12" ∷ text "}" ∷ []

words-AllPlain : AllPlain words
unfolding bytes_eq cut_prefix
words-AllPlain = (
  record {
    no_open = refl;
    no_close = refl;
    no_map = refl;
    no_f32 = refl;
    no_f64 = refl;
    no_str = refl;
  },
  (
    record {
      no_open = refl;
      no_close = refl;
      no_map = refl;
      no_f32 = refl;
      no_f64 = refl;
      no_str = refl;
    },
    (
      record {
        no_open = refl;
        no_close = refl;
        no_map = refl;
        no_f32 = refl;
        no_f64 = refl;
        no_str = refl;
      },
      tt,
    ),
  ),
)

same_call_example :
    (command floats (text "m" ∷ words) ≡ call (text "m") (items (map argument words)))
    × (r : Option (Result (Value × Value))) × (Sending.send link
          (text "/s")
          (text "m")
          (items (map argument words))
          false
        ≡ requested r)
    × (socket_client link (text "/s") (text "m" ∷ words) ≡ after_call r)
same_call_example = same_call floats link (text "/s") (text "m") words refl refl words-AllPlain

abbrev env : Env
env = record { wire = λ c. wire; unmarshal = λ b. string b }

-- A router with two clients.
abbrev two_clients : World ℕ
two_clients = accept (accept (new_router empty 0))

-- The second client has registered "ping".
abbrev served : World ℕ
served = handle_request env two_clients 1 1 (text "$/register") (string (text "ping") ∷ [])

named :
    decoded_params env two_clients 1 1 (text "$/register") (string (text "ping") ∷ [])
    ≡ string (text "ping") ∷ []
unfolding get
named = refl

nothing_routed :
    (lookup (text "ping") two_clients.routes ≡ none)
    × (lookup (text "ping") two_clients.routes_internal ≡ none)
unfolding accept new_router lookup
nothing_routed = (refl, refl)

server_connection :
    served.conns 1 ≡ record (set_keep_raw new_connection Bool.true) { out = text "m" ∷ [] }
unfolding accept new_router handle_request bytes_eq get register_method lookup insert fwd_res
    deliver respond send set_keep_raw new_connection
server_connection = refl

server_room : (served.conns 1).last_index + 1 < 2 ^ 32
unfolding set_keep_raw new_connection
server_room = rw server_connection (omega arith)

server-IsFresh : IsFresh (served.conns 1)
unfolding set_keep_raw new_connection
server-IsFresh = rw server_connection (record { passed = λ i h. lookup-empty i })

ping_sent :
    (request_sent wire
      (served.conns 1)
      (text "ping")
      (int8 (pos 1) ∷ [])
      (this env served 0 9 (text "ping") (int8 (pos 1) ∷ []))).1
    ≡ none
unfolding send set_keep_raw new_connection
ping_sent = rw server_connection refl

ping_through_example :
    let params = decoded_params env served 0 9 (text "ping") (int8 (pos 1) ∷ []) in
    let pinged = handle_request env served 0 9 (text "ping") (int8 (pos 1) ∷ []) in
    let answered =
      handle_packet env pinged 1
        (reply (λ v. v) ping ((served.conns 1).last_index + 1) (text "ping") params) in
    (answered.conns 0 ≡ deliver wire (two_clients.conns 0) 9 (array (items params)) nil)
    × ((c : ℕ) → c ≢ 1 → c ≢ 0 → answered.conns c ≡ two_clients.conns c)
    × (handle_request env (finish served 1) 0 9 (text "ping") (int8 (pos 1) ∷ [])
        ≡ fwd_res env
            (finish served 1)
            (this env (finish served 1) 0 9 (text "ping") (int8 (pos 1) ∷ []))
            nil
            (router_error method_not_available (text "method ping not available")))
ping_through_example =
    ping_through env two_clients 1 1 (string (text "ping") ∷ []) named (nothing_routed.0)
      (nothing_routed.1) (λ v. v) 0 9 (int8 (pos 1) ∷ []) (omega arith) server_room server-IsFresh
      ping_sent
