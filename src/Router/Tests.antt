-- ===== src/Router/Tests.antt =====
-- A router with two connections, of which one has registered "ping", and the theorems at it.
use arduino_router.Prelude.{
  ℕ, ◌+◌, ◌<◌, ◌≤◌, ◌^◌, ap, ◌∙◌, ◌≡◌, ◌≢◌, refl, none, some, true, false, [], ◌∷◌, arith, text,
  pos, nat_eq, if◌then◌else◌, bytes_eq, bytes_eq_instance, length, leb,
}
use arduino_router.Dict.{empty, insert, delete, lookup}
use arduino_router.Value.{Value, string, nil, bool}
use arduino_router.LimitedBuffer.{LimitedBuffer, cap}
use arduino_router.Connection.{
  Connection, OutRequest, Wire, new_connection, send, send_request, respond, set_keep_raw,
}
use arduino_router.Connection.Decode.{RpcPacket}
use arduino_router.Connection.Requests.{IsFresh, new_connection-IsFresh, request_sent}
use arduino_router.Router.Params.{get}
use arduino_router.Router.Routes.{RouteTable, register_method, get_connection_for_method}
use arduino_router.Router.Ownership.{TablesBy, handle_packet-TablesBy}
use arduino_router.Router.Steps.{
  new_router, Reach, accepts, receives, ends, here, next, routes_are_live, ended_is_unrouted,
  Reach-IsValid, new_router-IsValid,
}
use arduino_router.Router.Delivery.{response_message, encoded, deliver_limited}
use arduino_router.Router.Forwarding.{forward_roundtrip}
use arduino_router.Router.Answering.{Outcome, handle_request-Outcome}
use arduino_router.Router.Ids.{taken, id_counters}
use arduino_router.Router.Lasting.{answered_at_last}
use arduino_router.Router.{
  World, Forward, Env, too_big, deliver, accept, finish, handle_packet, handle_request,
  handle_register, handle_response, put, fwd_res,
}

-- An encoder that makes a write of one byte for each value, and streams that take everything.
abbrev wire : Wire
wire = record {
  chunks = elim [ [] ↦ [] | v ∷ (vs → rest) ↦ (7 ∷ []) ∷ rest ];
  encode_error = λ m. none;
  write_error = λ before p. none;
}

abbrev env : Env
env = record { wire = λ c. wire; unmarshal = λ b. string b }

abbrev table : RouteTable
table = record { entries = (text "ping", 1) ∷ [] }

-- The packet with which a client registers "ping".
abbrev registers : RpcPacket
registers = record {
  msg_type = pos 0;
  msg_id = 1;
  method = text "$/register";
  params = string (text "ping") ∷ [];
  req_error = nil;
  req_result = nil;
}

abbrev start : World ℕ
start = new_router empty 0

abbrev one_client : World ℕ
one_client = accept start

abbrev serving : World ℕ
serving = handle_packet env one_client 0 registers

handle_packet-TablesBy_example : TablesBy 0 one_client serving
handle_packet-TablesBy_example = handle_packet-TablesBy env one_client 0 registers

one_client_live : one_client.live 0 ≡ true
unfolding accept new_router
one_client_live = refl

serving_reached : Reach env start serving
serving_reached = next (next here (accepts start)) (receives one_client 0 registers one_client_live)

serving_routed : lookup (text "ping") serving.routes ≡ some 0
unfolding handle_packet handle_request handle_register accept new_router lookup insert
    register_method get bytes_eq fwd_res
serving_routed = refl

routes_are_live_example : serving.live 0 ≡ true
routes_are_live_example =
    routes_are_live env empty 0 serving (text "ping") 0 serving_reached serving_routed

ended_is_unrouted_example : lookup (text "ping") (finish one_client 0).routes ≢ some 0
ended_is_unrouted_example =
    ended_is_unrouted env one_client (finish one_client 0) 0 (text "ping")
      (Reach-IsValid {env = env} (next here (accepts start)) (new_router-IsValid empty 0))
      one_client_live here

abbrev small : LimitedBuffer
small = record { buf = 0 ∷ 0 ∷ 0 ∷ 0 ∷ []; limit = 4; length = 0 }

abbrev asking : Connection Forward
asking = record {
  out = [];
  buffer = some small;
  keep_raw = true;
  active = empty;
  last_index = 0;
  closed = false;
}

deliver_limited_example :
    (deliver wire asking 9 (bool true) nil).out
    ≡ (if leb (length (encoded wire (response_message 9 (bool true) nil))) (cap small)
        then encoded wire (response_message 9 (bool true) nil)
        else encoded wire (response_message 9 nil too_big))
      ∷ []
deliver_limited_example =
    deliver_limited wire (λ before p x h. cc) asking 9 (bool true) nil small refl
      (record { sized = refl; within = omega arith }) refl refl (unfold cap in omega arith)

abbrev idle : Connection Forward
idle = record {
  out = [];
  buffer = none;
  keep_raw = false;
  active = empty;
  last_index = 0;
  closed = false;
}

-- The world in which "ping" belongs to connection 1.
abbrev routed_world : World ℕ
routed_world = record {
  conns = λ c. idle;
  live = λ c. true;
  next = 2;
  routes = table;
  routes_internal = empty;
  state = 0;
}

idle-IsFresh : IsFresh idle
unfolding new_connection
idle-IsFresh = new_connection-IsFresh

-- Connection 0 asks for "ping" with the ID 9.
abbrev asked : World ℕ
asked = handle_request env routed_world 0 9 (text "ping") []

abbrev answered : World ℕ
answered = handle_response env asked 1 1 nil (bool true)

forward_roundtrip_example :
    (asked.conns 1
      ≡ (request_sent wire idle
          (text "ping")
          []
          (record { caller = 0; id = 9; method = text "ping" })).0)
    × ((c : ℕ) → c ≢ 1 → asked.conns c ≡ idle)
    × (answered.conns 0 ≡ deliver wire idle 9 (bool true) nil)
    × ((c : ℕ) → c ≢ 1 → c ≢ 0 → answered.conns c ≡ idle)
unfolding lookup bytes_eq send
forward_roundtrip_example =
    forward_roundtrip env routed_world 0 9 (text "ping") [] 1 refl refl refl (omega arith)
      idle-IsFresh refl (omega arith) nil (bool true)

abbrev asking_ping : Forward
asking_ping = record { caller = 0; id = 9; method = text "ping" }

handle_request-Outcome_example : Outcome env routed_world asking_ping [] asked
handle_request-Outcome_example = handle_request-Outcome env routed_world 0 9 (text "ping") []

abbrev pending : OutRequest Forward
pending = record { res = asking_ping; method = text "ping" }

abbrev two_clients : World ℕ
two_clients = accept one_client

-- Connection 1 registers "ping", and connection 0 asks for it.
abbrev served : World ℕ
served = handle_packet env two_clients 1 registers

abbrev asks : RpcPacket
asks = record {
  msg_type = pos 0;
  msg_id = 9;
  method = text "ping";
  params = [];
  req_error = nil;
  req_result = nil;
}

abbrev waiting : World ℕ
waiting = handle_packet env served 0 asks

both_live : (two_clients.live 0 ≡ true) × (two_clients.live 1 ≡ true) × (two_clients.next ≡ 2)
unfolding accept new_router
both_live = (refl, refl, refl)

served_by : TablesBy 1 two_clients served
served_by = handle_packet-TablesBy env two_clients 1 registers

waiting_by : TablesBy 0 served waiting
waiting_by = handle_packet-TablesBy env served 0 asks

served_live : served.live 0 ≡ true
served_live = ap (λ l. l 0) served_by.live ∙ both_live.0

waiting_reached : Reach env start waiting
waiting_reached =
    next
      (next (next (next here (accepts start)) (accepts one_client))
        (receives two_clients 1 registers both_live.1))
      (receives served 0 asks served_live)

ping_waits : lookup 1 (waiting.conns 1).active ≡ some pending
unfolding accept handle_packet lookup handle_request bytes_eq get register_method new_router fwd_res
    get_connection_for_method insert send_request send deliver respond set_keep_raw new_connection
ping_waits = refl

given : 1 < waiting.next
given = omega (arith, waiting_by.next, served_by.next, both_live.2)

-- The caller leaves.
leaves : Reach env waiting (finish waiting 0)
leaves = next here (ends waiting 0 (ap (λ l. l 0) waiting_by.live ∙ served_live))

few : taken waiting_reached + taken leaves < 2 ^ 32
unfolding waiting_reached leaves
few = omega arith

id_counters_example :
    ((waiting.conns 1).last_index ≤ taken waiting_reached) × IsFresh (waiting.conns 1)
id_counters_example = id_counters env empty 0 waiting waiting_reached (omega (arith, few)) 1

answered_at_last_example :
    (lookup 1 ((finish waiting 0).conns 1).active ≡ some pending)
    × ((error result : Value)
        → handle_response env (finish waiting 0) 1 1 error result
          ≡ fwd_res env
              (put (finish waiting 0) 1 (record ((finish waiting 0).conns 1) {
                active = delete 1 ((finish waiting 0).conns 1).active;
              }))
              asking_ping
              result
              error)
unfolding leaves
answered_at_last_example =
    answered_at_last env empty 0 1 1 pending waiting (finish waiting 0) waiting_reached leaves few
      (tt, tt) given ping_waits
