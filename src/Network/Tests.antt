-- ===== src/Network/Tests.antt =====
-- Runs of the methods and the theorems at concrete tables and sockets.
use arduino_router.Prelude.{
  pos, decimal, nat_eq, ℕ, ◌+◌, ◌^◌, ◌<◌, ◌≡◌, refl, ◌↔◌, true, false, none, some, Bytes, [], ◌∷◌,
  text, arith, if◌then◌else◌, ◌==◌, length,
}
use arduino_router.Dict.{lookup_in, insert_in, lookup, insert, size}
use arduino_router.Error.{ok}
use arduino_router.Value.{int, string, uint, uint16}
use arduino_router.Conversion.{to_uint}
use arduino_router.Reply.{succeed}
use arduino_router.Network.{
  add_connection, search_id, Net, initial, Sockets, join_host_port, taken, next_id,
}
use arduino_router.Network.Tcp.{dialled, tcp_connect, tcp_close}
use arduino_router.Network.Ssl.{tcp_connect_ssl}
use arduino_router.Network.Ids.{next_id_found}
use arduino_router.Network.Packets.{udp_begin_packet, udp_end_packet, UdpSockets}
use arduino_router.Network.Pieces.{write_pieces, udp_packet_lem}
use arduino_router.Network.Udp.{udp_close}
use arduino_router.Network.UdpClosing.{IsUdpClosed, udp_close_lem}
use arduino_router.Network.Closing.{IsClosed, connect_close, tcp_close_lem, tcp_connect_ssl_panics}

-- Every call succeeds; a socket has no more than two bytes to read.
abbrev sockets : Sockets
sockets = record {
  dial = λ addr. ok 70;
  listen = λ addr. ok 80;
  accept = λ l. ok 71;
  close = λ c. none;
  close_listener = λ l. none;
  set_read_deadline = λ c d. none;
  read = λ c n. (text "hi", none);
  write = λ c d. ok (length d);
  is_deadline_exceeded = λ e. false;
  append_certs_from_pem = λ p. true;
  tls_dial = λ addr cert. ok 72;
}

-- A listener has the ID 1, and the counter is about to come round.
abbrev busy : Net
busy = record initial {
  live_listeners = record { entries = (0, 80) ∷ (1, 81) ∷ [] };
  next_connection_id = 4294967295;
}

connected :
    tcp_connect sockets busy (string (text "::1") ∷ uint16 80 ∷ [])
    ≡ succeed
        (record busy {
          live_connections = record { entries = (2, 70) ∷ [] };
          next_connection_id = 2;
        })
        (uint 2)
unfolding tcp_connect dialled add_connection next_id search_id to_uint initial lookup lookup_in
    insert insert_in size join_host_port
connected = refl

busy_room : size busy.live_connections + size busy.live_listeners < 2 ^ 32
unfolding size initial
busy_room = omega arith

next_id_found_example : (id : ℕ) × (next_id busy ≡ some id) × (taken busy id ≡ false)
next_id_found_example = next_id_found busy busy_room

eighty : to_uint (uint16 80) ≡ some 80
unfolding to_uint
eighty = refl

two : to_uint (uint 2) ≡ some 2
unfolding to_uint
two = refl

connect_close_example :
    (id : ℕ) × (net' net'' : Net) × (tcp_connect sockets busy
        (string (text "host") ∷ uint16 80 ∷ [])
      ≡ succeed net' (uint id))
    × (tcp_close sockets net' (uint id ∷ []) ≡ succeed net'' (string []))
    × ((j : ℕ) → lookup j net''.live_connections ≡ lookup j busy.live_connections)
    × (net''.live_listeners ≡ busy.live_listeners)
connect_close_example =
    connect_close sockets busy (text "host") (uint16 80) 80 70 eighty refl busy_room

abbrev two_open : Net
two_open = record busy { live_connections = record { entries = (2, 70) ∷ (3, 71) ∷ [] } }

is_open : lookup 2 two_open.live_connections ≡ some 70
unfolding lookup
is_open = refl

tcp_close_lem_example :
    (net' : Net) × (tcp_close sockets two_open (uint 2 ∷ []) ≡ succeed net' (string []))
    × IsClosed sockets net' (uint 2) 2
    × ((j : ℕ)
        → lookup j net'.live_connections
          ≡ (if 2 == j then none else lookup j two_open.live_connections))
    × (net'.live_listeners ≡ two_open.live_listeners)
tcp_close_lem_example = tcp_close_lem sockets two_open (uint 2) 2 70 two is_open

tcp_connect_ssl_panics_example :
    (tcp_connect_ssl sockets busy (string (text "host") ∷ []) ≡ none)
    ↔ ((host : Bytes) × (string (text "host") ∷ [] ≡ string host ∷ []))
tcp_connect_ssl_panics_example = tcp_connect_ssl_panics sockets busy (string (text "host") ∷ [])

-- A packet of 5 bytes has come in on the UDP socket 2.
abbrev received : Net
received = record initial {
  live_udp_connections = record { entries = (2, 90) ∷ [] };
  udp_read_buffers = record { entries = (2, text "hello") ∷ [] };
}

abbrev udp_sockets : UdpSockets
udp_sockets = record {
  resolve_udp_addr = λ addr. ok addr;
  listen_udp = λ addr. ok 90;
  write_to = λ c d addr. ok (length d);
  set_read_deadline = λ c d. none;
  read_from = λ c n. ok (text "abc", text "host:80");
  is_deadline_exceeded = λ e. false;
  split_host_port = λ addr. ok (text "host", text "80");
  close = λ c. none;
}

abbrev no_error : Bytes → Bytes
no_error s = []

socket_2 : lookup 2 received.live_udp_connections ≡ some 90
unfolding lookup
socket_2 = refl

udp_packet_lem_example :
    (net' : Net) × (udp_end_packet udp_sockets
        (write_pieces
          (udp_begin_packet udp_sockets received (uint 2 ∷ string (text "host") ∷ uint16 80 ∷ [])).0
          (uint 2)
          (text "ab" ∷ text "cde" ∷ []))
        (uint 2 ∷ [])
      ≡ succeed net' (int (pos 5)))
    × (lookup 2 net'.udp_write_buffers ≡ none)
udp_packet_lem_example =
    udp_packet_lem udp_sockets received (uint 2) (uint16 80) (text "host")
      (join_host_port (text "host") (decimal 80)) (text "ab" ∷ text "cde" ∷ []) 2 90 80 5 two eighty
      socket_2 refl refl

-- A packet of the socket 2 was begun, and has two bytes.
abbrev writing : Net
writing = record received { udp_write_buffers = record { entries = (2, text "ab") ∷ [] } }

udp_close_lem_example :
    (net' : Net) × (udp_close udp_sockets no_error writing (uint 2 ∷ []) ≡ succeed net' (string []))
    × IsUdpClosed udp_sockets no_error writing net' (uint 2) 2
udp_close_lem_example = udp_close_lem udp_sockets no_error writing (uint 2) 2 90 two socket_2

-- The writing packet can be written to, so the field `still_writes` says something here.
begun_packet : lookup 2 writing.udp_write_buffers ≡ some (text "ab")
unfolding lookup
begun_packet = refl
