-- ===== src/Network.antt =====
-- internal/network-api/network-api.go: the tables of sockets and the search for a free ID. The
-- methods of the API, in the child modules, return the tables as they leave them, with the result
-- and the error that they hand to `res`.
pub mod Tcp
pub mod Stream
pub mod Ssl
pub mod Ids
pub mod Opening
pub mod Closing
pub mod Packets
mod Pieces
pub mod Udp
mod UdpClosing
mod Tests
use arduino_router.Prelude.{
  ℕ, zero, suc, ◌+◌, ◌%◌, ◌^◌, Option, none, some, Bool, true, false, ◌||◌, Bytes, List, [], ◌∷◌,
  ◌++◌, ℤ, pos, negsuc, leb_ℤ, ltb, ◌==◌, if◌then◌else◌, text, decimal, length, is_some, nat_eq,
}
use arduino_router.Strings.{contains}
use arduino_router.Reply.{Answer, fail, succeed}
use arduino_router.Dict.{Dict, lookup, insert, delete, size, empty}
use arduino_router.Error.{Error, Result, ok, err, error_text}
use arduino_router.Value.{Value, nil, bool, int, uint, string, bytes, array, items}
use arduino_router.Conversion.{to_int, to_uint}

-- The package's variables; a socket is known by its pointer, a UDP address by its text.
pub record Net : Type 0 where
  pub live_connections : Dict ℕ ℕ
  pub live_listeners : Dict ℕ ℕ
  pub live_udp_connections : Dict ℕ ℕ
  pub udp_read_buffers : Dict ℕ Bytes
  pub udp_write_targets : Dict ℕ Bytes
  pub udp_write_buffers : Dict ℕ Bytes
  pub next_connection_id : ℕ

unfoldable pub initial : Net
initial = record {
  live_connections = empty;
  live_listeners = empty;
  live_udp_connections = empty;
  udp_read_buffers = empty;
  udp_write_targets = empty;
  udp_write_buffers = empty;
  next_connection_id = 0;
}

-- A read deadline: none, or so many milliseconds from now.
pub data Deadline : Type 0 where
  never : Deadline
  after : ℕ → Deadline

-- What the packages net, crypto and strconv answer to the calls of one method. A read gives the
-- bytes that it put into the buffer, also beside an error.
pub record Sockets : Type 0 where
  pub dial : Bytes → Result ℕ
  pub listen : Bytes → Result ℕ
  pub accept : ℕ → Result ℕ
  pub close : ℕ → Option Error
  pub close_listener : ℕ → Option Error
  pub set_read_deadline : ℕ → Deadline → Option Error
  pub read : ℕ → ℕ → Bytes × Option Error
  pub write : ℕ → Bytes → Result ℕ
  pub is_deadline_exceeded : Error → Bool
  pub append_certs_from_pem : Bytes → Bool
  pub tls_dial : Bytes → Option Bytes → Result ℕ

abbrev pub Reply : Type 0
Reply = Answer Net

-- net.JoinHostPort of the standard library: a host with a colon stands in brackets.
unfoldable pub join_host_port : Bytes → Bytes → Bytes
join_host_port host port =
    if contains b':' host
    then text "[" ++ (host ++ (text "]:" ++ port))
    else host ++ (text ":" ++ port)

-- `exists1 || exists2`
abbrev pub taken : Net → ℕ → Bool
taken net id = is_some (lookup id net.live_connections) || is_some (lookup id net.live_listeners)

-- The loop of takeLockAndGenerateNextID, from the counter's value.
unfoldable pub search_id : ℕ → (ℕ → Bool) → ℕ → Option ℕ
search_id zero used last = none
search_id (suc fuel) used last =
    let id = (last + 1) % 2 ^ 32 in
    let rest = search_id fuel used id in if used id then rest else some id

-- One round for each entry of the two tables, and one more.
unfoldable pub next_id : Net → Option ℕ
unfolding search_id
next_id net =
    search_id (suc (size net.live_connections + size net.live_listeners)) (taken net)
      net.next_connection_id

abbrev pub counted : Net → ℕ → Net
counted net id = record net { next_connection_id = id }

-- Where the search finds no ID, the source's loop goes on for ever, and the tables stay as they are.
unfoldable pub add_connection : Net → ℕ → Reply
add_connection net conn = elim (next_id net) [
  | none ↦ succeed net nil
  | some id ↦
      succeed (record (counted net id) { live_connections = insert id conn net.live_connections })
        (uint id)
]

unfoldable pub add_listener : Net → ℕ → Reply
add_listener net listener = elim (next_id net) [
  | none ↦ succeed net nil
  | some id ↦
      succeed (record (counted net id) { live_listeners = insert id listener net.live_listeners })
        (uint id)
]
