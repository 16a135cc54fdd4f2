-- ===== src/Connection/Tests.antt =====
-- Two connections, one with a limit on its messages, and the theorems at them.
use arduino_router.Prelude.{ℕ, ◌+◌, ◌≡◌, refl, none, some, false, [], ◌∷◌, arith, text, nat_eq}
use arduino_router.Dict.{empty, insert, lookup}
use arduino_router.Error.{Error, ok, err, limit_exceeded}
use arduino_router.Value.{Value, nil}
use arduino_router.LimitedBuffer.{new_limited_buffer}
use arduino_router.Connection.Waiting.{responds, cancels, send_request_sync, send_request_sync_lem}
use arduino_router.Connection.{set_max_outgoing_message_size}
use arduino_router.Connection.Limits.{zero_blocks}
use arduino_router.Connection.{Connection, OutRequest, Wire, new_connection, send}
use arduino_router.Connection.Requests.{IsFresh, new_connection-IsFresh, request_sent}

-- An encoder that makes a write of one byte for each value, and a stream that takes everything.
abbrev wire : Wire
wire = record {
  chunks = elim [ [] ↦ [] | v ∷ (vs → rest) ↦ (7 ∷ []) ∷ rest ];
  encode_error = λ m. none;
  write_error = λ before p. none;
}

abbrev plain : Connection ℕ
plain = record {
  out = [];
  buffer = none;
  keep_raw = false;
  active = empty;
  last_index = 0;
  closed = false;
}

plain-IsFresh : IsFresh plain
unfolding new_connection
plain-IsFresh = new_connection-IsFresh

abbrev pending : OutRequest ℕ
pending = record { res = 5; method = text "ping" }

abbrev waiting : Connection ℕ
waiting = record plain { active = insert 3 pending empty; last_index = 3 }

abbrev blocked : Connection ℕ
blocked = record plain { buffer = some (record { buf = []; limit = 0; length = 0 }) }

zero_blocks_example :
    ((send wire blocked (nil ∷ [])).0.out ≡ [])
    × ((send wire blocked (nil ∷ [])).1 ≡ some (limit_exceeded 0))
unfolding set_max_outgoing_message_size new_limited_buffer
zero_blocks_example = zero_blocks wire plain blocked (nil ∷ []) refl (omega arith)

sends : (request_sent wire plain (text "ping") [] 5).1 ≡ none
unfolding send insert
sends = refl

send_request_sync_lem_example :
    ((v e : Value)
      → ((send_request_sync wire plain (text "ping") [] 5 (responds v e)).1 ≡ some (ok (v, e)))
        × ((i : ℕ)
            → lookup i (send_request_sync wire plain (text "ping") [] 5 (responds v e)).0.active
              ≡ lookup i empty))
    × ((e : Error)
        → ((send_request_sync wire plain (text "ping") [] 5 (cancels e)).1 ≡ some (err e))
          × (lookup (0 + 1) (send_request_sync wire plain (text "ping") [] 5 (cancels e)).0.active
              ≡ some pending))
send_request_sync_lem_example =
    send_request_sync_lem wire plain (text "ping") [] 5 (omega arith) plain-IsFresh sends
