-- ===== src/Connection.antt =====
-- msgpackrpc/connection.go: the state of a connection and what it sends. The callbacks that wait
-- for responses are values of a type `H`, which the owner of the connection interprets.
pub mod Decode
pub mod Sending
pub mod Requests
pub mod Limits
pub mod Waiting
pub mod Serving
mod Tests
use arduino_router.Prelude.{
  ℕ, ◌+◌, ◌%◌, ◌^◌, Option, none, some, Bool, true, false, Bytes, nat_eq, decimal, List, [], ◌∷◌,
  ◌++◌, ℤ, pos, negsuc, leb_ℤ, if◌then◌else◌, text,
}
use arduino_router.Dict.{Dict, empty, lookup, insert, delete}
use arduino_router.Error.{Error, limit_exceeded, wrapped, fault, Result, ok, err}
use arduino_router.Value.{Value, int, uint, string, array, items}
use arduino_router.LimitedBuffer.{LimitedBuffer, new_limited_buffer, write, bytes, reset}

-- type outRequest
pub record OutRequest (H : Type 0) : Type 0 where
  pub res : H
  pub method : Bytes

-- type Connection: `out` holds the writes made on the stream so far, `buffer` is msgpBuffer.
pub record Connection (H : Type 0) : Type 0 where
  pub out : List Bytes
  pub buffer : Option LimitedBuffer
  pub keep_raw : Bool
  pub active : Dict ℕ (OutRequest H)
  pub last_index : ℕ
  pub closed : Bool

-- What the encoder of msgpack and the stream do: the writes that `Encode` makes for a message, the
-- error with which it ends after them, and the error of a write, given the writes before it.
pub record Wire : Type 0 where
  pub chunks : List Value → List Bytes
  pub encode_error : List Value → Option Error
  pub write_error : List Bytes → Bytes → Option Error

abbrev pub message_type_request : ℕ
message_type_request = 0

abbrev pub message_type_response : ℕ
message_type_response = 1

abbrev pub message_type_notification : ℕ
message_type_notification = 2

-- What is written to a limited buffer for a message; the encoder stops at the first error.
unfoldable pub encode_to_buffer :
    LimitedBuffer → List Bytes → Option Error → LimitedBuffer × Option Error
encode_to_buffer b [] end = (b, end)
encode_to_buffer b (p ∷ ps) end =
    let w = write b p in
    elim w.err [
      | some limit ↦ (w.buffer, some (limit_exceeded limit))
      | none ↦ encode_to_buffer w.buffer ps end
    ]

pub unknown_response : ℕ → Error
unknown_response id = fault (
    text "invalid ID in request response '"
    ++ (decimal id ++ text "': double answer or request not sent"))

module _ {H : Type 0} where
  unfoldable pub new_connection : Connection H
  new_connection = record {
    out = [];
    buffer = none;
    keep_raw = false;
    active = empty;
    last_index = 0;
    closed = false;
  }

  -- The assignment of nil is overwritten, as in the source; `none` is the panic of `make`.
  unfoldable pub set_max_outgoing_message_size : Connection H → ℤ → Option (Connection H)
  set_max_outgoing_message_size c size =
      let c' = if leb_ℤ size (pos 0) then record c { buffer = none } else c in
      elim (new_limited_buffer size) [ none ↦ none | some b ↦ some (record c' { buffer = some b }) ]

  unfoldable pub set_keep_raw : Connection H → Bool → Connection H
  set_keep_raw c keep_as_raw = record c { keep_raw = keep_as_raw }

  unfoldable pub close : Connection H → Connection H
  close c = record c { closed = true }

  -- A response: the callback of the request with this ID, which is forgotten, or an error for the
  -- error handler.
  unfoldable pub handle_incoming_response : Connection H → ℕ → Connection H × Result (OutRequest H)
  unfolding unknown_response
  handle_incoming_response c id = elim (lookup id c.active) [
    | some req ↦ (record c { active = delete id c.active }, ok req)
    | none ↦ (c, err (unknown_response id))
  ]

module _ {H : Type 0} (wire : Wire) where
  write_out : Connection H → Bytes → Connection H × Option Error
  write_out c p = (record c { out = c.out ++ (p ∷ []) }, wire.write_error c.out p)

  encode_to_out : Connection H → List Bytes → Option Error → Connection H × Option Error
  unfolding write_out
  encode_to_out c [] end = (c, end)
  encode_to_out c (p ∷ ps) end =
      let (c', e) = write_out c p in
      elim e [ some failed ↦ (c', some failed) | none ↦ encode_to_out c' ps end ]

  -- With a limit the message is collected first, and written in one piece if it fits.
  send_buffered : Connection H → LimitedBuffer × Option Error → Connection H × Option Error
  unfolding write_out
  send_buffered c (b, some failed) = (record c { buffer = some b }, some failed)
  send_buffered c (b, none) = write_out (record c { buffer = some b }) (bytes b)

  unfoldable pub send : Connection H → List Value → Connection H × Option Error
  unfolding encode_to_out send_buffered
  send c message = elim c.buffer [
    | none ↦ encode_to_out c (wire.chunks message) (wire.encode_error message)
    | some b ↦
        send_buffered c
          (encode_to_buffer (reset b) (wire.chunks message) (wire.encode_error message))
  ]

  -- The callback that handleIncomingRequest hands to the request handler.
  unfoldable pub respond : Connection H → ℕ → Value → Value → Connection H × Option Error
  respond c id req_result req_error =
      send c (int (pos message_type_response) ∷ uint id ∷ req_error ∷ req_result ∷ [])

  after_request : ℕ → Connection H × Option Error → Connection H × Result ℕ
  after_request id (c, some e) =
      (record c { active = delete id c.active }, err (wrapped (text "sending request: ") e []))
  after_request id (c, none) = (c, ok id)

  unfoldable pub send_request : Connection H → Bytes → List Value → H → Connection H × Result ℕ
  unfolding after_request
  send_request c method params res =
      let id = (c.last_index + 1) % 2 ^ 32 in
      after_request id (
        send
          (record c {
            last_index = id;
            active = insert id (record { res = res; method = method }) c.active;
          })
          (int (pos message_type_request) ∷ uint id ∷ string method ∷ array (items params) ∷ []))

  after_notification : Connection H × Option Error → Connection H × Option Error
  after_notification (c, some e) = (c, some (wrapped (text "sending notification: ") e []))
  after_notification (c, none) = (c, none)

  unfoldable pub send_notification : Connection H → Bytes → List Value → Connection H × Option Error
  unfolding after_notification
  send_notification c method params =
      after_notification
        (send c (int (pos message_type_notification) ∷ string method ∷ array (items params) ∷ []))
