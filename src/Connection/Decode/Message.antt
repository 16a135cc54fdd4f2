-- ===== src/Connection/Decode/Message.antt =====
-- What a packet is, said of a whole message and not of the stream that it comes by: the reference for
-- `decode_rpc_packet`. Also what is assumed of the decoder of msgpack.
use arduino_router.Prelude.{
  ℕ, zero, suc, ◌≡◌, Bool, true, false, Bytes, List, [], ◌∷◌, ◌++◌, map, ℤ, pos, arith, Option,
  none, some, length, text,
}
use arduino_router.Error.{Error, invalid_message, end_of_file, is_invalid_message, Result, ok, err}
use arduino_router.Value.{Value, string, array, raw_message, Items, elements}
use arduino_router.Conversion.{to_int, to_uint}
use arduino_router.Connection.Decode.{
  Decoder, RpcPacket, Kind, request, response, notification, unknown, kind, is_array, zero_packet,
}

abbrev pub is_array_value : Value → Bool
is_array_value (array xs) = true
is_array_value _ = false

-- The documented behaviour of a decoder: `Holds d vs` says that the values `vs` are all that is left
-- to read at `d`, in the form in which DecodeInterface returns them, and each operation takes its
-- value off the front. An array is its header and then its elements.
pub record Reading {D : Type 0} (decoder : Decoder D) : Type 1 where
  pub Holds : D → List Value → Type 0
  pub encoding : Value → Bytes
  pub peek_array :
      (d : D) (xs : Items) (rest : List Value)
      → Holds d (array xs ∷ rest)
      → (t : ℕ) × (decoder.peek_code d ≡ ok t) × (is_array decoder t ≡ true)
  pub peek_other :
      (d : D) (v : Value) (rest : List Value)
      → is_array_value v ≡ false
      → Holds d (v ∷ rest)
      → (t : ℕ) × (decoder.peek_code d ≡ ok t) × (is_array decoder t ≡ false)
  pub peek_end : (d : D) → Holds d [] → decoder.peek_code d ≡ err end_of_file
  pub array_len :
      (d : D) (xs : Items) (rest : List Value)
      → Holds d (array xs ∷ rest)
      → ((decoder.decode_array_len d).0 ≡ length (elements xs))
        × Holds (decoder.decode_array_len d).1 (elements xs ++ rest)
  pub interface :
      (d : D) (v : Value) (rest : List Value)
      → Holds d (v ∷ rest)
      → ((decoder.decode_interface d).0 ≡ ok v) × Holds (decoder.decode_interface d).1 rest
  pub raw :
      (d : D) (v : Value) (rest : List Value)
      → Holds d (v ∷ rest)
      → ((decoder.decode_raw d).0 ≡ ok (encoding v)) × Holds (decoder.decode_raw d).1 rest
  pub skip :
      (d : D) (v : Value) (rest : List Value)
      → Holds d (v ∷ rest)
      → ((decoder.skip d).0 ≡ none) × Holds (decoder.skip d).1 rest

-- A value as the connection keeps it: its bytes, or decoded.
abbrev pub kept : Bool → (Value → Bytes) → Value → Value
kept true encoding v = raw_message (encoding v)
kept false encoding v = v

module _ (keep : Value → Value) where
  abbrev pub call : RpcPacket → Value → Value → Result RpcPacket
  call packet (string method) (array params) =
      ok (record packet { method = method; params = map keep (elements params) })
  call packet (string method) other =
      err (invalid_message (text "invalid packet, expected array for parameters"))
  call packet other params =
      err (invalid_message (text "invalid packet, expected string for method name"))

  abbrev pub identified : Kind → RpcPacket → Option ℕ → Value → Value → Result RpcPacket
  identified k packet none x y =
      err (invalid_message (text "invalid packet, expected uint for message ID"))
  identified response packet (some id) x y =
      ok (record packet { msg_id = id; req_error = keep x; req_result = keep y })
  identified other packet (some id) x y = call (record packet { msg_id = id }) x y

  abbrev pub three : Kind → RpcPacket → Value → Value → Result RpcPacket
  three notification packet method params = call packet method params
  three unknown packet method params =
      err (invalid_message (text "invalid packet, expected request, response or notification"))
  three other packet method params = err (
      invalid_message
        (text "invalid packet, expected array with 4 elements for request or response"))

  abbrev pub four : Kind → RpcPacket → Value → Value → Value → Result RpcPacket
  four notification packet id x y =
      err (invalid_message (text "invalid packet, expected array with 3 elements for notification"))
  four unknown packet id x y =
      err (invalid_message (text "invalid packet, expected request, response or notification"))
  four other packet id x y = identified other packet (to_uint id) x y

  abbrev pub typed_three : Option ℤ → Value → Value → Result RpcPacket
  typed_three none method params =
      err (invalid_message (text "invalid packet, expected int for message type"))
  typed_three (some t) method params =
      three (kind t) (record zero_packet { msg_type = t }) method params

  abbrev pub typed_four : Option ℤ → Value → Value → Value → Result RpcPacket
  typed_four none id x y =
      err (invalid_message (text "invalid packet, expected int for message type"))
  typed_four (some t) id x y = four (kind t) (record zero_packet { msg_type = t }) id x y

  abbrev pub fields : List Value → Result RpcPacket
  fields (t ∷ method ∷ params ∷ []) = typed_three (to_int t) method params
  fields (t ∷ id ∷ x ∷ y ∷ []) = typed_four (to_int t) id x y
  fields other = err (invalid_message (text "invalid packet, expected array with 3 or 4 elements"))

  -- The packet that a message is, or the error that it is reported by.
  unfoldable pub message : Value → Result RpcPacket
  message (array xs) = fields (elements xs)
  message other = err (invalid_message (text "invalid packet, expected array"))

  call-invalid :
      (packet : RpcPacket) (x y : Value) (e : Error)
      → call packet x y ≡ err e
      → is_invalid_message e ≡ true
  call-invalid packet (string m) (array ps) e h = cc
  call-invalid packet (string m) y e h = ground arith
  call-invalid packet x y e h = ground arith

  identified-invalid :
      (k : Kind) (packet : RpcPacket) (id : Option ℕ) (x y : Value) (e : Error)
      → identified k packet id x y ≡ err e
      → is_invalid_message e ≡ true
  identified-invalid k packet none x y e h = ground arith
  identified-invalid response packet (some id) x y e h = cc
  identified-invalid k packet (some id) x y e h =
      call-invalid (record packet { msg_id = id }) x y e h

  typed_three-invalid :
      (t : Option ℤ) (x y : Value) (e : Error)
      → typed_three t x y ≡ err e
      → is_invalid_message e ≡ true
  typed_three-invalid none x y e h = ground arith
  typed_three-invalid (some (pos zero)) x y e h = ground arith
  typed_three-invalid (some (pos (suc zero))) x y e h = ground arith
  typed_three-invalid (some (pos (suc (suc zero)))) x y e h =
      call-invalid (record zero_packet { msg_type = pos 2 }) x y e h
  typed_three-invalid (some t) x y e h = ground arith

  typed_four-invalid :
      (t : Option ℤ) (i x y : Value) (e : Error)
      → typed_four t i x y ≡ err e
      → is_invalid_message e ≡ true
  typed_four-invalid none i x y e h = ground arith
  typed_four-invalid (some (pos zero)) i x y e h =
      identified-invalid request (record zero_packet { msg_type = pos 0 }) (to_uint i) x y e h
  typed_four-invalid (some (pos (suc zero))) i x y e h =
      identified-invalid response (record zero_packet { msg_type = pos 1 }) (to_uint i) x y e h
  typed_four-invalid (some (pos (suc (suc zero)))) i x y e h = ground arith
  typed_four-invalid (some t) i x y e h = ground arith

  fields-invalid : (vs : List Value) (e : Error) → fields vs ≡ err e → is_invalid_message e ≡ true
  fields-invalid (t ∷ x ∷ y ∷ []) e h = typed_three-invalid (to_int t) x y e h
  fields-invalid (t ∷ i ∷ x ∷ y ∷ []) e h = typed_four-invalid (to_int t) i x y e h
  fields-invalid vs e h = ground arith

  -- A message that is no packet is reported as invalid, never by an error that ends the loop.
  pub message-invalid : (v : Value) (e : Error) → message v ≡ err e → is_invalid_message e ≡ true
  unfolding message
  message-invalid (array xs) e h = fields-invalid (elements xs) e h
  message-invalid v e h = ground arith
