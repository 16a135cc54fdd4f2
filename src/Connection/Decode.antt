-- ===== src/Connection/Decode.antt =====
-- msgpackrpc/connection.go: reading packets from a stream of messages, and the loop `Run`.
pub mod Message
mod Parts
pub mod Stream
mod Tests
use arduino_router.Prelude.{
  ℕ, zero, suc, ◌-◌, Bool, true, false, ◌||◌, not, Bytes, List, [], ◌∷◌, ◌++◌, map, ℤ, pos, negsuc,
  Option, none, some, ltb, ◌==◌, if◌then◌else◌, text, decimal,
}
use arduino_router.Error.{
  Error, invalid_message, wrapped, is_invalid_message, error_text, Result, ok, err,
}
use arduino_router.Value.{Value, nil, string, array, raw_message}
use arduino_router.Conversion.{to_int, to_uint}

-- The decoder of msgpack over a stream `D`, and the codes of msgpcode. Each operation returns the
-- stream after it. DecodeArrayLen is called after an array code was peeked, where its result is not
-- negative; its error is ignored.
pub record Decoder (D : Type 0) : Type 0 where
  pub peek_code : D → Result ℕ
  pub is_fixed_array : ℕ → Bool
  pub array16 : ℕ
  pub array32 : ℕ
  pub decode_array_len : D → ℕ × D
  pub decode_interface : D → Result Value × D
  pub decode_raw : D → Result Bytes × D
  pub skip : D → Option Error × D

-- type rpcPacket
pub record RpcPacket : Type 0 where
  pub msg_type : ℤ
  pub msg_id : ℕ
  pub method : Bytes
  pub params : List Value
  pub req_error : Value
  pub req_result : Value

-- The cases of the switches on the message type.
pub data Kind : Type 0 where
  request response notification unknown : Kind

abbrev pub kind : ℤ → Kind
kind (pos zero) = request
kind (pos (suc zero)) = response
kind (pos (suc (suc zero))) = notification
kind _ = unknown

abbrev pub zero_packet : RpcPacket
zero_packet = record {
  msg_type = pos 0;
  msg_id = 0;
  method = [];
  params = [];
  req_error = nil;
  req_result = nil;
}

abbrev pub Decode {ℓ} : Type 0 → Type ℓ → Type ℓ
Decode D A = D → Result A × D

-- fmt.Errorf("context: %w", err)
abbrev pub context {ℓ} : {A : Type ℓ} → Bytes → Result A → Result A
context t (ok a) = ok a
context t (err e) = err (wrapped t e [])

module _ {D : Type 0} where
  abbrev pub continue {ℓ κ} : {A : Type ℓ} {B : Type κ} → Result A → (A → Decode D B) → Decode D B
  continue (ok a) f d = f a d
  continue (err e) f d = (err e, d)

  infixl 5 ◌>>=◌
  abbrev pub ◌>>=◌ {ℓ κ} : {A : Type ℓ} {B : Type κ} → Decode D A → (A → Decode D B) → Decode D B
  ◌>>=◌ m f d = continue (m d).0 f (m d).1

  abbrev pub within {ℓ} : {A : Type ℓ} → Bytes → Decode D A → Decode D A
  within t m d = (context t (m d).0, (m d).1)

module _ {D : Type 0} (decoder : Decoder D) where
  abbrev pub is_array : ℕ → Bool
  is_array t = decoder.is_fixed_array t || (t == decoder.array16 || t == decoder.array32)

  abbrev peek : Decode D ℕ
  peek d = (decoder.peek_code d, d)

  abbrev array_len : Decode D ℕ
  array_len d = (ok (decoder.decode_array_len d).0, (decoder.decode_array_len d).1)

  -- The n elements that are left are skipped. If that fails, its error covers the packet's.
  unfoldable pub skip_and_error : ℕ → Error → Decode D RpcPacket
  skip_and_error zero e d = (err e, d)
  skip_and_error (suc n) e d =
      let (failed, d') = decoder.skip d in
      elim failed [
        | some s ↦ (
          err (
              wrapped (text "failed to skip invalid packet: ") s
                (text "; invalid packet: " ++ error_text e)),
          d',
        )
        | none ↦ skip_and_error n e d'
      ]

  unfoldable pub decode_value : Bool → Decode D Value
  decode_value true d = (decoder.decode_raw >>= λ b d'. (ok (raw_message b), d')) d
  decode_value false d = decoder.decode_interface d

  -- The parameters: `left` of them are to come, and the next has the index i.
  unfoldable pub decode_params : Bool → ℕ → ℕ → Decode D (List Value)
  unfolding decode_value
  decode_params raw zero i d = (ok [], d)
  decode_params raw (suc left) i d =
      continue
        (context (text "error decoding param " ++ (decimal i ++ text ": ")) (decode_value raw d).0)
        (λ p. decode_params raw left (suc i) >>= λ ps d'. (ok (p ∷ ps), d')) (decode_value raw d).1

  decode_method : Bool → RpcPacket → ℕ → Value → Decode D RpcPacket
  unfolding skip_and_error decode_params
  decode_method raw packet l (string method) = do
    t ← within (text "can't read message: ") peek
    if not (is_array t)
        then skip_and_error 1
            (invalid_message (text "invalid packet, expected array for parameters"))
        else do
          param_len ← array_len
          params ← decode_params raw param_len 0
          λ d. (ok (record packet { method = method; params = params }), d)
  decode_method raw packet l other =
      skip_and_error l (invalid_message (text "invalid packet, expected string for method name"))

  decode_call : Bool → RpcPacket → ℕ → Decode D RpcPacket
  unfolding decode_method
  decode_call raw packet l = do
    maybe_method ← within (text "can't read method name: ") decoder.decode_interface
    decode_method raw packet (l - 1) maybe_method

  decode_results : Bool → RpcPacket → Decode D RpcPacket
  unfolding decode_value
  decode_results raw packet = do
    e ← within (text "error decoding error: ") (decode_value raw)
    r ← within (text "error decoding result: ") (decode_value raw)
    λ d. (ok (record packet { req_error = e; req_result = r }), d)

  decode_body : Bool → RpcPacket → ℕ → Kind → Decode D RpcPacket
  unfolding decode_call decode_results
  decode_body raw packet l response = decode_results raw packet
  decode_body raw packet l other = decode_call raw packet l

  decode_id : Bool → RpcPacket → ℕ → Option ℕ → Kind → Decode D RpcPacket
  unfolding skip_and_error decode_body
  decode_id raw packet l none k =
      skip_and_error l (invalid_message (text "invalid packet, expected uint for message ID"))
  decode_id raw packet l (some id) k = decode_body raw (record packet { msg_id = id }) l k

  decode_with_id : Bool → RpcPacket → ℕ → Kind → Decode D RpcPacket
  unfolding skip_and_error decode_id
  decode_with_id raw packet l k =
      if not (l == 3)
      then skip_and_error l (
          invalid_message
            (text "invalid packet, expected array with 4 elements for request or response"))
      else do
        maybe_id ← within (text "can't read message ID: ") decoder.decode_interface
        decode_id raw packet (l - 1) (to_uint maybe_id) k

  decode_kind : Bool → RpcPacket → ℕ → Kind → Decode D RpcPacket
  unfolding skip_and_error decode_with_id decode_call
  decode_kind raw packet l request = decode_with_id raw packet l request
  decode_kind raw packet l response = decode_with_id raw packet l response
  decode_kind raw packet l notification =
      if not (l == 2)
      then skip_and_error l
          (invalid_message (text "invalid packet, expected array with 3 elements for notification"))
      else decode_call raw packet l
  decode_kind raw packet l unknown =
      skip_and_error l
        (invalid_message (text "invalid packet, expected request, response or notification"))

  pub decode_type : Bool → ℕ → Option ℤ → Decode D RpcPacket
  unfolding skip_and_error decode_kind
  decode_type raw l none =
      skip_and_error l (invalid_message (text "invalid packet, expected int for message type"))
  decode_type raw l (some msg_type) =
      decode_kind raw (record zero_packet { msg_type = msg_type }) l (kind msg_type)

  -- `raw` is the connection's paramsAndResponsesAsRaw.
  unfoldable pub decode_rpc_packet : Bool → Decode D RpcPacket
  unfolding skip_and_error decode_type
  decode_rpc_packet raw = do
    t ← within (text "can't read message: ") peek
    if not (is_array t)
        then skip_and_error 1 (invalid_message (text "invalid packet, expected array"))
        else do
          l ← array_len
          if ltb l 3 || ltb 4 l
              then skip_and_error l
                  (invalid_message (text "invalid packet, expected array with 3 or 4 elements"))
              else do
                maybe_msg_type ← within (text "can't read message type: ") decoder.decode_interface
                decode_type raw (l - 1) (to_int maybe_msg_type)

  -- One round of `Run` after another: the packets for the handlers and the errors for the error
  -- handler, in order. The loop ends at an error that is no invalid message.
  unfoldable pub run : ℕ → Bool → D → List (Result RpcPacket)
  run zero raw d = []
  run (suc fuel) raw d =
      let (r, d') = decode_rpc_packet raw d in
      elim r [
        | ok packet ↦ ok packet ∷ run fuel raw d'
        | err e ↦
            err (wrapped (text "decoding packet: ") e [])
            ∷ (elim (is_invalid_message e) [ true ↦ run fuel raw d' | false ↦ [] ])
      ]
