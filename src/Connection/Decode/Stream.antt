-- ===== src/Connection/Decode/Stream.antt =====
-- `decode_rpc_packet` takes exactly one message off the stream, whatever it is.
use arduino_router.Prelude.{
  ℕ, zero, suc, ◌-◌, ◌≡◌, refl, ap, ◌∙◌, Bool, false, List, [], ◌∷◌, ◌++◌, map, length, text, arith,
  ltb, le→ltb, lt→ltb, inl, inr, if◌then◌else◌, ◌||◌, ◌<◌,
}
use arduino_router.Error.{invalid_message, end_of_file, Result, ok, err, wrapped, Result-cases}
use arduino_router.Value.{Value, array, Items, elements}
use arduino_router.Conversion.{to_int}
use arduino_router.Connection.Decode.{
  Decoder, Decode, RpcPacket, ◌>>=◌, within, skip_and_error, decode_type, decode_rpc_packet, run,
}
use arduino_router.Connection.Decode.Message.{
  Reading, is_array_value, fields, message, message-invalid,
}
use arduino_router.Connection.Decode.Parts.{
  Reads, keep_as, within_bind, skip_and_error-Reads, decode_type_3-Reads, decode_type_4-Reads,
}

-- What `Run` hands on of a message.
abbrev pub reported : Result RpcPacket → Result RpcPacket
reported (ok packet) = ok packet
reported (err e) = err (wrapped (text "decoding packet: ") e [])

-- The report at the end of the stream.
abbrev pub at_end : Result RpcPacket
at_end =
    err
      (wrapped (text "decoding packet: ") (wrapped (text "can't read message: ") end_of_file []) [])

module _ {D : Type 0} (decoder : Decoder D) (reading : Reading decoder) where
  open reading use {Holds, encoding}

  -- What follows the header of an array, by the elements that it has.
  decode_fields : Bool → ℕ → Decode D RpcPacket
  unfolding decode_type skip_and_error
  decode_fields raw l =
      if ltb l 3 || ltb 4 l
      then skip_and_error decoder l
          (invalid_message (text "invalid packet, expected array with 3 or 4 elements"))
      else do
        maybe_msg_type ← within (text "can't read message type: ") decoder.decode_interface
        decode_type decoder raw (l - 1) (to_int maybe_msg_type)

  too_many-Reads :
      (raw : Bool) (vs : List Value) (d : D) (rest : List Value)
      → 4 < length vs
      → Holds d (vs ++ rest)
      → Reads decoder reading
          (decode_fields raw (length vs) d)
          (err (invalid_message (text "invalid packet, expected array with 3 or 4 elements")))
          rest
  unfolding decode_fields
  too_many-Reads raw vs d rest many h =
      rw (le→ltb (length vs) 3 (omega arith), lt→ltb 4 (length vs) many)
        (skip_and_error-Reads decoder reading vs _ d rest h)

  decode_fields-Reads :
      (raw : Bool) (vs : List Value) (d : D) (rest : List Value)
      → Holds d (vs ++ rest)
      → Reads decoder reading
          (decode_fields raw (length vs) d)
          (fields (keep_as decoder reading raw) vs)
          rest
  unfolding decode_fields
  decode_fields-Reads raw [] d rest h = skip_and_error-Reads decoder reading [] _ d rest h
  decode_fields-Reads raw (a ∷ []) d rest h =
      skip_and_error-Reads decoder reading (a ∷ []) _ d rest h
  decode_fields-Reads raw (a ∷ b ∷ []) d rest h =
      skip_and_error-Reads decoder reading (a ∷ b ∷ []) _ d rest h
  decode_fields-Reads raw (t ∷ x ∷ y ∷ []) d rest h =
      within_bind decoder reading _ decoder.decode_interface _ d t (x ∷ y ∷ rest) _ rest
        (reading.interface d t (x ∷ y ∷ rest) h)
        (λ d' h'. decode_type_3-Reads decoder reading raw (to_int t) x y d' rest h')
  decode_fields-Reads raw (t ∷ i ∷ x ∷ y ∷ []) d rest h =
      within_bind decoder reading _ decoder.decode_interface _ d t (i ∷ x ∷ y ∷ rest) _ rest
        (reading.interface d t (i ∷ x ∷ y ∷ rest) h)
        (λ d' h'. decode_type_4-Reads decoder reading raw (to_int t) i x y d' rest h')
  decode_fields-Reads raw (a ∷ b ∷ c ∷ e ∷ f ∷ vs) d rest h =
      too_many-Reads raw (a ∷ b ∷ c ∷ e ∷ f ∷ vs) d rest (omega arith) h

  decode_array-Reads :
      (raw : Bool) (xs : Items) (d : D) (rest : List Value)
      → Holds d (array xs ∷ rest)
      → Reads decoder reading
          (decode_rpc_packet decoder raw d)
          (fields (keep_as decoder reading raw) (elements xs))
          rest
  unfolding decode_rpc_packet
  decode_array-Reads raw xs d rest h =
      let (t, peeked, is) = reading.peek_array d xs rest h in
      let (counted, h') = reading.array_len d xs rest h in
      rw (peeked, is, counted)
        (unfold decode_fields in
          decode_fields-Reads raw (elements xs) (decoder.decode_array_len d).1 rest h')

  decode_other-Reads :
      (raw : Bool) (v : Value) (d : D) (rest : List Value)
      → is_array_value v ≡ false
      → Holds d (v ∷ rest)
      → Reads decoder reading
          (decode_rpc_packet decoder raw d)
          (err (invalid_message (text "invalid packet, expected array")))
          rest
  unfolding decode_rpc_packet
  decode_other-Reads raw v d rest no_array h =
      let (t, peeked, is) = reading.peek_other d v rest no_array h in
      rw (peeked, is) (skip_and_error-Reads decoder reading (v ∷ []) _ d rest h)

  -- Over a decoder with the documented behaviour, whatever the next message is, decode_rpc_packet
  -- returns what the description on whole messages says, packet or error text, and leaves the
  -- stream right behind the message.
  pub decode_rpc_packet_lem :
      (raw : Bool) (v : Value) (d : D) (rest : List Value)
      → Holds d (v ∷ rest)
      → ((decode_rpc_packet decoder raw d).0 ≡ message (keep_as decoder reading raw) v)
        × Holds (decode_rpc_packet decoder raw d).1 rest
  unfolding message
  decode_rpc_packet_lem raw (array xs) d rest h = decode_array-Reads raw xs d rest h
  decode_rpc_packet_lem raw v d rest h = decode_other-Reads raw v d rest refl h

  run-end :
      (raw : Bool) (fuel : ℕ) (d : D) → Holds d [] → run decoder (suc fuel) raw d ≡ at_end ∷ []
  unfolding run decode_rpc_packet
  run-end raw fuel d h = rw (reading.peek_end d h)

  run-message :
      (raw : Bool) (fuel : ℕ) (v : Value) (d : D) (rest : List Value)
      → Holds d (v ∷ rest)
      → run decoder (suc fuel) raw d
        ≡ reported (message (keep_as decoder reading raw) v)
          ∷ run decoder fuel raw (decode_rpc_packet decoder raw d).1
  unfolding run
  run-message raw fuel v d rest h =
      let (e, _) = decode_rpc_packet_lem raw v d rest h in
      elim (Result-cases (message (keep_as decoder reading raw) v)) [
        | inl (packet, m) ↦ rw (m, run, e ∙ m)
        | inr (x, m) ↦ rw (m, run, e ∙ m, message-invalid (keep_as decoder reading raw) v x m)
      ]

  -- Over a decoder with the documented behaviour, at the end of whose stream a read gives EOF,
  -- and with more fuel than messages: Run reports every message in order, as the packet that it
  -- is or as an error, and stops with the error of the end; an invalid message costs no other
  -- message.
  pub run_lem :
      (raw : Bool) (vs : List Value) (fuel : ℕ) (d : D)
      → length vs < fuel
      → Holds d vs
      → run decoder fuel raw d
        ≡ map (λ v. reported (message (keep_as decoder reading raw) v)) vs ++ (at_end ∷ [])
  run_lem raw vs zero d f h = absurd (omega arith)
  run_lem raw [] (suc fuel) d f h = run-end raw fuel d h
  run_lem raw (v ∷ vs) (suc fuel) d f h =
      run-message raw fuel v d vs h
      ∙ ap (◌∷◌ (reported (message (keep_as decoder reading raw) v)))
          (run_lem raw vs fuel _ (omega arith) (decode_rpc_packet_lem raw v d vs h).1)
