-- ===== src/Connection/Decode/Parts.antt =====
-- The parts of `decode_rpc_packet`: each takes its values off the stream, and gives what
-- `Message` says of them.
use arduino_router.Prelude.{
  ℕ, suc, ◌≡◌, refl, Bool, true, false, Bytes, List, [], ◌∷◌, ◌++◌, map, ℤ, Option, none, some,
  length, text,
}
use arduino_router.Error.{Error, invalid_message, Result, ok, err}
use arduino_router.Value.{Value, string, array, Items, elements}
use arduino_router.Conversion.{to_uint}
use arduino_router.Connection.Decode.{
  Decoder, Decode, RpcPacket, Kind, request, response, notification, kind, ◌>>=◌, within,
  skip_and_error, decode_value, decode_params, decode_method, decode_call, decode_results,
  decode_body, decode_id, decode_with_id, decode_kind, decode_type,
}
use arduino_router.Connection.Decode.Message.{
  Reading, is_array_value, kept, call, identified, three, four, typed_three, typed_four,
}

module _ {D : Type 0} (decoder : Decoder D) (reading : Reading decoder) where
  open reading use {Holds, encoding}

  -- A result, and the values that are left to read after it.
  abbrev pub Reads : {A : Type 0} → Result A × D → Result A → List Value → Type 0
  Reads r expected rest = (r.0 ≡ expected) × Holds r.1 rest

  pub within_bind :
      {A B : Type 0} (t : Bytes) (m : Decode D A) (f : A → Decode D B) (d : D) (a : A)
      (vs : List Value) (expected : Result B) (rest : List Value)
      → Reads (m d) (ok a) vs
      → ((d' : D) → Holds d' vs → Reads (f a d') expected rest)
      → Reads ((within t m >>= f) d) expected rest
  within_bind t m f d a vs expected rest (e, h) k = rw e (k (m d).1 h)

  pub skip_and_error-Reads :
      (vs : List Value) (e : Error) (d : D) (rest : List Value)
      → Holds d (vs ++ rest)
      → Reads (skip_and_error decoder (length vs) e d) (err e) rest
  unfolding skip_and_error
  skip_and_error-Reads [] e d rest h = (refl, h)
  skip_and_error-Reads (v ∷ vs) e d rest h =
      let (fine, h') = reading.skip d v (vs ++ rest) h in
      rw (fine, skip_and_error) (skip_and_error-Reads vs e (decoder.skip d).1 rest h')

  decode_value-Reads :
      (raw : Bool) (d : D) (v : Value) (rest : List Value)
      → Holds d (v ∷ rest)
      → Reads (decode_value decoder raw d) (ok (kept raw encoding v)) rest
  unfolding decode_value
  decode_value-Reads true d v rest h = let (e, h') = reading.raw d v rest h in rw e (refl, h')
  decode_value-Reads false d v rest h = reading.interface d v rest h

  decode_params-Reads :
      (raw : Bool) (vs : List Value) (i : ℕ) (d : D) (rest : List Value)
      → Holds d (vs ++ rest)
      → Reads (decode_params decoder raw (length vs) i d) (ok (map (kept raw encoding) vs)) rest
  unfolding decode_params
  decode_params-Reads raw [] i d rest h = (refl, h)
  decode_params-Reads raw (v ∷ vs) i d rest h =
      let (e, h') = decode_value-Reads raw d v (vs ++ rest) h in
      let (e', h'') = decode_params-Reads raw vs (suc i) (decode_value decoder raw d).1 rest h' in
      rw (e, e') (refl, h'')

  abbrev pub keep_as : Bool → Value → Value
  keep_as raw = kept raw encoding

  array_params-Reads :
      (raw : Bool) (packet : RpcPacket) (method : Bytes) (ps : Items) (d : D) (rest : List Value)
      → Holds d (array ps ∷ rest)
      → Reads
          (decode_method decoder raw packet 1 (string method) d)
          (call (keep_as raw) packet (string method) (array ps))
          rest
  unfolding decode_method
  array_params-Reads raw packet method ps d rest h =
      let (t, peeked, is) = reading.peek_array d ps rest h in
      let (counted, h') = reading.array_len d ps rest h in
      let (e, h'') =
        decode_params-Reads raw (elements ps) 0 (decoder.decode_array_len d).1 rest h' in
      rw (peeked, is, counted, e) (refl, h'')

  other_params-Reads :
      (raw : Bool) (packet : RpcPacket) (method : Bytes) (ps : Value) (d : D) (rest : List Value)
      → is_array_value ps ≡ false
      → Holds d (ps ∷ rest)
      → Reads
          (decode_method decoder raw packet 1 (string method) d)
          (err (invalid_message (text "invalid packet, expected array for parameters")))
          rest
  unfolding decode_method
  other_params-Reads raw packet method ps d rest no_array h =
      let (t, peeked, is) = reading.peek_other d ps rest no_array h in
      rw (peeked, is) (skip_and_error-Reads (ps ∷ []) _ d rest h)

  decode_method-Reads :
      (raw : Bool) (packet : RpcPacket) (method ps : Value) (d : D) (rest : List Value)
      → Holds d (ps ∷ rest)
      → Reads
          (decode_method decoder raw packet 1 method d)
          (call (keep_as raw) packet method ps)
          rest
  unfolding decode_method
  decode_method-Reads raw packet (string method) (array ps) d rest h =
      array_params-Reads raw packet method ps d rest h
  decode_method-Reads raw packet (string method) ps d rest h =
      other_params-Reads raw packet method ps d rest refl h
  decode_method-Reads raw packet method ps d rest h = skip_and_error-Reads (ps ∷ []) _ d rest h

  decode_call-Reads :
      (raw : Bool) (packet : RpcPacket) (method ps : Value) (d : D) (rest : List Value)
      → Holds d (method ∷ ps ∷ rest)
      → Reads (decode_call decoder raw packet 2 d) (call (keep_as raw) packet method ps) rest
  unfolding decode_call
  decode_call-Reads raw packet method ps d rest h =
      within_bind _ decoder.decode_interface _ d method (ps ∷ rest) _ rest
        (reading.interface d method (ps ∷ rest) h)
        (λ d' h'. decode_method-Reads raw packet method ps d' rest h')

  decode_results-Reads :
      (raw : Bool) (packet : RpcPacket) (x y : Value) (d : D) (rest : List Value)
      → Holds d (x ∷ y ∷ rest)
      → Reads
          (decode_results decoder raw packet d)
          (ok (record packet { req_error = keep_as raw x; req_result = keep_as raw y }))
          rest
  unfolding decode_results
  decode_results-Reads raw packet x y d rest h =
      within_bind _ (decode_value decoder raw) _ d (keep_as raw x) (y ∷ rest) _ rest
        (decode_value-Reads raw d x (y ∷ rest) h)
        λ d' h'.
          within_bind _ (decode_value decoder raw) _ d' (keep_as raw y) rest _ rest
            (decode_value-Reads raw d' y rest h') (λ d'' h''. (refl, h''))

  decode_id-Reads :
      (raw : Bool) (packet : RpcPacket) (id : Option ℕ) (k : Kind) (x y : Value) (d : D)
      (rest : List Value)
      → Holds d (x ∷ y ∷ rest)
      → Reads
          (decode_id decoder raw packet 2 id k d)
          (identified (keep_as raw) k packet id x y)
          rest
  unfolding decode_id decode_body
  decode_id-Reads raw packet none k x y d rest h = skip_and_error-Reads (x ∷ y ∷ []) _ d rest h
  decode_id-Reads raw packet (some id) response x y d rest h =
      decode_results-Reads raw (record packet { msg_id = id }) x y d rest h
  decode_id-Reads raw packet (some id) k x y d rest h =
      decode_call-Reads raw (record packet { msg_id = id }) x y d rest h

  decode_with_id-Reads :
      (raw : Bool) (packet : RpcPacket) (k : Kind) (id x y : Value) (d : D) (rest : List Value)
      → Holds d (id ∷ x ∷ y ∷ rest)
      → Reads
          (decode_with_id decoder raw packet 3 k d)
          (identified (keep_as raw) k packet (to_uint id) x y)
          rest
  unfolding decode_with_id
  decode_with_id-Reads raw packet k id x y d rest h =
      within_bind _ decoder.decode_interface _ d id (x ∷ y ∷ rest) _ rest
        (reading.interface d id (x ∷ y ∷ rest) h)
        (λ d' h'. decode_id-Reads raw packet (to_uint id) k x y d' rest h')

  decode_kind_3-Reads :
      (raw : Bool) (packet : RpcPacket) (k : Kind) (x y : Value) (d : D) (rest : List Value)
      → Holds d (x ∷ y ∷ rest)
      → Reads (decode_kind decoder raw packet 2 k d) (three (keep_as raw) k packet x y) rest
  unfolding decode_kind decode_with_id
  decode_kind_3-Reads raw packet notification x y d rest h =
      decode_call-Reads raw packet x y d rest h
  decode_kind_3-Reads raw packet k x y d rest h = skip_and_error-Reads (x ∷ y ∷ []) _ d rest h

  decode_kind_4-Reads :
      (raw : Bool) (packet : RpcPacket) (k : Kind) (id x y : Value) (d : D) (rest : List Value)
      → Holds d (id ∷ x ∷ y ∷ rest)
      → Reads (decode_kind decoder raw packet 3 k d) (four (keep_as raw) k packet id x y) rest
  unfolding decode_kind
  decode_kind_4-Reads raw packet request id x y d rest h =
      decode_with_id-Reads raw packet request id x y d rest h
  decode_kind_4-Reads raw packet response id x y d rest h =
      decode_with_id-Reads raw packet response id x y d rest h
  decode_kind_4-Reads raw packet k id x y d rest h =
      skip_and_error-Reads (id ∷ x ∷ y ∷ []) _ d rest h

  pub decode_type_3-Reads :
      (raw : Bool) (t : Option ℤ) (x y : Value) (d : D) (rest : List Value)
      → Holds d (x ∷ y ∷ rest)
      → Reads (decode_type decoder raw 2 t d) (typed_three (keep_as raw) t x y) rest
  unfolding decode_type
  decode_type_3-Reads raw none x y d rest h = skip_and_error-Reads (x ∷ y ∷ []) _ d rest h
  decode_type_3-Reads raw (some t) x y d rest h = decode_kind_3-Reads raw _ (kind t) x y d rest h

  pub decode_type_4-Reads :
      (raw : Bool) (t : Option ℤ) (id x y : Value) (d : D) (rest : List Value)
      → Holds d (id ∷ x ∷ y ∷ rest)
      → Reads (decode_type decoder raw 3 t d) (typed_four (keep_as raw) t id x y) rest
  unfolding decode_type
  decode_type_4-Reads raw none id x y d rest h = skip_and_error-Reads (id ∷ x ∷ y ∷ []) _ d rest h
  decode_type_4-Reads raw (some t) id x y d rest h =
      decode_kind_4-Reads raw _ (kind t) id x y d rest h
