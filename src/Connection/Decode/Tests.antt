-- ===== src/Connection/Decode/Tests.antt =====
-- A decoder over a stream of values, and the theorems at streams with good and bad messages.
use arduino_router.Prelude.{
  ℕ, ◌≡◌, refl, none, some, false, ◌&&◌, List, [], ◌∷◌, ◌++◌, map, pos, arith, text, length, leb,
}
use arduino_router.Error.{Result, ok, err, end_of_file}
use arduino_router.Value.{Value, nil, int8, uint8, string, array, items, elements}
use arduino_router.Conversion.{to_int, to_uint}
use arduino_router.Connection.Decode.{Decoder, decode_rpc_packet, run}
use arduino_router.Connection.Decode.Message.{Reading, is_array_value, message}
use arduino_router.Connection.Decode.Parts.{keep_as}
use arduino_router.Connection.Decode.Stream.{decode_rpc_packet_lem, run_lem, reported, at_end}

abbrev code_of : Value → ℕ
code_of (array xs) = 0x92
code_of v = 0

abbrev headed : Value → List Value → ℕ × List Value
headed (array xs) rest = (length (elements xs), elements xs ++ rest)
headed v rest = (0, rest)

abbrev values : Decoder (List Value)
values = record {
  peek_code = elim [ [] ↦ err end_of_file | v ∷ vs ↦ ok (code_of v) ];
  is_fixed_array = λ t. leb 0x90 t && leb t 0x9f;
  array16 = 0xdc;
  array32 = 0xdd;
  decode_array_len = elim [ [] ↦ (0, []) | v ∷ vs ↦ headed v vs ];
  decode_interface = elim [ [] ↦ (err end_of_file, []) | v ∷ vs ↦ (ok v, vs) ];
  decode_raw = elim [ [] ↦ (err end_of_file, []) | v ∷ vs ↦ (ok (code_of v ∷ []), vs) ];
  skip = elim [ [] ↦ (some end_of_file, []) | v ∷ vs ↦ (none, vs) ];
}

other_code : (v : Value) → is_array_value v ≡ false → ◌≡◌ {A = Result ℕ} (ok (code_of v)) (ok 0)
other_code (array xs) h = cc
other_code v h = refl

values_reading : Reading values
values_reading = record {
  Holds = λ d vs. d ≡ vs;
  encoding = λ v. code_of v ∷ [];
  peek_array = λ d xs rest h. (0x92, rw h, refl);
  peek_other = λ d v rest no_array h. (0, rw h (other_code v no_array), refl);
  peek_end = λ d h. rw h;
  array_len = λ d xs rest h. rw h (refl, refl);
  interface = λ d v rest h. rw h (refl, refl);
  raw = λ d v rest h. rw h (refl, refl);
  skip = λ d v rest h. rw h (refl, refl);
}

abbrev ping : Value
ping = array (items (int8 (pos 0) ∷ uint8 7 ∷ string (text "ping") ∷ array (items []) ∷ []))

abbrev bad_id : Value
bad_id = array (items (int8 (pos 0) ∷ nil ∷ string (text "ping") ∷ array (items []) ∷ []))

abbrev stream : List Value
stream = bad_id ∷ nil ∷ ping ∷ []

-- The two bad messages are reported, and the good one is read.
three_reports : length (run values 4 false stream) ≡ 4
unfolding run to_int to_uint items elements decode_rpc_packet
three_reports = refl

decode_rpc_packet_lem_example :
    ((decode_rpc_packet values false (bad_id ∷ ping ∷ [])).0
      ≡ message (keep_as values values_reading false) bad_id)
    × values_reading.Holds (decode_rpc_packet values false (bad_id ∷ ping ∷ [])).1 (ping ∷ [])
unfolding values_reading
decode_rpc_packet_lem_example =
    decode_rpc_packet_lem values values_reading false bad_id (bad_id ∷ ping ∷ []) (ping ∷ []) refl

run_lem_example :
    run values 4 false stream
    ≡ map (λ v. reported (message (keep_as values values_reading false) v)) stream ++ (at_end ∷ [])
unfolding values_reading
run_lem_example = run_lem values values_reading false stream 4 stream (omega arith) refl
