-- ===== src/Examples/Dump.antt =====
-- examples/msgpackdump/main.go: the values of a file, one after the other.
use arduino_router.Prelude.{
  ℕ, zero, suc, ◌<◌, ◌≡◌, refl, Option, none, some, List, [], ◌∷◌, length, arith,
}
use arduino_router.Error.{Error, Result, ok, err, end_of_file}
use arduino_router.Value.{Value}
use arduino_router.Connection.Decode.{Decoder}
use arduino_router.Connection.Decode.Message.{Reading}

module _ {D : Type 0} (decoder : Decoder D) where
  -- One round of the loop, with the rounds behind it.
  printed : Result Value → List Value × Option Error → List Value × Option Error
  printed (err e) rest = ([], some e)
  printed (ok v) (vs, e) = (v ∷ vs, e)

  -- What is printed, and the error that ends the loop; `none` is the end of the fuel.
  unfoldable pub dump : ℕ → D → List Value × Option Error
  unfolding printed
  dump zero d = ([], none)
  dump (suc f) d = let (r, d') = decoder.decode_interface d in printed r (dump f d')

  opened : ℕ → Result D → List Value × Option Error
  unfolding dump
  opened f (err e) = ([], some e)
  opened f (ok d) = dump f d

  -- main, with what opening the file answers.
  unfoldable pub dump_file : ℕ → Result D → List Value × Option Error
  unfolding opened
  dump_file f file = opened f file

  -- With more fuel than values, all values of the file are printed, and then the loop ends.
  pub dump_lem :
      (reading : Reading decoder)
      → ((d : D) → reading.Holds d [] → (decoder.decode_interface d).0 ≡ err end_of_file)
      → (f : ℕ) (vs : List Value) (d : D) → length vs < f
      → reading.Holds d vs
      → dump f d ≡ (vs, some end_of_file)
  unfolding dump printed
  dump_lem reading at_end zero vs d h holds = absurd (omega arith)
  dump_lem reading at_end (suc f) [] d h holds = rw (at_end d holds) refl
  dump_lem reading at_end (suc f) (v ∷ vs) d h holds =
      let (now, later) = reading.interface d v vs holds in
      rw (now, dump_lem reading at_end f vs (decoder.decode_interface d).1 (omega arith) later) refl
