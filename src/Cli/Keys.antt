-- ===== src/Cli/Keys.antt =====
-- cmd/arduino-router-cli/main.go, composeArgs: maps whose keys cannot be hashed.
use arduino_router.Prelude.{
  ℕ, zero, suc, ◌+◌, ◌*◌, ◌<◌, ◌≡◌, false, Bytes, List, ◌∷◌, ◌++◌, length, length-append, arith,
  text, bytes_eq,
}
use arduino_router.Value.{Value, done}
use arduino_router.Cli.{
  composed, panicked, Floats, compose_args, compose_entries, compose, hashable,
}
use arduino_router.Cli.Printing.{print, Printable, print-Opens}
use arduino_router.Cli.RoundTrip.{print-Reads, printed_length_pos}

module _ (fl : Floats) where
  unhashable_step :
      (f : ℕ) (w w' : Bytes) (ws ws' r : List Bytes) (k v : Value)
      → bytes_eq w (text "}") ≡ false
      → compose_args fl (suc f) (w ∷ ws) ≡ composed k (w' ∷ ws')
      → compose_args fl f (w' ∷ ws') ≡ composed v r
      → hashable k ≡ false
      → compose_entries fl (suc (suc f)) done (w ∷ ws) ≡ panicked
  unfolding compose_entries
  unhashable_step f w w' ws ws' r k v more key value hash = rw (more, key, value, hash)

  braced :
      (f : ℕ) (ws : List Bytes)
      → compose_entries fl f done ws ≡ panicked
      → compose_args fl (suc f) (text "{" ∷ ws) ≡ panicked
  unfolding compose_args bytes_eq
  braced f ws h = rw h

module _ (fl : Floats) (print32 print64 : ℕ → Bytes) where
  unhashable_entries :
      (f : ℕ) (k v : Value) (rest : List Bytes)
      → Printable fl print32 print64 k
      → hashable k ≡ false
      → Printable fl print32 print64 v
      → let ks = print fl print32 print64 k in
        let vs = print fl print32 print64 v in
        3 * length (ks ++ (vs ++ rest)) + 1 < f
        → compose_entries fl f done (ks ++ (vs ++ rest)) ≡ panicked
  unhashable_entries zero k v rest pk hash pv h = absurd (omega arith)
  unhashable_entries (suc zero) k v rest pk hash pv h = absurd (omega arith)
  unhashable_entries (suc (suc f)) k v rest pk hash pv h =
      let ks = print fl print32 print64 k in
      let vs = print fl print32 print64 v in
      let size = length-append ks (vs ++ rest) in
      let size' = length-append vs rest in
      let some_key = printed_length_pos fl print32 print64 k pk in
      let (w, us, e, square, curly) = print-Opens fl print32 print64 k pk in
      let (w', us', e', square', curly') = print-Opens fl print32 print64 v pv in
      let key = print-Reads fl print32 print64 k pk (suc f) (vs ++ rest) (omega arith) in
      let value = print-Reads fl print32 print64 v pv f rest (omega arith) in
      rw (e, e')
        (unhashable_step fl f w w' (us ++ (w' ∷ us' ++ rest)) (us' ++ rest) rest k v curly
          (rw (e, e') at key) (rw e' at value) hash)

  -- An array or a map as the first key of a map, both key and value printed from values that
  -- composeArgs can make, is a panic.
  pub unhashable_panics :
      (k v : Value) (rest : List Bytes)
      → Printable fl print32 print64 k
      → hashable k ≡ false
      → Printable fl print32 print64 v
      → compose fl (text "{" ∷ (print fl print32 print64 k ++ (print fl print32 print64 v ++ rest)))
        ≡ panicked
  unfolding compose
  unhashable_panics k v rest pk hash pv =
      let ws = print fl print32 print64 k ++ (print fl print32 print64 v ++ rest) in
      braced fl (3 * length (text "{" ∷ ws)) ws
        (unhashable_entries (3 * length (text "{" ∷ ws)) k v rest pk hash pv (omega arith))
