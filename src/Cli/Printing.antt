-- ===== src/Cli/Printing.antt =====
-- cmd/arduino-router-cli/main.go, composeArgs: the words that the help text names for each value, and
-- their way back.
use arduino_router.Prelude.{
  ℕ, ◌≤◌, ◌≡◌, refl, some, true, false, Bytes, List, [], ◌∷◌, ◌++◌, arith, text, bytes_eq, ◌==◌, ℤ,
}
use arduino_router.Value.{
  Value, Items, Entries, nil, bool, int, string, float32, float64, array, map_value, end, item,
  done, entry,
}
use arduino_router.Strings.{cut_prefix, itoa}
use arduino_router.Strings.Numbers.{IsInt, atoi-itoa, itoa_head}
use arduino_router.Cli.{composed, Floats, detect, compose_word, hashable, put}

module _ (fl : Floats) (print32 print64 : ℕ → Bytes) where
  unfoldable mutual
    pub print : Value → List Bytes
    print nil = text "nil" ∷ []
    print (bool true) = text "true" ∷ []
    print (bool false) = text "false" ∷ []
    print (int z) = itoa z ∷ []
    print (float32 b) = (text "f32:" ++ print32 b) ∷ []
    print (float64 b) = (text "f64:" ++ print64 b) ∷ []
    print (string s) = (text "str:" ++ s) ∷ []
    print (array xs) = text "[" ∷ print_items xs
    print (map_value es) = text "{" ∷ print_entries es
    print other = []

    pub print_items : Items → List Bytes
    print_items end = text "]" ∷ []
    print_items (item x xs) = print x ++ print_items xs

    pub print_entries : Entries → List Bytes
    print_entries done = text "}" ∷ []
    print_entries (entry k v es) = print k ++ (print v ++ print_entries es)

  -- The entries, put into a map one after the other.
  abbrev pub put_all : Entries → Entries → Entries
  put_all done m = m
  put_all (entry k v es) m = put_all es (put fl k v m)

  -- The values that composeArgs can make: an `int` of 64 bits, a float that its text gives back, a map
  -- whose keys can be hashed and differ.
  abbrev mutual
    pub Printable : Value → Type 0
    Printable nil = Unit {0}
    Printable (bool b) = Unit {0}
    Printable (int z) = IsInt z
    Printable (float32 b) = fl.parse32 (print32 b) ≡ some b
    Printable (float64 b) = fl.parse64 (print64 b) ≡ some b
    Printable (string s) = Unit {0}
    Printable (array xs) = PrintableItems xs
    Printable (map_value es) = PrintableEntries es × (put_all es done ≡ es)
    Printable other = ⊥

    pub PrintableItems : Items → Type 0
    PrintableItems end = Unit {0}
    PrintableItems (item x xs) = Printable x × PrintableItems xs

    pub PrintableEntries : Entries → Type 0
    PrintableEntries done = Unit {0}
    PrintableEntries (entry k v es) =
        Printable k × (hashable k ≡ true) × Printable v × PrintableEntries es

  pub low_word :
      (c : ℕ) (cs : Bytes) (rest : List Bytes)
      → c ≤ 57
      → compose_word fl (c ∷ cs) rest ≡ composed (detect (c ∷ cs)) rest
  unfolding compose_word bytes_eq cut_prefix
  low_word c cs rest low =
      let n : (c == b'n') ≡ false = ground arith in
      let t : (c == b't') ≡ false = ground arith in
      let f : (c == b'f') ≡ false = ground arith in
      let s : (c == b's') ≡ false = ground arith in rw (n, t, f, s)

  pub detect-itoa : (z : ℤ) → IsInt z → detect (itoa z) ≡ int z
  unfolding detect
  detect-itoa z h = rw (detect, atoi-itoa z h)

  -- How a printed value begins: with no closing bracket.
  abbrev pub Opens : List Bytes → Type 0
  Opens ws =
      (w : Bytes) × (rest : List Bytes) × (ws ≡ w ∷ rest)
      × (bytes_eq w (text "]") ≡ false)
      × (bytes_eq w (text "}") ≡ false)

  pub print-Opens : (v : Value) → Printable v → Opens (print v)
  unfolding print bytes_eq
  print-Opens nil p = (text "nil", [], refl, refl, refl)
  print-Opens (bool true) p = (text "true", [], refl, refl, refl)
  print-Opens (bool false) p = (text "false", [], refl, refl, refl)
  print-Opens (int z) p =
      let (c, cs, e, low) = itoa_head z in
      (itoa z, [], refl, rw e (ground arith), rw e (ground arith))
  print-Opens (float32 b) p = (text "f32:" ++ print32 b, [], refl, refl, refl)
  print-Opens (float64 b) p = (text "f64:" ++ print64 b, [], refl, refl, refl)
  print-Opens (string s) p = (text "str:" ++ s, [], refl, refl, refl)
  print-Opens (array xs) p = (text "[", print_items xs, refl, refl, refl)
  print-Opens (map_value es) p = (text "{", print_entries es, refl, refl, refl)
  print-Opens other p = absurd p
