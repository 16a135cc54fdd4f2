-- ===== src/Cli/RoundTrip.antt =====
-- cmd/arduino-router-cli/main.go, composeArgs: printed values are read back.
use arduino_router.Prelude.{
  ℕ, zero, suc, ◌+◌, ◌*◌, ◌<◌, ◌≡◌, refl, ap, ◌∙◌, true, false, Bytes, List, [], ◌∷◌, ◌++◌,
  append_assoc, append-nil, length, length-append, arith, text, bytes_eq, ◌==◌, ℤ,
}
use arduino_router.Value.{
  Value, Items, Entries, nil, bool, int, string, float32, float64, array, map_value, end, item,
  done, entry,
}
use arduino_router.Strings.{cut_prefix, itoa}
use arduino_router.Strings.Numbers.{itoa_head}
use arduino_router.Cli.{
  composed, Floats, compose_word, compose_args, compose_items, compose_entries, compose, command,
  call, hashable, put,
}
use arduino_router.Cli.Printing.{
  print, print_items, print_entries, put_all, Printable, PrintableItems, PrintableEntries,
  print-Opens, low_word, detect-itoa,
}

module _ (fl : Floats) where
  items_step :
      (f : ℕ) (w : Bytes) (ws r r' : List Bytes) (x : Value) (xs : Items)
      → bytes_eq w (text "]") ≡ false
      → compose_args fl f (w ∷ ws) ≡ composed x r
      → compose_items fl f r ≡ composed xs r'
      → compose_items fl (suc f) (w ∷ ws) ≡ composed (item x xs) r'
  unfolding compose_items
  items_step f w ws r r' x xs more one others = rw (more, one, others)

  entries_step :
      (f : ℕ) (m es : Entries) (w w' : Bytes) (ws ws' r r' : List Bytes) (k v : Value)
      → bytes_eq w (text "}") ≡ false
      → compose_args fl (suc f) (w ∷ ws) ≡ composed k (w' ∷ ws')
      → compose_args fl f (w' ∷ ws') ≡ composed v r
      → hashable k ≡ true
      → compose_entries fl f (put fl k v m) r ≡ composed es r'
      → compose_entries fl (suc (suc f)) m (w ∷ ws) ≡ composed es r'
  unfolding compose_entries
  entries_step f m es w w' ws ws' r r' k v more key value hash others =
      rw (more, key, value, hash, others)

module _ (fl : Floats) (print32 print64 : ℕ → Bytes) where
  pub printed_length_pos :
      (v : Value) → Printable fl print32 print64 v → 0 < length (print fl print32 print64 v)
  printed_length_pos v p =
      let (w, ws, e, i, j) = print-Opens fl print32 print64 v p in
      let size = ap length e in omega arith

  print_int :
      (f : ℕ) (z : ℤ) (rest : List Bytes)
      → Printable fl print32 print64 (int z)
      → compose_args fl (suc f) (itoa z ∷ rest) ≡ composed (int z) rest
  unfolding compose_args bytes_eq
  print_int f z rest p =
      let (c, cs, e, low) = itoa_head z in
      let square : (c == b'[') ≡ false = ground arith in
      let curly : (c == b'{') ≡ false = ground arith in
      let is_int = rw e at (detect-itoa fl print32 print64 z p) in
      rw (e, square, curly, low_word fl print32 print64 c cs rest low, is_int)

  print_item :
      (f : ℕ) (x : Value) (xs : Items) (ws rest : List Bytes)
      → Printable fl print32 print64 x
      → let ps = print fl print32 print64 x in
        compose_args fl f (ps ++ (ws ++ rest)) ≡ composed x (ws ++ rest)
        → compose_items fl f (ws ++ rest) ≡ composed xs rest
        → compose_items fl (suc f) ((ps ++ ws) ++ rest) ≡ composed (item x xs) rest
  print_item f x xs ws rest p one others =
      let (w, us, e, square, curly) = print-Opens fl print32 print64 x p in
      rw (append_assoc (print fl print32 print64 x) ws rest, e)
        (items_step fl f w (us ++ (ws ++ rest)) (ws ++ rest) rest x xs square (rw e at one) others)

  print_pair :
      (f : ℕ) (k v : Value) (m es : Entries) (ws rest : List Bytes)
      → Printable fl print32 print64 k
      → hashable k ≡ true
      → Printable fl print32 print64 v
      → let ks = print fl print32 print64 k in
        let vs = print fl print32 print64 v in
        compose_args fl (suc f) (ks ++ (vs ++ (ws ++ rest))) ≡ composed k (vs ++ (ws ++ rest))
        → compose_args fl f (vs ++ (ws ++ rest)) ≡ composed v (ws ++ rest)
        → compose_entries fl f (put fl k v m) (ws ++ rest) ≡ composed es rest
        → compose_entries fl (suc (suc f)) m ((ks ++ (vs ++ ws)) ++ rest) ≡ composed es rest
  print_pair f k v m es ws rest pk hash pv key value others =
      let (w, us, e, square, curly) = print-Opens fl print32 print64 k pk in
      let (w', us', e', square', curly') = print-Opens fl print32 print64 v pv in
      rw
        (
          append_assoc (print fl print32 print64 k) (print fl print32 print64 v ++ ws) rest,
          append_assoc (print fl print32 print64 v) ws rest,
          e,
          e',
        )
        (entries_step fl f m es w w' (us ++ (w' ∷ us' ++ (ws ++ rest))) (us' ++ (ws ++ rest))
          (ws ++ rest) rest k v curly (rw (e, e') at key) (rw e' at value) hash others)

  mutual
    unfolding print compose_args compose_word bytes_eq cut_prefix

    pub print-Reads :
        (v : Value)
        → Printable fl print32 print64 v
        → (f : ℕ) (rest : List Bytes) → 3 * length (print fl print32 print64 v) < f
        → compose_args fl f (print fl print32 print64 v ++ rest) ≡ composed v rest
    print-Reads v p zero rest h = absurd (omega arith)
    print-Reads nil p (suc f) rest h = refl
    print-Reads (bool true) p (suc f) rest h = refl
    print-Reads (bool false) p (suc f) rest h = refl
    print-Reads (int z) p (suc f) rest h = print_int f z rest p
    print-Reads (float32 b) p (suc f) rest h = rw p
    print-Reads (float64 b) p (suc f) rest h = rw p
    print-Reads (string s) p (suc f) rest h = refl
    print-Reads (array xs) p (suc f) rest h = rw (print_items-Reads xs p f rest (omega arith))
    print-Reads (map_value es) p (suc f) rest h =
        rw (print_entries-Reads es (p.0) done f rest (omega arith), p.1)
    print-Reads other p (suc f) rest h = absurd p

    print_items-Reads :
        (xs : Items)
        → PrintableItems fl print32 print64 xs
        → (f : ℕ) (rest : List Bytes) → 3 * length (print_items fl print32 print64 xs) + 1 < f
        → compose_items fl f (print_items fl print32 print64 xs ++ rest) ≡ composed xs rest
    print_items-Reads xs p zero rest h = absurd (omega arith)
    print_items-Reads end p (suc f) rest h = refl
    print_items-Reads (item x xs) p (suc f) rest h =
        let size = length-append (print fl print32 print64 x) (print_items fl print32 print64 xs) in
        let some_words = printed_length_pos x (p.0) in
        print_item f x xs (print_items fl print32 print64 xs) rest (p.0)
          (print-Reads x (p.0) f (print_items fl print32 print64 xs ++ rest) (omega arith))
          (print_items-Reads xs (p.1) f rest (omega arith))

    print_entries-Reads :
        (es : Entries)
        → PrintableEntries fl print32 print64 es
        → (m : Entries) (f : ℕ) (rest : List Bytes)
        → 3 * length (print_entries fl print32 print64 es) + 1 < f
        → compose_entries fl f m (print_entries fl print32 print64 es ++ rest)
          ≡ composed (put_all fl print32 print64 es m) rest
    print_entries-Reads es p m zero rest h = absurd (omega arith)
    print_entries-Reads done p m (suc f) rest h = refl
    print_entries-Reads (entry k v es) p m (suc zero) rest h = absurd (omega arith)
    print_entries-Reads (entry k v es) p m (suc (suc f)) rest h =
        let ks = print fl print32 print64 k in
        let vs = print fl print32 print64 v in
        let ws = print_entries fl print32 print64 es in
        let size = length-append ks (vs ++ ws) in
        let size' = length-append vs ws in
        let some_key = printed_length_pos k (p.0) in
        let some_value = printed_length_pos v (p.2) in
        print_pair f k v m (put_all fl print32 print64 es (put fl k v m)) ws rest (p.0) (p.1) (p.2)
          (print-Reads k (p.0) (suc f) (vs ++ (ws ++ rest)) (omega arith))
          (print-Reads v (p.2) f (ws ++ rest) (omega arith))
          (print_entries-Reads es (p.3) (put fl k v m) f rest (omega arith))

  -- The words of a call's parameters.
  unfoldable pub print_params : Items → List Bytes
  print_params end = []
  print_params (item x xs) = print fl print32 print64 x ++ print_params xs

  print_params_closed :
      (xs : Items) → print_params xs ++ (text "]" ∷ []) ≡ print_items fl print32 print64 xs
  unfolding print_params print_items
  print_params_closed end = refl
  print_params_closed (item x xs) =
      append_assoc (print fl print32 print64 x) (print_params xs) (text "]" ∷ [])
      ∙ ap (λ ws. print fl print32 print64 x ++ ws) (print_params_closed xs)

  compose-print :
      (v : Value)
      → Printable fl print32 print64 v
      → compose fl (print fl print32 print64 v) ≡ composed v []
  unfolding compose
  compose-print v p =
      let ws = print fl print32 print64 v in
      rw append-nil at (print-Reads v p (suc (3 * length ws)) [] (omega arith))

  -- Where each parameter is made of nil, Booleans, integers of 64 bits, floats that their printed
  -- text gives back, strings, arrays and maps with hashable keys of which no two are equal: the
  -- words that print them, behind a method's name, are the call of that method with those
  -- parameters.
  pub command-print :
      (method : Bytes) (xs : Items)
      → PrintableItems fl print32 print64 xs
      → command fl (method ∷ print_params xs) ≡ call method xs
  unfolding command print
  command-print method xs p = rw (print_params_closed xs, compose-print (array xs) p)
