-- ===== src/Monitor/Clients.antt =====
-- internal/monitorapi/monitor-api.go: the set of the clients.
use arduino_router.Prelude.{
  ℕ, ◌≡◌, refl, ◌∙◌, ap, Option, none, some, Bool, true, false, ◌&&◌, ◌||◌, not, Bytes, List, [],
  ◌∷◌, length, ltb, remove, ◌==◌, ==_iff, pos, arith, is_some, Bool-cases, inl, inr,
}
use arduino_router.Error.{Error}
use arduino_router.Value.{Value, int}
use arduino_router.Network.Stream.{payload}
use arduino_router.Monitor.{Monitor, Writes, close, after_write, write_all, write_data, write}

abbrev pub mem : ℕ → List ℕ → Bool
mem j [] = false
mem j (x ∷ xs) = x == j || mem j xs

mem-remove : (j a : ℕ) (l : List ℕ) → mem j (remove a l) ≡ (not (a == j) && mem j l)
mem-remove j a [] = ground arith
mem-remove j a (x ∷ l) = let rest = mem-remove j a l in ground arith

-- The Boolean laws of a loop over connections of which some are lost.
lost_one : (a x : Bool) → (a && not (a && x)) ≡ (a && not x)
lost_one true x = refl
lost_one false x = refl

lost_twice :
    (a b x : Bool) → ((a && not (true && x)) && not (b && x)) ≡ (a && not ((true || b) && x))
lost_twice true true true = refl
lost_twice true true false = refl
lost_twice true false true = refl
lost_twice true false false = refl
lost_twice false b x = refl

lost_once :
    (a b x y : Bool) → ((a && not (false && y)) && not (b && x)) ≡ (a && not ((false || b) && x))
lost_once true b x y = refl
lost_once false b x y = refl

lost_either :
    (w : Writes) (limited : Bool) (d : Bytes) (conn j : ℕ) (a b : Bool)
    → ((a && not (conn == j && is_some (w limited conn d))) && not (b && is_some (w limited j d)))
      ≡ (a && not ((conn == j || b) && is_some (w limited j d)))
lost_either w limited d conn j a b = elim (Bool-cases (conn == j)) [
  | inl same ↦
      let path = (==_iff conn j).0 same in
      rw same (rw path (lost_twice a b (is_some (w limited j d))))
  | inr other ↦ rw other (lost_once a b (is_some (w limited j d)) (is_some (w limited conn d)))
]

module _ {P : Type 0} where
  mem-after_write :
      (m : Monitor P) (conn j : ℕ) (o : Option Error)
      → mem j (after_write m conn o).sockets ≡ (mem j m.sockets && not (conn == j && is_some o))
  unfolding after_write close
  mem-after_write m conn j none = ground arith
  mem-after_write m conn j (some e) = rw (mem-remove j conn m.sockets) (ground arith)

  mem-write_all :
      (w : Writes) (limited : Bool) (d : Bytes) (conns : List ℕ) (m : Monitor P) (j : ℕ)
      → mem j (write_all w limited d conns m).sockets
        ≡ (mem j m.sockets && not (mem j conns && is_some (w limited j d)))
  unfolding write_all
  mem-write_all w limited d [] m j = ground arith
  mem-write_all w limited d (conn ∷ conns) m j =
      let o = w limited conn d in
      let others = mem-write_all w limited d conns (after_write m conn o) j in
      let one = mem-after_write m conn j o in
      others
      ∙ ap (λ b. b && not (mem j conns && is_some (w limited j d))) one
      ∙ lost_either w limited d conn j (mem j m.sockets) (mem j conns)

  write_data_lem :
      (w : Writes) (m : Monitor P) (o : Option Bytes) (d : Bytes) (j : ℕ)
      → o ≡ some d
      → let a = write_data w m o in
        (mem j (a.0).sockets
          ≡ (mem j m.sockets && not (is_some (w (ltb 1 (length m.sockets)) j d))))
        × (a.1 ≡ int (pos (length d)))
  unfolding write_data
  write_data_lem w m o d j e = rw e (
    mem-write_all w (ltb 1 (length m.sockets)) d m.sockets m j
        ∙ lost_one (mem j m.sockets) (is_some (w (ltb 1 (length m.sockets)) j d)),
    refl,
  )

  -- Mon/write with bytes or a string returns their number, and the clients after it are those to
  -- which writing, with a deadline if there are several, had no error.
  pub write_to_clients :
      (w : Writes) (m : Monitor P) (v : Value) (d : Bytes) (j : ℕ)
      → payload v ≡ some d
      → (mem j (write w m (v ∷ [])).0.sockets
          ≡ (mem j m.sockets && not (is_some (w (ltb 1 (length m.sockets)) j d))))
        × ((write w m (v ∷ [])).1 ≡ int (pos (length d)))
  unfolding write
  write_to_clients w m v d j is_d = write_data_lem w m (payload v) d j is_d
