-- ===== src/Port/Missed.antt =====
-- main.go, waitForPort: a port whose directory is made before its parent directory is watched.
use arduino_router.Prelude.{
  ℕ, zero, suc, ◌≡◌, refl, none, Bool, true, Bytes, List, [], ◌∷◌, bytes_eq_refl, arith,
}
use arduino_router.Port.{
  CleanPath, parts_eq, path_eq, nearest, nearest_existing, has, looking, selecting, Wait, Watcher,
  begin, begun, searched, added, turn, turn_at, select, taken, report, create, watch, turns, make,
}
use arduino_router.Port.Search.{path_eq_deeper, bool_eq_refl}

abbrev pub child : CleanPath → Bytes → CleanPath
child p s = record p { parts = s ∷ p.parts }

parts_eq_refl : (ps : List Bytes) → parts_eq ps ps ≡ true
parts_eq_refl [] = refl
parts_eq_refl (s ∷ ss) = rw (bytes_eq_refl s, parts_eq_refl ss) refl

path_eq_refl : (p : CleanPath) → path_eq p p ≡ true
unfolding path_eq
path_eq_refl p = rw (parts_eq_refl p.parts) (bool_eq_refl p.rooted)

-- waitForPort of top/a/b/c, where only `top` exists. While it waits, top/a and top/a/b are made; it
-- takes the event of top/a and looks again; then top/a/b/c is made.
abbrev pub missed_run :
    Watcher → (CleanPath → Bool) → CleanPath → CleanPath → CleanPath → CleanPath → Wait
missed_run w is_dir top pa pb target = make target (
    turn w is_dir target (
      turn w is_dir target
        (make pb (make pa (turn w is_dir target (begin w is_dir (top ∷ []) target))))))

module _ (w : Watcher) (is_dir : CleanPath → Bool) (target : CleanPath) where
  turns_stuck :
      (n : ℕ) (s : Wait) → s.place ≡ selecting → s.events ≡ [] → turns w is_dir target n s ≡ s
  unfolding turns turn turn_at select
  turns_stuck zero s blocked quiet = refl
  turns_stuck (suc n) s blocked quiet =
      rw (blocked, quiet) (turns_stuck n (record s { events = []; place = selecting }) refl refl)

module _ (w : Watcher) (is_dir : CleanPath → Bool) (top : CleanPath) (a b c : Bytes)
    (fresh : w.new_watcher ≡ none) (adds : (p : CleanPath) → w.add p ≡ none) where
  begin_lem :
      begin w is_dir (top ∷ []) (child (child (child top a) b) c)
      ≡ record { existing = top ∷ []; watched = top ∷ []; events = []; place = looking }
  unfolding begin begun searched added nearest_existing nearest has
  begin_lem =
      rw
        (
          fresh,
          path_eq_deeper (child (child top a) b) top (λ e. omega arith),
          path_eq_deeper (child top a) top (λ e. omega arith),
          path_eq_deeper (child top a) (child (child top a) b) (λ e. omega arith),
          path_eq_deeper top (child top a) (λ e. omega arith),
          path_eq_refl top,
          adds top,
        )
        refl

  missed_lem :
      is_dir (child top a) ≡ true
      → missed_run w is_dir top
          (child top a)
          (child (child top a) b)
          (child (child (child top a) b) c)
        ≡ record {
          existing =
              child (child (child top a) b) c ∷ child (child top a) b ∷ child top a ∷ top ∷ [];
          watched = child top a ∷ top ∷ [];
          events = [];
          place = selecting;
        }
  unfolding turn turn_at select taken create watch make report has
  missed_lem directory =
      rw
        (
          begin_lem,
          path_eq_deeper (child (child (child top a) b) c) top (λ e. omega arith),
          path_eq_refl top,
          path_eq_deeper (child top a) top (λ e. omega arith),
          directory,
          adds (child top a),
          path_eq_deeper (child (child (child top a) b) c) (child (child top a) b)
              (λ e. omega arith),
          path_eq_deeper (child (child (child top a) b) c) (child top a) (λ e. omega arith),
          path_eq_deeper (child (child top a) b) (child top a) (λ e. omega arith),
          path_eq_deeper (child (child top a) b) top (λ e. omega arith),
          path_eq_deeper (child (child (child top a) b) c) top (λ e. omega arith),
        )
        refl

  -- With a watcher that makes no error: where waitForPort waits for top/a/b/c while only top
  -- exists, and top/a, a directory, and top/a/b are made before it takes the first event, it
  -- never returns by itself after top/a/b/c is made.
  pub port_is_missed :
      is_dir (child top a) ≡ true
      → (n : ℕ)
      → ((turns w is_dir (child (child (child top a) b) c) n (
            missed_run w is_dir top
              (child top a)
              (child (child top a) b)
              (child (child (child top a) b) c))).place
          ≡ selecting)
        × (has
              (child (child (child top a) b) c)
              (turns w is_dir (child (child (child top a) b) c) n (
                missed_run w is_dir top
                  (child top a)
                  (child (child top a) b)
                  (child (child (child top a) b) c))).existing
            ≡ true)
  unfolding has
  port_is_missed directory n =
      rw
        (
          missed_lem directory,
          turns_stuck w is_dir (child (child (child top a) b) c) n
              (record {
                existing =
                    child (child (child top a) b) c
                    ∷ child (child top a) b
                    ∷ child top a
                    ∷ top
                    ∷ [];
                watched = child top a ∷ top ∷ [];
                events = [];
                place = selecting;
              })
              refl refl,
          path_eq_refl (child (child (child top a) b) c),
        )
        (refl, refl)
