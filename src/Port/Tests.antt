-- ===== src/Port/Tests.antt =====
-- main.go, waitForPort: examples.
use arduino_router.Prelude.{
  ℕ, ◌≡◌, refl, none, some, Bool, true, false, [], ◌∷◌, text, bytes_eq, not,
}
use arduino_router.Port.{
  CleanPath, clean, clean_parts, segments, nearest, path_eq, nearest_existing, found, has,
  selecting, looking, returned, Wait, interrupt, turn, change, Watcher, turns,
}
use arduino_router.Error.{fault}
use arduino_router.Port.Search.{IsNearest, nearest_existing_lem}
use arduino_router.Port.Missed.{child, missed_run, port_is_missed}

abbrev dev : CleanPath
dev = clean (text "/dev")

abbrev serial_dir : CleanPath
serial_dir = child dev (text "serial")

abbrev by_id : CleanPath
by_id = child serial_dir (text "by-id")

abbrev board : CleanPath
board = child by_id (text "board")

cleans : clean (text "//dev/./serial/x/../by-id/board/") ≡ board
unfolding clean clean_parts segments bytes_eq
cleans = refl

cleans_up : clean (text "a/../../b") ≡ record { rooted = false; parts = text "b" ∷ text ".." ∷ [] }
unfolding clean clean_parts segments bytes_eq
cleans_up = refl

abbrev only_dev : ℕ → CleanPath → Bool
only_dev i p = path_eq p dev

nearest_existing_lem_example : IsNearest only_dev 0 by_id (nearest_existing only_dev by_id)
nearest_existing_lem_example = nearest_existing_lem only_dev by_id

finds_dev : nearest_existing only_dev by_id ≡ found dev
unfolding nearest_existing nearest path_eq clean clean_parts segments bytes_eq
finds_dev = refl

abbrev working : Watcher
working = record { new_watcher = none; add = λ p. none }

abbrev all_but_board : CleanPath → Bool
all_but_board p = not (path_eq p board)

port_is_missed_example :
    ((turns working all_but_board board 7
        (missed_run working all_but_board dev serial_dir by_id board)).place
      ≡ selecting)
    × (has board
          (turns working all_but_board board 7
            (missed_run working all_but_board dev serial_dir by_id board)).existing
        ≡ true)
unfolding path_eq clean clean_parts segments bytes_eq
port_is_missed_example =
    port_is_missed working all_but_board dev (text "serial") (text "by-id") (text "board") refl
      (λ p. refl) refl 7

abbrev waiting : Wait
waiting = record { existing = dev ∷ []; watched = dev ∷ []; events = []; place = selecting }

-- The end of the context ends the wait, and a change makes waitForPort look again.
interrupts : (interrupt (fault []) waiting).place ≡ returned (some (fault []))
unfolding interrupt
interrupts = refl

looks_again : (turn working all_but_board board (change serial_dir waiting)).place ≡ looking
unfolding turn change has path_eq clean clean_parts segments bytes_eq
looks_again = refl
