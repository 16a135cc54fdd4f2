-- ===== src/Cli/Tests.antt =====
-- Runs of composeArgs and the theorems at concrete words.
use arduino_router.Prelude.{
  ℕ, ◌≡◌, ◌≢◌, refl, Option, none, some, false, Bytes, [], ◌∷◌, ◌++◌, ◌==◌, text, bytes_eq, pos,
  negsuc, arith,
}
use arduino_router.Connection.Waiting.{responds}
use arduino_router.Cli.Sending.{Link}
use arduino_router.Cli.Running
use arduino_router.Cli.Running.{Flags, execute}
use arduino_router.Value.{
  Value, nil, float64, int, string, array, map_value, end, item, done, entry, Items,
}
use arduino_router.Strings.{atoi, cut_prefix}
use arduino_router.Cli.{
  Floats, panicked, compose, compose_args, compose_word, detect, command, call, stuck,
}
use arduino_router.Cli.Printing.{print}
use arduino_router.Cli.RoundTrip.{print_params, command-print}
use arduino_router.Cli.Fuel.{Ends, compose-Ends, command_ends}
use arduino_router.Cli.Keys.{unhashable_panics}

-- No text is a float.
abbrev floats : Floats
floats = record { parse32 = λ s. none; parse64 = λ s. none; eq32 = ◌==◌; eq64 = ◌==◌ }

abbrev no_text : ℕ → Bytes
no_text b = []

-- [1, "x", {"a": -2}]
abbrev sample : Items
sample = item (int (pos 1)) (
    item (string (text "x"))
      (item (map_value (entry (string (text "a")) (int (negsuc 1)) done)) end))

words :
    command floats
      (text "m" ∷ text "1" ∷ text "x" ∷ text "{" ∷ text "a" ∷ text "-2" ∷ text "}" ∷ [])
    ≡ call (text "m") sample
unfolding command compose_args bytes_eq compose_word cut_prefix detect atoi
words = refl

command-print_example :
    command floats (text "m" ∷ print_params floats no_text no_text sample) ≡ call (text "m") sample
command-print_example =
    command-print floats no_text no_text (text "m") sample
      (omega arith, (tt, (((tt, refl, omega arith, tt), refl), tt)))

command_ends_example : command floats (text "m" ∷ text "[" ∷ []) ≢ stuck
command_ends_example = command_ends floats (text "m" ∷ text "[" ∷ [])

compose-Ends_example : Ends 2 (compose floats (text "[" ∷ text "]" ∷ []))
compose-Ends_example = compose-Ends floats (text "[" ∷ text "]" ∷ [])

unhashable_panics_example :
    compose floats (
      text "{"
      ∷ (print floats no_text no_text (array end)
          ++ (print floats no_text no_text nil ++ (text "}" ∷ []))))
    ≡ panicked
unhashable_panics_example =
    unhashable_panics floats no_text no_text (array end) nil (text "}" ∷ []) tt refl tt

abbrev link : Link
link = record {
  dial = λ network server. none;
  wire = record {
    chunks = λ m. text "m" ∷ [];
    encode_error = λ m. none;
    write_error = λ before p. none;
  };
  wake = responds (int (pos 5)) nil;
}

abbrev flags : Flags
flags = record { notification = false; verbose = false; server = text "localhost:5000" }

abbrev no_json : Value → Option Bytes
no_json v = none

-- Without a method the usage is printed.
no_method :
    execute no_json (text "cli") floats flags link []
    ≡ some (record { output = (text "Use: cli -h for help." ++ (10 ∷ [])) ∷ []; code = 200 })
unfolding execute command
no_method = refl

-- A value that has no JSON, an infinite number, is printed as an empty line.
no_value : Running.print no_json (float64 0x7ff0000000000000) ≡ 10 ∷ []
unfolding Running.print
no_value = refl
