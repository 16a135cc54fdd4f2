-- ===== src/Cli.antt =====
-- cmd/arduino-router-cli/main.go: composeArgs, which reads the parameters of a call from the words of
-- the command line, and send.
mod Printing
mod Fuel
mod RoundTrip
mod Keys
pub mod Sending
pub mod Running
mod Tests
use arduino_router.Prelude.{
  ℕ, zero, suc, ◌*◌, length, Option, none, some, Bool, true, false, ◌&&◌, ◌||◌, Bytes, List, [],
  ◌∷◌, ◌++◌, ℤ, pos, negsuc, ◌==◌, if◌then◌else◌, text, bytes_eq,
}
use arduino_router.Error.{Error, fault, wrapped, error_text, Result, ok, err}
use arduino_router.Value.{
  Value, Items, Entries, nil, bool, int, string, float32, float64, array, map_value, end, item,
  done, entry, int8, int16, int32, int64, uint, uint8, uint16, uint32, uint64, bytes, raw_message,
}
use arduino_router.Strings.{atoi, cut_prefix, contains}

-- What composeArgs returns: a value and the words that are left, or an error. A panic is that of a
-- map whose key cannot be hashed.
pub data Composed {ℓ} (A : Type ℓ) : Type ℓ where
  composed : A → List Bytes → Composed A
  invalid : Error → Composed A
  panicked : Composed A
  out_of_fuel : Composed A

-- strconv.ParseFloat of 32 and 64 bits, to the bit patterns, and `==` on these.
pub record Floats : Type 0 where
  pub parse32 : Bytes → Option ℕ
  pub parse64 : Bytes → Option ℕ
  pub eq32 : ℕ → ℕ → Bool
  pub eq64 : ℕ → ℕ → Bool

module _ {ℓ κ} {A : Type ℓ} {B : Type κ} where
  -- The error of a part is the error of the whole, perhaps behind a text.
  abbrev pub and_then : (Error → Error) → Composed A → (A → List Bytes → Composed B) → Composed B
  and_then wrap (composed a rest) next = next a rest
  and_then wrap (invalid e) next = invalid (wrap e)
  and_then wrap panicked next = panicked
  and_then wrap out_of_fuel next = out_of_fuel

-- Maps and slices cannot be hashed.
abbrev pub hashable : Value → Bool
hashable (array xs) = false
hashable (map_value es) = false
hashable (bytes b) = false
hashable (raw_message b) = false
hashable other = true

abbrev pub int_eq : ℤ → ℤ → Bool
int_eq (pos a) (pos b) = a == b
int_eq (negsuc a) (negsuc b) = a == b
int_eq a b = false

-- Autodetect int or string.
abbrev pub detected : Bytes → Option ℤ → Value
detected s (some z) = int z
detected s none = string s

unfoldable pub detect : Bytes → Value
detect s = detected s (atoi s)

-- `if v, ok := strings.CutPrefix(…); ok { … }`
abbrev pub if_prefix : Option Bytes → (Bytes → Composed Value) → Composed Value → Composed Value
if_prefix (some v) found other = found v
if_prefix none found other = other

module _ (fl : Floats) where
  -- `==` of two keys: the same dynamic type, and equal values. Among these, composeArgs makes nil,
  -- bool, int, float32, float64 and string.
  abbrev pub key_eq : Value → Value → Bool
  key_eq nil nil = true
  key_eq (bool true) (bool true) = true
  key_eq (bool false) (bool false) = true
  key_eq (int a) (int b) = int_eq a b
  key_eq (float32 a) (float32 b) = fl.eq32 a b
  key_eq (float64 a) (float64 b) = fl.eq64 a b
  key_eq (string a) (string b) = bytes_eq a b
  key_eq a b = false

  -- m[key] = value
  abbrev pub put : Value → Value → Entries → Entries
  put k v done = entry k v done
  put k v (entry j w es) =
      let rest = put k v es in if key_eq j k then entry j v es else entry j w rest

  composed_float : (ℕ → Value) → Bytes → Bytes → List Bytes → Option ℕ → Composed Value
  composed_float make before s rest (some f) = composed (make f) rest
  composed_float make before s rest none = invalid (fault (before ++ s))

  -- The words that are no bracket; a bracket is none of the words that are tested before it.
  unfoldable pub compose_word : Bytes → List Bytes → Composed Value
  unfolding composed_float
  compose_word s rest =
      if bytes_eq s (text "nil")
      then composed nil rest
      else if bytes_eq s (text "true")
      then composed (bool true) rest
      else if bytes_eq s (text "false")
      then composed (bool false) rest
      else if_prefix (cut_prefix s (text "f32:"))
          (λ f. composed_float float32 (text "invalid f32 value: ") s rest (fl.parse32 f))
          (if_prefix (cut_prefix s (text "f64:"))
            (λ f. composed_float float64 (text "invalid f64 value: ") s rest (fl.parse64 f))
            (if_prefix (cut_prefix s (text "str:")) (λ str. composed (string str) rest)
              (composed (detect s) rest)))

  -- One unit of fuel for each call and each round of its loops.
  unfoldable mutual
    pub compose_args : ℕ → List Bytes → Composed Value
    compose_args zero args = out_of_fuel
    compose_args (suc f) [] = invalid (fault (text "no arguments provided"))
    compose_args (suc f) (s ∷ rest) =
        let arr = and_then (λ e. e) (compose_items f rest) (λ xs r. composed (array xs) r) in
        let m =
          and_then (λ e. e) (compose_entries f done rest) (λ es r. composed (map_value es) r) in
        if bytes_eq s (text "[")
        then arr
        else if bytes_eq s (text "{")
        then m
        else compose_word s rest

    -- The elements up to "]".
    pub compose_items : ℕ → List Bytes → Composed Items
    compose_items zero args = out_of_fuel
    compose_items (suc f) [] = invalid (fault (text "unterminated array"))
    compose_items (suc f) (s ∷ rest) =
        let more =
          and_then (λ e. e) (compose_args f (s ∷ rest))
            (λ x r. and_then (λ e. e) (compose_items f r) (λ xs r'. composed (item x xs) r')) in
        if bytes_eq s (text "]") then composed end rest else more

    -- The keys and values up to "}", put into the map so far.
    pub compose_entries : ℕ → Entries → List Bytes → Composed Entries
    compose_entries zero m args = out_of_fuel
    compose_entries (suc f) m [] = invalid (fault (text "unterminated map"))
    compose_entries (suc f) m (s ∷ rest) =
        let more =
          and_then (λ e. wrapped (text "invalid map key: ") e []) (compose_args f (s ∷ rest))
            (λ k r. compose_pair f m k r) in
        if bytes_eq s (text "}") then composed m rest else more

    pub compose_pair : ℕ → Entries → Value → List Bytes → Composed Entries
    compose_pair zero m k args = out_of_fuel
    compose_pair (suc f) m k [] = invalid (fault (text "unterminated map (missing value)"))
    compose_pair (suc f) m k (s ∷ rest) =
        and_then (λ e. wrapped (text "invalid map value: ") e []) (compose_args f (s ∷ rest))
          (λ v r.
            let more = compose_entries f (put k v m) r in if hashable k then more else panicked)

  -- Three units of fuel for each word, and one more.
  unfoldable pub compose : List Bytes → Composed Value
  compose args = compose_args (suc (3 * length args)) args

-- What the command does before it sends: the checks of `Run`, behind those of cobra's
-- MinimumNArgs(1). `crashed` is the panic, and `stuck` does not occur.
pub data Command : Type 0 where
  call : Bytes → Items → Command
  usage : Command
  rejected : Bytes → Command
  crashed : Command
  stuck : Command

checked : Bytes → Composed Value → Command
checked method (composed (array xs) []) = call method xs
checked method (composed v []) = rejected (text "Invalid arguments: expected array")
checked method (composed v (r ∷ rest)) = rejected (text "Invalid arguments: extra data:")
checked method (invalid e) = rejected (text "Invalid arguments: " ++ error_text e)
checked method panicked = crashed
checked method out_of_fuel = stuck

-- The words of the command line. The text of extra data goes on with the words that are left.
unfoldable pub command : Floats → List Bytes → Command
unfolding checked compose
command fl [] = usage
command fl (method ∷ args) = checked method (compose fl (text "[" ∷ (args ++ (text "]" ∷ []))))

-- A server's address with a colon is a TCP address.
unfoldable pub net_type : Bytes → Bytes
net_type server = if contains b':' server then text "tcp" else text "unix"
