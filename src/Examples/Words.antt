-- ===== src/Examples/Words.antt =====
-- examples/generic_sock_client/main.go: a client that reads parameters from the words of the command
-- line, without arrays, maps and prefixes.
use arduino_router.Prelude.{
  Bool-cases, inl, inr, subst, sym, bytes_eq_iff, zero, ℕ, suc, ◌*◌, ◌<◌, ◌≡◌, refl, ap, Option,
  none, some, Bool, false, Bytes, List, [], ◌∷◌, ◌++◌, map, text, bytes_eq, if◌then◌else◌, arith,
  length, length-append,
}
use arduino_router.Error.{Error, Result, ok, err}
use arduino_router.Value.{Value, nil, bool, elements, items}
use arduino_router.Strings.{cut_prefix, contains}
use arduino_router.Connection.{new_connection}
use arduino_router.Connection.Waiting.{send_request_sync}
use arduino_router.Cli.{
  Floats, composed, detect, compose_word, compose_args, compose_items, compose, command, call,
  net_type,
}
use arduino_router.Cli.Sending.{Link, send, dialled, over_connection, requested}
use arduino_router.Cli.Running.{is_nil}

-- One word of the command line, behind the method.
unfoldable pub argument : Bytes → Value
argument arg =
    if bytes_eq arg (text "true")
    then bool Bool.true
    else if bytes_eq arg (text "false")
    then bool false
    else if bytes_eq arg (text "nil")
    then nil
    else detect arg

-- What it prints, and the code with which it exits. A line is a text, with an error or a value.
pub data Line : Type 0 where
  usage : Line
  with_error : Bytes → Error → Line
  with_value : Bytes → Value → Line

pub record Exit : Type 0 where
  pub line : Line
  pub code : ℕ

answer_line : Value → Value → Exit
answer_line result e =
    if is_nil e
    then record { line = with_value (text "Response:") result; code = 0 }
    else record { line = with_value (text "Error in response:") e; code = 0 }

-- `none` is a program that waits for a response.
unfoldable pub after_call : Option (Result (Value × Value)) → Option Exit
unfolding answer_line
after_call none = none
after_call (some (ok (result, e))) = some (answer_line result e)
after_call (some (err e)) =
    some (record { line = with_error (text "Error sending request:") e; code = 0 })

over_socket : Link → Bytes → List Bytes → Option Error → Option Exit
unfolding after_call
over_socket link method args (some e) =
    some (record { line = with_error (text "Error connecting to server:") e; code = 1 })
over_socket link method args none =
    after_call
      (send_request_sync {H = Unit {0}} link.wire new_connection method (map argument args) tt
        link.wake).1

-- main, with the path of the socket and the words behind the name of the program.
unfoldable pub socket_client : Link → Bytes → List Bytes → Option Exit
unfolding over_socket
socket_client link socket [] = some (record { line = usage; code = 1 })
socket_client link socket (method ∷ args) =
    over_socket link method args (link.dial (text "unix") socket)

-- A word that means the same to the command line client: no bracket and no prefix. Inside the
-- brackets that the command line client adds, "}" is a text.
pub record IsPlain (word : Bytes) : Type 0 where
  pub no_open : bytes_eq word (text "[") ≡ false
  pub no_close : bytes_eq word (text "]") ≡ false
  pub no_map : bytes_eq word (text "{") ≡ false
  pub no_f32 : cut_prefix word (text "f32:") ≡ none
  pub no_f64 : cut_prefix word (text "f64:") ≡ none
  pub no_str : cut_prefix word (text "str:") ≡ none

abbrev pub AllPlain : List Bytes → Type 0
AllPlain [] = Unit {0}
AllPlain (w ∷ ws) = IsPlain w × AllPlain ws

elements-items : (l : List Value) → elements (items l) ≡ l
unfolding elements items
elements-items [] = refl
elements-items (v ∷ l) = ap (◌∷◌ v) (elements-items l)

module _ (fl : Floats) where
  word_agrees :
      (w : Bytes) (rest : List Bytes)
      → IsPlain w
      → compose_word fl w rest ≡ composed (argument w) rest
  unfolding compose_word argument bytes_eq
  word_agrees w rest p = elim (Bool-cases (bytes_eq w (text "nil"))) [
    | inl e ↦
        subst (λ v. compose_word fl v rest ≡ composed (argument v) rest)
          (sym ((bytes_eq_iff w (text "nil")).0 e)) refl
    | inr other ↦
        rw (other, p.no_f32, p.no_f64, p.no_str)
          (elim (Bool-cases (bytes_eq w (text "true"))) [
            | inl e ↦ rw e
            | inr e ↦
                rw e (elim (Bool-cases (bytes_eq w (text "false"))) [
                  | inl e' ↦ rw e'
                  | inr e' ↦ rw e'
                ])
          ])
  ]

  words_agree :
      (f : ℕ) (ws : List Bytes)
      → length ws < f
      → AllPlain ws
      → compose_items fl f (ws ++ (text "]" ∷ [])) ≡ composed (items (map argument ws)) []
  unfolding compose_args items bytes_eq
  words_agree zero ws h p = absurd (omega arith)
  words_agree (suc f) [] h p = refl
  words_agree (suc zero) (w ∷ ws) h p = absurd (omega arith)
  words_agree (suc (suc f)) (w ∷ ws) h (first, others) =
      rw
        (
          first.no_close,
          first.no_open,
          first.no_map,
          word_agrees w (ws ++ (text "]" ∷ [])) first,
          words_agree (suc f) ws (omega arith) others,
        )
        refl

  words_lem :
      (method : Bytes) (ws : List Bytes)
      → AllPlain ws
      → command fl (method ∷ ws) ≡ call method (items (map argument ws))
  unfolding command compose bytes_eq compose_args
  words_lem method ws p =
      rw
        (words_agree (3 * length (text "[" ∷ (ws ++ (text "]" ∷ [])))) ws
          (omega (arith, length-append ws (text "]" ∷ []))) p)
        refl

  -- Over a socket whose path has no colon and which is reached: for parameters without the words
  -- "[", "]" and "{" and the prefixes f32:, f64: and str:, generic_sock_client and the command
  -- line client read the same parameters and make the same call, whose result each of them treats
  -- in its own way.
  pub same_call :
      (link : Link) (socket method : Bytes) (ws : List Bytes)
      → contains b':' socket ≡ false
      → link.dial (text "unix") socket ≡ none
      → AllPlain ws
      → (command fl (method ∷ ws) ≡ call method (items (map argument ws)))
        × (r : Option (Result (Value × Value))) × (send link socket method
              (items (map argument ws))
              false
            ≡ requested r)
        × (socket_client link socket (method ∷ ws) ≡ after_call r)
  unfolding send dialled over_connection net_type socket_client over_socket
  same_call link socket method ws unix reached p = (
    words_lem method ws p,
    (send_request_sync {H = Unit {0}} link.wire new_connection method (map argument ws) tt
        link.wake).1,
    rw (unix, reached, elements-items (map argument ws)) refl,
    rw reached refl,
  )
