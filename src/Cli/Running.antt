-- ===== src/Cli/Running.antt =====
-- cmd/arduino-router-cli/main.go, main: what a command prints, and its exit code.
use arduino_router.Prelude.{
  ℕ, Option, none, some, Bool, true, false, Bytes, List, [], ◌∷◌, ◌++◌, text, if◌then◌else◌,
}
use arduino_router.Error.{error_text, Result, ok, err}
use arduino_router.Value.{Value, Items, nil, array}
use arduino_router.Cli.{Floats, Command, call, usage, rejected, crashed, stuck, command}
use arduino_router.Cli.Sending.{Link, send}

-- What was printed, each text with the end of its line if it has one, and the code of os.Exit; a panic exits with 2.
pub record Ended : Type 0 where
  pub output : List Bytes
  pub code : ℕ

pub record Flags : Type 0 where
  pub notification : Bool
  pub verbose : Bool
  pub server : Bytes

abbrev pub is_nil : Value → Bool
is_nil nil = true
is_nil other = false

abbrev if_verbose : Bool → List Bytes → List Bytes
if_verbose true l = l
if_verbose false l = []

abbrev println : Bytes → Bytes
println b = b ++ (10 ∷ [])

-- json.MarshalIndent with two spaces; `none` is its error, which `print` ignores.
module _ (marshal_indent : Value → Option Bytes) where
  -- The bytes that come with an error are nil.
  unfoldable pub print : Value → Bytes
  print v = println (elim (marshal_indent v) [ none ↦ [] | some b ↦ b ])

  announced : Flags → Bytes → Items → List Bytes
  unfolding print
  announced flags method args = if_verbose flags.verbose (
      ((if flags.notification
          then text "Sending notification for method '"
          else text "Sending request for method '")
        ++ (method ++ text "', with parameters: "))
      ∷ print (array args)
      ∷ [])

  -- The answer to a request: an error with the code 1, or a result with the code 0.
  shown : Flags → Value → Value → Ended
  unfolding print
  shown flags result e =
      if is_nil e
      then record {
        output =
            if is_nil result
            then []
            else if_verbose flags.verbose (text "Got RPC response: " ∷ []) ++ (print result ∷ []);
        code = 0;
      }
      else record {
        output = if_verbose flags.verbose (text "Got RPC error: " ∷ []) ++ (print e ∷ []);
        code = 1;
      }

  answered : Flags → Value → Value → Ended
  unfolding shown
  answered flags result e =
      if flags.notification then record { output = []; code = 0 } else shown flags result e

  sent : Flags → Bytes → Items → Option (Result (Value × Value)) → Option Ended
  unfolding answered announced
  sent flags method args none = none
  sent flags method args (some (err e)) =
      some (record {
        output = println (text "Error sending request: " ++ error_text e) ∷ [];
        code = 1;
      })
  sent flags method args (some (ok (result, e))) = some (record {
    output = announced flags method args ++ (answered flags result e).output;
    code = (answered flags result e).code;
  })

  executed : Bytes → Flags → Link → Command → Option Ended
  unfolding sent
  executed appname flags link usage = some (record {
    output = println (text "Use: " ++ (appname ++ text " -h for help.")) ∷ [];
    code = 200;
  })
  executed appname flags link (rejected message) =
      some (record { output = println message ∷ []; code = 1 })
  executed appname flags link (call method args) =
      sent flags method args (send link flags.server method args flags.notification)
  executed appname flags link crashed = some (record { output = []; code = 2 })
  executed appname flags link stuck = none

  -- The command with these words, behind the flags; `none` is a command that waits for a response.
  unfoldable pub execute : Bytes → Floats → Flags → Link → List Bytes → Option Ended
  unfolding executed
  execute appname fl flags link words = executed appname flags link (command fl words)
