-- ===== src/Examples.antt =====
-- examples/ping_server/main.go, examples/mult_server/main.go and examples/ping_client/main.go: programs
-- at the TCP port 8900 of the router. examples/generic_sock_client/main.go is Examples/Words.
mod Words
mod Servers
mod Through
mod Mult
mod Dump
mod Tests
use arduino_router.Prelude.{
  ℕ, Option, none, some, Bool, Bytes, List, [], ◌∷◌, ◌++◌, pos, text, bytes_eq, true, false,
  if◌then◌else◌,
}
use arduino_router.Error.{Error, Result, ok, err}
use arduino_router.Value.{Value, nil, int, bool, string, float64, array, items}
use arduino_router.Connection.{Connection, new_connection, close}
use arduino_router.Connection.Waiting.{send_request_sync}
use arduino_router.Connection.Serving.{RequestHandler}
use arduino_router.Cli.Sending.{Link}
use arduino_router.Cli.Running.{is_nil}

method_not_found : Bytes → Value × Value
method_not_found method = (nil, string (text "method not found: " ++ method))

-- ping_server: the parameters are the answer.
unfoldable pub ping : RequestHandler
unfolding method_not_found
ping method params =
    if bytes_eq method (text "ping") then (array (items params), nil) else method_not_found method

module _ (times : ℕ → ℕ → ℕ) where
  second_factor : ℕ → Value → Value × Value
  second_factor a (float64 b) = (float64 (times a b), nil)
  second_factor a other = (nil, string (text "invalid param type, expected float64"))

  first_factor : Value → Value → Value × Value
  unfolding second_factor
  first_factor (float64 a) w = second_factor a w
  first_factor other w = (nil, string (text "invalid param type, expected float64"))

  factors : List Value → Value × Value
  unfolding first_factor
  factors (v ∷ w ∷ []) = first_factor v w
  factors params = (nil, string (text "invalid params"))

  -- mult_server; `times` is `*` of float64, on bit patterns.
  unfoldable pub mult : RequestHandler
  unfolding factors method_not_found
  mult method params =
      if bytes_eq method (text "mult") then factors params else method_not_found method

-- How the main function of a server goes on: it exits with a code, or returns with its connection
-- closed, or waits forever while the connection serves, or still waits for the router to answer its
-- registration, while the connection serves too.
pub data Served : Type 0 where
  exits : ℕ → Served
  returns : Connection (Unit {0}) → Served
  serves : Connection (Unit {0}) → Served
  registers : Connection (Unit {0}) → Served

registered : Connection (Unit {0}) × Option (Result (Value × Value)) → Served
registered (c, none) = registers c
registered (c, some (err e)) = returns (close c)
registered (c, some (ok (result, e))) = if is_nil e then serves c else returns (close c)

reached_server : Link → Bytes → Option Error → Served
unfolding registered
reached_server link method (some e) = exits 1
reached_server link method none = registered (
    send_request_sync link.wire new_connection (text "$/register") (string method ∷ []) tt
      link.wake)

-- main of a server of `method`.
unfoldable pub server_main : Link → Bytes → Served
unfolding reached_server
server_main link method = reached_server link method (link.dial (text "tcp") (text ":8900"))

-- How ping_client ends: with a panic, or with the result and the error printed; or it still waits for a
-- response.
pub data Asked : Type 0 where
  panics : Error → Asked
  prints : Value → Value → Asked
  waits : Asked

asked : Option (Result (Value × Value)) → Asked
asked none = waits
asked (some (err e)) = panics e
asked (some (ok (result, e))) = prints result e

-- "HELLO", 1, true, 5.0
abbrev pub ping_params : List Value
ping_params = string (text "HELLO") ∷ int (pos 1) ∷ bool true ∷ float64 0x4014000000000000 ∷ []

dialled : Link → Option Error → Asked
unfolding asked
dialled link (some e) = panics e
dialled link none =
    asked
      (send_request_sync {H = Unit {0}} link.wire new_connection (text "ping") ping_params tt
        link.wake).1

-- main of ping_client.
unfoldable pub ping_client : Link → Asked
unfolding dialled
ping_client link = dialled link (link.dial (text "tcp") (text ":8900"))
