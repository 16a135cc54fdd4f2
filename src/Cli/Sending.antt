-- ===== src/Cli/Sending.antt =====
-- cmd/arduino-router-cli/main.go, send: one notification or request over a new connection.
use arduino_router.Prelude.{Option, none, some, Bool, true, false, Bytes, [], text}
use arduino_router.Error.{Error, wrapped, Result, ok, err}
use arduino_router.Value.{Value, Items, nil, elements}
use arduino_router.Connection.{Wire, new_connection, send_notification}
use arduino_router.Connection.Waiting.{Wake, send_request_sync}
use arduino_router.Cli.{net_type}

-- What the network does: the error of net.Dial, the new connection's stream, and the end of the wait
-- for a response.
pub record Link : Type 0 where
  pub dial : Bytes → Bytes → Option Error
  pub wire : Wire
  pub wake : Wake

notified : Option Error → Result (Value × Value)
notified none = ok (nil, nil)
notified (some e) = err (wrapped (text "error sending notification: ") e [])

-- `none` is a request whose response has not come, here and in what follows.
unfoldable pub requested : Option (Result (Value × Value)) → Option (Result (Value × Value))
requested none = none
requested (some (ok r)) = some (ok r)
requested (some (err e)) = some (err (wrapped (text "error sending request: ") e []))

-- `true` is a notification. The callback of the request is `tt`.
unfoldable pub over_connection : Link → Bytes → Items → Bool → Option (Result (Value × Value))
unfolding notified requested
over_connection link method args true =
    some (
      notified (send_notification {H = Unit {0}} link.wire new_connection method (elements args)).1)
over_connection link method args false =
    requested (send_request_sync link.wire new_connection method (elements args) tt link.wake).1

unfoldable pub dialled :
    Link → Bytes → Items → Bool → Option Error → Option (Result (Value × Value))
unfolding over_connection
dialled link method args notification (some e) =
    some (err (wrapped (text "error connecting to server: ") e []))
dialled link method args notification none = over_connection link method args notification

unfoldable pub send : Link → Bytes → Bytes → Items → Bool → Option (Result (Value × Value))
unfolding dialled net_type
send link server method args notification =
    dialled link method args notification (link.dial (net_type server) server)
