-- ===== src/Router.antt =====
-- internal/msgpackrouter/router.go: the router over its connections. Connections are pointers into
-- `conns`; the routes, the internal methods and the connections are shared by all goroutines, and
-- a packet, an accepted connection or the end of a connection is one step.
pub mod Errors
pub mod Params
pub mod Routes
mod Store
pub mod Delivery
pub mod Dispatch
mod Acts
pub mod Ownership
pub mod Steps
pub mod Forwarding
pub mod Internal
pub mod Answering
pub mod Keeping
pub mod Ids
pub mod Lasting
mod Tests
use arduino_router.Prelude.{
  ℕ, ◌+◌, Option, none, some, Bool, true, false, Bytes, List, [], ◌∷◌, ◌++◌, ℤ, pos, leb_ℤ, ◌==◌,
  if◌then◌else◌, text, decimal, length, bytes_eq, bytes_eq_instance,
}
use arduino_router.Dict.{Dict, empty, lookup}
use arduino_router.Error.{Error, Result, ok, err, is_limit_exceeded, error_text}
use arduino_router.Value.{Value, nil, bool, string}
use arduino_router.Conversion.{to_int}
use arduino_router.Connection.{
  Connection, OutRequest, Wire, new_connection, set_keep_raw, set_max_outgoing_message_size, close,
  respond, send_request, send_notification, handle_incoming_response,
}
use arduino_router.Connection.Decode.{
  RpcPacket, Kind, kind, request, response, notification, unknown,
}
use Errors.{
  RouteError, to_encoded_error, router_error, invalid_params, method_not_available,
  failed_to_send_requests, generic_error, buffer_limit_exceeded,
}
use Params.{RawParams, get, type_name}
use Routes.{
  RouteTable, register_method, remove_single_method_from_connection, remove_methods_from_connection,
  get_connection_for_method,
}
pub use Store.{Forward, Handler, World, Env, update, put, too_big}
unfoldable pub use Store.{deliver, limit_messages}

module _ {S : Type 0} (env : Env) where
  -- fwdRes; logging aside.
  unfoldable pub fwd_res : World S → Forward → Value → Value → World S
  fwd_res w f req_result req_err =
      put w f.caller (deliver (env.wire f.caller) (w.conns f.caller) f.id req_result req_err)

  wrong_count : World S → Forward → List Value → World S
  wrong_count w f params = fwd_res w f nil (
      router_error invalid_params
        (text "invalid params: only one param is expected, got " ++ decimal (length params)))

  wrong_type : World S → Forward → Bytes → Value → World S
  wrong_type w f expected v = fwd_res w f nil (
      router_error invalid_params
        (text "invalid params: expected " ++ (expected ++ (text ", got " ++ type_name v))))

  register_outcome : World S → Forward → Option RouteError → World S
  register_outcome w f (some e) = fwd_res w f nil (to_encoded_error e)
  register_outcome w f none = fwd_res w f (bool true) nil

  -- case "$/register"
  pub handle_register : World S → Forward → List Value → World S
  unfolding wrong_count wrong_type register_outcome
  handle_register w f (string method ∷ []) =
      let (routes, e) = register_method w.routes method f.caller in
      register_outcome (record w { routes = routes }) f e
  handle_register w f (v ∷ []) = wrong_type w f (text "string") v
  handle_register w f params = wrong_count w f params

  unregister_outcome : World S → Forward → Bytes → Bool → World S
  unregister_outcome w f method false =
      fwd_res w f nil
        (router_error generic_error (text "route not registered by this client: " ++ method))
  unregister_outcome w f method true = fwd_res w f (bool true) nil

  -- case "$/unregister"
  pub handle_unregister : World S → Forward → List Value → World S
  unfolding wrong_count wrong_type unregister_outcome
  handle_unregister w f (string method ∷ []) =
      let (routes, done) = remove_single_method_from_connection w.routes method f.caller in
      unregister_outcome (record w { routes = routes }) f method done
  handle_unregister w f (v ∷ []) = wrong_type w f (text "string") v
  handle_unregister w f params = wrong_count w f params

  -- case "$/reset"
  pub handle_reset : World S → Forward → List Value → World S
  handle_reset w f [] =
      fwd_res (record w { routes = remove_methods_from_connection w.routes f.caller }) f (bool true)
        nil
  handle_reset w f params =
      fwd_res w f nil (router_error invalid_params (text "invalid params: no params are expected"))

  set_max_msg_size : World S → Forward → Value → Option ℤ → World S
  unfolding wrong_type limit_messages
  set_max_msg_size w f v none = wrong_type w f (text "int") v
  set_max_msg_size w f v (some size) =
      if leb_ℤ size (pos 127)
      then fwd_res w f nil (
          router_error invalid_params
            (text "invalid params: max buffer size must be greater than 127"))
      else fwd_res (limit_messages w f.caller size) f (bool true) nil

  -- case "$/setMaxMsgSize"
  pub handle_set_max_msg_size : World S → Forward → List Value → World S
  unfolding wrong_count set_max_msg_size
  handle_set_max_msg_size w f (v ∷ []) = set_max_msg_size w f v (to_int v)
  handle_set_max_msg_size w f params = wrong_count w f params

  internal_outcome : World S → Forward → Option (Value × Value) → World S
  internal_outcome w f none = w
  internal_outcome w f (some (result, e)) = fwd_res w f result e

  -- An internal method answers by its handler.
  handle_internal : World S → Forward → Handler S → List Value → World S
  unfolding internal_outcome
  handle_internal w f handler params =
      let (s, answer) = handler w.state f.caller params in
      internal_outcome (record w { state = s }) f answer

  forward_outcome : World S → Forward → Result ℕ → World S
  forward_outcome w f (ok _) = w
  forward_outcome w f (err e) =
      if is_limit_exceeded e
      then fwd_res w f nil too_big
      else fwd_res w f nil
          (router_error failed_to_send_requests (text "failed to send request: " ++ error_text e))

  -- A method of another connection: the request is passed on, and waits there for the answer.
  forward_request : World S → Forward → List Value → Option ℕ → World S
  unfolding forward_outcome
  forward_request w f raw none =
      fwd_res w f nil
        (router_error method_not_available (text "method " ++ (f.method ++ text " not available")))
  forward_request w f raw (some client) =
      let (c, r) = send_request (env.wire client) (w.conns client) f.method raw f in
      forward_outcome (put w client c) f r

  -- The methods that are not the router's own.
  pub handle_other : World S → Forward → List Value → World S
  unfolding handle_internal forward_request
  handle_other w f raw = elim (lookup f.method w.routes_internal) [
    | some handler ↦
        handle_internal w f handler (get env.unmarshal (record { raw = raw; decoded = none })).0
    | none ↦ forward_request w f raw (get_connection_for_method w.routes f.method)
  ]

  -- The request handler of a connection.
  unfoldable pub handle_request : World S → ℕ → ℕ → Bytes → List Value → World S
  unfolding handle_register handle_unregister handle_reset handle_set_max_msg_size handle_other
  handle_request w conn id method raw =
      let f : Forward = record { caller = conn; id = id; method = method } in
      let params = (get env.unmarshal (record { raw = raw; decoded = none })).0 in
      if bytes_eq method (text "$/register")
      then handle_register w f params
      else if bytes_eq method (text "$/unregister")
      then handle_unregister w f params
      else if bytes_eq method (text "$/reset")
      then handle_reset w f params
      else if bytes_eq method (text "$/setMaxMsgSize")
      then handle_set_max_msg_size w f params
      else handle_other w f raw

  notify_max_msg_size : World S → ℕ → Option ℤ → World S
  unfolding limit_messages
  notify_max_msg_size w conn none = w
  notify_max_msg_size w conn (some size) =
      if leb_ℤ size (pos 127) then w else limit_messages w conn size

  handle_notified_max : World S → ℕ → List Value → World S
  unfolding notify_max_msg_size
  handle_notified_max w conn (v ∷ []) = notify_max_msg_size w conn (to_int v)
  handle_notified_max w conn params = w

  notify_internal : World S → ℕ → Handler S → List Value → World S
  notify_internal w conn handler params = record w { state = (handler w.state conn params).0 }

  forward_notification : World S → Bytes → List Value → Option ℕ → World S
  forward_notification w method raw none = w
  forward_notification w method raw (some client) =
      put w client (send_notification (env.wire client) (w.conns client) method raw).0

  notify_other : World S → ℕ → Bytes → List Value → World S
  unfolding notify_internal forward_notification
  notify_other w conn method raw = elim (lookup method w.routes_internal) [
    | some handler ↦
        notify_internal w conn handler (get env.unmarshal (record { raw = raw; decoded = none })).0
    | none ↦ forward_notification w method raw (get_connection_for_method w.routes method)
  ]

  -- The notification handler of a connection.
  unfoldable pub handle_notification : World S → ℕ → Bytes → List Value → World S
  unfolding handle_notified_max notify_other
  handle_notification w conn method raw =
      if bytes_eq method (text "$/setMaxMsgSize")
      then handle_notified_max w conn (get env.unmarshal (record { raw = raw; decoded = none })).0
      else notify_other w conn method raw

  response_outcome :
      World S → ℕ → Value → Value → Connection Forward × Result (OutRequest Forward) → World S
  response_outcome w conn req_result req_error (c, err e) = put w conn c
  response_outcome w conn req_result req_error (c, ok req) =
      fwd_res (put w conn c) req.res req_result req_error

  -- A response goes to the callback of the request that it answers.
  unfoldable pub handle_response : World S → ℕ → ℕ → Value → Value → World S
  unfolding response_outcome
  handle_response w conn id req_error req_result =
      response_outcome w conn req_result req_error (handle_incoming_response (w.conns conn) id)

  -- The switch of `Run`.
  unfoldable pub handle_packet : World S → ℕ → RpcPacket → World S
  handle_packet w conn packet = elim (kind packet.msg_type) [
    | request ↦ handle_request w conn packet.msg_id packet.method packet.params
    | response ↦ handle_response w conn packet.msg_id packet.req_error packet.req_result
    | notification ↦ handle_notification w conn packet.method packet.params
    | unknown ↦ w
  ]

module _ {S : Type 0} where
  -- connectionLoop up to `Run`: a new connection, with a pointer of its own.
  unfoldable pub accept : World S → World S
  accept w = record w {
    conns = update w.conns w.next (set_keep_raw new_connection true);
    live = update w.live w.next true;
    next = w.next + 1;
  }

  -- connectionLoop after `Run`.
  unfoldable pub finish : World S → ℕ → World S
  finish w conn = record w {
    routes = remove_methods_from_connection w.routes conn;
    conns = update w.conns conn (close (w.conns conn));
    live = update w.live conn false;
  }
