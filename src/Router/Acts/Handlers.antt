-- ===== src/Router/Acts/Handlers.antt =====
-- Every packet is a sequence of acts of the connection that it came from.
use arduino_router.Prelude.{
  ℕ, inl, inr, Option, none, some, Bool, true, false, Bytes, List, [], ◌∷◌, ℤ, bytes_eq_instance,
  Option-cases, bytes_eq, Bool-cases, leb_ℤ, pos, text,
}
use arduino_router.Dict.{lookup}
use arduino_router.Error.{Result, ok, err, is_limit_exceeded}
use arduino_router.Value.{Value, string}
use arduino_router.Conversion.{to_int}
use arduino_router.Connection.{Connection, OutRequest, send_request, handle_incoming_response}
use arduino_router.Connection.Decode.{
  RpcPacket, Kind, kind, request, response, notification, unknown,
}
use arduino_router.Router.Errors.{RouteError}
use arduino_router.Router.Routes.{register_method, remove_single_method_from_connection}
use arduino_router.Router.Dispatch.{this, decoded_params, handle_request_cases}
use arduino_router.Router.Acts.{
  Act, Acts, answer, reroute, compute, limit, pass, notify, settle, none_left, also, one,
  Acts-trans, register-Respects, unregister-Respects, reset-Respects,
}
use arduino_router.Router.{
  World, Forward, Handler, Env, put, fwd_res, register_outcome, handle_register, unregister_outcome,
  handle_unregister, handle_reset, set_max_msg_size, handle_set_max_msg_size, internal_outcome,
  handle_internal, forward_outcome, forward_request, handle_other, handle_request,
  notify_max_msg_size, handle_notified_max, forward_notification, notify_other, handle_notification,
  response_outcome, handle_response, handle_packet,
}

then_answer :
    {S : Type 0} {env : Env} {conn : ℕ} {w w' : World S} (f : Forward) (r e : Value)
    → Act env conn w w'
    → Acts env conn w (fwd_res env w' f r e)
then_answer {w' = w'} f r e a = also (one a) (answer w' f r e)

module _ {S : Type 0} (env : Env) (w : World S) (f : Forward) where
  register_outcome-Acts : (e : Option RouteError) → Acts env f.caller w (register_outcome env w f e)
  unfolding register_outcome
  register_outcome-Acts none = one (answer w f _ _)
  register_outcome-Acts (some e) = one (answer w f _ _)

  unregister_outcome-Acts :
      (m : Bytes) (b : Bool) → Acts env f.caller w (unregister_outcome env w f m b)
  unfolding unregister_outcome
  unregister_outcome-Acts m true = one (answer w f _ _)
  unregister_outcome-Acts m false = one (answer w f _ _)

  forward_outcome-Acts : (r : Result ℕ) → Acts env f.caller w (forward_outcome env w f r)
  unfolding forward_outcome
  forward_outcome-Acts (ok n) = none_left
  forward_outcome-Acts (err e) = elim (Bool-cases (is_limit_exceeded e)) [
    | inl h ↦ rw h (one (answer w f _ _))
    | inr h ↦ rw h (one (answer w f _ _))
  ]

module _ {S : Type 0} (env : Env) (w : World S) (f : Forward) where
  handle_register-Acts :
      (params : List Value) → Acts env f.caller w (handle_register env w f params)
  unfolding handle_register
  handle_register-Acts (string m ∷ []) =
      Acts-trans (one (reroute w _ (register-Respects w.routes m f.caller))) (
        register_outcome-Acts env (record w { routes = (register_method w.routes m f.caller).0 }) f
          _)
  handle_register-Acts (v ∷ []) = one (answer w f _ _)
  handle_register-Acts params = one (answer w f _ _)

  handle_unregister-Acts :
      (params : List Value) → Acts env f.caller w (handle_unregister env w f params)
  unfolding handle_unregister
  handle_unregister-Acts (string m ∷ []) =
      Acts-trans (one (reroute w _ (unregister-Respects w.routes m f.caller))) (
        unregister_outcome-Acts env
          (record w { routes = (remove_single_method_from_connection w.routes m f.caller).0 }) f m
          _)
  handle_unregister-Acts (v ∷ []) = one (answer w f _ _)
  handle_unregister-Acts params = one (answer w f _ _)

  handle_reset-Acts : (params : List Value) → Acts env f.caller w (handle_reset env w f params)
  unfolding handle_reset
  handle_reset-Acts [] = then_answer f _ _ (reroute w _ (reset-Respects w.routes f.caller))
  handle_reset-Acts params = one (answer w f _ _)

  set_max_msg_size-Acts :
      (v : Value) (n : Option ℤ) → Acts env f.caller w (set_max_msg_size env w f v n)
  unfolding set_max_msg_size
  set_max_msg_size-Acts v none = one (answer w f _ _)
  set_max_msg_size-Acts v (some n) = elim (Bool-cases (leb_ℤ n (pos 127))) [
    | inl h ↦ rw h (one (answer w f _ _))
    | inr h ↦ rw h (then_answer f _ _ (limit w n))
  ]

  handle_set_max_msg_size-Acts :
      (params : List Value) → Acts env f.caller w (handle_set_max_msg_size env w f params)
  unfolding handle_set_max_msg_size
  handle_set_max_msg_size-Acts (v ∷ []) = set_max_msg_size-Acts v (to_int v)
  handle_set_max_msg_size-Acts params = one (answer w f _ _)

  forward_request-Acts :
      (raw : List Value) (client : Option ℕ)
      → Acts env f.caller w (forward_request env w f raw client)
  unfolding forward_request
  forward_request-Acts raw none = one (answer w f _ _)
  forward_request-Acts raw (some client) =
      let sent = send_request (env.wire client) (w.conns client) f.method raw f in
      Acts-trans (one (pass w client f.id f.method raw))
        (forward_outcome-Acts env (put w client sent.0) f sent.1)

  internal_outcome-Acts :
      (s : S) (answer : Option (Value × Value))
      → Acts env f.caller w (internal_outcome env (record w { state = s }) f answer)
  unfolding internal_outcome
  internal_outcome-Acts s none = one (compute w s)
  internal_outcome-Acts s (some (result, e)) = then_answer f _ _ (compute w s)

  handle_internal-Acts :
      (h : Handler S) (params : List Value) → Acts env f.caller w (handle_internal env w f h params)
  unfolding handle_internal
  handle_internal-Acts h params =
      internal_outcome-Acts (h w.state f.caller params).0 (h w.state f.caller params).1

  handle_other-Acts : (raw : List Value) → Acts env f.caller w (handle_other env w f raw)
  unfolding handle_other
  handle_other-Acts raw = elim (Option-cases (lookup f.method w.routes_internal)) [
    | inl e ↦ rw (e, handle_other) (forward_request-Acts raw _)
    | inr (h, e) ↦ rw (e, handle_other) (handle_internal-Acts h _)
  ]

module _ {S : Type 0} (env : Env) (w : World S) (conn : ℕ) where
  notify_max_msg_size-Acts : (n : Option ℤ) → Acts env conn w (notify_max_msg_size env w conn n)
  unfolding notify_max_msg_size
  notify_max_msg_size-Acts none = none_left
  notify_max_msg_size-Acts (some n) = elim (Bool-cases (leb_ℤ n (pos 127))) [
    | inl h ↦ rw h none_left
    | inr h ↦ rw h (one (limit w n))
  ]

  handle_notified_max-Acts :
      (params : List Value) → Acts env conn w (handle_notified_max env w conn params)
  unfolding handle_notified_max
  handle_notified_max-Acts (v ∷ []) = notify_max_msg_size-Acts (to_int v)
  handle_notified_max-Acts params = none_left

  forward_notification-Acts :
      (method : Bytes) (raw : List Value) (client : Option ℕ)
      → Acts env conn w (forward_notification env w method raw client)
  unfolding forward_notification
  forward_notification-Acts method raw none = none_left
  forward_notification-Acts method raw (some client) = one (notify w client method raw)

  notify_other-Acts :
      (method : Bytes) (raw : List Value) → Acts env conn w (notify_other env w conn method raw)
  unfolding notify_other
  notify_other-Acts method raw = elim (Option-cases (lookup method w.routes_internal)) [
    | inl e ↦ rw (e, notify_other) (forward_notification-Acts method raw _)
    | inr (h, e) ↦ rw (e, notify_other) (one (compute w _))
  ]

  handle_notification-Acts :
      (method : Bytes) (raw : List Value)
      → Acts env conn w (handle_notification env w conn method raw)
  unfolding handle_notification
  handle_notification-Acts method raw =
      elim (Bool-cases (bytes_eq method (text "$/setMaxMsgSize"))) [
        | inl h ↦ rw h (handle_notified_max-Acts _)
        | inr h ↦ rw h (notify_other-Acts method raw)
      ]

  response_outcome-Acts :
      (e r : Value) (p : Connection Forward × Result (OutRequest Forward))
      → Acts env conn w (put w conn p.0)
      → Acts env conn w (response_outcome env w conn r e p)
  unfolding response_outcome
  response_outcome-Acts e r (c, err x) a = a
  response_outcome-Acts e r (c, ok req) a = also a (answer (put w conn c) req.res r e)

  handle_response-Acts :
      (id : ℕ) (e r : Value) → Acts env conn w (handle_response env w conn id e r)
  unfolding handle_response
  handle_response-Acts id e r =
      response_outcome-Acts e r (handle_incoming_response (w.conns conn) id) (one (settle w id))

  handle_request-Acts :
      (id : ℕ) (method : Bytes) (raw : List Value)
      → Acts env conn w (handle_request env w conn id method raw)
  handle_request-Acts id method raw =
      let f = this env w conn id method raw in
      let params = decoded_params env w conn id method raw in
      handle_request_cases env w conn id method raw (Acts env conn w)
        (handle_register-Acts env w f params) (handle_unregister-Acts env w f params)
        (handle_reset-Acts env w f params) (handle_set_max_msg_size-Acts env w f params)
        (λ _. handle_other-Acts env w f raw)

-- A packet of `conn` is a sequence of acts of `conn`.
pub handle_packet-Acts :
    {S : Type 0} (env : Env) (w : World S) (conn : ℕ) (p : RpcPacket)
    → Acts env conn w (handle_packet env w conn p)
unfolding handle_packet
handle_packet-Acts env w conn p = of_kind (kind p.msg_type)
  where
    of_kind :
        (k : Kind)
        → Acts env conn w (elim k [
          | request ↦ handle_request env w conn p.msg_id p.method p.params
          | response ↦ handle_response env w conn p.msg_id p.req_error p.req_result
          | notification ↦ handle_notification env w conn p.method p.params
          | unknown ↦ w
        ])
    of_kind request = handle_request-Acts env w conn p.msg_id p.method p.params
    of_kind response = handle_response-Acts env w conn p.msg_id p.req_error p.req_result
    of_kind notification = handle_notification-Acts env w conn p.method p.params
    of_kind unknown = none_left
