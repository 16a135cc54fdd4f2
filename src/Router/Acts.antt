-- ===== src/Router/Acts.antt =====
-- The elementary changes of the world that the handlers of the router are made of. `Handlers` proves
-- that every packet is a sequence of them, so that an invariant needs a proof for each of these only.
pub mod Handlers
use arduino_router.Prelude.{
  ℕ, ◌≡◌, ◌≢◌, ◌⊎◌, inl, inr, refl, Option, none, some, Bool, true, false, Bytes, List, [], ◌∷◌,
  arith, ℤ, if◌then◌else◌, bytes_eq_instance, ◌∙◌, Option-cases, bytes_eq_iff, bytes_eq, Bool-cases,
  leb_ℤ, pos, text,
}
use arduino_router.Dict.{Dict, lookup}
use arduino_router.Error.{Error, Result, ok, err, is_limit_exceeded}
use arduino_router.Value.{Value, string}
use arduino_router.Conversion.{to_int}
use arduino_router.Connection.{
  Connection, OutRequest, send_request, send_notification, handle_incoming_response,
}
use arduino_router.Connection.Decode.{
  RpcPacket, Kind, kind, request, response, notification, unknown,
}
use arduino_router.Router.Errors.{RouteError}
use arduino_router.Router.Routes.{
  RouteTable, register_method, remove_single_method_from_connection, remove_methods_from_connection,
}
use arduino_router.Router.Routes.Laws.{register_method_lem, remove_single_lem, remove_methods_lem}
use arduino_router.Router.{
  World, Forward, Handler, Env, put, fwd_res, wrong_count, wrong_type, register_outcome,
  handle_register, unregister_outcome, handle_unregister, handle_reset, limit_messages,
  set_max_msg_size, handle_set_max_msg_size, handle_internal, forward_outcome, forward_request,
  handle_other, handle_request, notify_max_msg_size, handle_notified_max, notify_internal,
  forward_notification, notify_other, handle_notification, response_outcome, handle_response,
  handle_packet,
}

-- The routes of the other connections stay, and new ones are the connection's own.
pub record Respects (conn : ℕ) (r r' : RouteTable) : Type 0 where
  pub keeps : (m : Bytes) (c : ℕ) → c ≢ conn → lookup m r ≡ some c → lookup m r' ≡ some c
  pub gains : (m : Bytes) (c : ℕ) → lookup m r' ≡ some c → (c ≡ conn) ⊎ (lookup m r ≡ some c)

pub register-Respects :
    (r : RouteTable) (m : Bytes) (conn : ℕ) → Respects conn r (register_method r m conn).0
register-Respects r m conn =
    let law = (register_method_lem r m conn).0 in
    record {
      keeps = λ j c ne h. rw law (ground (arith, bytes_eq_iff m j));
      gains = λ j c h. let h' = rw law at h in ground (arith, bytes_eq_iff m j);
    }

pub unregister-Respects :
    (r : RouteTable) (m : Bytes) (conn : ℕ)
    → Respects conn r (remove_single_method_from_connection r m conn).0
unregister-Respects r m conn =
    let law = remove_single_lem r m conn in
    record {
      keeps = λ j c ne h. ground (arith, law.1 j, law.0, bytes_eq_iff m j, ne);
      gains = λ j c h. ground (arith, law.1 j);
    }

pub reset-Respects :
    (r : RouteTable) (conn : ℕ) → Respects conn r (remove_methods_from_connection r conn)
reset-Respects r conn = record {
  keeps = λ m c ne h. (remove_methods_lem r conn m c).1 (h, ne);
  gains = λ m c h. inr ((remove_methods_lem r conn m c).0 h).0;
}

-- What a packet of the connection `conn` may do at one time.
pub data Act {S : Type 0} (env : Env) (conn : ℕ) : World S → World S → Type 0 where
  answer : (w : World S) (f : Forward) (r e : Value) → Act env conn w (fwd_res env w f r e)
  reroute :
      (w : World S) (r : RouteTable)
      → Respects conn w.routes r
      → Act env conn w (record w { routes = r })
  compute : (w : World S) (s : S) → Act env conn w (record w { state = s })
  limit : (w : World S) (size : ℤ) → Act env conn w (limit_messages w conn size)
  pass :
      (w : World S) (client id : ℕ) (method : Bytes) (raw : List Value)
      → Act env conn w (
          put w client
            (send_request
              (env.wire client)
              (w.conns client)
              method
              raw
              (record { caller = conn; id = id; method = method })).0)
  notify :
      (w : World S) (client : ℕ) (method : Bytes) (raw : List Value)
      → Act env conn w
          (put w client (send_notification (env.wire client) (w.conns client) method raw).0)
  settle :
      (w : World S) (id : ℕ)
      → Act env conn w (put w conn (handle_incoming_response (w.conns conn) id).0)

-- Any number of them.
pub data Acts {S : Type 0} (env : Env) (conn : ℕ) (w : World S) : World S → Type 0 where
  none_left : Acts env conn w w
  also : {w' w'' : World S} → Acts env conn w w' → Act env conn w' w'' → Acts env conn w w''

module _ {S : Type 0} {env : Env} {conn : ℕ} where
  pub one : {w w' : World S} → Act env conn w w' → Acts env conn w w'
  one a = also none_left a

  pub Acts-trans :
      {w w' w'' : World S} → Acts env conn w w' → Acts env conn w' w'' → Acts env conn w w''
  Acts-trans a none_left = a
  Acts-trans a (also b c) = also (Acts-trans a b) c
