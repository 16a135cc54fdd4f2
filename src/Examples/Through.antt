-- ===== src/Examples/Through.antt =====
-- examples/ping_server/main.go and internal/msgpackrouter/router.go: a server that registers its method
-- with the router, and the calls of other clients that reach it through the router.
use arduino_router.Prelude.{
  ℕ, ◌+◌, ◌<◌, ◌^◌, ◌≡◌, ◌≢◌, refl, ap, ◌∙◌, none, some, true, false, Bytes, List, [], ◌∷◌, ◌++◌,
  ◌==◌, pos, text, bytes_eq, bytes_eq_instance, arith,
}
use arduino_router.Dict.{lookup, insert, lookup-insert_self, lookup-delete_func}
use arduino_router.Value.{Value, nil, bool, string, array, items}
use arduino_router.Connection.Decode.{RpcPacket}
use arduino_router.Connection.Requests.{IsFresh, request_sent}
use arduino_router.Connection.Serving.{RequestHandler}
use arduino_router.Router.Errors.{router_error, method_not_available}
use arduino_router.Router.Dispatch.{handle_request_unrouted, is_reserved, this, decoded_params}
use arduino_router.Router.Forwarding.{forward_roundtrip}
use arduino_router.Router.Routes.{register_method, remove_methods_from_connection}
use arduino_router.Router.{World, Env, deliver, fwd_res, handle_request, handle_packet, finish}
use arduino_router.Examples.{ping}

-- What the router takes when the server answers a request. It keeps values as raw messages, which
-- are what `raw_of` makes of the values.
abbrev pub reply : (Value → Value) → RequestHandler → ℕ → Bytes → List Value → RpcPacket
reply raw_of handler id method params = record {
  msg_type = pos 1;
  msg_id = id;
  method = [];
  params = [];
  req_error = raw_of (handler method params).1;
  req_result = raw_of (handler method params).0;
}

module _ {S : Type 0} (env : Env) (w : World S) (server id0 : ℕ) (name : Bytes) (raw0 : List Value)
    (named : decoded_params env w server id0 (text "$/register") raw0 ≡ string name ∷ [])
    (unrouted : lookup name w.routes ≡ none) where
  -- The router once the server has registered the method.
  abbrev joined : World S
  joined = handle_request env w server id0 (text "$/register") raw0

  joined_lem :
      joined
      ≡ fwd_res env
          (record w { routes = insert name server w.routes })
          (this env w server id0 (text "$/register") raw0)
          (bool true)
          nil
  unfolding handle_request bytes_eq register_method
  joined_lem = rw named (ground arith)

  joined_routes : lookup name joined.routes ≡ some server
  unfolding fwd_res
  joined_routes = rw joined_lem (lookup-insert_self name server w.routes)

  joined_internal : joined.routes_internal ≡ w.routes_internal
  unfolding fwd_res
  joined_internal = rw joined_lem refl

  joined_other : (c : ℕ) → c ≢ server → joined.conns c ≡ w.conns c
  unfolding fwd_res
  joined_other c other = rw joined_lem (ground arith)

  module _ (raw_of : Value → Value) (handler : RequestHandler) (conn id : ℕ) (raw : List Value)
      (other : conn ≢ server) (free : is_reserved name ≡ false)
      (external : lookup name w.routes_internal ≡ none) where
    -- A client calls the method.
    abbrev forwarded : World S
    forwarded = handle_request env joined conn id name raw

    abbrev params : List Value
    params = decoded_params env joined conn id name raw

    -- The server's answer reaches the router.
    abbrev replied : World S
    replied =
        handle_packet env forwarded server
          (reply raw_of handler ((joined.conns server).last_index + 1) name params)

    served_through :
        (joined.conns server).last_index + 1 < 2 ^ 32
        → IsFresh (joined.conns server)
        → (request_sent
            (env.wire server)
            (joined.conns server)
            name
            raw
            (this env joined conn id name raw)).1
          ≡ none
        → (forwarded.conns server
            ≡ (request_sent
                (env.wire server)
                (joined.conns server)
                name
                raw
                (this env joined conn id name raw)).0)
          × (replied.conns conn
              ≡ deliver
                  (env.wire conn)
                  (w.conns conn)
                  id
                  (raw_of (handler name params).0)
                  (raw_of (handler name params).1))
          × ((c : ℕ) → c ≢ server → c ≢ conn → replied.conns c ≡ w.conns c)
    unfolding handle_packet
    served_through room fresh sent =
        let way =
          forward_roundtrip env joined conn id name raw server free
            (ap (lookup name) joined_internal ∙ external) joined_routes room fresh sent other
            (raw_of (handler name params).1) (raw_of (handler name params).0) in
        (
          way.0,
          way.2
              ∙ ap
                  (λ c.
                    deliver (env.wire conn) c id (raw_of (handler name params).0)
                      (raw_of (handler name params).1))
                  (joined_other conn other),
          λ c ne ne'. way.3 c ne ne' ∙ joined_other c ne,
        )

    -- The server's connection ends.
    unavailable :
        handle_request env (finish joined server) conn id name raw
        ≡ fwd_res env
            (finish joined server)
            (this env (finish joined server) conn id name raw)
            nil
            (router_error method_not_available (text "method " ++ (name ++ text " not available")))
    unfolding finish remove_methods_from_connection
    unavailable =
        handle_request_unrouted env (finish joined server) conn id name raw free
          (ap (lookup name) joined_internal ∙ external)
          (lookup-delete_func (λ v. v == server) name joined.routes
            ∙ rw joined_routes (ground arith))

module _ {S : Type 0} (env : Env) (w : World S) (server id0 : ℕ) (raw0 : List Value)
    (named : decoded_params env w server id0 (text "$/register") raw0 ≡ string (text "ping") ∷ [])
    (unrouted : lookup (text "ping") w.routes ≡ none)
    (external : lookup (text "ping") w.routes_internal ≡ none) (raw_of : Value → Value)
    (conn id : ℕ) (raw : List Value) (other : conn ≢ server) where
  abbrev serving : World S
  serving = joined env w server id0 (text "ping") raw0 named unrouted

  abbrev id' : ℕ
  id' = (serving.conns server).last_index + 1

  abbrev pinged : World S
  pinged = handle_request env serving conn id (text "ping") raw

  abbrev sent_params : List Value
  sent_params = decoded_params env serving conn id (text "ping") raw

  -- Where a client registers "ping", which nobody has, with a router: a call of "ping" by another
  -- client, whose message is sent, with room below 2 ^ 32 and fresh IDs at the server, and the
  -- answer that ping_server gives to it, delivers to the caller its own parameters as an array,
  -- with nil for an error, under its own ID, and changes no third connection; once the server is
  -- gone, the call is answered with the error 2 and its text.
  pub ping_through :
      id' < 2 ^ 32
      → IsFresh (serving.conns server)
      → (request_sent
          (env.wire server)
          (serving.conns server)
          (text "ping")
          raw
          (this env serving conn id (text "ping") raw)).1
        ≡ none
      → let answered =
          handle_packet env pinged server (reply raw_of ping id' (text "ping") sent_params) in
        (answered.conns conn
          ≡ deliver
              (env.wire conn)
              (w.conns conn)
              id
              (raw_of (array (items sent_params)))
              (raw_of nil))
        × ((c : ℕ) → c ≢ server → c ≢ conn → answered.conns c ≡ w.conns c)
        × (handle_request env (finish serving server) conn id (text "ping") raw
            ≡ fwd_res env
                (finish serving server)
                (this env (finish serving server) conn id (text "ping") raw)
                nil
                (router_error method_not_available (text "method ping not available")))
  unfolding ping bytes_eq
  ping_through room fresh sent =
      let through =
        served_through env w server id0 (text "ping") raw0 named unrouted raw_of ping conn id raw
          other refl external room fresh sent in
      (
        through.1,
        through.2,
        unavailable env w server id0 (text "ping") raw0 named unrouted raw_of ping conn id raw other
            refl external,
      )
