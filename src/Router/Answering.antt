-- ===== src/Router/Answering.antt =====
-- internal/msgpackrouter/router.go, the request handler of connectionLoop: what becomes of a request.
use arduino_router.Prelude.{
  ℕ, ◌≡◌, refl, subst, ==_iff, inl, inr, Option, none, some, Bool, true, false, Bytes, List, [],
  ◌∷◌, ℤ, arith, bytes_eq_instance, nat_eq, Option-cases, Bool-cases, leb_ℤ, pos, ◌==◌,
}
use arduino_router.Dict.{lookup}
use arduino_router.Error.{Error, Result, ok, err, is_limit_exceeded}
use arduino_router.Value.{Value, string, nil}
use arduino_router.Conversion.{to_int}
use arduino_router.Connection.{Connection, send_request, set_max_outgoing_message_size}
use arduino_router.Connection.Sending.{SameRequests}
use arduino_router.Connection.Requests.{send_request_entry}
use arduino_router.Router.Errors.{RouteError}
use arduino_router.Router.Routes.{
  RouteTable, register_method, remove_single_method_from_connection, get_connection_for_method,
}
use arduino_router.Router.Dispatch.{this, handle_request_cases}
use arduino_router.Router.{
  World, Forward, Handler, Env, put, update, fwd_res, register_outcome, handle_register,
  unregister_outcome, handle_unregister, handle_reset, limit_messages, set_max_msg_size,
  handle_set_max_msg_size, internal_outcome, handle_internal, forward_outcome, forward_request,
  handle_other, handle_request,
}

-- Nothing is written on any connection, and no request begins or ends to wait.
pub record Quiet {S : Type 0} (w w' : World S) : Type 0 where
  pub out : (c : ℕ) → (w'.conns c).out ≡ (w.conns c).out
  pub requests : (c : ℕ) → SameRequests (w.conns c) (w'.conns c)

-- The request that is passed on to `client`.
abbrev pub passed_to :
    {S : Type 0} → Env → World S → Forward → List Value → ℕ → Connection Forward × Result ℕ
passed_to env w f raw client = send_request (env.wire client) (w.conns client) f.method raw f

-- The ways of a request: it is answered once, and nothing else is written; it could not be passed on
-- to the owner of its method, and is answered once; or the owner was sent it, and it waits there; or
-- the handler of its internal method has not answered, and only its state has changed.
pub data Outcome {S : Type 0} (env : Env) (w : World S) (f : Forward) (raw : List Value)
    : World S → Type 0 where
  answered :
      (w' : World S) (result error : Value)
      → Quiet w w'
      → Outcome env w f raw (fwd_res env w' f result error)
  refused :
      (client : ℕ) (e : Error) (error : Value)
      → lookup f.method w.routes ≡ some client
      → (passed_to env w f raw client).1 ≡ err e
      → Outcome env w f raw
          (fwd_res env (put w client (passed_to env w f raw client).0) f nil error)
  waits :
      (client id : ℕ)
      → lookup f.method w.routes ≡ some client
      → (passed_to env w f raw client).1 ≡ ok id
      → lookup id (passed_to env w f raw client).0.active
        ≡ some (record { res = f; method = f.method })
      → Outcome env w f raw (put w client (passed_to env w f raw client).0)
  unanswered :
      (handler : Handler S) (params : List Value)
      → lookup f.method w.routes_internal ≡ some handler
      → (handler w.state f.caller params).1 ≡ none
      → Outcome env w f raw (record w { state = (handler w.state f.caller params).0 })

set_max_lem :
    (c : Connection Forward) (size : ℤ) (c' : Connection Forward)
    → set_max_outgoing_message_size c size ≡ some c'
    → (c'.out ≡ c.out) × SameRequests c c'
unfolding set_max_outgoing_message_size
set_max_lem c size c' h = elim (Bool-cases (leb_ℤ size (pos 0))) [
  | inl b ↦ ground (arith, b)
  | inr b ↦ ground (arith, b)
]

-- What holds of the old and the new value at `k` holds at every place.
pub update_related :
    (R : Connection Forward → Connection Forward → Type 0) (f : ℕ → Connection Forward) (k : ℕ)
    (c : Connection Forward)
    → ((j : ℕ) → R (f j) (f j))
    → R (f k) c
    → (j : ℕ) → R (f j) (update f k c j)
update_related R f k c reflexive h j = elim (Bool-cases (k == j)) [
  | inl e ↦ rw e (subst (λ n. R (f n) c) ((==_iff k j).0 e) h)
  | inr e ↦ rw e (reflexive j)
]

pub SameRequests-refl : (c : Connection Forward) → SameRequests c c
SameRequests-refl c = record { active = refl; last_index = refl; keep_raw = refl; closed = refl }

module _ {S : Type 0} where
  same : (w : World S) → Quiet w w
  same w = record { out = λ c. refl; requests = λ c. SameRequests-refl (w.conns c) }

  pub limit_messages-Quiet :
      (w : World S) (conn : ℕ) (size : ℤ) → Quiet w (limit_messages w conn size)
  unfolding limit_messages
  limit_messages-Quiet w conn size =
      elim (Option-cases (set_max_outgoing_message_size (w.conns conn) size)) [
        | inl h ↦ rw (limit_messages, h) (same w)
        | inr (c, h) ↦
            let (o, a) = set_max_lem (w.conns conn) size c h in
            rw (limit_messages, h)
              (record {
                out = update_related (λ k k'. k'.out ≡ k.out) w.conns conn c (λ j. refl) o;
                requests =
                    update_related SameRequests w.conns conn c (λ j. SameRequests-refl (w.conns j))
                      a;
              })
      ]

module _ {S : Type 0} (env : Env) (w : World S) (f : Forward) (raw : List Value) where
  -- An answer once the routes have changed.
  rerouted :
      (r : RouteTable) (result error : Value)
      → Outcome env w f raw (fwd_res env (record w { routes = r }) f result error)
  rerouted r result error =
      answered (record w { routes = r }) result error
        (record { out = λ c. refl; requests = λ c. SameRequests-refl (w.conns c) })

  register_outcome-Outcome :
      (r : RouteTable) (e : Option RouteError)
      → Outcome env w f raw (register_outcome env (record w { routes = r }) f e)
  unfolding register_outcome
  register_outcome-Outcome r none = rerouted r _ _
  register_outcome-Outcome r (some e) = rerouted r _ _

  handle_register-Outcome :
      (params : List Value) → Outcome env w f raw (handle_register env w f params)
  unfolding handle_register
  handle_register-Outcome (string m ∷ []) =
      register_outcome-Outcome (register_method w.routes m f.caller).0 _
  handle_register-Outcome (v ∷ []) = answered w _ _ (same w)
  handle_register-Outcome params = answered w _ _ (same w)

  unregister_outcome-Outcome :
      (r : RouteTable) (m : Bytes) (done : Bool)
      → Outcome env w f raw (unregister_outcome env (record w { routes = r }) f m done)
  unfolding unregister_outcome
  unregister_outcome-Outcome r m true = rerouted r _ _
  unregister_outcome-Outcome r m false = rerouted r _ _

  handle_unregister-Outcome :
      (params : List Value) → Outcome env w f raw (handle_unregister env w f params)
  unfolding handle_unregister
  handle_unregister-Outcome (string m ∷ []) =
      unregister_outcome-Outcome (remove_single_method_from_connection w.routes m f.caller).0 m _
  handle_unregister-Outcome (v ∷ []) = answered w _ _ (same w)
  handle_unregister-Outcome params = answered w _ _ (same w)

  handle_reset-Outcome : (params : List Value) → Outcome env w f raw (handle_reset env w f params)
  unfolding handle_reset
  handle_reset-Outcome [] = rerouted _ _ _
  handle_reset-Outcome params = answered w _ _ (same w)

  set_max_msg_size-Outcome :
      (v : Value) (n : Option ℤ) → Outcome env w f raw (set_max_msg_size env w f v n)
  unfolding set_max_msg_size
  set_max_msg_size-Outcome v none = answered w _ _ (same w)
  set_max_msg_size-Outcome v (some n) = elim (Bool-cases (leb_ℤ n (pos 127))) [
    | inl h ↦ rw h (answered w _ _ (same w))
    | inr h ↦ rw h (answered (limit_messages w f.caller n) _ _ (limit_messages-Quiet w f.caller n))
  ]

  handle_set_max_msg_size-Outcome :
      (params : List Value) → Outcome env w f raw (handle_set_max_msg_size env w f params)
  unfolding handle_set_max_msg_size
  handle_set_max_msg_size-Outcome (v ∷ []) = set_max_msg_size-Outcome v (to_int v)
  handle_set_max_msg_size-Outcome params = answered w _ _ (same w)

  handle_internal-Outcome :
      (h : Handler S) (params : List Value)
      → lookup f.method w.routes_internal ≡ some h
      → Outcome env w f raw (handle_internal env w f h params)
  unfolding handle_internal internal_outcome
  handle_internal-Outcome h params known =
      internal_outcome-Outcome (h w.state f.caller params).1 refl
    where
      internal_outcome-Outcome :
          (answer : Option (Value × Value))
          → (h w.state f.caller params).1 ≡ answer
          → Outcome env w f raw
              (internal_outcome env (record w { state = (h w.state f.caller params).0 }) f answer)
      internal_outcome-Outcome none silent = unanswered h params known silent
      internal_outcome-Outcome (some (result, e)) given =
          answered (record w { state = (h w.state f.caller params).0 }) result e
            (record { out = λ c. refl; requests = λ c. SameRequests-refl (w.conns c) })

  forward_request-Outcome :
      (client : Option ℕ)
      → lookup f.method w.routes ≡ client
      → Outcome env w f raw (forward_request env w f raw client)
  unfolding forward_request
  forward_request-Outcome none routed = answered w _ _ (same w)
  forward_request-Outcome (some client) routed =
      forward_outcome-Outcome (passed_to env w f raw client).1 refl
    where
      forward_outcome-Outcome :
          (r : Result ℕ)
          → (passed_to env w f raw client).1 ≡ r
          → Outcome env w f raw
              (forward_outcome env (put w client (passed_to env w f raw client).0) f r)
      forward_outcome-Outcome (ok id) sent =
          waits client id routed sent
            (send_request_entry (env.wire client) (w.conns client) f.method raw f id sent)
      forward_outcome-Outcome (err e) sent = elim (Bool-cases (is_limit_exceeded e)) [
        | inl h ↦ rw (forward_outcome, h) (refused client e _ routed sent)
        | inr h ↦ rw (forward_outcome, h) (refused client e _ routed sent)
      ]

  handle_other-Outcome : Outcome env w f raw (handle_other env w f raw)
  unfolding handle_other get_connection_for_method
  handle_other-Outcome = elim (Option-cases (lookup f.method w.routes_internal)) [
    | inl h ↦ rw (handle_other, h) (forward_request-Outcome (lookup f.method w.routes) refl)
    | inr (handler, h) ↦ rw (handle_other, h) (handle_internal-Outcome handler _ h)
  ]

-- A request of any method and parameters is answered by one delivery under its ID, with nothing
-- else written on any connection and no request beginning or ending to wait; or it could not be
-- sent to the owner of its method, and is answered by one delivery; or it was sent to the owner,
-- and waits there under the ID that was sent; or its method is internal, the handler of that
-- method has not answered, and only the state of the internal methods has changed.
pub handle_request-Outcome :
    {S : Type 0} (env : Env) (w : World S) (conn id : ℕ) (method : Bytes) (raw : List Value)
    → Outcome env w (this env w conn id method raw) raw (handle_request env w conn id method raw)
handle_request-Outcome env w conn id method raw =
    let f = this env w conn id method raw in
    handle_request_cases env w conn id method raw (λ w'. Outcome env w f raw w')
      (handle_register-Outcome env w f raw _) (handle_unregister-Outcome env w f raw _)
      (handle_reset-Outcome env w f raw _) (handle_set_max_msg_size-Outcome env w f raw _)
      (λ free. handle_other-Outcome env w f raw)
