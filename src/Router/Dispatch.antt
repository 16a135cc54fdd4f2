-- ===== src/Router/Dispatch.antt =====
-- The switch of the request handler, as a rule for proofs: what holds of every handler's outcome holds
-- of the outcome.
use arduino_router.Prelude.{
  ℕ, ◌≡◌, ◌∙◌, ◌++◌, inl, inr, Bool, false, ◌||◌, none, Bytes, List, text, bytes_eq, Bool-cases,
  arith, bytes_eq_instance,
}
use arduino_router.Dict.{lookup}
use arduino_router.Value.{Value, nil}
use arduino_router.Router.Errors.{router_error, method_not_available}
use arduino_router.Router.Routes.{get_connection_for_method}
use arduino_router.Router.Params.{get}
use arduino_router.Router.{
  World, Forward, Env, handle_register, handle_unregister, handle_reset, handle_set_max_msg_size,
  handle_other, handle_request, forward_request, fwd_res,
}

-- The methods of the router itself.
abbrev pub is_reserved : Bytes → Bool
is_reserved m =
    bytes_eq m (text "$/register")
    || (bytes_eq m (text "$/unregister")
        || (bytes_eq m (text "$/reset") || bytes_eq m (text "$/setMaxMsgSize")))

module _ {S : Type 0} (env : Env) (w : World S) (conn id : ℕ) (method : Bytes)
    (raw : List Value) where
  abbrev pub this : Forward
  this = record { caller = conn; id = id; method = method }

  abbrev pub decoded_params : List Value
  decoded_params = (get env.unmarshal (record { raw = raw; decoded = none })).0

  pub handle_request_cases :
      (P : World S → Type 0)
      → P (handle_register env w this decoded_params)
      → P (handle_unregister env w this decoded_params)
      → P (handle_reset env w this decoded_params)
      → P (handle_set_max_msg_size env w this decoded_params)
      → (is_reserved method ≡ false → P (handle_other env w this raw))
      → P (handle_request env w conn id method raw)
  unfolding handle_request
  handle_request_cases P register unregister reset set_max other =
      elim (Bool-cases (bytes_eq method (text "$/register"))) [
        | inl h ↦ rw h register
        | inr h₁ ↦ rw h₁ (elim (Bool-cases (bytes_eq method (text "$/unregister"))) [
          | inl h ↦ rw h unregister
          | inr h₂ ↦ rw h₂ (elim (Bool-cases (bytes_eq method (text "$/reset"))) [
            | inl h ↦ rw h reset
            | inr h₃ ↦ rw h₃ (elim (Bool-cases (bytes_eq method (text "$/setMaxMsgSize"))) [
              | inl h ↦ rw h set_max
              | inr h₄ ↦ rw h₄ (other (rw (h₁, h₂, h₃, h₄)))
            ])
          ])
        ])
      ]

  -- A method that is not reserved is handled as another's.
  pub handle_request_other :
      is_reserved method ≡ false
      → handle_request env w conn id method raw ≡ handle_other env w this raw
  unfolding handle_request
  handle_request_other h = ground arith

  -- A method that nobody has.
  pub handle_request_unrouted :
      is_reserved method ≡ false
      → lookup method w.routes_internal ≡ none
      → lookup method w.routes ≡ none
      → handle_request env w conn id method raw
        ≡ fwd_res env w this nil (
            router_error method_not_available (text "method " ++ (method ++ text " not available")))
  unfolding handle_other forward_request get_connection_for_method
  handle_request_unrouted free external unrouted = handle_request_other free ∙ ground arith
