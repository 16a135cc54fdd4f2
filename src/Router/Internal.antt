-- ===== src/Router/Internal.antt =====
-- internal/msgpackrouter/router.go: the internal methods, which main.go registers before the router
-- accepts connections.
use arduino_router.Prelude.{
  ℕ, ◌≡◌, refl, ◌∙◌, Option, none, some, false, Bytes, List, [], ◌∷◌, ◌++◌, bytes_eq_instance,
}
use arduino_router.Dict.{Dict, lookup}
use arduino_router.Value.{Value}
use arduino_router.Router.Errors.{RouteError}
use arduino_router.Router.Routes.{register_internal_method}
use arduino_router.Router.Dispatch.{is_reserved, this, handle_request_other, decoded_params}
use arduino_router.Router.Ownership.{handle_packet-TablesBy}
use arduino_router.Router.Steps.{Step, accepts, receives, ends, answers_late, new_router}
use arduino_router.Router.{
  World, Handler, Env, accept, finish, fwd_res, handle_internal, handle_other, handle_request,
}

abbrev pub listed : Option RouteError → List RouteError
listed none = []
listed (some e) = e ∷ []

-- RegisterMethod of each method, in order, and the errors.
unfoldable pub register_all :
    {A : Type 0}
    → List (Bytes × A)
    → Dict Bytes A × List RouteError
    → Dict Bytes A × List RouteError
register_all [] done = done
register_all ((method, handler) ∷ rest) (internal, errors) =
    let (internal', e) = register_internal_method internal method handler in
    register_all rest (internal', errors ++ listed e)

-- The router, while something else changes the state of the internal APIs too.
pub data Runs {S : Type 0} (env : Env) (s : World S) : World S → Type 0 where
  started : Runs env s s
  steps : {t u : World S} → Runs env s t → Step env t u → Runs env s u
  elsewhere : {t : World S} → Runs env s t → (a : S) → Runs env s (record t { state = a })

module _ {S : Type 0} {env : Env} where
  Step-same : {w w' : World S} → Step env w w' → w'.routes_internal ≡ w.routes_internal
  unfolding accept finish fwd_res
  Step-same (accepts w) = refl
  Step-same (receives w conn p alive) = (handle_packet-TablesBy env w conn p).routes_internal
  Step-same (ends w conn alive) = refl
  Step-same (answers_late w f result error) = refl

  Runs-same : {w w' : World S} → Runs env w w' → w'.routes_internal ≡ w.routes_internal
  Runs-same started = refl
  Runs-same (steps r s) = Step-same s ∙ Runs-same r
  Runs-same (elsewhere r a) = Runs-same r

-- The world after the call of an internal method: its handler has answered or not.
abbrev pub internal_answer :
    {S : Type 0} → Env → World S → ℕ → ℕ → Bytes → List Value → S × Option (Value × Value) → World S
internal_answer env w conn id method raw (s, some (result, e)) =
    fwd_res env (record w { state = s }) (this env w conn id method raw) result e
internal_answer env w conn id method raw (s, none) = record w { state = s }

-- While the router runs, a request for a method that was registered before is answered by its handler.
pub internal_comes_first :
    {S : Type 0} (env : Env) (internal : Dict Bytes (Handler S)) (s : S) (w : World S) (conn id : ℕ)
    (method : Bytes) (raw : List Value) (handler : Handler S)
    → Runs env (new_router internal s) w
    → lookup method internal ≡ some handler
    → is_reserved method ≡ false
    → handle_request env w conn id method raw
      ≡ internal_answer env w conn id method raw
          (handler w.state conn (decoded_params env w conn id method raw))
unfolding handle_other handle_internal new_router lookup fwd_res
internal_comes_first env internal s w conn id method raw handler r known free =
    handle_request_other env w conn id method raw free ∙ rw (Runs-same r, known) refl
