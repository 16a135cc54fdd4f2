-- ===== src/Router/Errors.antt =====
-- internal/msgpackrouter/errors.go
use arduino_router.Prelude.{ℕ, Bytes, ◌++◌, [], ◌∷◌, pos, text}
use arduino_router.Value.{Value, int, int8, string, array, items}

abbrev pub invalid_params : ℕ
invalid_params = 1

abbrev pub method_not_available : ℕ
method_not_available = 2

abbrev pub failed_to_send_requests : ℕ
failed_to_send_requests = 3

abbrev pub generic_error : ℕ
generic_error = 4

abbrev pub route_already_exists : ℕ
route_already_exists = 5

abbrev pub buffer_limit_exceeded : ℕ
buffer_limit_exceeded = 6

pub record RouteError : Type 0 where
  pub message : Bytes
  pub code : ℕ

unfoldable pub to_encoded_error : RouteError → Value
to_encoded_error e = array (items (int (pos e.code) ∷ string e.message ∷ []))

unfoldable pub new_route_already_exists_error : Bytes → RouteError
new_route_already_exists_error route = record {
  message = text "route already exists: " ++ route;
  code = route_already_exists;
}

unfoldable pub router_error : ℕ → Bytes → Value
router_error code message = array (items (int8 (pos code) ∷ string message ∷ []))
