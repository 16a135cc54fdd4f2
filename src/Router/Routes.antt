-- ===== src/Router/Routes.antt =====
-- internal/msgpackrouter/router.go: the table of routes, each call under the router's lock. A
-- connection is known by its pointer.
pub mod Laws
pub mod History
mod Tests
use arduino_router.Prelude.{
  ℕ, Option, none, some, Bool, true, false, not, Bytes, ◌==◌, if◌then◌else◌, bytes_eq_instance,
}
use arduino_router.Dict.{Dict, lookup, insert, delete, delete_func}
use arduino_router.Router.Errors.{RouteError, new_route_already_exists_error}

abbrev pub RouteTable : Type 0
RouteTable = Dict Bytes ℕ

-- RegisterMethod, for the internal methods.
unfoldable pub register_internal_method :
    {A : Type 0} → Dict Bytes A → Bytes → A → Dict Bytes A × Option RouteError
register_internal_method internal method handler = elim (lookup method internal) [
  | some _ ↦ (internal, some (new_route_already_exists_error method))
  | none ↦ (insert method handler internal, none)
]

-- registerMethod, for the methods of a connection.
unfoldable pub register_method : RouteTable → Bytes → ℕ → RouteTable × Option RouteError
register_method routes method conn = elim (lookup method routes) [
  | some owner ↦
      if owner == conn
      then (routes, none)
      else (routes, some (new_route_already_exists_error method))
  | none ↦ (insert method conn routes, none)
]

unfoldable pub remove_single_method_from_connection : RouteTable → Bytes → ℕ → RouteTable × Bool
remove_single_method_from_connection routes method conn = elim (lookup method routes) [
  | none ↦ (routes, false)
  | some owner ↦ if not (owner == conn) then (routes, false) else (delete method routes, true)
]

unfoldable pub remove_methods_from_connection : RouteTable → ℕ → RouteTable
remove_methods_from_connection routes conn = delete_func (λ v. v == conn) routes

unfoldable pub get_connection_for_method : RouteTable → Bytes → Option ℕ
get_connection_for_method routes method = lookup method routes
