-- ===== src/Router/Routes/Laws.antt =====
-- What the operations do to the table, seen as the function from methods to their owners.
use arduino_router.Prelude.{
  ℕ, ◌≡◌, ◌≢◌, ◌↔◌, Option, none, some, true, ◌&&◌, Bytes, arith, if◌then◌else◌, bytes_eq,
  bytes_eq_iff, bytes_eq_instance, bytes_eq_refl,
}
use arduino_router.Dict.{lookup, lookup-insert, lookup-delete, lookup-delete_func}
use arduino_router.Router.Routes.{
  RouteTable, register_method, remove_single_method_from_connection, remove_methods_from_connection,
}

-- The owner of a method after `conn` asks for it: who has it keeps it.
abbrev pub first_owner : Option ℕ → ℕ → ℕ
first_owner none conn = conn
first_owner (some owner) conn = owner

-- Registering a method gives it to the connection unless it has an owner, changes no other
-- method, and returns no error exactly when the method is then the connection's.
pub register_method_lem :
    (routes : RouteTable) (method : Bytes) (conn : ℕ)
    → ((m : Bytes)
        → lookup m (register_method routes method conn).0 ≡ (
            if bytes_eq method m
            then some (first_owner (lookup method routes) conn)
            else lookup m routes))
      × (((register_method routes method conn).1 ≡ none)
          ↔ (lookup method (register_method routes method conn).0 ≡ some conn))
unfolding register_method
register_method_lem routes method conn = (
  λ m. ground (arith, lookup-insert method m conn routes, bytes_eq_iff method m),
  (
    λ h. ground (arith, lookup-insert method method conn routes, bytes_eq_refl method),
    λ h. ground (arith, lookup-insert method method conn routes, bytes_eq_refl method),
  ),
)

-- Unregistering reports success exactly when the connection is the method's owner; it then
-- removes that method, and otherwise nothing.
pub remove_single_lem :
    (routes : RouteTable) (method : Bytes) (conn : ℕ)
    → (((remove_single_method_from_connection routes method conn).1 ≡ true)
        ↔ (lookup method routes ≡ some conn))
      × ((m : Bytes)
          → lookup m (remove_single_method_from_connection routes method conn).0 ≡ (
              if (remove_single_method_from_connection routes method conn).1 && bytes_eq method m
              then none
              else lookup m routes))
unfolding remove_single_method_from_connection
remove_single_lem routes method conn = (
  (λ h. ground arith, λ h. ground arith),
  λ m. ground (arith, lookup-delete method m routes, bytes_eq_iff method m),
)

-- After a connection's methods are removed, a method belongs to a connection exactly when it did
-- before and the connection is another one.
pub remove_methods_lem :
    (routes : RouteTable) (conn : ℕ) (m : Bytes) (c : ℕ)
    → (lookup m (remove_methods_from_connection routes conn) ≡ some c)
      ↔ ((lookup m routes ≡ some c) × (c ≢ conn))
unfolding remove_methods_from_connection
remove_methods_lem routes conn m c =
    rw lookup-delete_func (λ h. (ground arith, λ e. ground arith), λ h. ground (arith, h.1))
