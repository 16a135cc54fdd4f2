-- ===== src/Router/Routes/Tests.antt =====
-- internal/msgpackrouter/router.go: a history of the table of routes.
use arduino_router.Prelude.{
  ◌≡◌, refl, ◌↔◌, ◌⊎◌, none, some, true, List, [], ◌∷◌, ◌++◌, text, bytes_eq, bytes_eq_instance,
}
use arduino_router.Dict.{empty, insert, lookup, delete_func}
use arduino_router.Router.Routes.History.{
  Change, registers, unregisters, leaves, changed, NoneEnds, owner_by_history,
}
use arduino_router.Router.Routes.{
  register_method, get_connection_for_method, remove_methods_from_connection,
  remove_single_method_from_connection,
}

-- The second client comes too late, may not unregister the method, and leaves.
abbrev history : List Change
history = registers (text "a") 1 ∷ registers (text "a") 2 ∷ unregisters (text "a") 2 ∷ leaves 2 ∷ []

owner_by_history_example :
    let table = changed history empty in
    ((get_connection_for_method table (text "a") ≡ some 1) ↔ (
      (before : List Change) × (after : List Change) × (history
        ≡ before ++ (registers (text "a") 1 ∷ after))
      × (get_connection_for_method (changed before empty) (text "a") ≡ none)
      × NoneEnds (text "a") 1 after))
    × (((register_method table (text "a") 1).1 ≡ none) ↔ (
        (get_connection_for_method table (text "a") ≡ none)
        ⊎ (get_connection_for_method table (text "a") ≡ some 1)))
    × (((remove_single_method_from_connection table (text "a") 1).1 ≡ true)
        ↔ (get_connection_for_method table (text "a") ≡ some 1))
owner_by_history_example = owner_by_history history (text "a") 1

-- The method is still the first client's.
still_first : get_connection_for_method (changed history empty) (text "a") ≡ some 1
unfolding get_connection_for_method register_method remove_single_method_from_connection
    remove_methods_from_connection lookup insert bytes_eq delete_func
still_first = refl
