-- ===== src/Startup/Methods.antt =====
-- main.go, startRouter: the internal methods of the router that it starts.
use arduino_router.Prelude.{
  ℕ, ◌≡◌, refl, subst, ◌∙◌, ap, sym, some, Bool, true, false, not, ◌&&◌, Bytes, List, [], ◌∷◌,
  bytes_eq, bytes_eq_iff, bytes_eq_instance, text, Bool-cases, Option-cases, inl, inr,
}
use arduino_router.Dict.{lookup, lookup_in, insert, insert_in}
use arduino_router.Error.{Result, ok, err}
use arduino_router.Value.{Value}
use arduino_router.Router.{World, Handler, Env, handle_request}
use arduino_router.Router.Dispatch.{is_reserved, decoded_params}
use arduino_router.Router.Routes.{register_internal_method}
use arduino_router.Router.Internal.{register_all, Runs, internal_answer, internal_comes_first}
use arduino_router.Router.Steps.{new_router}
use arduino_router.Startup.Tables.{
  Apis, Outside, network_methods, hci_methods, monitor_methods, version_method, serial_methods,
}
use arduino_router.Startup.{
  Config, Os, Listener, methods, monitor_registered, serial_registered, internal_methods,
  start_router, started_with, open_listeners,
}

abbrev no_reserved : {A : Type 0} → List (Bytes × A) → Bool
no_reserved [] = true
no_reserved ((m, a) ∷ l) = not (is_reserved m) && no_reserved l

both_hold : (a b : Bool) → (not a && b) ≡ true → (a ≡ false) × (b ≡ true)
both_hold true b h = cc
both_hold false b h = (refl, h)

known-free :
    {A : Type 0} (m : Bytes) (a : A) (l : List (Bytes × A))
    → no_reserved l ≡ true
    → lookup_in m l ≡ some a
    → is_reserved m ≡ false
unfolding lookup_in
known-free m a [] free h = cc
known-free m a ((j, b) ∷ l) free h =
    let (first, others) = both_hold (is_reserved j) (no_reserved l) free in
    elim (Bool-cases (bytes_eq j m)) [
      | inl same ↦ subst (λ n. is_reserved n ≡ false) ((bytes_eq_iff j m).0 same) first
      | inr other ↦ known-free m a l others (rw other at h)
    ]

abbrev world_or : {A B : Type 0} → B → Result (A × B) → B
world_or b (ok (a, w)) = w
world_or b (err e) = b

module _ {P : Type 0} (os : Os) (out : ℕ → Outside P) (version : Bytes) where
  all_registered :
      (cfg : Config)
      → (internal_methods os out version cfg
          ≡ (record { entries = methods os out version cfg }, []))
        × (no_reserved (methods os out version cfg) ≡ true)
  unfolding internal_methods methods monitor_registered serial_registered register_all
      register_internal_method lookup lookup_in insert insert_in bytes_eq network_methods
      hci_methods monitor_methods version_method serial_methods
  all_registered cfg = elim (Bool-cases (bytes_eq cfg.serial_port_addr [])) [
    | inl unset ↦ elim (Option-cases (os.listen (text "tcp") cfg.monitor_port_addr)) [
      | inl h ↦ rw (h, unset) (refl, refl)
      | inr (e, h) ↦ rw (h, unset) (refl, refl)
    ]
    | inr set ↦ elim (Option-cases (os.listen (text "tcp") cfg.monitor_port_addr)) [
      | inl h ↦ rw (h, set) (refl, refl)
      | inr (e, h) ↦ rw (h, set) (refl, refl)
    ]
  ]

  pub internal_methods_lem :
      (cfg : Config)
      → ((internal_methods os out version cfg).1 ≡ [])
        × ((m : Bytes)
            → lookup m (internal_methods os out version cfg).0
              ≡ lookup_in m (methods os out version cfg))
  unfolding lookup
  internal_methods_lem cfg = rw ((all_registered cfg).0) (refl, λ m. refl)

  pub started_router :
      (cfg : Config) (s : Apis P) (ls : List Listener) (w : World (Apis P))
      → start_router os out version cfg s ≡ ok (ls, w)
      → w ≡ new_router (internal_methods os out version cfg).0 s
  unfolding start_router started_with
  started_router cfg s ls w e = started_of (open_listeners os cfg) e
    where
      started_of :
          (r : Result (List Listener))
          → started_with os out version cfg s r ≡ ok (ls, w)
          → w ≡ new_router (internal_methods os out version cfg).0 s
      started_of (ok ls') e = sym (ap (world_or w) e)
      started_of (err x) e = cc

  -- Where startRouter has started a router: after any packets, accepted and ended connections,
  -- late answers and changes of the state of the APIs, a request for a method that it registered
  -- goes to the handler of that method in its registration, whatever the clients have registered:
  -- the request gets the answer of that handler, or none where the handler has not answered.
  pub started_answers :
      (cfg : Config) (s : Apis P) (ls : List Listener) (w w' : World (Apis P)) (env : Env)
      (conn id : ℕ) (method : Bytes) (raw : List Value) (handler : Handler (Apis P))
      → start_router os out version cfg s ≡ ok (ls, w)
      → Runs env w w'
      → lookup_in method (methods os out version cfg) ≡ some handler
      → handle_request env w' conn id method raw
        ≡ internal_answer env w' conn id method raw
            (handler w'.state conn (decoded_params env w' conn id method raw))
  started_answers cfg s ls w w' env conn id method raw handler started r known =
      internal_comes_first env (internal_methods os out version cfg).0 s w' conn id method raw
        handler (subst (λ v. Runs env v w') (started_router cfg s ls w started) r)
        ((internal_methods_lem cfg).1 method ∙ known)
        (known-free method handler (methods os out version cfg) (all_registered cfg).1 known)
