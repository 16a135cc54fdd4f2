-- ===== src/Startup/Listeners.antt =====
-- main.go, startRouter: when the listeners are opened, and which.
use arduino_router.Prelude.{
  ◌≡◌, ◌↔◌, ◌⊎◌, inl, inr, refl, ap, ◌∙◌, Option, none, some, Bytes, List, [], ◌∷◌, ◌++◌, ℤ,
  bytes_eq, text, if◌then◌else◌,
}
use arduino_router.Error.{Result, ok, err, Error}
use arduino_router.Strings.{atoi}
use arduino_router.Startup.{
  Config, Os, Listener, listened, listen_tcp, owned, grouped, with_group, permitted,
  after_permission, with_permission, listen_unix, both, then_unix, open_listeners,
}

abbrev pub wanted : Bytes → Bytes → List Listener
wanted network address = if bytes_eq address [] then [] else (network, address) ∷ []

owned_lem :
    (os : Os) (address : Bytes) (o : Option Error) → (owned os address o ≡ none) ↔ (o ≡ none)
unfolding owned
owned_lem os address none = (λ x. refl, λ x. refl)
owned_lem os address (some e) = (λ x. cc, λ x. cc)

module _ (os : Os) where
  -- The socket file can be given to the group arduino-router, or there is no such group.
  abbrev pub GroupServed : Bytes → Type 0
  GroupServed address =
      ((e : Error) × (os.lookup_group (text "arduino-router") ≡ err e))
      ⊎ ((gid : Bytes) × (n : ℤ) × (os.lookup_group (text "arduino-router") ≡ ok gid)
          × (atoi gid ≡ some n)
          × (os.chown address n ≡ none))

  abbrev pub TcpReady : Bytes → Type 0
  TcpReady address = (address ≡ []) ⊎ (os.listen (text "tcp") address ≡ none)

  abbrev pub UnixReady : Bytes → Type 0
  UnixReady address =
      (address ≡ [])
      ⊎ ((os.listen (text "unix") address ≡ none) × (os.chmod address ≡ none) × GroupServed address)

  ready_listened :
      (network address before : Bytes) (o : Option Error) (ls : List Listener)
      → (listened os network address before o ≡ ok ls)
        ↔ ((o ≡ none) × (ls ≡ (network, address) ∷ []))
  unfolding listened
  ready_listened network address before none ls = (λ x. (refl, cc), λ x. cc x.1)
  ready_listened network address before (some e) ls = (λ x. cc, λ x. cc x.0)

  grouped_lem :
      (address gid : Bytes) (o : Option ℤ)
      → (grouped os address gid o ≡ none) ↔ ((n : ℤ) × (o ≡ some n) × (os.chown address n ≡ none))
  unfolding grouped
  grouped_lem address gid none = (λ x. cc, λ (n, x, y). cc)
  grouped_lem address gid (some n) = (
    λ x. (n, refl, (owned_lem os address (os.chown address n)).0 x),
    λ (m, x, y). (owned_lem os address (os.chown address n)).1 (cc (x, y)),
  )

  with_group_lem :
      (address : Bytes) (r : Result Bytes)
      → (with_group os address r ≡ none) ↔ (
          ((e : Error) × (r ≡ err e))
          ⊎ ((gid : Bytes) × (n : ℤ) × (r ≡ ok gid)
              × (atoi gid ≡ some n)
              × (os.chown address n ≡ none)))
  unfolding with_group
  with_group_lem address (err e) = (λ x. inl (e, refl), λ x. refl)
  with_group_lem address (ok gid) = (
    λ x. let (n, a, c) = (grouped_lem address gid (atoi gid)).0 x in inr (gid, n, refl, a, c),
    λ x. elim x [
      | inl (e, h) ↦ cc h
      | inr (g, n, same, number, owner) ↦
          (grouped_lem address gid (atoi gid)).1 (n, cc (same, number), owner)
    ],
  )

  permitted_lem :
      (address : Bytes) (o : Option Error)
      → (permitted os address o ≡ none) ↔ ((o ≡ none) × GroupServed address)
  unfolding permitted
  permitted_lem address (some e) = (λ x. cc, λ x. cc x.0)
  permitted_lem address none =
      let law = with_group_lem address (os.lookup_group (text "arduino-router")) in
      (λ x. (refl, law.0 x), λ x. law.1 x.1)

  listen_tcp_lem :
      (address : Bytes) (ls : List Listener)
      → (listen_tcp os address ≡ ok ls) ↔ (TcpReady address × (ls ≡ wanted (text "tcp") address))
  unfolding listen_tcp bytes_eq
  listen_tcp_lem [] ls = (λ x. (inl refl, cc x), λ x. cc x.1)
  listen_tcp_lem (c ∷ cs) ls =
      let law =
        ready_listened (text "tcp") (c ∷ cs) (text "failed to listen on TCP port ")
          (os.listen (text "tcp") (c ∷ cs)) ls in
      (
        λ x. (inr (law.0 x).0, (law.0 x).1),
        λ (ready, e). elim ready [ inl h ↦ cc h | inr h ↦ law.1 (h, e) ],
      )

  with_permission_lem :
      (address : Bytes) (r : Result (List Listener)) (ls : List Listener)
      → (with_permission os address r ≡ ok ls)
        ↔ ((r ≡ ok ls) × (os.chmod address ≡ none) × GroupServed address)
  unfolding with_permission
  with_permission_lem address (err e) ls = (λ x. cc, λ x. cc x.0)
  with_permission_lem address (ok ls') ls =
      after_permission_lem (permitted os address (os.chmod address))
        (permitted_lem address (os.chmod address))
    where
      after_permission_lem :
          (o : Option Error)
          → (o ≡ none) ↔ ((os.chmod address ≡ none) × GroupServed address)
          → (after_permission os ls' o ≡ ok ls) ↔ (
              ◌≡◌ {A = Result (List Listener)} (ok ls') (ok ls)
              × (os.chmod address ≡ none)
              × GroupServed address)
      after_permission_lem none law = (λ x. let (m, g) = law.0 refl in (x, m, g), λ x. x.0)
      after_permission_lem (some e) law = (λ x. cc, λ x. cc (law.1 (x.1, x.2)))

  listen_unix_lem :
      (address : Bytes) (ls : List Listener)
      → (listen_unix os address ≡ ok ls) ↔ (UnixReady address × (ls ≡ wanted (text "unix") address))
  unfolding listen_unix bytes_eq
  listen_unix_lem [] ls = (λ x. (inl refl, cc x), λ x. cc x.1)
  listen_unix_lem (c ∷ cs) ls =
      let o = os.listen (text "unix") (c ∷ cs) in
      let before = text "failed to listen on UNIX socket " in
      let made = ready_listened (text "unix") (c ∷ cs) before o ls in
      let served = with_permission_lem (c ∷ cs) (listened os (text "unix") (c ∷ cs) before o) ls in
      (
        λ x. let (l, m, g) = served.0 x in let (n, e) = made.0 l in (inr (n, m, g), e),
        λ (ready, e). elim ready [ inl h ↦ cc h | inr (n, m, g) ↦ served.1 (made.1 (n, e), m, g) ],
      )

  both_lem :
      (a : List Listener) (r : Result (List Listener)) (ls : List Listener)
      → (both os a r ≡ ok ls) ↔ ((b : List Listener) × (r ≡ ok b) × (ls ≡ a ++ b))
  unfolding both
  both_lem a (err e) ls = (λ x. cc, λ (b, x, y). cc x)
  both_lem a (ok b) ls = (λ x. (b, refl, cc x), λ (b', x, y). cc (x, y))

  then_unix_lem :
      (address : Bytes) (r : Result (List Listener)) (ls : List Listener)
      → (then_unix os address r ≡ ok ls) ↔ (
          (a : List Listener) × (r ≡ ok a)
          × UnixReady address
          × (ls ≡ a ++ wanted (text "unix") address))
  unfolding then_unix
  then_unix_lem address (err e) ls = (λ x. cc, λ (a, x, y, z). cc x)
  then_unix_lem address (ok a) ls =
      let parts = both_lem a (listen_unix os address) ls in
      (
        λ x.
            let (b, opened, e) = parts.0 x in
            let (ready, e') = (listen_unix_lem address b).0 opened in
            (a, refl, ready, e ∙ ap (λ l. a ++ l) e'),
        λ (a', same, ready, e). parts.1 (
          wanted (text "unix") address,
          (listen_unix_lem address _).1 (ready, refl),
          cc (same, e),
        ),
      )

  -- StartRouter opens its listeners exactly when each address that is set can be listened on, and
  -- the UNIX socket can be changed to its mode and, if there is a group arduino-router, to that
  -- group, whose ID is a number; they are then the TCP and the UNIX address, in this order, less
  -- an empty one.
  pub open_listeners_lem :
      (cfg : Config) (ls : List Listener)
      → (open_listeners os cfg ≡ ok ls) ↔ (
          TcpReady cfg.listen_tcp_addr
          × UnixReady cfg.listen_unix_addr
          × (ls
              ≡ wanted (text "tcp") cfg.listen_tcp_addr
                ++ wanted (text "unix") cfg.listen_unix_addr))
  unfolding open_listeners
  open_listeners_lem cfg ls =
      let parts = then_unix_lem cfg.listen_unix_addr (listen_tcp os cfg.listen_tcp_addr) ls in
      (
        λ x.
            let (a, opened, unix, e) = parts.0 x in
            let (tcp, e') = (listen_tcp_lem cfg.listen_tcp_addr a).0 opened in
            (tcp, unix, e ∙ ap (λ l. l ++ wanted (text "unix") cfg.listen_unix_addr) e'),
        λ (tcp, unix, e). parts.1 (
          wanted (text "tcp") cfg.listen_tcp_addr,
          (listen_tcp_lem cfg.listen_tcp_addr _).1 (tcp, refl),
          unix,
          e,
        ),
      )
