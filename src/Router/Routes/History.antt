-- ===== src/Router/Routes/History.antt =====
-- internal/msgpackrouter/router.go: the table of routes over the history of the calls that change it.
use arduino_router.Prelude.{
  ℕ, ◌≡◌, ◌↔◌, ◌⊎◌, refl, sym, ap, ap₂, ◌∙◌, inl, inr, Option, none, some, Bool, true, false, ◌&&◌,
  Bytes, List, [], ◌∷◌, ◌++◌, arith, if◌then◌else◌, bytes_eq, bytes_eq_iff, bytes_eq_refl,
  bytes_eq_instance, ◌==◌, ==_iff, Option-cases,
}
use arduino_router.Dict.{without, empty, lookup, lookup-delete, lookup-delete_func}
use arduino_router.Router.Routes.Laws.{first_owner, register_method_lem, remove_single_lem}
use arduino_router.Router.Routes.{
  RouteTable, register_method, remove_single_method_from_connection, remove_methods_from_connection,
  get_connection_for_method,
}

-- The calls that change the table: registerMethod, removeSingleMethodFromConnection and
-- removeMethodsFromConnection.
pub data Change : Type 0 where
  registers : Bytes → ℕ → Change
  unregisters : Bytes → ℕ → Change
  leaves : ℕ → Change

abbrev pub change_table : Change → RouteTable → RouteTable
change_table (registers m c) r = (register_method r m c).0
change_table (unregisters m c) r = (remove_single_method_from_connection r m c).0
change_table (leaves c) r = remove_methods_from_connection r c

abbrev pub changed : List Change → RouteTable → RouteTable
changed [] r = r
changed (ch ∷ cs) r = changed cs (change_table ch r)

-- Whether a call ends that `c` has the method.
abbrev pub ends : Bytes → ℕ → Change → Bool
ends m c (registers m' c') = false
ends m c (unregisters m' c') = bytes_eq m' m && (c' == c)
ends m c (leaves c') = c' == c

abbrev pub NoneEnds : Bytes → ℕ → List Change → Type 0
NoneEnds m c [] = Unit {0}
NoneEnds m c (ch ∷ cs) = (ends m c ch ≡ false) × NoneEnds m c cs

-- What a call does to the owner of one method.
abbrev owner_after : Bytes → Change → Option ℕ → Option ℕ
owner_after m (registers m' c) o = if bytes_eq m' m then some (first_owner o c) else o
owner_after m (unregisters m' c) o = if bytes_eq m' m then without (λ v. v == c) o else o
owner_after m (leaves c) o = without (λ v. v == c) o

abbrev owner_run : Bytes → List Change → Option ℕ → Option ℕ
owner_run m [] o = o
owner_run m (ch ∷ cs) o = owner_run m cs (owner_after m ch o)

module _ (m : Bytes) where
  change_owner :
      (ch : Change) (r : RouteTable) → lookup m (change_table ch r) ≡ owner_after m ch (lookup m r)
  unfolding remove_methods_from_connection remove_single_method_from_connection
  change_owner (registers m' c) r =
      ground (arith, (register_method_lem r m' c).0 m, bytes_eq_iff m' m)
  change_owner (unregisters m' c) r = ground (arith, lookup-delete m' m r, bytes_eq_iff m' m)
  change_owner (leaves c) r = lookup-delete_func (λ v. v == c) m r

  changed_owner :
      (cs : List Change) (r : RouteTable) → lookup m (changed cs r) ≡ owner_run m cs (lookup m r)
  changed_owner [] r = refl
  changed_owner (ch ∷ cs) r = rw (← change_owner ch r) (changed_owner cs (change_table ch r))

  module _ (c : ℕ) where
    step_owner :
        (ch : Change) (o : Option ℕ)
        → owner_after m ch o ≡ some c
        → ((o ≡ some c) × (ends m c ch ≡ false)) ⊎ ((o ≡ none) × (ch ≡ registers m c))
    step_owner (registers m' c') none h =
        inr (refl, ap₂ registers (ground (arith, bytes_eq_iff m' m)) (ground arith))
    step_owner (registers m' c') (some v) h = inl (ground arith, refl)
    step_owner (unregisters m' c') none h = ground arith
    step_owner (unregisters m' c') (some v) h =
        inl (ground arith, ground (arith, ==_iff c' c, ==_iff v c'))
    step_owner (leaves c') none h = cc
    step_owner (leaves c') (some v) h = inl (ground arith, ground (arith, ==_iff c' c, ==_iff v c'))

    step_keeps :
        (ch : Change) (o : Option ℕ)
        → o ≡ some c
        → ends m c ch ≡ false
        → owner_after m ch o ≡ some c
    step_keeps (registers m' c') o h k = ground arith
    step_keeps (unregisters m' c') o h k = ground (arith, ==_iff c' c, ==_iff c c')
    step_keeps (leaves c') o h k = ground (arith, ==_iff c' c, ==_iff c c')

    abbrev Came : List Change → Option ℕ → Type 0
    Came cs o =
        (before : List Change) × (after : List Change) × (cs ≡ before ++ (registers m c ∷ after))
        × (owner_run m before o ≡ none)
        × NoneEnds m c after

    came :
        (cs : List Change) (o : Option ℕ)
        → owner_run m cs o ≡ some c
        → ((o ≡ some c) × NoneEnds m c cs) ⊎ Came cs o
    came [] o h = inl (h, tt)
    came (ch ∷ cs) o h = elim (came cs (owner_after m ch o) h) [
      | inl (now, rest) ↦ elim (step_owner ch o now) [
        | inl (old, keeps) ↦ inl (old, (keeps, rest))
        | inr (unset, claim) ↦ inr ([], cs, ap (λ x. x ∷ cs) claim, unset, rest)
      ]
      | inr (before, after, e, unset, rest) ↦
          inr (ch ∷ before, after, ap (λ l. ch ∷ l) e, unset, rest)
    ]

    kept :
        (cs : List Change) (o : Option ℕ) → o ≡ some c → NoneEnds m c cs → owner_run m cs o ≡ some c
    kept [] o h k = h
    kept (ch ∷ cs) o h (first, rest) = kept cs (owner_after m ch o) (step_keeps ch o h first) rest

    stays :
        (before after : List Change) (o : Option ℕ)
        → owner_run m before o ≡ none
        → NoneEnds m c after
        → owner_run m (before ++ (registers m c ∷ after)) o ≡ some c
    stays [] after o h k =
        kept after (owner_after m (registers m c) o) (ground (arith, bytes_eq_refl m)) k
    stays (b ∷ before) after o h k = stays before after (owner_after m b o) h k

registers_iff :
    (r : RouteTable) (m : Bytes) (c : ℕ)
    → ((register_method r m c).1 ≡ none) ↔ ((lookup m r ≡ none) ⊎ (lookup m r ≡ some c))
unfolding register_method
registers_iff r m c = elim (Option-cases (lookup m r)) [
  | inl free ↦ (λ h. inl free, λ h. rw (register_method, free))
  | inr (owner, taken) ↦ (
    λ h. inr (ground (arith, ==_iff owner c)),
    λ h. elim h [
      | inl none_has ↦ absurd (cc (taken, none_has))
      | inr own ↦ ground (arith, ==_iff c c)
    ],
  )
]

-- After any calls of registerMethod, removeSingleMethodFromConnection and
-- removeMethodsFromConnection on an empty table: a method is routed to a connection exactly when
-- the calls have a registration of it by that connection, before which nobody had it, and after
-- which the connection neither unregisters it nor leaves; a registration then succeeds exactly
-- when nobody or the connection itself has the method, and unregistering exactly when the
-- connection has it.
pub owner_by_history :
    (cs : List Change) (m : Bytes) (c : ℕ)
    → let table = changed cs empty in
      ((get_connection_for_method table m ≡ some c) ↔ (
        (before : List Change) × (after : List Change) × (cs ≡ before ++ (registers m c ∷ after))
        × (get_connection_for_method (changed before empty) m ≡ none)
        × NoneEnds m c after))
      × (((register_method table m c).1 ≡ none) ↔ (
          (get_connection_for_method table m ≡ none)
          ⊎ (get_connection_for_method table m ≡ some c)))
      × (((remove_single_method_from_connection table m c).1 ≡ true)
          ↔ (get_connection_for_method table m ≡ some c))
unfolding get_connection_for_method lookup
owner_by_history cs m c =
    let table = changed cs empty in
    let run : (l : List Change) → lookup m (changed l empty) ≡ owner_run m l none =
      λ l. changed_owner m l empty in
    (
      (
        λ h. elim (came m c cs none (sym (run cs) ∙ h)) [
          | inl (old, k) ↦ absurd (ground arith)
          | inr (before, after, e, unset, k) ↦ (before, after, e, run before ∙ unset, k)
        ],
        λ history.
            let (before, after, e, unset, k) = history in
            run cs
            ∙ ap (λ l. owner_run m l none) e
            ∙ stays m c before after none (sym (run before) ∙ unset) k,
      ),
      registers_iff table m c,
      (remove_single_lem table m c).0,
    )
