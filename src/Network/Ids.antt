-- ===== src/Network/Ids.antt =====
-- internal/network-api/network-api.go, takeLockAndGenerateNextID: the rounds of the search for a free
-- ID, and the keys that it meets.
use arduino_router.Prelude.{
  nat_eq, ℕ, zero, suc, ◌+◌, ◌%◌, ◌^◌, ◌≤◌, ◌<◌, ◌≡◌, Bool, true, false, ◌||◌, ◌==◌, none, some,
  arith, is_some, Bool-cases, inl, inr, Option-cases,
}
use arduino_router.Dict.{lookup, size}
use arduino_router.Dict.Counting.{count, count_le, count_mono, count_more}
use arduino_router.Network.{Net, taken, search_id, next_id}

-- Is k one of the `fuel` IDs behind `last`?
abbrev in_window : ℕ → ℕ → ℕ → Bool
in_window zero last k = false
in_window (suc fuel) last k = (last + 1) % 2 ^ 32 == k || in_window fuel ((last + 1) % 2 ^ 32) k

in_window_offset :
    (fuel last k : ℕ)
    → in_window fuel last k ≡ true
    → (i : ℕ) × (1 ≤ i) × (i ≤ fuel) × (k ≡ (last + i) % 2 ^ 32)
in_window_offset zero last k h = ground arith
in_window_offset (suc fuel) last k h = elim (Bool-cases ((last + 1) % 2 ^ 32 == k)) [
  | inl here ↦ (1, ground arith, ground arith, ground arith)
  | inr there ↦
      let (i, low, high, eq) = in_window_offset fuel ((last + 1) % 2 ^ 32) k (ground arith) in
      (1 + i, omega arith, omega arith, omega arith)
]

-- The first ID of a window does not come back in it.
in_window_once :
    (fuel last : ℕ)
    → fuel < 2 ^ 32
    → in_window fuel ((last + 1) % 2 ^ 32) ((last + 1) % 2 ^ 32) ≡ false
in_window_once fuel last h =
    elim (Bool-cases (in_window fuel ((last + 1) % 2 ^ 32) ((last + 1) % 2 ^ 32))) [
      | inr out ↦ out
      | inl back ↦
          let (i, low, high, eq) =
            in_window_offset fuel ((last + 1) % 2 ^ 32) ((last + 1) % 2 ^ 32) back in
          ground arith
    ]

-- The keys of both tables in a window.
abbrev used_in : ℕ → ℕ → Net → ℕ
used_in fuel last net =
    count (in_window fuel last) net.live_connections
    + count (in_window fuel last) net.live_listeners

in_window_wider :
    (fuel last k : ℕ)
    → in_window fuel ((last + 1) % 2 ^ 32) k ≡ true
    → in_window (suc fuel) last k ≡ true
in_window_wider fuel last k h = ground arith

used_in_more :
    (net : Net) (fuel last : ℕ)
    → fuel < 2 ^ 32
    → taken net ((last + 1) % 2 ^ 32) ≡ true
    → used_in fuel ((last + 1) % 2 ^ 32) net < used_in (suc fuel) last net
used_in_more net fuel last room h =
    let id = (last + 1) % 2 ^ 32 in
    let p = in_window (suc fuel) last in
    let q = in_window fuel id in
    let sub = in_window_wider fuel last in
    let pj : p id ≡ true = ground arith in
    let qj = in_window_once fuel last room in
    let mono1 = count_mono p q sub net.live_connections in
    let mono2 = count_mono p q sub net.live_listeners in
    elim (Bool-cases (is_some (lookup id net.live_connections))) [
      | inl conn ↦ let more = count_more p q sub id pj qj net.live_connections conn in omega arith
      | inr free ↦
          let more = count_more p q sub id pj qj net.live_listeners (ground arith) in omega arith
    ]

-- A search that fails has met another key of the tables in each round.
search_id_fails :
    (net : Net) (fuel last : ℕ)
    → fuel ≤ 2 ^ 32
    → search_id fuel (taken net) last ≡ none
    → fuel ≤ used_in fuel last net
unfolding search_id
search_id_fails net zero last room h = omega arith
search_id_fails net (suc fuel) last room h =
    let id = (last + 1) % 2 ^ 32 in
    elim (Bool-cases (taken net id)) [
      | inl used ↦
          let rest = search_id_fails net fuel id (omega arith) (ground arith) in
          let more = used_in_more net fuel last (omega arith) used in omega arith
      | inr free ↦ ground arith
    ]

search_id_found :
    (net : Net) (fuel last id : ℕ)
    → search_id fuel (taken net) last ≡ some id
    → taken net id ≡ false
unfolding search_id
search_id_found net zero last id h = ground arith
search_id_found net (suc fuel) last id h =
    let rest = search_id_found net fuel ((last + 1) % 2 ^ 32) id in grind arith

-- While both tables together have fewer than 2 ^ 32 entries, from every value of the counter the
-- search for an ID ends after at most one round for each entry and one more, with an ID that no
-- connection and no listener has.
pub next_id_found :
    (net : Net)
    → size net.live_connections + size net.live_listeners < 2 ^ 32
    → (id : ℕ) × (next_id net ≡ some id) × (taken net id ≡ false)
unfolding next_id
next_id_found net room =
    let last = net.next_connection_id in
    let fuel = suc (size net.live_connections + size net.live_listeners) in
    elim (Option-cases (next_id net)) [
      | inl fails ↦
          let met = search_id_fails net fuel last (omega arith) fails in
          let most1 = count_le (in_window fuel last) net.live_connections in
          let most2 = count_le (in_window fuel last) net.live_listeners in ground arith
      | inr (id, found) ↦ (id, found, search_id_found net fuel last id found)
    ]
