-- ===== src/Port.antt =====
-- main.go, waitForPort: the search for a directory to watch, and the wait until the port is there.
mod Search
mod Missed
mod Tests
use arduino_router.Prelude.{
  ℕ, zero, suc, ◌+◌, ◌≡◌, Option, none, some, Bool, true, false, ◌&&◌, ◌||◌, Bytes, List, [], ◌∷◌,
  ◌++◌, ◌==◌, if◌then◌else◌, text, bytes_eq, length,
}
use arduino_router.Error.{Error, fault}

-- A clean path: the parts behind its root, the last one first. The path "." has none.
pub record CleanPath : Type 0 where
  pub rooted : Bool
  pub parts : List Bytes

prepend : ℕ → List Bytes → List Bytes
prepend c [] = (c ∷ []) ∷ []
prepend c (s ∷ ss) = (c ∷ s) ∷ ss

-- What stands between the slashes.
unfoldable pub segments : Bytes → List Bytes
unfolding prepend
segments [] = [] ∷ []
segments (c ∷ cs) = let rest = segments cs in if c == b'/' then [] ∷ rest else prepend c rest

parent_of : Bool → List Bytes → List Bytes
parent_of true [] = []
parent_of false [] = text ".." ∷ []
parent_of rooted (s ∷ out) = if bytes_eq s (text "..") then text ".." ∷ s ∷ out else out

unfoldable pub clean_parts : Bool → List Bytes → List Bytes → List Bytes
unfolding parent_of
clean_parts rooted [] out = out
clean_parts rooted (s ∷ ss) out = clean_parts rooted ss (
    if bytes_eq s [] || bytes_eq s (text ".")
    then out
    else if bytes_eq s (text "..")
    then parent_of rooted out
    else s ∷ out)

is_rooted : Bytes → Bool
is_rooted [] = false
is_rooted (c ∷ cs) = c == b'/'

-- filepath.Clean
unfoldable pub clean : Bytes → CleanPath
unfolding is_rooted
clean path = record {
  rooted = is_rooted path;
  parts = clean_parts (is_rooted path) (segments path) [];
}

abbrev pub drop_part : List Bytes → List Bytes
drop_part [] = []
drop_part (s ∷ ss) = ss

-- filepath.Dir of a clean path. That of the root and that of "." are the same path again.
abbrev pub dir : CleanPath → CleanPath
dir p = record p { parts = drop_part p.parts }

abbrev pub parts_eq : List Bytes → List Bytes → Bool
parts_eq [] [] = true
parts_eq (s ∷ ss) (t ∷ ts) = bytes_eq s t && parts_eq ss ts
parts_eq ss ts = false

abbrev pub bool_eq : Bool → Bool → Bool
bool_eq true b = b
bool_eq false true = false
bool_eq false false = true

unfoldable pub path_eq : CleanPath → CleanPath → Bool
path_eq p q = bool_eq p.rooted q.rooted && parts_eq p.parts q.parts

pub data Nearest : Type 0 where
  found : CleanPath → Nearest
  nowhere : Nearest
  out_of_fuel : Nearest

-- The loop over the ancestors. `stat i` is what os.Stat finds at its i-th call.
unfoldable pub nearest : (ℕ → CleanPath → Bool) → ℕ → ℕ → CleanPath → Nearest
nearest stat zero i d = out_of_fuel
nearest stat (suc f) i d =
    let rest = nearest stat f (suc i) (dir d) in
    if stat i d then found d else if path_eq (dir d) d then nowhere else rest

-- Enough fuel for the parts of the directory and one more.
unfoldable pub nearest_existing : (ℕ → CleanPath → Bool) → CleanPath → Nearest
nearest_existing stat d = nearest stat (suc (length d.parts)) 0 d

unfoldable pub has : CleanPath → List CleanPath → Bool
has p [] = false
has p (q ∷ qs) = path_eq p q || has p qs

-- Before os.Lstat of the target, in the `select`, and behind the return.
pub data Place : Type 0 where
  looking selecting : Place
  returned : Option Error → Place

-- An event of the watcher: with the flag fsnotify.Create, or without it.
pub data Event : Type 0 where
  created changed : CleanPath → Event

-- The paths that exist, those that the watcher watches, and its events, the oldest first.
pub record Wait : Type 0 where
  pub existing : List CleanPath
  pub watched : List CleanPath
  pub events : List Event
  pub place : Place

-- fsnotify.NewWatcher and Add
pub record Watcher : Type 0 where
  pub new_watcher : Option Error
  pub add : CleanPath → Option Error

module _ (w : Watcher) (is_dir : CleanPath → Bool) where
  added : List CleanPath → CleanPath → Option Error → Wait
  added existing d (some e) = record {
    existing = existing;
    watched = [];
    events = [];
    place = returned (some e);
  }
  added existing d none = record {
    existing = existing;
    watched = d ∷ [];
    events = [];
    place = looking;
  }

  failed : List CleanPath → Error → Wait
  failed existing e = record {
    existing = existing;
    watched = [];
    events = [];
    place = returned (some e);
  }

  searched : List CleanPath → Nearest → Wait
  unfolding added failed
  searched existing (found d) = added existing d (w.add d)
  searched existing nowhere = failed existing (fault (text "no existing ancestor directory for "))
  searched existing out_of_fuel = failed existing (fault [])

  begun : List CleanPath → CleanPath → Option Error → Wait
  unfolding failed searched
  begun existing target (some e) = failed existing e
  begun existing target none =
      searched existing (nearest_existing (λ i p. has p existing) (dir target))

  -- Up to the loop of the wait. The error's text goes on with the target.
  unfoldable pub begin : List CleanPath → CleanPath → Wait
  unfolding begun
  begin existing target = begun existing target w.new_watcher

  watch : Wait → CleanPath → Option Error → Wait
  watch s p none = record s { watched = p ∷ s.watched }
  watch s p (some e) = s

  -- A directory that was made is watched too, if that succeeds.
  create : Wait → CleanPath → Wait
  unfolding watch
  create s p = if is_dir p then watch s p (w.add p) else s

  taken : Wait → Event → Wait
  unfolding create
  taken s (created p) = create s p
  taken s (changed p) = s

  select : Wait → List Event → Wait
  unfolding taken
  select s [] = s
  select s (e ∷ es) = record (taken s e) { events = es; place = looking }

  turn_at : CleanPath → Wait → Place → Wait
  unfolding select
  turn_at target s looking = record s {
    place = if has target s.existing then returned none else selecting;
  }
  turn_at target s selecting = select s s.events
  turn_at target s (returned e) = s

  -- One step of waitForPort: os.Lstat, or the next event if there is one.
  unfoldable pub turn : CleanPath → Wait → Wait
  unfolding turn_at
  turn target s = turn_at target s s.place

  unfoldable pub turns : CleanPath → ℕ → Wait → Wait
  turns target zero s = s
  turns target (suc n) s = turns target n (turn target s)

interrupt_at : Error → Wait → Place → Wait
interrupt_at e s selecting = record s { place = returned (some e) }
interrupt_at e s other = s

-- The other cases of the `select`: the end of the context, and an error of the watcher.
unfoldable pub interrupt : Error → Wait → Wait
unfolding interrupt_at
interrupt e s = interrupt_at e s s.place

report : Wait → CleanPath → Event → List Event
report s p e = if has (dir p) s.watched then s.events ++ (e ∷ []) else s.events

-- A file or a directory is made. As fsnotify says, the watcher reports what happens directly in a
-- directory that it watches.
unfoldable pub make : CleanPath → Wait → Wait
unfolding report
make p s = record s { existing = p ∷ s.existing; events = report s p (created p) }

-- A file or a directory is changed.
unfoldable pub change : CleanPath → Wait → Wait
unfolding report
change p s = record s { events = report s p (changed p) }
