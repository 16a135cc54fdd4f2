-- ===== src/Monitor/Traces.antt =====
-- internal/monitorapi/monitor-api.go: any order of connections, of what they send, and of calls.
use arduino_router.Prelude.{
  ℕ, ◌+◌, ◌≤◌, ◌≡◌, refl, ltb, ◌∙◌, ap, sym, Option, none, some, Bool, Bytes, List, [], ◌∷◌, ◌++◌,
  append_assoc, append-nil, length, Option-cases, inl, inr,
}
use arduino_router.Error.{Result, ok, err, Error}
use arduino_router.Value.{Value, bytes}
use arduino_router.Conversion.{to_uint}
use arduino_router.Network.Stream.{payload}
use arduino_router.Monitor.{
  Pipe, Monitor, initial, Writes, close, after_write, accept, connected, write_all, write_data,
  write, reset, client_round, client_resumed, read_sized, read,
}
use arduino_router.Monitor.Pipes.{IsPipe, Counts, counted_write, read_lem}

-- `rounds` is one round of a connection's loop, and `resumes` goes on with one whose Write waits; the others are a new connection and calls of the
-- methods, with their parameters.
pub data Event : Type 0 where
  accepts : ℕ → Event
  rounds : ℕ → Result Bytes → Event
  resumes : ℕ → Event
  connecteds : List Value → Event
  reads : List Value → Event
  writes : Writes → List Value → Event
  resets : List Value → Event

-- The bytes of an answer.
abbrev pub handed : Value → Bytes
handed (bytes d) = d
handed other = []

module _ {P : Type 0} (pipe : Pipe P) where
  -- The state after an event, and what mon/read handed out.
  abbrev pub step : Event → Monitor P → Monitor P × Bytes
  step (accepts conn) m = (accept m conn, [])
  step (rounds conn r) m = (client_round pipe m conn r, [])
  step (resumes conn) m = (client_resumed pipe m conn, [])
  step (connecteds params) m = ((connected m params).0, [])
  step (reads params) m = let a = read pipe m params in (a.0, handed a.1)
  step (writes w params) m = ((write w m params).0, [])
  step (resets params) m = ((reset m params).0, [])

  abbrev pub run : List Event → Monitor P → Monitor P × Bytes
  run [] m = (m, [])
  run (e ∷ es) m = let (m', d) = step e m in let (m'', d') = run es m' in (m'', d ++ d')

  -- What is sent fits into the pipe, and no Write waits.
  abbrev pub FitsIn : Monitor P → Event → Type 0
  FitsIn m (rounds conn (ok d)) = length (pipe.contents m.send_pipe) + length d ≤ pipe.capacity
  FitsIn m (resumes conn) = ⊥
  FitsIn m other = Unit {0}

  abbrev pub AllFit : List Event → Monitor P → Type 0
  AllFit [] m = Unit {0}
  AllFit (e ∷ es) m = FitsIn m e × AllFit es (step e m).0

-- What the connections sent.
abbrev pub sent_in : Event → Bytes
sent_in (rounds conn (ok d)) = d
sent_in other = []

abbrev pub sent : List Event → Bytes
sent [] = []
sent (e ∷ es) = sent_in e ++ sent es

module _ {P : Type 0} (pipe : Pipe P) where
  -- What an event does to the pipe: it keeps the count, and the bytes that it hands out and leaves are
  -- those that were there and those sent.
  record Flows (m : Monitor P) (e : Event) : Type 0 where
    pub counts : Counts pipe (step pipe e m).0
    pub bytes_kept :
        (step pipe e m).1 ++ pipe.contents (step pipe e m).0.send_pipe
        ≡ pipe.contents m.send_pipe ++ sent_in e

  -- An event that leaves the pipe and the counter alone.
  quiet_Flows :
      (m : Monitor P) (e : Event)
      → (step pipe e m).0.send_pipe ≡ m.send_pipe
      → (step pipe e m).0.bytes_in_send_pipe ≡ m.bytes_in_send_pipe
      → (step pipe e m).1 ≡ []
      → sent_in e ≡ []
      → Counts pipe m
      → Flows m e
  quiet_Flows m e same_pipe same_count nothing silent c = record {
    counts = rw (same_count, same_pipe) c;
    bytes_kept = rw (nothing, same_pipe, silent, append-nil);
  }

  read_Flows :
      (m : Monitor P) (params : List Value) → IsPipe pipe → Counts pipe m → Flows m (reads params)
  unfolding read read_sized
  read_Flows m [] law c = quiet_Flows m (reads []) refl refl refl refl c
  read_Flows m (v ∷ []) law c = elim (Option-cases (to_uint v)) [
    | inl wrong ↦
        quiet_Flows m (reads (v ∷ [])) (rw wrong refl) (rw wrong refl) (rw wrong refl) refl c
    | inr (n, is_n) ↦
        let (m', d, is_read, split, small, counts, same) = read_lem pipe m v n law c is_n in
        record {
          counts = rw is_read counts;
          bytes_kept = rw is_read (sym split ∙ sym (append-nil (pipe.contents m.send_pipe)));
        }
  ]
  read_Flows m (v ∷ u ∷ rest) law c = quiet_Flows m (reads (v ∷ u ∷ rest)) refl refl refl refl c

  -- The same pipe and counter.
  abbrev SamePipe : Monitor P → Monitor P → Type 0
  SamePipe m m' = (m'.send_pipe ≡ m.send_pipe) × (m'.bytes_in_send_pipe ≡ m.bytes_in_send_pipe)

  after_write-SamePipe :
      (m : Monitor P) (conn : ℕ) (o : Option Error) → SamePipe m (after_write m conn o)
  unfolding after_write close
  after_write-SamePipe m conn none = (refl, refl)
  after_write-SamePipe m conn (some e) = (refl, refl)

  write_all-SamePipe :
      (w : Writes) (limited : Bool) (d : Bytes) (conns : List ℕ) (m : Monitor P)
      → SamePipe m (write_all w limited d conns m)
  unfolding write_all
  write_all-SamePipe w limited d [] m = (refl, refl)
  write_all-SamePipe w limited d (conn ∷ conns) m =
      let one = after_write-SamePipe m conn (w limited conn d) in
      let others = write_all-SamePipe w limited d conns (after_write m conn (w limited conn d)) in
      (others.0 ∙ one.0, others.1 ∙ one.1)

  write_data-SamePipe :
      (w : Writes) (m : Monitor P) (o : Option Bytes) → SamePipe m (write_data w m o).0
  unfolding write_data
  write_data-SamePipe w m none = (refl, refl)
  write_data-SamePipe w m (some d) = write_all-SamePipe w (ltb 1 (length m.sockets)) d m.sockets m

  write-SamePipe :
      (w : Writes) (m : Monitor P) (params : List Value) → SamePipe m (write w m params).0
  unfolding write
  write-SamePipe w m [] = (refl, refl)
  write-SamePipe w m (v ∷ []) = write_data-SamePipe w m (payload v)
  write-SamePipe w m (v ∷ u ∷ rest) = (refl, refl)

  event-Flows :
      (m : Monitor P) (e : Event) → IsPipe pipe → Counts pipe m → FitsIn pipe m e → Flows m e
  unfolding accept connected reset client_round close
  event-Flows m (accepts conn) law c room = quiet_Flows m (accepts conn) refl refl refl refl c
  event-Flows m (rounds conn (err e)) law c room =
      quiet_Flows m (rounds conn (err e)) refl refl refl refl c
  event-Flows m (rounds conn (ok d)) law c room =
      let (counts, kept) = counted_write pipe m conn d law c room in
      record { counts = counts; bytes_kept = kept }
  event-Flows m (resumes conn) law c room = absurd room
  event-Flows m (connecteds []) law c room = quiet_Flows m (connecteds []) refl refl refl refl c
  event-Flows m (connecteds (v ∷ rest)) law c room =
      quiet_Flows m (connecteds (v ∷ rest)) refl refl refl refl c
  event-Flows m (reads params) law c room = read_Flows m params law c
  event-Flows m (writes w params) law c room =
      let (same_pipe, same_count) = write-SamePipe w m params in
      quiet_Flows m (writes w params) same_pipe same_count refl refl c
  event-Flows m (resets []) law c room = quiet_Flows m (resets []) refl refl refl refl c
  event-Flows m (resets (v ∷ rest)) law c room =
      quiet_Flows m (resets (v ∷ rest)) refl refl refl refl c

  run_lem :
      (es : List Event) (m : Monitor P)
      → IsPipe pipe
      → Counts pipe m
      → AllFit pipe es m
      → Counts pipe (run pipe es m).0
        × ((run pipe es m).1 ++ pipe.contents (run pipe es m).0.send_pipe
            ≡ pipe.contents m.send_pipe ++ sent es)
  run_lem [] m law c room = (c, sym (append-nil (pipe.contents m.send_pipe)))
  run_lem (e ∷ es) m law c (fits, rest_fits) =
      let flows = event-Flows m e law c fits in
      let (counts, kept) = run_lem es (step pipe e m).0 law flows.counts rest_fits in
      let m' = (step pipe e m).0 in
      let d = (step pipe e m).1 in
      let rest = run pipe es m' in
      (
        counts,
        append_assoc d rest.1 (pipe.contents rest.0.send_pipe)
            ∙ ap (λ l. d ++ l) kept
            ∙ sym (append_assoc d (pipe.contents m'.send_pipe) (sent es))
            ∙ ap (λ l. l ++ sent es) flows.bytes_kept
            ∙ append_assoc (pipe.contents m.send_pipe) (sent_in e) (sent es),
      )

  -- Over a pipe with the documented behaviour that is empty at first, after any sequence of
  -- connections, rounds of their loops and calls of the monitor's methods, where all that is sent
  -- fits into the room that the pipe has left at that time, so that no Write waits: the counter
  -- is the number of bytes in the pipe, and the bytes that mon/read has returned, followed by
  -- those in the pipe, are what the connections have sent, in order.
  pub fifo :
      (es : List Event) (p : P)
      → IsPipe pipe
      → pipe.contents p ≡ []
      → AllFit pipe es (initial p)
      → Counts pipe (run pipe es (initial p)).0
        × ((run pipe es (initial p)).1 ++ pipe.contents (run pipe es (initial p)).0.send_pipe
            ≡ sent es)
  unfolding initial
  fifo es p law nothing fits =
      let (counts, kept) = run_lem es (initial p) law (rw nothing refl) fits in
      (counts, rw nothing at kept)
