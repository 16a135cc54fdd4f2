-- ===== src/Monitor/Pipes.antt =====
-- internal/monitorapi/monitor-api.go: the pipe and the counter of its bytes.
use arduino_router.Prelude.{
  ℕ, ◌+◌, ◌≤◌, ◌≡◌, ◌≢◌, refl, ◌∙◌, ap, some, Bytes, [], ◌∷◌, ◌++◌, pos, ◌+ℤ◌, neg, length,
  length-append, arith,
}
use arduino_router.Error.{ok}
use arduino_router.Value.{Value, bytes}
use arduino_router.Conversion.{to_uint}
use arduino_router.Reply.{succeed}
use arduino_router.Monitor.{Pipe, Monitor, client_round, read_done, read_counted, read}

-- A write of bytes that there is room for takes them all and returns. A read of a pipe that is not empty takes some from its front.
pub record IsPipe {P : Type 0} (pipe : Pipe P) : Type 0 where
  pub writes :
      (p : P) (conn : ℕ) (d : Bytes)
      → length (pipe.contents p) + length d ≤ pipe.capacity
      → (p' : P) × (pipe.write p conn d ≡ (p', some (ok (length d))))
        × (pipe.contents p' ≡ pipe.contents p ++ d)
  pub reads :
      (p : P) (n : ℕ)
      → pipe.contents p ≢ []
      → (p' : P) × (d : Bytes) × (pipe.read p n ≡ (p', ok d))
        × (pipe.contents p ≡ d ++ pipe.contents p')
        × (length d ≤ n)

module _ {P : Type 0} (pipe : Pipe P) where
  -- The counter is the number of bytes in the pipe.
  abbrev pub Counts : Monitor P → Type 0
  Counts m = m.bytes_in_send_pipe ≡ pos (length (pipe.contents m.send_pipe))

  pub counted_write :
      (m : Monitor P) (conn : ℕ) (d : Bytes)
      → IsPipe pipe
      → Counts m
      → length (pipe.contents m.send_pipe) + length d ≤ pipe.capacity
      → let m' = client_round pipe m conn (ok d) in
        Counts m' × (pipe.contents m'.send_pipe ≡ pipe.contents m.send_pipe ++ d)
  unfolding client_round
  counted_write m conn d law c room =
      let (p', wrote, after) = law.writes m.send_pipe conn d room in
      let size = length-append (pipe.contents m.send_pipe) d in
      rw wrote (rw (after, c) (ground (arith, size)), after)

  read_empty :
      (m : Monitor P) (n : ℕ)
      → Counts m
      → pipe.contents m.send_pipe ≡ []
      → read_counted pipe m n m.bytes_in_send_pipe ≡ succeed m (bytes [])
  unfolding read_counted
  read_empty m n c none_left = rw (c, none_left)

  -- Where the pipe is not empty, neither is the counter zero.
  read_filled :
      (m : Monitor P) (n : ℕ)
      → Counts m
      → pipe.contents m.send_pipe ≢ []
      → read_counted pipe m n m.bytes_in_send_pipe ≡ read_done pipe m (pipe.read m.send_pipe n)
  unfolding read_counted
  read_filled m n c some_left = go (pipe.contents m.send_pipe) refl
    where
      go :
          (l : Bytes)
          → pipe.contents m.send_pipe ≡ l
          → read_counted pipe m n m.bytes_in_send_pipe ≡ read_done pipe m (pipe.read m.send_pipe n)
      go [] e = absurd (some_left e)
      go (x ∷ l) e = rw (c, e)

  -- With a size that is an unsigned integer, and a counter of the pipe's bytes: mon/read returns a
  -- front part of the pipe's bytes, of at most that size, and takes it out; it returns nothing only ...
  pub read_lem :
      (m : Monitor P) (v : Value) (n : ℕ)
      → IsPipe pipe
      → Counts m
      → to_uint v ≡ some n
      → (m' : Monitor P) × (d : Bytes) × (read pipe m (v ∷ []) ≡ succeed m' (bytes d))
        × (pipe.contents m.send_pipe ≡ d ++ pipe.contents m'.send_pipe)
        × (length d ≤ n)
        × Counts m'
        × (m'.sockets ≡ m.sockets)
  unfolding read read_done
  read_lem m v n law c is_n = go (pipe.contents m.send_pipe) refl
    where
      go :
          (l : Bytes)
          → pipe.contents m.send_pipe ≡ l
          → (m' : Monitor P) × (d : Bytes) × (read pipe m (v ∷ []) ≡ succeed m' (bytes d))
            × (pipe.contents m.send_pipe ≡ d ++ pipe.contents m'.send_pipe)
            × (length d ≤ n)
            × Counts m'
            × (m'.sockets ≡ m.sockets)
      go [] e = (m, [], rw is_n (read_empty m n c e), refl, omega arith, c, refl)
      go (x ∷ l) e =
          let full : pipe.contents m.send_pipe ≢ [] = λ none_left. cc (e, none_left) in
          let (p', d, reads, split, small) = law.reads m.send_pipe n full in
          let size = length-append d (pipe.contents p') in
          let all = ap length split in
          (
            record m {
              send_pipe = p';
              bytes_in_send_pipe = m.bytes_in_send_pipe +ℤ neg (length d);
            },
            d,
            rw is_n (read_filled m n c full ∙ ap (read_done pipe m) reads),
            split,
            small,
            rw c (ground (arith, size, all)),
            refl,
          )
