-- ===== src/Startup/DebugStream.antt =====
-- main.go, MsgpackDebugStream: the stream that is put around the serial port, which logs what passes.
use arduino_router.Prelude.{
  ℕ, ◌≡◌, refl, ap, Option, none, some, Bytes, List, [], ◌∷◌, ◌++◌, text, take,
}
use arduino_router.Error.{Error}

-- io.ReadWriteCloser with a state `U`. A read is of a buffer of some size; it returns the buffer after
-- it, a number and an error. By the contract of io the number is at most the size.
pub record ReadWriteCloser (U : Type 0) : Type 0 where
  pub read : U → ℕ → U × Bytes × ℕ × Option Error
  pub write : U → Bytes → U × ℕ × Option Error
  pub close : U → U × Option Error

-- A message of the log: a text with an error, or with bytes, which are in hexadecimal.
pub data Logged : Type 0 where
  with_error : Bytes → Error → Logged
  with_data : Bytes → Bytes → Logged

-- type MsgpackDebugStream, with the log.
pub record MsgpackDebugStream (U : Type 0) : Type 0 where
  pub upstream : U
  pub name : Bytes
  pub log : List Logged

module _ (hex : Bytes → Bytes) where
  read_message : Bytes → Bytes → ℕ → Option Error → Logged
  read_message name p n (some e) = with_error (text "Read error from " ++ name) e
  read_message name p n none = with_data (text "Read from " ++ name) (hex (take n p))

  write_message : Bytes → Bytes → ℕ → Option Error → Logged
  write_message name p n (some e) = with_error (text "Write error to " ++ name) e
  write_message name p n none = with_data (text "Write to  " ++ name) (hex (take n p))

  module _ {U : Type 0} (up : ReadWriteCloser U) where
    unfoldable pub debug_read :
        MsgpackDebugStream U → ℕ → MsgpackDebugStream U × Bytes × ℕ × Option Error
    unfolding read_message
    debug_read d size =
        let (u, p, n, e) = up.read d.upstream size in
        (record d { upstream = u; log = d.log ++ (read_message d.name p n e ∷ []) }, p, n, e)

    unfoldable pub debug_write :
        MsgpackDebugStream U → Bytes → MsgpackDebugStream U × ℕ × Option Error
    unfolding write_message
    debug_write d p =
        let (u, n, e) = up.write d.upstream p in
        (record d { upstream = u; log = d.log ++ (write_message d.name p n e ∷ []) }, n, e)

    unfoldable pub debug_close : MsgpackDebugStream U → MsgpackDebugStream U × Option Error
    debug_close d = let (u, e) = up.close d.upstream in (record d { upstream = u }, e)

    unfoldable pub debug_stream : ReadWriteCloser (MsgpackDebugStream U)
    unfolding debug_read debug_write debug_close
    debug_stream = record { read = debug_read; write = debug_write; close = debug_close }

-- What a user of a stream does, and what it gets.
pub data Use : Type 0 where
  reads : ℕ → Use
  writes : Bytes → Use
  closes : Use

pub data Got : Type 0 where
  got_read : Bytes → ℕ → Option Error → Got
  got_written : ℕ → Option Error → Got
  got_closed : Option Error → Got

abbrev pub used : {U : Type 0} → ReadWriteCloser U → Use → U → U × Got
used s (reads size) u = let (u', p, n, e) = s.read u size in (u', got_read p n e)
used s (writes p) u = let (u', n, e) = s.write u p in (u', got_written n e)
used s closes u = let (u', e) = s.close u in (u', got_closed e)

abbrev pub all_used : {U : Type 0} → ReadWriteCloser U → List Use → U → U × List Got
all_used s [] u = (u, [])
all_used s (x ∷ xs) u =
    let (u', got) = used s x u in let (u'', rest) = all_used s xs u' in (u'', got ∷ rest)

module _ (hex : Bytes → Bytes) {U : Type 0} (up : ReadWriteCloser U) where
  used_upstream :
      (x : Use) (d : MsgpackDebugStream U)
      → ((used (debug_stream hex up) x d).0.upstream ≡ (used up x d.upstream).0)
        × ((used (debug_stream hex up) x d).1 ≡ (used up x d.upstream).1)
  unfolding debug_stream
  used_upstream (reads size) d = (refl, refl)
  used_upstream (writes p) d = (refl, refl)
  used_upstream closes d = (refl, refl)

  -- Whatever is done with the stream gets what it gets of the upstream, which is then as it would be.
  pub debug_stream-transparent :
      (xs : List Use) (d : MsgpackDebugStream U)
      → ((all_used (debug_stream hex up) xs d).0.upstream ≡ (all_used up xs d.upstream).0)
        × ((all_used (debug_stream hex up) xs d).1 ≡ (all_used up xs d.upstream).1)
  debug_stream-transparent [] d = (refl, refl)
  debug_stream-transparent (x ∷ xs) d =
      let (same, got) = used_upstream x d in
      let (at_end, rest) = debug_stream-transparent xs (used (debug_stream hex up) x d).0 in
      rw (← same, ← got) (at_end, ap (◌∷◌ (used (debug_stream hex up) x d).1) rest)
