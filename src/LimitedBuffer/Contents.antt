-- ===== src/LimitedBuffer/Contents.antt =====
-- A limited buffer holds a prefix of what was written to it, cut at the limit.
use arduino_router.Prelude.{
  ℕ, ◌+◌, ◌-◌, ◌≤◌, ◌<◌, min, ◌≡◌, refl, ap, ◌∙◌, none, some, Bytes, [], ◌++◌, pos, arith, ltb,
  le→ltb, lt→ltb, if◌then◌else◌, length, take, length-append, length-take, length-drop,
  length-replicate, take_all, take-append, take-min, append-nil,
}
use arduino_router.LimitedBuffer.{
  LimitedBuffer, new_limited_buffer, write, bytes, reset, len, cap, copied, copy,
}

-- The storage has the size of the limit, and what is in use lies within it.
pub record IsValid (b : LimitedBuffer) : Type 0 where
  pub sized : length b.buf ≡ b.limit
  pub within : b.length ≤ b.limit

pub new_limited_buffer-IsValid :
    (n : ℕ) (b : LimitedBuffer)
    → new_limited_buffer (pos n) ≡ some b
    → IsValid b × (bytes b ≡ []) × (cap b ≡ n)
unfolding new_limited_buffer bytes cap
new_limited_buffer-IsValid n b h = ground (arith, length-replicate {A = ℕ} n 0)

length-copy :
    (buf : Bytes) (at : ℕ) (p : Bytes) → at ≤ length buf → length (copy buf at p) ≡ length buf
length-copy buf at p h =
    let n = copied buf at p in
    rw (length-append, length-append, length-take, length-take, length-drop) (omega arith)

take-copy :
    (buf : Bytes) (at : ℕ) (p : Bytes)
    → at ≤ length buf
    → take (at + copied buf at p) (copy buf at p) ≡ take at buf ++ take (length buf - at) p
take-copy buf at p h =
    take-append _ 0 (take at buf ++ take (copied buf at p) p) _
      (rw (length-append, length-take, length-take) (omega arith))
    ∙ append-nil _
    ∙ ap (◌++◌ (take at buf)) (take-min (length buf - at) p)

-- A write keeps the storage at the size of the limit and the length within it.
pub write-IsValid : (b : LimitedBuffer) (p : Bytes) → IsValid b → IsValid (write b p).buffer
unfolding write
write-IsValid b p v = ground (arith, length-copy b.buf b.length p)

-- A write on a valid buffer appends as many bytes as fit below the limit and returns their
-- number; the error carries the limit, and is there exactly when not all bytes fit.
pub write_lem :
    (b : LimitedBuffer) (p : Bytes)
    → IsValid b
    → (bytes (write b p).buffer ≡ bytes b ++ take (cap b - len b) p)
      × ((write b p).n ≡ min (cap b - len b) (length p))
      × ((write b p).err ≡ (if ltb (cap b - len b) (length p) then some (cap b) else none))
unfolding write bytes len cap
write_lem b p v = (rw (take-copy b.buf b.length p (omega arith), v.sized), rw v.sized, ground arith)

pub length-bytes : (b : LimitedBuffer) → IsValid b → length (bytes b) ≡ len b
unfolding bytes len
length-bytes b v = omega (arith, length-take b.length b.buf)

-- Writing on an emptied buffer of the same size forgets what the buffer held.
pub reset-IsValid :
    (b : LimitedBuffer)
    → IsValid b
    → IsValid (reset b) × (bytes (reset b) ≡ []) × (len (reset b) ≡ 0)
unfolding bytes len reset
reset-IsValid b v = (record { sized = v.sized; within = omega arith }, refl, refl)

pub cap-write : (b : LimitedBuffer) (p : Bytes) → cap (write b p).buffer ≡ cap b
unfolding write cap
cap-write b p = refl

len-write : (b : LimitedBuffer) (p : Bytes) → len (write b p).buffer ≡ len b + (write b p).n
unfolding len write
len-write b p = refl

-- The two cases of a write: all of it is stored, or the limit is met.
pub write_fits :
    (b : LimitedBuffer) (p : Bytes)
    → IsValid b
    → len b + length p ≤ cap b
    → ((write b p).err ≡ none)
      × (bytes (write b p).buffer ≡ bytes b ++ p)
      × (len (write b p).buffer ≡ len b + length p)
write_fits b p v h =
    let (stored, count, error) = write_lem b p v in
    (
      error ∙ rw (le→ltb (cap b - len b) (length p) (omega arith)) refl,
      stored ∙ ap (◌++◌ (bytes b)) (take_all _ p (omega arith)),
      len-write b p ∙ rw count (omega arith),
    )

pub len-le-cap : (b : LimitedBuffer) → IsValid b → len b ≤ cap b
unfolding len cap
len-le-cap b v = v.within

pub write_exceeds :
    (b : LimitedBuffer) (p : Bytes)
    → IsValid b
    → cap b < len b + length p
    → (write b p).err ≡ some (cap b)
write_exceeds b p v h =
    (write_lem b p v).2
    ∙ rw (lt→ltb (cap b - len b) (length p) (omega (arith, len-le-cap b v))) refl

pub cap-reset : (b : LimitedBuffer) → cap (reset b) ≡ cap b
unfolding reset cap
cap-reset b = refl
