-- ===== src/LimitedBuffer.antt =====
-- msgpackrpc/limited_buffer.go: a byte buffer of fixed size, whose writes past the end are cut off
-- with an error. `Contents` proves what a client sees of it.
pub mod Contents
mod Tests
use arduino_router.Prelude.{
  ℕ, ◌+◌, ◌-◌, min, Option, none, some, Bool, true, false, Bytes, List, [], ◌∷◌, ◌++◌, ℤ, pos,
  negsuc, ltb, if◌then◌else◌, length, take, drop, replicate,
}

-- `limit` came through `make([]byte, limit)`, so it is not negative.
pub record LimitedBuffer : Type 0 where
  pub buf : Bytes
  pub limit : ℕ
  pub length : ℕ

-- `none` is the panic of `make` on a negative size.
unfoldable pub new_limited_buffer : ℤ → Option LimitedBuffer
new_limited_buffer (pos n) = some (record { buf = replicate n 0; limit = n; length = 0 })
new_limited_buffer (negsuc n) = none

-- The built-in copy(buf[at:], p): how many bytes it moves, and the buffer after it.
abbrev pub copied : Bytes → ℕ → Bytes → ℕ
copied buf at p = min (length buf - at) (length p)

abbrev pub copy : Bytes → ℕ → Bytes → Bytes
copy buf at p = (take at buf ++ take (copied buf at p) p) ++ drop (at + copied buf at p) buf

-- The results of `Write`: the buffer, `n`, and the limit of an ErrBufferLimitExceeded.
pub record Written : Type 0 where
  pub buffer : LimitedBuffer
  pub n : ℕ
  pub err : Option ℕ

unfoldable pub write : LimitedBuffer → Bytes → Written
write b p =
    let n = copied b.buf b.length p in
    record {
      buffer = record b { buf = copy b.buf b.length p; length = b.length + n };
      n = n;
      err = if ltb n (length p) then some b.limit else none;
    }

unfoldable pub bytes : LimitedBuffer → Bytes
bytes b = take b.length b.buf

unfoldable pub reset : LimitedBuffer → LimitedBuffer
reset b = record b { length = 0 }

unfoldable pub len : LimitedBuffer → ℕ
len b = b.length

unfoldable pub cap : LimitedBuffer → ℕ
cap b = b.limit
