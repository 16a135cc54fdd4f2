-- ===== src/Connection/Limits.antt =====
-- SetMaxOutgoingMessageSize: the limit that it sets, and what becomes of a size that is not positive.
use arduino_router.Prelude.{
  ℕ, ◌<◌, ◌≡◌, refl, ap, ◌∙◌, none, some, List, arith, length, pos, negsuc, replicate,
}
use arduino_router.Error.{limit_exceeded}
use arduino_router.Value.{Value}
use arduino_router.LimitedBuffer.{LimitedBuffer, new_limited_buffer, cap}
use arduino_router.LimitedBuffer.Contents.{IsValid, new_limited_buffer-IsValid}
use arduino_router.Connection.{Connection, Wire, set_max_outgoing_message_size, send}
use arduino_router.Connection.Sending.{joined, send_over_limit}

-- A size that is not negative gives the connection a valid buffer with that limit and changes
-- nothing else; a negative size is a panic.
pub set_max_lem :
    {H : Type 0} (c : Connection H)
    → ((n : ℕ)
        → (b : LimitedBuffer) × (set_max_outgoing_message_size c (pos n)
            ≡ some (record c { buffer = some b }))
          × IsValid b
          × (cap b ≡ n))
      × ((n : ℕ) → set_max_outgoing_message_size c (negsuc n) ≡ none)
unfolding set_max_outgoing_message_size new_limited_buffer
set_max_lem c = (
  λ n.
      let b : LimitedBuffer = record { buf = replicate n 0; limit = n; length = 0 } in
      let valid = new_limited_buffer-IsValid n b refl in (b, ground arith, valid.0, valid.2),
  λ n. refl,
)

-- After the size 0 was set, every message of at least one byte is refused with the error of a
-- limit of 0 bytes, and nothing is written.
pub zero_blocks :
    {H : Type 0} (wire : Wire) (c c' : Connection H) (m : List Value)
    → set_max_outgoing_message_size c (pos 0) ≡ some c'
    → 0 < length (joined (wire.chunks m))
    → ((send wire c' m).0.out ≡ c.out) × ((send wire c' m).1 ≡ some (limit_exceeded 0))
zero_blocks wire c c' m set some_bytes =
    let (b, e, v, size) = (set_max_lem c).0 0 in
    let same : record c { buffer = some b } ≡ c' = ground (arith, e, set) in
    let (out, error) =
      send_over_limit wire (record c { buffer = some b }) m b refl v (omega (arith, size)) in
    rw (← same) (out, error ∙ ap (λ n. some (limit_exceeded n)) size)
