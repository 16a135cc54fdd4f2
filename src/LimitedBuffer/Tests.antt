-- ===== src/LimitedBuffer/Tests.antt =====
-- The run of limited_buffer_test.go, and the theorems at one of its buffers.
use arduino_router.Prelude.{◌≡◌, refl, some, [], ◌∷◌, ◌++◌, arith, text}
use arduino_router.LimitedBuffer.{LimitedBuffer, write, bytes, reset}
use arduino_router.LimitedBuffer.Contents.{IsValid}

-- The test's buffer after "hello".
abbrev greeted : LimitedBuffer
greeted = record { buf = text "hello" ++ (0 ∷ 0 ∷ 0 ∷ 0 ∷ 0 ∷ []); limit = 10; length = 5 }

greeted-IsValid : IsValid greeted
greeted-IsValid = record { sized = refl; within = omega arith }

exceeded : (write (write greeted (text "world")).buffer (text "!")).err ≡ some 10
unfolding write
exceeded = refl

kept_on_error :
    bytes (write (write greeted (text "world")).buffer (text "!")).buffer ≡ text "helloworld"
unfolding write bytes
kept_on_error = refl

after_reset :
    bytes (write (reset (write greeted (text "world")).buffer) (text "hello")).buffer ≡ text "hello"
unfolding write bytes reset
after_reset = refl
