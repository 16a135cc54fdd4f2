-- ===== src/Error.antt =====
-- Go's `error` values as the program builds and inspects them, and results that may be one.
use arduino_router.Prelude.{
  ℕ, Bool, true, false, Bytes, ◌++◌, text, decimal, ◌≡◌, refl, ◌⊎◌, inl, inr,
}

pub data Error : Type 0 where
  -- *ErrBufferLimitExceeded (msgpackrpc/limited_buffer.go), with its Limit
  limit_exceeded : ℕ → Error
  -- *invalidRPCMessageError (msgpackrpc/connection.go); its cause is nil at every use
  invalid_message : Bytes → Error
  end_of_file : Error
  -- any other error of a library, by its message
  fault : Bytes → Error
  -- fmt.Errorf("before%wafter", e)
  wrapped : Bytes → Error → Bytes → Error

-- The method `Error()`.
unfoldable pub error_text : Error → Bytes
error_text (limit_exceeded n) = text "buffer limit (" ++ decimal n ++ text " bytes) exceeded"
error_text (invalid_message m) = m
error_text end_of_file = text "EOF"
error_text (fault m) = m
error_text (wrapped before e after) = before ++ error_text e ++ after

-- errors.Is(e, &ErrBufferLimitExceeded{})
abbrev pub is_limit_exceeded : Error → Bool
is_limit_exceeded (limit_exceeded n) = true
is_limit_exceeded (wrapped before e after) = is_limit_exceeded e
is_limit_exceeded _ = false

-- errors.As(e, &invalidRpcMessage)
abbrev pub is_invalid_message : Error → Bool
is_invalid_message (invalid_message m) = true
is_invalid_message (wrapped before e after) = is_invalid_message e
is_invalid_message _ = false

pub data Result {ℓ} (A : Type ℓ) : Type ℓ where
  ok : A → Result A
  err : Error → Result A

pub Result-cases {ℓ} :
    {A : Type ℓ} (r : Result A) → ((a : A) × (r ≡ ok a)) ⊎ ((e : Error) × (r ≡ err e))
Result-cases (ok a) = inl (a, refl)
Result-cases (err e) = inr (e, refl)
