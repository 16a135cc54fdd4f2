-- ===== src/Router/Delivery.antt =====
-- How an answer reaches the client that asked, with a limit on its messages and without.
use arduino_router.Prelude.{
  ℕ, ◌≤◌, ◌<◌, ◌≡◌, ap, ◌∙◌, Option, none, some, true, false, Bytes, List, [], ◌∷◌, ◌++◌, arith,
  inl, inr, Option-cases, Bool-cases, if◌then◌else◌, length, pos, sym, leb, le_or_lt, le→leb,
  lt→leb,
}
use mathlib.Core.Bool.{false≢true}
use arduino_router.Error.{Error, is_limit_exceeded}
use arduino_router.Value.{Value, nil, int, uint}
use arduino_router.LimitedBuffer.{LimitedBuffer, cap}
use arduino_router.LimitedBuffer.Contents.{IsValid}
use arduino_router.Connection.{Connection, Wire, message_type_response, respond, send}
use arduino_router.Connection.Sending.{
  SameRequests, joined, send-SameRequests, send-IsValid, send_within_limit, send_over_limit,
}
use arduino_router.Router.{Forward, deliver, too_big}

-- The message of a response.
abbrev pub response_message : ℕ → Value → Value → List Value
response_message id result error = int (pos message_type_response) ∷ uint id ∷ error ∷ result ∷ []

SameRequests-trans :
    {H : Type 0} {a b c : Connection H} → SameRequests a b → SameRequests b c → SameRequests a c
SameRequests-trans s t = record {
  active = t.active ∙ s.active;
  last_index = t.last_index ∙ s.last_index;
  keep_raw = t.keep_raw ∙ s.keep_raw;
  closed = t.closed ∙ s.closed;
}

module _ (wire : Wire) (c : Connection Forward) (id : ℕ) (result error : Value) where
  abbrev sent : Connection Forward × Option Error
  sent = respond wire c id result error

  abbrev again : Connection Forward
  again = (respond wire sent.0 id nil too_big).0

  -- The response is all that goes out, unless it is over the limit.
  deliver_cases :
      (P : Connection Forward → Type 0)
      → (((x : Error) → sent.1 ≡ some x → is_limit_exceeded x ≡ false) → P sent.0)
      → ((x : Error) → sent.1 ≡ some x → is_limit_exceeded x ≡ true → P again)
      → P (deliver wire c id result error)
  unfolding deliver
  deliver_cases P fine over = elim (Option-cases sent.1) [
    | inl e ↦ rw (e, deliver) (fine (λ x h. cc))
    | inr (x, e) ↦ elim (Bool-cases (is_limit_exceeded x)) [
      | inl h ↦ rw (e, deliver, h) (over x e h)
      | inr h ↦ rw (e, deliver, h) (fine (λ y k. ground arith))
    ]
  ]

  pub deliver-SameRequests : SameRequests c (deliver wire c id result error)
  unfolding respond
  deliver-SameRequests =
      deliver_cases (SameRequests c)
        (λ _. send-SameRequests wire c (response_message id result error))
        (λ x _ _.
          SameRequests-trans (send-SameRequests wire c (response_message id result error))
            (send-SameRequests wire sent.0 (response_message id nil too_big)))

-- A stream reports errors of its own, and never the error of a LimitedBuffer.
abbrev pub HasOwnErrors : Wire → Type 0
HasOwnErrors wire =
    (before : List Bytes) (p : Bytes) (x : Error)
    → wire.write_error before p ≡ some x
    → is_limit_exceeded x ≡ false

abbrev pub encoded : Wire → List Value → Bytes
encoded wire m = joined (wire.chunks m)

module _ (wire : Wire) (own : HasOwnErrors wire) (c : Connection Forward) (id : ℕ)
    (result error : Value) (b : LimitedBuffer) (set : c.buffer ≡ some b) (v : IsValid b) where
  abbrev message : List Value
  message = response_message id result error

  deliver_fits :
      wire.encode_error message ≡ none
      → length (encoded wire message) ≤ cap b
      → (deliver wire c id result error).out ≡ c.out ++ (encoded wire message ∷ [])
  unfolding respond
  deliver_fits fine h =
      let (out, ended) = send_within_limit wire c message b set v fine h in
      deliver_cases wire c id result error (λ c'. c'.out ≡ c.out ++ (encoded wire message ∷ []))
        (λ _. out)
        (λ x e over.
          absurd (false≢true (sym (own c.out (encoded wire message) x (sym ended ∙ e)) ∙ over)))

  deliver_over :
      wire.encode_error (response_message id nil too_big) ≡ none
      → cap b < length (encoded wire message)
      → length (encoded wire (response_message id nil too_big)) ≤ cap b
      → (deliver wire c id result error).out
        ≡ c.out ++ (encoded wire (response_message id nil too_big) ∷ [])
  unfolding respond
  deliver_over fine h room =
      let (out, ended) = send_over_limit wire c message b set v h in
      let (b', set', v', same_cap) = send-IsValid wire c message b set v in
      deliver_cases wire c id result error
        (λ c'. c'.out ≡ c.out ++ (encoded wire (response_message id nil too_big) ∷ []))
        (λ not_limit. absurd (false≢true (sym (not_limit _ ended))))
        (λ x e over.
          (send_within_limit wire (send wire c message).0 (response_message id nil too_big) b' set'
            v' fine (rw same_cap room)).0
          ∙ ap (λ o. o ++ (encoded wire (response_message id nil too_big) ∷ [])) out)

  -- On a connection with a valid limited buffer and a stream that never reports the limit error
  -- of its own, where the response and the answer too_big are encoded without error and that
  -- answer fits: the client gets exactly one write, the response if it fits the limit and the
  -- answer too_big if not.
  pub deliver_limited :
      wire.encode_error message ≡ none
      → wire.encode_error (response_message id nil too_big) ≡ none
      → length (encoded wire (response_message id nil too_big)) ≤ cap b
      → (deliver wire c id result error).out
        ≡ c.out
          ++ ((if leb (length (encoded wire message)) (cap b)
                then encoded wire message
                else encoded wire (response_message id nil too_big))
              ∷ [])
  deliver_limited fine fine' room = elim (le_or_lt (length (encoded wire message)) (cap b)) [
    | inl h ↦ rw (le→leb _ _ h) (deliver_fits fine h)
    | inr h ↦ rw (lt→leb _ _ h) (deliver_over fine' h room)
  ]
