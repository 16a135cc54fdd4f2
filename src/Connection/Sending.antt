-- ===== src/Connection/Sending.antt =====
-- What `send` puts on the stream, with and without a limit on the size of a message.
use arduino_router.Prelude.{
  pos, ℕ, suc, ◌+◌, ◌≤◌, ◌<◌, ◌≡◌, refl, sym, ap, ◌∙◌, Option, none, some, Bytes, List, [], ◌∷◌,
  ◌++◌, arith, length, length-append, append_assoc, append-nil, take, Option-cases, inl, inr,
  le_or_lt,
}
use arduino_router.Error.{Error, limit_exceeded}
use arduino_router.Value.{Value, int, string, array, items}
use arduino_router.LimitedBuffer.{LimitedBuffer, write, bytes, reset, len, cap}
use arduino_router.LimitedBuffer.Contents.{
  IsValid, write-IsValid, write_fits, write_exceeds, len-le-cap, reset-IsValid, cap-reset,
  cap-write,
}
use arduino_router.Connection.{
  Connection, Wire, encode_to_buffer, encode_to_out, send_buffered, send, send_notification,
  after_notification, message_type_notification,
}

-- The whole message, in the order of the writes.
abbrev pub joined : List Bytes → Bytes
joined [] = []
joined (p ∷ ps) = p ++ joined ps

encode_to_buffer-IsValid :
    (b : LimitedBuffer) (ps : List Bytes) (end : Option Error)
    → IsValid b
    → IsValid (encode_to_buffer b ps end).0 × (cap (encode_to_buffer b ps end).0 ≡ cap b)
unfolding encode_to_buffer
encode_to_buffer-IsValid b [] end v = (v, refl)
encode_to_buffer-IsValid b (p ∷ ps) end v = elim (Option-cases (write b p).err) [
  | inl e ↦
      rw (e, encode_to_buffer)
        (let ih = encode_to_buffer-IsValid (write b p).buffer ps end (write-IsValid b p v) in
          (ih.0, ih.1 ∙ cap-write b p))
  | inr (l, e) ↦ rw (e, encode_to_buffer) (write-IsValid b p v, cap-write b p)
]

-- A message that fits is collected whole.
encode_to_buffer-fits :
    (b : LimitedBuffer) (ps : List Bytes) (end : Option Error)
    → IsValid b
    → len b + length (joined ps) ≤ cap b
    → (bytes (encode_to_buffer b ps end).0 ≡ bytes b ++ joined ps)
      × ((encode_to_buffer b ps end).1 ≡ end)
unfolding encode_to_buffer
encode_to_buffer-fits b [] end v h = (sym (append-nil _), refl)
encode_to_buffer-fits b (p ∷ ps) end v h =
    let (fine, stored, grown) = write_fits b p v (omega (arith, length-append p (joined ps))) in
    let ih =
      encode_to_buffer-fits (write b p).buffer ps end (write-IsValid b p v)
        (omega (arith, length-append p (joined ps), grown, cap-write b p)) in
    rw (fine, encode_to_buffer) (ih.0 ∙ rw stored (append_assoc (bytes b) p (joined ps)), ih.1)

-- A message that does not fit ends in the error of the limit.
encode_to_buffer-exceeds :
    (b : LimitedBuffer) (ps : List Bytes) (end : Option Error)
    → IsValid b
    → cap b < len b + length (joined ps)
    → (encode_to_buffer b ps end).1 ≡ some (limit_exceeded (cap b))
unfolding encode_to_buffer
encode_to_buffer-exceeds b [] end v h = absurd (omega (arith, len-le-cap b v))
encode_to_buffer-exceeds b (p ∷ ps) end v h = elim (le_or_lt (len b + length p) (cap b)) [
  | inl fits ↦
      let (fine, stored, grown) = write_fits b p v fits in
      rw (fine, encode_to_buffer)
        (encode_to_buffer-exceeds (write b p).buffer ps end (write-IsValid b p v)
            (omega (arith, length-append p (joined ps), grown, cap-write b p))
          ∙ ap (λ n. some (limit_exceeded n)) (cap-write b p))
  | inr over ↦ rw (write_exceeds b p v over, encode_to_buffer)
]

-- What a send leaves alone: everything but the stream and the content of the buffer.
pub record SameRequests {H : Type 0} (c c' : Connection H) : Type 0 where
  pub active : c'.active ≡ c.active
  pub last_index : c'.last_index ≡ c.last_index
  pub keep_raw : c'.keep_raw ≡ c.keep_raw
  pub closed : c'.closed ≡ c.closed

abbrev collected : Wire → List Value → LimitedBuffer → LimitedBuffer × Option Error
collected wire m b = encode_to_buffer (reset b) (wire.chunks m) (wire.encode_error m)

module _ {H : Type 0} (wire : Wire) where
  encode_to_out-SameRequests :
      (c : Connection H) (ps : List Bytes) (end : Option Error)
      → SameRequests c (encode_to_out wire c ps end).0
        × ((encode_to_out wire c ps end).0.buffer ≡ c.buffer)
  unfolding encode_to_out
  encode_to_out-SameRequests c [] end =
      (record { active = refl; last_index = refl; keep_raw = refl; closed = refl }, refl)
  encode_to_out-SameRequests c (p ∷ ps) end =
      ground (arith, encode_to_out-SameRequests (record c { out = c.out ++ (p ∷ []) }) ps end)

  module _ (c : Connection H) (r : LimitedBuffer × Option Error) where
    send_buffered-buffer : (send_buffered wire c r).0.buffer ≡ some r.0
    unfolding send_buffered
    send_buffered-buffer = ground arith

    send_buffered-fine :
        (p : Bytes)
        → r.1 ≡ none
        → bytes r.0 ≡ p
        → ((send_buffered wire c r).0.out ≡ c.out ++ (p ∷ []))
          × ((send_buffered wire c r).1 ≡ wire.write_error c.out p)
    unfolding send_buffered
    send_buffered-fine p fine stored = ground arith

    send_buffered-failed :
        (e : Error)
        → r.1 ≡ some e
        → ((send_buffered wire c r).0.out ≡ c.out) × ((send_buffered wire c r).1 ≡ some e)
    unfolding send_buffered
    send_buffered-failed e failed = ground arith

  pub send-SameRequests : (c : Connection H) (m : List Value) → SameRequests c (send wire c m).0
  unfolding send
  send-SameRequests c m =
      ground (arith, (encode_to_out-SameRequests c (wire.chunks m) (wire.encode_error m)).0)

  after_notification-SameRequests :
      (c : Connection H) (p : Connection H × Option Error)
      → SameRequests c p.0
      → SameRequests c (after_notification wire p).0
  unfolding after_notification
  after_notification-SameRequests c (c', none) same = same
  after_notification-SameRequests c (c', some e) same = same

  pub send_notification-SameRequests :
      (c : Connection H) (method : Bytes) (params : List Value)
      → SameRequests c (send_notification wire c method params).0
  unfolding send_notification
  send_notification-SameRequests c method params =
      let message =
        int (pos message_type_notification) ∷ string method ∷ array (items params) ∷ [] in
      after_notification-SameRequests c (send wire c message) (send-SameRequests c message)

  module _ (c : Connection H) (m : List Value) (b : LimitedBuffer) (set : c.buffer ≡ some b)
      (v : IsValid b) where
    send-buffered : send wire c m ≡ send_buffered wire c (collected wire m b)
    unfolding send
    send-buffered = rw (set, send)

    -- Whatever happens, the connection keeps a valid buffer of the same limit.
    pub send-IsValid :
        (b' : LimitedBuffer) × ((send wire c m).0.buffer ≡ some b') × IsValid b' × (cap b' ≡ cap b)
    send-IsValid =
        let kept =
          encode_to_buffer-IsValid (reset b) (wire.chunks m) (wire.encode_error m)
            (reset-IsValid b v).0 in
        (
          (collected wire m b).0,
          rw send-buffered (send_buffered-buffer c (collected wire m b)),
          kept.0,
          kept.1 ∙ cap-reset b,
        )

    -- On a connection with a valid limited buffer, a message that is encoded without error and is
    -- not longer than the limit goes out in exactly one write of all its bytes, and the error of
    -- that write is the error of send.
    pub send_within_limit :
        wire.encode_error m ≡ none
        → length (joined (wire.chunks m)) ≤ cap b
        → ((send wire c m).0.out ≡ c.out ++ (joined (wire.chunks m) ∷ []))
          × ((send wire c m).1 ≡ wire.write_error c.out (joined (wire.chunks m)))
    send_within_limit fine h =
        let (valid, cleared, none_used) = reset-IsValid b v in
        let (stored, ended) =
          encode_to_buffer-fits (reset b) (wire.chunks m) (wire.encode_error m) valid
            (omega (arith, none_used, cap-reset b)) in
        rw send-buffered (
          send_buffered-fine c (collected wire m b) _ (ended ∙ fine)
            (stored ∙ ap (λ t. t ++ joined (wire.chunks m)) cleared))

    -- On a connection with a valid limited buffer, a message longer than the limit is refused
    -- with the error of the limit, and nothing of it is written to the stream.
    pub send_over_limit :
        cap b < length (joined (wire.chunks m))
        → ((send wire c m).0.out ≡ c.out) × ((send wire c m).1 ≡ some (limit_exceeded (cap b)))
    send_over_limit h =
        let (valid, cleared, none_used) = reset-IsValid b v in
        rw send-buffered (
          send_buffered-failed c (collected wire m b) _ (
            encode_to_buffer-exceeds (reset b) (wire.chunks m) (wire.encode_error m) valid
              (omega (arith, none_used, cap-reset b))
            ∙ ap (λ n. some (limit_exceeded n)) (cap-reset b)))

  -- Without a limit the writes of the encoder go out one by one, up to the first that fails.
  encode_to_out_lem :
      (c : Connection H) (ps : List Bytes) (end : Option Error)
      → (n : ℕ) × ((encode_to_out wire c ps end).0.out ≡ c.out ++ take n ps)
        × ((encode_to_out wire c ps end).1 ≡ none
            → ((encode_to_out wire c ps end).0.out ≡ c.out ++ ps) × (end ≡ none))
  unfolding encode_to_out
  encode_to_out_lem c [] end = (0, sym (append-nil _), λ h. (sym (append-nil _), h))
  encode_to_out_lem c (p ∷ ps) end = elim (Option-cases (wire.write_error c.out p)) [
    | inl e ↦
        let (n, sent, all) = encode_to_out_lem (record c { out = c.out ++ (p ∷ []) }) ps end in
        (
          suc n,
          rw (e, encode_to_out) (sent ∙ append_assoc c.out (p ∷ []) (take n ps)),
          rw (e, encode_to_out) λ h. ((all h).0 ∙ append_assoc c.out (p ∷ []) ps, (all h).1),
        )
    | inr (x, e) ↦ (1, rw (e, encode_to_out), rw (e, encode_to_out) λ h. cc)
  ]

  -- On a connection without a limit the first writes of the encoder, in order, are made on the
  -- stream; if send returns no error, then all of them are and the encoder had no error.
  pub send_unlimited :
      (c : Connection H) (m : List Value)
      → c.buffer ≡ none
      → (n : ℕ) × ((send wire c m).0.out ≡ c.out ++ take n (wire.chunks m))
        × ((send wire c m).1 ≡ none
            → ((send wire c m).0.out ≡ c.out ++ wire.chunks m) × (wire.encode_error m ≡ none))
  send_unlimited c m h = rw send_plain (encode_to_out_lem c (wire.chunks m) (wire.encode_error m))
    where
      send_plain : send wire c m ≡ encode_to_out wire c (wire.chunks m) (wire.encode_error m)
      send_plain = unfold send in ground arith
