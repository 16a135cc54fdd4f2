-- ===== src/Connection/Serving.antt =====
-- msgpackrpc/connection.go: a connection whose requests are answered by a handler that calls `res`
-- once before it returns, and that ignores notifications and errors, as NewConnection does where it is
-- given no handlers for these.
use arduino_router.Prelude.{
  ℕ, ◌≡◌, refl, ◌∙◌, ap, Option, none, Bytes, List, [], ◌∷◌, ◌++◌, pos, text, append-nil,
  append_assoc, arith,
}
use arduino_router.Error.{Error, fault}
use arduino_router.Value.{Value, nil, int, uint}
use arduino_router.Connection.{
  Connection, Wire, encode_to_out, write_out, send, respond, handle_incoming_response,
  message_type_response,
}
use arduino_router.Connection.Decode.{
  RpcPacket, Kind, kind, request, response, notification, unknown,
}

-- type RequestHandler: the result and the error with which it calls `res`.
abbrev pub RequestHandler : Type 0
RequestHandler = Bytes → List Value → Value × Value

-- The handler of NewConnection where none is given; `any_of` is an error as a value.
unfoldable pub not_implemented : (Error → Value) → RequestHandler
not_implemented any_of method params =
    (nil, any_of (fault (text "method not implemented: " ++ method)))

module _ {H : Type 0} (wire : Wire) (handler : RequestHandler) where
  unfoldable pub handle_incoming_request :
      Connection H → ℕ → Bytes → List Value → Connection H × Option Error
  handle_incoming_request c id method params =
      respond wire c id (handler method params).0 (handler method params).1

  serve_kind : Kind → Connection H → RpcPacket → Connection H
  serve_kind request c packet =
      (handle_incoming_request c packet.msg_id packet.method packet.params).0
  serve_kind response c packet = (handle_incoming_response c packet.msg_id).0
  serve_kind notification c packet = c
  serve_kind unknown c packet = c

  -- The switch of `Run`.
  unfoldable pub serve_packet : Connection H → RpcPacket → Connection H
  unfolding serve_kind
  serve_packet c packet = serve_kind (kind packet.msg_type) c packet

  unfoldable pub serve_all : Connection H → List RpcPacket → Connection H
  serve_all c [] = c
  serve_all c (packet ∷ rest) = serve_all (serve_packet c packet) rest

-- The responses to the requests among the packets, each under the ID of its request.
abbrev response_message : RequestHandler → RpcPacket → List Value
response_message handler packet =
    int (pos message_type_response)
    ∷ uint packet.msg_id
    ∷ (handler packet.method packet.params).1
    ∷ (handler packet.method packet.params).0
    ∷ []

abbrev response_to : RequestHandler → Kind → RpcPacket → List (List Value)
response_to handler request packet = response_message handler packet ∷ []
response_to handler other packet = []

abbrev pub responses : RequestHandler → List RpcPacket → List (List Value)
responses handler [] = []
responses handler (packet ∷ rest) =
    response_to handler (kind packet.msg_type) packet ++ responses handler rest

-- What is written for messages, one after the other.
abbrev pub all_writes : Wire → List (List Value) → List Bytes
all_writes wire [] = []
all_writes wire (m ∷ ms) = wire.chunks m ++ all_writes wire ms

all_writes-append :
    (wire : Wire) (l m : List (List Value))
    → all_writes wire (l ++ m) ≡ all_writes wire l ++ all_writes wire m
all_writes-append wire [] m = refl
all_writes-append wire (x ∷ l) m = rw (all_writes-append wire l m, append_assoc)

-- The stream and the encoder make no error.
pub record IsUp (wire : Wire) : Type 0 where
  pub writes : (before : List Bytes) (p : Bytes) → wire.write_error before p ≡ none
  pub encodes : (m : List Value) → wire.encode_error m ≡ none

pub response_writes_nothing :
    {H : Type 0} (c : Connection H) (id : ℕ)
    → ((handle_incoming_response c id).0.buffer ≡ c.buffer)
      × ((handle_incoming_response c id).0.out ≡ c.out)
unfolding handle_incoming_response
response_writes_nothing c id = ground arith

module _ {H : Type 0} (wire : Wire) (up : IsUp wire) where
  encode_to_out_whole :
      (c : Connection H) (ps : List Bytes)
      → encode_to_out wire c ps none ≡ (record c { out = c.out ++ ps }, none)
  unfolding encode_to_out write_out
  encode_to_out_whole c [] = rw append-nil refl
  encode_to_out_whole c (p ∷ ps) =
      rw (up.writes c.out p, encode_to_out)
        (encode_to_out_whole (record c { out = c.out ++ (p ∷ []) }) ps ∙ rw append_assoc refl)

  pub send_whole :
      (c : Connection H) (m : List Value)
      → c.buffer ≡ none
      → send wire c m ≡ (record c { out = c.out ++ wire.chunks m }, none)
  unfolding send
  send_whole c m h = send_plain ∙ rw (up.encodes m) (encode_to_out_whole c (wire.chunks m))
    where
      send_plain : send wire c m ≡ encode_to_out wire c (wire.chunks m) (wire.encode_error m)
      send_plain = ground arith

  module _ (handler : RequestHandler) where
    serve_kind_lem :
        (k : Kind) (c : Connection H) (packet : RpcPacket)
        → c.buffer ≡ none
        → ((serve_kind wire handler k c packet).buffer ≡ none)
          × ((serve_kind wire handler k c packet).out
              ≡ c.out ++ all_writes wire (response_to handler k packet))
    unfolding serve_kind handle_incoming_request respond
    serve_kind_lem request c packet h =
        let e = send_whole c (response_message handler packet) h in
        (ap (λ r. r.0.buffer) e ∙ h, ap (λ r. r.0.out) e ∙ rw append-nil refl)
    serve_kind_lem response c packet h =
        let (same_buffer, same_out) = response_writes_nothing c packet.msg_id in
        (same_buffer ∙ h, same_out ∙ rw append-nil refl)
    serve_kind_lem notification c packet h = (h, rw append-nil refl)
    serve_kind_lem unknown c packet h = (h, rw append-nil refl)

    -- On a connection without a limit, whose stream and encoder make no error: over any packets
    -- the handler's answer to each request is written under the ID of that request, in the order
    -- of the requests, and nothing else is written.
    pub serve_all_lem :
        (c : Connection H) (packets : List RpcPacket)
        → c.buffer ≡ none
        → (serve_all wire handler c packets).out
          ≡ c.out ++ all_writes wire (responses handler packets)
    unfolding serve_all serve_packet
    serve_all_lem c [] h = rw append-nil refl
    serve_all_lem c (packet ∷ rest) h =
        let (unlimited, now) = serve_kind_lem (kind packet.msg_type) c packet h in
        let first = response_to handler (kind packet.msg_type) packet in
        serve_all_lem (serve_packet wire handler c packet) rest unlimited
        ∙ rw (now, all_writes-append wire first (responses handler rest), append_assoc) refl
