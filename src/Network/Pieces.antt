-- ===== src/Network/Pieces.antt =====
-- internal/network-api/network-api.go: a UDP packet that is read or written by parts.
use arduino_router.Prelude.{
  nat_eq, ℕ, ◌≡◌, refl, sym, ap, ◌∙◌, Option, none, some, Bytes, List, [], ◌∷◌, ◌++◌, append_assoc,
  append-nil, pos, ltb, decimal, length, take, drop, take_all, drop_all, take-append-drop, arith,
  Bool-cases, inl, inr,
}
use arduino_router.Dict.{lookup, insert, delete, lookup-insert_self, lookup-delete_self}
use arduino_router.Error.{ok}
use arduino_router.Value.{Value, uint, bytes, string, int}
use arduino_router.Conversion.{to_uint}
use arduino_router.Reply.{succeed}
use arduino_router.Network.{Net, join_host_port}
use arduino_router.Network.Packets.{
  udp_read, udp_write, udp_begin_packet, udp_end_packet, UdpSockets, read_buffer,
}

abbrev or_empty : Option Bytes → Bytes
or_empty none = []
or_empty (some b) = b

-- What is left to read.
abbrev pub unread : Net → ℕ → Bytes
unread net id = or_empty (lookup id net.udp_read_buffers)

read_buffer_lem :
    (net : Net) (id n : ℕ) (b : Option Bytes)
    → lookup id net.udp_read_buffers ≡ b
    → (net' : Net) × (read_buffer net id n b ≡ succeed net' (bytes (take n (or_empty b))))
      × (unread net' id ≡ drop n (or_empty b))
unfolding read_buffer
read_buffer_lem net id n none h = (
  net,
  rw (take_all {A = ℕ} n [] (ground arith)) refl,
  rw (h, drop_all {A = ℕ} n [] (ground arith)) refl,
)
read_buffer_lem net id n (some b) h = elim (Bool-cases (ltb n (length b))) [
  | inl more ↦ (
    record net { udp_read_buffers = insert id (drop n b) net.udp_read_buffers },
    rw more refl,
    rw (lookup-insert_self id (drop n b) net.udp_read_buffers) refl,
  )
  | inr all ↦ (
    record net { udp_read_buffers = delete id net.udp_read_buffers },
    rw (all, take_all n b (ground arith)) refl,
    rw (lookup-delete_self id net.udp_read_buffers, drop_all n b (ground arith)) refl,
  )
]

-- With an ID and a size that are unsigned integers, udp/read returns the first bytes of what
-- there is to read, at most as many as the size, and leaves the rest.
pub udp_read_lem :
    (net : Net) (v size : Value) (id n : ℕ)
    → to_uint v ≡ some id
    → to_uint size ≡ some n
    → (net' : Net) × (udp_read net (v ∷ size ∷ []) ≡ succeed net' (bytes (take n (unread net id))))
      × (unread net' id ≡ drop n (unread net id))
unfolding udp_read
udp_read_lem net v size id n is_id is_size =
    let (net', replies, rest) = read_buffer_lem net id n (lookup id net.udp_read_buffers) refl in
    (net', rw (is_id, is_size) replies, rest)

abbrev pub piece : Value → Bytes
piece (bytes b) = b
piece other = []

-- udp/read with one size after the other: the tables after it, and the pieces in one.
abbrev pub read_pieces : Net → Value → List ℕ → Net × Bytes
read_pieces net v [] = (net, [])
read_pieces net v (n ∷ ns) =
    let reply = udp_read net (v ∷ uint n ∷ []) in
    let rest = read_pieces reply.0 v ns in (rest.0, piece reply.1 ++ rest.1)

-- For a valid ID and any sequence of sizes, the pieces that udp/read returns for them, followed
-- by what is left, are what there was to read, in order.
pub read_pieces_lem :
    (net : Net) (v : Value) (id : ℕ)
    → to_uint v ≡ some id
    → (ns : List ℕ) → (read_pieces net v ns).1 ++ unread (read_pieces net v ns).0 id ≡ unread net id
unfolding to_uint
read_pieces_lem net v id is_id [] = refl
read_pieces_lem net v id is_id (n ∷ ns) =
    let (net', replies, left) = udp_read_lem net v (uint n) id n is_id refl in
    let rest = read_pieces_lem net' v id is_id ns in
    rw replies (
      append_assoc (take n (unread net id)) (read_pieces net' v ns).1
        (unread (read_pieces net' v ns).0 id)
      ∙ ap (λ l. take n (unread net id) ++ l) (rest ∙ left)
      ∙ take-append-drop n (unread net id))

-- udp/write with one piece after the other.
abbrev pub write_pieces : Net → Value → List Bytes → Net
write_pieces net v [] = net
write_pieces net v (d ∷ ds) = write_pieces (udp_write net (v ∷ bytes d ∷ [])).0 v ds

abbrev pub concat : List Bytes → Bytes
concat [] = []
concat (d ∷ ds) = d ++ concat ds

-- The state of a packet that has been begun.
record Begun (net : Net) (id conn : ℕ) (buffer target : Bytes) : Type 0 where
  pub socket : lookup id net.live_udp_connections ≡ some conn
  pub written : lookup id net.udp_write_buffers ≡ some buffer
  pub addressed : lookup id net.udp_write_targets ≡ some target

udp_write-Begun :
    (net : Net) (v : Value) (id conn : ℕ) (buffer target d : Bytes)
    → to_uint v ≡ some id
    → Begun net id conn buffer target
    → Begun (udp_write net (v ∷ bytes d ∷ [])).0 id conn (buffer ++ d) target
unfolding udp_write
udp_write-Begun net v id conn buffer target d is_id begun =
    rw (is_id, begun.written)
      (record {
        socket = begun.socket;
        written = lookup-insert_self id (buffer ++ d) net.udp_write_buffers;
        addressed = begun.addressed;
      })

write_pieces-Begun :
    (net : Net) (v : Value) (id conn : ℕ) (buffer target : Bytes)
    → to_uint v ≡ some id
    → (ds : List Bytes) → Begun net id conn buffer target
    → Begun (write_pieces net v ds) id conn (buffer ++ concat ds) target
write_pieces-Begun net v id conn buffer target is_id [] begun = rw (append-nil buffer) begun
write_pieces-Begun net v id conn buffer target is_id (d ∷ ds) begun =
    rw (sym (append_assoc buffer d (concat ds))) (
      write_pieces-Begun (udp_write net (v ∷ bytes d ∷ [])).0 v id conn (buffer ++ d) target is_id
        ds (udp_write-Begun net v id conn buffer target d is_id begun))

module _ (s : UdpSockets) where
  udp_begin-Begun :
      (net : Net) (v port : Value) (host target : Bytes) (id conn n : ℕ)
      → to_uint v ≡ some id
      → to_uint port ≡ some n
      → lookup id net.live_udp_connections ≡ some conn
      → s.resolve_udp_addr (join_host_port host (decimal n)) ≡ ok target
      → Begun (udp_begin_packet s net (v ∷ string host ∷ port ∷ [])).0 id conn [] target
  unfolding udp_begin_packet
  udp_begin-Begun net v port host target id conn n is_id is_port known resolves =
      rw (is_id, is_port, known, resolves)
        (record {
          socket = known;
          written = lookup-insert_self id [] net.udp_write_buffers;
          addressed = lookup-insert_self id target net.udp_write_targets;
        })

  udp_end_lem :
      (net : Net) (v : Value) (id conn n : ℕ) (buffer target : Bytes)
      → to_uint v ≡ some id
      → Begun net id conn buffer target
      → s.write_to conn buffer (some target) ≡ ok n
      → (net' : Net) × (udp_end_packet s net (v ∷ []) ≡ succeed net' (int (pos n)))
        × (lookup id net'.udp_write_buffers ≡ none)
  unfolding udp_end_packet
  udp_end_lem net v id conn n buffer target is_id begun sends = (
    record net {
      udp_write_buffers = delete id net.udp_write_buffers;
      udp_write_targets = delete id net.udp_write_targets;
    },
    rw (is_id, begun.socket, begun.written, begun.addressed, sends) refl,
    lookup-delete_self id net.udp_write_buffers,
  )

  -- With the ID of an open UDP socket, a target that is resolved and a socket that sends:
  -- udp/beginPacket, udp/write of any sequence of payloads and udp/endPacket send one packet of
  -- all payloads in order to that target and return the number that sending returns; no packet is
  -- begun after it.
  pub udp_packet_lem :
      (net : Net) (v port : Value) (host target : Bytes) (ds : List Bytes) (id conn n k : ℕ)
      → to_uint v ≡ some id
      → to_uint port ≡ some n
      → lookup id net.live_udp_connections ≡ some conn
      → s.resolve_udp_addr (join_host_port host (decimal n)) ≡ ok target
      → s.write_to conn (concat ds) (some target) ≡ ok k
      → (net' : Net) × (udp_end_packet s
            (write_pieces (udp_begin_packet s net (v ∷ string host ∷ port ∷ [])).0 v ds)
            (v ∷ [])
          ≡ succeed net' (int (pos k)))
        × (lookup id net'.udp_write_buffers ≡ none)
  udp_packet_lem net v port host target ds id conn n k is_id is_port known resolves sends =
      let begun = udp_begin-Begun net v port host target id conn n is_id is_port known resolves in
      let opened = (udp_begin_packet s net (v ∷ string host ∷ port ∷ [])).0 in
      let full = write_pieces-Begun opened v id conn [] target is_id ds begun in
      udp_end_lem (write_pieces opened v ds) v id conn k (concat ds) target is_id full sends
