-- ===== src/Hci/Descriptors.antt =====
-- internal/hciapi/hci-api_linux.go: the descriptors that the methods open and close.
use arduino_router.Prelude.{
  ℕ, ◌^◌, ◌<◌, ◌≡◌, refl, Option, none, some, Bool, Bytes, List, [], ◌∷◌, ℤ, pos, negsuc, arith,
  Option-cases, inl, inr,
}
use arduino_router.Error.{Error, Result, ok, err}
use arduino_router.Value.{Value, string, bytes}
use arduino_router.Conversion.{to_uint}
use arduino_router.Hci.{
  Hci, Kernel, to_int32, close_fd, close_old, close_socket, device_suffix, device_number, bound,
  brought_down, created, open_device, open_name, hci_open, hci_send, hci_recv, hci_avail, hci_close,
  receive_size, received, receive_from, receive_open, polled, poll_open, send_data, remove,
}

-- Descriptors are below 2 ^ 31: the kernel hands them out as a C int.
abbrev pub FdsAreInts : Kernel → Type 0
FdsAreInts k = (fd : ℕ) → k.socket ≡ ok fd → fd < 2 ^ 31

abbrev Owns : ℤ → List ℕ → Type 0
Owns (pos fd) fds = fds ≡ fd ∷ []
Owns (negsuc n) fds = fds ≡ []

-- Exactly the socket that `hciSocket` names is open.
abbrev pub IsValid : Hci → Type 0
IsValid h = Owns h.hci_socket h.open_fds

remove_only : (fd : ℕ) → remove fd (fd ∷ []) ≡ []
remove_only fd = ground arith

-- Nothing is open.
pub record IsClosed (h : Hci) : Type 0 where
  pub unset : h.hci_socket ≡ negsuc 0
  pub closed : h.open_fds ≡ []

pub close_socket-IsClosed : (h : Hci) → IsValid h → IsClosed (close_socket h)
unfolding close_socket
close_socket-IsClosed h v = go h.hci_socket v
  where
    go : (z : ℤ) → Owns z h.open_fds → IsClosed (close_old (record h { hci_socket = negsuc 0 }) z)
    go (pos fd) owns = record { unset = refl; closed = rw owns (remove_only fd) }
    go (negsuc n) owns = record { unset = refl; closed = owns }

pub IsClosed-IsValid : (h : Hci) → IsClosed h → IsValid h
IsClosed-IsValid h c = rw (c.unset) (c.closed)

pub to_int32_small : (n : ℕ) → n < 2 ^ 31 → to_int32 n ≡ pos n
unfolding to_int32
to_int32_small n h = ground arith

-- A new socket is open, and not yet in `hciSocket`.
record IsNew (h : Hci) (fd : ℕ) : Type 0 where
  pub unset : h.hci_socket ≡ negsuc 0
  pub opened : h.open_fds ≡ fd ∷ []
  pub small : fd < 2 ^ 31

close_fd-IsValid : (h : Hci) (fd : ℕ) → IsNew h fd → IsValid (close_fd h fd)
close_fd-IsValid h fd n = rw (n.unset, n.opened) (remove_only fd)

module _ (k : Kernel) where
  bound-IsValid : (h : Hci) (fd : ℕ) (e : Option Error) → IsNew h fd → IsValid (bound k h fd e).0
  unfolding bound
  bound-IsValid h fd (some e) n = close_fd-IsValid h fd n
  bound-IsValid h fd none n = rw (to_int32_small fd n.small) (n.opened)

  brought_down-IsValid :
      (h : Hci) (fd dev : ℕ) (e : Option Error) → IsNew h fd → IsValid (brought_down k h fd dev e).0
  unfolding brought_down
  brought_down-IsValid h fd dev (some e) n = close_fd-IsValid h fd n
  brought_down-IsValid h fd dev none n = bound-IsValid h fd (k.bind fd dev) n

  created-IsValid :
      (h : Hci) (dev : ℕ) (r : Result ℕ)
      → ((fd : ℕ) → r ≡ ok fd → fd < 2 ^ 31)
      → IsClosed h
      → IsValid (created k h dev r).0
  unfolding created
  created-IsValid h dev (err e) small c = IsClosed-IsValid h c
  created-IsValid h dev (ok fd) small c =
      brought_down-IsValid (record h { open_fds = fd ∷ h.open_fds }) fd dev (k.hci_dev_down fd dev)
        (record { unset = c.unset; opened = rw (c.closed) refl; small = small fd refl })

  open_device-IsValid :
      (h : Hci) (dev : Option ℕ) → FdsAreInts k → IsValid h → IsValid (open_device k h dev).0
  unfolding open_device
  open_device-IsValid h none small v = v
  open_device-IsValid h (some dev) small v =
      created-IsValid (close_socket h) dev k.socket small (close_socket-IsClosed h v)

  open_name-IsValid :
      (h : Hci) (rest : Option Bytes) → FdsAreInts k → IsValid h → IsValid (open_name k h rest).0
  unfolding open_name
  open_name-IsValid h none small v = v
  open_name-IsValid h (some rest) small v = open_device-IsValid h (device_number rest) small v

  pub hci_open-IsValid :
      (h : Hci) (params : List Value) → FdsAreInts k → IsValid h → IsValid (hci_open k h params).0
  unfolding hci_open
  hci_open-IsValid h (string name ∷ []) small v = open_name-IsValid h (device_suffix name) small v
  hci_open-IsValid h [] small v = v
  hci_open-IsValid h (p ∷ []) small v = v
  hci_open-IsValid h (string name ∷ q ∷ rest) small v = v
  hci_open-IsValid h (p ∷ q ∷ rest) small v = v

  -- The other methods leave the state alone, but hci/close.
  send_data_state : (h : Hci) (d : Bytes) (z : ℤ) → (send_data k h d z).0 ≡ h
  unfolding send_data
  send_data_state h d (negsuc n) = refl
  send_data_state h d (pos fd) = ground arith

  pub hci_send_state : (h : Hci) (params : List Value) → (hci_send k h params).0 ≡ h
  unfolding hci_send
  hci_send_state h [] = refl
  hci_send_state h (bytes d ∷ []) = send_data_state h d h.hci_socket
  hci_send_state h (string d ∷ []) = send_data_state h d h.hci_socket
  hci_send_state h (p ∷ []) = refl
  hci_send_state h (string d ∷ q ∷ rest) = refl
  hci_send_state h (p ∷ q ∷ rest) = refl

  received_state : (h : Hci) (r : Result Bytes) → (received k h r).0 ≡ h
  unfolding received
  received_state h (ok d) = refl
  received_state h (err e) = ground arith

  receive_open_state : (h : Hci) (size : ℕ) (z : ℤ) → (receive_open k h size z).0 ≡ h
  unfolding receive_open receive_from
  receive_open_state h size (negsuc n) = refl
  receive_open_state h size (pos fd) = elim (Option-cases (k.set_receive_timeout fd)) [
    | inl fine ↦ rw fine (received_state h (k.read fd size))
    | inr (e, failed) ↦ rw failed
  ]

  pub hci_recv_state : (h : Hci) (params : List Value) → (hci_recv k h params).0 ≡ h
  unfolding hci_recv receive_size
  hci_recv_state h [] = refl
  hci_recv_state h (size ∷ []) = elim (Option-cases (to_uint size)) [
    | inl wrong ↦ rw wrong
    | inr (n, is_n) ↦ rw is_n (receive_open_state h n h.hci_socket)
  ]
  hci_recv_state h (p ∷ q ∷ rest) = refl

  polled_state : (h : Hci) (r : Result (ℕ × Bool)) → (polled k h r).0 ≡ h
  unfolding polled
  polled_state h (ok (n, pollin)) = refl
  polled_state h (err e) = ground arith

  poll_open_state : (h : Hci) (z : ℤ) → (poll_open k h z).0 ≡ h
  unfolding poll_open
  poll_open_state h (negsuc n) = refl
  poll_open_state h (pos fd) = polled_state h (k.poll fd)

  pub hci_avail_state : (h : Hci) (params : List Value) → (hci_avail k h params).0 ≡ h
  unfolding hci_avail
  hci_avail_state h [] = poll_open_state h h.hci_socket
  hci_avail_state h (p ∷ rest) = refl

pub hci_close-IsValid : (h : Hci) (params : List Value) → IsValid h → IsValid (hci_close h params).0
unfolding hci_close
hci_close-IsValid h [] v = IsClosed-IsValid (close_socket h) (close_socket-IsClosed h v)
hci_close-IsValid h (p ∷ rest) v = v
