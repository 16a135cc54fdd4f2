-- ===== src/Hci/Overlap.antt =====
-- internal/hciapi/hci-api_linux.go, hciOpen in two connections at once: the handlers of different
-- connections run in goroutines of their own, and only `hciSocket` itself is atomic.
use arduino_router.Prelude.{
  ℕ, ◌<◌, ◌^◌, ◌≡◌, ◌≢◌, refl, ap, ◌∙◌, none, [], ◌∷◌, pos, negsuc, arith, remove, ==_iff,
}
use arduino_router.Error.{ok}
use arduino_router.Hci.{
  Hci, Kernel, close_old, close_socket, created, brought_down, bound, hci_close,
}
use arduino_router.Hci.Descriptors.{
  IsValid, close_socket-IsClosed, IsClosed-IsValid, to_int32_small,
}

-- Both calls close the old socket before either of them makes its own; then the one does the rest, and
-- after it the other.
unfoldable pub open_overlapped : Kernel → ℕ → Kernel → ℕ → Hci → Hci
open_overlapped k dev k' dev' h =
    let old_closed = close_socket (close_socket h) in
    let first = (created k old_closed dev k.socket).0 in (created k' first dev' k'.socket).0

-- The kernel makes the socket `fd` and binds it to the device.
pub record Serves (k : Kernel) (dev fd : ℕ) : Type 0 where
  pub made : k.socket ≡ ok fd
  pub down : k.hci_dev_down fd dev ≡ none
  pub bound_to : k.bind fd dev ≡ none
  pub small : fd < 2 ^ 31

created_lem :
    (k : Kernel) (dev fd : ℕ) (h : Hci)
    → Serves k dev fd
    → (created k h dev k.socket).0 ≡ record { hci_socket = pos fd; open_fds = fd ∷ h.open_fds }
unfolding created brought_down bound
created_lem k dev fd h s = rw (s.made, s.down, s.bound_to, to_int32_small fd s.small) refl

module _ (k k' : Kernel) (dev dev' fd fd' : ℕ) (h : Hci) (v : IsValid h) (s : Serves k dev fd)
    (s' : Serves k' dev' fd') where
  both_opened :
      open_overlapped k dev k' dev' h ≡ record { hci_socket = pos fd'; open_fds = fd' ∷ fd ∷ [] }
  unfolding open_overlapped
  both_opened =
      let c = close_socket-IsClosed h v in
      let twice = close_socket-IsClosed (close_socket h) (IsClosed-IsValid (close_socket h) c) in
      let first = created_lem k dev fd (close_socket (close_socket h)) s in
      let alone = ap (λ l. record { hci_socket = pos fd; open_fds = fd ∷ l }) twice.closed in
      ap (λ x. (created k' x dev' k'.socket).0) (first ∙ alone)
      ∙ created_lem k' dev' fd' (record { hci_socket = pos fd; open_fds = fd ∷ [] }) s'

  -- Where exactly the socket that hciSocket names is open, and two calls of hci/open that the
  -- kernel serves with different sockets overlap, both closing the old socket before either makes
  -- its own: both new sockets are open after them, hciSocket names the second, and hci/close
  -- leaves the first open.
  pub overlapped_opens_leak :
      fd ≢ fd'
      → (open_overlapped k dev k' dev' h
          ≡ record { hci_socket = pos fd'; open_fds = fd' ∷ fd ∷ [] })
        × ((hci_close (open_overlapped k dev k' dev' h) []).0
            ≡ record { hci_socket = negsuc 0; open_fds = fd ∷ [] })
  unfolding hci_close close_socket close_old
  overlapped_opens_leak differ = (
    both_opened,
    rw both_opened (ap (λ l. record { hci_socket = negsuc 0; open_fds = l }) last_left),
  )
    where
      last_left : remove fd' (fd' ∷ fd ∷ []) ≡ fd ∷ []
      last_left = ground (arith, ==_iff fd fd', ==_iff fd' fd, ==_iff fd' fd')
