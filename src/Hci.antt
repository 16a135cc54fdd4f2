-- ===== src/Hci.antt =====
-- internal/hciapi/hci-api_linux.go: one raw Bluetooth socket, opened, used and closed by RPC. The state
-- is `hciSocket`, beside the descriptors of HCI sockets that the process has open.
mod Names
mod Descriptors
mod Calls
mod Overlap
mod Tests
use arduino_router.Prelude.{
  ℕ, zero, suc, ◌-◌, ◌%◌, ◌^◌, Option, none, some, Bool, true, false, ◌&&◌, ◌||◌, Bytes, List, [],
  ◌∷◌, ◌++◌, ℤ, pos, negsuc, remove, leb, ltb, ◌==◌, if◌then◌else◌, text,
}
use arduino_router.Error.{Error, Result, ok, err, error_text}
use arduino_router.Value.{Value, string, bytes, bool, int}
use arduino_router.Conversion.{to_uint}
use arduino_router.Strings.{atoi, cut_prefix}
use arduino_router.Reply.{Answer, fail, succeed}

pub record Hci : Type 0 where
  pub hci_socket : ℤ
  pub open_fds : List ℕ

-- init(): no socket.
unfoldable pub initial : Hci
initial = record { hci_socket = negsuc 0; open_fds = [] }

-- What the kernel answers to the calls of one method. `poll` gives the number of descriptors and
-- whether POLLIN is set.
pub record Kernel : Type 0 where
  pub socket : Result ℕ
  pub hci_dev_down : ℕ → ℕ → Option Error
  pub bind : ℕ → ℕ → Option Error
  pub write : ℕ → Bytes → Result ℕ
  pub set_receive_timeout : ℕ → Option Error
  pub read : ℕ → ℕ → Result Bytes
  pub poll : ℕ → Result (ℕ × Bool)
  pub is_would_block : Error → Bool
  pub is_interrupted : Error → Bool

-- int32(fd)
unfoldable pub to_int32 : ℕ → ℤ
to_int32 n = let w = n % 2 ^ 32 in if ltb w (2 ^ 31) then pos w else negsuc (2 ^ 32 - 1 - w)

-- unix.Close
abbrev pub close_fd : Hci → ℕ → Hci
close_fd h fd = record h { open_fds = remove fd h.open_fds }

close_old : Hci → ℤ → Hci
close_old h (pos fd) = close_fd h fd
close_old h (negsuc n) = h

-- `if fd := hciSocket.Swap(-1); fd >= 0 { unix.Close(fd) }`
unfoldable pub close_socket : Hci → Hci
unfolding close_old
close_socket h = close_old (record h { hci_socket = negsuc 0 }) h.hci_socket

-- The number behind "hci", of at least one byte: an `int` from 0 to 0xFFFF.
device_range : Option ℤ → Option ℕ
device_range (some (pos n)) = if ltb 0xFFFF n then none else some n
device_range other = none

unfoldable pub device_number : Bytes → Option ℕ
unfolding device_range
device_number rest = device_range (atoi rest)

-- `deviceName[3:]`, where the name has four bytes or more and begins with "hci".
abbrev pub behind_hci : Option Bytes → Option Bytes
behind_hci (some (c ∷ cs)) = some (c ∷ cs)
behind_hci other = none

unfoldable pub device_suffix : Bytes → Option Bytes
device_suffix name = behind_hci (cut_prefix name (text "hci"))

module _ (k : Kernel) where
  bound : Hci → ℕ → Option Error → Answer Hci
  bound h fd (some e) =
      fail (close_fd h fd) 3 (text "Failed to bind to HCI device: " ++ error_text e)
  bound h fd none = succeed (record h { hci_socket = to_int32 fd }) (bool true)

  brought_down : Hci → ℕ → ℕ → Option Error → Answer Hci
  unfolding bound
  brought_down h fd dev (some e) =
      fail (close_fd h fd) 3 (text "Failed to bring down HCI device: " ++ error_text e)
  brought_down h fd dev none = bound h fd (k.bind fd dev)

  pub created : Hci → ℕ → Result ℕ → Answer Hci
  unfolding brought_down
  created h dev (err e) = fail h 3 (text "Failed to create HCI socket: " ++ error_text e)
  created h dev (ok fd) =
      brought_down (record h { open_fds = fd ∷ h.open_fds }) fd dev (k.hci_dev_down fd dev)

  open_device : Hci → Option ℕ → Answer Hci
  unfolding created
  open_device h none = fail h 1 (text "Invalid device number in device name")
  open_device h (some dev) = created (close_socket h) dev k.socket

  open_name : Hci → Option Bytes → Answer Hci
  unfolding open_device
  open_name h none =
      fail h 1 (text "Invalid device name format, expected 'hciX' where X is device number")
  open_name h (some rest) = open_device h (device_number rest)

  unfoldable pub hci_open : Hci → List Value → Answer Hci
  unfolding open_name
  hci_open h (string name ∷ []) = open_name h (device_suffix name)
  hci_open h (other ∷ []) =
      fail h 1 (text "Invalid parameter type: expected string for device name")
  hci_open h params = fail h 1 (text "Expected one parameter: HCI device name (e.g., 'hci0')")

  -- errNoHCIDeviceOpen
  no_device : Hci → Answer Hci
  no_device h = fail h 2 (text "No HCI device open")

  sent : Hci → Result ℕ → Answer Hci
  sent h (err e) = fail h 3 (text "Failed to send HCI packet: " ++ error_text e)
  sent h (ok n) = succeed h (int (pos n))

  send_data : Hci → Bytes → ℤ → Answer Hci
  unfolding no_device sent
  send_data h d (negsuc n) = no_device h
  send_data h d (pos fd) = sent h (k.write fd d)

  unfoldable pub hci_send : Hci → List Value → Answer Hci
  unfolding send_data
  hci_send h (bytes d ∷ []) = send_data h d h.hci_socket
  hci_send h (string d ∷ []) = send_data h d h.hci_socket
  hci_send h (other ∷ []) = fail h 1 (text "Invalid parameter type, expected []byte or string")
  hci_send h params = fail h 1 (text "Expected one parameter: data to send")

  -- A receive that times out has no data.
  received : Hci → Result Bytes → Answer Hci
  received h (ok d) = succeed h (bytes d)
  received h (err e) =
      if k.is_would_block e
      then succeed h (bytes [])
      else fail h 3 (text "Failed to receive HCI packet: " ++ error_text e)

  receive_from : Hci → ℕ → ℕ → Option Error → Answer Hci
  unfolding received
  receive_from h fd size (some e) = fail h 3 (text "Failed to set read timeout: " ++ error_text e)
  receive_from h fd size none = received h (k.read fd size)

  receive_open : Hci → ℕ → ℤ → Answer Hci
  unfolding no_device receive_from
  receive_open h size (negsuc n) = no_device h
  receive_open h size (pos fd) = receive_from h fd size (k.set_receive_timeout fd)

  receive_size : Hci → Option ℕ → Answer Hci
  unfolding receive_open
  receive_size h none = fail h 1 (text "Invalid parameter type, expected uint for max bytes")
  receive_size h (some size) = receive_open h size h.hci_socket

  unfoldable pub hci_recv : Hci → List Value → Answer Hci
  unfolding receive_size
  hci_recv h (size ∷ []) = receive_size h (to_uint size)
  hci_recv h params = fail h 1 (text "Expected one parameter: max bytes to receive")

  polled : Hci → Result (ℕ × Bool) → Answer Hci
  polled h (ok (n, pollin)) = succeed h (bool (ltb 0 n && pollin))
  polled h (err e) =
      if k.is_interrupted e
      then succeed h (bool false)
      else fail h 3 (text "Poll failed: " ++ error_text e)

  poll_open : Hci → ℤ → Answer Hci
  unfolding no_device polled
  poll_open h (negsuc n) = no_device h
  poll_open h (pos fd) = polled h (k.poll fd)

  unfoldable pub hci_avail : Hci → List Value → Answer Hci
  unfolding poll_open
  hci_avail h [] = poll_open h h.hci_socket
  hci_avail h params = fail h 1 (text "Expected no parameters")

unfoldable pub hci_close : Hci → List Value → Answer Hci
unfolding close_socket
hci_close h [] = succeed (close_socket h) (bool true)
hci_close h params = fail h 1 (text "Expected no parameters")
