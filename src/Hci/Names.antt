-- ===== src/Hci/Names.antt =====
-- internal/hciapi/hci-api_linux.go, hciOpen: the names of devices.
use arduino_router.Prelude.{
  ℕ, ◌^◌, ◌≤◌, ◌<◌, ◌≡◌, refl, ◌↔◌, Option, none, some, true, false, Bytes, [], ◌∷◌, ◌++◌, ltb,
  text, decimal, arith, Bool-cases, inl, inr,
}
use arduino_router.Error.{ok}
use arduino_router.Value.{string, bool}
use arduino_router.Strings.{cut_prefix}
use arduino_router.Strings.Numbers.{atoi-decimal, decimal-Printed}
use arduino_router.Reply.{succeed}
use arduino_router.Hci.{
  Hci, Kernel, close_socket, device_range, device_suffix, device_number, open_name, open_device,
  hci_open, to_int32,
}

-- The device that a name stands for, if it is one.
abbrev number_of : Option Bytes → Option ℕ
number_of none = none
number_of (some rest) = device_number rest

unfoldable pub device : Bytes → Option ℕ
device name = number_of (device_suffix name)

device_number-decimal : (n : ℕ) → n ≤ 0xFFFF → device_number (decimal n) ≡ some n
unfolding device_number
device_number-decimal n h =
    let small : ltb 0xFFFF n ≡ false = ground arith in rw (atoi-decimal n (omega arith), small)

device_suffix-hci : (n : ℕ) → device_suffix (text "hci" ++ decimal n) ≡ some (decimal n)
unfolding device_suffix cut_prefix
device_suffix-hci n = let (c, cs, e, low, high) = decimal-Printed n in rw e

-- The name hci and a decimal number below 2 ^ 63 stands for the device of that number exactly
-- when it is at most 65535.
pub device-hci : (n : ℕ) → n < 2 ^ 63 → (device (text "hci" ++ decimal n) ≡ some n) ↔ (n ≤ 0xFFFF)
unfolding device device_number device_range
device-hci n h =
    rw (device_suffix-hci n, atoi-decimal n h)
      (elim (Bool-cases (ltb 0xFFFF n)) [
        | inl large ↦ rw large (λ e. cc, λ e. ground arith)
        | inr small ↦ rw small (λ e. ground arith, λ e. refl)
      ])

module _ (k : Kernel) where
  -- Hci/open of the name hci and a decimal number up to 65535, with a kernel that makes a socket,
  -- takes the device down and binds the socket, closes the old socket, keeps the new one and
  -- returns true.
  pub hci_open_lem :
      (h : Hci) (n fd : ℕ)
      → n ≤ 0xFFFF
      → k.socket ≡ ok fd
      → k.hci_dev_down fd n ≡ none
      → k.bind fd n ≡ none
      → hci_open k h (string (text "hci" ++ decimal n) ∷ [])
        ≡ succeed
            (record (close_socket h) {
              hci_socket = to_int32 fd;
              open_fds = fd ∷ (close_socket h).open_fds;
            })
            (bool true)
  unfolding hci_open
  hci_open_lem h n fd small makes downs binds =
      rw (device_suffix-hci n, device_number-decimal n small, makes, downs, binds)

  open_name_other : (h : Hci) (s : Option Bytes) → number_of s ≡ none → (open_name k h s).0 ≡ h
  unfolding open_name open_device
  open_name_other h none wrong = refl
  open_name_other h (some rest) wrong = rw wrong

  -- Hci/open of a name that stands for no device leaves the open socket and hciSocket alone.
  pub hci_open_other :
      (h : Hci) (name : Bytes) → device name ≡ none → (hci_open k h (string name ∷ [])).0 ≡ h
  unfolding hci_open device
  hci_open_other h name wrong = open_name_other h (device_suffix name) wrong
