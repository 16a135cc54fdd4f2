-- ===== src/Hci/Tests.antt =====
-- Runs of the HCI methods and the theorems at concrete kernels.
use arduino_router.Prelude.{
  ℕ, ◌<◌, ◌^◌, List, ◌≡◌, refl, none, some, true, false, [], ◌∷◌, text, pos, negsuc, length, arith,
}
use arduino_router.Error.{ok, fault}
use arduino_router.Value.{string, bytes, bool, uint}
use arduino_router.Reply.{succeed}
use arduino_router.Hci.{
  Hci, initial, Kernel, to_int32, close_socket, hci_open, hci_close, device_suffix, device_number,
}
use arduino_router.Strings.{cut_prefix, atoi}
use arduino_router.Hci.Names.{device}
use arduino_router.Hci.Calls.{opening, sending, receiving, polling, closing, Call, run, run-IsValid}
use arduino_router.Hci.Overlap.{open_overlapped, overlapped_opens_leak}
use arduino_router.Hci.Descriptors.{IsValid}

-- Every call succeeds, and the next socket has the descriptor 7.
abbrev willing : Kernel
willing = record {
  socket = ok 7;
  hci_dev_down = λ fd dev. none;
  bind = λ fd dev. none;
  write = λ fd d. ok (length d);
  set_receive_timeout = λ fd. none;
  read = λ fd n. ok (text "hi");
  poll = λ fd. ok (1, true);
  is_would_block = λ e. false;
  is_interrupted = λ e. false;
}

-- The device cannot be bound.
abbrev busy : Kernel
busy = record willing { socket = ok 9; bind = λ fd dev. some (fault (text "busy")) }

abbrev opened : Hci
opened = record { hci_socket = pos 7; open_fds = 7 ∷ [] }

open_hci0 : hci_open willing initial (string (text "hci0") ∷ []) ≡ succeed opened (bool true)
unfolding hci_open initial device_suffix cut_prefix device_number atoi to_int32 close_socket
open_hci0 = refl

no_number : device (text "hcix") ≡ none
unfolding device device_suffix cut_prefix device_number atoi
no_number = refl

abbrev calls : List Call
calls =
    record { method = opening; params = string (text "hci0") ∷ []; kernel = willing }
    ∷ record { method = sending; params = bytes (text "ab") ∷ []; kernel = willing }
    ∷ record { method = receiving; params = uint 64 ∷ []; kernel = willing }
    ∷ record { method = polling; params = []; kernel = willing }
    ∷ record { method = opening; params = string (text "hci1") ∷ []; kernel = busy }
    ∷ record { method = closing; params = []; kernel = willing }
    ∷ []

small_7 : (fd : ℕ) → ok 7 ≡ ok fd → fd < 2 ^ 31
small_7 fd e = ground arith

small_9 : (fd : ℕ) → ok 9 ≡ ok fd → fd < 2 ^ 31
small_9 fd e = ground arith

run-IsValid_example : IsValid (run calls initial)
run-IsValid_example =
    run-IsValid calls (small_7, (small_7, (small_7, (small_7, (small_9, (small_7, tt))))))

abbrev second : Kernel
second = record willing { socket = ok 8 }

overlapped_opens_leak_example :
    (open_overlapped willing 0 second 1 opened
      ≡ record { hci_socket = pos 8; open_fds = 8 ∷ 7 ∷ [] })
    × ((hci_close (open_overlapped willing 0 second 1 opened) []).0
        ≡ record { hci_socket = negsuc 0; open_fds = 7 ∷ [] })
overlapped_opens_leak_example =
    overlapped_opens_leak willing second 0 1 7 8 opened refl
      (record { made = refl; down = refl; bound_to = refl; small = omega arith })
      (record { made = refl; down = refl; bound_to = refl; small = omega arith }) (omega arith)
