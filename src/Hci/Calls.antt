-- ===== src/Hci/Calls.antt =====
-- internal/hciapi/hci-api_linux.go: any sequence of calls of the methods.
use arduino_router.Prelude.{refl, List, [], ◌∷◌}
use arduino_router.Value.{Value}
use arduino_router.Reply.{Answer}
use arduino_router.Hci.{Hci, initial, Kernel, hci_open, hci_send, hci_recv, hci_avail, hci_close}
use arduino_router.Hci.Descriptors.{
  FdsAreInts, IsValid, hci_open-IsValid, hci_send_state, hci_recv_state, hci_avail_state,
  hci_close-IsValid,
}

pub data Method : Type 0 where
  opening sending receiving polling closing : Method

-- One call, with the parameters and the kernel's answers.
pub record Call : Type 0 where
  pub method : Method
  pub params : List Value
  pub kernel : Kernel

abbrev dispatch : Method → Kernel → Hci → List Value → Answer Hci
dispatch opening k h params = hci_open k h params
dispatch sending k h params = hci_send k h params
dispatch receiving k h params = hci_recv k h params
dispatch polling k h params = hci_avail k h params
dispatch closing k h params = hci_close h params

-- One call after the other.
abbrev pub run : List Call → Hci → Hci
run [] h = h
run (c ∷ cs) h = run cs (dispatch c.method c.kernel h c.params).0

dispatch-IsValid :
    (m : Method) (k : Kernel) (h : Hci) (params : List Value)
    → FdsAreInts k
    → IsValid h
    → IsValid (dispatch m k h params).0
dispatch-IsValid opening k h params small v = hci_open-IsValid k h params small v
dispatch-IsValid sending k h params small v = rw (hci_send_state k h params) v
dispatch-IsValid receiving k h params small v = rw (hci_recv_state k h params) v
dispatch-IsValid polling k h params small v = rw (hci_avail_state k h params) v
dispatch-IsValid closing k h params small v = hci_close-IsValid h params v

abbrev pub AllFdsAreInts : List Call → Type 0
AllFdsAreInts [] = Unit {0}
AllFdsAreInts (c ∷ cs) = FdsAreInts c.kernel × AllFdsAreInts cs

run_from-IsValid : (cs : List Call) (h : Hci) → AllFdsAreInts cs → IsValid h → IsValid (run cs h)
run_from-IsValid [] h small v = v
run_from-IsValid (c ∷ cs) h small v =
    run_from-IsValid cs (dispatch c.method c.kernel h c.params).0 (small.1)
      (dispatch-IsValid c.method c.kernel h c.params (small.0) v)

-- After any sequence of calls of the HCI methods, with any parameters and answers of the kernel,
-- but with descriptors below 2 ^ 31: exactly the socket that hciSocket names is open, and none if
-- it names none.
pub run-IsValid : (cs : List Call) → AllFdsAreInts cs → IsValid (run cs initial)
unfolding initial
run-IsValid cs small = run_from-IsValid cs initial small refl
