-- ===== src/Startup/Tables.antt =====
-- The internal APIs over one state, and the tables of their methods: Register of
-- internal/network-api/network-api.go, internal/hciapi/hci-api_linux.go and
-- internal/monitorapi/monitor-api.go, and the methods of main.go.
use arduino_router.Prelude.{ℕ, ◌+◌, Option, none, some, Bool, true, Bytes, List, [], ◌∷◌, text}
use arduino_router.Value.{Value, nil, string}
use arduino_router.Reply.{Answer}
use arduino_router.Router.{Handler}
use arduino_router.Network.{Net, Sockets}
use arduino_router.Network.Tcp.{tcp_connect, tcp_listen, tcp_accept, tcp_close, tcp_close_listener}
use arduino_router.Network.Stream.{tcp_read, tcp_write}
use arduino_router.Network.Ssl.{tcp_connect_ssl}
use arduino_router.Network.Packets.{
  UdpSockets, udp_write, udp_drop_packet, udp_read, udp_begin_packet, udp_end_packet,
}
use arduino_router.Network.Udp.{udp_connect, udp_await_packet, udp_close}
use arduino_router.Hci.{Hci, Kernel, hci_open, hci_send, hci_recv, hci_avail, hci_close}
use arduino_router.Monitor
use arduino_router.Monitor.{Monitor, Pipe, Writes}
use arduino_router.Serial.{Serial, Outcome, answers, waits, panics, serial_open, serial_close}

-- `calls` counts the calls of methods; `crashed` is set by a panic, which ends the program.
pub record Apis (P : Type 0) : Type 0 where
  pub net : Net
  pub hci : Hci
  pub monitor : Monitor P
  pub serial : Serial
  pub calls : ℕ
  pub crashed : Bool

-- What the sockets, the kernel and the clients answer to one call of a method, and the pipe.
pub record Outside (P : Type 0) : Type 0 where
  pub sockets : Sockets
  pub udp_sockets : UdpSockets
  pub atoi_error : Bytes → Bytes
  pub kernel : Kernel
  pub pipe : Pipe P
  pub writes : Writes

module _ {P : Type 0} (out : ℕ → Outside P) where
  called : Apis P → Apis P
  called s = record s { calls = s.calls + 1 }

  unfoldable pub on_net : (Outside P → Net → List Value → Answer Net) → Handler (Apis P)
  unfolding called
  on_net method s conn params =
      let (net, result, e) = method (out s.calls) s.net params in
      (record (called s) { net = net }, some (result, e))

  -- A handler that panics does not answer.
  net_or_crash : Apis P → Option (Answer Net) → Apis P × Option (Value × Value)
  unfolding called
  net_or_crash s none = (record (called s) { crashed = true }, none)
  net_or_crash s (some (net, result, e)) = (record (called s) { net = net }, some (result, e))

  unfoldable pub on_net_or_crash :
      (Outside P → Net → List Value → Option (Answer Net)) → Handler (Apis P)
  unfolding net_or_crash
  on_net_or_crash method s conn params = net_or_crash s (method (out s.calls) s.net params)

  unfoldable pub on_hci : (Outside P → Hci → List Value → Answer Hci) → Handler (Apis P)
  unfolding called
  on_hci method s conn params =
      let (hci, result, e) = method (out s.calls) s.hci params in
      (record (called s) { hci = hci }, some (result, e))

  unfoldable pub on_monitor :
      (Outside P → Monitor P → List Value → Answer (Monitor P)) → Handler (Apis P)
  unfolding called
  on_monitor method s conn params =
      let (monitor, result, e) = method (out s.calls) s.monitor params in
      (record (called s) { monitor = monitor }, some (result, e))

  -- A call of $/serial/close that waits has not answered: Serial has the turn of the loop that wakes it.
  outcome : Apis P → Outcome → Apis P × Option (Value × Value)
  unfolding called
  outcome s (answers (serial, result, e)) =
      (record (called s) { serial = serial }, some (result, e))
  outcome s (waits serial) = (record (called s) { serial = serial }, none)
  outcome s (panics serial) = (record (called s) { serial = serial; crashed = true }, none)

  unfoldable pub on_serial : (Serial → List Value → Outcome) → Handler (Apis P)
  unfolding outcome
  on_serial method s conn params = outcome s (method s.serial params)

  -- Register of the network API.
  unfoldable pub network_methods : List (Bytes × Handler (Apis P))
  unfolding on_net on_net_or_crash
  network_methods =
      (text "tcp/connect", on_net (λ o. tcp_connect o.sockets))
      ∷ (text "tcp/listen", on_net (λ o. tcp_listen o.sockets))
      ∷ (text "tcp/closeListener", on_net (λ o. tcp_close_listener o.sockets))
      ∷ (text "tcp/accept", on_net (λ o. tcp_accept o.sockets))
      ∷ (text "tcp/read", on_net (λ o. tcp_read o.sockets))
      ∷ (text "tcp/write", on_net (λ o. tcp_write o.sockets))
      ∷ (text "tcp/close", on_net (λ o. tcp_close o.sockets))
      ∷ (text "tcp/connectSSL", on_net_or_crash (λ o. tcp_connect_ssl o.sockets))
      ∷ (text "udp/connect", on_net (λ o. udp_connect o.udp_sockets o.atoi_error))
      ∷ (text "udp/beginPacket", on_net (λ o. udp_begin_packet o.udp_sockets))
      ∷ (text "udp/write", on_net (λ o. udp_write))
      ∷ (text "udp/endPacket", on_net (λ o. udp_end_packet o.udp_sockets))
      ∷ (text "udp/awaitPacket", on_net (λ o. udp_await_packet o.udp_sockets o.atoi_error))
      ∷ (text "udp/read", on_net (λ o. udp_read))
      ∷ (text "udp/dropPacket", on_net (λ o. udp_drop_packet))
      ∷ (text "udp/close", on_net (λ o. udp_close o.udp_sockets o.atoi_error))
      ∷ []

  -- Register of the HCI API.
  unfoldable pub hci_methods : List (Bytes × Handler (Apis P))
  unfolding on_hci
  hci_methods =
      (text "hci/open", on_hci (λ o. hci_open o.kernel))
      ∷ (text "hci/send", on_hci (λ o. hci_send o.kernel))
      ∷ (text "hci/recv", on_hci (λ o. hci_recv o.kernel))
      ∷ (text "hci/avail", on_hci (λ o. hci_avail o.kernel))
      ∷ (text "hci/close", on_hci (λ o. hci_close))
      ∷ []

  -- Register of the monitor API, once it listens.
  unfoldable pub monitor_methods : List (Bytes × Handler (Apis P))
  unfolding on_monitor
  monitor_methods =
      (text "mon/connected", on_monitor (λ o. Monitor.connected))
      ∷ (text "mon/read", on_monitor (λ o. Monitor.read o.pipe))
      ∷ (text "mon/write", on_monitor (λ o. Monitor.write o.writes))
      ∷ (text "mon/reset", on_monitor (λ o. Monitor.reset))
      ∷ []

  -- $/version answers with Version.
  unfoldable pub version_method : Bytes → List (Bytes × Handler (Apis P))
  version_method version = (text "$/version", λ s conn params. (s, some (string version, nil))) ∷ []

  -- The methods of the serial port at `address`.
  unfoldable pub serial_methods : Bytes → List (Bytes × Handler (Apis P))
  serial_methods address =
      (text "$/serial/open", on_serial (λ s params. answers (serial_open address s params)))
      ∷ (text "$/serial/close", on_serial (serial_close address))
      ∷ []
