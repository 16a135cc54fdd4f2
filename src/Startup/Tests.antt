-- ===== src/Startup/Tests.antt =====
-- main.go: examples of a router that starts.
use arduino_router.Prelude.{
  ℕ, ◌≡◌, ◌↔◌, refl, none, some, true, false, Bytes, List, [], ◌∷◌, ◌++◌, text, bytes_eq, length,
  bytes_eq_instance,
}
use arduino_router.Dict.{lookup_in}
use arduino_router.Error.{ok, err, Error, fault}
use arduino_router.Value.{string}
use arduino_router.Network
use arduino_router.Network.{Sockets}
use arduino_router.Network.Packets.{UdpSockets}
use arduino_router.Hci
use arduino_router.Hci.{Kernel}
use arduino_router.Monitor
use arduino_router.Monitor.{Pipe}
use arduino_router.Serial
use arduino_router.Strings.{atoi, digits_from}
use arduino_router.Router.{World, Env, accept, finish, handle_request}
use arduino_router.Router.Dispatch.{decoded_params}
use arduino_router.Router.Internal.{Runs, started, steps, elsewhere, internal_answer}
use arduino_router.Router.Steps.{accepts, new_router}
use arduino_router.Startup.Tables.{
  Apis, Outside, on_monitor, monitor_methods, network_methods, hci_methods, version_method,
}
use arduino_router.Startup.{
  Config, Os, Listener, unix_addr, open_listeners, start_router, internal_methods, methods,
  listen_tcp, listen_unix,
}
use arduino_router.Startup.Accepting.{NoneFrom, is_open_at, failed_accept_is_final}
use arduino_router.Startup.Serving.{
  Running, Event, connects, accept_fails, leaves, interrupts, is_accepting, break_loop,
  close_listeners, shut_down, happen, event, run, opened, after_ready, not_run,
}
use arduino_router.Startup.Methods.{started_answers}
use arduino_router.Startup.Listeners.{TcpReady, UnixReady, wanted, open_listeners_lem}

abbrev nothing : Error
nothing = fault (text "nothing")

abbrev sockets : Sockets
sockets = record {
  dial = λ addr. err nothing;
  listen = λ addr. err nothing;
  accept = λ l. err nothing;
  close = λ c. none;
  close_listener = λ l. none;
  set_read_deadline = λ c d. none;
  read = λ c n. ([], none);
  write = λ c d. ok (length d);
  is_deadline_exceeded = λ e. false;
  append_certs_from_pem = λ p. true;
  tls_dial = λ addr cert. err nothing;
}

abbrev udp_sockets : UdpSockets
udp_sockets = record {
  resolve_udp_addr = λ a. ok a;
  listen_udp = λ a. err nothing;
  write_to = λ c d addr. ok (length d);
  set_read_deadline = λ c d. none;
  read_from = λ c n. err nothing;
  is_deadline_exceeded = λ e. false;
  split_host_port = λ a. err nothing;
  close = λ c. none;
}

abbrev kernel : Kernel
kernel = record {
  socket = err nothing;
  hci_dev_down = λ fd dev. none;
  bind = λ fd dev. none;
  write = λ fd d. ok (length d);
  set_receive_timeout = λ fd. none;
  read = λ fd n. ok [];
  poll = λ fd. ok (0, false);
  is_would_block = λ e. false;
  is_interrupted = λ e. false;
}

abbrev pipe : Pipe Bytes
pipe = record {
  capacity = 1024;
  contents = λ p. p;
  write = λ p conn d. (p ++ d, some (ok (length d)));
  resume = λ p conn. (p, none);
  read = λ p n. ([], ok p);
}

abbrev out : ℕ → Outside Bytes
out call = record {
  sockets = sockets;
  udp_sockets = udp_sockets;
  atoi_error = λ s. s;
  kernel = kernel;
  pipe = pipe;
  writes = λ limited conn d. none;
}

abbrev apis : Apis Bytes
apis = record {
  net = Network.initial;
  hci = Hci.initial;
  monitor = Monitor.initial [];
  serial = Serial.initial;
  calls = 0;
  crashed = false;
}

abbrev os : Os
os = record {
  listen = λ network addr. none;
  chmod = λ a. none;
  lookup_group = λ g. ok (text "985");
  chown = λ a gid. none;
  atoi_error = λ s. fault s;
}

abbrev config : Config
config = record {
  listen_tcp_addr = text ":5000";
  listen_unix_addr = text "/run/r.sock";
  serial_port_addr = text "/dev/ttyS0";
  monitor_port_addr = text ":7500";
}

abbrev version : Bytes
version = text "1.0"

abbrev listeners : List Listener
listeners = (text "tcp", text ":5000") ∷ (text "unix", text "/run/r.sock") ∷ []

opens_both : open_listeners os config ≡ ok listeners
unfolding open_listeners listen_tcp listen_unix bytes_eq atoi digits_from
opens_both = refl

refused :
    open_listeners (record os { lookup_group = λ g. ok (text "x") }) config
    ≡ err (Error.wrapped (text "invalid gid for group arduino-router: ") (fault (text "x")) [])
unfolding open_listeners listen_tcp listen_unix bytes_eq atoi digits_from
refused = refl

open_listeners_lem_example : (open_listeners os config ≡ ok listeners) ↔ (
    TcpReady os (text ":5000")
    × UnixReady os (text "/run/r.sock")
    × (listeners ≡ wanted (text "tcp") (text ":5000") ++ wanted (text "unix") (text "/run/r.sock")))
open_listeners_lem_example = open_listeners_lem os config listeners

prefers_environment : unix_addr false (text "/tmp/r") (text "/var/r") ≡ text "/tmp/r"
unfolding unix_addr bytes_eq
prefers_environment = refl

abbrev env : Env
env = record {
  wire = λ c. record { chunks = λ m. []; encode_error = λ m. none; write_error = λ before p. none };
  unmarshal = λ b. string b;
}

abbrev first_world : World (Apis Bytes)
first_world = new_router (internal_methods os out version config).0 apis

starts : start_router os out version config apis ≡ ok (listeners, first_world)
unfolding start_router open_listeners listen_tcp listen_unix bytes_eq atoi digits_from
    internal_methods
starts = refl

abbrev with_client : World (Apis Bytes)
with_client = record (accept first_world) { state = record apis { calls = 5 } }

runs : Runs env first_world with_client
runs = elsewhere (steps started (accepts first_world)) (record apis { calls = 5 })

known :
    lookup_in (text "mon/connected") (methods os out version config)
    ≡ some (on_monitor out (λ o. Monitor.connected))
unfolding methods network_methods hci_methods version_method monitor_methods lookup_in bytes_eq
known = refl

started_answers_example :
    handle_request env with_client 0 9 (text "mon/connected") []
    ≡ internal_answer env with_client 0 9 (text "mon/connected") [] (
        on_monitor out
          (λ o. Monitor.connected)
          with_client.state
          0
          (decoded_params env with_client 0 9 (text "mon/connected") []))
started_answers_example =
    started_answers os out version config apis listeners first_world with_client env 0 9
      (text "mon/connected") [] (on_monitor out (λ o. Monitor.connected)) starts runs known

-- The program behind the two listeners.
abbrev program : Running (Apis Bytes)
program = record {
  doors = opened listeners;
  world = first_world;
  with_serial = true;
  returned = false;
  logged = [];
}

abbrev with_failure : Running (Apis Bytes)
with_failure = record program { doors = break_loop (opened listeners) 0 }

accept_failed : event env (λ s. s.crashed) (accept_fails 0) program ≡ some with_failure
unfolding event happen new_router
accept_failed = refl

-- The other listener goes on.
abbrev later : List (Event (Apis Bytes))
later = connects 1 ∷ leaves 0 ∷ []

abbrev at_end : Running (Apis Bytes)
at_end = record with_failure { world = finish (accept first_world) 0 }

goes_on : run env (λ s. s.crashed) later with_failure ≡ some at_end
unfolding run event happen break_loop accept new_router
goes_on = refl

failed_accept_is_final_example :
    NoneFrom 0 later
    × (is_accepting at_end.doors 0 ≡ false)
    × ((j : ℕ) → is_open_at with_failure.doors j ≡ is_open_at (opened listeners) j)
failed_accept_is_final_example =
    failed_accept_is_final env (λ s. s.crashed) 0 later program with_failure at_end accept_failed
      goes_on

-- After a panic nothing happens, not even the shutdown.
crash_ends :
    event env
      (λ s. s.crashed)
      (interrupts (λ l. none))
      (record program { world = record first_world { state = record apis { crashed = true } } })
    ≡ none
unfolding event
crash_ends = refl

-- A command that fails is only logged.
ready_command :
    after_ready
      (record { new_process = λ words. none; run_process = λ words. some nothing })
      (text "false")
    ≡ not_run nothing
unfolding after_ready bytes_eq
ready_command = refl

-- The errors of Close are logged, and the shutdown goes on.
closing_goes_on : (shut_down (λ l. some nothing) program).logged ≡ nothing ∷ nothing ∷ []
unfolding shut_down close_listeners
closing_goes_on = refl
