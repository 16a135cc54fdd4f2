-- ===== src/Startup.antt =====
-- main.go: the configuration, the listeners and the internal methods of a router that starts.
pub mod Tables
pub mod Methods
pub mod Listeners
pub mod Serving
pub mod Accepting
pub mod DebugStream
mod Tests
use arduino_router.Prelude.{
  ℕ, Option, none, some, Bool, true, false, Bytes, List, [], ◌∷◌, ◌++◌, ℤ, text, bytes_eq,
  if◌then◌else◌, pos,
}
use arduino_router.Dict.{Dict, empty}
use arduino_router.Error.{Error, wrapped, fault, Result, ok, err}
use arduino_router.Strings.{atoi}
use arduino_router.Router.{World, Handler, accept}
use arduino_router.Router.Errors.{RouteError}
use arduino_router.Router.Internal.{register_all}
use arduino_router.Router.Steps.{new_router}
use Tables.{
  Apis, Outside, network_methods, hci_methods, monitor_methods, version_method, serial_methods,
}

-- The part of Config that decides what is opened; an empty address is none.
pub record Config : Type 0 where
  pub listen_tcp_addr : Bytes
  pub listen_unix_addr : Bytes
  pub serial_port_addr : Bytes
  pub monitor_port_addr : Bytes

-- What the packages net, os and os/user answer.
pub record Os : Type 0 where
  pub listen : Bytes → Bytes → Option Error
  pub chmod : Bytes → Option Error
  pub lookup_group : Bytes → Result Bytes
  pub chown : Bytes → ℤ → Option Error
  pub atoi_error : Bytes → Error

-- cmp.Or
abbrev pub or_else : Bytes → Bytes → Bytes
or_else a b = if bytes_eq a [] then b else a

-- The UNIX socket: the flag if it is given, and then the variable ARDUINO_ROUTER_SOCKET, unless it is
-- empty, before the flag's default.
unfoldable pub unix_addr : Bool → Bytes → Bytes → Bytes
unix_addr true environment flag = flag
unix_addr false environment flag = or_else environment flag

-- A listener: its network and its address.
abbrev pub Listener : Type 0
Listener = Bytes × Bytes

module _ (os : Os) where
  listened : Bytes → Bytes → Bytes → Option Error → Result (List Listener)
  listened network address before none = ok ((network, address) ∷ [])
  listened network address before (some e) = err (wrapped (before ++ (address ++ text ": ")) e [])

  unfoldable pub listen_tcp : Bytes → Result (List Listener)
  unfolding listened
  listen_tcp address =
      if bytes_eq address []
      then ok []
      else listened (text "tcp") address (text "failed to listen on TCP port ")
          (os.listen (text "tcp") address)

  owned : Bytes → Option Error → Option Error
  owned address none = none
  owned address (some e) =
      some (wrapped (text "failed to change group of unix socket " ++ (address ++ text ": ")) e [])

  grouped : Bytes → Bytes → Option ℤ → Option Error
  unfolding owned
  grouped address gid (some n) = owned address (os.chown address n)
  grouped address gid none =
      some (wrapped (text "invalid gid for group arduino-router: ") (os.atoi_error gid) [])

  -- A group that is not found is no error.
  with_group : Bytes → Result Bytes → Option Error
  unfolding grouped
  with_group address (err e) = none
  with_group address (ok gid) = grouped address gid (atoi gid)

  permitted : Bytes → Option Error → Option Error
  unfolding with_group
  permitted address (some e) = some e
  permitted address none = with_group address (os.lookup_group (text "arduino-router"))

  after_permission : List Listener → Option Error → Result (List Listener)
  after_permission ls none = ok ls
  after_permission ls (some e) = err e

  with_permission : Bytes → Result (List Listener) → Result (List Listener)
  unfolding permitted after_permission
  with_permission address (err e) = err e
  with_permission address (ok ls) = after_permission ls (permitted address (os.chmod address))

  -- A socket file that is in the way is removed before, whatever the error.
  unfoldable pub listen_unix : Bytes → Result (List Listener)
  unfolding listened with_permission
  listen_unix address =
      if bytes_eq address []
      then ok []
      else with_permission address (
          listened (text "unix") address (text "failed to listen on UNIX socket ")
            (os.listen (text "unix") address))

  both : List Listener → Result (List Listener) → Result (List Listener)
  both ls (err e) = err e
  both ls (ok more) = ok (ls ++ more)

  then_unix : Bytes → Result (List Listener) → Result (List Listener)
  unfolding both
  then_unix address (err e) = err e
  then_unix address (ok ls) = both ls (listen_unix address)

  -- startRouter up to the router.
  unfoldable pub open_listeners : Config → Result (List Listener)
  unfolding then_unix
  open_listeners cfg = then_unix cfg.listen_unix_addr (listen_tcp cfg.listen_tcp_addr)

  module _ {P : Type 0} (out : ℕ → Outside P) (version : Bytes) where
    -- monitorapi.Register fails where it cannot listen, which is logged.
    monitor_registered : Option Error → List (Bytes × Handler (Apis P))
    monitor_registered none = monitor_methods out
    monitor_registered (some e) = []

    serial_registered : Bytes → List (Bytes × Handler (Apis P))
    serial_registered address = if bytes_eq address [] then [] else serial_methods out address

    -- The internal methods in the order of their registration.
    unfoldable pub methods : Config → List (Bytes × Handler (Apis P))
    unfolding monitor_registered serial_registered
    methods cfg =
        network_methods out
        ++ (hci_methods out
            ++ (version_method out version
                ++ (monitor_registered (os.listen (text "tcp") cfg.monitor_port_addr)
                    ++ serial_registered cfg.serial_port_addr)))

    -- The internal methods that are registered, and the errors; f.Assert panics if there are any.
    unfoldable pub internal_methods : Config → Dict Bytes (Handler (Apis P)) × List RouteError
    unfolding methods
    internal_methods cfg = register_all (methods cfg) (empty, [])

    started_with :
        Config → Apis P → Result (List Listener) → Result (List Listener × World (Apis P))
    unfolding internal_methods
    started_with cfg s (err e) = err e
    started_with cfg s (ok ls) = ok (ls, new_router (internal_methods cfg).0 s)

    -- startRouter up to the loops that accept connections.
    unfoldable pub start_router : Config → Apis P → Result (List Listener × World (Apis P))
    unfolding started_with
    start_router cfg s = started_with cfg s (open_listeners cfg)

-- The loop of one listener: what its Accept returns, one after the other.
unfoldable pub accept_all : {S : Type 0} → List (Option Error) → World S → World S
accept_all [] w = w
accept_all (none ∷ rest) w = accept_all rest (accept w)
accept_all (some e ∷ rest) w = w
