-- ===== src/Router/Store.antt =====
-- internal/msgpackrouter/router.go: the Router with its connections and the state of the internal APIs,
-- the closure that answers a forwarded request, and the limit on the messages of a connection.
use arduino_router.Prelude.{Option, ℕ, none, some, Bool, Bytes, List, ℤ, ◌==◌, if◌then◌else◌, text}
use arduino_router.Dict.{Dict}
use arduino_router.Error.{is_limit_exceeded}
use arduino_router.Value.{Value, nil}
use arduino_router.Connection.{Connection, Wire, set_max_outgoing_message_size, respond}
use arduino_router.Router.Errors.{router_error, buffer_limit_exceeded}
use arduino_router.Router.Routes.{RouteTable}

-- The closure `fwdRes`: it answers the request `id` of the connection `caller`.
pub record Forward : Type 0 where
  pub caller : ℕ
  pub id : ℕ
  pub method : Bytes

-- A RouterRequestHandler with the state `S` of the internal APIs. It calls `res` at most once before
-- it returns, here by returning the result and the error; with `none` it has not called `res`: it
-- waits, or has panicked.
abbrev pub Handler : Type 0 → Type 0
Handler S = S → ℕ → List Value → S × Option (Value × Value)

pub record World (S : Type 0) : Type 0 where
  pub conns : ℕ → Connection Forward
  pub live : ℕ → Bool
  pub next : ℕ
  pub routes : RouteTable
  pub routes_internal : Dict Bytes (Handler S)
  pub state : S

-- What the program does not implement: the encoder and the streams, and what a parameter is after
-- `_ = msgpack.Unmarshal(raw, &decoded)`.
pub record Env : Type 0 where
  pub wire : ℕ → Wire
  pub unmarshal : Bytes → Value

abbrev pub update {ℓ} : {A : Type ℓ} → (ℕ → A) → ℕ → A → ℕ → A
update f k a j = if k == j then a else f j

abbrev pub put : {S : Type 0} → World S → ℕ → Connection Forward → World S
put w k c = record w { conns = update w.conns k c }

-- The answer that stands for a response over the limit.
abbrev pub too_big : Value
too_big = router_error buffer_limit_exceeded (text "message size exceeds the limit")

-- The body of `fwdRes`, over the connection of the caller.
unfoldable pub deliver : Wire → Connection Forward → ℕ → Value → Value → Connection Forward
deliver wire c id req_result req_err =
    let (c', e) = respond wire c id req_result req_err in
    elim e [
      | none ↦ c'
      | some x ↦ if is_limit_exceeded x then (respond wire c' id nil too_big).0 else c'
    ]

-- SetMaxOutgoingMessageSize of a connection. The callers have checked that the size is above 127,
-- so that it is no panic.
unfoldable pub limit_messages : {S : Type 0} → World S → ℕ → ℤ → World S
limit_messages w conn size = elim (set_max_outgoing_message_size (w.conns conn) size) [
  | none ↦ w
  | some c ↦ put w conn c
]
