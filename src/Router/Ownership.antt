-- ===== src/Router/Ownership.antt =====
-- What a packet of one connection may do to the tables of the router: it changes the routes of
-- that connection only.
use arduino_router.Prelude.{ℕ, ◌≡◌, inl, inr, refl, arith, bytes_eq_instance, ◌∙◌}
use arduino_router.Connection.Decode.{RpcPacket}
use arduino_router.Router.Routes.{RouteTable}
use arduino_router.Router.Acts.{
  Respects, Act, Acts, answer, reroute, compute, limit, pass, notify, settle, none_left, also,
}
use arduino_router.Router.Acts.Handlers.{handle_packet-Acts}
use arduino_router.Router.{World, Env, fwd_res, limit_messages, handle_packet}

pub record TablesBy {S : Type 0} (conn : ℕ) (w w' : World S) : Type 0 where
  pub routes : Respects conn w.routes w'.routes
  pub routes_internal : w'.routes_internal ≡ w.routes_internal
  pub live : w'.live ≡ w.live
  pub next : w'.next ≡ w.next

module _ {S : Type 0} {conn : ℕ} where
  TablesBy-refl : {w : World S} → TablesBy conn w w
  TablesBy-refl = record {
    routes = record { keeps = λ m c ne h. h; gains = λ m c h. inr h };
    routes_internal = refl;
    live = refl;
    next = refl;
  }

  TablesBy-trans :
      {w w' w'' : World S} → TablesBy conn w w' → TablesBy conn w' w'' → TablesBy conn w w''
  TablesBy-trans a b = record {
    routes = record {
      keeps = λ m c ne h. b.routes.keeps m c ne (a.routes.keeps m c ne h);
      gains =
          λ m c h. elim (b.routes.gains m c h) [ inl e ↦ inl e | inr h' ↦ a.routes.gains m c h' ];
    };
    routes_internal = b.routes_internal ∙ a.routes_internal;
    live = b.live ∙ a.live;
    next = b.next ∙ a.next;
  }

  -- A step that leaves the tables alone, or gives new routes only.
  same :
      {w w' : World S}
      → w'.routes ≡ w.routes
      → w'.routes_internal ≡ w.routes_internal
      → w'.live ≡ w.live
      → w'.next ≡ w.next
      → TablesBy conn w w'
  same r i l n = record {
    routes = record { keeps = λ m c ne h. rw r h; gains = λ m c h. inr (rw r at h) };
    routes_internal = i;
    live = l;
    next = n;
  }

  rerouted :
      {w : World S} {r : RouteTable}
      → Respects conn w.routes r
      → TablesBy conn w (record w { routes = r })
  rerouted r = record { routes = r; routes_internal = refl; live = refl; next = refl }

module _ {S : Type 0} {env : Env} {conn : ℕ} where
  Act-TablesBy : {w w' : World S} → Act env conn w w' → TablesBy conn w w'
  unfolding fwd_res limit_messages
  Act-TablesBy (answer w f r e) = same refl refl refl refl
  Act-TablesBy (reroute w r h) = rerouted h
  Act-TablesBy (compute w s) = same refl refl refl refl
  Act-TablesBy (limit w size) = same (ground arith) (ground arith) (ground arith) (ground arith)
  Act-TablesBy (pass w client id method raw) = same refl refl refl refl
  Act-TablesBy (notify w client method raw) = same refl refl refl refl
  Act-TablesBy (settle w id) = same refl refl refl refl

  Acts-TablesBy : {w w' : World S} → Acts env conn w w' → TablesBy conn w w'
  Acts-TablesBy none_left = TablesBy-refl
  Acts-TablesBy (also a b) = TablesBy-trans (Acts-TablesBy a) (Act-TablesBy b)

-- A packet of one connection, of any kind, keeps every route of the other connections, gives new
-- routes to that connection only, registers no internal method and starts or ends no connection.
pub handle_packet-TablesBy :
    {S : Type 0} (env : Env) (w : World S) (conn : ℕ) (p : RpcPacket)
    → TablesBy conn w (handle_packet env w conn p)
handle_packet-TablesBy env w conn p = Acts-TablesBy (handle_packet-Acts env w conn p)
