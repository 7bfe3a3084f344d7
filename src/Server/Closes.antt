-- ===== src/Server/Closes.antt =====
-- How a session of src/server/mod.rs ends.
use open_rmbt_server.Common.{
  ℕ, ◌+◌, ◌-◌, ◌<◌, ◌≡◌, refl, sym, subst, ◌≢◌, ◌⊎◌, inl, inr, Bool, true, false, not, ◌&&◌, Option,
  none, some, List, [], ◌∷◌, ◌++◌, map, arith, if◌then◌else◌,
}
use open_rmbt_server.Text.{Bytes, codes}
use open_rmbt_server.Address.{SocketAddr}
use open_rmbt_server.Io.{Outcome, ok, err, panic, stuck, Wire}
use open_rmbt_server.Io.Tame.{left, Tamed}
use open_rmbt_server.Stats.{new_stats}
use open_rmbt_server.Upgrade.Defs.{Upgrade}
use open_rmbt_server.Upgrade.Tame.{detect_and_upgrade-Tame}
use open_rmbt_server.Greeting.Defs.{Greeting, State}
use open_rmbt_server.Greeting.Halts.{run_greeting-Halts}
use open_rmbt_server.Commands.Halts.{Advances}
use open_rmbt_server.Commands.Safe.{run_commands_safe}
use open_rmbt_server.Commands.Ends.{run_commands_ends}
use open_rmbt_server.Server.Defs.{is_client_disconnect, end_reason}
use open_rmbt_server.Server.Session.{
  WorkerCtx, Socket, Host, Ended, Event, connect, auth, client, close_event, events, break_with,
  serve, after_greeting, greet, after_upgrade, upgrade, session, handle_connection,
}

abbrev pub OneOf : Bytes → List Bytes → Type 0
OneOf b [] = ⊥
OneOf b (x ∷ xs) = (b ≡ x) ⊎ OneOf b xs

-- The ends before and behind a greeting.
abbrev early_ends : List Bytes
early_ends =
    codes "timeout_setup_failed"
    ∷ codes "no_tls_worker"
    ∷ codes "tls_failed"
    ∷ codes "upgrade_disconnect"
    ∷ codes "upgrade_failed"
    ∷ codes "ip_check"
    ∷ codes "version"
    ∷ codes "auth_failed"
    ∷ []

abbrev late_ends : List Bytes
late_ends = codes "quit" ∷ codes "disconnect" ∷ codes "error" ∷ []

abbrev pub IsEnd : Option Greeting → Bytes → Type 0
IsEnd none end = OneOf end early_ends
IsEnd (some g) end = OneOf end late_ends

-- The session came to an end that has a name.
abbrev pub HasEnd : Ended → Type 0
HasEnd e = (end : Bytes) × (e.end ≡ some end) × IsEnd e.greeting end

if-HasEnd : (b : Bool) (e f : Ended) → HasEnd e → HasEnd f → HasEnd (if b then e else f)
if-HasEnd true e f i j = i
if-HasEnd false e f i j = j

end_reason-late :
    (r : Outcome (Unit {0}))
    → r ≢ panic
    → r ≢ stuck
    → (end : Bytes) × (end_reason r ≡ some end) × OneOf end late_ends
unfolding end_reason
end_reason-late (ok a) p s = (_, refl, inl refl)
end_reason-late (err e) p s = named (is_client_disconnect e)
  where
    named :
        (b : Bool)
        → (end : Bytes) × (some (if b then codes "disconnect" else codes "error") ≡ some end)
          × OneOf end late_ends
    named true = (_, refl, inr (inl refl))
    named false = (_, refl, inr (inr (inl refl)))
end_reason-late panic p s = absurd (p refl)
end_reason-late stuck p s = absurd (s refl)

module _ (h : Host) where
  -- The wire is one that the fuel is enough for.
  pub record IsBounded (w : Wire) : Type 0 where
    pub rounds : left w < h.rounds
    pub fuel : left w < h.fuel
    pub clock : Advances h.fuel w.ticks

  tamed-IsBounded :
      {A : Type 0} (w v : Wire) (r : Outcome A) → Tamed w (r, v) → IsBounded w → IsBounded v
  tamed-IsBounded w v r t b = record {
    rounds = omega (arith, t.less, b.rounds);
    fuel = omega (arith, t.less, b.fuel);
    clock = subst (Advances h.fuel) (sym t.ticks) b.clock;
  }

  serve-HasEnd : (g : Greeting) (s : State) → IsBounded s.wire → HasEnd (serve h g s)
  unfolding serve
  serve-HasEnd g s b =
      end_reason-late _ (run_commands_safe h.rounds h.fuel h.random new_stats s.wire).1
        (run_commands_ends h.rounds h.fuel h.random new_stats s.wire b.rounds b.fuel b.clock)

  after_greeting-HasEnd :
      (w : Wire) (r : Outcome Greeting) (s : State)
      → Tamed w (r, s.wire)
      → IsBounded w
      → HasEnd (after_greeting h (r, s))
  unfolding after_greeting
  after_greeting-HasEnd w (ok g) s t b = serve-HasEnd g s (tamed-IsBounded w s.wire (ok g) t b)
  after_greeting-HasEnd w (err e) s t b =
      (_, refl, inr (inr (inr (inr (inr (inr (inr (inl refl))))))))
  after_greeting-HasEnd w panic s t b = absurd t.settled
  after_greeting-HasEnd w stuck s t b = absurd t.settled

  module _ (ctx : WorkerCtx) where
    greet-HasEnd : (w : Wire) → IsBounded w → HasEnd (greet h ctx w)
    unfolding greet
    greet-HasEnd w b =
        after_greeting-HasEnd w _ _
          ((run_greeting-Halts h.env.crypto h.env.version ctx.config ctx.keys ctx.has_sink h.clock
              h.fuel).run
            (record { wire = w; events = []; slept = 0 }) b.fuel)
          b

    after_upgrade-HasEnd :
        (w v : Wire) (r : Outcome Upgrade)
        → Tamed w (r, v)
        → IsBounded w
        → HasEnd (after_upgrade h ctx (r, v))
    unfolding after_upgrade
    after_upgrade-HasEnd w v (ok Upgrade.rmbt) t b =
        greet-HasEnd v (tamed-IsBounded w v (ok Upgrade.rmbt) t b)
    after_upgrade-HasEnd w v (ok (Upgrade.ip_check s)) t b =
        (_, refl, inr (inr (inr (inr (inr (inl refl))))))
    after_upgrade-HasEnd w v (ok (Upgrade.version s)) t b =
        (_, refl, inr (inr (inr (inr (inr (inr (inl refl)))))))
    after_upgrade-HasEnd w v (err e) t b = named (is_client_disconnect e)
      where
        named :
            (b : Bool)
            → HasEnd (
                break_with
                  (some (if b then codes "upgrade_disconnect" else codes "upgrade_failed"))
                  []
                  v)
        named true = (_, refl, inr (inr (inr (inl refl))))
        named false = (_, refl, inr (inr (inr (inr (inl refl)))))
    after_upgrade-HasEnd w v panic t b = absurd t.settled
    after_upgrade-HasEnd w v stuck t b = absurd t.settled

    session-HasEnd :
        (is_tls : Bool) (tcp : Socket) → IsBounded tcp.wire → HasEnd (session h ctx is_tls tcp)
    unfolding session upgrade
    session-HasEnd is_tls tcp b =
        if-HasEnd (not tcp.takes_timeout) _ _ (_, refl, inl refl)
          (if-HasEnd (is_tls && not ctx.has_tls) _ _ (_, refl, inr (inl refl))
            (if-HasEnd (is_tls && not tcp.starts_tls) _ _ (_, refl, inr (inr (inl refl)))
              (after_upgrade-HasEnd tcp.wire _ _
                ((detect_and_upgrade-Tame h.env is_tls _ ctx.keys h.unix_now).run tcp.wire) b)))

    -- The events that a session with a sink emits, when its end is `end`.
    abbrev pub trail : ℕ → Socket → SocketAddr → Bool → Ended → Bytes → List Event
    trail conn_id tcp addr is_tls e end =
        connect conn_id (client h ctx addr) is_tls ∷ map (auth conn_id (client h ctx addr)) e.auths
        ++ close_event h ctx conn_id is_tls
            (e.wire.ticks e.wire.tick - tcp.wire.ticks tcp.wire.tick) e e.greeting end
          ∷ []

    events-trail :
        (conn_id : ℕ) (tcp : Socket) (addr : SocketAddr) (is_tls : Bool) (e : Ended) (end : Bytes)
        → ctx.has_sink ≡ true
        → e.end ≡ some end
        → events h ctx conn_id addr is_tls (tcp.wire.ticks tcp.wire.tick) e
          ≡ trail conn_id tcp addr is_tls e end
    unfolding events
    events-trail conn_id tcp addr is_tls e end sink i = rw (sink, i) refl

-- Whatever the client sends and however the stream fails, a connection comes to an end: with more
-- rounds and fuel than there are bytes and frames to come, and a clock on which 30 seconds go by in
-- as many readings as there is fuel, the worker gets back from `handle_connection`, with an end
-- reason that fits whether the greeting succeeded; and the sink has got the connect event, then the
-- auth events, then exactly one close event, with the greeting's token and that reason.
pub handle_connection_closes :
    (h : Host) (ctx : WorkerCtx) (conn_id : ℕ) (tcp : Socket) (addr : SocketAddr) (is_tls : Bool)
    → ctx.has_sink ≡ true
    → left tcp.wire < h.rounds
    → left tcp.wire < h.fuel
    → Advances h.fuel tcp.wire.ticks
    → (end : Bytes) × ((handle_connection h ctx conn_id tcp addr is_tls).0.end ≡ some end)
      × IsEnd (handle_connection h ctx conn_id tcp addr is_tls).0.greeting end
      × ((handle_connection h ctx conn_id tcp addr is_tls).1
          ≡ trail h ctx conn_id tcp addr is_tls
              (handle_connection h ctx conn_id tcp addr is_tls).0
              end)
unfolding handle_connection left
handle_connection_closes h ctx conn_id tcp addr is_tls sink rounds fuel clock =
    let w = tcp.wire in
    let tcp' : Socket = record tcp { wire = record w { tick = w.tick + 1 } } in
    let (end, i, reason) =
      session-HasEnd h ctx is_tls tcp' (record { rounds = rounds; fuel = fuel; clock = clock }) in
    (end, i, reason, events-trail h ctx conn_id tcp addr is_tls _ end sink i)
