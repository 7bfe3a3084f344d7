-- ===== src/Server/Session.antt =====
-- `handle_connection` of src/server/mod.rs: one session from the accepted socket to its close
-- event. The log lines are not modelled.
use open_rmbt_server.Common.{
  ℕ, ◌+◌, ◌-◌, Bool, not, ◌&&◌, Option, none, some, List, [], ◌∷◌, ◌++◌, map, if◌then◌else◌,
}
use open_rmbt_server.Text.{Bytes, codes}
use open_rmbt_server.Address.{SocketAddr}
use open_rmbt_server.Config.Defs.{Config, SecretKey}
use open_rmbt_server.Io.{Outcome, ok, err, panic, stuck, Wire}
use open_rmbt_server.Token.Defs.{Clock}
use open_rmbt_server.Stats.{ConnStats, new_stats}
use open_rmbt_server.Upgrade.Defs.{Upgrade, Env, detect_and_upgrade}
use open_rmbt_server.Greeting.Defs.{Greeting, AuthEvent, State, run_greeting}
use open_rmbt_server.Commands.Defs.{run_commands}
use open_rmbt_server.Server.Defs.{is_client_disconnect, end_reason, anonymise_addr}

-- The calls of the sink, with their arguments.
pub data Event : Type 0 where
  connect : ℕ → Bytes → Bool → Event
  auth : ℕ → Bytes → AuthEvent → Event
  close : ℕ → Bytes → Bytes → Bytes → Bool → ℕ → ConnStats → Bytes → Event

-- `WorkerCtx`, of which only the presence of the TLS configuration and of the sink counts.
pub record WorkerCtx : Type 0 where
  pub config : Config
  pub keys : List SecretKey
  pub has_tls : Bool
  pub has_sink : Bool

-- The socket: the bytes on it, and whether the calls that set it up succeed.
pub record Socket : Type 0 where
  pub wire : Wire
  pub takes_timeout : Bool
  pub starts_tls : Bool

-- What the session runs in: the build and the crates, RANDOM_CHUNK, the wall clock for /ip and for
-- the greeting, and the fuel of the loops.
pub record Host : Type 0 where
  pub env : Env
  pub random : ℕ → ℕ
  pub unix_now : ℕ
  pub clock : Clock
  pub rounds : ℕ
  pub fuel : ℕ

-- What the block leaves: its value (`none` if the thread panicked, or the fuel ran out), and what
-- it set.
pub record Ended : Type 0 where
  pub end : Option Bytes
  pub greeting : Option Greeting
  pub stats : ConnStats
  pub auths : List AuthEvent
  pub wire : Wire

-- An end before the greeting succeeded.
abbrev pub break_with : Option Bytes → List AuthEvent → Wire → Ended
break_with end auths wire = record {
  end = end;
  greeting = none;
  stats = new_stats;
  auths = auths;
  wire = wire;
}

module _ (h : Host) where
  -- The command loop, behind a greeting.
  unfoldable pub serve : Greeting → State → Ended
  serve g s =
      let (r, session) = run_commands h.rounds h.fuel h.random new_stats s.wire in
      record {
        end = end_reason r;
        greeting = some g;
        stats = session.stats;
        auths = s.events;
        wire = session.wire;
      }

  unfoldable pub after_greeting : Outcome Greeting × State → Ended
  after_greeting (ok g, s) = serve g s
  after_greeting (err e, s) = break_with (some (codes "auth_failed")) s.events s.wire
  after_greeting (panic, s) = break_with none s.events s.wire
  after_greeting (stuck, s) = break_with none s.events s.wire

  module _ (ctx : WorkerCtx) where
    unfoldable pub greet : Wire → Ended
    greet w = after_greeting (
        run_greeting h.env.crypto h.env.version h.fuel ctx.config ctx.keys ctx.has_sink h.clock
          (record { wire = w; events = []; slept = 0 }))

    unfoldable pub after_upgrade : Outcome Upgrade × Wire → Ended
    after_upgrade (ok Upgrade.rmbt, w) = greet w
    after_upgrade (ok (Upgrade.ip_check summary), w) = break_with (some (codes "ip_check")) [] w
    after_upgrade (ok (Upgrade.version summary), w) = break_with (some (codes "version")) [] w
    after_upgrade (err e, w) =
        break_with
          (some
            (if is_client_disconnect e then codes "upgrade_disconnect" else codes "upgrade_failed"))
          [] w
    after_upgrade (panic, w) = break_with none [] w
    after_upgrade (stuck, w) = break_with none [] w

    unfoldable pub upgrade : Bool → Wire → Ended
    upgrade is_tls w =
        after_upgrade
          (detect_and_upgrade h.env is_tls (is_tls && ctx.config.hsts) ctx.keys h.unix_now w)

    -- The labelled block.
    unfoldable pub session : Bool → Socket → Ended
    session is_tls tcp =
        if not tcp.takes_timeout
        then break_with (some (codes "timeout_setup_failed")) [] tcp.wire
        else if is_tls && not ctx.has_tls
        then break_with (some (codes "no_tls_worker")) [] tcp.wire
        else if is_tls && not tcp.starts_tls
        then break_with (some (codes "tls_failed")) [] tcp.wire
        else upgrade is_tls tcp.wire

    abbrev pub client : SocketAddr → Bytes
    client addr =
        if ctx.config.log_full_ip then h.env.parsers.show_ip addr.ip else anonymise_addr addr.ip

    -- The arguments of `close` that come from the greeting.
    abbrev pub close_event : ℕ → Bool → ℕ → Ended → Option Greeting → Bytes → Event
    close_event conn_id is_tls ns e none end = Event.close conn_id [] [] [] is_tls ns e.stats end
    close_event conn_id is_tls ns e (some g) end =
        Event.close conn_id g.uuid g.token_type g.label is_tls ns e.stats end

    abbrev pub closing : ℕ → Bool → ℕ → Ended → Option Bytes → List Event
    closing conn_id is_tls ns e none = []
    closing conn_id is_tls ns e (some end) = close_event conn_id is_tls ns e e.greeting end ∷ []

    -- The events in order; `start` is read before the session, and `elapsed` after it.
    unfoldable pub events : ℕ → SocketAddr → Bool → ℕ → Ended → List Event
    events conn_id addr is_tls start e =
        if ctx.has_sink
        then connect conn_id (client addr) is_tls ∷ map (auth conn_id (client addr)) e.auths
          ++ closing conn_id is_tls (e.wire.ticks e.wire.tick - start) e e.end
        else []

    unfoldable pub handle_connection : ℕ → Socket → SocketAddr → Bool → Ended × List Event
    handle_connection conn_id tcp addr is_tls =
        let w = tcp.wire in
        let e = session is_tls (record tcp { wire = record w { tick = w.tick + 1 } }) in
        (e, events conn_id addr is_tls (w.ticks w.tick) e)
