-- ===== src/Server/Verified.antt =====
-- Whom a session of src/server/mod.rs serves.
use open_rmbt_server.Common.{
  ℕ, ◌≡◌, refl, ◌∙◌, ◌⊎◌, inl, inr, Bool, true, false, not, ◌&&◌, Option, none, some, if◌then◌else◌,
}
use open_rmbt_server.Text.{Bytes}
use open_rmbt_server.Address.{SocketAddr}
use open_rmbt_server.Io.{Outcome, ok, err, panic, stuck, Wire}
use open_rmbt_server.Stats.{new_stats}
use open_rmbt_server.Token.Defs.{accepted, validate_token}
use open_rmbt_server.Upgrade.Defs.{Upgrade}
use open_rmbt_server.Upgrade.Tame.{detect_and_upgrade-Tame}
use open_rmbt_server.Greeting.Defs.{Greeting, State, uuid_of, token_type_of}
use open_rmbt_server.Greeting.Auth.{ip_of, run_greeting_authenticated}
use open_rmbt_server.Server.Session.{
  WorkerCtx, Socket, Host, Ended, serve, after_greeting, greet, after_upgrade, upgrade, session,
  handle_connection,
}

module _ (h : Host) (ctx : WorkerCtx) (p : Option SocketAddr) where
  -- The greeting is that of a token which `validate_token` accepted for the peer.
  abbrev pub IsAccepted : Greeting → Type 0
  IsAccepted g =
      (token_value : Bytes) × (sleep_secs : ℕ) × (validate_token h.env.crypto token_value ctx.keys
          (ip_of p) ctx.config.v2_only h.clock
        ≡ accepted sleep_secs g.label)
      × (g.uuid ≡ uuid_of token_value)
      × (g.token_type ≡ token_type_of token_value)

  -- Nothing was served, or a client with an accepted token was.
  abbrev pub Verified : Ended → Type 0
  Verified e =
      ((e.greeting ≡ none) × (e.stats ≡ new_stats))
      ⊎ ((g : Greeting) × (e.greeting ≡ some g) × IsAccepted g)

  after_greeting-Verified :
      (x : Outcome Greeting × State)
      → ((g : Greeting) → x.0 ≡ ok g → IsAccepted g)
      → Verified (after_greeting h x)
  unfolding after_greeting serve
  after_greeting-Verified (ok g, s) k = inr (g, refl, k g refl)
  after_greeting-Verified (err e, s) k = inl (refl, refl)
  after_greeting-Verified (panic, s) k = inl (refl, refl)
  after_greeting-Verified (stuck, s) k = inl (refl, refl)

  greet-Verified :
      (w : Wire) → w.peer ≡ p → ctx.config.check_token ≡ true → Verified (greet h ctx w)
  unfolding greet
  greet-Verified w i checked = after_greeting-Verified _ λ g e. rw⁻¹ i (
      run_greeting_authenticated h.env.crypto h.env.version h.fuel ctx.config ctx.keys ctx.has_sink
        h.clock _ g checked e)

  after_upgrade-Verified :
      (r : Outcome Upgrade) (w : Wire)
      → w.peer ≡ p
      → ctx.config.check_token ≡ true
      → Verified (after_upgrade h ctx (r, w))
  unfolding after_upgrade
  after_upgrade-Verified (ok Upgrade.rmbt) w i checked = greet-Verified w i checked
  after_upgrade-Verified (ok (Upgrade.ip_check s)) w i checked = inl (refl, refl)
  after_upgrade-Verified (ok (Upgrade.version s)) w i checked = inl (refl, refl)
  after_upgrade-Verified (err e) w i checked = inl (refl, refl)
  after_upgrade-Verified panic w i checked = inl (refl, refl)
  after_upgrade-Verified stuck w i checked = inl (refl, refl)

  if-Verified : (b : Bool) (e f : Ended) → Verified e → Verified f → Verified (if b then e else f)
  if-Verified true e f i j = i
  if-Verified false e f i j = j

  session-Verified :
      (is_tls : Bool) (tcp : Socket)
      → tcp.wire.peer ≡ p
      → ctx.config.check_token ≡ true
      → Verified (session h ctx is_tls tcp)
  unfolding session upgrade
  session-Verified is_tls tcp i checked =
      if-Verified (not tcp.takes_timeout) _ _ (inl (refl, refl)) (
        if-Verified (is_tls && not ctx.has_tls) _ _ (inl (refl, refl)) (
          if-Verified (is_tls && not tcp.starts_tls) _ _ (inl (refl, refl)) (
            after_upgrade-Verified _ _
              (((detect_and_upgrade-Tame h.env is_tls _ ctx.keys h.unix_now).run tcp.wire).peer ∙ i)
              checked)))

-- With token checking on, a session in which a greeting succeeded had a token that `validate_token`
-- accepts for the IP address of the peer, with its uuid, type and label; in any other session no
-- command was counted, and no byte and no ping measured.
pub handle_connection-Verified :
    (h : Host) (ctx : WorkerCtx) (conn_id : ℕ) (tcp : Socket) (addr : SocketAddr) (is_tls : Bool)
    → ctx.config.check_token ≡ true
    → Verified h ctx tcp.wire.peer (handle_connection h ctx conn_id tcp addr is_tls).0
unfolding handle_connection
handle_connection-Verified h ctx conn_id tcp addr is_tls checked =
    session-Verified h ctx tcp.wire.peer is_tls _ refl checked
