-- ===== src/Upgrade/Route.antt =====
-- Which requests become an RMBT stream in src/stream/websocket_upgrade.rs, and what is answered.
use open_rmbt_server.Common.{
  ℕ, ◌≡◌, refl, ap, ◌∙◌, ◌≢◌, ◌⊎◌, inl, inr, Bool, true, false, Option, none, some, List, [], ◌∷◌,
  ◌++◌, arith, Bool-cases,
}
use open_rmbt_server.Text.{Bytes, codes, starts_with, contains, to_ascii_lowercase, lines}
use open_rmbt_server.Config.Defs.{SecretKey}
use open_rmbt_server.Io.{
  ErrorKind, raw, websocket, StreamKind, raw_bytes, ok, Io, Wire, ◌>>=◌, ◌>>◌, fail,
}
use open_rmbt_server.Io.Laws.{>>=-ok, put-sent}
use open_rmbt_server.Http.Defs.{target_of, send, flush}
use open_rmbt_server.IpCheck.Defs as IpEndpoint
use open_rmbt_server.Version.Defs as VersionEndpoint
use open_rmbt_server.Upgrade.Defs.{
  Upgrade, Env, ws_guid, become, websocket_key, websocket_response, rmbt_response, refuse,
  accept_key, websocket_handshake, upgrade_rmbt, ip_request, version_request, route,
}

flush-sent : (w : Wire) → (flush w).1.sent ≡ w.sent
unfolding flush
flush-sent w = ground arith

send-sent :
    (b : Bytes) (w : Wire) {u : Unit {0}}
    → (send b w).0 ≡ ok u
    → (send b w).1.sent ≡ w.sent ++ raw_bytes b ∷ []
unfolding send
send-sent b w h = put-sent (raw_bytes b) w h

abbrev Became : StreamKind → Bytes → Wire → Wire → Type 0
Became kind text w w' = (w'.kind ≡ kind) × (w'.sent ≡ w.sent ++ raw_bytes text ∷ [])

become-kind :
    (kind : StreamKind) (w : Wire)
    → ((become kind w).1.kind ≡ kind) × ((become kind w).1.sent ≡ w.sent)
unfolding become
become-kind kind w = (refl, refl)

not_rmbt :
    {A : Type 0} (m : Io A) (f : A → Io Upgrade) (w : Wire)
    → ((a : A) (v : Wire) → (f a v).0 ≢ ok Upgrade.rmbt)
    → ((m >>= f) w).0 ≢ ok Upgrade.rmbt
not_rmbt m f w h e = let s = >>=-ok m f w Upgrade.rmbt e in absurd (h s.value (m w).1 s.second)

fail-rmbt : (e : ErrorKind) (w : Wire) → (fail {A = Upgrade} e w).0 ≢ ok Upgrade.rmbt
fail-rmbt e w = λ h. cc h

refuse-rmbt : (text : Bytes) (w : Wire) → (refuse text w).0 ≢ ok Upgrade.rmbt
unfolding refuse
refuse-rmbt text w = not_rmbt _ _ w λ a v. not_rmbt _ _ v λ b u. fail-rmbt _ u

upgrade_rmbt-Became :
    (hsts : Bytes) (w : Wire)
    → (upgrade_rmbt hsts w).0 ≡ ok Upgrade.rmbt
    → Became raw (rmbt_response hsts) w (upgrade_rmbt hsts w).1
unfolding upgrade_rmbt
upgrade_rmbt-Became hsts w h =
    let s = >>=-ok (send (rmbt_response hsts)) (λ _. become raw) w Upgrade.rmbt h in
    let (k, t) = become-kind raw (send (rmbt_response hsts) w).1 in
    (
      ap (λ v. v.kind) s.wire ∙ k,
      ap (λ v. v.sent) s.wire ∙ t ∙ send-sent (rmbt_response hsts) w s.first,
    )

module _ (env : Env) where
  -- The answer to a WebSocket key (RFC 6455).
  abbrev pub accept_of : Bytes → Bytes
  accept_of key = env.crypto.b64_encode (env.crypto.sha1 (key ++ ws_guid))

  accept_key-Became :
      (hsts : Bytes) (o : Option Bytes) (w : Wire)
      → (accept_key env hsts o w).0 ≡ ok Upgrade.rmbt
      → (key : Bytes) × (o ≡ some key)
        × Became websocket (websocket_response (accept_of key) hsts) w (accept_key env hsts o w).1
  unfolding accept_key
  accept_key-Became hsts none w h = absurd (fail-rmbt _ w h)
  accept_key-Became hsts (some key) w h =
      let text = websocket_response (accept_of key) hsts in
      let s = >>=-ok (send text) (λ _. flush >> become websocket) w Upgrade.rmbt h in
      let v = (send text w).1 in
      let f = >>=-ok flush (λ _. become websocket) v Upgrade.rmbt s.second in
      let (k, t) = become-kind websocket (flush v).1 in
      (
        key,
        refl,
        (
          ap (λ v. v.kind) (s.wire ∙ f.wire) ∙ k,
          ap (λ v. v.sent) (s.wire ∙ f.wire) ∙ t ∙ flush-sent v ∙ send-sent text w s.first,
        ),
      )

  ip_request-rmbt :
      (req : Bytes) (is_tls : Bool) (hsts : Bytes) (keys : List SecretKey) (now : ℕ) (w : Wire)
      → (ip_request env req is_tls hsts keys now w).0 ≢ ok Upgrade.rmbt
  unfolding ip_request
  ip_request-rmbt req is_tls hsts keys now w = not_rmbt _ _ w λ s v. not_rmbt _ _ v λ a u e. cc e

  version_request-rmbt :
      (req : Bytes) (is_tls : Bool) (hsts : Bytes) (w : Wire)
      → (version_request env req is_tls hsts w).0 ≢ ok Upgrade.rmbt
  unfolding version_request
  version_request-rmbt req is_tls hsts w = not_rmbt _ _ w λ s v. not_rmbt _ _ v λ a u e. cc e

  -- Such a request asks for one of the two upgrades.
  abbrev pub Asks : Bytes → Bytes → Type 0
  Asks req header = contains (to_ascii_lowercase req) (codes "upgrade: " ++ header) ≡ true

  abbrev pub Upgraded : Bytes → Bytes → Wire → Wire → Type 0
  Upgraded req hsts w w' =
      ((key : Bytes) × Asks req (codes "websocket")
        × (websocket_key (lines req) ≡ some key)
        × (w'.kind ≡ websocket)
        × (w'.sent ≡ w.sent ++ raw_bytes (websocket_response (accept_of key) hsts) ∷ []))
      ⊎ (Asks req (codes "rmbt")
          × (w'.kind ≡ raw)
          × (w'.sent ≡ w.sent ++ raw_bytes (rmbt_response hsts) ∷ []))

  -- A request becomes an RMBT stream only if it is a GET that is not for /ip or /version and asks
  -- for an upgrade: to a WebSocket, with a key whose accept value is in the answer, or to raw RMBT.
  -- The answer is then all that was sent.
  pub route-Upgraded :
      (req : Bytes) (is_tls : Bool) (hsts : Bytes) (keys : List SecretKey) (now : ℕ) (w : Wire)
      → (route env req is_tls hsts keys now w).0 ≡ ok Upgrade.rmbt
      → (IpEndpoint.matches (target_of req) ≡ false)
        × (VersionEndpoint.matches (target_of req) ≡ false)
        × (starts_with req (codes "GET ") ≡ true)
        × Upgraded req hsts w (route env req is_tls hsts keys now w).1
  unfolding route websocket_handshake
  route-Upgraded req is_tls hsts keys now w h =
      elim (Bool-cases (IpEndpoint.matches (target_of req))) [
        | inl a ↦ absurd (ip_request-rmbt req is_tls hsts keys now w (rw a at h))
        | inr a ↦ elim (Bool-cases (VersionEndpoint.matches (target_of req))) [
          | inl b ↦ absurd (version_request-rmbt req is_tls hsts w (rw (a, b) at h))
          | inr b ↦ elim (Bool-cases (starts_with req (codes "GET "))) [
            | inr g ↦ absurd (refuse-rmbt _ w (rw (a, b, g) at h))
            | inl g ↦
                elim (Bool-cases (contains (to_ascii_lowercase req) (codes "upgrade: websocket"))) [
                  | inl x ↦ (
                    a,
                    b,
                    g,
                    rw (a, b, g, x)
                        (let (key, e, (k, s)) =
                            accept_key-Became hsts (websocket_key (lines req)) w
                              (rw (a, b, g, x) at h) in
                          inl (key, refl, e, k, s)),
                  )
                  | inr x ↦
                      elim (Bool-cases
                        (contains (to_ascii_lowercase req) (codes "upgrade: rmbt"))) [
                          | inl y ↦ (
                            a,
                            b,
                            g,
                            rw (a, b, g, x, y)
                                (let (k, s) =
                                    upgrade_rmbt-Became hsts w (rw (a, b, g, x, y) at h) in
                                  inr (refl, k, s)),
                          )
                          | inr y ↦ absurd (refuse-rmbt _ w (rw (a, b, g, x, y) at h))
                        ]
                ]
          ]
        ]
      ]
