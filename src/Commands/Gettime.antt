-- ===== src/Commands/Gettime.antt =====
-- GETTIME in src/protocol/commands.rs: what it sends and counts when it succeeds.
use open_rmbt_server.Common.{
  ℕ, some, suc, ◌+◌, ◌-◌, ◌*◌, ◌%◌, ◌^◌, ◌≤◌, ◌<◌, ◌≡◌, refl, sym, ap, ◌∙◌, subst, [], ◌∷◌, ◌++◌,
  map, arith,
}
use open_rmbt_server.Text.{Bytes}
use open_rmbt_server.Io.{ok}
use open_rmbt_server.Commands.Defs.{
  Session, ◌>>=◌, gets, elapsed, send_until, slice, random_chunk, on, update_stats, acknowledge,
  gettime_for,
}
use open_rmbt_server.Commands.Download.{random_chunk-ok, slice-last, account_step, sent_both}
use open_rmbt_server.Stats.{add_download}
use open_rmbt_server.Commands.Keeps.{InRange}
use open_rmbt_server.Commands.Quiet.{>>=-ok}
use open_rmbt_server.Commands.Chunks.{as_message, transfer}
use open_rmbt_server.Commands.Until.{Sends, ticked, send_until-Sends}

-- What GETTIME has done when it succeeds.
pub record TimedDownload (random : ℕ → ℕ) (max_ns : ℕ) (s t : Session) : Type 0 where
  pub n : ℕ
  pub reply : Bytes
  pub sent :
      t.wire.sent
      ≡ s.wire.sent
        ++ (map (as_message s.wire.kind) (transfer (slice random 0 (s.chunk_size - 1)) n)
            ++ as_message s.wire.kind reply ∷ [])
  pub early :
      (i : ℕ) → i < n → s.wire.ticks (s.wire.tick + 1 + i) - s.wire.ticks s.wire.tick < max_ns
  pub over : max_ns ≤ s.wire.ticks (s.wire.tick + 1 + n) - s.wire.ticks s.wire.tick
  pub total_bytes : ℕ
  pub counted : total_bytes ≡ (suc n * s.chunk_size) % 2 ^ 64
  pub ns : ℕ
  pub stats : t.stats ≡ add_download total_bytes ns s.stats

gettime_for_rest :
    (fuel : ℕ) (random : ℕ → ℕ) (seconds : ℕ) (s : Session)
    → gettime_for fuel random (some seconds) s ≡ (
        let start = s.wire.ticks s.wire.tick in
        (random_chunk random s.chunk_size >>= λ buf.
        send_until fuel start (seconds * 1000000000) buf 0 >>= λ total.
        elapsed start >>= λ ns. update_stats (add_download total ns) >>= λ _. acknowledge start)
          (ticked s))
unfolding gettime_for ◌>>=◌ on gets
gettime_for_rest fuel random seconds s = refl

-- GETTIME, when it succeeds, has sent chunks of the chunk size that are alike but for the last byte,
-- 0xFF in the last one and 0x00 in the others, and the last chunk is the first one before which the
-- clock showed that the seconds asked for were over since the start; then it has sent one line, and
-- nothing else; and it has added the number of those bytes (modulo 2^64) and a time to the download
-- statistics, and nothing else to the statistics.
pub gettime_for_sends :
    (fuel : ℕ) (random : ℕ → ℕ) (seconds : ℕ) (s : Session)
    → InRange s.chunk_size
    → (gettime_for fuel random (some seconds) s).0 ≡ ok tt
    → TimedDownload random (seconds * 1000000000) s (gettime_for fuel random (some seconds) s).1
gettime_for_sends fuel random seconds s p h =
    let max_ns = seconds * 1000000000 in
    let start = s.wire.ticks s.wire.tick in
    let body = slice random 0 (s.chunk_size - 1) in
    let split : slice random 0 s.chunk_size ≡ body ++ random (0 + (s.chunk_size - 1)) ∷ [] =
      ap (slice random 0) whole ∙ slice-last random 0 (s.chunk_size - 1) in
    let rest = gettime_for_rest fuel random seconds s in
    let d = >>=-ok _ _ (ticked s) tt (subst (λ x. x.0 ≡ ok tt) rest h) in
    let (chunk, same) = random_chunk-ok random s.chunk_size (ticked s) d.value d.first in
    let a = >>=-ok _ _ _ tt d.second in
    let r =
      subst
        (λ (x : Bytes × Session).
          (send_until fuel start max_ns x.0 0 x.1).0 ≡ ok a.value
          → Sends start max_ns 0 body (ticked s) (send_until fuel start max_ns x.0 0 x.1).1 a.value)
        (sym (ap (λ b. (b, ticked s)) (chunk ∙ split)) ∙ ap (λ t. (d.value, t)) (sym same))
        (send_until-Sends start max_ns body a.value fuel 0 _ (ticked s) p) a.first in
    let (ns, (stats, (line, sent))) = account_step a.value start _ a.second in
    subst (λ x. TimedDownload random max_ns s x.1) (sym rest)
      (subst (TimedDownload random max_ns s) (sym (d.state ∙ a.state)) (record {
        n = r.n;
        reply = line;
        sent = sent_both _ _ s.wire.sent _ _ _ line sent r.wrote.sent r.wrote.kind;
        early = r.early;
        over = r.over;
        total_bytes = a.value;
        counted = r.counted ∙ ap (λ k. k % 2 ^ 64) (omega arith);
        ns = ns;
        stats = stats ∙ ap (add_download a.value ns) r.wrote.stats;
      }))
  where
    whole : s.chunk_size ≡ suc (s.chunk_size - 1)
    whole = omega (arith, p)
