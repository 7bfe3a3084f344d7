-- ===== src/Commands/Upload.antt =====
-- What PUT and PUTNORESULT of src/protocol/commands.rs take from a raw stream.
use open_rmbt_server.Common.{
  ℕ, zero, suc, ◌+◌, ◌-◌, ◌%◌, ◌^◌, ◌≤◌, ◌<◌, ◌≡◌, refl, sym, ap, ◌∙◌, subst, ◌≢◌, Bool, true,
  false, Option, none, some, ◌++◌, arith, ◌==◌, if◌then◌else◌, ==_iff, length, get_elem?, drop,
}
use open_rmbt_server.Text.{Bytes, codes, show}
use open_rmbt_server.Io.{StreamKind, raw, websocket, Outcome, ok, err, panic, stuck, Wire}
use open_rmbt_server.Io
use open_rmbt_server.Stats.{add_upload}
use open_rmbt_server.Stream.Defs.{read_exact, write_line}
use open_rmbt_server.Commands.Defs.{
  Session, Cmd, ◌>>=◌, ◌>>◌, pure, on, gets, update_stats, some_or_panic, elapsed, report, receive,
  put_all,
}
use open_rmbt_server.Commands.Quiet.{Quiet-trans, >>=-ok, write-Quiet, now-Quiet, report-Quiet}
use open_rmbt_server.Commands.Blocks.{
  get_elem?-take, ok-injective, read_exact-Block, some_or_panic-ok,
}

-- An upload in chunks of `cs` bytes: it ends with the first chunk whose last byte is 0xFF. The
-- indices are what there is to read, the number of bytes of the upload, and what is behind it.
pub data Upload (cs : ℕ) : Bytes → ℕ → Bytes → Type 0 where
  final :
      {input : Bytes}
      → cs ≤ length input
      → get_elem? input (cs - 1) ≡ some 255
      → Upload cs input cs (drop cs input)
  chunk :
      {input rest : Bytes} {b n : ℕ}
      → cs ≤ length input
      → get_elem? input (cs - 1) ≡ some b
      → b ≢ 255
      → Upload cs (drop cs input) n rest
      → Upload cs input (cs + n) rest

-- What the loop owes from a state when it returns `result`.
record Received (s : Session) (total : ℕ) (t : Session) (result : ℕ) : Type 0 where
  pub size : ℕ
  pub upload : Upload s.chunk_size s.wire.input size t.wire.input
  pub counted : result ≡ (total + size) % 2 ^ 64
  pub stats : t.stats ≡ s.stats

move-Upload : {c d n : ℕ} {l m r : Bytes} → c ≡ d → l ≡ m → Upload c l n r → Upload d m n r
move-Upload {c} {d} {n} {l} {m} {r} e f u =
    subst (λ k. Upload k m n r) e (subst (λ k. Upload c k n r) f u)

-- One round, up to the branch on the last byte.
record Round (s t : Session) (b : ℕ) : Type 0 where
  pub enough : s.chunk_size ≤ length s.wire.input
  pub last : get_elem? s.wire.input (s.chunk_size - 1) ≡ some b
  pub input : t.wire.input ≡ drop s.chunk_size s.wire.input
  pub kind : t.wire.kind ≡ raw
  pub chunk_size : t.chunk_size ≡ s.chunk_size
  pub stats : t.stats ≡ s.stats

Round-Received :
    (fuel : ℕ) (send_intermediate : Bool) (start total : ℕ) (last : Option ℕ) (s t : Session)
    (b : ℕ) (terminal : Bool) (result : ℕ)
    → (b == 0xff) ≡ terminal
    → Round s t b
    → ((total' : ℕ)
        → (receive fuel send_intermediate start total' last t).0 ≡ ok result
        → Received t total' (receive fuel send_intermediate start total' last t).1 result)
    → (let total' = (total + s.chunk_size) % 2 ^ 64 in
        (if terminal then pure total' else receive fuel send_intermediate start total' last) t).0
      ≡ ok result
    → Received s total
        (let total' = (total + s.chunk_size) % 2 ^ 64 in
          (if terminal then pure total' else receive fuel send_intermediate start total' last) t).1
        result
unfolding pure
Round-Received fuel si start total last s t b true result e r ih h = record {
  size = s.chunk_size;
  upload =
      subst (Upload s.chunk_size s.wire.input s.chunk_size) (sym r.input)
        (final r.enough (r.last ∙ ap some ((==_iff b 0xff).0 e)));
  counted = sym (ok-injective h);
  stats = r.stats;
}
Round-Received fuel si start total last s t b false result e r ih h =
    let i = ih _ h in
    record {
      size = s.chunk_size + i.size;
      upload = chunk r.enough r.last not_last (move-Upload r.chunk_size r.input i.upload);
      counted = omega (arith, i.counted);
      stats = i.stats ∙ r.stats;
    }
  where
    not_last : b ≢ 255
    not_last f = absurd (cc (e, (==_iff b 0xff).1 f))

-- The body of the loop, for a chunk size.
abbrev pub round : ℕ → ℕ → Bool → ℕ → ℕ → Option ℕ → Cmd ℕ
round cs fuel send_intermediate start total last = do
  buf ← on (read_exact cs)
  let total' = (total + cs) % 2 ^ 64
  last_byte ← some_or_panic (get_elem? buf (cs - 1))
  last' ← report send_intermediate start total' last
  if last_byte == 0xff then pure total' else receive fuel send_intermediate start total' last'

pub receive-round :
    (fuel : ℕ) (send_intermediate : Bool) (start total : ℕ) (last : Option ℕ) (s : Session)
    → receive (suc fuel) send_intermediate start total last s
      ≡ round s.chunk_size fuel send_intermediate start total last s
unfolding receive ◌>>=◌ gets
receive-round fuel send_intermediate start total last s = refl

on_read :
    (n : ℕ) (s : Session) → (on (read_exact n) s).1 ≡ record s { wire = (read_exact n s.wire).1 }
unfolding on
on_read n s = refl

on_ok : {A : Type 0} (m : Io.Io A) (s : Session) (r : Outcome A) → (on m s).0 ≡ r → (m s.wire).0 ≡ r
unfolding on
on_ok m s r h = h

module _ (fuel : ℕ) (send_intermediate : Bool) (start result : ℕ) where
  -- What the rest of the loop owes.
  abbrev Rest : Type 0
  Rest =
      (total : ℕ) (last : Option ℕ) (s : Session)
      → s.wire.kind ≡ raw
      → 0 < s.chunk_size
      → (receive fuel send_intermediate start total last s).0 ≡ ok result
      → Received s total (receive fuel send_intermediate start total last s).1 result

  round_step :
      Rest
      → (total : ℕ) (last : Option ℕ) (s : Session) → s.wire.kind ≡ raw
      → 0 < s.chunk_size
      → (round s.chunk_size fuel send_intermediate start total last s).0 ≡ ok result
      → Received s total (round s.chunk_size fuel send_intermediate start total last s).1 result
  round_step rest total last s k p g =
      let a = >>=-ok _ _ s result g in
      let b = >>=-ok _ _ _ result a.second in
      let c = >>=-ok _ _ _ result b.second in
      let block = read_exact-Block s.chunk_size s.wire a.value k (on_ok _ s _ a.first) in
      let (byte, same) = some_or_panic-ok _ _ b.value b.first in
      let before = same ∙ on_read s.chunk_size s ∙ ap (λ w. record s { wire = w }) block.wire in
      let in_block =
        sym (get_elem?-take s.chunk_size (s.chunk_size - 1) s.wire.input (omega (arith, p))) in
      let quiet = report-Quiet send_intermediate start _ last _ in
      let r : Round s _ b.value = record {
        enough = block.enough;
        last = in_block ∙ ap (λ l. get_elem? l (s.chunk_size - 1)) (sym block.bytes) ∙ byte;
        input = quiet.input ∙ ap (λ t. t.wire.input) before;
        kind = quiet.kind ∙ ap (λ t. t.wire.kind) before ∙ k;
        chunk_size = quiet.chunk_size ∙ ap (λ t. t.chunk_size) before;
        stats = quiet.stats ∙ ap (λ t. t.stats) before;
      } in
      subst (λ t. Received s total t result) (sym (a.state ∙ b.state ∙ c.state))
        (Round-Received fuel send_intermediate start total c.value s _ b.value _ result refl r
          (λ total' i. rest total' c.value _ r.kind (rw r.chunk_size p) i) c.second)

pub no_fuel :
    (si : Bool) (start result total : ℕ) (last : Option ℕ) (s : Session)
    → (receive zero si start total last s).0 ≡ ok result
    → ⊥
unfolding receive open_rmbt_server.Commands.Defs.out_of_fuel
no_fuel si start result total last s h = cc h

receive-Received :
    (fuel : ℕ) (send_intermediate : Bool) (start result : ℕ)
    → Rest fuel send_intermediate start result
receive-Received zero si start result total last s k p h =
    absurd (no_fuel si start result total last s h)
receive-Received (suc fuel) si start result total last s k p h =
    subst (λ x. Received s total x.1 result) (sym (receive-round fuel si start total last s))
      (round_step fuel si start result (receive-Received fuel si start result) total last s k p
        (subst (λ x. x.0 ≡ ok result) (receive-round fuel si start total last s) h))

-- What follows the loop.
abbrev pub settle_upload : ℕ → ℕ → Cmd (Unit {0})
settle_upload start total_bytes = do
  total_ns ← elapsed start
  update_stats (add_upload total_bytes total_ns)
  on (write_line (codes "TIME " ++ (show total_ns ++ codes "\n")))

record Settled (s t : Session) (total_bytes : ℕ) : Type 0 where
  pub input : t.wire.input ≡ s.wire.input
  pub stats : (total_ns : ℕ) × (t.stats ≡ add_upload total_bytes total_ns s.stats)

settle_upload-Settled :
    (start total_bytes : ℕ) (s : Session)
    → Settled s (settle_upload start total_bytes s).1 total_bytes
unfolding ◌>>=◌ elapsed update_stats
settle_upload-Settled start total_bytes s =
    let ns = s.wire.ticks s.wire.tick - start in
    let q = write-Quiet (codes "TIME " ++ (show ns ++ codes "\n")) (record s {
      wire = record (s.wire) { tick = s.wire.tick + 1 };
      stats = add_upload total_bytes ns s.stats;
    }) in
    record { input = q.input; stats = (ns, q.stats) }

-- What an upload has done when it succeeds.
pub record Uploaded (s t : Session) : Type 0 where
  pub size : ℕ
  pub upload : Upload s.chunk_size s.wire.input size t.wire.input
  pub total_bytes : ℕ
  pub counted : total_bytes ≡ size % 2 ^ 64
  pub total_ns : ℕ
  pub stats : t.stats ≡ add_upload total_bytes total_ns s.stats

from_zero : (m n : ℕ) → m ≡ (0 + n) % 2 ^ 64 → m ≡ n % 2 ^ 64
from_zero m n e = omega (arith, e)

-- PUT and PUTNORESULT on a raw stream, when they succeed, have taken from the client exactly the
-- chunks up to the first one whose last byte is 0xFF, have left what is behind it unread, and have
-- added the number of bytes taken (modulo 2^64) and a time to the upload statistics, and nothing
-- else to the statistics.
pub put_all_uploads :
    (fuel : ℕ) (send_intermediate : Bool) (s : Session)
    → s.wire.kind ≡ raw
    → 0 < s.chunk_size
    → (put_all fuel send_intermediate s).0 ≡ ok tt
    → Uploaded s (put_all fuel send_intermediate s).1
unfolding put_all
put_all_uploads fuel si s k p h =
    let a = >>=-ok _ _ s tt h in
    let b = >>=-ok _ _ _ tt a.second in
    let c = >>=-ok _ _ _ tt b.second in
    let quiet = Quiet-trans s _ _ (write-Quiet (codes "OK\n") s) (now-Quiet _) in
    let r =
      receive-Received fuel si b.value c.value 0 none _ (quiet.kind ∙ k) (rw quiet.chunk_size p)
        c.first in
    let settled = settle_upload-Settled b.value c.value (receive fuel si b.value 0 none _).1 in
    subst (Uploaded s) (sym (a.state ∙ b.state ∙ c.state)) (record {
      size = r.size;
      upload =
          subst (Upload s.chunk_size s.wire.input r.size) (sym settled.input)
            (move-Upload quiet.chunk_size quiet.input r.upload);
      total_bytes = c.value;
      counted = from_zero c.value r.size r.counted;
      total_ns = settled.stats.0;
      stats = settled.stats.1 ∙ ap (add_upload c.value settled.stats.0) (r.stats ∙ quiet.stats);
    })
