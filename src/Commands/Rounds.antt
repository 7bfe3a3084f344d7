-- ===== src/Commands/Rounds.antt =====
-- The loop of PUT and PUTNORESULT of src/protocol/commands.rs, with the reports it writes.
use open_rmbt_server.Common.{
  ℕ, zero, suc, ◌+◌, ◌-◌, ◌*◌, ◌%◌, ◌^◌, ◌<◌, ◌≡◌, refl, sym, ap, ◌∙◌, subst, Bool, true, false,
  Option, List, [], ◌++◌, append-nil, arith, ◌==◌, if◌then◌else◌,
}
use open_rmbt_server.Io.{StreamKind, raw, websocket, ok}
use open_rmbt_server.Stream.Defs.{read_exact_as, read_exact}
use open_rmbt_server.Commands.Defs.{Session, Cmd, pure, on, receive}
use open_rmbt_server.Commands.Quiet.{>>=-ok}
use open_rmbt_server.Commands.Blocks.{ok-injective, some_or_panic-ok}
use open_rmbt_server.Commands.Upload.{round, receive-round, no_fuel}
use open_rmbt_server.Commands.Chunks.{Wrote, Wrote-trans}
use open_rmbt_server.Commands.Reports.{finished, Reporting, report_messages, report_messages-append}
use open_rmbt_server.Commands.Told.{readings, Passed, Told, Told-behind, report-Told}

-- The readings of the clock to come are those of `clock` from the `i`-th on.
pub record Shows (clock : ℕ → ℕ) (start i : ℕ) (s : Session) : Type 0 where
  pub at : (k : ℕ) → s.wire.ticks (s.wire.tick + k) - start ≡ clock (i + k)

Passed-Shows :
    (clock : ℕ → ℕ) (start i j k : ℕ) (s t : Session)
    → i + k ≡ j
    → Passed k s t
    → Shows clock start i s
    → Shows clock start j t
Passed-Shows clock start i j k s t e p h = record {
  at = λ m.
      ap (λ f. f (t.wire.tick + m) - start) p.ticks
      ∙ ap (λ n. s.wire.ticks n - start) (omega (arith, p.tick))
      ∙ h.at (k + m)
      ∙ ap clock (omega (arith, e));
}

-- What the loop owes, from the chunk after the `j`-th one on.
pub record Rounds (send_intermediate : Bool) (clock : ℕ → ℕ) (start cs : ℕ) (last : Option ℕ)
    (j : ℕ) (s t : Session) (result : ℕ) : Type 0 where
  pub n : ℕ
  pub lines : List (ℕ × ℕ)
  pub more : j < n
  pub counted : result ≡ (n * cs) % 2 ^ 64
  pub reports : Reporting send_intermediate clock cs last j n lines
  pub wrote : Wrote s t (report_messages s.wire.kind lines)
  pub shown : Shows clock start (readings send_intermediate n) t

no_more :
    (si : Bool) (clock : ℕ → ℕ) (cs : ℕ) (last : Option ℕ) (n : ℕ)
    → Reporting si clock cs last n n []
no_more true clock cs last n = finished
no_more false clock cs last n = refl

-- The branch on the last byte of a chunk.
abbrev next_round : ℕ → Bool → ℕ → ℕ → Option ℕ → Bool → Cmd ℕ
next_round fuel si start total last terminal =
    if terminal then pure total else receive fuel si start total last

next_reading : (si : Bool) (j : ℕ) → readings si j + readings si 1 ≡ readings si (suc j)
next_reading true j = omega arith
next_reading false j = refl

module _ (fuel : ℕ) (si : Bool) (clock : ℕ → ℕ) (start result cs : ℕ) where
  -- What the rest of the loop owes.
  abbrev pub Rest : Type 0
  Rest =
      (j total : ℕ) (last : Option ℕ) (s : Session)
      → s.chunk_size ≡ cs
      → total ≡ (j * cs) % 2 ^ 64
      → Shows clock start (readings si j) s
      → (receive fuel si start total last s).0 ≡ ok result
      → Rounds si clock start cs last j s (receive fuel si start total last s).1 result

  this_reading :
      (j : ℕ) (s : Session)
      → Shows clock start (readings si j) s
      → si ≡ true
      → s.wire.ticks s.wire.tick - start ≡ clock j
  this_reading j s z e =
      ap (λ n. s.wire.ticks n - start) (omega arith)
      ∙ z.at 0
      ∙ ap (λ b. clock (readings b j + 0)) e
      ∙ ap clock (omega arith)

  shown_next :
      (j : ℕ) (s t : Session)
      → Shows clock start (readings si j) s
      → Passed (readings si 1) s t
      → Shows clock start (readings si (suc j)) t
  shown_next j s t z p =
      Passed-Shows clock start (readings si j) (readings si (suc j)) (readings si 1) s t
        (next_reading si j) p z

  next_round-Rounds :
      Rest
      → (j total : ℕ) (last last' : Option ℕ) (s t : Session) (terminal : Bool) → s.chunk_size ≡ cs
      → total ≡ (suc j * cs) % 2 ^ 64
      → Shows clock start (readings si j) s
      → Told si (s.wire.ticks s.wire.tick - start) last total last' s t
      → (next_round fuel si start total last' terminal t).0 ≡ ok result
      → Rounds si clock start cs last j s (next_round fuel si start total last' terminal t).1 result
  unfolding pure
  next_round-Rounds rest j total last last' s t true e c z r h = record {
    n = suc j;
    lines = r.lines ++ [];
    more = omega arith;
    counted = sym (ok-injective h) ∙ c;
    reports =
        r.before clock cs j (suc j) [] (this_reading j s z) c (no_more si clock cs last' (suc j));
    wrote =
        subst (λ l. Wrote s t (report_messages s.wire.kind l)) (sym (append-nil r.lines)) r.wrote;
    shown = shown_next j s t z r.passed;
  }
  next_round-Rounds rest j total last last' s t false e c z r h =
      let i =
        rest (suc j) total last' t (r.wrote.chunk_size ∙ e) c (shown_next j s t z r.passed) h in
      let u = (receive fuel si start total last' t).1 in
      record {
        n = i.n;
        lines = r.lines ++ i.lines;
        more = omega (arith, i.more);
        counted = i.counted;
        reports = r.before clock cs j i.n i.lines (this_reading j s z) c i.reports;
        wrote = subst (Wrote s u) (sym (report_messages-append s.wire.kind r.lines i.lines)) (
            Wrote-trans s t u _ _ r.wrote
              (subst (λ k. Wrote t u (report_messages k i.lines)) r.wrote.kind i.wrote));
        shown = i.shown;
      }

next_total :
    (j total cs : ℕ) → total ≡ (j * cs) % 2 ^ 64 → (total + cs) % 2 ^ 64 ≡ (suc j * cs) % 2 ^ 64
next_total j total cs e = ap (λ k. (k + cs) % 2 ^ 64) e ∙ wrap (j * cs) ∙ ap (λ k. k % 2 ^ 64) step
  where
    wrap : (k : ℕ) → (k % 2 ^ 64 + cs) % 2 ^ 64 ≡ (k + cs) % 2 ^ 64
    wrap k = omega arith

    step : j * cs + cs ≡ suc j * cs
    step = omega arith

read_exact_as-Wrote :
    (k : StreamKind) (n : ℕ) (s : Session)
    → Wrote s (record s { wire = (read_exact_as k n s.wire).1 }) []
unfolding read_exact_as
read_exact_as-Wrote raw n s = record {
  sent = ground arith ∙ sym (append-nil s.wire.sent);
  kind = ground arith;
  chunk_size = refl;
  stats = refl;
}
read_exact_as-Wrote websocket n s = record {
  sent = sym (append-nil s.wire.sent);
  kind = refl;
  chunk_size = refl;
  stats = refl;
}

read_exact_as-Passed :
    (k : StreamKind) (n : ℕ) (s : Session)
    → Passed 0 s (record s { wire = (read_exact_as k n s.wire).1 })
unfolding read_exact_as
read_exact_as-Passed raw n s = record { ticks = ground arith; tick = ground arith }
read_exact_as-Passed websocket n s = record { ticks = refl; tick = omega arith }

read_exact-Passed : (n : ℕ) (s : Session) → Passed 0 s (on (read_exact n) s).1
unfolding on read_exact
read_exact-Passed n s = read_exact_as-Passed s.wire.kind n s

read_exact-Wrote : (n : ℕ) (s : Session) → Wrote s (on (read_exact n) s).1 []
unfolding on read_exact
read_exact-Wrote n s = read_exact_as-Wrote s.wire.kind n s

round-Rounds :
    (fuel : ℕ) (si : Bool) (clock : ℕ → ℕ) (start result cs : ℕ)
    → Rest fuel si clock start result cs
    → (j total : ℕ) (last : Option ℕ) (s : Session) → s.chunk_size ≡ cs
    → total ≡ (j * cs) % 2 ^ 64
    → Shows clock start (readings si j) s
    → (round cs fuel si start total last s).0 ≡ ok result
    → Rounds si clock start cs last j s (round cs fuel si start total last s).1 result
round-Rounds fuel si clock start result cs rest j total last s e c z h =
    let a = >>=-ok _ _ s result h in
    let b = >>=-ok _ _ _ result a.second in
    let d = >>=-ok _ _ _ result b.second in
    let (byte, same) = some_or_panic-ok _ _ b.value b.first in
    let r = report-Told si start _ last d.value _ d.first in
    let whole =
      Told-behind si start last _ d.value s _ _ _ (read_exact-Wrote cs s) (read_exact-Passed cs s)
        same r in
    subst (λ u. Rounds si clock start cs last j s u result) (sym (a.state ∙ b.state ∙ d.state))
      (next_round-Rounds fuel si clock start result cs rest j _ last d.value s _ (b.value == 0xff) e
        (next_total j total cs c) z whole d.second)

pub receive-Rounds :
    (fuel : ℕ) (si : Bool) (clock : ℕ → ℕ) (start result cs : ℕ)
    → Rest fuel si clock start result cs
receive-Rounds zero si clock start result cs j total last s e c z h =
    absurd (no_fuel si start result total last s h)
receive-Rounds (suc fuel) si clock start result cs j total last s e c z h =
    let same =
      receive-round fuel si start total last s ∙ ap (λ n. round n fuel si start total last s) e in
    subst (λ x. Rounds si clock start cs last j s x.1 result) (sym same)
      (round-Rounds fuel si clock start result cs (receive-Rounds fuel si clock start result cs) j
        total last s e c z (subst (λ x. x.0 ≡ ok result) same h))
