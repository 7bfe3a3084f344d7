-- ===== src/Commands/Told.antt =====
-- The report behind one chunk, in PUT of src/protocol/commands.rs, and its reading of the clock.
use open_rmbt_server.Common.{
  ℕ, suc, ◌+◌, ◌-◌, ◌∙◌, ◌*◌, ◌%◌, ◌^◌, ◌<◌, ◌≡◌, refl, sym, ap, subst, Bool, true, false, Option,
  none, some, List, [], ◌∷◌, ◌++◌, append-nil, arith, leb, if◌then◌else◌, leb→le,
}
use open_rmbt_server.Text.{Bytes}
use open_rmbt_server.Io
use open_rmbt_server.Io.{
  Outcome, err, panic, stuck, Wire, StreamKind, raw, websocket, Message, ErrorKind, put_with, put,
  ok,
}
use open_rmbt_server.Stream.Defs.{
  flush_with, ws_flush, message_of, put_message, write_as, write_all, write_line,
}
use open_rmbt_server.Commands.Defs.{Session, elapsed, pure, on, is_due, write_report, report}
use open_rmbt_server.Commands.Quiet.{>>=-ok}
use open_rmbt_server.Commands.Blocks.{ok-injective}
use open_rmbt_server.Commands.Download.{elapsed-Wrote}
use open_rmbt_server.Commands.Chunks.{as_message, Wrote, Wrote-trans, write-Wrote}
use open_rmbt_server.Commands.Reports.{
  report_line, IsDue, Reports, told, untold, Reporting, report_messages,
}

-- The readings of the clock behind `j` chunks.
abbrev pub readings : Bool → ℕ → ℕ
readings send_intermediate j = if send_intermediate then j else 0

-- From one session to the other the clock was read `k` times.
pub record Passed (k : ℕ) (s t : Session) : Type 0 where
  pub ticks : t.wire.ticks ≡ s.wire.ticks
  pub tick : t.wire.tick ≡ s.wire.tick + k

put_with-Passed :
    (fs : List (Option ErrorKind)) (m : Message) (s : Session)
    → Passed 0 s (record s { wire = (put_with fs m s.wire).1 })
unfolding put_with
put_with-Passed [] m s = record { ticks = refl; tick = omega arith }
put_with-Passed (none ∷ fs) m s = record { ticks = refl; tick = omega arith }
put_with-Passed (some e ∷ fs) m s = record { ticks = refl; tick = omega arith }

flush_with-Passed :
    (fs : List (Option ErrorKind)) (s : Session)
    → Passed 0 s (record s { wire = (flush_with fs s.wire).1 })
unfolding flush_with
flush_with-Passed [] s = record { ticks = refl; tick = omega arith }
flush_with-Passed (none ∷ fs) s = record { ticks = refl; tick = omega arith }
flush_with-Passed (some e ∷ fs) s = record { ticks = refl; tick = omega arith }

-- A flush behind a write that succeeded.
flushed-Passed :
    (r : Outcome (Unit {0})) (s : Session) (v : Wire)
    → Passed 0 s (record s { wire = v })
    → Passed 0 s (record s { wire = (Io.after r v λ _. ws_flush).1 })
unfolding ws_flush
flushed-Passed (ok a) s v h =
    let f = flush_with-Passed v.faults (record s { wire = v }) in
    record { ticks = f.ticks ∙ h.ticks; tick = omega (arith, f.tick, h.tick) }
flushed-Passed (err e) s v h = h
flushed-Passed panic s v h = h
flushed-Passed stuck s v h = h

write_as-Passed :
    (k : StreamKind) (b : Bytes) (s : Session)
    → Passed 0 s (record s { wire = (write_as k b s.wire).1 })
unfolding write_as put_message put Io.◌>>=◌
write_as-Passed raw b s = put_with-Passed s.wire.faults _ s
write_as-Passed websocket b s =
    let x = put_with s.wire.faults (message_of b) s.wire in
    flushed-Passed x.0 s x.1 (put_with-Passed s.wire.faults (message_of b) s)

pub write-Passed : (b : Bytes) (s : Session) → Passed 0 s (on (write_line b) s).1
unfolding on write_all
write-Passed b s = write_as-Passed s.wire.kind b s

Wrote-refl : (s : Session) → Wrote s s []
Wrote-refl s = record {
  sent = sym (append-nil s.wire.sent);
  kind = refl;
  chunk_size = refl;
  stats = refl;
}

-- The report behind one chunk, where the clock shows `ns`, in front of those behind the next ones.
pub record Told (send_intermediate : Bool) (ns : ℕ) (last : Option ℕ) (total : ℕ) (last' : Option ℕ)
    (s t : Session) : Type 0 where
  pub lines : List (ℕ × ℕ)
  pub before :
      (clock : ℕ → ℕ) (cs j n : ℕ) (rs : List (ℕ × ℕ))
      → (send_intermediate ≡ true → ns ≡ clock j)
      → total ≡ (suc j * cs) % 2 ^ 64
      → Reporting send_intermediate clock cs last' (suc j) n rs
      → Reporting send_intermediate clock cs last j n (lines ++ rs)
  pub wrote : Wrote s t (report_messages s.wire.kind lines)
  pub passed : Passed (readings send_intermediate 1) s t

-- The same behind the reading of the clock.
record Settled (ns : ℕ) (last : Option ℕ) (total : ℕ) (last' : Option ℕ) (s t : Session)
    : Type 0 where
  pub lines : List (ℕ × ℕ)
  pub before :
      (clock : ℕ → ℕ) (cs j n : ℕ) (rs : List (ℕ × ℕ))
      → ns ≡ clock j
      → total ≡ (suc j * cs) % 2 ^ 64
      → Reports clock cs last' (suc j) n rs
      → Reports clock cs last j n (lines ++ rs)
  pub wrote : Wrote s t (report_messages s.wire.kind lines)
  pub passed : Passed 0 s t

told_at :
    (clock : ℕ → ℕ) (cs j n ns total : ℕ) (last : Option ℕ) (rs : List (ℕ × ℕ))
    → ns ≡ clock j
    → IsDue last ns
    → total ≡ (suc j * cs) % 2 ^ 64
    → Reports clock cs (some ns) (suc j) n rs
    → Reports clock cs last j n ((ns, total) ∷ rs)
told_at clock cs j n ns total last rs e due c r =
    subst (λ x. Reports clock cs last j n ((x, total) ∷ rs)) (sym e)
      (told (subst (IsDue last) e due) c (subst (λ x. Reports clock cs (some x) (suc j) n rs) e r))

write_report-Settled :
    (last : Option ℕ) (ns total : ℕ) (last' : Option ℕ) (s : Session)
    → IsDue last ns
    → (write_report ns total s).0 ≡ ok last'
    → Settled ns last total last' s (write_report ns total s).1
unfolding write_report pure
write_report-Settled last ns total last' s due h =
    let a = >>=-ok (on (write_line (report_line (ns, total)))) (λ _. pure (some ns)) s last' h in
    let e : some ns ≡ last' = ok-injective a.second in
    record {
      lines = (ns, total) ∷ [];
      before = λ clock cs j n rs i c r.
          told_at clock cs j n ns total last rs i due c
            (subst (λ o. Reports clock cs o (suc j) n rs) (sym e) r);
      wrote =
          subst (λ t. Wrote s t (as_message s.wire.kind (report_line (ns, total)) ∷ []))
            (sym a.state) (write-Wrote (report_line (ns, total)) s a.first);
      passed = subst (Passed 0 s) (sym a.state) (write-Passed (report_line (ns, total)) s);
    }

no_report-Settled :
    (l ns total : ℕ) (last' : Option ℕ) (s : Session)
    → ns < l + 1000000
    → (pure (some l) s).0 ≡ ok last'
    → Settled ns (some l) total last' s (pure (some l) s).1
unfolding pure
no_report-Settled l ns total last' s early h =
    let e : some l ≡ last' = ok-injective h in
    record {
      lines = [];
      before = λ clock cs j n rs i c r.
          untold (subst (λ x. x < l + 1000000) i early)
            (subst (λ o. Reports clock cs o (suc j) n rs) (sym e) r);
      wrote = Wrote-refl s;
      passed = record { ticks = refl; tick = omega arith };
    }

due-Settled :
    (last : Option ℕ) (ns total : ℕ) (last' : Option ℕ) (s : Session)
    → ((if is_due last ns then write_report ns total else pure last) s).0 ≡ ok last'
    → Settled ns last total last' s
        ((if is_due last ns then write_report ns total else pure last) s).1
due-Settled none ns total last' s h = write_report-Settled none ns total last' s tt h
due-Settled (some l) ns total last' s h = split (leb (l + 1000000) ns) refl h
  where
    split :
        (b : Bool)
        → leb (l + 1000000) ns ≡ b
        → ((if b then write_report ns total else pure (some l)) s).0 ≡ ok last'
        → Settled ns
            (some l)
            total
            last'
            s
            ((if b then write_report ns total else pure (some l)) s).1
    split true e g = write_report-Settled (some l) ns total last' s (leb→le (l + 1000000) ns e) g
    split false e g = no_report-Settled l ns total last' s (ground arith) g

-- A call that writes nothing and does not read the clock, and a report behind it.
pub Told-behind :
    (si : Bool) (start : ℕ) (last : Option ℕ) (total : ℕ) (last' : Option ℕ) (s t v u : Session)
    → Wrote s t []
    → Passed 0 s t
    → v ≡ t
    → Told si (v.wire.ticks v.wire.tick - start) last total last' v u
    → Told si (s.wire.ticks s.wire.tick - start) last total last' s u
Told-behind si start last total last' s t v u h i e r =
    let w = subst (λ x. Wrote s x []) (sym e) h in
    let p = subst (Passed 0 s) (sym e) i in
    record {
      lines = r.lines;
      before = λ clock cs j n rs k. r.before clock cs j n rs (λ b. same p ∙ k b);
      wrote =
          Wrote-trans s v u [] _ w
            (subst (λ k. Wrote v u (report_messages k r.lines)) w.kind r.wrote);
      passed = record {
        ticks = r.passed.ticks ∙ p.ticks;
        tick = omega (arith, p.tick, r.passed.tick);
      };
    }
  where
    same : Passed 0 s v → v.wire.ticks v.wire.tick - start ≡ s.wire.ticks s.wire.tick - start
    same p =
        ap (λ f. f v.wire.tick - start) p.ticks
        ∙ ap (λ n. s.wire.ticks n - start) (omega (arith, p.tick))

elapsed-ok :
    (start : ℕ) (s : Session) (ns : ℕ)
    → (elapsed start s).0 ≡ ok ns
    → (s.wire.ticks s.wire.tick - start ≡ ns) × Passed 1 s (elapsed start s).1
unfolding elapsed
elapsed-ok start s ns h = (ok-injective h, record { ticks = refl; tick = refl })

-- A report behind the reading of the clock.
Settled-Told :
    (reading ns total : ℕ) (last last' : Option ℕ) (s t u : Session)
    → reading ≡ ns
    → Wrote s t []
    → Passed 1 s t
    → Settled ns last total last' t u
    → Told true reading last total last' s u
Settled-Told reading ns total last last' s t u e w moved r = record {
  lines = r.lines;
  before = λ clock cs j n rs i c. r.before clock cs j n rs (sym e ∙ i refl) c;
  wrote =
      Wrote-trans s t u [] _ w (subst (λ k. Wrote t u (report_messages k r.lines)) w.kind r.wrote);
  passed = record {
    ticks = r.passed.ticks ∙ moved.ticks;
    tick = omega (arith, moved.tick, r.passed.tick);
  };
}

pub report-Told :
    (send_intermediate : Bool) (start total : ℕ) (last last' : Option ℕ) (s : Session)
    → (report send_intermediate start total last s).0 ≡ ok last'
    → Told send_intermediate
        (s.wire.ticks s.wire.tick - start)
        last
        total
        last'
        s
        (report send_intermediate start total last s).1
unfolding report
report-Told false start total last last' s h =
    unfold pure in
    record {
      lines = [];
      before = λ clock cs j n rs i c r. r;
      wrote = Wrote-refl s;
      passed = record { ticks = refl; tick = omega arith };
    }
report-Told true start total last last' s h =
    let a = >>=-ok _ _ s last' h in
    let (e, moved) = elapsed-ok start s a.value a.first in
    subst (Told true (s.wire.ticks s.wire.tick - start) last total last' s) (sym a.state) (
      Settled-Told _ a.value total last last' s _ _ e (elapsed-Wrote start s) moved
        (due-Settled last a.value total last' _ a.second))
