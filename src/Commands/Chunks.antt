-- ===== src/Commands/Chunks.antt =====
-- The chunks that GETCHUNKS of src/protocol/commands.rs sends.
use open_rmbt_server.Common.{
  ℕ, zero, suc, ◌≡◌, refl, sym, ap, ◌∙◌, subst, Bool, true, false, Option, none, some, List, [],
  ◌∷◌, ◌++◌, map, append-nil, append_assoc, arith, ◌==◌, replicate,
}
use open_rmbt_server.Text.{Bytes}
use open_rmbt_server.Io.{
  ErrorKind, put, StreamKind, raw, websocket, Message, raw_bytes, Outcome, ok, err, panic, stuck,
  Wire,
}
use open_rmbt_server.Io.Laws
use open_rmbt_server.Stream.Defs.{
  flush_with, ws_flush, as_other, put_message, message_of, write_as, write_all,
}
use open_rmbt_server.Commands.Defs.{
  Session, ◌>>=◌, pure, on, some_or_panic, set_last, mark, send_chunk, send_count,
}
use open_rmbt_server.Commands.Quiet.{>>=-ok, write-Quiet}

-- How a stream frames what is written.
abbrev pub as_message : StreamKind → Bytes → Message
as_message raw b = raw_bytes b
as_message websocket b = message_of b

-- What was written in between.
pub record Wrote (s t : Session) (l : List Message) : Type 0 where
  pub sent : t.wire.sent ≡ s.wire.sent ++ l
  pub kind : t.wire.kind ≡ s.wire.kind
  pub chunk_size : t.chunk_size ≡ s.chunk_size
  pub stats : t.stats ≡ s.stats

pub Wrote-trans :
    (s t u : Session) (l m : List Message) → Wrote s t l → Wrote t u m → Wrote s u (l ++ m)
Wrote-trans s t u l m h i = record {
  sent = i.sent ∙ ap (λ x. x ++ m) h.sent ∙ append_assoc s.wire.sent l m;
  kind = i.kind ∙ h.kind;
  chunk_size = i.chunk_size ∙ h.chunk_size;
  stats = i.stats ∙ h.stats;
}

as_other-ok : (r : Outcome (Unit {0})) → as_other r ≡ ok tt → r ≡ ok tt
as_other-ok (ok a) h = refl
as_other-ok (err e) h = absurd (cc h)
as_other-ok panic h = absurd (cc h)
as_other-ok stuck h = absurd (cc h)

flush_with-sent : (fs : List (Option ErrorKind)) (w : Wire) → (flush_with fs w).1.sent ≡ w.sent
unfolding flush_with
flush_with-sent [] w = refl
flush_with-sent (none ∷ fs) w = refl
flush_with-sent (some e ∷ fs) w = refl

write_as-sent :
    (k : StreamKind) (b : Bytes) (w : Wire)
    → (write_as k b w).0 ≡ ok tt
    → (write_as k b w).1.sent ≡ w.sent ++ as_message k b ∷ []
unfolding write_as put_message
write_as-sent raw b w h = Laws.put-sent _ w h
write_as-sent websocket b w h =
    let s = Laws.>>=-ok (put (message_of b)) (λ _. ws_flush) w tt (as_other-ok _ h) in
    ap (λ v. v.sent) s.wire
    ∙ unfold ws_flush in
      flush_with-sent (put (message_of b) w).1.faults (put (message_of b) w).1
      ∙ Laws.put-sent (message_of b) w s.first

pub write-Wrote :
    (b : Bytes) (s : Session)
    → (on (write_all b) s).0 ≡ ok tt
    → Wrote s (on (write_all b) s).1 (as_message s.wire.kind b ∷ [])
unfolding on write_all
write-Wrote b s h =
    let q = write-Quiet b s in
    record {
      sent = write_as-sent s.wire.kind b s.wire h;
      kind = q.kind;
      chunk_size = q.chunk_size;
      stats = q.stats;
    }

set_last-append : (b x : ℕ) (body : Bytes) → set_last b (body ++ x ∷ []) ≡ some (body ++ b ∷ [])
unfolding set_last
set_last-append b x [] = refl
set_last-append b x (y ∷ []) = refl
set_last-append b x (y ∷ z ∷ body) = rw (set_last-append b x (z ∷ body)) refl

-- The bytes of one chunk.
abbrev pub chunk_of : Bytes → Bool → Bytes
chunk_of body terminal = body ++ mark terminal ∷ []

pub send_chunk-ok :
    (terminal : Bool) (body : Bytes) (x : ℕ) (s : Session) (buf : Bytes)
    → (send_chunk terminal (body ++ x ∷ []) s).0 ≡ ok buf
    → (buf ≡ chunk_of body terminal)
      × Wrote s
          (send_chunk terminal (body ++ x ∷ []) s).1
          (as_message s.wire.kind (chunk_of body terminal) ∷ [])
unfolding send_chunk some_or_panic pure ◌>>=◌
send_chunk-ok terminal body x s buf h =
    rw (set_last-append (mark terminal) x body)
      (wrote (rw (set_last-append (mark terminal) x body) at h))
  where
    wrote :
        ((on (write_all (chunk_of body terminal)) >>= λ _. pure (chunk_of body terminal)) s).0
          ≡ ok buf
        → (buf ≡ chunk_of body terminal)
          × Wrote s
              ((on (write_all (chunk_of body terminal)) >>= λ _. pure (chunk_of body terminal)) s).1
              (as_message s.wire.kind (chunk_of body terminal) ∷ [])
    wrote g =
        let a =
          >>=-ok (on (write_all (chunk_of body terminal))) (λ _. pure (chunk_of body terminal)) s
            buf g in
        (
          ok_inj a.second,
          subst (λ t. Wrote s t (as_message s.wire.kind (chunk_of body terminal) ∷ []))
              (sym a.state) (write-Wrote (chunk_of body terminal) s a.first),
        )
      where
        ok_inj : ok (chunk_of body terminal) ≡ ok buf → buf ≡ chunk_of body terminal
        ok_inj e = cc e

-- A transfer of `n + 1` chunks: all but the last one end with 0x00.
abbrev pub transfer : Bytes → ℕ → List Bytes
transfer body n = replicate n (chunk_of body false) ++ chunk_of body true ∷ []

-- One chunk and the rest, which sends `l`.
send_count_step :
    (n : ℕ) (terminal : Bool) (body : Bytes) (x : ℕ) (l : List Bytes)
    → ((y : ℕ) (t : Session)
        → (send_count n (body ++ y ∷ []) t).0 ≡ ok tt
        → Wrote t (send_count n (body ++ y ∷ []) t).1 (map (as_message t.wire.kind) l))
    → (s : Session)
    → ((send_chunk terminal (body ++ x ∷ []) >>= λ buf. send_count n buf) s).0 ≡ ok tt
    → Wrote s
        ((send_chunk terminal (body ++ x ∷ []) >>= λ buf. send_count n buf) s).1
        (map (as_message s.wire.kind) (chunk_of body terminal ∷ l))
send_count_step n terminal body x l rest s h =
    let a = >>=-ok (send_chunk terminal (body ++ x ∷ [])) (λ buf. send_count n buf) s tt h in
    let (e, w) = send_chunk-ok terminal body x s a.value a.first in
    let t = (send_chunk terminal (body ++ x ∷ []) s).1 in
    let r = rest (mark terminal) t (subst (λ b. (send_count n b t).0 ≡ ok tt) e a.second) in
    let same = a.state ∙ ap (λ b. (send_count n b t).1) e in
    subst (λ u. Wrote s u (map (as_message s.wire.kind) (chunk_of body terminal ∷ l))) (sym same)
      (Wrote-trans s t _ _ _ w (
        subst (λ k. Wrote t (send_count n (chunk_of body terminal) t).1 (map (as_message k) l))
          w.kind r))

pub send_count-Wrote :
    (n : ℕ) (body : Bytes) (x : ℕ) (s : Session)
    → (send_count (suc n) (body ++ x ∷ []) s).0 ≡ ok tt
    → Wrote s
        (send_count (suc n) (body ++ x ∷ []) s).1
        (map (as_message s.wire.kind) (transfer body n))
unfolding send_count
send_count-Wrote zero body x s h = send_count_step zero true body x [] nothing s h
  where
    nothing :
        (y : ℕ) (t : Session)
        → (send_count zero (body ++ y ∷ []) t).0 ≡ ok tt
        → Wrote t (send_count zero (body ++ y ∷ []) t).1 []
    nothing y t i =
        unfold pure in
        record { sent = sym (append-nil t.wire.sent); kind = refl; chunk_size = refl; stats = refl }
send_count-Wrote (suc n) body x s h =
    subst
      (λ b.
        ((send_chunk b (body ++ x ∷ []) >>= λ buf. send_count (suc n) buf) s).0 ≡ ok tt
        → Wrote s ((send_chunk b (body ++ x ∷ []) >>= λ buf. send_count (suc n) buf) s).1
            (map (as_message s.wire.kind) (transfer body (suc n))))
      more (send_count_step (suc n) false body x (transfer body n) (send_count-Wrote n body) s) h
  where
    more : false ≡ (suc n == 0)
    more = ground arith
