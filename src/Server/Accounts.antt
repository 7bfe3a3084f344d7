-- ===== src/Server/Accounts.antt =====
-- What becomes of each connection in the pool of src/server/mod.rs.
use open_rmbt_server.Common.{
  ℕ, ◌+◌, ◌%◌, ◌^◌, ◌≡◌, refl, sym, ap, ◌∙◌, subst, inl, inr, Bool, some, List, [], ◌∷◌, ◌++◌,
  arith, ltb, ◌==◌, if◌then◌else◌, Bool-cases, Option-cases, length, get_elem?,
}
use open_rmbt_server.Server.Defs.{
  Job, connection, shutdown, Worker, Pool, new_pool, try_send, set_worker, dispatch_connection,
  handle_job, take_job, work,
}
use open_rmbt_server.Server.Pool.{
  Run, stays, accepts, works, total, total-set_worker, total_new_workers, get_elem?-some, IsPool,
  Run-IsPool,
}

-- The connections that a run accepts, newest first.
unfoldable pub accepted : {p q : Pool} {n : ℕ} → Run p n q → List ℕ
accepted stays = []
accepted (accepts conn is_tls r e) = conn ∷ accepted r
accepted (works id r g e) = accepted r

abbrev one : ℕ → ℕ → ℕ
one c d = if d == c then 1 else 0

-- How often a connection stands in a list, in a queue, and among the handled ones.
unfoldable pub count : ℕ → List ℕ → ℕ
count c [] = 0
count c (d ∷ ds) = one c d + count c ds

unfoldable pub count_queued : ℕ → List Job → ℕ
count_queued c [] = 0
count_queued c (connection d is_tls ∷ jobs) = one c d + count_queued c jobs
count_queued c (shutdown ∷ jobs) = count_queued c jobs

unfoldable pub count_handled : ℕ → List (ℕ × ℕ) → ℕ
count_handled c [] = 0
count_handled c (h ∷ hs) = one c h.0 + count_handled c hs

-- How often a worker holds a connection, and the pool.
abbrev pub held : ℕ → Worker → ℕ
held c w = count_queued c w.queue + count_handled c w.handled

abbrev pub kept : ℕ → Pool → ℕ
kept c p = total (held c) p.workers + count c p.dropped

count_queued-append :
    (c d : ℕ) (is_tls : Bool) (jobs : List Job)
    → count_queued c (jobs ++ connection d is_tls ∷ []) ≡ count_queued c jobs + one c d
unfolding count_queued
count_queued-append c d is_tls [] = omega arith
count_queued-append c d is_tls (connection x t ∷ jobs) =
    omega (arith, count_queued-append c d is_tls jobs)
count_queued-append c d is_tls (shutdown ∷ jobs) = count_queued-append c d is_tls jobs

try_send-held :
    (c conn : ℕ) (is_tls : Bool) (w w' : Worker)
    → try_send (connection conn is_tls) w ≡ some w'
    → held c w' ≡ held c w + one c conn
unfolding try_send
try_send-held c conn is_tls w w' e = elim (Bool-cases (ltb (length w.queue) 8)) [
  | inr b ↦ absurd (ground arith)
  | inl b ↦
      let i : record w { queue = w.queue ++ connection conn is_tls ∷ [] } ≡ w' = ground arith in
      subst (λ v. held c v ≡ held c w + one c conn) i
        (omega (arith, count_queued-append c conn is_tls w.queue))
]

some-injective : {w w' : Worker} → some w ≡ some w' → w ≡ w'
some-injective e = cc e

take_job-held :
    (c id : ℕ) (jobs : List Job) (w w' : Worker)
    → w.queue ≡ jobs
    → take_job id jobs w ≡ some w'
    → held c w' ≡ held c w
unfolding handle_job count_queued count_handled
take_job-held c id [] w w' q e = ap (held c) (sym (some-injective e))
take_job-held c id (shutdown ∷ js) w w' q e = absurd (cc e)
take_job-held c id (connection conn is_tls ∷ js) w w' q e =
    subst (λ v. held c v ≡ held c w) (some-injective e) (omega (arith, ap (count_queued c) q))

work-held : (c id : ℕ) (w w' : Worker) → work id w ≡ some w' → held c w' ≡ held c w
unfolding work
work-held c id w w' e = take_job-held c id w.queue w w' refl e

-- One more of a connection.
abbrev Grown : ℕ → ℕ → Pool → Pool → Type 0
Grown c conn p q = kept c q ≡ one c conn + kept c p

dispatch-kept :
    (c conn : ℕ) (is_tls : Bool) (p q : Pool)
    → dispatch_connection conn is_tls p ≡ some q
    → Grown c conn p q
unfolding dispatch_connection count
dispatch-kept c conn is_tls p q e = elim (Bool-cases (length p.workers == 0)) [
  | inl b ↦ absurd (ground arith)
  | inr b ↦
      let (w, g) = get_elem?-some p.workers (p.next_worker % length p.workers) (ground arith) in
      elim (Option-cases (try_send (connection conn is_tls) w)) [
        | inl t ↦ dropped_one (ground arith)
        | inr (w', t) ↦ sent_one _ w w' g (try_send-held c conn is_tls w w' t) (ground arith)
      ]
]
  where
    dropped_one :
        record p { next_worker = (p.next_worker + 1) % 2 ^ 64; dropped = conn ∷ p.dropped } ≡ q
        → Grown c conn p q
    dropped_one e = subst (λ r. Grown c conn p r) e (omega arith)

    sent_one :
        (i : ℕ) (w w' : Worker)
        → get_elem? p.workers i ≡ some w
        → held c w' ≡ held c w + one c conn
        → record p {
          next_worker = (p.next_worker + 1) % 2 ^ 64;
          workers = set_worker i w' p.workers;
        }
          ≡ q
        → Grown c conn p q
    sent_one i w w' g h e =
        subst (λ r. Grown c conn p r) e
          (omega (arith, h, total-set_worker (held c) p.workers i w w' g))

new_pool-kept : (c k : ℕ) → kept c (new_pool k) ≡ 0
unfolding new_pool count count_queued count_handled
new_pool-kept c k = omega (arith, total_new_workers (held c) k refl)

Run-kept : (c k n : ℕ) (q : Pool) (r : Run (new_pool k) n q) → kept c q ≡ count c (accepted r)
unfolding accepted count
Run-kept c k n q stays = new_pool-kept c k
Run-kept c k n q (accepts conn is_tls r e) =
    dispatch-kept c conn is_tls _ q e ∙ ap (λ m. one c conn + m) (Run-kept c k _ _ r)
Run-kept c k n q (works id r g e) =
    omega (arith, Run-kept c k n _ r, work-held c id _ _ e, total-set_worker (held c) _ id _ _ g)

-- After any run from a new pool, accepting and working in any order: each connection stands in the
-- queues, among the handled ones and among the dropped ones exactly as often in all as it was
-- accepted, and their number is that of the accepted connections; the number of workers stays;
-- `next_worker` counts the accepted connections, modulo 2^64; no queue holds more than 8 jobs; and
-- the ids that worker `i` has given are those of the sequence numbers from 1 on, modulo 2^64, one for
-- each connection that it handled, newest first.
pub Run-accounted :
    (k n : ℕ) (q : Pool) (r : Run (new_pool k) n q)
    → IsPool k n q × ((c : ℕ) → kept c q ≡ count c (accepted r))
Run-accounted k n q r = (Run-IsPool k n q r, λ c. Run-kept c k n q r)
