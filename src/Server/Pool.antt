-- ===== src/Server/Pool.antt =====
-- The pool of workers of src/server/mod.rs as a state machine: the accept loop dispatches a
-- connection, or a worker takes a job, in any order, until the shutdown.
use open_rmbt_server.Common.{
  ℕ, zero, suc, ◌+◌, ◌%◌, ◌^◌, ◌≤◌, ◌<◌, ◌≡◌, refl, ap, ◌∙◌, subst, inl, inr, Bool, false, some,
  List, [], ◌∷◌, ◌++◌, map, arith, ltb, ◌==◌, ltb→lt, Bool-cases, Option-cases, length, get_elem?,
  replicate, length-append, length-replicate,
}
use open_rmbt_server.Server.Defs.{
  Job, connection, shutdown, Worker, Pool, capacity, new_worker, new_pool, try_send, set_worker,
  dispatch_connection, conn_id, handle_job, take_job, work,
}

-- From `p` to `q` in some steps, of which `n` accept a connection.
pub data Run (p : Pool) : ℕ → Pool → Type 0 where
  stays : Run p 0 p
  accepts :
      {n : ℕ} {q r : Pool} (conn : ℕ) (is_tls : Bool)
      → Run p n q
      → dispatch_connection conn is_tls q ≡ some r
      → Run p (suc n) r
  works :
      {n : ℕ} {q : Pool} (id : ℕ) {w w' : Worker}
      → Run p n q
      → get_elem? q.workers id ≡ some w
      → work id w ≡ some w'
      → Run p n (record q { workers = set_worker id w' q.workers })

-- The ids that worker `id` gives to its first `n` connections, newest first.
unfoldable pub issued : ℕ → ℕ → List ℕ
issued id zero = []
issued id (suc n) = conn_id id (suc n % 2 ^ 64) ∷ issued id n

abbrev pub load : Worker → ℕ
load w = length w.queue + length w.handled

-- The sum of a number over the workers.
unfoldable pub total : (Worker → ℕ) → List Worker → ℕ
total f [] = 0
total f (w ∷ ws) = f w + total f ws

abbrev pub IsWorker : ℕ → Worker → Type 0
IsWorker id w =
    (length w.queue ≤ capacity)
    × (map (λ h. h.1) w.handled ≡ issued id (length w.handled))
    × (w.conn_seq ≡ length w.handled % 2 ^ 64)

abbrev pub AreWorkers : ℕ → List Worker → Type 0
AreWorkers first [] = Unit
AreWorkers first (w ∷ ws) = IsWorker first w × AreWorkers (suc first) ws

get_elem?-IsWorker :
    (first : ℕ) (ws : List Worker) (i : ℕ) (w : Worker)
    → AreWorkers first ws
    → get_elem? ws i ≡ some w
    → IsWorker (first + i) w
get_elem?-IsWorker first [] i w h e = absurd (cc e)
get_elem?-IsWorker first (x ∷ ws) zero w h e =
    subst (λ j. IsWorker j w) (omega arith) (subst (IsWorker first) (some_inj e) h.0)
  where
    some_inj : some x ≡ some w → x ≡ w
    some_inj e = cc e
get_elem?-IsWorker first (x ∷ ws) (suc i) w h e =
    subst (λ j. IsWorker j w) (omega arith) (get_elem?-IsWorker (suc first) ws i w h.1 e)

set_worker-AreWorkers :
    (first : ℕ) (ws : List Worker) (i : ℕ) (w : Worker)
    → AreWorkers first ws
    → IsWorker (first + i) w
    → AreWorkers first (set_worker i w ws)
unfolding set_worker
set_worker-AreWorkers first [] i w h k = tt
set_worker-AreWorkers first (x ∷ ws) zero w h k = (subst (λ j. IsWorker j w) (omega arith) k, h.1)
set_worker-AreWorkers first (x ∷ ws) (suc i) w h k =
    (h.0, set_worker-AreWorkers (suc first) ws i w h.1 (subst (λ j. IsWorker j w) (omega arith) k))

length-set_worker : (ws : List Worker) (i : ℕ) (w : Worker) → length (set_worker i w ws) ≡ length ws
unfolding set_worker
length-set_worker [] i w = refl
length-set_worker (x ∷ ws) zero w = refl
length-set_worker (x ∷ ws) (suc i) w = ap suc (length-set_worker ws i w)

pub total-set_worker :
    (f : Worker → ℕ) (ws : List Worker) (i : ℕ) (w w' : Worker)
    → get_elem? ws i ≡ some w
    → total f (set_worker i w' ws) + f w ≡ total f ws + f w'
unfolding set_worker total
total-set_worker f [] i w w' e = absurd (cc e)
total-set_worker f (x ∷ ws) zero w w' e = omega (arith, ap f (some_inj e))
  where
    some_inj : some x ≡ some w → x ≡ w
    some_inj e = cc e
total-set_worker f (x ∷ ws) (suc i) w w' e = omega (arith, total-set_worker f ws i w w' e)

pub total_new_workers :
    (f : Worker → ℕ) (k : ℕ) → f new_worker ≡ 0 → total f (replicate k new_worker) ≡ 0
unfolding total
total_new_workers f zero e = refl
total_new_workers f (suc k) e = omega (arith, e, total_new_workers f k e)

pub get_elem?-some :
    (ws : List Worker) (i : ℕ) → i < length ws → (w : Worker) × (get_elem? ws i ≡ some w)
get_elem?-some [] i h = absurd (omega arith)
get_elem?-some (x ∷ ws) zero h = (x, refl)
get_elem?-some (x ∷ ws) (suc i) h = get_elem?-some ws i (omega arith)

-- What holds after `n` accepted connections in a pool of `k` workers.
pub record IsPool (k n : ℕ) (p : Pool) : Type 0 where
  pub size : length p.workers ≡ k
  pub next : p.next_worker ≡ n % 2 ^ 64
  pub accounts : total load p.workers + length p.dropped ≡ n
  pub workers : AreWorkers 0 p.workers

new_workers-AreWorkers : (first k : ℕ) → AreWorkers first (replicate k new_worker)
unfolding issued
new_workers-AreWorkers first zero = tt
new_workers-AreWorkers first (suc k) =
    ((omega arith, refl, refl), new_workers-AreWorkers (suc first) k)

new_pool-IsPool : (k : ℕ) → IsPool k 0 (new_pool k)
unfolding new_pool
new_pool-IsPool k = record {
  size = length-replicate k new_worker;
  next = refl;
  accounts = omega (arith, total_new_workers load k refl);
  workers = new_workers-AreWorkers 0 k;
}

-- What `try_send` changes: nothing but the queue, by one job, and never beyond the capacity.
try_send_fits :
    (job : Job) (w w' : Worker) (id : ℕ)
    → IsWorker id w
    → try_send job w ≡ some w'
    → IsWorker id w' × (load w' ≡ suc (load w))
unfolding try_send
try_send_fits job w w' id h e = elim (Bool-cases (ltb (length w.queue) 8)) [
  | inr b ↦ absurd (ground arith)
  | inl b ↦
      let i : record w { queue = w.queue ++ job ∷ [] } ≡ w' = ground arith in
      subst (λ v. IsWorker id v × (load v ≡ suc (load w))) i
        (
          (omega (arith, ltb→lt (length w.queue) 8 b, length-append w.queue (job ∷ [])), h.1, h.2),
          omega (arith, length-append w.queue (job ∷ [])),
        )
]

dropped-IsPool :
    (k n conn : ℕ) (p : Pool) (i : ℕ)
    → IsPool k n p
    → IsPool k
        (suc n)
        (record p { next_worker = (p.next_worker + 1) % 2 ^ 64; dropped = conn ∷ p.dropped })
dropped-IsPool k n conn p i h = record {
  size = h.size;
  next = omega (arith, h.next);
  accounts = omega (arith, h.accounts);
  workers = h.workers;
}

sent-IsPool :
    (k n conn : ℕ) (p : Pool) (i : ℕ) (w w' : Worker)
    → IsPool k n p
    → get_elem? p.workers i ≡ some w
    → IsWorker i w' × (load w' ≡ suc (load w))
    → IsPool k (suc n) (record p {
      next_worker = (p.next_worker + 1) % 2 ^ 64;
      workers = set_worker i w' p.workers;
    })
sent-IsPool k n conn p i w w' h e f = record {
  size = length-set_worker p.workers i w' ∙ h.size;
  next = omega (arith, h.next);
  accounts = omega (arith, h.accounts, total-set_worker load p.workers i w w' e, f.1);
  workers =
      set_worker-AreWorkers 0 p.workers i w' h.workers
        (subst (λ j. IsWorker j w') (omega arith) f.0);
}

dispatch-IsPool :
    (k n conn : ℕ) (is_tls : Bool) (p q : Pool)
    → IsPool k n p
    → dispatch_connection conn is_tls p ≡ some q
    → IsPool k (suc n) q
unfolding dispatch_connection
dispatch-IsPool k n conn is_tls p q h e = elim (Bool-cases (length p.workers == 0)) [
  | inl b ↦ absurd (ground arith)
  | inr b ↦
      let (w, g) = get_elem?-some p.workers (p.next_worker % length p.workers) (ground arith) in
      elim (Option-cases (try_send (connection conn is_tls) w)) [
        | inl t ↦ subst (IsPool k (suc n)) (ground arith) (dropped-IsPool k n conn p 0 h)
        | inr (w', t) ↦ subst (IsPool k (suc n)) (ground arith) (
            sent-IsPool k n conn p _ w w' h g (
              try_send_fits _ w w' _
                (subst (λ j. IsWorker j w) (omega arith)
                  (get_elem?-IsWorker 0 p.workers _ w h.workers g))
                t))
      ]
]

some-injective : {w w' : Worker} → some w ≡ some w' → w ≡ w'
some-injective e = cc e

take_job_keeps :
    (id : ℕ) (jobs : List Job) (w w' : Worker)
    → w.queue ≡ jobs
    → IsWorker id w
    → take_job id jobs w ≡ some w'
    → IsWorker id w' × (load w' ≡ load w)
unfolding handle_job issued
take_job_keeps id [] w w' q h e =
    subst (λ v. IsWorker id v × (load v ≡ load w)) (some-injective e) (h, refl)
take_job_keeps id (shutdown ∷ js) w w' q h e = absurd (cc e)
take_job_keeps id (connection conn is_tls ∷ js) w w' q h e =
    let size = ap length q in
    subst (λ v. IsWorker id v × (load v ≡ load w)) (some-injective e)
      (
        (
          omega (arith, h.0, size),
          ap (λ n. conn_id id n ∷ map (λ h. h.1) w.handled) (next_seq h.2)
              ∙ ap (λ ids. conn_id id (suc (length w.handled) % 2 ^ 64) ∷ ids) h.1,
          next_seq h.2,
        ),
        omega (arith, size),
      )
  where
    next_seq :
        w.conn_seq ≡ length w.handled % 2 ^ 64
        → (w.conn_seq + 1) % 2 ^ 64 ≡ suc (length w.handled) % 2 ^ 64
    next_seq i = omega (arith, i)

-- A worker's step moves a connection from its queue to what it handled, under the next id.
work_keeps :
    (id : ℕ) (w w' : Worker)
    → IsWorker id w
    → work id w ≡ some w'
    → IsWorker id w' × (load w' ≡ load w)
unfolding work
work_keeps id w w' h e = take_job_keeps id w.queue w w' refl h e

work-IsPool :
    (k n id : ℕ) (p : Pool) (w w' : Worker)
    → IsPool k n p
    → get_elem? p.workers id ≡ some w
    → work id w ≡ some w'
    → IsPool k n (record p { workers = set_worker id w' p.workers })
work-IsPool k n id p w w' h g e =
    let f =
      work_keeps id w w'
        (subst (λ j. IsWorker j w) (omega arith) (get_elem?-IsWorker 0 p.workers id w h.workers g))
        e in
    record {
      size = length-set_worker p.workers id w' ∙ h.size;
      next = h.next;
      accounts = omega (arith, h.accounts, total-set_worker load p.workers id w w' g, f.1);
      workers =
          set_worker-AreWorkers 0 p.workers id w' h.workers
            (subst (λ j. IsWorker j w') (omega arith) f.0);
    }

-- After any run from a new pool, the number of workers stays, `next_worker` counts the accepted
-- connections, as many connections are queued, handled or dropped as were accepted, and each worker
-- is as it should be.
pub Run-IsPool : (k n : ℕ) (q : Pool) → Run (new_pool k) n q → IsPool k n q
Run-IsPool k n q stays = new_pool-IsPool k
Run-IsPool k n q (accepts conn is_tls r e) =
    dispatch-IsPool k _ conn is_tls _ q (Run-IsPool k _ _ r) e
Run-IsPool k n q (works id r g e) = work-IsPool k n id _ _ _ (Run-IsPool k n _ r) g e

-- With at least one worker, a connection that arrives after any run is dispatched: the accept
-- loop does not panic on the index.
pub dispatch_total :
    (k n : ℕ) (q : Pool) (conn : ℕ) (is_tls : Bool)
    → 0 < k
    → Run (new_pool k) n q
    → (r : Pool) × (dispatch_connection conn is_tls q ≡ some r)
unfolding dispatch_connection
dispatch_total k n q conn is_tls h r =
    let (w, g) =
      get_elem?-some q.workers (q.next_worker % length q.workers)
        (omega (arith, (Run-IsPool k n q r).size)) in
    elim (Option-cases (dispatch_connection conn is_tls q)) [
      | inr x ↦ x
      | inl e ↦ absurd (ground arith)
    ]
  where
    not_empty : (length q.workers == 0) ≡ false
    not_empty = ground (arith, (Run-IsPool k n q r).size, h)
