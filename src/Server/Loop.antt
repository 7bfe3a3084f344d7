-- ===== src/Server/Loop.antt =====
-- The accept loop of src/server/mod.rs implements the abstract machine of Server.Pool.
use open_rmbt_server.Common.{
  ℕ, zero, suc, ◌+◌, ◌<◌, ◌≡◌, refl, subst, inl, inr, Bool, true, false, Option, some, List, [],
  ◌∷◌, arith, Bool-cases, Option-cases, length, get_elem?,
}
use open_rmbt_server.Server.Defs.{Pool, new_pool, work}
use open_rmbt_server.Server.Pool.{Run, accepts, works, dispatch_total}
use open_rmbt_server.Server.Accept.{
  Accept, accepted, would_block, accept_error, poll_error, polled, Step, poll, worked, accept_all,
  accept_events, step_worker, is_interrupted, Served, waiting, stopped, poll_failed, serve,
}

-- How many connections the inner loop takes: those before the first error of `accept`, but for the
-- sockets that stay non-blocking.
abbrev pub taken : List Accept → ℕ
taken [] = 0
taken (would_block ∷ rest) = 0
taken (accept_error ∷ rest) = 0
taken (accepted conn false ∷ rest) = taken rest
taken (accepted conn true ∷ rest) = suc (taken rest)

abbrev pub taken_by : List (ℕ × List Accept) → ℕ
taken_by [] = 0
taken_by ((token, results) ∷ events) = taken results + taken_by events

-- The same of a script: up to the shutdown, or an error that is no interruption.
abbrev pub taken_in : List Step → ℕ
taken_in [] = 0
taken_in (worked id ∷ steps) = taken_in steps
taken_in (poll (poll_error e) ∷ steps) = elim (is_interrupted e) [
  | true ↦ taken_in steps
  | false ↦ 0
]
taken_in (poll (polled true events) ∷ steps) = 0
taken_in (poll (polled false events) ∷ steps) = taken_by events + taken_in steps

-- Every token is that of a listener.
abbrev pub AreTokens : ℕ → List (ℕ × List Accept) → Type 0
AreTokens n [] = Unit
AreTokens n ((token, results) ∷ events) = (token < n) × AreTokens n events

abbrev pub HasTokens : ℕ → List Step → Type 0
HasTokens n [] = Unit
HasTokens n (worked id ∷ steps) = HasTokens n steps
HasTokens n (poll (poll_error e) ∷ steps) = HasTokens n steps
HasTokens n (poll (polled shutdown events) ∷ steps) = AreTokens n events × HasTokens n steps

module _ (k : ℕ) (some_worker : 0 < k) where
  -- The pool behind a loop is there, and is one that the machine reaches.
  abbrev Reaches : ℕ → Option Pool → Type 0
  Reaches n o = (q : Pool) × (o ≡ some q) × Run (new_pool k) n q

  moved : {m n : ℕ} (q : Pool) → m ≡ n → Run (new_pool k) m q → Run (new_pool k) n q
  moved q e r = subst (λ n. Run (new_pool k) n q) e r

  accept_all-Reaches :
      (is_tls : Bool) (results : List Accept) (n : ℕ) (p : Pool)
      → Run (new_pool k) n p
      → Reaches (taken results + n) (accept_all is_tls results p)
  unfolding accept_all
  accept_all-Reaches is_tls [] n p r = (p, refl, moved p (omega arith) r)
  accept_all-Reaches is_tls (would_block ∷ rest) n p r = (p, refl, moved p (omega arith) r)
  accept_all-Reaches is_tls (accept_error ∷ rest) n p r = (p, refl, moved p (omega arith) r)
  accept_all-Reaches is_tls (accepted conn false ∷ rest) n p r =
      accept_all-Reaches is_tls rest n p r
  accept_all-Reaches is_tls (accepted conn true ∷ rest) n p r =
      let (q, e) = dispatch_total k n p conn is_tls some_worker r in
      let (t, f, s) = accept_all-Reaches is_tls rest (suc n) q (accepts conn is_tls r e) in
      rw (e, accept_all) (t, f, moved t (omega arith) s)

  get_elem?-some : (bs : List Bool) (i : ℕ) → i < length bs → (b : Bool) × (get_elem? bs i ≡ some b)
  get_elem?-some [] i h = absurd (omega arith)
  get_elem?-some (b ∷ bs) zero h = (b, refl)
  get_elem?-some (b ∷ bs) (suc i) h = get_elem?-some bs i (omega arith)

  accept_events-Reaches :
      (listeners : List Bool) (events : List (ℕ × List Accept)) (n : ℕ) (p : Pool)
      → AreTokens (length listeners) events
      → Run (new_pool k) n p
      → Reaches (taken_by events + n) (accept_events listeners events p)
  unfolding accept_events
  accept_events-Reaches ls [] n p h r = (p, refl, moved p (omega arith) r)
  accept_events-Reaches ls ((token, results) ∷ events) n p h r =
      let (is_tls, b) = get_elem?-some ls token h.0 in
      let (q, e, s) = accept_all-Reaches is_tls results n p r in
      let (t, f, u) = accept_events-Reaches ls events (taken results + n) q h.1 s in
      rw (b, accept_events) (rw e (t, f, moved t (omega arith) u))

  step_worker-Run :
      (id n : ℕ) (p : Pool) → Run (new_pool k) n p → Run (new_pool k) n (step_worker id p)
  unfolding step_worker
  step_worker-Run id n p r = elim (Option-cases (get_elem? p.workers id)) [
    | inl e ↦ rw (e, step_worker) r
    | inr (w, e) ↦ elim (Option-cases (work id w)) [
      | inl f ↦ rw (e, step_worker) (rw f r)
      | inr (w', f) ↦ rw (e, step_worker) (rw f (works id r e f))
    ]
  ]

  -- The accept loop refines the abstract pool. With at least one worker and with tokens that are
  -- those of listeners, `serve` does not panic, whatever the polls and the listeners give, however
  -- the workers' steps fall between them; and the pool that it leaves is one that the abstract
  -- machine reaches from the same start by as many more accepted connections as the listeners gave.
  pub serve_refines :
      (listeners : List Bool) (steps : List Step) (n : ℕ) (p : Pool)
      → HasTokens (length listeners) steps
      → Run (new_pool k) n p
      → (served : Served) × (q : Pool) × (serve listeners steps p ≡ some (served, q))
        × Run (new_pool k) (taken_in steps + n) q
  unfolding serve
  serve_refines ls [] n p h r = (waiting, p, refl, moved p (omega arith) r)
  serve_refines ls (worked id ∷ steps) n p h r =
      serve_refines ls steps n (step_worker id p) h (step_worker-Run id n p r)
  serve_refines ls (poll (poll_error e) ∷ steps) n p h r = elim (Bool-cases (is_interrupted e)) [
    | inl b ↦ rw (b, serve, taken_in) (serve_refines ls steps n p h r)
    | inr b ↦ rw (b, serve, taken_in) (poll_failed e, p, refl, moved p (omega arith) r)
  ]
  serve_refines ls (poll (polled true events) ∷ steps) n p h r =
      (stopped, p, refl, moved p (omega arith) r)
  serve_refines ls (poll (polled false events) ∷ steps) n p h r =
      let (q, e, s) = accept_events-Reaches ls events n p h.0 r in
      let (served, t, f, u) = serve_refines ls steps (taken_by events + n) q h.1 s in
      rw (e, serve) (served, t, f, moved t (omega arith) u)
