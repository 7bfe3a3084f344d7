-- ===== src/Server/Accept.antt =====
-- `Server::run` of src/server/mod.rs: the accept loop. What the poll and the listeners give comes
-- from a script, in which the workers' steps stand between the polls.
use open_rmbt_server.Common.{
  ℕ, Bool, true, false, Option, none, some, List, [], ◌∷◌, ◌++◌, if◌then◌else◌, get_elem?,
  replicate, is_empty,
}
use open_rmbt_server.Io.{ErrorKind, interrupted, addr_not_available, Outcome, ok, err}
use open_rmbt_server.Server.Defs.{Pool, set_worker, dispatch_connection, work, stop_workers}

-- What `accept` returns: a connection, with whether `set_nonblocking(false)` succeeds on it, or the
-- error that ends the inner loop (`WouldBlock` or another one).
pub data Accept : Type 0 where
  accepted : ℕ → Bool → Accept
  would_block accept_error : Accept

-- What `poll` returns: an error, or the shutdown flag as it is read then, and the events, each with
-- its token and with what `accept` returns on that listener.
pub data Poll : Type 0 where
  poll_error : ErrorKind → Poll
  polled : Bool → List (ℕ × List Accept) → Poll

pub data Step : Type 0 where
  poll : Poll → Step
  worked : ℕ → Step

-- The inner loop over `accept`. `none` is the panic of `dispatch_connection`.
unfoldable pub accept_all : Bool → List Accept → Pool → Option Pool
unfolding dispatch_connection
accept_all is_tls [] p = some p
accept_all is_tls (would_block ∷ rest) p = some p
accept_all is_tls (accept_error ∷ rest) p = some p
accept_all is_tls (accepted conn false ∷ rest) p = accept_all is_tls rest p
accept_all is_tls (accepted conn true ∷ rest) p = elim (dispatch_connection conn is_tls p) [
  | none ↦ none
  | some q ↦ accept_all is_tls rest q
]

-- The loop over the events; `none` is also the panic of a token that is no listener's.
unfoldable pub accept_events : List Bool → List (ℕ × List Accept) → Pool → Option Pool
unfolding accept_all
accept_events listeners [] p = some p
accept_events listeners ((token, results) ∷ events) p = elim (get_elem? listeners token) [
  | none ↦ none
  | some is_tls ↦ elim (accept_all is_tls results p) [
    | none ↦ none
    | some q ↦ accept_events listeners events q
  ]
]

-- A step of worker `id`, if there is one that has not stopped.
unfoldable pub step_worker : ℕ → Pool → Pool
unfolding work set_worker
step_worker id p = elim (get_elem? p.workers id) [
  | none ↦ p
  | some w ↦ elim (work id w) [
    | none ↦ p
    | some w' ↦ record p { workers = set_worker id w' p.workers }
  ]
]

unfoldable pub is_interrupted : ErrorKind → Bool
is_interrupted interrupted = true
is_interrupted _ = false

-- How the loop ended: not yet, by the flag, or by an error of `poll`.
pub data Served : Type 0 where
  waiting stopped : Served
  poll_failed : ErrorKind → Served

unfoldable pub serve : List Bool → List Step → Pool → Option (Served × Pool)
unfolding step_worker accept_events is_interrupted
serve listeners [] p = some (waiting, p)
serve listeners (worked id ∷ steps) p = serve listeners steps (step_worker id p)
serve listeners (poll (poll_error e) ∷ steps) p = elim (is_interrupted e) [
  | true ↦ serve listeners steps p
  | false ↦ some (poll_failed e, p)
]
serve listeners (poll (polled true events) ∷ steps) p = some (stopped, p)
serve listeners (poll (polled false events) ∷ steps) p = elim (accept_events listeners events p) [
  | none ↦ none
  | some q ↦ serve listeners steps q
]

-- `run` has panicked, is still in its loop, or has returned.
pub data Ran : Type 0 where
  panicked : Ran
  running : Pool → Ran
  returned : Outcome (Unit {0}) → Pool → Ran

abbrev pub after_serve : Option (Served × Pool) → Ran
after_serve none = panicked
after_serve (some (waiting, p)) = running p
after_serve (some (stopped, p)) = returned (ok tt) (record p { workers = stop_workers p.workers })
after_serve (some (poll_failed e, p)) = returned (err e) p

-- Which listeners there are: the TCP ones, and then the TLS ones.
abbrev pub listeners_of : ℕ → ℕ → List Bool
listeners_of tcp tls = replicate tcp false ++ replicate tls true

-- `setup` is the error of the first call that fails between the listeners and the loop.
unfoldable pub run : Option ErrorKind → ℕ → ℕ → List Step → Pool → Ran
unfolding serve stop_workers
run setup tcp tls steps p =
    if is_empty (listeners_of tcp tls) then returned (err addr_not_available) p else elim setup [
      | some e ↦ returned (err e) p
      | none ↦ after_serve (serve (listeners_of tcp tls) steps p)
    ]
