-- ===== src/Io.antt =====
-- The connection as the handlers see it, and the monad of `io::Result` over it.
pub mod Laws
pub mod Tame
use open_rmbt_server.Common.{ℕ, ◌+◌, Option, none, some, List, [], ◌∷◌, ◌++◌, if◌then◌else◌}
use open_rmbt_server.Text.{Bytes}
use open_rmbt_server.Address.{SocketAddr}

-- `io::ErrorKind`, as far as the program names it; `timed_out` and `other` stand for the rest.
pub data ErrorKind : Type 0 where
  unexpected_eof connection_reset connection_aborted broken_pipe : ErrorKind
  invalid_data permission_denied interrupted would_block addr_not_available : ErrorKind
  timed_out other : ErrorKind

-- What `tungstenite::WebSocket::read` returns: `Ok(Message)`, with one constructor for the control
-- frames, or an error.
pub data Frame : Type 0 where
  text binary : Bytes → Frame
  close control : Frame
  io_error : ErrorKind → Frame
  ws_error : Frame

-- A message that is sent; `close_notify` is the TLS alert.
pub data Message : Type 0 where
  raw_bytes text_message binary_message : Bytes → Message
  close_notify : Message

pub data StreamKind : Type 0 where
  raw websocket : StreamKind

pub record Wire : Type 0 where
  pub kind : StreamKind
  -- the bytes that the peer has still to deliver, and how its stream ends: `none` is a clean end
  pub input : Bytes
  pub ending : Option ErrorKind
  -- the same for a WebSocket; after the last frame reads fail as after `ConnectionClosed`
  pub frames : List Frame
  -- the outcome of each write or flush to come; after the last one they succeed
  pub faults : List (Option ErrorKind)
  -- what was written, in order
  pub sent : List Message
  -- readings of the monotonic clock, in nanoseconds, and how many were taken
  pub ticks : ℕ → ℕ
  pub tick : ℕ
  pub peer : Option SocketAddr

-- `panic` is a failed assertion, and `stuck` says that a loop of the model ran out of fuel.
pub data Outcome {ℓ} (A : Type ℓ) : Type ℓ where
  ok : A → Outcome A
  err : ErrorKind → Outcome A
  panic stuck : Outcome A

abbrev pub Io : Type 0 → Type 0
Io A = Wire → Outcome A × Wire

-- What follows an outcome: the rest on success, and nothing otherwise.
abbrev pub after : {A B : Type 0} → Outcome A → Wire → (A → Io B) → Outcome B × Wire
after (ok a) w f = f a w
after (err e) w f = (err e, w)
after panic w f = (panic, w)
after stuck w f = (stuck, w)

infixl 5 ◌>>=◌ ◌>>◌
unfoldable pub ◌>>=◌ : {A B : Type 0} → Io A → (A → Io B) → Io B
m >>= f = λ w. after (m w).0 (m w).1 f

abbrev pub ◌>>◌ : {A B : Type 0} → Io A → Io B → Io B
m >> k = m >>= λ _. k

abbrev pub pure : {A : Type 0} → A → Io A
pure a w = (ok a, w)

abbrev pub fail : {A : Type 0} → ErrorKind → Io A
fail e w = (err e, w)

-- How a read ends that finds too few bytes.
abbrev pub end_error : Wire → ErrorKind
end_error w = elim w.ending [ none ↦ unexpected_eof | some e ↦ e ]

-- A reading of the clock.
abbrev pub now : Io ℕ
now w = (ok (w.ticks w.tick), record w { tick = w.tick + 1 })

-- One write: it is recorded, or it fails.
unfoldable pub put_with : List (Option ErrorKind) → Message → Io (Unit {0})
put_with [] m w = (ok tt, record w { sent = w.sent ++ m ∷ [] })
put_with (none ∷ fs) m w = (ok tt, record w { sent = w.sent ++ m ∷ []; faults = fs })
put_with (some e ∷ fs) m w = (err e, record w { faults = fs })

unfoldable pub put : Message → Io (Unit {0})
unfolding put_with
put m w = put_with w.faults m w
