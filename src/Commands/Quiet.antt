-- ===== src/Commands/Quiet.antt =====
-- Calls of src/protocol/commands.rs that only write or look at the clock, and what a success of a
-- sequence of calls tells of its parts.
use open_rmbt_server.Common.{
  ℕ, ◌≡◌, refl, ◌∙◌, Bool, true, false, Option, none, some, List, [], ◌∷◌, if◌then◌else◌,
}
use open_rmbt_server.Text.{Bytes}
use open_rmbt_server.Io.{
  ErrorKind, StreamKind, raw, websocket, Message, put_with, put, Outcome, ok, err, panic, stuck, Io,
  Wire,
}
use open_rmbt_server.Io
use open_rmbt_server.Stream.Defs.{
  flush_with, ws_flush, message_of, put_message, write_as, write_all, write_line,
}
use open_rmbt_server.Commands.Defs.{
  Session, Cmd, after, ◌>>=◌, pure, on, elapsed, report, write_report, is_due,
}

-- Nothing was read, and nothing stored but the time.
pub record Quiet (s t : Session) : Type 0 where
  pub input : t.wire.input ≡ s.wire.input
  pub kind : t.wire.kind ≡ s.wire.kind
  pub chunk_size : t.chunk_size ≡ s.chunk_size
  pub stats : t.stats ≡ s.stats

abbrev pub IsQuiet : {A : Type 0} → Cmd A → Type 0
IsQuiet m = (s : Session) → Quiet s (m s).1

Quiet-refl : (s : Session) → Quiet s s
Quiet-refl s = record { input = refl; kind = refl; chunk_size = refl; stats = refl }

pub Quiet-trans : (s t u : Session) → Quiet s t → Quiet t u → Quiet s u
Quiet-trans s t u h i = record {
  input = i.input ∙ h.input;
  kind = i.kind ∙ h.kind;
  chunk_size = i.chunk_size ∙ h.chunk_size;
  stats = i.stats ∙ h.stats;
}

-- What a success says of a call and of what follows it.
pub record Succeeds {A B : Type 0} (m : Cmd A) (f : A → Cmd B) (s : Session) (b : B) : Type 0 where
  pub value : A
  pub first : (m s).0 ≡ ok value
  pub second : (f value (m s).1).0 ≡ ok b
  pub state : ((m >>= f) s).1 ≡ (f value (m s).1).1

module _ {A B : Type 0} where
  after-ok :
      (r : Outcome A) (s : Session) (f : A → Cmd B) (b : B)
      → (after r s f).0 ≡ ok b
      → (a : A) × (r ≡ ok a) × ((f a s).0 ≡ ok b) × ((after r s f).1 ≡ (f a s).1)
  after-ok (ok a) s f b h = (a, refl, h, refl)
  after-ok (err e) s f b h = absurd (cc h)
  after-ok panic s f b h = absurd (cc h)
  after-ok stuck s f b h = absurd (cc h)

  pub >>=-ok :
      (m : Cmd A) (f : A → Cmd B) (s : Session) (b : B) → ((m >>= f) s).0 ≡ ok b → Succeeds m f s b
  unfolding ◌>>=◌
  >>=-ok m f s b h =
      let (a, x, y, z) = after-ok (m s).0 (m s).1 f b h in
      record { value = a; first = x; second = y; state = z }

  after-Quiet :
      (r : Outcome A) (s t : Session) (f : A → Cmd B)
      → Quiet s t
      → ((a : A) → IsQuiet (f a))
      → Quiet s (after r t f).1
  after-Quiet (ok a) s t f h k = Quiet-trans s t _ h (k a t)
  after-Quiet (err e) s t f h k = h
  after-Quiet panic s t f h k = h
  after-Quiet stuck s t f h k = h

  >>=-Quiet :
      (m : Cmd A) (f : A → Cmd B) → IsQuiet m → ((a : A) → IsQuiet (f a)) → IsQuiet (m >>= f)
  unfolding ◌>>=◌
  >>=-Quiet m f h k s = after-Quiet (m s).0 s (m s).1 f (h s) k

pure-Quiet : {A : Type 0} (a : A) → IsQuiet (pure a)
unfolding pure
pure-Quiet a s = Quiet-refl s

if-Quiet :
    {A : Type 0} (b : Bool) (m k : Cmd A) → IsQuiet m → IsQuiet k → IsQuiet (if b then m else k)
if-Quiet true m k h i = h
if-Quiet false m k h i = i

put_with-Quiet :
    (fs : List (Option ErrorKind)) (m : Message) (s : Session)
    → Quiet s (record s { wire = (put_with fs m s.wire).1 })
unfolding put_with
put_with-Quiet [] m s = record { input = refl; kind = refl; chunk_size = refl; stats = refl }
put_with-Quiet (none ∷ fs) m s = record {
  input = refl;
  kind = refl;
  chunk_size = refl;
  stats = refl;
}
put_with-Quiet (some e ∷ fs) m s = record {
  input = refl;
  kind = refl;
  chunk_size = refl;
  stats = refl;
}

flush_with-Quiet :
    (fs : List (Option ErrorKind)) (s : Session)
    → Quiet s (record s { wire = (flush_with fs s.wire).1 })
unfolding flush_with
flush_with-Quiet [] s = Quiet-refl s
flush_with-Quiet (none ∷ fs) s = record {
  input = refl;
  kind = refl;
  chunk_size = refl;
  stats = refl;
}
flush_with-Quiet (some e ∷ fs) s = record {
  input = refl;
  kind = refl;
  chunk_size = refl;
  stats = refl;
}

-- A flush behind a write that succeeded.
flushed-Quiet :
    (r : Outcome (Unit {0})) (s : Session) (v : Wire)
    → Quiet s (record s { wire = v })
    → Quiet s (record s { wire = (Io.after r v λ _. ws_flush).1 })
unfolding ws_flush
flushed-Quiet (ok a) s v h =
    Quiet-trans s (record s { wire = v }) _ h (flush_with-Quiet v.faults (record s { wire = v }))
flushed-Quiet (err e) s v h = h
flushed-Quiet panic s v h = h
flushed-Quiet stuck s v h = h

write_as-Quiet :
    (k : StreamKind) (b : Bytes) (s : Session)
    → Quiet s (record s { wire = (write_as k b s.wire).1 })
unfolding write_as put_message put Io.◌>>=◌
write_as-Quiet raw b s = put_with-Quiet s.wire.faults _ s
write_as-Quiet websocket b s =
    let x = put_with s.wire.faults (message_of b) s.wire in
    flushed-Quiet x.0 s x.1 (put_with-Quiet s.wire.faults (message_of b) s)

pub write-Quiet : (b : Bytes) → IsQuiet (on (write_line b))
unfolding on write_all
write-Quiet b s = write_as-Quiet s.wire.kind b s

pub elapsed-Quiet : (start : ℕ) → IsQuiet (elapsed start)
unfolding elapsed
elapsed-Quiet start s = record { input = refl; kind = refl; chunk_size = refl; stats = refl }

pub now-Quiet : IsQuiet (on Io.now)
unfolding on
now-Quiet s = record { input = refl; kind = refl; chunk_size = refl; stats = refl }

pub report-Quiet :
    (send_intermediate : Bool) (start total : ℕ) (last : Option ℕ)
    → IsQuiet (report send_intermediate start total last)
unfolding report write_report
report-Quiet false start total last = pure-Quiet last
report-Quiet true start total last = >>=-Quiet _ _ (elapsed-Quiet start) λ ns.
    if-Quiet (is_due last ns) _ _ (>>=-Quiet _ _ (write-Quiet _) λ _. pure-Quiet (some ns))
      (pure-Quiet last)
