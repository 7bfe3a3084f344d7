-- ===== src/Greeting/Logs.antt =====
-- What a part of the greeting of src/protocol/greeting.rs writes and reports, when no write fails.
use open_rmbt_server.Common.{
  ◌≡◌, refl, sym, ap, ◌∙◌, Bool, true, false, Option, List, [], ◌∷◌, ◌++◌, map, append-nil,
  append_assoc, if◌then◌else◌,
}
use open_rmbt_server.Text.{Bytes}
use open_rmbt_server.Address.{SocketAddr}
use open_rmbt_server.Io.{
  ErrorKind, StreamKind, raw, websocket, Message, raw_bytes, Outcome, ok, err, panic, stuck,
}
use open_rmbt_server.Stream.Defs.{message_of}
use open_rmbt_server.Greeting.Defs.{AuthEvent, State, Greet, after, ◌>>=◌, pure, fail, out_of_fuel}

-- What stays as it is while a greeting runs: the kind of the stream, the peer, and that no write
-- fails.
pub record Setting : Type 0 where
  pub kind : StreamKind
  pub peer : Option SocketAddr
  pub has_sink : Bool

pub record Fits (e : Setting) (s : State) : Type 0 where
  pub kind : s.wire.kind ≡ e.kind
  pub peer : s.wire.peer ≡ e.peer
  pub faults : s.wire.faults ≡ []

-- How a line goes out.
abbrev pub message : StreamKind → Bytes → Message
message raw line = raw_bytes line
message websocket line = message_of line

-- From `s` to `t`, these lines were written and these events reported, and nothing else.
pub record Logged (e : Setting) (s t : State) (lines : List Bytes) (events : List AuthEvent)
    : Type 0 where
  pub fits : Fits e t
  pub sent : t.wire.sent ≡ s.wire.sent ++ map (message e.kind) lines
  pub reported : t.events ≡ s.events ++ (if e.has_sink then events else [])

-- What comes of a command: its outcome, with what it wrote and reported.
abbrev pub Spec : Type 0 → Type 1
Spec A = Outcome A → List Bytes → List AuthEvent → Type 0

pub record Did {A : Type 0} (e : Setting) (Q : Spec A) (s : State) (x : Outcome A × State)
    : Type 0 where
  pub lines : List Bytes
  pub events : List AuthEvent
  pub logged : Logged e s x.1 lines events
  pub result : Q x.0 lines events

pub record Logs {A : Type 0} (e : Setting) (Q : Spec A) (m : Greet A) : Type 0 where
  pub run : (s : State) → Fits e s → Did e Q s (m s)

-- One spec behind another: on success the second one's, behind what was done before.
abbrev pub Behind : {B : Type 0} → Spec B → List Bytes → List AuthEvent → Spec B
Behind R lines events r l v = R r (lines ++ l) (events ++ v)

map_append : (f : Bytes → Message) (xs ys : List Bytes) → map f (xs ++ ys) ≡ map f xs ++ map f ys
map_append f [] ys = refl
map_append f (x ∷ xs) ys = ap (◌∷◌ (f x)) (map_append f xs ys)

if_append :
    (b : Bool) (xs ys : List AuthEvent)
    → (if b then xs ++ ys else []) ≡ (if b then xs else []) ++ (if b then ys else [])
if_append true xs ys = refl
if_append false xs ys = refl

pub Logged-trans :
    (e : Setting) (s t u : State) (l m : List Bytes) (v w : List AuthEvent)
    → Logged e s t l v
    → Logged e t u m w
    → Logged e s u (l ++ m) (v ++ w)
Logged-trans e s t u l m v w h k = record {
  fits = k.fits;
  sent =
      k.sent
      ∙ ap (λ x. x ++ map (message e.kind) m) h.sent
      ∙ append_assoc s.wire.sent _ _
      ∙ ap (◌++◌ s.wire.sent) (sym (map_append (message e.kind) l m));
  reported =
      k.reported
      ∙ ap (λ x. x ++ (if e.has_sink then w else [])) h.reported
      ∙ append_assoc s.events _ _
      ∙ ap (◌++◌ s.events) (sym (if_append e.has_sink v w));
}

-- Nothing written and nothing reported.
pub silent :
    (e : Setting) (s t : State)
    → Fits e t
    → t.wire.sent ≡ s.wire.sent
    → t.events ≡ s.events
    → Logged e s t [] []
silent e s t f i j = record {
  fits = f;
  sent = i ∙ sym (append-nil _);
  reported = j ∙ none_if e.has_sink;
}
  where
    none_if : (b : Bool) → s.events ≡ s.events ++ (if b then [] else [])
    none_if true = sym (append-nil _)
    none_if false = sym (append-nil _)

abbrev pub IsCalm : {A : Type 0} → Outcome A → Type 0
IsCalm (ok a) = Unit
IsCalm (err k) = Unit
IsCalm panic = ⊥
IsCalm stuck = Unit

module _ (e : Setting) where
  module _ {A B : Type 0} (Q : Spec A) (R : Spec B) where
    pub after-Did :
        (s t : State) (r : Outcome A) (f : A → Greet B)
        → Did e Q s (r, t)
        → ((a : A) (l : List Bytes) (v : List AuthEvent)
            → Q (ok a) l v
            → Logs e (Behind R l v) (f a))
        → ((k : ErrorKind) (l : List Bytes) (v : List AuthEvent) → Q (err k) l v → R (err k) l v)
        → ((l : List Bytes) (v : List AuthEvent)
            → (Q panic l v → R panic l v) × (Q stuck l v → R stuck l v))
        → Did e R s (after r t f)
    after-Did s t (ok a) f d h i j =
        let n = (h a d.lines d.events d.result).run t d.logged.fits in
        record {
          lines = d.lines ++ n.lines;
          events = d.events ++ n.events;
          logged = Logged-trans e s t _ _ _ _ _ d.logged n.logged;
          result = n.result;
        }
    after-Did s t (err k) f d h i j = record {
      lines = d.lines;
      events = d.events;
      logged = d.logged;
      result = i k d.lines d.events d.result;
    }
    after-Did s t panic f d h i j = record {
      lines = d.lines;
      events = d.events;
      logged = d.logged;
      result = (j d.lines d.events).0 d.result;
    }
    after-Did s t stuck f d h i j = record {
      lines = d.lines;
      events = d.events;
      logged = d.logged;
      result = (j d.lines d.events).1 d.result;
    }

    -- One command behind another, whose failures are passed on.
    pub >>=-Logs :
        (m : Greet A) (f : A → Greet B)
        → Logs e Q m
        → ((a : A) (l : List Bytes) (v : List AuthEvent)
            → Q (ok a) l v
            → Logs e (Behind R l v) (f a))
        → ((k : ErrorKind) (l : List Bytes) (v : List AuthEvent) → Q (err k) l v → R (err k) l v)
        → ((l : List Bytes) (v : List AuthEvent)
            → (Q panic l v → R panic l v) × (Q stuck l v → R stuck l v))
        → Logs e R (m >>= f)
    unfolding ◌>>=◌
    >>=-Logs m f d h i j = record { run = λ s g. after-Did s (m s).1 (m s).0 f (d.run s g) h i j }

  -- A command that writes and reports nothing, and does not panic.
  pub record Quiet {A : Type 0} (s : State) (x : Outcome A × State) : Type 0 where
    pub fits : Fits e x.1
    pub sent : x.1.wire.sent ≡ s.wire.sent
    pub events : x.1.events ≡ s.events
    pub calm : IsCalm x.0

  pub record IsQuiet {A : Type 0} (m : Greet A) : Type 0 where
    pub run : (s : State) → Fits e s → Quiet s (m s)

  -- The outcomes of a quiet command.
  pub quiet-Logs :
      {A : Type 0} (m : Greet A) → IsQuiet m → Logs e (λ r l v. (l ≡ []) × (v ≡ []) × IsCalm r) m
  quiet-Logs m h = record {
    run = λ s f.
        let q = h.run s f in
        record {
          lines = [];
          events = [];
          logged = silent e s (m s).1 q.fits q.sent q.events;
          result = (refl, refl, q.calm);
        };
  }

  module _ {A B : Type 0} (R : Spec B) where
    pub quiet_then :
        (m : Greet A) (f : A → Greet B)
        → IsQuiet m
        → ((a : A) → Logs e R (f a))
        → ((k : ErrorKind) → R (err k) [] [])
        → R stuck [] []
        → Logs e R (m >>= f)
    quiet_then m f q h i j =
        >>=-Logs (λ r l v. (l ≡ []) × (v ≡ []) × IsCalm r) R m f (quiet-Logs m q)
          (λ a l v c. rw (c.0, c.1) (h a)) (λ k l v c. rw (c.0, c.1) (i k))
          (λ l v. (λ c. absurd c.2, λ c. rw (c.0, c.1) j))

  module _ {B : Type 0} (R : Spec B) where
    pub if-Logs :
        (b : Bool) (m k : Greet B) → Logs e R m → Logs e R k → Logs e R (if b then m else k)
    if-Logs true m k h i = h
    if-Logs false m k h i = i

    pub out_of_fuel-Logs : R stuck [] [] → Logs e R out_of_fuel
    unfolding out_of_fuel
    out_of_fuel-Logs h = record {
      run =
          λ s f. record { lines = []; events = []; logged = silent e s s f refl refl; result = h };
    }

    pub pure-Logs : (b : B) → R (ok b) [] [] → Logs e R (pure b)
    unfolding pure
    pure-Logs b h = record {
      run =
          λ s f. record { lines = []; events = []; logged = silent e s s f refl refl; result = h };
    }

    pub fail-Logs : (k : ErrorKind) → R (err k) [] [] → Logs e R (fail k)
    unfolding fail
    fail-Logs k h = record {
      run =
          λ s f. record { lines = []; events = []; logged = silent e s s f refl refl; result = h };
    }
