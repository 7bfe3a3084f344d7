-- ===== src/Greeting/Transcript.antt =====
-- What run_greeting of src/protocol/greeting.rs sends to the client and reports, on every way out.
use open_rmbt_server.Common.{
  ℕ, ◌≡◌, refl, sym, ap, ◌∙◌, subst, append_assoc, if◌then◌else◌, ◌⊎◌, inl, inr, Bool, true, false,
  none, some, List, [], ◌∷◌, ◌++◌, append-nil,
}
use open_rmbt_server.Text.{Bytes, codes, strip_prefix, starts_with, trim_start, trim}
use open_rmbt_server.Config.Defs.{SecretKey, Config}
use open_rmbt_server.Crypto.{Crypto}
use open_rmbt_server.Io.{connection_aborted, invalid_data, ok, err, panic, stuck, Outcome, Wire}
use open_rmbt_server.Stream.Defs.{write_line}
use open_rmbt_server.Token.Defs.{Clock}
use open_rmbt_server.Greeting.Defs.{
  Greeting, AuthEvent, State, Greet, after, token_line, ◌>>=◌, ◌>>◌, pure, on, token_value_of,
  uuid_of, token_type_of, authenticate, run_greeting, chunksize_line,
}
use open_rmbt_server.Greeting.FirstLine.{Reads, Given, token_line-Given, Reads-sent}
use open_rmbt_server.Greeting.Says.{write_then, write_line-message}
use open_rmbt_server.Greeting.Logs.{
  Logged, Setting, Fits, message, after-Did, Logged-trans, Spec, Behind, Did, Logs, >>=-Logs,
  pure-Logs,
}
use open_rmbt_server.Greeting.Decide.{
  LineRead, ValueFound, Passed, Refused, Decided, token_line-Logs, token_value_of-Logs,
  authenticate-Logs,
}

-- The line is a token line with this value.
abbrev pub HasToken : Bytes → Bytes → Type 0
HasToken line token_value =
    (rest : Bytes) × (strip_prefix (codes "TOKEN ") line ≡ some rest) × (token_value ≡ trim rest)

-- The line is no token line, and says QUIT or not.
abbrev pub NoToken : Bytes → Bool → Type 0
NoToken line quits =
    (strip_prefix (codes "TOKEN ") line ≡ none)
    × (starts_with (trim_start line) (codes "QUIT") ≡ quits)

module _ (c : Crypto) (version : Bytes) (config : Config) (keys : List SecretKey) (clock : Clock)
    (e : Setting) (w : Wire) where
  -- What the server says first.
  abbrev pub opening : List Bytes
  opening = (codes "RMBTv" ++ (version ++ codes "\n")) ∷ codes "ACCEPT TOKEN QUIT\n" ∷ []

  -- What the client gets and the sink reports, by the outcome of the greeting and by the client's
  -- line, the first of `w` that is not blank.
  abbrev pub Told : Spec Greeting
  Told (ok g) l v =
      (line : Bytes) × (token_value : Bytes) × Reads w (ok line)
      × HasToken line token_value
      × (l ≡ opening ++ (codes "OK\n" ∷ chunksize_line ∷ []))
      × Passed c version config keys clock e token_value g.label v
      × (g.uuid ≡ uuid_of token_value)
      × (g.token_type ≡ token_type_of token_value)
  Told (err k) l v =
      (Reads w (err k) × (l ≡ opening) × (v ≡ []))
      ⊎ ((line : Bytes) × Reads w (ok line)
          × NoToken line true
          × (l ≡ opening ++ codes "BYE\n" ∷ [])
          × (v ≡ [])
          × (k ≡ connection_aborted))
      ⊎ ((line : Bytes) × Reads w (ok line)
          × NoToken line false
          × (l ≡ opening ++ codes "ERR\n" ∷ [])
          × (v ≡ [])
          × (k ≡ invalid_data))
      ⊎ ((line : Bytes) × (token_value : Bytes) × Reads w (ok line)
          × HasToken line token_value
          × (l ≡ opening ++ codes "ERR\n" ∷ [])
          × Refused c version config keys clock e token_value k v)
  Told panic l v = ⊥
  Told stuck l v = (l ≡ opening) × (v ≡ [])

  -- Behind the opening.
  abbrev Rest : Spec Greeting
  Rest = Behind Told opening []

  -- What follows the value.
  abbrev decide_on : Bytes → Greet Greeting
  decide_on token_value = do
    label ← authenticate c version config keys e.has_sink clock token_value
    on (write_line (codes "OK\n"))
    on (write_line chunksize_line)
    pure (record {
      uuid = uuid_of token_value;
      token_type = token_type_of token_value;
      label = label;
    })

  module _ (line : Bytes) (given : Reads w (ok line)) where
    reply-Logs :
        (token_value label : Bytes) (v : List AuthEvent)
        → HasToken line token_value
        → Passed c version config keys clock e token_value label v
        → Logs e (Behind Rest [] v) (do
          on (write_line (codes "OK\n"))
          on (write_line chunksize_line)
          pure (record {
            uuid = uuid_of token_value;
            token_type = token_type_of token_value;
            label = label;
          }))
    reply-Logs token_value label v t p = write_then e (Behind Rest [] v) (codes "OK\n") _ (
        write_then e (Behind (Behind Rest [] v) (codes "OK\n" ∷ []) []) chunksize_line _ (
          pure-Logs e
            (Behind (Behind (Behind Rest [] v) (codes "OK\n" ∷ []) []) (chunksize_line ∷ []) []) _
            (line, token_value, given, t, refl, rw append-nil p, refl, refl)))

    decide_on-Logs :
        (token_value : Bytes) → HasToken line token_value → Logs e Rest (decide_on token_value)
    decide_on-Logs token_value t =
        >>=-Logs e (Decided c version config keys clock e token_value) Rest _ _
          (authenticate-Logs c version config keys clock e token_value)
          (λ label l v h. rw (h.0) (reply-Logs token_value label v t h.1))
          (λ k l v h. rw (h.0) (inr (inr (inr (line, token_value, given, t, refl, h.1)))))
          (λ l v. (λ h. absurd h, λ h. absurd h))

    value_then : Logs e Rest (do
      token_value ← token_value_of line (strip_prefix (codes "TOKEN ") line)
      decide_on token_value)
    value_then =
        >>=-Logs e (ValueFound e line (strip_prefix (codes "TOKEN ") line)) Rest _ _
          (token_value_of-Logs e line _)
          (λ token_value l v h. rw (h.0, h.1) (decide_on-Logs token_value h.2))
          (λ k l v h. elim h.2 [
            | inl b ↦ rw (b.1, h.0) (inr (inl (line, given, (h.1, b.0), refl, refl, b.2)))
            | inr b ↦ rw (b.1, h.0) (inr (inr (inl (line, given, (h.1, b.0), refl, refl, b.2))))
          ])
          (λ l v. (λ h. absurd h, λ h. absurd h))

  -- The loop for the line, from a state that has this wire but for what was sent.
  abbrev LineGiven : Spec Bytes
  LineGiven (ok a) l v = (l ≡ []) × (v ≡ []) × Reads w (ok a)
  LineGiven (err k) l v = (l ≡ []) × (v ≡ []) × Reads w (err k)
  LineGiven panic l v = ⊥
  LineGiven stuck l v = (l ≡ []) × (v ≡ [])

  both-LineGiven :
      (r : Outcome Bytes) (l : List Bytes) (v : List AuthEvent)
      → LineRead e r l v
      → Given w r
      → LineGiven r l v
  both-LineGiven (ok a) l v h g = (h.0, h.1, g)
  both-LineGiven (err k) l v h g = (h.0, h.1, g)
  both-LineGiven panic l v h g = absurd h
  both-LineGiven stuck l v h g = h

  line_then :
      (fuel : ℕ) (s : State)
      → Fits e s
      → ((r : Outcome Bytes) → Given s.wire r → Given w r)
      → Did e Rest s (
          (do
            line ← token_line fuel
            token_value ← token_value_of line (strip_prefix (codes "TOKEN ") line)
            decide_on token_value)
            s)
  unfolding ◌>>=◌
  line_then fuel s f same =
      let d = (token_line-Logs e fuel).run s f in
      let given = both-LineGiven _ _ _ d.result (same _ (token_line-Given fuel s)) in
      after-Did e LineGiven Rest s (token_line fuel s).1 (token_line fuel s).0 _
        (record { lines = d.lines; events = d.events; logged = d.logged; result = given })
        (λ line l v h. rw (h.0, h.1) (value_then line h.2))
        (λ k l v h. rw (h.0, h.1) (inl (h.2, refl, refl)))
        (λ l v. (λ h. absurd h, λ h. rw (h.0, h.1) (refl, refl)))

abbrev pub setting : Bool → State → Setting
setting has_sink s = record { kind = s.wire.kind; peer = s.wire.peer; has_sink = has_sink }

-- The state behind a line that was written.
abbrev written : Bytes → State → State
written b s = record s {
  wire = record (s.wire) { sent = s.wire.sent ++ message s.wire.kind b ∷ [] };
}

written-Fits : (e : Setting) (b : Bytes) (s : State) → Fits e s → Fits e (written b s)
written-Fits e b s f = record { kind = f.kind; peer = f.peer; faults = f.faults }

write_behind :
    {B : Type 0} (e : Setting) (b : Bytes) (k : Greet B) (s : State)
    → Fits e s
    → (on (write_line b) >>= λ _. k) s ≡ k (written b s)
unfolding ◌>>=◌ on
write_behind e b k s f =
    ap (λ x. after x.0 (record s { wire = x.1 }) λ _. k) (write_line-message e b s f)
    ∙ ap (λ j. k (record s { wire = record (s.wire) { sent = s.wire.sent ++ message j b ∷ [] } }))
        (sym f.kind)

-- The two lines of the opening.
abbrev opened : Bytes → State → State
opened version s =
    written (codes "ACCEPT TOKEN QUIT\n") (written (codes "RMBTv" ++ (version ++ codes "\n")) s)

opened-Given :
    (version : Bytes) (s : State) (r : Outcome Bytes)
    → Given (opened version s).wire r
    → Given s.wire r
opened-Given version s (ok l) g = Reads-sent s.wire.sent g
opened-Given version s (err k) g = Reads-sent s.wire.sent g
opened-Given version s panic g = tt
opened-Given version s stuck g = tt

opened-Logged :
    (c : Crypto) (version : Bytes) (config : Config) (keys : List SecretKey) (clock : Clock)
    (e : Setting) (s : State)
    → Fits e s
    → Logged e s (opened version s) (opening c version config keys clock e s.wire) []
opened-Logged c version config keys clock e s f = record {
  fits = written-Fits e _ _ (written-Fits e _ s f);
  sent =
      append_assoc s.wire.sent _ _
      ∙ ap
          (λ k.
            s.wire.sent
            ++ (message k (codes "RMBTv" ++ (version ++ codes "\n"))
                ∷ message k (codes "ACCEPT TOKEN QUIT\n")
                ∷ []))
          f.kind;
  reported = none_if e.has_sink;
}
  where
    none_if : (b : Bool) → s.events ≡ s.events ++ (if b then [] else [])
    none_if true = sym (append-nil _)
    none_if false = sym (append-nil _)

-- What run_greeting sends and reports, when no write fails. It sends the version and the line of
-- what it accepts; if it succeeds, then OK and the chunk sizes, with an auth event that says
-- accepted (and then validate_token accepted the token for the peer's address, with this label) or,
-- with token checking off, not_checked. If it fails, then nothing more (the token line could not be
-- read), or BYE to a line that is no token and starts with QUIT, or ERR to another line that is no
-- token, each with no event; or ERR with an
-- event that says rejected and why, for a token that validate_token did not accept. The events go to
-- the sink, if there is one.
pub run_greeting_tells :
    (c : Crypto) (version : Bytes) (fuel : ℕ) (config : Config) (keys : List SecretKey)
    (has_sink : Bool) (clock : Clock) (s : State)
    → s.wire.faults ≡ []
    → Did
        (setting has_sink s)
        (Told c version config keys clock (setting has_sink s) s.wire)
        s
        (run_greeting c version fuel config keys has_sink clock s)
unfolding run_greeting
run_greeting_tells c version fuel config keys has_sink clock s h =
    let e = setting has_sink s in
    let f : Fits e s = record { kind = refl; peer = refl; faults = h } in
    let f' = written-Fits e (codes "RMBTv" ++ (version ++ codes "\n")) s f in
    let t = opened version s in
    let d =
      line_then c version config keys clock e s.wire fuel t
        (written-Fits e (codes "ACCEPT TOKEN QUIT\n") _ f') (opened-Given version s) in
    let both =
      write_behind e (codes "RMBTv" ++ (version ++ codes "\n")) _ s f
      ∙ write_behind e (codes "ACCEPT TOKEN QUIT\n") _ _ f' in
    subst (Did e (Told c version config keys clock e s.wire) s) (sym both) (record {
      lines = opening c version config keys clock e s.wire ++ d.lines;
      events = d.events;
      logged =
          Logged-trans e s t _ _ d.lines [] d.events
            (opened-Logged c version config keys clock e s f) d.logged;
      result = d.result;
    })
