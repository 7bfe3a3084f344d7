-- ===== src/Stream/Taken.antt =====
-- What a call of `read_line` of src/stream/mod.rs takes of the bytes of a raw stream.
use open_rmbt_server.Common.{
  ℕ, zero, suc, ◌≤◌, ◌<◌, ◌≡◌, refl, sym, ap, ◌∙◌, subst, ◌⊎◌, inl, inr, true, false, Option, none,
  some, List, [], ◌∷◌, ◌++◌, arith, ltb, ◌==◌, Bool-cases, length, length-append,
}
use open_rmbt_server.Text.{Bytes}
use open_rmbt_server.Utf8.{is_utf8}
use open_rmbt_server.Io.{
  ErrorKind, StreamKind, raw, websocket, Frame, Outcome, ok, err, panic, stuck, Wire, after,
}
use open_rmbt_server.Stream.Defs.{
  read_until, last_is, is_starved, line_of, cut_off, read_line_raw, read_line_as, read_line,
  next_line,
}
use open_rmbt_server.Stream.Framing.{strip}

-- What a line that is read is made of.
abbrev Line : Wire → Bytes → Outcome Bytes × Wire → Type 0
Line w taken (ok l, v) =
    (l ≡ strip taken)
    × (is_utf8 l ≡ true)
    × (length taken ≤ 1024)
    × ((last_is b'\n' taken ≡ true) ⊎ ((v.input ≡ []) × (w.ending ≡ none)))
Line w taken (err e, v) = Unit
Line w taken (panic, v) = ⊥
Line w taken (stuck, v) = ⊥

-- A call of `read_line`, whatever its result.
pub record Taken (w : Wire) (x : Outcome Bytes × Wire) : Type 0 where
  pub taken : Bytes
  pub input : w.input ≡ taken ++ x.1.input
  pub size : length taken ≤ 1025
  pub newline : (before after : Bytes) → taken ≡ before ++ b'\n' ∷ after → after ≡ []
  pub line : Line w taken x

read_until_split : (n : ℕ) (s : Bytes) → s ≡ (read_until n s).0 ++ (read_until n s).1
unfolding read_until
read_until_split zero s = refl
read_until_split (suc n) [] = refl
read_until_split (suc n) (c ∷ s) = elim (Bool-cases (c == b'\n')) [
  | inl b ↦ rw b refl
  | inr b ↦ rw b (ap (◌∷◌ c) (read_until_split n s))
]

length-read_until_le : (n : ℕ) (s : Bytes) → length (read_until n s).0 ≤ n
unfolding read_until
length-read_until_le zero s = omega arith
length-read_until_le (suc n) [] = omega arith
length-read_until_le (suc n) (c ∷ s) = elim (Bool-cases (c == b'\n')) [
  | inl b ↦ rw b (omega arith)
  | inr b ↦ rw b (omega (arith, length-read_until_le n s))
]

-- The first newline is the last byte that is taken.
newline-read_until :
    (n : ℕ) (s before after : Bytes) → (read_until n s).0 ≡ before ++ b'\n' ∷ after → after ≡ []
unfolding read_until
newline-read_until zero s [] after h = absurd (cc h)
newline-read_until zero s (b ∷ before) after h = absurd (cc h)
newline-read_until (suc n) [] [] after h = absurd (cc h)
newline-read_until (suc n) [] (b ∷ before) after h = absurd (cc h)
newline-read_until (suc n) (c ∷ s) [] after h = elim (Bool-cases (c == b'\n')) [
  | inl b ↦ ground arith
  | inr b ↦ ground arith
]
newline-read_until (suc n) (c ∷ s) (x ∷ before) after h = elim (Bool-cases (c == b'\n')) [
  | inl b ↦ absurd (omega (arith, ap length (rw b at h), length-append before (b'\n' ∷ after)))
  | inr b ↦ newline-read_until n s before after (ground arith)
]

-- What the line is made of, when the input did not end before it, or ended cleanly.
line_of-Line :
    (w : Wire) (buf rest : Bytes)
    → (last_is b'\n' buf ≡ true) ⊎ (rest ≡ []) × (w.ending ≡ none) ⊎ (1024 < length buf)
    → Line w buf (line_of buf (record w { input = rest }))
unfolding line_of
line_of-Line w [] rest h = tt
line_of-Line w (c ∷ buf) rest h = elim (Bool-cases (ltb 1024 (length (c ∷ buf)))) [
  | inl b ↦ rw b tt
  | inr b ↦ rw b (elim (Bool-cases (is_utf8 (strip (c ∷ buf)))) [
    | inl u ↦ rw u (
      refl,
      u,
      ground arith,
      elim h [ inl l ↦ inl l | inr (inl e) ↦ inr e | inr (inr k) ↦ absurd (ground arith) ],
    )
    | inr u ↦ rw u tt
  ])
]

line_of-state : (buf : Bytes) (w : Wire) → (line_of buf w).1 ≡ w
unfolding line_of
line_of-state buf w = ground arith

last_is-cons : (b c : ℕ) (s : Bytes) → last_is b s ≡ true → last_is b (c ∷ s) ≡ true
unfolding last_is
last_is-cons b c [] h = absurd (cc h)
last_is-cons b c (d ∷ s) h = h

-- Why `read_until` stops.
read_until_stops :
    (n : ℕ) (s : Bytes)
    → (last_is b'\n' (read_until n s).0 ≡ true)
      ⊎ ((read_until n s).1 ≡ [])
      ⊎ (length (read_until n s).0 ≡ n)
unfolding read_until last_is
read_until_stops zero s = inr (inr refl)
read_until_stops (suc n) [] = inr (inl refl)
read_until_stops (suc n) (c ∷ s) = elim (Bool-cases (c == b'\n')) [
  | inl b ↦ rw b (inl b)
  | inr b ↦ rw b (elim (read_until_stops n s) [
    | inl l ↦ inl (last_is-cons b'\n' c (read_until n s).0 l)
    | inr (inl e) ↦ inr (inl e)
    | inr (inr k) ↦ inr (inr (ap suc k))
  ])
]

is_starved-rest : (line rest : Bytes) → is_starved line rest ≡ true → rest ≡ []
unfolding is_starved
is_starved-rest line [] h = refl
is_starved-rest line (c ∷ rest) h = absurd (cc h)

fed :
    (line rest : Bytes)
    → is_starved line rest ≡ false
    → (last_is b'\n' line ≡ true) ⊎ (rest ≡ []) ⊎ (length line ≡ 1025)
    → (last_is b'\n' line ≡ true) ⊎ (1024 < length line)
unfolding is_starved
fed line rest h (inl l) = inl l
fed line [] h (inr (inl e)) = elim (Bool-cases (last_is b'\n' line)) [
  | inl l ↦ inl l
  | inr l ↦ inr (ground arith)
]
fed line (c ∷ rest) h (inr (inl e)) = absurd (cc e)
fed line rest h (inr (inr k)) = inr (omega arith)

module _ (w : Wire) where
  took : Bytes × Bytes
  took = read_until 1025 w.input

  fed-Line : is_starved took.0 took.1 ≡ false → Line w took.0 (read_line_raw w)
  unfolding read_line_raw took
  fed-Line b = rw b (
      line_of-Line w took.0 took.1
        (elim (fed _ _ b (read_until_stops 1025 w.input)) [ inl l ↦ inl l | inr k ↦ inr (inr k) ]))

  cut_off-Line :
      (e : Option ErrorKind) (x : Outcome Bytes × Wire) (buf : Bytes)
      → w.ending ≡ e
      → (w.ending ≡ none → Line w buf x)
      → Line w buf (cut_off e x)
  cut_off-Line none x buf i h = h i
  cut_off-Line (some e) x buf i h = tt

  starved-Line : is_starved took.0 took.1 ≡ true → Line w took.0 (read_line_raw w)
  unfolding read_line_raw took
  starved-Line b = rw b (
      cut_off-Line w.ending _ took.0 refl
        λ clean. line_of-Line w took.0 took.1 (inr (inl (is_starved-rest took.0 took.1 b, clean))))

  cut_off-state : (e : Option ErrorKind) (x : Outcome Bytes × Wire) → (cut_off e x).1 ≡ x.1
  cut_off-state none x = refl
  cut_off-state (some e) x = refl

  read_line_raw-state : (read_line_raw w).1 ≡ record w { input = took.1 }
  unfolding read_line_raw took
  read_line_raw-state = elim (Bool-cases (is_starved took.0 took.1)) [
    | inl b ↦
        rw b (
          cut_off-state w.ending (line_of took.0 (record w { input = took.1 })) ∙ line_of-state _ _)
    | inr b ↦ rw b (line_of-state _ _)
  ]

  read_line_raw-Taken : Taken w (read_line_raw w)
  unfolding took
  read_line_raw-Taken = record {
    taken = took.0;
    input = read_until_split 1025 w.input ∙ ap (λ v. took.0 ++ v.input) (sym read_line_raw-state);
    size = length-read_until_le 1025 w.input;
    newline = newline-read_until 1025 w.input;
    line = elim (Bool-cases (is_starved took.0 took.1)) [
      | inl b ↦ starved-Line b
      | inr b ↦ fed-Line b
    ];
  }

  -- On a raw stream a call of `read_line` takes at most 1025 bytes and nothing behind the first
  -- newline, and leaves the rest to be read. A line that it returns is what it took without the line
  -- end, is UTF-8, at most 1024 bytes with its end, and ended by a newline, or by the clean end of
  -- the stream.
  pub read_line-Taken : w.kind ≡ raw → Taken w (read_line w)
  unfolding read_line read_line_as
  read_line-Taken k = subst (Taken w) (ap (λ q. read_line_as q w) (sym k)) read_line_raw-Taken

read_line_as-same :
    (k : StreamKind) (w : Wire)
    → (i : Bytes) × (fs : List Frame) × ((read_line_as k w).1 ≡ record w { input = i; frames = fs })
unfolding read_line_as
read_line_as-same raw w = ((took w).1, w.frames, read_line_raw-state w)
read_line_as-same websocket w = (w.input, (next_line w.frames).1, refl)

-- A call of `read_line` changes nothing of the connection but what is still to be read.
pub read_line-same :
    (w : Wire)
    → (i : Bytes) × (fs : List Frame) × ((read_line w).1 ≡ record w { input = i; frames = fs })
unfolding read_line
read_line-same w = read_line_as-same w.kind w
