-- ===== src/Greeting/FirstLine.antt =====
-- The line that run_greeting of src/protocol/greeting.rs takes from the client: the first one that is
-- not blank.
use open_rmbt_server.Common.{
  ℕ, zero, suc, ◌≡◌, refl, sym, ap, ◌∙◌, subst, Bool, true, false, List, if◌then◌else◌, is_empty,
  Option, none, some, arith,
}
use open_rmbt_server.Text.{Bytes, trim}
use open_rmbt_server.Io.{
  ErrorKind, StreamKind, raw, websocket, Message, Outcome, ok, err, panic, stuck, Wire,
}
use open_rmbt_server.Stream.Defs.{
  read_line, read_line_as, read_line_raw, line_of, cut_off, is_starved, read_until,
}
use open_rmbt_server.Greeting.Defs.{State, after, ◌>>=◌, pure, on, token_line, out_of_fuel}

-- What comes of reading lines until one is not blank: that line, or the error of a read.
pub data Reads : Wire → Outcome Bytes → Type 0 where
  line :
      {w : Wire} {l : Bytes} → (read_line w).0 ≡ ok l → is_empty (trim l) ≡ false → Reads w (ok l)
  fails : {w : Wire} {k : ErrorKind} → (read_line w).0 ≡ err k → Reads w (err k)
  blank :
      {w : Wire} {l : Bytes} {r : Outcome Bytes}
      → (read_line w).0 ≡ ok l
      → is_empty (trim l) ≡ true
      → Reads (read_line w).1 r
      → Reads w r

-- The same for an outcome that is a line or an error.
abbrev pub Given : Wire → Outcome Bytes → Type 0
Given w (ok l) = Reads w (ok l)
Given w (err k) = Reads w (err k)
Given w panic = Unit
Given w stuck = Unit

blank-Given :
    (w : Wire) (l : Bytes) (r : Outcome Bytes)
    → (read_line w).0 ≡ ok l
    → is_empty (trim l) ≡ true
    → Given (read_line w).1 r
    → Given w r
blank-Given w l (ok x) e b g = blank e b g
blank-Given w l (err k) e b g = blank e b g
blank-Given w l panic e b g = tt
blank-Given w l stuck e b g = tt

pub token_line-Given : (n : ℕ) (s : State) → Given s.wire (token_line n s).0
unfolding token_line ◌>>=◌ on out_of_fuel pure
token_line-Given zero s = tt
token_line-Given (suc n) s =
    step (token_line-Given n (record s { wire = (read_line s.wire).1 })) (read_line s.wire).0 refl
  where
    t : State
    t = record s { wire = (read_line s.wire).1 }

    branch :
        Given t.wire (token_line n t).0
        → (l : Bytes) (b : Bool) → (read_line s.wire).0 ≡ ok l
        → is_empty (trim l) ≡ b
        → Given s.wire ((if b then token_line n else pure l) t).0
    branch rest l true e b = blank-Given s.wire l _ e b rest
    branch rest l false e b = line e b

    step :
        Given t.wire (token_line n t).0
        → (r : Outcome Bytes) → (read_line s.wire).0 ≡ r
        → Given s.wire (after r t λ l. if is_empty (trim l) then token_line n else pure l).0
    step rest (ok l) e = branch rest l (is_empty (trim l)) e refl
    step rest (err k) e = fails e
    step rest panic e = tt
    step rest stuck e = tt

-- Reading does not depend on what was sent.
abbrev with_sent : List Message → Wire → Wire
with_sent m w = record w { sent = m }

abbrev sent_too : List Message → Outcome Bytes × Wire → Outcome Bytes × Wire
sent_too m x = (x.0, with_sent m x.1)

line_of-sent :
    (m : List Message) (buf : Bytes) (w : Wire)
    → line_of buf (with_sent m w) ≡ sent_too m (line_of buf w)
unfolding line_of
line_of-sent m buf w = ground arith

read_line_raw-sent :
    (m : List Message) (w : Wire) → read_line_raw (with_sent m w) ≡ sent_too m (read_line_raw w)
unfolding read_line_raw
read_line_raw-sent m w =
    let (buf, rest) = read_until 1025 w.input in
    cut (is_starved buf rest) w.ending _ _ (line_of-sent m buf (record w { input = rest }))
  where
    cut :
        (b : Bool) (o : Option ErrorKind) (x y : Outcome Bytes × Wire)
        → x ≡ sent_too m y
        → (if b then cut_off o x else x) ≡ sent_too m (if b then cut_off o y else y)
    cut false o x y e = e
    cut true none x y e = e
    cut true (some k) x y e = ap (λ z. (err k, z.1)) e

read_line_as-sent :
    (k : StreamKind) (m : List Message) (w : Wire)
    → read_line_as k (with_sent m w) ≡ sent_too m (read_line_as k w)
unfolding read_line_as
read_line_as-sent raw m w = read_line_raw-sent m w
read_line_as-sent websocket m w = refl

read_line-sent :
    (m : List Message) (w : Wire) → read_line (with_sent m w) ≡ sent_too m (read_line w)
unfolding read_line
read_line-sent m w = read_line_as-sent w.kind m w

pub Reads-sent :
    (m : List Message) {w : Wire} {r : Outcome Bytes} → Reads w r → Reads (with_sent m w) r
Reads-sent m {w} (line e b) = line (ap (λ x. x.0) (read_line-sent m w) ∙ e) b
Reads-sent m {w} (fails e) = fails (ap (λ x. x.0) (read_line-sent m w) ∙ e)
Reads-sent m {w} (blank {r = r} e b h) =
    blank (ap (λ x. x.0) (read_line-sent m w) ∙ e) b
      (subst (λ v. Reads v r) (sym (ap (λ x. x.1) (read_line-sent m w))) (Reads-sent m h))
