-- ===== src/Commands/Blocks.antt =====
-- What a block that src/protocol/commands.rs reads from a raw stream is.
use open_rmbt_server.Common.{
  ℕ, zero, suc, ◌≤◌, ◌<◌, ◌≡◌, refl, sym, ap, Bool, true, false, Option, none, some, [], ◌∷◌, arith,
  leb, if◌then◌else◌, leb→le, length, get_elem?, take, drop,
}
use open_rmbt_server.Text.{Bytes}
use open_rmbt_server.Io.{StreamKind, raw, websocket, Outcome, ok, err, panic, stuck, Wire}
use open_rmbt_server.Io
use open_rmbt_server.Stream.Defs.{read_exact_as, read_exact}
use open_rmbt_server.Commands.Defs.{Session, some_or_panic}

pub get_elem?-take : (n i : ℕ) (xs : Bytes) → i < n → get_elem? (take n xs) i ≡ get_elem? xs i
get_elem?-take zero i xs h = absurd (omega arith)
get_elem?-take (suc n) i [] h = refl
get_elem?-take (suc n) zero (x ∷ xs) h = refl
get_elem?-take (suc n) (suc i) (x ∷ xs) h = get_elem?-take n i xs (omega arith)

-- A block read from a raw stream.
pub record Block (n : ℕ) (w : Wire) (x : Outcome Bytes × Wire) (buf : Bytes) : Type 0 where
  pub enough : n ≤ length w.input
  pub bytes : buf ≡ take n w.input
  pub wire : x.1 ≡ record w { input = drop n w.input }

pub ok-injective : {A : Type 0} {a b : A} → ok a ≡ ok b → a ≡ b
ok-injective e = cc e

abbrev block_read : Bool → ℕ → Wire → Outcome Bytes × Wire
block_read b n w =
    if b
    then (ok (take n w.input), record w { input = drop n w.input })
    else (err (Io.end_error w), record w { input = [] })

raw-Block :
    (n : ℕ) (w : Wire) (buf : Bytes) (b : Bool)
    → leb n (length w.input) ≡ b
    → (block_read b n w).0 ≡ ok buf
    → Block n w (block_read b n w) buf
raw-Block n w buf true e h = record {
  enough = leb→le n (length w.input) e;
  bytes = sym (ok-injective h);
  wire = refl;
}
raw-Block n w buf false e h = absurd (cc h)

read_exact_as-Block :
    (k : StreamKind) (n : ℕ) (w : Wire) (buf : Bytes)
    → k ≡ raw
    → (read_exact_as k n w).0 ≡ ok buf
    → Block n w (read_exact_as k n w) buf
unfolding read_exact_as
read_exact_as-Block raw n w buf e h = raw-Block n w buf (leb n (length w.input)) refl h
read_exact_as-Block websocket n w buf e h = absurd (cc e)

pub read_exact-Block :
    (n : ℕ) (w : Wire) (buf : Bytes)
    → w.kind ≡ raw
    → (read_exact n w).0 ≡ ok buf
    → Block n w (read_exact n w) buf
unfolding read_exact
read_exact-Block n w buf k h = read_exact_as-Block w.kind n w buf k h

pub some_or_panic-ok :
    {A : Type 0} (o : Option A) (s : Session) (a : A)
    → (some_or_panic o s).0 ≡ ok a
    → (o ≡ some a) × ((some_or_panic o s).1 ≡ s)
unfolding some_or_panic
some_or_panic-ok none s a h = absurd (cc h)
some_or_panic-ok (some b) s a h = (ap some (ok-injective h), refl)
