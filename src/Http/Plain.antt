-- ===== src/Http/Plain.antt =====
-- Header fields that keep to one line, and where the head of an HTTP message ends.
use open_rmbt_server.Common.{
  ℕ, ◌≡◌, ◌≢◌, refl, sym, ap, ◌∙◌, Option, none, some, List, [], ◌∷◌, ◌++◌, append-nil,
  append_assoc, arith, All, Option-cases, inl, inr,
}
use open_rmbt_server.Text.{Bytes, strip_prefix, split_once}
use open_rmbt_server.Text.Adjacent.{IsPlain}
use open_rmbt_server.Http.Defs.{eol, blank_line}

IsPlain-tail : (c : ℕ) (s : Bytes) → IsPlain (c ∷ s) → IsPlain s
IsPlain-tail c [] h = tt
IsPlain-tail c (d ∷ s) h = h.1

-- The text with `a` in front of what was found.
abbrev behind : Bytes → Option (Bytes × Bytes) → Option (Bytes × Bytes)
behind a none = none
behind a (some (b, r)) = some (a ++ b, r)

-- A blank line does not begin inside a plain text.
starts :
    (c : ℕ) (s u : Bytes)
    → IsPlain (c ∷ s)
    → strip_prefix blank_line (c ∷ (s ++ b'\r' ∷ b'\n' ∷ u)) ≡ none
unfolding strip_prefix
starts c [] u h = ground arith
starts c (d ∷ s) u h = ground (arith, h.0)

-- Nor in the line end behind it, if a plain text follows.
between :
    (m u : Bytes)
    → m ≢ []
    → IsPlain m
    → strip_prefix blank_line (b'\r' ∷ b'\n' ∷ (m ++ b'\r' ∷ u)) ≡ none
unfolding strip_prefix
between [] u n h = absurd (n refl)
between (x ∷ []) u n h = ground (arith, h)
between (x ∷ y ∷ m) u n h = ground (arith, h.0)

split_once-step :
    (p : Bytes) (c : ℕ) (s : Bytes)
    → strip_prefix p (c ∷ s) ≡ none
    → split_once p (c ∷ s) ≡ behind (c ∷ []) (split_once p s)
unfolding split_once
split_once-step p c s h = elim (Option-cases (split_once p s)) [
  | inl e ↦ rw (h, e, split_once) refl
  | inr (x, e) ↦ rw (h, e, split_once) refl
]

behind-append :
    (a b : Bytes) (o : Option (Bytes × Bytes)) → behind a (behind b o) ≡ behind (a ++ b) o
behind-append a b none = refl
behind-append a b (some (x, r)) = ap (λ y. some (y, r)) (sym (append_assoc a b x))

-- The search goes past a plain text.
past :
    (l u : Bytes)
    → IsPlain l
    → split_once blank_line (l ++ b'\r' ∷ b'\n' ∷ u)
      ≡ behind l (split_once blank_line (b'\r' ∷ b'\n' ∷ u))
past [] u h = sym (behind-nil (split_once blank_line (b'\r' ∷ b'\n' ∷ u)))
  where
    behind-nil : (o : Option (Bytes × Bytes)) → behind [] o ≡ o
    behind-nil none = refl
    behind-nil (some (x, r)) = refl
past (c ∷ l) u h =
    split_once-step blank_line c (l ++ b'\r' ∷ b'\n' ∷ u) (starts c l u h)
    ∙ ap (behind (c ∷ [])) (past l u (IsPlain-tail c l h))
    ∙ behind-append (c ∷ []) l (split_once blank_line (b'\r' ∷ b'\n' ∷ u))

-- And past a line end that a plain text follows.
past_eol :
    (m u : Bytes)
    → m ≢ []
    → IsPlain m
    → split_once blank_line (b'\r' ∷ b'\n' ∷ (m ++ b'\r' ∷ u))
      ≡ behind eol (split_once blank_line (m ++ b'\r' ∷ u))
unfolding strip_prefix
past_eol m u n h =
    split_once-step blank_line b'\r' (b'\n' ∷ (m ++ b'\r' ∷ u)) (between m u n h)
    ∙ ap (behind (b'\r' ∷ [])) (split_once-step blank_line b'\n' (m ++ b'\r' ∷ u) refl)
    ∙ behind-append (b'\r' ∷ []) (b'\n' ∷ []) _

-- A header field: plain, and not empty.
pub record IsField (l : Bytes) : Type 0 where
  pub plain : IsPlain l
  pub some_text : l ≢ []

-- A message: its fields, each behind a line end, a blank line, and the body.
abbrev pub fields_text : List Bytes → Bytes
fields_text [] = []
fields_text (l ∷ ls) = l ++ (eol ++ fields_text ls)

abbrev pub message_text : List Bytes → Bytes → Bytes
message_text ls body = fields_text ls ++ (eol ++ body)

-- The head as a reader has it, without the last line end.
abbrev pub head_of : Bytes → List Bytes → Bytes
head_of l [] = l
head_of l (m ∷ ls) = l ++ (eol ++ head_of m ls)

pub message_text-cons :
    (l : Bytes) (ls : List Bytes) (body : Bytes)
    → message_text (l ∷ ls) body ≡ l ++ b'\r' ∷ b'\n' ∷ message_text ls body
message_text-cons l ls body = append_assoc l (eol ++ fields_text ls) (eol ++ body)

pub message_text-append :
    (ls ms : List Bytes) (body : Bytes)
    → message_text (ls ++ ms) body ≡ fields_text ls ++ message_text ms body
message_text-append [] ms body = refl
message_text-append (l ∷ ls) ms body =
    message_text-cons l (ls ++ ms) body
    ∙ ap (λ x. l ++ (eol ++ x)) (message_text-append ls ms body)
    ∙ sym (append_assoc l (eol ++ fields_text ls) (message_text ms body))

split_once_here : (body : Bytes) → split_once blank_line (blank_line ++ body) ≡ some ([], body)
unfolding split_once strip_prefix
split_once_here body = refl

-- Whoever looks for the blank line finds the one that ends the head.
pub split_once-message_text :
    (l : Bytes) (ls : List Bytes) (body : Bytes)
    → All IsField (l ∷ ls)
    → split_once blank_line (message_text (l ∷ ls) body) ≡ some (head_of l ls, body)
split_once-message_text l [] body h =
    ap (split_once blank_line) (message_text-cons l [] body)
    ∙ past l (b'\r' ∷ b'\n' ∷ body) h.0.plain
    ∙ ap (behind l) (split_once_here body)
    ∙ ap (λ a. some (a, body)) (append-nil l)
split_once-message_text l (m ∷ ls) body h =
    let u = b'\n' ∷ message_text ls body in
    let next = message_text-cons m ls body in
    ap (split_once blank_line) (message_text-cons l (m ∷ ls) body)
    ∙ past l (message_text (m ∷ ls) body) h.0.plain
    ∙ ap (λ x. behind l (split_once blank_line (b'\r' ∷ b'\n' ∷ x))) next
    ∙ ap (behind l) (past_eol m u h.1.0.some_text h.1.0.plain)
    ∙ ap (λ x. behind l (behind eol (split_once blank_line x))) (sym next)
    ∙ ap (λ x. behind l (behind eol x)) (split_once-message_text m ls body h.1)
