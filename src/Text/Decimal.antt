-- ===== src/Text/Decimal.antt =====
-- Printing a number and reading it back.
use open_rmbt_server.Common.{
  ℕ, zero, suc, ◌+◌, ◌/◌, ◌%◌, ◌≤◌, ◌<◌, ◌≡◌, ◌≢◌, inl, inr, [], ◌∷◌, arith, ltb, Bool-cases, All,
}
use open_rmbt_server.Text.Defs.{Bytes}
use open_rmbt_server.Text.Number.{parse_digits, show_onto, show}

abbrev pub Digit : ℕ → Type 0
Digit c = (b'0' ≤ c) × (c ≤ b'9')

parse_digits-show_onto :
    (limit f n : ℕ) (acc : Bytes)
    → n < f
    → n ≤ limit
    → parse_digits limit 0 (show_onto f n acc) ≡ parse_digits limit n acc
unfolding parse_digits show_onto
parse_digits-show_onto limit zero n acc h k = elim h [ ]
parse_digits-show_onto limit (suc f) n acc h k = elim (Bool-cases (ltb n 10)) [
  | inl small ↦ ground arith
  | inr big ↦ ground (arith, parse_digits-show_onto limit f (n / 10) ((b'0' + n % 10) ∷ acc))
]

pub show_onto-Digit : (f n : ℕ) (acc : Bytes) → All Digit acc → All Digit (show_onto f n acc)
unfolding show_onto
show_onto-Digit zero n acc h = h
show_onto-Digit (suc f) n acc h = ground (arith, show_onto-Digit f (n / 10) ((b'0' + n % 10) ∷ acc))

pub show-Digit : (n : ℕ) → All Digit (show n)
unfolding show
show-Digit n = show_onto-Digit (suc n) n [] tt

show_onto-cons : (f n c : ℕ) (s : Bytes) → show_onto f n (c ∷ s) ≢ []
unfolding show_onto
show_onto-cons zero n c s = λ e. cc
show_onto-cons (suc f) n c s = elim (Bool-cases (ltb n 10)) [
  | inl b ↦ rw (b, show_onto) (λ e. cc)
  | inr b ↦ rw (b, show_onto) (show_onto-cons f (n / 10) _ (c ∷ s))
]

pub show_non_empty : (n : ℕ) → show n ≢ []
unfolding show
show_non_empty n = elim (Bool-cases (ltb n 10)) [
  | inl b ↦ rw (b, show_onto) (λ e. cc)
  | inr b ↦ rw (b, show_onto) (show_onto-cons n (n / 10) _ [])
]
