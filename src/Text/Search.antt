-- ===== src/Text/Search.antt =====
-- What `==`, `strip_prefix` and `split_once` find.
use open_rmbt_server.Common.{
  ℕ, [], ◌∷◌, ◌++◌, ◌≡◌, ◌≢◌, ◌↔◌, refl, true, none, some, arith, ◌==◌, Bool-cases, inl, inr,
  Option-cases,
}
use open_rmbt_server.Text.Defs.{Bytes, eq_bytes, strip_prefix, split_once}

pub eq_bytes_iff : (a b : Bytes) → (eq_bytes a b ≡ true) ↔ (a ≡ b)
unfolding eq_bytes
eq_bytes_iff (x ∷ a) (y ∷ b) = ground (arith, eq_bytes_iff a b)
eq_bytes_iff _ _ = ground arith

pub strip_prefix-append : (p s : Bytes) → strip_prefix p (p ++ s) ≡ some s
unfolding strip_prefix
strip_prefix-append [] s = refl
strip_prefix-append (c ∷ p) s = ground (arith, strip_prefix-append p s)

pub strip_prefix-eq-some : (p s rest : Bytes) → strip_prefix p s ≡ some rest → s ≡ p ++ rest
unfolding strip_prefix
strip_prefix-eq-some [] s rest h = ground arith
strip_prefix-eq-some (c ∷ p) [] rest h = ground arith
strip_prefix-eq-some (c ∷ p) (d ∷ s) rest h = ground (arith, strip_prefix-eq-some p s rest)

-- The two parts and the pattern between them are the text.
pub split_once-eq-some : (p s a b : Bytes) → split_once p s ≡ some (a, b) → s ≡ a ++ (p ++ b)
unfolding split_once
split_once-eq-some [] [] a b h = ground arith
split_once-eq-some (x ∷ p) [] a b h = ground arith
split_once-eq-some p (c ∷ s) a b h = elim (Option-cases (strip_prefix p (c ∷ s))) [
  | inr (rest, e) ↦ ground (arith, strip_prefix-eq-some p (c ∷ s) rest e)
  | inl e ↦ elim (Option-cases (split_once p s)) [
    | inl absent ↦ ground arith
    | inr ((a', b'), f) ↦ ground (arith, split_once-eq-some p s a' b' f)
  ]
]

-- A text with no `c` in it.
abbrev pub Lacks : ℕ → Bytes → Type 0
Lacks c [] = Unit
Lacks c (x ∷ xs) = (x ≢ c) × Lacks c xs

pub split_once-char :
    (c : ℕ) (a b : Bytes) → Lacks c a → split_once (c ∷ []) (a ++ c ∷ b) ≡ some (a, b)
unfolding split_once strip_prefix
split_once-char c [] b h = ground arith
split_once-char c (x ∷ a) b h = ground (arith, split_once-char c a b h.1)

-- A pattern that begins with `c` is first found where the first `c` stands, if it fits there.
pub split_once-Lacks :
    (c : ℕ) (p a b : Bytes) → Lacks c a → split_once (c ∷ p) (a ++ (c ∷ p ++ b)) ≡ some (a, b)
unfolding split_once strip_prefix
split_once-Lacks c p [] b h = ground (arith, strip_prefix-append p b)
split_once-Lacks c p (x ∷ a) b h = ground (arith, split_once-Lacks c p a b h.1)

pub split_once-none : (c : ℕ) (p s : Bytes) → Lacks c s → split_once (c ∷ p) s ≡ none
unfolding split_once strip_prefix
split_once-none c p [] h = refl
split_once-none c p (x ∷ s) h = ground (arith, split_once-none c p s h.1)

pub Lacks-append : (c : ℕ) (a b : Bytes) → Lacks c a → Lacks c b → Lacks c (a ++ b)
Lacks-append c [] b ha hb = hb
Lacks-append c (x ∷ a) b ha hb = (ha.0, Lacks-append c a b ha.1 hb)

-- The part before the first `c` has no `c`.
pub split_once-Lacks_first :
    (c : ℕ) (s a b : Bytes) → split_once (c ∷ []) s ≡ some (a, b) → Lacks c a
unfolding split_once strip_prefix
split_once-Lacks_first c [] a b h = ground arith
split_once-Lacks_first c (x ∷ s) a b h = elim (Bool-cases (c == x)) [
  | inl e ↦ let nil : a ≡ [] = ground arith in rw nil tt
  | inr ne ↦ elim (Option-cases (split_once (c ∷ []) s)) [
    | inl absent ↦ ground arith
    | inr ((a', b'), f) ↦
        let cons : a ≡ x ∷ a' = ground arith in
        let apart : x ≢ c = λ e. ground arith in rw cons (apart, split_once-Lacks_first c s a' b' f)
  ]
]
