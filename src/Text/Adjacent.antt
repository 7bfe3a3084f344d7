-- ===== src/Text/Adjacent.antt =====
-- Bytes that never stand next to one another in a text, and what keeps it so: splitting and trimming.
use open_rmbt_server.Common.{
  ◌⊎◌, ℕ, zero, suc, ◌+◌, ◌≤◌, ◌<◌, ◌≡◌, ◌≢◌, refl, sym, ap, ◌∙◌, subst, none, some, List, [], ◌∷◌,
  ◌++◌, append_assoc, arith, All, Option-cases, inl, inr, length, length-append, length-drop, drop,
  reverse,
}
use open_rmbt_server.Text.Defs.{
  Bytes, strip_prefix, split_once, split_crlf_fuel, split_crlf, rest_of,
}
use open_rmbt_server.Text.White.{
  front_width, back_width, drop_front, drop_back, trim_start, trim_end, trim,
}
use mathlib.Core.List.{reverse_aux}
use open_rmbt_server.Text.Search.{split_once-eq-some}

-- `a` is never directly followed by `b`.
abbrev pub Apart : ℕ → ℕ → Bytes → Type 0
Apart a b [] = Unit
Apart a b (c ∷ []) = Unit
Apart a b (c ∷ d ∷ s) = (c ≡ a → d ≢ b) × Apart a b (d ∷ s)

module _ (a b : ℕ) where
  Apart-tail : (c : ℕ) (s : Bytes) → Apart a b (c ∷ s) → Apart a b s
  Apart-tail c [] h = tt
  Apart-tail c (d ∷ s) h = h.1

  pub Apart-drop : (n : ℕ) (s : Bytes) → Apart a b s → Apart a b (drop n s)
  Apart-drop zero s h = h
  Apart-drop (suc n) [] h = tt
  Apart-drop (suc n) (c ∷ s) h = Apart-drop n s (Apart-tail c s h)

  pub Apart-back : (s t : Bytes) → Apart a b (s ++ t) → Apart a b t
  Apart-back [] t h = h
  Apart-back (c ∷ s) t h = Apart-back s t (Apart-tail c (s ++ t) h)

-- No CR LF in it, and no CR at its end.
abbrev pub IsPlain : Bytes → Type 0
IsPlain [] = Unit
IsPlain (c ∷ []) = c ≢ b'\r'
IsPlain (c ∷ d ∷ s) = (c ≡ b'\r' → d ≢ b'\n') × IsPlain (d ∷ s)

pub IsPlain-append : (a b : Bytes) → IsPlain a → IsPlain b → IsPlain (a ++ b)
IsPlain-append [] b h k = k
IsPlain-append (c ∷ []) [] h k = h
IsPlain-append (c ∷ []) (d ∷ b) h k = ((λ e. absurd (h e)), k)
IsPlain-append (c ∷ d ∷ a) b h k = (h.0, IsPlain-append (d ∷ a) b h.1 k)

-- Read backwards.
reverse_aux-Apart :
    (d : ℕ) (s r : Bytes)
    → Apart b'\r' b'\n' (d ∷ s)
    → Apart b'\n' b'\r' (d ∷ r)
    → Apart b'\n' b'\r' (reverse_aux s (d ∷ r))
reverse_aux-Apart d [] r h k = k
reverse_aux-Apart d (e ∷ s) r h k = reverse_aux-Apart e s (d ∷ r) h.1 ((λ p q. h.0 q p), k)

reverse-Apart : (s : Bytes) → Apart b'\r' b'\n' s → Apart b'\n' b'\r' (reverse s)
reverse-Apart [] h = tt
reverse-Apart (c ∷ s) h = reverse_aux-Apart c s [] h tt

reverse_aux-IsPlain :
    (d : ℕ) (s r : Bytes)
    → Apart b'\n' b'\r' (d ∷ s)
    → IsPlain (d ∷ r)
    → IsPlain (reverse_aux s (d ∷ r))
reverse_aux-IsPlain d [] r h k = k
reverse_aux-IsPlain d (e ∷ s) r h k = reverse_aux-IsPlain e s (d ∷ r) h.1 ((λ p q. h.0 q p), k)

-- What stands at the front when nothing is trimmed there.
not_return : (c : ℕ) (s : Bytes) → back_width (c ∷ s) ≡ 0 → c ≢ b'\r'
unfolding back_width
not_return c [] h e = ground arith
not_return c (x ∷ []) h e = ground arith
not_return c (x ∷ y ∷ s) h e = ground arith

reverse-IsPlain : (s : Bytes) → Apart b'\n' b'\r' s → back_width s ≡ 0 → IsPlain (reverse s)
reverse-IsPlain [] h w = tt
reverse-IsPlain (c ∷ s) h w = reverse_aux-IsPlain c s [] h (not_return c s w)

zero_or_suc : (k : ℕ) → (k ≡ 0) ⊎ ((j : ℕ) × (k ≡ suc j))
zero_or_suc zero = inl refl
zero_or_suc (suc j) = inr (j, refl)

-- Nothing more is trimmed from what is left.
drop_back-back_width : (n : ℕ) (s : Bytes) → length s ≤ n → back_width (drop_back n s) ≡ 0
unfolding drop_back
drop_back-back_width zero [] h = unfold back_width in refl
drop_back-back_width zero (c ∷ s) h = absurd (omega (arith, h))
drop_back-back_width (suc n) s h = elim (zero_or_suc (back_width s)) [
  | inl e ↦ rw (e, drop_back) e
  | inr (j, e) ↦
      rw (e, drop_back)
        (drop_back-back_width n (drop (suc j) s) (omega (arith, length-drop (suc j) s, h)))
]

drop_back-Apart : (n : ℕ) (s : Bytes) → Apart b'\n' b'\r' s → Apart b'\n' b'\r' (drop_back n s)
unfolding drop_back
drop_back-Apart zero s h = h
drop_back-Apart (suc n) s h = elim (zero_or_suc (back_width s)) [
  | inl e ↦ rw (e, drop_back) h
  | inr (j, e) ↦
      rw (e, drop_back) (drop_back-Apart n (drop (suc j) s) (Apart-drop b'\n' b'\r' (suc j) s h))
]

drop_front-Apart : (n : ℕ) (s : Bytes) → Apart b'\r' b'\n' s → Apart b'\r' b'\n' (drop_front n s)
unfolding drop_front
drop_front-Apart zero s h = h
drop_front-Apart (suc n) s h = elim (zero_or_suc (front_width s)) [
  | inl e ↦ rw (e, drop_front) h
  | inr (j, e) ↦
      rw (e, drop_front) (drop_front-Apart n (drop (suc j) s) (Apart-drop b'\r' b'\n' (suc j) s h))
]

length-reverse_aux : (s r : Bytes) → length (reverse_aux s r) ≡ length s + length r
length-reverse_aux [] r = omega arith
length-reverse_aux (c ∷ s) r = omega (arith, length-reverse_aux s (c ∷ r))

-- A trimmed text with no CR LF in it has no CR at its end either.
pub trim-IsPlain : (s : Bytes) → Apart b'\r' b'\n' s → IsPlain (trim s)
unfolding trim trim_start trim_end
trim-IsPlain s h =
    let t = drop_front (length s) s in
    let a =
      drop_back-Apart (length t) (reverse t) (reverse-Apart t (drop_front-Apart (length s) s h)) in
    reverse-IsPlain _ a
      (drop_back-back_width (length t) (reverse t) (omega (arith, length-reverse_aux t [])))

-- The pieces between line ends.
-- What is known where the search goes on behind the first byte.
goes_on :
    (c : ℕ) (s : Bytes)
    → strip_prefix (b'\r' ∷ b'\n' ∷ []) (c ∷ s) ≡ none
    → Apart b'\r' b'\n' s
    → Apart b'\r' b'\n' (c ∷ s)
unfolding strip_prefix
goes_on c [] e h = tt
goes_on c (d ∷ s) e h = ((λ i j. ground arith), h)

split_once-Apart : (s : Bytes) → split_once (b'\r' ∷ b'\n' ∷ []) s ≡ none → Apart b'\r' b'\n' s
unfolding split_once
split_once-Apart [] h = tt
split_once-Apart (c ∷ s) h = elim (Option-cases (strip_prefix (b'\r' ∷ b'\n' ∷ []) (c ∷ s))) [
  | inr (r, e) ↦ absurd (ground (arith, e))
  | inl e ↦ elim (Option-cases (split_once (b'\r' ∷ b'\n' ∷ []) s)) [
    | inl f ↦ goes_on c s e (split_once-Apart s f)
    | inr (x, f) ↦ absurd (ground (arith, e, f))
  ]
]

Apart-front : (a t : Bytes) → Apart b'\r' b'\n' (a ++ t) → Apart b'\r' b'\n' a
Apart-front [] t h = tt
Apart-front (c ∷ []) t h = tt
Apart-front (c ∷ d ∷ a) t h = (h.0, Apart-front (d ∷ a) t h.1)

goes_on_first :
    (c : ℕ) (s x y : Bytes)
    → strip_prefix (b'\r' ∷ b'\n' ∷ []) (c ∷ s) ≡ none
    → s ≡ x ++ (b'\r' ∷ b'\n' ∷ y)
    → Apart b'\r' b'\n' x
    → Apart b'\r' b'\n' (c ∷ x)
unfolding strip_prefix
goes_on_first c s [] y e f h = tt
goes_on_first c s (d ∷ x) y e f h = ((λ i j. ground (arith, e, f)), h)

split_once-Apart_first :
    (s a b : Bytes) → split_once (b'\r' ∷ b'\n' ∷ []) s ≡ some (a, b) → Apart b'\r' b'\n' a
unfolding split_once
split_once-Apart_first [] a b h = absurd (cc h)
split_once-Apart_first (c ∷ s) a b h =
    elim (Option-cases (strip_prefix (b'\r' ∷ b'\n' ∷ []) (c ∷ s))) [
      | inr (r, e) ↦ let nil : a ≡ [] = ground (arith, e) in rw nil tt
      | inl e ↦ elim (Option-cases (split_once (b'\r' ∷ b'\n' ∷ []) s)) [
        | inl f ↦ absurd (ground (arith, e, f))
        | inr ((x, y), f) ↦
            let cons : a ≡ c ∷ x = ground (arith, e, f) in
            rw cons (
              goes_on_first c s x y e (split_once-eq-some (b'\r' ∷ b'\n' ∷ []) s x y f)
                (split_once-Apart_first s x y f))
      ]
    ]

split_crlf_fuel-Apart :
    (n : ℕ) (s : Bytes) → length s < n → All (Apart b'\r' b'\n') (split_crlf_fuel n s)
unfolding split_crlf_fuel
split_crlf_fuel-Apart zero s h = absurd (omega (arith, h))
split_crlf_fuel-Apart (suc n) s h = elim (Option-cases (split_once (b'\r' ∷ b'\n' ∷ []) s)) [
  | inl e ↦ rw (e, split_crlf_fuel) (split_once-Apart s e, tt)
  | inr ((a, b), e) ↦
      let size =
        ap length (split_once-eq-some (b'\r' ∷ b'\n' ∷ []) s a b e)
        ∙ length-append a (b'\r' ∷ b'\n' ∷ b) in
      rw (e, split_crlf_fuel)
        (split_once-Apart_first s a b e, split_crlf_fuel-Apart n b (omega (arith, h, size)))
]

pub split_crlf-Apart : (s : Bytes) → All (Apart b'\r' b'\n') (split_crlf s)
unfolding split_crlf
split_crlf-Apart s = split_crlf_fuel-Apart (suc (length s)) s (omega arith)

pub rest_of-Apart :
    (ls : List Bytes) → All (Apart b'\r' b'\n') ls → All (Apart b'\r' b'\n') (rest_of ls)
rest_of-Apart [] h = tt
rest_of-Apart (l ∷ ls) h = h.1

-- The value of a header line.
pub split_once-Apart_rest :
    (l name value : Bytes)
    → Apart b'\r' b'\n' l
    → split_once (b':' ∷ []) l ≡ some (name, value)
    → Apart b'\r' b'\n' value
split_once-Apart_rest l name value h e = Apart-back b'\r' b'\n' (name ++ b':' ∷ []) value (
    subst (Apart b'\r' b'\n')
      (split_once-eq-some (b':' ∷ []) l name value e ∙ sym (append_assoc name (b':' ∷ []) value)) h)
