-- ===== src/Events/Object.antt =====
-- The JSON builder of src/events.rs joins its fields with commas.
use open_rmbt_server.Common.{
  ℕ, suc, ◌≡◌, refl, sym, ap, ◌∙◌, ◌≢◌, inl, inr, Bool, true, false, List, [], ◌∷◌, ◌++◌,
  append_assoc, arith, ◌==◌, if◌then◌else◌, ==_iff, Bool-cases, All,
}
use open_rmbt_server.Int.{ℤ, pos, negsuc}
use open_rmbt_server.Text.{Bytes, codes, show, show_ℤ}
use open_rmbt_server.Text.Decimal.{Digit, show-Digit, show_non_empty}
use open_rmbt_server.Events.Escape.{json_escape, sep, json_key, json_str, json_int, json_bool}
use open_rmbt_server.Events.Bodies.{Floats, json_float}

-- The text ends with a character that is not `{`.
abbrev pub Ends : Bytes → Type 0
Ends [] = ⊥
Ends (c ∷ []) = c ≢ 123
Ends (c ∷ d ∷ s) = Ends (d ∷ s)

sep-Ends : (s : Bytes) → Ends s → sep s ≡ s ++ b',' ∷ []
unfolding sep
sep-Ends [] h = absurd h
sep-Ends (c ∷ []) h = elim (Bool-cases (c == 123)) [
  | inl b ↦ absurd (h ((==_iff c 123).0 b))
  | inr b ↦ rw b refl
]
sep-Ends (c ∷ d ∷ s) h = ap (◌∷◌ c) (sep-Ends (d ∷ s) h)

Ends-append : (s t : Bytes) → Ends t → Ends (s ++ t)
Ends-append [] t h = h
Ends-append (c ∷ []) [] h = absurd h
Ends-append (c ∷ []) (d ∷ t) h = h
Ends-append (c ∷ d ∷ s) t h = Ends-append (d ∷ s) t h

Ends-digits : (s : Bytes) → s ≢ [] → All Digit s → Ends s
Ends-digits [] n h = n refl
Ends-digits (c ∷ []) n h = λ e. absurd (omega (arith, e, h.0))
Ends-digits (c ∷ d ∷ s) n h = Ends-digits (d ∷ s) (λ e. cc) h.1

show-Ends : (n : ℕ) → Ends (show n)
show-Ends n = Ends-digits (show n) (show_non_empty n) (show-Digit n)

show_ℤ-Ends : (n : ℤ) → Ends (show_ℤ n)
unfolding show_ℤ
show_ℤ-Ends (pos n) = show-Ends n
show_ℤ-Ends (negsuc n) = Ends-append (b'-' ∷ []) (show (suc n)) (show-Ends (suc n))

-- The fields of an object.
pub data Field (fl : Floats) : Type 0 where
  str : Bytes → Bytes → Field fl
  int : Bytes → ℤ → Field fl
  bool : Bytes → Bool → Field fl
  float : Bytes → fl.F → Field fl

module _ (fl : Floats) where
  abbrev pub key_text : Bytes → Bytes
  key_text k = 34 ∷ (json_escape k ++ (34 ∷ b':' ∷ []))

  -- A field as it stands in the object.
  abbrev pub field_text : Field fl → Bytes
  field_text (str k v) = key_text k ++ (34 ∷ (json_escape v ++ (34 ∷ [])))
  field_text (int k v) = key_text k ++ show_ℤ v
  field_text (bool k v) = key_text k ++ (if v then codes "true" else codes "false")
  field_text (float k v) = key_text k ++ fl.fixed v

  -- The fields with commas in between.
  abbrev pub join : List Bytes → Bytes
  join [] = []
  join (x ∷ []) = x
  join (x ∷ y ∷ xs) = x ++ (b',' ∷ join (y ∷ xs))

  abbrev pub texts : List (Field fl) → List Bytes
  texts [] = []
  texts (f ∷ fs) = field_text f ∷ texts fs

  -- An object of these fields, without its last brace.
  abbrev pub open_object : List (Field fl) → Bytes
  open_object fs = b'{' ∷ join (texts fs)

  -- The builder's call for a field.
  abbrev pub add : Bytes → Field fl → Bytes
  add json (str k v) = json_str json k v
  add json (int k v) = json_int json k v
  add json (bool k v) = json_bool json k v
  add json (float k v) = json_float fl json k v

  -- The text of a number never ends with a brace.
  abbrev pub EndsWell : Type 0
  EndsWell = (v : fl.F) → Ends (fl.fixed v)

  field-Ends : EndsWell → (f : Field fl) → Ends (field_text f)
  field-Ends w (str k v) =
      Ends-append (key_text k) _ (Ends-append (34 ∷ json_escape v) (34 ∷ []) (omega arith))
  field-Ends w (int k v) = Ends-append (key_text k) _ (show_ℤ-Ends v)
  field-Ends w (bool k true) = Ends-append (key_text k) (codes "true") (omega arith)
  field-Ends w (bool k false) = Ends-append (key_text k) (codes "false") (omega arith)
  field-Ends w (float k v) = Ends-append (key_text k) _ (w v)

  add_text : (json : Bytes) (f : Field fl) → add json f ≡ sep json ++ field_text f
  unfolding json_str json_int json_bool json_float json_key
  add_text json (str k v) = append_assoc (sep json) (key_text k) _
  add_text json (int k v) = append_assoc (sep json) (key_text k) _
  add_text json (bool k v) = append_assoc (sep json) (key_text k) _
  add_text json (float k v) = append_assoc (sep json) (key_text k) _

  join-Ends : EndsWell → (f : Field fl) (fs : List (Field fl)) → Ends (join (texts (f ∷ fs)))
  join-Ends w f [] = field-Ends w f
  join-Ends w f (g ∷ fs) =
      Ends-append (field_text f) _
        (Ends-append (b',' ∷ []) (join (texts (g ∷ fs))) (join-Ends w g fs))

  join_snoc :
      (f g : Field fl) (fs : List (Field fl))
      → join (texts (f ∷ fs ++ g ∷ [])) ≡ join (texts (f ∷ fs)) ++ (b',' ∷ field_text g)
  join_snoc f g [] = refl
  join_snoc f g (h ∷ fs) =
      ap (λ t. field_text f ++ (b',' ∷ t)) (join_snoc h g fs)
      ∙ sym (append_assoc (field_text f) (b',' ∷ join (texts (h ∷ fs))) (b',' ∷ field_text g))

  -- The builder puts the next field behind the others.
  pub add-open_object :
      EndsWell
      → (fs : List (Field fl)) (g : Field fl) → add (open_object fs) g ≡ open_object (fs ++ g ∷ [])
  add-open_object w [] g = add_text (codes "{") g ∙ unfold sep in refl
  add-open_object w (f ∷ fs) g =
      add_text (open_object (f ∷ fs)) g
      ∙ ap (λ s. s ++ field_text g)
          (sep-Ends (open_object (f ∷ fs))
            (Ends-append (b'{' ∷ []) (join (texts (f ∷ fs))) (join-Ends w f fs)))
      ∙ append_assoc (open_object (f ∷ fs)) (b',' ∷ []) (field_text g)
      ∙ ap (◌∷◌ b'{') (sym (join_snoc f g fs))
