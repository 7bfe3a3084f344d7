-- ===== src/Io/Laws.antt =====
-- What the monad of `io::Result` and its calls do with an outcome.
use open_rmbt_server.Common.{◌≡◌, refl, Option, none, some, List, [], ◌∷◌, ◌++◌}
use open_rmbt_server.Io.{
  ErrorKind, Message, Outcome, ok, err, panic, stuck, Io, Wire, after, ◌>>=◌, put_with, put,
}

-- A sequence that succeeds: what its first part returned, and what came of that.
pub record Succeeds {A B : Type 0} (m : Io A) (f : A → Io B) (w : Wire) (b : B) : Type 0 where
  pub value : A
  pub first : (m w).0 ≡ ok value
  pub second : (f value (m w).1).0 ≡ ok b
  pub wire : ((m >>= f) w).1 ≡ (f value (m w).1).1

pub ok-injective : {A : Type 0} {a b : A} → ok a ≡ ok b → a ≡ b
ok-injective e = cc e

module _ {A B : Type 0} where
  after-ok :
      (r : Outcome A) (w : Wire) (f : A → Io B) (b : B)
      → (after r w f).0 ≡ ok b
      → (a : A) × (r ≡ ok a) × ((f a w).0 ≡ ok b) × ((after r w f).1 ≡ (f a w).1)
  after-ok (ok a) w f b h = (a, refl, h, refl)
  after-ok (err e) w f b h = absurd (cc h)
  after-ok panic w f b h = absurd (cc h)
  after-ok stuck w f b h = absurd (cc h)

  pub >>=-ok :
      (m : Io A) (f : A → Io B) (w : Wire) (b : B) → ((m >>= f) w).0 ≡ ok b → Succeeds m f w b
  unfolding ◌>>=◌
  >>=-ok m f w b h =
      let (a, x, y, z) = after-ok (m w).0 (m w).1 f b h in
      record { value = a; first = x; second = y; wire = z }

put_with-sent :
    (fs : List (Option ErrorKind)) (m : Message) (w : Wire) {u : Unit {0}}
    → (put_with fs m w).0 ≡ ok u
    → (put_with fs m w).1.sent ≡ w.sent ++ m ∷ []
unfolding put_with
put_with-sent [] m w h = refl
put_with-sent (none ∷ fs) m w h = refl
put_with-sent (some e ∷ fs) m w h = absurd (cc h)

-- A write that succeeds is recorded.
pub put-sent :
    (m : Message) (w : Wire) {u : Unit {0}}
    → (put m w).0 ≡ ok u
    → (put m w).1.sent ≡ w.sent ++ m ∷ []
unfolding put
put-sent m w h = put_with-sent w.faults m w h
