-- ===== src/IpCheck/Proper.antt =====
-- The status and the extra lines of every answer of src/ip_check.rs keep to their lines.
use open_rmbt_server.Common.{
  ℕ, ◌≡◌, refl, subst, inl, inr, Bool, true, false, Option, none, some, List, [], ◌∷◌, ◌++◌, arith,
  if◌then◌else◌, All, Bool-cases, ltb,
}
use open_rmbt_server.Text.{Bytes, codes, eq_bytes}
use open_rmbt_server.Text.Adjacent.{IsPlain, IsPlain-append}
use open_rmbt_server.Address.{IpAddr}
use open_rmbt_server.Config.Defs.{SecretKey}
use open_rmbt_server.Crypto.{Crypto}
use open_rmbt_server.Io.{ok, Io, Wire, ◌>>=◌, pure}
use open_rmbt_server.Io.Laws.{>>=-ok, ok-injective}
use open_rmbt_server.Http.Plain.{IsField, fields_text}
use open_rmbt_server.IpCheck.Defs.{Parsers, Reply, good, refuse, Answer, is_json}
use open_rmbt_server.IpCheck.Statuses.{IsProper, ip_response-IsProper}
use open_rmbt_server.IpCheck.Echo.{KeepsPlain}
use open_rmbt_server.IpCheck.Handle.{
  Headers, Response, options_extra, answer_response, answer_body, post, drain, respond, max_body,
}

-- The fields that the extra lines of a response are.
pub record Proper (r : Response) : Type 0 where
  pub status : IsPlain (codes "HTTP/1.1 " ++ r.status)
  pub extra : List Bytes
  pub lines : r.extra ≡ fields_text extra
  pub fields : All IsField extra

-- Every result of the call is such.
pub record Gives {A : Type 0} (P : A → Type 0) (m : Io A) : Type 0 where
  pub run : (w : Wire) (a : A) → (m w).0 ≡ ok a → P a

module _ {B : Type 0} (P : B → Type 0) where
  then-Gives :
      {A : Type 0} (m : Io A) (f : A → Io B) → ((a : A) → Gives P (f a)) → Gives P (m >>= f)
  then-Gives m f k = record {
    run = λ w b h. let s = >>=-ok m f w b h in (k s.value).run (m w).1 b s.second;
  }

  pure-Gives : (b : B) → P b → Gives P (pure b)
  pure-Gives b p = record { run = λ w a h. subst P (ok-injective h) p }

  if-Gives : (b : Bool) (m k : Io B) → Gives P m → Gives P k → Gives P (if b then m else k)
  if-Gives true m k h i = h
  if-Gives false m k h i = i

-- A field that begins with a literal.
pub field : {x : ℕ} {l : Bytes} → IsPlain (x ∷ l) → IsField (x ∷ l)
field h = record { plain = h; some_text = λ e. absurd (cc e) }

module _ (c : Crypto) (t : Parsers) where
  -- An error with one of these statuses, and an extra line or none.
  bare-Proper :
      (status : Bytes) (body : Bytes) (detail : Option Bytes)
      → IsPlain (codes "HTTP/1.1 " ++ status)
      → Proper (record { status = status; extra = []; body = body; note = detail })
  bare-Proper status body detail h = record { status = h; extra = []; lines = refl; fields = tt }

  answer_response-Proper : (r : Reply Answer) → IsProper r → Proper (answer_response c t r)
  answer_response-Proper (good a) h =
      bare-Proper (codes "200 OK") a.json (some a.note) (omega arith)
  answer_response-Proper (refuse status msg) (inl e) =
      bare-Proper status _ none (rw e (omega arith))
  answer_response-Proper (refuse status msg) (inr e) =
      bare-Proper status _ none (rw e (omega arith))

  answer_body-Proper :
      (h : Headers) (buf : Bytes) (public : IpAddr) (keys : List SecretKey) (now : ℕ)
      → Proper (answer_body c t h buf public keys now)
  unfolding answer_body
  answer_body-Proper h buf public keys now = elim (Bool-cases (is_json h.content_type)) [
    | inl b ↦
        rw (b, answer_body)
          (answer_response-Proper _ (ip_response-IsProper c t buf public keys now))
    | inr b ↦
        rw (b, answer_body)
          (record {
            status = omega arith;
            extra = codes "Accept: application/json" ∷ [];
            lines = refl;
            fields = (field (omega arith), tt);
          })
  ]

  module _ (h : Headers) (keys : List SecretKey) (now : ℕ) where
    post-Proper : Gives Proper (post c t h keys now)
    unfolding post
    post-Proper = then-Gives Proper _ _ λ buf. then-Gives Proper _ _ λ u.
        then-Gives Proper _ _
          λ public. pure-Gives Proper _ (answer_body-Proper h buf public keys now)

    drain-Proper : (n : ℕ) → Gives Proper (drain c t n)
    unfolding drain
    drain-Proper n = then-Gives Proper _ _ λ buf.
        pure-Gives Proper _ (bare-Proper (codes "413 Content Too Large") _ none (omega arith))

    options-Proper :
        KeepsPlain h
        → Proper (record {
          status = codes "200 OK";
          extra = options_extra h.request_headers;
          body = [];
          note = none;
        })
    options-Proper k = record {
      status = omega arith;
      extra =
          codes "Access-Control-Allow-Methods: POST, OPTIONS"
          ∷ (codes "Access-Control-Allow-Headers: " ++ h.request_headers)
          ∷ codes "Access-Control-Max-Age: 1800"
          ∷ [];
      lines = refl;
      fields = (
        field (omega arith),
        (
          field (
              IsPlain-append (codes "Access-Control-Allow-Headers: ") h.request_headers
                (omega arith) k),
          (field (omega arith), tt),
        ),
      );
    }

    pub respond-Proper :
        (method : Bytes) → KeepsPlain h → Gives Proper (respond c t method h keys now)
    unfolding respond
    respond-Proper method k =
        if-Gives Proper (eq_bytes method (codes "OPTIONS")) _ _
          (pure-Gives Proper _ (options-Proper k))
          (if-Gives Proper (eq_bytes method (codes "POST")) _ _
            (if-Gives Proper h.chunked _ _
              (pure-Gives Proper _ (bare-Proper (codes "411 Length Required") _ none (omega arith)))
              (if-Gives Proper (ltb max_body h.content_length) _ _ (drain-Proper _) post-Proper))
            (pure-Gives Proper _ (record {
              status = omega arith;
              extra = codes "Allow: POST, OPTIONS" ∷ [];
              lines = refl;
              fields = (field (omega arith), tt);
            })))
