-- ===== src/IpCheck/Echo.antt =====
-- The request's header that src/ip_check.rs echoes keeps to one line.
use open_rmbt_server.Common.{
  ◌≡◌, sym, ap, ◌∙◌, subst, inl, inr, Bool, true, false, some, List, [], ◌∷◌, arith, if◌then◌else◌,
  All, Option-cases,
}
use open_rmbt_server.Text.{Bytes, codes, eq_bytes, split_once, trim, to_ascii_lowercase}
use open_rmbt_server.Text.Adjacent.{Apart, IsPlain, trim-IsPlain, split_once-Apart_rest}
use open_rmbt_server.IpCheck.Handle.{Headers, header, header_line, parse_headers}

-- The echo of the request's header goes into a header line.
abbrev pub KeepsPlain : Headers → Type 0
KeepsPlain h = IsPlain h.request_headers

-- What a header line does to the echo.
abbrev echo_of : Bytes → Bytes → Headers → Bytes
echo_of name value h =
    if eq_bytes name (codes "content-length")
    then h.request_headers
    else if eq_bytes name (codes "content-type")
    then h.request_headers
    else if eq_bytes name (codes "transfer-encoding")
    then h.request_headers
    else if eq_bytes name (codes "origin")
    then h.request_headers
    else if eq_bytes name (codes "access-control-request-headers")
    then value
    else h.request_headers

header-echo_of :
    (name value : Bytes) (h h' : Headers)
    → header name value h ≡ some h'
    → h'.request_headers ≡ echo_of name value h
unfolding header
header-echo_of name value h h' e = ground arith

chosen-IsPlain :
    (a b c d e : Bool) (v k : Bytes)
    → IsPlain v
    → IsPlain k
    → IsPlain
        (if a then k else if b then k else if c then k else if d then k else if e then v else k)
chosen-IsPlain true b c d e v k h i = i
chosen-IsPlain false true c d e v k h i = i
chosen-IsPlain false false true d e v k h i = i
chosen-IsPlain false false false true e v k h i = i
chosen-IsPlain false false false false true v k h i = h
chosen-IsPlain false false false false false v k h i = i

header-KeepsPlain :
    (name value : Bytes) (h h' : Headers)
    → header name value h ≡ some h'
    → IsPlain value
    → KeepsPlain h
    → KeepsPlain h'
header-KeepsPlain name value h h' e v k =
    let is = λ (text : Bytes). eq_bytes name text in
    subst IsPlain (sym (header-echo_of name value h h' e)) (
      chosen-IsPlain (is (codes "content-length")) (is (codes "content-type"))
        (is (codes "transfer-encoding")) (is (codes "origin"))
        (is (codes "access-control-request-headers")) value h.request_headers v k)

some-injective : {x y : Headers} → some x ≡ some y → x ≡ y
some-injective p = cc p

header_line-KeepsPlain :
    (l : Bytes) (h h' : Headers)
    → Apart b'\r' b'\n' l
    → header_line (split_once (b':' ∷ []) l) h ≡ some h'
    → KeepsPlain h
    → KeepsPlain h'
header_line-KeepsPlain l h h' a e k = elim (Option-cases (split_once (b':' ∷ []) l)) [
  | inl f ↦ subst KeepsPlain (some-injective (sym (ap (λ o. header_line o h) f) ∙ e)) k
  | inr ((name, value), f) ↦
      header-KeepsPlain (to_ascii_lowercase (trim name)) (trim value) h h'
        (sym (ap (λ o. header_line o h) f) ∙ e)
        (trim-IsPlain value (split_once-Apart_rest l name value a f)) k
]

pub parse_headers-KeepsPlain :
    (ls : List Bytes) (h h' : Headers)
    → All (Apart b'\r' b'\n') ls
    → parse_headers ls h ≡ some h'
    → KeepsPlain h
    → KeepsPlain h'
unfolding parse_headers
parse_headers-KeepsPlain [] h h' a e k = subst KeepsPlain (some-injective e) k
parse_headers-KeepsPlain (l ∷ ls) h h' a e k =
    elim (Option-cases (header_line (split_once (b':' ∷ []) l) h)) [
      | inl f ↦ absurd (cc (rw (f, parse_headers) at e))
      | inr (g, f) ↦
          parse_headers-KeepsPlain ls g h' a.1 (rw (f, parse_headers) at e)
            (header_line-KeepsPlain l h g a.0 f k)
    ]
