-- ===== src/IpCheck/Framed.antt =====
-- How an answer of src/ip_check.rs is framed.
use open_rmbt_server.Common.{
  ℕ, ◌≤◌, ◌≡◌, refl, sym, ap, ◌∙◌, Bool, true, false, Option, none, some, List, [], ◌∷◌, ◌++◌,
  append-nil, arith, if◌then◌else◌, length, is_empty, All, All-append,
}
use open_rmbt_server.Text.{Bytes, codes, split_once, split_crlf, rest_of, show}
use open_rmbt_server.Text.Adjacent.{IsPlain, IsPlain-append, split_crlf-Apart, rest_of-Apart}
use open_rmbt_server.Config.Defs.{SecretKey}
use open_rmbt_server.Crypto.{Crypto}
use open_rmbt_server.Io.{ErrorKind, ok, Wire, raw_bytes}
use open_rmbt_server.Io.Laws.{>>=-ok, ok-injective}
use open_rmbt_server.Http.Plain.{
  IsField, fields_text, message_text, head_of, split_once-message_text, message_text-cons,
  message_text-append,
}
use open_rmbt_server.Http.Defs.{eol, blank_line}
use open_rmbt_server.IpCheck.Defs.{Parsers}
use open_rmbt_server.IpCheck.Echo.{parse_headers-KeepsPlain}
use open_rmbt_server.IpCheck.Handle.{
  Headers, no_headers, parse_headers, Response, respond, response_text,
}
use open_rmbt_server.Http.Uses.{Used}
use open_rmbt_server.IpCheck.Reads.{respond-Uses}
use open_rmbt_server.IpCheck.Handle.{or_err, handle}
use open_rmbt_server.Http.Defs.{send, flush, method_of}
use open_rmbt_server.Io.{Message, invalid_data}
use open_rmbt_server.Io.Laws.{put-sent}
use open_rmbt_server.IpCheck.Proper.{Proper, field, respond-Proper}
use open_rmbt_server.Text.Decimal.{Digit, show-Digit}

-- The fields of a response behind the status line, the HSTS lines `hs` among them.
abbrev cors : Headers → List Bytes
cors h = if h.origin then codes "Access-Control-Allow-Origin: *" ∷ [] else []

abbrev content_type : Response → List Bytes
content_type r = if is_empty r.body then [] else codes "Content-Type: application/json" ∷ []

abbrev last_fields : Bytes → List Bytes
last_fields body =
    codes "Cache-Control: no-cache, no-store, max-age=0, must-revalidate"
    ∷ (codes "Content-Length: " ++ show (length body))
    ∷ []

abbrev pub fields_of : List Bytes → Headers → Response → List Bytes → List Bytes
fields_of hs h r extra =
    codes "Connection: close"
    ∷ (hs ++ (cors h ++ (extra ++ (content_type r ++ last_fields r.body))))

abbrev pub status_line : Response → Bytes
status_line r = codes "HTTP/1.1 " ++ r.status

if_fields :
    (b : Bool) (l : Bytes) → fields_text (if b then l ∷ [] else []) ≡ (if b then l ++ eol else [])
if_fields true l = refl
if_fields false l = refl

if_no_fields :
    (b : Bool) (l : Bytes) → fields_text (if b then [] else l ∷ []) ≡ (if b then [] else l ++ eol)
if_no_fields true l = refl
if_no_fields false l = refl

last_text :
    (body : Bytes)
    → message_text (last_fields body) body
      ≡ codes "Cache-Control: no-cache, no-store, max-age=0, must-revalidate"
        ++ (eol ++ (codes "Content-Length: " ++ (show (length body) ++ (eol ++ (eol ++ body)))))
last_text body =
    message_text-cons (codes "Cache-Control: no-cache, no-store, max-age=0, must-revalidate")
      ((codes "Content-Length: " ++ show (length body)) ∷ []) body
    ∙ ap (λ x. codes "Cache-Control: no-cache, no-store, max-age=0, must-revalidate" ++ (eol ++ x))
        (message_text-cons (codes "Content-Length: " ++ show (length body)) [] body)

middle_text :
    (a b c d e : List Bytes) (body : Bytes)
    → message_text (a ++ (b ++ (c ++ (d ++ e)))) body
      ≡ fields_text a
        ++ (fields_text b ++ (fields_text c ++ (fields_text d ++ message_text e body)))
middle_text a b c d e body =
    message_text-append a (b ++ (c ++ (d ++ e))) body
    ∙ ap (λ x. fields_text a ++ x) (message_text-append b (c ++ (d ++ e)) body)
    ∙ ap (λ x. fields_text a ++ (fields_text b ++ x)) (message_text-append c (d ++ e) body)
    ∙ ap (λ x. fields_text a ++ (fields_text b ++ (fields_text c ++ x)))
        (message_text-append d e body)

module _ (c : Crypto) (t : Parsers) (hs : List Bytes) (h : Headers) (r : Response) where
  text-fields :
      (p : Proper r)
      → message_text (status_line r ∷ fields_of hs h r p.extra) r.body
        ≡ response_text c t (fields_text hs) h r
  unfolding response_text
  text-fields p =
      message_text-cons (status_line r) (fields_of hs h r p.extra) r.body
      ∙ ap (λ x. status_line r ++ (eol ++ (codes "Connection: close" ++ (eol ++ x))))
          (middle_text hs (cors h) p.extra (content_type r) (last_fields r.body) r.body)
      ∙ rw
          (
            if_fields h.origin (codes "Access-Control-Allow-Origin: *"),
            if_no_fields (is_empty r.body) (codes "Content-Type: application/json"),
            last_text r.body,
            p.lines,
          )
          refl

-- Every field keeps to its line.
Digit-IsPlain : (s : Bytes) → All Digit s → IsPlain s
Digit-IsPlain [] h = tt
Digit-IsPlain (x ∷ []) h = omega (arith, h.0)
Digit-IsPlain (x ∷ y ∷ s) h = (omega (arith, h.0), Digit-IsPlain (y ∷ s) h.1)

if_All :
    (b : Bool) (ls ms : List Bytes)
    → All IsField ls
    → All IsField ms
    → All IsField (if b then ls else ms)
if_All true ls ms h k = h
if_All false ls ms h k = k

fields_of-IsField :
    (hs : List Bytes) (h : Headers) (r : Response) (extra : List Bytes)
    → All IsField hs
    → All IsField extra
    → All IsField (fields_of hs h r extra)
fields_of-IsField hs h r extra f g = (
  field (omega arith),
  All-append IsField hs _ f (
      All-append IsField (cors h) _ (if_All h.origin _ [] (field (omega arith), tt) tt) (
        All-append IsField extra _ g (
          All-append IsField (content_type r) (last_fields r.body)
            (if_All (is_empty r.body) [] _ tt (field (omega arith), tt))
            (
              field (omega arith),
              (
                field (
                    IsPlain-append (codes "Content-Length: ") (show (length r.body)) (omega arith)
                      (Digit-IsPlain _ (show-Digit (length r.body)))),
                tt,
              ),
            )))),
)

-- The answer that went out, and what its reader finds: the end of the head where the server put
-- it, behind these fields, and the body behind that.
pub record Framed (hs : List Bytes) (w v : Wire) : Type 0 where
  pub headers : Headers
  pub response : Response
  pub extra : List Bytes
  pub text : Bytes
  pub sent : v.sent ≡ w.sent ++ raw_bytes text ∷ []
  pub found :
      split_once blank_line text
      ≡ some (head_of (status_line response) (fields_of hs headers response extra), response.body)
  pub fields : All IsField (status_line response ∷ fields_of hs headers response extra)

silent : (n : ℕ) (w v : Wire) → Used n 0 w v → v.sent ≡ w.sent
silent n w v u = none_sent u.answer u.most u.sent
  where
    none_sent : (l : List Message) → length l ≤ 0 → v.sent ≡ w.sent ++ l → v.sent ≡ w.sent
    none_sent [] k e = e ∙ append-nil w.sent
    none_sent (m ∷ l) k e = absurd (omega (arith, k))

or_err-ok :
    {A : Type 0} (e : ErrorKind) (o : Option A) (w : Wire) (a : A)
    → (or_err e o w).0 ≡ ok a
    → (o ≡ some a) × ((or_err e o w).1 ≡ w)
or_err-ok e none w a h = absurd (cc h)
or_err-ok e (some b) w a h = (ap some (ok-injective h), refl)

flush-sent : (w : Wire) → (flush w).1.sent ≡ w.sent
unfolding flush
flush-sent w = ground arith

send-sent :
    (b : Bytes) (w : Wire) {u : Unit {0}}
    → (send b w).0 ≡ ok u
    → (send b w).1.sent ≡ w.sent ++ raw_bytes b ∷ []
unfolding send
send-sent b w h = put-sent (raw_bytes b) w h

-- When handle succeeds, whatever the client sent, it has sent one message, in which the first blank
-- line is the one that ends the server's own head: the status line and these fields, each on a line
-- of its own; and what stands behind it is the body, whose length the field Content-Length gives.
-- The HSTS lines that it was given have to be such fields.
pub handle-Framed :
    (c : Crypto) (t : Parsers) (head : Bytes) (hs : List Bytes) (keys : List SecretKey) (now : ℕ)
    (w : Wire) (summary : Bytes)
    → All IsField hs
    → (handle c t head (fields_text hs) keys now w).0 ≡ ok summary
    → Framed hs w (handle c t head (fields_text hs) keys now w).1
unfolding handle
handle-Framed c t head hs keys now w summary f e =
    let method = method_of head in
    let a =
      >>=-ok (or_err invalid_data (parse_headers (rest_of (split_crlf head)) no_headers)) _ w
        summary e in
    let (parsed, same) = or_err-ok invalid_data _ w a.value a.first in
    let v = (or_err invalid_data (parse_headers (rest_of (split_crlf head)) no_headers) w).1 in
    let b = >>=-ok (respond c t method a.value keys now) _ v summary a.second in
    let h = a.value in
    let r = b.value in
    let plain =
      parse_headers-KeepsPlain (rest_of (split_crlf head)) no_headers h
        (rest_of-Apart _ (split_crlf-Apart head)) parsed tt in
    let p = (respond-Proper c t h keys now method plain).run v r b.first in
    let text = response_text c t (fields_text hs) h r in
    let u = (respond c t method h keys now v).1 in
    let d = >>=-ok (send text) _ u summary b.second in
    let g = >>=-ok flush _ (send text u).1 summary d.second in
    record {
      headers = h;
      response = r;
      extra = p.extra;
      text = text;
      sent =
          ap (λ x. x.sent) (a.wire ∙ b.wire ∙ d.wire ∙ g.wire)
          ∙ flush-sent (send text u).1
          ∙ send-sent text u d.first
          ∙ ap (λ l. l ++ raw_bytes text ∷ [])
              (silent _ v u (((respond-Uses c t keys now method h).run v)) ∙ ap (λ x. x.sent) same);
      found =
          ap (split_once blank_line) (sym (text-fields c t hs h r p))
          ∙ split_once-message_text (status_line r) (fields_of hs h r p.extra) r.body
              (field p.status, fields_of-IsField hs h r p.extra f p.fields);
      fields = (field p.status, fields_of-IsField hs h r p.extra f p.fields);
    }
