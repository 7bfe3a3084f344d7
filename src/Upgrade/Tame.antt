-- ===== src/Upgrade/Tame.antt =====
-- The HTTP phase of src/stream/websocket_upgrade.rs leaves the peer and the clock
-- alone, and comes to a result.
use open_rmbt_server.Common.{
  ℕ, ◌≤◌, refl, inl, inr, Bool, true, false, not, Option, none, some, List, [], ◌∷◌, ◌++◌, arith,
  ltb, leb, Bool-cases, length, take, drop, length-drop,
}
use open_rmbt_server.Text.{
  Bytes, codes, eq_bytes, starts_with, contains, rest_of, split_crlf, to_ascii_lowercase,
}
use open_rmbt_server.Address.{IpAddr, SocketAddr}
use open_rmbt_server.Config.Defs.{SecretKey}
use open_rmbt_server.Io.{other, end_error, ErrorKind, StreamKind, ok, err, Io, Wire, ◌>>◌}
use open_rmbt_server.Io.Tame.{
  IsSettled, read_Tamed, Tame, Tamed, same_Tamed, pure-Tame, fail-Tame, if-Tame, >>=-Tame, put-Tame,
}
use open_rmbt_server.Http.Defs.{
  head_loop, ends_with, blank_line, target_of, read_head, read_up_to, send, flush, ignore, close,
}
use open_rmbt_server.IpCheck.Handle.{
  Headers, Response, or_err, parse_headers, peer_ip, whole, post, drain, respond,
}
use open_rmbt_server.IpCheck.Handle as IpHandle
use open_rmbt_server.IpCheck.Defs as IpEndpoint
use open_rmbt_server.Version.Defs as VersionEndpoint
use open_rmbt_server.Upgrade.Defs.{
  Env, become, refuse, accept_key, websocket_handshake, upgrade_rmbt, ip_request, version_request,
  route, detect_and_upgrade,
}

or_err-Tame : {A : Type 0} (e : ErrorKind) (o : Option A) → Tame (or_err e o)
or_err-Tame e none = fail-Tame e
or_err-Tame e (some a) = pure-Tame a

send-Tame : (b : Bytes) → Tame (send b)
unfolding send
send-Tame b = put-Tame _

flush_with-Tamed :
    (fs : List (Option ErrorKind)) (w : Wire)
    → Tamed {A = Unit {0}} w (elim fs [
      | [] ↦ (ok tt, w)
      | none ∷ fs ↦ (ok tt, record w { faults = fs })
      | some e ∷ fs ↦ (err e, record w { faults = fs })
    ])
flush_with-Tamed [] w = same_Tamed w _ _ refl refl refl refl refl tt
flush_with-Tamed (none ∷ fs) w = same_Tamed w _ _ refl refl refl refl refl tt
flush_with-Tamed (some e ∷ fs) w = same_Tamed w _ _ refl refl refl refl refl tt

flush-Tame : Tame flush
unfolding flush
flush-Tame = record { run = λ w. flush_with-Tamed w.faults w }

ignore-Tame : (m : Io (Unit {0})) → Tame m → Tame (ignore m)
unfolding ignore
ignore-Tame m h = record {
  run = λ w.
      let t = h.run w in
      record { peer = t.peer; ticks = t.ticks; tick = t.tick; less = t.less; settled = tt };
}

close-Tame : (is_tls : Bool) → Tame (close is_tls)
unfolding close
close-Tame false = pure-Tame tt
close-Tame true = ignore-Tame _ (>>=-Tame _ _ (put-Tame _) λ _. flush-Tame)

head_loop-Tamed :
    (e : ErrorKind) (buf s : Bytes)
    → (length (head_loop e buf s).1 ≤ length s) × IsSettled (head_loop e buf s).0
unfolding head_loop
head_loop-Tamed e buf [] = (omega arith, tt)
head_loop-Tamed e buf (c ∷ s) = elim (Bool-cases (ends_with (buf ++ c ∷ []) blank_line)) [
  | inl b ↦ rw b (omega arith, tt)
  | inr b ↦ rw b (elim (Bool-cases (ltb 8192 (length (buf ++ c ∷ [])))) [
    | inl d ↦ rw d (omega arith, tt)
    | inr d ↦ rw d (let (l, t) = head_loop-Tamed e (buf ++ c ∷ []) s in (omega (arith, l), t))
  ])
]

read_head-Tame : Tame read_head
unfolding read_head
read_head-Tame = record {
  run = λ w. let (l, t) = head_loop-Tamed (end_error w) [] w.input in read_Tamed w _ _ l t;
}

cut_short-Tamed :
    (w : Wire) (o : Option ErrorKind)
    → Tamed w (elim o [ none ↦ ok w.input | some e ↦ err e ], record w { input = [] })
cut_short-Tamed w none = read_Tamed w [] (ok w.input) (omega arith) tt
cut_short-Tamed w (some e) = read_Tamed w [] (err e) (omega arith) tt

read_up_to-Tame : (n : ℕ) → Tame (read_up_to n)
unfolding read_up_to
read_up_to-Tame n = record {
  run = λ w. elim (Bool-cases (leb n (length w.input))) [
    | inl b ↦ rw b (
        read_Tamed w (drop n w.input) (ok (take n w.input)) (omega (arith, length-drop n w.input))
          tt)
    | inr b ↦ rw b (cut_short-Tamed w w.ending)
  ];
}

peer_of-Tamed :
    (o : Option SocketAddr) (w : Wire)
    → Tamed {A = IpAddr} w (elim o [ none ↦ (err other, w) | some a ↦ (ok a.ip, w) ])
peer_of-Tamed none w = same_Tamed w _ _ refl refl refl refl refl tt
peer_of-Tamed (some a) w = same_Tamed w _ _ refl refl refl refl refl tt

peer_ip-Tame : Tame peer_ip
unfolding peer_ip
peer_ip-Tame = record { run = λ w. peer_of-Tamed w.peer w }

become-Tame : (kind : StreamKind) → Tame (become kind)
unfolding become
become-Tame kind = record { run = λ w. same_Tamed w _ _ refl refl refl refl refl tt }

-- What is sent and flushed before a result.
answer-Tame : {A : Type 0} (text : Bytes) (m : Io A) → Tame m → Tame (do send text; flush; m)
answer-Tame text m h = >>=-Tame _ _ (send-Tame text) λ _. >>=-Tame _ _ flush-Tame λ _. h

refuse-Tame : (text : Bytes) → Tame (refuse text)
unfolding refuse
refuse-Tame text =
    >>=-Tame _ _ (ignore-Tame _ (send-Tame text))
      λ _. >>=-Tame _ _ (ignore-Tame _ flush-Tame) λ _. fail-Tame _

module _ (env : Env) where
  accept_key-Tame : (hsts : Bytes) (o : Option Bytes) → Tame (accept_key env hsts o)
  unfolding accept_key
  accept_key-Tame hsts none = fail-Tame _
  accept_key-Tame hsts (some key) = answer-Tame _ _ (become-Tame _)

  respond-Tame :
      (method : Bytes) (h : Headers) (keys : List SecretKey) (now : ℕ)
      → Tame (respond env.crypto env.parsers method h keys now)
  unfolding respond drain post whole
  respond-Tame method h keys now = if-Tame (eq_bytes method (codes "OPTIONS")) _ _ (pure-Tame _) (
      if-Tame (eq_bytes method (codes "POST")) _ _
        (if-Tame h.chunked _ _ (pure-Tame _) (
          if-Tame (ltb 8192 h.content_length) _ _
            (>>=-Tame _ _ (read_up_to-Tame _) λ _. pure-Tame _)
            (>>=-Tame _ _ (read_up_to-Tame _) λ buf.
              >>=-Tame _ _
                (if-Tame (ltb (length buf) h.content_length) _ _ (fail-Tame _) (pure-Tame tt))
                λ _. >>=-Tame _ _ peer_ip-Tame λ public. pure-Tame _)))
        (pure-Tame _))

  ip_handle-Tame :
      (head hsts : Bytes) (keys : List SecretKey) (now : ℕ)
      → Tame (IpHandle.handle env.crypto env.parsers head hsts keys now)
  unfolding IpHandle.handle
  ip_handle-Tame head hsts keys now =
      >>=-Tame _ _ (or_err-Tame _ (parse_headers (rest_of (split_crlf head)) IpHandle.no_headers))
        λ h. >>=-Tame _ _ (respond-Tame _ h keys now) λ r. answer-Tame _ _ (pure-Tame _)

  version_handle-Tame :
      (head hsts : Bytes) → Tame (VersionEndpoint.handle env.version env.branch head hsts)
  unfolding VersionEndpoint.handle
  version_handle-Tame head hsts = answer-Tame _ _ (pure-Tame _)

  route-Tame :
      (req : Bytes) (is_tls : Bool) (hsts : Bytes) (keys : List SecretKey) (now : ℕ)
      → Tame (route env req is_tls hsts keys now)
  unfolding route websocket_handshake ip_request version_request upgrade_rmbt
  route-Tame req is_tls hsts keys now =
      if-Tame (IpEndpoint.matches (target_of req)) _ _
        (>>=-Tame _ _ (ip_handle-Tame req hsts keys now)
          λ s. >>=-Tame _ _ (close-Tame is_tls) λ _. pure-Tame _)
        (if-Tame (VersionEndpoint.matches (target_of req)) _ _
          (>>=-Tame _ _ (version_handle-Tame req hsts)
            λ s. >>=-Tame _ _ (close-Tame is_tls) λ _. pure-Tame _)
          (if-Tame (not (starts_with req (codes "GET "))) _ _ (refuse-Tame _) (
            if-Tame (contains (to_ascii_lowercase req) (codes "upgrade: websocket")) _ _
              (accept_key-Tame hsts _)
              (if-Tame (contains (to_ascii_lowercase req) (codes "upgrade: rmbt")) _ _
                (>>=-Tame _ _ (send-Tame _) λ _. become-Tame _) (refuse-Tame _)))))

  pub detect_and_upgrade-Tame :
      (is_tls add_hsts : Bool) (keys : List SecretKey) (now : ℕ)
      → Tame (detect_and_upgrade env is_tls add_hsts keys now)
  unfolding detect_and_upgrade
  detect_and_upgrade-Tame is_tls add_hsts keys now =
      >>=-Tame _ _ read_head-Tame λ head. route-Tame _ is_tls _ keys now
