-- ===== src/IpCheck/Reads.antt =====
-- How much of a request `handle` of src/ip_check.rs reads, and how often it answers.
use open_rmbt_server.Common.{
  ℕ, min, ◌+◌, ◌≤◌, subst, Option, none, some, List, arith, ltb, if◌then◌else◌, inl, inr,
  Bool-cases,
}
use open_rmbt_server.Text.{Bytes, codes, eq_bytes}
use open_rmbt_server.Crypto.{Crypto}
use open_rmbt_server.Config.Defs.{SecretKey}
use open_rmbt_server.Io.{ErrorKind, Wire}
use open_rmbt_server.Http.Defs.{method_of, read_up_to}
use open_rmbt_server.IpCheck.Defs.{Parsers}
use open_rmbt_server.IpCheck.Handle.{
  max_drain, max_body, Headers, or_err, whole, peer_ip, post, drain, respond, handle,
}
use open_rmbt_server.Http.Uses.{
  Used, Uses, same_Used, pure-Uses, fail-Uses, if-Uses, more-Uses, >>=-Uses, send-Uses, flush-Uses,
  read_up_to-Uses,
}

or_err-Uses : {A : Type 0} (n k : ℕ) (e : ErrorKind) (o : Option A) → Uses n k (or_err e o)
or_err-Uses n k e none = fail-Uses n k e
or_err-Uses n k e (some a) = pure-Uses n k a

peer_ip-Uses : Uses 0 0 peer_ip
unfolding peer_ip
peer_ip-Uses = record { run = λ w. same_Used 0 0 w _ (ground arith) (ground arith) }

-- The most that a request may be read of: nothing unless the method is POST.
abbrev pub read_limit : Bytes → ℕ
read_limit method = if eq_bytes method (codes "POST") then max_drain else 0

module _ (c : Crypto) (t : Parsers) (keys : List SecretKey) (now : ℕ) where
  drain-Uses : (content_length : ℕ) → Uses max_drain 0 (drain c t content_length)
  unfolding drain
  drain-Uses n = more-Uses (min n max_drain) 0 max_drain 0 _ (omega arith) (omega arith) (
      subst (λ i. Uses i 0 (drain c t n)) (omega arith)
        (>>=-Uses _ 0 0 0 (read_up_to _) _ (read_up_to-Uses _) λ _. pure-Uses 0 0 _))

  post-Uses : (h : Headers) → h.content_length ≤ max_drain → Uses max_drain 0 (post c t h keys now)
  unfolding post whole
  post-Uses h l =
      more-Uses (h.content_length + 0) 0 max_drain 0 _ (omega (arith, l)) (omega arith) (
        >>=-Uses _ 0 0 0 (read_up_to _) _ (read_up_to-Uses _) λ buf.
          >>=-Uses 0 0 0 0 _ _ (if-Uses 0 0 _ _ _ (fail-Uses 0 0 _) (pure-Uses 0 0 tt))
            λ _. >>=-Uses 0 0 0 0 _ _ peer_ip-Uses λ _. pure-Uses 0 0 _)

  pub respond-Uses :
      (method : Bytes) (h : Headers) → Uses (read_limit method) 0 (respond c t method h keys now)
  unfolding respond
  respond-Uses method h = elim (Bool-cases (eq_bytes method (codes "POST"))) [
    | inl b ↦ rw b (
        if-Uses max_drain 0 (eq_bytes method (codes "OPTIONS")) _ _ (pure-Uses max_drain 0 _)
          (if-Uses max_drain 0 h.chunked _ _ (pure-Uses max_drain 0 _) large))
    | inr b ↦
        rw b
          (if-Uses 0 0 (eq_bytes method (codes "OPTIONS")) _ _ (pure-Uses 0 0 _) (pure-Uses 0 0 _))
  ]
    where
      large : Uses max_drain 0 (
          if ltb max_body h.content_length then drain c t h.content_length else post c t h keys now)
      large = elim (Bool-cases (ltb max_body h.content_length)) [
        | inl b ↦ rw b (drain-Uses _)
        | inr b ↦ rw b (post-Uses h (ground arith))
      ]

  -- Whatever the request and however the stream fails, handle reads nothing of the body unless the
  -- method is POST, and at most 65536 bytes if it is; what it did not take is left to be read; and
  -- it sends at most one message.
  pub handle-Used :
      (head hsts : Bytes) (w : Wire)
      → Used (read_limit (method_of head)) 1 w (handle c t head hsts keys now w).1
  unfolding handle
  handle-Used head hsts w =
      subst (λ n. Used n 1 w (handle c t head hsts keys now w).1) (omega arith)
        ((>>=-Uses 0 0 (read_limit (method_of head) + 0) 1 _ _ (or_err-Uses 0 0 _ _) λ h.
            >>=-Uses (read_limit (method_of head)) 0 0 1 _ _ (respond-Uses (method_of head) h) λ r.
              >>=-Uses 0 1 0 0 _ _ (send-Uses _)
                λ _. >>=-Uses 0 0 0 0 _ _ flush-Uses λ _. pure-Uses 0 0 _).run
          w)
