-- ===== src/Greeting/Says.antt =====
-- What each call of the greeting of src/protocol/greeting.rs writes and reports.
use open_rmbt_server.Common.{
  ℕ, ◌≡◌, refl, sym, ap, ◌∙◌, subst, Bool, true, false, Option, List, [], ◌∷◌, ◌++◌, append-nil,
  if◌then◌else◌,
}
use open_rmbt_server.Text.{Bytes}
use open_rmbt_server.Address.{IpAddr}
use open_rmbt_server.Io.{StreamKind, raw, websocket, Message, raw_bytes, ok, Wire, put_with, put}
use open_rmbt_server.Io.Laws.{ok-injective}
use open_rmbt_server.Stream.Defs.{
  message_of, flush_with, ws_flush, put_message, as_other, write_as, write_all, write_line,
}
use open_rmbt_server.Greeting.Defs.{AuthEvent, State, Greet, ◌>>=◌, on, peer_ip, auth, sleep}
use open_rmbt_server.Greeting.Auth.{ip_of}
use open_rmbt_server.Greeting.Logs.{Setting, Fits, message, Spec, Logs, Behind, >>=-Logs, silent}

put_nil :
    (m : Message) (w : Wire)
    → w.faults ≡ []
    → put m w ≡ (ok tt, record w { sent = w.sent ++ m ∷ [] })
unfolding put put_with
put_nil m w h = ap (λ fs. put_with fs m w) h

write_as-message :
    (k : StreamKind) (b : Bytes) (w : Wire)
    → w.faults ≡ []
    → write_as k b w ≡ (ok tt, record w { sent = w.sent ++ message k b ∷ [] })
unfolding write_as put_message ws_flush flush_with open_rmbt_server.Io.◌>>=◌
write_as-message raw b w h = put_nil (raw_bytes b) w h
write_as-message websocket b w h =
    ap (λ x. (as_other x.0, x.1))
      (ap (λ x. open_rmbt_server.Io.after x.0 x.1 λ _. ws_flush) (put_nil (message_of b) w h)
        ∙ ap (λ fs. flush_with fs (record w { sent = w.sent ++ message_of b ∷ [] })) h)

pub write_line-message :
    (e : Setting) (b : Bytes) (s : State)
    → Fits e s
    → write_line b s.wire ≡ (ok tt, record (s.wire) { sent = s.wire.sent ++ message e.kind b ∷ [] })
unfolding write_all
write_line-message e b s f =
    write_as-message s.wire.kind b s.wire f.faults
    ∙ ap (λ k. (ok tt, record (s.wire) { sent = s.wire.sent ++ message k b ∷ [] })) f.kind

module _ (e : Setting) where
  write-Logs :
      (b : Bytes) → Logs e (λ r l v. (r ≡ ok tt) × (l ≡ b ∷ []) × (v ≡ [])) (on (write_line b))
  unfolding on
  write-Logs b = record {
    run = λ s f.
        let w = write_line-message e b s f in
        record {
          lines = b ∷ [];
          events = [];
          logged = record {
            fits = record {
              kind = ap (λ x. x.1.kind) w ∙ f.kind;
              peer = ap (λ x. x.1.peer) w ∙ f.peer;
              faults = ap (λ x. x.1.faults) w ∙ f.faults;
            };
            sent = ap (λ x. x.1.sent) w;
            reported = none_if s.events e.has_sink;
          };
          result = (ap (λ x. x.0) w, refl, refl);
        };
  }
    where
      none_if : (v : List AuthEvent) (b : Bool) → v ≡ v ++ (if b then [] else [])
      none_if v true = sym (append-nil _)
      none_if v false = sym (append-nil _)

  auth-Logs :
      (v : AuthEvent) → Logs e (λ r l w. (r ≡ ok tt) × (l ≡ []) × (w ≡ v ∷ [])) (auth e.has_sink v)
  unfolding auth
  auth-Logs v = record {
    run = λ s f. record {
      lines = [];
      events = v ∷ [];
      logged = record {
        fits = record { kind = f.kind; peer = f.peer; faults = f.faults };
        sent = sym (append-nil _);
        reported = push s.events e.has_sink;
      };
      result = (refl, refl, refl);
    };
  }
    where
      push :
          (vs : List AuthEvent) (b : Bool)
          → (if b then vs ++ v ∷ [] else vs) ≡ vs ++ (if b then v ∷ [] else [])
      push vs true = refl
      push vs false = sym (append-nil _)

  peer_ip-Logs : Logs e (λ r l v. (r ≡ ok (ip_of e.peer)) × (l ≡ []) × (v ≡ [])) peer_ip
  unfolding peer_ip
  peer_ip-Logs = record {
    run = λ s f. record {
      lines = [];
      events = [];
      logged = silent e s s f refl refl;
      result = (ap (λ p. ok (ip_of p)) f.peer, refl, refl);
    };
  }

  sleep-Logs : (n : ℕ) → Logs e (λ r l v. (r ≡ ok tt) × (l ≡ []) × (v ≡ [])) (sleep n)
  unfolding sleep
  sleep-Logs n = record {
    run = λ s f. record {
      lines = [];
      events = [];
      logged = silent e s _ (record { kind = f.kind; peer = f.peer; faults = f.faults }) refl refl;
      result = (refl, refl, refl);
    };
  }

  -- A command that surely returns `a`, with what it writes and reports.
  abbrev Sure : {A : Type 0} → A → List Bytes → List AuthEvent → Spec A
  Sure a lines events r l v = (r ≡ ok a) × (l ≡ lines) × (v ≡ events)

  module _ {B : Type 0} (R : Spec B) where
    sure_then :
        {A : Type 0} (a : A) (lines : List Bytes) (events : List AuthEvent) (m : Greet A)
        (f : A → Greet B)
        → Logs e (Sure a lines events) m
        → Logs e (Behind R lines events) (f a)
        → Logs e R (m >>= f)
    sure_then a lines events m f h k =
        >>=-Logs e (Sure a lines events) R m f h
          (λ b l v c.
            rw (c.1, c.2)
              (subst (λ x. Logs e (Behind R lines events) (f x)) (sym (ok-injective c.0)) k))
          (λ k l v c. absurd (cc (c.0))) (λ l v. (λ c. absurd (cc (c.0)), λ c. absurd (cc (c.0))))

    -- A line is written, and the rest follows it.
    pub write_then :
        (b : Bytes) (k : Greet B)
        → Logs e (Behind R (b ∷ []) []) k
        → Logs e R (on (write_line b) >>= λ _. k)
    write_then b k = sure_then tt (b ∷ []) [] (on (write_line b)) (λ _. k) (write-Logs b)

    -- An event is reported, if there is a sink, and the rest follows it.
    pub auth_then :
        (v : AuthEvent) (k : Greet B)
        → Logs e (Behind R [] (v ∷ [])) k
        → Logs e R (auth e.has_sink v >>= λ _. k)
    auth_then v k = sure_then tt [] (v ∷ []) (auth e.has_sink v) (λ _. k) (auth-Logs v)

    -- The address of the peer is read, and the rest follows.
    pub peer_ip_then :
        (f : Option IpAddr → Greet B) → Logs e R (f (ip_of e.peer)) → Logs e R (peer_ip >>= f)
    peer_ip_then f = sure_then (ip_of e.peer) [] [] peer_ip f peer_ip-Logs

    -- A pause, and the rest follows.
    pub sleep_then : (n : ℕ) (k : Greet B) → Logs e R k → Logs e R (sleep n >>= λ _. k)
    sleep_then n k = sure_then tt [] [] (sleep n) (λ _. k) (sleep-Logs n)
