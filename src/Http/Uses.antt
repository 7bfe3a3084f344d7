-- ===== src/Http/Uses.antt =====
-- How much a call reads of what a client sends, and how many messages it writes.
use open_rmbt_server.Common.{
  ℕ, ◌+◌, ◌≤◌, ◌≡◌, refl, sym, ap, ◌∙◌, Bool, true, false, Option, none, some, List, [], ◌∷◌, ◌++◌,
  append_assoc, append-nil, arith, leb, if◌then◌else◌, length, length-append, length-take, take,
  take-append-drop, inl, inr, Bool-cases,
}
use open_rmbt_server.Text.{Bytes}
use open_rmbt_server.Io.{
  ErrorKind, Message, Outcome, ok, err, panic, stuck, Io, Wire, after, ◌>>=◌, pure, fail, put_with,
  put, raw_bytes,
}
use open_rmbt_server.Http.Defs.{read_up_to, send, flush}

-- A call that reads at most `n` bytes and writes at most `k` messages.
pub record Used (n k : ℕ) (w v : Wire) : Type 0 where
  pub taken : Bytes
  pub input : w.input ≡ taken ++ v.input
  pub size : length taken ≤ n
  pub answer : List Message
  pub sent : v.sent ≡ w.sent ++ answer
  pub most : length answer ≤ k

pub record Uses {A : Type 0} (n k : ℕ) (m : Io A) : Type 0 where
  pub run : (w : Wire) → Used n k w (m w).1

-- A state with the same bytes to come and the same messages.
pub same_Used : (n k : ℕ) (w v : Wire) → v.input ≡ w.input → v.sent ≡ w.sent → Used n k w v
same_Used n k w v i s = record {
  taken = [];
  input = sym i;
  size = omega arith;
  answer = [];
  sent = s ∙ sym (append-nil _);
  most = omega arith;
}

then_Used :
    (n k n' k' : ℕ) (w v u : Wire) → Used n k w v → Used n' k' v u → Used (n + n') (k + k') w u
then_Used n k n' k' w v u a b = record {
  taken = a.taken ++ b.taken;
  input = a.input ∙ ap (λ x. a.taken ++ x) b.input ∙ sym (append_assoc a.taken b.taken _);
  size = omega (arith, a.size, b.size, length-append a.taken b.taken);
  answer = a.answer ++ b.answer;
  sent = b.sent ∙ ap (λ x. x ++ b.answer) a.sent ∙ append_assoc w.sent a.answer b.answer;
  most = omega (arith, a.most, b.most, length-append a.answer b.answer);
}

more_Used : (n k n' k' : ℕ) (w v : Wire) → n ≤ n' → k ≤ k' → Used n k w v → Used n' k' w v
more_Used n k n' k' w v h i a = record {
  taken = a.taken;
  input = a.input;
  size = omega (arith, h, a.size);
  answer = a.answer;
  sent = a.sent;
  most = omega (arith, i, a.most);
}

module _ {A : Type 0} where
  pub pure-Uses : (n k : ℕ) (a : A) → Uses n k (pure a)
  pure-Uses n k a = record { run = λ w. same_Used n k w w refl refl }

  pub fail-Uses : (n k : ℕ) (e : ErrorKind) → Uses {A = A} n k (fail e)
  fail-Uses n k e = record { run = λ w. same_Used n k w w refl refl }

  pub if-Uses :
      (n k : ℕ) (b : Bool) (m l : Io A) → Uses n k m → Uses n k l → Uses n k (if b then m else l)
  if-Uses n k true m l h i = h
  if-Uses n k false m l h i = i

  pub more-Uses : (n k n' k' : ℕ) (m : Io A) → n ≤ n' → k ≤ k' → Uses n k m → Uses n' k' m
  more-Uses n k n' k' m h i a = record { run = λ w. more_Used n k n' k' w (m w).1 h i (a.run w) }

module _ {A B : Type 0} (n k n' k' : ℕ) where
  after-Used :
      (r : Outcome A) (v w : Wire) (f : A → Io B)
      → Used n k w v
      → ((a : A) → Uses n' k' (f a))
      → Used (n + n') (k + k') w (after r v f).1
  after-Used (ok a) v w f h i = then_Used n k n' k' w v _ h ((i a).run v)
  after-Used (err e) v w f h i = more_Used n k _ _ w v (omega arith) (omega arith) h
  after-Used panic v w f h i = more_Used n k _ _ w v (omega arith) (omega arith) h
  after-Used stuck v w f h i = more_Used n k _ _ w v (omega arith) (omega arith) h

  pub >>=-Uses :
      (m : Io A) (f : A → Io B)
      → Uses n k m
      → ((a : A) → Uses n' k' (f a))
      → Uses (n + n') (k + k') (m >>= f)
  unfolding ◌>>=◌
  >>=-Uses m f h i = record { run = λ w. after-Used (m w).0 (m w).1 w f (h.run w) i }

put_with-Used :
    (fs : List (Option ErrorKind)) (m : Message) (w : Wire) → Used 0 1 w (put_with fs m w).1
unfolding put_with
put_with-Used [] m w = record {
  taken = [];
  input = refl;
  size = omega arith;
  answer = m ∷ [];
  sent = refl;
  most = omega arith;
}
put_with-Used (none ∷ fs) m w = record {
  taken = [];
  input = refl;
  size = omega arith;
  answer = m ∷ [];
  sent = refl;
  most = omega arith;
}
put_with-Used (some e ∷ fs) m w = same_Used 0 1 w _ refl refl

pub send-Uses : (text : Bytes) → Uses 0 1 (send text)
unfolding send put
send-Uses text = record { run = λ w. put_with-Used w.faults (raw_bytes text) w }

pub flush-Uses : Uses 0 0 flush
unfolding flush
flush-Uses = record { run = λ w. same_Used 0 0 w _ (ground arith) (ground arith) }

pub read_up_to-Uses : (n : ℕ) → Uses n 0 (read_up_to n)
unfolding read_up_to
read_up_to-Uses n = record {
  run = λ w. elim (Bool-cases (leb n (length w.input))) [
    | inl b ↦ rw b (record {
      taken = take n w.input;
      input = sym (take-append-drop n w.input);
      size = omega (arith, length-take n w.input);
      answer = [];
      sent = sym (append-nil _);
      most = omega arith;
    })
    | inr b ↦ rw b (record {
      taken = w.input;
      input = sym (append-nil _);
      size = ground arith;
      answer = [];
      sent = sym (append-nil _);
      most = omega arith;
    })
  ];
}
