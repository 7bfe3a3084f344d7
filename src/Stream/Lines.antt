-- ===== src/Stream/Lines.antt =====
-- What the calls on the stream of src/stream/mod.rs leave alone: the address of the peer.
use open_rmbt_server.Common.{
  ◌≡◌, refl, ap, ◌∙◌, Bool, true, false, Option, none, some, List, [], ◌∷◌, arith, if◌then◌else◌,
}
use open_rmbt_server.Text.{Bytes}
use open_rmbt_server.Io.{
  ErrorKind, StreamKind, raw, websocket, Message, Outcome, Io, Wire, put_with,
}
use open_rmbt_server.Stream.Tame.{write_all-Tame}
use open_rmbt_server.Stream.Defs.{
  write_all, line_of, cut_off, is_starved, read_until, read_line_raw, read_line_as, read_line,
}
use open_rmbt_server.Address.{SocketAddr}

-- After the call the peer is the same.
abbrev pub SamePeer : {A : Type 0} → Io A → Type 0
SamePeer m = (w : Wire) → (m w).1.peer ≡ w.peer

pub put_with-peer : (fs : List (Option ErrorKind)) (m : Message) → SamePeer (put_with fs m)
unfolding put_with
put_with-peer [] m w = refl
put_with-peer (none ∷ fs) m w = refl
put_with-peer (some e ∷ fs) m w = refl

pub write_all-peer : (b : Bytes) → SamePeer (write_all b)
write_all-peer b w = ((write_all-Tame b).run w).peer

line_of-peer : (b : Bytes) → SamePeer (line_of b)
unfolding line_of
line_of-peer b w = ground arith

cut_off-peer : (e : Option ErrorKind) (x : Outcome Bytes × Wire) → (cut_off e x).1 ≡ x.1
cut_off-peer none x = refl
cut_off-peer (some e) x = refl

if-peer :
    (p : Option SocketAddr) (b : Bool) (x y : Outcome Bytes × Wire)
    → (x.1).peer ≡ p
    → (y.1).peer ≡ p
    → ((if b then x else y).1).peer ≡ p
if-peer p true x y h i = h
if-peer p false x y h i = i

read_line_raw-peer : SamePeer read_line_raw
unfolding read_line_raw
read_line_raw-peer w =
    let (buf, rest) = read_until 1025 w.input in
    let settled = line_of-peer buf (record w { input = rest }) in
    if-peer _ (is_starved buf rest) _ _ (ap (λ v. v.peer) (cut_off-peer w.ending _) ∙ settled)
      settled

read_line_as-peer : (k : StreamKind) → SamePeer (read_line_as k)
unfolding read_line_as
read_line_as-peer raw w = read_line_raw-peer w
read_line_as-peer websocket w = refl

pub read_line-peer : SamePeer read_line
unfolding read_line
read_line-peer w = read_line_as-peer w.kind w
