-- ===== src/Stream/Defs.antt =====
-- The operations of `Stream` in src/stream/mod.rs.
use open_rmbt_server.Common.{
  ℕ, zero, suc, ◌+◌, ◌-◌, Bool, false, not, ◌&&◌, ◌||◌, Option, none, some, List, [], ◌∷◌, ◌++◌,
  min, max, ltb, leb, ◌==◌, if◌then◌else◌, length, take, drop, is_empty,
}
use open_rmbt_server.Text.{Bytes, codes, pop_if}
use open_rmbt_server.Address.{SocketAddr}
use open_rmbt_server.Config.Defs.{chunk_size_default, max_line_length}
use open_rmbt_server.Io.{
  ◌>>=◌, ErrorKind, unexpected_eof, connection_reset, invalid_data, other, Frame, text, binary,
  close, control, io_error, ws_error, Message, raw_bytes, text_message, binary_message, StreamKind,
  raw, websocket, Wire, Outcome, ok, err, Io, fail, pure, end_error, put,
}
use open_rmbt_server.Utf8.{is_utf8, from_utf8_lossy}

-- `take(limit).read_until(b'\n')`: what is read, newline included, and what is left.
unfoldable pub read_until : ℕ → Bytes → Bytes × Bytes
read_until zero s = ([], s)
read_until (suc n) [] = ([], [])
read_until (suc n) (c ∷ s) =
    let (line, rest) = read_until n s in if c == b'\n' then (c ∷ [], s) else (c ∷ line, rest)

-- `buf.last() == Some(&b)`.
unfoldable pub last_is : ℕ → Bytes → Bool
last_is b [] = false
last_is b (x ∷ []) = x == b
last_is b (x ∷ y ∷ s) = last_is b (y ∷ s)

-- Does the input end before `read_until` has what it looks for?
unfoldable pub is_starved : Bytes → Bytes → Bool
unfolding last_is
is_starved line rest =
    is_empty rest && ltb (length line) (max_line_length + 1) && not (last_is b'\n' line)

-- What `read_line` does with the bytes read.
unfoldable pub line_of : Bytes → Io Bytes
line_of buf =
    let stripped = pop_if b'\r' (pop_if b'\n' buf) in
    if is_empty buf
    then fail unexpected_eof
    else if ltb max_line_length (length buf)
    then fail invalid_data
    else if is_utf8 stripped
    then pure stripped
    else fail invalid_data

-- With no input left, a clean end leaves what was read, and any other end is the error.
abbrev pub cut_off : Option ErrorKind → Outcome Bytes × Wire → Outcome Bytes × Wire
cut_off none settled = settled
cut_off (some e) settled = (err e, settled.1)

unfoldable pub read_line_raw : Io Bytes
read_line_raw w =
    let (buf, rest) = read_until (max_line_length + 1) w.input in
    let w' = record w { input = rest } in
    let settled : Outcome Bytes × Wire = line_of buf w' in
    if is_starved buf rest then cut_off w.ending settled else settled

-- `trim_end_matches` for one ASCII character.
unfoldable pub trim_end_matches : ℕ → Bytes → Bytes
trim_end_matches b [] = []
trim_end_matches b (c ∷ s) =
    let rest = trim_end_matches b s in if is_empty rest && c == b then [] else c ∷ rest

-- The loop over the frames, and the frames that are left.
unfoldable pub next_line : List Frame → Outcome Bytes × List Frame
unfolding trim_end_matches from_utf8_lossy
next_line [] = (err other, [])
next_line (text t ∷ fs) = (ok (trim_end_matches b'\r' (trim_end_matches b'\n' t)), fs)
next_line (binary b ∷ fs) = (ok (pop_if b'\r' (pop_if b'\n' (from_utf8_lossy b))), fs)
next_line (close ∷ fs) = (err connection_reset, fs)
next_line (control ∷ fs) = next_line fs
next_line (io_error e ∷ fs) = (err e, fs)
next_line (ws_error ∷ fs) = (err other, fs)

unfoldable pub read_line_as : StreamKind → Io Bytes
unfolding read_line_raw next_line line_of read_until is_starved is_utf8
read_line_as raw w = read_line_raw w
read_line_as websocket w = let (r, fs) = next_line w.frames in (r, record w { frames = fs })

unfoldable pub read_line : Io Bytes
unfolding read_line_as
read_line w = read_line_as w.kind w

-- A WebSocket write error of any kind becomes `other`.
abbrev pub as_other : Outcome (Unit {0}) → Outcome (Unit {0})
as_other (err e) = err other
as_other r = r

-- `ws.flush()`, with its outcome.
unfoldable pub flush_with : List (Option ErrorKind) → Io (Unit {0})
flush_with [] w = (ok tt, w)
flush_with (none ∷ fs) w = (ok tt, record w { faults = fs })
flush_with (some e ∷ fs) w = (err e, record w { faults = fs })

unfoldable pub ws_flush : Io (Unit {0})
unfolding flush_with
ws_flush w = flush_with w.faults w

-- `ws.send(msg)`, and then `ws.flush()`.
unfoldable pub put_message : Message → Io (Unit {0})
unfolding put ws_flush ◌>>=◌
put_message m w = let (r, w') = (put m >>= λ _. ws_flush) w in (as_other r, w')

-- Binary framing for chunk data, text framing for short lines.
unfoldable pub message_of : Bytes → Message
unfolding from_utf8_lossy
message_of data' =
    if ltb (length data') 2 || ltb (chunk_size_default - 3) (length data')
    then binary_message data'
    else text_message (from_utf8_lossy data')

unfoldable pub write_as : StreamKind → Bytes → Io (Unit {0})
unfolding put put_message message_of
write_as raw data' = put (raw_bytes data')
write_as websocket data' = put_message (message_of data')

unfoldable pub write_all : Bytes → Io (Unit {0})
unfolding write_as
write_all data' w = write_as w.kind data' w

abbrev pub write_line : Bytes → Io (Unit {0})
write_line s = write_all s

-- The loop of `read_exact` over frames: `need` bytes are missing, and what a frame holds beyond
-- them is dropped.
unfoldable pub fill : ℕ → Bytes → List Frame → Outcome Bytes × List Frame
fill zero filled fs = (ok filled, fs)
fill (suc n) filled [] = (err other, [])
fill (suc n) filled (text t ∷ fs) = fill (suc n - length t) (filled ++ take (suc n) t) fs
fill (suc n) filled (binary b ∷ fs) = fill (suc n - length b) (filled ++ take (suc n) b) fs
fill (suc n) filled (close ∷ fs) = (err connection_reset, fs)
fill (suc n) filled (control ∷ fs) = fill (suc n) filled fs
fill (suc n) filled (io_error e ∷ fs) = (err e, fs)
fill (suc n) filled (ws_error ∷ fs) = (err other, fs)

-- The bytes read; the source fills a buffer of length `n`.
unfoldable pub read_exact_as : StreamKind → ℕ → Io Bytes
unfolding fill
read_exact_as raw n w =
    if leb n (length w.input)
    then (ok (take n w.input), record w { input = drop n w.input })
    else (err (end_error w), record w { input = [] })
read_exact_as websocket n w = let (r, fs) = fill n [] w.frames in (r, record w { frames = fs })

unfoldable pub read_exact : ℕ → Io Bytes
unfolding read_exact_as
read_exact n w = read_exact_as w.kind n w

abbrev pub kind_name : Wire → Bytes
kind_name w = elim w.kind [ raw ↦ codes "raw" | websocket ↦ codes "websocket" ]

-- The loop of `read` over frames: one frame's bytes, as many as fit into a buffer of length `n`.
unfoldable pub read_frame : ℕ → List Frame → Outcome Bytes × List Frame
read_frame n [] = (err other, [])
read_frame n (text t ∷ fs) = (ok (take n t), fs)
read_frame n (binary b ∷ fs) = (ok (take n b), fs)
read_frame n (close ∷ fs) = (ok [], fs)
read_frame n (control ∷ fs) = read_frame n fs
read_frame n (io_error e ∷ fs) = (err e, fs)
read_frame n (ws_error ∷ fs) = (err other, fs)

-- `BufReader::read`: `arrived` is how many bytes the reader or the transport has at hand, at least
-- one while some are to come.
unfoldable pub read_arrived : ℕ → ℕ → Io Bytes
read_arrived arrived n w =
    if is_empty w.input then (elim w.ending [ none ↦ ok [] | some e ↦ err e ], w) else (
      ok (take (min n (max 1 arrived)) w.input),
      record w { input = drop (min n (max 1 arrived)) w.input },
    )

-- The bytes read, at the front of a buffer of length `n`.
unfoldable pub read_as : StreamKind → ℕ → ℕ → Io Bytes
unfolding read_frame read_arrived
read_as raw arrived n w = read_arrived arrived n w
read_as websocket arrived n w = let (r, fs) = read_frame n w.frames in (r, record w { frames = fs })

unfoldable pub read : ℕ → ℕ → Io Bytes
unfolding read_as
read arrived n w = read_as w.kind arrived n w

-- `peer_addr` of the stream and of the transport in it: `none` is an error of the socket.
abbrev pub peer_addr : Wire → Option SocketAddr
peer_addr w = w.peer
