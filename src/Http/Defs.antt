-- ===== src/Http/Defs.antt =====
-- Reading and answering a request over a `Transport`, before there is a `Stream`: the wire is read
-- byte by byte, with no buffer. (src/stream/websocket_upgrade.rs, src/stream/transport.rs)
use open_rmbt_server.Common.{
  ℕ, ◌-◌, Bool, true, false, ◌&&◌, none, some, [], ◌∷◌, ◌++◌, ltb, leb, if◌then◌else◌, length, take,
  drop,
}
use open_rmbt_server.Text.{Bytes, eq_bytes, split, next_or, rest_of, split_crlf}
use open_rmbt_server.Io.{
  ErrorKind, invalid_data, raw_bytes, close_notify, Outcome, ok, err, Io, ◌>>=◌, ◌>>◌, pure,
  end_error, put,
}

abbrev pub blank_line : Bytes
blank_line = 13 ∷ 10 ∷ 13 ∷ 10 ∷ []

-- `s.ends_with(p)`.
unfoldable pub ends_with : Bytes → Bytes → Bool
unfolding eq_bytes
ends_with s p = leb (length p) (length s) && eq_bytes (drop (length s - length p) s) p

-- The loop that reads the request head, on the bytes that come; `buf` is what was read.
unfoldable pub head_loop : ErrorKind → Bytes → Bytes → Outcome Bytes × Bytes
unfolding ends_with
head_loop ending buf [] = (err ending, [])
head_loop ending buf (c ∷ s) =
    let buf' = buf ++ c ∷ [] in
    let rest = head_loop ending buf' s in
    if ends_with buf' blank_line
    then (ok buf', s)
    else if ltb 8192 (length buf')
    then (err invalid_data, s)
    else rest

unfoldable pub read_head : Io Bytes
unfolding head_loop
read_head w = let (r, s) = head_loop (end_error w) [] w.input in (r, record w { input = s })

-- `take(n).read_to_end`, and `io::copy` of as much: what comes, up to `n` bytes.
unfoldable pub read_up_to : ℕ → Io Bytes
read_up_to n w =
    if leb n (length w.input)
    then (ok (take n w.input), record w { input = drop n w.input })
    else (elim w.ending [ none ↦ ok w.input | some e ↦ err e ], record w { input = [] })

-- `Transport::write_all`.
unfoldable pub send : Bytes → Io (Unit {0})
unfolding put
send b = put (raw_bytes b)

-- `Transport::flush`.
unfoldable pub flush : Io (Unit {0})
flush w = elim w.faults [
  | [] ↦ (ok tt, w)
  | none ∷ fs ↦ (ok tt, record w { faults = fs })
  | some e ∷ fs ↦ (err e, record w { faults = fs })
]

-- `let _ = …`.
unfoldable pub ignore : Io (Unit {0}) → Io (Unit {0})
ignore m w = (ok tt, (m w).1)

-- `Transport::close`: on TLS a `close_notify` and a flush, whose errors are ignored.
unfoldable pub close : Bool → Io (Unit {0})
unfolding put flush ignore ◌>>=◌
close false = pure tt
close true = ignore (put close_notify >> flush)

-- The first word of the first line of a head.
unfoldable pub method_of : Bytes → Bytes
unfolding split split_crlf
method_of head = next_or [] (split b' ' (next_or [] (split_crlf head)))

-- `req.split(' ').nth(1).unwrap_or("")`.
unfoldable pub target_of : Bytes → Bytes
unfolding split
target_of req = next_or [] (rest_of (split b' ' req))

abbrev pub eol : Bytes
eol = 13 ∷ 10 ∷ []
