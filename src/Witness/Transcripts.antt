-- ===== src/Witness/Transcripts.antt =====
-- Lines, key files and greetings at concrete inputs.
use open_rmbt_server.Common.{◌≡◌, refl, arith, true, false, some, [], ◌∷◌}
use open_rmbt_server.Text.{Bytes, codes, trim}
use open_rmbt_server.Io.{Wire, ok}
use open_rmbt_server.Stream.Defs.{read_line}
use open_rmbt_server.Stream.Framing.{IsLine, read_lines, read_lines-frame}
use open_rmbt_server.Stream.Taken.{Taken, read_line-Taken}
use open_rmbt_server.Config.Defs.{default_config}
use open_rmbt_server.Config.Keys.{read_secret_keys, is_skipped}
use open_rmbt_server.Config.KeyFile.{Entry, IsEntry, read_secret_keys-file}
use open_rmbt_server.Http.Plain.{IsField, fields_text}
use open_rmbt_server.IpCheck.Handle.{handle}
use open_rmbt_server.IpCheck.Framed.{Framed, handle-Framed}
use open_rmbt_server.Greeting.Defs.{run_greeting}
use open_rmbt_server.Greeting.Logs.{Did}
use open_rmbt_server.Greeting.Transcript.{setting, Told, run_greeting_tells}
use open_rmbt_server.Witness.Setup.{c, key, wire}
use open_rmbt_server.Witness.Sessions.{clock, start, parsers}

ping-IsLine : IsLine (codes "PING")
unfolding open_rmbt_server.Stream.Defs.last_is open_rmbt_server.Utf8.is_utf8
ping-IsLine = record { no_newline = omega arith; no_return = refl; utf8 = refl; size = omega arith }

quit-IsLine : IsLine (codes "QUIT")
unfolding open_rmbt_server.Stream.Defs.last_is open_rmbt_server.Utf8.is_utf8
quit-IsLine = record { no_newline = omega arith; no_return = refl; utf8 = refl; size = omega arith }

abbrev lines_sent : Wire
lines_sent = wire (codes "PING\nQUIT\r\nrest")

read_lines-frame_example :
    read_lines 2 lines_sent
    ≡ (ok (codes "PING" ∷ codes "QUIT" ∷ []), record lines_sent { input = codes "rest" })
read_lines-frame_example =
    read_lines-frame ((codes "PING", false) ∷ (codes "QUIT", true) ∷ []) (codes "rest") lines_sent
      (ping-IsLine, (quit-IsLine, tt)) refl refl

read_line-Taken_example : Taken lines_sent (read_line lines_sent)
read_line-Taken_example = read_line-Taken lines_sent refl

run_greeting_tells_example :
    Did
      (setting true start)
      (Told c (codes "1.7.0") default_config (key ∷ []) clock (setting true start) start.wire)
      start
      (run_greeting c (codes "1.7.0") 3 default_config (key ∷ []) true clock start)
run_greeting_tells_example =
    run_greeting_tells c (codes "1.7.0") 3 default_config (key ∷ []) true clock start refl

key-IsEntry : IsEntry (Entry.key key)
unfolding trim is_skipped open_rmbt_server.Stream.Defs.last_is
key-IsEntry = record {
  meant = record { no_space = omega arith; label = refl; line = refl; kept = refl };
  no_newline = omega arith;
  no_return = refl;
}

remark-IsEntry : IsEntry (Entry.remark (codes "# old keys"))
unfolding is_skipped trim open_rmbt_server.Stream.Defs.last_is
remark-IsEntry = record { meant = refl; no_newline = omega arith; no_return = refl }

read_secret_keys-file_example :
    read_secret_keys (some (codes "# old keys\nsecret prod\r\n")) ≡ some (key ∷ [])
read_secret_keys-file_example =
    read_secret_keys-file ((Entry.remark (codes "# old keys"), false) ∷ (Entry.key key, true) ∷ [])
      (remark-IsEntry, (key-IsEntry, tt))

abbrev options_head : Bytes
options_head =
    codes "OPTIONS /ip HTTP/1.1\r\nOrigin: a\r\nAccess-Control-Request-Headers: x-a\r\n\r\n"

abbrev hsts_line : Bytes
hsts_line = codes "Strict-Transport-Security: max-age=31536000"

hsts_line-IsField : IsField hsts_line
hsts_line-IsField = record { plain = omega arith; some_text = λ e. absurd (cc e) }

answered_options :
    (handle c parsers options_head (fields_text (hsts_line ∷ [])) (key ∷ []) 5000 (wire [])).0
    ≡ ok (codes "OPTIONS /ip -> 200")
unfolding handle open_rmbt_server.Io.◌>>=◌ open_rmbt_server.IpCheck.Handle.parse_headers
    open_rmbt_server.Text.split_crlf open_rmbt_server.IpCheck.Handle.respond
    open_rmbt_server.Http.Defs.method_of open_rmbt_server.Http.Defs.send
    open_rmbt_server.Http.Defs.flush
answered_options = refl

handle-Framed_example :
    Framed
      (hsts_line ∷ [])
      (wire [])
      (handle c parsers options_head (fields_text (hsts_line ∷ [])) (key ∷ []) 5000 (wire [])).1
handle-Framed_example =
    handle-Framed c parsers options_head (hsts_line ∷ []) (key ∷ []) 5000 (wire [])
      (codes "OPTIONS /ip -> 200") (hsts_line-IsField, tt) answered_options
