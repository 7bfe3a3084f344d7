-- ===== src/Witness/Transfers.antt =====
-- Uploads, downloads and the head of a request at concrete inputs.
use open_rmbt_server.Common.{
  ℕ, ◌*◌, ◌%◌, ◌≤◌, ◌≡◌, refl, ◌≢◌, arith, true, some, [], ◌∷◌, ◌++◌, length,
}
use open_rmbt_server.Text.{Bytes, codes, starts_with}
use open_rmbt_server.Io.{Wire, ok, stuck}
use open_rmbt_server.Io.Tame.{left}
use open_rmbt_server.Stats.{new_stats}
use open_rmbt_server.Http.Defs.{ends_with, blank_line, read_head}
use open_rmbt_server.Upgrade.Head.{read_head_lem}
use open_rmbt_server.Commands.Defs.{Session, run_commands, put_all, getchunks_for, gettime_for}
use open_rmbt_server.Commands.Halts.{Advances}
use open_rmbt_server.Commands.Ends.{run_commands_ends}
use open_rmbt_server.Commands.Upload.{Uploaded, put_all_uploads}
use open_rmbt_server.Commands.Progress.{Reported, put_all_reports}
use open_rmbt_server.Commands.Gettime.{TimedDownload, gettime_for_sends}
use open_rmbt_server.Commands.Download.{Downloaded, getchunks_for_sends}
use open_rmbt_server.Witness.Setup.{wire}

-- A wire with a clock that moves five seconds with each reading.
abbrev pub slow : Bytes → Wire
slow input = record (wire input) { ticks = λ i. i * 5000000000 }

pub slow-Advances : (n : ℕ) → 6 ≤ n → Advances n (λ i. i * 5000000000)
slow-Advances n h t = omega arith

run_commands_ends_example :
    (run_commands 20 20 (λ i. i % 256) new_stats (slow (codes "PING\nOK\nQUIT\n"))).0 ≢ stuck
unfolding left
run_commands_ends_example =
    run_commands_ends 20 20 (λ i. i % 256) new_stats (slow (codes "PING\nOK\nQUIT\n")) (omega arith)
      (omega arith) (slow-Advances 20 (omega arith))

abbrev session : Bytes → Session
session input = record { wire = wire input; chunk_size = 4; stats = new_stats }

uploaded : (put_all 3 true (session (1 ∷ 2 ∷ 3 ∷ 0 ∷ 4 ∷ 5 ∷ 6 ∷ 255 ∷ 9 ∷ []))).0 ≡ ok tt
unfolding put_all open_rmbt_server.Commands.Defs.◌>>=◌ open_rmbt_server.Commands.Defs.on
    open_rmbt_server.Stream.Defs.write_all open_rmbt_server.Commands.Defs.receive
    open_rmbt_server.Commands.Defs.gets open_rmbt_server.Stream.Defs.read_exact
    open_rmbt_server.Commands.Defs.some_or_panic open_rmbt_server.Commands.Defs.report
    open_rmbt_server.Commands.Defs.elapsed open_rmbt_server.Commands.Defs.write_report
    open_rmbt_server.Commands.Defs.pure open_rmbt_server.Commands.Defs.update_stats
uploaded = refl

put_all_uploads_example :
    Uploaded
      (session (1 ∷ 2 ∷ 3 ∷ 0 ∷ 4 ∷ 5 ∷ 6 ∷ 255 ∷ 9 ∷ []))
      (put_all 3 true (session (1 ∷ 2 ∷ 3 ∷ 0 ∷ 4 ∷ 5 ∷ 6 ∷ 255 ∷ 9 ∷ []))).1
put_all_uploads_example =
    put_all_uploads 3 true (session (1 ∷ 2 ∷ 3 ∷ 0 ∷ 4 ∷ 5 ∷ 6 ∷ 255 ∷ 9 ∷ [])) refl (omega arith)
      uploaded

put_all_reports_example :
    Reported true
      (session (1 ∷ 2 ∷ 3 ∷ 0 ∷ 4 ∷ 5 ∷ 6 ∷ 255 ∷ 9 ∷ []))
      (put_all 3 true (session (1 ∷ 2 ∷ 3 ∷ 0 ∷ 4 ∷ 5 ∷ 6 ∷ 255 ∷ 9 ∷ []))).1
put_all_reports_example =
    put_all_reports 3 true (session (1 ∷ 2 ∷ 3 ∷ 0 ∷ 4 ∷ 5 ∷ 6 ∷ 255 ∷ 9 ∷ [])) uploaded

downloaded : (getchunks_for (λ i. i % 256) (some 3) (session (codes "OK\n"))).0 ≡ ok tt
unfolding getchunks_for open_rmbt_server.Commands.Defs.◌>>=◌ open_rmbt_server.Commands.Defs.on
    open_rmbt_server.Commands.Defs.gets open_rmbt_server.Commands.Defs.send_count
    open_rmbt_server.Commands.Defs.send_chunk open_rmbt_server.Commands.Defs.some_or_panic
    open_rmbt_server.Commands.Defs.set_last open_rmbt_server.Commands.Defs.slice
    open_rmbt_server.Stream.Defs.write_all open_rmbt_server.Commands.Defs.pure
    open_rmbt_server.Commands.Defs.elapsed open_rmbt_server.Commands.Defs.update_stats
    open_rmbt_server.Commands.Defs.acknowledge open_rmbt_server.Stream.Defs.read_line
    open_rmbt_server.Text.eq_bytes open_rmbt_server.Text.trim
    open_rmbt_server.Commands.Defs.random_chunk
downloaded = refl

getchunks_for_sends_example :
    Downloaded
      (λ i. i % 256)
      2
      (session (codes "OK\n"))
      (getchunks_for (λ i. i % 256) (some 3) (session (codes "OK\n"))).1
getchunks_for_sends_example =
    getchunks_for_sends (λ i. i % 256) 2 (session (codes "OK\n")) (omega arith) downloaded

abbrev timed : Session
timed = record { wire = slow (codes "OK\n"); chunk_size = 4096; stats = new_stats }

timed_downloaded : (gettime_for 2 (λ i. i % 256) (some 1) timed).0 ≡ ok tt
unfolding gettime_for open_rmbt_server.Commands.Defs.◌>>=◌ open_rmbt_server.Commands.Defs.on
    open_rmbt_server.Commands.Defs.gets open_rmbt_server.Commands.Defs.send_until
    open_rmbt_server.Commands.Defs.elapsed open_rmbt_server.Commands.Defs.send_chunk
    open_rmbt_server.Commands.Defs.some_or_panic open_rmbt_server.Commands.Defs.set_last
    open_rmbt_server.Commands.Defs.slice open_rmbt_server.Commands.Defs.pure
    open_rmbt_server.Commands.Defs.update_stats open_rmbt_server.Commands.Defs.acknowledge
    open_rmbt_server.Stream.Defs.write_all open_rmbt_server.Stream.Defs.read_line
    open_rmbt_server.Text.eq_bytes open_rmbt_server.Text.trim
    open_rmbt_server.Commands.Defs.random_chunk
timed_downloaded = refl

gettime_for_sends_example :
    TimedDownload (λ i. i % 256) 1000000000 timed (gettime_for 2 (λ i. i % 256) (some 1) timed).1
gettime_for_sends_example =
    gettime_for_sends 2 (λ i. i % 256) 1 timed (omega arith) timed_downloaded

abbrev head : Bytes
head = codes "GET /ip HTTP/1.1" ++ blank_line

head_read : (read_head (wire (head ++ codes "body"))).0 ≡ ok head
unfolding read_head
head_read = refl

read_head_lem_example :
    (head ++ codes "body" ≡ head ++ (read_head (wire (head ++ codes "body"))).1.input)
    × (ends_with head blank_line ≡ true)
    × (length head ≤ 8193)
read_head_lem_example = read_head_lem (wire (head ++ codes "body")) head head_read
