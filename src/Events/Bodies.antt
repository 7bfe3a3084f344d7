-- ===== src/Events/Bodies.antt =====
-- The events of src/events.rs that a server emits of itself, and the close event. The arithmetic of
-- `f64` and its text are parameters.
use open_rmbt_server.Common.{
  ℕ, ◌^◌, Bool, Option, none, some, [], ◌∷◌, ◌++◌, ltb, ◌==◌, if◌then◌else◌,
}
use open_rmbt_server.Int.{ℤ, pos, ◌-ℤ◌}
use open_rmbt_server.Text.{Bytes, codes}
use open_rmbt_server.Stats.{ConnStats}
use open_rmbt_server.Events.Escape.{sep, json_key, json_str, json_int, json_bool, json_done}

-- `f64`: the casts, the operations, and `{v:.3}`; `secs` is `Duration::as_secs_f64`, from
-- nanoseconds.
pub record Floats : Type 1 where
  pub F : Type 0
  pub of_int : ℕ → F
  pub mul : F → F → F
  pub div : F → F → F
  pub secs : ℕ → F
  pub fixed : F → Bytes

-- `as i64`.
unfoldable pub as_i64 : ℕ → ℤ
as_i64 n = if ltb n (2 ^ 63) then pos n else pos n -ℤ pos (2 ^ 64)

module _ (fl : Floats) where
  unfoldable pub json_float : Bytes → Bytes → fl.F → Bytes
  unfolding sep json_key
  json_float json k v = json_key (sep json) k ++ fl.fixed v

  unfoldable pub ns_to_ms : ℕ → fl.F
  ns_to_ms ns = fl.div (fl.of_int ns) (fl.of_int 1000000)

  unfoldable pub mbps : ℕ → ℕ → fl.F
  mbps bytes ns =
      if ns == 0
      then fl.of_int 0
      else fl.div
          (fl.div (fl.mul (fl.of_int bytes) (fl.of_int 8))
            (fl.div (fl.of_int ns) (fl.of_int 1000000000)))
          (fl.of_int 1000000)

  -- The fields of a transfer: the bytes, the time and the throughput.
  abbrev transfer_fields : Bytes → Bytes → Bytes → Bytes → ℕ → ℕ → Bytes
  transfer_fields json k_bytes k_ms k_mbps bytes ns =
      json_float (json_float (json_int json k_bytes (as_i64 bytes)) k_ms (ns_to_ms ns)) k_mbps
        (mbps bytes ns)

  unfoldable pub close_download : ConnStats → Bytes → Bytes
  unfolding json_int
  close_download s json =
      if ltb 0 s.download_bytes
      then transfer_fields json (codes "dl_bytes") (codes "dl_ms") (codes "dl_mbps")
          s.download_bytes s.download_ns
      else json

  unfoldable pub close_upload : ConnStats → Bytes → Bytes
  unfolding json_int
  close_upload s json =
      if ltb 0 s.upload_bytes
      then transfer_fields json (codes "ul_bytes") (codes "ul_ms") (codes "ul_mbps") s.upload_bytes
          s.upload_ns
      else json

  unfoldable pub close_ping : ConnStats → Bytes → Bytes
  unfolding json_int
  close_ping s json =
      if ltb 0 s.ping_count
      then json_float
          (json_float (json_int json (codes "ping_count") (pos s.ping_count)) (codes "ping_min_ms")
            (ns_to_ms s.ping_min_ns))
          (codes "ping_max_ms") (ns_to_ms s.ping_max_ns)
      else json

  -- The part of the close event that is always there; `duration` is in nanoseconds.
  unfoldable pub close_head : ℕ → Bytes → Bytes → Bytes → Bool → ℕ → ConnStats → Bytes → Bytes
  unfolding json_str json_int json_bool
  close_head conn_id uuid token_type secret tls duration s end =
      let j1 =
        json_int (json_str (codes "{") (codes "event") (codes "close")) (codes "conn")
          (as_i64 conn_id) in
      let j2 = json_str (json_str j1 (codes "uuid") uuid) (codes "token") token_type in
      let j3 = json_bool (json_str j2 (codes "secret") secret) (codes "tls") tls in
      let j4 =
        json_float (json_str j3 (codes "end") end) (codes "duration_ms")
          (fl.mul (fl.secs duration) (fl.of_int 1000)) in
      json_int j4 (codes "commands") (pos s.commands)

  -- The body of `close`.
  unfoldable pub close_body : ℕ → Bytes → Bytes → Bytes → Bool → ℕ → ConnStats → Bytes → Bytes
  unfolding close_head close_download close_upload close_ping
  close_body conn_id uuid token_type secret tls duration s end = json_done (
      close_ping s (
        close_upload s
          (close_download s (close_head conn_id uuid token_type secret tls duration s end))))

-- The body of `startup`.
unfoldable pub startup_body : Bytes → ℕ → ℕ → ℕ → Bytes
unfolding json_str json_int
startup_body version workers tcp_listeners tls_listeners =
    let j1 =
      json_str (json_str (codes "{") (codes "event") (codes "startup")) (codes "version") version in
    let j2 =
      json_int (json_int j1 (codes "workers") (as_i64 workers)) (codes "tcp_listeners")
        (as_i64 tcp_listeners) in
    json_done (json_int j2 (codes "tls_listeners") (as_i64 tls_listeners))

-- The body of `error`.
unfoldable pub error_body : Bytes → Bytes → Bytes
unfolding json_str
error_body context message = json_done (
    json_str
      (json_str (json_str (codes "{") (codes "event") (codes "error")) (codes "context") context)
      (codes "message") message)

-- The name of the host, from the two environment variables.
unfoldable pub hostname : Option Bytes → Option Bytes → Bytes
hostname (some []) computername = codes "-"
hostname (some (c ∷ s)) computername = c ∷ s
hostname none (some (c ∷ s)) = c ∷ s
hostname none (some []) = codes "-"
hostname none none = codes "-"
