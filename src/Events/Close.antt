-- ===== src/Events/Close.antt =====
-- The close event of src/events.rs: which fields it has.
use open_rmbt_server.Common.{ℕ, Bool, List, [], ◌∷◌, ltb, if◌then◌else◌}
use open_rmbt_server.Int.{pos}
use open_rmbt_server.Text.{Bytes, codes}
use open_rmbt_server.Stats.{ConnStats}
use open_rmbt_server.Events.Bodies.{Floats, as_i64, ns_to_ms, mbps}
use open_rmbt_server.Events.Object.{Field, str, int, bool, float, add}

module _ (fl : Floats) where
  abbrev adds : Bytes → List (Field fl) → Bytes
  adds json [] = json
  adds json (f ∷ fs) = adds (add fl json f) fs

  -- The fields that are always there.
  abbrev pub head_fields :
      ℕ → Bytes → Bytes → Bytes → Bool → ℕ → ConnStats → Bytes → List (Field fl)
  head_fields conn_id uuid token_type secret tls duration s end =
      str (codes "event") (codes "close")
      ∷ int (codes "conn") (as_i64 conn_id)
      ∷ str (codes "uuid") uuid
      ∷ str (codes "token") token_type
      ∷ str (codes "secret") secret
      ∷ bool (codes "tls") tls
      ∷ str (codes "end") end
      ∷ float (codes "duration_ms") (fl.mul (fl.secs duration) (fl.of_int 1000))
      ∷ int (codes "commands") (pos s.commands)
      ∷ []

  -- The fields of what was measured, if anything was.
  abbrev pub download_fields : ConnStats → List (Field fl)
  download_fields s =
      if ltb 0 s.download_bytes
      then int (codes "dl_bytes") (as_i64 s.download_bytes)
        ∷ float (codes "dl_ms") (ns_to_ms fl s.download_ns)
        ∷ float (codes "dl_mbps") (mbps fl s.download_bytes s.download_ns)
        ∷ []
      else []

  abbrev pub upload_fields : ConnStats → List (Field fl)
  upload_fields s =
      if ltb 0 s.upload_bytes
      then int (codes "ul_bytes") (as_i64 s.upload_bytes)
        ∷ float (codes "ul_ms") (ns_to_ms fl s.upload_ns)
        ∷ float (codes "ul_mbps") (mbps fl s.upload_bytes s.upload_ns)
        ∷ []
      else []

  abbrev pub ping_fields : ConnStats → List (Field fl)
  ping_fields s =
      if ltb 0 s.ping_count
      then int (codes "ping_count") (pos s.ping_count)
        ∷ float (codes "ping_min_ms") (ns_to_ms fl s.ping_min_ns)
        ∷ float (codes "ping_max_ms") (ns_to_ms fl s.ping_max_ns)
        ∷ []
      else []
