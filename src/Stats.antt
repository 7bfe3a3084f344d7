-- ===== src/Stats.antt =====
-- `ConnStats` of src/events.rs: what the server measures of one connection. The counters wrap, as
-- in a release build.
use open_rmbt_server.Common.{
  ℕ, suc, ◌+◌, ◌-◌, ◌%◌, ◌^◌, ◌<◌, min, max, ◌≡◌, refl, ap, ◌∙◌, List, [], ◌∷◌, arith, ltb,
  if◌then◌else◌, length,
}

pub record ConnStats : Type 0 where
  pub download_bytes : ℕ
  pub download_ns : ℕ
  pub upload_bytes : ℕ
  pub upload_ns : ℕ
  pub ping_count : ℕ
  pub ping_min_ns : ℕ
  pub ping_max_ns : ℕ
  pub commands : ℕ

-- `ConnStats::new()`.
abbrev pub new_stats : ConnStats
new_stats = record {
  download_bytes = 0;
  download_ns = 0;
  upload_bytes = 0;
  upload_ns = 0;
  ping_count = 0;
  ping_min_ns = 2 ^ 128 - 1;
  ping_max_ns = 0;
  commands = 0;
}

unfoldable pub add_download : ℕ → ℕ → ConnStats → ConnStats
add_download bytes ns s = record s {
  download_bytes = (s.download_bytes + bytes) % 2 ^ 64;
  download_ns = (s.download_ns + ns) % 2 ^ 128;
}

unfoldable pub add_upload : ℕ → ℕ → ConnStats → ConnStats
add_upload bytes ns s = record s {
  upload_bytes = (s.upload_bytes + bytes) % 2 ^ 64;
  upload_ns = (s.upload_ns + ns) % 2 ^ 128;
}

unfoldable pub add_ping : ℕ → ConnStats → ConnStats
add_ping ns s = record s {
  ping_count = (s.ping_count + 1) % 2 ^ 32;
  ping_min_ns = if ltb ns s.ping_min_ns then ns else s.ping_min_ns;
  ping_max_ns = if ltb s.ping_max_ns ns then ns else s.ping_max_ns;
}

-- `stats.commands += 1`.
unfoldable pub count_command : ConnStats → ConnStats
count_command s = record s { commands = (s.commands + 1) % 2 ^ 32 }

-- The pings of a connection, in order.
unfoldable pub add_pings : List ℕ → ConnStats → ConnStats
add_pings [] s = s
add_pings (ns ∷ rest) s = add_pings rest (add_ping ns s)

abbrev pub ping_min : ℕ → List ℕ → ℕ
ping_min m [] = m
ping_min m (x ∷ xs) = ping_min (min m x) xs

abbrev pub ping_max : ℕ → List ℕ → ℕ
ping_max m [] = m
ping_max m (x ∷ xs) = ping_max (max m x) xs

add_ping-ping_count : (x : ℕ) (s : ConnStats) → (add_ping x s).ping_count < 2 ^ 32
unfolding add_ping
add_ping-ping_count x s = omega arith

add_ping_bounds :
    (x : ℕ) (s : ConnStats)
    → ((add_ping x s).ping_min_ns ≡ min s.ping_min_ns x)
      × ((add_ping x s).ping_max_ns ≡ max s.ping_max_ns x)
      × ((n : ℕ) → ((add_ping x s).ping_count + n) % 2 ^ 32 ≡ (s.ping_count + suc n) % 2 ^ 32)
unfolding add_ping
add_ping_bounds x s = (ground arith, ground arith, λ n. omega arith)

-- After any pings the two fields hold the least and the greatest time, and the count is how many
-- there were, modulo 2^32; nothing else has changed.
pub add_pings_lem :
    (l : List ℕ) (s : ConnStats)
    → s.ping_count < 2 ^ 32
    → ((add_pings l s).ping_min_ns ≡ ping_min s.ping_min_ns l)
      × ((add_pings l s).ping_max_ns ≡ ping_max s.ping_max_ns l)
      × ((add_pings l s).ping_count ≡ (s.ping_count + length l) % 2 ^ 32)
      × ((add_pings l s).download_bytes ≡ s.download_bytes)
      × ((add_pings l s).upload_bytes ≡ s.upload_bytes)
      × ((add_pings l s).commands ≡ s.commands)
unfolding add_pings
add_pings_lem [] s h = (refl, refl, omega arith, refl, refl, refl)
add_pings_lem (x ∷ l) s h =
    let rest = add_pings_lem l (add_ping x s) (add_ping-ping_count x s) in
    (
      rest.0 ∙ ap (λ m. ping_min m l) (add_ping_bounds x s).0,
      rest.1 ∙ ap (λ m. ping_max m l) (add_ping_bounds x s).1,
      rest.2 ∙ (add_ping_bounds x s).2 (length l),
      rest.3 ∙ unfold add_ping in refl,
      rest.4 ∙ unfold add_ping in refl,
      rest.5 ∙ unfold add_ping in refl,
    )
