-- ===== src/Token/Window.antt =====
-- The accept window of src/protocol/token.rs: `window_check`, `time_window`, `reconstruct_time`.
use open_rmbt_server.Common.{ℕ, ◌+◌, ◌%◌, ◌^◌, ◌≤◌, ◌<◌, ◌≡◌, ◌↔◌, arith}
use open_rmbt_server.Int.{ℤ, pos, pos_part, ◌+ℤ◌, ◌-ℤ◌, ◌≤ℤ◌, ◌<ℤ◌}
use open_rmbt_server.Text.{Bytes}
use open_rmbt_server.Token.Defs.{
  TokenResult, accepted, too_early, too_late, ok, window_check, time_window, reconstruct_time,
}

-- The window check passes exactly from 20 seconds before the start to 90 seconds after it, both
-- included, and returns how early the client is.
pub window_check_iff :
    (start : ℤ) (now : ℕ) (early : ℤ)
    → (window_check start now ≡ ok early)
      ↔ ((early ≡ start -ℤ pos now) × (start ≤ℤ pos (now + 20)) × (pos now ≤ℤ start +ℤ pos 90))
unfolding window_check ◌-ℤ◌ ◌+ℤ◌
window_check_iff start now early = (λ h. ground arith, λ h. ground arith)

-- A token is accepted exactly inside the window, and with a sleep of as many seconds as the
-- client is early, at most 20; a client that is on time or late does not sleep.
pub time_window-accepted_iff :
    (start : ℤ) (now sleep : ℕ) (label label' : Bytes)
    → (time_window start now label ≡ accepted sleep label') ↔ (
        (label ≡ label')
        × (pos now ≤ℤ start +ℤ pos 90)
        × (sleep ≤ 20)
        × (sleep ≡ pos_part (start -ℤ pos now)))
unfolding time_window window_check ◌-ℤ◌ ◌+ℤ◌
time_window-accepted_iff start now sleep label label' = (λ h. ground arith, λ h. ground arith)

abbrev pub IsTooEarly : TokenResult → Type 0
IsTooEarly (too_early reason) = Unit
IsTooEarly _ = ⊥

abbrev pub IsTooLate : TokenResult → Type 0
IsTooLate (too_late reason) = Unit
IsTooLate _ = ⊥

-- The verdict is "too early" exactly more than 20 seconds before the start, and "too late"
-- exactly more than 90 seconds after it.
pub time_window_outside :
    (start : ℤ) (now : ℕ) (label : Bytes)
    → (IsTooEarly (time_window start now label) ↔ (pos (now + 20) <ℤ start))
      × (IsTooLate (time_window start now label) ↔ (start +ℤ pos 90 <ℤ pos now))
unfolding time_window window_check ◌-ℤ◌ ◌+ℤ◌
time_window_outside start now label =
    ((λ h. ground arith, λ h. ground arith), (λ h. ground arith, λ h. ground arith))

-- The reconstructed time agrees with the token's in the low 32 bits, and is at most 2^31 seconds
-- away from now. (2^32 is added, since a time before the epoch can come out.)
pub reconstruct_time_nearest :
    (t now : ℕ)
    → t < 2 ^ 32
    → (pos_part (reconstruct_time t now +ℤ pos (2 ^ 32)) % 2 ^ 32 ≡ t)
      × (reconstruct_time t now ≤ℤ pos (now + 2 ^ 31))
      × (pos now ≤ℤ reconstruct_time t now +ℤ pos (2 ^ 31))
unfolding reconstruct_time ◌-ℤ◌ ◌+ℤ◌
reconstruct_time_nearest t now h = (ground arith, ground arith, ground arith)

-- A start time less than 2^31 seconds away from now is recovered from its low 32 bits, whichever
-- side of a 2^32 boundary the two stand on.
pub reconstruct_time_roundtrip :
    (start now : ℕ)
    → start < now + 2 ^ 31
    → now < start + 2 ^ 31
    → reconstruct_time (start % 2 ^ 32) now ≡ pos start
unfolding reconstruct_time ◌-ℤ◌ ◌+ℤ◌
reconstruct_time_roundtrip start now h k = ground arith
