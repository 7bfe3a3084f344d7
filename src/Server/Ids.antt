-- ===== src/Server/Ids.antt =====
-- The connection ids of src/server/mod.rs.
use open_rmbt_server.Common.{ℕ, ◌≤◌, ◌<◌, ◌^◌, ◌≡◌, arith}
use open_rmbt_server.Server.Defs.{conn_id}

-- Two connections share an id only if one worker handled them as the same number in its sequence,
-- as long as no worker has handled more than 100000 and there are fewer than 2^40 workers.
pub conn_id-injective :
    (i j s t : ℕ)
    → i < 2 ^ 40
    → j < 2 ^ 40
    → 0 < s
    → s ≤ 100000
    → 0 < t
    → t ≤ 100000
    → conn_id i s ≡ conn_id j t
    → (i ≡ j) × (s ≡ t)
conn_id-injective i j s t k l a b c d h = (omega arith, omega arith)
