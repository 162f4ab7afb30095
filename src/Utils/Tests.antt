-- ===== src/Utils/Tests.antt =====
-- Runs of the model of utils/src.
use proof_systems.Prelude.{ℕ, ◌≡◌, ◌≤◌, ◌<◌, ◌^◌, ◌*◌, ◌-◌, refl, arith}
use proof_systems.Outcome.{ok, panic}
use proof_systems.Utils.Math.{ceil_log2, ceil_log2_loop, ceil_log2_lem}

-- The last row of the table of the source's test.
ceil_log2_max : ceil_log2 (2 ^ 64 - 1) ≡ ok 64
unfolding ceil_log2 ceil_log2_loop
ceil_log2_max = refl

ceil_log2_zero : ceil_log2 0 ≡ panic "assertion failed: d != 0"
unfolding ceil_log2
ceil_log2_zero = refl

ceil_log2_lem_example :
    (c : ℕ) × (ceil_log2 15430 ≡ ok c) × (15430 ≤ 2 ^ c) × (2 ^ c < 2 * 15430) × (c ≤ 64)
ceil_log2_lem_example = ceil_log2_lem 15430 (omega arith) (omega arith)
