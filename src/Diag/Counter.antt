-- ===== src/Diag/Counter.antt =====
-- The update counter of src/twin/common/util.py, which the PLC publishes for each device and the Edge
-- collector compares.
use data_gateway.Base.{ℕ, ◌+◌, ◌%◌, ◌≤◌, ◌==◌, if◌then◌else◌}
use data_gateway.Diag.{Diag}

abbrev pub IsCounter : ℕ → Type 0
IsCounter n = (1 ≤ n) × (n ≤ 65535)

-- The counter `n` after `k` successful polls.
abbrev counted : ℕ → ℕ → ℕ
counted n k = if k == 0 then n else (n + 65534 + k) % 65535 + 1
