-- ===== src/Pipeline/Limits.antt =====
-- job_config.go: the limit on builds in flight and the serial groups of a job belong together.
use atc.Prelude.{ℕ, ◌≡◌, ◌↔◌, [], arith}
use atc.Pipeline.Config.{pos, JobConfig, max_in_flight, get_serial_groups}

-- Where max_in_flight is not negative, a job has no limit exactly if it has no serial groups, so that
-- a limit always has builds to count.
pub max_in_flight-get_serial_groups :
    {T : Type 0} (job : JobConfig T) (n : ℕ)
    → JobConfig.raw_max_in_flight job ≡ pos n
    → (max_in_flight job ≡ pos 0) ↔ (get_serial_groups job ≡ [])
unfolding max_in_flight get_serial_groups
max_in_flight-get_serial_groups job n h = ground (arith, h)
