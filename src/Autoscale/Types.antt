-- ===== src/Autoscale/Types.antt =====
-- The settings of the scaler (dashboard/lib/autoscale.js).
use actions_runners.Prelude.{Bool, false, ℕ}

-- The settings that the scaler reads, with their defaults filled in.
pub record Limits : Type 0 where
  pub burst_scale : Bool
  pub burst_min_queued_jobs : ℕ
  pub burst_min_queued_ms : ℕ
  pub min_queued_ms : ℕ
  pub burst_scale_cooldown_ms : ℕ
  pub scale_cooldown_ms : ℕ
  pub burst_max_additions : ℕ
  pub idle_ttl_ms : ℕ

abbrev pub default_limits : Limits
default_limits = record {
  burst_scale = false;
  burst_min_queued_jobs = 2;
  burst_min_queued_ms = 120000;
  min_queued_ms = 600000;
  burst_scale_cooldown_ms = 300000;
  scale_cooldown_ms = 1800000;
  burst_max_additions = 2;
  idle_ttl_ms = 21600000;
}
