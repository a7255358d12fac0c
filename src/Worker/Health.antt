-- ===== src/Worker/Health.antt =====
-- The health snapshot of crates/hookbox-server/src/worker.rs.
use hookbox.Prelude.{ℕ, zero, suc, ◌≤◌, ◌<◌, true, false, ◌≡◌, refl, ◌↔◌, arith}
use hookbox.Domain.{DateTime}
use hookbox.Worker.Dispatch.{EmitterHealth, HealthStatus, update_health, derive_status, u32_size}

-- So many failures in a row.
unfoldable pub failures : ℕ → DateTime → EmitterHealth → EmitterHealth
unfolding update_health
failures zero now h = h
failures (suc n) now h = update_health false now (failures n now h)

failures-count :
    (n : ℕ) (t now : DateTime) (h : EmitterHealth)
    → n < u32_size
    → (failures n now (update_health true t h)).consecutive_failures ≡ n
unfolding failures update_health
failures-count zero t now h b = refl
failures-count (suc n) t now h b = ground (arith, failures-count n t now h)

-- After a success and `n` failures at one time, `n` below 2 ^ 32, the counter shows `n`, and an
-- emitter with a failure counts as unhealthy exactly from the tenth one on.
pub failures-status :
    (n : ℕ) (t now : DateTime) (h : EmitterHealth)
    → suc n < u32_size
    → ((failures (suc n) now (update_health true t h)).consecutive_failures ≡ suc n)
      × (((failures (suc n) now (update_health true t h)).status ≡ HealthStatus.unhealthy)
          ↔ (10 ≤ suc n))
unfolding failures update_health derive_status
failures-status n t now h b = (
  failures-count (suc n) t now h b,
  (ground (arith, failures-count n t now h), ground (arith, failures-count n t now h)),
)
