-- ===== src/Serve/Supervised.antt =====
-- crates/hookbox-server/src/serve.rs with crates/hookbox-server/src/routes/health.rs: what the
-- readiness shows of a worker that ended, and of a server that has just started.
use mathlib.Core.List.{Memᴰ}
use hookbox.Prelude.{String, false, Option, List, ◌≡◌, ◌≢◌, refl, not_any}
use hookbox.Domain.{DateTime}
use hookbox.Worker.Dispatch.{EmitterHealth}
use hookbox.Routes.Health.{Ping, is_unhealthy, readyz, readyz-ok}
use hookbox.Serve.Tasks.{Join, supervise_worker, degraded}

-- When the supervisor sees a worker end by a panic or a cancellation, the health it leaves makes
-- the service unready, whatever the other emitters and the database do.
pub supervise_worker-readyz :
    (join : Join) (now : DateTime) (previous : EmitterHealth) (name : String) (ping : Option Ping)
    (emitter_health : List (String × EmitterHealth)) (names : List String)
    → join ≢ Join.finished
    → Memᴰ (name, (supervise_worker join now previous).0) emitter_health
    → (readyz ping emitter_health names).0 ≢ 200
unfolding supervise_worker degraded
supervise_worker-readyz join now previous name ping m names n h ready = ended join n h
  where
    healthy : (g : EmitterHealth) → Memᴰ (name, g) m → is_unhealthy g.status ≡ false
    healthy g h =
        not_any (λ (e : String × EmitterHealth). is_unhealthy e.1.status) (name, g) m
          ((readyz-ok ping m names).0 ready).2 h

    ended :
        (join : Join)
        → join ≢ Join.finished
        → Memᴰ (name, (supervise_worker join now previous).0) m
        → ⊥
    ended Join.finished n h = n refl
    ended Join.panicked n h = cc (healthy _ h)
    ended Join.cancelled n h = cc (healthy _ h)
