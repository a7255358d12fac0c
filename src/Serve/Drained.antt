-- ===== src/Serve/Drained.antt =====
-- `serve_inner` of crates/hookbox-server/src/serve.rs leaves no task behind.
use hookbox.Worker.Dispatch.{Chance}
use hookbox.Prelude.{
  append_nil, ℤ, String, Bool, true, false, List, [], ◌∷◌, ◌++◌, any, All, Result, ok, err, ◌≡◌,
  refl, sym, ap, ◌∙◌, subst, ◌>>=◌, map_err,
}
use hookbox.Config.Emitters.{to_emitter_config, HookboxConfig, EmitterEntry}
use hookbox.Emitters.Brokers.{Brokers}
use hookbox.Emitters.Local.{Channels}
use hookbox.Postgres.Exec.{Database}
use hookbox.Providers.Crypto.{Crypto}
use hookbox.Bootstrap.Factory.{FactoryError, BuiltEmitter, build_emitter}
use hookbox.Serve.Tasks.{
  Handle, Wait, Tasks, no_tasks, spawn_task, spawn_supervised, send_shutdown, await_all, report,
  drain_worker_handles,
}
use hookbox.Serve.Assembly.{ServerPipeline, Layers}
use hookbox.Serve.Workers.{
  Started, nothing_started, after_build, build_emitter_for_entry, start_worker, roll_back,
  spawn_next, spawn_emitter_workers,
}
use hookbox.Serve.Inner.{
  ServeError, Surroundings, first_error, shut_down, after_spawn, prepare, after_prepare,
  serve_inner,
}
use hookbox.Serve.Waits.{
  Rising, Covered, IsDrained, IsRunning, waits_of, await_all-waits, waits_of-tasks,
  waits_of-signalled, no_failure, a_failure, push-IsRunning, supervise-IsRunning, nothing-IsRunning,
}

-- The tasks after all of them were told to stop and awaited.
stopped : List (String × Handle) → Tasks → Tasks
stopped handles t = record t { signalled = true; waits = waits_of true handles }

await_all-stopped :
    (fails : Handle → Bool) (handles : List (String × Handle)) (t : Tasks)
    → IsRunning handles t
    → (await_all fails handles (send_shutdown t)).1 ≡ stopped handles t
unfolding stopped
await_all-stopped fails handles t r =
    await_all-waits fails handles (send_shutdown t)
    ∙ ap (λ ws. record t { signalled = true; waits = ws ++ waits_of true handles }) r.not_awaited

stopped-IsDrained :
    (handles : List (String × Handle)) (t : Tasks)
    → IsRunning handles t
    → IsDrained (stopped handles t)
unfolding stopped
stopped-IsDrained handles t r = record {
  in_turn = subst Rising (sym (waits_of-tasks true handles)) r.in_turn;
  all_awaited = λ id h.
      subst (λ l. Covered l t.supervised id) (sym (waits_of-tasks true handles)) (r.all_there id h);
  told_to_stop = waits_of-signalled handles;
}

drain-IsDrained :
    (fails : Handle → Bool) (handles : List (String × Handle)) (t : Tasks)
    → IsRunning handles t
    → IsDrained (drain_worker_handles fails handles (send_shutdown t)).1
unfolding drain_worker_handles report
drain-IsDrained fails handles t r =
    reported (await_all fails handles (send_shutdown t)) (await_all-stopped fails handles t r)
  where
    reported : (o : List String × Tasks) → o.1 ≡ stopped handles t → IsDrained (report o).1
    reported ([], u) e = subst IsDrained (sym e) (stopped-IsDrained handles t r)
    reported (name ∷ names, u) e = subst IsDrained (sym e) (stopped-IsDrained handles t r)

-- How the server ends: with no error if it was served to its end and no task failed.
pub Ended : Surroundings → Result (Unit {0}) ServeError → Tasks → Type 0
Ended s (ok _) t =
    IsDrained t × (s.served ≡ ok tt) × All (λ (w : Wait). s.fails w.task ≡ false) t.waits
Ended s (err (ServeError.tasks_panicked names)) t =
    IsDrained t × (s.served ≡ ok tt) × (any (λ (w : Wait). s.fails w.task) t.waits ≡ true)
Ended s (err (ServeError.fatal e)) t = IsDrained t × (s.served ≡ err e)
Ended s (err (ServeError.emitter e)) t = IsDrained t
Ended s (err (ServeError.retry e)) t = t ≡ no_tasks
Ended s (err (ServeError.connection e)) t = t ≡ no_tasks
Ended s (err (ServeError.migration e)) t = t ≡ no_tasks
Ended s (err (ServeError.pipeline e)) t = t ≡ no_tasks

shut_down-Ended :
    (s : Surroundings) (handles : List (String × Handle)) (t : Tasks)
    → IsRunning handles t
    → Ended s (shut_down s handles t).0 (shut_down s handles t).1
unfolding shut_down first_error drain_worker_handles report Ended stopped
shut_down-Ended s handles t r =
    served s.served refl (await_all s.fails handles (send_shutdown t)) refl
  where
    tasks :
        (o : List String × Tasks)
        → await_all s.fails handles (send_shutdown t) ≡ o
        → o.1 ≡ stopped handles t
    tasks o e =
        ap (λ (x : List String × Tasks). x.1) (sym e) ∙ await_all-stopped s.fails handles t r

    served :
        (sv : Result (Unit {0}) String)
        → s.served ≡ sv
        → (o : List String × Tasks) → await_all s.fails handles (send_shutdown t) ≡ o
        → Ended s (first_error sv (report o)).0 (first_error sv (report o)).1
    served (err x) q ([], u) e =
        (subst IsDrained (sym (tasks _ e)) (stopped-IsDrained handles t r), q)
    served (err x) q (name ∷ names, u) e =
        (subst IsDrained (sym (tasks _ e)) (stopped-IsDrained handles t r), q)
    served (ok _) q ([], u) e = (
      subst IsDrained (sym (tasks _ e)) (stopped-IsDrained handles t r),
      q,
      subst (λ v. All (λ (w : Wait). s.fails w.task ≡ false) v.waits) (sym (tasks _ e))
          (no_failure s.fails handles (send_shutdown t) (ap (λ (x : List String × Tasks). x.0) e)),
    )
    served (ok _) q (name ∷ names, u) e = (
      subst IsDrained (sym (tasks _ e)) (stopped-IsDrained handles t r),
      q,
      ap (λ v. any (λ (w : Wait). s.fails w.task) v.waits) (tasks _ e)
          ∙ a_failure s.fails handles (send_shutdown t) name names
              (ap (λ (x : List String × Tasks). x.0) e),
    )

module _ {Json Producer Client Connection Sender Receiver World : Type 0}
    (b : Brokers Json Producer Client Connection World) (c : Channels Json Sender Receiver World)
    (chance : Chance) (s : Surroundings) where
  Spawned : Result (Started Json World) FactoryError × World × Tasks → Type 0
  Spawned (ok started, w, t) = IsRunning started.worker_handles t
  Spawned (err e, w, t) = IsDrained t

  spawn-Spawned :
      (entries : List EmitterEntry) (w : World) (t : Tasks) (st : Started Json World)
      → IsRunning st.worker_handles t
      → Spawned (spawn_emitter_workers b c chance s.fails entries w t st)
  unfolding spawn_emitter_workers spawn_next Spawned build_emitter_for_entry after_build
      start_worker roll_back
  spawn-Spawned [] w t st r = r
  spawn-Spawned (entry ∷ entries) w t st r =
      built (build_emitter b c (to_emitter_config entry) w) (spawn-Spawned entries)
    where
      built :
          (o : Result (BuiltEmitter Json Receiver World) FactoryError × World)
          → ((w : World) (t : Tasks) (st : Started Json World)
              → IsRunning st.worker_handles t
              → Spawned (spawn_emitter_workers b c chance s.fails entries w t st))
          → Spawned (
              spawn_next b c chance s.fails entry
                (spawn_emitter_workers b c chance s.fails entries)
                (after_build b c chance s.fails o t)
                st)
      built (ok (BuiltEmitter.ready emitter), w) ih = ih w (spawn_supervised t) _ (
          supervise-IsRunning entry.name _ t
            (subst (λ hs. IsRunning hs t) (sym (append_nil st.worker_handles)) r))
      built (ok (BuiltEmitter.channel emitter rx), w) ih =
          ih w (spawn_supervised (spawn_task t)) _ (
            supervise-IsRunning entry.name _ (spawn_task t)
              (push-IsRunning _ st.worker_handles t r))
      built (err e, w) ih = drain-IsDrained s.fails st.worker_handles t r

  after_spawn-Ended :
      (o : Result (Started Json World) FactoryError × World × Tasks)
      → Spawned o
      → Ended s (after_spawn s o).0 (after_spawn s o).1
  unfolding Spawned after_spawn Ended
  after_spawn-Ended (ok started, w, t) r = shut_down-Ended s started.worker_handles t r
  after_spawn-Ended (err e, w, t) d = d

-- The errors of the steps before the workers.
abbrev Early : {A : Type 0} → Result A ServeError → Type 0
Early (ok a) = Unit
Early (err (ServeError.retry e)) = Unit
Early (err (ServeError.connection e)) = Unit
Early (err (ServeError.migration e)) = Unit
Early (err (ServeError.pipeline e)) = Unit
Early (err (ServeError.fatal e)) = ⊥
Early (err (ServeError.emitter e)) = ⊥
Early (err (ServeError.tasks_panicked names)) = ⊥

map_err-Early :
    {A E : Type 0} (f : E → ServeError)
    → ((e : E) → Early {A = A} (err (f e)))
    → (r : Result A E) → Early (map_err f r)
map_err-Early f h (ok a) = tt
map_err-Early f h (err e) = h e

bind-Early :
    {A B : Type 0} (m : Result A ServeError) (f : A → Result B ServeError)
    → Early m
    → ((a : A) → Early (f a))
    → Early (m >>= f)
bind-Early (ok a) f h g = g a
bind-Early (err (ServeError.retry e)) f h g = tt
bind-Early (err (ServeError.connection e)) f h g = tt
bind-Early (err (ServeError.migration e)) f h g = tt
bind-Early (err (ServeError.pipeline e)) f h g = tt
bind-Early (err (ServeError.emitter e)) f h g = h
bind-Early (err (ServeError.fatal e)) f h g = h
bind-Early (err (ServeError.tasks_panicked names)) f h g = h

module _ {Json Headers Key Signature Producer Client Connection Sender Receiver World : Type 0}
    (p : Crypto Headers Key Signature) (raw_now : ℤ)
    (b : Brokers Json Producer Client Connection World) (c : Channels Json Sender Receiver World)
    (chance : Chance) (s : Surroundings) where
  prepare-Early :
      (config : HookboxConfig) (db : Database Json)
      → Early (prepare p raw_now b c chance s config db)
  unfolding prepare
  prepare-Early config db = bind-Early _ _ (map_err-Early ServeError.retry (λ e. tt) _) (λ _.
      bind-Early _ _ (map_err-Early ServeError.connection (λ e. tt) s.connected) (λ _.
        bind-Early _ _ (map_err-Early ServeError.migration (λ e. tt) s.migrated)
          (λ _. map_err-Early ServeError.pipeline (λ e. tt) _)))

  -- However the server ends, every task that it spawned was awaited, once and in turn, after the
  -- signal to stop was sent, but for the workers' own, and of each of those the supervisor was, which
  -- awaits it; an error before the workers start leaves no task at all. Without an
  -- error the server was served to its end and no task failed; with an error of tasks it was served
  -- to its end and one of them failed; a fatal error is that of `axum::serve`.
  pub serve_inner-Ended :
      (config : HookboxConfig) (db : Database Json) (w : World)
      → Ended s
          (serve_inner p raw_now b c chance s config db w).0
          (serve_inner p raw_now b c chance s config db w).1
  unfolding serve_inner after_prepare Ended
  serve_inner-Ended config db w =
      prepared (prepare p raw_now b c chance s config db) (prepare-Early config db)
    where
      prepared :
          (o : Result (ServerPipeline Json Headers × Layers Json) ServeError)
          → Early o
          → Ended s
              (after_prepare p raw_now b c chance s config w o).0
              (after_prepare p raw_now b c chance s config w o).1
      prepared (ok built) e =
          after_spawn-Ended b c chance s _ (
            spawn-Spawned b c chance s config.emitters w no_tasks nothing_started nothing-IsRunning)
      prepared (err (ServeError.retry e)) h = refl
      prepared (err (ServeError.connection e)) h = refl
      prepared (err (ServeError.migration e)) h = refl
      prepared (err (ServeError.pipeline e)) h = refl
      prepared (err (ServeError.emitter e)) h = elim h [ ]
      prepared (err (ServeError.fatal e)) h = elim h [ ]
      prepared (err (ServeError.tasks_panicked names)) h = elim h [ ]
