-- ===== src/Serve/Started.antt =====
-- crates/hookbox-server/src/serve.rs with crates/hookbox-server/src/routes/health.rs: a server that
-- has just started is ready.
use Prim.Native.Nat.{Ordering}
use Prim.Native.String.{compare}
use text.Mathlib.TextEquality.{path_by_compare}
use hookbox.Prelude.{
  append_step, map-snoc, append_nil, String, Bool, true, false, Option, none, some, List, [], ◌∷◌,
  ◌++◌, map, any, all, Result, ok, err, ◌≡◌, refl, sym, ap, ◌∙◌, subst, arith, str_eq_iff,
}
use hookbox.Pipeline.Traits.{Emitter}
use hookbox.Config.Emitters.{EmitterEntry, to_emitter_config}
use hookbox.Emitters.Brokers.{Brokers}
use hookbox.Emitters.Local.{Channels}
use hookbox.Bootstrap.Factory.{FactoryError, BuiltEmitter, build_emitter}
use hookbox.Worker.Dispatch.{Chance, EmitterHealth, EmitterWorker}
use hookbox.Routes.Health.{Ping, has_name, is_unhealthy, readyz, readyz-ok}
use hookbox.Serve.Tasks.{Handle, Tasks, no_tasks, spawn_task, spawn_supervised}
use hookbox.Serve.Workers.{
  fresh_health, insert_health, worker_of, Started, nothing_started, after_build,
  build_emitter_for_entry, start_worker, roll_back, spawn_next, spawn_emitter_workers,
}

abbrev some_unhealthy : List (String × EmitterHealth) → Bool
some_unhealthy = any (λ (e : String × EmitterHealth). is_unhealthy e.1.status)

module _ (name : String) (h : EmitterHealth) where
  has_name-insert_health :
      (m : List (String × EmitterHealth)) → has_name name (insert_health name h m) ≡ true
  unfolding insert_health
  has_name-insert_health [] = ground (arith, str_eq_iff name name)
  has_name-insert_health ((n, g) ∷ m) =
      placed (compare name n) (path_by_compare name n) (has_name-insert_health m)
    where
      placed :
          (o : Ordering)
          → (o ≡ Ordering.eq → name ≡ n)
          → has_name name (insert_health name h m) ≡ true
          → has_name name (elim o [
            | Ordering.lt ↦ (name, h) ∷ (n, g) ∷ m
            | Ordering.eq ↦ (n, h) ∷ m
            | Ordering.gt ↦ (n, g) ∷ insert_health name h m
          ])
            ≡ true
      placed Ordering.lt p ih = ground (arith, str_eq_iff name name)
      placed Ordering.eq p ih = ground (arith, str_eq_iff n name, p refl)
      placed Ordering.gt p ih = ground (arith, ih)

  insert_health-keeps :
      (k : String) (m : List (String × EmitterHealth))
      → has_name k m ≡ true
      → has_name k (insert_health name h m) ≡ true
  unfolding insert_health
  insert_health-keeps k [] e = absurd (ground arith)
  insert_health-keeps k ((n, g) ∷ m) e = placed (compare name n) (insert_health-keeps k m)
    where
      placed :
          (o : Ordering)
          → (has_name k m ≡ true → has_name k (insert_health name h m) ≡ true)
          → has_name k (elim o [
            | Ordering.lt ↦ (name, h) ∷ (n, g) ∷ m
            | Ordering.eq ↦ (n, h) ∷ m
            | Ordering.gt ↦ (n, g) ∷ insert_health name h m
          ])
            ≡ true
      placed Ordering.lt ih = ground (arith, e)
      placed Ordering.eq ih = ground (arith, e)
      placed Ordering.gt ih = ground (arith, e, ih)

  insert_health-healthy :
      (m : List (String × EmitterHealth))
      → is_unhealthy h.status ≡ false
      → some_unhealthy m ≡ false
      → some_unhealthy (insert_health name h m) ≡ false
  unfolding insert_health
  insert_health-healthy [] f e = ground arith
  insert_health-healthy ((n, g) ∷ m) f e = placed (compare name n) (insert_health-healthy m f)
    where
      placed :
          (o : Ordering)
          → (some_unhealthy m ≡ false → some_unhealthy (insert_health name h m) ≡ false)
          → some_unhealthy (elim o [
            | Ordering.lt ↦ (name, h) ∷ (n, g) ∷ m
            | Ordering.eq ↦ (n, h) ∷ m
            | Ordering.gt ↦ (n, g) ∷ insert_health name h m
          ])
            ≡ false
      placed Ordering.lt ih = ground (arith, e, f)
      placed Ordering.eq ih = ground (arith, e, f)
      placed Ordering.gt ih = ground (arith, e, f, ih)

abbrev pub names_of : List EmitterEntry → List String
names_of entries = map (λ (e : EmitterEntry). e.name) entries

module _ {Json Producer Client Connection Sender Receiver World : Type 0}
    (b : Brokers Json Producer Client Connection World) (c : Channels Json Sender Receiver World)
    (chance : Chance) (fails : Handle → Bool) where
  abbrev worker_names : Started Json World → List String
  worker_names s = map (λ (k : EmitterWorker Json World). k.name) s.workers

  -- What a later state has beside an earlier one.
  record Grew (s : Started Json World) (entries : List EmitterEntry) (s' : Started Json World)
      : Type 0 where
    workers : worker_names s' ≡ worker_names s ++ names_of entries
    healthy : some_unhealthy s'.emitter_health ≡ false
    keeps : (k : String) → has_name k s.emitter_health ≡ true → has_name k s'.emitter_health ≡ true
    there : all (λ k. has_name k s'.emitter_health) (names_of entries) ≡ true

  abbrev GrewTo :
      Started Json World
      → List EmitterEntry
      → Result (Started Json World) FactoryError × World × Tasks
      → Type 0
  GrewTo s entries (ok s', w, t) = Grew s entries s'
  GrewTo s entries (err e, w, t) = Unit

  grow :
      (entry : EmitterEntry) (entries : List EmitterEntry) (emitter : Emitter Json World)
      (drain : Option Handle) (t : Tasks) (s : Started Json World)
      (o : Result (Started Json World) FactoryError × World × Tasks)
      → GrewTo (start_worker b c chance fails entry emitter drain t s) entries o
      → GrewTo s (entry ∷ entries) o
  unfolding start_worker worker_of
  grow entry entries emitter drain t s (err e, w, t') g = tt
  grow entry entries emitter drain t s (ok s', w, t') g = record {
    workers =
        g.workers
        ∙ ap (λ names. names ++ names_of entries)
            (map-snoc (λ (k : EmitterWorker Json World). k.name) s.workers
              (worker_of b c chance fails entry emitter))
        ∙ append_step (worker_names s) entry.name (names_of entries);
    healthy = g.healthy;
    keeps = λ k h. g.keeps k (insert_health-keeps entry.name fresh_health k s.emitter_health h);
    there = ground (
      arith,
      g.there,
      g.keeps entry.name (has_name-insert_health entry.name fresh_health s.emitter_health),
    );
  }

  spawn-GrewTo :
      (entries : List EmitterEntry) (w : World) (t : Tasks) (s : Started Json World)
      → some_unhealthy s.emitter_health ≡ false
      → GrewTo s entries (spawn_emitter_workers b c chance fails entries w t s)
  unfolding spawn_emitter_workers spawn_next build_emitter_for_entry after_build start_worker
      roll_back fresh_health
  spawn-GrewTo [] w t s h = record {
    workers = sym (append_nil (worker_names s));
    healthy = h;
    keeps = λ k e. e;
    there = refl;
  }
  spawn-GrewTo (entry ∷ entries) w t s h =
      built (build_emitter b c (to_emitter_config entry) w) (spawn-GrewTo entries)
    where
      healthy : some_unhealthy (insert_health entry.name fresh_health s.emitter_health) ≡ false
      healthy = insert_health-healthy entry.name fresh_health s.emitter_health refl h

      built :
          (o : Result (BuiltEmitter Json Receiver World) FactoryError × World)
          → ((w : World) (t : Tasks) (s : Started Json World)
              → some_unhealthy s.emitter_health ≡ false
              → GrewTo s entries (spawn_emitter_workers b c chance fails entries w t s))
          → GrewTo s (entry ∷ entries) (
              spawn_next b c chance fails entry
                (spawn_emitter_workers b c chance fails entries)
                (after_build b c chance fails o t)
                s)
      built (ok (BuiltEmitter.ready emitter), w) ih =
          grow entry entries emitter none t s _ (ih w (spawn_supervised t) _ healthy)
      built (ok (BuiltEmitter.channel emitter rx), w) ih =
          grow entry entries emitter (some t.spawned) (spawn_task t) s _
            (ih w (spawn_supervised (spawn_task t)) _ healthy)
      built (err e, w) ih = tt

  -- When all workers have been spawned, there is one for each configured emitter, in turn, and the
  -- service is ready as soon as the database answers.
  pub spawn_emitter_workers-readyz :
      (entries : List EmitterEntry) (w w' : World) (t' : Tasks) (started : Started Json World)
      → spawn_emitter_workers b c chance fails entries w no_tasks nothing_started
        ≡ (ok started, w', t')
      → (map (λ (k : EmitterWorker Json World). k.name) started.workers ≡ names_of entries)
        × ((readyz (some Ping.answered) started.emitter_health (names_of entries)).0 ≡ 200)
  spawn_emitter_workers-readyz entries w w' t' started e =
      let g : Grew nothing_started entries started =
        subst (GrewTo nothing_started entries) e
          (spawn-GrewTo entries w no_tasks nothing_started refl) in
      (
        g.workers,
        (readyz-ok (some Ping.answered) started.emitter_health (names_of entries)).1
            (refl, g.there, g.healthy),
      )
