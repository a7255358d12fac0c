-- ===== src/Serve/Waits.antt =====
-- What `drain_worker_handles` of crates/hookbox-server/src/serve.rs waits for.
use mathlib.Core.List.{Memᴰ}
use hookbox.Prelude.{
  ◌⊎◌, inl, inr, ◌<◌, ◌≤◌, subst, ltb, Bool-cases, append_step, map-snoc, append_nil, ℕ, ◌+◌,
  String, Bool, true, false, List, [], ◌∷◌, ◌++◌, map, any, All, ◌≡◌, refl, sym, ap, ◌∙◌, arith,
}
use hookbox.Serve.Tasks.{
  Handle, Wait, Tasks, no_tasks, spawn_task, spawn_supervised, await_task, await_all,
}

abbrev pub awaited : Tasks → List Handle
awaited t = map (λ (w : Wait). w.task) t.waits

abbrev pub ids : List (String × Handle) → List Handle
ids handles = map (λ (h : String × Handle). h.1) handles

-- In the order of spawning, and so each once.
pub Rising : List Handle → Type 0
Rising [] = Unit
Rising (x ∷ l) = All (λ y. x < y) l × Rising l

-- The task is one of these, or the own task of a worker whose supervisor is one of these.
abbrev pub Covered : List Handle → List (Handle × Handle) → Handle → Type 0
Covered l supervised id =
    Memᴰ id l ⊎ ((supervisor : Handle) × Memᴰ (supervisor, id) supervised × Memᴰ supervisor l)

-- Tasks were awaited once and in turn, and after the signal; these are all that were spawned, but
-- for the workers' own, and of each of those the supervisor was awaited, which awaits it.
pub record IsDrained (t : Tasks) : Type 0 where
  pub in_turn : Rising (awaited t)
  pub all_awaited : (id : Handle) → id < t.spawned → Covered (awaited t) t.supervised id
  pub told_to_stop : All (λ (w : Wait). w.after_signal ≡ true) t.waits

-- The handles of all tasks but the workers' own, none of them awaited.
pub record IsRunning (handles : List (String × Handle)) (t : Tasks) : Type 0 where
  pub in_turn : Rising (ids handles)
  pub spawned_before : All (λ x. x < t.spawned) (ids handles)
  pub all_there : (id : Handle) → id < t.spawned → Covered (ids handles) t.supervised id
  pub not_awaited : t.waits ≡ []

pub waits_of : Bool → List (String × Handle) → List Wait
waits_of b [] = []
waits_of b ((name, id) ∷ handles) = record { task = id; after_signal = b } ∷ waits_of b handles

pub waits_of-tasks :
    (b : Bool) (handles : List (String × Handle))
    → map (λ (w : Wait). w.task) (waits_of b handles) ≡ map (λ (h : String × Handle). h.1) handles
unfolding waits_of
waits_of-tasks b [] = refl
waits_of-tasks b ((name, id) ∷ handles) = ap (◌∷◌ id) (waits_of-tasks b handles)

pub waits_of-signalled :
    (handles : List (String × Handle))
    → All (λ (w : Wait). w.after_signal ≡ true) (waits_of true handles)
unfolding waits_of
waits_of-signalled [] = tt
waits_of-signalled ((name, id) ∷ handles) = (refl, waits_of-signalled handles)

module _ (fails : Handle → Bool) where
  pub await_all-waits :
      (handles : List (String × Handle)) (t : Tasks)
      → (await_all fails handles t).1 ≡ record t { waits = t.waits ++ waits_of t.signalled handles }
  unfolding await_all waits_of
  await_all-waits [] t = ap (λ ws. record t { waits = ws }) (sym (append_nil t.waits))
  await_all-waits ((name, id) ∷ handles) t =
      await_all-waits handles (await_task id t)
      ∙ ap (λ ws. record t { waits = ws })
          (append_step t.waits (record { task = id; after_signal = t.signalled })
            (waits_of t.signalled handles))

  pub no_failure :
      (handles : List (String × Handle)) (t : Tasks)
      → (await_all fails handles t).0 ≡ []
      → All (λ (w : Wait). fails w.task ≡ false) (waits_of true handles)
  unfolding await_all waits_of
  no_failure [] t e = tt
  no_failure ((name, id) ∷ handles) t e = ground (arith, no_failure handles (await_task id t))

  pub a_failure :
      (handles : List (String × Handle)) (t : Tasks) (name : String) (names : List String)
      → (await_all fails handles t).0 ≡ name ∷ names
      → any (λ (w : Wait). fails w.task) (waits_of true handles) ≡ true
  unfolding await_all waits_of
  a_failure [] t name names e = absurd (ground arith)
  a_failure ((n, id) ∷ handles) t name names e =
      ground (arith, a_failure handles (await_task id t) name names)

Rising-snoc : (l : List Handle) (m : Handle) → Rising l → All (λ x. x < m) l → Rising (l ++ m ∷ [])
unfolding Rising
Rising-snoc [] m r b = (tt, tt)
Rising-snoc (x ∷ l) m r b = (All-snoc (λ y. x < y) l m r.0 b.0, Rising-snoc l m r.1 b.1)
  where
    All-snoc :
        (P : Handle → Type 0) (l : List Handle) (m : Handle) → All P l → P m → All P (l ++ m ∷ [])
    All-snoc P [] m a h = (h, tt)
    All-snoc P (y ∷ l) m a h = (a.0, All-snoc P l m a.1 h)

below-snoc :
    (l : List Handle) (m n : Handle) → All (λ x. x < m) l → m < n → All (λ x. x < n) (l ++ m ∷ [])
below-snoc [] m n b h = (h, tt)
below-snoc (x ∷ l) m n b h = (omega (arith, h, b.0), below-snoc l m n b.1 h)

widened : (l : List Handle) (m n : Handle) → All (λ x. x < m) l → m ≤ n → All (λ x. x < n) l
widened [] m n b h = tt
widened (x ∷ l) m n b h = (omega (arith, h, b.0), widened l m n b.1 h)

mem_snoc : {x : Handle} (l : List Handle) (m : Handle) → Memᴰ x l → Memᴰ x (l ++ m ∷ [])
mem_snoc (y ∷ l) m (Memᴰ.head e) = Memᴰ.head e
mem_snoc (y ∷ l) m (Memᴰ.tail t) = Memᴰ.tail (mem_snoc l m t)
mem_snoc [] m h = elim h [ ]

last_mem : (l : List Handle) (m : Handle) → Memᴰ m (l ++ m ∷ [])
last_mem [] m = Memᴰ.head refl
last_mem (x ∷ l) m = Memᴰ.tail (last_mem l m)

Covered-snoc :
    (l : List Handle) (supervised : List (Handle × Handle)) (m id : Handle)
    → Covered l supervised id
    → Covered (l ++ m ∷ []) supervised id
Covered-snoc l supervised m id (inl h) = inl (mem_snoc l m h)
Covered-snoc l supervised m id (inr (s, there, h)) = inr (s, there, mem_snoc l m h)

Covered-more :
    (l : List Handle) (supervised : List (Handle × Handle)) (p : Handle × Handle) (id : Handle)
    → Covered l supervised id
    → Covered l (p ∷ supervised) id
Covered-more l supervised p id (inl h) = inl h
Covered-more l supervised p id (inr (s, there, h)) = inr (s, Memᴰ.tail there, h)

-- Below the successor of a number are that number and those below it.
split_lt : (id n : ℕ) → id < n + 1 → (id < n) ⊎ (id ≡ n)
split_lt id n h = elim (Bool-cases (ltb id n)) [
  | inl b ↦ inl (ground arith)
  | inr b ↦ inr (ground arith)
]

-- A task was spawned, and its handle pushed.
pub push-IsRunning :
    (name : String) (handles : List (String × Handle)) (t : Tasks)
    → IsRunning handles t
    → IsRunning (handles ++ (name, t.spawned) ∷ []) (spawn_task t)
push-IsRunning name handles t r =
    let more = map-snoc (λ (h : String × Handle). h.1) handles (name, t.spawned) in
    record {
      in_turn =
          subst Rising (sym more) (Rising-snoc (ids handles) t.spawned r.in_turn r.spawned_before);
      spawned_before =
          subst (All (λ x. x < t.spawned + 1)) (sym more)
            (below-snoc (ids handles) t.spawned (t.spawned + 1) r.spawned_before (omega arith));
      all_there = λ id h.
          subst (λ l. Covered l t.supervised id) (sym more)
            (elim (split_lt id t.spawned h) [
              | inl old ↦ Covered-snoc (ids handles) t.supervised t.spawned id (r.all_there id old)
              | inr e ↦ inl (
                  subst (λ x. Memᴰ x (ids handles ++ t.spawned ∷ [])) (sym e)
                    (last_mem (ids handles) t.spawned))
            ]);
      not_awaited = r.not_awaited;
    }

-- A worker and its supervisor were spawned, and the supervisor's handle pushed.
pub supervise-IsRunning :
    (name : String) (handles : List (String × Handle)) (t : Tasks)
    → IsRunning handles t
    → IsRunning (handles ++ (name, t.spawned + 1) ∷ []) (spawn_supervised t)
supervise-IsRunning name handles t r =
    let more = map-snoc (λ (h : String × Handle). h.1) handles (name, t.spawned + 1) in
    let pairs = (t.spawned + 1, t.spawned) ∷ t.supervised in
    record {
      in_turn = subst Rising (sym more) (
          Rising-snoc (ids handles) (t.spawned + 1) r.in_turn
            (widened (ids handles) t.spawned (t.spawned + 1) r.spawned_before (omega arith)));
      spawned_before = subst (All (λ x. x < t.spawned + 2)) (sym more) (
          below-snoc (ids handles) (t.spawned + 1) (t.spawned + 2)
            (widened (ids handles) t.spawned (t.spawned + 1) r.spawned_before (omega arith))
            (omega arith));
      all_there = λ id h.
          subst (λ l. Covered l pairs id) (sym more)
            (elim (split_lt id (t.spawned + 1) (omega (arith, h))) [
              | inl before ↦ elim (split_lt id t.spawned before) [
                | inl old ↦
                    Covered-more (ids handles ++ (t.spawned + 1) ∷ []) t.supervised
                      (t.spawned + 1, t.spawned) id
                      (Covered-snoc (ids handles) t.supervised (t.spawned + 1) id
                        (r.all_there id old))
                | inr e ↦ inr (
                  t.spawned + 1,
                  Memᴰ.head (ap (λ x. (t.spawned + 1, x)) e),
                  last_mem (ids handles) (t.spawned + 1),
                )
              ]
              | inr e ↦ inl (
                  subst (λ x. Memᴰ x (ids handles ++ (t.spawned + 1) ∷ [])) (sym e)
                    (last_mem (ids handles) (t.spawned + 1)))
            ]);
      not_awaited = r.not_awaited;
    }

pub nothing-IsRunning : IsRunning [] no_tasks
unfolding Rising
nothing-IsRunning = record {
  in_turn = tt;
  spawned_before = tt;
  all_there = λ id h. absurd (omega (arith, h));
  not_awaited = refl;
}
