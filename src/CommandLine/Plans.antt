-- ===== src/CommandLine/Plans.antt =====
-- The plans of common/core/cli/run.py, and the proofs on how a process ends that follows one.
use flagsmith_common.Base.{
  ℕ, suc, ◌+◌, ◌≡◌, refl, sym, ap, subst, ◌∙◌, inl, inr, Bool, true, false, String, none, some,
  List, [], ◌∷◌, ◌++◌, map, length, arith, Bool-cases, if◌then◌else◌, append_nil,
}
use flagsmith_common.CommandLine.Django.{Command, Process, new_process, django, for_each}
use flagsmith_common.CommandLine.Run.{
  Settings, skips, waitfordb, wait_for_db, do_migrate, run_task_processor,
  wait_for_migrations_timeout_seconds,
}

abbrev pub migrate_command : String → Command
migrate_command database = "migrate" ∷ "--database" ∷ database ∷ []

module _ (text : ℕ → String) (settings : Settings) where
  abbrev pub unless_skipped : List Command → List Command
  unless_skipped commands = if skips settings then [] else commands

  -- What prepares the database.
  abbrev pub migration_plan : List Command
  migration_plan =
      unless_skipped (waitfordb text false "default" none ∷ [])
      ++ map migrate_command settings.flagsmith_migrate_databases
      ++ ("createcachetable" ∷ []) ∷ []

  abbrev pub task_processor_plan : List Command
  task_processor_plan =
      migration_plan
      ++ unless_skipped (
          map (λ database. waitfordb text true database (some wait_for_migrations_timeout_seconds))
            settings.flagsmith_wait_for_migrations_databases)

append_one {ℓ} :
    {A : Type ℓ} (xs : List A) (x : A) (ys : List A) → (xs ++ x ∷ []) ++ ys ≡ xs ++ x ∷ ys
append_one [] x ys = refl
append_one (z ∷ xs) x ys = ap (λ l. z ∷ l) (append_one xs x ys)

module _ (returns : ℕ → Command → Bool) where
  -- The commands return, the first of them as the n-th.
  abbrev pub AllReturn : ℕ → List Command → Type 0
  AllReturn n [] = Unit
  AllReturn n (command ∷ commands) = (returns n command ≡ true) × AllReturn (suc n) commands

  -- How a process ends that should issue one command behind a plan.
  pub data Outcome (plan : List Command) (last : Command) (p : Process) : Type 0 where
    -- all of the plan returned, and the last command was issued
    reached : AllReturn 0 plan → p.issued ≡ plan ++ last ∷ [] → Outcome plan last p
    -- one command of the plan raised, and nothing was issued behind it
    stopped :
        (done later : List Command) (command : Command)
        → plan ≡ done ++ command ∷ later
        → AllReturn 0 done
        → returns (length done) command ≡ false
        → p.issued ≡ done ++ command ∷ []
        → p.raised ≡ true
        → Outcome plan last p

  abbrev perform : List Command → Process → Process
  perform commands p = for_each returns (django returns) commands p

  perform-append :
      (xs ys : List Command) (p : Process) → perform (xs ++ ys) p ≡ perform ys (perform xs p)
  unfolding for_each
  perform-append [] ys p = refl
  perform-append (x ∷ xs) ys p = perform-append xs ys (django returns x p)

  perform-map {ℓ} :
      {A : Type ℓ} (f : A → Command) (xs : List A) (p : Process)
      → perform (map f xs) p ≡ for_each returns (λ x. django returns (f x)) xs p
  unfolding for_each
  perform-map f [] p = refl
  perform-map f (x ∷ xs) p = perform-map f xs (django returns (f x) p)

  -- A process goes on with a plan, or one of its commands raises.
  perform-raised :
      (commands : List Command) (p : Process) → p.raised ≡ true → perform commands p ≡ p
  unfolding for_each django
  perform-raised [] p h = refl
  perform-raised (x ∷ xs) p h = ap (perform xs) (rw (django, h) refl) ∙ perform-raised xs p h

  AllReturn-append :
      (n m : ℕ) (xs : List Command) (x : Command)
      → m ≡ n + length xs
      → AllReturn n xs
      → returns m x ≡ true
      → AllReturn n (xs ++ x ∷ [])
  AllReturn-append n m [] x k h e =
      let same : m ≡ n = omega arith in (subst (λ i. returns i x ≡ true) same e, tt)
  AllReturn-append n m (y ∷ xs) x k h e = (h.0, AllReturn-append (suc n) m xs x (omega arith) h.1 e)

  Outcome-perform :
      (done commands : List Command) (last : Command) (p : Process)
      → p.issued ≡ done
      → p.raised ≡ false
      → AllReturn 0 done
      → Outcome (done ++ commands) last (django returns last (perform commands p))
  unfolding django for_each
  Outcome-perform done [] last p i r h =
      reached (subst (AllReturn 0) (sym (append_nil done)) h)
        (rw (append_nil done, django, r, i) refl)
  Outcome-perform done (x ∷ xs) last p i r h = elim (Bool-cases (returns (length done) x)) [
    | inl e ↦
        subst (λ plan. Outcome plan last (django returns last (perform (x ∷ xs) p)))
          (append_one done x xs)
          (Outcome-perform (done ++ x ∷ []) xs last (django returns x p) (rw (django, r, i) refl)
            (rw (django, r, i, e) refl) (AllReturn-append 0 (length done) done x (omega arith) h e))
    | inr e ↦
        let k : (django returns x p).raised ≡ true = rw (django, r, i, e) refl in
        let same : django returns last (perform (x ∷ xs) p) ≡ django returns x p =
          ap (django returns last) (perform-raised xs (django returns x p) k)
          ∙ rw (django, k) refl in
        stopped done xs x refl h e (ap (λ q. q.issued) same ∙ rw (django, r, i) refl)
          (ap (λ q. q.raised) same ∙ k)
  ]

  perform-last :
      {A : Type 0} (f : A → Command) (xs : List A) (last : Command) (p : Process)
      → django returns last (for_each returns (λ x. django returns (f x)) xs p)
        ≡ perform (map f xs ++ last ∷ []) p
  unfolding for_each
  perform-last f xs last p =
      sym (perform-append (map f xs) (last ∷ []) p ∙ ap (django returns last) (perform-map f xs p))

module _ (text : ℕ → String) (returns : ℕ → Command → Bool) (settings : Settings) where
  do_migrate-perform :
      (p : Process)
      → do_migrate text returns settings p ≡ perform returns (migration_plan text settings) p
  unfolding do_migrate for_each
  do_migrate-perform p = elim (Bool-cases (skips settings)) [
    | inl e ↦
        rw (do_migrate, e)
          (perform-last returns migrate_command settings.flagsmith_migrate_databases
            ("createcachetable" ∷ []) p)
    | inr e ↦
        rw (do_migrate, e)
          (perform-last returns migrate_command settings.flagsmith_migrate_databases
            ("createcachetable" ∷ []) (django returns (waitfordb text false "default" none) p))
  ]

  abbrev migrations_wait : String → Command
  migrations_wait database = waitfordb text true database (some wait_for_migrations_timeout_seconds)

  abbrev migrations_step : String → Process → Process
  migrations_step database =
      wait_for_db text returns settings true database (some wait_for_migrations_timeout_seconds)

  waits_skipped :
      skips settings ≡ true
      → (dbs : List String) (p : Process) → for_each returns migrations_step dbs p ≡ p
  unfolding for_each
  waits_skipped e [] p = refl
  waits_skipped e (db ∷ dbs) p =
      ap (for_each returns migrations_step dbs) (rw e refl) ∙ waits_skipped e dbs p

  waits_done :
      skips settings ≡ false
      → (dbs : List String) (p : Process)
      → for_each returns migrations_step dbs p ≡ perform returns (map migrations_wait dbs) p
  unfolding for_each
  waits_done e [] p = refl
  waits_done e (db ∷ dbs) p =
      ap (for_each returns migrations_step dbs) (rw e refl)
      ∙ waits_done e dbs (django returns (migrations_wait db) p)

  waits-perform :
      (dbs : List String) (p : Process)
      → for_each returns migrations_step dbs p
        ≡ perform returns (unless_skipped text settings (map migrations_wait dbs)) p
  unfolding for_each
  waits-perform dbs p = elim (Bool-cases (skips settings)) [
    | inl e ↦ rw e (waits_skipped e dbs p)
    | inr e ↦ rw e (waits_done e dbs p)
  ]

  -- The task processor is started, as the last command, if every command of the plan returned: the wait for
  -- the database, a migration of each database of FLAGSMITH_MIGRATE_DATABASES in their order, the cache
  -- table, and a wait for the migrations of each database of FLAGSMITH_WAIT_FOR_MIGRATIONS_DATABASES, with
  -- no wait if SKIP_WAIT_FOR_DB is set. If one raises, nothing is issued behind it.
  pub run_task_processor-Outcome :
      (argv : List String)
      → Outcome returns
          (task_processor_plan text settings)
          ("start" ∷ "task-processor" ∷ argv)
          (run_task_processor text returns settings argv new_process)
  unfolding run_task_processor
  run_task_processor-Outcome argv =
      let plan = task_processor_plan text settings in
      let dbs = settings.flagsmith_wait_for_migrations_databases in
      let waits = unless_skipped text settings (map migrations_wait dbs) in
      let start : Command = "start" ∷ "task-processor" ∷ argv in
      let same : django returns start (perform returns plan new_process)
          ≡ run_task_processor text returns settings argv new_process =
        ap (django returns start) (
          perform-append returns (migration_plan text settings) waits new_process
          ∙ ap (perform returns waits) (sym (do_migrate-perform new_process))
          ∙ sym (waits-perform dbs (do_migrate text returns settings new_process))) in
      subst (Outcome returns plan start) same
        (Outcome-perform returns [] plan start new_process refl refl tt)
