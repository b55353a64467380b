-- ===== src/TaskProcessor/Recurring/Streaks.antt =====
-- Automatic disabling: mark_failure and mark_success over a sequence of results.
use flagsmith_common.Base.{
  ℕ, zero, suc, ◌+◌, ◌<◌, ◌≡◌, refl, ap, true, false, List, [], ◌∷◌, ◌++◌, arith, leb, Bool-cases,
  inl, inr, ◌↔◌, subst,
}
use flagsmith_common.TaskProcessor.Models.{
  RecurringTask, TaskResult, success, failure, fail_recurring, succeed_recurring,
}

-- What _run_task does to the task for each result, in their order.
unfoldable pub apply_results : List TaskResult → RecurringTask → RecurringTask
apply_results [] t = t
apply_results (success ∷ results) t = apply_results results (succeed_recurring t)
apply_results (failure ∷ results) t = apply_results results (fail_recurring t)

-- Four failures in a row somewhere among the results.
abbrev pub HasStreak : List TaskResult → Type 0
HasStreak results =
    (before : List TaskResult) × (after : List TaskResult) × (results
      ≡ before ++ failure ∷ failure ∷ failure ∷ failure ∷ after)

abbrev failures : ℕ → List TaskResult → List TaskResult
failures zero rest = rest
failures (suc n) rest = failure ∷ failures n rest

failures-suc :
    (n : ℕ) (rest : List TaskResult) → failures n (failure ∷ rest) ≡ failures (suc n) rest
failures-suc zero rest = refl
failures-suc (suc n) rest = ap (λ l. failure ∷ l) (failures-suc n rest)

HasStreak-failures :
    (n : ℕ) (rest : List TaskResult) → HasStreak rest → HasStreak (failures n (success ∷ rest))
HasStreak-failures zero rest (before, after, e) = (success ∷ before, after, ap (λ l. success ∷ l) e)
HasStreak-failures (suc n) rest h =
    let (before, after, e) = HasStreak-failures n rest h in
    (failure ∷ before, after, ap (λ l. failure ∷ l) e)

stays_disabled :
    (results : List TaskResult) (t : RecurringTask)
    → t.is_disabled ≡ true
    → (apply_results results t).is_disabled ≡ true
unfolding apply_results fail_recurring succeed_recurring
stays_disabled [] t h = h
stays_disabled (success ∷ results) t h = stays_disabled results (succeed_recurring t) h
stays_disabled (failure ∷ results) t h = stays_disabled results (fail_recurring t) (ground arith)

streak_disables :
    (before after : List TaskResult) (t : RecurringTask)
    → (apply_results (before ++ failure ∷ failure ∷ failure ∷ failure ∷ after) t).is_disabled ≡ true
unfolding apply_results
streak_disables (success ∷ before) after t = streak_disables before after (succeed_recurring t)
streak_disables (failure ∷ before) after t = streak_disables before after (fail_recurring t)
streak_disables [] after t =
    stays_disabled after (fail_recurring (fail_recurring (fail_recurring (fail_recurring t))))
      (unfold fail_recurring in ground arith)

disabled_by_streak :
    (results : List TaskResult) (t : RecurringTask)
    → t.is_disabled ≡ false
    → t.num_consecutive_failures < 4
    → (apply_results results t).is_disabled ≡ true
    → HasStreak (failures t.num_consecutive_failures results)
unfolding apply_results fail_recurring succeed_recurring
disabled_by_streak [] t enabled few h = cc
disabled_by_streak (success ∷ results) t enabled few h =
    HasStreak-failures t.num_consecutive_failures results
      (disabled_by_streak results (succeed_recurring t) enabled (omega arith) h)
disabled_by_streak (failure ∷ results) t enabled few h =
    elim (Bool-cases (leb 4 (t.num_consecutive_failures + 1))) [
      | inl fourth ↦
          let e : t.num_consecutive_failures ≡ 3 = ground arith in rw e ([], results, refl)
      | inr fewer ↦
          let e : t.num_consecutive_failures + 1 ≡ suc t.num_consecutive_failures = omega arith in
          rw failures-suc (
            subst (λ n. HasStreak (failures n results)) e
              (disabled_by_streak results (fail_recurring t) (ground arith) (ground arith) h))
    ]

-- A task that starts enabled and with no failure counted is disabled after a sequence of results
-- exactly if four failures stand in a row among them.
pub disabled_iff_streak :
    (results : List TaskResult) (t : RecurringTask)
    → t.is_disabled ≡ false
    → t.num_consecutive_failures ≡ 0
    → ((apply_results results t).is_disabled ≡ true) ↔ HasStreak results
disabled_iff_streak results t enabled none_yet = (
  λ h. rw (none_yet) at (disabled_by_streak results t enabled (omega arith) h),
  λ (before, after, e). rw e (streak_disables before after t),
)
