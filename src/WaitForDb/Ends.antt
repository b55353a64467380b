-- ===== src/WaitForDb/Ends.antt =====
-- Waiting for the database comes to an end.
use flagsmith_common.Base.{
  ℕ, zero, suc, ◌+◌, ◌*◌, ◌≤◌, ◌<◌, ◌≡◌, refl, Bool, some, arith, ltb, lt→ltb, Bool-cases, inl, inr,
  if◌then◌else◌,
}
use flagsmith_common.WaitForDb.{wait_between_checks, Waited, ready, command_error, wait, handle}

wait_total :
    (wait_for : ℕ) (elapsed : ℕ → ℕ) (test : ℕ → Bool)
    → ((k : ℕ) → k * wait_between_checks ≤ elapsed k + wait_between_checks)
    → (fuel reading : ℕ) → wait_for + wait_between_checks < (reading + fuel) * wait_between_checks
    → (result : Waited) × (wait wait_for elapsed test (suc fuel) reading ≡ some result)
unfolding wait
wait_total wait_for elapsed test paced zero reading enough =
    let late = lt→ltb wait_for (elapsed reading) (omega (arith, paced reading, enough)) in
    (command_error, rw late refl)
wait_total wait_for elapsed test paced (suc fuel) reading enough =
    elim (Bool-cases (ltb wait_for (elapsed reading))) [
      | inl late ↦ (command_error, rw late refl)
      | inr early ↦ elim (Bool-cases (test reading)) [
        | inl e ↦ (ready (reading + 1), rw (early, e) refl)
        | inr e ↦
            let (result, ended) =
              wait_total wait_for elapsed test paced fuel (reading + 1) (omega (arith, enough)) in
            (result, rw (early, e) ended)
      ]
    ]

-- As each round but the last of a loop sleeps for the time between two checks, `handle` comes to its
-- end after as many rounds as fit into the time to wait for, and two more.
pub handle_total :
    (wait_for : ℕ) (elapsed : ℕ → ℕ) (connects is_migrated : ℕ → Bool)
    (should_wait_for_migrations : Bool) (rounds : ℕ)
    → ((k : ℕ) → k * wait_between_checks ≤ elapsed k + wait_between_checks)
    → wait_for < rounds * wait_between_checks
    → (result : Waited) × (handle wait_for elapsed connects is_migrated should_wait_for_migrations
          (suc (suc rounds))
        ≡ some result)
unfolding handle
handle_total wait_for elapsed connects is_migrated should_wait rounds paced enough =
    let (first, ended) =
      wait_total wait_for elapsed connects paced (suc rounds) 0 (omega (arith, enough)) in
    rw (handle, ended) (after first)
  where
    after :
        (first : Waited)
        → (result : Waited) × ((elim first [
          | command_error ↦ some command_error
          | ready reading ↦
              let migrated = wait wait_for elapsed is_migrated (suc (suc rounds)) reading in
              if should_wait then migrated else some (ready reading)
        ])
            ≡ some result)
    after command_error = (command_error, refl)
    after (ready reading) = elim (Bool-cases should_wait) [
      | inr e ↦ (ready reading, rw e refl)
      | inl e ↦
          let (result, ended) =
            wait_total wait_for elapsed is_migrated paced (suc rounds) reading
              (omega (arith, enough)) in
          (result, rw e ended)
    ]
