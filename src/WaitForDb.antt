-- ===== src/WaitForDb.antt =====
-- common/core/management/commands/waitfordb.py: the two loops of `handle`. Times are microseconds;
-- `elapsed k` is what the clock shows at its reading k, less the start. A loop runs on fuel.
pub mod Ends
pub mod Examples
use flagsmith_common.Base.{
  ℕ, zero, suc, ◌+◌, ◌*◌, Bool, true, false, Option, none, some, ltb, if◌then◌else◌,
}

abbrev pub wait_between_checks : ℕ
wait_between_checks = 250_000

-- `ready`: the loop is left before the clock's reading with this number.
pub data Waited : Type 0 where
  ready : (reading : ℕ) → Waited
  command_error : Waited

-- One of the loops, from a reading of the clock on; `test k` tells whether the check behind the
-- reading k succeeds.
unfoldable pub wait : (wait_for : ℕ) (elapsed : ℕ → ℕ) (test : ℕ → Bool) → ℕ → ℕ → Option Waited
wait wait_for elapsed test zero reading = none
wait wait_for elapsed test (suc fuel) reading =
    let rest = wait wait_for elapsed test fuel (reading + 1) in
    if ltb wait_for (elapsed reading)
    then some command_error
    else if test reading
    then some (ready (reading + 1))
    else rest

unfoldable pub handle :
    (wait_for : ℕ) (elapsed : ℕ → ℕ) (connects is_migrated : ℕ → Bool)
    (should_wait_for_migrations : Bool)
    → ℕ
    → Option Waited
unfolding wait
handle wait_for elapsed connects is_migrated should_wait_for_migrations fuel =
    elim (wait wait_for elapsed connects fuel 0) [
      | none ↦ none
      | some command_error ↦ some command_error
      | some (ready reading) ↦
          let migrated = wait wait_for elapsed is_migrated fuel reading in
          if should_wait_for_migrations then migrated else some (ready reading)
    ]
