-- ===== src/WaitForDb/Examples.antt =====
-- The theorem on waiting, at a database that never comes up.
use flagsmith_common.Base.{◌*◌, ◌≡◌, true, false, some, arith}
use flagsmith_common.WaitForDb.{Waited, wait_between_checks, handle}
use flagsmith_common.WaitForDb.Ends.{handle_total}

handle_total_example :
    (result : Waited) × (handle 5_000_000
        (λ k. k * wait_between_checks)
        (λ _. false)
        (λ _. false)
        true
        23
      ≡ some result)
handle_total_example =
    handle_total 5_000_000 (λ k. k * wait_between_checks) (λ _. false) (λ _. false) true 21
      (λ k. omega arith) (omega arith)
