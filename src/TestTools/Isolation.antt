-- ===== src/TestTools/Isolation.antt =====
-- The proofs on tests that share the caches of is_saas and is_enterprise.
use flagsmith_common.Base.{
  ◌≡◌, refl, ◌⊎◌, inl, Bool, true, false, none, some, List, [], ◌∷◌, map, str_eq,
}
use flagsmith_common.Base.Sets.{member}
use flagsmith_common.TestTools.Editions.{
  Process, saas_deployment, enterprise_version, flagsmith_markers_marked, leave_saas_mode,
  leave_enterprise_mode, Answer, call_each, Test, run_test, run_tests,
}
use flagsmith_common.TestTools.Calls.{Holds, IsReady, expected, call_each-IsReady}
use flagsmith_common.TestTools.Markers.{flagsmith_markers_marked-IsReady}

-- Between two tests of a deployment with neither file.
record IsAtRest (p : Process) : Type 0 where
  saas_cached : Holds false p.is_saas_cache
  enterprise_cached : Holds false p.is_enterprise_cache
  real_saas : member str_eq saas_deployment p.files ≡ false
  real_enterprise : member str_eq enterprise_version p.files ≡ false

-- What a test expects, by its markers.
abbrev pub expected_answers : Test → List Answer
expected_answers test =
    map
      (expected (member str_eq "saas_mode" test.markers)
        (member str_eq "enterprise_mode" test.markers))
      test.calls

leave-IsAtRest :
    (s e : Bool) (p : Process)
    → IsReady s e p
    → IsAtRest (record (leave_enterprise_mode (leave_saas_mode p)) { fake_files = none })
leave-IsAtRest true true p h =
    simp (h.saas_set_up, h.enterprise_set_up)
      (record {
        saas_cached = inl refl;
        enterprise_cached = inl refl;
        real_saas = h.real_saas;
        real_enterprise = h.real_enterprise;
      })
leave-IsAtRest true false p h =
    simp (h.saas_set_up, h.enterprise_set_up)
      (record {
        saas_cached = inl refl;
        enterprise_cached = h.enterprise_cached;
        real_saas = h.real_saas;
        real_enterprise = h.real_enterprise;
      })
leave-IsAtRest false true p h =
    simp (h.saas_set_up, h.enterprise_set_up)
      (record {
        saas_cached = h.saas_cached;
        enterprise_cached = inl refl;
        real_saas = h.real_saas;
        real_enterprise = h.real_enterprise;
      })
leave-IsAtRest false false p h =
    simp (h.saas_set_up, h.enterprise_set_up)
      (record {
        saas_cached = h.saas_cached;
        enterprise_cached = h.enterprise_cached;
        real_saas = h.real_saas;
        real_enterprise = h.real_enterprise;
      })

run_test-IsAtRest :
    (test : Test) (p : Process)
    → IsAtRest p
    → ((run_test test p).0 ≡ expected_answers test) × IsAtRest (run_test test p).1
unfolding run_test
run_test-IsAtRest test p h =
    let fresh = record p {
      has_saas_mode = false;
      has_enterprise_mode = false;
      fake_files = none;
    } in
    let ready : IsReady false false fresh = record {
      saas_file = h.real_saas;
      enterprise_file = h.real_enterprise;
      saas_cached = h.saas_cached;
      enterprise_cached = h.enterprise_cached;
      saas_set_up = refl;
      enterprise_set_up = refl;
      real_saas = h.real_saas;
      real_enterprise = h.real_enterprise;
    } in
    let marked = flagsmith_markers_marked-IsReady test.markers false false fresh ready in
    let (answers, k) =
      call_each-IsReady _ _ test.calls (flagsmith_markers_marked test.markers fresh) marked in
    (
      answers,
      leave-IsAtRest _ _ (call_each test.calls (flagsmith_markers_marked test.markers fresh)).1 k,
    )

-- In a deployment with neither file, whatever tests run one after the other, with whatever markers and calls,
-- each is_saas answers whether its test is marked by saas_mode, each is_enterprise whether it is marked by
-- enterprise_mode, and edition_printer prints the edition of these two, so that no cache carries an answer
-- from one test to another; if the caches are empty or hold False at the start.
pub run_tests-expected :
    (tests : List Test) (p : Process)
    → (p.is_saas_cache ≡ none) ⊎ (p.is_saas_cache ≡ some false)
    → (p.is_enterprise_cache ≡ none) ⊎ (p.is_enterprise_cache ≡ some false)
    → member str_eq saas_deployment p.files ≡ false
    → member str_eq enterprise_version p.files ≡ false
    → run_tests tests p ≡ map expected_answers tests
unfolding run_tests
run_tests-expected tests p s e no_saas no_enterprise = go tests p (record {
  saas_cached = s;
  enterprise_cached = e;
  real_saas = no_saas;
  real_enterprise = no_enterprise;
})
  where
    go :
        (tests : List Test) (p : Process)
        → IsAtRest p
        → run_tests tests p ≡ map expected_answers tests
    go [] p h = refl
    go (test ∷ tests) p h =
        let (answers, k) = run_test-IsAtRest test p h in
        let rest = go tests (run_test test p).1 k in rw (answers, rest) refl
