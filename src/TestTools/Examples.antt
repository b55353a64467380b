-- ===== src/TestTools/Examples.antt =====
-- The theorems on the fixtures, at a snapshot and at two tests.
use flagsmith_common.Base.{◌≡◌, refl, inl, true, false, String, none, List, [], ◌∷◌, map, str_eq}
use flagsmith_common.Base.Text.{concat, contains, starts_with}
use flagsmith_common.Base.Dict.{find}
use flagsmith_common.TestTools.Snapshots.{Disk, Request, text, answer, xfail, compare_snapshot}
use flagsmith_common.TestTools.Updates.{compare_snapshot-compare_snapshot}
use flagsmith_common.TestTools.Editions.{Process, Test, ask_enterprise, print_edition, run_tests}
use flagsmith_common.TestTools.Isolation.{expected_answers, run_tests-expected}

abbrev join : String → String → String
join directory name = concat directory (concat "/" name)

-- The directory of the snapshots.
abbrev parent : String → String
parent path = "tests/snapshots"

abbrev request : Request
request = record { node_name = "test_api"; test_directory = "tests"; snapshot_update = true }

abbrev disk : Disk
disk = record { directories = "tests" ∷ []; files = ("tests/snapshots/test_api.txt", "old") ∷ [] }

compare_snapshot-compare_snapshot_example :
    let updated = compare_snapshot join parent request "" (text "new") disk in
    (updated.0 ≡ xfail "Snapshot updated: tests/snapshots/test_api.txt")
    × ((compare_snapshot join parent
          (record request { snapshot_update = false })
          ""
          (text "new")
          updated.1).0
        ≡ answer true)
    × ((other : String)
        → str_eq "tests/snapshots/test_api.txt" other ≡ false
        → find other updated.1.files ≡ find other disk.files)
unfolding concat contains starts_with
compare_snapshot-compare_snapshot_example =
    compare_snapshot-compare_snapshot join parent "" "new" request disk refl refl

-- A test of the enterprise edition, and then one of the open source.
abbrev tests : List Test
tests =
    record { markers = "enterprise_mode" ∷ []; calls = print_edition ∷ [] }
    ∷ record { markers = []; calls = ask_enterprise ∷ print_edition ∷ [] }
    ∷ []

abbrev process : Process
process = record {
  files = [];
  fake_files = none;
  is_saas_cache = none;
  is_enterprise_cache = none;
  has_saas_mode = false;
  has_enterprise_mode = false;
}

run_tests-expected_example : run_tests tests process ≡ map expected_answers tests
run_tests-expected_example = run_tests-expected tests process (inl refl) (inl refl) refl refl
