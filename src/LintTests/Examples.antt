-- ===== src/LintTests/Examples.antt =====
-- The theorems on the linter, at one function.
use flagsmith_common.Base.{refl, some, [], ◌∷◌, inl}
use flagsmith_common.LintTests.{Node, function_def}
use flagsmith_common.LintTests.Checks.{check_ft003}
use flagsmith_common.LintTests.Names.{HasThreeParts, check_ft003-HasThreeParts}

abbrev good : Node
good = function_def "test_flag__enabled__returned" [] 2 0 (some 4)

check_ft003-HasThreeParts_example : HasThreeParts "test_flag__enabled__returned"
unfolding check_ft003
check_ft003-HasThreeParts_example =
    check_ft003-HasThreeParts "unit/test_flags.py" (good ∷ []) "test_flag__enabled__returned" [] 2 0
      (some 4) refl (inl refl) refl refl
