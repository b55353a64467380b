-- ===== src/LintTests/Verdicts.antt =====
-- What the linter's verdict means.
use flagsmith_common.Base.{
  ◌≡◌, refl, ◌∙◌, ◌↔◌, Bool, true, false, not, ◌&&◌, ◌||◌, String, List, [], ◌∷◌, ◌++◌, arith, any,
  All, length, ◌==◌, if◌then◌else◌,
}
use flagsmith_common.Base.Text.{starts_with, contains}
use flagsmith_common.LintTests.{Violation}
use flagsmith_common.LintTests.Checks.{
  normalize, Seen, see, see_all, find_missing_gwt, SourceFile, lint_file, lint_files, main,
}

-- Which comment stands for which keyword: "Given / When" stands for both, "When / Then" too.
abbrev pub gives_given : String → Bool
gives_given text = starts_with "given" (normalize text)

abbrev pub gives_when : String → Bool
gives_when text =
    (starts_with "given" (normalize text) && contains "when" (normalize text))
    || starts_with "when" (normalize text)

abbrev pub gives_then : String → Bool
gives_then text =
    (starts_with "when" (normalize text) && contains "then" (normalize text))
    || starts_with "then" (normalize text)

see_all-any :
    (texts : List String) (seen : Seen)
    → see_all texts seen ≡ record {
      has_given = seen.has_given || any gives_given texts;
      has_when = seen.has_when || any gives_when texts;
      has_then = seen.has_then || any gives_then texts;
    }
unfolding see_all see
see_all-any [] seen = ground arith
see_all-any (text ∷ texts) seen = see_all-any texts (see (normalize text) seen) ∙ ground arith

-- A keyword is missing exactly if no comment stands for it, whatever the order of the comments.
pub find_missing_gwt-any :
    (func_comments : List String)
    → find_missing_gwt func_comments
      ≡ (if any gives_given func_comments then [] else "Given" ∷ [])
        ++ (if any gives_when func_comments then [] else "When" ∷ [])
        ++ (if any gives_then func_comments then [] else "Then" ∷ [])
unfolding find_missing_gwt
find_missing_gwt-any func_comments =
    rw
      (see_all-any func_comments (record { has_given = false; has_when = false; has_then = false }))
      (ground arith)

lint_files-clean :
    (files : List SourceFile)
    → ((lint_files files).1 ≡ false) ↔ All (λ file. lint_file file ≡ []) files
unfolding lint_files
lint_files-clean [] = (λ h. tt, λ h. refl)
lint_files-clean (file ∷ files) =
    let rest = lint_files-clean files in
    let empty = no_violation (lint_file file) in
    (
      λ h.
          let (a, b) = parts (length (lint_file file) == 0) (lint_files files).1 h in
          (empty.0 a, rest.0 b),
      λ (a, b). rw (empty.1 a, rest.1 b) refl,
    )
  where
    no_violation : (vs : List Violation) → ((length vs == 0) ≡ true) ↔ (vs ≡ [])
    no_violation [] = (λ h. refl, λ h. refl)
    no_violation (v ∷ vs) = (λ h. ground arith, λ h. ground arith)

    parts : (a b : Bool) → (not a || b) ≡ false → (a ≡ true) × (b ≡ false)
    parts a b h = ground arith

-- The exit code is 0 exactly if no file has a violation.
pub main_iff :
    (files : List SourceFile) → (main files ≡ 0) ↔ All (λ file. lint_file file ≡ []) files
unfolding main
main_iff files =
    let clean = lint_files-clean files in (λ h. clean.0 (ground arith), λ h. rw (clean.1 h) refl)
