-- ===== src/TestTools/Editions.antt =====
-- The fixtures of common/test_tools/plugin.py for the edition of the deployment, edition_printer of utils.py,
-- and the caches of is_saas and is_enterprise of common/core/utils.py.
use flagsmith_common.Base.{
  Bool, true, false, String, Option, none, some, List, [], ◌∷◌, if◌then◌else◌, str_eq,
}
use flagsmith_common.Base.Sets.{member, add}

-- What an lru_cache of a function without parameters holds.
abbrev pub Cache : Type 0
Cache = Option Bool

-- The process that runs the tests: the files of the disk, those of the fake one while a test has it, the
-- caches, and the fixtures that were set up for the test.
pub record Process : Type 0 where
  pub files : List String
  pub fake_files : Option (List String)
  pub is_saas_cache : Cache
  pub is_enterprise_cache : Cache
  pub has_saas_mode : Bool
  pub has_enterprise_mode : Bool

abbrev pub saas_deployment : String
saas_deployment = "./SAAS_DEPLOYMENT"

abbrev pub enterprise_version : String
enterprise_version = "./ENTERPRISE_VERSION"

-- pathlib.Path(path).exists()
abbrev pub exists : String → Process → Bool
exists path p = elim p.fake_files [
  | none ↦ member str_eq path p.files
  | some fake ↦ member str_eq path fake
]

unfoldable pub is_saas : Process → Bool × Process
is_saas p = elim p.is_saas_cache [
  | some known ↦ (known, p)
  | none ↦ (exists saas_deployment p, record p { is_saas_cache = some (exists saas_deployment p) })
]

unfoldable pub is_enterprise : Process → Bool × Process
is_enterprise p = elim p.is_enterprise_cache [
  | some known ↦ (known, p)
  | none ↦ (
    exists enterprise_version p,
    record p { is_enterprise_cache = some (exists enterprise_version p) },
  )
]

unfoldable pub edition_printer : Process → String × Process
unfolding is_saas is_enterprise
edition_printer p =
    let (saas, p') = is_saas p in
    let (enterprise, p'') = is_enterprise p' in
    if saas then ("saas!", p') else if enterprise then ("enterprise!", p'') else ("oss!", p'')

-- fs.create_file(path), where the fixture fs has replaced the disk by an empty one.
abbrev pub create_file : String → Process → Process
create_file path p = record p {
  fake_files = elim p.fake_files [
    | none ↦ some (path ∷ [])
    | some fake ↦ some (add str_eq path fake)
  ];
}

-- saas_mode and enterprise_mode up to their yield, and behind it.
abbrev pub saas_mode : Process → Process
saas_mode p = create_file saas_deployment (record p { is_saas_cache = none; has_saas_mode = true })

abbrev pub enterprise_mode : Process → Process
enterprise_mode p =
    create_file enterprise_version
      (record p { is_enterprise_cache = none; has_enterprise_mode = true })

abbrev pub leave_saas_mode : Process → Process
leave_saas_mode p = if p.has_saas_mode then record p { is_saas_cache = none } else p

abbrev pub leave_enterprise_mode : Process → Process
leave_enterprise_mode p =
    if p.has_enterprise_mode then record p { is_enterprise_cache = none } else p

-- request.getfixturevalue: a fixture is set up once for a test.
unfoldable pub get_saas_mode : Process → Process
get_saas_mode p = if p.has_saas_mode then p else saas_mode p

unfoldable pub get_enterprise_mode : Process → Process
get_enterprise_mode p = if p.has_enterprise_mode then p else enterprise_mode p

-- One round of flagsmith_markers_marked, and its loop.
unfoldable pub mark : String → Process → Process
unfolding get_saas_mode get_enterprise_mode
mark marker p =
    let p' = if str_eq marker "saas_mode" then get_saas_mode p else p in
    if str_eq marker "enterprise_mode" then get_enterprise_mode p' else p'

unfoldable pub flagsmith_markers_marked : List String → Process → Process
unfolding mark
flagsmith_markers_marked [] p = p
flagsmith_markers_marked (marker ∷ markers) p = flagsmith_markers_marked markers (mark marker p)

-- The calls that a test makes.
pub data Call : Type 0 where
  ask_saas ask_enterprise print_edition : Call

pub data Answer : Type 0 where
  truth : Bool → Answer
  printed : String → Answer

unfoldable pub call : Call → Process → Answer × Process
unfolding is_saas is_enterprise edition_printer
call ask_saas p = let (b, p') = is_saas p in (truth b, p')
call ask_enterprise p = let (b, p') = is_enterprise p in (truth b, p')
call print_edition p = let (s, p') = edition_printer p in (printed s, p')

unfoldable pub call_each : List Call → Process → List Answer × Process
unfolding call
call_each [] p = ([], p)
call_each (c ∷ calls) p =
    let (a, p') = call c p in let (answers, p'') = call_each calls p' in (a ∷ answers, p'')

pub record Test : Type 0 where
  pub markers : List String
  pub calls : List Call

-- A test: its fixtures are set up for its markers, it makes its calls, and its fixtures are torn down, of
-- which fs puts the disk back.
unfoldable pub run_test : Test → Process → List Answer × Process
unfolding flagsmith_markers_marked call_each
run_test test p =
    let fresh = record p {
      has_saas_mode = false;
      has_enterprise_mode = false;
      fake_files = none;
    } in
    let (answers, p') = call_each test.calls (flagsmith_markers_marked test.markers fresh) in
    let p'' = leave_enterprise_mode (leave_saas_mode p') in
    (answers, record p'' { fake_files = none })

unfoldable pub run_tests : List Test → Process → List (List Answer)
unfolding run_test
run_tests [] p = []
run_tests (test ∷ tests) p = let (answers, p') = run_test test p in answers ∷ run_tests tests p'
