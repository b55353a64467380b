-- ===== src/Docgen/Files.antt =====
-- The files of an application that are scanned, and the command that documents the events of all of them.
use flagsmith_common.Base.{
  ℕ, Bool, true, false, not, ◌&&◌, ◌||◌, String, Option, none, some, List, [], ◌∷◌, ◌++◌, any, map,
  str_eq, if◌then◌else◌,
}
use flagsmith_common.Base.Text.{concat, join, starts_with, codes}
use flagsmith_common.Base.Order.{order_by}
use flagsmith_common.Base.Sets.{member}
use flagsmith_common.Docgen.Syntax.{Nodes}
use flagsmith_common.Docgen.Visitor.{FilePath, SourceLocation, EventEntry, Warning}
use flagsmith_common.Docgen.Walk.{get_event_entries_from_source}
use flagsmith_common.Docgen.Merge.{merge_event_entries}

-- A file `*.py` below a root: the folders on the way, the name without `.py`, and what `ast.parse` makes
-- of its text. none: a SyntaxError.
pub record SourceFile : Type 0 where
  pub parents : List String
  pub stem : String
  pub tree : Option Nodes

abbrev pub excluded_dir_names : List String
excluded_dir_names = "migrations" ∷ "tests" ∷ []

abbrev pub task_processor_app_label : String
task_processor_app_label = "task_processor"

abbrev pub filename : SourceFile → String
filename file = concat file.stem ".py"

-- The parts begin with `management` and `commands`, and there is a third one.
abbrev is_command : List String → Bool
is_command (first ∷ second ∷ parents) = str_eq first "management" && str_eq second "commands"
is_command _ = false

unfoldable pub should_skip : SourceFile → String → Bool
unfolding concat starts_with
should_skip file app_label =
    if any (λ part. member str_eq part excluded_dir_names) file.parents
    then true
    else if str_eq (filename file) "conftest.py" || starts_with "test_" (filename file)
    then true
    else is_command file.parents && not (str_eq app_label task_processor_app_label)

-- with_suffix(""): a name that is all suffix has none.
abbrev module_name : String → String
module_name stem = if str_eq stem "" then ".py" else stem

abbrev pub module_dotted : String → SourceFile → String
module_dotted module_prefix file =
    join "." (module_prefix ∷ file.parents ++ module_name file.stem ∷ [])

abbrev pub file_path : FilePath → SourceFile → FilePath
file_path root file = root ++ file.parents ++ filename file ∷ []

-- Paths are compared part by part: no character of a part has the number 0.
abbrev parts_key : List String → List ℕ
parts_key [] = []
parts_key (part ∷ parts) = codes part ++ 0 ∷ parts_key parts

abbrev pub path_key : SourceFile → List ℕ
path_key file = parts_key (file.parents ++ filename file ∷ [])

-- Entries and warnings, or none if an exception was raised.
abbrev pub Scanned : Type 0
Scanned = Option (List EventEntry × List Warning)

abbrev pub nothing_scanned : Scanned
nothing_scanned = some ([], [])

abbrev pub and_then : Scanned → Scanned → Scanned
and_then none later = none
and_then (some first) none = none
and_then (some (es, ws)) (some (es', ws')) = some (es ++ es', ws ++ ws')

module _ (underscore : String → String) where
  unfoldable pub scan_file : FilePath → String → SourceFile → Scanned
  unfolding get_event_entries_from_source concat join
  scan_file root module_prefix file = elim file.tree [
    | none ↦ none
    | some tree ↦
        get_event_entries_from_source underscore (module_dotted module_prefix file)
          (file_path root file) tree
  ]

  unfoldable pub scan_files : FilePath → String → String → List SourceFile → Scanned
  unfolding should_skip scan_file
  scan_files root app_label module_prefix [] = nothing_scanned
  scan_files root app_label module_prefix (file ∷ files) =
      let rest = scan_files root app_label module_prefix files in
      if should_skip file app_label then rest else and_then (scan_file root module_prefix file) rest

  -- The files are those that `root.rglob("*.py")` gives, in any order.
  unfoldable pub get_event_entries_from_tree :
      FilePath → String → String → List SourceFile → Scanned
  unfolding scan_files order_by codes concat
  get_event_entries_from_tree root app_label module_prefix files =
      scan_files root app_label module_prefix (order_by path_key files)

-- A Django application, with the files below its path.
pub record AppConfig : Type 0 where
  pub path : FilePath
  pub label : String
  pub name : String
  pub files : List SourceFile

-- What the template is given for an event.
pub record DocumentedEvent : Type 0 where
  pub name : String
  pub level : String
  pub locations : List SourceLocation
  pub attributes : List String

-- path.relative_to(base). none: a ValueError.
unfoldable pub relative_to : FilePath → FilePath → Option FilePath
relative_to path [] = some path
relative_to [] (part ∷ base) = none
relative_to (part ∷ path) (part' ∷ base) =
    let rest = relative_to path base in if str_eq part part' then rest else none

abbrev pub relative_if_under : FilePath → FilePath → FilePath
relative_if_under path base = elim (relative_to path base) [ none ↦ path | some rest ↦ rest ]

abbrev relative_location : FilePath → SourceLocation → SourceLocation
relative_location repo_root location = record location {
  path = relative_if_under location.path repo_root;
}

unfoldable pub documented_event : FilePath → EventEntry → DocumentedEvent
unfolding relative_to order_by codes
documented_event repo_root entry = record {
  name = entry.name;
  level = entry.level;
  locations = map (relative_location repo_root) entry.locations;
  attributes = order_by codes entry.attributes;
}

module _ (underscore : String → String) where
  -- The entries of all applications.
  unfoldable pub scan_apps : List AppConfig → Scanned
  unfolding get_event_entries_from_tree
  scan_apps [] = nothing_scanned
  scan_apps (app_config ∷ app_configs) =
      and_then
        (get_event_entries_from_tree underscore app_config.path app_config.label app_config.name
          app_config.files)
        (scan_apps app_configs)

  -- The context of the template, and the warnings given on the way.
  unfoldable pub handle_events :
      FilePath → List AppConfig → Option (List DocumentedEvent × List Warning)
  unfolding scan_apps merge_event_entries documented_event
  handle_events repo_root app_configs = elim (scan_apps app_configs) [
    | none ↦ none
    | some (entries, warnings) ↦ elim (merge_event_entries entries) [
      | none ↦ none
      | some (merged, later) ↦ some (map (documented_event repo_root) merged, warnings ++ later)
    ]
  ]

-- A collector of prometheus_client's registry: a metric of its own types, or any other one.
pub record Metric : Type 0 where
  pub name : String
  pub documentation : String
  pub labels : List String
  pub type : String

pub data Collector : Type 0 where
  metric_wrapper : Metric → Collector
  other_collector : Collector

abbrev pub wrapped_metrics : List Collector → List Metric
wrapped_metrics [] = []
wrapped_metrics (metric_wrapper metric ∷ collectors) = metric ∷ wrapped_metrics collectors
wrapped_metrics (other_collector ∷ collectors) = wrapped_metrics collectors

abbrev pub metric_key : Metric → List ℕ
metric_key metric = codes metric.name

-- The context of the template of the metrics.
unfoldable pub handle_metrics : List Collector → List Metric
unfolding order_by codes
handle_metrics collectors = order_by metric_key (wrapped_metrics collectors)
