-- ===== src/Docgen/Examples.antt =====
-- The theorems on the documentation of events, at a module with a function that binds a logger.
use flagsmith_common.Base.{◌≡◌, refl, String, some, List, All, In, [], ◌∷◌, ◌++◌}
use flagsmith_common.Base.Order.{lex}
use flagsmith_common.Docgen.Syntax.{
  name, attribute, call, string_constant, function_def, assign, expr, Nodes, nil, cons, end,
  keyword,
}
use flagsmith_common.Docgen.Visitor.{
  FilePath, EventEntry, Warning, Visitor, new_visitor, diverging_levels,
}
use flagsmith_common.Docgen.Walk.{visit, get_event_entries_from_source}
use flagsmith_common.Docgen.Steps.{IsEmitted, calls_of_all}
use flagsmith_common.Docgen.Walks.{function_scopes, get_event_entries_from_source-IsEmitted}
use flagsmith_common.Docgen.Merge.{merge_event_entries}
use flagsmith_common.Docgen.Merging.{IsMergeOf, merge_event_entries-IsMergeOf}
use flagsmith_common.Docgen.Files.{AppConfig, DocumentedEvent, scan_apps, handle_events}
use flagsmith_common.Docgen.Documents.{IsDocument, handle_events-IsDocument}

-- inflection.underscore, for names that are written with underscores already
abbrev underscore : String → String
underscore body = body

-- log = logger.bind(code__count=files)
-- log.info("scan_started", size=files)
abbrev scan_body : Nodes
scan_body =
    cons
      (assign (cons (name "log") nil)
        (call (attribute (name "logger") "bind") nil
          (keyword (some "code__count") (name "files") end) 5)
        5)
      (cons
        (expr (
          call (attribute (name "log") "info") (cons (string_constant "scan_started") nil)
            (keyword (some "size") (name "files") end) 6))
        nil)

-- logger = structlog.get_logger("code_references")
-- def scan(files): ...
abbrev module_body : Nodes
module_body =
    cons
      (assign (cons (name "logger") nil)
        (call (attribute (name "structlog") "get_logger")
          (cons (string_constant "code_references") nil) end 1)
        1)
      (cons (function_def "scan" nil scan_body nil) nil)

abbrev scan_path : FilePath
scan_path = "app" ∷ "scan.py" ∷ []

abbrev scan_entry : EventEntry
scan_entry = record {
  name = "code_references.scan_started";
  level = "info";
  attributes = "code.count" ∷ "size" ∷ [];
  locations = record { path = scan_path; line = 6 } ∷ [];
}

scan_test :
    get_event_entries_from_source underscore "app.scan" scan_path module_body
    ≡ some (scan_entry ∷ [], [])
unfolding get_event_entries_from_source
scan_test = refl

-- The same event, as an error elsewhere.
abbrev other_entry : EventEntry
other_entry = record scan_entry {
  level = "error";
  attributes = "reason" ∷ [];
  locations = record { path = scan_path; line = 9 } ∷ [];
}

-- The visitor behind the assignment to `logger`.
abbrev module_visitor : Visitor
module_visitor = record new_visitor {
  scope_stack = (("logger", record { domain = "code_references"; bound_attrs = [] }) ∷ []) ∷ [];
}

function_scopes_example :
    (v' : Visitor) × (visit underscore "app.scan" scan_path
        (function_def "scan" nil scan_body nil)
        module_visitor
      ≡ some v')
    × (v'.scope_stack ≡ module_visitor.scope_stack)
function_scopes_example =
    function_scopes underscore "app.scan" scan_path "scan" nil scan_body nil module_visitor

get_event_entries_from_source-IsEmitted_example :
    (entries : List EventEntry) × (warnings : List Warning) × (get_event_entries_from_source
        underscore "app.scan" scan_path module_body
      ≡ some (entries, warnings))
    × All (IsEmitted underscore "app.scan" scan_path (λ c. In c (calls_of_all module_body))) entries
get_event_entries_from_source-IsEmitted_example =
    get_event_entries_from_source-IsEmitted underscore "app.scan" scan_path module_body

abbrev merged_entry : EventEntry
merged_entry = record scan_entry {
  attributes = "code.count" ∷ "size" ∷ "reason" ∷ [];
  locations = record { path = scan_path; line = 6 } ∷ record { path = scan_path; line = 9 } ∷ [];
}

merge_event_entries-IsMergeOf_example :
    IsMergeOf (scan_entry ∷ other_entry ∷ []) (merged_entry ∷ [])
unfolding merge_event_entries
merge_event_entries-IsMergeOf_example =
    merge_event_entries-IsMergeOf (scan_entry ∷ other_entry ∷ []) (merged_entry ∷ [])
      (diverging_levels "code_references.scan_started" "info"
          (record { path = scan_path; line = 6 }) "error" (record { path = scan_path; line = 9 })
        ∷ [])
      refl

-- An application with the module, and with a test that is skipped.
abbrev scan_app : AppConfig
scan_app = record {
  path = "srv" ∷ "app" ∷ [];
  label = "app";
  name = "app";
  files =
      record { parents = "tests" ∷ []; stem = "scan"; tree = some module_body }
      ∷ record { parents = []; stem = "scan"; tree = some module_body }
      ∷ [];
}

handle_events-IsDocument_example :
    (entries : List EventEntry) × (found later : List Warning) × (events : List DocumentedEvent)
    × (scan_apps underscore (scan_app ∷ []) ≡ some (entries, found))
    × (handle_events underscore ("srv" ∷ []) (scan_app ∷ []) ≡ some (events, found ++ later))
    × IsDocument ("srv" ∷ []) entries events
handle_events-IsDocument_example =
    handle_events-IsDocument underscore ("srv" ∷ []) (scan_app ∷ [])
      (((module_body, refl), ((module_body, refl), tt)), tt)

documented_test :
    handle_events underscore ("srv" ∷ []) (scan_app ∷ [])
    ≡ some (
      record {
        name = "code_references.scan_started";
        level = "info";
        locations = record { path = scan_path; line = 6 } ∷ [];
        attributes = "code.count" ∷ "size" ∷ [];
      }
          ∷ [],
      [],
    )
unfolding handle_events lex
documented_test = refl
