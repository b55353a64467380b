-- ===== src/Docgen/Walk.antt =====
-- The walk over a module, and the entries that it collects.
use flagsmith_common.Base.{String, Option, none, some, List}
use flagsmith_common.Docgen.Syntax.{
  Node, name, attribute, call, string_constant, class_def, function_def, assign, returns, expr,
  other, Nodes, nil, cons, Keywords, end, keyword,
}
use flagsmith_common.Docgen.Visitor.{
  FilePath, EventEntry, Warning, Visitor, new_visitor, enter_class, leave_class, enter_function,
  leave_function, visit_assign, visit_call, ◌>>=◌,
}

module _ (underscore : String → String) (module_dotted : String) (path : FilePath) where
  -- The walk: the children of each node in their order.
  unfoldable mutual
    unfolding visit_assign visit_call enter_class

    pub visit : Node → Visitor → Option Visitor
    visit (name id) v = some v
    visit (attribute value attr) v = visit value v
    visit (call func args keywords lineno) v =
        visit_call underscore module_dotted path func args keywords lineno v >>= λ v1.
        visit func v1 >>= λ v2. visit_all args v2 >>= λ v3. visit_keywords keywords v3
    visit (string_constant value) v = some v
    visit (class_def class_name bases keywords body others) v =
        visit_all bases (enter_class class_name bases body v) >>= λ v1.
        visit_keywords keywords v1 >>= λ v2.
        visit_all body v2 >>= λ v3. visit_all others v3 >>= λ v4. some (leave_class v4)
    visit (function_def function_name arguments body others) v =
        visit_all arguments (enter_function v) >>= λ v1.
        visit_all body v1 >>= λ v2. visit_all others v2 >>= λ v3. some (leave_function v3)
    visit (assign targets value lineno) v =
        visit_all targets (visit_assign underscore module_dotted path targets value lineno v)
        >>= λ v1. visit value v1
    visit (returns value) v = visit value v
    visit (expr value) v = visit value v
    visit (other children) v = visit_all children v

    pub visit_all : Nodes → Visitor → Option Visitor
    visit_all nil v = some v
    visit_all (cons node nodes) v = visit node v >>= λ v1. visit_all nodes v1

    pub visit_keywords : Keywords → Visitor → Option Visitor
    visit_keywords end v = some v
    visit_keywords (keyword arg value rest) v = visit value v >>= λ v1. visit_keywords rest v1

  -- get_event_entries_from_source, of the parsed module.
  unfoldable pub get_event_entries_from_source : Nodes → Option (List EventEntry × List Warning)
  unfolding visit
  get_event_entries_from_source tree = elim (visit_all tree new_visitor) [
    | none ↦ none
    | some v ↦ some (v.entries, v.warnings)
  ]
