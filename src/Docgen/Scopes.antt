-- ===== src/Docgen/Scopes.antt =====
-- Loggers: what a name, an accessor of the class, or a chain of binds stands for.
use flagsmith_common.Base.{String, Option, none, some, List, [], ◌∷◌, str_eq, if◌then◌else◌}
use flagsmith_common.Base.Text.{concat, replace_dunder}
use flagsmith_common.Base.Sets.{member, union}
use flagsmith_common.Base.Dict.{Dict, find}
use flagsmith_common.Docgen.Syntax.{
  Node, name, attribute, call, string_constant, returns, expr, Nodes, nil, cons, Keywords, end,
  keyword,
}

abbrev pub emit_method_names : List String
emit_method_names =
    "debug" ∷ "info" ∷ "warning" ∷ "warn" ∷ "error" ∷ "critical" ∷ "fatal" ∷ "exception" ∷ "msg"
    ∷ []

abbrev pub self_or_cls : List String
self_or_cls = "self" ∷ "cls" ∷ []

-- frozenset[str]
abbrev pub FrozenSet : Type 0
FrozenSet = List String

pub record LoggerScope : Type 0 where
  pub domain : String
  pub bound_attrs : FrozenSet

abbrev pub Scope : Type 0
Scope = Dict LoggerScope

-- The names of the keywords, with dots.
unfoldable pub attribute_names : Keywords → List String
unfolding replace_dunder
attribute_names end = []
attribute_names (keyword none value rest) = attribute_names rest
attribute_names (keyword (some arg) value rest) = replace_dunder arg ∷ attribute_names rest

unfoldable pub kwargs_as_attributes : Keywords → FrozenSet
unfolding attribute_names union
kwargs_as_attributes keywords = union str_eq [] (attribute_names keywords)

unfoldable pub resolve_domain : (module_dotted : String) → Node → Option String
resolve_domain module_dotted (string_constant value) = some value
resolve_domain module_dotted (name id) = if str_eq id "__name__" then some module_dotted else none
resolve_domain module_dotted _ = none

abbrev pub with_attributes : LoggerScope → Keywords → LoggerScope
with_attributes parent keywords = record {
  domain = parent.domain;
  bound_attrs = union str_eq parent.bound_attrs (kwargs_as_attributes keywords);
}

-- An accessor `self.<attr>` of the enclosing class, if there is one.
abbrev pub class_accessor : Option Scope → Node → String → Option LoggerScope
class_accessor none value attr = none
class_accessor (some class_scope) (name id) attr =
    if member str_eq id self_or_cls then find attr class_scope else none
class_accessor (some class_scope) _ attr = none

unfoldable pub scope_for_emit_target : Scope → Option Scope → Node → Option LoggerScope
unfolding find kwargs_as_attributes
scope_for_emit_target logger_scopes class_scope (name id) = find id logger_scopes
scope_for_emit_target logger_scopes class_scope (attribute value attr) =
    class_accessor class_scope value attr
scope_for_emit_target logger_scopes class_scope (call (attribute value attr) args keywords lineno) =
    let parent = scope_for_emit_target logger_scopes class_scope value in
    elim (class_accessor class_scope value attr) [
      | some scope ↦ some scope
      | none ↦
          if str_eq attr "bind"
          then elim parent [ none ↦ none | some scope ↦ some (with_attributes scope keywords) ]
          else none
    ]
scope_for_emit_target logger_scopes class_scope _ = none

-- _self_cls_accessor_name
abbrev accessor_of : Node → String → Option String
accessor_of (name id) attr = if member str_eq id self_or_cls then some attr else none
accessor_of _ attr = none

abbrev pub self_cls_accessor_name : Node → Option String
self_cls_accessor_name (attribute value attr) = accessor_of value attr
self_cls_accessor_name (call (attribute value attr) args keywords lineno) = accessor_of value attr
self_cls_accessor_name _ = none

-- _describe_emit_target: none if one of its assertions fails.
unfoldable pub describe_emit_target : Node → Option String
unfolding concat
describe_emit_target (name id) = some id
describe_emit_target (attribute value attr) = elim (describe_emit_target value) [
  | none ↦ none
  | some text ↦ some (concat text (concat "." attr))
]
describe_emit_target (call (attribute value attr) args keywords lineno) =
    elim (describe_emit_target value) [
      | none ↦ none
      | some text ↦ some (concat text (concat "." (concat attr "(...)")))
    ]
describe_emit_target _ = none

abbrev body_of_docstring : Nodes → Nodes
body_of_docstring (cons (expr (string_constant value)) rest) = rest
body_of_docstring body = body

-- _resolve_method_accessor, of the body of the method.
abbrev returned_scope : Scope → Nodes → Option LoggerScope
returned_scope outer_scopes (cons (returns value) nil) =
    scope_for_emit_target outer_scopes none value
returned_scope outer_scopes _ = none

unfoldable pub resolve_method_accessor : Scope → Nodes → Option LoggerScope
unfolding scope_for_emit_target
resolve_method_accessor outer_scopes body = returned_scope outer_scopes (body_of_docstring body)
