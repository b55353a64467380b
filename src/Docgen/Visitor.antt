-- ===== src/Docgen/Visitor.antt =====
-- _ScopeVisitor: the walk over a module with a stack of scopes, and the entries that it collects.
use flagsmith_common.Base.{
  ℕ, ◌&&◌, String, Option, none, some, List, [], ◌∷◌, ◌++◌, str_eq, if◌then◌else◌,
}
use flagsmith_common.Base.Sets.{member, union}
use flagsmith_common.Base.Dict.{Dict, find, put, put_defaults}
use flagsmith_common.Otel.Events.{get_otel_event_name}
use flagsmith_common.Docgen.Syntax.{
  Node, name, attribute, call, string_constant, function_def, Nodes, nil, cons, Keywords,
}
use flagsmith_common.Docgen.Scopes.{
  FrozenSet, LoggerScope, Scope, emit_method_names, kwargs_as_attributes, resolve_domain,
  with_attributes, scope_for_emit_target, self_cls_accessor_name, describe_emit_target,
  resolve_method_accessor,
}

-- A path by its parts.
abbrev pub FilePath : Type 0
FilePath = List String

pub record SourceLocation : Type 0 where
  pub path : FilePath
  pub line : ℕ

pub record EventEntry : Type 0 where
  pub name : String
  pub level : String
  pub attributes : FrozenSet
  pub locations : List SourceLocation

-- A DocgenEventsWarning, with the values that are formatted into it.
pub data Warning : Type 0 where
  unresolved_domain : (location : SourceLocation) (target : String) → Warning
  unresolved_accessor : (location : SourceLocation) (target attr accessor_name : String) → Warning
  unresolved_event : (location : SourceLocation) (target attr : String) → Warning
  diverging_levels :
      (name level : String) (location : SourceLocation) (other_level : String)
      (other_location : SourceLocation)
      → Warning

-- The visitor, with the warnings that it has given. The first scope is the innermost one.
pub record Visitor : Type 0 where
  pub scope_stack : List Scope
  pub class_stack : List Scope
  pub module_classes : Dict Scope
  pub entries : List EventEntry
  pub warnings : List Warning

abbrev pub new_visitor : Visitor
new_visitor = record {
  scope_stack = [] ∷ [];
  class_stack = [];
  module_classes = [];
  entries = [];
  warnings = [];
}

abbrev pub top : List Scope → Scope
top [] = []
top (scope ∷ stack) = scope

abbrev pub rest_of : List Scope → List Scope
rest_of [] = []
rest_of (scope ∷ stack) = stack

abbrev pub first_class : List Scope → Option Scope
first_class [] = none
first_class (scope ∷ stack) = some scope

-- The loop over the methods of a class.
unfoldable pub own_accessors : Scope → Nodes → Scope → Scope
unfolding resolve_method_accessor put
own_accessors outer_scopes nil class_scope = class_scope
own_accessors outer_scopes (cons (function_def method_name arguments body others) stmts)
      class_scope =
    own_accessors outer_scopes stmts (elim (resolve_method_accessor outer_scopes body) [
      | none ↦ class_scope
      | some accessor ↦ put method_name accessor class_scope
    ])
own_accessors outer_scopes (cons stmt stmts) class_scope =
    own_accessors outer_scopes stmts class_scope

-- The loop over the bases of a class.
unfoldable pub inherited_accessors : Dict Scope → Nodes → Scope → Scope
unfolding find put_defaults
inherited_accessors module_classes nil class_scope = class_scope
inherited_accessors module_classes (cons (name id) bases) class_scope =
    inherited_accessors module_classes bases (elim (find id module_classes) [
      | none ↦ class_scope
      | some parent ↦ put_defaults parent class_scope
    ])
inherited_accessors module_classes (cons base bases) class_scope =
    inherited_accessors module_classes bases class_scope

unfoldable pub enter_class : String → Nodes → Nodes → Visitor → Visitor
unfolding own_accessors inherited_accessors put
enter_class class_name bases body v =
    let class_scope =
      inherited_accessors v.module_classes bases (own_accessors (top v.scope_stack) body []) in
    record v {
      module_classes = put class_name class_scope v.module_classes;
      class_stack = class_scope ∷ v.class_stack;
    }

abbrev pub leave_class : Visitor → Visitor
leave_class v = record v { class_stack = rest_of v.class_stack }

abbrev pub enter_function : Visitor → Visitor
enter_function v = record v { scope_stack = top v.scope_stack ∷ v.scope_stack }

abbrev pub leave_function : Visitor → Visitor
leave_function v = record v { scope_stack = rest_of v.scope_stack }

abbrev set_logger : String → LoggerScope → Visitor → Visitor
set_logger target scope v = record v {
  scope_stack = put target scope (top v.scope_stack) ∷ rest_of v.scope_stack;
}

-- The logger that an assignment makes of its target: a seed, or else a bind.
abbrev pub bind_target : String → Option LoggerScope → Option LoggerScope → Visitor → Visitor
bind_target target (some seed) bound v = set_logger target seed v
bind_target target none (some bound) v = set_logger target bound v
bind_target target none none v = v

-- An assertion that fails ends the walk.
infixl 5 ◌>>=◌
abbrev pub ◌>>=◌ : Option Visitor → (Visitor → Option Visitor) → Option Visitor
none >>= next = none
some v >>= next = next v

abbrev pub warn : Option Warning → Visitor → Option Visitor
warn none v = none
warn (some warning) v = some (record v { warnings = v.warnings ++ warning ∷ [] })

abbrev pub described : Node → (String → Warning) → Option Warning
described target warning = elim (describe_emit_target target) [
  | none ↦ none
  | some text ↦ some (warning text)
]

abbrev pub add_entry : EventEntry → Visitor → Visitor
add_entry entry v = record v { entries = v.entries ++ entry ∷ [] }

-- _resolve_bind
unfoldable pub resolve_bind : Scope → Node → Option LoggerScope
unfolding find kwargs_as_attributes
resolve_bind logger_scopes (call (attribute (name id) attr) args keywords lineno) =
    if str_eq attr "bind"
    then elim (find id logger_scopes) [
      | none ↦ none
      | some parent ↦ some (with_attributes parent keywords)
    ]
    else none
resolve_bind logger_scopes _ = none

module _ (underscore : String → String) (module_dotted : String) (path : FilePath) where
  -- _resolve_seed: the logger, or the warning that is given, if any.
  abbrev seed_of : String → ℕ → Nodes → Option LoggerScope × List Warning
  seed_of target lineno nil = (some (record { domain = ""; bound_attrs = [] }), [])
  seed_of target lineno (cons arg args) = elim (resolve_domain module_dotted arg) [
    | none ↦ (none, unresolved_domain (record { path = path; line = lineno }) target ∷ [])
    | some domain ↦ (some (record { domain = domain; bound_attrs = [] }), [])
  ]

  unfoldable pub resolve_seed : String → Node → ℕ → Option LoggerScope × List Warning
  unfolding resolve_domain
  resolve_seed target (call (attribute (name id) attr) args keywords line) lineno =
      let seed = seed_of target lineno args in
      if str_eq attr "get_logger" && str_eq id "structlog" then seed else (none, [])
  resolve_seed target _ lineno = (none, [])

  -- visit_Assign, before its children are visited: only a single name is looked at.
  unfoldable pub visit_assign : Nodes → Node → ℕ → Visitor → Visitor
  unfolding resolve_seed resolve_bind put
  visit_assign (cons (name target_id) nil) value lineno v =
      let (seed, warnings) = resolve_seed target_id value lineno in
      bind_target target_id seed (resolve_bind (top v.scope_stack) value)
        (record v { warnings = v.warnings ++ warnings })
  visit_assign targets value lineno v = v

  -- scope.domain or None
  abbrev domain_or_none : String → Option String
  domain_or_none domain = if str_eq domain "" then none else some domain

  abbrev located : ℕ → SourceLocation
  located lineno = record { path = path; line = lineno }

  abbrev pub emitted_entry : LoggerScope → String → String → Keywords → ℕ → EventEntry
  emitted_entry scope attr value keywords lineno = record {
    name = get_otel_event_name underscore (domain_or_none scope.domain) value;
    level = attr;
    attributes = union str_eq scope.bound_attrs (kwargs_as_attributes keywords);
    locations = located lineno ∷ [];
  }

  abbrev pub emit_event :
      LoggerScope → Node → String → Nodes → Keywords → ℕ → Visitor → Option Visitor
  emit_event scope target attr nil keywords lineno v = some v
  emit_event scope target attr (cons (string_constant value) args) keywords lineno v =
      some (add_entry (emitted_entry scope attr value keywords lineno) v)
  emit_event scope target attr (cons arg args) keywords lineno v =
      warn (described target (λ text. unresolved_event (located lineno) text attr)) v

  -- _build_entry_from_emit_call, and what visit_Call does with the entry. none: an assertion fails.
  unfoldable pub visit_call : Node → Nodes → Keywords → ℕ → Visitor → Option Visitor
  unfolding scope_for_emit_target get_otel_event_name describe_emit_target kwargs_as_attributes
      union
  visit_call (attribute target attr) args keywords lineno v =
      if member str_eq attr emit_method_names
      then elim (scope_for_emit_target (top v.scope_stack) (first_class v.class_stack) target) [
        | some scope ↦ emit_event scope target attr args keywords lineno v
        | none ↦ elim (self_cls_accessor_name target) [
          | none ↦ some v
          | some accessor_name ↦
              warn
                (described target
                  (λ text. unresolved_accessor (located lineno) text attr accessor_name))
                v
        ]
      ]
      else some v
  visit_call func args keywords lineno v = some v
