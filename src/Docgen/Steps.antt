-- ===== src/Docgen/Steps.antt =====
-- What a step of the walk keeps: the scopes outside, and the form of the entries.
use flagsmith_common.Base.{
  ℕ, ◌≡◌, refl, ◌∙◌, inl, inr, true, String, Option, none, some, List, [], ◌∷◌, ◌++◌, str_eq,
  Option-cases, Bool-cases, All, All-append,
}
use flagsmith_common.Base.Sets.{member}
use flagsmith_common.Docgen.Syntax.{
  Node, name, attribute, call, string_constant, class_def, function_def, assign, returns, expr,
  other, Nodes, nil, cons, Keywords, end, keyword,
}
use flagsmith_common.Docgen.Scopes.{
  LoggerScope, emit_method_names, scope_for_emit_target, self_cls_accessor_name,
}
use flagsmith_common.Docgen.Visitor.{
  FilePath, EventEntry, Warning, unresolved_event, unresolved_accessor, Visitor, top, rest_of,
  first_class, visit_assign, visit_call, warn, ◌>>=◌, bind_target, emit_event, emitted_entry,
  add_entry, described, resolve_seed, resolve_bind,
}
use flagsmith_common.Docgen.Described.{IsDescribed, scope-IsDescribed, accessor-IsDescribed}

-- No assertion fails, and the visitor that is left has a property.
abbrev pub Reaches : (Visitor → Type 0) → Option Visitor → Type 0
Reaches P o = (v : Visitor) × (o ≡ some v) × P v

-- The calls of methods with a text as their first argument, by the method and the line, wherever they stand.
abbrev pub own_call : Node → Nodes → ℕ → List (String × ℕ)
own_call (attribute target attr) (cons (string_constant value) args) lineno = (attr, lineno) ∷ []
own_call _ _ lineno = []

unfoldable mutual
  pub calls_of : Node → List (String × ℕ)
  calls_of (name id) = []
  calls_of (attribute value attr) = calls_of value
  calls_of (call func args keywords lineno) =
      own_call func args lineno
      ++ (calls_of func ++ (calls_of_all args ++ calls_of_keywords keywords))
  calls_of (string_constant value) = []
  calls_of (class_def class_name bases keywords body others) =
      calls_of_all bases
      ++ (calls_of_keywords keywords ++ (calls_of_all body ++ calls_of_all others))
  calls_of (function_def function_name arguments body others) =
      calls_of_all arguments ++ (calls_of_all body ++ calls_of_all others)
  calls_of (assign targets value lineno) = calls_of_all targets ++ calls_of value
  calls_of (returns value) = calls_of value
  calls_of (expr value) = calls_of value
  calls_of (other children) = calls_of_all children

  pub calls_of_all : Nodes → List (String × ℕ)
  calls_of_all nil = []
  calls_of_all (cons node nodes) = calls_of node ++ calls_of_all nodes

  pub calls_of_keywords : Keywords → List (String × ℕ)
  calls_of_keywords end = []
  calls_of_keywords (keyword arg value rest) = calls_of value ++ calls_of_keywords rest

pub All-parts :
    {A : Type 0} (P : A → Type 0) (xs ys : List A) → All P (xs ++ ys) → All P xs × All P ys
All-parts P [] ys h = (tt, h)
All-parts P (x ∷ xs) ys h = let (a, b) = All-parts P xs ys h.1 in ((h.0, a), b)

module _ (underscore : String → String) (module_dotted : String) (path : FilePath)
    (P : String × ℕ → Type 0) where
  -- An entry of a call with the property: its level is the method, which is one of emission, and its one
  -- location the line, in this file.
  pub record IsEmitted (entry : EventEntry) : Type 0 where
    pub emitted : member str_eq entry.level emit_method_names ≡ true
    pub line : ℕ
    pub called : P (entry.level, line)
    pub here : entry.locations ≡ record { path = path; line = line } ∷ []

  -- How the visitor stands after a part of the walk: the scopes outside the innermost one and the
  -- classes are as before, and the entries are of the right form if they were.
  pub record IsAfter (v v' : Visitor) : Type 0 where
    pub outer : rest_of v'.scope_stack ≡ rest_of v.scope_stack
    pub classes : v'.class_stack ≡ v.class_stack
    pub entries : All IsEmitted v.entries → All IsEmitted v'.entries

  -- No assertion fails, and the visitor stands as it should.
  abbrev pub Walks : Visitor → Option Visitor → Type 0
  Walks v o = Reaches (IsAfter v) o

  pub IsAfter-refl : (v : Visitor) → IsAfter v v
  IsAfter-refl v = record { outer = refl; classes = refl; entries = λ h. h }

  pub IsAfter-trans : (v w x : Visitor) → IsAfter v w → IsAfter w x → IsAfter v x
  IsAfter-trans v w x h k = record {
    outer = k.outer ∙ h.outer;
    classes = k.classes ∙ h.classes;
    entries = λ e. k.entries (h.entries e);
  }

  pub Walks-stay : (v : Visitor) → Walks v (some v)
  Walks-stay v = (v, refl, IsAfter-refl v)

  pub Walks->>= :
      (v : Visitor) (o : Option Visitor) (next : Visitor → Option Visitor)
      → Walks v o
      → ((w : Visitor) → Walks w (next w))
      → Walks v (o >>= next)
  Walks->>= v o next (w, e, h) rest = let (x, f, k) = rest w in (x, rw e f, IsAfter-trans v w x h k)

  Walks-warn :
      (v : Visitor) (target : Node) (warning : String → Warning)
      → IsDescribed target
      → Walks v (warn (described target warning) v)
  Walks-warn v target warning (text, e) =
      let w = record v { warnings = v.warnings ++ warning text ∷ [] } in
      (w, rw (warn, e) refl, record { outer = refl; classes = refl; entries = λ h. h })

  Walks-emit_event :
      (v : Visitor) (scope : LoggerScope) (target : Node) (attr : String) (args : Nodes)
      (keywords : Keywords) (lineno : ℕ)
      → All P (own_call (attribute target attr) args lineno)
      → member str_eq attr emit_method_names ≡ true
      → IsDescribed target
      → Walks v (emit_event underscore module_dotted path scope target attr args keywords lineno v)
  Walks-emit_event v scope target attr nil keywords lineno c m d = Walks-stay v
  Walks-emit_event v scope target attr (cons (string_constant value) args) keywords lineno c m d =
      let entry = emitted_entry underscore module_dotted path scope attr value keywords lineno in
      (
        add_entry entry v,
        refl,
        record {
          outer = refl;
          classes = refl;
          entries = λ h.
              All-append IsEmitted v.entries (entry ∷ []) h
                (record { emitted = m; line = lineno; called = c.0; here = refl }, tt);
        },
      )
  Walks-emit_event v scope target attr (cons arg args) keywords lineno c m d =
      Walks-warn v target
        (λ text. unresolved_event (record { path = path; line = lineno }) text attr) d

  pub Walks-visit_call :
      (func : Node) (args : Nodes) (keywords : Keywords) (lineno : ℕ)
      → All P (own_call func args lineno)
      → (v : Visitor)
      → Walks v (visit_call underscore module_dotted path func args keywords lineno v)
  unfolding visit_call
  Walks-visit_call (attribute target attr) args keywords lineno c v =
      elim (Bool-cases (member str_eq attr emit_method_names)) [
        | inr quiet ↦ rw quiet (Walks-stay v)
        | inl emits ↦
            elim (Option-cases
              (scope_for_emit_target (top v.scope_stack) (first_class v.class_stack) target)) [
                | inr (scope, e) ↦
                    rw (emits, e)
                      (Walks-emit_event v scope target attr args keywords lineno c emits
                        (scope-IsDescribed _ _ target scope e))
                | inl e ↦ elim (Option-cases (self_cls_accessor_name target)) [
                  | inl a ↦ rw (emits, e, a) (Walks-stay v)
                  | inr (accessor_name, a) ↦
                      rw (emits, e, a)
                        (Walks-warn v target
                          (λ text.
                            unresolved_accessor (record { path = path; line = lineno }) text attr
                              accessor_name)
                          (accessor-IsDescribed target accessor_name a))
                ]
              ]
      ]
  Walks-visit_call _ args keywords lineno c v = Walks-stay v

  bind_target-IsAfter :
      (target : String) (seed bound : Option LoggerScope) (v : Visitor)
      → IsAfter v (bind_target target seed bound v)
  bind_target-IsAfter target (some seed) bound v = record {
    outer = refl;
    classes = refl;
    entries = λ h. h;
  }
  bind_target-IsAfter target none (some bound) v = record {
    outer = refl;
    classes = refl;
    entries = λ h. h;
  }
  bind_target-IsAfter target none none v = IsAfter-refl v

  -- Binding a logger changes the innermost scope only.
  pub visit_assign-IsAfter :
      (targets : Nodes) (value : Node) (lineno : ℕ) (v : Visitor)
      → IsAfter v (visit_assign underscore module_dotted path targets value lineno v)
  unfolding visit_assign
  visit_assign-IsAfter (cons (name target_id) nil) value lineno v =
      let (seed, warnings) = resolve_seed underscore module_dotted path target_id value lineno in
      let w = record v { warnings = v.warnings ++ warnings } in
      IsAfter-trans v w _ (record { outer = refl; classes = refl; entries = λ h. h })
        (bind_target-IsAfter target_id seed (resolve_bind (top v.scope_stack) value) w)
  visit_assign-IsAfter _ value lineno v = IsAfter-refl v
