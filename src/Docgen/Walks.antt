-- ===== src/Docgen/Walks.antt =====
-- The proofs on the walk over a module: assertions, scopes and entries.
use flagsmith_common.Base.{◌≡◌, refl, ap, ◌∙◌, ℕ, String, Option, some, List, All, All_of_In, In}
use flagsmith_common.Docgen.Syntax.{
  Node, name, attribute, call, string_constant, class_def, function_def, assign, returns, expr,
  other, Nodes, nil, cons, Keywords, end, keyword,
}
use flagsmith_common.Docgen.Visitor.{
  FilePath, EventEntry, Warning, Visitor, new_visitor, rest_of, enter_class, leave_class,
  enter_function, leave_function, visit_assign, visit_call, ◌>>=◌,
}
use flagsmith_common.Docgen.Walk.{visit, visit_all, visit_keywords, get_event_entries_from_source}
use flagsmith_common.Docgen.Steps.{
  IsEmitted, IsAfter, Reaches, Walks, IsAfter-trans, Walks-stay, Walks->>=, Walks-visit_call,
  visit_assign-IsAfter, All-parts, own_call, calls_of, calls_of_all, calls_of_keywords,
}

module _ (underscore : String → String) (module_dotted : String) (path : FilePath)
    (P : String × ℕ → Type 0) where
  -- A function is left with the scopes that it was entered with.
  leave_function-IsAfter :
      (v w : Visitor)
      → IsAfter underscore module_dotted path P (enter_function v) w
      → IsAfter underscore module_dotted path P v (leave_function w)
  leave_function-IsAfter v w h = record {
    outer = ap rest_of h.outer;
    classes = h.classes;
    entries = h.entries;
  }

  leave_class-IsAfter :
      (class_name : String) (bases body : Nodes) (v w : Visitor)
      → IsAfter underscore module_dotted path P (enter_class class_name bases body v) w
      → IsAfter underscore module_dotted path P v (leave_class w)
  unfolding enter_class
  leave_class-IsAfter class_name bases body v w h = record {
    outer = h.outer;
    classes = ap rest_of h.classes;
    entries = h.entries;
  }

  abbrev walk : Node → Visitor → Option Visitor
  walk node v = visit underscore module_dotted path node v

  abbrev walk_all : Nodes → Visitor → Option Visitor
  walk_all nodes v = visit_all underscore module_dotted path nodes v

  abbrev walk_keywords : Keywords → Visitor → Option Visitor
  walk_keywords keywords v = visit_keywords underscore module_dotted path keywords v

  -- To go on from a part of the walk, with what it has kept.
  go_on :
      (Q : Visitor → Type 0) (w : Visitor) (o : Option Visitor) (next : Visitor → Option Visitor)
      → Walks underscore module_dotted path P w o
      → ((x : Visitor) → IsAfter underscore module_dotted path P w x → Reaches Q (next x))
      → Reaches Q (o >>= next)
  go_on Q w o next (x, e, h) rest = let (y, f, k) = rest x h in (y, rw e f, k)

  mutual
    unfolding visit calls_of calls_of_all calls_of_keywords

    pub visit-Walks :
        (node : Node)
        → All P (calls_of node)
        → (v : Visitor) → Walks underscore module_dotted path P v (walk node v)
    visit-Walks (name id) c v = Walks-stay underscore module_dotted path P v
    visit-Walks (attribute value attr) c v = visit-Walks value c v
    visit-Walks (call func args keywords lineno) c v =
        let (c0, c1) = All-parts P (own_call func args lineno) _ c in
        let (c2, c3) = All-parts P (calls_of func) _ c1 in
        let (c4, c5) = All-parts P (calls_of_all args) (calls_of_keywords keywords) c3 in
        Walks->>= underscore module_dotted path P v
          (visit_call underscore module_dotted path func args keywords lineno v) _
          (Walks-visit_call underscore module_dotted path P func args keywords lineno c0 v)
          (λ v1.
            Walks->>= underscore module_dotted path P v1 (walk func v1) _ (visit-Walks func c2 v1)
              (λ v2.
                Walks->>= underscore module_dotted path P v2 (walk_all args v2)
                  (walk_keywords keywords) (visit_all-Walks args c4 v2)
                  (visit_keywords-Walks keywords c5)))
    visit-Walks (string_constant value) c v = Walks-stay underscore module_dotted path P v
    visit-Walks (class_def class_name bases keywords body others) c v =
        let (c0, c1) = All-parts P (calls_of_all bases) _ c in
        let (c2, c3) = All-parts P (calls_of_keywords keywords) _ c1 in
        let (c4, c5) = All-parts P (calls_of_all body) (calls_of_all others) c3 in
        let inside = enter_class class_name bases body v in
        go_on (IsAfter underscore module_dotted path P v) inside (walk_all bases inside) _
          (visit_all-Walks bases c0 inside)
          (λ v1 h1.
            go_on (IsAfter underscore module_dotted path P v) v1 (walk_keywords keywords v1) _
              (visit_keywords-Walks keywords c2 v1)
              (λ v2 h2.
                go_on (IsAfter underscore module_dotted path P v) v2 (walk_all body v2) _
                  (visit_all-Walks body c4 v2)
                  (λ v3 h3.
                    go_on (IsAfter underscore module_dotted path P v) v3 (walk_all others v3) _
                      (visit_all-Walks others c5 v3)
                      (λ v4 h4. (
                        leave_class v4,
                        refl,
                        leave_class-IsAfter class_name bases body v v4 (
                            IsAfter-trans underscore module_dotted path P inside v3 v4
                              (IsAfter-trans underscore module_dotted path P inside v2 v3
                                (IsAfter-trans underscore module_dotted path P inside v1 v2 h1 h2)
                                h3)
                              h4),
                      )))))
    visit-Walks (function_def function_name arguments body others) c v =
        let (c0, c1) = All-parts P (calls_of_all arguments) _ c in
        let (c2, c3) = All-parts P (calls_of_all body) (calls_of_all others) c1 in
        let inside = enter_function v in
        go_on (IsAfter underscore module_dotted path P v) inside (walk_all arguments inside) _
          (visit_all-Walks arguments c0 inside)
          (λ v1 h1.
            go_on (IsAfter underscore module_dotted path P v) v1 (walk_all body v1) _
              (visit_all-Walks body c2 v1)
              (λ v2 h2.
                go_on (IsAfter underscore module_dotted path P v) v2 (walk_all others v2) _
                  (visit_all-Walks others c3 v2)
                  (λ v3 h3. (
                    leave_function v3,
                    refl,
                    leave_function-IsAfter v v3 (
                        IsAfter-trans underscore module_dotted path P inside v2 v3
                          (IsAfter-trans underscore module_dotted path P inside v1 v2 h1 h2) h3),
                  ))))
    visit-Walks (assign targets value lineno) c v =
        let (c0, c1) = All-parts P (calls_of_all targets) (calls_of value) c in
        let bound = visit_assign underscore module_dotted path targets value lineno v in
        go_on (IsAfter underscore module_dotted path P v) bound (walk_all targets bound) _
          (visit_all-Walks targets c0 bound)
          (λ v1 h1.
            let (v2, e, h2) = visit-Walks value c1 v1 in
            (
              v2,
              e,
              IsAfter-trans underscore module_dotted path P v v1 v2
                  (IsAfter-trans underscore module_dotted path P v bound v1
                    (visit_assign-IsAfter underscore module_dotted path P targets value lineno v)
                    h1)
                  h2,
            ))
    visit-Walks (returns value) c v = visit-Walks value c v
    visit-Walks (expr value) c v = visit-Walks value c v
    visit-Walks (other children) c v = visit_all-Walks children c v

    visit_all-Walks :
        (nodes : Nodes)
        → All P (calls_of_all nodes)
        → (v : Visitor) → Walks underscore module_dotted path P v (walk_all nodes v)
    visit_all-Walks nil c v = Walks-stay underscore module_dotted path P v
    visit_all-Walks (cons node nodes) c v =
        let (c0, c1) = All-parts P (calls_of node) (calls_of_all nodes) c in
        Walks->>= underscore module_dotted path P v (walk node v) (walk_all nodes)
          (visit-Walks node c0 v) (visit_all-Walks nodes c1)

    visit_keywords-Walks :
        (keywords : Keywords)
        → All P (calls_of_keywords keywords)
        → (v : Visitor) → Walks underscore module_dotted path P v (walk_keywords keywords v)
    visit_keywords-Walks end c v = Walks-stay underscore module_dotted path P v
    visit_keywords-Walks (keyword arg value rest) c v =
        let (c0, c1) = All-parts P (calls_of value) (calls_of_keywords rest) c in
        Walks->>= underscore module_dotted path P v (walk value v) (walk_keywords rest)
          (visit-Walks value c0 v) (visit_keywords-Walks rest c1)

module _ (underscore : String → String) (module_dotted : String) (path : FilePath) where
  -- The walk over a function leaves the loggers of the enclosing scopes, also those of the scope in
  -- which the function stands, as they were: a logger that is bound in its body is not seen outside.
  pub function_scopes :
      (function_name : String) (arguments body others : Nodes) (v : Visitor)
      → (v' : Visitor) × (visit underscore module_dotted path
            (function_def function_name arguments body others)
            v
          ≡ some v')
        × (v'.scope_stack ≡ v.scope_stack)
  unfolding visit
  function_scopes function_name arguments body others v =
      let inside = enter_function v in
      let Any = λ (c : String × ℕ). Unit {0} in
      let Q = λ (x : Visitor). x.scope_stack ≡ v.scope_stack in
      let kept = λ (nodes : Nodes) (w : Visitor).
        visit_all-Walks underscore module_dotted path Any nodes
          (All_of_In Any (calls_of_all nodes) (λ _ _. tt)) w in
      let on = go_on underscore module_dotted path Any Q in
      on inside (visit_all underscore module_dotted path arguments inside) _ (kept arguments inside)
        (λ v1 h1. on v1 (visit_all underscore module_dotted path body v1) _ (kept body v1) (λ v2 h2.
          on v2 (visit_all underscore module_dotted path others v2) _ (kept others v2)
            (λ v3 h3. (leave_function v3, refl, h3.outer ∙ h2.outer ∙ h1.outer))))

  -- The scan of a module fails no assertion, and each of its entries comes from a call of a method in it with
  -- a text as the first argument: the method is one of emission, and is the level of the entry, and the
  -- line of the call in this file is its one location.
  pub get_event_entries_from_source-IsEmitted :
      (tree : Nodes)
      → (entries : List EventEntry) × (warnings : List Warning) × (get_event_entries_from_source
            underscore module_dotted path tree
          ≡ some (entries, warnings))
        × All (IsEmitted underscore module_dotted path (λ c. In c (calls_of_all tree))) entries
  unfolding get_event_entries_from_source
  get_event_entries_from_source-IsEmitted tree =
      let P = λ (c : String × ℕ). In c (calls_of_all tree) in
      let calls = All_of_In P (calls_of_all tree) (λ c i. i) in
      let (v, e, h) = visit_all-Walks underscore module_dotted path P tree calls new_visitor in
      (v.entries, v.warnings, rw (get_event_entries_from_source, e) refl, h.entries tt)
