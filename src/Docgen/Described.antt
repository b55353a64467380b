-- ===== src/Docgen/Described.antt =====
-- The targets of emissions that _describe_emit_target has a description for.
use flagsmith_common.Base.{ℕ, ◌≡◌, refl, inl, inr, String, Option, none, some, arith, Option-cases}
use flagsmith_common.Base.Text.{concat}
use flagsmith_common.Docgen.Syntax.{Node, name, attribute, call, Nodes, Keywords}
use flagsmith_common.Docgen.Scopes.{
  LoggerScope, Scope, class_accessor, scope_for_emit_target, self_cls_accessor_name,
  describe_emit_target,
}

-- A target has a description.
abbrev pub IsDescribed : Node → Type 0
IsDescribed target = (text : String) × (describe_emit_target target ≡ some text)

describe-attribute :
    (value : Node) (attr : String) → IsDescribed value → IsDescribed (attribute value attr)
unfolding describe_emit_target
describe-attribute value attr (text, e) = (concat text (concat "." attr), rw e refl)

describe-call :
    (value : Node) (attr : String) (args : Nodes) (keywords : Keywords) (lineno : ℕ)
    → IsDescribed value
    → IsDescribed (call (attribute value attr) args keywords lineno)
unfolding describe_emit_target
describe-call value attr args keywords lineno (text, e) =
    (concat text (concat "." (concat attr "(...)")), rw e refl)

accessor-value :
    (classes : Option Scope) (value : Node) (attr : String) (scope : LoggerScope)
    → class_accessor classes value attr ≡ some scope
    → IsDescribed value
unfolding describe_emit_target
accessor-value none value attr scope h = cc
accessor-value (some classes) (name id) attr scope h = (id, refl)
accessor-value (some classes) _ attr scope h = cc

-- A target that stands for a logger has a description: no assertion fails on it.
pub scope-IsDescribed :
    (scopes : Scope) (classes : Option Scope) (target : Node) (scope : LoggerScope)
    → scope_for_emit_target scopes classes target ≡ some scope
    → IsDescribed target
unfolding scope_for_emit_target describe_emit_target
scope-IsDescribed scopes classes (name id) scope h = (id, refl)
scope-IsDescribed scopes classes (attribute value attr) scope h =
    describe-attribute value attr (accessor-value classes value attr scope h)
scope-IsDescribed scopes classes (call (attribute value attr) args keywords lineno) scope h =
    elim (Option-cases (class_accessor classes value attr)) [
      | inr (found, e) ↦
          describe-call value attr args keywords lineno (accessor-value classes value attr found e)
      | inl e ↦ elim (Option-cases (scope_for_emit_target scopes classes value)) [
        | inr (parent, p) ↦
            describe-call value attr args keywords lineno
              (scope-IsDescribed scopes classes value parent p)
        | inl p ↦ absurd (let h' = rw (scope_for_emit_target, e, p) at h in ground (arith, h'))
      ]
    ]
scope-IsDescribed scopes classes _ scope h = cc

pub accessor-IsDescribed :
    (target : Node) (accessor_name : String)
    → self_cls_accessor_name target ≡ some accessor_name
    → IsDescribed target
unfolding describe_emit_target
accessor-IsDescribed (attribute (name id) attr) accessor_name h =
    describe-attribute (name id) attr (id, refl)
accessor-IsDescribed (call (attribute (name id) attr) args keywords lineno) accessor_name h =
    describe-call (name id) attr args keywords lineno (id, refl)
accessor-IsDescribed _ accessor_name h = cc
