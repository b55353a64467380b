-- ===== src/Schemas/Compression.antt =====
-- The proofs on the documents of environments that are accepted, compressed ones too.
use flagsmith_common.Base.{
  ◌≡◌, refl, ◌↔◌, ◌≢◌, Bool, true, false, Option, none, some, List, All, All-map,
}
use flagsmith_common.Validators.{Validated, valid}
use flagsmith_common.Schemas.Types.{Value, DynamoFeatureValue}
use flagsmith_common.Schemas.Dynamodb.{FeatureState, Segment, Project}
use flagsmith_common.Schemas.Environments.{EnvironmentBaseFields, EnvironmentData, Document}
use flagsmith_common.Schemas.Validation.{
  ◌>>=◌, Conversions, validate_each, validate_optional, validate_feature_state,
  validate_feature_states, validate_segment, validate_project, validate_base_fields,
  validate_literal_false, validate_literal_true, validate_environment, Gzip,
  validate_environment_compressed,
}
use flagsmith_common.Schemas.Acceptance.{
  Accepts, IfGiven, IfGiven-map, bind-parts, bind-Accepts, validate_each-Accepts,
  validate_optional-Accepts,
}
use flagsmith_common.Schemas.States.{IsValidState, validate_state-Accepts}

-- Four validations one behind the other accept exactly if each of them does.
four-Accepts :
    {A B C D E : Type 0} (a : Validated A) (b : Validated B) (c : Validated C) (d : Validated D)
    (answer : A → B → C → D → E)
    → Accepts (a >>= (λ x. b >>= (λ y. c >>= (λ z. d >>= (λ w. valid (answer x y z w))))))
      ↔ (Accepts a × Accepts b × Accepts c × Accepts d)
four-Accepts a b c d answer = (
  λ h.
      let (x, e, h1) = bind-parts a _ h in
      let (y, e1, h2) = bind-parts b _ h1 in
      let (z, e2, h3) = bind-parts c _ h2 in
      let (w, e3, h4) = bind-parts d _ h3 in ((x, e), (y, e1), (z, e2), (w, e3)),
  λ (p, q, r, s). bind-Accepts a _ p (λ x e.
      bind-Accepts b _ q
        (λ y e1. bind-Accepts c _ r (λ z e2. bind-Accepts d _ s (λ w e3. (_, refl))))),
)

validate_literal_false-Accepts :
    (flag : Option Bool)
    → Accepts (validate_optional validate_literal_false flag) ↔ (flag ≢ some true)
unfolding validate_literal_false
validate_literal_false-Accepts none = (λ h e. absurd (cc), λ h. (_, refl))
validate_literal_false-Accepts (some true) = (λ (x, e) f. absurd (cc), λ h. absurd (h refl))
validate_literal_false-Accepts (some false) = (λ h e. absurd (cc), λ h. (_, refl))

validate_literal_true-Accepts :
    (flag : Option Bool) → Accepts (validate_literal_true flag) ↔ (flag ≡ some true)
unfolding validate_literal_true
validate_literal_true-Accepts none = (λ (x, e). absurd (cc), λ h. absurd (cc))
validate_literal_true-Accepts (some true) = (λ h. refl, λ h. (_, refl))
validate_literal_true-Accepts (some false) = (λ (x, e). absurd (cc), λ h. absurd (cc))

module _ (c : Conversions) where
  abbrev pub IsValidSegment : {Rule : Type 0} → Segment Rule Value → Type 0
  IsValidSegment segment = IfGiven (λ states. All (IsValidState c) states) segment.feature_states

  -- What a document needs whether it is compressed or not.
  abbrev pub IsValidDocument : {Rule Keys : Type 0} → Document (EnvironmentData Rule) Keys → Type 0
  IsValidDocument document =
      All IsValidSegment document.data_fields.project.segments
      × All (IsValidState c) document.data_fields.feature_states
      × IfGiven (λ time. IfGiven (λ t. Accepts (c.validate_datetime t)) time)
          document.base_fields.updated_at

  validate_states-Accepts :
      (states : List (FeatureState Value))
      → Accepts (validate_feature_states c states) ↔ All (IsValidState c) states
  unfolding validate_feature_states
  validate_states-Accepts states =
      let each = validate_each-Accepts (validate_feature_state c) states in
      (
        λ h. All-map (λ s. (validate_state-Accepts c s).0) states (each.0 h),
        λ h. each.1 (All-map (λ s. (validate_state-Accepts c s).1) states h),
      )

  validate_segment-Accepts :
      {Rule : Type 0} (segment : Segment Rule Value)
      → Accepts (validate_segment c segment) ↔ IsValidSegment segment
  unfolding validate_segment
  validate_segment-Accepts segment =
      let states = validate_optional-Accepts (validate_feature_states c) segment.feature_states in
      (
        λ h.
            let (s, e, h') =
              bind-parts (validate_optional (validate_feature_states c) segment.feature_states) _
                h in
            IfGiven-map (λ x. (validate_states-Accepts x).0) segment.feature_states
              (states.0 (s, e)),
        λ h.
            bind-Accepts (validate_optional (validate_feature_states c) segment.feature_states) _
              (states.1 (IfGiven-map (λ x. (validate_states-Accepts x).1) segment.feature_states h))
              (λ s e. (_, refl)),
      )

  validate_project-Accepts :
      {Rule : Type 0} (project : Project Rule Value)
      → Accepts (validate_project c project) ↔ All IsValidSegment project.segments
  unfolding validate_project
  validate_project-Accepts project =
      let each = validate_each-Accepts (validate_segment c) project.segments in
      (
        λ h.
            let (s, e, h') = bind-parts (validate_each (validate_segment c) project.segments) _ h in
            All-map (λ x. (validate_segment-Accepts x).0) project.segments (each.0 (s, e)),
        λ h.
            bind-Accepts (validate_each (validate_segment c) project.segments) _
              (each.1 (All-map (λ x. (validate_segment-Accepts x).1) project.segments h))
              (λ s e. (_, refl)),
      )

  validate_base_fields-Accepts :
      (base : EnvironmentBaseFields)
      → Accepts (validate_base_fields c base)
        ↔ IfGiven (λ time. IfGiven (λ t. Accepts (c.validate_datetime t)) time) base.updated_at
  unfolding validate_base_fields
  validate_base_fields-Accepts base =
      let time =
        validate_optional-Accepts (validate_optional c.validate_datetime) base.updated_at in
      (
        λ h.
            let (t, e, h') =
              bind-parts (validate_optional (validate_optional c.validate_datetime) base.updated_at)
                _ h in
            IfGiven-map (λ x. (validate_optional-Accepts c.validate_datetime x).0) base.updated_at
              (time.0 (t, e)),
        λ h.
            bind-Accepts (validate_optional (validate_optional c.validate_datetime) base.updated_at)
              _
              (time.1 (
                IfGiven-map (λ x. (validate_optional-Accepts c.validate_datetime x).1)
                  base.updated_at h))
              (λ t e. (_, refl)),
      )

  module _ {Rule Keys Json Bytes : Type 0}
      (g : Gzip
        (Project Rule DynamoFeatureValue)
        (List (FeatureState DynamoFeatureValue))
        Json
        Bytes)
      (document : Document (EnvironmentData Rule) Keys) where
    parts-IsValidDocument :
        (Accepts (validate_project c document.data_fields.project)
          × Accepts (validate_feature_states c document.data_fields.feature_states)
          × Accepts (validate_base_fields c document.base_fields))
        ↔ IsValidDocument document
    parts-IsValidDocument =
        let project = validate_project-Accepts document.data_fields.project in
        let states = validate_states-Accepts document.data_fields.feature_states in
        let base = validate_base_fields-Accepts document.base_fields in
        (
          λ (p, s, b). (project.0 p, states.0 s, base.0 b),
          λ (p, s, b). (project.1 p, states.1 s, base.1 b),
        )

    -- From uncompressed data, a document is accepted as a compressed one exactly if its flag is True, and as
    -- one that is not compressed exactly if its flag is not, and if the rest is valid, which is the same
    -- for both: the states of features, those of the segments too, have no text of more than 20000
    -- characters, no UUID that is not one, and no percentages above 100 in sum, and updated_at is a
    -- time, if it is given.
    pub validate_environment_iff :
        (Accepts (validate_environment c document)
          ↔ ((document.data_fields.compressed ≢ some true) × IsValidDocument document))
        × (Accepts (validate_environment_compressed c g document)
            ↔ ((document.data_fields.compressed ≡ some true) × IsValidDocument document))
    unfolding validate_environment validate_environment_compressed
    validate_environment_iff =
        let flag = document.data_fields.compressed in
        let plain = validate_literal_false-Accepts flag in
        let compressed = validate_literal_true-Accepts flag in
        let project = validate_project c document.data_fields.project in
        let states = validate_feature_states c document.data_fields.feature_states in
        let base = validate_base_fields c document.base_fields in
        let four =
          four-Accepts project states base (validate_optional validate_literal_false flag) _ in
        let four' = four-Accepts project states base (validate_literal_true flag) _ in
        let (there, back) = parts-IsValidDocument in
        (
          (
            λ h. let (p, s, b, f) = four.0 h in (plain.0 f, there (p, s, b)),
            λ (f, h). let (p, s, b) = back h in four.1 (p, s, b, plain.1 f),
          ),
          (
            λ h. let (p, s, b, f) = four'.0 h in (compressed.0 f, there (p, s, b)),
            λ (f, h). let (p, s, b) = back h in four'.1 (p, s, b, compressed.1 f),
          ),
        )
