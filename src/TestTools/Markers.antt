-- ===== src/TestTools/Markers.antt =====
-- The proofs on the fixtures that a test is given by its markers.
use flagsmith_common.Base.{
  ◌≡◌, refl, sym, subst, ◌∙◌, inl, inr, Bool, true, false, ◌||◌, String, Option, none, some, List,
  [], ◌∷◌, Bool-cases, arith, if◌then◌else◌, str_eq, eq_refl,
}
use flagsmith_common.Base.Text.{str_eq-≡}
use flagsmith_common.Base.Sets.{member, add, any-append}
use flagsmith_common.TestTools.Editions.{
  Process, saas_deployment, enterprise_version, exists, create_file, get_saas_mode,
  get_enterprise_mode, mark, flagsmith_markers_marked,
}
use flagsmith_common.TestTools.Calls.{IsReady}

member-add : (x : String) (xs : List String) → member str_eq x (add str_eq x xs) ≡ true
member-add x xs = elim (Bool-cases (member str_eq x xs)) [
  | inl e ↦ rw (e, e) refl
  | inr e ↦ rw (e, any-append (λ y. str_eq y x) xs (x ∷ []), e, eq_refl x) refl
]

-- A file that is not the other one.
member-add-other :
    (x y : String) (xs : List String)
    → str_eq y x ≡ false
    → member str_eq x (add str_eq y xs) ≡ member str_eq x xs
member-add-other x y xs d = elim (Bool-cases (member str_eq y xs)) [
  | inl e ↦ rw e refl
  | inr e ↦ rw (e, any-append (λ z. str_eq z x) xs (y ∷ []), d) (ground arith)
]

exists-create_file : (path : String) (p : Process) → exists path (create_file path p) ≡ true
exists-create_file path p = go p.fake_files refl
  where
    go : (f : Option (List String)) → p.fake_files ≡ f → exists path (create_file path p) ≡ true
    go none q = rw (q, eq_refl path) refl
    go (some fake) q = rw (q, member-add path fake) refl

exists-create_file-other :
    (x y : String) (p : Process)
    → str_eq y x ≡ false
    → member str_eq x p.files ≡ false
    → exists x (create_file y p) ≡ exists x p
exists-create_file-other x y p d r = go p.fake_files refl
  where
    go : (f : Option (List String)) → p.fake_files ≡ f → exists x (create_file y p) ≡ exists x p
    go none q = rw (q, d, r) refl
    go (some fake) q = rw (q, member-add-other x y fake d) refl

get_saas_mode-IsReady :
    (s e : Bool) (p : Process) → IsReady s e p → IsReady true e (get_saas_mode p)
unfolding get_saas_mode
get_saas_mode-IsReady s e p h = elim (Bool-cases p.has_saas_mode) [
  | inl q ↦ simp (get_saas_mode, q) (subst (λ b. IsReady b e p) (sym h.saas_set_up ∙ q) h)
  | inr q ↦
      rw (get_saas_mode, q)
        (record {
          saas_file =
              exists-create_file saas_deployment
                (record p { is_saas_cache = none; has_saas_mode = true });
          enterprise_file =
              exists-create_file-other enterprise_version saas_deployment
                (record p { is_saas_cache = none; has_saas_mode = true }) refl h.real_enterprise
              ∙ h.enterprise_file;
          saas_cached = inl refl;
          enterprise_cached = h.enterprise_cached;
          saas_set_up = refl;
          enterprise_set_up = h.enterprise_set_up;
          real_saas = h.real_saas;
          real_enterprise = h.real_enterprise;
        })
]

get_enterprise_mode-IsReady :
    (s e : Bool) (p : Process) → IsReady s e p → IsReady s true (get_enterprise_mode p)
unfolding get_enterprise_mode
get_enterprise_mode-IsReady s e p h = elim (Bool-cases p.has_enterprise_mode) [
  | inl q ↦
      simp (get_enterprise_mode, q) (subst (λ b. IsReady s b p) (sym h.enterprise_set_up ∙ q) h)
  | inr q ↦
      rw (get_enterprise_mode, q)
        (record {
          saas_file =
              exists-create_file-other saas_deployment enterprise_version
                (record p { is_enterprise_cache = none; has_enterprise_mode = true }) refl
                h.real_saas
              ∙ h.saas_file;
          enterprise_file =
              exists-create_file enterprise_version
                (record p { is_enterprise_cache = none; has_enterprise_mode = true });
          saas_cached = h.saas_cached;
          enterprise_cached = inl refl;
          saas_set_up = h.saas_set_up;
          enterprise_set_up = refl;
          real_saas = h.real_saas;
          real_enterprise = h.real_enterprise;
        })
]

or_true : (b : Bool) → (b || true) ≡ true
or_true b = ground arith

or_false : (b : Bool) → (b || false) ≡ b
or_false b = ground arith

or-if : (a b c : Bool) → (a || (if b then true else c)) ≡ ((a || b) || c)
or-if a b c = ground arith

mark-IsReady :
    (marker : String) (s e : Bool) (p : Process)
    → IsReady s e p
    → IsReady
        (s || str_eq marker "saas_mode")
        (e || str_eq marker "enterprise_mode")
        (mark marker p)
unfolding mark
mark-IsReady marker s e p h = elim (Bool-cases (str_eq marker "saas_mode")) [
  | inl q ↦
      rw (mark, q, str_eq-≡ marker "saas_mode" q)
        (rw (or_true s, or_false e) (get_saas_mode-IsReady s e p h))
  | inr q ↦ elim (Bool-cases (str_eq marker "enterprise_mode")) [
    | inl r ↦ rw (mark, q, r) (rw (or_false s, or_true e) (get_enterprise_mode-IsReady s e p h))
    | inr r ↦ rw (mark, q, r) (rw (or_false s, or_false e) h)
  ]
]

pub flagsmith_markers_marked-IsReady :
    (markers : List String) (s e : Bool) (p : Process)
    → IsReady s e p
    → IsReady
        (s || member str_eq "saas_mode" markers)
        (e || member str_eq "enterprise_mode" markers)
        (flagsmith_markers_marked markers p)
unfolding flagsmith_markers_marked
flagsmith_markers_marked-IsReady [] s e p h = rw (or_false s, or_false e) h
flagsmith_markers_marked-IsReady (marker ∷ markers) s e p h =
    rw
      (
        or-if s (str_eq marker "saas_mode") (member str_eq "saas_mode" markers),
        or-if e (str_eq marker "enterprise_mode") (member str_eq "enterprise_mode" markers),
      )
      (flagsmith_markers_marked-IsReady markers _ _ (mark marker p) (mark-IsReady marker s e p h))
