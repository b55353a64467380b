-- ===== src/CommandLine/Prepared.antt =====
-- The proofs on the environment variables after ensure_cli_env.
use flagsmith_common.Base.{
  ◌≡◌, refl, sym, ap, subst, ◌∙◌, inl, inr, Bool, true, false, ◌&&◌, String, Option, none, some,
  List, [], ◌∷◌, if◌then◌else◌, str_eq, eq_iff, arith, Bool-cases, Option-cases,
}
use flagsmith_common.Base.Sets.{member}
use flagsmith_common.Base.Dict.{Dict, find, put_default, find-put}
use flagsmith_common.CommandLine.Environment.{
  World, Logging, str, if_set, flag_if, prepare_environ, with_multiproc_dir, optional_telemetry,
  ensure_cli_env,
}

-- How the variables stand after the start of the program with the arguments.
pub record IsPrepared (argv : List String) (before after : Dict String) : Type 0 where
  pub run_by_processor : find "RUN_BY_PROCESSOR" after ≡ (
      if member str_eq "task-processor" argv then some "true" else find "RUN_BY_PROCESSOR" before)
  pub docgen_mode :
      find "DOCGEN_MODE" after
      ≡ (if member str_eq "docgen" argv then some "true" else find "DOCGEN_MODE" before)
  pub settings_module :
      find "DJANGO_SETTINGS_MODULE" after
      ≡ some (str before "DJANGO_SETTINGS_MODULE" "settings.dev")
  pub kept :
      (name : String)
      → member str_eq name (
          "RUN_BY_PROCESSOR" ∷ "DOCGEN_MODE" ∷ "DJANGO_SETTINGS_MODULE" ∷ "PROMETHEUS_MULTIPROC_DIR"
          ∷ [])
        ≡ false
      → find name after ≡ find name before

find-flag_if :
    (key name : String) (holds : Bool) (d : Dict String)
    → find key (flag_if holds name d)
      ≡ (if holds && str_eq name key then some "true" else find key d)
find-flag_if key name true d = find-put key name "true" d
find-flag_if key name false d = refl

find-put_default :
    (key name value : String) (d : Dict String)
    → find key (put_default name value d)
      ≡ (if str_eq name key then some (str d name value) else find key d)
find-put_default key name value d = elim (Option-cases (find name d)) [
  | inl e ↦ rw (put_default, str, e) (find-put key name value d)
  | inr (old, e) ↦
      rw (put_default, str, e)
        (elim (Bool-cases (str_eq name key)) [
          | inl f ↦ rw f (ap (λ k. find k d) (sym ((eq_iff name key).0 f)) ∙ e)
          | inr f ↦ rw f refl
        ])
]

find-with_multiproc_dir :
    (temporary key : String) (d : Dict String)
    → str_eq "PROMETHEUS_MULTIPROC_DIR" key ≡ false
    → find key (with_multiproc_dir temporary d) ≡ find key d
find-with_multiproc_dir temporary key d other =
    elim (Option-cases (if_set (find "PROMETHEUS_MULTIPROC_DIR" d))) [
      | inl e ↦
          rw (with_multiproc_dir, e, find-put key "PROMETHEUS_MULTIPROC_DIR" temporary d, other)
            refl
      | inr (value, e) ↦ rw (with_multiproc_dir, e) refl
    ]

find-prepare_environ :
    (key : String) (argv : List String) (d : Dict String)
    → find key (prepare_environ argv d) ≡ (
        if member str_eq "task-processor" argv && str_eq "RUN_BY_PROCESSOR" key
        then some "true"
        else if member str_eq "docgen" argv && str_eq "DOCGEN_MODE" key
        then some "true"
        else if str_eq "DJANGO_SETTINGS_MODULE" key
        then some (str d "DJANGO_SETTINGS_MODULE" "settings.dev")
        else find key d)
unfolding prepare_environ
find-prepare_environ key argv d =
    let first = put_default "DJANGO_SETTINGS_MODULE" "settings.dev" d in
    let second = flag_if (member str_eq "docgen" argv) "DOCGEN_MODE" first in
    rw
      (
        find-flag_if key "RUN_BY_PROCESSOR" (member str_eq "task-processor" argv) second,
        find-flag_if key "DOCGEN_MODE" (member str_eq "docgen" argv) first,
        find-put_default key "DJANGO_SETTINGS_MODULE" "settings.dev" d,
      )
      refl

find-prepared :
    (temporary key : String) (argv : List String) (d : Dict String)
    → str_eq "PROMETHEUS_MULTIPROC_DIR" key ≡ false
    → find key (with_multiproc_dir temporary (prepare_environ argv d))
      ≡ find key (prepare_environ argv d)
find-prepared temporary key argv d other =
    find-with_multiproc_dir temporary key (prepare_environ argv d) other

prepare_environ-IsPrepared :
    (temporary : String) (argv : List String) (d : Dict String)
    → IsPrepared argv d (with_multiproc_dir temporary (prepare_environ argv d))
prepare_environ-IsPrepared temporary argv d = record {
  run_by_processor =
      find-prepared temporary "RUN_BY_PROCESSOR" argv d refl
      ∙ find-prepare_environ "RUN_BY_PROCESSOR" argv d
      ∙ ground arith;
  docgen_mode =
      find-prepared temporary "DOCGEN_MODE" argv d refl
      ∙ find-prepare_environ "DOCGEN_MODE" argv d
      ∙ ground arith;
  settings_module =
      find-prepared temporary "DJANGO_SETTINGS_MODULE" argv d refl
      ∙ find-prepare_environ "DJANGO_SETTINGS_MODULE" argv d
      ∙ ground arith;
  kept = λ name other.
      find-prepared temporary name argv d (ground arith)
      ∙ find-prepare_environ name argv d
      ∙ ground arith;
}

environ_of : Option (World × Logging) → Dict String
environ_of none = []
environ_of (some (world, logging)) = world.environ

-- At the start, RUN_BY_PROCESSOR is set if one of the arguments is task-processor, and DOCGEN_MODE if one is
-- docgen; DJANGO_SETTINGS_MODULE has its value, or else settings.dev; and no other variable is changed, but
-- for PROMETHEUS_MULTIPROC_DIR.
pub ensure_cli_env-IsPrepared :
    (cwd temporary : String) (items : String → List String) (argv : List String)
    (world world' : World) (logging : Logging)
    → ensure_cli_env cwd temporary items argv world ≡ some (world', logging)
    → IsPrepared argv world.environ world'.environ
unfolding ensure_cli_env environ_of
ensure_cli_env-IsPrepared cwd temporary items argv world world' logging h =
    let environ = prepare_environ argv world.environ in
    elim (Option-cases
      (optional_telemetry argv environ (if_set (find "OTEL_EXPORTER_OTLP_ENDPOINT" environ)))) [
        | inl e ↦ let k = rw (ensure_cli_env, e) at h in absurd (cc)
        | inr (telemetry, e) ↦
            let k = rw (ensure_cli_env, e) at h in
            subst (IsPrepared argv world.environ) (ap environ_of k)
              (prepare_environ-IsPrepared temporary argv world.environ)
      ]
