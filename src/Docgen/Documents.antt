-- ===== src/Docgen/Documents.antt =====
-- The proofs on the command over all applications, from the files to the document.
use flagsmith_common.Base.{
  ◌≡◌, refl, subst, inl, inr, true, String, some, List, [], ◌∷◌, ◌++◌, map, str_eq, Bool-cases, All,
  All-map, All-append,
}
use flagsmith_common.Base.Text.{codes}
use flagsmith_common.Base.Order.{IsOrdered, order_by, order_by-IsOrdered, All-order_by}
use flagsmith_common.Base.Sets.{member}
use flagsmith_common.Docgen.Syntax.{Nodes}
use flagsmith_common.Docgen.Scopes.{emit_method_names}
use flagsmith_common.Docgen.Visitor.{FilePath, EventEntry, Warning}
use flagsmith_common.Docgen.Walks.{get_event_entries_from_source-IsEmitted}
use flagsmith_common.Docgen.Merging.{IsMergeOf, first_level, merge_event_entries-IsMergeOf}
use flagsmith_common.Docgen.Located.{IsLocated, merge_event_entries-IsLocated}
use flagsmith_common.Docgen.Files.{
  SourceFile, should_skip, module_dotted, file_path, path_key, Scanned, and_then, scan_file,
  scan_files, get_event_entries_from_tree, AppConfig, DocumentedEvent, documented_event, scan_apps,
  handle_events,
}

All_over_map {κ} :
    {A B : Type 0} (f : A → B) (P : B → Type κ) (xs : List A)
    → All (λ x. P (f x)) xs
    → All P (map f xs)
All_over_map f P [] h = tt
All_over_map f P (x ∷ xs) h = (h.0, All_over_map f P xs h.1)

-- An entry at a location, of the level of an emission method.
pub record IsFound (entry : EventEntry) : Type 0 where
  pub emitted : member str_eq entry.level emit_method_names ≡ true
  pub located : IsLocated entry

-- Nothing is raised, and what is found is of the right form.
abbrev Finds : Scanned → Type 0
Finds o = (es : List EventEntry) × (ws : List Warning) × (o ≡ some (es, ws)) × All IsFound es

-- `ast.parse` accepts the file.
abbrev pub IsParsed : SourceFile → Type 0
IsParsed file = (tree : Nodes) × (file.tree ≡ some tree)

and_then-Finds : (o o' : Scanned) → Finds o → Finds o' → Finds (and_then o o')
and_then-Finds o o' (es, ws, e, h) (es', ws', e', h') =
    (es ++ es', ws ++ ws', rw (e, e') refl, All-append IsFound es es' h h')

module _ (underscore : String → String) where
  scan_file-Finds :
      (root : FilePath) (module_prefix : String) (file : SourceFile)
      → IsParsed file
      → Finds (scan_file underscore root module_prefix file)
  unfolding scan_file
  scan_file-Finds root module_prefix file (tree, p) =
      let (es, ws, e, h) =
        get_event_entries_from_source-IsEmitted underscore (module_dotted module_prefix file)
          (file_path root file) tree in
      (
        es,
        ws,
        rw (scan_file, p) e,
        All-map (λ x i. record { emitted = i.emitted; located = (_, [], i.here) }) es h,
      )

  scan_files-Finds :
      (root : FilePath) (app_label module_prefix : String) (files : List SourceFile)
      → All IsParsed files
      → Finds (scan_files underscore root app_label module_prefix files)
  unfolding scan_files
  scan_files-Finds root app_label module_prefix [] h = ([], [], refl, tt)
  scan_files-Finds root app_label module_prefix (file ∷ files) h =
      let rest = scan_files-Finds root app_label module_prefix files h.1 in
      elim (Bool-cases (should_skip file app_label)) [
        | inl e ↦ rw e rest
        | inr e ↦ rw e (and_then-Finds _ _ (scan_file-Finds root module_prefix file h.0) rest)
      ]

  scan_apps-Finds :
      (app_configs : List AppConfig)
      → All (λ app_config. All IsParsed app_config.files) app_configs
      → Finds (scan_apps underscore app_configs)
  unfolding scan_apps get_event_entries_from_tree
  scan_apps-Finds [] h = ([], [], refl, tt)
  scan_apps-Finds (app ∷ apps) h =
      and_then-Finds _ _
        (scan_files-Finds app.path app.label app.name (order_by path_key app.files)
          (All-order_by path_key IsParsed app.files h.0))
        (scan_apps-Finds apps h.1)

All-first_level :
    (P : String → Type 0) (event level : String) (es : List EventEntry)
    → All (λ e. P e.level) es
    → first_level event es ≡ some level
    → P level
All-first_level P event level [] h e = absurd (cc)
All-first_level P event level (x ∷ es) h e = elim (Bool-cases (str_eq x.name event)) [
  | inl f ↦ let k = rw f at e in let i : x.level ≡ level = cc in subst P i h.0
  | inr f ↦ All-first_level P event level es h.1 (rw f at e)
]

-- A document of events that tells what is in the entries.
pub record IsDocument (repo_root : FilePath) (entries : List EventEntry)
    (events : List DocumentedEvent) : Type 0 where
  pub merged : List EventEntry
  pub merges : IsMergeOf entries merged
  pub rendered : events ≡ map (documented_event repo_root) merged
  pub levels : All (λ d. member str_eq d.level emit_method_names ≡ true) events
  pub sorted : All (λ d. IsOrdered codes d.attributes) events

module _ (underscore : String → String) where
  -- If every file of the applications parses, the command raises nothing, and it documents each event
  -- name found in them once, in the order of the names, with the attributes and locations of all entries
  -- of that name, the level of the first one, which is an emission method, and the attributes in order.
  pub handle_events-IsDocument :
      (repo_root : FilePath) (app_configs : List AppConfig)
      → All (λ app_config. All IsParsed app_config.files) app_configs
      → (entries : List EventEntry) × (found later : List Warning) × (events : List DocumentedEvent)
        × (scan_apps underscore app_configs ≡ some (entries, found))
        × (handle_events underscore repo_root app_configs ≡ some (events, found ++ later))
        × IsDocument repo_root entries events
  unfolding handle_events
  handle_events-IsDocument repo_root app_configs parsed =
      let (entries, found, e, h) = scan_apps-Finds underscore app_configs parsed in
      let (merged, later, f) =
        merge_event_entries-IsLocated entries (All-map (λ x i. i.located) entries h) in
      let merges = merge_event_entries-IsMergeOf entries merged later f in
      (
        entries,
        found,
        later,
        map (documented_event repo_root) merged,
        e,
        rw (handle_events, e, f) refl,
        record {
          merged = merged;
          merges = merges;
          rendered = refl;
          levels =
              All_over_map (documented_event repo_root)
                (λ d. member str_eq d.level emit_method_names ≡ true) merged
                (All-map
                  (λ x i.
                    All-first_level (λ l. member str_eq l emit_method_names ≡ true) x.name x.level
                      entries (All-map (λ y k. k.emitted) entries h) i)
                  merged merges.levels);
          sorted =
              All_over_map (documented_event repo_root) (λ d. IsOrdered codes d.attributes) merged
                (All-map (λ x i. order_by-IsOrdered codes x.attributes) merged merges.levels);
        },
      )
