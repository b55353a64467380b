-- ===== src/Docgen/Located.antt =====
-- The lemmas on merge_event_entries for entries with a location: no IndexError.
use flagsmith_common.Base.{◌≡◌, refl, inl, inr, some, List, [], ◌∷◌, ◌++◌, str_eq, Bool-cases, All}
use flagsmith_common.Base.Order.{order_by}
use flagsmith_common.Base.Sets.{union, union-first}
use flagsmith_common.Docgen.Visitor.{SourceLocation, EventEntry, Warning, diverging_levels}
use flagsmith_common.Docgen.Merge.{
  same_location, combine, merge_into, level_warnings, merge_all, merge_event_entries, name_key,
}
use flagsmith_common.Docgen.Merging.{All-merge_into}

-- An entry with a location.
abbrev pub IsLocated : EventEntry → Type 0
IsLocated e =
    (location : SourceLocation) × (locations : List SourceLocation) × (e.locations
      ≡ location ∷ locations)

level_warnings-IsLocated :
    (e : EventEntry) (acc : List EventEntry)
    → IsLocated e
    → All IsLocated acc
    → (ws : List Warning) × (level_warnings e acc ≡ some ws)
unfolding level_warnings
level_warnings-IsLocated e [] k h = ([], refl)
level_warnings-IsLocated e (x ∷ acc) (l, ls, k) (h, hs) =
    let (l', ls', k') = h in
    let (ws, f) = level_warnings-IsLocated e acc (l, ls, k) hs in
    elim (Bool-cases (str_eq x.name e.name)) [
      | inl p ↦ elim (Bool-cases (str_eq e.level x.level)) [
        | inl q ↦ ([], rw (level_warnings, p, q) refl)
        | inr q ↦ (
          diverging_levels e.name x.level l' e.level l ∷ [],
          rw (level_warnings, p, q, k, k') refl,
        )
      ]
      | inr p ↦ (ws, rw p f)
    ]

union-IsLocated : (x e : EventEntry) → IsLocated x → IsLocated (combine x e)
unfolding combine union
union-IsLocated x e (l, ls, k) =
    let (zs, f) = union-first same_location l ls e.locations in (l, zs, rw k f)

merge_all-IsLocated :
    (es acc : List EventEntry)
    → All IsLocated es
    → All IsLocated acc
    → (m : List EventEntry) × (ws : List Warning) × (merge_all es acc ≡ some (m, ws))
unfolding merge_all
merge_all-IsLocated [] acc h k = (acc, [], refl)
merge_all-IsLocated (e ∷ es) acc h k =
    let (ws, f) = level_warnings-IsLocated e acc h.0 k in
    let (m, ws', g) =
      merge_all-IsLocated es (merge_into e acc) h.1
        (All-merge_into IsLocated e (λ x. union-IsLocated x e) h.0 acc k) in
    (m, ws ++ ws', rw (merge_all, f, g) refl)

pub merge_event_entries-IsLocated :
    (entries : List EventEntry)
    → All IsLocated entries
    → (merged : List EventEntry) × (warnings : List Warning) × (merge_event_entries entries
        ≡ some (merged, warnings))
unfolding merge_event_entries
merge_event_entries-IsLocated entries h =
    let (m, ws, e) = merge_all-IsLocated entries [] h tt in
    (order_by name_key m, ws, rw (merge_event_entries, e) refl)
