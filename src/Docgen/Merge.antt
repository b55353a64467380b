-- ===== src/Docgen/Merge.antt =====
-- merge_event_entries: one entry for each event name.
use flagsmith_common.Base.{
  ℕ, Bool, true, false, ◌&&◌, Option, none, some, List, [], ◌∷◌, ◌++◌, str_eq, ◌==◌, if◌then◌else◌,
}
use flagsmith_common.Base.Text.{codes}
use flagsmith_common.Base.Order.{order_by}
use flagsmith_common.Base.Sets.{union}
use flagsmith_common.Docgen.Visitor.{
  FilePath, SourceLocation, EventEntry, Warning, diverging_levels,
}

unfoldable pub same_path : FilePath → FilePath → Bool
same_path [] [] = true
same_path (part ∷ parts) (part' ∷ parts') =
    let rest = same_path parts parts' in if str_eq part part' then rest else false
same_path _ _ = false

abbrev pub same_location : SourceLocation → SourceLocation → Bool
same_location a b = same_path a.path b.path && (a.line == b.line)

-- What becomes of an existing entry.
unfoldable pub combine : EventEntry → EventEntry → EventEntry
unfolding union same_path
combine existing entry = record existing {
  attributes = union str_eq existing.attributes entry.attributes;
  locations = union same_location existing.locations entry.locations;
}

-- The dict `merged`, by its values, after one entry.
unfoldable pub merge_into : EventEntry → List EventEntry → List EventEntry
unfolding combine
merge_into entry [] = entry ∷ []
merge_into entry (existing ∷ merged) =
    let rest = merge_into entry merged in
    if str_eq existing.name entry.name then combine existing entry ∷ merged else existing ∷ rest

-- The warning on diverging levels. none: an IndexError, as one of the two has no location.
abbrev diverging :
    EventEntry → EventEntry → List SourceLocation → List SourceLocation → Option (List Warning)
diverging existing entry (original ∷ _) (new ∷ _) =
    some (diverging_levels entry.name existing.level original entry.level new ∷ [])
diverging existing entry _ _ = none

unfoldable pub level_warnings : EventEntry → List EventEntry → Option (List Warning)
level_warnings entry [] = some []
level_warnings entry (existing ∷ merged) =
    let rest = level_warnings entry merged in
    let found =
      if str_eq entry.level existing.level
      then some []
      else diverging existing entry existing.locations entry.locations in
    if str_eq existing.name entry.name then found else rest

unfoldable pub merge_all :
    List EventEntry → List EventEntry → Option (List EventEntry × List Warning)
unfolding merge_into level_warnings
merge_all [] merged = some (merged, [])
merge_all (entry ∷ entries) merged =
    let rest = merge_all entries (merge_into entry merged) in
    elim (level_warnings entry merged) [
      | none ↦ none
      | some warnings ↦ elim rest [
        | none ↦ none
        | some (result, later) ↦ some (result, warnings ++ later)
      ]
    ]

abbrev pub name_key : EventEntry → List ℕ
name_key entry = codes entry.name

unfoldable pub merge_event_entries : List EventEntry → Option (List EventEntry × List Warning)
unfolding merge_all order_by codes
merge_event_entries entries = elim (merge_all entries []) [
  | none ↦ none
  | some (merged, warnings) ↦ some (order_by name_key merged, warnings)
]
