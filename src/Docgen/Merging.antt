-- ===== src/Docgen/Merging.antt =====
-- The proofs on merge_event_entries: the document that the merged entries stand for.
use flagsmith_common.Base.{
  ◌≡◌, refl, sym, ap, ◌∙◌, inl, inr, Bool, true, false, ◌&&◌, ◌||◌, String, Option, none, some,
  List, [], ◌∷◌, ◌++◌, arith, str_eq, eq_refl, Option-cases, Bool-cases, All, All-zip, All-map,
  append_nil, if◌then◌else◌, any,
}
use flagsmith_common.Base.Text.{str_eq-sym, str_eq-≡}
use flagsmith_common.Base.Order.{
  IsOrdered, order_by, order_by-IsOrdered, AllApart, AllApart-order_by, All-order_by, any-order_by,
}
use flagsmith_common.Base.Sets.{member, any-union, union}
use flagsmith_common.Docgen.Visitor.{FilePath, SourceLocation, EventEntry, Warning}
use flagsmith_common.Docgen.Merge.{
  same_path, same_location, combine, merge_into, level_warnings, merge_all, name_key,
  merge_event_entries,
}

-- Whether one of the entries under the name has the attribute.
abbrev pub documents : String → String → List EventEntry → Bool
documents event attr entries =
    any (λ (e : EventEntry). str_eq e.name event && member str_eq attr e.attributes) entries

-- Whether one of the entries under the name is at the location.
abbrev pub locates : String → SourceLocation → List EventEntry → Bool
locates event location entries =
    any (λ (e : EventEntry). str_eq e.name event && member same_location location e.locations)
      entries

-- The level of the first entry under the name.
abbrev pub first_level : String → List EventEntry → Option String
first_level event [] = none
first_level event (e ∷ es) =
    let rest = first_level event es in if str_eq e.name event then some e.level else rest

abbrev pub IsApart : EventEntry → EventEntry → Type 0
IsApart e f = str_eq e.name f.name ≡ false

-- The abstract document of the events: what is recorded under each name.
pub record IsMergeOf (entries merged : List EventEntry) : Type 0 where
  pub ordered : IsOrdered name_key merged
  pub apart : AllApart name_key IsApart merged
  pub attributes :
      (event attr : String) → documents event attr merged ≡ documents event attr entries
  pub locations :
      (event : String) (location : SourceLocation)
      → locates event location merged ≡ locates event location entries
  pub levels : All (λ e. first_level e.name entries ≡ some e.level) merged

same_path-≡ : (p q : FilePath) → same_path p q ≡ true → p ≡ q
unfolding same_path
same_path-≡ [] [] e = refl
same_path-≡ [] (x ∷ q) e = ground arith
same_path-≡ (x ∷ p) [] e = ground arith
same_path-≡ (x ∷ p) (y ∷ q) e = elim (Bool-cases (str_eq x y)) [
  | inl f ↦ let rest = same_path-≡ p q (ground arith) in let g = str_eq-≡ x y f in cc
  | inr f ↦ ground arith
]

same_location-respects :
    (k : SourceLocation) (a b : SourceLocation)
    → same_location a b ≡ true
    → same_location a k ≡ same_location b k
same_location-respects k a b e = grind (arith, same_path-≡ a.path b.path)

-- The entries after all are merged, without the warnings.
abbrev folded : List EventEntry → List EventEntry → List EventEntry
folded [] merged = merged
folded (entry ∷ entries) merged = folded entries (merge_into entry merged)

merge_all-folded :
    (es acc m : List EventEntry) (ws : List Warning)
    → merge_all es acc ≡ some (m, ws)
    → m ≡ folded es acc
unfolding merge_all
merge_all-folded [] acc m ws h = cc
merge_all-folded (e ∷ es) acc m ws h = elim (Option-cases (level_warnings e acc)) [
  | inl p ↦ let k = rw (merge_all, p) at h in cc
  | inr (w, p) ↦ elim (Option-cases (merge_all es (merge_into e acc))) [
    | inl q ↦ let k = rw (merge_all, p, q) at h in cc
    | inr ((m', ws'), q) ↦
        let i = merge_all-folded es (merge_into e acc) m' ws' q in
        (let k = rw (merge_all, p, q) at h in cc)
  ]
]

-- An entry that is merged adds to a test on the entries what it says itself.
any-merge_into :
    (p : EventEntry → Bool)
    → ((x y : EventEntry) → str_eq x.name y.name ≡ true → p (combine x y) ≡ (p x || p y))
    → (e : EventEntry) (acc : List EventEntry) → any p (merge_into e acc) ≡ (any p acc || p e)
unfolding merge_into
any-merge_into p adds e [] = ground arith
any-merge_into p adds e (x ∷ acc) = ground (arith, any-merge_into p adds e acc, adds x e)

any-folded :
    (p : EventEntry → Bool)
    → ((x y : EventEntry) → str_eq x.name y.name ≡ true → p (combine x y) ≡ (p x || p y))
    → (es acc : List EventEntry) → any p (folded es acc) ≡ (any p acc || any p es)
any-folded p adds [] acc = ground arith
any-folded p adds (e ∷ es) acc =
    any-folded p adds es (merge_into e acc) ∙ ground (arith, any-merge_into p adds e acc)

respects_≡ : (k x y : String) → str_eq x y ≡ true → str_eq x k ≡ str_eq y k
respects_≡ k x y e = ap (λ z. str_eq z k) (str_eq-≡ x y e)

documents-combine :
    (event attr : String) (x y : EventEntry)
    → str_eq x.name y.name ≡ true
    → (str_eq (combine x y).name event && member str_eq attr (combine x y).attributes) ≡ (
        str_eq x.name event && member str_eq attr x.attributes
        || str_eq y.name event && member str_eq attr y.attributes)
unfolding combine union
documents-combine event attr x y e =
    rw
      (
        respects_≡ event x.name y.name e,
        any-union str_eq (λ z. str_eq z attr) (respects_≡ attr) x.attributes y.attributes,
      )
      (ground arith)

locates-combine :
    (event : String) (location : SourceLocation) (x y : EventEntry)
    → str_eq x.name y.name ≡ true
    → (str_eq (combine x y).name event && member same_location location (combine x y).locations) ≡ (
        str_eq x.name event && member same_location location x.locations
        || str_eq y.name event && member same_location location y.locations)
unfolding combine union same_path
locates-combine event location x y e =
    rw
      (
        respects_≡ event x.name y.name e,
        any-union same_location (λ z. same_location z location) (same_location-respects location)
            x.locations y.locations,
      )
      (ground arith)

pub All-merge_into {κ} :
    (P : EventEntry → Type κ)
    → (e : EventEntry) → ((x : EventEntry) → P x → P (combine x e))
    → P e
    → (acc : List EventEntry) → All P acc
    → All P (merge_into e acc)
unfolding merge_into
All-merge_into P e keeps new [] h = (new, tt)
All-merge_into P e keeps new (x ∷ acc) h = elim (Bool-cases (str_eq x.name e.name)) [
  | inl f ↦ rw f (keeps x h.0, h.1)
  | inr f ↦ rw f (h.0, All-merge_into P e keeps new acc h.1)
]

merge_into-AllApart :
    (e : EventEntry) (acc : List EventEntry)
    → AllApart name_key IsApart acc
    → AllApart name_key IsApart (merge_into e acc)
unfolding merge_into
merge_into-AllApart e [] h = (tt, tt)
merge_into-AllApart e (x ∷ acc) h = elim (Bool-cases (str_eq x.name e.name)) [
  | inl f ↦ rw f h
  | inr f ↦ rw f (All-merge_into (IsApart x) e (λ y k. k) f acc h.0, merge_into-AllApart e acc h.1)
]

folded-AllApart :
    (es acc : List EventEntry)
    → AllApart name_key IsApart acc
    → AllApart name_key IsApart (folded es acc)
folded-AllApart [] acc h = h
folded-AllApart (e ∷ es) acc h = folded-AllApart es (merge_into e acc) (merge_into-AllApart e acc h)

first_level-other :
    (event : String) (e : EventEntry) (acc rest : List EventEntry)
    → str_eq e.name event ≡ false
    → first_level event (acc ++ e ∷ rest) ≡ first_level event (acc ++ rest)
first_level-other event e [] rest h = ground arith
first_level-other event e (x ∷ acc) rest h = ground (arith, first_level-other event e acc rest h)

first_level-merge_into :
    (event : String) (e : EventEntry) (acc rest : List EventEntry)
    → first_level event (merge_into e acc ++ rest) ≡ first_level event (acc ++ e ∷ rest)
unfolding merge_into combine
first_level-merge_into event e [] rest = refl
first_level-merge_into event e (x ∷ acc) rest = ground (
  arith,
  respects_≡ event x.name e.name,
  first_level-other event e acc rest,
  first_level-merge_into event e acc rest,
)

first_level-folded :
    (event : String) (es acc : List EventEntry)
    → first_level event (folded es acc) ≡ first_level event (acc ++ es)
first_level-folded event [] acc = ap (first_level event) (sym (append_nil acc))
first_level-folded event (e ∷ es) acc =
    first_level-folded event es (merge_into e acc) ∙ first_level-merge_into event e acc es

first_level-own :
    (es : List EventEntry)
    → AllApart name_key IsApart es
    → All (λ e. first_level e.name es ≡ some e.level) es
first_level-own [] h = tt
first_level-own (x ∷ es) h = (
  rw (eq_refl x.name) refl,
  All-zip (λ y apart own. rw apart own) es h.0 (first_level-own es h.1),
)

merge_event_entries-folded :
    (entries merged : List EventEntry) (warnings : List Warning)
    → merge_event_entries entries ≡ some (merged, warnings)
    → merged ≡ order_by name_key (folded entries [])
unfolding merge_event_entries
merge_event_entries-folded entries merged warnings h = elim (Option-cases (merge_all entries [])) [
  | inl p ↦ let k = rw (merge_event_entries, p) at h in cc
  | inr ((m, ws), p) ↦
      let i = merge_all-folded entries [] m ws p in let k = rw (merge_event_entries, p) at h in cc
]

folded-IsMergeOf :
    (entries : List EventEntry) → IsMergeOf entries (order_by name_key (folded entries []))
folded-IsMergeOf entries =
    let m = folded entries [] in
    let apart = folded-AllApart entries [] tt in
    record {
      ordered = order_by-IsOrdered name_key m;
      apart = AllApart-order_by name_key IsApart (λ x y h. str_eq-sym y.name x.name ∙ h) m apart;
      attributes = λ event attr.
          any-order_by name_key _ m ∙ any-folded _ (documents-combine event attr) entries [];
      locations = λ event location.
          any-order_by name_key _ m ∙ any-folded _ (locates-combine event location) entries [];
      levels =
          All-order_by name_key (λ e. first_level e.name entries ≡ some e.level) m
            (All-map (λ e own. sym (first_level-folded e.name entries []) ∙ own) m
              (first_level-own m apart));
    }

-- The merged entries, with no two of one name and in the order of their names, stand for the document of
-- all the entries: under each name an attribute, or a location, is there if and only if one of the entries
-- of that name has it, and the level is the one of the first entry of that name.
pub merge_event_entries-IsMergeOf :
    (entries merged : List EventEntry) (warnings : List Warning)
    → merge_event_entries entries ≡ some (merged, warnings)
    → IsMergeOf entries merged
unfolding merge_event_entries order_by
merge_event_entries-IsMergeOf entries merged warnings h =
    rw (merge_event_entries-folded entries merged warnings h) (folded-IsMergeOf entries)
