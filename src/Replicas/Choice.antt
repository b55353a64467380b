-- ===== src/Replicas/Choice.antt =====
-- Which replica is chosen: one that is available, whenever there is one.
use flagsmith_common.Base.{
  ℕ, zero, suc, ◌≡◌, refl, sym, ap, subst, inl, inr, Bool, true, false, String, Option, none, some,
  List, [], ◌∷◌, ◌++◌, arith, All, In, All-In, All-map, All-append, length, Bool-cases, str_eq,
  eq_iff, append_nil,
}
use flagsmith_common.Replicas.{
  ReplicaReadStrategy, distributed, sequential, ReplicaNamePrefix, replica, cross_region_replica,
  Sequences, sequence_of, sequence_or, local_replicas, try_sequential, remove, try_distributed,
  choose_replica, unless_empty, or_else, using_cross_region_replica, using_database_replica,
}

-- An answer of a loop over these names: one of them that is available, or none if none is.
abbrev pub IsChoice : (String → Bool) → List String → Option String → Type 0
IsChoice is_available names none = All (λ name. is_available name ≡ false) names
IsChoice is_available names (some name) = In name names × (is_available name ≡ true)

module _ (is_available : String → Bool) where
  append_assoc : (xs ys zs : List String) → (xs ++ ys) ++ zs ≡ xs ++ (ys ++ zs)
  append_assoc [] ys zs = refl
  append_assoc (x ∷ xs) ys zs = ap (λ l. x ∷ l) (append_assoc xs ys zs)

  try_sequential-IsChoice :
      (names tried : List String)
      → IsChoice is_available names (try_sequential is_available (length names) (names ++ tried)).0
  unfolding try_sequential
  try_sequential-IsChoice [] tried = tt
  try_sequential-IsChoice (name ∷ names) tried = elim (Bool-cases (is_available name)) [
    | inl e ↦ rw e (inl refl, e)
    | inr e ↦
        rw (e, append_assoc names tried (name ∷ []))
          (widen _ (try_sequential-IsChoice names (tried ++ name ∷ [])) e)
  ]
    where
      widen :
          (o : Option String)
          → IsChoice is_available names o
          → is_available name ≡ false
          → IsChoice is_available (name ∷ names) o
      widen none h e = (e, h)
      widen (some other) h e = (inr h.0, h.1)

  length-remove :
      (name : String) (names : List String)
      → In name names
      → length names ≡ suc (length (remove name names))
  unfolding remove
  length-remove name [] i = absurd i
  length-remove name (other ∷ names) i = elim (Bool-cases (str_eq other name)) [
    | inl e ↦ rw e refl
    | inr e ↦ rw e (
        ap suc (
          length-remove name names
            (elim i [ inl same ↦ absurd (differs other name e (sym same)) | inr j ↦ j ])))
  ]
    where
      differs : (a b : String) → str_eq a b ≡ false → a ≡ b → ⊥
      differs a b e same = let t = (eq_iff a b).1 same in cc

  In-remove : (x name : String) (names : List String) → In x (remove name names) → In x names
  unfolding remove
  In-remove x name [] i = absurd i
  In-remove x name (other ∷ names) i = elim (Bool-cases (str_eq other name)) [
    | inl e ↦ inr (rw e at i)
    | inr e ↦ later (rw e at i) (In-remove x name names)
  ]
    where
      later :
          In x (other ∷ remove name names)
          → (In x (remove name names) → In x names)
          → In x (other ∷ names)
      later (inl same) inner = inl same
      later (inr j) inner = inr (inner j)

  All-remove :
      (P : String → Type 0) (name : String) (names : List String)
      → P name
      → All P (remove name names)
      → All P names
  unfolding remove
  All-remove P name [] p h = tt
  All-remove P name (other ∷ names) p h = elim (Bool-cases (str_eq other name)) [
    | inl e ↦ (subst P (sym ((eq_iff other name).0 e)) p, rw e at h)
    | inr e ↦ let h' = rw e at h in (h'.0, All-remove P name names p h'.1)
  ]

  module _ (choice : ℕ → List String → String)
      (chooses : (n : ℕ) (name : String) (names : List String)
        → In (choice n (name ∷ names)) (name ∷ names)) where
    chosen-In : (n : ℕ) (names : List String) → length names ≡ suc n → In (choice n names) names
    chosen-In n [] e = absurd (omega arith)
    chosen-In n (name ∷ names) e = chooses n name names

    try_distributed-IsChoice :
        (n : ℕ) (names : List String)
        → length names ≡ n
        → IsChoice is_available names (try_distributed choice is_available n names)
    unfolding try_distributed
    try_distributed-IsChoice zero [] e = tt
    try_distributed-IsChoice zero (name ∷ names) e = absurd (omega arith)
    try_distributed-IsChoice (suc n) names e =
        let name = choice n names in
        let i = chosen-In n names e in
        elim (Bool-cases (is_available name)) [
          | inl a ↦ rw a (i, a)
          | inr a ↦ rw a (
              widen name _ a (
                try_distributed-IsChoice n (remove name names)
                  (omega (arith, length-remove name names i))))
        ]
      where
        widen :
            (name : String) (o : Option String)
            → is_available name ≡ false
            → IsChoice is_available (remove name names) o
            → IsChoice is_available names o
        widen name none a h = All-remove (λ x. is_available x ≡ false) name names a h
        widen name (some other) a h = (In-remove other name names h.0, h.1)

In-append-left : (x : String) (xs ys : List String) → In x xs → In x (xs ++ ys)
In-append-left x [] ys i = absurd i
In-append-left x (y ∷ xs) ys (inl e) = inl e
In-append-left x (y ∷ xs) ys (inr i) = inr (In-append-left x xs ys i)

In-append-right : (x : String) (xs ys : List String) → In x ys → In x (xs ++ ys)
In-append-right x [] ys i = i
In-append-right x (y ∷ xs) ys i = inr (In-append-right x xs ys i)

-- The cycle of a prefix goes once around its replicas.
pub record IsTurned (connections : List String) (prefix : ReplicaNamePrefix)
    (stored : Option (List String)) : Type 0 where
  pub as_long :
      length (sequence_or stored (local_replicas prefix connections))
      ≡ length (local_replicas prefix connections)
  pub within :
      All
        (λ name. In name (local_replicas prefix connections))
        (sequence_or stored (local_replicas prefix connections))
  pub covers :
      All
        (λ name. In name (sequence_or stored (local_replicas prefix connections)))
        (local_replicas prefix connections)

module _ (choice : ℕ → List String → String)
    (chooses : (n : ℕ) (name : String) (names : List String)
      → In (choice n (name ∷ names)) (name ∷ names))
    (is_available : String → Bool) (connections : List String) where
  IsChoice-other :
      (seq names : List String) (o : Option String)
      → All (λ name. In name names) seq
      → All (λ name. In name seq) names
      → IsChoice is_available seq o
      → IsChoice is_available names o
  IsChoice-other seq names none a b h =
      All-map (λ name i. All-In (λ x. is_available x ≡ false) name seq h i) names b
  IsChoice-other seq names (some name) a b h = (All-In (λ x. In x names) name seq a h.0, h.1)

  turned-IsChoice :
      (seq names : List String)
      → length seq ≡ length names
      → All (λ name. In name names) seq
      → All (λ name. In name seq) names
      → IsChoice is_available names (try_sequential is_available (length names) seq).0
  turned-IsChoice seq names e a b = IsChoice-other seq names _ a b (
      subst (λ n. IsChoice is_available seq (try_sequential is_available n seq).0) e
        (subst (λ l. IsChoice is_available seq (try_sequential is_available (length seq) l).0)
          (append_nil seq) (try_sequential-IsChoice is_available seq [])))

  choose_replica-IsChoice :
      (strategy : ReplicaReadStrategy) (prefix : ReplicaNamePrefix) (σ : Sequences)
      → IsTurned connections prefix (sequence_of prefix σ)
      → IsChoice is_available
          (local_replicas prefix connections)
          (choose_replica choice strategy is_available connections prefix σ).0
  unfolding choose_replica
  choose_replica-IsChoice sequential prefix σ h =
      turned-IsChoice _ (local_replicas prefix connections) h.as_long h.within h.covers
  choose_replica-IsChoice distributed prefix σ h =
      try_distributed-IsChoice is_available choice chooses
        (length (local_replicas prefix connections)) (local_replicas prefix connections) refl

  choose_replica-other :
      (strategy : ReplicaReadStrategy) (σ : Sequences)
      → sequence_of cross_region_replica
          (choose_replica choice strategy is_available connections replica σ).1
        ≡ sequence_of cross_region_replica σ
  unfolding choose_replica
  choose_replica-other sequential σ = refl
  choose_replica-other distributed σ = refl

  unless_empty-IsChoice :
      (names : List String) (chosen : Option String × Sequences) (σ : Sequences)
      → IsChoice is_available names chosen.0
      → IsChoice is_available names (unless_empty names chosen σ).0
  unless_empty-IsChoice [] chosen σ h = tt
  unless_empty-IsChoice (name ∷ names) chosen σ h = h

  unless_empty-given :
      (names : List String) (first : String) (rest all : List String)
      (chosen : Option String × Sequences) (σ : Sequences)
      → names ≡ first ∷ rest
      → IsChoice is_available all chosen.0
      → IsChoice is_available all (unless_empty names chosen σ).0
  unless_empty-given [] first rest all chosen σ e h = cc
  unless_empty-given (name ∷ names) first rest all chosen σ e h = h

  -- What stands behind the choice among the first prefix.
  or_else-IsChoice :
      (names others : List String) (first : Option String × Sequences)
      (next : Sequences → Option String × Sequences)
      → IsChoice is_available names first.0
      → IsChoice is_available others (next first.1).0
      → IsChoice is_available (names ++ others) (or_else first next).0
  or_else-IsChoice names others (none, σ) next h k = joined (next σ).0 k
    where
      joined :
          (o : Option String)
          → IsChoice is_available others o
          → IsChoice is_available (names ++ others) o
      joined none k = All-append (λ name. is_available name ≡ false) names others h k
      joined (some name) k = (In-append-right name names others k.0, k.1)
  or_else-IsChoice names others (some name, σ) next h k =
      (In-append-left name names others h.0, h.1)

  cross_region-IsChoice :
      (strategy : ReplicaReadStrategy) (σ : Sequences)
      → IsTurned connections cross_region_replica (sequence_of cross_region_replica σ)
      → IsChoice is_available
          (local_replicas cross_region_replica connections)
          (using_cross_region_replica choice strategy is_available connections σ).0
  unfolding using_cross_region_replica
  cross_region-IsChoice strategy σ h =
      let chosen = choose_replica choice strategy is_available connections cross_region_replica σ in
      unless_empty-IsChoice (local_replicas cross_region_replica connections) chosen σ
        (choose_replica-IsChoice strategy cross_region_replica σ h)

  -- If there are connections whose names begin with replica_, using_database_replica returns one that
  -- is available, of these or of those that begin with cross_region_replica_, and it leaves the manager
  -- as it is only if none of them is available. (Each stored cycle holds the replicas of its prefix.)
  pub using_database_replica-IsChoice :
      (strategy : ReplicaReadStrategy) (σ : Sequences) (first : String) (rest : List String)
      → local_replicas replica connections ≡ first ∷ rest
      → IsTurned connections replica (sequence_of replica σ)
      → IsTurned connections cross_region_replica (sequence_of cross_region_replica σ)
      → IsChoice is_available
          (local_replicas replica connections ++ local_replicas cross_region_replica connections)
          (using_database_replica choice strategy is_available connections σ).0
  unfolding using_database_replica
  using_database_replica-IsChoice strategy σ first rest e h k =
      let chosen = choose_replica choice strategy is_available connections replica σ in
      unless_empty-given (local_replicas replica connections) first rest _ _ σ e (
        or_else-IsChoice (local_replicas replica connections)
          (local_replicas cross_region_replica connections) chosen
          (using_cross_region_replica choice strategy is_available connections)
          (choose_replica-IsChoice strategy replica σ h)
          (cross_region-IsChoice strategy chosen.1 (
            subst (IsTurned connections cross_region_replica)
              (sym (choose_replica-other strategy σ)) k)))
