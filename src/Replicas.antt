-- ===== src/Replicas.antt =====
-- common/core/utils.py: using_database_replica, and common/core/__init__.py. Which connections can be
-- established does not change during one call. random.choice is a parameter.
pub mod Choice
pub mod Examples
use flagsmith_common.Base.{
  ℕ, zero, suc, Bool, true, false, not, String, Option, none, some, List, [], ◌∷◌, ◌++◌, filter,
  length, any, str_eq, if◌then◌else◌,
}
use flagsmith_common.Base.Text.{starts_with}

pub data ReplicaReadStrategy : Type 0 where
  distributed sequential : ReplicaReadStrategy

pub data ReplicaNamePrefix : Type 0 where
  replica cross_region_replica : ReplicaNamePrefix

abbrev pub prefix_name : ReplicaNamePrefix → String
prefix_name replica = "replica_"
prefix_name cross_region_replica = "cross_region_replica_"

-- _replica_sequential_names_by_prefix: what an itertools.cycle yields next, once around.
pub record Sequences : Type 0 where
  pub replicas : Option (List String)
  pub cross_region_replicas : Option (List String)

abbrev pub sequence_of : ReplicaNamePrefix → Sequences → Option (List String)
sequence_of replica σ = σ.replicas
sequence_of cross_region_replica σ = σ.cross_region_replicas

abbrev pub set_sequence : ReplicaNamePrefix → List String → Sequences → Sequences
set_sequence replica names σ = record σ { replicas = some names }
set_sequence cross_region_replica names σ = record σ { cross_region_replicas = some names }

-- setdefault
abbrev pub sequence_or : Option (List String) → List String → List String
sequence_or none names = names
sequence_or (some names) default = names

unfoldable pub local_replicas : ReplicaNamePrefix → List String → List String
unfolding starts_with filter
local_replicas prefix connections = filter (starts_with (prefix_name prefix)) connections

-- is_database_replica_setup
unfoldable pub is_database_replica_setup : List String → Bool
unfolding local_replicas
is_database_replica_setup connections =
    if not (length_is_zero (local_replicas replica connections))
    then true
    else not (length_is_zero (local_replicas cross_region_replica connections))
  where
    length_is_zero : List String → Bool
    length_is_zero [] = true
    length_is_zero (_ ∷ _) = false

-- The loop of the sequential strategy: the replica chosen, and the cycle left.
unfoldable pub try_sequential : (String → Bool) → ℕ → List String → Option String × List String
try_sequential is_available zero names = (none, names)
try_sequential is_available (suc n) [] = (none, [])
try_sequential is_available (suc n) (attempted ∷ names) =
    let turned = names ++ attempted ∷ [] in
    let rest = try_sequential is_available n turned in
    if is_available attempted then (some attempted, turned) else rest

-- local_replicas.remove(name)
unfoldable pub remove : String → List String → List String
remove name [] = []
remove name (other ∷ names) =
    let rest = remove name names in if str_eq other name then names else other ∷ rest

-- The loop of the distributed strategy.
unfoldable pub try_distributed :
    (choice : ℕ → List String → String) → (String → Bool) → ℕ → List String → Option String
unfolding remove
try_distributed choice is_available zero names = none
try_distributed choice is_available (suc n) names =
    let attempted = choice n names in
    let rest = try_distributed choice is_available n (remove attempted names) in
    if is_available attempted then some attempted else rest

-- `if not local_replicas: return manager`
abbrev pub unless_empty :
    List String → Option String × Sequences → Sequences → Option String × Sequences
unless_empty [] chosen σ = (none, σ)
unless_empty (_ ∷ _) chosen σ = chosen

-- `if not chosen_replica`
abbrev pub or_else :
    Option String × Sequences → (Sequences → Option String × Sequences) → Option String × Sequences
or_else (none, σ) next = next σ
or_else (some name, σ) next = (some name, σ)

module _ (choice : ℕ → List String → String) (strategy : ReplicaReadStrategy)
    (is_available : String → Bool) (connections : List String) where
  -- Both loops, for one prefix.
  unfoldable pub choose_replica : ReplicaNamePrefix → Sequences → Option String × Sequences
  unfolding local_replicas try_sequential try_distributed
  choose_replica prefix σ =
      let names = local_replicas prefix connections in
      elim strategy [
        | sequential ↦
            let sequence = sequence_or (sequence_of prefix σ) names in
            let (chosen, left) = try_sequential is_available (length names) sequence in
            (chosen, set_sequence prefix left σ)
        | distributed ↦ (try_distributed choice is_available (length names) names, σ)
      ]

  -- using_database_replica(manager, "cross_region_replica_"): none for the manager itself.
  unfoldable pub using_cross_region_replica : Sequences → Option String × Sequences
  unfolding choose_replica local_replicas
  using_cross_region_replica σ =
      unless_empty (local_replicas cross_region_replica connections)
        (choose_replica cross_region_replica σ) σ

  -- using_database_replica(manager)
  unfoldable pub using_database_replica : Sequences → Option String × Sequences
  unfolding choose_replica using_cross_region_replica local_replicas
  using_database_replica σ =
      unless_empty (local_replicas replica connections)
        (or_else (choose_replica replica σ) using_cross_region_replica) σ
