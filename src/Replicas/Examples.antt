-- ===== src/Replicas/Examples.antt =====
-- The theorem on the choice of a replica, at four connections.
use flagsmith_common.Base.{
  ℕ, refl, Bool, not, String, none, some, List, [], ◌∷◌, ◌++◌, inl, inr, str_eq,
}
use flagsmith_common.Replicas.{
  sequential, replica, cross_region_replica, Sequences, local_replicas, using_database_replica,
}
use flagsmith_common.Replicas.Choice.{IsChoice, using_database_replica-IsChoice}

abbrev connections : List String
connections = "default" ∷ "replica_1" ∷ "replica_2" ∷ "cross_region_replica_1" ∷ []

-- random.choice, were it to take the first.
abbrev first_of : ℕ → List String → String
first_of n [] = ""
first_of n (name ∷ names) = name

abbrev is_available : String → Bool
is_available name = not (str_eq name "replica_2")

-- The next replica of the cycle is the second.
abbrev sequences : Sequences
sequences = record {
  replicas = some ("replica_2" ∷ "replica_1" ∷ []);
  cross_region_replicas = none;
}

using_database_replica-IsChoice_example :
    IsChoice is_available
      (local_replicas replica connections ++ local_replicas cross_region_replica connections)
      (using_database_replica first_of sequential is_available connections sequences).0
unfolding local_replicas
using_database_replica-IsChoice_example =
    using_database_replica-IsChoice first_of (λ n name names. inl refl) is_available connections
      sequential sequences "replica_1" ("replica_2" ∷ []) refl
      (record {
        as_long = refl;
        within = (inr (inl refl), (inl refl, tt));
        covers = (inr (inl refl), (inl refl, tt));
      })
      (record { as_long = refl; within = (inl refl, tt); covers = (inl refl, tt) })
