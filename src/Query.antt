-- ===== src/Query.antt =====
-- crates/query/src/lib.rs: a gram query. The child lists are a type of the block, since a data type
-- may not hold a list of itself.
use holys.Common.{ℕ, List, [], ◌∷◌, ◌⊎◌}

mutual
  pub data Query : Type 0 where
    all : Query
    gram : List ℕ → Query
    conj : Queries → Query
    disj : Queries → Query

  pub data Queries : Type 0 where
    nil : Queries
    cons : Query → Queries → Queries

-- A `Vec<Query>` as the children of a node, and back.
abbrev pub from_list : List Query → Queries
from_list [] = Queries.nil
from_list (q ∷ qs) = Queries.cons q (from_list qs)

-- What a query says of a thing with grams: `Present g` holds where the gram is there.
abbrev mutual
  pub Holds : (List ℕ → Type 0) → Query → Type 0
  Holds Present Query.all = Unit
  Holds Present (Query.gram g) = Present g
  Holds Present (Query.conj qs) = HoldsAll Present qs
  Holds Present (Query.disj qs) = HoldsAny Present qs

  pub HoldsAll : (List ℕ → Type 0) → Queries → Type 0
  HoldsAll Present Queries.nil = Unit
  HoldsAll Present (Queries.cons q qs) = Holds Present q × HoldsAll Present qs

  pub HoldsAny : (List ℕ → Type 0) → Queries → Type 0
  HoldsAny Present Queries.nil = ⊥
  HoldsAny Present (Queries.cons q qs) = Holds Present q ⊎ HoldsAny Present qs
