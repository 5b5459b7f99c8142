-- ===== src/Eval/Select.antt =====
-- The second half of crates/index/src/eval.rs: the blocks that a resolved query reads, and its
-- evaluation over them.
use holys.Common.{ℕ, zero, suc, ◌+◌, ◌-◌}
use holys.Common.{List, [], ◌∷◌, ◌++◌, length, Option, none, some, leb}
use holys.Common.{Result, ok, ◌>>=◌, context}
use holys.Common.Sorting.{sort_by, sort_ids}
use Prim.Native.Nat.{compare, Ordering}
use holys.Eval.Resolve.{Error, block_not_fetched, Resolved, Resolveds}

pub data Selection : Type 0 where
  all : Selection
  ids : List ℕ → Selection

-- Intersection of two ascending lists, by two indices that move forward.
unfoldable pub intersect : List ℕ → List ℕ → List ℕ
intersect [] ys = []
intersect (x ∷ xs) [] = []
intersect (x ∷ xs) (y ∷ ys) = elim (compare x y) [
  | Ordering.lt ↦ intersect xs (y ∷ ys)
  | Ordering.gt ↦ intersect (x ∷ xs) ys
  | Ordering.eq ↦ x ∷ intersect xs ys
]

abbrev pub flatten : List (List ℕ) → List ℕ
flatten [] = []
flatten (xs ∷ xss) = xs ++ flatten xss

unfoldable pub union_many : List (List ℕ) → List ℕ
union_many lists = sort_ids (flatten lists)

-- `start..=end`
unfoldable pub inclusive : ℕ → ℕ → List ℕ
inclusive zero id = []
inclusive (suc n) id = id ∷ inclusive n (suc id)

abbrev pub range_ids : ℕ × ℕ → List ℕ
range_ids (start, end) = inclusive (end + 1 - start) start

unfoldable pub expand_all : (ℕ → ℕ × ℕ) → List ℕ → List ℕ
expand_all expand [] = []
expand_all expand (id ∷ rest) = range_ids (expand id) ++ expand_all expand rest

unfoldable pub expand_ids : List ℕ → Option (ℕ → ℕ × ℕ) → List ℕ
unfolding expand_all
expand_ids found none = found
expand_ids found (some expand) = sort_ids (expand_all expand found)

-- `for set in sets { acc = intersect(&acc, &set); if acc.is_empty() { break; } }`
unfoldable pub intersect_all : List ℕ → List (List ℕ) → List ℕ
unfolding intersect
intersect_all acc [] = acc
intersect_all [] (set ∷ sets) = []
intersect_all (x ∷ acc) (set ∷ sets) = intersect_all (intersect (x ∷ acc) set) sets

-- Behind the loop over the children of an AND: `none` is its early return of no ids.
unfoldable pub close_sets : List (List ℕ) → Selection
unfolding intersect_all
close_sets [] = all
close_sets (acc ∷ sets) = ids (intersect_all acc sets)

unfoldable pub close_and_sets : Option (List (List ℕ)) → Selection
unfolding close_sets
close_and_sets none = ids []
close_and_sets (some sets) = close_sets (sort_by (λ a b. leb (length a) (length b)) sets)

unfoldable pub close_or_sets : Option (List (List ℕ)) → Selection
unfolding union_many
close_or_sets none = all
close_or_sets (some lists) = ids (union_many lists)

-- `sets.push(ids)`, unless the loop returned early.
unfoldable pub push_set : List ℕ → Option (List (List ℕ)) → Option (List (List ℕ))
push_set xs none = none
push_set xs (some sets) = some (xs ∷ sets)

unfoldable pub and_set :
    Selection → Result Error (Option (List (List ℕ))) → Result Error (Option (List (List ℕ)))
and_set all rest = rest
and_set (ids []) rest = ok none
and_set (ids (x ∷ xs)) rest = do found ← rest; ok (push_set (x ∷ xs) found)

unfoldable pub or_set :
    Selection → Result Error (Option (List (List ℕ))) → Result Error (Option (List (List ℕ)))
or_set all rest = ok none
or_set (ids xs) rest = do found ← rest; ok (push_set xs found)

module _ (blocks : ℕ → Option (List ℕ)) (expand : Option (ℕ → ℕ × ℕ)) where
  unfoldable mutual
    unfolding and_set or_set close_and_sets close_or_sets

    pub eval : Resolved → Result Error Selection
    eval Resolved.all = ok all
    eval Resolved.none_at_all = ok (ids [])
    eval (Resolved.doc id) = ok (ids (expand_ids (id ∷ []) expand))
    eval (Resolved.gram offset count len) =
        context (blocks offset) block_not_fetched >>= λ found. ok (ids (expand_ids found expand))
    eval (Resolved.conj rs) = eval_and rs >>= λ found. ok (close_and_sets found)
    eval (Resolved.disj rs) = eval_or rs >>= λ found. ok (close_or_sets found)

    pub eval_and : Resolveds → Result Error (Option (List (List ℕ)))
    eval_and Resolveds.nil = ok (some [])
    eval_and (Resolveds.cons r rs) = eval r >>= λ s. and_set s (eval_and rs)

    pub eval_or : Resolveds → Result Error (Option (List (List ℕ)))
    eval_or Resolveds.nil = ok (some [])
    eval_or (Resolveds.cons r rs) = eval r >>= λ s. or_set s (eval_or rs)

-- The posting blocks that a resolved query reads: offset, count and length.
unfoldable mutual
  pub blocks_needed : Resolved → List (ℕ × ℕ × ℕ)
  blocks_needed Resolved.all = []
  blocks_needed Resolved.none_at_all = []
  blocks_needed (Resolved.doc id) = []
  blocks_needed (Resolved.gram offset count len) = (offset, count, len) ∷ []
  blocks_needed (Resolved.conj rs) = blocks_of rs
  blocks_needed (Resolved.disj rs) = blocks_of rs

  pub blocks_of : Resolveds → List (ℕ × ℕ × ℕ)
  blocks_of Resolveds.nil = []
  blocks_of (Resolveds.cons r rs) = blocks_needed r ++ blocks_of rs
