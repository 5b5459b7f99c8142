-- ===== src/Eval/Binds.antt =====
-- Resolving a query gives a result where the dictionary answers every lookup and its singletons are
-- ids of the segment.
use holys.Common.{ℕ, ◌≡◌, refl, ◌<◌, ◌^◌, List, [], Option, none, some, ◌==◌, leb}
use holys.Common.{Bool-cases, inl, inr, ==→eq, lt→ltb, Result, ok}
use holys.Grams.{Strategy}
use holys.Query.{Query, Queries}
use holys.Eval.Resolve.{
  Error, TermValue, Resolved, unpack_posting, resolve_value, resolve_gram, push_child, and_child,
  or_child,
}
use holys.Eval.Resolve.{close_and, close_or, resolve, resolve_and, resolve_or}
use holys.Eval.Returns.{Returns, bind-Returns}

-- A value of the dictionary whose count is 1 holds an id of the segment.
abbrev pub HasRoom : ℕ → TermValue → Type 0
HasRoom id_space v =
    (unpack_posting v.packed).1 ≡ 1
    → ((unpack_posting v.packed).0 < 2 ^ 32) × ((unpack_posting v.packed).0 < id_space)

resolve_value-Returns :
    (id_space : ℕ) (v : TermValue) → HasRoom id_space v → Returns (resolve_value id_space v)
unfolding resolve_value
resolve_value-Returns id_space v room =
    let (offset, count) = unpack_posting v.packed in
    elim (Bool-cases (count == 1)) [
      | inl one ↦
          let (small, inside) = room (==→eq count 1 one) in
          rw (one, lt→ltb offset (2 ^ 32) small, lt→ltb offset id_space inside)
            (Resolved.doc offset, refl)
      | inr more ↦ elim (Bool-cases (leb id_space count)) [
        | inl full ↦ rw (more, full) (Resolved.all, refl)
        | inr part ↦ rw (more, part) (Resolved.gram offset count _, refl)
      ]
    ]

module _ (id_space : ℕ) (strategy : Strategy) (lookup : List ℕ → Result Error (Option TermValue))
    (answers : (g : List ℕ) → Returns (lookup g))
    (roomy : (g : List ℕ) (v : TermValue) → lookup g ≡ ok (some v) → HasRoom id_space v) where
  and_child-Returns :
      (r : Resolved) (rest : Result Error (Option (List Resolved)))
      → Returns rest
      → Returns (and_child r rest)
  unfolding and_child
  and_child-Returns Resolved.none_at_all rest h = (none, refl)
  and_child-Returns Resolved.all rest h = h
  and_child-Returns r rest h =
      bind-Returns rest (λ f. ok (push_child r f)) h (λ f. (push_child r f, refl))

  or_child-Returns :
      (r : Resolved) (rest : Result Error (Option (List Resolved)))
      → Returns rest
      → Returns (or_child r rest)
  unfolding or_child
  or_child-Returns Resolved.all rest h = (none, refl)
  or_child-Returns Resolved.none_at_all rest h = h
  or_child-Returns r rest h =
      bind-Returns rest (λ f. ok (push_child r f)) h (λ f. (push_child r f, refl))

  resolve_gram-Returns :
      (g : List ℕ) (found : Option TermValue)
      → lookup g ≡ ok found
      → Returns (resolve_gram id_space found)
  unfolding resolve_gram
  resolve_gram-Returns g none h = (Resolved.none_at_all, refl)
  resolve_gram-Returns g (some v) h = resolve_value-Returns id_space v (roomy g v h)

  mutual
    unfolding resolve resolve_and resolve_or

    resolve_query-Returns : (q : Query) → Returns (resolve id_space strategy lookup q)
    resolve_query-Returns Query.all = (Resolved.all, refl)
    resolve_query-Returns (Query.gram g) =
        let (found, h) = answers g in rw h (resolve_gram-Returns g found h)
    resolve_query-Returns (Query.conj qs) =
        bind-Returns (resolve_and id_space strategy lookup qs) (λ f. ok (close_and strategy f))
          (children_and-Returns qs) (λ f. (close_and strategy f, refl))
    resolve_query-Returns (Query.disj qs) =
        bind-Returns (resolve_or id_space strategy lookup qs) (λ f. ok (close_or f))
          (children_or-Returns qs) (λ f. (close_or f, refl))

    children_and-Returns : (qs : Queries) → Returns (resolve_and id_space strategy lookup qs)
    children_and-Returns Queries.nil = (some [], refl)
    children_and-Returns (Queries.cons q qs) =
        bind-Returns (resolve id_space strategy lookup q)
          (λ r. and_child r (resolve_and id_space strategy lookup qs)) (resolve_query-Returns q)
          (λ r.
            and_child-Returns r (resolve_and id_space strategy lookup qs) (children_and-Returns qs))

    children_or-Returns : (qs : Queries) → Returns (resolve_or id_space strategy lookup qs)
    children_or-Returns Queries.nil = (some [], refl)
    children_or-Returns (Queries.cons q qs) =
        bind-Returns (resolve id_space strategy lookup q)
          (λ r. or_child r (resolve_or id_space strategy lookup qs)) (resolve_query-Returns q)
          (λ r.
            or_child-Returns r (resolve_or id_space strategy lookup qs) (children_or-Returns qs))

  -- Where the dictionary answers every lookup and its singletons are ids of the segment, every query
  -- resolves.
  pub resolve-Returns : (q : Query) → Returns (resolve id_space strategy lookup q)
  resolve-Returns q = resolve_query-Returns q
