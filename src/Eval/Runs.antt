-- ===== src/Eval/Runs.antt =====
-- The evaluator's theorems at a small index: every gram that is not empty is in the documents 0 and 2
-- of four.
use holys.Common.{ℕ, ◌+◌, ◌*◌, ◌^◌, ◌<◌, ◌≡◌, refl, subst, arith, Option, none, some, ◌≢◌}
use holys.Common.{List, [], ◌∷◌, Has, inl, inr, Result, ok}
use holys.Common.Ascending.{IsAscending}
use holys.Grams.{sparse}
use holys.Query.{Query, Queries}
use holys.Eval.Resolve.{
  Error, TermValue, Resolved, Resolveds, unpack_posting, resolve, resolve_gram, resolve_value,
  push_child, prune_and, rarest,
}
use holys.Eval.Select.{Selection, intersect, eval, expand_ids, push_set}
use holys.Common.Sorting.{sort_by}
use holys.Eval.Sets.{SelectionAscends, intersect-Has}
use holys.Eval.Prune.{IsIndex}
use holys.Eval.Pack.{unpack-pack, pack_accepts}
use holys.Eval.Superset.{candidates_superset, eval-Ascends}
use holys.Eval.Collect.{bind_queries, collect_query_grams, grams_of, bind-collected}
use holys.Eval.Resolve.{lookup_failed}
use holys.Grams.{bytes_le, bytes_eq}
use holys.Common.Sorting.{Has-sort_dedup}
use holys.Common.{err, sym}
use holys.Eval.Collect.{grams_of_queries}
use holys.Eval.Returns.{Returns, eval-blocks_needed}
use holys.Eval.Binds.{HasRoom, resolve-Returns}
use holys.Eval.Select.{blocks_needed}

abbrev two_docs : List ℕ
two_docs = 0 ∷ 2 ∷ []

abbrev two_docs_value : TermValue
two_docs_value = record { packed = 7 + 2 * 2 ^ 40; len = some 1 }

abbrev lookup : List ℕ → Result Error (Option TermValue)
lookup [] = ok none
lookup (b ∷ bs) = ok (some two_docs_value)

abbrev posted : List ℕ → List ℕ
posted [] = []
posted (b ∷ bs) = two_docs

abbrev blocks : ℕ → Option (List ℕ)
blocks offset = some two_docs

value_of :
    {v w : TermValue}
    → ◌≡◌ {A = Result Error (Option TermValue)} (ok (some v)) (ok (some w))
    → v ≡ w
value_of p = cc

none_of : {w : TermValue} → ◌≡◌ {A = Result Error (Option TermValue)} (ok none) (ok (some w)) → ⊥
none_of p = cc

some_of : {w : TermValue} → ◌≡◌ {A = Result Error (Option TermValue)} (ok (some w)) (ok none) → ⊥
some_of p = cc

two_docs_count : (unpack_posting two_docs_value.packed).1 ≡ 2
unfolding unpack_posting
two_docs_count = refl

lookup-IsIndex : IsIndex 4 lookup blocks posted
lookup-IsIndex = record { absent = absent_at; single = single_at; stored = stored_at }
  where
    absent_at : (g : List ℕ) → lookup g ≡ ok none → posted g ≡ []
    absent_at [] h = refl
    absent_at (b ∷ bs) h = absurd (some_of h)

    single_at :
        (g : List ℕ) (v : TermValue)
        → lookup g ≡ ok (some v)
        → (unpack_posting v.packed).1 ≡ 1
        → posted g ≡ (unpack_posting v.packed).0 ∷ []
    single_at [] v h e = absurd (none_of h)
    single_at (b ∷ bs) v h e =
        let two =
          subst (λ (t : TermValue). (unpack_posting t.packed).1 ≡ 2) (value_of h) two_docs_count in
        absurd (omega (arith, two, e))

    stored_at :
        (g : List ℕ) (v : TermValue)
        → lookup g ≡ ok (some v)
        → (unpack_posting v.packed).1 ≢ 1
        → (unpack_posting v.packed).1 < 4
        → blocks (unpack_posting v.packed).0 ≡ some (posted g)
    stored_at [] v h n l = absurd (none_of h)
    stored_at (b ∷ bs) v h n l = refl

blocks-IsAscending : (offset : ℕ) (xs : List ℕ) → blocks offset ≡ some xs → IsAscending xs
blocks-IsAscending offset xs h = subst IsAscending (list_of h) (omega arith, (omega arith, tt))
  where
    list_of : {xs ys : List ℕ} → ◌≡◌ {A = Option (List ℕ)} (some xs) (some ys) → xs ≡ ys
    list_of p = cc

-- Both grams of a literal, below one AND.
abbrev both_grams : Query
both_grams = Query.conj (
    Queries.cons (Query.gram (97 ∷ 98 ∷ [])) (Queries.cons (Query.gram (98 ∷ 99 ∷ [])) Queries.nil))

abbrev both_resolved : Resolved
both_resolved =
    Resolved.conj
      (Resolveds.cons (Resolved.gram 7 2 1) (Resolveds.cons (Resolved.gram 7 2 1) Resolveds.nil))

both_resolve : resolve 4 sparse lookup both_grams ≡ ok both_resolved
unfolding resolve resolve_gram resolve_value push_child prune_and rarest
both_resolve = refl

both_eval : eval blocks none both_resolved ≡ ok (Selection.ids two_docs)
unfolding eval expand_ids push_set sort_by
both_eval = refl

candidates_superset_example : Has 2 two_docs
candidates_superset_example =
    candidates_superset 4 sparse lookup blocks posted none both_grams both_resolved
      (Selection.ids two_docs) 2 lookup-IsIndex blocks-IsAscending both_resolve both_eval
      ((2, inr (inl refl), refl), ((2, inr (inl refl), refl), tt))

eval-Ascends_example : SelectionAscends (Selection.ids two_docs)
eval-Ascends_example =
    eval-Ascends blocks none blocks-IsAscending both_resolved (Selection.ids two_docs) both_eval

unpack-pack_example : unpack_posting (7 + 2 * 2 ^ 40) ≡ (7, 2)
unpack-pack_example =
    unpack-pack 7 2 (7 + 2 * 2 ^ 40) (pack_accepts 7 2 (omega arith) (omega arith))

intersect-Has_example : Has 2 (intersect two_docs (1 ∷ 2 ∷ []))
intersect-Has_example =
    intersect-Has two_docs (1 ∷ 2 ∷ []) 0 1 2 (omega arith, (omega arith, tt))
      (omega arith, (omega arith, tt)) (inr (inl refl)) (inr (inl refl))

lookup-Returns : (g : List ℕ) → Returns (lookup g)
lookup-Returns [] = (none, refl)
lookup-Returns (b ∷ bs) = (some two_docs_value, refl)

lookup-HasRoom : (g : List ℕ) (v : TermValue) → lookup g ≡ ok (some v) → HasRoom 4 v
lookup-HasRoom [] v h = absurd (none_of h)
lookup-HasRoom (b ∷ bs) v h =
    let two =
      subst (λ (t : TermValue). (unpack_posting t.packed).1 ≡ 2) (value_of h) two_docs_count in
    λ e. absurd (omega (arith, two, e))

resolve-Returns_example : Returns (resolve 4 sparse lookup both_grams)
resolve-Returns_example = resolve-Returns 4 sparse lookup lookup-Returns lookup-HasRoom both_grams

eval-blocks_needed_example : Returns (eval blocks none both_resolved)
eval-blocks_needed_example =
    eval-blocks_needed blocks none both_resolved
      (unfold blocks_needed in ((two_docs, refl), ((two_docs, refl), tt)))

-- A lookup that knows only the grams of the query.
abbrev prefetched : List ℕ → Result Error (Option TermValue)
prefetched (b ∷ c ∷ []) = ok (some two_docs_value)
prefetched g = err lookup_failed

prefetched-agrees :
    (g : List ℕ) → Has g (collect_query_grams (both_grams ∷ [])) → lookup g ≡ prefetched g
unfolding collect_query_grams grams_of grams_of_queries
prefetched-agrees g m =
    on_grams (Has-sort_dedup bytes_le bytes_eq g ((97 ∷ 98 ∷ []) ∷ (98 ∷ 99 ∷ []) ∷ []) m)
  where
    at : (h : List ℕ) → lookup h ≡ prefetched h → g ≡ h → lookup g ≡ prefetched g
    at h e p = subst (λ (t : List ℕ). lookup t ≡ prefetched t) (sym p) e

    on_grams : Has g ((97 ∷ 98 ∷ []) ∷ (98 ∷ 99 ∷ []) ∷ []) → lookup g ≡ prefetched g
    on_grams (inl e) = at (97 ∷ 98 ∷ []) refl e
    on_grams (inr (inl e)) = at (98 ∷ 99 ∷ []) refl e
    on_grams (inr (inr m')) = elim m' [ ]

bind-collected_example :
    bind_queries (both_grams ∷ []) 4 sparse lookup
    ≡ bind_queries (both_grams ∷ []) 4 sparse prefetched
bind-collected_example =
    bind-collected 4 sparse lookup prefetched (both_grams ∷ []) prefetched-agrees
