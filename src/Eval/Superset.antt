-- ===== src/Eval/Superset.antt =====
-- Evaluation returns every id that the resolved query accepts; with the binding lemma, the candidate
-- set is a superset of what the query accepts.
use holys.Common.{ℕ, ◌≡◌, refl, subst, Option, none, some, List, [], ◌∷◌, Has, All, inl, inr, ◌⊎◌}
use holys.Common.{Result, ok, >>=-eq-ok, ok-injective, ok-ne-err, context, sym, ap, arith}
use holys.Common.Ascending.{IsAscending}
use holys.Grams.{Strategy}
use holys.Query.{Query, Holds}
use holys.Eval.Resolve.{Error, block_not_fetched, TermValue, Resolved, Resolveds, resolve}
use holys.Eval.Select.{
  Selection, expand_ids, push_set, and_set, or_set, close_and_sets, close_or_sets,
}
use holys.Eval.Select.{eval, eval_and, eval_or}
use holys.Eval.Sets.{expand_ids-Has, expand_ids-IsAscending, union_many-Has, union_many-IsAscending}
use holys.Eval.Sets.{Selected, SelectionAscends, close_and_sets_lem, close_and_sets-Ascends}
use holys.Eval.Prune.{Accepts, AcceptsAll, AcceptsAny, IsIndex, Near, resolve_lem}

module _ (blocks : ℕ → Option (List ℕ)) (expand : Option (ℕ → ℕ × ℕ))
    (ascending : (offset : ℕ) (xs : List ℕ) → blocks offset ≡ some xs → IsAscending xs) where
  of_context :
      (offset : ℕ) (xs : List ℕ)
      → context (blocks offset) block_not_fetched ≡ ok xs
      → blocks offset ≡ some xs
  of_context offset xs h = cases (blocks offset) h
    where
      cases : (o : Option (List ℕ)) → context o block_not_fetched ≡ ok xs → o ≡ some xs
      cases none e = absurd (ok-ne-err (sym e))
      cases (some ys) e = ap some (ok-injective e)

  abbrev SetsAscend : Option (List (List ℕ)) → Type 0
  SetsAscend none = Unit
  SetsAscend (some sets) = All IsAscending sets

  and_set-Ascends :
      (s : Selection) (rest : Result Error (Option (List (List ℕ))))
      (found : Option (List (List ℕ)))
      → and_set s rest ≡ ok found
      → SelectionAscends s
      → ((f : Option (List (List ℕ))) → rest ≡ ok f → SetsAscend f)
      → SetsAscend found
  unfolding and_set push_set
  and_set-Ascends Selection.all rest found h a k = k found h
  and_set-Ascends (Selection.ids []) rest found h a k = subst SetsAscend (ok-injective h) tt
  and_set-Ascends (Selection.ids (x ∷ xs)) rest found h a k =
      let (f, hf, e) = >>=-eq-ok rest (λ f. ok (push_set (x ∷ xs) f)) h in
      subst SetsAscend (ok-injective e) (grown f (k f hf))
    where
      grown : (f : Option (List (List ℕ))) → SetsAscend f → SetsAscend (push_set (x ∷ xs) f)
      grown none b = tt
      grown (some sets) b = (a, b)

  -- Every selection that the evaluator returns is strictly ascending.
  mutual
    unfolding eval eval_and eval_or close_or_sets

    eval_ascends : (r : Resolved) (s : Selection) → eval blocks expand r ≡ ok s → SelectionAscends s
    eval_ascends Resolved.all s h = subst SelectionAscends (ok-injective h) tt
    eval_ascends Resolved.none_at_all s h = subst SelectionAscends (ok-injective h) tt
    eval_ascends (Resolved.doc id) s h =
        subst SelectionAscends (ok-injective h)
          (expand_ids-IsAscending expand (id ∷ []) (omega arith, tt))
    eval_ascends (Resolved.gram offset count len) s h =
        let (xs, hx, e) =
          >>=-eq-ok (context (blocks offset) block_not_fetched)
            (λ f. ok (Selection.ids (expand_ids f expand))) h in
        subst SelectionAscends (ok-injective e)
          (expand_ids-IsAscending expand xs (ascending offset xs (of_context offset xs hx)))
    eval_ascends (Resolved.conj rs) s h =
        let (found, hf, e) = >>=-eq-ok (eval_and blocks expand rs) (λ f. ok (close_and_sets f)) h in
        subst SelectionAscends (ok-injective e) (
          close_and_sets-Ascends found
            (λ sets p. subst SetsAscend p (eval_and_ascends rs found hf)))
    eval_ascends (Resolved.disj rs) s h =
        let (found, hf, e) = >>=-eq-ok (eval_or blocks expand rs) (λ f. ok (close_or_sets f)) h in
        subst SelectionAscends (ok-injective e) (closed found)
      where
        closed : (found : Option (List (List ℕ))) → SelectionAscends (close_or_sets found)
        closed none = tt
        closed (some lists) = union_many-IsAscending lists

    eval_and_ascends :
        (rs : Resolveds) (found : Option (List (List ℕ)))
        → eval_and blocks expand rs ≡ ok found
        → SetsAscend found
    eval_and_ascends Resolveds.nil found h = subst SetsAscend (ok-injective h) tt
    eval_and_ascends (Resolveds.cons r rs) found h =
        let (s, hs, h') =
          >>=-eq-ok (eval blocks expand r) (λ s. and_set s (eval_and blocks expand rs)) h in
        and_set-Ascends s (eval_and blocks expand rs) found h' (eval_ascends r s hs)
          (eval_and_ascends rs)

  module _ (d : ℕ) where
    abbrev InAll : Option (List (List ℕ)) → Type 0
    InAll none = ⊥
    InAll (some sets) = All (Has d) sets

    abbrev InAny : Option (List (List ℕ)) → Type 0
    InAny none = Unit
    InAny (some lists) = (xs : List ℕ) × Has xs lists × Has d xs

    and_set_lem :
        (s : Selection) (rest : Result Error (Option (List (List ℕ))))
        (found : Option (List (List ℕ)))
        → and_set s rest ≡ ok found
        → Selected d s
        → ((f : Option (List (List ℕ))) → rest ≡ ok f → InAll f)
        → InAll found
    unfolding and_set push_set
    and_set_lem Selection.all rest found h m k = k found h
    and_set_lem (Selection.ids []) rest found h m k = elim m [ ]
    and_set_lem (Selection.ids (x ∷ xs)) rest found h m k =
        let (f, hf, e) = >>=-eq-ok rest (λ f. ok (push_set (x ∷ xs) f)) h in
        subst InAll (ok-injective e) (grown f (k f hf))
      where
        grown : (f : Option (List (List ℕ))) → InAll f → InAll (push_set (x ∷ xs) f)
        grown none b = b
        grown (some sets) b = (m, b)

    or_set_lem :
        (s : Selection) (rest : Result Error (Option (List (List ℕ))))
        (found : Option (List (List ℕ)))
        → or_set s rest ≡ ok found
        → Selected d s ⊎ ((f : Option (List (List ℕ))) → rest ≡ ok f → InAny f)
        → InAny found
    unfolding or_set push_set
    or_set_lem Selection.all rest found h k = subst InAny (ok-injective h) tt
    or_set_lem (Selection.ids xs) rest found h k =
        let (f, hf, e) = >>=-eq-ok rest (λ f. ok (push_set xs f)) h in
        subst InAny (ok-injective e) (grown f (elim k [ inl m ↦ inl m | inr k' ↦ inr (k' f hf) ]))
      where
        grown : (f : Option (List (List ℕ))) → Has d xs ⊎ InAny f → InAny (push_set xs f)
        grown none b = tt
        grown (some lists) (inl m) = (xs, inl refl, m)
        grown (some lists) (inr (ys, n, m)) = (ys, inr n, m)

    mutual
      unfolding eval eval_and eval_or close_or_sets

      eval_selects :
          (r : Resolved) (s : Selection)
          → eval blocks expand r ≡ ok s
          → Accepts blocks expand d r
          → Selected d s
      eval_selects Resolved.all s h a = subst (Selected d) (ok-injective h) tt
      eval_selects Resolved.none_at_all s h a = elim a [ ]
      eval_selects (Resolved.doc id) s h a =
          subst (Selected d) (ok-injective h) (expand_ids-Has expand (id ∷ []) id d (inl refl) a)
      eval_selects (Resolved.gram offset count len) s h (xs, hx, b, m, reach) =
          subst (Selected d) (ok-injective (rw hx at h)) (expand_ids-Has expand xs b d m reach)
      eval_selects (Resolved.conj rs) s h a =
          let (found, hf, e) =
            >>=-eq-ok (eval_and blocks expand rs) (λ f. ok (close_and_sets f)) h in
          subst (Selected d) (ok-injective e)
            (closed found (eval_and_ascends rs found hf) (eval_all rs found hf a))
        where
          closed :
              (found : Option (List (List ℕ)))
              → SetsAscend found
              → InAll found
              → Selected d (close_and_sets found)
          closed none asc m = elim m [ ]
          closed (some sets) asc m = close_and_sets_lem sets d asc m
      eval_selects (Resolved.disj rs) s h a =
          let (found, hf, e) = >>=-eq-ok (eval_or blocks expand rs) (λ f. ok (close_or_sets f)) h in
          subst (Selected d) (ok-injective e) (closed found (eval_any rs found hf a))
        where
          closed : (found : Option (List (List ℕ))) → InAny found → Selected d (close_or_sets found)
          closed none m = tt
          closed (some lists) (xs, n, m) = union_many-Has lists xs d n m

      eval_all :
          (rs : Resolveds) (found : Option (List (List ℕ)))
          → eval_and blocks expand rs ≡ ok found
          → AcceptsAll blocks expand d rs
          → InAll found
      eval_all Resolveds.nil found h a = subst InAll (ok-injective h) tt
      eval_all (Resolveds.cons r rs) found h (a, as') =
          let (s, hs, h') =
            >>=-eq-ok (eval blocks expand r) (λ s. and_set s (eval_and blocks expand rs)) h in
          and_set_lem s (eval_and blocks expand rs) found h' (eval_selects r s hs a)
            (λ f hf. eval_all rs f hf as')

      eval_any :
          (rs : Resolveds) (found : Option (List (List ℕ)))
          → eval_or blocks expand rs ≡ ok found
          → AcceptsAny blocks expand d rs
          → InAny found
      eval_any Resolveds.nil found h a = elim a [ ]
      eval_any (Resolveds.cons r rs) found h a =
          let (s, hs, h') =
            >>=-eq-ok (eval blocks expand r) (λ s. or_set s (eval_or blocks expand rs)) h in
          or_set_lem s (eval_or blocks expand rs) found h' (elim a [
            | inl one ↦ inl (eval_selects r s hs one)
            | inr rest ↦ inr (λ f hf. eval_any rs f hf rest)
          ])

    pub eval_lem :
        (r : Resolved) (s : Selection)
        → eval blocks expand r ≡ ok s
        → Accepts blocks expand d r
        → Selected d s
    eval_lem r s h a = eval_selects r s h a

  pub eval-Ascends :
      (r : Resolved) (s : Selection) → eval blocks expand r ≡ ok s → SelectionAscends s
  eval-Ascends r s h = eval_ascends r s h

-- Candidates are a superset: over an index whose dictionary and blocks give each gram's posting list,
-- with ascending blocks, every id that the query accepts by its grams' postings is selected, whatever
-- the strategy and the expansion.
pub candidates_superset :
    (id_space : ℕ) (strategy : Strategy) (lookup : List ℕ → Result Error (Option TermValue))
    (blocks : ℕ → Option (List ℕ)) (posted : List ℕ → List ℕ) (expand : Option (ℕ → ℕ × ℕ))
    (q : Query) (r : Resolved) (s : Selection) (d : ℕ)
    → IsIndex id_space lookup blocks posted
    → ((offset : ℕ) (xs : List ℕ) → blocks offset ≡ some xs → IsAscending xs)
    → resolve id_space strategy lookup q ≡ ok r
    → eval blocks expand r ≡ ok s
    → Holds (Near posted expand d) q
    → Selected d s
candidates_superset id_space strategy lookup blocks posted expand q r s d index ascending hr he
      holds =
    eval_lem blocks expand ascending d r s he
      (resolve_lem id_space strategy lookup blocks posted index expand d q r hr holds)
