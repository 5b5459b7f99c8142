-- ===== src/Eval/Returns.antt =====
-- When resolving and evaluating give a result: the lookups answer, the singletons are in range and the
-- blocks that `blocks_needed` names were fetched.
use holys.Common.{ℕ, ◌≡◌, refl, ap, List, [], ◌∷◌, Option, none, some, All, All-split}
use holys.Common.{Result, ok, err, ◌>>=◌, context}
use holys.Eval.Resolve.{Error, block_not_fetched, Resolved, Resolveds}
use holys.Eval.Select.{
  Selection, expand_ids, push_set, and_set, or_set, close_and_sets, close_or_sets,
}
use holys.Eval.Select.{eval, eval_and, eval_or, blocks_needed, blocks_of}

-- A computation that gives a result.
abbrev pub Returns : {A : Type 0} → Result Error A → Type 0
Returns {A = A} m = (a : A) × (m ≡ ok a)

pub bind-Returns :
    {A B : Type 0} (m : Result Error A) (f : A → Result Error B)
    → Returns m
    → ((a : A) → Returns (f a))
    → Returns (m >>= f)
bind-Returns (ok a) f r k = k a
bind-Returns (err e) f (a, h) k = absurd (cc)

module _ (blocks : ℕ → Option (List ℕ)) (expand : Option (ℕ → ℕ × ℕ)) where
  -- A needed block that was fetched.
  abbrev pub IsFetched : ℕ × ℕ × ℕ → Type 0
  IsFetched (offset, count, len) = (found : List ℕ) × (blocks offset ≡ some found)

  and_set-Returns :
      (s : Selection) (rest : Result Error (Option (List (List ℕ))))
      → Returns rest
      → Returns (and_set s rest)
  unfolding and_set
  and_set-Returns Selection.all rest r = r
  and_set-Returns (Selection.ids []) rest r = (none, refl)
  and_set-Returns (Selection.ids (x ∷ xs)) rest r =
      bind-Returns rest (λ f. ok (push_set (x ∷ xs) f)) r (λ f. (push_set (x ∷ xs) f, refl))

  or_set-Returns :
      (s : Selection) (rest : Result Error (Option (List (List ℕ))))
      → Returns rest
      → Returns (or_set s rest)
  unfolding or_set
  or_set-Returns Selection.all rest r = (none, refl)
  or_set-Returns (Selection.ids xs) rest r =
      bind-Returns rest (λ f. ok (push_set xs f)) r (λ f. (push_set xs f, refl))

  mutual
    unfolding eval eval_and eval_or blocks_needed blocks_of

    eval_one-Returns :
        (r : Resolved) → All IsFetched (blocks_needed r) → Returns (eval blocks expand r)
    eval_one-Returns Resolved.all h = (Selection.all, refl)
    eval_one-Returns Resolved.none_at_all h = (Selection.ids [], refl)
    eval_one-Returns (Resolved.doc id) h = (Selection.ids (expand_ids (id ∷ []) expand), refl)
    eval_one-Returns (Resolved.gram offset count len) ((found, e), h) =
        bind-Returns (context (blocks offset) block_not_fetched)
          (λ f. ok (Selection.ids (expand_ids f expand)))
          (found, ap (λ (o : Option (List ℕ)). context o block_not_fetched) e)
          (λ f. (Selection.ids (expand_ids f expand), refl))
    eval_one-Returns (Resolved.conj rs) h =
        bind-Returns (eval_and blocks expand rs) (λ f. ok (close_and_sets f))
          (children_and-Returns rs h) (λ f. (close_and_sets f, refl))
    eval_one-Returns (Resolved.disj rs) h =
        bind-Returns (eval_or blocks expand rs) (λ f. ok (close_or_sets f))
          (children_or-Returns rs h) (λ f. (close_or_sets f, refl))

    children_and-Returns :
        (rs : Resolveds) → All IsFetched (blocks_of rs) → Returns (eval_and blocks expand rs)
    children_and-Returns Resolveds.nil h = (some [], refl)
    children_and-Returns (Resolveds.cons r rs) h =
        let (a, b) = All-split IsFetched (blocks_needed r) (blocks_of rs) h in
        bind-Returns (eval blocks expand r) (λ s. and_set s (eval_and blocks expand rs))
          (eval_one-Returns r a)
          (λ s. and_set-Returns s (eval_and blocks expand rs) (children_and-Returns rs b))

    children_or-Returns :
        (rs : Resolveds) → All IsFetched (blocks_of rs) → Returns (eval_or blocks expand rs)
    children_or-Returns Resolveds.nil h = (some [], refl)
    children_or-Returns (Resolveds.cons r rs) h =
        let (a, b) = All-split IsFetched (blocks_needed r) (blocks_of rs) h in
        bind-Returns (eval blocks expand r) (λ s. or_set s (eval_or blocks expand rs))
          (eval_one-Returns r a)
          (λ s. or_set-Returns s (eval_or blocks expand rs) (children_or-Returns rs b))

  -- Where every block that `blocks_needed` names was fetched, evaluation gives a selection.
  pub eval-blocks_needed :
      (r : Resolved) → All IsFetched (blocks_needed r) → Returns (eval blocks expand r)
  eval-blocks_needed r h = eval_one-Returns r h
