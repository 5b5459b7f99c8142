-- ===== src/Eval/Prune.antt =====
-- Binding a query to the dictionary loses no document: simplifying, pruning an AND to its rarest
-- grams and dropping absent branches of an OR all keep what the query accepts.
use holys.Common.{ℕ, zero, suc, ◌<◌, ◌≡◌, ◌≢◌, refl, ◌^◌, subst, arith, Bool, false, ◌&&◌}
use holys.Common.{
  List, [], ◌∷◌, length, take, keep, any, Option, none, some, ltb, leb, ◌==◌, Bool-cases, inl, inr,
}
use holys.Common.{All, All-Has, All-of_Has, All-append, Has, Result, ok, ◌>>=◌, ◌⊎◌, ==→eq, leb→gt}
use holys.Common.{>>=-eq-ok, ok-injective, ensure-eq-ok}
use holys.Common.Sorting.{Has-sort_by}
use holys.Grams.{Strategy}
use holys.Query.{Query, Queries, Holds, HoldsAll, HoldsAny}
use holys.Eval.Resolve.{
  Error, singleton_outside, TermValue, unpack_posting, Resolved, Resolveds, children,
}
use holys.Eval.Resolve.{is_doc, is_gram, and_limit, only_child, rarest, conj_or_all, prune_and}
use holys.Eval.Resolve.{
  resolve_value, and_child, or_child, close_and, close_or, disj_or_none, resolve_gram, push_child,
}
use holys.Eval.Resolve.{resolve, resolve_and, resolve_or}
use holys.Eval.Sets.{Reaches}

module _ (blocks : ℕ → Option (List ℕ)) (expand : Option (ℕ → ℕ × ℕ)) (d : ℕ) where
  -- What a resolved query says of the id `d`, over the posting blocks.
  abbrev mutual
    pub Accepts : Resolved → Type 0
    Accepts Resolved.all = Unit
    Accepts Resolved.none_at_all = ⊥
    Accepts (Resolved.doc id) = Reaches expand id d
    Accepts (Resolved.gram offset count len) =
        (xs : List ℕ) × (blocks offset ≡ some xs) × (b : ℕ) × Has b xs × Reaches expand b d
    Accepts (Resolved.conj rs) = AcceptsAll rs
    Accepts (Resolved.disj rs) = AcceptsAny rs

    pub AcceptsAll : Resolveds → Type 0
    AcceptsAll Resolveds.nil = Unit
    AcceptsAll (Resolveds.cons r rs) = Accepts r × AcceptsAll rs

    pub AcceptsAny : Resolveds → Type 0
    AcceptsAny Resolveds.nil = ⊥
    AcceptsAny (Resolveds.cons r rs) = Accepts r ⊎ AcceptsAny rs

  All-children : (rs : List Resolved) → All Accepts rs → AcceptsAll (children rs)
  All-children [] h = tt
  All-children (r ∷ rs) (h, hs) = (h, All-children rs hs)

  any_children :
      (rs : List Resolved) (r : Resolved) → Has r rs → Accepts r → AcceptsAny (children rs)
  any_children [] r m h = elim m [ ]
  any_children (x ∷ rs) r (inl e) h = inl (subst Accepts e h)
  any_children (x ∷ rs) r (inr m) h = inr (any_children rs r m h)

  keep-All : (p : Resolved → Bool) (rs : List Resolved) → All Accepts rs → All Accepts (keep p rs)
  keep-All p [] h = tt
  keep-All p (r ∷ rs) (h, hs) = elim (Bool-cases (p r)) [
    | inl t ↦ rw (t, keep) (h, keep-All p rs hs)
    | inr f ↦ rw (f, keep) (keep-All p rs hs)
  ]

  take-All : (n : ℕ) (rs : List Resolved) → All Accepts rs → All Accepts (take n rs)
  take-All zero rs h = tt
  take-All (suc n) [] h = tt
  take-All (suc n) (r ∷ rs) (h, hs) = (h, take-All n rs hs)

  rarest-All : (limit : ℕ) (rs : List Resolved) → All Accepts rs → All Accepts (rarest limit rs)
  unfolding rarest
  rarest-All limit rs h = elim (Bool-cases (ltb limit (length rs))) [
    | inl t ↦ rw t (
        take-All limit _
          (All-of_Has Accepts _ (λ r m. All-Has Accepts rs r h (Has-sort_by _ r rs m))))
    | inr f ↦ rw f h
  ]

  only_child-All :
      (rs : List Resolved) → All Accepts rs → Accepts (only_child rs (Resolved.conj (children rs)))
  unfolding only_child
  only_child-All [] h = tt
  only_child-All (r ∷ []) (h, hs) = h
  only_child-All (r ∷ s ∷ rs) h = All-children (r ∷ s ∷ rs) h

  conj_or_all-All : (rs : List Resolved) → All Accepts rs → Accepts (conj_or_all rs)
  unfolding conj_or_all
  conj_or_all-All [] h = tt
  conj_or_all-All (r ∷ rs) h = only_child-All (r ∷ rs) h

  -- What all children of an AND accept, the pruned AND accepts.
  prune_and_lem :
      (rs : List Resolved) (strategy : Strategy) → All Accepts rs → Accepts (prune_and rs strategy)
  unfolding prune_and
  prune_and_lem rs strategy h = elim (Bool-cases (any is_doc rs)) [
    | inl t ↦ rw t (only_child-All _ (keep-All _ rs h))
    | inr f ↦ rw f (
        conj_or_all-All _ (
          All-append Accepts _ _ (rarest-All (and_limit strategy) _ (keep-All is_gram rs h))
            (keep-All _ rs h)))
  ]

  abbrev FoundAll : Option (List Resolved) → Type 0
  FoundAll none = ⊥
  FoundAll (some rs) = All Accepts rs

  abbrev FoundAny : Option (List Resolved) → Type 0
  FoundAny none = Unit
  FoundAny (some rs) = (r : Resolved) × Has r rs × Accepts r

  push_all :
      (r : Resolved) (rest : Result Error (Option (List Resolved))) (found : Option (List Resolved))
      → (rest >>= λ f. ok (push_child r f)) ≡ ok found
      → Accepts r
      → ((f : Option (List Resolved)) → rest ≡ ok f → FoundAll f)
      → FoundAll found
  unfolding push_child
  push_all r rest found h a k =
      let (f, hf, e) = >>=-eq-ok rest (λ f. ok (push_child r f)) h in
      subst FoundAll (ok-injective e) (grown f (k f hf))
    where
      grown : (f : Option (List Resolved)) → FoundAll f → FoundAll (push_child r f)
      grown none b = b
      grown (some rs) b = (a, b)

  push_any :
      (r : Resolved) (rest : Result Error (Option (List Resolved))) (found : Option (List Resolved))
      → (rest >>= λ f. ok (push_child r f)) ≡ ok found
      → Accepts r ⊎ ((f : Option (List Resolved)) → rest ≡ ok f → FoundAny f)
      → FoundAny found
  unfolding push_child
  push_any r rest found h k =
      let (f, hf, e) = >>=-eq-ok rest (λ f. ok (push_child r f)) h in
      subst FoundAny (ok-injective e) (grown f (elim k [ inl a ↦ inl a | inr k' ↦ inr (k' f hf) ]))
    where
      grown : (f : Option (List Resolved)) → Accepts r ⊎ FoundAny f → FoundAny (push_child r f)
      grown none b = tt
      grown (some rs) (inl a) = (r, inl refl, a)
      grown (some rs) (inr (s, m, a)) = (s, inr m, a)

  and_child_lem :
      (r : Resolved) (rest : Result Error (Option (List Resolved))) (found : Option (List Resolved))
      → and_child r rest ≡ ok found
      → Accepts r
      → ((f : Option (List Resolved)) → rest ≡ ok f → FoundAll f)
      → FoundAll found
  unfolding and_child
  and_child_lem Resolved.none_at_all rest found h a k = elim a [ ]
  and_child_lem Resolved.all rest found h a k = k found h
  and_child_lem r rest found h a k = push_all r rest found h a k

  or_child_lem :
      (r : Resolved) (rest : Result Error (Option (List Resolved))) (found : Option (List Resolved))
      → or_child r rest ≡ ok found
      → Accepts r ⊎ ((f : Option (List Resolved)) → rest ≡ ok f → FoundAny f)
      → FoundAny found
  unfolding or_child
  or_child_lem Resolved.all rest found h k = subst FoundAny (ok-injective h) tt
  or_child_lem Resolved.none_at_all rest found h (inl a) = elim a [ ]
  or_child_lem Resolved.none_at_all rest found h (inr k) = k found h
  or_child_lem r rest found h k = push_any r rest found h k

  close_or_lem : (found : Option (List Resolved)) → FoundAny found → Accepts (close_or found)
  unfolding close_or disj_or_none only_child
  close_or_lem none a = tt
  close_or_lem (some []) (r, m, a) = elim m [ ]
  close_or_lem (some (x ∷ [])) (r, inl e, a) = subst Accepts e a
  close_or_lem (some (x ∷ [])) (r, inr m, a) = elim m [ ]
  close_or_lem (some (x ∷ y ∷ rs)) (r, m, a) = any_children (x ∷ y ∷ rs) r m a

  close_and_lem :
      (strategy : Strategy) (found : Option (List Resolved))
      → FoundAll found
      → Accepts (close_and strategy found)
  unfolding close_and
  close_and_lem strategy none a = elim a [ ]
  close_and_lem strategy (some rs) a = prune_and_lem rs strategy a

-- What the dictionary and the fetched blocks say of the posting list of each gram.
pub record IsIndex (id_space : ℕ) (lookup : List ℕ → Result Error (Option TermValue))
    (blocks : ℕ → Option (List ℕ)) (posted : List ℕ → List ℕ) : Type 0 where
  pub absent : (g : List ℕ) → lookup g ≡ ok none → posted g ≡ []
  pub single :
      (g : List ℕ) (v : TermValue)
      → lookup g ≡ ok (some v)
      → (unpack_posting v.packed).1 ≡ 1
      → posted g ≡ (unpack_posting v.packed).0 ∷ []
  pub stored :
      (g : List ℕ) (v : TermValue)
      → lookup g ≡ ok (some v)
      → (unpack_posting v.packed).1 ≢ 1
      → (unpack_posting v.packed).1 < id_space
      → blocks (unpack_posting v.packed).0 ≡ some (posted g)

-- A posting of the gram speaks for the id `d`.
abbrev pub Near : (List ℕ → List ℕ) → Option (ℕ → ℕ × ℕ) → ℕ → List ℕ → Type 0
Near posted expand d g = (b : ℕ) × Has b (posted g) × Reaches expand b d

module _ (id_space : ℕ) (strategy : Strategy) (lookup : List ℕ → Result Error (Option TermValue))
    (blocks : ℕ → Option (List ℕ)) (posted : List ℕ → List ℕ)
    (index : IsIndex id_space lookup blocks posted) (expand : Option (ℕ → ℕ × ℕ)) (d : ℕ) where
  resolve_value_lem :
      (g : List ℕ) (v : TermValue) (r : Resolved)
      → lookup g ≡ ok (some v)
      → resolve_value id_space v ≡ ok r
      → Near posted expand d g
      → Accepts blocks expand d r
  unfolding resolve_value
  resolve_value_lem g v r l h (b, m, reach) =
      let (offset, count) = unpack_posting v.packed in
      elim (Bool-cases (count == 1)) [
        | inl one ↦
            let (_, e) =
              ensure-eq-ok (ltb offset (2 ^ 32) && ltb offset id_space) singleton_outside _
                (rw one at h) in
            subst (Accepts blocks expand d) (ok-injective e) (
              subst (λ (t : ℕ). Reaches expand t d)
                (only b (subst (Has b) (index.single g v l (==→eq count 1 one)) m)) reach)
        | inr more ↦ elim (Bool-cases (leb id_space count)) [
          | inl full ↦ subst (Accepts blocks expand d) (ok-injective (rw (more, full) at h)) tt
          | inr part ↦ subst (Accepts blocks expand d) (ok-injective (rw (more, part) at h)) (
            posted g,
            index.stored g v l (λ e. differs count 1 e more) (leb→gt id_space count part),
            b,
            m,
            reach,
          )
        ]
      ]
    where
      only : (b : ℕ) {x : ℕ} → Has b (x ∷ []) → b ≡ x
      only b (inl e) = e
      only b (inr n) = elim n [ ]

      differs : (x y : ℕ) → x ≡ y → (x == y) ≡ false → ⊥
      differs x y e f = ground arith

  resolve_gram_lem :
      (g : List ℕ) (found : Option TermValue) (r : Resolved)
      → lookup g ≡ ok found
      → resolve_gram id_space found ≡ ok r
      → Near posted expand d g
      → Accepts blocks expand d r
  unfolding resolve_gram
  resolve_gram_lem g none r l h (b, m, reach) = elim (subst (Has b) (index.absent g l) m) [ ]
  resolve_gram_lem g (some v) r l h near = resolve_value_lem g v r l h near

  -- What a query accepts, by the postings of its grams, its resolved form accepts.
  mutual
    unfolding resolve resolve_and resolve_or

    resolve_query :
        (q : Query) (r : Resolved)
        → resolve id_space strategy lookup q ≡ ok r
        → Holds (Near posted expand d) q
        → Accepts blocks expand d r
    resolve_query Query.all r h a = subst (Accepts blocks expand d) (ok-injective h) tt
    resolve_query (Query.gram g) r h a =
        let (found, hf, h') = >>=-eq-ok (lookup g) (λ f. resolve_gram id_space f) h in
        resolve_gram_lem g found r hf h' a
    resolve_query (Query.conj qs) r h a =
        let (found, hf, e) =
          >>=-eq-ok (resolve_and id_space strategy lookup qs) (λ f. ok (close_and strategy f)) h in
        subst (Accepts blocks expand d) (ok-injective e)
          (close_and_lem blocks expand d strategy found (resolve_all qs found hf a))
    resolve_query (Query.disj qs) r h a =
        let (found, hf, e) =
          >>=-eq-ok (resolve_or id_space strategy lookup qs) (λ f. ok (close_or f)) h in
        subst (Accepts blocks expand d) (ok-injective e)
          (close_or_lem blocks expand d found (resolve_any qs found hf a))

    resolve_all :
        (qs : Queries) (found : Option (List Resolved))
        → resolve_and id_space strategy lookup qs ≡ ok found
        → HoldsAll (Near posted expand d) qs
        → FoundAll blocks expand d found
    resolve_all Queries.nil found h a = subst (FoundAll blocks expand d) (ok-injective h) tt
    resolve_all (Queries.cons q qs) found h (a, as') =
        let (r, hr, h') =
          >>=-eq-ok (resolve id_space strategy lookup q)
            (λ r. and_child r (resolve_and id_space strategy lookup qs)) h in
        and_child_lem blocks expand d r (resolve_and id_space strategy lookup qs) found h'
          (resolve_query q r hr a) (λ f hf. resolve_all qs f hf as')

    resolve_any :
        (qs : Queries) (found : Option (List Resolved))
        → resolve_or id_space strategy lookup qs ≡ ok found
        → HoldsAny (Near posted expand d) qs
        → FoundAny blocks expand d found
    resolve_any Queries.nil found h a = elim a [ ]
    resolve_any (Queries.cons q qs) found h a =
        let (r, hr, h') =
          >>=-eq-ok (resolve id_space strategy lookup q)
            (λ r. or_child r (resolve_or id_space strategy lookup qs)) h in
        or_child_lem blocks expand d r (resolve_or id_space strategy lookup qs) found h' (elim a [
          | inl one ↦ inl (resolve_query q r hr one)
          | inr rest ↦ inr (λ f hf. resolve_any qs f hf rest)
        ])

  pub resolve_lem :
      (q : Query) (r : Resolved)
      → resolve id_space strategy lookup q ≡ ok r
      → Holds (Near posted expand d) q
      → Accepts blocks expand d r
  resolve_lem q r h a = resolve_query q r h a
