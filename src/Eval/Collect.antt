-- ===== src/Eval/Collect.antt =====
-- collect_query_grams and bind_queries of crates/index/src/eval.rs: the grams whose terms are fetched
-- before the queries resolve, and that they are all that resolving looks up.
use holys.Common.{
  ℕ, ◌≡◌, refl, ap, ◌∙◌, List, [], ◌∷◌, ◌++◌, Option, Has, Has-append_left, Has-append_right, inl,
}
use holys.Common.{Result, ok, err, ◌>>=◌}
use holys.Common.Sorting.{sort_dedup, sort_dedup-Has}
use holys.Grams.{Strategy, bytes_le, bytes_eq}
use holys.Grams.Covering.{bytes_eq→eq}
use holys.Query.{Query, Queries}
use holys.Eval.Resolve.{
  Error, TermValue, Resolved, resolve, resolve_and, resolve_or, resolve_gram, and_child, or_child,
  close_and, close_or,
}

-- The grams of a query. The source walks it with a stack, in another order, and sorts them behind.
unfoldable mutual
  pub grams_of : Query → List (List ℕ)
  grams_of Query.all = []
  grams_of (Query.gram g) = g ∷ []
  grams_of (Query.conj qs) = grams_of_all qs
  grams_of (Query.disj qs) = grams_of_all qs

  pub grams_of_all : Queries → List (List ℕ)
  grams_of_all Queries.nil = []
  grams_of_all (Queries.cons q qs) = grams_of q ++ grams_of_all qs

unfoldable pub grams_of_queries : List Query → List (List ℕ)
unfolding grams_of
grams_of_queries [] = []
grams_of_queries (q ∷ qs) = grams_of q ++ grams_of_queries qs

unfoldable pub collect_query_grams : List Query → List (List ℕ)
unfolding grams_of_queries
collect_query_grams queries = sort_dedup bytes_le bytes_eq (grams_of_queries queries)

unfoldable pub bind_queries :
    List Query
    → ℕ
    → Strategy
    → (List ℕ → Result Error (Option TermValue))
    → Result Error (List Resolved)
bind_queries [] id_space strategy lookup = ok []
bind_queries (q ∷ qs) id_space strategy lookup = resolve id_space strategy lookup q >>= λ r.
    bind_queries qs id_space strategy lookup >>= λ rs. ok (r ∷ rs)

bind-cong :
    {A B : Type 0} (m m' : Result Error A) (f f' : A → Result Error B)
    → m ≡ m'
    → ((a : A) → f a ≡ f' a)
    → (m >>= f) ≡ (m' >>= f')
bind-cong {A = A} m m' f f' e k = ap (λ t. t >>= f) e ∙ rest m'
  where
    rest : (t : Result Error A) → (t >>= f) ≡ (t >>= f')
    rest (ok a) = k a
    rest (err x) = refl

module _ (id_space : ℕ) (strategy : Strategy)
    (lookup lookup' : List ℕ → Result Error (Option TermValue)) where
  -- The lookups give the same value for every gram of the list.
  abbrev pub Agrees : List (List ℕ) → Type 0
  Agrees grams = (g : List ℕ) → Has g grams → lookup g ≡ lookup' g

  mutual
    unfolding resolve resolve_and resolve_or grams_of grams_of_all

    resolve-cong :
        (q : Query)
        → Agrees (grams_of q)
        → resolve id_space strategy lookup q ≡ resolve id_space strategy lookup' q
    resolve-cong Query.all k = refl
    resolve-cong (Query.gram g) k =
        ap (λ t. t >>= λ found. resolve_gram id_space found) (k g (inl refl))
    resolve-cong (Query.conj qs) k =
        ap (λ t. t >>= λ found. ok (close_and strategy found)) (resolve_and-cong qs k)
    resolve-cong (Query.disj qs) k =
        ap (λ t. t >>= λ found. ok (close_or found)) (resolve_or-cong qs k)

    resolve_and-cong :
        (qs : Queries)
        → Agrees (grams_of_all qs)
        → resolve_and id_space strategy lookup qs ≡ resolve_and id_space strategy lookup' qs
    resolve_and-cong Queries.nil k = refl
    resolve_and-cong (Queries.cons q qs) k =
        bind-cong _ _ (λ r. and_child r (resolve_and id_space strategy lookup qs))
          (λ r. and_child r (resolve_and id_space strategy lookup' qs))
          (resolve-cong q (λ g m. k g (Has-append_left (grams_of q) (grams_of_all qs) g m)))
          (λ r. ap (and_child r) (
            resolve_and-cong qs (λ g m. k g (Has-append_right (grams_of q) (grams_of_all qs) g m))))

    resolve_or-cong :
        (qs : Queries)
        → Agrees (grams_of_all qs)
        → resolve_or id_space strategy lookup qs ≡ resolve_or id_space strategy lookup' qs
    resolve_or-cong Queries.nil k = refl
    resolve_or-cong (Queries.cons q qs) k =
        bind-cong _ _ (λ r. or_child r (resolve_or id_space strategy lookup qs))
          (λ r. or_child r (resolve_or id_space strategy lookup' qs))
          (resolve-cong q (λ g m. k g (Has-append_left (grams_of q) (grams_of_all qs) g m)))
          (λ r.
            ap (or_child r) (
              resolve_or-cong qs
                (λ g m. k g (Has-append_right (grams_of q) (grams_of_all qs) g m))))

  bind_queries-cong :
      (queries : List Query)
      → Agrees (grams_of_queries queries)
      → bind_queries queries id_space strategy lookup
        ≡ bind_queries queries id_space strategy lookup'
  unfolding bind_queries grams_of_queries
  bind_queries-cong [] k = refl
  bind_queries-cong (q ∷ qs) k =
      bind-cong _ _ (λ r. bind_queries qs id_space strategy lookup >>= λ rs. ok (r ∷ rs))
        (λ r. bind_queries qs id_space strategy lookup' >>= λ rs. ok (r ∷ rs))
        (resolve-cong q (λ g m. k g (Has-append_left (grams_of q) (grams_of_queries qs) g m)))
        (λ r.
          ap (λ t. t >>= λ rs. ok (r ∷ rs))
            (bind_queries-cong qs
              (λ g m. k g (Has-append_right (grams_of q) (grams_of_queries qs) g m))))

  -- The collected grams are all that binding looks up: two lookups that agree on them bind alike.
  pub bind-collected :
      (queries : List Query)
      → Agrees (collect_query_grams queries)
      → bind_queries queries id_space strategy lookup
        ≡ bind_queries queries id_space strategy lookup'
  unfolding collect_query_grams
  bind-collected queries k =
      bind_queries-cong queries
        (λ g m. k g (sort_dedup-Has bytes_le bytes_eq bytes_eq→eq g (grams_of_queries queries) m))
