-- ===== src/Grams/Subset.antt =====
-- Query-time grams are index-time grams of every document around the literal, for both strategies.
use holys.Common.{ℕ, sym, subst, List, [], ◌∷◌, ◌++◌, map, Has, Has-map, map-Has, Subset, inl, inr}
use holys.Common.Sorting.{sort_ids, sort_ids-Has, Has-sort_ids}
use holys.Grams.{
  Strategy, trigram, sparse, pack_windows, pack_trigram_grams, unpack_gram, trigram_grams_bytes,
}
use holys.Grams.{grams_index, grams_query}
use holys.Grams.Covering.{covering-subset-all}

windows-cons : (x : ℕ) (xs : List ℕ) → Subset (pack_windows xs) (pack_windows (x ∷ xs))
unfolding pack_windows
windows-cons x [] g m = elim m [ ]
windows-cons x (a ∷ []) g m = elim m [ ]
windows-cons x (a ∷ b ∷ []) g m = elim m [ ]
windows-cons x (a ∷ b ∷ c ∷ rest) g m = inr m

windows-prefix : (xs ys : List ℕ) → Subset (pack_windows xs) (pack_windows (xs ++ ys))
unfolding pack_windows
windows-prefix [] ys g m = elim m [ ]
windows-prefix (a ∷ []) ys g m = elim m [ ]
windows-prefix (a ∷ b ∷ []) ys g m = elim m [ ]
windows-prefix (a ∷ b ∷ c ∷ rest) ys g (inl e) = inl e
windows-prefix (a ∷ b ∷ c ∷ rest) ys g (inr m) = inr (windows-prefix (b ∷ c ∷ rest) ys g m)

windows-infix :
    (pre lit post : List ℕ) → Subset (pack_windows lit) (pack_windows (pre ++ (lit ++ post)))
windows-infix [] lit post g m = windows-prefix lit post g m
windows-infix (x ∷ pre) lit post g m =
    windows-cons x (pre ++ (lit ++ post)) g (windows-infix pre lit post g m)

trigrams-subset :
    (pre lit post : List ℕ)
    → Subset (trigram_grams_bytes lit) (trigram_grams_bytes (pre ++ (lit ++ post)))
unfolding trigram_grams_bytes pack_trigram_grams
trigrams-subset pre lit post gram m =
    let (g, mg, e) = map-Has unpack_gram (sort_ids (pack_windows lit)) gram m in
    subst (λ (t : List ℕ). Has t (map unpack_gram (sort_ids (pack_windows (pre ++ (lit ++ post))))))
      (sym e)
      (Has-map unpack_gram (sort_ids (pack_windows (pre ++ (lit ++ post)))) g
        (sort_ids-Has g _ (windows-infix pre lit post g (Has-sort_ids g (pack_windows lit) mg))))

-- Whatever the strategy and the hash, every gram that a query derives from a literal is among the grams
-- that the indexer writes for any document that contains the literal, trigrams being made by sorting.
pub query-subset-index :
    (rapidhash_v3 : List ℕ → ℕ) (s : Strategy) (pre lit post : List ℕ)
    → Subset (grams_query rapidhash_v3 lit s) (grams_index rapidhash_v3 (pre ++ (lit ++ post)) s)
unfolding grams_query grams_index
query-subset-index rapidhash_v3 trigram pre lit post g m = trigrams-subset pre lit post g m
query-subset-index rapidhash_v3 sparse pre lit post g m =
    covering-subset-all rapidhash_v3 pre lit post g m
