-- ===== src/Compact/Fits.antt =====
-- What maybe_compact of crates/index/src/segment/compact.rs merges, told apart from its tests: by the
-- sizes of the segments, and by their documents that are not dead.
use holys.Common.{
  ℕ, ◌+◌, ◌-◌, ◌^◌, ◌<◌, ◌≤◌, ◌≡◌, ◌↔◌, ◌⊎◌, refl, inl, inr, arith, leb, leb→le, le→leb, subst, ◌∙◌,
}
use holys.Common.{List, [], ◌∷◌, ◌++◌, length, All, All-split, Bool, true, false, &&→and}
use holys.Common.{Result, ok, ◌>>=◌}
use holys.Common.Word32.{saturating_add}
use holys.Compact.Victim.{
  Segment, SegmentMeta, no_dead, live, live_both, mergeable, maybe_compact, merge_postings_cap,
  merge_terms_cap, merge_docs_cap, segment_doc_cap,
}
use holys.Compact.Chosen.{IsLeast, Picked, bind_twice, maybe_compact-Picked}

-- A segment as it is loaded: its count is a u32, and no more documents are dead than there are.
abbrev pub IsSegment : Segment → Type 0
IsSegment s = (s.meta.doc_count < 2 ^ 32) × (length s.dead.documents ≤ s.meta.doc_count)

abbrev pub live_docs : Segment → ℕ
live_docs s = s.meta.doc_count - length s.dead.documents

-- Both together have 256 MiB of postings, 64 MiB of terms, 64 MiB of document tables, 4,000,000
-- documents that are not dead and 2^24 - 1 candidate blocks at most.
pub record Fits (s t : Segment) : Type 0 where
  pub postings : s.meta.postings_len + t.meta.postings_len ≤ 268435456
  pub terms : s.meta.terms_fst_len + t.meta.terms_fst_len ≤ 67108864
  pub docs : s.meta.docs_len + t.meta.docs_len ≤ 67108864
  pub documents : live_docs s + live_docs t ≤ 4000000
  pub blocks : s.meta.block_count + t.meta.block_count ≤ 16777215

-- No two neighbours fit that have fewer live documents than `least`.
abbrev pub LeastFits : ℕ → List Segment → Type 0
LeastFits least [] = Unit
LeastFits least (s ∷ []) = Unit
LeastFits least (s ∷ t ∷ segments) =
    (Fits s t → least ≤ live_docs s + live_docs t) × LeastFits least (t ∷ segments)

abbrev pub NoneFits : List Segment → Type 0
NoneFits [] = Unit
NoneFits (s ∷ []) = Unit
NoneFits (s ∷ t ∷ segments) = ¬ Fits s t × NoneFits (t ∷ segments)

live-live_docs : (s : Segment) → IsSegment s → live s ≡ live_docs s
unfolding live
live-live_docs s (small, dead) = omega (arith, small, dead)

saturating_le :
    (a b cap : ℕ) → cap < 2 ^ 64 - 1 → (leb (saturating_add a b) cap ≡ true) ↔ (a + b ≤ cap)
saturating_le a b cap small = (
  (λ t. ground (arith, leb→le (saturating_add a b) cap t)),
  λ l. le→leb (saturating_add a b) cap (ground (arith, l)),
)

live_both-live_docs :
    (s t : Segment) → IsSegment s → IsSegment t → live_both s t ≡ live_docs s + live_docs t
live_both-live_docs s t v w = ground (arith, live-live_docs s v, live-live_docs t w, v.0, w.0)

mergeable-Fits : (s t : Segment) → IsSegment s → IsSegment t → mergeable s t ≡ true → Fits s t
unfolding mergeable
mergeable-Fits s t v w h =
    let (p, h1) =
      &&→and (leb (saturating_add s.meta.postings_len t.meta.postings_len) merge_postings_cap) _
        h in
    let (f, h2) =
      &&→and (leb (saturating_add s.meta.terms_fst_len t.meta.terms_fst_len) merge_terms_cap) _
        h1 in
    let (d, h3) =
      &&→and (leb (saturating_add s.meta.docs_len t.meta.docs_len) merge_docs_cap) _ h2 in
    let (l, b) = &&→and (leb (live_both s t) segment_doc_cap) _ h3 in
    record {
      postings =
          (saturating_le s.meta.postings_len t.meta.postings_len 268435456 (omega arith)).0 p;
      terms = (saturating_le s.meta.terms_fst_len t.meta.terms_fst_len 67108864 (omega arith)).0 f;
      docs = (saturating_le s.meta.docs_len t.meta.docs_len 67108864 (omega arith)).0 d;
      documents =
          omega (arith, leb→le (live_both s t) segment_doc_cap l, live_both-live_docs s t v w);
      blocks = (saturating_le s.meta.block_count t.meta.block_count 16777215 (omega arith)).0 b;
    }

Fits-mergeable : (s t : Segment) → IsSegment s → IsSegment t → Fits s t → mergeable s t ≡ true
unfolding mergeable
Fits-mergeable s t v w f =
    rw
      (
        (saturating_le s.meta.postings_len t.meta.postings_len 268435456 (omega arith)).1
            f.postings,
        (saturating_le s.meta.terms_fst_len t.meta.terms_fst_len 67108864 (omega arith)).1 f.terms,
        (saturating_le s.meta.docs_len t.meta.docs_len 67108864 (omega arith)).1 f.docs,
        le→leb (live_both s t) 4000000 (omega (arith, f.documents, live_both-live_docs s t v w)),
        (saturating_le s.meta.block_count t.meta.block_count 16777215 (omega arith)).1 f.blocks,
      )
      refl

IsLeast-LeastFits :
    (least : ℕ) (segments : List Segment)
    → All IsSegment segments
    → IsLeast least segments
    → LeastFits least segments
IsLeast-LeastFits least [] v l = tt
IsLeast-LeastFits least (s ∷ []) v l = tt
IsLeast-LeastFits least (s ∷ t ∷ segments) (vs, (vt, v)) (here, l) = (
  (λ f.
      subst (λ (n : ℕ). least ≤ n) (live_both-live_docs s t vs vt)
        (here (Fits-mergeable s t vs vt f))),
  IsLeast-LeastFits least (t ∷ segments) (vt, v) l,
)

-- What is least whatever the bound has no neighbours that fit.
IsLeast-NoneFits :
    (segments : List Segment)
    → All IsSegment segments
    → ((least : ℕ) → IsLeast least segments)
    → NoneFits segments
IsLeast-NoneFits [] v l = tt
IsLeast-NoneFits (s ∷ []) v l = tt
IsLeast-NoneFits (s ∷ t ∷ segments) (vs, (vt, v)) l = (
  (λ f. too_few (live_both s t) ((l (1 + live_both s t)).0 (Fits-mergeable s t vs vt f))),
  IsLeast-NoneFits (t ∷ segments) (vt, v) (λ least. (l least).1),
)
  where
    too_few : (n : ℕ) → 1 + n ≤ n → ⊥
    too_few n h = omega (arith, h)

module _ {E : Type 0} (merge : Segment → Segment → Result E SegmentMeta) where
  -- Two neighbours that fit, of the least live documents of all that do, are replaced by what they are
  -- merged to, or the error of their merge is the result.
  abbrev pub Merged : List Segment → Result E (Bool × List Segment) → Type 0
  Merged segments result =
      (before after : List Segment) × (s t : Segment) × (segments ≡ before ++ (s ∷ t ∷ after))
      × (result ≡ (
          merge s t >>= λ meta.
          ok (true, before ++ (record { meta = meta; dead = no_dead } ∷ after))))
      × Fits s t
      × LeastFits (live_docs s + live_docs t) segments

  Picked-Merged :
      (segments : List Segment) (result : Result E (Bool × List Segment))
      → All IsSegment segments
      → Picked merge segments result
      → Merged segments result
  Picked-Merged segments result v (before, after, s, t, split, e, y, l) =
      let (vs, (vt, _)) =
        (All-split IsSegment before (s ∷ t ∷ after) (subst (All IsSegment) split v)).1 in
      (
        before,
        after,
        s,
        t,
        split,
        e
            ∙ bind_twice (merge s t)
                (λ meta. before ++ (record { meta = meta; dead = no_dead } ∷ after))
                (λ merged. (true, merged)),
        mergeable-Fits s t vs vt y,
        subst (λ (n : ℕ). LeastFits n segments) (live_both-live_docs s t vs vt)
            (IsLeast-LeastFits (live_both s t) segments v l),
      )

  -- For segments as they are loaded, compaction leaves them as they are, there being 8 or fewer or no two
  -- neighbours that fit; or there are more than 8, and two neighbours that fit, with the least live
  -- documents of all that do, are replaced by what they are merged to, where an error of the merge is the
  -- result.
  pub maybe_compact-Merged :
      (segments : List Segment)
      → All IsSegment segments
      → ((maybe_compact merge segments ≡ ok (false, segments))
          × ((length segments ≤ 8) ⊎ NoneFits segments))
        ⊎ ((8 < length segments) × Merged segments (maybe_compact merge segments))
  maybe_compact-Merged segments v = elim (maybe_compact-Picked merge segments) [
    | inl (same, inl few) ↦ inl (same, inl few)
    | inl (same, inr none_least) ↦ inl (same, inr (IsLeast-NoneFits segments v none_least))
    | inr (many, picked) ↦
        inr (many, Picked-Merged segments (maybe_compact merge segments) v picked)
  ]
