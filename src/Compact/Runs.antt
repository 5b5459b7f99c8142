-- ===== src/Compact/Runs.antt =====
-- The theorems on compaction at a list of two documents, one of them dead, and at nine small segments.
use holys.Common.{ℕ, ◌+◌, ◌<◌, ◌≤◌, ◌≡◌, ◌⊎◌, refl, arith}
use holys.Common.{List, [], ◌∷◌, length, All, Option, none, some, Result, ok, true, false}
use holys.Grams.{trigram}
use holys.Candidate.{partition_point}
use holys.Candidate.Bases.{Located}
use holys.Compact.Entry.{Error, remap_posting_id}
use holys.Compact.Live.{remap_posting_id-Located}
use holys.Compact.Victim.{Segment, SegmentMeta, no_dead, maybe_compact}
use holys.Compact.Fits.{IsSegment, NoneFits, Merged, maybe_compact-Merged}

-- Documents of two and of three blocks; the second is now the first.
abbrev old_two : List ℕ
old_two = 0 ∷ 2 ∷ 5 ∷ []

remap_posting_id-Located_example :
    remap_posting_id trigram (none ∷ some 0 ∷ []) old_two (0 ∷ 3 ∷ []) 4 ≡ ok (some 2)
remap_posting_id-Located_example =
    remap_posting_id-Located (none ∷ some 0 ∷ []) old_two (0 ∷ 3 ∷ []) 4 0 0 place refl refl
      (omega arith)
  where
    place : Located 4 old_two
    place = record {
      index = 1;
      start = 2;
      next = 5;
      found = unfold partition_point in refl;
      at_start = refl;
      at_next = refl;
      from_start = omega arith;
      below_next = omega arith;
    }

abbrev eight_bytes : List ℕ
eight_bytes = 0 ∷ 0 ∷ 0 ∷ 0 ∷ 0 ∷ 0 ∷ 1 ∷ 2 ∷ []

abbrev one_dead : List (Option ℕ)
one_dead = some 7 ∷ none ∷ some 3 ∷ []

abbrev segment_of : ℕ → Segment
segment_of docs = record {
  meta = record {
    doc_count = docs;
    block_count = docs;
    terms_fst_len = 10;
    postings_len = 10;
    docs_len = 10;
  };
  dead = no_dead;
}

abbrev nine_segments : List Segment
nine_segments =
    segment_of 9
    ∷ segment_of 3
    ∷ segment_of 4
    ∷ segment_of 8
    ∷ segment_of 7
    ∷ segment_of 6
    ∷ segment_of 5
    ∷ segment_of 9
    ∷ segment_of 9
    ∷ []

abbrev merge_metas : Segment → Segment → Result Error SegmentMeta
merge_metas s t = ok (record s.meta { doc_count = s.meta.doc_count + t.meta.doc_count })

abbrev eight_segments : List Segment
eight_segments =
    segment_of 9
    ∷ record { meta = record (segment_of 3).meta { doc_count = 7 }; dead = no_dead }
    ∷ segment_of 8
    ∷ segment_of 7
    ∷ segment_of 6
    ∷ segment_of 5
    ∷ segment_of 9
    ∷ segment_of 9
    ∷ []

-- Of the nine, those of 3 and of 4 documents are merged.
nine_segments_merged : maybe_compact merge_metas nine_segments ≡ ok (true, eight_segments)
unfolding maybe_compact
nine_segments_merged = refl

maybe_compact-Merged_example :
    ((maybe_compact merge_metas nine_segments ≡ ok (false, nine_segments))
      × ((length nine_segments ≤ 8) ⊎ NoneFits nine_segments))
    ⊎ ((8 < length nine_segments)
        × Merged merge_metas nine_segments (maybe_compact merge_metas nine_segments))
maybe_compact-Merged_example = maybe_compact-Merged merge_metas nine_segments loaded
  where
    loaded : All IsSegment nine_segments
    loaded = (
      (omega arith, omega arith),
      (
        (omega arith, omega arith),
        (
          (omega arith, omega arith),
          (
            (omega arith, omega arith),
            (
              (omega arith, omega arith),
              (
                (omega arith, omega arith),
                (
                  (omega arith, omega arith),
                  ((omega arith, omega arith), ((omega arith, omega arith), tt)),
                ),
              ),
            ),
          ),
        ),
      ),
    )
