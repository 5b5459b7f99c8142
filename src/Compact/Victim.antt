-- ===== src/Compact/Victim.antt =====
-- maybe_compact of crates/index/src/segment/compact.rs: two neighbours of the least live documents are
-- merged. `merge_segments`, which reads and writes the store, is a parameter.
use holys.Common.{ℕ, zero, suc, ◌+◌, ◌-◌, ◌*◌, ◌%◌, ◌^◌, leb, Bool, true, false, ◌&&◌}
use holys.Common.{List, [], ◌∷◌, length, Option, none, some, if◌then◌else◌}
use holys.Common.{Result, ok, ◌>>=◌}
use holys.Common.Word32.{saturating_add}

abbrev pub segment_count_target : ℕ
segment_count_target = 8

abbrev pub segment_doc_cap : ℕ
segment_doc_cap = 4000000

abbrev pub merge_postings_cap : ℕ
merge_postings_cap = 256 * 1024 * 1024

abbrev pub merge_terms_cap : ℕ
merge_terms_cap = 64 * 1024 * 1024

abbrev pub merge_docs_cap : ℕ
merge_docs_cap = 64 * 1024 * 1024

abbrev pub max_posting_count : ℕ
max_posting_count = 2 ^ 24 - 1

-- The fields that the choice reads.
pub record SegmentMeta : Type 0 where
  pub doc_count : ℕ
  pub block_count : ℕ
  pub terms_fst_len : ℕ
  pub postings_len : ℕ
  pub docs_len : ℕ

pub record DeadSet : Type 0 where
  pub sources : List ℕ
  pub documents : List ℕ

pub record Segment : Type 0 where
  pub meta : SegmentMeta
  pub dead : DeadSet

abbrev pub no_dead : DeadSet
no_dead = record { sources = []; documents = [] }

-- `doc_count - dead.documents.len()` on usize.
unfoldable pub live : Segment → ℕ
live s = (s.meta.doc_count + 2 ^ 64 - length s.dead.documents) % 2 ^ 64

abbrev pub live_both : Segment → Segment → ℕ
live_both s t = saturating_add (live s) (live t)

-- The `filter`: what the merged segment would have stays in its caps.
unfoldable pub mergeable : Segment → Segment → Bool
unfolding live
mergeable s t =
    leb (saturating_add s.meta.postings_len t.meta.postings_len) merge_postings_cap
    && (leb (saturating_add s.meta.terms_fst_len t.meta.terms_fst_len) merge_terms_cap
        && (leb (saturating_add s.meta.docs_len t.meta.docs_len) merge_docs_cap
            && (leb (live_both s t) segment_doc_cap
                && leb (saturating_add s.meta.block_count t.meta.block_count) max_posting_count)))

-- The first of two candidates, each an index and its key, unless the other has a lesser key.
abbrev pub min_of : ℕ × ℕ → Option (ℕ × ℕ) → ℕ × ℕ
min_of first none = first
min_of first (some other) = if leb first.1 other.1 then first else other

-- `filter(..).min_by_key(..)` over the neighbours from `i` on; `min_by_key` gives the first of the least.
unfoldable pub victim_from : ℕ → List Segment → Option (ℕ × ℕ)
unfolding mergeable
victim_from i [] = none
victim_from i (s ∷ []) = none
victim_from i (s ∷ t ∷ segments) =
    let later = victim_from (suc i) (t ∷ segments) in
    if mergeable s t then some (min_of (i, live_both s t) later) else later

-- `segments.splice(victim..=victim + 1, [merged])`, after the merge of both.
unfoldable pub merge_at :
    {E : Type 0}
    → (Segment → Segment → Result E SegmentMeta)
    → ℕ
    → List Segment
    → Result E (List Segment)
merge_at merge zero (s ∷ t ∷ segments) =
    merge s t >>= λ meta. ok (record { meta = meta; dead = no_dead } ∷ segments)
merge_at merge (suc i) (s ∷ segments) = merge_at merge i segments >>= λ rest. ok (s ∷ rest)
merge_at merge i segments = ok segments

unfoldable pub maybe_compact :
    {E : Type 0}
    → (Segment → Segment → Result E SegmentMeta)
    → List Segment
    → Result E (Bool × List Segment)
unfolding victim_from merge_at
maybe_compact merge segments =
    let compacted =
      (λ (victim : ℕ × ℕ). merge_at merge victim.0 segments >>= λ merged. ok (true, merged)) in
    if leb (length segments) segment_count_target
    then ok (false, segments)
    else elim (victim_from 0 segments) [
      | none ↦ ok (false, segments)
      | some victim ↦ compacted victim
    ]
