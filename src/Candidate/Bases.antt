-- ===== src/Candidate/Bases.antt =====
-- A block below the total lies in one document, and its expansion stays in that document around it.
use holys.Common.{
  ℕ, zero, suc, ◌+◌, ◌-◌, ◌<◌, ◌≤◌, ◌≡◌, ◌^◌, ◌/◌, ◌%◌, refl, sym, ap, arith, length, ◌≢◌,
}
use holys.Common.{
  List, [], ◌∷◌, get_elem?, get_elem?-lt, true, some, none, Bool-cases, inl, inr, leb, ltb, leb→le,
  leb→gt, lt→ltb, ◌==◌,
}
use holys.Common.{ok, ◌>>=◌, >>=-eq-ok, ok-injective, context, Option, subst}
use holys.Common.Word32.{IsU32, checked_add, sub_u32}
use holys.Format.{DocEntry, SegmentTables}
use holys.Candidate.{
  SearchExtent, candidate_block_bytes, bases_after, build_block_bases, partition_point,
}
use holys.Candidate.{
  get_block_document, slack_of, clamp_range, expand_candidate_block, total_blocks, try_u32,
}
use holys.Candidate.{too_many_blocks, block_count_overflows}

-- Where a block of the bases is: its document, and the bases at both ends of it.
pub record Located (id : ℕ) (bases : List ℕ) : Type 0 where
  pub index : ℕ
  pub start : ℕ
  pub next : ℕ
  pub found : partition_point id bases ≡ suc index
  pub at_start : get_elem? bases index ≡ some start
  pub at_next : get_elem? bases (suc index) ≡ some next
  pub from_start : start ≤ id
  pub below_next : id < next

pub locate :
    (id base : ℕ) (bases : List ℕ)
    → base ≤ id
    → id < total_blocks (base ∷ bases)
    → Located id (base ∷ bases)
unfolding total_blocks partition_point
locate id base [] h l = absurd (omega arith)
locate id base (next ∷ bases) h l = elim (Bool-cases (leb next id)) [
  | inl inside ↦ later (locate id next bases (leb→le next id inside) l)
  | inr outside ↦ record {
    index = 0;
    start = base;
    next = next;
    found = rw (here, outside) refl;
    at_start = refl;
    at_next = refl;
    from_start = h;
    below_next = leb→gt next id outside;
  }
]
  where
    here : leb base id ≡ true
    here = ground arith

    later : Located id (next ∷ bases) → Located id (base ∷ next ∷ bases)
    later k = record {
      index = suc k.index;
      start = k.start;
      next = k.next;
      found = rw (here, k.found) refl;
      at_start = k.at_start;
      at_next = k.at_next;
      from_start = k.from_start;
      below_next = k.below_next;
    }

pub Located-document :
    (id : ℕ) (bases : List ℕ) (k : Located id bases) → get_block_document id bases ≡ ok k.index
unfolding get_block_document
Located-document id bases k = rw (k.found, get_block_document) refl

-- The extents that a plan may have: `validate_candidate_plans` refuses a byte span of 0.
abbrev pub IsPlanned : SearchExtent → Type 0
IsPlanned extent = extent ≢ SearchExtent.bytes 0

-- What a range of blocks is to the block that it was expanded from.
pub record Around (id : ℕ) (bases : List ℕ) (range : ℕ × ℕ) : Type 0 where
  pub place : Located id bases
  pub first : place.start ≤ range.0
  pub last : range.1 < place.next
  pub lower : range.0 ≤ id
  pub upper : id ≤ range.1

slack_returns :
    (extent : SearchExtent) (doc : DocEntry) (start end : ℕ)
    → IsPlanned extent
    → (slack : ℕ) × (slack_of extent (some doc) start end ≡ ok slack)
unfolding slack_of
slack_returns (SearchExtent.bytes zero) doc start end p = absurd (p refl)
slack_returns (SearchExtent.bytes (suc n)) doc start end p = (_, refl)
slack_returns SearchExtent.lines doc start end p =
    elim (Bool-cases (doc.max_line_len == 2 ^ 32 - 1)) [
      | inl t ↦ ((sub_u32 end start + 1) % 2 ^ 32, rw t refl)
      | inr f ↦ (1 + doc.max_line_len / candidate_block_bytes, rw f refl)
    ]
slack_returns SearchExtent.document doc start end p = (0, refl)

clamp-Around :
    (extent : SearchExtent) (id slack : ℕ) (bases : List ℕ) (k : Located id bases)
    → IsU32 id
    → Around id bases (clamp_range extent id slack k.start (k.next - 1))
unfolding clamp_range
clamp-Around SearchExtent.document id slack bases k u = record {
  place = k;
  first = omega arith;
  last = omega (arith, k.below_next);
  lower = k.from_start;
  upper = omega (arith, k.below_next);
}
clamp-Around (SearchExtent.bytes n) id slack bases k u = record {
  place = k;
  first = omega arith;
  last = omega (arith, k.below_next);
  lower = omega (arith, k.from_start);
  upper = omega (arith, k.below_next);
}
clamp-Around SearchExtent.lines id slack bases k u = record {
  place = k;
  first = omega arith;
  last = omega (arith, k.below_next);
  lower = omega (arith, k.from_start);
  upper = omega (arith, k.below_next);
}

bases_after-length :
    (next : ℕ) (docs : List DocEntry) (bases : List ℕ)
    → bases_after next docs ≡ ok bases
    → length bases ≡ length docs
unfolding bases_after
bases_after-length next [] bases h = ap length (sym (ok-injective h))
bases_after-length next (doc ∷ docs) bases h =
    let (blocks, _, h1) =
      >>=-eq-ok
        (try_u32 ((doc.decoded_size + (candidate_block_bytes - 1)) / candidate_block_bytes)
          too_many_blocks)
        (λ blocks. context (checked_add 32 next blocks) block_count_overflows >>= λ n.
          bases_after n docs >>= λ r. ok (n ∷ r))
        h in
    let (next', _, h2) =
      >>=-eq-ok (context (checked_add 32 next blocks) block_count_overflows)
        (λ n. bases_after n docs >>= λ r. ok (n ∷ r)) h1 in
    let (rest, hr, e) = >>=-eq-ok (bases_after next' docs) (λ r. ok (next' ∷ r)) h2 in
    omega (arith, ap length (ok-injective e), bases_after-length next' docs rest hr)

get_elem?-some-lt : (xs : List ℕ) (i x : ℕ) → get_elem? xs i ≡ some x → i < length xs
get_elem?-some-lt [] i x h = absurd (none_some h)
  where
    none_some : ◌≡◌ {A = Option ℕ} none (some x) → ⊥
    none_some p = cc
get_elem?-some-lt (y ∷ xs) zero x h = omega arith
get_elem?-some-lt (y ∷ xs) (suc i) x h = omega (arith, get_elem?-some-lt xs i x h)

expand-Located :
    (tables : SegmentTables) (bases : List ℕ) (extent : SearchExtent) (id : ℕ)
    (k : Located id bases) (doc : DocEntry) (slack : ℕ)
    → get_elem? tables.documents k.index ≡ some doc
    → slack_of extent (some doc) k.start (k.next - 1) ≡ ok slack
    → expand_candidate_block id bases tables extent
      ≡ ok (clamp_range extent id slack k.start (k.next - 1))
unfolding expand_candidate_block
expand-Located tables bases extent id k doc slack hd hs =
    let positive : ltb 0 k.next ≡ true = lt→ltb 0 k.next (omega (arith, k.below_next)) in
    rw (Located-document id bases k, k.at_start, k.at_next, positive, hd, hs) refl

-- With the bases of the segment and an extent that a plan may have, every block below the total
-- expands to a range of blocks of its document, around it.
pub expand-Around :
    (tables : SegmentTables) (bases : List ℕ) (extent : SearchExtent) (id : ℕ)
    → build_block_bases tables ≡ ok bases
    → id < total_blocks bases
    → IsU32 id
    → IsPlanned extent
    → (range : ℕ × ℕ) × (expand_candidate_block id bases tables extent ≡ ok range)
      × Around id bases range
unfolding build_block_bases
expand-Around tables bases extent id h l u p =
    let (rest, hr, e) = >>=-eq-ok (bases_after 0 tables.documents) (λ r. ok (0 ∷ r)) h in
    subst
      (λ (bs : List ℕ).
        id < total_blocks bs
        → (range : ℕ × ℕ) × (expand_candidate_block id bs tables extent ≡ ok range)
          × Around id bs range)
      (ok-injective e) (in_bases rest (bases_after-length 0 tables.documents rest hr)) l
  where
    in_bases :
        (rest : List ℕ)
        → length rest ≡ length tables.documents
        → id < total_blocks (0 ∷ rest)
        → (range : ℕ × ℕ) × (expand_candidate_block id (0 ∷ rest) tables extent ≡ ok range)
          × Around id (0 ∷ rest) range
    in_bases rest n l =
        let k = locate id 0 rest (omega arith) l in
        let (doc, hd) =
          get_elem?-lt tables.documents k.index
            (omega (arith, get_elem?-some-lt (0 ∷ rest) (suc k.index) k.next k.at_next)) in
        let (slack, hs) = slack_returns extent doc k.start (k.next - 1) p in
        (
          clamp_range extent id slack k.start (k.next - 1),
          expand-Located tables (0 ∷ rest) extent id k doc slack hd hs,
          clamp-Around extent id slack (0 ∷ rest) k u,
        )
