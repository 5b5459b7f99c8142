-- ===== src/Format/Packing.antt =====
-- Validated tables account for every decoded byte of the packs.
use holys.Common.{
  ℕ, ◌+◌, ◌-◌, ◌≤◌, ◌≡◌, refl, sym, arith, min, length, List, [], ◌∷◌, Bool, true, false, ◌&&◌,
  Bool-cases, inl, inr,
}
use holys.Common.{
  ltb, ltb→ge, ◌==◌, ==→eq, &&→and, Result, ok, ◌>>=◌, ◌>>◌, >>=-eq-ok, ok-injective, ok-ne-err,
}
use holys.Common.{ensure, ensure-eq-ok, subst}
use native.Mathlib.Decide.{dec_le}
use holys.Format.{DocEntry, PackBlock, SegmentTables}
use holys.Format.Validate.{
  Error, PackWalk, consume, place_document, place_documents, check_packing, validate,
}
use holys.Format.Validate.{
  BlockScan, check_sources, check_blocks, all_in_sources, unowned_documents, outside_source,
}
use holys.Common.{none}
use holys.Format.Validate.{empty_with_coordinates, coordinates_not_contiguous, unowned_bytes}

-- All decoded bytes of the blocks, and of the documents.
abbrev pub block_bytes : List PackBlock → ℕ
block_bytes [] = 0
block_bytes (block ∷ blocks) = block.decoded_len + block_bytes blocks

abbrev pub document_bytes : List DocEntry → ℕ
document_bytes [] = 0
document_bytes (doc ∷ docs) = doc.decoded_size + document_bytes docs

-- From a walk at `rest` and `offset`, `n` bytes are consumed on the way to `walk`.
abbrev Advances : ℕ → List PackBlock → ℕ → ℕ → PackWalk → Type 0
Advances index rest offset n walk =
    (block_bytes rest + walk.next_offset ≡ block_bytes walk.rest + offset + n)
    × (index + length rest ≡ walk.next_block + length walk.rest)

consume-Advances :
    (index offset : ℕ) (rest : List PackBlock) (n : ℕ) (walk : PackWalk)
    → consume index offset rest n ≡ ok walk
    → Advances index rest offset n walk
unfolding consume
consume-Advances index offset [] n walk h = elim (Bool-cases (ltb 0 n)) [
  | inl more ↦ absurd (ok-ne-err (sym (rw (more, consume) at h)))
  | inr done ↦
      subst (Advances index [] offset n) (ok-injective (rw (done, consume) at h))
        (omega (arith, ltb→ge 0 n done), omega arith)
]
consume-Advances index offset (block ∷ rest) n walk h = elim (Bool-cases (ltb 0 n)) [
  | inr done ↦
      subst (Advances index (block ∷ rest) offset n) (ok-injective (rw (done, consume) at h))
        (omega (arith, ltb→ge 0 n done), omega arith)
  | inl more ↦ elim (Bool-cases (ltb block.decoded_len offset)) [
    | inl past ↦ absurd (ok-ne-err (sym (rw (more, past, consume) at h)))
    | inr within ↦
        let room = ltb→ge block.decoded_len offset within in
        elim (Bool-cases (offset + min n (block.decoded_len - offset) == block.decoded_len)) [
          | inl whole ↦
              let filled =
                ==→eq (offset + min n (block.decoded_len - offset)) block.decoded_len whole in
              let (bytes, blocks) =
                consume-Advances (index + 1) 0 rest (n - min n (block.decoded_len - offset)) walk
                  (rw (more, within, whole, consume) at h) in
              (omega (arith, room, filled, bytes), omega (arith, blocks))
          | inr part ↦
              subst (Advances index (block ∷ rest) offset n)
                (ok-injective (rw (more, within, part, consume) at h))
                (omega (arith, stopped room part), omega arith)
        ]
  ]
]
  where
    unequal : (x y : ℕ) → x ≡ y → (x == y) ≡ false → ⊥
    unequal x y e f = ground arith

    stopped :
        offset ≤ block.decoded_len
        → (offset + min n (block.decoded_len - offset) == block.decoded_len) ≡ false
        → min n (block.decoded_len - offset) ≡ n
    stopped room part = elim (dec_le n (block.decoded_len - offset)) [
      | yes fits ↦ omega (arith, fits)
      | no over ↦ absurd (unequal _ _ (omega (arith, over, room)) part)
    ]

place_document-Advances :
    (doc : DocEntry) (walk walk' : PackWalk)
    → place_document doc walk ≡ ok walk'
    → Advances walk.next_block walk.rest walk.next_offset doc.decoded_size walk'
unfolding place_document
place_document-Advances doc walk walk' h = elim (Bool-cases (doc.decoded_size == 0)) [
  | inl empty ↦
      let none_left = ==→eq doc.decoded_size 0 empty in
      let (_, e) =
        ensure-eq-ok (doc.first_block == 0 && doc.block_offset == 0) empty_with_coordinates
          (ok walk) (rw (empty, place_document) at h) in
      subst (Advances walk.next_block walk.rest walk.next_offset doc.decoded_size) (ok-injective e)
        (omega (arith, none_left), refl)
  | inr full ↦
      let (_, e) =
        ensure-eq-ok (doc.first_block == walk.next_block && doc.block_offset == walk.next_offset)
          coordinates_not_contiguous
          (consume walk.next_block walk.next_offset walk.rest doc.decoded_size)
          (rw (full, place_document) at h) in
      consume-Advances walk.next_block walk.next_offset walk.rest doc.decoded_size walk' e
]

place_documents-Advances :
    (docs : List DocEntry) (walk walk' : PackWalk)
    → place_documents docs walk ≡ ok walk'
    → Advances walk.next_block walk.rest walk.next_offset (document_bytes docs) walk'
unfolding place_documents
place_documents-Advances [] walk walk' h =
    subst (Advances walk.next_block walk.rest walk.next_offset 0) (ok-injective h)
      (omega arith, refl)
place_documents-Advances (doc ∷ docs) walk walk' h =
    let (middle, hm, h') = >>=-eq-ok (place_document doc walk) (λ w. place_documents docs w) h in
    let (a, b) = place_document-Advances doc walk middle hm in
    let (c, d) = place_documents-Advances docs middle walk' h' in
    (omega (arith, a, c), omega (arith, b, d))

-- The documents of a segment that passes the packing checks have as many decoded bytes as its blocks.
pub check_packing_lem :
    (tables : SegmentTables)
    → check_packing tables ≡ ok tt
    → document_bytes tables.documents ≡ block_bytes tables.blocks
unfolding check_packing
check_packing_lem tables h =
    let begin : PackWalk = record { next_block = 0; next_offset = 0; rest = tables.blocks } in
    let (walk, hw, h') =
      >>=-eq-ok (place_documents tables.documents begin)
        (λ w. ensure (w.next_block == length tables.blocks && w.next_offset == 0) unowned_bytes)
        h in
    let (a, b) = place_documents-Advances tables.documents begin walk hw in
    let (c, d) =
      &&→and (walk.next_block == length tables.blocks) (walk.next_offset == 0) (passed _ h') in
    let all_blocks = ==→eq walk.next_block (length tables.blocks) c in
    let no_offset = ==→eq walk.next_offset 0 d in
    omega (arith, a, no_offset, no_bytes walk.rest (omega (arith, b, all_blocks)))
  where
    passed : (t : Bool) → ensure t unowned_bytes ≡ ok tt → t ≡ true
    passed true e = refl
    passed false e = absurd (ok-ne-err (sym e))

    no_bytes : (rest : List PackBlock) → length rest ≡ 0 → block_bytes rest ≡ 0
    no_bytes [] e = refl
    no_bytes (block ∷ rest) e = absurd (omega arith)

-- Tables that pass validation have as many decoded bytes in their documents as in their pack blocks.
pub validate-bytes :
    (tables : SegmentTables)
    → validate tables ≡ ok tt
    → document_bytes tables.documents ≡ block_bytes tables.blocks
unfolding validate
validate-bytes tables h =
    let (scan, _, h1) =
      >>=-eq-ok
        (check_sources tables.documents 0 tables.sources
          (record { previous_source = none; seen_documents = []; expected_first_doc = 0 }))
        (λ scan.
          ensure (scan.expected_first_doc == length tables.documents) unowned_documents >> rest)
        h in
    let (_, h2) =
      ensure-eq-ok (scan.expected_first_doc == length tables.documents) unowned_documents rest h1 in
    let (_, h3) =
      ensure-eq-ok (all_in_sources tables.sources 0 tables.documents) outside_source packed h2 in
    let (_, _, h4) =
      >>=-eq-ok (check_blocks tables.blocks first_block) (λ _. check_packing tables) h3 in
    check_packing_lem tables h4
  where
    first_block : BlockScan
    first_block = record { previous_pack = none; expected_offset = 0 }

    packed : Result Error (Unit {0})
    packed = check_blocks tables.blocks first_block >>= λ _. check_packing tables

    rest : Result Error (Unit {0})
    rest = ensure (all_in_sources tables.sources 0 tables.documents) outside_source >> packed
