-- ===== src/Pack/Parts.antt =====
-- The parts of a document: they follow each other in the document and in the blocks, and end where the
-- document does.
use holys.Common.{
  ℕ, zero, suc, ◌+◌, ◌-◌, ◌<◌, ◌≤◌, min, ◌≡◌, refl, subst, sym, ap, ◌∙◌, ◌⊎◌, inl, inr, arith, ltb,
  ltb→lt, ltb→ge, ◌==◌, ◌&&◌,
}
use holys.Common.{List, [], ◌∷◌, drop, Bool-cases}
use holys.Common.{Result, ok, context, >>=-eq-ok, ensure-eq-ok, ok-injective, ok-ne-err}
use holys.Common.Checked.{sub_ok}
use holys.Common.Word32.{checked_sub}
use holys.Format.{PackBlock}
use holys.Pack.Types.{
  Error, offset_out_of_bounds, no_available_bytes, empty_with_coordinates, PackSlice, DocumentBlock,
}
use holys.Pack.Spans.{span_loop, block_span, parts_loop, document_blocks}

-- `Tiled i offset start size blocks parts`: the parts hold `size` bytes of the document from `start` on,
-- the first at `offset` in the block `i`, the others at the start of the blocks behind it.
pub data Tiled : ℕ → ℕ → ℕ → ℕ → List PackBlock → List DocumentBlock → Type 0 where
  whole : (i offset start : ℕ) (blocks : List PackBlock) → Tiled i offset start 0 blocks []
  part :
      (i offset start size len rest : ℕ) (b : PackBlock) (blocks : List PackBlock)
      (parts : List DocumentBlock)
      → size ≡ len + rest
      → 0 < len
      → offset + len ≤ b.decoded_len
      → (rest ≡ 0) ⊎ (offset + len ≡ b.decoded_len)
      → Tiled (suc i) 0 (start + len) rest blocks parts
      → Tiled i offset start size
          (b ∷ blocks)
          (record { block_id = i; start = start; offset = offset; len = len } ∷ parts)

parts_loop-Tiled :
    (i offset start size : ℕ) (blocks : List PackBlock) (end : ℕ)
    → span_loop i offset size blocks ≡ ok end
    → (parts : List DocumentBlock) × (i ≤ end)
      × (parts_loop (end - i) i start offset size blocks ≡ ok (0, parts))
      × Tiled i offset start size blocks parts
unfolding span_loop parts_loop
parts_loop-Tiled i offset start zero blocks end h =
    let e = ok-injective h in
    (
      [],
      omega (arith, e),
      ap (λ (t : ℕ). parts_loop t i start offset 0 blocks) (none_left e),
      whole i offset start blocks,
    )
  where
    none_left : i ≡ end → end - i ≡ 0
    none_left e = omega (arith, e)
parts_loop-Tiled i offset start (suc r) [] end h = absurd (ok-ne-err (sym h))
parts_loop-Tiled i offset start (suc r) (b ∷ blocks) end h =
    let (d, hd, h1) =
      >>=-eq-ok (context (checked_sub b.decoded_len offset) offset_out_of_bounds) _ h in
    let (pos, h2) = ensure-eq-ok (ltb 0 d) no_available_bytes _ h1 in
    let (le, ed, sub) = sub_ok offset_out_of_bounds b.decoded_len offset hd in
    let (parts, more, loop, tiled) =
      parts_loop-Tiled (suc i) 0 (start + min (suc r) d) (suc r - min (suc r) d) blocks end h2 in
    (
      record { block_id = i; start = start; offset = offset; len = min (suc r) d } ∷ parts,
      omega (arith, more),
      ap (λ (t : ℕ). parts_loop t i start offset (suc r) (b ∷ blocks)) (one_more more)
          ∙ rw (sub, loop) refl,
      part i offset start (suc r) (min (suc r) d) (suc r - min (suc r) d) b blocks parts
          (omega arith) (omega (arith, ltb→lt 0 d pos)) (omega (arith, le, ed))
          (last_or_full d le ed) tiled,
    )
  where
    one_more : suc i ≤ end → end - i ≡ suc (end - suc i)
    one_more m = omega (arith, m)

    last_or_full :
        (d : ℕ)
        → offset ≤ b.decoded_len
        → d ≡ b.decoded_len - offset
        → (suc r - min (suc r) d ≡ 0) ⊎ (offset + min (suc r) d ≡ b.decoded_len)
    last_or_full d l e = elim (Bool-cases (ltb d (suc r))) [
      | inl t ↦ inr (omega (arith, l, e, ltb→lt d (suc r) t))
      | inr f ↦ inl (omega (arith, ltb→ge d (suc r) f))
    ]

first_of : {a b c d : ℕ} → ◌≡◌ {A = Result Error (ℕ × ℕ)} (ok (a, b)) (ok (c, d)) → a ≡ c
first_of p = ap (λ (t : ℕ × ℕ). t.0) (ok-injective p)

end_of : {a b c d : ℕ} → ◌≡◌ {A = Result Error (ℕ × ℕ)} (ok (a, b)) (ok (c, d)) → b ≡ d
end_of p = ap (λ (t : ℕ × ℕ). t.1) (ok-injective p)

block_span-span_loop :
    (slice : PackSlice) (size : ℕ) (blocks : List PackBlock) (first end : ℕ)
    → block_span slice size blocks ≡ ok (first, end)
    → span_loop first slice.block_offset size (drop first blocks) ≡ ok end
unfolding block_span span_loop
block_span-span_loop slice zero blocks first end h =
    let (_, e) =
      ensure-eq-ok (slice.first_block == 0 && slice.block_offset == 0) empty_with_coordinates _ h in
    ap ok (sym (first_of e) ∙ end_of e)
block_span-span_loop slice (suc r) blocks first end h =
    let (end', hs, e) =
      >>=-eq-ok
        (span_loop slice.first_block slice.block_offset (suc r) (drop slice.first_block blocks)) _
        h in
    subst (λ (t : ℕ). span_loop t slice.block_offset (suc r) (drop t blocks) ≡ ok end) (first_of e)
      (hs ∙ ap ok (end_of e))

-- Where a document has a span of blocks, its parts are found, without a panic, and they tile it.
pub document_blocks-Tiled :
    (slice : PackSlice) (size : ℕ) (blocks : List PackBlock) (first end : ℕ)
    → block_span slice size blocks ≡ ok (first, end)
    → (parts : List DocumentBlock) × (document_blocks slice size blocks ≡ ok parts)
      × Tiled first slice.block_offset 0 size (drop first blocks) parts
unfolding document_blocks
document_blocks-Tiled slice size blocks first end h =
    let (parts, _, loop, tiled) =
      parts_loop-Tiled first slice.block_offset 0 size (drop first blocks) end
        (block_span-span_loop slice size blocks first end h) in
    (parts, rw (h, loop) refl, tiled)
