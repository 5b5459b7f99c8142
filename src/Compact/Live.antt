-- ===== src/Compact/Live.antt =====
-- A posting list of a merged segment has the live ids of the list that it comes from, in their new places.
use holys.Common.{ℕ, ◌+◌, ◌-◌, ◌<◌, ◌≤◌, ◌^◌, ◌%◌, ◌≡◌, refl, ap, arith}
use holys.Common.{List, [], ◌++◌, length, get_elem?, Has, Option, none, some}
use holys.Common.{ok}
use holys.Common.Word32.{sub_u32}
use holys.Common.Bytes.{from_be_bytes}
use holys.Grams.{Strategy, trigram, sparse}
use holys.DeltaBlocks.{encode_delta_blocks}
use holys.Posting.{encode_posting_block}
use holys.Candidate.Bases.{Located, Located-document}
use holys.Compact.Entry.{zeros, old_document_of, new_id_of, remap_posting_id}

old_document_of-Located :
    (old_bases : List ℕ) (id : ℕ) (k : Located id old_bases)
    → old_document_of trigram id old_bases ≡ ok k.index
unfolding old_document_of
old_document_of-Located old_bases id k = rw (Located-document id old_bases k, old_document_of) refl

-- A block of a live document has the same place in its document in the merged segment.
pub remap_posting_id-Located :
    (remap : List (Option ℕ)) (old_bases new_bases : List ℕ) (id n base : ℕ)
    (k : Located id old_bases)
    → get_elem? remap k.index ≡ some (some n)
    → get_elem? new_bases n ≡ some base
    → base + id < 2 ^ 32
    → remap_posting_id trigram remap old_bases new_bases id ≡ ok (some (base + (id - k.start)))
unfolding remap_posting_id new_id_of
remap_posting_id-Located remap old_bases new_bases id n base k live at small =
    rw (old_document_of-Located old_bases id k, live, at, k.at_start)
      (ap (λ (t : ℕ). ok (some t)) (moved (k.from_start) small))
  where
    moved :
        {start : ℕ}
        → start ≤ id
        → base + id < 2 ^ 32
        → sub_u32 ((base + id) % 2 ^ 32) start ≡ base + (id - start)
    moved l s = omega (arith, l, s)

-- The block of a list, and the length that its dictionary entry has: none for a trigram.
abbrev pub encoded : Strategy → List ℕ → ℕ → List ℕ
encoded sparse ids id_space = encode_delta_blocks ids []
encoded trigram ids id_space = encode_posting_block [] ids id_space

abbrev pub entry_len : Strategy → List ℕ → ℕ → Option ℕ
entry_len sparse ids id_space = some (length (encode_delta_blocks ids []))
entry_len trigram ids id_space = none

-- `n` is where an id of the list is in the merged segment.
abbrev pub IsMoved : Strategy → List (Option ℕ) → List ℕ → List ℕ → List ℕ → ℕ → Type 0
IsMoved strategy remap old_bases new_bases ids n =
    (id : ℕ) × Has id ids × (remap_posting_id strategy remap old_bases new_bases id ≡ ok (some n))

-- The key of a gram, as the records of a merge have it.
abbrev pub key_of : List ℕ → ℕ
key_of gram = from_be_bytes 0 (zeros (8 - length gram) ++ gram)
