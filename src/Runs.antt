-- ===== src/Runs.antt =====
-- The theorems applied to small concrete inputs, and the definitions run on them.
use holys.Common.{ℕ, ◌+◌, ◌*◌, ◌≡◌, refl, arith}
use holys.Common.{List, [], ◌∷◌, Subset, ok, err, ◌≢◌, length}
use holys.Common.Word32.{zeros_above}
use holys.Common.Ascending.{IsAscending, IsBelow}
use holys.DeltaBlocks.{encode_delta_blocks, encode_chunk, decode_delta_blocks, stuck}
use holys.DeltaBlocks.RoundTrip.{decode-encode}
use holys.DeltaBlocks.Valid.{decode_valid}
use holys.DeltaBlocks.Ends.{decode-ne-stuck}
use holys.Posting.{complement, posting_id_bits, encode_posting_block, decode_posting_block}
use holys.Posting.RoundTrip.{decode-encode_block}
use holys.Grams.{sparse_grams_covering_bytes, sparse_grams_all_bytes, iterate_sparse_gram_ranges}
use holys.Grams.Covering.{covering-subset-all}
use holys.Grams.Ranges.{iterate_ranges, ranges}
use holys.Grams.Subset.{query-subset-index}
use holys.Grams.{trigram, grams_query, grams_index}
use holys.BitPack.{pack_ids, pack_fixed, unpack_ids}
use holys.BitPack.Digits.{le_value, field_value, fields}
use holys.BitPack.PackBytes.{pack_fixed_lem}
use holys.BitPack.Unpack.{unpack_ids_lem}

-- Three ids of four documents: more than half, so the complement is stored.
abbrev three_ids : List ℕ
three_ids = 0 ∷ 1 ∷ 3 ∷ []

three_ids-IsAscending : IsAscending three_ids
three_ids-IsAscending = (omega arith, (omega arith, (omega arith, tt)))

three_ids-IsBelow : IsBelow 4 three_ids
three_ids-IsBelow = (omega arith, (omega arith, (omega arith, tt)))

decode-encode_example : decode_delta_blocks (encode_delta_blocks three_ids []) 3 4 ≡ ok three_ids
decode-encode_example =
    decode-encode three_ids 4 three_ids-IsAscending three_ids-IsBelow (omega arith)

decode-encode_block_example :
    decode_posting_block (encode_posting_block [] three_ids 4) 3 4 ≡ ok three_ids
decode-encode_block_example =
    decode-encode_block three_ids 4 three_ids-IsAscending three_ids-IsBelow (omega arith)

decode_valid_example : (length three_ids ≡ 3) × IsAscending three_ids × IsBelow 4 three_ids
decode_valid_example =
    decode_valid (encode_delta_blocks three_ids []) 3 4 three_ids
      (decode-encode three_ids 4 three_ids-IsAscending three_ids-IsBelow (omega arith))

-- A block whose width header is 0.
decode-ne-stuck_example : decode_delta_blocks (0 ∷ 7 ∷ []) 1 4 ≢ err stuck
decode-ne-stuck_example = decode-ne-stuck (0 ∷ 7 ∷ []) 1 4

-- A stand-in for the hash: a polynomial in the bytes.
abbrev weigh : List ℕ → ℕ
weigh [] = 7
weigh (b ∷ bs) = b + 31 * weigh bs

covering-subset-all_example :
    Subset
      (sparse_grams_covering_bytes weigh (98 ∷ 97 ∷ 110 ∷ []))
      (sparse_grams_all_bytes weigh (97 ∷ 98 ∷ 97 ∷ 110 ∷ 97 ∷ []))
covering-subset-all_example = covering-subset-all weigh (97 ∷ []) (98 ∷ 97 ∷ 110 ∷ []) (97 ∷ [])

abbrev bytes_at : ℕ → ℕ
bytes_at i = 10 * i + 3

iterate_ranges_example : iterate_sparse_gram_ranges weigh 5 bytes_at ≡ ranges weigh bytes_at 4 0
iterate_ranges_example = iterate_ranges weigh bytes_at 5

pack_fixed_lem_example :
    (le_value (pack_fixed (5 ∷ 2 ∷ 7 ∷ []) 3 []) ≡ field_value 3 (5 ∷ 2 ∷ 7 ∷ []))
    × (length (pack_fixed (5 ∷ 2 ∷ 7 ∷ []) 3 []) ≡ 2)
pack_fixed_lem_example =
    pack_fixed_lem (5 ∷ 2 ∷ 7 ∷ []) 3 (omega arith, (omega arith, (omega arith, tt))) (omega arith)

unpack_ids_lem_example : unpack_ids (213 ∷ 1 ∷ []) 3 3 ≡ ok (fields 3 3 (le_value (213 ∷ 1 ∷ [])))
unpack_ids_lem_example =
    unpack_ids_lem (213 ∷ 1 ∷ []) 3 3 (omega arith, (omega arith, tt)) (omega arith) (omega arith)

-- The bytes that the encoders write, as the source's tests pin them.
delta_bytes : encode_delta_blocks three_ids [] ≡ 1 ∷ 4 ∷ []
unfolding encode_delta_blocks encode_chunk pack_fixed zeros_above
delta_bytes = refl

posting_bytes : encode_posting_block [] three_ids 4 ≡ 2 ∷ []
unfolding encode_posting_block pack_ids complement posting_id_bits zeros_above
posting_bytes = refl

query-subset-index_example :
    Subset
      (grams_query weigh (98 ∷ 97 ∷ 110 ∷ []) trigram)
      (grams_index weigh (97 ∷ 98 ∷ 97 ∷ 110 ∷ 97 ∷ []) trigram)
query-subset-index_example =
    query-subset-index weigh trigram (97 ∷ []) (98 ∷ 97 ∷ 110 ∷ []) (97 ∷ [])
