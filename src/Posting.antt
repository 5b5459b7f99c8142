-- ===== src/Posting.antt =====
-- crates/index/src/lib.rs: the fixed-width posting block, which stores the ids that are present or,
-- where a gram is in more than half the documents, those that are absent.
pub mod Complement
pub mod RoundTrip
use holys.Common.{ℕ, zero, suc, ◌+◌, ◌-◌, ◌*◌, ◌/◌, ◌%◌, ◌^◌, Bool, true, false, ◌&&◌}
use holys.Common.{
  List, [], ◌∷◌, ◌++◌, length, last?, Option, none, some, if◌then◌else◌, ltb, leb, ◌==◌,
}
use holys.Common.{Result, ok, err, ◌>>=◌, ◌>>◌, ensure}
use holys.Common.Word32.{bit_width}
use holys.BitPack.{pack_ids, unpack_ids, Panic}

-- The errors of `decode_posting_block`; `panicked` is the `expect` of `unpack_ids`.
pub data Error : Type 0 where
  count_exceeds_docs wrong_length not_ascending out_of_bounds panicked : Error

-- `(32 - doc_count.saturating_sub(1).leading_zeros()).max(1)`
unfoldable pub posting_id_bits : ℕ → ℕ
posting_id_bits doc_count = bit_width (doc_count - 1)

unfoldable pub stored_id_count : ℕ → ℕ → ℕ
stored_id_count count doc_count =
    if count == doc_count then 0 else if ltb doc_count (count * 2) then doc_count - count else count

unfoldable pub posting_block_len : ℕ → ℕ → ℕ
posting_block_len count doc_count =
    (stored_id_count count doc_count * posting_id_bits doc_count + 7) / 8

-- The ids of `id..id + n` that are not in an ascending list, by one pass with a peekable iterator.
unfoldable pub complement : ℕ → ℕ → List ℕ → List ℕ
complement zero id xs = []
complement (suc n) id [] = id ∷ complement n (suc id) []
complement (suc n) id (x ∷ xs) = elim (x == id) [
  | true ↦ complement n (suc id) xs
  | false ↦ id ∷ complement n (suc id) (x ∷ xs)
]

-- `(0..doc_count).collect()`
unfoldable pub id_range : ℕ → ℕ → List ℕ
id_range zero id = []
id_range (suc n) id = id ∷ id_range n (suc id)

unfoldable pub encode_posting_block : List ℕ → List ℕ → ℕ → List ℕ
encode_posting_block buf ids doc_count =
    let count = length ids % 2 ^ 32 in
    let width = posting_id_bits doc_count in
    if count == doc_count
    then buf
    else if ltb doc_count (count * 2)
    then pack_ids buf (complement doc_count 0 ids) width
    else pack_ids buf ids width

-- `stored.windows(2)`, each pair strictly ascending.
unfoldable pub windows_ascend : List ℕ → Bool
windows_ascend [] = true
windows_ascend (x ∷ []) = true
windows_ascend (x ∷ y ∷ rest) = ltb x y && windows_ascend (y ∷ rest)

unfoldable pub last_below : ℕ → List ℕ → Bool
last_below n xs = elim (last? xs) [ none ↦ true | some x ↦ ltb x n ]

unfoldable pub unpacked : Result Panic (List ℕ) → Result Error (List ℕ)
unpacked (ok ids) = ok ids
unpacked (err p) = err panicked

unfoldable pub decode_posting_block : List ℕ → ℕ → ℕ → Result Error (List ℕ)
decode_posting_block bytes count doc_count = do
  ensure (leb count doc_count) count_exceeds_docs
  ensure (length bytes == posting_block_len count doc_count) wrong_length
  let stored_ids = (do
    stored ←
        unpacked (unpack_ids bytes (stored_id_count count doc_count) (posting_id_bits doc_count))
    ensure (windows_ascend stored) not_ascending
    ensure (last_below doc_count stored) out_of_bounds
    ok (if ltb doc_count (count * 2) then complement doc_count 0 stored else stored))
  if count == doc_count then ok (id_range doc_count 0) else stored_ids
