-- ===== src/PostingsTable/Runs.antt =====
-- The theorems on the postings table at a table of one short block.
use holys.Common.{ℕ, ◌≡◌, refl, arith}
use holys.Common.{List, [], ◌∷◌, length, ok, take}
use holys.Common.Bytes.{from_le_bytes}
use holys.Grams.{bytes_eq}
use holys.PostingsTable.Writer.{new, write_all, close_last}
use holys.PostingsTable.Verified.{table_of, verify-write_all}
use holys.PostingsTable.Index.{PostingsTableIndex, verify, parse, chunks, abuts, blocks_covering}
use holys.PostingsTable.Covered.{IsRounded, blocks_covering-IsRounded}

-- A hash, the length of the data, the count of the blocks and the magic.
abbrev one_block_tail : List ℕ
one_block_tail =
    0 ∷ 0 ∷ 0 ∷ 0 ∷ 0 ∷ 0 ∷ 0 ∷ 0 ∷ 0 ∷ 0 ∷ 0 ∷ 0 ∷ 0 ∷ 0 ∷ 0 ∷ 0 ∷ 0 ∷ 0 ∷ 0 ∷ 0 ∷ 0 ∷ 0 ∷ 0 ∷ 0
    ∷ 0 ∷ 0 ∷ 0 ∷ 0 ∷ 0 ∷ 0 ∷ 0 ∷ 0 ∷ 5 ∷ 0 ∷ 0 ∷ 0 ∷ 0 ∷ 0 ∷ 0 ∷ 0 ∷ 1 ∷ 0 ∷ 0 ∷ 0 ∷ 0 ∷ 0 ∷ 0 ∷ 0
    ∷ 83 ∷ 71 ∷ 80 ∷ 79 ∷ 83 ∷ 84 ∷ 48 ∷ 49 ∷ []

abbrev one_block_table : PostingsTableIndex
one_block_table = record { data_len = 5; hashes = take 32 one_block_tail ∷ [] }

blocks_covering-IsRounded_example : IsRounded one_block_table 1 3 (0, 1)
unfolding parse abuts chunks from_le_bytes bytes_eq blocks_covering
blocks_covering-IsRounded_example =
    blocks_covering-IsRounded 61 one_block_tail one_block_table 1 3 (0, 1) refl refl

-- "abc" in two writes, with their number for a hash.
abbrev two_writes : List (List ℕ)
two_writes = (97 ∷ 98 ∷ []) ∷ (99 ∷ []) ∷ []

abbrev short_hash : List ℕ → List ℕ
short_hash bytes = length bytes ∷ []

verify-write_all_example :
    verify short_hash
      (table_of short_hash (close_last short_hash (write_all short_hash two_writes new)))
      0
      (97 ∷ 98 ∷ 99 ∷ [])
    ≡ ok tt
verify-write_all_example = verify-write_all short_hash two_writes 0 (omega arith)
