-- ===== src/SparseTable/Entry.antt =====
-- The entries of a block: for_each_entry reads them, and SparseTableWriter::insert writes them.
use holys.Common.{ℕ, zero, suc, ◌+◌, ◌-◌, ◌*◌, ◌/◌, ◌%◌, ltb, ◌==◌, not, Bool, true, false}
use holys.Common.{List, [], ◌∷◌, ◌++◌, length, take, drop, Option, none, some, if◌then◌else◌}
use holys.Common.{Result, ok, err, ensure, context, ◌>>=◌, ◌>>◌}
use holys.Common.Word32.{checked_add}
use holys.Common.Bytes.{to_be_bytes, from_be_bytes}
use holys.Eval.Resolve.{Error as PostingError, pack_posting, unpack_posting}
use holys.SparseTable.Errors.{
  Error, too_short, not_canonical, zero_length, not_ascending, hash_overflows,
}
use holys.SparseTable.Errors.{first_delta, singleton_with_len, missing_len, stuck, posting_refused}
use holys.SparseTable.Varint.{write_varint, read_varint}

-- What `visit` is given, and what `insert` takes.
pub record Entry : Type 0 where
  pub hash : ℕ
  pub value : ℕ
  pub len : Option ℕ

unfoldable pub packed : Result PostingError ℕ → Result Error ℕ
packed (ok value) = ok value
packed (err e) = err (posting_refused e)

-- `if tag & 1 == 1`: the closure `read_value` behind its first varint.
unfoldable pub value_of_tag : ℕ → List ℕ → Result Error ((ℕ × Option ℕ) × List ℕ)
unfolding packed
value_of_tag tag rest =
    if tag % 2 == 1
    then (do value ← packed (pack_posting (tag / 2) 1); ok ((value, none), rest))
    else (do
      ensure (not (tag / 2 == 1)) not_canonical
      (offset, rest') ← read_varint rest
      (len, rest'') ← read_varint rest'
      ensure (ltb 0 len) zero_length
      value ← packed (pack_posting offset (tag / 2))
      ok ((value, some len), rest''))

unfoldable pub read_value : List ℕ → Result Error ((ℕ × Option ℕ) × List ℕ)
unfolding value_of_tag
read_value block = do (tag, rest) ← read_varint block; value_of_tag tag rest

module _ {S : Type 0} (visit : Entry → S → Result Error S) where
  -- `while cursor < block.len()`: a round takes a byte at least.
  unfoldable pub entries_loop : ℕ → ℕ → List ℕ → S → Result Error S
  unfolding read_value
  entries_loop fuel hash [] s = ok s
  entries_loop zero hash (b ∷ rest) s = err stuck
  entries_loop (suc fuel) hash (b ∷ rest) s = do
    (delta, rest') ← read_varint (b ∷ rest)
    ensure (ltb 0 delta) not_ascending
    hash' ← context (checked_add 64 hash delta) hash_overflows
    ((value, len), rest'') ← read_value rest'
    s' ← visit (record { hash = hash'; value = value; len = len }) s
    entries_loop fuel hash' rest'' s'

  unfoldable pub for_each_entry : List ℕ → S → Result Error S
  unfolding entries_loop
  for_each_entry block s = do
    ensure (ltb 8 (length block)) too_short
    let hash = from_be_bytes 0 (take 8 block)
    ((value, len), rest) ← read_value (drop 8 block)
    s' ← visit (record { hash = hash; value = value; len = len }) s
    entries_loop (length rest) hash rest s'

-- `entries.push((hash, value, len))`
abbrev pub push_entry : Entry → List Entry → Result Error (List Entry)
push_entry e es = ok (es ++ (e ∷ []))

-- The hash of an entry: the first of a block is stored raw, a later one by its delta.
unfoldable pub write_hash : List ℕ → Option ℕ → ℕ → Result Error (List ℕ)
write_hash [] last_hash hash = ok (to_be_bytes hash)
write_hash (b ∷ block) last_hash hash = do
  last ← context last_hash first_delta
  ok (write_varint (b ∷ block) (hash - last))

-- The value of an entry: one varint for a singleton, else three.
unfoldable pub write_value : List ℕ → ℕ → Option ℕ → Result Error (List ℕ)
write_value block value len =
    let (offset, count) = unpack_posting value in
    if count == 1
    then (do
      ensure (elim len [ none ↦ true | some n ↦ false ]) singleton_with_len
      ok (write_varint block (offset * 2 + 1)))
    else (do
      n ← context len missing_len
      ensure (ltb 0 n) zero_length
      ok (write_varint (write_varint (write_varint block (count * 2)) offset) n))

-- `self.last_hash.is_none_or(|last| hash > last)`
unfoldable pub after_last : Option ℕ → ℕ → Bool
after_last none hash = true
after_last (some last) hash = ltb last hash
