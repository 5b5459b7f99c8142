-- ===== src/PostingsTable/Writer.antt =====
-- PostingsTableWriter of crates/index/src/postings_table.rs. What the inner writer was given is the list
-- `out`, the hasher is the list of the bytes that it was fed, and SHA-256 is a parameter.
use holys.Common.{ℕ, zero, suc, ◌+◌, ◌-◌, ◌*◌, ltb, ◌==◌, min}
use holys.Common.{List, [], ◌∷◌, ◌++◌, length, take, drop, if◌then◌else◌}
use holys.Common.Bytes.{to_le_bytes}
use holys.SparseTable.Writer.{hex}

-- `b"SGPOST01"`
abbrev pub postings_magic : List ℕ
postings_magic = 83 ∷ 71 ∷ 80 ∷ 79 ∷ 83 ∷ 84 ∷ 48 ∷ 49 ∷ []

abbrev pub verify_block_bytes : ℕ
verify_block_bytes = 64 * 1024

abbrev pub footer_bytes : ℕ
footer_bytes = 8 + 8 + 8

pub record PostingsTableWriter : Type 0 where
  pub out : List ℕ
  pub hasher : List ℕ
  pub block_fill : ℕ
  pub hashes : List (List ℕ)
  pub data_len : ℕ

unfoldable pub new : PostingsTableWriter
new = record { out = []; hasher = []; block_fill = 0; hashes = []; data_len = 0 }

abbrev pub table_bytes : List (List ℕ) → List ℕ
table_bytes [] = []
table_bytes (hash ∷ hashes) = hash ++ table_bytes hashes

unfoldable pub tail_bytes : PostingsTableWriter → List ℕ
tail_bytes w =
    table_bytes w.hashes
    ++ (to_le_bytes 8 w.data_len ++ (to_le_bytes 8 (length w.hashes) ++ postings_magic))

module _ (sha256 : List ℕ → List ℕ) where
  unfoldable pub close_block : PostingsTableWriter → PostingsTableWriter
  close_block w = record w {
    hasher = [];
    block_fill = 0;
    hashes = w.hashes ++ (sha256 w.hasher ∷ []);
  }

  -- The block takes `taken`, and is closed when it is full.
  unfoldable pub feed : List ℕ → PostingsTableWriter → PostingsTableWriter
  unfolding close_block
  feed taken w =
      let fed = record w { hasher = w.hasher ++ taken; block_fill = w.block_fill + length taken } in
      if fed.block_fill == verify_block_bytes then close_block fed else fed

  -- `while !rest.is_empty()`: a round takes a byte at least, so as many rounds as bytes are enough.
  unfoldable pub write_loop : ℕ → List ℕ → PostingsTableWriter → PostingsTableWriter
  unfolding feed
  write_loop fuel [] w = w
  write_loop zero (b ∷ rest) w = w
  write_loop (suc fuel) (b ∷ rest) w =
      let n = min (length (b ∷ rest)) (verify_block_bytes - w.block_fill) in
      write_loop fuel (drop n (b ∷ rest)) (feed (take n (b ∷ rest)) w)

  -- `write`, of which the inner writer took all.
  unfoldable pub write : List ℕ → PostingsTableWriter → PostingsTableWriter
  unfolding write_loop
  write bytes w =
      let hashed = write_loop (length bytes) bytes (record w { out = w.out ++ bytes }) in
      record hashed { data_len = hashed.data_len + length bytes }

  unfoldable pub write_all : List (List ℕ) → PostingsTableWriter → PostingsTableWriter
  unfolding write
  write_all [] w = w
  write_all (bytes ∷ more) w = write_all more (write bytes w)

  unfoldable pub close_last : PostingsTableWriter → PostingsTableWriter
  close_last w = if ltb 0 w.block_fill then close_block w else w

  -- The blob, the length of its data, and the hash of its tail in hexadecimal.
  unfoldable pub finish : PostingsTableWriter → List ℕ × ℕ × List ℕ
  unfolding close_last tail_bytes
  finish w =
      let closed = close_last w in
      (closed.out ++ tail_bytes closed, closed.data_len, hex (sha256 (tail_bytes closed)))
