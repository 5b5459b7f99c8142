-- ===== src/Grams.antt =====
-- crates/core/src/grams.rs: trigrams and sparse grams of a byte string. The hash rapidhash_v3 is
-- not of this repository: it is a parameter, and only makes weights.
pub mod Ranges
pub mod Complete
pub mod Window
pub mod Covering
pub mod Subset
use holys.Common.{
  ℕ, zero, suc, ◌+◌, ◌-◌, ◌*◌, ◌/◌, ◌%◌, ◌^◌, ◌≤◌, max, min, Bool, true, false, ◌&&◌, bit_or,
}
use holys.Common.{
  List, [], ◌∷◌, ◌++◌, length, take, drop, get_or, Option, none, some, if◌then◌else◌, map,
}
use holys.Common.{ltb, leb, ◌==◌, Result, ok, err, ◌>>=◌, ◌>>◌, get_elem?, context}
use holys.Common.Sorting.{sort_dedup, sort_ids}

pub data Strategy : Type 0 where
  trigram sparse : Strategy

-- Byte strings are ordered by their first difference, a prefix first.
unfoldable pub bytes_le : List ℕ → List ℕ → Bool
bytes_le [] ys = true
bytes_le (x ∷ xs) [] = false
bytes_le (x ∷ xs) (y ∷ ys) =
    let rest = bytes_le xs ys in if ltb x y then true else if x == y then rest else false

unfoldable pub bytes_eq : List ℕ → List ℕ → Bool
bytes_eq [] [] = true
bytes_eq [] (y ∷ ys) = false
bytes_eq (x ∷ xs) [] = false
bytes_eq (x ∷ xs) (y ∷ ys) = x == y && bytes_eq xs ys

-- `data[a..end]`
abbrev pub slice : ℕ → ℕ → List ℕ → List ℕ
slice a end bytes = take (end - a) (drop a bytes)

-- `data.windows(3)`, each packed big-endian: `w[0] << 16 | w[1] << 8 | w[2]`.
abbrev pub pack_window : ℕ → ℕ → ℕ → ℕ
pack_window a b c = bit_or (bit_or (a * 2 ^ 16) (b * 2 ^ 8)) c

unfoldable pub pack_windows : List ℕ → List ℕ
pack_windows (a ∷ b ∷ c ∷ rest) = pack_window a b c ∷ pack_windows (b ∷ c ∷ rest)
pack_windows _ = []

-- The path of `pack_trigram_grams` below the bitmap threshold: sort and dedup.
unfoldable pub pack_trigram_grams : List ℕ → List ℕ
unfolding pack_windows
pack_trigram_grams bytes = sort_ids (pack_windows bytes)

-- `vec![(g >> 16) as u8, (g >> 8) as u8, g as u8]`
abbrev pub unpack_gram : ℕ → List ℕ
unpack_gram g = g / 2 ^ 16 % 256 ∷ g / 2 ^ 8 % 256 ∷ g % 256 ∷ []

unfoldable pub trigram_grams_bytes : List ℕ → List (List ℕ)
unfolding pack_trigram_grams
trigram_grams_bytes bytes = map unpack_gram (pack_trigram_grams bytes)

-- A range of byte positions, the end exclusive.
abbrev pub Range : Type 0
Range = ℕ × ℕ

pub record SparseGramRanges : Type 0 where
  pub pair_count : ℕ
  pub start : ℕ
  pub end : ℕ
  pub interior_max : ℕ
  pub start_weight : ℕ
  pub emit_pair : Bool

unfoldable pub start_sparse_gram_ranges : ℕ → SparseGramRanges
start_sparse_gram_ranges len = record {
  pair_count = len - 1;
  start = 0;
  end = 0;
  interior_max = 0;
  start_weight = 0;
  emit_pair = true;
}

module _ (rapidhash_v3 : List ℕ → ℕ) where
  -- `rapidhash_v3(&[a, b]) as u32`
  unfoldable pub pair_weight : ℕ → ℕ → ℕ
  pair_weight a b = rapidhash_v3 (a ∷ b ∷ []) % 2 ^ 32

  -- `rapidhash_v3(gram) & ((1 << 40) - 1)`
  unfoldable pub hash_ngram : List ℕ → ℕ
  hash_ngram gram = Prim.Native.Nat.bit_and (rapidhash_v3 gram) (2 ^ 40 - 1)

  -- The iterator over an infallible `byte`, as `iterate_sparse_gram_ranges` makes it.
  module _ (byte : ℕ → ℕ) where
    -- `pair_weight(byte(i)?, byte(i + 1)?)`
    unfoldable pub weight_at : ℕ → ℕ
    weight_at i = pair_weight (byte i) (byte (i + 1))

    -- `if self.end > self.start + 1 { interior_max = interior_max.max(..) }`
    unfoldable pub raise_interior : SparseGramRanges → SparseGramRanges
    raise_interior s =
        if ltb (s.start + 1) s.end
        then record s { interior_max = max s.interior_max (weight_at (s.end - 1)) }
        else s

    -- The inner `while`, `n` pairs being left: it returns a range, or leaves the loop.
    unfoldable pub scan_pairs : ℕ → SparseGramRanges → SparseGramRanges × Option Range
    scan_pairs zero s = (s, none)
    scan_pairs (suc n) s =
        let s1 = raise_interior s in
        let s2 : SparseGramRanges = record s1 { end = s1.end + 1 } in
        let rest = scan_pairs n s2 in
        if leb s1.start_weight s1.interior_max
        then (s1, none)
        else if ltb s1.interior_max (weight_at s1.end)
        then (s2, some (s1.start, s1.end + 2))
        else rest

    -- Behind the inner loop: its range is returned, or `start` moves on and the outer loop goes round.
    unfoldable pub next_after :
        (SparseGramRanges → SparseGramRanges × Option Range)
        → SparseGramRanges × Option Range
        → SparseGramRanges × Option Range
    next_after again (s, some r) = (s, some r)
    next_after again (s, none) = again (record s { start = s.start + 1; emit_pair = true })

    -- `next_with`: the outer loop goes round twice at most, since a round that leaves the inner
    -- loop sets `emit_pair`.
    unfoldable pub next_loop : ℕ → SparseGramRanges → SparseGramRanges × Option Range
    next_loop zero s = (s, none)
    next_loop (suc rounds) s =
        let emitted : SparseGramRanges = record s {
          emit_pair = false;
          end = s.start + 1;
          interior_max = 0;
          start_weight = weight_at s.start;
        } in
        let continued =
          next_after (λ t. next_loop rounds t) (scan_pairs (s.pair_count - s.end) s) in
        if leb s.pair_count s.start
        then (s, none)
        else if s.emit_pair
        then (emitted, some (s.start, s.start + 2))
        else continued

    unfoldable pub next_with : SparseGramRanges → SparseGramRanges × Option Range
    next_with s = next_loop 2 s

    -- The iterator run to its end; `fuel` bounds the number of its items.
    unfoldable pub collect_ranges : ℕ → SparseGramRanges → List Range
    collect_ranges zero s = []
    collect_ranges (suc fuel) s =
        let step = next_with s in
        let rest = collect_ranges fuel (step.0) in elim (step.1) [ none ↦ [] | some r ↦ r ∷ rest ]

  -- Every range has two ends in `0..len`, so there are fewer than `len * len` of them.
  unfoldable pub iterate_sparse_gram_ranges : ℕ → (ℕ → ℕ) → List Range
  unfolding collect_ranges next_with next_loop next_after scan_pairs raise_interior weight_at
  iterate_sparse_gram_ranges len byte =
      collect_ranges byte (len * len + 1) (start_sparse_gram_ranges len)

  unfoldable pub iterate_sparse_grams : List ℕ → List (List ℕ)
  unfolding iterate_sparse_gram_ranges
  iterate_sparse_grams bytes =
      map (λ r. slice r.0 r.1 bytes)
        (iterate_sparse_gram_ranges (length bytes) (λ index. get_or bytes index 0))

  unfoldable pub sparse_grams_all_bytes : List ℕ → List (List ℕ)
  sparse_grams_all_bytes bytes = sort_dedup bytes_le bytes_eq (iterate_sparse_grams bytes)

  -- `data.windows(2)` mapped to weights.
  unfoldable pub pair_weights : List ℕ → List ℕ
  pair_weights (a ∷ b ∷ rest) = pair_weight a b ∷ pair_weights (b ∷ rest)
  pair_weights _ = []

-- `weights[a + 1..last].iter().copied().max().unwrap_or(0)`
unfoldable pub max_of : List ℕ → ℕ
max_of [] = 0
max_of (w ∷ ws) = max w (max_of ws)

-- Indices are in range where this is called, so the default 0 is never read.
unfoldable pub is_indexed_gram : List ℕ → ℕ → ℕ → Bool
unfolding max_of
is_indexed_gram weights a end =
    let last = end - 2 in
    let interior_max = max_of (slice (a + 1) last weights) in
    if last == a
    then true
    else ltb interior_max (get_or weights a 0) && ltb interior_max (get_or weights last 0)

module _ (bytes weights : List ℕ) where
  -- The closure `push`.
  unfoldable pub push : List (List ℕ) → ℕ → ℕ → List (List ℕ)
  unfolding is_indexed_gram
  push out a end = if is_indexed_gram weights a end then out ++ (slice a end bytes ∷ []) else out

  -- `while let Some(&top) = stack.last()`; the stack has its top first.
  unfoldable pub pop_lighter : ℕ → List ℕ → List (List ℕ) → List ℕ × List (List ℕ)
  pop_lighter i [] out = ([], out)
  pop_lighter i (top ∷ stack) out =
      let out' = push out top (i + 2) in
      let rest = pop_lighter i stack out' in
      if leb (get_or weights top 0) (get_or weights i 0)
      then if get_or weights top 0 == get_or weights i 0 then (stack, out') else rest
      else (top ∷ stack, out)

  -- `for i in 0..weights.len()`, `n` rounds being left.
  unfoldable pub cover_loop : ℕ → ℕ → List ℕ → List (List ℕ) → List ℕ × List (List ℕ)
  cover_loop zero i stack out = (stack, out)
  cover_loop (suc n) i stack out =
      let popped = pop_lighter i stack out in cover_loop n (i + 1) (i ∷ popped.0) (popped.1)

  -- `while stack.len() > 1`, and the last position that is left.
  unfoldable pub drain_stack : List ℕ → List (List ℕ) → List (List ℕ)
  drain_stack [] out = out
  drain_stack (pos ∷ []) out = push out pos (pos + 2)
  drain_stack (top ∷ prev ∷ stack) out = drain_stack (prev ∷ stack) (push out prev (top + 2))

module _ (rapidhash_v3 : List ℕ → ℕ) where
  unfoldable pub sparse_grams_covering_bytes : List ℕ → List (List ℕ)
  sparse_grams_covering_bytes bytes =
      if ltb (length bytes) 2
      then []
      else (let weights = pair_weights rapidhash_v3 bytes in
          let covered = cover_loop bytes weights (length weights) 0 [] [] in
          sort_dedup bytes_le bytes_eq (drain_stack bytes weights (covered.0) (covered.1)))

  -- Index-time grams and query-time grams of a strategy.
  unfoldable pub grams_index : List ℕ → Strategy → List (List ℕ)
  grams_index bytes trigram = trigram_grams_bytes bytes
  grams_index bytes sparse = sparse_grams_all_bytes rapidhash_v3 bytes

  unfoldable pub grams_query : List ℕ → Strategy → List (List ℕ)
  grams_query bytes trigram = trigram_grams_bytes bytes
  grams_query bytes sparse = sparse_grams_covering_bytes bytes
