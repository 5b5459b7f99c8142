-- ===== src/BitPack.antt =====
-- crates/index/src/delta_blocks.rs and crates/index/src/lib.rs: fixed-width bit packing through a
-- 64-bit accumulator. A byte slice is a list of numbers; an iterator over it is the suffix left.
pub mod Pack
pub mod PackBytes
pub mod Digits
pub mod Unpack
pub mod Visits
use holys.Common.{ℕ, zero, suc, ◌+◌, ◌-◌, ◌*◌, ◌/◌, ◌%◌, ◌^◌, bit_and, bit_or, Bool, true, false}
use holys.Common.{List, [], ◌∷◌, ◌++◌, if◌then◌else◌, ltb, leb, Result, ok, err, ◌>>=◌}
use holys.Common.{length}
use holys.Common.Bits.{mask}

-- The locals of the packing loop.
pub record Packer : Type 0 where
  pub acc : ℕ
  pub filled : ℕ
  pub out : List ℕ

-- `while filled >= 8`: each round takes 8 from `filled`, so `filled` rounds are enough.
pub drain : ℕ → Packer → Packer
drain zero p = p
drain (suc fuel) p =
    let next =
      drain fuel (record {
        acc = p.acc / 256;
        filled = p.filled - 8;
        out = p.out ++ ((p.acc % 256) ∷ []);
      }) in
    if leb 8 p.filled then next else p

-- One round of the `for`: `acc |= u64::from(value) << filled; filled += width;` and the drain.
pub pack_value : ℕ → Packer → ℕ → Packer
pack_value width p value = drain (p.filled + width) (record {
  acc = bit_or p.acc (value * 2 ^ p.filled % 2 ^ 64);
  filled = p.filled + width;
  out = p.out;
})

pub pack_loop : ℕ → Packer → List ℕ → Packer
pack_loop width p [] = p
pack_loop width p (v ∷ vs) = pack_loop width (pack_value width p v) vs

pub finish : Packer → List ℕ
finish p = if ltb 0 p.filled then p.out ++ ((p.acc % 256) ∷ []) else p.out

abbrev pub new_packer : List ℕ → Packer
new_packer out = record { acc = 0; filled = 0; out = out }

unfoldable pub pack_fixed : List ℕ → ℕ → List ℕ → List ℕ
unfolding drain pack_value pack_loop finish
pack_fixed values width out = finish (pack_loop width (new_packer out) values)

-- lib.rs keeps its own copy of the loop, with the buffer first.
unfoldable pub pack_ids : List ℕ → List ℕ → ℕ → List ℕ
unfolding drain pack_value pack_loop finish
pack_ids buf ids width = finish (pack_loop width (new_packer buf) ids)

module _ {E : Type 0} (truncated : E) where
  -- `while filled < width`: a byte a round, so the recursion is on the input.
  pub refill : ℕ → ℕ → ℕ → List ℕ → Result E (ℕ × ℕ × List ℕ)
  refill width acc filled [] = if ltb filled width then err truncated else ok (acc, filled, [])
  refill width acc filled (b ∷ input) =
      let more = refill width (bit_or acc (b * 2 ^ filled % 2 ^ 64)) (filled + 8) input in
      if ltb filled width then more else ok (acc, filled, b ∷ input)

  -- `visit` is the closure, with what it captures as a state.
  pub unpack_loop : {S : Type 0} → ℕ → ℕ → (ℕ → S → Result E S) → ℕ → ℕ → List ℕ → S → Result E S
  unpack_loop zero width visit acc filled input s = ok s
  unpack_loop (suc n) width visit acc filled input s = do
    (acc', filled', input') ← refill width acc filled input
    s' ← visit (bit_and acc' (mask width) % 2 ^ 32) s
    unpack_loop n width visit (acc' / 2 ^ width) (filled' - width) input' s'

  unfoldable pub unpack_fixed :
      {S : Type 0} → List ℕ → ℕ → ℕ → (ℕ → S → Result E S) → S → Result E S
  unfolding refill unpack_loop
  unpack_fixed bytes n width visit s = unpack_loop n width visit 0 0 bytes s

-- lib.rs: the visitor pushes the id, and a missing byte is a panic.
pub data Panic : Type 0 where
  length_not_validated : Panic

abbrev pub push_id : ℕ → List ℕ → Result Panic (List ℕ)
push_id id out = ok (out ++ (id ∷ []))

unfoldable pub unpack_ids : List ℕ → ℕ → ℕ → Result Panic (List ℕ)
unfolding unpack_fixed
unpack_ids bytes n width = unpack_fixed length_not_validated bytes n width push_id []
