-- ===== src/SparseTable/IndexValid.antt =====
-- What block_for of crates/index/src/sparse_table.rs promises: a hash leads to the block whose range of
-- hashes it is in.
use holys.Common.{ℕ, zero, suc, ◌<◌, ◌≤◌, ◌≡◌, refl, subst, arith, leb, leb→le, leb→gt}
use holys.Common.{List, [], ◌∷◌, get_elem?, Option, none, some, Bool-cases, inl, inr}
use holys.SparseTable.Writer.{SparseBlockRef}
use holys.SparseTable.Index.{blocks_up_to, block_for}

-- The block `i` starts at or below the hash, and the next one above it.
abbrev pub Covers : List SparseBlockRef → ℕ → ℕ → Type 0
Covers refs hash i =
    (r : SparseBlockRef) × (get_elem? refs i ≡ some r)
    × (r.first_hash ≤ hash)
    × ((s : SparseBlockRef) → get_elem? refs (suc i) ≡ some s → hash < s.first_hash)

none_above :
    (hash : ℕ) (refs : List SparseBlockRef) (s : SparseBlockRef)
    → blocks_up_to hash refs ≡ 0
    → get_elem? refs 0 ≡ some s
    → hash < s.first_hash
unfolding blocks_up_to
none_above hash [] s z e = cc
none_above hash (r ∷ refs) s z e = elim (Bool-cases (leb r.first_hash hash)) [
  | inl t ↦ absurd (positive (rw (t, blocks_up_to) at z))
  | inr f ↦
      subst (λ (t : SparseBlockRef). hash < t.first_hash) (some_injective e)
        (leb→gt r.first_hash hash f)
]
  where
    positive : {n : ℕ} → suc n ≡ 0 → ⊥
    positive p = omega arith

    some_injective :
        {x y : SparseBlockRef} → ◌≡◌ {A = Option SparseBlockRef} (some x) (some y) → x ≡ y
    some_injective p = cc

blocks_up_to-Covers :
    (hash : ℕ) (refs : List SparseBlockRef) (m : ℕ)
    → blocks_up_to hash refs ≡ suc m
    → Covers refs hash m
unfolding blocks_up_to
blocks_up_to-Covers hash [] m e = absurd (omega arith)
blocks_up_to-Covers hash (r ∷ refs) m e = elim (Bool-cases (leb r.first_hash hash)) [
  | inr f ↦ absurd (omega (arith, rw (f, blocks_up_to) at e))
  | inl t ↦
      by_rest m (blocks_up_to hash refs) refl (rw (t, blocks_up_to) at e)
        (blocks_up_to-Covers hash refs) (leb→le r.first_hash hash t)
]
  where
    by_rest :
        (m n : ℕ)
        → blocks_up_to hash refs ≡ n
        → suc (blocks_up_to hash refs) ≡ suc m
        → ((k : ℕ) → blocks_up_to hash refs ≡ suc k → Covers refs hash k)
        → r.first_hash ≤ hash
        → Covers (r ∷ refs) hash m
    by_rest zero n c e ih l = (r, refl, l, λ s. none_above hash refs s (omega (arith, e)))
    by_rest (suc m) n c e ih l =
        let (s, at, below, above) = ih m (omega (arith, e)) in (s, at, below, above)

-- The block that `block_for` gives starts at or below the hash, and the next one above it.
pub block_for-Covers :
    (refs : List SparseBlockRef) (hash i : ℕ) → block_for refs hash ≡ some i → Covers refs hash i
unfolding block_for
block_for-Covers refs hash i h = by_count (blocks_up_to hash refs) refl h
  where
    none_some : ◌≡◌ {A = Option ℕ} none (some i) → ⊥
    none_some p = cc

    some_injective : {x y : ℕ} → ◌≡◌ {A = Option ℕ} (some x) (some y) → x ≡ y
    some_injective p = cc

    by_count :
        (n : ℕ)
        → blocks_up_to hash refs ≡ n
        → ◌≡◌ {A = Option ℕ} (elim n [ zero ↦ none | suc m ↦ some m ]) (some i)
        → Covers refs hash i
    by_count zero e p = absurd (none_some p)
    by_count (suc m) e p =
        subst (Covers refs hash) (some_injective p) (blocks_up_to-Covers hash refs m e)
