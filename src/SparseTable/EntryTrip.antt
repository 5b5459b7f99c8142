-- ===== src/SparseTable/EntryTrip.antt =====
-- The entries that a block is read as are those that were written to it.
use holys.Common.{
  ℕ, zero, suc, ◌+◌, ◌-◌, ◌*◌, ◌/◌, ◌%◌, ◌^◌, ◌<◌, ◌≤◌, ◌≡◌, ◌≢◌, refl, sym, ap, ap₂, ◌∙◌, subst,
  arith,
}
use holys.Common.{
  List, [], ◌∷◌, ◌++◌, length, length-append, append-nil, append_assoc, Option, none, some, true,
  false,
}
use holys.Common.{
  ltb, ◌==◌, lt→ltb, ltb→lt, ==→eq, ensure-eq-ok, Bool-cases, inl, inr, Result, ok, ensure, context,
  ◌>>=◌, ◌>>◌, ok-injective, ok-ne-err,
}
use holys.Common.Bits.{bit_and-mask}
use holys.Common.Bytes.{to_be_bytes, from-to_be_bytes}
use holys.Eval.Resolve.{unpack_posting}
use holys.Eval.Pack.{pack_accepts}
use holys.SparseTable.Errors.{Error, zero_length}
use holys.SparseTable.VarintExact.{read_varint_bounds}
use holys.SparseTable.Varint.{write_varint, read_varint, read-write_varint, write_varint-append}
use holys.SparseTable.Entry.{
  Entry, packed, value_of_tag, read_value, entries_loop, for_each_entry, push_entry, write_value,
}

-- The bytes of a value, by what they say: a singleton, or an offset, a count and a length.
pub data Stored : ℕ → Option ℕ → List ℕ → Type 0 where
  single :
      (offset : ℕ)
      → offset < 2 ^ 40
      → Stored (offset + 1 * 2 ^ 40) none (write_varint [] (offset * 2 + 1))
  many :
      (offset count n : ℕ)
      → offset < 2 ^ 40
      → count < 2 ^ 24
      → count ≢ 1
      → 0 < n
      → n < 2 ^ 64
      → Stored
          (offset + count * 2 ^ 40)
          (some n)
          (write_varint [] (count * 2) ++ (write_varint [] offset ++ write_varint [] n))

read_single :
    (offset : ℕ) (rest : List ℕ)
    → offset < 2 ^ 40
    → value_of_tag (offset * 2 + 1) rest ≡ ok ((offset + 1 * 2 ^ 40, none), rest)
unfolding value_of_tag packed
read_single offset rest h =
    let odd : ((offset * 2 + 1) % 2 == 1) ≡ true = ground arith in
    let half : (offset * 2 + 1) / 2 ≡ offset = omega arith in
    rw (odd, half, pack_accepts offset 1 h (omega arith)) refl

read_many :
    (offset count n : ℕ) (rest : List ℕ)
    → offset < 2 ^ 40
    → count < 2 ^ 24
    → count ≢ 1
    → 0 < n
    → n < 2 ^ 64
    → value_of_tag (count * 2) (write_varint [] offset ++ (write_varint [] n ++ rest))
      ≡ ok ((offset + count * 2 ^ 40, some n), rest)
unfolding value_of_tag packed
read_many offset count n rest ho hc ne pos hn =
    let even : (count * 2 % 2 == 1) ≡ false = ground arith in
    let half : count * 2 / 2 ≡ count = omega arith in
    let plural : (count == 1) ≡ false = ground arith in
    rw
      (
        even,
        half,
        plural,
        read-write_varint offset (write_varint [] n ++ rest) (omega arith),
        read-write_varint n rest hn,
        lt→ltb 0 n pos,
        pack_accepts offset count ho hc,
      )
      refl

-- A stored value is read back, and what follows it is left.
read_value-Stored :
    (value : ℕ) (len : Option ℕ) (bytes rest : List ℕ)
    → Stored value len bytes
    → read_value (bytes ++ rest) ≡ ok ((value, len), rest)
unfolding read_value
read_value-Stored _ _ _ rest (single offset h) =
    rw (read-write_varint (offset * 2 + 1) rest (omega arith)) (read_single offset rest h)
read_value-Stored _ _ _ rest (many offset count n ho hc ne pos hn) =
    rw
      (
        append_assoc (write_varint [] (count * 2)) (write_varint [] offset ++ write_varint [] n)
            rest,
        append_assoc (write_varint [] offset) (write_varint [] n) rest,
        read-write_varint (count * 2) (write_varint [] offset ++ (write_varint [] n ++ rest))
            (omega arith),
      )
      (read_many offset count n rest ho hc ne pos hn)

-- The bytes of the entries behind an entry of the given hash.
abbrev pub Chain : ℕ → List Entry → List ℕ → Type 0
Chain hash [] bytes = bytes ≡ []
Chain hash (e ∷ es) bytes =
    (stored : List ℕ) × (tail : List ℕ) × (bytes
      ≡ write_varint [] (e.hash - hash) ++ (stored ++ tail))
    × (hash < e.hash)
    × (e.hash < 2 ^ 64)
    × Stored e.value e.len stored
    × Chain e.hash es tail

-- The bytes of a block: the first hash is raw.
abbrev pub IsBlock : List Entry → List ℕ → Type 0
IsBlock [] bytes = bytes ≡ []
IsBlock (e ∷ es) bytes =
    (stored : List ℕ) × (tail : List ℕ) × (bytes ≡ to_be_bytes e.hash ++ (stored ++ tail))
    × (e.hash < 2 ^ 64)
    × Stored e.value e.len stored
    × Chain e.hash es tail

varint_pos : (v : ℕ) → v < 2 ^ 64 → 0 < length (write_varint [] v)
varint_pos v h = omega (
  arith,
  (read_varint_bounds (write_varint [] v ++ []) v [] (read-write_varint v [] h)).1,
  length-append (write_varint [] v) [],
)

pub Stored-pos :
    (value : ℕ) (len : Option ℕ) (stored : List ℕ) → Stored value len stored → 0 < length stored
Stored-pos _ _ _ (single offset h) = varint_pos (offset * 2 + 1) (omega arith)
Stored-pos _ _ _ (many offset count n ho hc ne pos hn) = omega (
  arith,
  varint_pos (count * 2) (omega arith),
  length-append (write_varint [] (count * 2)) (write_varint [] offset ++ write_varint [] n),
)

entries_step :
    {S : Type 0} (visit : Entry → S → Result Error S) (fuel hash delta : ℕ)
    (bs stored tail : List ℕ) (value : ℕ) (len : Option ℕ) (s : S)
    → read_varint bs ≡ ok (delta, stored ++ tail)
    → 0 < delta
    → hash + delta < 2 ^ 64
    → Stored value len stored
    → entries_loop visit (suc fuel) hash bs s ≡ (
        visit (record { hash = hash + delta; value = value; len = len }) s >>= λ s'.
        entries_loop visit fuel (hash + delta) tail s')
unfolding entries_loop
entries_step visit fuel hash delta [] stored tail value len s r pos u st =
    absurd (omega (arith, (read_varint_bounds [] delta (stored ++ tail) r).1))
entries_step visit fuel hash delta (b ∷ bs) stored tail value len s r pos u st =
    rw
      (
        r,
        lt→ltb 0 delta pos,
        lt→ltb (hash + delta) (2 ^ 64) u,
        read_value-Stored value len stored tail st,
      )
      refl

-- The loop over a chain reads its entries, on fuel for its bytes.
entries_loop-Chain :
    (fuel hash : ℕ) (es : List Entry) (bytes : List ℕ) (acc : List Entry)
    → Chain hash es bytes
    → length bytes ≤ fuel
    → entries_loop push_entry fuel hash bytes acc ≡ ok (acc ++ es)
entries_loop-Chain fuel hash [] bytes acc e l =
    ap (λ (t : List ℕ). entries_loop push_entry fuel hash t acc) e
    ∙ unfold entries_loop in ap ok (sym (append-nil acc))
entries_loop-Chain zero hash (e ∷ es) bytes acc (stored, tail, p, h, u, st, chain) l =
    let read = read-write_varint (e.hash - hash) (stored ++ tail) (omega (arith, u)) in
    absurd (
      omega (arith, l, ap length p, (read_varint_bounds _ (e.hash - hash) (stored ++ tail) read).1))
entries_loop-Chain (suc fuel) hash (e ∷ es) bytes acc (stored, tail, p, h, u, st, chain) l =
    let read = read-write_varint (e.hash - hash) (stored ++ tail) (omega (arith, u)) in
    let sum : hash + (e.hash - hash) ≡ e.hash = omega (arith, h) in
    let taken = (read_varint_bounds _ (e.hash - hash) (stored ++ tail) read).1 in
    ap (λ (t : List ℕ). entries_loop push_entry (suc fuel) hash t acc) p
    ∙ entries_step push_entry fuel hash (e.hash - hash)
        (write_varint [] (e.hash - hash) ++ (stored ++ tail)) stored tail e.value e.len acc read
        (omega (arith, h)) (omega (arith, u, sum)) st
    ∙ ap
        (λ (t : ℕ).
          entries_loop push_entry fuel t tail
            (acc ++ (record { hash = t; value = e.value; len = e.len } ∷ [])))
        sum
    ∙ entries_loop-Chain fuel e.hash es tail (acc ++ (e ∷ [])) chain
        (omega (arith, l, ap length p, taken, length-append stored tail))
    ∙ ap ok (append_assoc acc (e ∷ []) es)

-- A block that holds entries is read as those entries, in order.
pub for_each_entry-IsBlock :
    (e : Entry) (es : List Entry) (block : List ℕ) (acc : List Entry)
    → IsBlock (e ∷ es) block
    → for_each_entry push_entry block acc ≡ ok (acc ++ (e ∷ es))
unfolding for_each_entry
for_each_entry-IsBlock e es block acc (stored, tail, p, u, st, chain) =
    ap (λ (t : List ℕ). for_each_entry push_entry t acc) p
    ∙ rw
        (
          for_each_entry,
          long,
          read_value-Stored e.value e.len stored tail st,
          from-to_be_bytes e.hash u,
        )
        (entries_loop-Chain (length tail) e.hash es tail (acc ++ (e ∷ [])) chain (omega arith)
          ∙ ap ok (append_assoc acc (e ∷ []) es))
  where
    nonempty : 0 < length (stored ++ tail)
    nonempty = omega (arith, length-append stored tail, Stored-pos e.value e.len stored st)

    long : ltb 8 (length (to_be_bytes e.hash ++ (stored ++ tail))) ≡ true
    long = lt→ltb 8 _ (omega (arith, nonempty))

-- A posting length that the caller gives is a u64.
abbrev pub IsLen : Option ℕ → Type 0
IsLen none = Unit
IsLen (some n) = n < 2 ^ 64

count_of :
    (value : ℕ)
    → value < 2 ^ 64
    → (unpack_posting value ≡ (value % 2 ^ 40, value / 2 ^ 40)) × (value / 2 ^ 40 < 2 ^ 24)
unfolding unpack_posting
count_of value h = (ap₂ (λ (x y : ℕ). (x, y)) (bit_and-mask 40 value) (omega arith), omega arith)

-- What `insert` writes of a value is the value's bytes.
pub write_value-Stored :
    (block : List ℕ) (value : ℕ) (len : Option ℕ) (written : List ℕ)
    → value < 2 ^ 64
    → IsLen len
    → write_value block value len ≡ ok written
    → (stored : List ℕ) × (written ≡ block ++ stored) × Stored value len stored
unfolding write_value
write_value-Stored block value len written hv hl h =
    let (parts, fits) = count_of value hv in
    elim (Bool-cases (value / 2 ^ 40 == 1)) [
      | inl one ↦ alone len (==→eq (value / 2 ^ 40) 1 one) (rw (parts, one) at h)
      | inr more ↦
          together len fits (λ e. unequal (value / 2 ^ 40) 1 e more) hl (rw (parts, more) at h)
    ]
  where
    unequal : (x y : ℕ) → x ≡ y → (x == y) ≡ false → ⊥
    unequal x y e f = ground arith

    alone :
        (len : Option ℕ)
        → value / 2 ^ 40 ≡ 1
        → (ensure (elim len [ none ↦ true | some n ↦ false ]) Error.singleton_with_len
            >> ok (write_varint block (value % 2 ^ 40 * 2 + 1)))
          ≡ ok written
        → (stored : List ℕ) × (written ≡ block ++ stored) × Stored value len stored
    alone (some n) e k = absurd (ok-ne-err (sym k))
    alone none e k = (
      write_varint [] (value % 2 ^ 40 * 2 + 1),
      sym (ok-injective k) ∙ write_varint-append block (value % 2 ^ 40 * 2 + 1),
      subst (λ (t : ℕ). Stored t none (write_varint [] (value % 2 ^ 40 * 2 + 1))) (omega (arith, e))
          (single (value % 2 ^ 40) (omega arith)),
    )

    together :
        (len : Option ℕ)
        → value / 2 ^ 40 < 2 ^ 24
        → value / 2 ^ 40 ≢ 1
        → IsLen len
        → (context len Error.missing_len >>= λ n.
            ensure (ltb 0 n) zero_length
            >> ok (
                write_varint
                  (write_varint (write_varint block (value / 2 ^ 40 * 2)) (value % 2 ^ 40))
                  n))
          ≡ ok written
        → (stored : List ℕ) × (written ≡ block ++ stored) × Stored value len stored
    together none fits ne hl k = absurd (ok-ne-err (sym k))
    together (some n) fits ne hl k =
        let (pos, e) = ensure-eq-ok (ltb 0 n) zero_length _ k in
        (
          write_varint [] (value / 2 ^ 40 * 2)
              ++ (write_varint [] (value % 2 ^ 40) ++ write_varint [] n),
          sym (ok-injective e)
              ∙ write_varint-append
                  (write_varint (write_varint block (value / 2 ^ 40 * 2)) (value % 2 ^ 40)) n
              ∙ ap (λ (t : List ℕ). t ++ write_varint [] n)
                  (write_varint-append (write_varint block (value / 2 ^ 40 * 2)) (value % 2 ^ 40)
                    ∙ ap (λ (t : List ℕ). t ++ write_varint [] (value % 2 ^ 40))
                        (write_varint-append block (value / 2 ^ 40 * 2)))
              ∙ ap (λ (t : List ℕ). t ++ write_varint [] n)
                  (append_assoc block (write_varint [] (value / 2 ^ 40 * 2))
                    (write_varint [] (value % 2 ^ 40)))
              ∙ append_assoc block
                  (write_varint [] (value / 2 ^ 40 * 2) ++ write_varint [] (value % 2 ^ 40))
                  (write_varint [] n)
              ∙ ap (◌++◌ block) (
                  append_assoc (write_varint [] (value / 2 ^ 40 * 2))
                    (write_varint [] (value % 2 ^ 40)) (write_varint [] n)),
          subst
              (λ (t : ℕ). Stored t (some n) (
                write_varint [] (value / 2 ^ 40 * 2)
                ++ (write_varint [] (value % 2 ^ 40) ++ write_varint [] n)))
              (omega arith)
              (many (value % 2 ^ 40) (value / 2 ^ 40) n (omega arith) fits ne (ltb→lt 0 n pos) hl),
        )
