-- ===== src/SparseTable/WriterBlocks.antt =====
-- The blocks of a table, and the references that name them.
use holys.Common.{ℕ, ◌+◌, ◌-◌, ◌^◌, ◌<◌, ◌≡◌, refl, sym, ap, ap₂, ◌∙◌, subst, arith, ltb→lt}
use holys.Common.{
  List, [], ◌∷◌, ◌++◌, length, length-append, append-nil, append_assoc, Option, some,
}
use holys.Common.{true, ok, ok-injective}
use holys.Common.Bytes.{to_be_bytes}
use holys.SparseTable.Varint.{write_varint, write_varint-append}
use holys.SparseTable.Entry.{Entry, write_hash, write_value, after_last}
use holys.SparseTable.EntryTrip.{Stored, Chain, IsBlock, IsLen, write_value-Stored}
use holys.SparseTable.Writer.{SparseBlockRef}

-- What `insert` is given: words of 64 bits.
abbrev pub IsEntry : Entry → Type 0
IsEntry e = (e.hash < 2 ^ 64) × (e.value < 2 ^ 64) × IsLen e.len

-- The hash of the last of the entries behind a hash.
abbrev ends : ℕ → List Entry → ℕ
ends hash [] = hash
ends hash (e ∷ es) = ends e.hash es

abbrev pub KnowsLast : List Entry → Option ℕ → Type 0
KnowsLast [] last = Unit
KnowsLast (e ∷ es) last = last ≡ some (ends e.hash es)

Chain-snoc :
    (hash : ℕ) (es : List Entry) (bytes : List ℕ) (e : Entry) (stored : List ℕ)
    → Chain hash es bytes
    → ends hash es < e.hash
    → e.hash < 2 ^ 64
    → Stored e.value e.len stored
    → Chain hash (es ++ (e ∷ [])) (bytes ++ (write_varint [] (e.hash - ends hash es) ++ stored))
Chain-snoc hash [] bytes e stored p l u st = (
  stored,
  [],
  ap (λ t. t ++ (write_varint [] (e.hash - hash) ++ stored)) p
      ∙ ap (◌++◌ (write_varint [] (e.hash - hash))) (sym (append-nil stored)),
  l,
  u,
  st,
  refl,
)
Chain-snoc hash (f ∷ es) bytes e stored (s, tail, p, h, v, sf, chain) l u st =
    let more = write_varint [] (e.hash - ends f.hash es) ++ stored in
    (
      s,
      tail ++ more,
      ap (λ t. t ++ more) p
          ∙ append_assoc (write_varint [] (f.hash - hash)) (s ++ tail) more
          ∙ ap (◌++◌ (write_varint [] (f.hash - hash))) (append_assoc s tail more),
      h,
      v,
      sf,
      Chain-snoc f.hash es tail e stored chain l u st,
    )

-- An entry joins the block that is open.
pub IsBlock-snoc :
    (pending : List Entry) (block : List ℕ) (last : Option ℕ) (e : Entry) (hashed written : List ℕ)
    → IsBlock pending block
    → KnowsLast pending last
    → IsEntry e
    → after_last last e.hash ≡ true
    → write_hash block last e.hash ≡ ok hashed
    → write_value hashed e.value e.len ≡ ok written
    → IsBlock (pending ++ (e ∷ [])) written
unfolding write_hash after_last
IsBlock-snoc [] block last e hashed written p k (u, v, l) a hh hv =
    let (stored, q, st) = write_value-Stored hashed e.value e.len written v l hv in
    let raw = ok-injective (sym (ap (λ t. write_hash t last e.hash) p) ∙ hh) in
    (
      stored,
      [],
      q
          ∙ ap (λ t. t ++ stored) (sym raw)
          ∙ ap (◌++◌ (to_be_bytes e.hash)) (sym (append-nil stored)),
      u,
      st,
      refl,
    )
IsBlock-snoc (f ∷ pending) block last e hashed written (s, tail, p, w, sf, chain) k (u, v, l) a hh
      hv =
    let (stored, q, st) = write_value-Stored hashed e.value e.len written v l hv in
    let at_last = ends f.hash pending in
    let after = subst (λ t. after_last t e.hash ≡ true) k a in
    let opened = to_be_bytes f.hash ++ (s ++ tail) in
    let gap = write_varint [] (e.hash - at_last) in
    let delta : write_varint opened (e.hash - at_last) ≡ hashed =
      ok-injective (sym (ap₂ (λ t l. write_hash t l e.hash) p k) ∙ hh) in
    (
      s,
      tail ++ (gap ++ stored),
      q
          ∙ ap (λ t. t ++ stored) (sym delta ∙ write_varint-append opened (e.hash - at_last))
          ∙ append_assoc opened gap stored
          ∙ append_assoc (to_be_bytes f.hash) (s ++ tail) (gap ++ stored)
          ∙ ap (◌++◌ (to_be_bytes f.hash)) (append_assoc s tail (gap ++ stored)),
      w,
      sf,
      Chain-snoc f.hash pending tail e stored chain (ltb→lt at_last e.hash after) u st,
    )

pub last-snoc : (pending : List Entry) (e : Entry) → KnowsLast (pending ++ (e ∷ [])) (some e.hash)
last-snoc [] e = refl
last-snoc (f ∷ pending) e = ap some (sym (ends-snoc f.hash pending))
  where
    ends-snoc : (h : ℕ) (es : List Entry) → ends h (es ++ (e ∷ [])) ≡ e.hash
    ends-snoc h [] = refl
    ends-snoc h (g ∷ es) = ends-snoc g.hash es

-- Blocks that are done, each of an entry at least.
abbrev pub Blocks : Type 0
Blocks = List (Entry × List Entry)

abbrev pub flat : Blocks → List Entry
flat [] = []
flat ((e, es) ∷ done) = (e ∷ es) ++ flat done

pub flat-snoc :
    (done : Blocks) (e : Entry) (es : List Entry)
    → flat (done ++ ((e, es) ∷ [])) ≡ flat done ++ (e ∷ es)
flat-snoc [] e es = append-nil (e ∷ es)
flat-snoc ((f, fs) ∷ done) e es =
    ap (◌++◌ (f ∷ fs)) (flat-snoc done e es) ∙ sym (append_assoc (f ∷ fs) (flat done) (e ∷ es))

-- The references of an index, from an offset on, name the blocks of the data.
abbrev pub Refs : ℕ → List SparseBlockRef → Blocks → List ℕ → Type 0
Refs offset [] [] bytes = bytes ≡ []
Refs offset [] (b ∷ done) bytes = ⊥
Refs offset (r ∷ refs) [] bytes = ⊥
Refs offset (r ∷ refs) ((e, es) ∷ done) bytes =
    (block : List ℕ) × (rest : List ℕ) × (bytes ≡ block ++ rest)
    × (r.offset ≡ offset)
    × (r.len ≡ length block)
    × IsBlock (e ∷ es) block
    × Refs (offset + length block) refs done rest

pub Refs-snoc :
    (offset : ℕ) (refs : List SparseBlockRef) (done : Blocks) (bytes : List ℕ) (r : SparseBlockRef)
    (e : Entry) (es : List Entry) (block : List ℕ)
    → Refs offset refs done bytes
    → r.offset ≡ offset + length bytes
    → r.len ≡ length block
    → IsBlock (e ∷ es) block
    → Refs offset (refs ++ (r ∷ [])) (done ++ ((e, es) ∷ [])) (bytes ++ block)
Refs-snoc offset [] [] bytes r e es block p o l b = (
  block,
  [],
  ap (λ t. t ++ block) p ∙ sym (append-nil block),
  omega (arith, o, ap length p),
  l,
  b,
  refl,
)
Refs-snoc offset [] (d ∷ done) bytes r e es block p o l b = absurd p
Refs-snoc offset (q ∷ refs) [] bytes r e es block p o l b = absurd p
Refs-snoc offset (q ∷ refs) ((f, fs) ∷ done) bytes r e es block (one, rest, p, o', l', c, more) o l
      b =
    (
      one,
      rest ++ block,
      ap (λ t. t ++ block) p ∙ append_assoc one rest block,
      o',
      l',
      c,
      Refs-snoc (offset + length one) refs done rest r e es block more
          (omega (arith, o, ap length p, length-append one rest)) l b,
    )
