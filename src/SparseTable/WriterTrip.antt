-- ===== src/SparseTable/WriterTrip.antt =====
-- The blocks that a writer's index names hold the entries that were inserted, in order.
use holys.Common.{ℕ, ◌+◌, ◌≡◌, refl, sym, ap, ap₂, ◌∙◌, subst, arith, leb, le→leb}
use holys.Common.{
  List, [], ◌∷◌, ◌++◌, length, length-append, append-nil, append_assoc, take-append, drop-append,
  some, All,
}
use holys.Common.{Bool-cases, inl, inr, ok, context, ◌>>=◌, ok-injective, >>=-eq-ok, ensure-eq-ok}
use holys.SparseTable.Errors.{not_ascending, truncated}
use holys.SparseTable.Entry.{Entry, write_hash, write_value, after_last, for_each_entry, push_entry}
use holys.SparseTable.EntryTrip.{IsBlock, for_each_entry-IsBlock}
use holys.SparseTable.Writer.{
  SparseBlockRef, SparseTableWriter, sparse_table_magic, new, block_ref, flushed, flush_block,
  flush_full,
}
use holys.SparseTable.Writer.{
  block_bytes, insert, insert_all, finish, byte_range, visit_table, first_hash_of, tail_bytes,
}
use holys.SparseTable.WriterBlocks.{
  IsEntry, KnowsLast, IsBlock-snoc, last-snoc, Blocks, flat, flat-snoc, Refs, Refs-snoc,
}

-- A writer that holds the entries.
pub record IsWriter (w : SparseTableWriter) (entries : List Entry) : Type 0 where
  pub done : Blocks
  pub pending : List Entry
  pub bytes : List ℕ
  pub whole : entries ≡ flat done ++ pending
  pub written_out : w.out ≡ sparse_table_magic ++ bytes
  pub counted : w.written ≡ 8 + length bytes
  pub refs : Refs 8 w.index done bytes
  pub open_block : IsBlock pending w.block
  pub known : KnowsLast pending w.last_hash

new-IsWriter : IsWriter new []
new-IsWriter =
    unfold new in
    record {
      done = [];
      pending = [];
      bytes = [];
      whole = refl;
      written_out = refl;
      counted = refl;
      refs = refl;
      open_block = refl;
      known = tt;
    }

module _ (sha256 : List ℕ → List ℕ) where
  flush_block-IsWriter :
      (w : SparseTableWriter) (entries : List Entry)
      → IsWriter w entries
      → IsWriter (flush_block sha256 w) entries
  unfolding flush_block
  flush_block-IsWriter w entries inv = by_pending inv.pending inv.whole inv.open_block inv.known
    where
      by_pending :
          (pending : List Entry)
          → entries ≡ flat inv.done ++ pending
          → IsBlock pending w.block
          → KnowsLast pending w.last_hash
          → IsWriter (flush_block sha256 w) entries
      by_pending [] e b k = rw (b, flush_block) inv
      by_pending (p ∷ ps) e b k =
          subst (λ t. IsWriter t entries)
            (sym (ap (λ t. elim t [ [] ↦ w | x ∷ xs ↦ flushed sha256 w ]) b.2))
            (record {
              done = inv.done ++ ((p, ps) ∷ []);
              pending = [];
              bytes = inv.bytes ++ w.block;
              whole =
                  e
                  ∙ sym (flat-snoc inv.done p ps)
                  ∙ sym (append-nil (flat (inv.done ++ ((p, ps) ∷ []))));
              written_out = ap (λ t. t ++ w.block) inv.written_out;
              counted = omega (arith, inv.counted, length-append inv.bytes w.block);
              refs =
                  Refs-snoc 8 w.index inv.done inv.bytes (block_ref sha256 w) p ps w.block inv.refs
                    inv.counted refl b;
              open_block = refl;
              known = tt;
            })

  flush_full-IsWriter :
      (w : SparseTableWriter) (entries : List Entry)
      → IsWriter w entries
      → IsWriter (flush_full sha256 w) entries
  unfolding flush_full
  flush_full-IsWriter w entries inv = elim (Bool-cases (leb block_bytes (length w.block))) [
    | inl t ↦ rw t (flush_block-IsWriter w entries inv)
    | inr f ↦ rw f inv
  ]

  -- An insert that succeeds adds its entry.
  insert-IsWriter :
      (e : Entry) (w w' : SparseTableWriter) (entries : List Entry)
      → IsEntry e
      → insert sha256 e w ≡ ok w'
      → IsWriter w entries
      → IsWriter w' (entries ++ (e ∷ []))
  unfolding insert
  insert-IsWriter e w w' entries i h inv =
      let (after, h1) = ensure-eq-ok (after_last w.last_hash e.hash) not_ascending _ h in
      let (hashed, hh, h2) =
        >>=-eq-ok (write_hash w.block w.last_hash e.hash)
          (λ t. write_value t e.value e.len >>= λ s. ok (flush_full sha256 (grown s))) h1 in
      let (stored, hs, h3) =
        >>=-eq-ok (write_value hashed e.value e.len) (λ s. ok (flush_full sha256 (grown s))) h2 in
      subst (λ t. IsWriter t (entries ++ (e ∷ []))) (ok-injective h3)
        (flush_full-IsWriter (grown stored) (entries ++ (e ∷ [])) (record {
          done = inv.done;
          pending = inv.pending ++ (e ∷ []);
          bytes = inv.bytes;
          whole =
              ap (λ t. t ++ (e ∷ [])) inv.whole ∙ append_assoc (flat inv.done) inv.pending (e ∷ []);
          written_out = inv.written_out;
          counted = inv.counted;
          refs = inv.refs;
          open_block =
              IsBlock-snoc inv.pending w.block w.last_hash e hashed stored inv.open_block inv.known
                i after hh hs;
          known = last-snoc inv.pending e;
        }))
    where
      grown : List ℕ → SparseTableWriter
      grown s = record w {
        block = s;
        block_first_hash = first_hash_of w.block e.hash w.block_first_hash;
        last_hash = some e.hash;
        entry_count = w.entry_count + 1;
      }

  insert_all-IsWriter :
      (es : List Entry) (w w' : SparseTableWriter) (entries : List Entry)
      → All IsEntry es
      → insert_all sha256 es w ≡ ok w'
      → IsWriter w entries
      → IsWriter w' (entries ++ es)
  unfolding insert_all
  insert_all-IsWriter [] w w' entries a h inv =
      subst (λ t. IsWriter t (entries ++ [])) (ok-injective h)
        (subst (IsWriter w) (sym (append-nil entries)) inv)
  insert_all-IsWriter (e ∷ es) w w' entries (i, a) h inv =
      let (middle, hm, h') = >>=-eq-ok (insert sha256 e w) (λ t. insert_all sha256 es t) h in
      subst (IsWriter w') (append_assoc entries (e ∷ []) es) (
        insert_all-IsWriter es middle w' (entries ++ (e ∷ [])) a h'
          (insert-IsWriter e w middle entries i hm inv))

slice_middle :
    (pre block rest : List ℕ)
    → byte_range (pre ++ (block ++ rest)) (length pre) (length block) ≡ some block
slice_middle pre block rest =
    rw
      (
        le→leb (length pre + length block) (length (pre ++ (block ++ rest)))
            (omega (arith, length-append pre (block ++ rest), length-append block rest)),
        drop-append pre (block ++ rest),
        take-append block rest,
      )
      refl

-- Behind `pre`, the references read their blocks.
visit_table-Refs :
    (pre : List ℕ) (refs : List SparseBlockRef) (done : Blocks) (bytes suffix : List ℕ)
    (acc : List Entry)
    → Refs (length pre) refs done bytes
    → visit_table (pre ++ (bytes ++ suffix)) refs acc ≡ ok (acc ++ flat done)
unfolding visit_table
visit_table-Refs pre [] [] bytes suffix acc p = ap ok (sym (append-nil acc))
visit_table-Refs pre [] (d ∷ done) bytes suffix acc p = absurd p
visit_table-Refs pre (r ∷ refs) [] bytes suffix acc p = absurd p
visit_table-Refs pre (r ∷ refs) ((e, es) ∷ done) bytes suffix acc (block, rest, p, o, l, b, more) =
    let after =
      visit_table-Refs (pre ++ block) refs done rest suffix (acc ++ (e ∷ es))
        (subst (λ t. Refs t refs done rest) (sym (length-append pre block)) more) in
    let image : pre ++ (bytes ++ suffix) ≡ pre ++ (block ++ (rest ++ suffix)) =
      ap (λ t. pre ++ (t ++ suffix)) p ∙ ap (◌++◌ pre) (append_assoc block rest suffix) in
    ap (λ t. visit_table t (r ∷ refs) acc) image
    ∙ ap₂
        (λ s n. context (byte_range (pre ++ (block ++ (rest ++ suffix))) s n) truncated >>= λ raw.
          for_each_entry push_entry raw acc >>= λ acc'.
          visit_table (pre ++ (block ++ (rest ++ suffix))) refs acc')
        o l
    ∙ rw (slice_middle pre block (rest ++ suffix), for_each_entry-IsBlock e es block acc b)
        (ap (λ t. visit_table t refs (acc ++ (e ∷ es)))
            (sym (append_assoc pre block (rest ++ suffix)))
          ∙ after
          ∙ ap ok (append_assoc acc (e ∷ es) (flat done)))

-- The table that a writer finishes, read by its index, gives back the entries that were inserted, in
-- order, whatever the hash of the blocks.
pub visit-finish :
    (sha256 : List ℕ → List ℕ) (es : List Entry) (w : SparseTableWriter)
    → All IsEntry es
    → insert_all sha256 es new ≡ ok w
    → visit_table (finish sha256 w).0 (flush_block sha256 w).index [] ≡ ok es
unfolding finish flush_block
visit-finish sha256 es w a h =
    let inv =
      flush_block-IsWriter sha256 w es (insert_all-IsWriter sha256 es new w [] a h new-IsWriter) in
    ap (λ t. visit_table t (flush_block sha256 w).index [])
      (ap (λ t. t ++ tail_bytes sha256 (flush_block sha256 w)) inv.written_out
        ∙ append_assoc sparse_table_magic inv.bytes (tail_bytes sha256 (flush_block sha256 w)))
    ∙ visit_table-Refs sparse_table_magic (flush_block sha256 w).index inv.done inv.bytes
        (tail_bytes sha256 (flush_block sha256 w)) [] inv.refs
    ∙ ap ok (
        sym (
          inv.whole
          ∙ no_pending (flat inv.done) inv.pending inv.open_block
          ∙ append-nil (flat inv.done)))
  where
    closed : (b : List ℕ) → w.block ≡ b → (flush_block sha256 w).block ≡ []
    closed [] e = rw (e, flush_block) e
    closed (x ∷ xs) e = rw (e, flush_block) refl

    no_pending :
        (done : List Entry) (pending : List Entry)
        → IsBlock pending (flush_block sha256 w).block
        → done ++ pending ≡ done ++ []
    no_pending done [] b = refl
    no_pending done (p ∷ ps) (s, tail, q, u, st, chain) =
        absurd (omega (arith, ap length q, ap length (closed w.block refl)))
