-- ===== src/DeltaBlocks/Ends.antt =====
-- The decoder ends on every input: the fuel of its model is never short.
use holys.Common.{ℕ, zero, suc, ◌+◌, ◌-◌, ◌*◌, ◌/◌, ◌≤◌, ◌≡◌, arith, min, ◌≢◌, refl, ◌∙◌}
use holys.Common.{List, [], ◌∷◌, Option, none, some, err, Bool, true, false}
use holys.Common.{>>=-eq-err, err-injective, ok-ne-err, ensure, context, leb, ltb, ◌&&◌, inl, inr}
use holys.BitPack.{unpack_fixed}
use holys.BitPack.Visits.{unpack_fixed_err}
use holys.DeltaBlocks.{
  Error, truncated, stuck, add_delta, visit_delta, next_byte, next_bytes, block_ids,
}
use holys.DeltaBlocks.{
  decode_block, decode_blocks, decode_delta_blocks, delta_overflows, out_of_bounds,
}
use holys.DeltaBlocks.{no_width_header, invalid_width, ends_inside_ids, count_exceeds_docs}

context_err :
    {A : Type 0} (o : Option A) (e x : Error) → e ≢ stuck → context o e ≡ err x → x ≢ stuck
context_err none e x n h = λ p. n (err-injective h ∙ p)
context_err (some a) e x n h = absurd (ok-ne-err h)

ensure_err : (t : Bool) (e x : Error) → e ≢ stuck → ensure t e ≡ err x → x ≢ stuck
ensure_err true e x n h = absurd (ok-ne-err h)
ensure_err false e x n h = λ p. n (err-injective h ∙ p)

visit_delta_err :
    (doc_count v : ℕ) (s : Option ℕ × List ℕ) (x : Error)
    → visit_delta doc_count v s ≡ err x
    → x ≢ stuck
unfolding visit_delta
visit_delta_err doc_count v s x h =
    elim (>>=-eq-err (context (add_delta s.0 v) delta_overflows) _ h) [
      | inl h0 ↦ context_err (add_delta s.0 v) delta_overflows x (λ p. cc) h0
      | inr (id, _, h1) ↦ elim (>>=-eq-err (ensure (ltb id doc_count) out_of_bounds) _ h1) [
        | inl h2 ↦ ensure_err (ltb id doc_count) out_of_bounds x (λ p. cc) h2
        | inr (_, _, h3) ↦ absurd (ok-ne-err h3)
      ]
    ]

decode_block_err :
    (doc_count block : ℕ) (rest : List ℕ) (s : Option ℕ × List ℕ) (x : Error)
    → decode_block doc_count block rest s ≡ err x
    → x ≢ stuck
unfolding decode_block
decode_block_err doc_count block rest s x h =
    elim (>>=-eq-err (context (next_byte rest) no_width_header) _ h) [
      | inl h0 ↦ context_err (next_byte rest) no_width_header x (λ p. cc) h0
      | inr (header, _, h1) ↦
          elim (>>=-eq-err (ensure (leb 1 header.0 && leb header.0 32) invalid_width) _ h1) [
            | inl h2 ↦ ensure_err (leb 1 header.0 && leb header.0 32) invalid_width x (λ p. cc) h2
            | inr (_, _, h3) ↦
                elim (>>=-eq-err
                  (context (next_bytes ((block * header.0 + 7) / 8) header.1) ends_inside_ids) _
                  h3) [
                    | inl h4 ↦
                        context_err (next_bytes ((block * header.0 + 7) / 8) header.1)
                          ends_inside_ids x (λ p. cc) h4
                    | inr (body, _, h5) ↦
                        elim (>>=-eq-err
                          (unpack_fixed truncated body.0 block header.0 (visit_delta doc_count) s) _
                          h5) [
                            | inl h6 ↦
                                unpack_fixed_err (λ y. y ≢ stuck) truncated header.0
                                  (visit_delta doc_count) (λ p. cc) (visit_delta_err doc_count)
                                  body.0 block s x h6
                            | inr (_, _, h7) ↦ absurd (ok-ne-err h7)
                          ]
                  ]
          ]
    ]

decode_blocks-ne-stuck :
    (fuel doc_count remaining : ℕ) (rest : List ℕ) (s : Option ℕ × List ℕ)
    → remaining ≤ fuel
    → decode_blocks fuel doc_count remaining rest s ≢ err stuck
unfolding decode_blocks
decode_blocks-ne-stuck fuel doc_count zero [] s l h = ok-ne-err h
decode_blocks-ne-stuck fuel doc_count zero (b ∷ rest) s l h = cc
decode_blocks-ne-stuck zero doc_count (suc remaining) rest s l h = absurd (omega arith)
decode_blocks-ne-stuck (suc fuel) doc_count (suc remaining) rest s l h =
    let block : ℕ = min (suc remaining) block_ids in
    elim (>>=-eq-err (decode_block doc_count block rest s) _ h) [
      | inl h0 ↦ decode_block_err doc_count block rest s stuck h0 refl
      | inr (r, _, h1) ↦
          decode_blocks-ne-stuck fuel doc_count (suc remaining - block) r.0 r.1 (omega arith) h1
    ]

-- On any bytes and counts the decoder returns a list or one of its own errors.
pub decode-ne-stuck :
    (bytes : List ℕ) (count doc_count : ℕ) → decode_delta_blocks bytes count doc_count ≢ err stuck
unfolding decode_delta_blocks
decode-ne-stuck bytes count doc_count h =
    elim (>>=-eq-err (ensure (leb count doc_count) count_exceeds_docs) _ h) [
      | inl h0 ↦ ensure_err (leb count doc_count) count_exceeds_docs stuck (λ p. cc) h0 refl
      | inr (_, _, h1) ↦
          decode_blocks-ne-stuck count doc_count count bytes (none, []) (omega arith) h1
    ]
