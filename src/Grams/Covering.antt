-- ===== src/Grams/Covering.antt =====
-- Every gram that a query asks for is a gram that the indexer writes for any document around the
-- literal: first the covering loop, then the document's iterator.
use holys.Common.{
  ℕ, zero, suc, ◌+◌, ◌-◌, ◌≤◌, ◌<◌, ◌≡◌, refl, ap, ap₂, ◌∙◌, sym, arith, subst, true, false,
}
use holys.Common.{
  List, [], ◌∷◌, ◌++◌, length, length-append, get_or, Has, Has-map, Subset, All, All-append,
  All-Has,
}
use holys.Common.{Bool-cases, inl, inr, ltb, leb, ◌==◌, ltb→lt, &&→and, ==→eq}
use holys.Common.Sorting.{Has-sort_dedup, sort_dedup-Has}
use holys.Grams.{
  bytes_le, bytes_eq, slice, iterate_sparse_grams, iterate_sparse_gram_ranges,
  sparse_grams_all_bytes,
}
use holys.Grams.{pair_weights, max_of, is_indexed_gram, push, pop_lighter, cover_loop, drain_stack}
use holys.Grams.{sparse_grams_covering_bytes, Range, weight_at}
use Prim.Native.Nat.add
use holys.Common.{◌≢◌}
use holys.Grams.Ranges.{iterate_ranges, ranges}
use holys.Grams.Complete.{pair-Has, long-Has}
use holys.Grams.Window.{slice-infix, length-pair_weights, weight-infix, le-max_of-slice}

pub bytes_eq→eq : (xs ys : List ℕ) → bytes_eq xs ys ≡ true → xs ≡ ys
unfolding bytes_eq
bytes_eq→eq [] [] h = refl
bytes_eq→eq [] (y ∷ ys) h = cc
bytes_eq→eq (x ∷ xs) [] h = cc
bytes_eq→eq (x ∷ xs) (y ∷ ys) h =
    let (e, r) = &&→and (x == y) (bytes_eq xs ys) h in ap₂ ◌∷◌ (==→eq x y e) (bytes_eq→eq xs ys r)

Has-at :
    {x' y' : ℕ} (x y : ℕ) → x ≡ x' → y ≡ y' → (xs : List Range) → Has (x, y) xs → Has (x', y') xs
Has-at x y p q xs m = subst (λ (r : Range). Has r xs) (ap₂ (λ (a b : ℕ). (a, b)) p q) m

differs : (x y : ℕ) → x ≡ y → (x == y) ≡ false → ⊥
differs x y e f = ground arith

module _ (bytes weights : List ℕ) where
  -- A gram of the bytes between two pairs in range that passes the indexer's own test.
  pub record IsCovered (g : List ℕ) : Type 0 where
    pub first : ℕ
    pub last : ℕ
    pub ordered : first ≤ last
    pub in_range : last < length weights
    pub tested : is_indexed_gram weights first (last + 2) ≡ true
    pub cut : g ≡ slice first (last + 2) bytes

  push-IsCovered :
      (out : List (List ℕ)) (a last : ℕ)
      → All IsCovered out
      → a ≤ last
      → last < length weights
      → All IsCovered (push bytes weights out a (last + 2))
  unfolding push
  push-IsCovered out a last h l r = elim (Bool-cases (is_indexed_gram weights a (last + 2))) [
    | inl t ↦ rw t (
        All-append IsCovered out _ h (
          record { first = a; last = last; ordered = l; in_range = r; tested = t; cut = refl },
          tt,
        ))
    | inr f ↦ rw f h
  ]

  -- The stack, top first, falls from below `i`.
  abbrev Falls : ℕ → List ℕ → Type 0
  Falls i [] = Unit
  Falls i (top ∷ stack) = (top < i) × Falls top stack

  Falls-weaken : (i j : ℕ) (stack : List ℕ) → i ≤ j → Falls i stack → Falls j stack
  Falls-weaken i j [] h f = tt
  Falls-weaken i j (top ∷ stack) h (t, f) = (omega arith, f)

  pop_lighter-IsCovered :
      (i j : ℕ) (stack : List ℕ) (out : List (List ℕ))
      → j ≤ i
      → i < length weights
      → Falls j stack
      → All IsCovered out
      → Falls j (pop_lighter bytes weights i stack out).0
        × All IsCovered (pop_lighter bytes weights i stack out).1
  unfolding pop_lighter
  pop_lighter-IsCovered i j [] out h r f c = (tt, c)
  pop_lighter-IsCovered i j (top ∷ stack) out h r (t, f) c =
      let c' = push-IsCovered out top i c (omega arith) r in
      let (f2, c2) =
        pop_lighter-IsCovered i top stack (push bytes weights out top (i + 2)) (omega arith) r f
          c' in
      elim (Bool-cases (leb (get_or weights top 0) (get_or weights i 0))) [
        | inl light ↦ elim (Bool-cases (get_or weights top 0 == get_or weights i 0)) [
          | inl tie ↦ rw (light, tie) (Falls-weaken top j stack (omega arith) f, c')
          | inr less ↦ rw (light, less) (Falls-weaken top j _ (omega arith) f2, c2)
        ]
        | inr heavy ↦ rw heavy ((t, f), c)
      ]

  cover_loop-IsCovered :
      (n i : ℕ) (stack : List ℕ) (out : List (List ℕ))
      → i + n ≡ length weights
      → Falls i stack
      → All IsCovered out
      → Falls (length weights) (cover_loop bytes weights n i stack out).0
        × All IsCovered (cover_loop bytes weights n i stack out).1
  unfolding cover_loop
  cover_loop-IsCovered zero i stack out h f c = (Falls-weaken i _ stack (omega arith) f, c)
  cover_loop-IsCovered (suc n) i stack out h f c =
      let (f', c') = pop_lighter-IsCovered i i stack out (omega arith) (omega arith) f c in
      cover_loop-IsCovered n (i + 1) (i ∷ (pop_lighter bytes weights i stack out).0)
        (pop_lighter bytes weights i stack out).1 (omega arith) (omega arith, f') c'

  drain_stack-IsCovered :
      (stack : List ℕ) (out : List (List ℕ))
      → Falls (length weights) stack
      → All IsCovered out
      → All IsCovered (drain_stack bytes weights stack out)
  unfolding drain_stack
  drain_stack-IsCovered [] out f c = c
  drain_stack-IsCovered (pos ∷ []) out (p, f) c = push-IsCovered out pos pos c (omega arith) p
  drain_stack-IsCovered (top ∷ prev ∷ stack) out (t, (p, f)) c =
      drain_stack-IsCovered (prev ∷ stack) (push bytes weights out prev (top + 2)) (omega arith, f)
        (push-IsCovered out prev top c (omega arith) t)

module _ (rapidhash_v3 : List ℕ → ℕ) where
  -- All indices that the covering loop uses are in range, and what it emits passes the test.
  pub covering-IsCovered :
      (lit g : List ℕ)
      → Has g (sparse_grams_covering_bytes rapidhash_v3 lit)
      → IsCovered lit (pair_weights rapidhash_v3 lit) g
  unfolding sparse_grams_covering_bytes
  covering-IsCovered lit g m = elim (Bool-cases (ltb (length lit) 2)) [
    | inl short ↦ absurd (rw short at m)
    | inr long ↦
        let ws = pair_weights rapidhash_v3 lit in
        let (f, c) = cover_loop-IsCovered lit ws (length ws) 0 [] [] (omega arith) tt tt in
        All-Has (IsCovered lit ws) _ g (drain_stack-IsCovered lit ws _ _ f c)
          (Has-sort_dedup bytes_le bytes_eq g _ (rw long at m))
  ]

  module _ (pre lit post : List ℕ) where
    abbrev document : List ℕ
    document = pre ++ (lit ++ post)

    document-room :
        (last : ℕ)
        → last < length (pair_weights rapidhash_v3 lit)
        → length pre + last < length document - 1
    document-room last h = omega (
      arith,
      length-pair_weights rapidhash_v3 lit,
      length-append pre (lit ++ post),
      length-append lit post,
    )

    range-Has :
        (a last : ℕ)
        → a ≤ last
        → last < length (pair_weights rapidhash_v3 lit)
        → is_indexed_gram (pair_weights rapidhash_v3 lit) a (last + 2) ≡ true
        → Has
            (length pre + a, length pre + last + 2)
            (ranges rapidhash_v3 (λ k. get_or document k 0) (length document - 1) 0)
    unfolding is_indexed_gram
    range-Has a last h r t = elim (Bool-cases (last + 2 - 2 == a)) [
      | inl pair ↦
          let e : a ≡ last = omega (arith, ==→eq (last + 2 - 2) a pair) in
          Has-at (0 + (length pre + a)) (0 + (length pre + a) + 2) (omega arith) (omega (arith, e))
            _
            (pair-Has rapidhash_v3 _ (length document - 1) 0 (length pre + a)
              (omega (arith, document-room last r, e)))
      | inr apart ↦
          let ws = pair_weights rapidhash_v3 lit in
          let top : ℕ = max_of (slice (a + 1) (last + 2 - 2) ws) in
          let at = weight-infix rapidhash_v3 pre lit post in
          let (ta, tl) =
            &&→and (ltb top (get_or ws a 0)) (ltb top (get_or ws (last + 2 - 2) 0))
              (rw apart at t) in
          let back : last + 2 - 2 ≡ last = omega arith in
          let differ : a ≢ last = λ e. differs (last + 2 - 2) a (omega (arith, e)) apart in
          Has-at (0 + (length pre + a)) (length pre + last + 2) (omega arith) refl _ (
            long-Has rapidhash_v3 (λ k. get_or document k 0) (length document - 1) 0
              (length pre + a) top (length pre + last) (omega (arith, document-room last r))
              (omega (arith, differ)) (omega (arith, document-room last r))
              (λ j p q. omega (
                arith,
                at (j - length pre) (omega arith),
                ap (weight_at rapidhash_v3 (λ k. get_or document k 0)) (shift j p),
                le-max_of-slice ws a (last + 2 - 2) (j - length pre) (omega arith) (omega arith)
                    (omega arith),
              ))
              (omega (
                arith,
                ltb→lt top (get_or ws a 0) ta,
                at a (omega arith),
                ap (weight_at rapidhash_v3 (λ k. get_or document k 0)) (add.zero (length pre + a)),
              ))
              (omega (
                arith,
                ltb→lt top (get_or ws (last + 2 - 2) 0) tl,
                at last r,
                ap (λ (t : ℕ). get_or ws t 0) back,
              )))
    ]
      where
        shift : (j : ℕ) → 0 + (length pre + a) < j → length pre + (j - length pre) ≡ j
        shift j p = omega arith

    -- A covered gram of the literal is cut out of the document by a range of its iterator.
    document-Has :
        (g : List ℕ)
        → IsCovered lit (pair_weights rapidhash_v3 lit) g
        → Has g (iterate_sparse_grams rapidhash_v3 document)
    unfolding iterate_sparse_grams
    document-Has g c =
        let cut_there : slice (length pre + c.first) (length pre + c.last + 2) document ≡ g =
          ap (λ (t : ℕ). slice (length pre + c.first) t document) (omega arith)
          ∙ slice-infix pre lit post c.first (c.last + 2) (omega (arith, c.ordered))
              (omega (arith, c.in_range, length-pair_weights rapidhash_v3 lit))
          ∙ sym c.cut in
        let r = range-Has c.first c.last c.ordered c.in_range c.tested in
        subst (λ (x : List ℕ). Has x (iterate_sparse_grams rapidhash_v3 document)) cut_there
          (Has-map (λ (r : Range). slice r.0 r.1 document)
            (iterate_sparse_gram_ranges rapidhash_v3 (length document)
              (λ index. get_or document index 0))
            (length pre + c.first, length pre + c.last + 2)
            (subst (Has (length pre + c.first, length pre + c.last + 2))
              (sym
                (iterate_ranges rapidhash_v3 (λ index. get_or document index 0) (length document)))
              r))

-- Every gram that a query derives from a literal is among the grams indexed for any document that
-- contains the literal, whatever the hash.
pub covering-subset-all :
    (rapidhash_v3 : List ℕ → ℕ) (pre lit post : List ℕ)
    → Subset
        (sparse_grams_covering_bytes rapidhash_v3 lit)
        (sparse_grams_all_bytes rapidhash_v3 (pre ++ (lit ++ post)))
unfolding sparse_grams_all_bytes
covering-subset-all rapidhash_v3 pre lit post g m =
    sort_dedup-Has bytes_le bytes_eq bytes_eq→eq g _
      (document-Has rapidhash_v3 pre lit post g (covering-IsCovered rapidhash_v3 lit g m))
