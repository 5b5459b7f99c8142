-- ===== src/Pack/Newlines.antt =====
-- Newlines of a document and of its blocks, which the counts of a segment's tables give.
use holys.Common.{
  ℕ, zero, suc, ◌+◌, ◌*◌, ◌<◌, ◌≤◌, ◌^◌, min, ◌≡◌, ◌≢◌, refl, sym, ap, ◌∙◌, inl, inr, arith, lt→ltb,
  ◌==◌,
}
use holys.Common.{
  List, [], ◌∷◌, ◌++◌, length, length-take, length-drop, take, drop, get_elem?, Bool-cases, Option,
  Option-cases, none, some,
}
use holys.Common.{drop-drop, take_nil}
use holys.Common.{ok}
use holys.Candidate.{candidate_block_bytes}
use holys.Pack.Lines.{newline, count_newlines, last_newline, count_before}

pub count_newlines-append :
    (xs ys : List ℕ) → count_newlines (xs ++ ys) ≡ count_newlines xs + count_newlines ys
unfolding count_newlines
count_newlines-append [] ys = omega arith
count_newlines-append (x ∷ xs) ys = elim (Bool-cases (x == newline)) [
  | inl t ↦ rw t (omega (arith, count_newlines-append xs ys))
  | inr f ↦ rw f (count_newlines-append xs ys)
]

pub count_newlines-le : (xs : List ℕ) → count_newlines xs ≤ length xs
unfolding count_newlines
count_newlines-le [] = omega arith
count_newlines-le (x ∷ xs) = elim (Bool-cases (x == newline)) [
  | inl t ↦ rw t (omega (arith, count_newlines-le xs))
  | inr f ↦ rw f (omega (arith, count_newlines-le xs))
]

pub no_newline : (xs : List ℕ) → count_newlines xs ≡ 0 → last_newline xs ≡ none
unfolding count_newlines last_newline
no_newline [] h = refl
no_newline (x ∷ xs) h = elim (Bool-cases (x == newline)) [
  | inl t ↦ absurd (omega (arith, rw t at h))
  | inr f ↦ rw (no_newline xs (rw f at h), f) refl
]

pub a_newline : (xs : List ℕ) → count_newlines xs ≢ 0 → (at : ℕ) × (last_newline xs ≡ some at)
unfolding count_newlines last_newline
a_newline [] h = absurd (h refl)
a_newline (x ∷ xs) h = elim (Option-cases (last_newline xs)) [
  | inr (at, e) ↦ (suc at, rw e refl)
  | inl e ↦ elim (Bool-cases (x == newline)) [
    | inl t ↦ (0, rw (e, t) refl)
    | inr f ↦ absurd (impossible e (a_newline xs (λ z. h (rw f z))))
  ]
]
  where
    impossible : last_newline xs ≡ none → ((at : ℕ) × (last_newline xs ≡ some at)) → ⊥
    impossible e (at, p) = cc

pub last_newline-append :
    (xs ys : List ℕ) (at : ℕ)
    → last_newline ys ≡ some at
    → last_newline (xs ++ ys) ≡ some (length xs + at)
unfolding last_newline
last_newline-append [] ys at h = h ∙ ap some (omega arith)
last_newline-append (x ∷ xs) ys at h = rw (last_newline-append xs ys at h) (ap some (omega arith))

pub last_newline-append_none :
    (xs ys : List ℕ) → last_newline ys ≡ none → last_newline (xs ++ ys) ≡ last_newline xs
unfolding last_newline
last_newline-append_none [] ys h = h
last_newline-append_none (x ∷ xs) ys h = rw (last_newline-append_none xs ys h) refl

-- Where the last line of bytes starts.
abbrev pub start_of : Option ℕ → ℕ
start_of none = 0
start_of (some at) = suc at

abbrev pub line_start : List ℕ → ℕ
line_start bytes = start_of (last_newline bytes)

-- The counts are those of the newlines in each block of the content.
abbrev pub Counts : List ℕ → List ℕ → Type 0
Counts [] content = content ≡ []
Counts (count ∷ counts) content =
    (count ≡ count_newlines (take candidate_block_bytes content))
    × Counts counts (drop candidate_block_bytes content)

pub take-add : (m n : ℕ) (xs : List ℕ) → take (m + n) xs ≡ take m xs ++ take n (drop m xs)
take-add zero n xs = ap (λ (t : ℕ). take t xs) (omega arith)
take-add (suc m) n [] = take_nil (suc m + n) ∙ sym (take_nil n)
take-add (suc m) n (x ∷ xs) =
    ap (λ (t : ℕ). take t (x ∷ xs)) (one_more m n) ∙ ap (◌∷◌ x) (take-add m n xs)
  where
    one_more : (m n : ℕ) → suc m + n ≡ suc (m + n)
    one_more m n = omega arith

pub take_clamp :
    (m n : ℕ) (xs : List ℕ) → min m (length xs) ≡ min n (length xs) → take m xs ≡ take n xs
take_clamp zero zero xs h = refl
take_clamp zero (suc n) [] h = refl
take_clamp (suc m) zero [] h = refl
take_clamp (suc m) (suc n) [] h = refl
take_clamp zero (suc n) (x ∷ xs) h = absurd (omega arith)
take_clamp (suc m) zero (x ∷ xs) h = absurd (omega arith)
take_clamp (suc m) (suc n) (x ∷ xs) h = ap (◌∷◌ x) (take_clamp m n xs (omega (arith, h)))

-- `suc k` blocks are `k` blocks and one more.
pub take_blocks :
    (k : ℕ) (xs : List ℕ)
    → take (suc k * candidate_block_bytes) xs
      ≡ take (k * candidate_block_bytes) xs
        ++ take candidate_block_bytes (drop (k * candidate_block_bytes) xs)
take_blocks k xs =
    ap (λ (t : ℕ). take t xs) (omega arith)
    ∙ take-add (k * candidate_block_bytes) candidate_block_bytes xs

-- What the counts say: the length of the content, the newlines of a block, and those before it.
pub Counts-length :
    (counts content : List ℕ)
    → Counts counts content
    → length content ≤ length counts * candidate_block_bytes
Counts-length [] content h = omega (arith, ap length h)
Counts-length (c ∷ counts) content (h, hs) = omega (
  arith,
  Counts-length counts (drop candidate_block_bytes content) hs,
  length-drop candidate_block_bytes content,
)

pub Counts-block :
    (counts content : List ℕ) (i : ℕ)
    → Counts counts content
    → i < length counts
    → (c : ℕ) × (get_elem? counts i ≡ some c)
      × (c ≡ count_newlines (take candidate_block_bytes (drop (i * candidate_block_bytes) content)))
Counts-block [] content i h lt = absurd (omega arith)
Counts-block (c ∷ counts) content zero (h, hs) lt = (c, refl, h)
Counts-block (c ∷ counts) content (suc i) (h, hs) lt =
    let (d, at, e) = Counts-block counts (drop candidate_block_bytes content) i hs (omega arith) in
    (
      d,
      at,
      e
          ∙ ap (λ (t : List ℕ). count_newlines (take candidate_block_bytes t))
              (drop-drop (i * candidate_block_bytes) candidate_block_bytes content
                ∙ ap (λ (t : ℕ). drop t content) (next_block i)),
    )
  where
    next_block :
        (i : ℕ) → candidate_block_bytes + i * candidate_block_bytes ≡ suc i * candidate_block_bytes
    next_block i = omega arith

pub count_before-Counts :
    (k total : ℕ) (counts content : List ℕ)
    → Counts counts content
    → total + length content < 2 ^ 64
    → count_before total (take k counts)
      ≡ ok (total + count_newlines (take (k * candidate_block_bytes) content))
unfolding count_before
count_before-Counts zero total counts content h w = ap ok (unfold count_newlines in omega arith)
count_before-Counts (suc k) total [] content h w = ap ok (nothing (take_nothing h))
  where
    take_nothing : content ≡ [] → take (suc k * candidate_block_bytes) content ≡ []
    take_nothing e =
        ap (take (suc k * candidate_block_bytes)) e ∙ take_nil (suc k * candidate_block_bytes)

    nothing : {xs : List ℕ} → xs ≡ [] → total ≡ total + count_newlines xs
    nothing e = omega (arith, ap count_newlines e, empty)
      where
        empty : count_newlines [] ≡ 0
        empty = unfold count_newlines in refl
count_before-Counts (suc k) total (c ∷ counts) content (h, hs) w =
    let here = take candidate_block_bytes content in
    let behind = drop candidate_block_bytes content in
    rw (lt→ltb (total + c) (2 ^ 64) (fits h w)) (
      count_before-Counts k (total + c) counts behind hs (fits_behind h w)
      ∙ ap ok (
          omega (
            arith,
            h,
            count_newlines-append here (take (k * candidate_block_bytes) behind),
            ap count_newlines (whole k),
          )))
  where
    fits :
        c ≡ count_newlines (take candidate_block_bytes content)
        → total + length content < 2 ^ 64
        → total + c < 2 ^ 64
    fits h w = omega (
      arith,
      h,
      w,
      count_newlines-le (take candidate_block_bytes content),
      length-take candidate_block_bytes content,
    )

    fits_behind :
        c ≡ count_newlines (take candidate_block_bytes content)
        → total + length content < 2 ^ 64
        → total + c + length (drop candidate_block_bytes content) < 2 ^ 64
    fits_behind h w = omega (
      arith,
      h,
      w,
      count_newlines-le (take candidate_block_bytes content),
      length-take candidate_block_bytes content,
      length-drop candidate_block_bytes content,
    )

    whole :
        (k : ℕ)
        → take (suc k * candidate_block_bytes) content
          ≡ take candidate_block_bytes content
            ++ take (k * candidate_block_bytes) (drop candidate_block_bytes content)
    whole k =
        ap (λ (t : ℕ). take t content) (omega arith)
        ∙ take-add candidate_block_bytes (k * candidate_block_bytes) content
