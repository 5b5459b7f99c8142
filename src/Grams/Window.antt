-- ===== src/Grams/Window.antt =====
-- A literal inside a document: positions, slices and pair weights shift by what stands before it.
use holys.Common.{ℕ, zero, suc, ◌+◌, ◌-◌, ◌≤◌, ◌<◌, ◌≡◌, refl, ap, ap₂, ◌∙◌, sym, arith}
use holys.Common.{List, [], ◌∷◌, ◌++◌, length, get_or, take, drop}
use Prim.Native.Nat.add
use holys.Grams.{slice, pair_weight, pair_weights, weight_at, max_of}

module _ {A : Type 0} where
  get_or-append_left :
      (xs ys : List A) (i : ℕ) (d : A) → i < length xs → get_or (xs ++ ys) i d ≡ get_or xs i d
  get_or-append_left [] ys i d h = absurd (omega arith)
  get_or-append_left (x ∷ xs) ys zero d h = refl
  get_or-append_left (x ∷ xs) ys (suc i) d h = get_or-append_left xs ys i d (omega arith)

  drop-append_left : (pre ys : List A) (a : ℕ) → drop (length pre + a) (pre ++ ys) ≡ drop a ys
  drop-append_left [] ys a = ap (λ (t : ℕ). drop t ys) (add.zero a)
  drop-append_left (x ∷ pre) ys a =
      ap (λ (t : ℕ). drop t ((x ∷ pre) ++ ys)) (add.suc (length pre) a) ∙ drop-append_left pre ys a

  get_or-append_right :
      (pre ys : List A) (i : ℕ) (d : A) → get_or (pre ++ ys) (length pre + i) d ≡ get_or ys i d
  get_or-append_right [] ys i d = ap (λ (t : ℕ). get_or ys t d) (add.zero i)
  get_or-append_right (x ∷ pre) ys i d =
      ap (λ (t : ℕ). get_or ((x ∷ pre) ++ ys) t d) (add.suc (length pre) i)
      ∙ get_or-append_right pre ys i d

  take-append_left : (n : ℕ) (xs ys : List A) → n ≤ length xs → take n (xs ++ ys) ≡ take n xs
  take-append_left zero xs ys h = refl
  take-append_left (suc n) [] ys h = absurd (omega arith)
  take-append_left (suc n) (x ∷ xs) ys h = ap (◌∷◌ x) (take-append_left n xs ys (omega arith))

  drop-append_inside :
      (a : ℕ) (xs ys : List A) → a ≤ length xs → drop a (xs ++ ys) ≡ drop a xs ++ ys
  drop-append_inside zero xs ys h = refl
  drop-append_inside (suc a) [] ys h = absurd (omega arith)
  drop-append_inside (suc a) (x ∷ xs) ys h = drop-append_inside a xs ys (omega arith)

  length-drop_inside : (a : ℕ) (xs : List A) → length (drop a xs) ≡ length xs - a
  length-drop_inside zero xs = omega arith
  length-drop_inside (suc a) [] = omega arith
  length-drop_inside (suc a) (x ∷ xs) = omega (arith, length-drop_inside a xs)

-- `data[a..end]` of the literal is a slice of the document.
pub slice-infix :
    (pre lit post : List ℕ) (a end : ℕ)
    → a ≤ end
    → end ≤ length lit
    → slice (length pre + a) (length pre + end) (pre ++ (lit ++ post)) ≡ slice a end lit
slice-infix pre lit post a end h h' =
    ap₂ take width
      (drop-append_left pre (lit ++ post) a ∙ drop-append_inside a lit post (omega arith))
    ∙ take-append_left (end - a) (drop a lit) post (omega (arith, length-drop_inside a lit))
  where
    width : length pre + end - (length pre + a) ≡ end - a
    width = omega arith

module _ (rapidhash_v3 : List ℕ → ℕ) where
  pub length-pair_weights :
      (bytes : List ℕ) → length (pair_weights rapidhash_v3 bytes) ≡ length bytes - 1
  unfolding pair_weights
  length-pair_weights [] = omega arith
  length-pair_weights (a ∷ []) = omega arith
  length-pair_weights (a ∷ b ∷ rest) = omega (arith, length-pair_weights (b ∷ rest))

  get_or-pair_weights :
      (bytes : List ℕ) (i : ℕ)
      → i < length (pair_weights rapidhash_v3 bytes)
      → get_or (pair_weights rapidhash_v3 bytes) i 0
        ≡ pair_weight rapidhash_v3 (get_or bytes i 0) (get_or bytes (suc i) 0)
  unfolding pair_weights
  get_or-pair_weights [] i h = absurd (omega arith)
  get_or-pair_weights (a ∷ []) i h = absurd (omega arith)
  get_or-pair_weights (a ∷ b ∷ rest) zero h = refl
  get_or-pair_weights (a ∷ b ∷ rest) (suc i) h = get_or-pair_weights (b ∷ rest) i (omega arith)

  -- A weight of the literal is the document's weight at the shifted pair.
  pub weight-infix :
      (pre lit post : List ℕ) (i : ℕ)
      → i < length (pair_weights rapidhash_v3 lit)
      → weight_at rapidhash_v3 (λ k. get_or (pre ++ (lit ++ post)) k 0) (length pre + i)
        ≡ get_or (pair_weights rapidhash_v3 lit) i 0
  unfolding weight_at
  weight-infix pre lit post i h =
      ap₂ (pair_weight rapidhash_v3) (at i (omega (arith, length-pair_weights lit))) (
        ap (λ (t : ℕ). get_or (pre ++ (lit ++ post)) t 0) (omega arith)
        ∙ at (suc i) (omega (arith, length-pair_weights lit)))
      ∙ sym (get_or-pair_weights lit i h)
    where
      at :
          (k : ℕ)
          → k < length lit
          → get_or (pre ++ (lit ++ post)) (length pre + k) 0 ≡ get_or lit k 0
      at k l = get_or-append_right pre (lit ++ post) k 0 ∙ get_or-append_left lit post k 0 l

-- An element of a slice is at most the slice's maximum.
max_of-drop : (ws : List ℕ) (n j : ℕ) → j < n → j < length ws → get_or ws j 0 ≤ max_of (take n ws)
unfolding max_of
max_of-drop ws zero j h l = absurd (omega arith)
max_of-drop [] (suc n) j h l = absurd (omega arith)
max_of-drop (x ∷ ws) (suc n) zero h l = omega arith
max_of-drop (x ∷ ws) (suc n) (suc j) h l =
    omega (arith, max_of-drop ws n j (omega arith) (omega arith))

get_or-drop : (ws : List ℕ) (a j : ℕ) → get_or (drop a ws) j 0 ≡ get_or ws (a + j) 0
get_or-drop ws zero j = ap (λ (t : ℕ). get_or ws t 0) (sym (add.zero j))
get_or-drop [] (suc a) j = refl
get_or-drop (x ∷ ws) (suc a) j =
    get_or-drop ws a j ∙ ap (λ (t : ℕ). get_or (x ∷ ws) t 0) (sym (add.suc a j))

pub le-max_of-slice :
    (ws : List ℕ) (a last j : ℕ)
    → a < j
    → j < last
    → last ≤ length ws
    → get_or ws j 0 ≤ max_of (slice (a + 1) last ws)
le-max_of-slice ws a last j h h' l =
    let e : a + 1 + (j - (a + 1)) ≡ j = omega arith in
    omega (
      arith,
      max_of-drop (drop (a + 1) ws) (last - (a + 1)) (j - (a + 1)) (omega arith)
          (omega (arith, length-drop_inside (a + 1) ws)),
      get_or-drop ws (a + 1) (j - (a + 1)),
      ap (λ (t : ℕ). get_or ws t 0) e,
    )
