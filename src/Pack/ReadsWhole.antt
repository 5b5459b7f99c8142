-- ===== src/Pack/ReadsWhole.antt =====
-- A range of a document is read as it is in the document, whatever blocks it crosses.
use holys.Common.{
  ℕ, suc, ◌+◌, ◌-◌, ◌<◌, ◌≤◌, ◌^◌, min, max, ◌≡◌, refl, sym, ap, ap₂, ◌∙◌, ◌⊎◌, inl, inr, arith,
  ltb, lt→ltb, le→leb, ltb→lt, ltb→ge, ge→ltb, ==→eq, ==_refl, ◌==◌, &&→and, ◌&&◌,
}
use holys.Common.{
  List, [], ◌∷◌, ◌++◌, append-nil, length-append, length, take, drop, keep, Bool, true, false,
  Bool-cases, Option, some, length-take, length-drop, take_all, drop_all,
}
use holys.Common.{take_append, drop_append, drop-drop, take-min, drop-take, take_nil, drop_nil}
use holys.Common.{ok, >>=-eq-ok}
use holys.Format.{PackBlock}
use holys.Pack.Types.{DocumentBlock}
use holys.Pack.Parts.{Tiled, whole, part}
use holys.Pack.Reads.{read, part_meets, read_part, read_parts, read_matching, read_range}

abbrev pub joined : List (List ℕ) → List ℕ
joined [] = []
joined (body ∷ bodies) = body ++ joined bodies

-- From the block `i` on, the blocks are loaded as the bodies, each of its decoded length, a u32.
abbrev pub Loaded : (ℕ → Option (List ℕ)) → ℕ → List PackBlock → List (List ℕ) → Type 0
Loaded loaded i [] [] = Unit
Loaded loaded i [] (body ∷ bodies) = ⊥
Loaded loaded i (b ∷ blocks) [] = ⊥
Loaded loaded i (b ∷ blocks) (body ∷ bodies) =
    (loaded i ≡ some body)
    × (length body ≡ b.decoded_len)
    × (b.decoded_len < 2 ^ 32)
    × Loaded loaded (suc i) blocks bodies

-- The bytes of `lo..hi` that content from `start` on has.
abbrev window : ℕ → ℕ → ℕ → List ℕ → List ℕ
window lo hi start content = take (hi - start - (lo - start)) (drop (lo - start) content)

window-append :
    (lo hi start len : ℕ) (here there : List ℕ)
    → lo ≤ hi
    → length here ≡ len
    → window lo hi start (here ++ there)
      ≡ window lo hi start here ++ window lo hi (start + len) there
window-append lo hi start len here there h e =
    ap (take (hi - start - (lo - start))) (drop_append (lo - start) here there)
    ∙ take_append (hi - start - (lo - start)) (drop (lo - start) here)
        (drop (lo - start - length here) there)
    ∙ ap₂ (λ (m n : ℕ). window lo hi start here ++ take m (drop n there)) left_over dropped
  where
    dropped : lo - start - length here ≡ lo - (start + len)
    dropped = omega (arith, e)

    left_over :
        hi - start - (lo - start) - length (drop (lo - start) here)
        ≡ hi - (start + len) - (lo - (start + len))
    left_over = omega (arith, e, h, length-drop (lo - start) here)

-- A document from `offset` on in its first block.
first_part :
    (offset len rest : ℕ) (body : List ℕ) (bodies : List (List ℕ))
    → offset + len ≤ length body
    → (rest ≡ 0) ⊎ (offset + len ≡ length body)
    → take (len + rest) (drop offset (body ++ joined bodies))
      ≡ take len (drop offset body) ++ take rest (drop 0 (joined bodies))
first_part offset len rest body bodies fits last =
    ap (take (len + rest)) (drop_append offset body (joined bodies))
    ∙ ap (λ (t : ℕ). take (len + rest) (drop offset body ++ drop t (joined bodies))) inside
    ∙ take_append (len + rest) (drop offset body) (joined bodies)
    ∙ elim last [
      | inl r ↦
          ap₂ (λ (m n : ℕ). take m (drop offset body) ++ take n (joined bodies)) (omega (arith, r))
            (none_behind r)
      | inr f ↦
          ap₂ (λ (x : List ℕ) (n : ℕ). x ++ take n (joined bodies))
            (take_all (len + rest) (drop offset body) (omega (arith, size, f))
              ∙ sym (take_all len (drop offset body) (omega (arith, size, f))))
            (rest_behind f)
    ]
  where
    size : length (drop offset body) ≡ length body - offset
    size = length-drop offset body

    inside : offset - length body ≡ 0
    inside = omega (arith, fits)

    none_behind : rest ≡ 0 → len + rest - length (drop offset body) ≡ rest
    none_behind r = omega (arith, r, size, fits)

    rest_behind : offset + len ≡ length body → len + rest - length (drop offset body) ≡ rest
    rest_behind f = omega (arith, f, size)

module _ (loaded : ℕ → Option (List ℕ)) (lo hi : ℕ) (forward : lo ≤ hi) where
  -- The part's own bytes, where the range meets it.
  read_part-window :
      (i offset start len decoded_len : ℕ) (body : List ℕ)
      → loaded i ≡ some body
      → length body ≡ decoded_len
      → decoded_len < 2 ^ 32
      → offset + len ≤ decoded_len
      → lo < start + len
      → start < hi
      → read_part loaded lo hi (record { block_id = i; start = start; offset = offset; len = len })
        ≡ ok (window lo hi start (take len (drop offset body)))
  unfolding read_part read
  read_part-window i offset start len decoded_len body l e w fits above below =
      let from = max lo start - start in
      let to = min hi (start + len) - start in
      rw
        (
          l,
          lt→ltb (offset + from) (2 ^ 64) (omega (arith, above, fits, w)),
          lt→ltb (offset + to) (2 ^ 64) (omega (arith, fits, w)),
          le→leb (offset + from) (offset + to) (omega (arith, forward, above, below)),
          le→leb (offset + to) (length body) (omega (arith, fits, e)),
        )
        (ap ok same)
    where
      same :
          take
            (offset + (min hi (start + len) - start) - (offset + (max lo start - start)))
            (drop (offset + (max lo start - start)) body)
          ≡ window lo hi start (take len (drop offset body))
      same =
          ap₂ (λ (m n : ℕ). take m (drop n body)) (omega (arith, forward, above, below))
            (omega arith)
          ∙ sym (
              take-min (hi - start - (lo - start)) (len - (lo - start))
                (drop (offset + (lo - start)) body))
          ∙ ap (λ (t : List ℕ). take (hi - start - (lo - start)) (take (len - (lo - start)) t))
              (sym (drop-drop (lo - start) offset body))
          ∙ ap (take (hi - start - (lo - start)))
              (sym (drop-take (lo - start) len (drop offset body)))

  no_window :
      (start len : ℕ) (here : List ℕ)
      → length here ≡ len
      → (ltb lo (start + len) && ltb start hi) ≡ false
      → window lo hi start here ≡ []
  no_window start len here e f = elim (Bool-cases (ltb lo (start + len))) [
    | inl t ↦
        ap (λ (t : ℕ). take t (drop (lo - start) here)) (none_taken (ltb→ge start hi (rw t at f)))
    | inr g ↦
        ap (take (hi - start - (lo - start)))
          (drop_all (lo - start) here (omega (arith, e, ltb→ge lo (start + len) g)))
        ∙ take_nil (hi - start - (lo - start))
  ]
    where
      none_taken : hi ≤ start → hi - start - (lo - start) ≡ 0
      none_taken h = omega (arith, h)

  read_parts-window :
      (i offset start size : ℕ) (blocks : List PackBlock) (parts : List DocumentBlock)
      (bodies : List (List ℕ))
      → Tiled i offset start size blocks parts
      → Loaded loaded i blocks bodies
      → read_parts loaded lo hi (keep (part_meets lo hi) parts)
        ≡ ok (window lo hi start (take size (drop offset (joined bodies))))
  unfolding read_parts part_meets
  read_parts-window i offset start _ blocks _ bodies (whole _ _ _ _) l = ap ok (
      sym (
        ap (take (hi - start - (lo - start))) (drop_nil (lo - start))
        ∙ take_nil (hi - start - (lo - start))))
  read_parts-window i offset start size _ _ []
        (part _ _ _ _ len rest b blocks parts e pos fits last more) l =
      absurd l
  read_parts-window i offset start size _ _ (body ∷ bodies)
        (part _ _ _ _ len rest b blocks parts e pos fits last more) (at, dl, w, l) =
      let p : DocumentBlock = record { block_id = i; start = start; offset = offset; len = len } in
      let others = keep (part_meets lo hi) parts in
      let here = take len (drop offset body) in
      let there = take rest (drop 0 (joined bodies)) in
      let held : length here ≡ len =
        omega (arith, length-take len (drop offset body), length-drop offset body, fits, dl) in
      let ih = read_parts-window (suc i) 0 (start + len) rest blocks parts bodies more l in
      let split : take size (drop offset (body ++ joined bodies)) ≡ here ++ there =
        ap (λ (t : ℕ). take t (drop offset (body ++ joined bodies))) e
        ∙ first_part offset len rest body bodies (omega (arith, fits, dl)) (full last dl) in
      let whole_window =
        ap (window lo hi start) split ∙ window-append lo hi start len here there forward held in
      elim (Bool-cases (ltb lo (start + len) && ltb start hi)) [
        | inl t ↦
            ap
              (λ (b : Bool).
                read_parts loaded lo hi (elim b [ true ↦ p ∷ others | false ↦ others ]))
              t
            ∙ (let (above, below) = &&→and (ltb lo (start + len)) (ltb start hi) t in
                rw
                  (
                    read_part-window i offset start len b.decoded_len body at dl w fits
                        (ltb→lt lo (start + len) above) (ltb→lt start hi below),
                    ih,
                  )
                  (ap ok (sym whole_window)))
        | inr f ↦
            ap
              (λ (b : Bool).
                read_parts loaded lo hi (elim b [ true ↦ p ∷ others | false ↦ others ]))
              f
            ∙ ih
            ∙ ap ok (
                sym (
                  whole_window
                  ∙ ap (λ (x : List ℕ). x ++ window lo hi (start + len) there)
                      (no_window start len here held f)))
      ]
    where
      full :
          {d : ℕ}
          → (rest ≡ 0) ⊎ (offset + len ≡ d)
          → length body ≡ d
          → (rest ≡ 0) ⊎ (offset + len ≡ length body)
      full (inl r) e = inl r
      full (inr f) e = inr (omega (arith, f, e))

  read_matching-read_parts :
      (parts : List DocumentBlock) (output : List ℕ)
      → read_parts loaded lo hi parts ≡ ok output
      → read_matching loaded lo hi parts ≡ ok output
  unfolding read_matching read_parts
  read_matching-read_parts [] output h = h
  read_matching-read_parts (p ∷ []) output h =
      let (bytes, one, e) = >>=-eq-ok (read_part loaded lo hi p) _ h in
      one ∙ ap ok (sym (append-nil bytes)) ∙ e
  read_matching-read_parts (p ∷ q ∷ parts) output h = h

-- The blocks of a document have its bytes.
pub Tiled-long :
    (loaded : ℕ → Option (List ℕ)) (i offset start size : ℕ) (blocks : List PackBlock)
    (parts : List DocumentBlock) (bodies : List (List ℕ))
    → Tiled i offset start size blocks parts
    → Loaded loaded i blocks bodies
    → size ≤ length (drop offset (joined bodies))
Tiled-long loaded i offset start _ blocks _ bodies (whole _ _ _ _) l = omega arith
Tiled-long loaded i offset start size _ _ []
      (part _ _ _ _ len rest b blocks parts e pos fits last more) l =
    absurd l
Tiled-long loaded i offset start size _ _ (body ∷ bodies)
      (part _ _ _ _ len rest b blocks parts e pos fits last more) (at, dl, w, l) =
    elim last [
      | inl r ↦ omega (
        arith,
        length-drop offset (body ++ joined bodies),
        length-append body (joined bodies),
        e,
        r,
        fits,
        dl,
      )
      | inr f ↦ omega (
        arith,
        length-drop offset (body ++ joined bodies),
        length-append body (joined bodies),
        e,
        f,
        dl,
        length-drop 0 (joined bodies),
        Tiled-long loaded (suc i) 0 (start + len) rest blocks parts bodies more l,
      )
    ]

-- A range of a document, read through its parts from loaded blocks, is that range of the document: the
-- `size` bytes from `offset` on of the joined blocks.
pub read_range-Tiled :
    (loaded : ℕ → Option (List ℕ)) (i offset size lo hi : ℕ) (blocks : List PackBlock)
    (parts : List DocumentBlock) (bodies : List (List ℕ))
    → Tiled i offset 0 size blocks parts
    → Loaded loaded i blocks bodies
    → lo ≤ hi
    → hi ≤ size
    → read_range loaded parts lo hi
      ≡ ok (take (hi - lo) (drop lo (take size (drop offset (joined bodies)))))
unfolding read_range
read_range-Tiled loaded i offset size lo hi blocks parts bodies tiled l forward inside =
    let enough = Tiled-long loaded i offset 0 size blocks parts bodies tiled l in
    let content = take size (drop offset (joined bodies)) in
    let matched =
      read_matching-read_parts loaded lo hi forward (keep (part_meets lo hi) parts) _
        (read_parts-window loaded lo hi forward i offset 0 size blocks parts bodies tiled l) in
    let range : window lo hi 0 content ≡ take (hi - lo) (drop lo content) =
      ap₂ (λ (m n : ℕ). take m (drop n content)) (omega arith) (omega arith) in
    elim (Bool-cases (hi - lo == 0)) [
      | inl z ↦
          rw (ge→ltb hi lo forward, z)
            (ap (λ (t : ℕ). ok (take t (drop lo content))) (sym (==→eq (hi - lo) 0 z)))
      | inr n ↦
          rw (ge→ltb hi lo forward, n, matched ∙ ap ok range)
            (rw (taken enough, ==_refl (hi - lo)) refl)
    ]
  where
    taken :
        size ≤ length (drop offset (joined bodies))
        → length (take (hi - lo) (drop lo (take size (drop offset (joined bodies))))) ≡ hi - lo
    taken enough = omega (
      arith,
      length-take (hi - lo) (drop lo (take size (drop offset (joined bodies)))),
      length-drop lo (take size (drop offset (joined bodies))),
      length-take size (drop offset (joined bodies)),
      enough,
      inside,
    )
