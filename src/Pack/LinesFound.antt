-- ===== src/Pack/LinesFound.antt =====
-- The line that locate_line finds is the line of the offset.
use holys.Common.{ℕ, suc, ◌+◌, ◌<◌, ◌≤◌, ◌^◌, ◌≡◌, refl, sym, ap, ◌∙◌, arith}
use holys.Common.{List, [], ◌∷◌, length, last?, length-take, take, drop, Option, some}
use holys.Common.{ok}
use holys.Format.{PackBlock}
use holys.Pack.Types.{DocumentBlock}
use holys.Pack.Parts.{Tiled, whole, part}
use holys.Pack.Reads.{read_range}
use holys.Pack.ReadsWhole.{joined, Loaded, Tiled-long, read_range-Tiled}
use holys.Pack.Lines.{count_newlines, locate_in, size_of, locate_line}
use holys.Pack.Newlines.{line_start, Counts}
use holys.Pack.LineStarts.{nothing_left, locate_in-line_start}

-- The parts end where the document does.
Tiled-last :
    (i offset start size : ℕ) (blocks : List PackBlock) (p : DocumentBlock)
    (parts : List DocumentBlock)
    → Tiled i offset start size blocks (p ∷ parts)
    → (q : DocumentBlock) × (last? (p ∷ parts) ≡ some q) × (q.start + q.len ≡ start + size)
Tiled-last i offset start size _ p [] (part _ _ _ _ len rest b blocks _ e pos fits last more) =
    (p, refl, omega (arith, e, nothing_left (suc i) (start + len) rest blocks more))
Tiled-last i offset start size _ p (q ∷ parts)
      (part _ _ _ _ len rest b blocks _ e pos fits last more) =
    let (z, at, ends) = Tiled-last (suc i) 0 (start + len) rest blocks q parts more in
    (z, at, omega (arith, ends, e))

Tiled-size_of :
    (i offset size : ℕ) (blocks : List PackBlock) (parts : List DocumentBlock)
    → size < 2 ^ 63
    → Tiled i offset 0 size blocks parts
    → size_of parts ≡ size
unfolding size_of
Tiled-size_of i offset _ blocks [] w (whole _ _ _ _) = refl
Tiled-size_of i offset size blocks (p ∷ parts) w tiled =
    let (q, at, ends) = Tiled-last i offset 0 size blocks p parts tiled in
    rw (at, size_of) (omega (arith, ends, w))

-- The line of an offset of a document in packs, whatever blocks without newlines are skipped: its number
-- counts the newlines before the offset, and it starts behind the last of them. The document is the `size`
-- bytes from `offset` on of the joined blocks, and the counts are those of its newlines in each 128 KiB.
pub locate_line-line_start :
    (loaded : ℕ → Option (List ℕ)) (i offset size : ℕ) (blocks : List PackBlock)
    (parts : List DocumentBlock) (bodies : List (List ℕ)) (counts : List ℕ) (at : ℕ)
    → Tiled i offset 0 size blocks parts
    → Loaded loaded i blocks bodies
    → Counts counts (take size (drop offset (joined bodies)))
    → size < 2 ^ 63
    → at ≤ size
    → locate_line loaded parts counts at
      ≡ ok (
        1 + count_newlines (take at (take size (drop offset (joined bodies)))),
        line_start (take at (take size (drop offset (joined bodies)))),
      )
unfolding locate_line
locate_line-line_start loaded i offset size blocks parts bodies counts at tiled l counted w inside =
    let content = take size (drop offset (joined bodies)) in
    let full : length content ≡ size = omega (
      arith,
      length-take size (drop offset (joined bodies)),
      Tiled-long loaded i offset 0 size blocks parts bodies tiled l,
    ) in
    ap (λ (t : ℕ). locate_in (read_range loaded parts) t counts at)
      (Tiled-size_of i offset size blocks parts w tiled ∙ sym full)
    ∙ locate_in-line_start (read_range loaded parts) content counts
        (λ lo hi forward under.
          read_range-Tiled loaded i offset size lo hi blocks parts bodies tiled l forward
            (omega (arith, under, full)))
        counted (omega (arith, w, full)) at (omega (arith, inside, full))
