-- ===== src/Globs/Runs.antt =====
-- The glob theorems with equality of strings as the matcher.
use holys.Common.{ℕ, true, false, not, any, ◌≡◌, refl, List, [], ◌∷◌, Option, some, ok}
use holys.Grams.{bytes_eq}
use holys.Globs.{GlobFilter, admits, build_glob_filter, glob_matches}
use holys.Globs.Admits.{admits-append, build-admits, includes}

abbrev exactly : List ℕ → Option (List ℕ)
exactly body = some body

-- `a` and `!b`.
abbrev a_not_b : GlobFilter (List ℕ)
a_not_b = record {
  globs =
      record { matcher = 97 ∷ []; negated = false; basename = true }
      ∷ record { matcher = 98 ∷ []; negated = true; basename = true }
      ∷ [];
  has_include = true;
}

a_not_b_builds : build_glob_filter exactly ((97 ∷ []) ∷ (33 ∷ 98 ∷ []) ∷ []) ≡ ok (some a_not_b)
unfolding build_glob_filter
a_not_b_builds = refl

-- The key `x/b` is excluded by the second glob.
admits-append_example : admits bytes_eq a_not_b (120 ∷ 47 ∷ 98 ∷ []) ≡ false
admits-append_example =
    admits-append bytes_eq (120 ∷ 47 ∷ 98 ∷ [])
      (record { matcher = 97 ∷ []; negated = false; basename = true } ∷ []) []
      (record { matcher = 98 ∷ []; negated = true; basename = true }) true matches tt
  where
    matches :
        glob_matches bytes_eq
          (120 ∷ 47 ∷ 98 ∷ [])
          (record { matcher = 98 ∷ []; negated = true; basename = true })
        ≡ true
    matches = unfold glob_matches bytes_eq in refl

-- The key `c` matches neither, and there is an including glob.
build-admits_example : admits bytes_eq a_not_b (99 ∷ []) ≡ not (any includes a_not_b.globs)
build-admits_example =
    build-admits exactly bytes_eq (99 ∷ []) (97 ∷ []) ((33 ∷ 98 ∷ []) ∷ []) a_not_b a_not_b_builds
      (unfold glob_matches bytes_eq in (refl, (refl, tt)))
