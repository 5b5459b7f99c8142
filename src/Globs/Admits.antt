-- ===== src/Globs/Admits.antt =====
-- The last glob that matches decides; where none does, a key is admitted unless a glob includes.
use holys.Common.{
  ℕ, Bool, true, false, not, ◌||◌, ◌≡◌, refl, sym, ap, ◌∙◌, List, [], ◌∷◌, ◌++◌, any, All, none,
  some, Option,
}
use holys.Common.{ok, >>=-eq-ok, ok-injective, subst}
use holys.Globs.{
  CompiledGlob, GlobFilter, compile_glob, compile_globs, build_glob_filter, glob_matches,
  last_match, admits,
}

module _ {Matcher : Type 0} (is_match : Matcher → List ℕ → Bool) (key : List ℕ) where
  -- No glob of the list matches.
  abbrev pub NoMatch : List (CompiledGlob Matcher) → Type 0
  NoMatch = All (λ glob. glob_matches is_match key glob ≡ false)

  last_match-NoMatch :
      (globs : List (CompiledGlob Matcher)) → NoMatch globs → last_match is_match key globs ≡ none
  unfolding last_match
  last_match-NoMatch [] h = refl
  last_match-NoMatch (glob ∷ globs) (here, later) = rw (last_match-NoMatch globs later, here) refl

  last_match-append :
      (before after : List (CompiledGlob Matcher)) (glob : CompiledGlob Matcher)
      → glob_matches is_match key glob ≡ true
      → NoMatch after
      → last_match is_match key (before ++ (glob ∷ after)) ≡ some glob
  unfolding last_match
  last_match-append [] after glob h later = rw (last_match-NoMatch after later, h) refl
  last_match-append (other ∷ before) after glob h later =
      rw (last_match-append before after glob h later) refl

  -- The last glob that matches decides, whatever the globs before it say.
  pub admits-append :
      (before after : List (CompiledGlob Matcher)) (glob : CompiledGlob Matcher)
      (has_include : Bool)
      → glob_matches is_match key glob ≡ true
      → NoMatch after
      → admits is_match (record { globs = before ++ (glob ∷ after); has_include = has_include }) key
        ≡ not glob.negated
  unfolding admits
  admits-append before after glob has_include h later =
      rw (last_match-append before after glob h later, admits) refl

or_assoc : (a b c : Bool) → ((a || b) || c) ≡ (a || (b || c))
or_assoc true b c = refl
or_assoc false b c = refl

or_false : (a : Bool) → (a || false) ≡ a
or_false true = refl
or_false false = refl

abbrev pub includes : {Matcher : Type 0} → CompiledGlob Matcher → Bool
includes glob = not glob.negated

module _ {Matcher : Type 0} (build_matcher : List ℕ → Option Matcher) where
  any-append :
      (xs ys : List (CompiledGlob Matcher))
      → any includes (xs ++ ys) ≡ (any includes xs || any includes ys)
  any-append [] ys = refl
  any-append (x ∷ xs) ys =
      ap (◌||◌ (includes x)) (any-append xs ys)
      ∙ sym (or_assoc (includes x) (any includes xs) (any includes ys))

  compile_globs_lem :
      (patterns : List (List ℕ)) (globs : List (CompiledGlob Matcher)) (filter : GlobFilter Matcher)
      → compile_globs build_matcher patterns globs (any includes globs) ≡ ok filter
      → filter.has_include ≡ any includes filter.globs
  unfolding compile_globs
  compile_globs_lem [] globs filter h =
      subst (λ (f : GlobFilter Matcher). f.has_include ≡ any includes f.globs) (ok-injective h) refl
  compile_globs_lem (raw ∷ patterns) globs filter h =
      let (glob, _, h') =
        >>=-eq-ok (compile_glob build_matcher raw)
          (λ g.
            compile_globs build_matcher patterns (globs ++ (g ∷ []))
              (any includes globs || not g.negated))
          h in
      compile_globs_lem patterns (globs ++ (glob ∷ [])) filter (
        subst
          (λ (t : Bool). compile_globs build_matcher patterns (globs ++ (glob ∷ [])) t ≡ ok filter)
          (sym (
            any-append globs (glob ∷ [])
            ∙ ap (◌||◌ (any includes globs)) (or_false (includes glob))))
          h')

  -- A key that no glob matches is admitted exactly where every glob of the patterns is negated.
  pub build-admits :
      (is_match : Matcher → List ℕ → Bool) (key raw : List ℕ) (patterns : List (List ℕ))
      (filter : GlobFilter Matcher)
      → build_glob_filter build_matcher (raw ∷ patterns) ≡ ok (some filter)
      → NoMatch is_match key filter.globs
      → admits is_match filter key ≡ not (any includes filter.globs)
  unfolding build_glob_filter admits
  build-admits is_match key raw patterns filter h n =
      let (found, hf, e) =
        >>=-eq-ok (compile_globs build_matcher (raw ∷ patterns) [] false) (λ f. ok (some f)) h in
      let included = compile_globs_lem (raw ∷ patterns) [] found hf in
      let same : found ≡ filter = value_of (ok-injective e) in
      rw (last_match-NoMatch is_match key filter.globs n, admits)
        (ap not
          (subst (λ (f : GlobFilter Matcher). f.has_include ≡ any includes f.globs) same included))
    where
      value_of :
          {f g : GlobFilter Matcher}
          → ◌≡◌ {A = Option (GlobFilter Matcher)} (some f) (some g)
          → f ≡ g
      value_of p = cc
