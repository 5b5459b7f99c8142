-- ===== src/Globs.antt =====
-- crates/cli/src/globs.rs: which keys a list of globs admits. A string is the list of its bytes; globset
-- is not of this repository, so its builder and its matcher are parameters.
pub mod Admits
pub mod Runs
use holys.Common.{
  ℕ, Bool, true, false, not, ◌||◌, List, [], ◌∷◌, ◌++◌, any, Option, none, some, if◌then◌else◌,
  ◌==◌,
}
use holys.Common.{Result, ok, err, ◌>>=◌, context}

pub data Error : Type 0 where
  invalid_glob : Error

pub record CompiledGlob (Matcher : Type 0) : Type 0 where
  pub matcher : Matcher
  pub negated : Bool
  pub basename : Bool

pub record GlobFilter (Matcher : Type 0) : Type 0 where
  pub globs : List (CompiledGlob Matcher)
  pub has_include : Bool

abbrev pub bang : ℕ
bang = 33

abbrev pub slash : ℕ
slash = 47

-- `match raw.strip_prefix('!') { Some(rest) => (true, rest), None => (false, raw) }`
unfoldable pub strip_bang : List ℕ → Bool × List ℕ
strip_bang [] = (false, [])
strip_bang (b ∷ bs) = if b == bang then (true, bs) else (false, b ∷ bs)

-- `body.strip_prefix('/').unwrap_or(body)`
unfoldable pub strip_slash : List ℕ → List ℕ
strip_slash [] = []
strip_slash (b ∷ bs) = if b == slash then bs else b ∷ bs

-- `body.contains('/')`
abbrev pub has_slash : List ℕ → Bool
has_slash = any (λ b. b == slash)

-- `key.rsplit('/').next().unwrap_or(key)`: what follows the last slash.
unfoldable pub final_segment : List ℕ → List ℕ
final_segment [] = []
final_segment (b ∷ bs) =
    let rest = final_segment bs in if has_slash bs then rest else if b == slash then bs else b ∷ bs

module _ {Matcher : Type 0} (build_matcher : List ℕ → Option Matcher) where
  -- One round of the loop of `build_glob_filter`.
  unfoldable pub compile_glob : List ℕ → Result Error (CompiledGlob Matcher)
  unfolding strip_bang strip_slash
  compile_glob raw = do
    let (negated, stripped) = strip_bang raw
    let body = strip_slash stripped
    matcher ← context (build_matcher body) invalid_glob
    ok (record { matcher = matcher; negated = negated; basename = not (has_slash body) })

  unfoldable pub compile_globs :
      List (List ℕ) → List (CompiledGlob Matcher) → Bool → Result Error (GlobFilter Matcher)
  unfolding compile_glob
  compile_globs [] globs has_include = ok (record { globs = globs; has_include = has_include })
  compile_globs (raw ∷ patterns) globs has_include = do
    glob ← compile_glob raw
    compile_globs patterns (globs ++ (glob ∷ [])) (has_include || not glob.negated)

  unfoldable pub build_glob_filter : List (List ℕ) → Result Error (Option (GlobFilter Matcher))
  unfolding compile_globs
  build_glob_filter [] = ok none
  build_glob_filter (raw ∷ patterns) = do
    filter ← compile_globs (raw ∷ patterns) [] false
    ok (some filter)

module _ {Matcher : Type 0} (is_match : Matcher → List ℕ → Bool) where
  -- `g.matcher.is_match(if g.basename { basename } else { key })`
  unfoldable pub glob_matches : List ℕ → CompiledGlob Matcher → Bool
  unfolding final_segment
  glob_matches key glob = is_match glob.matcher (if glob.basename then final_segment key else key)

  -- `self.globs.iter().rev().find(..)`
  unfoldable pub last_match : List ℕ → List (CompiledGlob Matcher) → Option (CompiledGlob Matcher)
  unfolding glob_matches
  last_match key [] = none
  last_match key (glob ∷ globs) = elim (last_match key globs) [
    | some later ↦ some later
    | none ↦ if glob_matches key glob then some glob else none
  ]

  unfoldable pub admits : GlobFilter Matcher → List ℕ → Bool
  unfolding last_match
  admits filter key = elim (last_match key filter.globs) [
    | some glob ↦ not glob.negated
    | none ↦ not filter.has_include
  ]
