-- ===== src/Eval/Resolve.antt =====
-- The first half of crates/index/src/eval.rs: packed term values, and a query with every gram
-- resolved against the term dictionary and simplified.
use holys.Common.{ℕ, ◌-◌, ◌*◌, ◌/◌, ◌%◌, ◌^◌, bit_and, bit_or, Bool, true, false, not, ◌&&◌}
use holys.Common.{
  List, [], ◌∷◌, ◌++◌, length, take, keep, any, Option, none, some, if◌then◌else◌, ltb, leb,
}
use holys.Common.{◌==◌, Result, ok, ◌>>=◌, ◌>>◌, ensure}
use holys.Common.Bits.{mask}
use holys.Common.Sorting.{sort_by}
use holys.Grams.{Strategy, trigram, sparse}
use holys.Posting.{posting_block_len}
use holys.Query.{Query, Queries}

pub data Error : Type 0 where
  offset_too_large count_too_large singleton_outside block_not_fetched lookup_failed : Error

abbrev pub sparse_max_grams_per_and : ℕ
sparse_max_grams_per_and = 8

abbrev pub block_max_grams_per_and : ℕ
block_max_grams_per_and = 64

abbrev pub offset_bits : ℕ
offset_bits = 40

abbrev pub count_bits : ℕ
count_bits = 24

-- `offset | (count << OFFSET_BITS)` behind its two checks.
unfoldable pub pack_posting : ℕ → ℕ → Result Error ℕ
pack_posting offset count = do
  ensure (ltb offset (2 ^ offset_bits)) offset_too_large
  ensure (ltb count (2 ^ count_bits)) count_too_large
  ok (bit_or offset (count * 2 ^ offset_bits % 2 ^ 64))

-- `(value & ((1 << 40) - 1), (value >> 40) as u32)`
unfoldable pub unpack_posting : ℕ → ℕ × ℕ
unpack_posting value = (bit_and value (mask offset_bits), value / 2 ^ offset_bits % 2 ^ 32)

pub record TermValue : Type 0 where
  pub packed : ℕ
  pub len : Option ℕ

mutual
  pub data Resolved : Type 0 where
    all : Resolved
    none_at_all : Resolved
    doc : ℕ → Resolved
    gram : ℕ → ℕ → ℕ → Resolved
    conj : Resolveds → Resolved
    disj : Resolveds → Resolved

  pub data Resolveds : Type 0 where
    nil : Resolveds
    cons : Resolved → Resolveds → Resolveds

abbrev pub children : List Resolved → Resolveds
children [] = Resolveds.nil
children (r ∷ rs) = Resolveds.cons r (children rs)

unfoldable pub is_doc : Resolved → Bool
is_doc (Resolved.doc id) = true
is_doc r = false

unfoldable pub is_gram : Resolved → Bool
is_gram (Resolved.gram offset count len) = true
is_gram r = false

-- `match child { Resolved::Gram { count, .. } => *count, _ => u32::MAX }`
unfoldable pub count_key : Resolved → ℕ
count_key (Resolved.gram offset count len) = count
count_key r = 2 ^ 32 - 1

unfoldable pub and_limit : Strategy → ℕ
and_limit trigram = block_max_grams_per_and
and_limit sparse = sparse_max_grams_per_and

-- A list of one child is the child: `swap_remove(0)`.
unfoldable pub only_child : List Resolved → Resolved → Resolved
only_child (r ∷ []) otherwise = r
only_child rs otherwise = otherwise

-- The rarest grams, where there are more than the limit.
unfoldable pub rarest : ℕ → List Resolved → List Resolved
unfolding count_key
rarest limit grams =
    if ltb limit (length grams)
    then take limit (sort_by (λ a b. leb (count_key a) (count_key b)) grams)
    else grams

unfoldable pub conj_or_all : List Resolved → Resolved
conj_or_all [] = Resolved.all
conj_or_all (r ∷ rs) = only_child (r ∷ rs) (Resolved.conj (children (r ∷ rs)))

unfoldable pub prune_and : List Resolved → Strategy → Resolved
unfolding is_doc is_gram and_limit only_child conj_or_all
prune_and rs strategy =
    let docs = keep (λ r. not (is_gram r)) rs in
    if any is_doc rs
    then only_child docs (Resolved.conj (children docs))
    else conj_or_all (rarest (and_limit strategy) (keep is_gram rs) ++ docs)

-- The `Gram` arm for a term that is in the dictionary.
unfoldable pub resolve_value : ℕ → TermValue → Result Error Resolved
unfolding unpack_posting
resolve_value id_space value =
    let (offset, count) = unpack_posting value.packed in
    let len : ℕ = elim (value.len) [ none ↦ posting_block_len count id_space | some n ↦ n ] in
    if count == 1
    then (do
      ensure (ltb offset (2 ^ 32) && ltb offset id_space) singleton_outside
      ok (Resolved.doc offset))
    else if leb id_space count
    then ok Resolved.all
    else ok (Resolved.gram offset count len)

-- `children.push(resolved)`, unless the loop returned early.
unfoldable pub push_child : Resolved → Option (List Resolved) → Option (List Resolved)
push_child r none = none
push_child r (some rs) = some (r ∷ rs)

-- A child of an AND: `None` returns early, `All` is dropped. The early return is `none`.
unfoldable pub and_child :
    Resolved → Result Error (Option (List Resolved)) → Result Error (Option (List Resolved))
and_child Resolved.none_at_all rest = ok none
and_child Resolved.all rest = rest
and_child r rest = do found ← rest; ok (push_child r found)

unfoldable pub or_child :
    Resolved → Result Error (Option (List Resolved)) → Result Error (Option (List Resolved))
or_child Resolved.all rest = ok none
or_child Resolved.none_at_all rest = rest
or_child r rest = do found ← rest; ok (push_child r found)

unfoldable pub close_and : Strategy → Option (List Resolved) → Resolved
close_and strategy none = Resolved.none_at_all
close_and strategy (some rs) = prune_and rs strategy

unfoldable pub disj_or_none : List Resolved → Resolved
disj_or_none [] = Resolved.none_at_all
disj_or_none (r ∷ rs) = only_child (r ∷ rs) (Resolved.disj (children (r ∷ rs)))

unfoldable pub close_or : Option (List Resolved) → Resolved
close_or none = Resolved.all
close_or (some rs) = disj_or_none rs

unfoldable pub resolve_gram : ℕ → Option TermValue → Result Error Resolved
resolve_gram id_space none = ok Resolved.none_at_all
resolve_gram id_space (some value) = resolve_value id_space value

module _ (id_space : ℕ) (strategy : Strategy)
    (lookup : List ℕ → Result Error (Option TermValue)) where
  unfoldable mutual
    unfolding and_child or_child close_and close_or

    pub resolve : Query → Result Error Resolved
    resolve Query.all = ok Resolved.all
    resolve (Query.gram g) = lookup g >>= λ found. resolve_gram id_space found
    resolve (Query.conj qs) = resolve_and qs >>= λ found. ok (close_and strategy found)
    resolve (Query.disj qs) = resolve_or qs >>= λ found. ok (close_or found)

    pub resolve_and : Queries → Result Error (Option (List Resolved))
    resolve_and Queries.nil = ok (some [])
    resolve_and (Queries.cons q qs) = resolve q >>= λ r. and_child r (resolve_and qs)

    pub resolve_or : Queries → Result Error (Option (List Resolved))
    resolve_or Queries.nil = ok (some [])
    resolve_or (Queries.cons q qs) = resolve q >>= λ r. or_child r (resolve_or qs)
