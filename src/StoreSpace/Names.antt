-- ===== src/StoreSpace/Names.antt =====
-- Store names: internal/storespace/duplicate.go. A text is its runes; `old` is never empty where all its
-- occurrences are taken out.
pub mod Search
use erzhuang_project.Prelude.{
  ℕ, zero, suc, ◌-◌, Bool, not, ◌&&◌, ◌||◌, List, [], ◌∷◌, ◌==◌, if◌then◌else◌, length,
}
use erzhuang_project.Prelude.Text.{
  Text, text, text_eq, CaseTable, to_lower, is_space, trim_space, is_empty, has_prefix, contains,
}

-- `strings.ReplaceAll(s, old, "")`, with the number of runes still to leave out.
unfoldable pub remove_all : Text → ℕ → Text → Text
remove_all old skip [] = []
remove_all old zero (c ∷ s) =
    let skipped = remove_all old (length old - 1) s in
    let kept = c ∷ remove_all old zero s in if has_prefix (c ∷ s) old then skipped else kept
remove_all old (suc n) (c ∷ s) = remove_all old n s

-- The runes that the loop leaves out: spaces, hyphens, underscores, the two middle dots and both
-- kinds of parentheses.
abbrev is_left_out : ℕ → Bool
is_left_out r =
    is_space r
    || r == 45
    || r == 95
    || r == 183
    || r == 12539
    || r == 65288
    || r == 40
    || r == 65289
    || r == 41

unfoldable pub keep_runes : Text → Text
keep_runes [] = []
keep_runes (r ∷ s) = let rest = keep_runes s in if is_left_out r then rest else r ∷ rest

unfoldable pub remove_each : List Text → Text → Text
unfolding remove_all
remove_each [] s = s
remove_each (suffix ∷ suffixes) s = remove_each suffixes (remove_all suffix 0 s)

abbrev name_suffixes : List Text
name_suffixes = text "新氧青春" ∷ text "门店" ∷ text "店" ∷ text "分院" ∷ text "院" ∷ []

module _ (table : CaseTable) where
  unfoldable pub normalize_store_name : Text → Text
  unfolding keep_runes remove_each
  normalize_store_name name =
      remove_each name_suffixes (keep_runes (trim_space (to_lower table name)))

  unfoldable pub is_similar_store_name : Text → Text → Bool
  is_similar_store_name left right =
      let l = normalize_store_name left in
      let r = normalize_store_name right in
      if is_empty l || is_empty r || text_eq l r then text_eq l r else contains l r || contains r l

  unfoldable pub matches_store_search : Text → Text → Text → Bool
  unfolding remove_all
  matches_store_search name normalized_name query =
      let q = trim_space query in
      let raw_name = to_lower table (remove_all (text " ") 0 name) in
      let raw_query = to_lower table (remove_all (text " ") 0 q) in
      let normalized_query = normalize_store_name q in
      is_empty q
      || (not (is_empty raw_query) && contains raw_name raw_query)
      || (not (is_empty normalized_query) && contains normalized_name normalized_query)
