-- ===== src/StoreSpace/Names/Search.antt =====
-- What a search for stores finds: MatchesStoreSearch of internal/storespace/duplicate.go.
use erzhuang_project.Prelude.{
  ℕ, Bool, ◌≡◌, refl, sym, ap, ◌∙◌, true, false, not, ◌&&◌, ◌||◌, [], ◌∷◌, ◌++◌, append_assoc,
  arith, ◌⊎◌, inl, inr,
}
use mathlib.Core.List.{map-append}
use erzhuang_project.Prelude.Text.{
  Text, text, CaseTable, to_lower, is_space, is_empty, trim_space, has_prefix, contains,
}
use erzhuang_project.Prelude.Trim.{contains-append, trim_space-append, trim_space-head}
use erzhuang_project.StoreSpace.Names.{remove_all, matches_store_search}

remove_spaces-append :
    (s t : Text)
    → remove_all (text " ") 0 (s ++ t) ≡ remove_all (text " ") 0 s ++ remove_all (text " ") 0 t
unfolding remove_all has_prefix
remove_spaces-append [] t = refl
remove_spaces-append (c ∷ s) t = ground (arith, remove_spaces-append s t)

remove_spaces-head :
    (s : Text) (c : ℕ)
    → is_space c ≡ false
    → remove_all (text " ") 0 (c ∷ s) ≡ c ∷ remove_all (text " ") 0 s
unfolding remove_all has_prefix is_space
remove_spaces-head s c h = ground arith

or_second : (a b c d : Bool) → b ≡ false → c ≡ true → (a || not b && c || d) ≡ true
or_second a b c d h k = ground arith

module _ (table : CaseTable) where
  abbrev raw : Text → Text
  raw s = to_lower table (remove_all (text " ") 0 s)

  raw-append : (s t : Text) → raw (s ++ t) ≡ raw s ++ raw t
  raw-append s t =
      ap (to_lower table) (remove_spaces-append s t)
      ∙ map-append _ (remove_all (text " ") 0 s) (remove_all (text " ") 0 t)

  contains-raw :
      (name query pre post : Text)
      → name ≡ pre ++ (trim_space query ++ post)
      → contains (raw name) (raw (trim_space query)) ≡ true
  contains-raw name query pre post e =
      rw (e, raw-append pre (trim_space query ++ post), raw-append (trim_space query) post)
        (contains-append (raw pre) (raw (trim_space query)) (raw post))

  raw-starts :
      (q : Text)
      → ((c : ℕ) (t : Text) → q ≡ c ∷ t → is_space c ≡ false)
      → (is_empty q ≡ true) ⊎ (is_empty (raw q) ≡ false)
  raw-starts [] h = inl refl
  raw-starts (c ∷ t) h = inr (rw (remove_spaces-head t c (h c t refl)) refl)

  within :
      (pre a q b post : Text) → pre ++ ((a ++ (q ++ b)) ++ post) ≡ (pre ++ a) ++ (q ++ (b ++ post))
  within pre a q b post =
      rw (append_assoc a (q ++ b) post, append_assoc q b post)
        (sym (append_assoc pre a (q ++ (b ++ post))))

  -- A search for any part of a store's name, spaces at its ends included, matches the store,
  -- whatever its normalized name is.
  pub matches_store_search-part :
      (pre query post normalized_name : Text)
      → matches_store_search table (pre ++ (query ++ post)) normalized_name query ≡ true
  unfolding matches_store_search
  matches_store_search-part pre query post normalized_name =
      let (a, b, e) = trim_space-append query in
      let q = trim_space query in
      let name_eq : pre ++ (query ++ post) ≡ (pre ++ a) ++ (q ++ (b ++ post)) =
        ap (λ t. pre ++ (t ++ post)) e ∙ within pre a q b post in
      let holds = contains-raw (pre ++ (query ++ post)) query (pre ++ a) (b ++ post) name_eq in
      elim (raw-starts q (λ c t h. trim_space-head query t c h)) [
        | inl blank ↦ rw (blank, matches_store_search) refl
        | inr kept ↦ or_second (is_empty q) _ _ _ kept holds
      ]
