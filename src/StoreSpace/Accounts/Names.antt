-- ===== src/StoreSpace/Accounts/Names.antt =====
-- The names of the accounts under UpsertEzvizAccountName of internal/storespace/store.go.
use erzhuang_project.Prelude.{
  ℕ, ◌+◌, ◌<◌, ◌≡◌, refl, ◌∙◌, false, ◌&&◌, List, [], ◌∷◌, ◌++◌, ◌==◌, if◌then◌else◌, none, some,
  arith, inl, inr, Bool-cases, Option-cases,
}
use erzhuang_project.Prelude.Text.{Text, text_eq, text_eq_iff, trim_space, is_empty}
use erzhuang_project.StoreSpace.Accounts.{
  EzvizAccount, Accounts, made_account, mark_available, upsert_ezviz_account_name,
}

-- How many accounts have the name.
unfoldable pub count_name : Text → List EzvizAccount → ℕ
count_name name [] = 0
count_name name (a ∷ accounts) =
    let rest = count_name name accounts in if text_eq a.account_name name then rest + 1 else rest

count_name-append :
    (name : Text) (accounts : List EzvizAccount) (a : EzvizAccount)
    → count_name name (accounts ++ a ∷ []) ≡ count_name name (a ∷ accounts)
unfolding count_name
count_name-append name [] a = refl
count_name-append name (x ∷ accounts) a = ground (arith, count_name-append name accounts a)

mark_available-none :
    (name : Text) (now : ℕ) (accounts : List EzvizAccount)
    → mark_available name now accounts ≡ none
    → count_name name accounts ≡ 0
unfolding mark_available count_name
mark_available-none name now [] e = refl
mark_available-none name now (a ∷ accounts) e =
    ground (arith, mark_available-none name now accounts)

mark_available-some :
    (name other : Text) (now : ℕ) (accounts marked : List EzvizAccount)
    → mark_available name now accounts ≡ some marked
    → (count_name other marked ≡ count_name other accounts) × (0 < count_name name accounts)
unfolding mark_available count_name
mark_available-some name other now [] marked e = absurd (cc e)
mark_available-some name other now (a ∷ accounts) marked e =
    elim (Bool-cases (text_eq a.account_name name)) [
      | inl hit ↦ ground arith
      | inr miss ↦ elim (Option-cases (mark_available name now accounts)) [
        | inl missing ↦ absurd (ground arith)
        | inr (rest, found) ↦ ground (arith, mark_available-some name other now accounts rest found)
      ]
    ]

one_more :
    (name other : Text) (id now : ℕ) (status : Text) (accounts : List EzvizAccount)
    → count_name name accounts ≡ 0
    → count_name other (made_account id name status now ∷ accounts) ≡ (
        if text_eq other name && count_name other accounts == 0
        then 1
        else count_name other accounts)
unfolding count_name
one_more name other id now status accounts e = elim (Bool-cases (text_eq other name)) [
  | inl same ↦
      let names : other ≡ name = (text_eq_iff other name).0 same in
      let zero_count : count_name other accounts ≡ 0 = rw names e in
      ground (arith, text_eq_iff name other)
  | inr differs ↦ ground (arith, text_eq_iff name other, text_eq_iff other name)
]

same_count :
    (name other : Text) (accounts : List EzvizAccount)
    → 0 < count_name name accounts
    → count_name other accounts ≡ (
        if text_eq other name && count_name other accounts == 0
        then 1
        else count_name other accounts)
same_count name other accounts h = elim (Bool-cases (text_eq other name)) [
  | inl same ↦
      let some_count : 0 < count_name other accounts = rw ((text_eq_iff other name).0 same) h in
      ground arith
  | inr differs ↦ ground arith
]

-- After a name that is not blank is upserted, each account name occurs as often as before, only
-- the trimmed name itself now occurs once if it did not before.
pub upsert_ezviz_account_name-count :
    (s : Accounts) (name other : Text) (now : ℕ)
    → is_empty (trim_space name) ≡ false
    → count_name other (upsert_ezviz_account_name s name now).accounts ≡ (
        if text_eq other (trim_space name) && count_name other s.accounts == 0
        then 1
        else count_name other s.accounts)
unfolding upsert_ezviz_account_name
upsert_ezviz_account_name-count s name other now kept =
    elim (Option-cases (mark_available (trim_space name) now s.accounts)) [
      | inl missing ↦
          rw (kept, missing, upsert_ezviz_account_name)
            (count_name-append other s.accounts _
              ∙ one_more (trim_space name) other _ now _ s.accounts
                  (mark_available-none (trim_space name) now s.accounts missing))
      | inr (marked, found) ↦
          let facts = mark_available-some (trim_space name) other now s.accounts marked found in
          rw (kept, found, upsert_ezviz_account_name)
            (facts.0 ∙ same_count (trim_space name) other s.accounts facts.1)
    ]
