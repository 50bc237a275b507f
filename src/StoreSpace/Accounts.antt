-- ===== src/StoreSpace/Accounts.antt =====
-- The Ezviz accounts of the in-memory repository, internal/storespace/store.go. The accounts are in
-- the order in which a loop over `s.accounts` meets them; a new one comes last. `now` is the clock.
pub mod Names
use erzhuang_project.Prelude.{
  ℕ, ◌+◌, Bool, true, false, ◌||◌, List, [], ◌∷◌, ◌++◌, if◌then◌else◌, Option, none, some,
}
use erzhuang_project.Prelude.Text.{Text, text, text_eq, trim_space, is_empty}

pub record EzvizAccount : Type 0 where
  pub id : ℕ
  pub account_name : Text
  pub status : Text
  pub created_at : ℕ
  pub updated_at : ℕ

-- `s.nextAccountID` and `s.accounts` of `MemoryStore`.
pub record Accounts : Type 0 where
  pub next_account_id : ℕ
  pub accounts : List EzvizAccount

abbrev pub made_account : ℕ → Text → Text → ℕ → EzvizAccount
made_account id name status now = record {
  id = id;
  account_name = name;
  status = status;
  created_at = now;
  updated_at = now;
}

-- `s.accounts[account.ID] = account` and `s.nextAccountID++`: every id is given once, so no account
-- has it.
abbrev pub add_account : Accounts → EzvizAccount → Accounts
add_account s account = record {
  next_account_id = s.next_account_id + 1;
  accounts = s.accounts ++ account ∷ [];
}

unfoldable pub create_ezviz_account : Accounts → Text → ℕ → Accounts × EzvizAccount
create_ezviz_account s name now =
    let account = made_account s.next_account_id (trim_space name) (text "unverified") now in
    (add_account s account, account)

unfoldable pub has_account_name : Text → List EzvizAccount → Bool
has_account_name name [] = false
has_account_name name (a ∷ accounts) = text_eq a.account_name name || has_account_name name accounts

unfoldable pub ezviz_account_name_exists : Accounts → Text → Bool
unfolding has_account_name
ezviz_account_name_exists s name = has_account_name (trim_space name) s.accounts

-- The first account with the name becomes available; `none` where there is none.
unfoldable pub mark_available : Text → ℕ → List EzvizAccount → Option (List EzvizAccount)
mark_available name now [] = none
mark_available name now (a ∷ accounts) =
    let later = mark_available name now accounts in
    if text_eq a.account_name name
    then some (record a { status = text "available"; updated_at = now } ∷ accounts)
    else elim later [ none ↦ none | some rest ↦ some (a ∷ rest) ]

unfoldable pub upsert_ezviz_account_name : Accounts → Text → ℕ → Accounts
unfolding mark_available
upsert_ezviz_account_name s name now =
    let clean_name = trim_space name in
    let made = made_account s.next_account_id clean_name (text "available") now in
    if is_empty clean_name then s else elim (mark_available clean_name now s.accounts) [
      | some accounts ↦ record s { accounts = accounts }
      | none ↦ add_account s made
    ]
