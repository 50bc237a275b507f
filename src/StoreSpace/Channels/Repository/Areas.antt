-- ===== src/StoreSpace/Channels/Repository/Areas.antt =====
-- The areas of all stores under ConfirmChannel of internal/storespace/store.go.
use erzhuang_project.Prelude.{ℕ, ◌≤◌, List, [], ◌∷◌, All, arith, inl, inr, Option-cases}
use erzhuang_project.Prelude.Int.{pos}
use erzhuang_project.StoreSpace.Model.{Area, Channel, ConfirmationInput}
use erzhuang_project.StoreSpace.Areas.NextId.{update_or_find_video_area-next}
use erzhuang_project.StoreSpace.Areas.Unique.{IdsBelow, AreasOk}
use erzhuang_project.StoreSpace.Channels.{
  Store, Work, confirm_in_store, confirmed_store, confirmed_number, find_in_recorders,
}
use erzhuang_project.StoreSpace.Channels.Confirm.{areas_of, confirm_in_store-AreasOk}
use erzhuang_project.StoreSpace.Channels.Repository.{Stores, confirm_stores, confirm_channel}

-- The store's areas are distinct, below the repository's next id.
abbrev pub StoreOk : ℕ → Store → Type 0
StoreOk next s = AreasOk (record { next_area_id = next; areas = s.areas })

IdsBelow-mono : (m n : ℕ) (areas : List Area) → m ≤ n → IdsBelow m areas → IdsBelow n areas
IdsBelow-mono m n [] h b = tt
IdsBelow-mono m n (a ∷ areas) h b = (b.0, omega arith, IdsBelow-mono m n areas h b.2)

StoreOk-mono : (m n : ℕ) (s : Store) → m ≤ n → StoreOk m s → StoreOk n s
StoreOk-mono m n s h v = record {
  unique = v.unique;
  below = IdsBelow-mono m n s.areas h v.below;
  positive = omega (arith, v.positive);
}

All-StoreOk : (m n : ℕ) (ss : List Store) → m ≤ n → All (StoreOk m) ss → All (StoreOk n) ss
All-StoreOk m n [] h v = tt
All-StoreOk m n (s ∷ ss) h v = (StoreOk-mono m n s h v.0, All-StoreOk m n ss h v.1)

confirm_in_store-next :
    (w : Work) (id : ℕ) (input : ConfirmationInput) (now : ℕ) (c : Channel)
    → w.next_area_id ≤ (confirm_in_store w id input now c).0.next_area_id
unfolding confirm_in_store confirmed_store
confirm_in_store-next w id input now c =
    elim (Option-cases (confirmed_number input.area_type input.area_number)) [
      | inl bad ↦ ground arith
      | inr (n, good) ↦ ground (
        arith,
        update_or_find_video_area-next (areas_of w) w.store.id c.area_id input.area_type (pos n)
            now,
      )
    ]

confirm_stores-StoreOk :
    (next id : ℕ) (input : ConfirmationInput) (now : ℕ) (ss : List Store)
    → All (StoreOk next) ss
    → let r = confirm_stores next id input now ss in (next ≤ r.0.0) × All (StoreOk r.0.0) r.0.1
unfolding confirm_stores
confirm_stores-StoreOk next id input now [] v = (omega arith, tt)
confirm_stores-StoreOk next id input now (s ∷ ss) v =
    elim (Option-cases (find_in_recorders id s.recorders)) [
      | inl missing ↦
          let later = confirm_stores-StoreOk next id input now ss v.1 in
          rw (missing, confirm_stores) (later.0, (StoreOk-mono next _ s later.0 v.0, later.1))
      | inr (c, found) ↦
          let w : Work = record { next_area_id = next; store = s } in
          let grows = confirm_in_store-next w id input now c in
          rw (found, confirm_stores)
            (
              grows,
              (confirm_in_store-AreasOk w id input now c v.0, All-StoreOk next _ ss grows v.1),
            )
    ]

-- Confirming any channel, whether it succeeds or not, keeps every store of the repository one
-- whose areas have distinct types and numbers and distinct positive ids below the repository's
-- next area id.
pub confirm_channel-StoreOk :
    (s : Stores) (id : ℕ) (input : ConfirmationInput) (now : ℕ)
    → All (StoreOk s.next_area_id) s.stores
    → let r = confirm_channel s id input now in All (StoreOk r.0.next_area_id) r.0.stores
unfolding confirm_channel
confirm_channel-StoreOk s id input now v =
    (confirm_stores-StoreOk s.next_area_id id input now s.stores v).1
