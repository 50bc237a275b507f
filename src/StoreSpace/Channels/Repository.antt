-- ===== src/StoreSpace/Channels/Repository.antt =====
-- The channel operations over all stores: DeleteChannel, ConfirmChannel, SaveChannelSnapshot and
-- UnlockChannelForEdit of internal/storespace/store.go.
pub mod Areas
use erzhuang_project.Prelude.{ℕ, List, [], ◌∷◌, ◌==◌, if◌then◌else◌, none, some}
use erzhuang_project.StoreSpace.Model.{offline, Channel, Recorder, SnapshotInput, ConfirmationInput}
use erzhuang_project.StoreSpace.Areas.{delete_unused_video_areas}
use erzhuang_project.StoreSpace.Channels.{
  Store, not_found, Result, ok, failed, save_snapshot, unlock_for_edit, find_channel,
  find_in_recorders, set_in_recorders, confirm_in_store, active_channel_count,
}

-- The body of `DeleteChannel` on the recorder's channels: the first with the id goes.
unfoldable pub remove_channel : ℕ → List Channel → List Channel
remove_channel id [] = []
remove_channel id (c ∷ cs) = if c.id == id then cs else c ∷ remove_channel id cs

unfoldable pub recount : Recorder → List Channel → ℕ → Recorder
unfolding active_channel_count
recount r channels now =
    let count = active_channel_count channels in
    record r {
      channels = channels;
      effective_channel_count = count;
      status = if count == 0 then offline else r.status;
      updated_at = now;
    }

unfoldable pub remove_in_recorders : ℕ → ℕ → List Recorder → List Recorder
unfolding find_channel remove_channel recount
remove_in_recorders id now [] = []
remove_in_recorders id now (r ∷ rs) =
    let later = remove_in_recorders id now rs in
    elim (find_channel id r.channels) [
      | some c ↦ recount r (remove_channel id r.channels) now ∷ rs
      | none ↦ r ∷ later
    ]

unfoldable pub delete_in_store : ℕ → ℕ → Store → Store
unfolding remove_in_recorders delete_unused_video_areas
delete_in_store id now store =
    let recorders = remove_in_recorders id now store.recorders in
    record store {
      recorders = recorders;
      areas = delete_unused_video_areas recorders store.areas;
      updated_at = now;
    }

-- `s.nextAreaID` and `s.stores` of `MemoryStore`.
pub record Stores : Type 0 where
  pub next_area_id : ℕ
  pub stores : List Store

-- `ConfirmChannel`
unfoldable pub confirm_stores :
    ℕ → ℕ → ConfirmationInput → ℕ → List Store → (ℕ × List Store) × Result Store
unfolding find_in_recorders confirm_in_store
confirm_stores next id input now [] = ((next, []), failed not_found)
confirm_stores next id input now (s ∷ ss) =
    let later = confirm_stores next id input now ss in
    elim (find_in_recorders id s.recorders) [
      | none ↦ ((later.0.0, s ∷ later.0.1), later.1)
      | some c ↦
          let (w, error) =
            confirm_in_store (record { next_area_id = next; store = s }) id input now c in
          ((w.next_area_id, w.store ∷ ss), elim error [ none ↦ ok w.store | some e ↦ failed e ])
    ]

unfoldable pub confirm_channel : Stores → ℕ → ConfirmationInput → ℕ → Stores × Result Store
unfolding confirm_stores
confirm_channel s id input now =
    let r = confirm_stores s.next_area_id id input now s.stores in
    (record { next_area_id = r.0.0; stores = r.0.1 }, r.1)

-- `SaveChannelSnapshot`, which leaves the store's own instant.
unfoldable pub save_channel_snapshot :
    ℕ → SnapshotInput → ℕ → List Store → List Store × Result Channel
unfolding find_in_recorders save_snapshot set_in_recorders
save_channel_snapshot id input now [] = ([], failed not_found)
save_channel_snapshot id input now (s ∷ ss) =
    let later = save_channel_snapshot id input now ss in
    elim (find_in_recorders id s.recorders) [
      | none ↦ (s ∷ later.0, later.1)
      | some c ↦
          let saved = save_snapshot input now c in
          (record s { recorders = set_in_recorders id saved s.recorders } ∷ ss, ok saved)
    ]

-- `UnlockChannelForEdit`
unfoldable pub unlock_channel_for_edit : ℕ → ℕ → List Store → List Store × Result Channel
unfolding find_in_recorders unlock_for_edit set_in_recorders
unlock_channel_for_edit id now [] = ([], failed not_found)
unlock_channel_for_edit id now (s ∷ ss) =
    let later = unlock_channel_for_edit id now ss in
    elim (find_in_recorders id s.recorders) [
      | none ↦ (s ∷ later.0, later.1)
      | some c ↦ elim (unlock_for_edit now c) [
        | failed e ↦ (s ∷ ss, failed e)
        | ok unlocked ↦ (
          record s { recorders = set_in_recorders id unlocked s.recorders; updated_at = now } ∷ ss,
          ok unlocked,
        )
      ]
    ]

-- `DeleteChannel`
unfoldable pub delete_channel : ℕ → ℕ → List Store → List Store × Result Store
unfolding find_in_recorders delete_in_store
delete_channel id now [] = ([], failed not_found)
delete_channel id now (s ∷ ss) =
    let later = delete_channel id now ss in
    let deleted = delete_in_store id now s in
    elim (find_in_recorders id s.recorders) [
      | none ↦ (s ∷ later.0, later.1)
      | some c ↦ (deleted ∷ ss, ok deleted)
    ]
