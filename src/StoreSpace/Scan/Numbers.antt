-- ===== src/StoreSpace/Scan/Numbers.antt =====
-- The channel numbers of a recorder under UpsertRecorderChannel of internal/storespace/store.go.
use erzhuang_project.Prelude.{
  ℕ, ◌+◌, ◌<◌, ◌≡◌, refl, sym, ◌∙◌, true, false, not, ◌&&◌, ◌||◌, List, [], ◌∷◌, ◌++◌, ◌==◌, ==_iff,
  if◌then◌else◌, none, some, arith, inl, inr, Bool-cases, Option-cases,
}
use erzhuang_project.Prelude.Text.{Text}
use erzhuang_project.StoreSpace.Model.{Channel, Recorder, ChannelInput, online}
use erzhuang_project.StoreSpace.Channels.{active_channel_count, is_inactive}
use erzhuang_project.StoreSpace.Scan.{
  channel_by_no, set_by_no, max_channel_id, insert_channel, sort_channels, rescanned,
  scanned_channel, with_channels, upsert_in_recorder,
}

-- How many channels have the number.
unfoldable pub count_no : ℕ → List Channel → ℕ
count_no n [] = 0
count_no n (c ∷ cs) = let rest = count_no n cs in if c.channel_no == n then rest + 1 else rest

count_no-insert_channel :
    (n : ℕ) (c : Channel) (cs : List Channel)
    → count_no n (insert_channel c cs) ≡ count_no n (c ∷ cs)
unfolding count_no insert_channel
count_no-insert_channel n c [] = refl
count_no-insert_channel n c (x ∷ cs) = ground (arith, count_no-insert_channel n c cs)

count_no-sort_channels : (n : ℕ) (cs : List Channel) → count_no n (sort_channels cs) ≡ count_no n cs
unfolding count_no sort_channels
count_no-sort_channels n [] = refl
count_no-sort_channels n (c ∷ cs) =
    ground (arith, count_no-insert_channel n c (sort_channels cs), count_no-sort_channels n cs)

count_no-append :
    (n : ℕ) (cs : List Channel) (c : Channel) → count_no n (cs ++ c ∷ []) ≡ count_no n (c ∷ cs)
unfolding count_no
count_no-append n [] c = refl
count_no-append n (x ∷ cs) c = ground (arith, count_no-append n cs c)

count_no-set_by_no :
    (n nr : ℕ) (new : Channel) (cs : List Channel)
    → new.channel_no ≡ nr
    → count_no n (set_by_no nr new cs) ≡ count_no n cs
unfolding count_no set_by_no
count_no-set_by_no n nr new [] e = refl
count_no-set_by_no n nr new (c ∷ cs) e = ground (arith, count_no-set_by_no n nr new cs)

channel_by_no-none : (nr : ℕ) (cs : List Channel) → channel_by_no nr cs ≡ none → count_no nr cs ≡ 0
unfolding count_no channel_by_no
channel_by_no-none nr [] e = refl
channel_by_no-none nr (c ∷ cs) e = ground (arith, channel_by_no-none nr cs)

channel_by_no-some :
    (nr : ℕ) (cs : List Channel) (c : Channel)
    → channel_by_no nr cs ≡ some c
    → (c.channel_no ≡ nr) × (0 < count_no nr cs)
unfolding count_no channel_by_no
channel_by_no-some nr [] c e = absurd (cc e)
channel_by_no-some nr (x ∷ cs) c e = ground (arith, channel_by_no-some nr cs c)

-- The recorder and the channel after a rescan.
pub record Rescanned (input : ChannelInput) (r : Recorder) (r' : Recorder) (c : Channel)
    : Type 0 where
  pub same_number : c.channel_no ≡ input.channel_no
  pub active : c.is_active ≡ true
  pub not_inactive : is_inactive c.status ≡ false
  pub is_online : r'.status ≡ online
  pub effective : r'.effective_channel_count ≡ active_channel_count r'.channels
  pub numbers :
      (n : ℕ)
      → count_no n r'.channels
        ≡ (if n == input.channel_no && count_no n r.channels == 0 then 1 else count_no n r.channels)

rescanned_facts :
    (name : Text) (now : ℕ) (c : Channel)
    → ((rescanned name now c).channel_no ≡ c.channel_no)
      × ((rescanned name now c).is_active ≡ true)
      × (is_inactive (rescanned name now c).status ≡ false)
unfolding rescanned
rescanned_facts name now c = (refl, refl, ground arith)

one_more :
    (n : ℕ) (new : Channel) (cs : List Channel)
    → count_no new.channel_no cs ≡ 0
    → count_no n (new ∷ cs)
      ≡ (if n == new.channel_no && count_no n cs == 0 then 1 else count_no n cs)
unfolding count_no
one_more n new cs e = elim (Bool-cases (new.channel_no == n)) [
  | inl same ↦
      let n_eq : new.channel_no ≡ n = (==_iff new.channel_no n).0 same in
      let zero_count : count_no n cs ≡ 0 = rw (sym n_eq) e in ground arith
  | inr other ↦ ground arith
]

same_count :
    (n nr : ℕ) (cs : List Channel)
    → 0 < count_no nr cs
    → count_no n cs ≡ (if n == nr && count_no n cs == 0 then 1 else count_no n cs)
same_count n nr cs h = elim (Bool-cases (n == nr)) [
  | inl same ↦
      let n_eq : n ≡ nr = (==_iff n nr).0 same in
      let some_count : 0 < count_no n cs = rw n_eq h in ground arith
  | inr other ↦ ground arith
]

-- A scan of an active channel with a positive number is never refused; afterwards the recorder is
-- online and counts its active channels, the channel given back has the number and is active, and
-- each number occurs as often as before, only the scanned one now occurs once if it did not
-- before.
pub upsert_in_recorder-Rescanned :
    (input : ChannelInput) (now : ℕ) (r : Recorder)
    → 0 < input.channel_no
    → input.is_active ≡ true
    → (r' : Recorder) × (c : Channel) × (upsert_in_recorder input now r ≡ some (r', c))
      × Rescanned input r r' c
unfolding upsert_in_recorder
upsert_in_recorder-Rescanned input now r positive active =
    let kept : (input.channel_no == 0 || not input.is_active) ≡ false = ground arith in
    elim (Option-cases (channel_by_no input.channel_no r.channels)) [
      | inl missing ↦
          let new = scanned_channel (max_channel_id r.channels + 1) r.id input now in
          let absent = channel_by_no-none input.channel_no r.channels missing in
          let counted = λ (n : ℕ).
            count_no-sort_channels n (r.channels ++ new ∷ []) ∙ count_no-append n r.channels new in
          (
            with_channels r (sort_channels (r.channels ++ new ∷ [])) now,
            new,
            rw (kept, missing, upsert_in_recorder) refl,
            record {
              same_number = refl;
              active = refl;
              not_inactive = refl;
              is_online = refl;
              effective = refl;
              numbers = λ n. counted n ∙ one_more n new r.channels absent;
            },
          )
      | inr (c, hit) ↦
          let new = rescanned input.channel_name now c in
          let facts = rescanned_facts input.channel_name now c in
          let was = channel_by_no-some input.channel_no r.channels c hit in
          (
            with_channels r (set_by_no input.channel_no new r.channels) now,
            new,
            rw (kept, hit, upsert_in_recorder) refl,
            record {
              same_number = facts.0 ∙ was.0;
              active = facts.1;
              not_inactive = facts.2;
              is_online = refl;
              effective = refl;
              numbers = λ n.
                  count_no-set_by_no n input.channel_no new r.channels (facts.0 ∙ was.0)
                  ∙ same_count n input.channel_no r.channels was.1;
            },
          )
    ]
