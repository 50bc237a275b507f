-- ===== src/NvrMonitor/Sessions.antt =====
-- For whom a stream is opened.
use erzhuang_project.Prelude.{
  ℕ, ◌+◌, ◌≤◌, ◌<◌, ◌≡◌, refl, sym, ap, subst, ◌∙◌, Bool, true, false, ◌&&◌, ◌||◌, List, [], ◌∷◌,
  ◌==◌, Option, none, some, arith, ◌⊎◌, inl, inr, Bool-cases, Option-cases,
}
use erzhuang_project.Prelude.Int.{ℤ, pos, pos_part}
use erzhuang_project.Prelude.Map.{Map, nat_eq}
use erzhuang_project.Prelude.Text.{Text, is_empty, trim_space}
use erzhuang_project.ResourceView.{BusinessDevice, BusinessSpace, sort_by, insert_sorted}
use erzhuang_project.NvrMonitor.{
  StoreRecords, MonitorCamera, Mode, live, playback, other_mode, StreamRequest, NvrError, Fallible,
  done, error, CameraList, StreamSession, AuditTarget, is_eligible, camera_from, cameras_from,
  camera_before, cameras_from_records, validate_stream_request, find_camera, contains_camera, Found,
  store_records, get_cameras, open_session, target_of, create_session_with_audit_target,
  max_playback_window,
}

-- The device is in the list, and may be watched.
unfoldable pub is_watchable : ℕ → List BusinessDevice → Bool
is_watchable id [] = false
is_watchable id (d ∷ ds) = (d.id == id && is_eligible d) || is_watchable id ds

camera_from-id :
    (spaces : Map ℕ BusinessSpace) (tenant : ℕ) (on : Bool) (d : BusinessDevice)
    (found : List BusinessSpace)
    → (camera_from spaces tenant on d found).id ≡ d.id
unfolding camera_from
camera_from-id spaces tenant on d found = ground arith

contains_camera-insert_sorted :
    (less : MonitorCamera → MonitorCamera → Bool) (id : ℕ) (c : MonitorCamera)
    (cs : List MonitorCamera)
    → contains_camera (insert_sorted less c cs) id ≡ (c.id == id || contains_camera cs id)
unfolding insert_sorted contains_camera
contains_camera-insert_sorted less id c [] = refl
contains_camera-insert_sorted less id c (d ∷ ds) =
    ground (arith, contains_camera-insert_sorted less id c ds)

contains_camera-sort_by :
    (less : MonitorCamera → MonitorCamera → Bool) (id : ℕ) (cs : List MonitorCamera)
    → contains_camera (sort_by less cs) id ≡ contains_camera cs id
unfolding sort_by contains_camera
contains_camera-sort_by less id [] = refl
contains_camera-sort_by less id (c ∷ cs) = ground (
  arith,
  contains_camera-sort_by less id cs,
  contains_camera-insert_sorted less id c (sort_by less cs),
)

contains_camera-cameras_from :
    (spaces : Map ℕ BusinessSpace) (found : Map ℕ (List BusinessSpace)) (tenant : ℕ) (on : Bool)
    (id : ℕ) (ds : List BusinessDevice)
    → contains_camera (cameras_from spaces found tenant on ds) id ≡ is_watchable id ds
unfolding cameras_from contains_camera is_watchable
contains_camera-cameras_from spaces found tenant on id [] = refl
contains_camera-cameras_from spaces found tenant on id (d ∷ ds) = ground (
  arith,
  contains_camera-cameras_from spaces found tenant on id ds,
  camera_from-id spaces tenant on d _,
)

find_camera-contains_camera :
    (id : ℕ) (cs : List MonitorCamera) {c : MonitorCamera}
    → find_camera id cs ≡ some c
    → (contains_camera cs id ≡ true) × (c.id ≡ id)
unfolding find_camera contains_camera
find_camera-contains_camera id [] {c} h = absurd (cc h)
find_camera-contains_camera id (d ∷ ds) {c} h =
    ground (arith, find_camera-contains_camera id ds {c = c})

done_of : {A : Type 0} {a b : A} → done a ≡ done b → a ≡ b
done_of h = cc h

Fallible-cases :
    {A : Type 0} (x : Fallible A) → ((a : A) × (x ≡ done a)) ⊎ ((e : NvrError) × (x ≡ error e))
Fallible-cases (done a) = inl (a, refl)
Fallible-cases (error e) = inr (e, refl)

-- Live without times, or a playback of an hour at most.
abbrev pub WindowOk : Mode → ℤ → ℤ → Type 0
WindowOk live a b = (a ≡ pos 0) × (b ≡ pos 0)
WindowOk playback a b =
    (0 < pos_part a) × (pos_part a < pos_part b) × (pos_part b ≤ pos_part a + max_playback_window)
WindowOk (other_mode m) a b = ⊥

validate_stream_request-WindowOk :
    (r : StreamRequest) → validate_stream_request r ≡ none → WindowOk r.mode r.start_time r.end_time
unfolding validate_stream_request
validate_stream_request-WindowOk r h = ground arith

module _ (repository : Option (ℕ → Found)) (snapshots : Bool)
    (open_stream : Option (ℕ → StreamRequest → Option Text)) where
  -- What stands behind a session that is given out.
  pub record Allowed (org : Text) (camera : ℕ) (r : StreamRequest) (session : StreamSession)
      (target : Option AuditTarget) : Type 0 where
    pub window : WindowOk r.mode r.start_time r.end_time
    pub records : StoreRecords
    pub of_store : store_records repository snapshots open_stream org ≡ done records
    pub watchable : is_watchable camera records.devices ≡ true
    pub opened :
        (open_at : ℕ → StreamRequest → Option Text) × (open_stream ≡ some open_at)
        × (open_at camera r ≡ some session.url)
    pub has_address : is_empty (trim_space session.url) ≡ false
    pub same_mode : session.mode ≡ r.mode
    pub audited : (t : AuditTarget) × (target ≡ some t) × (t.camera_id ≡ camera)

  open_session_done :
      (camera : ℕ) (r : StreamRequest) (session : StreamSession)
      → open_session repository snapshots open_stream camera r ≡ done session
      → ((open_at : ℕ → StreamRequest → Option Text) × (open_stream ≡ some open_at)
          × (open_at camera r ≡ some session.url))
        × (is_empty (trim_space session.url) ≡ false)
        × (session.mode ≡ r.mode)
  unfolding open_session
  open_session_done camera r session h = elim (Option-cases open_stream) [
    | inl closed ↦ absurd (cc (rw (closed, open_session) at h))
    | inr (open_at, o) ↦ elim (Option-cases (open_at camera r)) [
      | inl failed ↦ absurd (cc (rw (o, open_session, failed) at h))
      | inr (url, u) ↦ elim (Bool-cases (is_empty (trim_space url))) [
        | inl blank ↦ absurd (cc (rw (o, open_session, u, blank) at h))
        | inr given ↦
            subst
              (λ (x : StreamSession).
                ((open' : ℕ → StreamRequest → Option Text) × (open_stream ≡ some open')
                  × (open' camera r ≡ some x.url))
                × (is_empty (trim_space x.url) ≡ false)
                × (x.mode ≡ r.mode))
              (done_of (rw (o, open_session, u, given) at h)) ((open_at, o, u), given, refl)
      ]
    ]
  ]

  get_cameras_done :
      (org : Text) (list : CameraList)
      → get_cameras repository snapshots open_stream org ≡ done list
      → (records : StoreRecords) × (store_records repository snapshots open_stream org
          ≡ done records)
        × (list.cameras ≡ cameras_from_records records snapshots)
  unfolding get_cameras
  get_cameras_done org list h =
      elim (Fallible-cases (store_records repository snapshots open_stream org)) [
        | inl (records, found) ↦ (
          records,
          found,
          ap (λ (x : CameraList). x.cameras) (sym (done_of (rw (found, get_cameras) at h))),
        )
        | inr (e, fails) ↦ absurd (cc (rw (fails, get_cameras) at h))
      ]

  cameras_from_records_watchable :
      (records : StoreRecords) (camera : ℕ) {c : MonitorCamera}
      → find_camera camera (cameras_from_records records snapshots) ≡ some c
      → (is_watchable camera records.devices ≡ true) × (c.id ≡ camera)
  unfolding cameras_from_records
  cameras_from_records_watchable records camera {c} h =
      let (there, same) = find_camera-contains_camera camera _ h in
      (
        sym (
              contains_camera-sort_by camera_before camera _
              ∙ contains_camera-cameras_from _ _ records.tenant_id snapshots camera records.devices)
            ∙ there,
        same,
      )

  allowed :
      (org : Text) (camera : ℕ) (r : StreamRequest) (session : StreamSession)
      (target : Option AuditTarget) (list : CameraList) (c : MonitorCamera)
      → validate_stream_request r ≡ none
      → get_cameras repository snapshots open_stream org ≡ done list
      → find_camera camera list.cameras ≡ some c
      → ◌≡◌ {A = Fallible StreamSession × Option AuditTarget}
          (
            open_session repository snapshots open_stream camera r,
            some (target_of repository snapshots open_stream list c),
          )
          (done session, target)
      → Allowed org camera r session target
  allowed org camera r session target list c valid got found h =
      let (records, of_store, same) = get_cameras_done org list got in
      let (watchable, own) = cameras_from_records_watchable records camera (rw same at found) in
      let (opened, address, mode) = open_session_done camera r session (ap (λ p. p.0) h) in
      record {
        window = validate_stream_request-WindowOk r valid;
        records = records;
        of_store = of_store;
        watchable = watchable;
        opened = opened;
        has_address = address;
        same_mode = mode;
        audited = (_, sym (ap (λ p. p.1) h), own);
      }

  -- A stream session is given out only for a live request without times or a playback of an hour
  -- at most, for a device of the store named by the request that is an enabled recorder channel
  -- and not deleted; its address is the one that the authorization gave for that camera and is not
  -- blank, and the audit target is that camera.
  pub create_session-Allowed :
      (org : Text) (camera : ℕ) (r : StreamRequest) (session : StreamSession)
      (target : Option AuditTarget)
      → create_session_with_audit_target repository snapshots open_stream org camera r
        ≡ (done session, target)
      → Allowed org camera r session target
  unfolding create_session_with_audit_target
  create_session-Allowed org camera r session target h =
      elim (Option-cases (validate_stream_request r)) [
        | inr (e, refused) ↦ absurd (cc (rw (refused, create_session_with_audit_target) at h))
        | inl valid ↦ elim (Fallible-cases (get_cameras repository snapshots open_stream org)) [
          | inr (e, fails) ↦ absurd (cc (rw (valid, create_session_with_audit_target, fails) at h))
          | inl (list, got) ↦ elim (Option-cases (find_camera camera list.cameras)) [
            | inl none_such ↦
                absurd (cc (rw (valid, create_session_with_audit_target, got, none_such) at h))
            | inr (c, found) ↦
                allowed org camera r session target list c valid got found
                  (rw (valid, create_session_with_audit_target, got, found) at h)
          ]
        ]
      ]
