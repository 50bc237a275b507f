-- ===== src/Ezviz/Pages.antt =====
-- Which pages `callRecordSegmentsPages` reads.
use erzhuang_project.Prelude.{
  ℕ, zero, suc, ◌≤◌, ◌≡◌, refl, sym, ap, subst, ◌∙◌, true, false, not, ◌&&◌, List, [], ◌∷◌, ◌++◌,
  append_assoc, append-nil, ◌==◌, if◌then◌else◌, length, ◌⊎◌, inl, inr, arith, Bool-cases,
}
use erzhuang_project.Prelude.Int.{ℤ, at_most}
use erzhuang_project.Ezviz.{
  RecordSegment, RecordSegmentsResult, Segments, segments, no_segments, SegmentsError, continues,
  merge_page, read_pages, call_record_segments_pages, empty_result,
}

module _ (call : ℕ → ℤ → Segments) (end : ℤ) where
  -- Pages from one number and start on, each from where the one before says, after its own start
  -- and not after the end.
  pub data Chain : ℕ → ℤ → List RecordSegmentsResult → Type 0 where
    last_page :
        {page : ℕ} {start : ℤ} {r : RecordSegmentsResult}
        → call page start ≡ segments r
        → Chain page start (r ∷ [])
    next_page :
        {page : ℕ} {start : ℤ} {r : RecordSegmentsResult} {rs : List RecordSegmentsResult}
        → call page start ≡ segments r
        → (r.has_more ≡ true)
          × (at_most r.next_file_time start ≡ false)
          × (at_most r.next_file_time end ≡ true)
        → Chain (suc page) r.next_file_time rs
        → Chain page start (r ∷ rs)

  abbrev pub all_records : List RecordSegmentsResult → List RecordSegment
  all_records [] = []
  all_records (r ∷ rs) = r.records ++ all_records rs

  -- What a successful reading of at most `left` pages has read, behind earlier records.
  pub record PagesRead (left page : ℕ) (start : ℤ) (earlier : List RecordSegment)
      (m : RecordSegmentsResult) : Type 0 where
    pub pages : List RecordSegmentsResult
    pub chain : Chain page start pages
    pub limit : length pages ≤ left
    pub records_read : m.records ≡ earlier ++ all_records pages
    pub more_only_at_limit : (m.has_more && not (length pages == left)) ≡ false

  Segments-cases :
      (x : Segments)
      → ((r : RecordSegmentsResult) × (x ≡ segments r))
        ⊎ ((e : SegmentsError) × (x ≡ no_segments e))
  Segments-cases (segments r) = inl (r, refl)
  Segments-cases (no_segments e) = inr (e, refl)

  merge_page-records :
      (page : ℕ) (merged r : RecordSegmentsResult)
      → (merge_page page merged r).records ≡ (if page == 0 then [] else merged.records) ++ r.records
  merge_page-records page merged r = elim (Bool-cases (page == 0)) [
    | inl first ↦ rw (first, merge_page) refl
    | inr later ↦ rw (later, merge_page) refl
  ]

  merge_page-has_more :
      (page : ℕ) (merged r : RecordSegmentsResult)
      → (merge_page page merged r).has_more ≡ r.has_more
  merge_page-has_more page merged r = elim (Bool-cases (page == 0)) [
    | inl first ↦ rw (first, merge_page) refl
    | inr later ↦ rw (later, merge_page) refl
  ]

  continues-true :
      (r : RecordSegmentsResult) (start : ℤ)
      → continues r start end ≡ true
      → (r.has_more ≡ true)
        × (at_most r.next_file_time start ≡ false)
        × (at_most r.next_file_time end ≡ true)
  unfolding continues
  continues-true r start h = ground arith

  continues-false :
      (r : RecordSegmentsResult) (start : ℤ)
      → continues r start end ≡ false
      → (r.has_more && not (at_most r.next_file_time start) && at_most r.next_file_time end) ≡ false
  unfolding continues
  continues-false r start h = ground arith

  -- A page that ends the loop, with what becomes of the merged result.
  one_page :
      (left page : ℕ) (start : ℤ) (merged r m : RecordSegmentsResult)
      → call page start ≡ segments r
      → m.records ≡ (merge_page page merged r).records
      → (m.has_more && not (1 == suc left)) ≡ false
      → PagesRead (suc left) page start (if page == 0 then [] else merged.records) m
  one_page left page start merged r m got same more = record {
    pages = r ∷ [];
    chain = last_page got;
    limit = omega arith;
    records_read =
        same
        ∙ (merge_page-records page merged r
            ∙ ap (λ l. (if page == 0 then [] else merged.records) ++ l)
                (sym (append-nil r.records)));
    more_only_at_limit = more;
  }

  another_page :
      (left page : ℕ) (start : ℤ) (merged r m : RecordSegmentsResult)
      → call page start ≡ segments r
      → continues r start end ≡ true
      → PagesRead (suc left) (suc page) r.next_file_time (merge_page page merged r).records m
      → PagesRead (suc (suc left)) page start (if page == 0 then [] else merged.records) m
  another_page left page start merged r m got goes rest = record {
    pages = r ∷ rest.pages;
    chain = next_page got (continues-true r start goes) rest.chain;
    limit = omega (arith, rest.limit);
    records_read =
        rest.records_read
        ∙ (ap (λ l. l ++ all_records rest.pages) (merge_page-records page merged r)
            ∙ append_assoc (if page == 0 then [] else merged.records) r.records
                (all_records rest.pages));
    more_only_at_limit = ground (arith, rest.more_only_at_limit);
  }

  later_earlier : {xs : List RecordSegment} (page : ℕ) → (if suc page == 0 then [] else xs) ≡ xs
  later_earlier page = ground arith

  result_of : {a b : RecordSegmentsResult} → segments a ≡ segments b → a ≡ b
  result_of h = cc h

  ended :
      (page : ℕ) (start : ℤ) (merged r m : RecordSegmentsResult)
      → read_pages call end zero (suc page) r.next_file_time (merge_page page merged r) ≡ segments m
      → m.records ≡ (merge_page page merged r).records
  unfolding read_pages
  ended page start merged r m h = ap (λ (x : RecordSegmentsResult). x.records) (sym (result_of h))

  -- The page read first, and whether the loop ends with it.
  abbrev FirstPage : ℕ → ℕ → ℤ → RecordSegmentsResult → RecordSegmentsResult → Type 0
  FirstPage left page start merged m =
      (r : RecordSegmentsResult) × (call page start ≡ segments r)
      × (((m.records ≡ (merge_page page merged r).records) × (m.has_more ≡ false))
          ⊎ ((continues r start end ≡ true)
              × (read_pages call end left (suc page) r.next_file_time (merge_page page merged r)
                  ≡ segments m)))

  stopped :
      (page : ℕ) (start : ℤ) (merged r m : RecordSegmentsResult)
      → continues r start end ≡ false
      → segments (record (merge_page page merged r) {
        has_more =
            r.has_more && not (at_most r.next_file_time start) && at_most r.next_file_time end;
        next_file_time = r.next_file_time;
      })
        ≡ segments m
      → (m.records ≡ (merge_page page merged r).records) × (m.has_more ≡ false)
  stopped page start merged r m stops h =
      let same = result_of h in (rw⁻¹ same refl, rw⁻¹ same (continues-false r start stops))

  first_page :
      (left page : ℕ) (start : ℤ) (merged m : RecordSegmentsResult)
      → read_pages call end (suc left) page start merged ≡ segments m
      → FirstPage left page start merged m
  unfolding read_pages
  first_page left page start merged m h = elim (Segments-cases (call page start)) [
    | inr (e, fails) ↦ absurd (cc (rw (fails, read_pages) at h))
    | inl (r, got) ↦ elim (Bool-cases (continues r start end)) [
      | inr stops ↦
          (r, got, inl (stopped page start merged r m stops (rw (got, stops, read_pages) at h)))
      | inl goes ↦ (r, got, inr (goes, rw (got, goes, read_pages) at h))
    ]
  ]

  pages_left :
      (left page : ℕ) (start : ℤ) (merged m : RecordSegmentsResult)
      → read_pages call end (suc left) page start merged ≡ segments m
      → PagesRead (suc left) page start (if page == 0 then [] else merged.records) m
  pages_left zero page start merged m h =
      let (r, got, how) = first_page zero page start merged m h in
      elim how [
        | inl (same, more) ↦ one_page zero page start merged r m got same (rw more refl)
        | inr (goes, rest) ↦
            one_page zero page start merged r m got (ended page start merged r m rest)
              (ground arith)
      ]
  pages_left (suc left) page start merged m h =
      let (r, got, how) = first_page (suc left) page start merged m h in
      elim how [
        | inl (same, more) ↦ one_page (suc left) page start merged r m got same (rw more refl)
        | inr (goes, rest) ↦ another_page left page start merged r m got goes (
            subst (λ xs. PagesRead (suc left) (suc page) r.next_file_time xs m) (later_earlier page)
              (pages_left left (suc page) r.next_file_time (merge_page page merged r) m rest))
      ]

  -- A reading of record segments that succeeds has read at most 20 pages, each from where the one
  -- before said, which is after that one's own start and not after the end; its records are those
  -- of the pages in their order, and it says that there are more only after 20 pages.
  pub call_record_segments_pages-PagesRead :
      (start : ℤ) (m : RecordSegmentsResult)
      → call_record_segments_pages call start end ≡ segments m
      → PagesRead 20 0 start [] m
  unfolding call_record_segments_pages
  call_record_segments_pages-PagesRead start m h = pages_left 19 0 start empty_result m h
