-- ===== src/Ezviz.antt =====
-- internal/ezviz/record_segments.go: the records of a camera's day, read page by page. The HTTP call, the
-- access tokens and the bounds of the day are parameters.
pub mod Pages
use erzhuang_project.Prelude.{
  ℕ, zero, suc, ◌+◌, Bool, true, false, not, ◌&&◌, ◌||◌, List, [], ◌∷◌, ◌++◌, ◌==◌, if◌then◌else◌,
  ltb, Option, none, some,
}
use erzhuang_project.Prelude.Int.{ℤ, pos, negsuc, at_most}
use erzhuang_project.Prelude.Text.{Text, trim_space, to_upper, CaseTable, is_empty}

pub record RecordSegment : Type 0 where
  pub start_time : ℤ
  pub end_time : ℤ
  pub type : Text
  pub size : Text

pub record RecordSegmentsResult : Type 0 where
  pub records : List RecordSegment
  pub from_nvr : Bool
  pub device_serial : Text
  pub local_index : Text
  pub has_more : Bool
  pub next_file_time : ℤ

-- What a query may fail with; a call fails with an error of a token or another one.
pub data SegmentsError : Type 0 where
  serial_required channel_required no_token token_rejected call_failed : SegmentsError

pub data Segments : Type 0 where
  segments : RecordSegmentsResult → Segments
  no_segments : SegmentsError → Segments

abbrev max_pages : ℕ
max_pages = 20

-- The next page is asked for: the negation of the loop's test.
unfoldable pub continues : RecordSegmentsResult → ℤ → ℤ → Bool
continues r start end =
    not (not r.has_more || at_most r.next_file_time start || not (at_most r.next_file_time end))

abbrev pub merge_page : ℕ → RecordSegmentsResult → RecordSegmentsResult → RecordSegmentsResult
merge_page page merged r = if page == 0 then r else record merged {
  records = merged.records ++ r.records;
  has_more = r.has_more;
  next_file_time = r.next_file_time;
}

-- The call gets the number of the page, since it may answer differently each time, and the page's
-- start.
module _ (call : ℕ → ℤ → Segments) (end : ℤ) where
  -- With the pages that may still be read.
  unfoldable pub read_pages : ℕ → ℕ → ℤ → RecordSegmentsResult → Segments
  unfolding continues
  read_pages zero page start merged = segments merged
  read_pages (suc left) page start merged = elim (call page start) [
    | no_segments e ↦ no_segments e
    | segments r ↦
        let merged' = merge_page page merged r in
        let rest = read_pages left (suc page) r.next_file_time merged' in
        if not (continues r start end)
        then segments (record merged' {
          has_more =
              r.has_more && not (at_most r.next_file_time start) && at_most r.next_file_time end;
          next_file_time = r.next_file_time;
        })
        else rest
  ]

abbrev empty_result : RecordSegmentsResult
empty_result = record {
  records = [];
  from_nvr = false;
  device_serial = [];
  local_index = [];
  has_more = false;
  next_file_time = pos 0;
}

unfoldable pub call_record_segments_pages : (ℕ → ℤ → Segments) → ℤ → ℤ → Segments
unfolding read_pages
call_record_segments_pages call start end = read_pages call end max_pages 0 start empty_result

pub record SegmentsQuery : Type 0 where
  pub device_serial : Text
  pub channel_no : ℤ
  pub page_size : ℤ

abbrev not_positive : ℤ → Bool
not_positive (pos n) = n == 0
not_positive (negsuc n) = true

unfoldable pub page_size_of : ℤ → ℤ
page_size_of size =
    let given = if not_positive size then pos 50 else size in
    if not (at_most given (pos 500)) then pos 500 else given

-- A failure that a new token may mend.
is_token_error : SegmentsError → Bool
is_token_error token_rejected = true
is_token_error e = false

-- `QueryRecordSegments`: `access` and `refresh` are the two ways to a token, `pages` the call for a token,
-- the serial, the channel and the page size, in the first or in the second attempt.
unfoldable pub query_record_segments :
    CaseTable
    → Option Text
    → Option Text
    → (Bool → Text → Text → ℤ → ℤ → ℕ → ℤ → Segments)
    → ℤ
    → ℤ
    → SegmentsQuery
    → Segments
unfolding call_record_segments_pages page_size_of is_token_error
query_record_segments table access refresh pages start end q =
    let serial = to_upper table (trim_space q.device_serial) in
    let size = page_size_of q.page_size in
    let attempt = λ (again : Bool) (token : Text).
      call_record_segments_pages (pages again token serial q.channel_no size) start end in
    if is_empty serial
    then no_segments serial_required
    else if not_positive q.channel_no
    then no_segments channel_required
    else elim access [
      | none ↦ no_segments no_token
      | some token ↦ elim (attempt false token) [
        | segments r ↦ segments r
        | no_segments e ↦
            if not (is_token_error e)
            then no_segments e
            else elim refresh [ none ↦ no_segments no_token | some renewed ↦ attempt true renewed ]
      ]
    ]
