-- ===== src/Tests/Segments.antt =====
-- A day's records in two pages.
use erzhuang_project.Prelude.{ℕ, ◌≡◌, refl, true, false, [], ◌∷◌, suc, zero}
use erzhuang_project.Prelude.Int.{ℤ, pos}
use erzhuang_project.Prelude.Text.{text}
use erzhuang_project.Ezviz.{
  RecordSegment, RecordSegmentsResult, Segments, segments, call_record_segments_pages,
}
use erzhuang_project.Ezviz.Pages.{PagesRead, call_record_segments_pages-PagesRead}

abbrev segment : ℤ → RecordSegment
segment t = record { start_time = t; end_time = t; type = []; size = [] }

abbrev first_result : RecordSegmentsResult
first_result = record {
  records = segment (pos 0) ∷ [];
  from_nvr = true;
  device_serial = text "D";
  local_index = text "1";
  has_more = true;
  next_file_time = pos 5;
}

abbrev second_result : RecordSegmentsResult
second_result = record first_result {
  records = segment (pos 5) ∷ [];
  has_more = false;
  next_file_time = pos 0;
}

abbrev two_pages : ℕ → ℤ → Segments
two_pages zero start = segments first_result
two_pages (suc n) start = segments second_result

abbrev whole_day : RecordSegmentsResult
whole_day = record first_result {
  records = segment (pos 0) ∷ segment (pos 5) ∷ [];
  has_more = false;
  next_file_time = pos 0;
}

two_pages-read : call_record_segments_pages two_pages (pos 0) (pos 9) ≡ segments whole_day
unfolding call_record_segments_pages
two_pages-read = refl

call_record_segments_pages-PagesRead_example : PagesRead two_pages (pos 9) 20 0 (pos 0) [] whole_day
call_record_segments_pages-PagesRead_example =
    call_record_segments_pages-PagesRead two_pages (pos 9) (pos 0) whole_day two_pages-read
