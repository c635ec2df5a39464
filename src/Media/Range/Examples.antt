-- ===== src/Media/Range/Examples.antt =====
-- Runs of src/media/range.rs, and its theorems at concrete inputs.
use cast_app.Common.Trim.{trim}
use cast_app.Common.{◌-◌, min, ◌≡◌, refl, some, [], arith}
use cast_app.Common.Text.{decimal, codes, split_once}
use cast_app.Media.Range.{
  full, partial, unsatisfiable, parse_range, parse_single_range, strip_prefix, split_first,
  parse_u64, parse_digits, all_empty, content_range,
}
use cast_app.Media.Range.Sound.{IsWithin, parse_range-Within}
use cast_app.Media.Range.Forms.{header_of, parse_range_forms}

spaces_are_trimmed : parse_range (some (codes "  bytes= 10 - 20 ")) 1000 ≡ partial 10 20
unfolding parse_range parse_single_range strip_prefix trim split_first split_once parse_u64
    parse_digits
spaces_are_trimmed = refl

several_ranges : parse_range (some (codes "bytes=0-1,4-5")) 1000 ≡ full
unfolding parse_range parse_single_range strip_prefix trim split_first split_once all_empty
several_ranges = refl

empty_suffix : parse_range (some (codes "bytes=-0")) 1000 ≡ unsatisfiable
unfolding parse_range parse_single_range strip_prefix trim split_first split_once parse_u64
    parse_digits
empty_suffix = refl

past_u64 : parse_range (some (codes "bytes=18446744073709551616-")) 1000 ≡ unsatisfiable
unfolding parse_range parse_single_range strip_prefix trim split_first split_once parse_u64
    parse_digits
past_u64 = refl

answer : content_range 0 499 1000 ≡ codes "bytes 0-499/1000"
unfolding content_range decimal
answer = refl

parse_range-Within_example : IsWithin 5 (parse_range (some (codes "bytes=1-9")) 5)
parse_range-Within_example = parse_range-Within (some (codes "bytes=1-9")) 5

parse_range_forms_example :
    (parse_range (some (header_of (decimal 2) (decimal 7))) 5 ≡ partial 2 (min 7 (5 - 1)))
    × (parse_range (some (header_of (decimal 2) [])) 5 ≡ partial 2 (5 - 1))
    × (parse_range (some (header_of [] (decimal 3))) 5 ≡ partial (5 - 3) (5 - 1))
parse_range_forms_example =
    parse_range_forms 2 7 3 5 (omega arith) (omega arith) (omega arith) (omega arith) (omega arith)
      (omega arith)
