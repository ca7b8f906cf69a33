-- ===== src/Models/PeakHours.antt =====
-- pkg/models/peak_hours.go: times, offsets from UTC, and the model of the peak hours. The regular
-- expressions are the cases on the characters; an offset counts hundredths of an hour, which is all
-- that its format can say; an error is `none`.
use llm_supervisor_proxy.Models.{ModelConfig}
use llm_supervisor_proxy.Support.Int.{ℤ, pos, negsuc}
use llm_supervisor_proxy.Support.{
  ℕ, zero, suc, ◌+◌, ◌-◌, ◌*◌, ◌/◌, ◌%◌, Bool, true, false, not, ◌&&◌, ◌||◌, String, List, [], ◌∷◌,
  Option, none, some, ltb, leb, ◌==◌, str_eq, if◌then◌else◌,
}
use Prim.Native.Char.{code}

unfoldable pub codes : String → List ℕ
codes String.[] = []
codes (String.◌∷◌ c s) = code c ∷ codes s

abbrev pub is_digit : ℕ → Bool
is_digit c = leb 48 c && leb c 57

abbrev pub two_digits : ℕ → ℕ → ℕ
two_digits a b = (a - 48) * 10 + (b - 48)

-- `^(\d{2}):(\d{2})$` and the two ranges.
unfoldable pub parse_codes : List ℕ → Option (ℕ × ℕ)
parse_codes [] = none
parse_codes (a ∷ []) = none
parse_codes (a ∷ b ∷ []) = none
parse_codes (a ∷ b ∷ c ∷ []) = none
parse_codes (a ∷ b ∷ c ∷ d ∷ []) = none
parse_codes (a ∷ b ∷ c ∷ d ∷ e ∷ []) =
    if is_digit a
      && (is_digit b
          && ((c == 58)
              && (is_digit d
                  && (is_digit e && (leb (two_digits a b) 23 && leb (two_digits d e) 59)))))
    then some (two_digits a b, two_digits d e)
    else none
parse_codes (a ∷ b ∷ c ∷ d ∷ e ∷ f ∷ rest) = none

-- An empty text is an error here, and the format is checked before the numbers are read.
unfoldable pub parse_time : String → Option (ℕ × ℕ)
parse_time s = parse_codes (codes s)

-- `ValidateTimeFormat`, which allows an empty text.
unfoldable pub validate_time_format : String → Bool
validate_time_format s =
    str_eq s "" || elim (parse_codes (codes s)) [ none ↦ false | some t ↦ true ]

abbrev is_space : ℕ → Bool
is_space c =
    leb 9 c && leb c 13
    || ((c == 32)
        || ((c == 133)
            || ((c == 160)
                || ((c == 5760)
                    || (leb 8192 c && leb c 8202
                        || ((c == 8232)
                            || ((c == 8233) || ((c == 8239) || ((c == 8287) || (c == 12288))))))))))

unfoldable pub trim_left : List ℕ → List ℕ
trim_left [] = []
trim_left (c ∷ s) = let rest = trim_left s in if is_space c then rest else c ∷ s

abbrev keep_char : ℕ → List ℕ → List ℕ
keep_char c [] = if is_space c then [] else c ∷ []
keep_char c (d ∷ s) = c ∷ d ∷ s

unfoldable pub trim_right : List ℕ → List ℕ
trim_right [] = []
trim_right (c ∷ s) = keep_char c (trim_right s)

abbrev when : Bool → ℕ → Option ℕ
when true n = some n
when false n = none

-- `\d{1,2}(\.\d{1,2})?$`, in hundredths.
unfoldable pub magnitude : List ℕ → Option ℕ
magnitude [] = none
magnitude (a ∷ []) = when (is_digit a) ((a - 48) * 100)
magnitude (a ∷ b ∷ []) = when (is_digit a && is_digit b) (two_digits a b * 100)
magnitude (a ∷ b ∷ c ∷ []) =
    when (is_digit a && ((b == 46) && is_digit c)) ((a - 48) * 100 + (c - 48) * 10)
magnitude (a ∷ b ∷ c ∷ d ∷ []) =
    if b == 46
    then when (is_digit a && (is_digit c && is_digit d)) ((a - 48) * 100 + two_digits c d)
    else when (is_digit a && (is_digit b && ((c == 46) && is_digit d)))
        (two_digits a b * 100 + (d - 48) * 10)
magnitude (a ∷ b ∷ c ∷ d ∷ e ∷ []) =
    when (is_digit a && (is_digit b && ((c == 46) && (is_digit d && is_digit e))))
      (two_digits a b * 100 + two_digits d e)
magnitude (a ∷ b ∷ c ∷ d ∷ e ∷ f ∷ rest) = none

abbrev in_range : Bool → ℕ → Option ℤ
in_range true n = if leb n 1400 then some (pos n) else none
in_range false zero = some (pos 0)
in_range false (suc n) = if ltb n 1200 then some (negsuc n) else none

abbrev with_sign : Bool → Option ℕ → Option ℤ
with_sign positive none = none
with_sign positive (some n) = in_range positive n

unfoldable pub offset_of : List ℕ → Option ℤ
offset_of [] = none
offset_of (c ∷ rest) =
    if c == 43
    then with_sign true (magnitude rest)
    else (if c == 45 then with_sign false (magnitude rest) else none)

unfoldable pub parse_utc_offset : String → Option ℤ
parse_utc_offset offset =
    if str_eq offset "" then some (pos 0) else offset_of (trim_right (trim_left (codes offset)))

unfoldable pub validate_utc_offset : String → Bool
validate_utc_offset s =
    str_eq s ""
    || elim (offset_of (trim_right (trim_left (codes s)))) [ none ↦ false | some o ↦ true ]

unfoldable pub is_within_window : ℕ → ℕ → ℕ → Bool
is_within_window current start end =
    if leb start end
    then leb start current && ltb current end
    else leb start current || ltb current end

unfoldable pub time_to_minutes : ℕ → ℕ → ℕ
time_to_minutes h m = h * 60 + m

-- `math.Round(utcOffset * 60)`, to the nearest minute, half away from 0.
abbrev pub round_minutes : ℕ → ℕ
round_minutes hundredths = (hundredths * 60 + 50) / 100

abbrev minutes_per_day : ℕ
minutes_per_day = 1440

abbrev pub day_of_negative : ℕ → ℕ
day_of_negative zero = 0
day_of_negative (suc r) = minutes_per_day - suc r

-- Go's `%` keeps the sign, and a negative remainder is moved up by a day.
unfoldable pub local_minutes : ℕ → ℤ → ℕ
local_minutes utc (pos n) = (utc + round_minutes n) % minutes_per_day
local_minutes utc (negsuc n) =
    if leb (round_minutes (suc n)) utc
    then (utc - round_minutes (suc n)) % minutes_per_day
    else day_of_negative ((round_minutes (suc n) - utc) % minutes_per_day)

-- The part behind the parses.
unfoldable pub model_in_window : String → ℕ → ℤ → ℕ × ℕ → ℕ × ℕ → String
model_in_window model utc offset (start_h, start_m) (end_h, end_m) =
    if is_within_window (local_minutes utc offset) (time_to_minutes start_h start_m)
      (time_to_minutes end_h end_m)
    then model
    else ""

abbrev pub when_parsed : String → ℕ → Option ℤ → Option (ℕ × ℕ) → Option (ℕ × ℕ) → String
when_parsed model utc none start end = ""
when_parsed model utc (some offset) none end = ""
when_parsed model utc (some offset) (some start) none = ""
when_parsed model utc (some offset) (some start) (some end) =
    model_in_window model utc offset start end

-- The time is the hour and the minute of the clock in UTC.
unfoldable pub resolve_peak_hour_model : ModelConfig → ℕ → ℕ → String
resolve_peak_hour_model m hour minute =
    if not m.peak_hour_enabled
    then ""
    else if not m.internal
    then ""
    else (if str_eq m.peak_hour_model ""
        then ""
        else when_parsed m.peak_hour_model (hour * 60 + minute)
            (parse_utc_offset m.peak_hour_timezone) (parse_time m.peak_hour_start)
            (parse_time m.peak_hour_end))
