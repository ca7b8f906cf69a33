-- ===== src/Models/Window.antt =====
-- pkg/models/peak_hours.go: the window of the peak hours on the clock's face.
use llm_supervisor_proxy.Models.{ModelConfig}
use llm_supervisor_proxy.Models.PeakHours.{
  day_of_negative, is_within_window, local_minutes, model_in_window, parse_time, parse_utc_offset,
  resolve_peak_hour_model, round_minutes, time_to_minutes, when_parsed,
}
use llm_supervisor_proxy.Models.Clock.{format_time-parse_time}
use llm_supervisor_proxy.Support.Int.{ℤ, pos, negsuc}
use llm_supervisor_proxy.Support.{
  ℕ, zero, suc, ◌+◌, ◌-◌, ◌*◌, ◌%◌, ◌<◌, ◌≤◌, ◌≡◌, ◌≢◌, refl, ap, ◌∙◌, Bool, true, false, not,
  String, Option, none, some, ◌⊎◌, Option-cases, str_eq_refl, ltb, leb, Bool-cases, inl, inr, arith,
  str_eq, str_eq→eq, if◌then◌else◌,
}

-- The minutes from one time to the next occurrence of another.
abbrev pub minutes_until : ℕ → ℕ → ℕ
minutes_until from to = if leb from to then to - from else to + 1440 - from

-- The time lies in the window just when it comes before the end, counted from the start around the
-- clock.
pub is_within_window-around :
    (current start end : ℕ)
    → current < 1440
    → start < 1440
    → end < 1440
    → is_within_window current start end
      ≡ ltb (minutes_until start current) (minutes_until start end)
unfolding is_within_window
is_within_window-around current start end c s e = ground (arith, c, s, e)

pub local_minutes-lt : (utc : ℕ) (offset : ℤ) → local_minutes utc offset < 1440
unfolding local_minutes
local_minutes-lt utc (pos n) = omega arith
local_minutes-lt utc (negsuc n) = ground arith

abbrev pub east_minutes : ℤ → ℕ
east_minutes (pos n) = round_minutes n
east_minutes (negsuc n) = 0

abbrev pub west_minutes : ℤ → ℕ
west_minutes (pos n) = 0
west_minutes (negsuc n) = round_minutes (suc n)

-- The two cases of a remainder that is moved up.
back_up : (utc r : ℕ) → r ≤ utc → ((utc - r) % 1440 + r) % 1440 ≡ utc % 1440
back_up utc r h = omega (arith, h)

back_around :
    (utc r k : ℕ) → utc < r → (r - utc) % 1440 ≡ suc k → (1440 - suc k + r) % 1440 ≡ utc % 1440
back_around utc r k h e = omega (arith, h, e)

back_exact : (utc r : ℕ) → utc < r → (r - utc) % 1440 ≡ 0 → (0 + r) % 1440 ≡ utc % 1440
back_exact utc r h e = omega (arith, h, e)

back_day :
    (utc r k : ℕ) → utc < r → (r - utc) % 1440 ≡ k → (day_of_negative k + r) % 1440 ≡ utc % 1440
back_day utc r zero h e = back_exact utc r h e
back_day utc r (suc k) h e = back_around utc r k h e

-- The local time is the UTC time, moved by the offset around the clock.
pub local_minutes-shift :
    (utc : ℕ) (offset : ℤ)
    → (local_minutes utc offset + west_minutes offset) % 1440 ≡ (utc + east_minutes offset) % 1440
unfolding local_minutes
local_minutes-shift utc (pos n) = omega arith
local_minutes-shift utc (negsuc n) = elim (Bool-cases (leb (round_minutes (suc n)) utc)) [
  | inl e ↦ rw e (back_up utc (round_minutes (suc n)) (ground (arith, e)) ∙ omega arith)
  | inr e ↦ rw e (back_day utc (round_minutes (suc n)) _ (ground (arith, e)) refl ∙ omega arith)
]

time_to_minutes-lt :
    (s : String) (h m : ℕ) → parse_time s ≡ some (h, m) → time_to_minutes h m < 1440
unfolding time_to_minutes
time_to_minutes-lt s h m e = omega (arith, format_time-parse_time s h m e)

gates :
    (enabled internal unnamed : Bool) (x : String)
    → enabled ≡ true
    → internal ≡ true
    → unnamed ≡ false
    → (if not enabled then "" else (if not internal then "" else (if unnamed then "" else x))) ≡ x
gates enabled internal unnamed x p q r = rw (p, q, r) refl

when_all_parsed :
    (model : String) (utc : ℕ) (o : Option ℤ) (s e : Option (ℕ × ℕ)) (offset : ℤ) (st en : ℕ × ℕ)
    → o ≡ some offset
    → s ≡ some st
    → e ≡ some en
    → when_parsed model utc o s e ≡ model_in_window model utc offset st en
when_all_parsed model utc o s e offset st en p q r = rw (p, q, r) refl

named : (m : String) → m ≢ "" → str_eq m "" ≡ false
named m n = elim (Bool-cases (str_eq m "")) [ inl e ↦ absurd (n (str_eq→eq m "" e)) | inr e ↦ e ]

resolve-parsed :
    (m : ModelConfig) (hour minute : ℕ) (offset : ℤ) (sh sm eh em : ℕ)
    → m.peak_hour_enabled ≡ true
    → m.internal ≡ true
    → m.peak_hour_model ≢ ""
    → parse_utc_offset m.peak_hour_timezone ≡ some offset
    → parse_time m.peak_hour_start ≡ some (sh, sm)
    → parse_time m.peak_hour_end ≡ some (eh, em)
    → let utc = hour * 60 + minute in
      let local = local_minutes utc offset in
      let from = time_to_minutes sh sm in
      (resolve_peak_hour_model m hour minute ≡ (
        if ltb (minutes_until from local) (minutes_until from (time_to_minutes eh em))
        then m.peak_hour_model
        else ""))
      × ((local < 1440)
          × ((local + west_minutes offset) % 1440 ≡ (utc + east_minutes offset) % 1440))
unfolding resolve_peak_hour_model model_in_window
resolve-parsed m hour minute offset sh sm eh em p q n o s e = (
  gates m.peak_hour_enabled m.internal (str_eq m.peak_hour_model "") _ p q
        (named m.peak_hour_model n)
      ∙ (when_all_parsed m.peak_hour_model (hour * 60 + minute)
            (parse_utc_offset m.peak_hour_timezone) (parse_time m.peak_hour_start)
            (parse_time m.peak_hour_end) offset (sh, sm) (eh, em) o s e
          ∙ ap (λ b. if b then m.peak_hour_model else "")
              (is_within_window-around (local_minutes (hour * 60 + minute) offset)
                (time_to_minutes sh sm) (time_to_minutes eh em)
                (local_minutes-lt (hour * 60 + minute) offset)
                (time_to_minutes-lt m.peak_hour_start sh sm s)
                (time_to_minutes-lt m.peak_hour_end eh em e))),
  (local_minutes-lt (hour * 60 + minute) offset, local_minutes-shift (hour * 60 + minute) offset),
)

not_empty : (s : String) → str_eq s "" ≡ false → s ≢ ""
not_empty s h e = ground (arith, h, ap (λ x. str_eq x "") e, str_eq_refl "")

-- The reasons for which a model has no substitute at any time.
abbrev pub NoPeakHours : ModelConfig → Type 0
NoPeakHours m =
    (m.peak_hour_enabled ≡ false)
    ⊎ ((m.internal ≡ false)
        ⊎ ((m.peak_hour_model ≡ "")
            ⊎ ((parse_utc_offset m.peak_hour_timezone ≡ none)
                ⊎ ((parse_time m.peak_hour_start ≡ none) ⊎ (parse_time m.peak_hour_end ≡ none)))))

-- Peak hours that can be read, and the substitute around the clock.
pub record PeakHours (m : ModelConfig) (hour minute : ℕ) : Type 0 where
  pub offset : ℤ
  pub start : ℕ × ℕ
  pub end : ℕ × ℕ
  pub enabled : m.peak_hour_enabled ≡ true
  pub internal : m.internal ≡ true
  pub named : m.peak_hour_model ≢ ""
  pub zone : parse_utc_offset m.peak_hour_timezone ≡ some offset
  pub starts : parse_time m.peak_hour_start ≡ some start
  pub ends : parse_time m.peak_hour_end ≡ some end
  pub given :
      let local = local_minutes (hour * 60 + minute) offset in
      let from = time_to_minutes start.0 start.1 in
      resolve_peak_hour_model m hour minute ≡ (
        if ltb (minutes_until from local) (minutes_until from (time_to_minutes end.0 end.1))
        then m.peak_hour_model
        else "")
  pub on_clock : local_minutes (hour * 60 + minute) offset < 1440
  pub moved :
      (local_minutes (hour * 60 + minute) offset + west_minutes offset) % 1440
      ≡ (hour * 60 + minute + east_minutes offset) % 1440

withheld :
    (enabled internal unnamed : Bool) (x : String)
    → (enabled ≡ false) ⊎ ((internal ≡ false) ⊎ ((unnamed ≡ true) ⊎ (x ≡ "")))
    → (if not enabled then "" else (if not internal then "" else (if unnamed then "" else x))) ≡ ""
withheld false internal unnamed x h = refl
withheld true false unnamed x h = refl
withheld true true true x h = refl
withheld true true false x (inl h) = absurd (ground (arith, h))
withheld true true false x (inr (inl h)) = absurd (ground (arith, h))
withheld true true false x (inr (inr (inl h))) = absurd (ground (arith, h))
withheld true true false x (inr (inr (inr h))) = h

not_parsed :
    (model : String) (utc : ℕ) (o : Option ℤ) (s e : Option (ℕ × ℕ))
    → (o ≡ none) ⊎ ((s ≡ none) ⊎ (e ≡ none))
    → when_parsed model utc o s e ≡ ""
not_parsed model utc none s e h = refl
not_parsed model utc (some o) none e h = refl
not_parsed model utc (some o) (some s) none h = refl
not_parsed model utc (some o) (some s) (some e) (inl h) = absurd (ground (arith, h))
not_parsed model utc (some o) (some s) (some e) (inr (inl h)) = absurd (ground (arith, h))
not_parsed model utc (some o) (some s) (some e) (inr (inr h)) = absurd (ground (arith, h))

-- Why `withheld` applies.
reason :
    (m : ModelConfig) (utc : ℕ)
    → NoPeakHours m
    → (m.peak_hour_enabled ≡ false)
      ⊎ ((m.internal ≡ false)
          ⊎ ((str_eq m.peak_hour_model "" ≡ true)
              ⊎ (when_parsed m.peak_hour_model utc
                    (parse_utc_offset m.peak_hour_timezone)
                    (parse_time m.peak_hour_start)
                    (parse_time m.peak_hour_end)
                  ≡ "")))
reason m utc (inl h) = inl h
reason m utc (inr (inl h)) = inr (inl h)
reason m utc (inr (inr (inl h))) = inr (inr (inl (ap (λ x. str_eq x "") h ∙ str_eq_refl "")))
reason m utc (inr (inr (inr h))) = inr (inr (inr (not_parsed m.peak_hour_model utc _ _ _ h)))

resolve-NoPeakHours :
    (m : ModelConfig) (hour minute : ℕ) → NoPeakHours m → resolve_peak_hour_model m hour minute ≡ ""
unfolding resolve_peak_hour_model
resolve-NoPeakHours m hour minute h =
    withheld m.peak_hour_enabled m.internal (str_eq m.peak_hour_model "") _
      (reason m (hour * 60 + minute) h)

parsed-PeakHours :
    (m : ModelConfig) (hour minute : ℕ) (offset : ℤ) (start end : ℕ × ℕ)
    → m.peak_hour_enabled ≡ true
    → m.internal ≡ true
    → m.peak_hour_model ≢ ""
    → parse_utc_offset m.peak_hour_timezone ≡ some offset
    → parse_time m.peak_hour_start ≡ some start
    → parse_time m.peak_hour_end ≡ some end
    → PeakHours m hour minute
parsed-PeakHours m hour minute offset (sh, sm) (eh, em) p q n o s e =
    let r = resolve-parsed m hour minute offset sh sm eh em p q n o s e in
    record {
      offset = offset;
      start = (sh, sm);
      end = (eh, em);
      enabled = p;
      internal = q;
      named = n;
      zone = o;
      starts = s;
      ends = e;
      given = r.0;
      on_clock = r.1.0;
      moved = r.1.1;
    }

-- A model has no substitute for its peak hours when they are disabled, when it is not internal, when
-- none is named, or when the offset, the start or the end cannot be read. In every other case the
-- substitute is given exactly while the local time comes before the end, counted from the start around
-- the clock. The local time is the time in UTC moved by the offset, and a window from a time to itself
-- is empty.
pub resolve_peak_hour_model_lem :
    (m : ModelConfig) (hour minute : ℕ)
    → (NoPeakHours m × (resolve_peak_hour_model m hour minute ≡ "")) ⊎ PeakHours m hour minute
resolve_peak_hour_model_lem m hour minute = elim (Bool-cases m.peak_hour_enabled) [
  | inr h ↦ without (inl h)
  | inl p ↦ elim (Bool-cases m.internal) [
    | inr h ↦ without (inr (inl h))
    | inl q ↦ elim (Bool-cases (str_eq m.peak_hour_model "")) [
      | inl h ↦ without (inr (inr (inl (str_eq→eq m.peak_hour_model "" h))))
      | inr n ↦ elim (Option-cases (parse_utc_offset m.peak_hour_timezone)) [
        | inl h ↦ without (inr (inr (inr (inl h))))
        | inr (o, zone) ↦ elim (Option-cases (parse_time m.peak_hour_start)) [
          | inl h ↦ without (inr (inr (inr (inr (inl h)))))
          | inr (s, starts) ↦ elim (Option-cases (parse_time m.peak_hour_end)) [
            | inl h ↦ without (inr (inr (inr (inr (inr h)))))
            | inr (e, ends) ↦ inr (
                parsed-PeakHours m hour minute o s e p q (not_empty m.peak_hour_model n) zone starts
                  ends)
          ]
        ]
      ]
    ]
  ]
]
  where
    without :
        NoPeakHours m
        → (NoPeakHours m × (resolve_peak_hour_model m hour minute ≡ "")) ⊎ PeakHours m hour minute
    without h = inl (h, resolve-NoPeakHours m hour minute h)
