-- ===== src/Models/Clock.antt =====
-- pkg/models/peak_hours.go: times of the day as text.
use llm_supervisor_proxy.Models.PeakHours.{codes, is_digit, parse_codes, parse_time, two_digits}
use llm_supervisor_proxy.Support.{
  ℕ, zero, suc, ◌+◌, ◌*◌, ◌/◌, ◌%◌, ◌≤◌, ◌<◌, ◌≡◌, refl, sym, ap, ◌∙◌, true, ◌&&◌, String, List, [],
  ◌∷◌, some, leb, ◌==◌, Bool-cases, inl, inr, arith,
}
use Prim.Native.String.{char_at}
use Prim.Native.Char.{Char, code}

abbrev digit_char : ℕ → Char
digit_char n = char_at "0123456789" n

abbrev colon : Char
colon = char_at ":" 0

-- `%02d:%02d`.
unfoldable pub format_time : ℕ → ℕ → String
format_time h m = String.◌∷◌ (digit_char (h / 10)) (
    String.◌∷◌ (digit_char (h % 10)) (
      String.◌∷◌ colon
        (String.◌∷◌ (digit_char (m / 10)) (String.◌∷◌ (digit_char (m % 10)) String.[]))))

code-digit_char : (n : ℕ) → n < 10 → code (digit_char n) ≡ 48 + n
code-digit_char zero h = refl
code-digit_char (suc zero) h = refl
code-digit_char (suc (suc zero)) h = refl
code-digit_char (suc (suc (suc zero))) h = refl
code-digit_char (suc (suc (suc (suc zero)))) h = refl
code-digit_char (suc (suc (suc (suc (suc zero))))) h = refl
code-digit_char (suc (suc (suc (suc (suc (suc zero)))))) h = refl
code-digit_char (suc (suc (suc (suc (suc (suc (suc zero))))))) h = refl
code-digit_char (suc (suc (suc (suc (suc (suc (suc (suc zero)))))))) h = refl
code-digit_char (suc (suc (suc (suc (suc (suc (suc (suc (suc zero))))))))) h = refl
code-digit_char (suc (suc (suc (suc (suc (suc (suc (suc (suc (suc n)))))))))) h =
    absurd (omega (arith, h))

codes-format_time :
    (h m : ℕ)
    → h ≤ 23
    → m ≤ 59
    → codes (format_time h m)
      ≡ (48 + h / 10) ∷ (48 + h % 10) ∷ 58 ∷ (48 + m / 10) ∷ (48 + m % 10) ∷ []
unfolding codes format_time
codes-format_time h m p q =
    rw
      (
        code-digit_char (h / 10) (omega (arith, p)),
        code-digit_char (h % 10) (omega arith),
        code-digit_char (m / 10) (omega (arith, q)),
        code-digit_char (m % 10) (omega arith),
      )
      refl

parse_digits :
    (a b d e h m : ℕ)
    → a < 10
    → b < 10
    → d < 10
    → e < 10
    → a * 10 + b ≡ h
    → d * 10 + e ≡ m
    → h ≤ 23
    → m ≤ 59
    → parse_codes ((48 + a) ∷ (48 + b) ∷ 58 ∷ (48 + d) ∷ (48 + e) ∷ []) ≡ some (h, m)
unfolding parse_codes
parse_digits a b d e h m p q r s t u v w = ground (arith, p, q, r, s, t, u, v, w)

-- A time of the day that is written with two digits for the hour and two for the minute is read back.
pub parse_time-format_time :
    (h m : ℕ) → h ≤ 23 → m ≤ 59 → parse_time (format_time h m) ≡ some (h, m)
unfolding parse_time
parse_time-format_time h m p q =
    ap parse_codes (codes-format_time h m p q)
    ∙ parse_digits (h / 10) (h % 10) (m / 10) (m % 10) h m (omega (arith, p)) (omega arith)
        (omega (arith, q)) (omega arith) (omega arith) (omega arith) p q

digits_back :
    (a b h : ℕ)
    → is_digit a && is_digit b ≡ true
    → two_digits a b ≡ h
    → (a ≡ 48 + h / 10) × (b ≡ 48 + h % 10)
digits_back a b h p q = ground (arith, p, q)

five :
    {a b c d g a' b' d' g' : ℕ}
    → (a ≡ a') × (b ≡ b')
    → c ≡ 58
    → (d ≡ d') × (g ≡ g')
    → ◌≡◌ {A = List ℕ} (a ∷ b ∷ c ∷ d ∷ g ∷ []) (a' ∷ b' ∷ 58 ∷ d' ∷ g' ∷ [])
five (p, q) r (s, t) = rw (p, q, r, s, t) refl

parse_codes-range :
    (s : List ℕ) (h m : ℕ)
    → parse_codes s ≡ some (h, m)
    → (h ≤ 23)
      × ((m ≤ 59) × (s ≡ (48 + h / 10) ∷ (48 + h % 10) ∷ 58 ∷ (48 + m / 10) ∷ (48 + m % 10) ∷ []))
unfolding parse_codes
parse_codes-range [] h m e = absurd (ground (arith, e))
parse_codes-range (a ∷ []) h m e = absurd (ground (arith, e))
parse_codes-range (a ∷ b ∷ []) h m e = absurd (ground (arith, e))
parse_codes-range (a ∷ b ∷ c ∷ []) h m e = absurd (ground (arith, e))
parse_codes-range (a ∷ b ∷ c ∷ d ∷ []) h m e = absurd (ground (arith, e))
parse_codes-range (a ∷ b ∷ c ∷ d ∷ g ∷ f ∷ s) h m e = absurd (ground (arith, e))
parse_codes-range (a ∷ b ∷ c ∷ d ∷ g ∷ []) h m e =
    elim (Bool-cases (
      is_digit a
      && (is_digit b
          && ((c == 58)
              && (is_digit d
                  && (is_digit g && (leb (two_digits a b) 23 && leb (two_digits d g) 59))))))) [
                    | inl t ↦ (
                      ground (arith, t, e),
                      (
                        ground (arith, t, e),
                        five (digits_back a b h (ground (arith, t)) (ground (arith, t, e)))
                            (ground (arith, t))
                            (digits_back d g m (ground (arith, t)) (ground (arith, t, e))),
                      ),
                    )
                    | inr t ↦ absurd (ground (arith, t, e))
                  ]

-- A text that is read as a time stands for an hour up to 23 and a minute up to 59, and has exactly the
-- characters with which that time is written.
pub format_time-parse_time :
    (s : String) (h m : ℕ)
    → parse_time s ≡ some (h, m)
    → (h ≤ 23) × ((m ≤ 59) × (codes s ≡ codes (format_time h m)))
unfolding parse_time
format_time-parse_time s h m e =
    let found = parse_codes-range (codes s) h m e in
    (found.0, (found.1.0, found.1.1 ∙ sym (codes-format_time h m found.0 found.1.0)))
