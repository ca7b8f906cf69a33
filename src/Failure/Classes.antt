-- ===== src/Failure/Classes.antt =====
-- pkg/proxy/race_reason.go: what the class of a failure says of its status, and the size of its text.
use llm_supervisor_proxy.Failure.{Error, is_rate_limit_error}
use llm_supervisor_proxy.Failure.Reason.{
  ReasonClass, FailureReason, reason_of, rate_limit, auth, conflict, upstream_4xx, upstream_5xx,
  timeout, connection, proxy_internal, cancelled, unknown, classify_attempt_failure,
  classify_is_timeout, classify_is_connection, classify_is_proxy_internal, reason_class,
  resolve_status, sanitize_reason_detail, status_class, take_runes, text_class,
  truncate_reason_runes,
}
use llm_supervisor_proxy.Support.Int.{ℤ, pos, eq_ℤ, leb_ℤ, ltb_ℤ, eq_ℤ→eq}
use llm_supervisor_proxy.Support.{
  ℕ, zero, suc, ◌+◌, ◌≤◌, ◌≡◌, ◌⊎◌, refl, Bool, true, false, ◌||◌, String, some, Bool-cases, inl,
  inr, arith,
}
use Prim.Native.String.{count}
use text.Mathlib.TextLemmas.{length-append, length-cons, length-nil}

count-take_runes : (n : ℕ) (s : String) → count (take_runes n s) ≤ n
unfolding take_runes
count-take_runes zero s = omega (arith, length-nil)
count-take_runes (suc n) String.[] = omega (arith, length-nil)
count-take_runes (suc n) (String.◌∷◌ c s) =
    omega (arith, count-take_runes n s, length-cons c (take_runes n s))

count-truncate : (s : String) (max : ℕ) → count (truncate_reason_runes s (suc max)) ≤ suc max + 1
unfolding truncate_reason_runes
count-truncate s max =
    ground (arith, count-take_runes (suc max) s, length-append (take_runes (suc max) s) "…")

count-sanitize : (hide : String → String) (s : String) → count (sanitize_reason_detail hide s) ≤ 161
unfolding sanitize_reason_detail
count-sanitize hide s = count-truncate (hide s) 159

-- What each class stands for, of the error and its status, with the tests that come before it.
abbrev Plain : Error → Type 0
Plain err = is_rate_limit_error err ≡ false

abbrev Unserved : Error → ℤ → Type 0
Unserved err s = Plain err × (ltb_ℤ (pos 0) s ≡ false)

abbrev pub Fits : Error → ReasonClass → ℤ → Type 0
Fits err rate_limit s = (is_rate_limit_error err ≡ true) ⊎ (s ≡ pos 429)
Fits err auth s = Plain err × ((s ≡ pos 401) ⊎ (s ≡ pos 403))
Fits err conflict s = Plain err × (s ≡ pos 409)
Fits err upstream_5xx s = Plain err × (leb_ℤ (pos 500) s ≡ true)
Fits err upstream_4xx s =
    Plain err
    × (leb_ℤ (pos 400) s ≡ true)
    × (leb_ℤ (pos 500) s ≡ false)
    × (eq_ℤ s (pos 429) ≡ false)
    × (eq_ℤ s (pos 401) ≡ false)
    × (eq_ℤ s (pos 403) ≡ false)
    × (eq_ℤ s (pos 409) ≡ false)
Fits err timeout s = Unserved err s × (classify_is_timeout err ≡ true)
Fits err connection s =
    Unserved err s × (classify_is_timeout err ≡ false) × (classify_is_connection err ≡ true)
Fits err proxy_internal s =
    Unserved err s
    × (classify_is_timeout err ≡ false)
    × (classify_is_connection err ≡ false)
    × (classify_is_proxy_internal err.text ≡ true)
Fits err unknown s =
    Plain err
    × (leb_ℤ (pos 400) s ≡ false)
    × ((ltb_ℤ (pos 0) s ≡ true)
        ⊎ ((classify_is_timeout err ≡ false)
            × (classify_is_connection err ≡ false)
            × (classify_is_proxy_internal err.text ≡ false)))
Fits err cancelled s = ⊥

neither_left : (a b : Bool) → a || b ≡ false → a ≡ false
neither_left a b h = ground (arith, h)

neither_right : (a b : Bool) → a || b ≡ false → b ≡ false
neither_right a b h = ground (arith, h)

either_auth : (s : ℤ) → eq_ℤ s (pos 401) || eq_ℤ s (pos 403) ≡ true → (s ≡ pos 401) ⊎ (s ≡ pos 403)
either_auth s h = elim (Bool-cases (eq_ℤ s (pos 401))) [
  | inl e ↦ inl (eq_ℤ→eq s (pos 401) e)
  | inr e ↦ inr (eq_ℤ→eq s (pos 403) (ground (arith, e, h)))
]

status_class-Fits :
    (err : Error) (s : ℤ)
    → is_rate_limit_error err ≡ false
    → ltb_ℤ (pos 0) s ≡ true
    → Fits err (status_class s) s
unfolding status_class
status_class-Fits err s p n = elim (Bool-cases (eq_ℤ s (pos 429))) [
  | inl a ↦ rw a (inr (eq_ℤ→eq s (pos 429) a))
  | inr a ↦ elim (Bool-cases (eq_ℤ s (pos 401) || eq_ℤ s (pos 403))) [
    | inl b ↦ rw (a, b) (p, either_auth s b)
    | inr b ↦ elim (Bool-cases (eq_ℤ s (pos 409))) [
      | inl c ↦ rw (a, b, c) (p, eq_ℤ→eq s (pos 409) c)
      | inr c ↦ elim (Bool-cases (leb_ℤ (pos 500) s)) [
        | inl d ↦ rw (a, b, c, d) (p, d)
        | inr d ↦ elim (Bool-cases (leb_ℤ (pos 400) s)) [
          | inl e ↦ rw (a, b, c, d, e) (p, e, d, a, neither_left _ _ b, neither_right _ _ b, c)
          | inr e ↦ rw (a, b, c, d, e) (p, e, inl n)
        ]
      ]
    ]
  ]
]

below_errors : (s : ℤ) → ltb_ℤ (pos 0) s ≡ false → leb_ℤ (pos 400) s ≡ false
below_errors s h = ground (arith, h)

text_class-Fits :
    (err : Error) (s : ℤ)
    → is_rate_limit_error err ≡ false
    → ltb_ℤ (pos 0) s ≡ false
    → Fits err (text_class err) s
unfolding text_class
text_class-Fits err s p h = elim (Bool-cases (classify_is_timeout err)) [
  | inl a ↦ rw a ((p, h), a)
  | inr a ↦ elim (Bool-cases (classify_is_connection err)) [
    | inl b ↦ rw (a, b) ((p, h), a, b)
    | inr b ↦ elim (Bool-cases (classify_is_proxy_internal err.text)) [
      | inl c ↦ rw (a, b, c) ((p, h), a, b, c)
      | inr c ↦ rw (a, b, c) (p, below_errors s h, inr (a, b, c))
    ]
  ]
]

reason_class-Fits : (err : Error) (s : ℤ) → Fits err (reason_class err s) s
unfolding reason_class
reason_class-Fits err s = elim (Bool-cases (is_rate_limit_error err)) [
  | inl a ↦ rw a (inl a)
  | inr a ↦ elim (Bool-cases (ltb_ℤ (pos 0) s)) [
    | inl b ↦ rw (a, b) (status_class-Fits err s a b)
    | inr b ↦ rw (a, b) (text_class-Fits err s a b)
  ]
]

-- What a report says of the error of an attempt; the flag is the error's `is_canceled`.
abbrev pub Describes : Bool → Error → ℤ → FailureReason → Type 0
Describes true err stored reason = (reason.class ≡ cancelled) × (reason.status ≡ pos 0)
Describes false err stored reason =
    Fits err reason.class reason.status × (reason.status ≡ resolve_status err stored)

reason_of-Describes :
    (hide : String → String) (err : Error) (stored : ℤ) (canceled : Bool)
    → let reason = reason_of canceled err stored (sanitize_reason_detail hide err.text) in
      Describes canceled err stored reason × (count reason.detail ≤ 161)
reason_of-Describes hide err stored true = ((refl, refl), count-sanitize hide err.text)
reason_of-Describes hide err stored false =
    ((reason_class-Fits err (resolve_status err stored), refl), count-sanitize hide err.text)

-- The report of an error. A cancelled one is classed as such, under the status 0. Any other has the
-- status of the attempt, of the provider's error or of the text, and one class by the first test that
-- holds: rate limited, by the error or by 429; 401 or 403 for auth; 409 for a conflict; from 500 on and
-- the rest from 400 on for the two upstream classes; without a positive status, a timeout, a failed
-- connection or a fault of the proxy, each by its test of the error; else unknown. The text has at
-- most 161 runes, whatever the expressions that hide secrets make of it.
pub classify_attempt_failure_lem :
    (hide : String → String) (err : Error) (stored : ℤ)
    → let reason = classify_attempt_failure hide (some err) stored in
      Describes err.is_canceled err stored reason × (count reason.detail ≤ 161)
unfolding classify_attempt_failure
classify_attempt_failure_lem hide err stored = reason_of-Describes hide err stored err.is_canceled
