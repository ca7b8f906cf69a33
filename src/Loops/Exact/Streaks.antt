-- ===== src/Loops/Exact/Streaks.antt =====
-- pkg/loopdetection/strategy_exact.go: a streak is reported exactly if there is one.
use mathlib.Core.List.{append_assoc}
use llm_supervisor_proxy.Support.{
  ℕ, suc, ◌+◌, ◌<◌, ◌≤◌, ◌≡◌, refl, sym, ap, Bool, true, false, ◌&&◌, List, [], ◌∷◌, ◌++◌, Option,
  none, some, ltb, leb, length, length-append, arith, Bool-cases, inl, inr, subst,
}
use llm_supervisor_proxy.Loops.Exact.{
  TextMessage, assistant_messages, same_message, streak_loop, scan, analyze_exact,
}

-- Each message is the same as the one before it.
unfoldable pub all_like : TextMessage → List TextMessage → Bool
all_like before [] = true
all_like before (m ∷ messages) = same_message m before && all_like m messages

abbrev pub is_found : Option (TextMessage × ℕ) → Bool
is_found none = false
is_found (some r) = true

unfoldable pub last_of : TextMessage → List TextMessage → TextMessage
last_of m [] = m
last_of m (x ∷ xs) = last_of x xs

-- A streak of `n` messages in a row somewhere in the list, of which `last` is the last.
abbrev pub StreakOf : TextMessage → ℕ → List TextMessage → Type 0
StreakOf last n messages =
    (front : List TextMessage) × (m : TextMessage) × (like : List TextMessage) × (back : List
      TextMessage)
    × (messages ≡ front ++ (m ∷ (like ++ back)))
    × (all_like m like ≡ true)
    × (last_of m like ≡ last)
    × (suc (length like) ≡ n)

abbrev pub Streak : ℕ → List TextMessage → Type 0
Streak n messages = (last : TextMessage) × StreakOf last n messages

-- A streak that goes on is found once it is long enough.
streak_on :
    (k count : ℕ) (before : TextMessage) (like back : List TextMessage)
    → all_like before like ≡ true
    → 0 < length like
    → k ≤ count + length like
    → is_found (streak_loop k count before (like ++ back)) ≡ true
unfolding streak_loop all_like
streak_on k count before [] back a h l = absurd (omega (arith, h))
streak_on k count before (x ∷ []) back a h l = ground (arith, a, l)
streak_on k count before (x ∷ y ∷ like) back a h l =
    ground (arith, a, l, streak_on k (suc count) x (y ∷ like) back)

-- A streak of two messages or more that is still to come is found.
streak_ahead :
    (k count : ℕ) (before m : TextMessage) (front like back : List TextMessage)
    → all_like m like ≡ true
    → 0 < length like
    → k ≤ suc (length like)
    → is_found (streak_loop k count before (front ++ (m ∷ (like ++ back)))) ≡ true
unfolding streak_loop
streak_ahead k count before m [] like back a h l =
    ground (arith, streak_on k 1 m like back a h, streak_on k (suc count) m like back a h, l)
streak_ahead k count before m (x ∷ front) like back a h l = ground (
  arith,
  streak_ahead k 1 x m front like back a h l,
  streak_ahead k (suc count) x m front like back a h l,
)

all_like-snoc :
    (f m : TextMessage) (like : List TextMessage)
    → all_like f like ≡ true
    → same_message m (last_of f like) ≡ true
    → all_like f (like ++ m ∷ []) ≡ true
unfolding all_like last_of
all_like-snoc f m [] a s = ground (arith, s)
all_like-snoc f m (x ∷ like) a s = ground (arith, a, all_like-snoc x m like, s)

last_of-snoc : (f m : TextMessage) (like : List TextMessage) → last_of f (like ++ m ∷ []) ≡ m
unfolding last_of
last_of-snoc f m [] = refl
last_of-snoc f m (x ∷ like) = last_of-snoc x m like

-- What a report promises of the messages.
abbrev pub Reported : ℕ → List TextMessage → Option (TextMessage × ℕ) → Type 0
Reported k messages none = Unit
Reported k messages (some (m, n)) = StreakOf m n messages × (k ≤ n)

moved :
    (k : ℕ) (rest : List TextMessage) {xs ys : List TextMessage} {c d : ℕ} {b e : TextMessage}
    → xs ≡ ys
    → c ≡ d
    → b ≡ e
    → Reported k xs (streak_loop k c b rest)
    → Reported k ys (streak_loop k d e rest)
moved k rest {xs} {ys} {c} {d} {b} {e} p q r h =
    subst (λ x. Reported k ys (streak_loop k d x rest)) r
      (subst (λ n. Reported k ys (streak_loop k n b rest)) q
        (subst (λ l. Reported k l (streak_loop k c b rest)) p h))

-- The loop, after `front` and a streak of `f` and `like` so far.
streak_loop-Reported :
    (k : ℕ) (front : List TextMessage) (f : TextMessage) (like rest : List TextMessage)
    → all_like f like ≡ true
    → Reported k
        (front ++ (f ∷ (like ++ rest)))
        (streak_loop k (suc (length like)) (last_of f like) rest)
unfolding streak_loop all_like last_of
streak_loop-Reported k front f like [] a = tt
streak_loop-Reported k front f like (m ∷ rest) a =
    elim (Bool-cases (same_message m (last_of f like))) [
      | inl e ↦ elim (Bool-cases (leb k (suc (suc (length like))))) [
        | inl h ↦
            rw (e, h)
              (
                (
                  front,
                  f,
                  like ++ m ∷ [],
                  rest,
                  joined,
                  all_like-snoc f m like a e,
                  last_of-snoc f m like,
                  longer_by_one,
                ),
                ground (arith, h),
              )
        | inr h ↦
            rw (e, h)
              (moved k rest (sym joined) longer_by_one (last_of-snoc f m like)
                (streak_loop-Reported k front f (like ++ m ∷ []) rest (all_like-snoc f m like a e)))
      ]
      | inr e ↦ elim (Bool-cases (leb k 1)) [
        | inl h ↦
            rw (e, h) ((front ++ f ∷ like, m, [], rest, apart, refl, refl, refl), ground (arith, h))
        | inr h ↦
            rw (e, h)
              (moved k rest (sym apart) refl refl
                (streak_loop-Reported k (front ++ f ∷ like) m [] rest refl))
      ]
    ]
  where
    joined : front ++ (f ∷ (like ++ m ∷ rest)) ≡ front ++ (f ∷ ((like ++ m ∷ []) ++ rest))
    joined = ap (λ l. front ++ (f ∷ l)) (sym (append_assoc like (m ∷ []) rest))

    longer_by_one : suc (length (like ++ m ∷ [])) ≡ suc (suc (length like))
    longer_by_one = omega (arith, length-append like (m ∷ []))

    apart : front ++ (f ∷ (like ++ m ∷ rest)) ≡ (front ++ f ∷ like) ++ (m ∷ rest)
    apart = sym (append_assoc front (f ∷ like) (m ∷ rest))

scan-Reported : (k : ℕ) (messages : List TextMessage) → Reported k messages (scan k messages)
unfolding scan all_like last_of
scan-Reported k [] = tt
scan-Reported k (m ∷ messages) = streak_loop-Reported k [] m [] messages refl

scan-found :
    (k : ℕ) (front like back : List TextMessage) (m : TextMessage)
    → all_like m like ≡ true
    → 2 ≤ k
    → suc (length like) ≡ k
    → is_found (scan k (front ++ (m ∷ (like ++ back)))) ≡ true
unfolding scan
scan-found k [] like back m a h l =
    streak_on k 1 m like back a (omega (arith, h, l)) (omega (arith, l))
scan-found k (x ∷ front) like back m a h l =
    streak_ahead k 1 x m front like back a (omega (arith, h, l)) (omega (arith, l))

-- A reported message is the last of a streak among the eligible messages of the window, each the same
-- as the one before in hash and content, of the reported length, which is at least the configured one.
pub analyze_exact-Reported :
    (k : ℕ) (messages : List TextMessage)
    → Reported k (assistant_messages messages) (analyze_exact k messages)
unfolding analyze_exact
analyze_exact-Reported k messages = elim (Bool-cases (ltb (length messages) k)) [
  | inl e ↦ rw e tt
  | inr e ↦ elim (Bool-cases (ltb (length (assistant_messages messages)) k)) [
    | inl h ↦ rw (e, h) tt
    | inr h ↦ rw (e, h) (scan-Reported k (assistant_messages messages))
  ]
]

length-assistant_messages :
    (messages : List TextMessage) → length (assistant_messages messages) ≤ length messages
unfolding assistant_messages
length-assistant_messages [] = omega arith
length-assistant_messages (m ∷ messages) = ground (arith, length-assistant_messages messages)

analyze_exact-is_found :
    (k : ℕ) (messages : List TextMessage)
    → 2 ≤ k
    → Streak k (assistant_messages messages)
    → is_found (analyze_exact k messages) ≡ true
unfolding analyze_exact
analyze_exact-is_found k messages h (last, (front, m, like, back, e, a, l, n)) =
    rw (enough_messages, enough_eligible, e) (scan-found k front like back m a h n)
  where
    long : k ≤ length (assistant_messages messages)
    long =
        omega
          (arith, n, ap length e, length-append front (m ∷ (like ++ back)), length-append like back)

    enough_messages : ltb (length messages) k ≡ false
    enough_messages = ground (arith, long, length-assistant_messages messages)

    enough_eligible : ltb (length (assistant_messages messages)) k ≡ false
    enough_eligible = ground (arith, long)

-- The report that a result holds.
the_report :
    (k : ℕ) (messages : List TextMessage) (o : Option (TextMessage × ℕ))
    → is_found o ≡ true
    → Reported k messages o
    → (m : TextMessage) × (n : ℕ) × (o ≡ some (m, n)) × StreakOf m n messages × (k ≤ n)
the_report k messages none f r = absurd (ground (arith, f))
the_report k messages (some (m, n)) f (streak, long) = (m, n, refl, streak, long)

-- If the eligible messages of the window hold a streak of the configured length, two at least, then a
-- message is reported that is the last of a streak among them, of the reported length, which is at
-- least the configured one. With several streaks it need not be the given one.
pub analyze_exact-found :
    (k : ℕ) (messages : List TextMessage)
    → 2 ≤ k
    → Streak k (assistant_messages messages)
    → (m : TextMessage) × (n : ℕ) × (analyze_exact k messages ≡ some (m, n))
      × StreakOf m n (assistant_messages messages)
      × (k ≤ n)
analyze_exact-found k messages h streak =
    the_report k (assistant_messages messages) (analyze_exact k messages)
      (analyze_exact-is_found k messages h streak) (analyze_exact-Reported k messages)
