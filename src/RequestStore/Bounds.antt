-- ===== src/RequestStore/Bounds.antt =====
-- pkg/store/memory.go: the accounting of bytes and the two bounds, for every sequence of calls.
use llm_supervisor_proxy.RequestStore.Size.{RequestLog, size}
use llm_supervisor_proxy.RequestStore.{
  Entry, RequestStore, add, add_found, append_entry, budget_loop, change_log, enforce_budget,
  entry_of, evict_list, evict_oldest, find, make_room, mutate, new_request_store, replace,
}
use llm_supervisor_proxy.Support.Int.{ℤ, pos, leb_ℤ, pos_part}
use llm_supervisor_proxy.Support.{
  ℕ, suc, ◌+◌, ◌-◌, ◌≤◌, Bool, true, false, ◌||◌, String, List, [], ◌∷◌, ◌++◌, Option, none, some,
  ltb, leb, arith, refl, sym, ap, ◌∙◌, ◌≡◌, ◌≢◌, inl, inr, length, length-append, Bool-cases,
  str_eq, if◌then◌else◌,
}

pub data StoreCall : Type 0 where
  add_call : RequestLog → StoreCall
  mutate_call : String → (RequestLog → RequestLog) → StoreCall

unfoldable pub call : StoreCall → RequestStore → RequestStore
call (add_call req) s = add req s
call (mutate_call id f) s = mutate id f s

unfoldable pub run_calls : List StoreCall → RequestStore → RequestStore
run_calls [] s = s
run_calls (c ∷ calls) s = run_calls calls (call c s)

unfoldable pub charges : List Entry → ℕ
charges [] = 0
charges (e ∷ entries) = e.charged + charges entries

abbrev pub IsPaid : ℕ × List Entry → Type 0
IsPaid (total, entries) = total ≡ charges entries

-- The limit on entries, where room for one is always made.
abbrev pub CountFits : ℕ → List Entry → Type 0
CountFits max entries = length entries ≤ suc (max - 1)

-- A budget of 0 or less is none.
abbrev pub bytes_fit : ℤ → ℕ → Bool
bytes_fit max total = leb_ℤ max (pos 0) || leb total (pos_part max)

pub charges-append : (xs ys : List Entry) → charges (xs ++ ys) ≡ charges xs + charges ys
unfolding charges
charges-append [] ys = omega arith
charges-append (x ∷ xs) ys = omega (arith, charges-append xs ys)

length-replace : (req : RequestLog) (es : List Entry) → length (replace req es) ≡ length es
unfolding replace
length-replace req [] = refl
length-replace req (e ∷ es) = elim (Bool-cases (str_eq e.log.id req.id)) [
  | inl h ↦ rw h refl
  | inr h ↦ rw h (omega (arith, length-replace req es))
]

none_ne : {x : Entry} → ◌≢◌ {A = Option Entry} none (some x)
none_ne p = ground (arith, p)

entry_of_some : Entry → Option Entry → Entry
entry_of_some e none = e
entry_of_some e (some x) = x

same_entry : {x y : Entry} → ◌≡◌ {A = Option Entry} (some x) (some y) → x ≡ y
unfolding entry_of_some
same_entry {x} p = ap (entry_of_some x) p

charges-replace :
    (req : RequestLog) (es : List Entry) (old : Entry)
    → find req.id es ≡ some old
    → charges (replace req es) + old.charged ≡ charges es + size req
unfolding charges replace find
charges-replace req [] old f = absurd (none_ne f)
charges-replace req (e ∷ es) old f = elim (Bool-cases (str_eq e.log.id req.id)) [
  | inl h ↦
      let same : e ≡ old =
        same_entry (ap (λ b. if b then some e else find req.id es) (sym h) ∙ f) in
      rw h (omega (arith, ap (λ x. x.charged) same))
  | inr h ↦
      let later : find req.id es ≡ some old =
        ap (λ b. if b then some e else find req.id es) (sym h) ∙ f in
      rw h (omega (arith, charges-replace req es old later))
]

length-change :
    (id : String) (f : RequestLog → RequestLog) (es : List Entry)
    → length (change_log id f es) ≡ length es
unfolding change_log
length-change id f [] = refl
length-change id f (e ∷ es) = elim (Bool-cases (str_eq e.log.id id)) [
  | inl h ↦ rw h refl
  | inr h ↦ rw h (omega (arith, length-change id f es))
]

charges-change :
    (id : String) (f : RequestLog → RequestLog) (es : List Entry)
    → charges (change_log id f es) ≡ charges es
unfolding charges change_log
charges-change id f [] = refl
charges-change id f (e ∷ es) = elim (Bool-cases (str_eq e.log.id id)) [
  | inl h ↦ rw h refl
  | inr h ↦ rw h (omega (arith, charges-change id f es))
]

-- What the loop leaves: a paid total within the budget, and no more entries than before.
record Left (max before : ℕ) (r : ℕ × List Entry) : Type 0 where
  left_paid : IsPaid r
  left_fits : leb (r.0) max ≡ true
  left_count : length (r.1) ≤ before

by_test :
    (b : Bool) (max n : ℕ) (r k : ℕ × List Entry)
    → (b ≡ true → Left max n r)
    → (b ≡ false → Left max n k)
    → Left max n (if b then r else k)
by_test true max n r k f g = f refl
by_test false max n r k f g = g refl

budget_loop-Left :
    (max total : ℕ) (es : List Entry)
    → IsPaid (total, es)
    → Left max (length es) (budget_loop max total es)
unfolding budget_loop charges
budget_loop-Left max total [] paid = record {
  left_paid = paid;
  left_fits = ground (arith, paid);
  left_count = omega arith;
}
budget_loop-Left max total (e ∷ es) paid =
    let rest = budget_loop-Left max (total - e.charged) es (omega (arith, paid)) in
    by_test (ltb max total) max (suc (length es)) (budget_loop max (total - e.charged) es)
      (total, e ∷ es)
      (λ h. record {
        left_paid = rest.left_paid;
        left_fits = rest.left_fits;
        left_count = omega (arith, rest.left_count);
      })
      (λ h. record { left_paid = paid; left_fits = ground (arith, h); left_count = omega arith })

-- A store in order: its total is what its entries are charged, and both limits hold.
pub record IsBounded (s : RequestStore) : Type 0 where
  pub paid : s.total_bytes ≡ charges s.requests
  pub fits : bytes_fit s.max_bytes s.total_bytes ≡ true
  pub count : CountFits s.max_size s.requests

enforce_budget-IsBounded :
    (s : RequestStore)
    → s.total_bytes ≡ charges s.requests
    → CountFits s.max_size s.requests
    → IsBounded (enforce_budget s)
unfolding enforce_budget
enforce_budget-IsBounded s paid count = elim (Bool-cases (leb_ℤ s.max_bytes (pos 0))) [
  | inl h ↦ rw h (record { paid = paid; fits = rw h refl; count = count })
  | inr h ↦
      let l = budget_loop-Left (pos_part s.max_bytes) s.total_bytes s.requests paid in
      rw h (record {
        paid = l.left_paid;
        fits = rw h (l.left_fits);
        count = omega (arith, l.left_count, count);
      })
]

evicted-count :
    (max total : ℕ) (es : List Entry)
    → length es ≤ suc (max - 1)
    → suc (length ((evict_list total es).1)) ≤ suc (max - 1)
evicted-count max total [] h = omega arith
evicted-count max total (e ∷ es) h = omega (arith, h)

pub evicted-paid :
    (total : ℕ) (es : List Entry)
    → total ≡ charges es
    → (evict_list total es).0 ≡ charges ((evict_list total es).1)
unfolding charges
evicted-paid total [] h = h
evicted-paid total (e ∷ es) h = omega (arith, h)

appended-IsBounded :
    (req : RequestLog) (s : RequestStore)
    → s.total_bytes ≡ charges s.requests
    → suc (length s.requests) ≤ suc (s.max_size - 1)
    → IsBounded (enforce_budget (append_entry req s))
unfolding append_entry charges
appended-IsBounded req s paid room =
    enforce_budget-IsBounded (append_entry req s)
      (omega (arith, charges-append s.requests (entry_of req ∷ []), paid))
      (omega (arith, length-append s.requests (entry_of req ∷ []), room))

evict_oldest-IsBounded :
    (req : RequestLog) (s : RequestStore)
    → IsBounded s
    → IsBounded (enforce_budget (append_entry req (evict_oldest s)))
unfolding evict_oldest
evict_oldest-IsBounded req s b =
    appended-IsBounded req (evict_oldest s) (evicted-paid s.total_bytes s.requests b.paid)
      (evicted-count s.max_size s.total_bytes s.requests b.count)

add_new-IsBounded :
    (req : RequestLog) (s : RequestStore)
    → IsBounded s
    → IsBounded (enforce_budget (append_entry req (make_room s)))
unfolding make_room
add_new-IsBounded req s b = elim (Bool-cases (leb s.max_size (length s.requests))) [
  | inl h ↦ rw h (evict_oldest-IsBounded req s b)
  | inr h ↦ rw h (appended-IsBounded req s b.paid (ground (arith, h)))
]

add_found-IsBounded :
    (o : Option Entry) (req : RequestLog) (s : RequestStore)
    → find req.id s.requests ≡ o
    → IsBounded s
    → IsBounded (add_found o req s)
add_found-IsBounded none req s f b = add_new-IsBounded req s b
add_found-IsBounded (some old) req s f b =
    enforce_budget-IsBounded
      (record s {
        requests = replace req s.requests;
        total_bytes = s.total_bytes + size req - old.charged;
      })
      (omega (arith, charges-replace req s.requests old f, b.paid))
      (omega (arith, length-replace req s.requests, b.count))

call-IsBounded : (c : StoreCall) (s : RequestStore) → IsBounded s → IsBounded (call c s)
unfolding call add mutate
call-IsBounded (add_call req) s b =
    add_found-IsBounded (find req.id s.requests) req (record s { app_tags_cache_dirty = true }) refl
      (record { paid = b.paid; fits = b.fits; count = b.count })
call-IsBounded (mutate_call id f) s b = record {
  paid = b.paid ∙ sym (charges-change id f s.requests);
  fits = b.fits;
  count = omega (arith, length-change id f s.requests, b.count);
}

empty_fits : (max : ℤ) → bytes_fit max 0 ≡ true
empty_fits max = ground arith

pub run_calls-IsBounded :
    (calls : List StoreCall) (s : RequestStore) → IsBounded s → IsBounded (run_calls calls s)
unfolding run_calls
run_calls-IsBounded [] s b = b
run_calls-IsBounded (c ∷ calls) s b = run_calls-IsBounded calls (call c s) (call-IsBounded c s b)

abbrev pub after_calls : ℕ → ℤ → List StoreCall → RequestStore
after_calls max_size max_bytes calls = run_calls calls (new_request_store max_size max_bytes)

abbrev pub SameLimits : RequestStore → RequestStore → Type 0
SameLimits s t = (s.max_size ≡ t.max_size) × (s.max_bytes ≡ t.max_bytes)

follow_limits : (s t u : RequestStore) → SameLimits s t → SameLimits t u → SameLimits s u
follow_limits s t u (a, b) (c, d) = (a ∙ c, b ∙ d)

enforce_budget-SameLimits : (s : RequestStore) → SameLimits (enforce_budget s) s
unfolding enforce_budget
enforce_budget-SameLimits s = elim (Bool-cases (leb_ℤ s.max_bytes (pos 0))) [
  | inl h ↦ rw h (refl, refl)
  | inr h ↦ rw h (refl, refl)
]

pub make_room-SameLimits : (s : RequestStore) → SameLimits (make_room s) s
unfolding make_room evict_oldest
make_room-SameLimits s = elim (Bool-cases (leb s.max_size (length s.requests))) [
  | inl h ↦ rw h (refl, refl)
  | inr h ↦ rw h (refl, refl)
]

add_found-SameLimits :
    (o : Option Entry) (req : RequestLog) (s : RequestStore) → SameLimits (add_found o req s) s
unfolding append_entry
add_found-SameLimits none req s =
    follow_limits (add_found none req s) (append_entry req (make_room s)) s
      (enforce_budget-SameLimits (append_entry req (make_room s))) (make_room-SameLimits s)
add_found-SameLimits (some old) req s = enforce_budget-SameLimits (record s {
  requests = replace req s.requests;
  total_bytes = s.total_bytes + size req - old.charged;
})

call-SameLimits : (c : StoreCall) (s : RequestStore) → SameLimits (call c s) s
unfolding call add mutate
call-SameLimits (add_call req) s =
    add_found-SameLimits (find req.id s.requests) req (record s { app_tags_cache_dirty = true })
call-SameLimits (mutate_call id f) s = (refl, refl)

run_calls-SameLimits :
    (calls : List StoreCall) (s : RequestStore) → SameLimits (run_calls calls s) s
unfolding run_calls
run_calls-SameLimits [] s = (refl, refl)
run_calls-SameLimits (c ∷ calls) s =
    follow_limits (run_calls (c ∷ calls) s) (call c s) s (run_calls-SameLimits calls (call c s))
      (call-SameLimits c s)

-- Whatever sequence of `Add` calls and of changes that callers make to logs they have handed over,
-- the limits stay those the store was made with, the running total is the sum of what the entries
-- were last charged, it is within the budget of bytes unless that is 0 or less, and there are at
-- most as many entries as the limit, or one if it is 0.
pub store_bounds :
    (max_size : ℕ) (max_bytes : ℤ) (calls : List StoreCall)
    → IsBounded (after_calls max_size max_bytes calls)
      × SameLimits (after_calls max_size max_bytes calls) (new_request_store max_size max_bytes)
unfolding new_request_store charges
store_bounds max_size max_bytes calls = (
  run_calls-IsBounded calls (new_request_store max_size max_bytes)
      (record { paid = refl; fits = empty_fits max_bytes; count = omega arith }),
  run_calls-SameLimits calls (new_request_store max_size max_bytes),
)
