-- ===== src/RequestStore/Eviction.antt =====
-- pkg/store/memory.go: what Add leaves of a new request and of the older ones.
use llm_supervisor_proxy.RequestStore.Bounds.{
  charges, charges-append, bytes_fit, evicted-paid, make_room-SameLimits,
}
use llm_supervisor_proxy.RequestStore.Size.{RequestLog, size}
use llm_supervisor_proxy.RequestStore.{
  Entry, RequestStore, add, append_entry, budget_loop, enforce_budget, add_found, entry_of,
  evict_list, evict_oldest, find, get, make_room,
}
use llm_supervisor_proxy.Support.Int.{pos, leb_ℤ, pos_part}
use llm_supervisor_proxy.Support.{
  ℕ, zero, suc, ◌+◌, ◌-◌, ◌≤◌, Bool, true, false, String, List, [], ◌∷◌, ◌++◌, Option, none, some,
  arith, refl, ◌≢◌, sym, ap, ◌∙◌, ◌≡◌, inl, inr, length, length-append, Bool-cases, ltb, leb,
  str_eq, str_eq_refl, if◌then◌else◌,
}

-- The entries after `n` evictions.
unfoldable pub drop : ℕ → List Entry → List Entry
drop zero es = es
drop (suc n) [] = []
drop (suc n) (e ∷ es) = drop n es

-- The entry that went last did not fit together with those that stay.
abbrev pub Needed : ℕ → List Entry → ℕ → Type 0
Needed max before zero = Unit {0}
Needed max before (suc n) = suc max ≤ charges (drop n before)

-- What a budget lets stay: the first `n` entries are gone.
pub record Evicted (max : ℕ) (before after : List Entry) (n : ℕ) : Type 0 where
  pub rest : after ≡ drop n before
  pub needed : Needed max before n
  pub enough : charges after ≤ max

some_ne : {x : Entry} → ◌≢◌ {A = Option Entry} (some x) none
some_ne p = ground (arith, p)

abbrev pub EvictsTo : ℕ → List Entry → List Entry → Type 0
EvictsTo max before after = (n : ℕ) × Evicted max before after n

choose_evicted :
    (b : Bool) (max : ℕ) (before : List Entry) (r k : ℕ × List Entry)
    → (b ≡ true → EvictsTo max before (r.1))
    → (b ≡ false → EvictsTo max before (k.1))
    → EvictsTo max before ((if b then r else k).1)
choose_evicted true max before r k f g = f refl
choose_evicted false max before r k f g = g refl

next_evicted :
    (max : ℕ) (e : Entry) (es after : List Entry)
    → suc max ≤ charges (e ∷ es)
    → EvictsTo max es after
    → EvictsTo max (e ∷ es) after
unfolding drop
next_evicted max e es after over (zero, v) =
    (1, record { rest = v.rest; needed = over; enough = v.enough })
next_evicted max e es after over (suc n, v) =
    (suc (suc n), record { rest = v.rest; needed = v.needed; enough = v.enough })

budget_loop-Evicted :
    (max total : ℕ) (es : List Entry)
    → total ≡ charges es
    → EvictsTo max es ((budget_loop max total es).1)
unfolding budget_loop charges drop
budget_loop-Evicted max total [] paid =
    (0, record { rest = refl; needed = tt; enough = omega arith })
budget_loop-Evicted max total (e ∷ es) paid =
    choose_evicted (ltb max total) max (e ∷ es) (budget_loop max (total - e.charged) es)
      (total, e ∷ es)
      (λ h.
        next_evicted max e es ((budget_loop max (total - e.charged) es).1) (ground (arith, h, paid))
          (budget_loop-Evicted max (total - e.charged) es (omega (arith, paid))))
      (λ h. (0, record { rest = refl; needed = tt; enough = ground (arith, h, paid) }))

find-appended :
    (id : String) (n : ℕ) (es : List Entry) (x : Entry)
    → n ≤ length es
    → find id es ≡ none
    → str_eq x.log.id id ≡ true
    → find id (drop n (es ++ x ∷ [])) ≡ some x
unfolding find drop
find-appended id zero [] x h f e = rw e refl
find-appended id (suc n) [] x h f e = absurd (omega (arith, h))
find-appended id zero (y ∷ es) x h f e = elim (Bool-cases (str_eq y.log.id id)) [
  | inl k ↦ absurd (some_ne (ap (λ b. if b then some y else find id es) (sym k) ∙ f))
  | inr k ↦ rw k (
      find-appended id 0 es x (omega arith) (ap (λ b. if b then some y else find id es) (sym k) ∙ f)
        e)
]
find-appended id (suc n) (y ∷ es) x h f e = elim (Bool-cases (str_eq y.log.id id)) [
  | inl k ↦ absurd (some_ne (ap (λ b. if b then some y else find id es) (sym k) ∙ f))
  | inr k ↦
      find-appended id n es x (omega (arith, h))
        (ap (λ b. if b then some y else find id es) (sym k) ∙ f) e
]

drop-all : (n : ℕ) (es : List Entry) → length es ≤ n → drop n es ≡ []
unfolding drop
drop-all zero [] h = refl
drop-all zero (e ∷ es) h = absurd (omega (arith, h))
drop-all (suc n) [] h = refl
drop-all (suc n) (e ∷ es) h = drop-all n es (omega (arith, h))

charges-appended_gt :
    (n : ℕ) (es : List Entry) (x : Entry)
    → n ≤ length es
    → x.charged ≤ charges (drop n (es ++ x ∷ []))
unfolding charges drop
charges-appended_gt zero es x h = omega (arith, charges-append es (x ∷ []))
charges-appended_gt (suc n) [] x h = absurd (omega (arith, h))
charges-appended_gt (suc n) (e ∷ es) x h = charges-appended_gt n es x (omega (arith, h))

charges-appended_le :
    (n : ℕ) (es : List Entry) (x : Entry)
    → length es ≤ n
    → charges (drop n (es ++ x ∷ [])) ≤ x.charged
unfolding charges drop
charges-appended_le zero [] x h = omega arith
charges-appended_le (suc n) [] x h = omega (arith, ap charges (drop-all n [] (omega arith)))
charges-appended_le zero (e ∷ es) x h = absurd (omega (arith, h))
charges-appended_le (suc n) (e ∷ es) x h = charges-appended_le n es x (omega (arith, h))

stays :
    (max : ℕ) (es : List Entry) (x : Entry) (n : ℕ)
    → Needed max (es ++ x ∷ []) n
    → x.charged ≤ max
    → n ≤ length es
stays max es x zero needed h = omega arith
stays max es x (suc n) needed h = elim (Bool-cases (leb (suc n) (length es))) [
  | inl k ↦ ground (arith, k)
  | inr k ↦ absurd (ground (arith, needed, h, charges-appended_le n es x (ground (arith, k))))
]

goes :
    (max : ℕ) (es after : List Entry) (x : Entry) (n : ℕ)
    → Evicted max (es ++ x ∷ []) after n
    → suc max ≤ x.charged
    → suc (length es) ≤ n
goes max es after x n v h = elim (Bool-cases (leb n (length es))) [
  | inl k ↦ absurd (
      ground
        (arith, h, charges-appended_gt n es x (ground (arith, k)), v.enough, ap charges v.rest))
  | inr k ↦ ground (arith, k)
]

find_evicted :
    (id : String) (max : ℕ) (es after : List Entry) (x : Entry)
    → find id es ≡ none
    → str_eq x.log.id id ≡ true
    → EvictsTo max (es ++ x ∷ []) after
    → find id after ≡ (if leb x.charged max then some x else none)
unfolding find
find_evicted id max es after x f e (n, v) = elim (Bool-cases (leb x.charged max)) [
  | inl k ↦ rw k (
      ap (find id) v.rest
      ∙ find-appended id n es x (stays max es x n v.needed (ground (arith, k))) f e)
  | inr k ↦
      let empty : after ≡ [] =
        v.rest
        ∙ drop-all n (es ++ x ∷ []) (
            omega
              (arith, length-append es (x ∷ []), goes max es after x n v (ground (arith, k)))) in
      rw k (ap (find id) empty)
]

pay_room :
    (s : RequestStore)
    → s.total_bytes ≡ charges s.requests
    → (make_room s).total_bytes ≡ charges ((make_room s).requests)
unfolding make_room evict_oldest
pay_room s paid = elim (Bool-cases (leb s.max_size (length s.requests))) [
  | inl h ↦ rw h (evicted-paid s.total_bytes s.requests paid)
  | inr h ↦ rw h paid
]

find-evict_list :
    (id : String) (total : ℕ) (es : List Entry)
    → find id es ≡ none
    → find id ((evict_list total es).1) ≡ none
unfolding find
find-evict_list id total [] f = refl
find-evict_list id total (e ∷ es) f = elim (Bool-cases (str_eq e.log.id id)) [
  | inl k ↦ absurd (some_ne (ap (λ b. if b then some e else find id es) (sym k) ∙ f))
  | inr k ↦ ap (λ b. if b then some e else find id es) (sym k) ∙ f
]

find-make_room :
    (id : String) (s : RequestStore)
    → find id s.requests ≡ none
    → find id ((make_room s).requests) ≡ none
unfolding make_room evict_oldest
find-make_room id s f = elim (Bool-cases (leb s.max_size (length s.requests))) [
  | inl h ↦ rw h (find-evict_list id s.total_bytes s.requests f)
  | inr h ↦ rw h f
]

find-appended_all :
    (id : String) (es : List Entry) (x : Entry)
    → find id es ≡ none
    → str_eq x.log.id id ≡ true
    → find id (es ++ x ∷ []) ≡ some x
unfolding drop
find-appended_all id es x f e = find-appended id 0 es x (omega arith) f e

get-enforced :
    (req : RequestLog) (s : RequestStore)
    → s.total_bytes ≡ charges s.requests
    → find req.id s.requests ≡ none
    → get req.id (enforce_budget (append_entry req s))
      ≡ (if bytes_fit s.max_bytes (size req) then some (entry_of req) else none)
unfolding get enforce_budget append_entry charges
get-enforced req s paid f = elim (Bool-cases (leb_ℤ s.max_bytes (pos 0))) [
  | inl h ↦ rw h (find-appended_all req.id s.requests (entry_of req) f (str_eq_refl req.id))
  | inr h ↦
      let paid' : s.total_bytes + size req ≡ charges (s.requests ++ entry_of req ∷ []) =
        omega (arith, charges-append s.requests (entry_of req ∷ []), paid) in
      rw h (
        find_evicted req.id (pos_part s.max_bytes) s.requests
          ((budget_loop (pos_part s.max_bytes) (s.total_bytes + size req)
            (s.requests ++ entry_of req ∷ [])).1)
          (entry_of req) f (str_eq_refl req.id)
          (budget_loop-Evicted (pos_part s.max_bytes) (s.total_bytes + size req)
            (s.requests ++ entry_of req ∷ []) paid'))
]

add_found-get :
    (o : Option Entry) (req : RequestLog) (s : RequestStore)
    → find req.id s.requests ≡ o
    → o ≡ none
    → s.total_bytes ≡ charges s.requests
    → get req.id (add_found o req s)
      ≡ (if bytes_fit s.max_bytes (size req) then some (entry_of req) else none)
add_found-get (some x) req s f n paid = absurd (some_ne n)
add_found-get none req s f n paid =
    get-enforced req (make_room s) (pay_room s paid) (find-make_room req.id s f)
    ∙ ap (λ m. if bytes_fit m (size req) then some (entry_of req) else none)
        ((make_room-SameLimits s).1)

-- A request that the store does not hold yet is found under its ID after `Add`, with the bytes it is
-- charged, whenever it fits into the budget on its own, or there is no budget. When it does not fit
-- on its own, the store does not hold it afterwards.
pub get-add :
    (req : RequestLog) (s : RequestStore)
    → find req.id s.requests ≡ none
    → s.total_bytes ≡ charges s.requests
    → get req.id (add req s)
      ≡ (if bytes_fit s.max_bytes (size req) then some (entry_of req) else none)
unfolding add
get-add req s f paid =
    add_found-get (find req.id s.requests) req (record s { app_tags_cache_dirty = true }) refl f
      paid

-- When the total is what the entries are charged, enforcing a positive budget drops the oldest
-- entries first, none that could have stayed, and leaves entries that fit into the budget.
pub enforce_budget-EvictsTo :
    (s : RequestStore)
    → s.total_bytes ≡ charges s.requests
    → leb_ℤ s.max_bytes (pos 0) ≡ false
    → EvictsTo (pos_part s.max_bytes) s.requests ((enforce_budget s).requests)
unfolding enforce_budget
enforce_budget-EvictsTo s paid h =
    rw h (budget_loop-Evicted (pos_part s.max_bytes) s.total_bytes s.requests paid)
