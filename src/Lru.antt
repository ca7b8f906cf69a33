-- ===== src/Lru.antt =====
-- pkg/modelscache/lru.go: the bounded map with the order of its last writes. The list and the map of
-- its elements are one list of keys and values, the front first.
pub mod Bounded
pub mod Examples
use llm_supervisor_proxy.Support.Assoc.{Map, lookup, delete, lookup-delete}
use llm_supervisor_proxy.Support.{
  ℕ, zero, suc, ◌+◌, ◌-◌, ◌<◌, ◌≤◌, ◌≡◌, refl, sym, ap, ◌∙◌, ◌⊎◌, inl, inr, Bool, true, false,
  String, List, [], ◌∷◌, Option, none, some, ltb, leb, str_eq, str_eq_refl, length, if◌then◌else◌,
  arith, Bool-cases, Option-cases,
}

pub record Lru {ℓ} (V : Type ℓ) : Type ℓ where
  pub cap : ℕ
  pub items : Map V

module _ {ℓ} {V : Type ℓ} where
  unfoldable pub new_lru : ℕ → Lru V
  new_lru capacity = record { cap = if ltb capacity 1 then 1 else capacity; items = [] }

  unfoldable pub move_to_front : String → V → Lru V → Lru V
  move_to_front key v l = record l { items = (key, v) ∷ delete key l.items }

  unfoldable pub get : String → Lru V → Option V × Lru V
  get key l = elim (lookup key l.items) [
    | none ↦ (none, l)
    | some v ↦ (some v, move_to_front key v l)
  ]

  unfoldable pub peek : String → Lru V → Option V
  peek key l = lookup key l.items

  unfoldable pub drop_back : Map V → Map V
  drop_back [] = []
  drop_back (x ∷ []) = []
  drop_back (x ∷ y ∷ items) = x ∷ drop_back (y ∷ items)

  -- The loop that removes the tail while the list is too long; the length of the list is fuel enough.
  unfoldable pub evict_loop : ℕ → ℕ → Map V → Map V
  evict_loop zero cap items = items
  evict_loop (suc fuel) cap items =
      let rest = evict_loop fuel cap (drop_back items) in
      if ltb cap (length items) then rest else items

  -- A present key is rewritten, a new one goes to the front.
  unfoldable pub put_at : String → V → Lru V → Option V → Lru V
  put_at key v l (some old) = move_to_front key v l
  put_at key v l none = record l {
    items = evict_loop (suc (length l.items)) l.cap ((key, v) ∷ l.items);
  }

  unfoldable pub put : String → V → Lru V → Lru V
  put key v l = put_at key v l (lookup key l.items)

  unfoldable pub remove : String → Lru V → Lru V
  remove key l = record l { items = delete key l.items }

  unfoldable pub len : Lru V → ℕ
  len l = length l.items

  lookup-drop_back :
      (k : String) (items : Map V)
      → (lookup k (drop_back items) ≡ lookup k items) ⊎ (lookup k (drop_back items) ≡ none)
  unfolding drop_back lookup
  lookup-drop_back k [] = inl refl
  lookup-drop_back k (x ∷ []) = inr refl
  lookup-drop_back k ((j, v) ∷ y ∷ items) = ground (arith, lookup-drop_back k (y ∷ items))

  -- Eviction takes entries away and changes none.
  lookup-evict_loop :
      (fuel cap : ℕ) (k : String) (items : Map V)
      → (lookup k (evict_loop fuel cap items) ≡ lookup k items)
        ⊎ (lookup k (evict_loop fuel cap items) ≡ none)
  unfolding evict_loop
  lookup-evict_loop zero cap k items = inl refl
  lookup-evict_loop (suc fuel) cap k items =
      ground (arith, lookup-evict_loop fuel cap k (drop_back items), lookup-drop_back k items)

  -- A write leaves another key's value, or evicts it.
  pub peek-put_other :
      (j k : String) (v : V) (l : Lru V)
      → str_eq j k ≡ false
      → (peek k (put j v l) ≡ peek k l) ⊎ (peek k (put j v l) ≡ none)
  unfolding peek put put_at move_to_front lookup
  peek-put_other j k v l d = elim (Option-cases (lookup j l.items)) [
    | inr (old, e) ↦ rw e (inl (rw d (lookup-delete k j l.items ∙ (rw d refl))))
    | inl e ↦ rw e (rest (lookup-evict_loop (suc (length l.items)) l.cap k ((j, v) ∷ l.items)))
  ]
    where
      rest :
          (lookup k (evict_loop (suc (length l.items)) l.cap ((j, v) ∷ l.items))
              ≡ lookup k ((j, v) ∷ l.items))
            ⊎ (lookup k (evict_loop (suc (length l.items)) l.cap ((j, v) ∷ l.items)) ≡ none)
          → (lookup k (evict_loop (suc (length l.items)) l.cap ((j, v) ∷ l.items))
              ≡ lookup k l.items)
            ⊎ (lookup k (evict_loop (suc (length l.items)) l.cap ((j, v) ∷ l.items)) ≡ none)
      rest h = ground (arith, h, d)

  -- The front stays while there is room for one entry.
  lookup-front :
      (fuel cap : ℕ) (k : String) (v : V) (items : Map V)
      → 0 < cap
      → lookup k (evict_loop fuel cap ((k, v) ∷ items)) ≡ some v
  unfolding evict_loop drop_back lookup
  lookup-front zero cap k v items h = rw (str_eq_refl k) refl
  lookup-front (suc fuel) cap k v [] h = ground (arith, str_eq_refl k)
  lookup-front (suc fuel) cap k v (x ∷ items) h =
      ground (arith, str_eq_refl k, lookup-front fuel cap k v (drop_back (x ∷ items)) h)

  -- A write is read back.
  pub peek-put_self : (k : String) (v : V) (l : Lru V) → 0 < l.cap → peek k (put k v l) ≡ some v
  unfolding peek put put_at move_to_front lookup
  peek-put_self k v l h = elim (Option-cases (lookup k l.items)) [
    | inr (old, e) ↦ rw (e, str_eq_refl k) refl
    | inl e ↦ rw e (lookup-front (suc (length l.items)) l.cap k v l.items h)
  ]

  pub peek-remove : (k : String) (l : Lru V) → peek k (remove k l) ≡ none
  unfolding peek remove
  peek-remove k l = lookup-delete k k l.items ∙ ground (arith, str_eq_refl k)

  -- Whatever the capacity, a written key has the new value or is evicted.
  pub peek-put_same :
      (k : String) (v : V) (l : Lru V) → (peek k (put k v l) ≡ some v) ⊎ (peek k (put k v l) ≡ none)
  unfolding peek put put_at move_to_front lookup
  peek-put_same k v l = elim (Option-cases (lookup k l.items)) [
    | inr (old, e) ↦ rw (e, str_eq_refl k) (inl refl)
    | inl e ↦ rw e (front (lookup-evict_loop (suc (length l.items)) l.cap k ((k, v) ∷ l.items)))
  ]
    where
      front :
          (lookup k (evict_loop (suc (length l.items)) l.cap ((k, v) ∷ l.items))
              ≡ lookup k ((k, v) ∷ l.items))
            ⊎ (lookup k (evict_loop (suc (length l.items)) l.cap ((k, v) ∷ l.items)) ≡ none)
          → (lookup k (evict_loop (suc (length l.items)) l.cap ((k, v) ∷ l.items)) ≡ some v)
            ⊎ (lookup k (evict_loop (suc (length l.items)) l.cap ((k, v) ∷ l.items)) ≡ none)
      front h = ground (arith, h, str_eq_refl k)

  pub peek-remove_any :
      (j k : String) (l : Lru V) → (peek k (remove j l) ≡ peek k l) ⊎ (peek k (remove j l) ≡ none)
  unfolding peek remove
  peek-remove_any j k l = ground (arith, lookup-delete k j l.items)
