-- ===== src/TokenCache/Denial.antt =====
-- pkg/modelscache/tokens.go: a token that was refused or deleted is not served from the cache.
use llm_supervisor_proxy.Support.Assoc.{Map, lookup, delete}
use llm_supervisor_proxy.Support.{
  ℕ, ◌≡◌, refl, sym, ap, ◌∙◌, ◌⊎◌, inl, inr, Bool, true, false, String, List, [], ◌∷◌, Option, none,
  some, str_eq, str_eq→eq, arith, Bool-cases, Option-cases, subst,
}
use llm_supervisor_proxy.Lru.{peek, remove, peek-put_other, peek-put_same, peek-remove_any}
use llm_supervisor_proxy.TokenCache.{
  AuthToken, StoreError, TokenEntry, positive, negative, CachedTokenStore, remember_id, put_entry,
  store_positive, store_negative, Answer, allowed, denied, cached_verdict, is_verdict_class,
  expiry_of, revalidate, Request, validate_token, create_token, delete_token, delete_indexed,
  drop_indexed, update_token_permission,
}

abbrev pub refuses : Option TokenEntry → Bool
refuses none = true
refuses (some (negative verdict cached_at)) = true
refuses (some (positive token fresh cached_at)) = false

-- The cache holds no token for the hash.
abbrev pub IsDenied : String → CachedTokenStore → Type 0
IsDenied k c = refuses (peek k c.entries) ≡ true

abbrev pub is_denied : Answer → Bool
is_denied (allowed token) = false
is_denied (denied err) = true

pub remember_id-entries :
    (id hash : String) (c : CachedTokenStore) → (remember_id id hash c).entries ≡ c.entries
unfolding remember_id
remember_id-entries id hash c = elim (Bool-cases (str_eq id "")) [
  | inl e ↦ rw e refl
  | inr e ↦ elim (Option-cases (lookup id c.id_to_hash)) [
    | inl f ↦ rw (e, f) refl
    | inr (old, f) ↦ rw (e, f) refl
  ]
]

put_other-IsDenied :
    (j k : String) (e : TokenEntry) (c : CachedTokenStore)
    → str_eq j k ≡ false
    → IsDenied k c
    → IsDenied k (put_entry j e c)
put_other-IsDenied j k e c d h = ground (arith, peek-put_other j k e c.entries d, h)

pub store_negative-IsDenied :
    (k : String) (err : StoreError) (now : ℕ) (c : CachedTokenStore)
    → IsDenied k (store_negative k err now c)
unfolding store_negative
store_negative-IsDenied k err now c = ground (arith, peek-put_same k (negative err now) c.entries)

store_negative-far :
    (j k : String) (err : StoreError) (now : ℕ) (c : CachedTokenStore)
    → str_eq j k ≡ false
    → IsDenied k c
    → IsDenied k (store_negative j err now c)
unfolding store_negative
store_negative-far j k err now c d h = put_other-IsDenied j k (negative err now) c d h

store_negative_other-IsDenied :
    (j k : String) (err : StoreError) (now : ℕ) (c : CachedTokenStore)
    → IsDenied k c
    → IsDenied k (store_negative j err now c)
store_negative_other-IsDenied j k err now c h = elim (Bool-cases (str_eq j k)) [
  | inl e ↦
      subst (λ i. IsDenied k (store_negative i err now c)) (sym (str_eq→eq j k e))
        (store_negative-IsDenied k err now c)
  | inr e ↦ store_negative-far j k err now c e h
]

store_positive_other-IsDenied :
    (j k : String) (token : Option AuthToken) (clamp : Option ℕ) (now : ℕ) (c : CachedTokenStore)
    → str_eq j k ≡ false
    → IsDenied k c
    → IsDenied k (store_positive j token clamp now c)
unfolding store_positive
store_positive_other-IsDenied j k none clamp now c d h = put_other-IsDenied j k _ c d h
store_positive_other-IsDenied j k (some token) clamp now c d h =
    ap (λ e. refuses (peek k e)) (remember_id-entries token.id j _) ∙ put_other-IsDenied j k _ c d h

-- An inner store that does not say yes for the hash, and goroutines that put no token for it.
pub record IsQuiet (k : String) (r : Request) : Type 0 where
  pub refused : (str_eq r.hash k ≡ false) ⊎ (is_denied r.inner ≡ true)
  pub calm : (c : CachedTokenStore) → IsDenied k c → IsDenied k (r.others c)

revalidate-IsDenied :
    (is_infra_error : StoreError → Bool) (k hash : String) (now : ℕ) (inner : Answer)
    (c : CachedTokenStore)
    → (str_eq hash k ≡ false) ⊎ (is_denied inner ≡ true)
    → IsDenied k c
    → IsDenied k (revalidate is_infra_error hash now inner c).1
unfolding revalidate
revalidate-IsDenied f k hash now (allowed token) c (inl d) h =
    store_positive_other-IsDenied hash k token (expiry_of token) now c d h
revalidate-IsDenied f k hash now (allowed token) c (inr d) h = absurd (ground (arith, d))
revalidate-IsDenied f k hash now (denied err) c q h = elim (Bool-cases (is_verdict_class err)) [
  | inl e ↦ rw e (store_negative_other-IsDenied hash k err now c h)
  | inr e ↦ elim (Bool-cases (f err)) [ inl g ↦ rw (e, g) h | inr g ↦ rw (e, g) h ]
]

validate_token-IsDenied :
    (is_infra_error : StoreError → Bool) (k : String) (r : Request) (c : CachedTokenStore)
    → IsQuiet k r
    → IsDenied k c
    → IsDenied k (validate_token is_infra_error r c).1
unfolding validate_token
validate_token-IsDenied f k r c q h = elim (Bool-cases r.well_formed) [
  | inr e ↦ rw e h
  | inl e ↦ elim (Option-cases (cached_verdict r.hash r.now c)) [
    | inr (a, g) ↦ rw (e, g) h
    | inl g ↦
        rw (e, g) (revalidate-IsDenied f k r.hash r.now r.inner (r.others c) q.refused (q.calm c h))
  ]
]

-- The calls of the store; the inner store's call has succeeded where it changes the cache.
pub data Op : Type 0 where
  validates : Request → Op
  creates : String → AuthToken → Option ℕ → ℕ → Op
  deletes : String → Op
  updates : String → Op

unfoldable pub step : (StoreError → Bool) → Op → CachedTokenStore → CachedTokenStore
step is_infra_error (validates r) c = (validate_token is_infra_error r c).1
step is_infra_error (creates hash token expires_at now) c = create_token hash token expires_at now c
step is_infra_error (deletes id) c = delete_token id c
step is_infra_error (updates id) c = update_token_permission id c

unfoldable pub run : (StoreError → Bool) → List Op → CachedTokenStore → CachedTokenStore
run is_infra_error [] c = c
run is_infra_error (op ∷ ops) c = run is_infra_error ops (step is_infra_error op c)

-- No call gives the cache a token for the hash.
abbrev pub QuietOp : String → Op → Type 0
QuietOp k (validates r) = IsQuiet k r
QuietOp k (creates hash token expires_at now) = str_eq hash k ≡ false
QuietOp k (deletes id) = Unit
QuietOp k (updates id) = Unit

abbrev pub AllQuiet : String → List Op → Type 0
AllQuiet k [] = Unit
AllQuiet k (op ∷ ops) = QuietOp k op × AllQuiet k ops

remove-IsDenied :
    (j k : String) (c : CachedTokenStore) (index : Map String)
    → IsDenied k c
    → IsDenied k (record c { entries = remove j c.entries; id_to_hash = index })
remove-IsDenied j k c index h = ground (arith, peek-remove_any j k c.entries, h)

delete_indexed-IsDenied :
    (id k : String) (c : CachedTokenStore) (o : Option String)
    → IsDenied k c
    → IsDenied k (delete_indexed id c o)
unfolding delete_indexed
delete_indexed-IsDenied id k c none h = h
delete_indexed-IsDenied id k c (some hash) h = remove-IsDenied hash k c (delete id c.id_to_hash) h

drop_indexed-IsDenied :
    (k : String) (c : CachedTokenStore) (o : Option String)
    → IsDenied k c
    → IsDenied k (drop_indexed c o)
unfolding drop_indexed
drop_indexed-IsDenied k c none h = h
drop_indexed-IsDenied k c (some hash) h = remove-IsDenied hash k c c.id_to_hash h

step-IsDenied :
    (is_infra_error : StoreError → Bool) (k : String) (op : Op) (c : CachedTokenStore)
    → QuietOp k op
    → IsDenied k c
    → IsDenied k (step is_infra_error op c)
unfolding step create_token delete_token update_token_permission
step-IsDenied f k (validates r) c q h = validate_token-IsDenied f k r c q h
step-IsDenied f k (creates hash token expires_at now) c q h =
    store_positive_other-IsDenied hash k (some token) expires_at now c q h
step-IsDenied f k (deletes id) c q h = delete_indexed-IsDenied id k c (lookup id c.id_to_hash) h
step-IsDenied f k (updates id) c q h = drop_indexed-IsDenied k c (lookup id c.id_to_hash) h

pub run-IsDenied :
    (is_infra_error : StoreError → Bool) (k : String) (ops : List Op) (c : CachedTokenStore)
    → AllQuiet k ops
    → IsDenied k c
    → IsDenied k (run is_infra_error ops c)
unfolding run
run-IsDenied f k [] c q h = h
run-IsDenied f k (op ∷ ops) c q h =
    run-IsDenied f k ops (step f op c) q.1 (step-IsDenied f k op c q.0 h)
