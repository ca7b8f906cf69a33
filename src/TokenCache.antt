-- ===== src/TokenCache.antt =====
-- pkg/modelscache/tokens.go: the cache of token verdicts in front of the token store. A call of the
-- inner store and what other goroutines do during it are arguments; so are the classification of an
-- error as an infrastructure error, which reads the error's text, and whether the token's format is
-- right. Times and durations are natural numbers.
pub mod Denial
pub mod Refusal
pub mod Staleness
pub mod Examples
use llm_supervisor_proxy.Support.Assoc.{Map, lookup, insert, delete}
use llm_supervisor_proxy.Support.{
  ℕ, ◌+◌, Bool, true, false, ◌&&◌, String, List, [], ◌∷◌, ◌++◌, Option, none, some, ltb, leb,
  str_eq, length, if◌then◌else◌,
}
use llm_supervisor_proxy.Lru.{Lru, new_lru, peek, put, remove}

pub record AuthToken : Type 0 where
  pub id : String
  pub expires_at : Option ℕ

pub data StoreError : Type 0 where
  token_not_found : StoreError
  invalid_token_format : StoreError
  token_expired : StoreError
  other_error : String → StoreError

-- An entry says yes, with the token, or no, with the verdict to replay.
pub data TokenEntry : Type 0 where
  positive : Option AuthToken → ℕ → ℕ → TokenEntry
  negative : StoreError → ℕ → TokenEntry

pub record Options : Type 0 where
  pub tokens_positive_ttl : ℕ
  pub negative_ttl : ℕ
  pub stale_cap : ℕ
  pub lru_cap : ℕ

pub record CachedTokenStore : Type 0 where
  pub opts : Options
  pub entries : Lru TokenEntry
  pub id_to_hash : Map String
  pub id_order : List String

abbrev pub default_id_index_cap : ℕ
default_id_index_cap = 50000

unfoldable pub new_cached_token_store : Options → CachedTokenStore
new_cached_token_store opts = record {
  opts = opts;
  entries = new_lru opts.lru_cap;
  id_to_hash = [];
  id_order = [];
}

-- The bound of the index: the oldest id goes.
unfoldable pub bound_index : List String → Map String → List String × Map String
bound_index [] index = ([], index)
bound_index (oldest ∷ order) index =
    if ltb default_id_index_cap (length (oldest ∷ order))
    then (order, delete oldest index)
    else (oldest ∷ order, index)

unfoldable pub remember_id : String → String → CachedTokenStore → CachedTokenStore
remember_id id hash c = if str_eq id "" then c else elim (lookup id c.id_to_hash) [
  | some _ ↦ record c { id_to_hash = insert id hash c.id_to_hash }
  | none ↦
      let (order, index) = bound_index (c.id_order ++ id ∷ []) c.id_to_hash in
      record c { id_order = order; id_to_hash = insert id hash index }
]

unfoldable pub fresh_until : CachedTokenStore → Option ℕ → ℕ → ℕ
fresh_until c none now = now + c.opts.tokens_positive_ttl
fresh_until c (some expiry) now =
    if ltb expiry (now + c.opts.tokens_positive_ttl)
    then expiry
    else now + c.opts.tokens_positive_ttl

abbrev pub put_entry : String → TokenEntry → CachedTokenStore → CachedTokenStore
put_entry hash e c = record c { entries = put hash e c.entries }

unfoldable pub store_positive :
    String → Option AuthToken → Option ℕ → ℕ → CachedTokenStore → CachedTokenStore
store_positive hash none clamp now c =
    put_entry hash (positive none (fresh_until c clamp now) now) c
store_positive hash (some token) clamp now c =
    remember_id token.id hash
      (put_entry hash (positive (some token) (fresh_until c clamp now) now) c)

unfoldable pub store_negative : String → StoreError → ℕ → CachedTokenStore → CachedTokenStore
store_negative hash verdict now c = put_entry hash (negative verdict now) c

-- A token, or an error.
pub data Answer : Type 0 where
  allowed : Option AuthToken → Answer
  denied : StoreError → Answer

-- The definitive answer of what the cache holds.
unfoldable pub entry_verdict : CachedTokenStore → ℕ → Option TokenEntry → Option Answer
entry_verdict c now none = none
entry_verdict c now (some (positive token fresh cached_at)) =
    if ltb now fresh then some (allowed token) else none
entry_verdict c now (some (negative verdict cached_at)) =
    if leb now (cached_at + c.opts.negative_ttl) then some (denied verdict) else none

unfoldable pub cached_verdict : String → ℕ → CachedTokenStore → Option Answer
cached_verdict hash now c = entry_verdict c now (peek hash c.entries)

unfoldable pub is_verdict_class : StoreError → Bool
is_verdict_class token_not_found = true
is_verdict_class invalid_token_format = true
is_verdict_class token_expired = true
is_verdict_class (other_error text) = false

abbrev pub expiry_of : Option AuthToken → Option ℕ
expiry_of none = none
expiry_of (some token) = token.expires_at

-- What an outage serves of an entry.
unfoldable pub stale_answer : CachedTokenStore → ℕ → StoreError → Option TokenEntry → Answer
stale_answer c now err none = denied err
stale_answer c now err (some (negative verdict cached_at)) = denied err
stale_answer c now err (some (positive none fresh cached_at)) = denied err
stale_answer c now err (some (positive (some token) fresh cached_at)) =
    if leb now (cached_at + c.opts.stale_cap) then allowed (some token) else denied err

-- The rest of a validation, from the inner store's answer.
unfoldable pub revalidate :
    (StoreError → Bool) → String → ℕ → Answer → CachedTokenStore → Answer × CachedTokenStore
revalidate is_infra_error hash now (allowed token) c =
    (allowed token, store_positive hash token (expiry_of token) now c)
revalidate is_infra_error hash now (denied err) c =
    if is_verdict_class err
    then (denied err, store_negative hash err now c)
    else if is_infra_error err
    then (stale_answer c now err (peek hash c.entries), c)
    else (denied err, c)

-- `ValidateToken` of a plaintext with a hash, at a time.
pub record Request : Type 0 where
  pub well_formed : Bool
  pub hash : String
  pub now : ℕ
  pub inner : Answer
  pub others : CachedTokenStore → CachedTokenStore

unfoldable pub validate_token :
    (StoreError → Bool) → Request → CachedTokenStore → Answer × CachedTokenStore
validate_token is_infra_error r c =
    if r.well_formed
    then elim (cached_verdict r.hash r.now c) [
      | some answer ↦ (answer, c)
      | none ↦ revalidate is_infra_error r.hash r.now r.inner (r.others c)
    ]
    else (denied invalid_token_format, c)

-- The write of a token that the inner store created.
unfoldable pub create_token :
    String → AuthToken → Option ℕ → ℕ → CachedTokenStore → CachedTokenStore
create_token hash token expires_at now c = store_positive hash (some token) expires_at now c

unfoldable pub delete_indexed : String → CachedTokenStore → Option String → CachedTokenStore
delete_indexed id c none = c
delete_indexed id c (some hash) = record c {
  entries = remove hash c.entries;
  id_to_hash = delete id c.id_to_hash;
}

-- After the inner store's success.
unfoldable pub delete_token : String → CachedTokenStore → CachedTokenStore
delete_token id c = delete_indexed id c (lookup id c.id_to_hash)

unfoldable pub drop_indexed : CachedTokenStore → Option String → CachedTokenStore
drop_indexed c none = c
drop_indexed c (some hash) = record c { entries = remove hash c.entries }

unfoldable pub update_token_permission : String → CachedTokenStore → CachedTokenStore
update_token_permission id c = drop_indexed c (lookup id c.id_to_hash)
