-- ===== src/RequestStore.antt =====
-- pkg/store/memory.go: the in-memory log of requests, bounded by entries and bytes. One step per
-- method, each under the lock. An entry of the list is the shared object that ByID also refers to,
-- with the bytes that sizeByID charges for it; a caller may change its log behind the store's back.
pub mod Size
pub mod Bounds
pub mod Eviction
pub mod Examples
use llm_supervisor_proxy.RequestStore.Size.{RequestLog, size}
use llm_supervisor_proxy.Support.Int.{ℤ, pos, leb_ℤ, pos_part}
use llm_supervisor_proxy.Support.{
  ℕ, zero, suc, ◌+◌, ◌-◌, Bool, true, false, not, ◌&&◌, ◌||◌, String, List, [], ◌∷◌, ◌++◌, Option,
  none, some, ltb, leb, length, str_eq, if◌then◌else◌,
}

pub record Entry : Type 0 where
  pub log : RequestLog
  pub charged : ℕ

pub record RequestStore : Type 0 where
  pub requests : List Entry
  pub max_size : ℕ
  pub max_bytes : ℤ
  pub total_bytes : ℕ
  pub app_tags_cache : List String
  pub app_tags_cache_dirty : Bool

-- The cache starts clean and empty, as the list is.
unfoldable pub new_request_store : ℕ → ℤ → RequestStore
new_request_store max_size max_bytes = record {
  requests = [];
  max_size = max_size;
  max_bytes = max_bytes;
  total_bytes = 0;
  app_tags_cache = [];
  app_tags_cache_dirty = false;
}

unfoldable pub find : String → List Entry → Option Entry
find id [] = none
find id (e ∷ entries) = if str_eq e.log.id id then some e else find id entries

-- `ByID[id]`.
unfoldable pub get : String → RequestStore → Option Entry
get id s = find id s.requests

unfoldable pub size_of : String → RequestStore → ℕ
size_of id s = elim (find id s.requests) [ none ↦ 0 | some e ↦ e.charged ]

-- The oldest entry goes; the total stops at 0, as the subtraction of ℕ does.
abbrev pub evict_list : ℕ → List Entry → ℕ × List Entry
evict_list total [] = (total, [])
evict_list total (e ∷ entries) = (total - e.charged, entries)

abbrev with_entries : RequestStore → ℕ × List Entry → RequestStore
with_entries s (total, entries) = record s { requests = entries; total_bytes = total }

unfoldable pub evict_oldest : RequestStore → RequestStore
evict_oldest s = with_entries s (evict_list s.total_bytes s.requests)

-- The loop that evicts while the total is over the budget.
unfoldable pub budget_loop : ℕ → ℕ → List Entry → ℕ × List Entry
budget_loop max total [] = (total, [])
budget_loop max total (e ∷ entries) =
    let rest = budget_loop max (total - e.charged) entries in
    if ltb max total then rest else (total, e ∷ entries)

unfoldable pub enforce_budget : RequestStore → RequestStore
enforce_budget s =
    if leb_ℤ s.max_bytes (pos 0)
    then s
    else with_entries s (budget_loop (pos_part s.max_bytes) s.total_bytes s.requests)

-- The object of the ID takes the new contents, in its place.
unfoldable pub replace : RequestLog → List Entry → List Entry
replace req [] = []
replace req (e ∷ entries) =
    if str_eq e.log.id req.id
    then record { log = req; charged = size req } ∷ entries
    else e ∷ replace req entries

abbrev pub entry_of : RequestLog → Entry
entry_of req = record { log = req; charged = size req }

unfoldable pub append_entry : RequestLog → RequestStore → RequestStore
append_entry req s = record s {
  requests = s.requests ++ entry_of req ∷ [];
  total_bytes = s.total_bytes + size req;
}

unfoldable pub make_room : RequestStore → RequestStore
make_room s = if leb s.max_size (length s.requests) then evict_oldest s else s

abbrev pub add_found : Option Entry → RequestLog → RequestStore → RequestStore
add_found (some existing) req s = enforce_budget (record s {
  requests = replace req s.requests;
  total_bytes = s.total_bytes + size req - existing.charged;
})
add_found none req s = enforce_budget (append_entry req (make_room s))

unfoldable pub add : RequestLog → RequestStore → RequestStore
add req s = add_found (find req.id s.requests) req (record s { app_tags_cache_dirty = true })

-- A caller changes the log of an entry; its ID stays.
unfoldable pub change_log : String → (RequestLog → RequestLog) → List Entry → List Entry
change_log id f [] = []
change_log id f (e ∷ entries) =
    if str_eq e.log.id id
    then record e { log = record (f e.log) { id = e.log.id } } ∷ entries
    else e ∷ change_log id f entries

unfoldable pub mutate : String → (RequestLog → RequestLog) → RequestStore → RequestStore
mutate id f s = record s { requests = change_log id f s.requests }

unfoldable pub rev_logs : List Entry → List RequestLog → List RequestLog
rev_logs [] acc = acc
rev_logs (e ∷ entries) acc = rev_logs entries (e.log ∷ acc)

-- Newest first.
unfoldable pub list : RequestStore → List RequestLog
list s = rev_logs s.requests []

unfoldable pub rev_filtered : String → List Entry → List RequestLog → List RequestLog
rev_filtered app_tag [] acc = acc
rev_filtered app_tag (e ∷ entries) acc =
    rev_filtered app_tag entries (if str_eq e.log.app_tag app_tag then e.log ∷ acc else acc)

-- An empty tag asks for the logs without one, which is the same test.
unfoldable pub list_filtered : String → RequestStore → List RequestLog
list_filtered app_tag s = if str_eq app_tag "*" then list s else rev_filtered app_tag s.requests []
