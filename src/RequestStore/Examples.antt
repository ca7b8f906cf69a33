-- ===== src/RequestStore/Examples.antt =====
-- Runs of the request log, and its theorems at concrete stores.
use llm_supervisor_proxy.RequestStore.Bounds.{
  IsBounded, SameLimits, add_call, mutate_call, after_calls, call, charges, run_calls, store_bounds,
  StoreCall,
}
use llm_supervisor_proxy.RequestStore.Eviction.{EvictsTo, drop, enforce_budget-EvictsTo, get-add}
use llm_supervisor_proxy.RequestStore.Size.{
  RequestLog, fallbacks_size, messages_size, parameters_size, size, tool_calls_size,
}
use llm_supervisor_proxy.RequestStore.{
  RequestStore, add, append_entry, budget_loop, change_log, enforce_budget, entry_of, evict_oldest,
  find, get, list, list_filtered, make_room, mutate, new_request_store, replace, rev_filtered,
  rev_logs, size_of,
}
use llm_supervisor_proxy.Support.Int.{pos}
use llm_supervisor_proxy.Support.{true, String, List, [], ◌∷◌, some, ◌≡◌, refl, dec_str}

unfoldable program : Unit {0}
unfolding add append_entry budget_loop change_log enforce_budget evict_oldest find get list
    list_filtered make_room mutate new_request_store replace rev_filtered rev_logs size_of size
    fallbacks_size messages_size parameters_size tool_calls_size call charges run_calls drop dec_str
program = tt

abbrev log : String → String → String → RequestLog
log id tag error = record {
  id = id;
  status = "completed";
  model = "m";
  duration = "";
  messages = record { role = "user"; content = "hi"; tool_calls = []; thinking = "" } ∷ [];
  error = error;
  token_id = "";
  token_name = "";
  original_model = "";
  fallback_used = "f" ∷ [];
  current_fallback = "";
  route_model = "";
  ultimate_model_id = "";
  parameters = ("top_p", "1") ∷ [];
  app_tag = tag;
}

abbrev ids : List RequestLog → List String
ids [] = []
ids (r ∷ logs) = r.id ∷ ids logs

-- The error of a request becomes longer in place, and it is added again.
abbrev grown : RequestStore
grown = after_calls 3 (pos 1000) (
    add_call (log "a" "" "")
    ∷ add_call (log "b" "t" "")
    ∷ add_call (log "c" "" "")
    ∷ mutate_call "b" (λ r. record r { error = "upstream: 500" })
    ∷ [])

-- The first request went for the third; the one that grew is the oldest.
request_store_runs :
    (size (log "a" "" "") ≡ 344)
    × (size_of "b" grown ≡ 345)
    × (ids (list grown) ≡ "c" ∷ "b" ∷ [])
    × (ids (list_filtered "" grown) ≡ "c" ∷ [])
    × (size_of "b" (add (log "b" "t" "upstream: 500") grown) ≡ 358)
unfolding program
request_store_runs = (refl, refl, refl, refl, refl)

abbrev four_calls : List StoreCall
four_calls =
    add_call (log "a" "" "")
    ∷ add_call (log "b" "t" "")
    ∷ add_call (log "a" "t" "x")
    ∷ add_call (log "c" "" "")
    ∷ []

store_bounds_example :
    IsBounded (after_calls 2 (pos 900) four_calls)
    × SameLimits (after_calls 2 (pos 900) four_calls) (new_request_store 2 (pos 900))
store_bounds_example = store_bounds 2 (pos 900) four_calls

get-add_example : get "d" (add (log "d" "" "") grown) ≡ some (entry_of (log "d" "" ""))
unfolding program
get-add_example = get-add (log "d" "" "") grown refl refl

abbrev over_budget : RequestStore
over_budget = record {
  requests = entry_of (log "a" "" "") ∷ entry_of (log "b" "" "") ∷ [];
  max_size = 5;
  max_bytes = pos 400;
  total_bytes = 688;
  app_tags_cache = [];
  app_tags_cache_dirty = true;
}

enforce_budget-EvictsTo_example :
    EvictsTo 400 over_budget.requests ((enforce_budget over_budget).requests)
unfolding program
enforce_budget-EvictsTo_example = enforce_budget-EvictsTo over_budget refl refl
