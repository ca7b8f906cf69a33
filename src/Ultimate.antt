-- ===== src/Ultimate.antt =====
-- pkg/ultimatemodel/handler.go and the hash of pkg/ultimatemodel/hash_cache.go: which requests the
-- ultimate model answers. SHA-256 with its hexadecimal print is the parameter `sha256_hex`.
pub mod Schedule
pub mod Forced
pub mod Examples
use Prim.Native.String.{◌++◌ as ◌<>◌}
use llm_supervisor_proxy.Support.{
  ℕ, Bool, true, false, String, List, [], ◌∷◌, Option, none, some, ltb, ◌==◌, str_eq, is_empty,
  if◌then◌else◌,
}
use llm_supervisor_proxy.HashCache.{HashCache, record_attempt, store_if_absent, reset}

-- An element of a multimodal content: an object with its `type`, `text` and `image_url.url`, where
-- they are strings, or anything else.
pub data Part : Type 0 where
  part_map : Option String → Option String → Option String → Part
  no_map : Part

-- `msg["content"]`: a string, an array, or anything else.
pub data Content : Type 0 where
  text : String → Content
  parts : List Part → Content
  other_content : Content

pub record Message : Type 0 where
  pub role : Option String
  pub content : Content

-- What an optional string writes, followed by a separator.
abbrev write_opt : Option String → String → String
write_opt none after = ""
write_opt (some s) after = s <> after

unfoldable pub write_part : Part → String
write_part (part_map type content url) =
    write_opt type ":" <> (write_opt content "" <> write_opt url "")
write_part no_map = ""

unfoldable pub write_parts : List Part → String
write_parts [] = ""
write_parts (p ∷ ps) = write_part p <> write_parts ps

unfoldable pub write_content : Content → String
write_content (text s) = s
write_content (parts ps) = write_parts ps
write_content other_content = ""

-- The bytes that the loop writes into the digest.
unfoldable pub write_messages : List Message → String
write_messages [] = ""
write_messages (m ∷ messages) =
    write_opt m.role "" <> ("|" <> (write_content m.content <> ("\n" <> write_messages messages)))

unfoldable pub hash_messages : (String → String) → List Message → String
hash_messages sha256_hex messages = sha256_hex (write_messages messages)

abbrev pub trigger_attempts : List ℕ
trigger_attempts = 5 ∷ 10 ∷ 20 ∷ 30 ∷ 40 ∷ []

abbrev pub max_attempts : ℕ
max_attempts = 40

unfoldable pub milestone_loop : List ℕ → ℕ → Bool
milestone_loop [] count = false
milestone_loop (milestone ∷ rest) count =
    if count == milestone then true else milestone_loop rest count

unfoldable pub is_trigger_attempt : ℕ → Bool
is_trigger_attempt count = milestone_loop trigger_attempts count

pub record ShouldTriggerResult : Type 0 where
  pub triggered : Bool
  pub hash : String
  pub attempts_exhausted : Bool
  pub current_attempt : ℕ
  pub max : ℕ

abbrev pub not_triggered : ShouldTriggerResult
not_triggered = record {
  triggered = false;
  hash = "";
  attempts_exhausted = false;
  current_attempt = 0;
  max = 0;
}

abbrev pub forced_result : String → ShouldTriggerResult
forced_result hash = record {
  triggered = true;
  hash = hash;
  attempts_exhausted = false;
  current_attempt = 0;
  max = max_attempts;
}

-- The result of the normal path, from the number of the attempt.
unfoldable pub counted_result : String → ℕ → ShouldTriggerResult
counted_result hash count =
    if ltb max_attempts count
    then record {
      triggered = true;
      hash = hash;
      attempts_exhausted = true;
      current_attempt = count;
      max = max_attempts;
    }
    else (if is_trigger_attempt count
        then record {
          triggered = true;
          hash = hash;
          attempts_exhausted = false;
          current_attempt = count;
          max = max_attempts;
        }
        else record {
          triggered = false;
          hash = hash;
          attempts_exhausted = false;
          current_attempt = count;
          max = max_attempts;
        })

-- The handler reads the model's id from the configuration and keeps the cache.
pub record Handler : Type 0 where
  pub model_id : String
  pub hash_cache : HashCache

abbrev pub with_cache : Handler → HashCache → Handler
with_cache h c = record h { hash_cache = c }

unfoldable pub should_trigger_internal :
    (String → String) → Handler → List Message → Bool → ShouldTriggerResult × Handler
should_trigger_internal sha256_hex h messages force =
    if str_eq h.model_id ""
    then (not_triggered, h)
    else if is_empty messages
    then (not_triggered, h)
    else (let hash = hash_messages sha256_hex messages in
        if force
        then (forced_result hash, with_cache h (store_if_absent h.hash_cache hash))
        else (let (count, cache) = record_attempt h.hash_cache hash in
            (counted_result hash count, with_cache h cache)))

abbrev pub should_trigger :
    (String → String) → Handler → List Message → ShouldTriggerResult × Handler
should_trigger sha256_hex h messages = should_trigger_internal sha256_hex h messages false

abbrev pub force_trigger :
    (String → String) → Handler → List Message → ShouldTriggerResult × Handler
force_trigger sha256_hex h messages = should_trigger_internal sha256_hex h messages true

-- The changed field that the event's data names, when it has one.
unfoldable pub on_config_change : Handler → Option String → Handler
on_config_change h none = h
on_config_change h (some field) =
    if str_eq field "ultimate_model.model_id" then with_cache h (reset h.hash_cache) else h
