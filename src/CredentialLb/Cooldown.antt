-- ===== src/CredentialLb/Cooldown.antt =====
-- pkg/credentiallb/failure_class.go and pkg/proxy/cred_failover_class.go: how long a credential that
-- failed stays out, by the class of its failure. Durations are nanoseconds.
pub mod Bounds
use llm_supervisor_proxy.Support.Int.{ℤ, pos, ltb_ℤ, leb_ℤ}
use llm_supervisor_proxy.Support.{
  ℕ, ◌*◌, Bool, true, false, String, Option, none, some, if◌then◌else◌,
}

pub data FailureClass : Type 0 where
  rate_limit quota : FailureClass

abbrev pub second : ℕ
second = 1_000_000_000

abbrev pub default_binding_ttl : ℤ
default_binding_ttl = pos (24 * 3600 * second)

abbrev pub default_cooldown : ℤ
default_cooldown = pos (60 * second)

abbrev pub default_quota_cooldown : ℤ
default_quota_cooldown = pos (15 * 60 * second)

abbrev pub quota_cooldown_floor : ℤ
quota_cooldown_floor = pos (60 * second)

abbrev pub quota_cooldown_ceiling : ℤ
quota_cooldown_ceiling = pos (24 * 3600 * second)

-- The two durations of the engine that the policy reads.
pub record CooldownConfig : Type 0 where
  pub configured_cooldown : ℤ
  pub configured_quota : ℤ

-- `SetQuotaCooldown`: the reset and the two clamps, in the order of the code.
unfoldable pub clamp_quota : ℤ → ℤ
clamp_quota d =
    let d' = if leb_ℤ d (pos 0) then default_quota_cooldown else d in
    let d'' = if ltb_ℤ d' quota_cooldown_floor then quota_cooldown_floor else d' in
    if ltb_ℤ quota_cooldown_ceiling d'' then quota_cooldown_ceiling else d''

unfoldable pub set_quota_cooldown : Option CooldownConfig → ℤ → Option CooldownConfig
set_quota_cooldown none d = none
set_quota_cooldown (some c) d = some (record c { configured_quota = clamp_quota d })

unfoldable pub quota_cooldown : Option CooldownConfig → ℤ
quota_cooldown none = default_quota_cooldown
quota_cooldown (some c) =
    if leb_ℤ c.configured_quota (pos 0) then default_quota_cooldown else c.configured_quota

-- The rate-limit fallback of a receiver that may be nil.
unfoldable pub fallback_cooldown : Option CooldownConfig → ℤ
fallback_cooldown none = default_cooldown
fallback_cooldown (some c) =
    if leb_ℤ c.configured_cooldown (pos 0) then default_cooldown else c.configured_cooldown

unfoldable pub cooldown_for : Option CooldownConfig → FailureClass → ℤ → ℤ
cooldown_for e class retry_after =
    let asked = if ltb_ℤ retry_after (pos 0) then pos 0 else retry_after in
    elim class [
      | quota ↦
          let capped =
            if ltb_ℤ quota_cooldown_ceiling asked then quota_cooldown_ceiling else asked in
          (if ltb_ℤ (quota_cooldown e) capped then capped else quota_cooldown e)
      | rate_limit ↦ if ltb_ℤ (pos 0) asked then asked else fallback_cooldown e
    ]

-- The proxy's own classes, of which the zero value is not eligible.
pub data CredFailoverClass : Type 0 where
  failover_none failover_rate_limit failover_quota : CredFailoverClass

unfoldable pub to_engine_class : CredFailoverClass → FailureClass
to_engine_class failover_quota = quota
to_engine_class failover_rate_limit = rate_limit
to_engine_class failover_none = rate_limit

unfoldable pub class_string : CredFailoverClass → String
class_string failover_rate_limit = "rate_limit"
class_string failover_quota = "quota_exceeded"
class_string failover_none = ""

-- The classifiers of pkg/providers are parameters. No error at all is no failure.
unfoldable pub classify_cred_failure {ℓ} :
    {E : Type ℓ} → (E → Bool) → (E → Bool) → Option E → CredFailoverClass
classify_cred_failure is_quota_error is_rate_limit_error none = failover_none
classify_cred_failure is_quota_error is_rate_limit_error (some err) =
    if is_quota_error err
    then failover_quota
    else (if is_rate_limit_error err then failover_rate_limit else failover_none)

unfoldable pub effective_cooldown : Option CooldownConfig → CredFailoverClass → ℤ → ℤ
effective_cooldown e class retry_after = cooldown_for e (to_engine_class class) retry_after
