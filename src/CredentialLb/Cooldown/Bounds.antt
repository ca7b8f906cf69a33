-- ===== src/CredentialLb/Cooldown/Bounds.antt =====
-- The windows that the cooldown policy keeps.
use llm_supervisor_proxy.Support.Int.{ℤ, pos, ◌≤ℤ◌, ◌<ℤ◌, leb_ℤ, ltb_ℤ, min_ℤ, max_ℤ}
use llm_supervisor_proxy.Support.{◌≡◌, ◌↔◌, if◌then◌else◌, Bool, false, Option, none, some, arith}
use llm_supervisor_proxy.CredentialLb.Cooldown.{
  CooldownConfig, rate_limit, quota, default_quota_cooldown, quota_cooldown_floor,
  quota_cooldown_ceiling, clamp_quota, set_quota_cooldown, quota_cooldown, fallback_cooldown,
  cooldown_for, failover_none, to_engine_class, classify_cred_failure, effective_cooldown,
}

-- `SetQuotaCooldown` with any value at all leaves an effective quota cooldown of at least one minute
-- and at most a day: a value of 0 or less becomes the default, any other the nearest value in that
-- window.
pub quota_cooldown_window :
    (c : CooldownConfig) (d : ℤ)
    → (quota_cooldown_floor ≤ℤ quota_cooldown (set_quota_cooldown (some c) d))
      × (quota_cooldown (set_quota_cooldown (some c) d) ≤ℤ quota_cooldown_ceiling)
      × (quota_cooldown (set_quota_cooldown (some c) d) ≡ (
          if leb_ℤ d (pos 0)
          then default_quota_cooldown
          else max_ℤ quota_cooldown_floor (min_ℤ d quota_cooldown_ceiling)))
unfolding quota_cooldown set_quota_cooldown clamp_quota
quota_cooldown_window c (pos n) = (ground arith, ground arith, ground arith)
quota_cooldown_window c d = (ground arith, ground arith, ground arith)

rate_limit_window :
    (e : Option CooldownConfig) (r : ℤ)
    → (pos 0 <ℤ cooldown_for e rate_limit r)
      × (cooldown_for e rate_limit r ≡ (if ltb_ℤ (pos 0) r then r else fallback_cooldown e))
unfolding cooldown_for fallback_cooldown
rate_limit_window none r = (ground arith, ground arith)
rate_limit_window (some c) r = (ground arith, ground arith)

quota_window :
    (e : Option CooldownConfig) (r : ℤ)
    → pos 0 <ℤ quota_cooldown e
    → cooldown_for e quota r ≡ max_ℤ (quota_cooldown e) (min_ℤ r quota_cooldown_ceiling)
unfolding cooldown_for
quota_window e r p = ground (arith, p)

-- Under a quota cooldown that SetQuotaCooldown has set, a quota failure keeps a credential out for what
-- the upstream asked, but at least for that cooldown and at most for a day. A rate limit keeps it out
-- for exactly what the upstream asked, if it asked for a positive time, and else for the fallback,
-- which is positive.
pub cooldown_for_window :
    (c : CooldownConfig) (d retry_after : ℤ)
    → let e = set_quota_cooldown (some c) d in
      (cooldown_for e quota retry_after
        ≡ max_ℤ (quota_cooldown e) (min_ℤ retry_after quota_cooldown_ceiling))
      × (cooldown_for e quota retry_after ≤ℤ quota_cooldown_ceiling)
      × (cooldown_for e rate_limit retry_after
          ≡ (if ltb_ℤ (pos 0) retry_after then retry_after else fallback_cooldown e))
      × (pos 0 <ℤ cooldown_for e rate_limit retry_after)
cooldown_for_window c d r =
    let e = set_quota_cooldown (some c) d in
    let (lo, hi, _) = quota_cooldown_window c d in
    let (positive, asked) = rate_limit_window e r in
    let same = quota_window e r (omega arith) in (same, ground (arith, same, hi), asked, positive)

-- An error that the quota classifier knows is a quota failure, even if it looks like a rate limit too,
-- and one that only the other classifier knows is a rate limit: the engine is asked for the cooldown
-- of that class. An error that neither knows is not eligible for a failover.
pub classify-cooldown {ℓ} :
    {E : Type ℓ} (is_quota_error is_rate_limit_error : E → Bool) (err : E)
    (e : Option CooldownConfig) (retry_after : ℤ)
    → let class = classify_cred_failure is_quota_error is_rate_limit_error (some err) in
      (effective_cooldown e class retry_after ≡ (
        if is_quota_error err
        then cooldown_for e quota retry_after
        else cooldown_for e rate_limit retry_after))
      × ((class ≡ failover_none)
          ↔ ((is_quota_error err ≡ false) × (is_rate_limit_error err ≡ false)))
unfolding classify_cred_failure effective_cooldown to_engine_class
classify-cooldown q l err e r = (ground arith, (λ h. ground arith, λ h. ground arith))
