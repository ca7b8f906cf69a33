-- ===== src/CredentialLb/State/Soonest.antt =====
-- soonestCooldownLocked: when all credentials cool it gives one that is free soonest.
use llm_supervisor_proxy.Support.Assoc.{Map, lookup}
use llm_supervisor_proxy.Support.{
  ℕ, ◌<◌, ◌≤◌, ◌≡◌, ◌≢◌, refl, Bool, true, false, ◌||◌, String, List, [], ◌∷◌, some, ltb, str_eq,
  str_eq_refl, if◌then◌else◌, arith, Bool-cases, inl, inr, ◌⊎◌,
}
use llm_supervisor_proxy.CredentialLb.Selector.{CredentialRef}
use llm_supervisor_proxy.CredentialLb.State.{is_cooling, credential_in_refs, soonest_loop}
use llm_supervisor_proxy.CredentialLb.State.Validity.{AllNamed}
use llm_supervisor_proxy.CredentialLb.State.Healthy.{healthy_refs}

pub is_cooling-some :
    (cooldowns : Map ℕ) (id : String) (now : ℕ)
    → is_cooling cooldowns id now ≡ true
    → (until : ℕ) × (lookup id cooldowns ≡ some until) × (now < until)
unfolding is_cooling
is_cooling-some cooldowns id now h = ground arith

module _ (cooldowns : Map ℕ) where
  -- `id` cools until a time that no credential of the refs undercuts.
  pub record IsSoonest (refs : List CredentialRef) (id : String) : Type 0 where
    pub until : ℕ
    pub cools : lookup id cooldowns ≡ some until
    pub least :
        (other : String) (v : ℕ)
        → credential_in_refs refs other ≡ true
        → lookup other cooldowns ≡ some v
        → until ≤ v

  IsSoonest-cons :
      (r : CredentialRef) (refs : List CredentialRef) (id : String) (u : ℕ) (s : IsSoonest refs id)
      → lookup r.credential_id cooldowns ≡ some u
      → s.until ≤ u
      → IsSoonest (r ∷ refs) id
  unfolding credential_in_refs
  IsSoonest-cons r refs id u s f h = record {
    until = s.until;
    cools = s.cools;
    least = λ other v m g. ground (arith, s.least other v);
  }

  module _ (now : ℕ) where
    soonest_loop_step :
        (r : CredentialRef) (refs : List CredentialRef) (best : String) (best_until u : ℕ)
        → lookup r.credential_id cooldowns ≡ some u
        → now < u
        → soonest_loop cooldowns now (r ∷ refs) best best_until ≡ (
            if str_eq best "" || ltb u best_until
            then soonest_loop cooldowns now refs r.credential_id u
            else soonest_loop cooldowns now refs best best_until)
    unfolding soonest_loop
    soonest_loop_step r refs best best_until u f h = rw (f, soonest_loop) (ground arith)

    healthy_refs-cons_nil :
        (r : CredentialRef) (refs : List CredentialRef)
        → healthy_refs cooldowns now (r ∷ refs) ≡ []
        → (is_cooling cooldowns r.credential_id now ≡ true) × (healthy_refs cooldowns now refs ≡ [])
    unfolding healthy_refs
    healthy_refs-cons_nil r refs h = ground arith

    abbrev Answer : List CredentialRef → String → ℕ → String × Bool → Type 0
    Answer refs best best_until result =
        (id : String) × (result ≡ (id, true))
        × (id ≢ "")
        × ((credential_in_refs refs id ≡ true) ⊎ (id ≡ best))
        × (s : IsSoonest refs id) × (s.until ≤ best_until)

    Answer-kept :
        (r : CredentialRef) (refs : List CredentialRef) (best : String) (best_until u : ℕ)
        (result : String × Bool)
        → lookup r.credential_id cooldowns ≡ some u
        → best_until ≤ u
        → Answer refs best best_until result
        → Answer (r ∷ refs) best best_until result
    unfolding credential_in_refs IsSoonest-cons
    Answer-kept r refs best bu u result f h (id, e, ne, m, s, le) =
        (id, e, ne, ground arith, IsSoonest-cons r refs id u s f (omega arith), le)

    Answer-new :
        (r : CredentialRef) (refs : List CredentialRef) (best : String) (best_until u : ℕ)
        (result : String × Bool)
        → lookup r.credential_id cooldowns ≡ some u
        → u ≤ best_until
        → Answer refs r.credential_id u result
        → Answer (r ∷ refs) best best_until result
    unfolding credential_in_refs IsSoonest-cons
    Answer-new r refs best bu u result f h (id, e, ne, m, s, le) =
        (id, e, ne, inl (ground arith), IsSoonest-cons r refs id u s f le, omega arith)

    soonest_loop_lem :
        (refs : List CredentialRef) (best : String) (best_until : ℕ)
        → best ≢ ""
        → lookup best cooldowns ≡ some best_until
        → AllNamed refs
        → healthy_refs cooldowns now refs ≡ []
        → Answer refs best best_until (soonest_loop cooldowns now refs best best_until)
    unfolding soonest_loop credential_in_refs
    soonest_loop_lem [] best bu ne f nm h = (
      best,
      ground arith,
      ne,
      inr refl,
      record { until = bu; cools = f; least = λ other v m g. ground arith },
      omega arith,
    )
    soonest_loop_lem (r ∷ refs) best bu ne f nm h =
        let (cool, rest) = healthy_refs-cons_nil r refs h in
        let (u, g, later) = is_cooling-some cooldowns r.credential_id now cool in
        rw (soonest_loop_step r refs best bu u g later) (elim (Bool-cases (ltb u bu)) [
          | inl lt ↦
              let e : (str_eq best "" || ltb u bu) ≡ true = ground arith in
              rw e (
                Answer-new r refs best bu u _ g (ground arith)
                  (soonest_loop_lem refs r.credential_id u nm.0 g nm.1 rest))
          | inr ge ↦
              let e : (str_eq best "" || ltb u bu) ≡ false = ground arith in
              rw e (
                Answer-kept r refs best bu u _ g (ground arith)
                  (soonest_loop_lem refs best bu ne f nm.1 rest))
        ])

    -- With no healthy credential, the loop of a model that has credentials gives one that is
    -- configured and cools no longer than any other.
    pub soonest_loop_all :
        (r : CredentialRef) (refs : List CredentialRef)
        → AllNamed (r ∷ refs)
        → healthy_refs cooldowns now (r ∷ refs) ≡ []
        → (id : String) × (soonest_loop cooldowns now (r ∷ refs) "" 0 ≡ (id, true))
          × (id ≢ "")
          × (credential_in_refs (r ∷ refs) id ≡ true)
          × IsSoonest (r ∷ refs) id
    unfolding credential_in_refs
    soonest_loop_all r refs nm h =
        let (cool, rest) = healthy_refs-cons_nil r refs h in
        let (u, g, later) = is_cooling-some cooldowns r.credential_id now cool in
        let (id, e, ne, m, s, le) = soonest_loop_lem refs r.credential_id u nm.0 g nm.1 rest in
        (
          id,
          rw (soonest_loop_step r refs "" 0 u g later, str_eq_refl "") e,
          ne,
          ground arith,
          IsSoonest-cons r refs id u s g le,
        )
