-- ===== src/CredentialLb/State/Healthy.antt =====
-- pickHealthyLocked: both of its paths are the walk over the credentials that are not cooling.
use llm_supervisor_proxy.Support.Int.{pos_part}
use llm_supervisor_proxy.Support.Assoc.{Map, lookup}
use llm_supervisor_proxy.Support.{
  ℕ, ◌+◌, ◌%◌, ◌<◌, ◌≤◌, ◌≡◌, ◌≢◌, refl, ap, ◌∙◌, true, false, String, List, [], ◌∷◌, Option, none,
  some, ◌==◌, str_eq, str_eq→eq, if◌then◌else◌, arith, Bool-cases, inl, inr, ◌⊎◌,
}
use llm_supervisor_proxy.CredentialLb.Selector.{CredentialRef, new_weighted_selector}
use llm_supervisor_proxy.CredentialLb.Selector.Interval.{
  AllPositive, weight_from, walk, pick-walk, new_weighted_selector_positive, weight_from-le,
}
use llm_supervisor_proxy.CredentialLb.State.{
  ModelState, is_cooling, healthy_total, healthy_walk, advance, choose_healthy, pick_healthy,
  credential_in_refs,
}
use llm_supervisor_proxy.CredentialLb.State.Validity.{IsValid, IsConfigured, AllNamed}

-- The refs whose credential is not cooling.
unfoldable pub healthy_refs : Map ℕ → ℕ → List CredentialRef → List CredentialRef
healthy_refs cooldowns now [] = []
healthy_refs cooldowns now (r ∷ refs) =
    if is_cooling cooldowns r.credential_id now
    then healthy_refs cooldowns now refs
    else r ∷ healthy_refs cooldowns now refs

module _ (cooldowns : Map ℕ) (now : ℕ) where
  healthy_total-weight_from :
      (refs : List CredentialRef) (t : ℕ)
      → healthy_total cooldowns now refs t ≡ weight_from t (healthy_refs cooldowns now refs)
  unfolding healthy_total healthy_refs
  healthy_total-weight_from [] t = refl
  healthy_total-weight_from (r ∷ refs) t = ground (
    arith,
    healthy_total-weight_from refs t,
    healthy_total-weight_from refs (t + pos_part r.weight),
  )

  healthy_walk-walk :
      (refs : List CredentialRef) (t r : ℕ)
      → healthy_walk cooldowns now refs t r ≡ walk (healthy_refs cooldowns now refs) t r
  unfolding healthy_walk healthy_refs walk
  healthy_walk-walk [] t r = refl
  healthy_walk-walk (x ∷ refs) t r =
      ground (arith, healthy_walk-walk refs t r, healthy_walk-walk refs (t + pos_part x.weight) r)

  pub healthy_refs-AllPositive :
      (refs : List CredentialRef) → AllPositive refs → AllPositive (healthy_refs cooldowns now refs)
  unfolding healthy_refs
  healthy_refs-AllPositive [] p = tt
  healthy_refs-AllPositive (r ∷ refs) p = ground (arith, healthy_refs-AllPositive refs p.1)

  pub healthy_refs-AllNamed :
      (refs : List CredentialRef) → AllNamed refs → AllNamed (healthy_refs cooldowns now refs)
  unfolding healthy_refs
  healthy_refs-AllNamed [] p = tt
  healthy_refs-AllNamed (r ∷ refs) p = ground (arith, healthy_refs-AllNamed refs p.1)

  -- A credential among the healthy refs is configured and is not cooling.
  pub in_healthy_refs :
      (refs : List CredentialRef) (id : String)
      → credential_in_refs (healthy_refs cooldowns now refs) id ≡ true
      → (credential_in_refs refs id ≡ true) × (is_cooling cooldowns id now ≡ false)
  unfolding healthy_refs credential_in_refs
  in_healthy_refs [] id h = ground arith
  in_healthy_refs (r ∷ refs) id h = ground (arith, in_healthy_refs refs id)

healthy_refs-nil : (now : ℕ) (refs : List CredentialRef) → healthy_refs [] now refs ≡ refs
unfolding healthy_refs is_cooling lookup
healthy_refs-nil now [] = refl
healthy_refs-nil now (r ∷ refs) = ap (◌∷◌ r) (healthy_refs-nil now refs)

-- The reference for `choose_healthy`: a draw below the sum of the healthy weights, and a walk.
unfoldable pub reference_choice : Map ℕ → List CredentialRef → ℕ → ℕ → Option String
reference_choice cooldowns refs now draw =
    let healthy = healthy_refs cooldowns now refs in
    if weight_from 0 healthy == 0
    then none
    else some (walk healthy 0 (draw % weight_from 0 healthy))

walk-in_refs :
    (refs : List CredentialRef) (t r : ℕ)
    → r < weight_from t refs
    → t ≤ r
    → credential_in_refs refs (walk refs t r) ≡ true
unfolding walk credential_in_refs
walk-in_refs [] t r h k = absurd (omega arith)
walk-in_refs (x ∷ refs) t r h k = ground (arith, walk-in_refs refs (t + pos_part x.weight) r)

choose_by :
    (refs : List CredentialRef) (cooldowns : Map ℕ) (now draw : ℕ)
    → AllPositive refs
    → choose_healthy (new_weighted_selector refs) cooldowns refs now draw
      ≡ reference_choice cooldowns refs now draw
unfolding choose_healthy reference_choice new_weighted_selector healthy_refs
choose_by [] cooldowns now draw p = refl
choose_by (x ∷ refs) [] now draw p =
    rw (new_weighted_selector_positive x refs p, healthy_refs-nil now (x ∷ refs))
      (ground (arith, pick-walk x refs (draw % weight_from 0 (x ∷ refs)) p))
choose_by (x ∷ refs) (d ∷ cooldowns) now draw p = rw (new_weighted_selector_positive x refs p) (
    ground (
      arith,
      weight_from-le refs (0 + pos_part x.weight),
      healthy_total-weight_from (d ∷ cooldowns) now (x ∷ refs) 0,
      healthy_walk-walk (d ∷ cooldowns) now (x ∷ refs) 0
          (draw % healthy_total (d ∷ cooldowns) now (x ∷ refs) 0),
    ))

-- On a state whose selector was built from refs of positive weight, both paths of `pickHealthyLocked`
-- are the reference: the prebuilt selector when nothing cools, and the renormalised walk else.
pub choose_healthy-reference :
    (st : ModelState) (now draw : ℕ)
    → IsValid st
    → IsConfigured st.credentials
    → choose_healthy st.selector st.cooldowns st.credentials now draw
      ≡ reference_choice st.cooldowns st.credentials now draw
choose_healthy-reference st now draw v c =
    rw v.built (choose_by st.credentials st.cooldowns now draw c.positive)

in_refs-named :
    (refs : List CredentialRef) (id : String)
    → AllNamed refs
    → credential_in_refs refs id ≡ true
    → id ≢ ""
unfolding credential_in_refs
in_refs-named [] id p h = λ e. ground (arith, h)
in_refs-named (r ∷ refs) id p h = elim (Bool-cases (str_eq r.credential_id id)) [
  | inl e ↦ λ z. p.0 (str_eq→eq _ _ e ∙ z)
  | inr e ↦ in_refs-named refs id p.1 (ground arith)
]

no_weight : (refs : List CredentialRef) → AllPositive refs → weight_from 0 refs ≡ 0 → refs ≡ []
no_weight [] p h = refl
no_weight (r ∷ refs) p h = absurd (omega (arith, weight_from-le refs (0 + pos_part r.weight)))

abbrev pub IsHealthy : ModelState → ℕ → String → Type 0
IsHealthy st now id =
    (credential_in_refs st.credentials id ≡ true)
    × (is_cooling st.cooldowns id now ≡ false)
    × (id ≢ "")

pick_healthy-none :
    (st : ModelState) (now : ℕ)
    → choose_healthy st.selector st.cooldowns st.credentials now (st.rng 0) ≡ none
    → pick_healthy st now ≡ ("", st)
unfolding pick_healthy
pick_healthy-none st now h = rw (h, pick_healthy)

pick_healthy-some :
    (st : ModelState) (now : ℕ) (id : String)
    → choose_healthy st.selector st.cooldowns st.credentials now (st.rng 0) ≡ some id
    → pick_healthy st now ≡ (id, advance st)
unfolding pick_healthy
pick_healthy-some st now id h = rw (h, pick_healthy)

-- What `pick_healthy` does: with no healthy credential it fails and draws nothing; else it draws once
-- and gives a healthy one.
pub pick_healthy_cases :
    (st : ModelState) (now : ℕ)
    → IsValid st
    → IsConfigured st.credentials
    → ((pick_healthy st now ≡ ("", st)) × (healthy_refs st.cooldowns now st.credentials ≡ []))
      ⊎ ((id : String) × (pick_healthy st now ≡ (id, advance st)) × IsHealthy st now id)
pick_healthy_cases st now v c =
    let healthy = healthy_refs st.cooldowns now st.credentials in
    let e = choose_healthy-reference st now (st.rng 0) v c in
    elim (Bool-cases (weight_from 0 healthy == 0)) [
      | inl z ↦ inl (
        pick_healthy-none st now (e ∙ unfold reference_choice in rw z),
        no_weight healthy (healthy_refs-AllPositive _ now _ c.positive) (ground arith),
      )
      | inr z ↦
          let id = walk healthy 0 (st.rng 0 % weight_from 0 healthy) in
          let found =
            walk-in_refs healthy 0 (st.rng 0 % weight_from 0 healthy) (ground arith)
              (omega arith) in
          let (configured, cool) = in_healthy_refs st.cooldowns now st.credentials id found in
          inr (
            id,
            pick_healthy-some st now id (e ∙ unfold reference_choice in rw z),
            (configured, cool, in_refs-named st.credentials id c.named configured),
          )
    ]
