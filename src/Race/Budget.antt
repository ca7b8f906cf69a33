-- ===== src/Race/Budget.antt =====
-- pkg/proxy/race_coordinator.go: how many attempts a race may spawn, proved on its abstract view.
use llm_supervisor_proxy.Race.Rows.{counts_as_model}
use llm_supervisor_proxy.Race.Failover.{count_of}
use llm_supervisor_proxy.Race.Request.{
  ModelType, main_attempt, second_attempt, fallback_attempt, cred_failover_attempt,
}
use llm_supervisor_proxy.Race.Shape.{
  Kind, Shape, SpawnStep, stays, rotates, advances, doubles, add_row, rotate,
}
use llm_supervisor_proxy.Support.Assoc.{Map, insert, lookup-insert}
use llm_supervisor_proxy.Support.{
  ℕ, suc, ◌<◌, ◌≤◌, ◌≡◌, refl, subst, true, String, List, [], ◌∷◌, ◌++◌, Bool-cases, inl, inr,
  arith, str_eq, str_eq→eq, str_eq_refl, if◌then◌else◌,
}

-- The attempts that moved a model to another credential.
unfoldable pub rotation_rows : String → List Kind → ℕ
rotation_rows m [] = 0
rotation_rows m ((main_attempt, j) ∷ rows) = rotation_rows m rows
rotation_rows m ((second_attempt, j) ∷ rows) = rotation_rows m rows
rotation_rows m ((fallback_attempt, j) ∷ rows) = rotation_rows m rows
rotation_rows m ((cred_failover_attempt, j) ∷ rows) =
    if str_eq j m then suc (rotation_rows m rows) else rotation_rows m rows

rotation_rows-cred :
    (m j : String) (rows : List Kind)
    → rotation_rows m (rows ++ (cred_failover_attempt, j) ∷ [])
      ≡ (if str_eq j m then suc (rotation_rows m rows) else rotation_rows m rows)
unfolding rotation_rows
rotation_rows-cred m j [] = refl
rotation_rows-cred m j ((main_attempt, i) ∷ rows) = rotation_rows-cred m j rows
rotation_rows-cred m j ((second_attempt, i) ∷ rows) = rotation_rows-cred m j rows
rotation_rows-cred m j ((fallback_attempt, i) ∷ rows) = rotation_rows-cred m j rows
rotation_rows-cred m j ((cred_failover_attempt, i) ∷ rows) =
    ground (arith, rotation_rows-cred m j rows)

rotation_rows-model :
    (m j : String) (t : ModelType) (rows : List Kind)
    → counts_as_model t ≡ true
    → rotation_rows m (rows ++ (t, j) ∷ []) ≡ rotation_rows m rows
unfolding rotation_rows
rotation_rows-model m j main_attempt [] h = refl
rotation_rows-model m j second_attempt [] h = refl
rotation_rows-model m j fallback_attempt [] h = refl
rotation_rows-model m j cred_failover_attempt [] h = absurd (ground (arith, h))
rotation_rows-model m j t ((main_attempt, i) ∷ rows) h = rotation_rows-model m j t rows h
rotation_rows-model m j t ((second_attempt, i) ∷ rows) h = rotation_rows-model m j t rows h
rotation_rows-model m j t ((fallback_attempt, i) ∷ rows) h = rotation_rows-model m j t rows h
rotation_rows-model m j t ((cred_failover_attempt, i) ∷ rows) h =
    ground (arith, rotation_rows-model m j t rows h)

count_of-insert :
    (j k : String) (n : ℕ) (counts : Map ℕ)
    → count_of j (insert k n counts) ≡ (if str_eq k j then n else count_of j counts)
count_of-insert j k n counts = ground (arith, lookup-insert j k n counts)

-- The books of the rotations are the rows, and no model is over its budget.
abbrev pub Balanced : Shape → Type 0
Balanced s =
    (m : String)
    → (rotation_rows m s.rows ≡ count_of m s.rotations) × (count_of m s.rotations ≤ s.budget m)

rotate-Balanced :
    (s : Shape) (m : String)
    → count_of m s.rotations < s.budget m
    → Balanced s
    → Balanced (rotate m s)
rotate-Balanced s m l b j = elim (Bool-cases (str_eq m j)) [
  | inl e ↦
      subst
        (λ i.
          (rotation_rows i (rotate m s).rows ≡ count_of i (rotate m s).rotations)
          × (count_of i (rotate m s).rotations ≤ s.budget i))
        (str_eq→eq m j e)
        (ground (
          arith,
          l,
          b m,
          str_eq_refl m,
          rotation_rows-cred m m s.rows,
          count_of-insert m m (suc (count_of m s.rotations)) s.rotations,
        ))
  | inr e ↦ ground (
    arith,
    e,
    b j,
    rotation_rows-cred j m s.rows,
    count_of-insert j m (suc (count_of m s.rotations)) s.rotations,
  )
]

model_row-Balanced :
    (s : Shape) (t : ModelType) (m : String)
    → counts_as_model t ≡ true
    → Balanced s
    → Balanced (add_row t m s)
model_row-Balanced s t m h b j = ground (arith, b j, rotation_rows-model j m t s.rows h)

pub SpawnStep-Balanced : (s t : Shape) → SpawnStep s t → Balanced s → Balanced t
SpawnStep-Balanced s t (stays e) b = subst Balanced e b
SpawnStep-Balanced s t (rotates m l c e) b = subst Balanced e (rotate-Balanced s m c b)
SpawnStep-Balanced s t (advances m next l c e) b =
    subst Balanced e (model_row-Balanced s fallback_attempt next refl b)
SpawnStep-Balanced s t (doubles m next l f g e) b = subst Balanced e (
    model_row-Balanced (add_row second_attempt m s) fallback_attempt next refl
      (model_row-Balanced s second_attempt m refl b))
