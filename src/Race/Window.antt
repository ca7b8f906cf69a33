-- ===== src/Race/Window.antt =====
-- pkg/proxy/race_coordinator.go: how far along the chain a race has come, proved on its abstract view.
use llm_supervisor_proxy.Race.Coordinator.{model_at}
use llm_supervisor_proxy.Race.Rows.{counts_as_model}
use llm_supervisor_proxy.Race.Failover.{successor}
use llm_supervisor_proxy.Race.Request.{second_attempt, fallback_attempt, cred_failover_attempt}
use llm_supervisor_proxy.Race.Shape.{
  Kind, Shape, SpawnStep, stays, rotates, advances, doubles, add_row, model_rows, last_model,
  rotate,
}
use llm_supervisor_proxy.Support.{
  ℕ, suc, ◌+◌, ◌<◌, ◌≤◌, ◌≡◌, refl, sym, ap, ◌∙◌, subst, false, String, List, [], ◌∷◌, ◌++◌, Option,
  some, Bool-cases, inl, inr, arith, length, str_eq, str_eq_refl, if◌then◌else◌,
}

-- The first place of a model in a chain, or the chain's length.
unfoldable pub place : String → List String → ℕ
place m [] = 0
place m (a ∷ chain) = if str_eq a m then 0 else suc (place m chain)

abbrev pub Absent : String → List String → Type 0
Absent m [] = Unit
Absent m (a ∷ chain) = (str_eq m a ≡ false) × Absent m chain

-- No model stands twice in the chain.
abbrev pub NoRepeat : List String → Type 0
NoRepeat [] = Unit
NoRepeat (m ∷ chain) = Absent m chain × NoRepeat chain

Absent-ne :
    (m next a : String) (chain : List String)
    → Absent a chain
    → successor m chain ≡ some next
    → str_eq a next ≡ false
unfolding successor
Absent-ne m next a [] b h = absurd (ground (arith, h))
Absent-ne m next a (c ∷ []) b h = absurd (ground (arith, h))
Absent-ne m next a (c ∷ d ∷ chain) b h = elim (Bool-cases (str_eq c m)) [
  | inl e ↦ ground (arith, e, h, b.1.0)
  | inr e ↦ Absent-ne m next a (d ∷ chain) b.1 (ground (arith, e, h))
]

place-successor_later :
    (m next a : String) (chain : List String)
    → str_eq a m ≡ false
    → str_eq a next ≡ false
    → (place next chain ≡ suc (place m chain)) × (place next chain < length chain)
    → (place next (a ∷ chain) ≡ suc (place m (a ∷ chain)))
      × (place next (a ∷ chain) < length (a ∷ chain))
unfolding place
place-successor_later m next a chain e f (g, h) = rw (e, f) (ap suc g, omega (arith, h))

-- The next model stands one place further on.
place-successor :
    (m next : String) (chain : List String)
    → NoRepeat chain
    → successor m chain ≡ some next
    → (place next chain ≡ suc (place m chain)) × (place next chain < length chain)
unfolding successor place
place-successor m next [] n h = absurd (ground (arith, h))
place-successor m next (a ∷ []) n h = absurd (ground (arith, h))
place-successor m next (a ∷ b ∷ chain) n h = elim (Bool-cases (str_eq a m)) [
  | inl e ↦ ground (arith, e, h, n.0.0, str_eq_refl b)
  | inr e ↦
      let later = place-successor m next (b ∷ chain) n.1 (ground (arith, e, h)) in
      let apart = Absent-ne m next a (b ∷ chain) n.0 (ground (arith, e, h)) in
      place-successor_later m next a (b ∷ chain) e apart later
]

last_model-append : (rows : List Kind) (k : Kind) → last_model (rows ++ k ∷ []) ≡ some k.1
unfolding last_model
last_model-append [] k = refl
last_model-append (a ∷ []) k = refl
last_model-append (a ∷ b ∷ rows) k = last_model-append (b ∷ rows) k

model_rows-append :
    (rows : List Kind) (k : Kind)
    → model_rows (rows ++ k ∷ [])
      ≡ (if counts_as_model k.0 then suc (model_rows rows) else model_rows rows)
unfolding model_rows
model_rows-append [] k = refl
model_rows-append (a ∷ rows) k = ground (arith, model_rows-append rows k)

model_rows-le : (rows : List Kind) → model_rows rows ≤ length rows
unfolding model_rows
model_rows-le [] = omega arith
model_rows-le (a ∷ rows) = ground (arith, model_rows-le rows)

-- The attempts of a model are at most one more than the place the chain has come to, and at least that
-- place: `m` is the latest model.
abbrev pub InWindow : Shape → String → Type 0
InWindow s m =
    (place m s.chain < length s.chain)
    × ((model_rows s.rows ≤ place m s.chain + 2) × (place m s.chain + 1 ≤ model_rows s.rows))

abbrev pub Walks : Shape → Type 0
Walks s = (m : String) × ((last_model s.rows ≡ some m) × InWindow s m)

pub some_injective : {a b : String} → ◌≡◌ {A = Option String} (some a) (some b) → a ≡ b
some_injective h = ground (arith, h)

rotate-Walks : (s : Shape) (m : String) → last_model s.rows ≡ some m → Walks s → Walks (rotate m s)
rotate-Walks s m l (j, (k, w)) =
    let same = some_injective (sym k ∙ l) in
    (
      m,
      (
        last_model-append s.rows (cred_failover_attempt, m),
        subst
            (λ i.
              (place i s.chain < length s.chain)
              × ((model_rows (rotate m s).rows ≤ place i s.chain + 2)
                  × (place i s.chain + 1 ≤ model_rows (rotate m s).rows)))
            same (ground (arith, w, model_rows-append s.rows (cred_failover_attempt, m))),
      ),
    )

advance-Walks :
    (s : Shape) (m next : String)
    → NoRepeat s.chain
    → last_model s.rows ≡ some m
    → successor m s.chain ≡ some next
    → Walks s
    → Walks (add_row fallback_attempt next s)
advance-Walks s m next n l f (j, (k, w)) =
    let w' = subst (InWindow s) (some_injective (sym k ∙ l)) w in
    (
      next,
      (
        last_model-append s.rows (fallback_attempt, next),
        ground (
          arith,
          w',
          place-successor m next s.chain n f,
          model_rows-append s.rows (fallback_attempt, next),
        ),
      ),
    )

first_two :
    (m next : String) (chain : List String)
    → NoRepeat chain
    → model_at 0 chain ≡ some m
    → model_at 1 chain ≡ some next
    → (place next chain ≡ 1) × (1 < length chain)
unfolding place
first_two m next [] n f g = absurd (ground (arith, f))
first_two m next (a ∷ []) n f g = absurd (ground (arith, g))
first_two m next (a ∷ b ∷ chain) n f g = ground (arith, f, g, n.0.0, str_eq_refl b)

double-Walks :
    (s : Shape) (m next : String)
    → NoRepeat s.chain
    → length s.rows ≡ 1
    → model_at 0 s.chain ≡ some m
    → model_at 1 s.chain ≡ some next
    → Walks (add_row fallback_attempt next (add_row second_attempt m s))
double-Walks s m next n l f g =
    let rows = s.rows ++ (second_attempt, m) ∷ [] in
    (
      next,
      (
        last_model-append rows (fallback_attempt, next),
        ground (
          arith,
          l,
          model_rows-le s.rows,
          first_two m next s.chain n f g,
          model_rows-append s.rows (second_attempt, m),
          model_rows-append rows (fallback_attempt, next),
        ),
      ),
    )

pub SpawnStep-Walks : (s t : Shape) → SpawnStep s t → NoRepeat s.chain → Walks s → Walks t
SpawnStep-Walks s t (stays e) n w = subst Walks e w
SpawnStep-Walks s t (rotates m l c e) n w = subst Walks e (rotate-Walks s m l w)
SpawnStep-Walks s t (advances m next l f e) n w = subst Walks e (advance-Walks s m next n l f w)
SpawnStep-Walks s t (doubles m next l f g e) n w = subst Walks e (double-Walks s m next n l f g)
