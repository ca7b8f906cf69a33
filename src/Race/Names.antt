-- ===== src/Race/Names.antt =====
-- pkg/proxy/race_coordinator.go: what the steps of the abstract view leave, the chain, the budgets and the names.
use llm_supervisor_proxy.Race.Coordinator.{model_at}
use llm_supervisor_proxy.Race.Refines.{AllNamed, Named, RowsNamed, successor-named}
use llm_supervisor_proxy.Race.Request.{
  ModelType, second_attempt, fallback_attempt, cred_failover_attempt,
}
use llm_supervisor_proxy.Race.Shape.{
  Kind, Shape, SpawnStep, stays, rotates, advances, doubles, add_row, last_model,
}
use llm_supervisor_proxy.Support.{
  ℕ, zero, suc, ◌≡◌, ◌≢◌, sym, ap, ◌∙◌, subst, String, List, [], ◌∷◌, ◌++◌, some, arith,
}
use llm_supervisor_proxy.Race.Window.{some_injective}

pub SpawnStep-chain : (s t : Shape) → SpawnStep s t → t.chain ≡ s.chain
SpawnStep-chain s t (stays e) = ap (λ u. u.chain) (sym e)
SpawnStep-chain s t (rotates m l c e) = ap (λ u. u.chain) (sym e)
SpawnStep-chain s t (advances m next l f e) = ap (λ u. u.chain) (sym e)
SpawnStep-chain s t (doubles m next l f g e) = ap (λ u. u.chain) (sym e)

pub SpawnStep-budget : (s t : Shape) → SpawnStep s t → t.budget ≡ s.budget
SpawnStep-budget s t (stays e) = ap (λ u. u.budget) (sym e)
SpawnStep-budget s t (rotates m l c e) = ap (λ u. u.budget) (sym e)
SpawnStep-budget s t (advances m next l f e) = ap (λ u. u.budget) (sym e)
SpawnStep-budget s t (doubles m next l f g e) = ap (λ u. u.budget) (sym e)

RowsNamed-append :
    (rows : List Kind) (k : Kind) → RowsNamed rows → k.1 ≢ "" → RowsNamed (rows ++ k ∷ [])
RowsNamed-append [] k n h = (h, tt)
RowsNamed-append (a ∷ rows) k n h = (n.0, RowsNamed-append rows k n.1 h)

last_named : (rows : List Kind) (m : String) → RowsNamed rows → last_model rows ≡ some m → m ≢ ""
unfolding last_model
last_named [] m n h = absurd (ground (arith, h))
last_named (a ∷ []) m n h = λ z. n.0 (some_injective h ∙ z)
last_named (a ∷ b ∷ rows) m n h = last_named (b ∷ rows) m n.1 h

model_at-named :
    (i : ℕ) (m : String) (chain : List String) → AllNamed chain → model_at i chain ≡ some m → m ≢ ""
model_at-named i m [] n h = absurd (ground (arith, h))
model_at-named zero m (a ∷ chain) n h = λ z. n.0 (some_injective h ∙ z)
model_at-named (suc i) m (a ∷ chain) n h = model_at-named i m chain n.1 h

add_row-Named : (s : Shape) (t : ModelType) (m : String) → Named s → m ≢ "" → Named (add_row t m s)
add_row-Named s t m n h = (n.0, (n.1.0, RowsNamed-append s.rows (t, m) n.1.1 h))

pub SpawnStep-Named : (s t : Shape) → SpawnStep s t → Named s → Named t
SpawnStep-Named s t (stays e) n = subst Named e n
SpawnStep-Named s t (rotates m l c e) n =
    subst Named e (add_row-Named s cred_failover_attempt m n (last_named s.rows m n.1.1 l))
SpawnStep-Named s t (advances m next l f e) n =
    subst Named e (add_row-Named s fallback_attempt next n (successor-named m next s.chain n.1.0 f))
SpawnStep-Named s t (doubles m next l f g e) n = subst Named e (
    add_row-Named (add_row second_attempt m s) fallback_attempt next
      (add_row-Named s second_attempt m n (model_at-named 0 m s.chain n.1.0 f))
      (model_at-named 1 next s.chain n.1.0 g))
