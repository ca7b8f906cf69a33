-- ===== src/Race/Bounds.antt =====
-- pkg/proxy/race_coordinator.go: the bounds on the attempts of a whole race.
use llm_supervisor_proxy.CredentialLb.Engine.{Engine}
use llm_supervisor_proxy.Race.Budget.{Balanced, SpawnStep-Balanced, rotation_rows}
use llm_supervisor_proxy.Race.Coordinator.{
  Config, RaceCoordinator, initial_info, new_race_coordinator, spawn_model, start,
}
use llm_supervisor_proxy.Race.Rows.{model_attempt_count}
use llm_supervisor_proxy.Race.Failover.{model_budget}
use llm_supervisor_proxy.Race.Events.{RaceEvent, race_step, run_race}
use llm_supervisor_proxy.Race.Refines.{AllNamed, Named, shape-spawn}
use llm_supervisor_proxy.Race.Request.{main_attempt}
use llm_supervisor_proxy.Race.Shape.{
  Shape, SpawnStep, add_row, model_rows, model_rows-kinds, kinds, last_model, shape,
}
use llm_supervisor_proxy.Race.Decisions.{race_step-SpawnStep}
use llm_supervisor_proxy.Race.Window.{NoRepeat, SpawnStep-Walks, Walks, place}
use llm_supervisor_proxy.Race.Names.{SpawnStep-Named, SpawnStep-budget, SpawnStep-chain}
use llm_supervisor_proxy.Support.Assoc.{lookup}
use llm_supervisor_proxy.Support.{
  ℕ, ◌+◌, ◌≤◌, ◌≡◌, refl, sym, ap, ◌∙◌, subst, Bool, false, String, List, [], ◌∷◌, Option, some,
  arith, length, str_eq_refl,
}

-- The invariant of the abstract view.
abbrev pub Sound : Shape → Type 0
Sound s = Named s × (NoRepeat s.chain × (Balanced s × Walks s))

step-Sound : (s t : Shape) → SpawnStep s t → Sound s → Sound t
step-Sound s t step (n, (r, (b, w))) = (
  SpawnStep-Named s t step n,
  (
    subst NoRepeat (sym (SpawnStep-chain s t step)) r,
    (SpawnStep-Balanced s t step b, SpawnStep-Walks s t step r w),
  ),
)

pub race_step-Sound :
    (c : RaceCoordinator) (e : RaceEvent) → Sound (shape c) → Sound (shape (race_step c e))
race_step-Sound c e s = step-Sound (shape c) (shape (race_step c e)) (race_step-SpawnStep c e s.0) s

pub run_race-Sound :
    (events : List RaceEvent) (c : RaceCoordinator)
    → Sound (shape c)
    → Sound (shape (run_race c events))
unfolding run_race
run_race-Sound [] c s = s
run_race-Sound (e ∷ events) c s = run_race-Sound events (race_step c e) (race_step-Sound c e s)

-- The chain and the budgets of a race never change.
run_race-constant :
    (events : List RaceEvent) (c : RaceCoordinator)
    → Sound (shape c)
    → ((shape (run_race c events)).chain ≡ (shape c).chain)
      × ((shape (run_race c events)).budget ≡ (shape c).budget)
unfolding run_race
run_race-constant [] c s = (refl, refl)
run_race-constant (e ∷ events) c s =
    let step = race_step-SpawnStep c e s.0 in
    let later = run_race-constant events (race_step c e) (race_step-Sound c e s) in
    (
      later.0 ∙ SpawnStep-chain (shape c) (shape (race_step c e)) step,
      later.1 ∙ SpawnStep-budget (shape c) (shape (race_step c e)) step,
    )

start-shape :
    (now : ℕ) (m : String) (c : RaceCoordinator)
    → spawn_model main_attempt "" (length c.requests) c.models ≡ some m
    → shape (start now c) ≡ add_row main_attempt m (shape c)
unfolding start
start-shape now m c h = shape-spawn main_attempt initial_info m c h

first_model :
    (m : String) (models : List String) → spawn_model main_attempt "" 0 (m ∷ models) ≡ some m
unfolding spawn_model
first_model m models = ground arith

fresh-Sound :
    (cfg : Config) (engine : Option Engine) (key m : String) (models : List String) (own : String)
    (live pick : Bool)
    → AllNamed (m ∷ models)
    → NoRepeat (m ∷ models)
    → Sound (
        add_row main_attempt m
          (shape (new_race_coordinator cfg engine key (m ∷ models) own live pick)))
unfolding new_race_coordinator kinds rotation_rows lookup last_model model_rows place
fresh-Sound cfg engine key m models own live pick n r = (
  ((λ z. ground (arith, z)), (n, (n.0, tt))),
  (r, ((λ j. (refl, omega arith)), (m, (refl, ground (arith, str_eq_refl m))))),
)

abbrev pub launch :
    Config → Option Engine → String → String → List String → Bool → ℕ → RaceCoordinator
launch cfg engine key m models live now =
    start now (new_race_coordinator cfg engine key (m ∷ models) "" live false)

launch-shape :
    (cfg : Config) (engine : Option Engine) (key m : String) (models : List String) (live : Bool)
    (now : ℕ)
    → shape (launch cfg engine key m models live now)
      ≡ add_row main_attempt m
          (shape (new_race_coordinator cfg engine key (m ∷ models) "" live false))
unfolding new_race_coordinator
launch-shape cfg engine key m models live now =
    start-shape now m (new_race_coordinator cfg engine key (m ∷ models) "" live false)
      (first_model m models)

launch-chain :
    (cfg : Config) (engine : Option Engine) (key m : String) (models : List String) (live : Bool)
    (now : ℕ)
    → (shape (launch cfg engine key m models live now)).chain ≡ m ∷ models
unfolding new_race_coordinator
launch-chain cfg engine key m models live now =
    ap (λ s. s.chain) (launch-shape cfg engine key m models live now)

launch-budget :
    (cfg : Config) (engine : Option Engine) (key m : String) (models : List String) (live : Bool)
    (now : ℕ)
    → (shape (launch cfg engine key m models live now)).budget ≡ model_budget cfg
unfolding new_race_coordinator
launch-budget cfg engine key m models live now =
    ap (λ s. s.budget) (launch-shape cfg engine key m models live now)

pub launch-Sound :
    (cfg : Config) (engine : Option Engine) (key m : String) (models : List String) (live : Bool)
    (now : ℕ)
    → AllNamed (m ∷ models)
    → NoRepeat (m ∷ models)
    → Sound (shape (launch cfg engine key m models live now))
launch-Sound cfg engine key m models live now n r =
    subst Sound (sym (launch-shape cfg engine key m models live now))
      (fresh-Sound cfg engine key m models "" live false n r)

shape_bounds :
    (s : Shape) (chain : List String) (budget : String → ℕ)
    → s.chain ≡ chain
    → s.budget ≡ budget
    → Sound s
    → (model_rows s.rows ≤ length chain + 1) × ((j : String) → rotation_rows j s.rows ≤ budget j)
shape_bounds s chain budget p q (n, (r, (b, (m, (l, w))))) = (
  subst (λ l'. model_rows s.rows ≤ length l' + 1) p (omega (arith, w)),
  λ j. subst (λ f. rotation_rows j s.rows ≤ f j) q (ground (arith, b j)),
)

-- In a race over a chain of named models without a repetition, whatever its ticks, deadlines and
-- executors do and in whatever order, the attempts of models are never more than the chain is long,
-- plus one, and each model is moved to another credential at most as often as it has credentials
-- besides its first.
pub race_bounds :
    (cfg : Config) (engine : Option Engine) (key m : String) (models : List String) (live : Bool)
    (now : ℕ) (events : List RaceEvent)
    → AllNamed (m ∷ models)
    → NoRepeat (m ∷ models)
    → let c = run_race (launch cfg engine key m models live now) events in
      (model_attempt_count c.requests ≤ length (m ∷ models) + 1)
      × ((j : String) → rotation_rows j (kinds c.requests) ≤ model_budget cfg j)
race_bounds cfg engine key m models live now events n r =
    let c0 = launch cfg engine key m models live now in
    let c = run_race c0 events in
    let sound = launch-Sound cfg engine key m models live now n r in
    let fixed = run_race-constant events c0 sound in
    let found =
      shape_bounds (shape c) (m ∷ models) (model_budget cfg)
        (fixed.0 ∙ launch-chain cfg engine key m models live now)
        (fixed.1 ∙ launch-budget cfg engine key m models live now)
        (run_race-Sound events c0 sound) in
    (subst (λ k. k ≤ length (m ∷ models) + 1) (model_rows-kinds c.requests) found.0, found.1)
