-- ===== src/Support/Assoc.antt =====
-- Association lists with text keys, for the Go maps of the program. A write to a present key
-- replaces its value in place.
use llm_supervisor_proxy.Support.Tests.{if◌then◌else◌}
use llm_supervisor_proxy.Support.Text.{str_eq}
use llm_supervisor_proxy.Support.Lists.{length}
use Prim.Native.Nat.{suc, ◌≤◌}
use Prim.Native.String.{String}
use mathlib.Core.Path.{◌≡◌, refl}
use mathlib.Core.Bool.{Bool}
use mathlib.Core.Option.{Option, none, some}
use mathlib.Core.List.{List, [], ◌∷◌}
use native.Mathlib.Omega.{arith}

abbrev pub Map {ℓ} : Type ℓ → Type ℓ
Map V = List (String × V)

module _ {ℓ} {V : Type ℓ} where
  unfoldable pub lookup : String → Map V → Option V
  lookup k [] = none
  lookup k ((j, v) ∷ m) = if str_eq j k then some v else lookup k m

  unfoldable pub insert : String → V → Map V → Map V
  insert k v [] = (k, v) ∷ []
  insert k v ((j, w) ∷ m) = if str_eq j k then (j, v) ∷ m else (j, w) ∷ insert k v m

  -- `delete(m, k)`; every entry of the key goes, so the order of a range loop does not matter.
  unfoldable pub delete : String → Map V → Map V
  delete k [] = []
  delete k ((j, w) ∷ m) = if str_eq j k then delete k m else (j, w) ∷ delete k m

  -- The range loop that deletes the entries which fail a test.
  unfoldable pub keep : (V → Bool) → Map V → Map V
  keep p [] = []
  keep p ((j, w) ∷ m) = if p w then (j, w) ∷ keep p m else keep p m

  -- No key stands twice.
  abbrev pub Distinct : Map V → Type ℓ
  Distinct [] = Unit
  Distinct ((k, v) ∷ m) = (lookup k m ≡ none) × Distinct m

  pub lookup-insert :
      (j k : String) (v : V) (m : Map V)
      → lookup j (insert k v m) ≡ (if str_eq k j then some v else lookup j m)
  unfolding lookup insert
  lookup-insert j k v [] = refl
  lookup-insert j k v ((i, w) ∷ m) = ground (arith, lookup-insert j k v m)

  pub lookup-delete :
      (j k : String) (m : Map V) → lookup j (delete k m) ≡ (if str_eq k j then none else lookup j m)
  unfolding lookup delete
  lookup-delete j k [] = ground arith
  lookup-delete j k ((i, w) ∷ m) = ground (arith, lookup-delete j k m)

  pub lookup-keep-none :
      (p : V → Bool) (k : String) (m : Map V) → lookup k m ≡ none → lookup k (keep p m) ≡ none
  unfolding lookup keep
  lookup-keep-none p k [] h = refl
  lookup-keep-none p k ((j, w) ∷ m) h = ground (arith, lookup-keep-none p k m)

  pub lookup-keep-some :
      (p : V → Bool) (k : String) (m : Map V) (v : V)
      → Distinct m
      → lookup k m ≡ some v
      → lookup k (keep p m) ≡ (if p v then some v else none)
  unfolding lookup keep
  lookup-keep-some p k [] v d h = ground arith
  lookup-keep-some p k ((j, w) ∷ m) v d h =
      ground (arith, lookup-keep-some p k m v d.1, lookup-keep-none p j m d.0)

  pub insert-Distinct : (k : String) (v : V) (m : Map V) → Distinct m → Distinct (insert k v m)
  unfolding insert lookup
  insert-Distinct k v [] d = (refl, tt)
  insert-Distinct k v ((j, w) ∷ m) d =
      ground (arith, insert-Distinct k v m d.1, lookup-insert j k v m)

  pub delete-Distinct : (k : String) (m : Map V) → Distinct m → Distinct (delete k m)
  unfolding delete
  delete-Distinct k [] d = tt
  delete-Distinct k ((j, w) ∷ m) d = ground (arith, delete-Distinct k m d.1, lookup-delete j k m)

  pub keep-Distinct : (p : V → Bool) (m : Map V) → Distinct m → Distinct (keep p m)
  unfolding keep
  keep-Distinct p [] d = tt
  keep-Distinct p ((j, w) ∷ m) d = ground (arith, keep-Distinct p m d.1, lookup-keep-none p j m d.0)

  pub length-insert_new :
      (k : String) (v : V) (m : Map V) → lookup k m ≡ none → length (insert k v m) ≡ suc (length m)
  unfolding insert lookup
  length-insert_new k v [] h = refl
  length-insert_new k v ((j, w) ∷ m) h = ground (arith, length-insert_new k v m)

  pub length-insert_old :
      (k : String) (v w : V) (m : Map V) → lookup k m ≡ some w → length (insert k v m) ≡ length m
  unfolding insert lookup
  length-insert_old k v w [] h = ground arith
  length-insert_old k v w ((j, u) ∷ m) h = ground (arith, length-insert_old k v w m)

  pub delete_absent : (k : String) (m : Map V) → lookup k m ≡ none → delete k m ≡ m
  unfolding delete lookup
  delete_absent k [] h = refl
  delete_absent k ((j, u) ∷ m) h = ground (arith, delete_absent k m)

  pub length-delete :
      (k : String) (w : V) (m : Map V)
      → Distinct m
      → lookup k m ≡ some w
      → suc (length (delete k m)) ≡ length m
  unfolding delete lookup
  length-delete k w [] d h = ground arith
  length-delete k w ((j, u) ∷ m) d h =
      ground (arith, length-delete k w m d.1, delete_absent j m d.0)

  pub length-keep-le : (p : V → Bool) (m : Map V) → length (keep p m) ≤ length m
  unfolding keep
  length-keep-le p [] = omega arith
  length-keep-le p ((j, w) ∷ m) = ground (arith, length-keep-le p m)

-- A range loop that rewrites every value.
unfoldable pub map_values {ℓ} : {V : Type ℓ} → (V → V) → Map V → Map V
map_values f [] = []
map_values f ((k, v) ∷ m) = (k, f v) ∷ map_values f m

pub lookup-map_values {ℓ} :
    {V : Type ℓ} (f : V → V) (k : String) (m : Map V) (v : V)
    → lookup k m ≡ some v
    → lookup k (map_values f m) ≡ some (f v)
unfolding lookup map_values
lookup-map_values f k [] v h = cc
lookup-map_values f k ((j, w) ∷ m) v h = ground (arith, lookup-map_values f k m v)

pub lookup-map_values-none {ℓ} :
    {V : Type ℓ} (f : V → V) (k : String) (m : Map V)
    → lookup k m ≡ none
    → lookup k (map_values f m) ≡ none
unfolding lookup map_values
lookup-map_values-none f k [] h = refl
lookup-map_values-none f k ((j, w) ∷ m) h = ground (arith, lookup-map_values-none f k m)
