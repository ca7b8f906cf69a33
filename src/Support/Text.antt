-- ===== src/Support/Text.antt =====
-- Go strings, compared as whole texts.
use Prim.Native.String.{String}
use mathlib.Core.Bool.{Bool, true, false}
use mathlib.Core.Path.{◌≡◌, refl}
use mathlib.Core.Logic.{◌≢◌}
use text.Mathlib.Text.{◌==◌ as native_eq}
use text.Mathlib.TextEquality.{eq_iff}
use native.Mathlib.Omega.{arith}

decide_by : (b : Bool) (s t : String) → native_eq s t ≡ b → Dec (s ≡ t)
decide_by true s t e = yes ((eq_iff s t).0 e)
decide_by false s t e = no (λ p. ground (arith, (eq_iff s t).1 p))

unfoldable pub dec_str : Discrete String
unfolding decide_by
dec_str s t = decide_by (native_eq s t) s t refl

abbrev pub str_eq : String → String → Bool
str_eq s t = elim (dec_str s t) [ yes _ ↦ true | no _ ↦ false ]

pub str_eq→eq : (s t : String) → str_eq s t ≡ true → s ≡ t
str_eq→eq s t h = ground arith

pub str_eq_refl : (s : String) → str_eq s s ≡ true
str_eq_refl s = ground arith

str_eq_runs : str_eq "abc" "abd" ≡ false
unfolding dec_str
str_eq_runs = refl

pub str_ne : (s t : String) → str_eq s t ≡ false → s ≢ t
str_ne s t h e = ground arith
