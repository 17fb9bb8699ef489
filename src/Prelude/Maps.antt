-- ===== src/Prelude/Maps.antt =====
-- Go's map[string]int as an association list: a key that is not in it has value 0.
use Prim.Native.Nat.{ℕ}
use Prim.Native.String.{String}
use mathlib.Core.Path.{◌≡◌, refl}
use mathlib.Core.List.{List, [], ◌∷◌}
use native.Mathlib.Omega.{arith}
use task_execution_engine.Prelude.Tests.{str_eq, str_eq_iff, if◌then◌else◌}

unfoldable pub get : String → List (String × ℕ) → ℕ
get c [] = 0
get c ((d, n) ∷ m) = if str_eq d c then n else get c m

unfoldable pub put : String → ℕ → List (String × ℕ) → List (String × ℕ)
put c v [] = (c, v) ∷ []
put c v ((d, n) ∷ m) = if str_eq d c then (c, v) ∷ m else (d, n) ∷ put c v m

pub get-put :
    (c d : String) (v : ℕ) (m : List (String × ℕ))
    → get d (put c v m) ≡ (if str_eq c d then v else get d m)
unfolding get put
get-put c d v [] = refl
get-put c d v ((b, n) ∷ m) =
    ground (arith, str_eq_iff c d, str_eq_iff b c, str_eq_iff b d, get-put c d v m)
