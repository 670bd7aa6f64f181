-- ===== src/Prelude/Assoc.antt =====
-- A collection of named things: a directory of the file system, or a dictionary with text keys.
use Prim.Native.String.{String}
use mathlib.Core.Path.{◌≡◌, refl}
use mathlib.Core.Option.{Option, none, some}
use mathlib.Core.List.{List, [], ◌∷◌}
use native.Mathlib.Omega.{arith}
use text.Mathlib.Text.{◌==◌}
use text.Mathlib.TextEquality.{eq_iff}
use text.Mathlib.TextPositions.{eq_refl}
use arch_linux_threadripper.Prelude.Tests.{if◌then◌else◌}

abbrev pub Assoc {ℓ} : Type ℓ → Type ℓ
Assoc V = List (String × V)

module _ {ℓ} {V : Type ℓ} where
  unfoldable pub find : Assoc V → String → Option V
  find [] k = none
  find ((j, v) ∷ d) k = if j == k then some v else find d k

  unfoldable pub place : Assoc V → String → V → Assoc V
  place [] k v = (k, v) ∷ []
  place ((j, w) ∷ d) k v = if j == k then (j, v) ∷ d else (j, w) ∷ place d k v

  pub find-place :
      (d : Assoc V) (k j : String) (v : V)
      → find (place d k v) j ≡ (if k == j then some v else find d j)
  unfolding find place
  find-place [] k j v = refl
  find-place ((i, w) ∷ d) k j v =
      ground (arith, eq_iff i k, eq_iff i j, eq_iff k j, find-place d k j v)

  pub find-place_self : (d : Assoc V) (k : String) (v : V) → find (place d k v) k ≡ some v
  find-place_self d k v = ground (arith, find-place d k k v, eq_refl k)
