-- ===== src/Common/Maps.antt =====
-- Go's `map[string]V` as an association list under byte-string keys. The program never depends on
-- the order of a map's entries.
use mathlib.Core.List.{List, [], ◌∷◌}
use mathlib.Core.Option.{Option, none, some}
use mathlib.Core.Path.{◌≡◌}
use native.Mathlib.Omega.{arith}
use device_serial_scanner.Common.Tests.{if◌then◌else◌}
use device_serial_scanner.Common.Text.{Bytes, text_eq, text_eq_iff}

abbrev pub Assoc {ℓ} : Type ℓ → Type ℓ
Assoc V = List (Bytes × V)

module _ {ℓ} {V : Type ℓ} where
  unfoldable pub lookup : Bytes → Assoc V → Option V
  lookup k [] = none
  lookup k ((j, v) ∷ l) = if text_eq j k then some v else lookup k l

  -- delete(m, k)
  unfoldable pub remove : Bytes → Assoc V → Assoc V
  remove k [] = []
  remove k ((j, v) ∷ l) = let rest = remove k l in if text_eq j k then rest else (j, v) ∷ rest

  -- m[k] = v
  unfoldable pub put : Bytes → V → Assoc V → Assoc V
  unfolding remove
  put k v l = (k, v) ∷ remove k l

  pub lookup-remove :
      (k j : Bytes) (l : Assoc V)
      → lookup j (remove k l) ≡ (if text_eq k j then none else lookup j l)
  unfolding lookup remove
  lookup-remove k j [] = ground arith
  lookup-remove k j ((i, v) ∷ l) =
      ground (arith, lookup-remove k j l, text_eq_iff i k, text_eq_iff i j, text_eq_iff k j)

  pub lookup-put :
      (k j : Bytes) (v : V) (l : Assoc V)
      → lookup j (put k v l) ≡ (if text_eq k j then some v else lookup j l)
  unfolding lookup put
  lookup-put k j v l = ground (arith, lookup-remove k j l)
