-- ===== src/Base/Assoc.antt =====
-- A map from texts, as an association list.
use Prim.Native.String.{String}
use text.Mathlib.Text.{◌==◌ as str_eq}
use text.Mathlib.TextEquality.{eq_iff}
use mathlib.Core.Path.{◌≡◌, refl}
use mathlib.Core.List.{List, [], ◌∷◌}
use mathlib.Core.Option.{Option, none, some}
use native.Mathlib.Omega.{arith}
use bulk.Base.Tests.{if◌then◌else◌}

module _ {ℓ} {V : Type ℓ} where
  abbrev pub lookup : String → List (String × V) → Option V
  lookup key [] = none
  lookup key ((first, found) ∷ rest) = if str_eq first key then some found else lookup key rest

  abbrev pub insert : String → V → List (String × V) → List (String × V)
  insert key value [] = (key, value) ∷ []
  insert key value ((first, old) ∷ rest) =
      if str_eq first key then (key, value) ∷ rest else (first, old) ∷ insert key value rest

  pub lookup-insert :
      (key sought : String) (value : V) (entries : List (String × V))
      → lookup sought (insert key value entries)
        ≡ (if str_eq key sought then some value else lookup sought entries)
  lookup-insert key sought value [] = refl
  lookup-insert key sought value ((first, old) ∷ rest) = ground (
    arith,
    lookup-insert key sought value rest,
    eq_iff first sought,
    eq_iff first key,
    eq_iff key sought,
  )
