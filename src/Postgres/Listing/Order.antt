-- ===== src/Postgres/Listing/Order.antt =====
-- The order of the rows of a listing, where no two of them have one sort key.
use bulk.Base.{
  ◌≡◌, refl, Bool, true, false, List, [], ◌∷◌, Option, none, some, arith, ◌⊎◌, inl, inr, sym, ltb,
  All, ap, ◌∙◌,
}
use bulk.Domain.{Time}
use bulk.World.Rows.{BatchRow}

-- A key comes before another one; NULL is the greatest.
abbrev pub before : Bool → Option Time → Option Time → Bool
before false (some a) (some b) = ltb a b
before false (some a) none = true
before false none b = false
before true (some a) (some b) = ltb b a
before true none (some b) = true
before true a none = false

before_irreflexive : (desc : Bool) (a : Option Time) → before desc a a ≡ false
before_irreflexive false (some a) = ground arith
before_irreflexive false none = refl
before_irreflexive true (some a) = ground arith
before_irreflexive true none = refl

before_asymmetric :
    (desc : Bool) (a b : Option Time) → before desc a b ≡ true → before desc b a ≡ true → ⊥
before_asymmetric desc a b h k = ground (arith, h, k)

-- What holds for all rows of one list holds for all rows of the other one.
abbrev pub SameRows : List BatchRow → List BatchRow → Type 1
SameRows xs ys =
    ((P : BatchRow → Type 0) → All P xs → All P ys)
    × ((P : BatchRow → Type 0) → All P ys → All P xs)

All-right : (P Q : BatchRow → Type 0) (rs : List BatchRow) → All Q rs → All (λ r. P r ⊎ Q r) rs
All-right P Q [] h = tt
All-right P Q (r ∷ rs) h = (inr h.0, All-right P Q rs h.1)

module _ (column : BatchRow → Option Time) (desc : Bool) where
  -- The rows are in the order of their keys, and no two keys are the same.
  abbrev pub StrictlySorted : List BatchRow → Type 0
  StrictlySorted [] = Unit {0}
  StrictlySorted (r ∷ rs) =
      All (λ x. before desc (column r) (column x) ≡ true) rs × StrictlySorted rs

  without_head :
      (P : BatchRow → Type 0) (x y : BatchRow) (rs : List BatchRow)
      → x ≡ y
      → All (λ r. (r ≡ x) ⊎ P r) rs
      → All (λ r. before desc (column y) (column r) ≡ true) rs
      → All P rs
  without_head P x y [] e h k = tt
  without_head P x y (r ∷ rs) e (inl same, h) (less, k) =
      absurd (ground (arith, ap column (same ∙ e), less, before_irreflexive desc (column y)))
  without_head P x y (r ∷ rs) e (inr holds, h) (less, k) = (holds, without_head P x y rs e h k)

  same_tails :
      (x y : BatchRow) (xs ys : List BatchRow)
      → x ≡ y
      → StrictlySorted (y ∷ ys)
      → ((P : BatchRow → Type 0) → All P (x ∷ xs) → All P (y ∷ ys))
      → (P : BatchRow → Type 0) → All P xs
      → All P ys
  same_tails x y xs ys e sorted same P h =
      without_head P x y ys e
        ((same (λ r. (r ≡ x) ⊎ P r) (inl refl, All-right (λ r. r ≡ x) P xs h)).1) sorted.0

  same_heads :
      (x y : BatchRow) (xs ys : List BatchRow)
      → StrictlySorted (x ∷ xs)
      → StrictlySorted (y ∷ ys)
      → SameRows (x ∷ xs) (y ∷ ys)
      → x ≡ y
  same_heads x y xs ys sx sy same =
      let in_y =
        same.0 (λ r. (r ≡ x) ⊎ (before desc (column x) (column r) ≡ true))
          (inl refl, All-right (λ r. r ≡ x) _ xs sx.0) in
      let in_x =
        same.1 (λ r. (r ≡ y) ⊎ (before desc (column y) (column r) ≡ true))
          (inl refl, All-right (λ r. r ≡ y) _ ys sy.0) in
      elim in_y.0 [
        | inl e ↦ sym e
        | inr less ↦ elim in_x.0 [
          | inl e ↦ e
          | inr more ↦ absurd (before_asymmetric desc (column x) (column y) less more)
        ]
      ]

  -- Two lists in that order with the same rows are the same.
  pub StrictlySorted-unique :
      (xs ys : List BatchRow) → StrictlySorted xs → StrictlySorted ys → SameRows xs ys → xs ≡ ys
  StrictlySorted-unique [] [] sx sy same = refl
  StrictlySorted-unique [] (y ∷ ys) sx sy same = absurd ((same.0 (λ r. ⊥) tt).0)
  StrictlySorted-unique (x ∷ xs) [] sx sy same = absurd ((same.1 (λ r. ⊥) tt).0)
  StrictlySorted-unique (x ∷ xs) (y ∷ ys) sx sy same =
      let e = same_heads x y xs ys sx sy same in
      ap (λ z. z ∷ xs) e
      ∙ ap (◌∷◌ y) (
          StrictlySorted-unique xs ys sx.1 sy.1
            (same_tails x y xs ys e sy same.0, same_tails y x ys xs (sym e) sx same.1))
