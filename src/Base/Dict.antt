-- ===== src/Base/Dict.antt =====
-- Go maps with string keys, as association lists seen through `lookup`.
use agntcy_dir.Base.{◌≡◌, refl, Option, none, some, List, [], ◌∷◌, arith, if◌then◌else◌}
use agntcy_dir.Base.Text.{GoString, ◌==◌, eq_iff}

abbrev pub Dict {ℓ} : Type ℓ → Type ℓ
Dict V = List (GoString × V)

module _ {ℓ} {V : Type ℓ} where
  unfoldable pub lookup : GoString → Dict V → Option V
  lookup key [] = none
  lookup key (entry ∷ rest) = if entry.0 == key then some entry.1 else lookup key rest

  unfoldable pub erase : GoString → Dict V → Dict V
  erase key [] = []
  erase key (entry ∷ rest) =
      let others = erase key rest in if entry.0 == key then others else entry ∷ others

  -- m[key] = value: the entry that was there is gone, and the order of entries is not Go's either.
  unfoldable pub insert : GoString → V → Dict V → Dict V
  unfolding erase
  insert key value m = (key, value) ∷ erase key m

  pub lookup-nil : (key : GoString) → lookup key [] ≡ none
  unfolding lookup
  lookup-nil key = refl

  pub lookup-erase :
      (gone key : GoString) (m : Dict V)
      → lookup key (erase gone m) ≡ (if gone == key then none else lookup key m)
  unfolding lookup erase
  lookup-erase gone key [] = ground arith
  lookup-erase gone key (entry ∷ rest) =
      ground (
        arith,
        lookup-erase gone key rest,
        eq_iff entry.0 gone,
        eq_iff entry.0 key,
        eq_iff gone key,
      )

  pub lookup-insert :
      (new key : GoString) (value : V) (m : Dict V)
      → lookup key (insert new value m) ≡ (if new == key then some value else lookup key m)
  unfolding lookup insert
  lookup-insert new key value m = ground (arith, lookup-erase new key m)

pub ruleset dict_laws = (lookup-nil, lookup-insert, lookup-erase)
