-- ===== src/Base/Lists.antt =====
-- Lists measured and indexed by native numbers, under the library's names, and a predicate on
-- every member.
use Prim.Native.Nat.{ℕ, zero, suc, ◌+◌, ◌-◌, ◌≤◌}
use agntcy_dir.Base.Tests.{Bool-cases}
use mathlib.Core.Path.{◌≡◌, refl, sym, ap, ◌∙◌, subst}
use mathlib.Core.Logic.{◌⊎◌, inl, inr}
use mathlib.Core.Bool.{Bool, true, false, ◌&&◌, ◌||◌}
use mathlib.Core.List.{List, [], ◌∷◌, ◌++◌}
use native.Mathlib.Omega.{arith}

module _ {ℓ} {A : Type ℓ} where
  abbrev pub length : List A → ℕ
  length [] = 0
  length (x ∷ xs) = suc (length xs)

  -- An index out of range gives the default.
  abbrev pub get_or : List A → ℕ → A → A
  get_or [] i d = d
  get_or (x ∷ xs) zero d = x
  get_or (x ∷ xs) (suc i) d = get_or xs i d

  abbrev pub take : ℕ → List A → List A
  take zero xs = []
  take (suc n) [] = []
  take (suc n) (x ∷ xs) = x ∷ take n xs

  abbrev pub drop : ℕ → List A → List A
  drop zero xs = xs
  drop (suc n) [] = []
  drop (suc n) (x ∷ xs) = drop n xs

  abbrev pub any : (A → Bool) → List A → Bool
  any p [] = false
  any p (x ∷ xs) = p x || any p xs

  abbrev pub all : (A → Bool) → List A → Bool
  all p [] = true
  all p (x ∷ xs) = p x && all p xs

module _ {ℓ} {A : Type ℓ} where
  pub length-append : (xs ys : List A) → length (xs ++ ys) ≡ length xs + length ys
  length-append [] ys = omega arith
  length-append (x ∷ xs) ys = omega (arith, length-append xs ys)

  pub take-append : (xs ys : List A) → take (length xs) (xs ++ ys) ≡ xs
  take-append [] ys = refl
  take-append (x ∷ xs) ys = ap (λ t. x ∷ t) (take-append xs ys)

  pub get_or-append :
      (xs ys : List A) (i : ℕ) (d : A) → get_or (xs ++ ys) (length xs + i) d ≡ get_or ys i d
  get_or-append [] ys i d = ap (λ n. get_or ys n d) (omega arith)
  get_or-append (x ∷ xs) ys i d =
      let step : suc (length xs) + i ≡ suc (length xs + i) = omega arith in
      rw step (get_or-append xs ys i d)

  -- A list of two members or more ends in two members.
  pub split_last_two :
      (xs : List A)
      → 2 ≤ length xs
      → (front : List A) × (y : A) × (z : A) × (xs ≡ front ++ y ∷ z ∷ [])
  split_last_two [] h = absurd (omega arith)
  split_last_two (x ∷ []) h = absurd (omega arith)
  split_last_two (x ∷ y ∷ []) h = ([], x, y, refl)
  split_last_two (x ∷ y ∷ z ∷ xs) h =
      let (front, a, b, e) = split_last_two (y ∷ z ∷ xs) (omega arith) in
      (x ∷ front, a, b, ap (λ t. x ∷ t) e)

module _ {ℓ} {A : Type ℓ} where
  -- Go's xs[lo:hi]
  abbrev pub slice : List A → ℕ → ℕ → List A
  slice xs lo hi = take (hi - lo) (drop lo xs)

  -- The positions of a list that ends in two known members.
  module _ (front : List A) (y z d : A) where
    pub length-front_two : length (front ++ y ∷ z ∷ []) ≡ length front + 2
    length-front_two = length-append front (y ∷ z ∷ [])

    pub get_or-second_last : get_or (front ++ y ∷ z ∷ []) (length (front ++ y ∷ z ∷ []) - 2) d ≡ y
    get_or-second_last =
        let e : length (front ++ y ∷ z ∷ []) - 2 ≡ length front + 0 =
          omega (arith, length-front_two) in
        rw e (get_or-append front (y ∷ z ∷ []) 0 d)

    pub get_or-last : get_or (front ++ y ∷ z ∷ []) (length (front ++ y ∷ z ∷ []) - 1) d ≡ z
    get_or-last =
        let e : length (front ++ y ∷ z ∷ []) - 1 ≡ length front + 1 =
          omega (arith, length-front_two) in
        rw e (get_or-append front (y ∷ z ∷ []) 1 d)

  pub get_or-end :
      (front : List A) (z d : A) → get_or (front ++ z ∷ []) (length (front ++ z ∷ []) - 1) d ≡ z
  get_or-end front z d =
      let e : length (front ++ z ∷ []) - 1 ≡ length front + 0 =
        omega (arith, length-append front (z ∷ [])) in
      rw e (get_or-append front (z ∷ []) 0 d)

  -- The middle of a list, without its first member and its last two.
  pub slice_middle :
      (x : A) (mid : List A) (y z : A)
      → slice (x ∷ (mid ++ y ∷ z ∷ [])) 1 (length (x ∷ (mid ++ y ∷ z ∷ [])) - 2) ≡ mid
  slice_middle x mid y z =
      let e : length (x ∷ (mid ++ y ∷ z ∷ [])) - 2 - 1 ≡ length mid =
        omega (arith, length-append mid (y ∷ z ∷ [])) in
      rw e (take-append mid (y ∷ z ∷ []))

module _ {ℓ κ} {A : Type ℓ} (P : A → Type κ) where
  abbrev pub All : List A → Type κ
  All [] = Unit
  All (x ∷ xs) = P x × All xs

  pub All-append : (xs ys : List A) → All xs → All ys → All (xs ++ ys)
  All-append [] ys h k = k
  All-append (x ∷ xs) ys (p, h) k = (p, All-append xs ys h k)

  pub All-append_left : (xs ys : List A) → All (xs ++ ys) → All xs
  All-append_left [] ys h = tt
  All-append_left (x ∷ xs) ys (p, h) = (p, All-append_left xs ys h)

  pub All-append_right : (xs ys : List A) → All (xs ++ ys) → All ys
  All-append_right [] ys h = h
  All-append_right (x ∷ xs) ys (p, h) = All-append_right xs ys h

-- Untruncated membership.
module _ {A : Type 0} where
  abbrev pub In : A → List A → Type 0
  In x [] = ⊥
  In x (y ∷ ys) = (x ≡ y) ⊎ In x ys

  pub In-append_left : (x : A) (xs ys : List A) → In x xs → In x (xs ++ ys)
  In-append_left x [] ys h = absurd h
  In-append_left x (y ∷ xs) ys (inl e) = inl e
  In-append_left x (y ∷ xs) ys (inr h) = inr (In-append_left x xs ys h)

  pub any-In : (p : A → Bool) (xs : List A) (x : A) → In x xs → p x ≡ true → any p xs ≡ true
  any-In p [] x h e = absurd h
  any-In p (y ∷ xs) x (inl same) e = rw (ap p (sym same) ∙ e)
  any-In p (y ∷ xs) x (inr later) e = ground (arith, any-In p xs x later e)

  pub In-any : (p : A → Bool) (xs : List A) → any p xs ≡ true → (x : A) × In x xs × (p x ≡ true)
  In-any p [] h = cc
  In-any p (x ∷ xs) h = elim (Bool-cases (p x)) [
    | inl here ↦ (x, inl refl, here)
    | inr other ↦
        let (y, there, found) = In-any p xs (ground (arith, other)) in (y, inr there, found)
  ]

  pub In-append_right : (x : A) (xs ys : List A) → In x ys → In x (xs ++ ys)
  In-append_right x [] ys h = h
  In-append_right x (y ∷ xs) ys h = inr (In-append_right x xs ys h)

  pub All_at : (P : A → Type 0) (x : A) (xs : List A) → All P xs → In x xs → P x
  All_at P x [] h there = absurd there
  All_at P x (y ∷ ys) (p, h) (inl e) = subst P (sym e) p
  All_at P x (y ∷ ys) (p, h) (inr later) = All_at P x ys h later

  pub All-imp : {P Q : A → Type 0} → ((x : A) → P x → Q x) → (xs : List A) → All P xs → All Q xs
  All-imp f [] h = tt
  All-imp f (x ∷ xs) (p, h) = (f x p, All-imp f xs h)
