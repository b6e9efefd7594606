-- ===== src/Labels/Validator/Select.antt =====
-- Which of several DHT values is selected.
use agntcy_dir.Base.{ℕ, zero, suc, ◌+◌, ◌≡◌, inl, inr, ◌↔◌, sym, ap, ◌∙◌, List, [], ◌∷◌, arith}
use agntcy_dir.Base.Text.{GoString}
use agntcy_dir.Base.Result.{ok, err, Result-cases}
use agntcy_dir.Labels.Validator.{Checked, ValidationError, select_loop, select_first_valid}

-- `FirstValid valid values i`: the value at position `i` is the first that is valid.
pub data FirstValid (valid : GoString → Type 0) : List GoString → ℕ → Type 0 where
  found : {v : GoString} {vs : List GoString} → valid v → FirstValid valid (v ∷ vs) zero
  skip :
      {v : GoString} {vs : List GoString} {i : ℕ}
      → ¬ valid v
      → FirstValid valid vs i
      → FirstValid valid (v ∷ vs) (suc i)

module _ (validate : GoString → GoString → Checked (Unit {0})) (key : GoString) where
  abbrev pub Accepts : GoString → Type 0
  Accepts value = validate key value ≡ ok tt

  -- One round of the loop.
  select_loop-Accepts :
      (i : ℕ) (v : GoString) (vs : List GoString)
      → Accepts v
      → select_loop validate key i (v ∷ vs) ≡ ok i
  unfolding select_loop
  select_loop-Accepts i v vs e = rw (e, select_loop)

  select_loop-rejects :
      (i : ℕ) (v : GoString) (vs : List GoString) (x : ValidationError)
      → validate key v ≡ err x
      → select_loop validate key i (v ∷ vs) ≡ select_loop validate key (i + 1) vs
  unfolding select_loop
  select_loop-rejects i v vs x e = rw (e, select_loop)

  select_loop_sound :
      (base : ℕ) (values : List GoString) (i : ℕ)
      → select_loop validate key base values ≡ ok i
      → (j : ℕ) × (i ≡ base + j) × FirstValid Accepts values j
  select_loop_sound base [] i h = unfold select_loop in cc
  select_loop_sound base (v ∷ vs) i h = elim (Result-cases (validate key v)) [
    | inl (a, e) ↦ let stop = select_loop-Accepts base v vs e in (0, ground arith, found e)
    | inr (x, e) ↦
        let (j, same, rest) =
          select_loop_sound (base + 1) vs i (sym (select_loop-rejects base v vs x e) ∙ h) in
        (suc j, omega arith, skip (λ p. cc) rest)
  ]

  select_loop_complete :
      (base : ℕ) {values : List GoString} {j : ℕ}
      → FirstValid Accepts values j
      → select_loop validate key base values ≡ ok (base + j)
  select_loop_complete base (found {v} {vs} e) =
      select_loop-Accepts base v vs e ∙ ap ok (omega arith)
  select_loop_complete base (skip {v} {vs} {i} no_v rest) = elim (Result-cases (validate key v)) [
    | inl (a, e) ↦ absurd (no_v e)
    | inr (x, e) ↦
        select_loop-rejects base v vs x e
        ∙ select_loop_complete (base + 1) rest
        ∙ ap ok (omega arith)
  ]

  -- The selected value is the first that validates, and a value is selected if one validates.
  pub select_first_valid_iff :
      (values : List GoString) (i : ℕ)
      → (select_first_valid validate key values ≡ ok i) ↔ FirstValid Accepts values i
  unfolding select_first_valid
  select_first_valid_iff [] i = (λ h. cc, λ h. elim h [ ])
  select_first_valid_iff (v ∷ vs) i = (
    λ h.
        let (j, same, first) = select_loop_sound 0 (v ∷ vs) i h in
        let e : j ≡ i = omega arith in rw e at first,
    λ first. select_loop_complete 0 first ∙ ap ok (omega arith),
  )
