-- ===== src/Routing/Metrics.antt =====
-- Label frequency metrics (server/routing/metrics.go). A total is a uint64.
use agntcy_dir.Base.{
  ℕ, ◌+◌, ◌-◌, ◌%◌, ◌^◌, ◌<◌, ◌≡◌, refl, ◌∙◌, Bool, true, false, Option, none, some, List, [], ◌∷◌,
  arith, ltb, eqb, Bool-cases, inl, inr, if◌then◌else◌,
}
use agntcy_dir.Base.Text.{GoString, ◌==◌, eq_iff, eq_refl}
use agntcy_dir.Base.Dict.{Dict, lookup, insert, erase, lookup-insert, lookup-erase}

pub record LabelMetric : Type 0 where
  pub name : GoString
  pub total : ℕ

-- Metrics.Data
abbrev pub Metrics : Type 0
Metrics = Dict LabelMetric

abbrev pub uint64_mod : ℕ
uint64_mod = 2 ^ 64

-- The total of an entry; 0 without one, as Go's zero value.
abbrev pub total_of : Option LabelMetric → ℕ
total_of none = 0
total_of (some metric) = metric.total

abbrev pub has_entry : Option LabelMetric → Bool
has_entry none = false
has_entry (some _) = true

abbrev pub count : Metrics → GoString → ℕ
count m label = total_of (lookup label m)

-- Metrics.increment
unfoldable pub increment : GoString → Metrics → Metrics
increment label m =
    let m₁ =
      if has_entry (lookup label m)
      then m
      else insert label (record { name = label; total = 0 }) m in
    insert label (record { name = label; total = (count m₁ label + 1) % uint64_mod }) m₁

-- The two steps of Metrics.decrement on an entry that is there: take one from a positive total, and
-- delete the entry if its total is zero.
unfoldable pub lower : GoString → Metrics → Metrics
lower label m =
    if ltb 0 (count m label)
    then insert label (record { name = label; total = count m label - 1 }) m
    else m

unfoldable pub drop_zero : GoString → Metrics → Metrics
drop_zero label m = if eqb (count m label) 0 then erase label m else m

-- Metrics.decrement
unfoldable pub decrement : GoString → Metrics → Metrics
decrement label m = if has_entry (lookup label m) then drop_zero label (lower label m) else m

unfoldable pub increments : List GoString → Metrics → Metrics
increments [] m = m
increments (l ∷ labels) m = increments labels (increment l m)

unfoldable pub decrements : List GoString → Metrics → Metrics
decrements [] m = m
decrements (l ∷ labels) m = decrements labels (decrement l m)

count-insert :
    (l j : GoString) (x : LabelMetric) (m : Metrics)
    → count (insert l x m) j ≡ (if l == j then x.total else count m j)
count-insert l j x m = rw (lookup-insert l j x m) (ground arith)

count-erase :
    (l j : GoString) (m : Metrics) → count (erase l m) j ≡ (if l == j then 0 else count m j)
count-erase l j m = rw (lookup-erase l j m) (ground arith)

count_of_no_entry : (o : Option LabelMetric) → has_entry o ≡ false → total_of o ≡ 0
count_of_no_entry none h = refl
count_of_no_entry (some x) h = cc

module _ (l j : GoString) (m : Metrics) where
  -- Incrementing a label adds one to its count, modulo 2 ^ 64, and leaves the others.
  pub count-increment :
      count (increment l m) j ≡ (if l == j then (count m l + 1) % uint64_mod else count m j)
  unfolding increment
  count-increment = elim (Bool-cases (has_entry (lookup l m))) [
    | inl old ↦
        rw old (rw (count-insert l j (record { name = l; total = (count m l + 1) % uint64_mod }) m))
    | inr new ↦
        rw new (simp (count-insert, eq_refl) (ground (arith, count_of_no_entry (lookup l m))))
  ]

  count-lower : count (lower l m) j ≡ (if l == j then count m l - 1 else count m j)
  unfolding lower
  count-lower = elim (Bool-cases (ltb 0 (count m l))) [
    | inl some_left ↦ rw some_left (count-insert l j (record { name = l; total = count m l - 1 }) m)
    | inr none_left ↦ rw none_left (ground (arith, eq_iff l j))
  ]

  count-drop_zero : count (drop_zero l m) j ≡ count m j
  unfolding drop_zero
  count-drop_zero = elim (Bool-cases (eqb (count m l) 0)) [
    | inl gone ↦ rw gone (count-erase l j m ∙ ground (arith, eq_iff l j))
    | inr more ↦ rw more
  ]

-- Decrementing a label takes one from its count, stopping at 0, and leaves the others.
pub count-decrement :
    (l j : GoString) (m : Metrics)
    → count (decrement l m) j ≡ (if l == j then count m l - 1 else count m j)
unfolding decrement
count-decrement l j m = elim (Bool-cases (has_entry (lookup l m))) [
  | inl old ↦ rw old (count-drop_zero l j (lower l m) ∙ count-lower l j m)
  | inr new ↦ rw new (ground (arith, count_of_no_entry (lookup l m), eq_iff l j))
]

-- How often a label occurs in a list.
abbrev pub occurrences : GoString → List GoString → ℕ
occurrences j [] = 0
occurrences j (l ∷ labels) = (if l == j then 1 else 0) + occurrences j labels

-- Counting a record's labels adds their occurrences, if no total overflows.
pub count-increments :
    (labels : List GoString) (j : GoString) (m : Metrics)
    → count m j + occurrences j labels < uint64_mod
    → count (increments labels m) j ≡ count m j + occurrences j labels
unfolding increments
count-increments [] j m h = omega arith
count-increments (l ∷ labels) j m h =
    let step = count-increment l j m in
    let ih = count-increments labels j (increment l m) in
    ground (arith, count-increment l j m, count-increments labels j (increment l m), eq_iff l j)

-- Taking a list of labels away takes their occurrences from every count, stopping at 0.
pub count-decrements :
    (labels : List GoString) (j : GoString) (m : Metrics)
    → count (decrements labels m) j ≡ count m j - occurrences j labels
unfolding decrements
count-decrements [] j m = omega arith
count-decrements (l ∷ labels) j m =
    ground (arith, count-decrement l j m, count-decrements labels j (decrement l m), eq_iff l j)

-- Taking away what was counted restores every count, if no total overflows.
pub decrements-increments :
    (labels : List GoString) (j : GoString) (m : Metrics)
    → count m j + occurrences j labels < uint64_mod
    → count (decrements labels (increments labels m)) j ≡ count m j
decrements-increments labels j m h =
    omega (arith, count-increments labels j m h, count-decrements labels j (increments labels m))

-- No entry with the total zero is stored, and an entry has the name of its key.
pub record HasNoZero (m : Metrics) : Type 0 where
  pub at_label :
      (l : GoString) (x : LabelMetric) → lookup l m ≡ some x → (x.name ≡ l) × (0 < x.total)

-- Decrementing keeps the metrics free of entries with the total zero, and of entries whose name is not
-- their key.
pub decrement-HasNoZero : (l : GoString) (m : Metrics) → HasNoZero m → HasNoZero (decrement l m)
unfolding decrement drop_zero lower
decrement-HasNoZero l m h = record {
  at_label = λ j x e.
      let lowered : LabelMetric = record { name = l; total = count m l - 1 } in
      ground (
        arith,
        eq_iff l j,
        eq_refl l,
        h.at_label j x,
        lookup-insert l j lowered m,
        lookup-insert l l lowered m,
        lookup-erase l j m,
        lookup-erase l j (insert l lowered m),
      );
}

-- Incrementing keeps the metrics free of entries with the total zero, and of entries whose name is not
-- their key, if the total does not overflow.
pub increment-HasNoZero :
    (l : GoString) (m : Metrics)
    → count m l + 1 < uint64_mod
    → HasNoZero m
    → HasNoZero (increment l m)
unfolding increment
increment-HasNoZero l m room h = record {
  at_label = λ j x e.
      let fresh : LabelMetric = record { name = l; total = 0 } in
      let raised : LabelMetric = record { name = l; total = (count m l + 1) % uint64_mod } in
      let first : LabelMetric = record {
        name = l;
        total = (count (insert l fresh m) l + 1) % uint64_mod;
      } in
      elim (Bool-cases (has_entry (lookup l m))) [
        | inl old ↦ ground (arith, old, eq_iff l j, h.at_label j x, lookup-insert l j raised m)
        | inr new ↦ ground (
          arith,
          new,
          eq_iff l j,
          eq_refl l,
          h.at_label j x,
          count-insert l l fresh m,
          lookup-insert l j first (insert l fresh m),
          lookup-insert l j fresh m,
        )
      ];
}
