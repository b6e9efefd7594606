-- ===== src/Examples/Counts.antt =====
-- The metrics at a map with two labels.
use agntcy_dir.Base.{◌+◌, ◌<◌, ◌≤◌, ◌≢◌, ◌≡◌, refl, [], ◌∷◌, arith, ◌↔◌}
use agntcy_dir.Base.Text.{GoString, lit, ◌==◌, eq_iff}
use agntcy_dir.Base.Dict.{lookup}
use agntcy_dir.Base.Result.{ok}
use agntcy_dir.Routing.Metrics.{
  Metrics, uint64_mod, count, occurrences, increment, decrement, increments, decrements,
  decrements-increments, HasNoZero, increment-HasNoZero, decrement-HasNoZero,
}
use agntcy_dir.Labels.Metadata.{LabelMetadata, validate, validate_iff}

abbrev a : GoString
a = lit "/skills/a"

abbrev b : GoString
b = lit "/skills/b"

abbrev m : Metrics
m = (a, record { name = a; total = 2 }) ∷ (b, record { name = b; total = 1 }) ∷ []

room : count m a + occurrences a (a ∷ b ∷ a ∷ []) < uint64_mod
unfolding lookup ◌==◌
room = omega arith

decrements-increments_example :
    count (decrements (a ∷ b ∷ a ∷ []) (increments (a ∷ b ∷ a ∷ []) m)) a ≡ count m a
decrements-increments_example = decrements-increments (a ∷ b ∷ a ∷ []) a m room

m-HasNoZero : HasNoZero m
unfolding lookup
m-HasNoZero = record { at_label = λ l x e. ground (arith, eq_iff a l, eq_iff b l) }

room_for_one : count m a + 1 < uint64_mod
unfolding lookup ◌==◌
room_for_one = omega arith

abbrev seen : LabelMetadata
seen = record { timestamp = 5; last_seen = 9 }

validate_iff_example :
    (validate seen ≡ ok tt)
    ↔ ((seen.timestamp ≢ 0) × (seen.last_seen ≢ 0) × (seen.timestamp ≤ seen.last_seen))
validate_iff_example = validate_iff seen

seen_valid : validate seen ≡ ok tt
unfolding validate
seen_valid = refl

increment-HasNoZero_example : HasNoZero (increment a m)
increment-HasNoZero_example = increment-HasNoZero a m room_for_one m-HasNoZero

decrement-HasNoZero_example : HasNoZero (decrement a m)
decrement-HasNoZero_example = decrement-HasNoZero a m m-HasNoZero
