-- ===== src/Labels/Metadata.antt =====
-- Label metadata (server/routing/label_metadata.go) and the retention constants
-- (server/routing/constants.go). A time is the number of nanoseconds since Go's zero time; a
-- duration is an int64 of nanoseconds, so a difference of times stops at 2 ^ 63 - 1. A negative
-- difference counts as 0, which no comparison with a positive age tells apart.
use Prim.Native.Nat.{min}
use agntcy_dir.Base.{ℕ, ◌-◌, ◌*◌, ◌^◌, ◌≤◌, ◌+◌, ◌≡◌, ◌≢◌, ◌↔◌, Bool, false, arith, ltb, eqb}
use agntcy_dir.Base.Result.{Result, ok, ◌>>◌, fail_if}

abbrev pub Time : Type 0
Time = ℕ

abbrev pub hour : ℕ
hour = 3600 * 1000000000

-- MaxLabelAge
abbrev pub max_label_age : ℕ
max_label_age = 72 * hour

abbrev pub max_duration : ℕ
max_duration = 2 ^ 63 - 1

pub record LabelMetadata : Type 0 where
  pub timestamp : Time
  pub last_seen : Time

pub data MetadataError : Type 0 where
  timestamp_zero last_seen_zero last_seen_before : MetadataError

-- time.Time.IsZero
abbrev pub is_zero : Time → Bool
is_zero t = eqb t 0

-- time.Since
abbrev pub since : Time → Time → ℕ
since now t = min (now - t) max_duration

-- LabelMetadata.Validate
unfoldable pub validate : LabelMetadata → Result MetadataError (Unit {0})
validate m = do
  fail_if (is_zero m.timestamp) timestamp_zero
  fail_if (is_zero m.last_seen) last_seen_zero
  fail_if (ltb m.last_seen m.timestamp) last_seen_before

-- LabelMetadata.IsStale, LabelMetadata.Age and LabelMetadata.Update, at the time `now`.
unfoldable pub is_stale : Time → LabelMetadata → ℕ → Bool
is_stale now m max_age = ltb max_age (since now m.last_seen)

unfoldable pub age : Time → LabelMetadata → ℕ
age now m = since now m.last_seen

unfoldable pub update : Time → LabelMetadata → LabelMetadata
update now m = record m { last_seen = now }

-- Metadata is valid exactly when both times are set and in order.
pub validate_iff :
    (m : LabelMetadata)
    → (validate m ≡ ok tt) ↔ ((m.timestamp ≢ 0) × (m.last_seen ≢ 0) × (m.timestamp ≤ m.last_seen))
unfolding validate
validate_iff m = ground arith

-- Valid metadata seen again later is valid and stays fresh for the retention period.
pub update_fresh :
    (m : LabelMetadata) (now later : Time)
    → validate m ≡ ok tt
    → m.last_seen ≤ now
    → later ≤ now + max_label_age
    → (validate (update now m) ≡ ok tt) × (is_stale later (update now m) max_label_age ≡ false)
unfolding validate update is_stale
update_fresh m now later v h k = ground arith
