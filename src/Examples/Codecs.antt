-- ===== src/Examples/Codecs.antt =====
-- Codecs that read back what they write: numbers as they are, a text as its bytes plus one and a zero.
use agntcy_dir.Base.{ℕ, zero, suc, ◌≡◌, refl, sym, ap, ◌∙◌, Option, none, some, [], ◌∷◌, length}
use agntcy_dir.Base.Text.{GoString}
use agntcy_dir.Labels.Metadata.{LabelMetadata}
use agntcy_dir.Routing.Datastore.{Bytes}
use agntcy_dir.Routing.Metrics.{Metrics}
use agntcy_dir.Routing.Local.{Codec}
use agntcy_dir.Routing.Local.Undo.{IsRoundTrip}

abbrev write_text : GoString → Bytes → Bytes
write_text [] r = 0 ∷ r
write_text (c ∷ s) r = suc c ∷ write_text s r

unfoldable pub read_text : Bytes → Option (GoString × Bytes)
read_text [] = none
read_text (zero ∷ r) = some ([], r)
read_text (suc c ∷ r) = elim (read_text r) [ none ↦ none | some (s, r') ↦ some (c ∷ s, r') ]

read-write : (s : GoString) (r : Bytes) → read_text (write_text s r) ≡ some (s, r)
unfolding read_text
read-write [] r = refl
read-write (c ∷ s) r = rw (read-write s r)

unfoldable pub write_metrics : Metrics → Bytes
write_metrics [] = []
write_metrics ((k, x) ∷ m) = write_text k (write_text x.name (x.total ∷ write_metrics m))

abbrev add_entry : GoString → GoString → ℕ → Option Metrics → Option Metrics
add_entry k name total none = none
add_entry k name total (some m) = some ((k, record { name = name; total = total }) ∷ m)

-- As many entries as the count says.
unfoldable pub read_entries : ℕ → Bytes → Option Metrics
unfolding read_text
read_entries zero r = some []
read_entries (suc n) r = elim (read_text r) [
  | none ↦ none
  | some (k, r₁) ↦ elim (read_text r₁) [
    | none ↦ none
    | some (name, []) ↦ none
    | some (name, total ∷ r₂) ↦ add_entry k name total (read_entries n r₂)
  ]
]

read_entries-write : (m : Metrics) → read_entries (length m) (write_metrics m) ≡ some m
unfolding read_entries write_metrics
read_entries-write [] = refl
read_entries-write ((k, x) ∷ m) =
    rw (read-write k (write_text x.name (x.total ∷ write_metrics m)), read_entries)
      (rw (read-write x.name (x.total ∷ write_metrics m)) (rw (read_entries-write m)))

abbrev pub write_all : Metrics → Option Bytes
write_all m = some (length m ∷ write_metrics m)

abbrev pub read_all : Bytes → Option Metrics
read_all [] = none
read_all (n ∷ r) = read_entries n r

some-injective : {A : Type 0} {x y : A} → some x ≡ some y → x ≡ y
some-injective h = cc

read_all-write : (m : Metrics) (bytes : Bytes) → write_all m ≡ some bytes → read_all bytes ≡ some m
read_all-write m bytes h = ap read_all (sym (some-injective h)) ∙ read_entries-write m

unfoldable pub read_metadata : Bytes → Option LabelMetadata
read_metadata (a ∷ b ∷ []) = some (record { timestamp = a; last_seen = b })
read_metadata _ = none

abbrev pub metadata_codec : Codec LabelMetadata
metadata_codec = record {
  encode = λ x. some (x.timestamp ∷ x.last_seen ∷ []);
  decode = read_metadata;
}

abbrev pub metrics_codec : Codec Metrics
metrics_codec = record { encode = write_all; decode = read_all }

pub metrics_codec-IsRoundTrip : IsRoundTrip metrics_codec
metrics_codec-IsRoundTrip = record { back = read_all-write }
