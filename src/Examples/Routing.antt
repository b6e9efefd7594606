-- ===== src/Examples/Routing.antt =====
-- Publish, Unpublish and List of a record with one skill, on the association list.
use agntcy_dir.Base.{
  if◌then◌else◌, ◌+◌, ◌<◌, ◌≡◌, refl, ap, true, Option, none, some, [], ◌∷◌, arith, In, all,
}
use agntcy_dir.Base.Text.{GoString, lit, ◌==◌, has_prefix}
use agntcy_dir.Base.Dict.{lookup, insert, erase}
use agntcy_dir.Base.Result.{Result, ok}
use agntcy_dir.Labels.Namespace.{prefix}
use agntcy_dir.Records.V3
use agntcy_dir.Records.Adapter.{Record, v3, get_record_data}
use agntcy_dir.Records.LabelsOf.{
  skill_labels, extension_labels, locator_labels, labels_of_data, get_labels,
}
use agntcy_dir.Routing.Datastore.{Bytes}
use agntcy_dir.Routing.Metrics.{
  Metrics, increment, decrement, increments, decrements, count, occurrences, uint64_mod, lower,
  drop_zero,
}
use agntcy_dir.Routing.Local.{
  Failure, RecordQuery, skill, load_metrics, publish, unpublish, query_matches_labels,
  query_matches, list_records, record_labels, record_key, metrics_key,
}
use agntcy_dir.Routing.Local.Effects.{published, unpublished, publish_effect, unpublish_effect}
use agntcy_dir.Routing.Local.Failures.{IsAtomic, publish_unpublish-IsAtomic}
use agntcy_dir.Routing.Local.Undo.{unpublish-publish}
use agntcy_dir.Routing.Local.RecordLabels.Published.{list-publish}
use agntcy_dir.Examples.MapStore.{map_store, map_store-IsReliable, Pairs}
use agntcy_dir.Examples.Codecs.{
  metadata_codec, metrics_codec, metrics_codec-IsRoundTrip, write_metrics,
}

abbrev cid : GoString
cid = lit "c"

abbrev peer : GoString
peer = lit "p"

abbrev label : GoString
label = lit "/skills/a/b"

abbrev pub with_skill : V3.Record
with_skill = record {
  annotations = [];
  schema_version = lit "v0.5.0";
  name = lit "n";
  version = lit "v1";
  description = [];
  authors = [];
  created_at = [];
  skills = some (record { annotations = []; name = lit "a/b"; id = 1 }) ∷ [];
  locators = [];
  extensions = [];
  signature = none;
  previous_record_cid = [];
}

abbrev pub r : Record
r = v3 (some with_skill)

labels_of_r : get_labels r ≡ label ∷ []
unfolding get_labels get_record_data V3.adapt_data labels_of_data skill_labels extension_labels
    locator_labels prefix
labels_of_r = refl

abbrev m₁ : Metrics
m₁ = (label, record { name = label; total = 1 }) ∷ []

counted : increments (get_labels r) [] ≡ m₁
unfolding increments increment lookup insert ◌==◌
counted = rw labels_of_r

abbrev bytes₁ : Bytes
bytes₁ = 1 ∷ write_metrics m₁

abbrev do_publish : Pairs → Result Failure (Unit {0}) × Pairs
do_publish = publish map_store metadata_codec metrics_codec peer 7 (some cid) (some r)

abbrev do_unpublish : Pairs → Result Failure (Unit {0}) × Pairs
do_unpublish = unpublish map_store metadata_codec metrics_codec peer (some cid) (some r)

abbrev contents : Pairs → GoString → Option Bytes
contents s k = lookup k s

nothing_there : (k : GoString) → contents [] k ≡ none
unfolding lookup
nothing_there k = refl

loaded : load_metrics map_store metadata_codec metrics_codec peer [] ≡ ok []
unfolding load_metrics lookup
loaded = refl

encoded : metrics_codec.encode (increments (get_labels r) []) ≡ some bytes₁
encoded = ap metrics_codec.encode counted

taken_away : decrements (get_labels r) [] ≡ []
unfolding decrements decrement lookup
taken_away = rw labels_of_r

undone : decrements (get_labels r) (increments (get_labels r) []) ≡ []
unfolding decrements decrement lower drop_zero lookup insert erase ◌==◌
undone = rw counted (rw labels_of_r)

publish_effect_example :
    (s' : Pairs) × (do_publish [] ≡ (ok tt, s'))
    × ((j : GoString)
        → contents s' j
          ≡ published map_store peer cid (get_labels r) (7 ∷ 7 ∷ []) bytes₁ (contents []) j)
publish_effect_example =
    publish_effect map_store peer map_store-IsReliable metadata_codec metrics_codec 7 cid r []
      (7 ∷ 7 ∷ []) bytes₁ [] loaded (nothing_there _) refl encoded

pub published_new :
    (s' : Pairs) × (publish map_store metadata_codec metrics_codec
        (lit "p")
        7
        (some (lit "c"))
        (some r)
        []
      ≡ (ok tt, s'))
published_new =
    let (s', done, _) =
      publish_effect map_store peer map_store-IsReliable metadata_codec metrics_codec 7 cid r []
        (7 ∷ 7 ∷ []) bytes₁ [] loaded (nothing_there _) refl encoded in
    (s', done)

encoded₀ : metrics_codec.encode (decrements (get_labels r) []) ≡ some (0 ∷ [])
unfolding write_metrics
encoded₀ = ap metrics_codec.encode taken_away

encoded₂ :
    metrics_codec.encode (decrements (get_labels r) (increments (get_labels r) [])) ≡ some (0 ∷ [])
unfolding write_metrics
encoded₂ = ap metrics_codec.encode undone

room : (l : GoString) → count [] l + occurrences l (get_labels r) < uint64_mod
unfolding lookup
room l = rw labels_of_r (ground arith)

unpublish_effect_example :
    (s' : Pairs) × (do_unpublish [] ≡ (ok tt, s'))
    × ((j : GoString)
        → contents s' j ≡ unpublished map_store peer cid (get_labels r) (0 ∷ []) (contents []) j)
unpublish_effect_example =
    unpublish_effect map_store peer map_store-IsReliable metadata_codec metrics_codec cid r []
      (0 ∷ []) [] loaded encoded₀

abbrev there_already : Pairs
there_already = (lit "/records/c", []) ∷ []

loaded_again : load_metrics map_store metadata_codec metrics_codec peer there_already ≡ ok []
unfolding load_metrics lookup ◌==◌
loaded_again = refl

held_already : contents there_already (record_key map_store cid) ≡ some []
unfolding lookup ◌==◌
held_already = refl

publish_unpublish-IsAtomic_example : IsAtomic do_publish [] × IsAtomic do_unpublish []
publish_unpublish-IsAtomic_example =
    publish_unpublish-IsAtomic map_store metadata_codec metrics_codec peer 7 (some cid) (some r) []

unpublish-publish_example :
    (s' : Pairs) × (s'' : Pairs) × (m'' : Metrics) × (do_publish [] ≡ (ok tt, s'))
    × (do_unpublish s' ≡ (ok tt, s''))
    × ((j : GoString)
        → contents s'' j ≡ (if metrics_key == j then some (0 ∷ []) else contents [] j))
    × (load_metrics map_store metadata_codec metrics_codec peer s'' ≡ ok m'')
    × ((l : GoString) → count m'' l ≡ count [] l)
unpublish-publish_example =
    unpublish-publish map_store peer map_store-IsReliable metadata_codec metrics_codec
      metrics_codec-IsRoundTrip 7 cid r [] (7 ∷ 7 ∷ []) bytes₁ (0 ∷ []) [] loaded (nothing_there _)
      (λ j h. nothing_there j) room refl encoded encoded₂

abbrev query : RecordQuery
query = record { type = skill; value = lit "a" }

matching : all (query_matches (get_labels r)) (query ∷ []) ≡ true
unfolding query_matches_labels ◌==◌ has_prefix prefix
matching = rw labels_of_r

list-publish_example :
    (s' : Pairs) × (do_publish [] ≡ (ok tt, s'))
    × In
        (record { cid = cid; labels = record_labels map_store peer cid s' })
        (list_records map_store peer (query ∷ []) 0 s')
list-publish_example =
    list-publish map_store peer map_store-IsReliable metadata_codec metrics_codec 7 cid r []
      (7 ∷ 7 ∷ []) bytes₁ (query ∷ []) [] loaded (nothing_there _) refl encoded (λ h. cc)
      (omega arith, tt) (omega arith, tt) refl (λ l h. refl) matching
