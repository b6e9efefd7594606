-- ===== src/Examples/Listing.antt =====
-- List on a store with one record and one label.
use agntcy_dir.Base.{◌≡◌, ◌⊎◌, ◌↔◌, refl, true, inl, some, [], ◌∷◌, ◌++◌, arith, In}
use agntcy_dir.Base.Text.{GoString, lit, ◌==◌, has_prefix}
use agntcy_dir.Base.Text.Split.{split, join}
use agntcy_dir.Base.Dict.{lookup}
use agntcy_dir.Labels.Namespace.{slash, prefix, all_namespaces, namespace_skills}
use agntcy_dir.Labels.Key.{build_enhanced_label_key, parse_enhanced_label_key, label_key_fields}
use agntcy_dir.Routing.Datastore.{Bytes}
use agntcy_dir.Routing.Local.{
  RecordQuery, skill, query_matches_labels, matches_all_queries, list_records, record_labels,
  labels_among, records_prefix,
}
use agntcy_dir.Routing.Local.Listing.{limited, all_listed, list_records_lem}
use agntcy_dir.Routing.Local.RecordLabels.{HasNamespace, query_matches_skill_iff, record_labels_iff}
use agntcy_dir.Examples.MapStore.{map_store, map_store-IsReliable, Pairs, entries_of}

abbrev cid : GoString
cid = lit "c"

abbrev peer : GoString
peer = lit "p"

abbrev label : GoString
label = lit "/skills/a"

abbrev store : Pairs
store = (lit "/records/c", []) ∷ (lit "/skills/a/c/p", 7 ∷ 7 ∷ []) ∷ []

abbrev query : RecordQuery
query = record { type = skill; value = lit "a" }

label-HasNamespace : HasNamespace label
unfolding all_namespaces prefix
label-HasNamespace = record { ns = namespace_skills; known = inl refl; rest = lit "a"; form = refl }

labels_found : record_labels map_store peer cid store ≡ label ∷ []
unfolding record_labels entries_of labels_among prefix has_prefix parse_enhanced_label_key
    label_key_fields split join lookup ◌==◌
labels_found = refl

matching : matches_all_queries map_store peer cid (query ∷ []) store ≡ true
unfolding matches_all_queries query_matches_labels ◌==◌ prefix
matching = rw labels_found

list_records_lem_example :
    list_records map_store peer (query ∷ []) 1 store
    ≡ limited 1
        (all_listed map_store peer (query ∷ []) store (entries_of records_prefix store store))
list_records_lem_example = list_records_lem map_store peer (query ∷ []) store 1

record_held : lookup (lit "/records/c") store ≡ some []
unfolding lookup ◌==◌
record_held = refl

label_held : lookup (build_enhanced_label_key label cid peer) store ≡ some (7 ∷ 7 ∷ [])
unfolding lookup ◌==◌ build_enhanced_label_key
label_held = refl

record_labels_iff_example :
    In label (record_labels map_store peer cid store)
    ↔ ((v : Bytes) × (lookup (build_enhanced_label_key label cid peer) store ≡ some v))
record_labels_iff_example =
    record_labels_iff map_store map_store-IsReliable peer cid store label label-HasNamespace
      (omega arith, tt) (omega arith, tt)

query_matches_skill_iff_example :
    (query_matches_labels skill (lit "a") (lit "/skills/a/b" ∷ []) ≡ true) ↔ (
      (l : GoString) × In l (lit "/skills/a/b" ∷ [])
      × ((l ≡ prefix namespace_skills ++ lit "a")
          ⊎ ((rest : GoString) × (l ≡ (prefix namespace_skills ++ lit "a" ++ slash ∷ []) ++ rest))))
query_matches_skill_iff_example = query_matches_skill_iff (lit "a") (lit "/skills/a/b" ∷ [])
