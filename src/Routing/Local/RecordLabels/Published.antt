-- ===== src/Routing/Local/RecordLabels/Published.antt =====
-- The labels of a record (`getLabels`) and List after Publish.
use agntcy_dir.Base.{
  ◌≡◌, ◌≢◌, refl, sym, ap, ◌∙◌, Bool, true, false, ◌||◌, Bool-cases, inl, inr, List, [], ◌∷◌, ◌++◌,
  drop, length, Option, some, none, Option-cases, arith, if◌then◌else◌, any, all, All, All-append,
  All_at, In, any-In, In-any,
}
use agntcy_dir.Base.Text.{GoString, ◌==◌, eq_refl, has_prefix}
use agntcy_dir.Base.Text.Split.{Lacks}
use agntcy_dir.Base.Result.{ok}
use agntcy_dir.Labels.Namespace.{
  slash, all_namespaces, namespace_skills, namespace_domains, namespace_features,
  namespace_locators, domain_schema_prefix, features_schema_prefix,
}
use agntcy_dir.Labels.Key.{build_enhanced_label_key}
use agntcy_dir.Labels.Metadata.{LabelMetadata, Time}
use agntcy_dir.Records.View.{RecordData, Skill, Extension, Locator}
use agntcy_dir.Records.Adapter.{Record, get_record_data}
use agntcy_dir.Records.LabelsOf.{
  skill_labels, extension_labels, locator_labels, labels_of_data, get_labels,
}
use agntcy_dir.Routing.Datastore.{Datastore, Bytes, Contents, IsReliable}
use agntcy_dir.Routing.Metrics.{Metrics, increments}
use agntcy_dir.Routing.Local.{
  Codec, RecordQuery, QueryType, unspecified, skill, locator, other, record_key, label_key,
  records_prefix, load_metrics, publish, query_matches_labels, query_matches, matches_all_queries,
  record_labels, list_records,
}
use agntcy_dir.Routing.Local.Effects.{published, is_label_key, publish_effect}
use agntcy_dir.Routing.Local.Listing.{list_records_complete}
use agntcy_dir.Routing.Local.RecordLabels.{HasNamespace, record_labels_complete}

skill_labels-HasNamespace : (skills : List Skill) → All HasNamespace (skill_labels skills)
unfolding skill_labels all_namespaces
skill_labels-HasNamespace [] = tt
skill_labels-HasNamespace (s ∷ skills) = (
  record { ns = namespace_skills; known = inl refl; rest = s.name; form = refl },
  skill_labels-HasNamespace skills,
)

extension_labels-HasNamespace :
    (schema ns : GoString) (extensions : List Extension)
    → In ns all_namespaces
    → All HasNamespace (extension_labels schema ns extensions)
unfolding extension_labels
extension_labels-HasNamespace schema ns [] known = tt
extension_labels-HasNamespace schema ns (e ∷ extensions) known =
    elim (Bool-cases (has_prefix e.name schema)) [
      | inl its ↦ rw its (
        record { ns = ns; known = known; rest = drop (length schema) e.name; form = refl },
        extension_labels-HasNamespace schema ns extensions known,
      )
      | inr foreign ↦ rw foreign (extension_labels-HasNamespace schema ns extensions known)
    ]

locator_labels-HasNamespace : (locators : List Locator) → All HasNamespace (locator_labels locators)
unfolding locator_labels all_namespaces
locator_labels-HasNamespace [] = tt
locator_labels-HasNamespace (l ∷ locators) = (
  record {
    ns = namespace_locators;
    known = inr (inr (inr (inl refl)));
    rest = l.type;
    form = refl;
  },
  locator_labels-HasNamespace locators,
)

labels_of_data-HasNamespace : (d : RecordData) → All HasNamespace (labels_of_data d)
unfolding labels_of_data all_namespaces
labels_of_data-HasNamespace d = All-append _ _ _ (skill_labels-HasNamespace d.skills) (
    All-append _ _ _
      (extension_labels-HasNamespace domain_schema_prefix namespace_domains d.extensions
        (inr (inl refl)))
      (All-append _ _ _
        (extension_labels-HasNamespace features_schema_prefix namespace_features d.extensions
          (inr (inr (inl refl))))
        (locator_labels-HasNamespace d.locators)))

-- Every label of a record is in one of the four namespaces.
pub get_labels-HasNamespace : (r : Record) → All HasNamespace (get_labels r)
unfolding get_labels
get_labels-HasNamespace r = elim (Option-cases (get_record_data r)) [
  | inl missing ↦ rw (missing, get_labels) tt
  | inr (d, there) ↦ rw (there, get_labels) (labels_of_data-HasNamespace d)
]

-- A record with more labels matches more queries.
any_more :
    (p : GoString → Bool) (few many : List GoString)
    → ((l : GoString) → In l few → In l many)
    → any p few ≡ true
    → any p many ≡ true
any_more p few many more h =
    let (l, there, found) = In-any p few h in any-In p many l (more l there) found

query_more :
    (type : QueryType) (value : GoString) (few many : List GoString)
    → ((l : GoString) → In l few → In l many)
    → query_matches_labels type value few ≡ true
    → query_matches_labels type value many ≡ true
unfolding query_matches_labels
query_more unspecified value few many more h = refl
query_more skill value few many more h = any_more _ few many more h
query_more locator value few many more h = any_more _ few many more h
query_more (other n) value few many more h = h

queries_more :
    (queries : List RecordQuery) (few many : List GoString)
    → ((l : GoString) → In l few → In l many)
    → all (query_matches few) queries ≡ true
    → all (query_matches many) queries ≡ true
queries_more [] few many more h = refl
queries_more (q ∷ queries) few many more h =
    ground (arith, query_more q.type q.value few many more, queries_more queries few many more)

matches_all_lem :
    (d : Datastore) (local_peer_id cid : GoString) (queries : List RecordQuery) (s : d.State)
    → all (query_matches (record_labels d local_peer_id cid s)) queries ≡ true
    → matches_all_queries d local_peer_id cid queries s ≡ true
unfolding matches_all_queries
matches_all_lem d local_peer_id cid [] s h = refl
matches_all_lem d local_peer_id cid (q ∷ queries) s h = h

-- The first test that holds gives a value.
some_value :
    (a b c : Bool) (x y z : Bytes) (o : Option Bytes)
    → (b || c) ≡ true
    → (v : Bytes) × ((if a then some x else if b then some y else if c then some z else o) ≡ some v)
some_value true b c x y z o h = (x, refl)
some_value false true c x y z o h = (y, refl)
some_value false false true x y z o h = (z, refl)
some_value false false false x y z o h = cc

module _ (d : Datastore) (local_peer_id cid : GoString) (labels : List GoString) (x y : Bytes)
    (c : Contents) where
  published_record :
      (v : Bytes) × (published d local_peer_id cid labels x y c (record_key d cid) ≡ some v)
  published_record =
      some_value _ (is_label_key d local_peer_id cid labels (record_key d cid))
        (record_key d cid == record_key d cid) y x [] _ (ground (arith, eq_refl (record_key d cid)))

  published_label :
      (l : GoString)
      → In l labels
      → (v : Bytes) × (published d local_peer_id cid labels x y c (label_key d local_peer_id cid l)
          ≡ some v)
  published_label l there =
      let key = label_key d local_peer_id cid l in
      some_value _ (is_label_key d local_peer_id cid labels key) (record_key d cid == key) y x [] _
        (ground (
          arith,
          any-In (λ label. label_key d local_peer_id cid label == key) labels l there (eq_refl key),
        ))

module _ (d : Datastore) (local_peer_id : GoString) (rel : IsReliable d)
    (metadata_codec : Codec LabelMetadata) (metrics_codec : Codec Metrics) where
  -- On a store that does not fail, a record that was just published for the first time is listed,
  -- without a limit, by any queries that its labels match. The metrics load, and they and the label
  -- metadata encode; its CID is not empty, it and the peer's ID have no slash, and the store keeps
  -- the keys of the record and of its labels as they are written.
  pub list-publish :
      (now : Time) (cid : GoString) (r : Record) (m : Metrics) (label_bytes metrics_bytes : Bytes)
      (queries : List RecordQuery) (s : d.State)
      → load_metrics d metadata_codec metrics_codec local_peer_id s ≡ ok m
      → rel.contents s (record_key d cid) ≡ none
      → metadata_codec.encode (record { timestamp = now; last_seen = now }) ≡ some label_bytes
      → metrics_codec.encode (increments (get_labels r) m) ≡ some metrics_bytes
      → cid ≢ []
      → Lacks slash cid
      → Lacks slash local_peer_id
      → record_key d cid ≡ records_prefix ++ cid
      → ((l : GoString)
          → In l (get_labels r)
          → label_key d local_peer_id cid l ≡ build_enhanced_label_key l cid local_peer_id)
      → all (query_matches (get_labels r)) queries ≡ true
      → (s' : d.State) × (publish d metadata_codec metrics_codec local_peer_id now
            (some cid)
            (some r)
            s
          ≡ (ok tt, s'))
        × In
            (record { cid = cid; labels = record_labels d local_peer_id cid s' })
            (list_records d local_peer_id queries 0 s')
  list-publish now cid r m label_bytes metrics_bytes queries s loaded absent e₁ e₂ nonempty hc hp
        clean cleans matches =
      let labels = get_labels r in
      let (s', done, held) =
        publish_effect d local_peer_id rel metadata_codec metrics_codec now cid r m label_bytes
          metrics_bytes s loaded absent e₁ e₂ in
      let (v, stored) =
        published_record d local_peer_id cid labels label_bytes metrics_bytes (rel.contents s) in
      let found : (l : GoString) → In l labels → In l (record_labels d local_peer_id cid s') =
        λ l there.
          let (w, kept) =
            published_label d local_peer_id cid labels label_bytes metrics_bytes (rel.contents s) l
              there in
          record_labels_complete d rel local_peer_id cid s' l w
            (All_at HasNamespace l labels (get_labels-HasNamespace r) there) hc hp
            (ap (rel.contents s') (sym (cleans l there))
              ∙ (held (label_key d local_peer_id cid l) ∙ kept)) in
      (
        s',
        done,
        list_records_complete d local_peer_id queries s' rel cid v
            (ap (rel.contents s') (sym clean) ∙ (held (record_key d cid) ∙ stored)) nonempty
            (matches_all_lem d local_peer_id cid queries s'
              (queries_more queries labels _ found matches)),
      )
