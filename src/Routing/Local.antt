-- ===== src/Routing/Local.antt =====
-- Local routing (server/routing/routing_local.go), over a datastore, two JSON codecs and the ID of
-- this peer. A nil reference or record is `none`. The clock is read once for each call.
pub mod Effects
pub mod Failures
pub mod Undo
pub mod Listing
pub mod RecordLabels
use agntcy_dir.Base.{
  ℕ, zero, suc, ◌+◌, ◌≡◌, Bool, true, false, ◌&&◌, ◌||◌, not, Option, none, some, List, [], ◌∷◌,
  ◌++◌, ltb, leb, any, all, if◌then◌else◌,
}
use agntcy_dir.Base.Text.{GoString, lit, ◌==◌, has_prefix, trim_prefix}
use agntcy_dir.Base.Result.{Result, ok, err}
use agntcy_dir.Base.Action.{Action, ◌>>=◌, ◌>>◌, pure, raise, reads}
use agntcy_dir.Labels.Namespace.{
  slash, prefix, namespace_skills, namespace_domains, namespace_features, namespace_locators,
}
use agntcy_dir.Labels.Key.{build_enhanced_label_key, parse_enhanced_label_key}
use agntcy_dir.Labels.Metadata.{LabelMetadata, Time}
use agntcy_dir.Records.Adapter.{Record}
use agntcy_dir.Records.LabelsOf.{get_labels}
use agntcy_dir.Routing.Datastore.{Datastore, Bytes, Entry, StoreError, not_found, failure}
use agntcy_dir.Routing.Metrics.{Metrics, increment, decrement}

-- json.Marshal and json.Unmarshal at one type; `none` is an error.
pub record Codec (A : Type 0) : Type 0 where
  pub encode : A → Option Bytes
  pub decode : Bytes → Option A

pub data Code : Type 0 where
  invalid_argument internal : Code

-- The errors of Publish and Unpublish, by the step that failed.
pub data Failure : Type 0 where
  ref_required record_required : Failure
  load_metrics_failed batch_failed has_failed put_record_failed delete_record_failed : Failure
  serialize_failed put_label_failed delete_label_failed commit_failed update_metrics_failed :
      Failure

-- The gRPC code of an error.
abbrev pub code : Failure → Code
code ref_required = invalid_argument
code record_required = invalid_argument
code _ = internal

abbrev pub on_error {ℓ} : {E F A : Type ℓ} → F → Result E A → Result F A
on_error f (ok a) = ok a
on_error f (err e) = err f

-- An operation on the store, its error reported as `f`.
abbrev pub doing : {S E F A : Type 0} → F → Action S E A → Action S F A
doing f m s = let (r, s') = m s in (on_error f r, s')

abbrev pub or_fail : {E A : Type 0} → E → Option A → Result E A
or_fail e none = err e
or_fail e (some a) = ok a

abbrev pub records_prefix : GoString
records_prefix = lit "/records/"

abbrev pub metrics_key : GoString
metrics_key = lit "/metrics"

pub data QueryType : Type 0 where
  unspecified skill locator : QueryType
  other : ℕ → QueryType

pub record RecordQuery : Type 0 where
  pub type : QueryType
  pub value : GoString

pub record ListResponse : Type 0 where
  pub cid : GoString
  pub labels : List GoString

-- queryMatchesLabels: a skill matches by its name or as a category, a locator by its type.
unfoldable pub query_matches_labels : QueryType → GoString → List GoString → Bool
query_matches_labels skill value labels =
    let target = prefix namespace_skills ++ value in
    any (λ label. label == target || has_prefix label (target ++ slash ∷ [])) labels
query_matches_labels locator value labels =
    let target = prefix namespace_locators ++ value in any (λ label. label == target) labels
query_matches_labels unspecified value labels = true
query_matches_labels (other n) value labels = false

abbrev pub query_matches : List GoString → RecordQuery → Bool
query_matches labels q = query_matches_labels q.type q.value labels

-- The local labels of a record among the entries of one namespace.
unfoldable pub labels_among : GoString → GoString → List Entry → List GoString
labels_among local_peer_id cid [] = []
labels_among local_peer_id cid (e ∷ entries) =
    let rest = labels_among local_peer_id cid entries in
    if e.failed then rest else (elim (parse_enhanced_label_key e.key) [
      | err _ ↦ rest
      | ok (label, key_cid, key_peer_id) ↦
          if key_cid == cid && key_peer_id == local_peer_id then label ∷ rest else rest
    ])

-- datastore.NewKey("/records/" + cid)
abbrev pub record_key : Datastore → GoString → GoString
record_key d cid = d.new_key (records_prefix ++ cid)

module _ (d : Datastore) (local_peer_id : GoString) where
  -- The key of a label of a record at this peer.
  abbrev pub label_key : GoString → GoString → GoString
  label_key cid label = d.new_key (build_enhanced_label_key label cid local_peer_id)

  -- getRecordLabelsEfficiently: one query for each namespace; a query that fails adds nothing.
  abbrev pub namespace_labels : GoString → d.State → GoString → List GoString
  namespace_labels cid s ns = elim (d.query (prefix ns) s) [
    | ok entries ↦ labels_among local_peer_id cid entries
    | err _ ↦ []
  ]

  unfoldable pub record_labels : GoString → d.State → List GoString
  record_labels cid s =
      namespace_labels cid s namespace_skills
      ++ (namespace_labels cid s namespace_domains
          ++ (namespace_labels cid s namespace_features
              ++ namespace_labels cid s namespace_locators))

  -- matchesAllQueries
  unfoldable pub matches_all_queries : GoString → List RecordQuery → d.State → Bool
  matches_all_queries cid [] s = true
  matches_all_queries cid (q ∷ queries) s = all (query_matches (record_labels cid s)) (q ∷ queries)

  -- The loop of listLocalRecords: `n` responses were sent, and a limit of 0 is none.
  unfoldable pub list_entries : List RecordQuery → ℕ → ℕ → d.State → List Entry → List ListResponse
  list_entries queries limit n s [] = []
  list_entries queries limit n s (e ∷ entries) =
      let cid = trim_prefix e.key records_prefix in
      let skipped = list_entries queries limit n s entries in
      let rest = list_entries queries limit (n + 1) s entries in
      if e.failed
      then skipped
      else if cid == []
      then skipped
      else if matches_all_queries cid queries s
      then record { cid = cid; labels = record_labels cid s }
        ∷ (if ltb 0 limit && leb limit (n + 1) then [] else rest)
      else skipped

  -- routeLocal.List: the responses that are sent on the channel.
  unfoldable pub list_records : List RecordQuery → ℕ → d.State → List ListResponse
  list_records queries limit s = elim (d.query records_prefix s) [
    | ok entries ↦ list_entries queries limit 0 s entries
    | err _ ↦ []
  ]

module _ (d : Datastore) (metadata_codec : Codec LabelMetadata) (metrics_codec : Codec Metrics)
    (local_peer_id : GoString) where
  -- loadMetrics and Metrics.update (server/routing/metrics.go)
  unfoldable pub load_metrics : d.State → Result Failure Metrics
  load_metrics s = elim (d.get (d.new_key metrics_key) s) [
    | ok bytes ↦ or_fail load_metrics_failed (metrics_codec.decode bytes)
    | err not_found ↦ ok []
    | err failure ↦ err load_metrics_failed
  ]

  unfoldable pub update_metrics : Metrics → Action d.State Failure (Unit {0})
  update_metrics m s = elim (metrics_codec.encode m) [
    | none ↦ (err update_metrics_failed, s)
    | some bytes ↦ doing update_metrics_failed (d.put (d.new_key metrics_key) bytes) s
  ]

  -- The loop of Publish over the labels: the batch and the metrics after it.
  unfoldable pub put_labels :
      Time
      → GoString
      → List GoString
      → d.Batch
      → Metrics
      → Action d.State Failure (d.Batch × Metrics)
  put_labels now cid [] b m = pure (b, m)
  put_labels now cid (label ∷ labels) b m = do
    bytes ← reads (λ _.
        or_fail serialize_failed
          (metadata_codec.encode (record { timestamp = now; last_seen = now })))
    b' ←
        reads (λ _.
          on_error put_label_failed (d.batch_put (label_key d local_peer_id cid label) bytes b))
    put_labels now cid labels b' (increment label m)

  -- The loop of Unpublish over the labels.
  unfoldable pub delete_labels :
      GoString → List GoString → d.Batch → Metrics → Action d.State Failure (d.Batch × Metrics)
  delete_labels cid [] b m = pure (b, m)
  delete_labels cid (label ∷ labels) b m = do
    b' ←
        reads (λ _.
          on_error delete_label_failed (d.batch_delete (label_key d local_peer_id cid label) b))
    delete_labels cid labels b' (decrement label m)

  -- The part of Publish for a record that is not there yet.
  unfoldable pub publish_new :
      Time → GoString → Record → d.Batch → Metrics → Action d.State Failure (Unit {0})
  publish_new now cid r b m = do
    b' ← reads (λ _. on_error put_record_failed (d.batch_put (record_key d cid) [] b))
    out ← put_labels now cid (get_labels r) b' m
    doing commit_failed (d.commit out.0)
    update_metrics out.1

  -- routeLocal.Publish
  unfoldable pub publish :
      Time → Option GoString → Option Record → Action d.State Failure (Unit {0})
  publish now none r = raise ref_required
  publish now (some cid) none = raise record_required
  publish now (some cid) (some r) = do
    m ← reads load_metrics
    b ← reads (λ s. on_error batch_failed (d.batch s))
    exists ← reads (λ s. on_error has_failed (d.has (record_key d cid) s))
    if exists then pure tt else publish_new now cid r b m

  -- routeLocal.Unpublish
  unfoldable pub unpublish : Option GoString → Option Record → Action d.State Failure (Unit {0})
  unpublish none r = raise ref_required
  unpublish (some cid) none = raise record_required
  unpublish (some cid) (some r) = do
    m ← reads load_metrics
    b ← reads (λ s. on_error batch_failed (d.batch s))
    b' ← reads (λ _. on_error delete_record_failed (d.batch_delete (record_key d cid) b))
    out ← delete_labels cid (get_labels r) b' m
    doing commit_failed (d.commit out.0)
    update_metrics out.1
