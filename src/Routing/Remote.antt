-- ===== src/Routing/Remote.antt =====
-- Remote routing (server/routing/routing_remote.go) over the datastore, the JSON of label metadata and
-- this peer's ID: what is announced to the DHT, what a label announcement leaves in the datastore, and
-- the cleanups. The DHT and the object store are parameters; the clock is read once for each call.
pub mod Deletion
pub mod Stale
pub mod Announced
pub mod Orphans
pub mod Republish
use agntcy_dir.Base.{
  ℕ, zero, suc, ◌+◌, ◌≡◌, Bool, true, false, ◌&&◌, ◌||◌, not, Option, none, some, List, [], ◌∷◌,
  ◌++◌, ltb, if◌then◌else◌,
}
use agntcy_dir.Base.Text.{GoString, lit, ◌==◌}
use agntcy_dir.Base.Text.Split.{split}
use agntcy_dir.Base.Result.{Result, ok, err, is_ok}
use agntcy_dir.Base.Action.{Action}
use agntcy_dir.Labels.Namespace.{slash, prefix, NamespaceType, all_namespaces}
use agntcy_dir.Labels.Key.{
  build_enhanced_label_key, parse_enhanced_label_key, extract_peer_id_from_key,
}
use agntcy_dir.Labels.Metadata.{LabelMetadata, Time, validate, update, is_stale, max_label_age}
use agntcy_dir.Records.Adapter.{Record}
use agntcy_dir.Records.LabelsOf.{get_labels}
use agntcy_dir.Routing.Datastore.{Datastore, Bytes, Entry, StoreError}
use agntcy_dir.Routing.Local.{Codec, records_prefix, record_key, on_error}

-- Provide and PutValue of the DHT.
pub record Dht (Fault : Type 0) : Type 1 where
  pub State : Type 0
  pub provide : GoString → Action State Fault (Unit {0})
  pub put_value : GoString → GoString → Action State Fault (Unit {0})

pub data RemoteError : Type 0 where
  parse_cid_failed announce_failed : RemoteError

pub data CleanupError : Type 0 where
  create_batch_failed commit_cleanup_failed : CleanupError

module _ {Fault : Type 0} (dht : Dht Fault) (local_peer_id : GoString) where
  -- announceLabelToDHT: a failure is logged and dropped.
  unfoldable pub announce_label_to_dht : GoString → GoString → dht.State → dht.State
  announce_label_to_dht label cid n =
      (dht.put_value (build_enhanced_label_key label cid local_peer_id) cid n).1

  unfoldable pub announce_labels : List GoString → GoString → dht.State → dht.State
  announce_labels [] cid n = n
  announce_labels (label ∷ labels) cid n =
      announce_labels labels cid (announce_label_to_dht label cid n)

  abbrev pub announced :
      GoString
      → List GoString
      → Result Fault (Unit {0}) × dht.State
      → Result RemoteError (Unit {0}) × dht.State
  announced cid labels (ok _, n) = (ok tt, announce_labels labels cid n)
  announced cid labels (err e, n) = (err announce_failed, n)

  -- routeRemote.Publish; `cid_decodes` is cid.Decode.
  unfoldable pub publish :
      (GoString → Bool) → GoString → Record → Action dht.State RemoteError (Unit {0})
  publish cid_decodes cid r n =
      if cid_decodes cid
      then announced cid (get_labels r) (dht.provide cid n)
      else (err parse_cid_failed, n)

-- remoteLabelFilter.Filter
unfoldable pub remote_filter : GoString → Entry → Bool
remote_filter local_peer_id e =
    let key_peer_id = extract_peer_id_from_key e.key in
    if key_peer_id == [] then true else not (key_peer_id == local_peer_id)

-- What a query with one filter yields: a result with an error passes.
unfoldable pub filtered : (Entry → Bool) → List Entry → List Entry
filtered test [] = []
filtered test (e ∷ entries) =
    let rest = filtered test entries in if e.failed || test e then e ∷ rest else rest

-- The results of one query for each namespace, in order.
unfoldable pub over_namespaces : (NamespaceType → List Entry) → List NamespaceType → List Entry
over_namespaces results [] = []
over_namespaces results (ns ∷ rest) = results ns ++ over_namespaces results rest

-- The keys of the entries that a loop marks for deletion.
unfoldable pub marked_keys : Datastore → (Entry → Bool) → List Entry → List GoString
marked_keys d test [] = []
marked_keys d test (e ∷ entries) =
    let rest = marked_keys d test entries in if test e then d.new_key e.key ∷ rest else rest

module _ (d : Datastore) (codec : Codec LabelMetadata) (local_peer_id : GoString) where
  -- The metadata that handleLabelNotification stores.
  abbrev pub updated : Time → Option LabelMetadata → LabelMetadata
  updated now (some m) = update now m
  updated now none = record { timestamp = now; last_seen = now }

  abbrev pub decoded : Result StoreError Bytes → Option LabelMetadata
  decoded (ok bytes) = codec.decode bytes
  decoded (err e) = none

  unfoldable pub store_metadata : Time → GoString → d.State → d.State
  store_metadata now key s = elim (codec.encode (updated now (decoded (d.get key s)))) [
    | none ↦ s
    | some bytes ↦ (d.put key bytes s).1
  ]

  -- handleLabelNotification, for the key that was announced. Failures are logged.
  unfoldable pub handle_label_notification : Time → GoString → d.State → d.State
  unfolding store_metadata
  handle_label_notification now label_key s = store_metadata now (d.new_key label_key) s

  -- Whether cleanupStaleRemoteLabels marks a label for deletion.
  abbrev pub is_dead_metadata : Time → Option LabelMetadata → Bool
  is_dead_metadata now none = true
  is_dead_metadata now (some m) = not (is_ok (validate m)) || is_stale now m max_label_age

  unfoldable pub is_dead : Time → Entry → Bool
  is_dead now e = elim (parse_enhanced_label_key e.key) [
    | err _ ↦ true
    | ok _ ↦ is_dead_metadata now (codec.decode e.value)
  ]

  unfoldable pub stale_keys : Time → List Entry → List GoString
  stale_keys now = marked_keys d (λ e. not e.failed && is_dead now e)

  -- The remote labels of each namespace; a query that fails adds nothing.
  abbrev pub queried : (Entry → Bool) → Result StoreError (List Entry) → List Entry
  queried test (ok entries) = filtered test entries
  queried test (err e) = []

  unfoldable pub remote_labels : d.State → List Entry
  unfolding all_namespaces
  remote_labels s =
      over_namespaces (λ ns. queried (remote_filter local_peer_id) (d.query (prefix ns) s))
        all_namespaces

  -- The batch after the deletions; one that fails is skipped.
  abbrev pub or_same : d.Batch → Result StoreError d.Batch → d.Batch
  or_same b (ok b') = b'
  or_same b (err e) = b

  unfoldable pub delete_keys : List GoString → d.Batch → d.Batch
  delete_keys [] b = b
  delete_keys (key ∷ keys) b = delete_keys keys (or_same b (d.batch_delete key b))

  abbrev pub committed :
      {E : Type 0} → E → Result StoreError (Unit {0}) × d.State → Result E (Unit {0}) × d.State
  committed e (r, s) = (on_error e r, s)

  unfoldable pub delete_stale : List GoString → Action d.State CleanupError (Unit {0})
  delete_stale [] s = (ok tt, s)
  delete_stale (key ∷ keys) s = elim (d.batch s) [
    | err _ ↦ (err create_batch_failed, s)
    | ok b ↦ committed commit_cleanup_failed (d.commit (delete_keys (key ∷ keys) b) s)
  ]

  -- cleanupStaleRemoteLabels
  unfoldable pub cleanup_stale_remote_labels : Time → Action d.State CleanupError (Unit {0})
  cleanup_stale_remote_labels now s = delete_stale (stale_keys now (remote_labels s)) s

  -- The label keys that cleanupLabelsForCID deletes among the results of its queries.
  unfoldable pub is_orphan_label : GoString → Entry → Bool
  is_orphan_label cid e = elim (parse_enhanced_label_key e.key) [
    | err _ ↦ true
    | ok (_, key_cid, key_peer_id) ↦ key_cid == cid && key_peer_id == local_peer_id
  ]

  unfoldable pub orphan_keys : GoString → List Entry → List GoString
  orphan_keys cid = marked_keys d (is_orphan_label cid)

  abbrev pub answered : Result StoreError (List Entry) → List Entry
  answered (ok entries) = entries
  answered (err e) = []

  unfoldable pub label_entries : d.State → List Entry
  unfolding all_namespaces
  label_entries s = over_namespaces (λ ns. answered (d.query (prefix ns) s)) all_namespaces

  -- The number of deletions that the batch took.
  abbrev pub count_deleted : ℕ → Result StoreError d.Batch → ℕ
  count_deleted n (ok b) = suc n
  count_deleted n (err e) = n

  unfoldable pub keys_deleted : List GoString → d.Batch → ℕ
  keys_deleted [] b = 0
  keys_deleted (key ∷ keys) b =
      count_deleted (keys_deleted keys (or_same b (d.batch_delete key b))) (d.batch_delete key b)

  -- The keys of cleanupLabelsForCID: the record's, and those of its labels.
  unfoldable pub keys_of_orphan : GoString → d.State → List GoString
  keys_of_orphan cid s = record_key d cid ∷ orphan_keys cid (label_entries s)

  abbrev pub succeeded : Bool → Result StoreError (Unit {0}) × d.State → Bool × d.State
  succeeded any_deleted (ok _, s) = (any_deleted, s)
  succeeded any_deleted (err e, s) = (false, s)

  -- cleanupLabelsForCID
  unfoldable pub cleanup_labels_for_cid : GoString → d.State → Bool × d.State
  unfolding keys_of_orphan
  cleanup_labels_for_cid cid s = elim (d.batch s) [
    | err _ ↦ (false, s)
    | ok b ↦
        let keys = keys_of_orphan cid s in
        succeeded (ltb 0 (keys_deleted keys b)) (d.commit (delete_keys keys b) s)
  ]

  -- cleanupOrphanedLocalLabels: the number of CIDs that were cleaned.
  unfoldable pub cleanup_orphaned_local_labels : List GoString → d.State → ℕ × d.State
  cleanup_orphaned_local_labels [] s = (0, s)
  cleanup_orphaned_local_labels (cid ∷ cids) s =
      let (cleaned, s') = cleanup_labels_for_cid cid s in
      let (n, s'') = cleanup_orphaned_local_labels cids s' in (if cleaned then suc n else n, s'')
