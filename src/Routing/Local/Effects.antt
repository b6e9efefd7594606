-- ===== src/Routing/Local/Effects.antt =====
-- What Publish and Unpublish do to the datastore.
use agntcy_dir.Base.{◌≡◌, refl, Bool, none, some, List, [], ◌∷◌, ◌++◌, arith, any, if◌then◌else◌}
use agntcy_dir.Base.Text.{GoString, ◌==◌}
use agntcy_dir.Base.Result.{ok}
use agntcy_dir.Base.Action.{◌>>◌}
use agntcy_dir.Labels.Metadata.{LabelMetadata, Time}
use agntcy_dir.Records.Adapter.{Record}
use agntcy_dir.Records.LabelsOf.{get_labels}
use agntcy_dir.Routing.Datastore.{
  Datastore, Bytes, Contents, Op, put, delete, IsReliable, apply_op, apply_ops,
}
use agntcy_dir.Routing.Metrics.{Metrics, increment, decrement, increments, decrements}
use agntcy_dir.Routing.Local.{
  Codec, commit_failed, load_metrics, update_metrics, record_key, label_key, metrics_key, doing,
  put_labels, delete_labels, publish_new, publish, unpublish,
}

pub apply_ops-append :
    (ops : List Op) (op : Op) (c : Contents) (j : GoString)
    → apply_ops (ops ++ op ∷ []) c j ≡ apply_op op (apply_ops ops c) j
unfolding apply_ops
apply_ops-append [] op c j = refl
apply_ops-append (o ∷ ops) op c j = apply_ops-append ops op (apply_op o c) j

apply_ops_single :
    (op : Op) (c : Contents) (j : GoString) → apply_ops ([] ++ op ∷ []) c j ≡ apply_op op c j
unfolding apply_ops
apply_ops_single op c j = refl

module _ (d : Datastore) (local_peer_id : GoString) where
  -- The test whether a key is that of one of the labels.
  abbrev pub is_label_key : GoString → List GoString → GoString → Bool
  is_label_key cid labels j = any (λ label. label_key d local_peer_id cid label == j) labels

  -- The contents after Publish, and after Unpublish, of a record with these labels.
  abbrev pub published : GoString → List GoString → Bytes → Bytes → Contents → Contents
  published cid labels label_bytes metrics_bytes c j =
      if d.new_key metrics_key == j
      then some metrics_bytes
      else if is_label_key cid labels j
      then some label_bytes
      else if record_key d cid == j
      then some []
      else c j

  abbrev pub unpublished : GoString → List GoString → Bytes → Contents → Contents
  unpublished cid labels metrics_bytes c j =
      if d.new_key metrics_key == j
      then some metrics_bytes
      else if is_label_key cid labels j
      then none
      else if record_key d cid == j
      then none
      else c j

  module _ (rel : IsReliable d) where
    puts : GoString → Bytes → List GoString → d.Batch → d.Batch
    puts cid bytes [] b = b
    puts cid bytes (l ∷ labels) b =
        puts cid bytes labels (rel.with_put (label_key d local_peer_id cid l) bytes b)

    deletes : GoString → List GoString → d.Batch → d.Batch
    deletes cid [] b = b
    deletes cid (l ∷ labels) b =
        deletes cid labels (rel.with_delete (label_key d local_peer_id cid l) b)

    contents_of_puts :
        (cid : GoString) (bytes : Bytes) (labels : List GoString) (b : d.Batch) (c : Contents)
        (j : GoString)
        → apply_ops (rel.pending (puts cid bytes labels b)) c j
          ≡ (if is_label_key cid labels j then some bytes else apply_ops (rel.pending b) c j)
    unfolding puts
    contents_of_puts cid bytes [] b c j = refl
    contents_of_puts cid bytes (l ∷ labels) b c j =
        let k = label_key d local_peer_id cid l in
        ground (
          arith,
          contents_of_puts cid bytes labels (rel.with_put k bytes b) c j,
          rel.with_put_lem k bytes b,
          apply_ops-append (rel.pending b) (put k bytes) c j,
        )

    contents_of_deletes :
        (cid : GoString) (labels : List GoString) (b : d.Batch) (c : Contents) (j : GoString)
        → apply_ops (rel.pending (deletes cid labels b)) c j
          ≡ (if is_label_key cid labels j then none else apply_ops (rel.pending b) c j)
    unfolding deletes
    contents_of_deletes cid [] b c j = refl
    contents_of_deletes cid (l ∷ labels) b c j =
        let k = label_key d local_peer_id cid l in
        ground (
          arith,
          contents_of_deletes cid labels (rel.with_delete k b) c j,
          rel.with_delete_lem k b,
          apply_ops-append (rel.pending b) (delete k) c j,
        )

    module _ (metadata_codec : Codec LabelMetadata) (metrics_codec : Codec Metrics) where
      put_labels_lem :
          (now : Time) (cid : GoString) (labels : List GoString) (bytes : Bytes) (b : d.Batch)
          (m : Metrics) (s : d.State)
          → metadata_codec.encode (record { timestamp = now; last_seen = now }) ≡ some bytes
          → put_labels d metadata_codec metrics_codec local_peer_id now cid labels b m s
            ≡ (ok (puts cid bytes labels b, increments labels m), s)
      unfolding put_labels puts increments
      put_labels_lem now cid [] bytes b m s e = refl
      put_labels_lem now cid (l ∷ labels) bytes b m s e =
          rw (e, rel.batch_put_lem _ bytes b)
            (put_labels_lem now cid labels bytes
              (rel.with_put (label_key d local_peer_id cid l) bytes b) (increment l m) s e)

      delete_labels_lem :
          (cid : GoString) (labels : List GoString) (b : d.Batch) (m : Metrics) (s : d.State)
          → delete_labels d metadata_codec metrics_codec local_peer_id cid labels b m s
            ≡ (ok (deletes cid labels b, decrements labels m), s)
      unfolding delete_labels deletes decrements
      delete_labels_lem cid [] b m s = refl
      delete_labels_lem cid (l ∷ labels) b m s = rw (rel.batch_delete_lem _ b) (
          delete_labels_lem cid labels (rel.with_delete (label_key d local_peer_id cid l) b)
            (decrement l m) s)

      update_metrics_lem :
          (m : Metrics) (metrics_bytes : Bytes) (s : d.State)
          → metrics_codec.encode m ≡ some metrics_bytes
          → update_metrics d metadata_codec metrics_codec local_peer_id m s
            ≡ (ok tt, (d.put (d.new_key metrics_key) metrics_bytes s).1)
      unfolding update_metrics
      update_metrics_lem m metrics_bytes s e =
          rw (e, update_metrics) (rw (rel.put_ok (d.new_key metrics_key) metrics_bytes s))

      -- Committing a batch and storing the metrics.
      commit_update :
          (b : d.Batch) (m : Metrics) (metrics_bytes : Bytes) (s : d.State)
          → metrics_codec.encode m ≡ some metrics_bytes
          → (s' : d.State) × ((doing commit_failed (d.commit b)
                  >> update_metrics d metadata_codec metrics_codec local_peer_id m)
                s
              ≡ (ok tt, s'))
            × ((j : GoString)
                → rel.contents s' j ≡ (
                    if d.new_key metrics_key == j
                    then some metrics_bytes
                    else apply_ops (rel.pending b) (rel.contents s) j))
      commit_update b m metrics_bytes s e =
          let s₁ = (d.commit b s).1 in
          let k = d.new_key metrics_key in
          (
            (d.put k metrics_bytes s₁).1,
            rw (rel.commit_ok b s) (update_metrics_lem m metrics_bytes s₁ e),
            λ j. rw (rel.put_lem k metrics_bytes s₁ j, rel.commit_lem b s j),
          )

      -- On a store that does not fail, Publish of a record that is not there stores the record's
      -- key, a key for each label, and the metrics with the labels counted, and nothing
      -- else, if the metrics load and what is stored encodes.
      pub publish_effect :
          (now : Time) (cid : GoString) (r : Record) (m : Metrics)
          (label_bytes metrics_bytes : Bytes) (s : d.State)
          → load_metrics d metadata_codec metrics_codec local_peer_id s ≡ ok m
          → rel.contents s (record_key d cid) ≡ none
          → metadata_codec.encode (record { timestamp = now; last_seen = now }) ≡ some label_bytes
          → metrics_codec.encode (increments (get_labels r) m) ≡ some metrics_bytes
          → (s' : d.State) × (publish d metadata_codec metrics_codec local_peer_id now
                (some cid)
                (some r)
                s
              ≡ (ok tt, s'))
            × ((j : GoString)
                → rel.contents s' j
                  ≡ published cid (get_labels r) label_bytes metrics_bytes (rel.contents s) j)
      unfolding publish publish_new
      publish_effect now cid r m label_bytes metrics_bytes s loaded absent e₁ e₂ =
          let b = rel.with_put (record_key d cid) [] (rel.fresh s) in
          let (s', done, held) =
            commit_update (puts cid label_bytes (get_labels r) b) (increments (get_labels r) m)
              metrics_bytes s e₂ in
          (
            s',
            rw
                (
                  loaded,
                  rel.batch_lem s,
                  rel.has_lem (record_key d cid) s,
                  absent,
                  rel.batch_put_lem (record_key d cid) [] (rel.fresh s),
                  put_labels_lem now cid (get_labels r) label_bytes b m s e₁,
                )
                done,
            λ j.
                let base : apply_ops (rel.pending b) (rel.contents s) j
                    ≡ apply_op (put (record_key d cid) []) (rel.contents s) j =
                  rw (rel.with_put_lem (record_key d cid) [] (rel.fresh s), rel.fresh_lem s)
                    (apply_ops_single (put (record_key d cid) []) (rel.contents s) j) in
                rw (
                  held j,
                  contents_of_puts cid label_bytes (get_labels r) b (rel.contents s) j,
                  base,
                ),
          )

      -- On a store that does not fail, Unpublish deletes the record's key and the key of each label,
      -- stores the metrics with the labels taken away, and changes nothing else, if the metrics
      -- load and encode. It does not ask whether the record was published.
      pub unpublish_effect :
          (cid : GoString) (r : Record) (m : Metrics) (metrics_bytes : Bytes) (s : d.State)
          → load_metrics d metadata_codec metrics_codec local_peer_id s ≡ ok m
          → metrics_codec.encode (decrements (get_labels r) m) ≡ some metrics_bytes
          → (s' : d.State) × (unpublish d metadata_codec metrics_codec local_peer_id
                (some cid)
                (some r)
                s
              ≡ (ok tt, s'))
            × ((j : GoString)
                → rel.contents s' j
                  ≡ unpublished cid (get_labels r) metrics_bytes (rel.contents s) j)
      unfolding unpublish
      unpublish_effect cid r m metrics_bytes s loaded e =
          let b = rel.with_delete (record_key d cid) (rel.fresh s) in
          let (s', done, held) =
            commit_update (deletes cid (get_labels r) b) (decrements (get_labels r) m) metrics_bytes
              s e in
          (
            s',
            rw
                (
                  loaded,
                  rel.batch_lem s,
                  rel.batch_delete_lem (record_key d cid) (rel.fresh s),
                  delete_labels_lem cid (get_labels r) b m s,
                )
                done,
            λ j.
                let base : apply_ops (rel.pending b) (rel.contents s) j
                    ≡ apply_op (delete (record_key d cid)) (rel.contents s) j =
                  rw (rel.with_delete_lem (record_key d cid) (rel.fresh s), rel.fresh_lem s)
                    (apply_ops_single (delete (record_key d cid)) (rel.contents s) j) in
                rw (held j, contents_of_deletes cid (get_labels r) b (rel.contents s) j, base),
          )

      -- On a store that does not fail, Publish of a record that is there succeeds and changes nothing,
      -- if the metrics load.
      pub publish_again :
          (now : Time) (cid : GoString) (r : Record) (m : Metrics) (v : Bytes) (s : d.State)
          → load_metrics d metadata_codec metrics_codec local_peer_id s ≡ ok m
          → rel.contents s (record_key d cid) ≡ some v
          → publish d metadata_codec metrics_codec local_peer_id now (some cid) (some r) s
            ≡ (ok tt, s)
      unfolding publish
      publish_again now cid r m v s loaded there =
          rw (loaded, rel.batch_lem s, rel.has_lem (record_key d cid) s, there)
