-- ===== src/Routing/Local/Failures.antt =====
-- What Publish and Unpublish leave behind when they fail, on any datastore.
use agntcy_dir.Base.{
  ◌≡◌, refl, ap, sym, ◌∙◌, Bool, true, false, Option, none, some, if◌then◌else◌, List, [], ◌∷◌,
  arith,
}
use agntcy_dir.Base.Text.{GoString}
use agntcy_dir.Base.Result.{Result, ok, err}
use agntcy_dir.Base.Action.{Action, ◌>>=◌, ◌>>◌, proceed, reads, pure}
use agntcy_dir.Labels.Metadata.{LabelMetadata, Time}
use agntcy_dir.Records.Adapter.{Record}
use agntcy_dir.Records.LabelsOf.{get_labels}
use agntcy_dir.Routing.Datastore.{Datastore, Bytes}
use agntcy_dir.Routing.Metrics.{Metrics, increment, decrement}
use agntcy_dir.Routing.Local.{
  Codec, Failure, commit_failed, update_metrics_failed, load_metrics, update_metrics, doing,
  on_error, or_fail, serialize_failed, put_label_failed, delete_label_failed, put_record_failed,
  delete_record_failed, batch_failed, has_failed, put_labels, delete_labels, publish_new, publish,
  unpublish, label_key, record_key, metrics_key,
}

err-injective : {E A : Type 0} (x y : E) → ◌≡◌ {A = Result E A} (err x) (err y) → x ≡ y
err-injective x y h = cc

-- The steps before the batch is committed.
abbrev pub before_commit : Failure → Bool
before_commit commit_failed = false
before_commit update_metrics_failed = false
before_commit _ = true

-- A failure before the commit leaves the state as it was.
pub record IsAtomic {S A : Type 0} (m : Action S Failure A) (s : S) : Type 0 where
  pub kept : (e : Failure) → (m s).0 ≡ err e → before_commit e ≡ true → (m s).1 ≡ s

-- An action all of whose failures come with the commit or after it.
record IsLate {S A : Type 0} (m : Action S Failure A) : Type 0 where
  late : (s : S) (e : Failure) → (m s).0 ≡ err e → before_commit e ≡ false

-- An action that never changes the state.
record IsReader {S A : Type 0} (m : Action S Failure A) : Type 0 where
  same : (s : S) → (m s).1 ≡ s

reads-IsReader : {S A : Type 0} (f : S → Result Failure A) → IsReader (reads f)
reads-IsReader f = record { same = λ s. refl }

module _ {S A B : Type 0} (g : A → Action S Failure B) where
  reader_proceed :
      (p : Result Failure A × S) (s : S)
      → p.1 ≡ s
      → ((a : A) → IsReader (g a))
      → (proceed p g).1 ≡ s
  reader_proceed (ok a, s') s q h = (h a).same s' ∙ q
  reader_proceed (err x, s') s q h = q

  bind-IsReader :
      (m : Action S Failure A) → IsReader m → ((a : A) → IsReader (g a)) → IsReader (m >>= g)
  bind-IsReader m r h = record { same = λ s. reader_proceed (m s) s (r.same s) h }

  atomic_proceed :
      (p : Result Failure A × S) (s : S)
      → p.1 ≡ s
      → ((a : A) → IsAtomic (g a) s)
      → (e : Failure) → (proceed p g).0 ≡ err e
      → before_commit e ≡ true
      → (proceed p g).1 ≡ s
  atomic_proceed (ok a, s') s q h e f t = rw q ((h a).kept e (ap (λ x. (g a x).0) (sym q) ∙ f) t)
  atomic_proceed (err x, s') s q h e f t = q

  bind-IsAtomic :
      (m : Action S Failure A) (s : S)
      → IsReader m
      → ((a : A) → IsAtomic (g a) s)
      → IsAtomic (m >>= g) s
  bind-IsAtomic m s r h = record { kept = λ e f t. atomic_proceed (m s) s (r.same s) h e f t }

  late_proceed :
      (p : Result Failure A × S) (e : Failure)
      → ((x : Failure) → p.0 ≡ err x → before_commit x ≡ false)
      → ((a : A) → IsLate (g a))
      → (proceed p g).0 ≡ err e
      → before_commit e ≡ false
  late_proceed (ok a, s) e h k f = (k a).late s e f
  late_proceed (err x, s) e h k f = h e (ap err (err-injective x e f))

IsLate-IsAtomic : {S A : Type 0} (m : Action S Failure A) (s : S) → IsLate m → IsAtomic m s
IsLate-IsAtomic m s l = record { kept = λ e f t. absurd (ground (arith, l.late s e f)) }

on_error-is_late :
    {E A : Type 0} (x e : Failure) (r : Result E A)
    → before_commit x ≡ false
    → on_error x r ≡ err e
    → before_commit e ≡ false
on_error-is_late x e (ok a) t h = cc
on_error-is_late x e (err y) t h = ap before_commit (sym (err-injective x e h)) ∙ t

module _ (d : Datastore) (metadata_codec : Codec LabelMetadata) (metrics_codec : Codec Metrics)
    (local_peer_id : GoString) where
  update_metrics_late :
      (m : Metrics) (o : Option Bytes) (s : d.State) (e : Failure)
      → metrics_codec.encode m ≡ o
      → (update_metrics d metadata_codec metrics_codec local_peer_id m s).0 ≡ err e
      → before_commit e ≡ false
  unfolding update_metrics
  update_metrics_late m none s e there f = ground (arith, there)
  update_metrics_late m (some bytes) s e there f = ground (
    arith,
    there,
    on_error-is_late update_metrics_failed e (d.put (d.new_key metrics_key) bytes s).0,
  )

  commit_update-IsLate :
      (b : d.Batch) (m : Metrics)
      → IsLate (
          doing commit_failed (d.commit b)
          >> update_metrics d metadata_codec metrics_codec local_peer_id m)
  commit_update-IsLate b m = record {
    late = λ s e.
        late_proceed (λ _. update_metrics d metadata_codec metrics_codec local_peer_id m)
          (doing commit_failed (d.commit b) s) e
          (λ x h. on_error-is_late commit_failed x (d.commit b s).0 refl h)
          (λ _. record {
            late = λ s' e' f. update_metrics_late m (metrics_codec.encode m) s' e' refl f;
          });
  }

  put_labels-IsReader :
      (now : Time) (cid : GoString) (labels : List GoString) (b : d.Batch) (m : Metrics)
      → IsReader (put_labels d metadata_codec metrics_codec local_peer_id now cid labels b m)
  unfolding put_labels
  put_labels-IsReader now cid [] b m = record { same = λ s. refl }
  put_labels-IsReader now cid (l ∷ labels) b m =
      bind-IsReader _ _
        (reads-IsReader (λ _.
          or_fail serialize_failed
            (metadata_codec.encode (record { timestamp = now; last_seen = now }))))
        (λ bytes.
          bind-IsReader _ _
            (reads-IsReader (λ _.
              on_error put_label_failed (d.batch_put (label_key d local_peer_id cid l) bytes b)))
            (λ b'. put_labels-IsReader now cid labels b' (increment l m)))

  delete_labels-IsReader :
      (cid : GoString) (labels : List GoString) (b : d.Batch) (m : Metrics)
      → IsReader (delete_labels d metadata_codec metrics_codec local_peer_id cid labels b m)
  unfolding delete_labels
  delete_labels-IsReader cid [] b m = record { same = λ s. refl }
  delete_labels-IsReader cid (l ∷ labels) b m =
      bind-IsReader _ _
        (reads-IsReader
          (λ _. on_error delete_label_failed (d.batch_delete (label_key d local_peer_id cid l) b)))
        (λ b'. delete_labels-IsReader cid labels b' (decrement l m))

  publish_new-IsAtomic :
      (now : Time) (cid : GoString) (r : Record) (b : d.Batch) (m : Metrics) (s : d.State)
      → IsAtomic (publish_new d metadata_codec metrics_codec local_peer_id now cid r b m) s
  unfolding publish_new
  publish_new-IsAtomic now cid r b m s =
      bind-IsAtomic _ _ s
        (reads-IsReader (λ _. on_error put_record_failed (d.batch_put (record_key d cid) [] b)))
        (λ b'.
          bind-IsAtomic _ _ s (put_labels-IsReader now cid (get_labels r) b' m)
            (λ out. IsLate-IsAtomic _ s (commit_update-IsLate out.0 out.1)))

  publish_or_not :
      (now : Time) (cid : GoString) (r : Record) (b : d.Batch) (m : Metrics) (s : d.State)
      (exists : Bool)
      → IsAtomic
          (if exists
            then pure tt
            else publish_new d metadata_codec metrics_codec local_peer_id now cid r b m)
          s
  publish_or_not now cid r b m s true = record { kept = λ _ _ _. refl }
  publish_or_not now cid r b m s false = publish_new-IsAtomic now cid r b m s

  -- Whatever the datastore does, a Publish that fails before it commits its batch leaves the
  -- state of the store as it was.
  pub publish-IsAtomic :
      (now : Time) (cid : Option GoString) (r : Option Record) (s : d.State)
      → IsAtomic (publish d metadata_codec metrics_codec local_peer_id now cid r) s
  unfolding publish
  publish-IsAtomic now none r s = record { kept = λ _ _ _. refl }
  publish-IsAtomic now (some cid) none s = record { kept = λ _ _ _. refl }
  publish-IsAtomic now (some cid) (some r) s =
      bind-IsAtomic _ _ s
        (reads-IsReader (load_metrics d metadata_codec metrics_codec local_peer_id))
        (λ m. bind-IsAtomic _ _ s (reads-IsReader (λ s'. on_error batch_failed (d.batch s'))) (λ b.
          bind-IsAtomic _ _ s
            (reads-IsReader (λ s'. on_error has_failed (d.has (record_key d cid) s')))
            (publish_or_not now cid r b m s)))

  -- Whatever the datastore does, an Unpublish that fails before it commits its batch leaves the
  -- state of the store as it was.
  pub unpublish-IsAtomic :
      (cid : Option GoString) (r : Option Record) (s : d.State)
      → IsAtomic (unpublish d metadata_codec metrics_codec local_peer_id cid r) s
  unfolding unpublish
  unpublish-IsAtomic none r s = record { kept = λ _ _ _. refl }
  unpublish-IsAtomic (some cid) none s = record { kept = λ _ _ _. refl }
  unpublish-IsAtomic (some cid) (some r) s =
      bind-IsAtomic _ _ s
        (reads-IsReader (load_metrics d metadata_codec metrics_codec local_peer_id))
        (λ m. bind-IsAtomic _ _ s (reads-IsReader (λ s'. on_error batch_failed (d.batch s'))) (λ b.
          bind-IsAtomic _ _ s
            (reads-IsReader
              (λ _. on_error delete_record_failed (d.batch_delete (record_key d cid) b)))
            (λ b'.
              bind-IsAtomic _ _ s (delete_labels-IsReader cid (get_labels r) b' m)
                (λ out. IsLate-IsAtomic _ s (commit_update-IsLate out.0 out.1)))))

  -- Whatever the datastore does, a Publish or an Unpublish that fails before it commits its batch leaves
  -- the state of the store as it was.
  pub publish_unpublish-IsAtomic :
      (now : Time) (cid : Option GoString) (r : Option Record) (s : d.State)
      → IsAtomic (publish d metadata_codec metrics_codec local_peer_id now cid r) s
        × IsAtomic (unpublish d metadata_codec metrics_codec local_peer_id cid r) s
  publish_unpublish-IsAtomic now cid r s =
      (publish-IsAtomic now cid r s, unpublish-IsAtomic cid r s)
