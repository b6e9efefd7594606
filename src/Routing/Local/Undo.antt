-- ===== src/Routing/Local/Undo.antt =====
-- Unpublish after Publish.
use agntcy_dir.Base.{◌+◌, ◌<◌, ◌≡◌, ◌∙◌, true, none, some, List, arith, if◌then◌else◌}
use agntcy_dir.Base.Text.{GoString, ◌==◌, eq_iff, eq_refl}
use agntcy_dir.Base.Result.{ok}
use agntcy_dir.Labels.Metadata.{LabelMetadata, Time}
use agntcy_dir.Records.Adapter.{Record}
use agntcy_dir.Records.LabelsOf.{get_labels}
use agntcy_dir.Routing.Datastore.{Datastore, Bytes, Contents, IsReliable}
use agntcy_dir.Routing.Metrics.{
  Metrics, increments, decrements, count, occurrences, uint64_mod, decrements-increments,
}
use agntcy_dir.Routing.Local.{Codec, load_metrics, record_key, metrics_key, publish, unpublish}
use agntcy_dir.Routing.Local.Effects.{
  is_label_key, published, unpublished, publish_effect, unpublish_effect,
}

-- The decoder reads back what the encoder writes.
pub record IsRoundTrip {A : Type 0} (c : Codec A) : Type 0 where
  pub back : (a : A) (bytes : Bytes) → c.encode a ≡ some bytes → c.decode bytes ≡ some a

module _ (d : Datastore) (local_peer_id : GoString) (rel : IsReliable d)
    (metadata_codec : Codec LabelMetadata) (metrics_codec : Codec Metrics)
    (rt : IsRoundTrip metrics_codec) where
  load_stored :
      (m : Metrics) (bytes : Bytes) (s : d.State)
      → metrics_codec.encode m ≡ some bytes
      → rel.contents s (d.new_key metrics_key) ≡ some bytes
      → load_metrics d metadata_codec metrics_codec local_peer_id s ≡ ok m
  unfolding load_metrics
  load_stored m bytes s e held =
      rw (rel.get_lem (d.new_key metrics_key) s, held, load_metrics) (rw (rt.back m bytes e))

  restored :
      (cid : GoString) (labels : List GoString) (x y z : Bytes) (c c' : Contents) (j : GoString)
      → c (record_key d cid) ≡ none
      → (is_label_key d local_peer_id cid labels j ≡ true → c j ≡ none)
      → c' j ≡ published d local_peer_id cid labels x y c j
      → unpublished d local_peer_id cid labels z c' j
        ≡ (if d.new_key metrics_key == j then some z else c j)
  restored cid labels x y z c c' j absent no_labels held =
      ground (arith, eq_iff (d.new_key metrics_key) j, eq_iff (record_key d cid) j)

  -- On a store that does not fail, Unpublish undoes the Publish of a record that was not there: both
  -- succeed, every key but that of the metrics holds what it held, and every label counts what it
  -- counted, if the labels' keys were free, no count overflows, the metrics load, what is
  -- stored encodes, and the metrics read back.
  pub unpublish-publish :
      (now : Time) (cid : GoString) (r : Record) (m : Metrics)
      (label_bytes metrics_bytes final_bytes : Bytes) (s : d.State)
      → load_metrics d metadata_codec metrics_codec local_peer_id s ≡ ok m
      → rel.contents s (record_key d cid) ≡ none
      → ((j : GoString)
          → is_label_key d local_peer_id cid (get_labels r) j ≡ true
          → rel.contents s j ≡ none)
      → ((l : GoString) → count m l + occurrences l (get_labels r) < uint64_mod)
      → metadata_codec.encode (record { timestamp = now; last_seen = now }) ≡ some label_bytes
      → metrics_codec.encode (increments (get_labels r) m) ≡ some metrics_bytes
      → metrics_codec.encode (decrements (get_labels r) (increments (get_labels r) m))
        ≡ some final_bytes
      → (s' : d.State) × (s'' : d.State) × (m'' : Metrics) × (publish d metadata_codec metrics_codec
            local_peer_id now
            (some cid)
            (some r)
            s
          ≡ (ok tt, s'))
        × (unpublish d metadata_codec metrics_codec local_peer_id (some cid) (some r) s'
            ≡ (ok tt, s''))
        × ((j : GoString)
            → rel.contents s'' j
              ≡ (if d.new_key metrics_key == j then some final_bytes else rel.contents s j))
        × (load_metrics d metadata_codec metrics_codec local_peer_id s'' ≡ ok m'')
        × ((l : GoString) → count m'' l ≡ count m l)
  unpublish-publish now cid r m label_bytes metrics_bytes final_bytes s loaded absent no_labels room
        e₁ e₂ e₃ =
      let key = d.new_key metrics_key in
      let labels = get_labels r in
      let (s', done, held) =
        publish_effect d local_peer_id rel metadata_codec metrics_codec now cid r m label_bytes
          metrics_bytes s loaded absent e₁ e₂ in
      let at_key : rel.contents s' key ≡ some metrics_bytes = rw (held key, eq_refl key) in
      let loaded' = load_stored (increments labels m) metrics_bytes s' e₂ at_key in
      let (s'', done', held') =
        unpublish_effect d local_peer_id rel metadata_codec metrics_codec cid r
          (increments labels m) final_bytes s' loaded' e₃ in
      let at_key' : rel.contents s'' key ≡ some final_bytes = rw (held' key, eq_refl key) in
      (
        s',
        s'',
        decrements labels (increments labels m),
        done,
        done',
        λ j.
            held' j
            ∙ restored cid labels label_bytes metrics_bytes final_bytes (rel.contents s)
                (rel.contents s') j absent (no_labels j) (held j),
        load_stored (decrements labels (increments labels m)) final_bytes s'' e₃ at_key',
        λ l. decrements-increments labels l m (room l),
      )
