-- ===== src/Routing/Remote/Announced.antt =====
-- A label that another peer announces, from the notification to the cleanup.
use agntcy_dir.Base.{
  ◌-◌, ◌<◌, ◌≤◌, ◌≡◌, ◌≢◌, refl, ap, sym, subst, ◌∙◌, Bool-cases, Option, none, some, [], inl, inr,
  arith, ltb, if◌then◌else◌,
}
use agntcy_dir.Base.Text.{GoString, eq_refl}
use agntcy_dir.Base.Result.{ok}
use agntcy_dir.Labels.Key.{parse_enhanced_label_key}
use agntcy_dir.Labels.Metadata.{LabelMetadata, Time, max_label_age, update}
use agntcy_dir.Routing.Datastore.{Datastore, Bytes, IsReliable}
use agntcy_dir.Routing.Local.{Codec}
use agntcy_dir.Routing.Local.Undo.{IsRoundTrip}
use agntcy_dir.Routing.Remote.{
  updated, decoded, store_metadata, handle_label_notification, cleanup_stale_remote_labels,
}
use agntcy_dir.Routing.Remote.Deletion.{KeepsKeys, Swept-at}
use agntcy_dir.Routing.Remote.Stale.{
  IsRemoteLabel, IsDead, unparsed, undecoded, unset, unseen, disordered, expired,
  cleanup_stale_effect,
}

module _ (d : Datastore) (codec : Codec LabelMetadata) (local_peer_id : GoString)
    (rel : IsReliable d) where
  -- What was stored for the label before.
  abbrev pub before : GoString → d.State → Option LabelMetadata
  before key s = decoded d codec local_peer_id (d.get key s)

  -- Stored times that were set, and not after `now`.
  abbrev pub HasTimes : Time → Option LabelMetadata → Type 0
  HasTimes now none = Unit
  HasTimes now (some m) = (m.timestamp ≢ 0) × (m.timestamp ≤ now)

  updated_times :
      (now : Time) (old : Option LabelMetadata)
      → now ≢ 0
      → HasTimes now old
      → ((updated d codec local_peer_id now old).timestamp ≢ 0)
        × ((updated d codec local_peer_id now old).timestamp ≤ now)
        × ((updated d codec local_peer_id now old).last_seen ≡ now)
  unfolding update
  updated_times now none set h = (set, omega arith, refl)
  updated_times now (some m) set h = (h.0, h.1, refl)

  stored :
      (now : Time) (key : GoString) (bytes : Bytes) (s : d.State)
      → d.new_key key ≡ key
      → codec.encode (updated d codec local_peer_id now (before key s)) ≡ some bytes
      → rel.contents (handle_label_notification d codec local_peer_id now key s) key ≡ some bytes
  unfolding handle_label_notification store_metadata
  stored now key bytes s clean encodes =
      ap (λ k. rel.contents (store_metadata d codec local_peer_id now k s) key) clean
      ∙ rw (encodes, store_metadata) (rel.put_lem key bytes s key ∙ rw (eq_refl key) refl)

  dead_iff_old :
      (now later : Time) (key : GoString) (bytes : Bytes) (m : LabelMetadata)
      (fields : GoString × GoString × GoString)
      → parse_enhanced_label_key key ≡ ok fields
      → codec.decode bytes ≡ some m
      → m.timestamp ≢ 0
      → m.timestamp ≤ now
      → m.last_seen ≡ now
      → IsDead codec later key bytes
      → max_label_age < later - now
  dead_iff_old now later key bytes m fields good there set past seen (unparsed x bad) = absurd (cc)
  dead_iff_old now later key bytes m fields good there set past seen (undecoded nothing) =
      absurd (cc)
  dead_iff_old now later key bytes m fields good there set past seen (unset m' there' h) =
      let same : m' ≡ m = cc in
      absurd (set (ap (λ (x : LabelMetadata). x.timestamp) (sym same) ∙ h))
  dead_iff_old now later key bytes m fields good there set past seen (unseen m' there' h) =
      let same : m'.last_seen ≡ m.last_seen = cc in absurd (omega arith)
  dead_iff_old now later key bytes m fields good there set past seen (disordered m' there' h) =
      let same : m'.last_seen ≡ m.last_seen = cc in
      let same' : m'.timestamp ≡ m.timestamp = cc in absurd (omega arith)
  dead_iff_old now later key bytes m fields good there set past seen (expired m' there' h) =
      let same : m'.last_seen ≡ m.last_seen = cc in omega arith

  -- On a store that does not fail, a label of another peer that is announced at `now`, and not again,
  -- is still there after a cleanup up to 72 hours later, and is gone after one that comes later, if what
  -- was stored for it before, if anything, had its time set and not in the future, its key parses and is
  -- as NewKey writes it, like the others, and the metadata encodes and reads back.
  pub announced_label_lifetime :
      (now later : Time) (key : GoString) (bytes : Bytes) (fields : GoString × GoString × GoString)
      (s s' : d.State)
      → local_peer_id ≢ []
      → now ≢ 0
      → IsRemoteLabel local_peer_id key
      → parse_enhanced_label_key key ≡ ok fields
      → d.new_key key ≡ key
      → IsRoundTrip codec
      → HasTimes now (before key s)
      → codec.encode (updated d codec local_peer_id now (before key s)) ≡ some bytes
      → KeepsKeys d rel s'
      → rel.contents s' key
        ≡ rel.contents (handle_label_notification d codec local_peer_id now key s) key
      → rel.contents (cleanup_stale_remote_labels d codec local_peer_id later s').1 key
        ≡ (if ltb max_label_age (later - now) then none else some bytes)
  announced_label_lifetime now later key bytes fields s s' named set remote good clean back times
        encodes keeps untouched =
      let m = updated d codec local_peer_id now (before key s) in
      let (set', past, seen) = updated_times now (before key s) set times in
      let there = back.back m bytes encodes in
      let held = untouched ∙ stored now key bytes s clean encodes in
      let (s'', done, all) = cleanup_stale_effect d codec local_peer_id rel later s' named keeps in
      let kept : rel.contents (cleanup_stale_remote_labels d codec local_peer_id later s').1 key
          ≡ rel.contents s'' key =
        rw done refl in
      kept
      ∙ elim (Swept-at (λ v. IsRemoteLabel local_peer_id key × IsDead codec later key v)
          (rel.contents s' key) (rel.contents s'' key) bytes held (all key)) [
            | inl (gone, (_, dead)) ↦
                let old =
                  dead_iff_old now later key bytes m fields good there set' past seen dead in
                ground (arith, gone, old)
            | inr (stays, alive) ↦ elim (Bool-cases (ltb max_label_age (later - now))) [
              | inl old ↦
                  let older : max_label_age < later - now = ground arith in
                  absurd (
                    alive (
                      remote,
                      expired m there (subst (λ t. max_label_age < later - t) (sym seen) older),
                    ))
              | inr young ↦ rw young stays
            ]
          ]
