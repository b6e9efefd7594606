-- ===== src/Routing/Remote/Stale.antt =====
-- What the cleanup of stale remote labels deletes.
use agntcy_dir.Base.{
  ◌-◌, ◌<◌, ◌≡◌, ◌≢◌, ◌↔◌, ◌⊎◌, refl, ap, sym, subst, ◌∙◌, Bool, true, false, ◌&&◌, not, none, some,
  Option-cases, List, [], ◌∷◌, inl, inr, arith, if◌then◌else◌, In,
}
use agntcy_dir.Base.Text.{GoString, eq_iff, has_prefix}
use agntcy_dir.Base.Result.{ok, err, Result-cases}
use agntcy_dir.Labels.Namespace.{prefix, NamespaceType, all_namespaces}
use agntcy_dir.Labels.Key.{KeyError, parse_enhanced_label_key, extract_peer_id_from_key}
use agntcy_dir.Labels.Metadata.{LabelMetadata, Time, validate, is_stale, max_label_age}
use agntcy_dir.Routing.Datastore.{Datastore, Bytes, Entry, IsReliable}
use agntcy_dir.Routing.Local.{Codec}
use agntcy_dir.Routing.Remote.{
  remote_filter, is_dead, is_dead_metadata, stale_keys, remote_labels, over_namespaces, queried,
  delete_stale, delete_keys, cleanup_stale_remote_labels,
}
use agntcy_dir.Routing.Remote.Deletion.{
  entry, holds_key, contents_after_delete, KeepsKeys, entries-entry, filtered_iff,
  over_namespaces_iff, marked_keys_iff, held_entry, Swept, swept,
}

-- A label key of another peer, or one that does not name its peer.
pub record IsRemoteLabel (local_peer_id key : GoString) : Type 0 where
  pub ns : GoString
  pub known : In ns all_namespaces
  pub starts : has_prefix key (prefix ns) ≡ true
  pub elsewhere : extract_peer_id_from_key key ≢ local_peer_id

-- A label that says nothing, or that was not seen for longer than MaxLabelAge.
pub data IsDead (codec : Codec LabelMetadata) (now : Time) (key : GoString) (value : Bytes)
    : Type 0 where
  unparsed : (x : KeyError) → parse_enhanced_label_key key ≡ err x → IsDead codec now key value
  undecoded : codec.decode value ≡ none → IsDead codec now key value
  unset :
      (m : LabelMetadata)
      → codec.decode value ≡ some m
      → m.timestamp ≡ 0
      → IsDead codec now key value
  unseen :
      (m : LabelMetadata)
      → codec.decode value ≡ some m
      → m.last_seen ≡ 0
      → IsDead codec now key value
  disordered :
      (m : LabelMetadata)
      → codec.decode value ≡ some m
      → m.last_seen < m.timestamp
      → IsDead codec now key value
  expired :
      (m : LabelMetadata)
      → codec.decode value ≡ some m
      → max_label_age < now - m.last_seen
      → IsDead codec now key value

module _ (d : Datastore) (codec : Codec LabelMetadata) (local_peer_id : GoString) where
  dead_metadata :
      (now : Time) (m : LabelMetadata)
      → is_dead_metadata d codec local_peer_id now (some m) ≡ true
      → (m.timestamp ≡ 0)
        ⊎ (m.last_seen ≡ 0)
        ⊎ (m.last_seen < m.timestamp)
        ⊎ (max_label_age < now - m.last_seen)
  unfolding validate is_stale
  dead_metadata now m h = ground arith

  live_metadata :
      (now : Time) (m : LabelMetadata)
      → (m.timestamp ≡ 0)
        ⊎ (m.last_seen ≡ 0)
        ⊎ (m.last_seen < m.timestamp)
        ⊎ (max_label_age < now - m.last_seen)
      → is_dead_metadata d codec local_peer_id now (some m) ≡ true
  unfolding validate is_stale
  live_metadata now m h = ground arith

  is_dead-IsDead :
      (now : Time) (key : GoString) (value : Bytes)
      → (is_dead d codec local_peer_id now (entry key value) ≡ true) ↔ IsDead codec now key value
  unfolding is_dead
  is_dead-IsDead now key value = elim (Result-cases (parse_enhanced_label_key key)) [
    | inr (x, bad) ↦ rw (bad, is_dead) ((λ h. unparsed x bad), (λ h. refl))
    | inl (fields, good) ↦
        rw (good, is_dead)
          (elim (Option-cases (codec.decode value)) [
            | inl nothing ↦ rw nothing ((λ h. undecoded nothing), (λ h. refl))
            | inr (m, found) ↦ rw found (
              (λ h. why m found (dead_metadata now m h)),
              (λ h. live_metadata now m (because fields good m found h)),
            )
          ])
  ]
    where
      why :
          (m : LabelMetadata)
          → codec.decode value ≡ some m
          → (m.timestamp ≡ 0)
            ⊎ (m.last_seen ≡ 0)
            ⊎ (m.last_seen < m.timestamp)
            ⊎ (max_label_age < now - m.last_seen)
          → IsDead codec now key value
      why m found (inl h) = unset m found h
      why m found (inr (inl h)) = unseen m found h
      why m found (inr (inr (inl h))) = disordered m found h
      why m found (inr (inr (inr h))) = expired m found h

      because :
          (fields : GoString × GoString × GoString)
          → parse_enhanced_label_key key ≡ ok fields
          → (m : LabelMetadata) → codec.decode value ≡ some m
          → IsDead codec now key value
          → (m.timestamp ≡ 0)
            ⊎ (m.last_seen ≡ 0)
            ⊎ (m.last_seen < m.timestamp)
            ⊎ (max_label_age < now - m.last_seen)
      because fields good m found (unparsed x bad) = cc
      because fields good m found (undecoded nothing) = cc
      because fields good m found (unset m' found' h) =
          let same : m' ≡ m = cc in inl (ap (λ (x : LabelMetadata). x.timestamp) (sym same) ∙ h)
      because fields good m found (unseen m' found' h) =
          let same : m' ≡ m = cc in
          inr (inl (ap (λ (x : LabelMetadata). x.last_seen) (sym same) ∙ h))
      because fields good m found (disordered m' found' h) =
          let same : m' ≡ m = cc in inr (inr (inl (subst (λ x. x.last_seen < x.timestamp) same h)))
      because fields good m found (expired m' found' h) =
          let same : m' ≡ m = cc in
          inr (inr (inr (subst (λ x. max_label_age < now - x.last_seen) same h)))

  remote_filter_iff :
      (e : Entry)
      → local_peer_id ≢ []
      → (remote_filter local_peer_id e ≡ true) ↔ (extract_peer_id_from_key e.key ≢ local_peer_id)
  unfolding remote_filter
  remote_filter_iff e named = ground (
    arith,
    eq_iff (extract_peer_id_from_key e.key) [],
    eq_iff (extract_peer_id_from_key e.key) local_peer_id,
  )

  module _ (rel : IsReliable d) (now : Time) (s : d.State) where
    -- The keys that the cleanup deletes.
    doomed : List GoString
    doomed = stale_keys d codec local_peer_id now (remote_labels d codec local_peer_id s)

    doomed_iff :
        (j : GoString) (v : Bytes)
        → local_peer_id ≢ []
        → KeepsKeys d rel s
        → rel.contents s j ≡ some v
        → (holds_key j doomed ≡ true) ↔ (IsRemoteLabel local_peer_id j × IsDead codec now j v)
    unfolding doomed stale_keys remote_labels is_dead
    doomed_iff j v named keeps held = (into, out)
      where
        test : Entry → Bool
        test e = not e.failed && is_dead d codec local_peer_id now e

        results : NamespaceType → List Entry
        results ns =
            queried d codec local_peer_id (remote_filter local_peer_id) (d.query (prefix ns) s)

        into : holds_key j doomed ≡ true → IsRemoteLabel local_peer_id j × IsDead codec now j v
        into h =
            let (e, there, marked, same) =
              (marked_keys_iff d test j (over_namespaces results all_namespaces)).0 h in
            let sound : e.failed ≡ false = ground arith in
            let dying : is_dead d codec local_peer_id now e ≡ true = ground arith in
            let (ns, known, listed) = (over_namespaces_iff results e all_namespaces).0 there in
            let (found, passed) =
              (filtered_iff (remote_filter local_peer_id) e (rel.entries (prefix ns) s) sound).0 (
                subst (λ q. In e (queried d codec local_peer_id (remote_filter local_peer_id) q))
                  (rel.query_lem (prefix ns) s) listed) in
            let (there', starts, _) = entries-entry d rel s (prefix ns) e found in
            let (key, value) = held_entry d rel s e j v keeps there' same held in
            (
              record {
                ns = ns;
                known = known;
                starts = subst (λ k. has_prefix k (prefix ns) ≡ true) key starts;
                elsewhere =
                    subst (λ k. extract_peer_id_from_key k ≢ local_peer_id) key
                      ((remote_filter_iff e named).0 passed);
              },
              subst (λ w. IsDead codec now j w) value
                  (subst (λ k. IsDead codec now k e.value) key
                    ((is_dead-IsDead now e.key e.value).0 dying)),
            )

        out : IsRemoteLabel local_peer_id j × IsDead codec now j v → holds_key j doomed ≡ true
        out (remote, dead) =
            let found = rel.entries_complete (prefix remote.ns) s j v held remote.starts in
            let passed = (remote_filter_iff (entry j v) named).1 remote.elsewhere in
            let kept =
              (filtered_iff (remote_filter local_peer_id) (entry j v)
                  (rel.entries (prefix remote.ns) s) refl).1
                (found, passed) in
            let listed : In (entry j v) (results remote.ns) =
              rw (rel.query_lem (prefix remote.ns) s) kept in
            (marked_keys_iff d test j (over_namespaces results all_namespaces)).1 (
              entry j v,
              (over_namespaces_iff results (entry j v) all_namespaces).1
                  (remote.ns, remote.known, listed),
              (is_dead-IsDead now j v).1 dead,
              keeps j v held,
            )

    delete_stale_lem :
        (keys : List GoString)
        → (s' : d.State) × (delete_stale d codec local_peer_id keys s ≡ (ok tt, s'))
          × ((j : GoString)
              → rel.contents s' j ≡ (if holds_key j keys then none else rel.contents s j))
    unfolding delete_stale
    delete_stale_lem [] = (s, refl, λ j. refl)
    delete_stale_lem (key ∷ keys) =
        let b = delete_keys d codec local_peer_id (key ∷ keys) (rel.fresh s) in
        (
          (d.commit b s).1,
          rw (rel.batch_lem s, delete_stale, rel.commit_ok b s) refl,
          contents_after_delete d codec local_peer_id rel (key ∷ keys) s,
        )

    -- On a store that does not fail, whose keys are as NewKey writes them, and for a peer with an ID,
    -- the cleanup deletes exactly the label keys of other peers, or naming none, that do not parse, or
    -- whose metadata does not decode, has an unset time or times out of order, or was last seen more
    -- than 72 hours ago; everything else stays as it is.
    pub cleanup_stale_effect :
        local_peer_id ≢ []
        → KeepsKeys d rel s
        → (s' : d.State) × (cleanup_stale_remote_labels d codec local_peer_id now s ≡ (ok tt, s'))
          × ((j : GoString)
              → Swept
                  (λ v. IsRemoteLabel local_peer_id j × IsDead codec now j v)
                  (rel.contents s j)
                  (rel.contents s' j))
    unfolding cleanup_stale_remote_labels doomed
    cleanup_stale_effect named keeps =
        let (s', done, after) = delete_stale_lem doomed in
        (
          s',
          done,
          (λ j.
              swept (λ v. IsRemoteLabel local_peer_id j × IsDead codec now j v) (holds_key j doomed)
                (rel.contents s j) (rel.contents s' j) (after j)
                (λ v held. doomed_iff j v named keeps held)),
        )
