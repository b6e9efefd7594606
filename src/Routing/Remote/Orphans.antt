-- ===== src/Routing/Remote/Orphans.antt =====
-- What the cleanup of a record that is no longer stored deletes.
pub mod Several
use agntcy_dir.Base.{
  ℕ, suc, ltb, ◌≡◌, ◌↔◌, ◌⊎◌, refl, ap, subst, Bool, true, Bool-cases, some, List, ◌∷◌, inl, inr,
  arith, In,
}
use agntcy_dir.Base.Text.{GoString, ◌==◌, eq_iff, has_prefix}
use agntcy_dir.Base.Result.{ok, err, Result-cases}
use agntcy_dir.Labels.Namespace.{prefix, NamespaceType, all_namespaces}
use agntcy_dir.Labels.Key.{KeyError, parse_enhanced_label_key}
use agntcy_dir.Labels.Metadata.{LabelMetadata}
use agntcy_dir.Routing.Datastore.{Datastore, Bytes, Entry, IsReliable}
use agntcy_dir.Routing.Local.{Codec, record_key}
use agntcy_dir.Routing.Remote.{
  over_namespaces, marked_keys, answered, is_orphan_label, orphan_keys, label_entries, delete_keys,
  keys_deleted, keys_of_orphan, cleanup_labels_for_cid,
}
use agntcy_dir.Routing.Remote.Deletion.{
  entry, holds_key, contents_after_delete, KeepsKeys, entries-entry, over_namespaces_iff,
  marked_keys_iff, held_entry, Swept, swept,
}

-- A label key of the record at this peer, or one that does not parse.
pub record IsOrphan (cid local_peer_id key : GoString) : Type 0 where
  pub ns : GoString
  pub known : In ns all_namespaces
  pub starts : has_prefix key (prefix ns) ≡ true
  pub label :
      ((x : KeyError) × (parse_enhanced_label_key key ≡ err x))
      ⊎ ((label : GoString) × (parse_enhanced_label_key key ≡ ok (label, cid, local_peer_id)))

positive : (n : ℕ) → ltb 0 (suc n) ≡ true
positive n = ground arith

module _ (d : Datastore) (codec : Codec LabelMetadata) (local_peer_id : GoString) where
  is_orphan_label_iff :
      (cid : GoString) (e : Entry)
      → (is_orphan_label d codec local_peer_id cid e ≡ true) ↔ (
          ((x : KeyError) × (parse_enhanced_label_key e.key ≡ err x))
          ⊎ ((label : GoString) × (parse_enhanced_label_key e.key
                ≡ ok (label, cid, local_peer_id))))
  unfolding is_orphan_label
  is_orphan_label_iff cid e = elim (Result-cases (parse_enhanced_label_key e.key)) [
    | inr (x, bad) ↦ rw (bad, is_orphan_label) ((λ h. inl (x, refl)), (λ h. refl))
    | inl ((label, c, p), good) ↦
        rw (good, is_orphan_label)
          (
            (λ h.
                let one : c ≡ cid = ground (arith, eq_iff c cid) in
                let two : p ≡ local_peer_id = ground (arith, eq_iff p local_peer_id) in
                inr (label, cc)),
            (λ h. elim h [
              | inl (x, bad) ↦ cc
              | inr (l, same) ↦
                  let one : c ≡ cid = cc in
                  let two : p ≡ local_peer_id = cc in
                  ground (arith, eq_iff c cid, eq_iff p local_peer_id)
            ]),
          )
  ]

  module _ (rel : IsReliable d) (cid : GoString) (s : d.State) where
    keys_of_orphan_iff :
        (j : GoString) (v : Bytes)
        → KeepsKeys d rel s
        → rel.contents s j ≡ some v
        → (holds_key j (keys_of_orphan d codec local_peer_id cid s) ≡ true)
          ↔ ((record_key d cid ≡ j) ⊎ IsOrphan cid local_peer_id j)
    unfolding keys_of_orphan orphan_keys label_entries is_orphan_label
    keys_of_orphan_iff j v keeps held = (into, out)
      where
        test : Entry → Bool
        test e = is_orphan_label d codec local_peer_id cid e

        results : NamespaceType → List Entry
        results ns = answered d codec local_peer_id (d.query (prefix ns) s)

        found : GoString → List GoString → Type 0
        found k keys = holds_key k keys ≡ true

        into :
            holds_key j
                (record_key d cid ∷ marked_keys d test (over_namespaces results all_namespaces))
              ≡ true
            → (record_key d cid ≡ j) ⊎ IsOrphan cid local_peer_id j
        into h = elim (Bool-cases (record_key d cid == j)) [
          | inl same ↦ inl ((eq_iff (record_key d cid) j).0 same)
          | inr other ↦
              let (e, there, marked, same) =
                (marked_keys_iff d test j (over_namespaces results all_namespaces)).0
                  (ground (arith, other, h)) in
              let (ns, known, listed) = (over_namespaces_iff results e all_namespaces).0 there in
              let (there', starts, _) = entries-entry d rel s (prefix ns) e (
                subst (λ q. In e (answered d codec local_peer_id q)) (rel.query_lem (prefix ns) s)
                  listed) in
              let (key, value) = held_entry d rel s e j v keeps there' same held in
              inr (record {
                ns = ns;
                known = known;
                starts = subst (λ k. has_prefix k (prefix ns) ≡ true) key starts;
                label =
                    subst
                      (λ k.
                        ((x : KeyError) × (parse_enhanced_label_key k ≡ err x))
                        ⊎ ((label : GoString) × (parse_enhanced_label_key k
                              ≡ ok (label, cid, local_peer_id))))
                      key ((is_orphan_label_iff cid e).0 marked);
              })
        ]

        out :
            (record_key d cid ≡ j) ⊎ IsOrphan cid local_peer_id j
            → holds_key j
                (record_key d cid ∷ marked_keys d test (over_namespaces results all_namespaces))
              ≡ true
        out (inl same) = ground (arith, (eq_iff (record_key d cid) j).1 same)
        out (inr orphan) =
            let listed : In (entry j v) (results orphan.ns) =
              rw (rel.query_lem (prefix orphan.ns) s)
                (rel.entries_complete (prefix orphan.ns) s j v held orphan.starts) in
            let hit = (marked_keys_iff d test j (over_namespaces results all_namespaces)).1 (
              entry j v,
              (over_namespaces_iff results (entry j v) all_namespaces).1
                  (orphan.ns, orphan.known, listed),
              (is_orphan_label_iff cid (entry j v)).1 orphan.label,
              keeps j v held,
            ) in
            ground (arith, hit)

    -- On a store that does not fail, whose keys are as NewKey writes them, the cleanup for a CID
    -- succeeds and deletes exactly the record's key, the keys of its labels at this peer, and every
    -- label key that does not parse, of whatever record; everything else stays as it is, the metrics
    -- included: the labels that are gone are still counted.
    pub cleanup_labels_effect :
        KeepsKeys d rel s
        → (s' : d.State) × (cleanup_labels_for_cid d codec local_peer_id cid s ≡ (true, s'))
          × ((j : GoString)
              → Swept
                  (λ v. (record_key d cid ≡ j) ⊎ IsOrphan cid local_peer_id j)
                  (rel.contents s j)
                  (rel.contents s' j))
    unfolding cleanup_labels_for_cid keys_deleted keys_of_orphan
    cleanup_labels_effect keeps =
        let keys = keys_of_orphan d codec local_peer_id cid s in
        let s' = (d.commit (delete_keys d codec local_peer_id keys (rel.fresh s)) s).1 in
        let after = contents_after_delete d codec local_peer_id rel keys s in
        (
          s',
          rw
              (
                rel.batch_lem s,
                cleanup_labels_for_cid,
                rel.commit_ok _ s,
                rel.batch_delete_lem (record_key d cid) (rel.fresh s),
              )
              (ap (λ (some_deleted : Bool). (some_deleted, s')) (positive _)),
          (λ j.
              swept (λ v. (record_key d cid ≡ j) ⊎ IsOrphan cid local_peer_id j) (holds_key j keys)
                (rel.contents s j) (rel.contents s' j) (after j)
                (λ v held. keys_of_orphan_iff j v keeps held)),
        )
