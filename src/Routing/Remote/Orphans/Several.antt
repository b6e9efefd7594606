-- ===== src/Routing/Remote/Orphans/Several.antt =====
-- The cleanup of several orphans (cleanupOrphanedLocalLabels of server/routing/routing_remote.go).
use agntcy_dir.Base.{
  ◌≡◌, ◌⊎◌, refl, sym, ◌∙◌, subst, none, some, Option-cases, List, [], ◌∷◌, inl, inr, length, In,
}
use agntcy_dir.Base.Text.{GoString}
use agntcy_dir.Labels.Metadata.{LabelMetadata}
use agntcy_dir.Routing.Datastore.{Datastore, Bytes, Contents, IsReliable}
use agntcy_dir.Routing.Local.{Codec, record_key}
use agntcy_dir.Routing.Remote.{cleanup_orphaned_local_labels}
use agntcy_dir.Routing.Remote.Deletion.{Swept-at, Swept-free, KeepsKeys}
use agntcy_dir.Routing.Remote.Orphans.{IsOrphan, cleanup_labels_effect}

-- What is there after deletions was there before.
held_before :
    (c c' : Contents) (P : GoString → Type 0)
    → ((j : GoString) (v : Bytes)
        → c j ≡ some v
        → ((c' j ≡ none) × P j) ⊎ ((c' j ≡ some v) × (P j → ⊥)))
    → ((j : GoString) → c j ≡ none → c' j ≡ none)
    → (k : GoString) (v : Bytes) → c' k ≡ some v
    → c k ≡ some v
held_before c c' P each free k v held = elim (Option-cases (c k)) [
  | inl nothing ↦ let gone = free k nothing in cc
  | inr (w, there) ↦ elim (each k w there) [
    | inl (gone, _) ↦ cc
    | inr (stays, _) ↦ there ∙ (sym stays ∙ held)
  ]
]

module _ (d : Datastore) (codec : Codec LabelMetadata) (local_peer_id : GoString)
    (rel : IsReliable d) where
  -- A key of one of these records, or a label key that does not parse if there is one.
  abbrev pub IsLeftOver : List GoString → GoString → Type 0
  IsLeftOver cids j =
      (cid : GoString) × In cid cids × ((record_key d cid ≡ j) ⊎ IsOrphan cid local_peer_id j)

  -- On a store that does not fail, whose keys are as NewKey writes them, the cleanup of a list of orphans
  -- deletes exactly their record keys, the keys of their labels at this peer and, if there are any
  -- orphans, the label keys that do not parse, and counts every orphan as cleaned.
  pub cleanup_orphaned_effect :
      (cids : List GoString) (s : d.State)
      → KeepsKeys d rel s
      → (s' : d.State) × (cleanup_orphaned_local_labels d codec local_peer_id cids s
          ≡ (length cids, s'))
        × ((j : GoString) (v : Bytes)
            → rel.contents s j ≡ some v
            → ((rel.contents s' j ≡ none) × IsLeftOver cids j)
              ⊎ ((rel.contents s' j ≡ some v) × (IsLeftOver cids j → ⊥)))
        × ((j : GoString) → rel.contents s j ≡ none → rel.contents s' j ≡ none)
  unfolding cleanup_orphaned_local_labels
  cleanup_orphaned_effect [] s keeps =
      (s, refl, (λ j v held. inr (held, λ (cid, there, _). absurd there)), (λ j free. free))
  cleanup_orphaned_effect (cid ∷ cids) s keeps =
      let (s₁, one, all) = cleanup_labels_effect d codec local_peer_id rel cid s keeps in
      let Left : GoString → Type 0 = λ j. (record_key d cid ≡ j) ⊎ IsOrphan cid local_peer_id j in
      let each = λ (j : GoString) (v : Bytes) (held : rel.contents s j ≡ some v).
        Swept-at (λ _. Left j) (rel.contents s j) (rel.contents s₁ j) v held (all j) in
      let free = λ (j : GoString) (none_there : rel.contents s j ≡ none).
        Swept-free (λ _. Left j) (rel.contents s j) (rel.contents s₁ j) none_there (all j) in
      let keeps₁ : KeepsKeys d rel s₁ = λ k v held. keeps k v (
        held_before (rel.contents s) (rel.contents s₁)
          (λ j. (record_key d cid ≡ j) ⊎ IsOrphan cid local_peer_id j) each free k v held) in
      let (s₂, more, rest, free') = cleanup_orphaned_effect cids s₁ keeps₁ in
      (
        s₂,
        rw (one, more) refl,
        (λ j v held. elim (each j v held) [
          | inl (gone, h) ↦ inl (free' j gone, (cid, inl refl, h))
          | inr (stays, kept) ↦ elim (rest j v stays) [
            | inl (gone, (c, there, h)) ↦ inl (gone, (c, inr there, h))
            | inr (left, none_of) ↦ inr (
              left,
              λ (c, there, h). elim there [
                | inl same ↦
                    kept (subst (λ x. (record_key d x ≡ j) ⊎ IsOrphan x local_peer_id j) same h)
                | inr later ↦ none_of (c, later, h)
              ],
            )
          ]
        ]),
        (λ j none_there. free' j (free j none_there)),
      )
