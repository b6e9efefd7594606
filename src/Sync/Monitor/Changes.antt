-- ===== src/Sync/Monitor/Changes.antt =====
-- What a check of the registry finds and indexes.
use agntcy_dir.Base.{
  ℕ, ◌≡◌, ◌≢◌, ◌↔◌, refl, sym, ap, subst, ◌∙◌, true, Bool-cases, inl, inr, List, [], ◌∷◌, ◌++◌,
  arith, length, length-append, take, take-append, any, any-In, In-any, In, All, ltb,
}
use agntcy_dir.Base.Text.{GoString, ◌==◌, eq_iff}
use agntcy_dir.Base.Text.Split.{split, split-append, split_of_Lacks, Lacks}
use agntcy_dir.Sync.Monitor.{
  RegistrySnapshot, hashed_text, create_content_hash, added_tags, detect_changes,
}

bar : ℕ
bar = b'|'

-- A tag that can be told from its neighbours, as every CID can.
abbrev pub IsTag : GoString → Type 0
IsTag = Lacks b'|'

split-hashed_text :
    (tags : List GoString) → All IsTag tags → split b'|' (hashed_text tags) ≡ tags ++ ([] ∷ [])
unfolding hashed_text split
split-hashed_text [] h = refl
split-hashed_text (tag ∷ tags) (t, h) =
    split-append b'|' tag (hashed_text tags)
    ∙ (ap (λ parts. parts ++ split b'|' (hashed_text tags)) (split_of_Lacks b'|' tag t)
        ∙ ap (λ parts. tag ∷ parts) (split-hashed_text tags h))

hashed_text-injective :
    (tags other : List GoString)
    → All IsTag tags
    → All IsTag other
    → hashed_text tags ≡ hashed_text other
    → tags ≡ other
hashed_text-injective tags other h k same =
    let joined : tags ++ ([] ∷ []) ≡ other ++ ([] ∷ []) =
      sym (split-hashed_text tags h) ∙ (ap (split b'|') same ∙ split-hashed_text other k) in
    let long : length tags ≡ length other = omega (
      arith,
      ap (λ (l : List GoString). length l) joined,
      length-append tags ([] ∷ []),
      length-append other ([] ∷ []),
    ) in
    sym (take-append tags ([] ∷ []))
    ∙ (ap (take (length tags)) joined
        ∙ (ap (λ n. take n (other ++ ([] ∷ []))) long ∙ take-append other ([] ∷ [])))

added_tags_iff :
    (old new : List GoString) (tag : GoString)
    → In tag (added_tags old new) ↔ (In tag new × (In tag old → ⊥))
unfolding added_tags
added_tags_iff old [] tag = ((λ h. absurd h), (λ h. absurd h.0))
added_tags_iff old (t ∷ new) tag =
    let (into, out) = added_tags_iff old new tag in
    elim (Bool-cases (any (λ x. x == t) old)) [
      | inl known ↦ rw known (
        (λ h. (inr (into h).0, (into h).1)),
        (λ (there, fresh). elim there [
          | inl same ↦
              let (x, held, eq) = In-any (λ x. x == t) old known in
              absurd (fresh (subst (λ y. In y old) ((eq_iff x t).0 eq ∙ sym same) held))
          | inr later ↦ out (later, fresh)
        ]),
      )
      | inr unknown ↦ rw unknown (
        (λ h. elim h [
          | inl same ↦ (
            inl same,
            λ held. let hit = any-In (λ x. x == t) old tag held ((eq_iff tag t).1 same) in cc,
          )
          | inr later ↦ (inr (into later).0, (into later).1)
        ]),
        (λ (there, fresh). elim there [
          | inl same ↦ inl same
          | inr later ↦ inr (out (later, fresh))
        ]),
      )
    ]

module _ (sha256 : GoString → GoString) where
  abbrev pub snapshot_of : List GoString → RegistrySnapshot
  snapshot_of tags = record {
    tags = tags;
    content_hash = create_content_hash sha256 (λ t. true) tags;
  }

  -- Between snapshots of tags, the new tags of a check are exactly the tags that are in the later
  -- snapshot and not in the earlier, and there are changes exactly when there is one: the comparison of
  -- hashes loses nothing, if the texts of the two do not collide under SHA-256 and no tag has a bar.
  pub detect_changes_exact :
      (old new : List GoString)
      → (sha256 (hashed_text old) ≡ sha256 (hashed_text new) → hashed_text old ≡ hashed_text new)
      → All IsTag old
      → All IsTag new
      → let changes = detect_changes (snapshot_of old) (snapshot_of new) in
        ((tag : GoString) → In tag changes.new_tags ↔ (In tag new × (In tag old → ⊥)))
        × ((changes.has_changes ≡ true) ↔ (changes.new_tags ≢ []))
  unfolding detect_changes create_content_hash
  detect_changes_exact old new collision_free h k =
      elim (Bool-cases (sha256 (hashed_text old) == sha256 (hashed_text new))) [
        | inl same ↦
            let equal = hashed_text-injective old new h k (collision_free ((eq_iff _ _).0 same)) in
            rw same (
              (λ tag. (
                (λ h'. absurd h'),
                (λ (there, fresh). absurd (fresh (subst (In tag) (sym equal) there))),
              )),
              ((λ e. cc), (λ ne. absurd (ne refl))),
            )
        | inr other ↦ rw other (added_tags_iff old new, some_added (added_tags old new))
      ]
    where
      some_added : (l : List GoString) → (ltb 0 (length l) ≡ true) ↔ (l ≢ [])
      some_added [] = ((λ e. absurd (ground arith)), (λ ne. absurd (ne refl)))
      some_added (x ∷ l) = ((λ e same. cc), (λ ne. ground arith))
