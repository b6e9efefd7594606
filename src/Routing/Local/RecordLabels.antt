-- ===== src/Routing/Local/RecordLabels.antt =====
-- The labels that the datastore holds for a record, and the queries decided on them.
pub mod Published
use agntcy_dir.Base.{
  ℕ, ◌+◌, ◌≤◌, ◌≡◌, ◌≢◌, ◌⊎◌, ◌↔◌, refl, sym, ap, subst, ◌∙◌, Bool, true, false, ◌&&◌, ◌||◌, inl,
  inr, List, [], ◌∷◌, ◌++◌, arith, some, if◌then◌else◌, Bool-cases, length, length-append, any, all,
  All, All_at, All-imp, All-append, In, In-append_left, In-append_right, any-In, In-any,
  append_assoc,
}
use agntcy_dir.Base.Text.{
  GoString, ◌==◌, eq_iff, eq_refl, has_prefix, has_prefix-append, has_prefix_split,
}
use agntcy_dir.Base.Text.Split.{split, split_cons, split-append, Lacks}
use agntcy_dir.Base.Result.{Result, ok, err, Result-cases}
use agntcy_dir.Labels.Namespace.{
  slash, prefix, all_namespaces, namespace_skills, namespace_domains, namespace_features,
  namespace_locators,
}
use agntcy_dir.Labels.Key.{build_enhanced_label_key, parse_enhanced_label_key, KeyError}
use agntcy_dir.Labels.Key.RoundTrip.{parse-build, build-parse}
use agntcy_dir.Routing.Datastore.{Datastore, Bytes, Entry, IsReliable, Contents}
use agntcy_dir.Routing.Local.{
  labels_among, namespace_labels, record_labels, query_matches_labels, skill,
}

-- A label is in one of the four namespaces.
pub record HasNamespace (label : GoString) : Type 0 where
  pub ns : GoString
  pub known : In ns all_namespaces
  pub rest : GoString
  pub form : label ≡ prefix ns ++ rest

-- A skill query matches a record that has the skill or a skill below it.
pub query_matches_skill_iff :
    (value : GoString) (labels : List GoString)
    → (query_matches_labels skill value labels ≡ true) ↔ (
        (label : GoString) × In label labels
        × ((label ≡ prefix namespace_skills ++ value)
            ⊎ ((rest : GoString) × (label
                  ≡ (prefix namespace_skills ++ value ++ slash ∷ []) ++ rest))))
unfolding query_matches_labels
query_matches_skill_iff value labels =
    let target = prefix namespace_skills ++ value in
    let test : GoString → Bool =
      λ label. label == target || has_prefix label (target ++ slash ∷ []) in
    (
      λ h.
          let (label, there, found) = In-any test labels h in
          (label, there, matched target label found),
      λ found.
          let (label, there, form) = found in
          any-In test labels label there (elim form [
            | inl same ↦ ground (arith, eq_iff label target)
            | inr (rest, longer) ↦
                let below : has_prefix label (target ++ slash ∷ []) ≡ true =
                  rw longer (has_prefix-append (target ++ slash ∷ []) rest) in
                ground arith
          ]),
    )
  where
    matched :
        (target label : GoString)
        → (label == target || has_prefix label (target ++ slash ∷ [])) ≡ true
        → (label ≡ target) ⊎ ((rest : GoString) × (label ≡ (target ++ slash ∷ []) ++ rest))
    matched target label h = elim (Bool-cases (label == target)) [
      | inl same ↦ inl ((eq_iff label target).0 same)
      | inr other ↦ inr (has_prefix_split label (target ++ slash ∷ []) (ground arith))
    ]

module _ (local_peer_id cid : GoString) where
  among_hit :
      (label : GoString) (e : Entry) (entries : List Entry)
      → e.failed ≡ false
      → parse_enhanced_label_key e.key ≡ ok (label, cid, local_peer_id)
      → labels_among local_peer_id cid (e ∷ entries)
        ≡ label ∷ labels_among local_peer_id cid entries
  unfolding labels_among
  among_hit label e entries sound parsed =
      rw (sound, parsed) (ground (arith, eq_refl cid, eq_refl local_peer_id))

  -- An entry adds nothing, or the label of its key.
  among_cases :
      (e : Entry) (entries : List Entry)
      → (labels_among local_peer_id cid (e ∷ entries) ≡ labels_among local_peer_id cid entries)
        ⊎ ((label : GoString) × (parse_enhanced_label_key e.key ≡ ok (label, cid, local_peer_id))
            × (labels_among local_peer_id cid (e ∷ entries)
                ≡ label ∷ labels_among local_peer_id cid entries))
  among_cases e entries = elim (Bool-cases e.failed) [
    | inl broken ↦ inl (unfold labels_among in rw broken)
    | inr sound ↦ elim (Result-cases (parse_enhanced_label_key e.key)) [
      | inl ((label, c, p), parsed) ↦ elim (Bool-cases (c == cid && p == local_peer_id)) [
        | inl same ↦
            let parsed' : parse_enhanced_label_key e.key ≡ ok (label, cid, local_peer_id) =
              ground (arith, parsed, same, eq_iff c cid, eq_iff p local_peer_id) in
            inr (label, parsed', among_hit label e entries sound parsed')
        | inr other ↦ inl (unfold labels_among in rw (sound, parsed) (rw other))
      ]
      | inr (x, failed) ↦ inl (unfold labels_among in rw (sound, failed))
    ]
  ]

  abbrev IsHeld : Contents → GoString → Type 0
  IsHeld contents label =
      (v : Bytes) × (contents (build_enhanced_label_key label cid local_peer_id) ≡ some v)

  -- Each label that is found stands in a key of the list.
  labels_sound :
      (contents : Contents) (entries : List Entry)
      → All (λ e. contents e.key ≡ some e.value) entries
      → All (IsHeld contents) (labels_among local_peer_id cid entries)
  labels_sound contents [] h = unfold labels_among in tt
  labels_sound contents (e ∷ entries) (held, h) =
      let rest = labels_sound contents entries h in
      elim (among_cases e entries) [
        | inl nothing ↦ rw nothing rest
        | inr (label, parsed, more) ↦ rw more (
          (e.value, ap contents (build-parse e.key label cid local_peer_id parsed).0 ∙ held),
          rest,
        )
      ]

  labels_complete :
      (label : GoString) (e : Entry) (entries : List Entry)
      → In e entries
      → e.failed ≡ false
      → parse_enhanced_label_key e.key ≡ ok (label, cid, local_peer_id)
      → In label (labels_among local_peer_id cid entries)
  labels_complete label e [] h sound parsed = absurd h
  labels_complete label e (x ∷ entries) (inl same) sound parsed =
      rw (among_hit label x entries (rw (← same) sound) (rw (← same) parsed)) (inl refl)
  labels_complete label e (x ∷ entries) (inr later) sound parsed =
      let found = labels_complete label e entries later sound parsed in
      elim (among_cases x entries) [
        | inl nothing ↦ rw nothing found
        | inr (other, _, more) ↦ rw more (inr found)
      ]

module _ {local_peer_id cid : GoString} where
  pub parse-key :
      (label : GoString)
      → HasNamespace label
      → Lacks slash cid
      → Lacks slash local_peer_id
      → parse_enhanced_label_key (build_enhanced_label_key label cid local_peer_id)
        ≡ ok (label, cid, local_peer_id)
  unfolding prefix
  parse-key label h hc hp =
      let tail = (h.ns ++ slash ∷ []) ++ h.rest in
      let (w, ws, e) = split_cons slash h.ns in
      let (w', ws', e') = split_cons slash h.rest in
      let parts : split slash tail ≡ split slash h.ns ++ split slash h.rest =
        rw (append_assoc h.ns (slash ∷ []) h.rest) (split-append slash h.ns h.rest) in
      let long : 2 ≤ length (split slash tail) =
        rw (parts, e, e') (omega (arith, length-append ws (w' ∷ ws'))) in
      rw h.form (parse-build tail cid local_peer_id long hc hp)

module _ (d : Datastore) (rel : IsReliable d) (local_peer_id cid : GoString) (s : d.State) where
  namespace_labels_lem :
      (ns : GoString)
      → namespace_labels d local_peer_id cid s ns
        ≡ labels_among local_peer_id cid (rel.entries (prefix ns) s)
  namespace_labels_lem ns = rw (rel.query_lem (prefix ns) s, namespace_labels)

  namespace_sound :
      (ns : GoString)
      → All (IsHeld local_peer_id cid (rel.contents s)) (namespace_labels d local_peer_id cid s ns)
  namespace_sound ns = rw (namespace_labels_lem ns) (
      labels_sound local_peer_id cid (rel.contents s) (rel.entries (prefix ns) s)
        (All-imp (λ e h. h.0) _ (rel.entries_sound (prefix ns) s)))

  -- The labels that List finds for a record stand in label keys of the record at this peer.
  pub record_labels_sound :
      All
        (λ label.
          (v : Bytes) × (rel.contents s (build_enhanced_label_key label cid local_peer_id)
            ≡ some v))
        (record_labels d local_peer_id cid s)
  unfolding record_labels
  record_labels_sound = All-append _ _ _ (namespace_sound namespace_skills) (
      All-append _ _ _ (namespace_sound namespace_domains) (
        All-append _ _ _ (namespace_sound namespace_features) (namespace_sound namespace_locators)))

  namespace_complete :
      (ns rest : GoString) (v : Bytes)
      → HasNamespace (prefix ns ++ rest)
      → Lacks slash cid
      → Lacks slash local_peer_id
      → rel.contents s (build_enhanced_label_key (prefix ns ++ rest) cid local_peer_id) ≡ some v
      → In (prefix ns ++ rest) (namespace_labels d local_peer_id cid s ns)
  unfolding build_enhanced_label_key
  namespace_complete ns rest v h hc hp held =
      let key = build_enhanced_label_key (prefix ns ++ rest) cid local_peer_id in
      let starts : has_prefix key (prefix ns) ≡ true =
        rw (append_assoc (prefix ns) rest (slash ∷ (cid ++ (slash ∷ local_peer_id))))
          (has_prefix-append (prefix ns) _) in
      rw (namespace_labels_lem ns) (
        labels_complete local_peer_id cid (prefix ns ++ rest)
          (record { key = key; value = v; failed = false }) (rel.entries (prefix ns) s)
          (rel.entries_complete (prefix ns) s key v held starts) refl
          (parse-key (prefix ns ++ rest) h hc hp))

  -- Every label in a namespace whose key the store holds is found.
  pub record_labels_complete :
      (label : GoString) (v : Bytes)
      → HasNamespace label
      → Lacks slash cid
      → Lacks slash local_peer_id
      → rel.contents s (build_enhanced_label_key label cid local_peer_id) ≡ some v
      → In label (record_labels d local_peer_id cid s)
  unfolding record_labels all_namespaces
  record_labels_complete label v h hc hp held =
      let in_its : In label (namespace_labels d local_peer_id cid s h.ns) = rw h.form (
        namespace_complete h.ns h.rest v (rw h.form at h) hc hp (
          ap (λ l. rel.contents s (build_enhanced_label_key l cid local_peer_id)) (sym h.form)
          ∙ held)) in
      let found : GoString → List GoString = namespace_labels d local_peer_id cid s in
      let at : (ns : GoString) → h.ns ≡ ns → In label (found ns) =
        λ ns e. subst (λ n. In label (found n)) e in_its in
      elim h.known [
        | inl e ↦ In-append_left label _ _ (at namespace_skills e)
        | inr (inl e) ↦
            In-append_right label (found namespace_skills) _
              (In-append_left label _ _ (at namespace_domains e))
        | inr (inr (inl e)) ↦ In-append_right label (found namespace_skills) _ (
            In-append_right label (found namespace_domains) _
              (In-append_left label _ _ (at namespace_features e)))
        | inr (inr (inr (inl e))) ↦ In-append_right label (found namespace_skills) _ (
            In-append_right label (found namespace_domains) _
              (In-append_right label (found namespace_features) _ (at namespace_locators e)))
        | inr (inr (inr (inr none_left))) ↦ absurd none_left
      ]

  -- On a store that does not fail, a label in a namespace is among the labels that List finds for a
  -- record exactly when the store holds its key for the record at this peer, if the CID and the peer's
  -- ID have no slash.
  pub record_labels_iff :
      (label : GoString)
      → HasNamespace label
      → Lacks slash cid
      → Lacks slash local_peer_id
      → In label (record_labels d local_peer_id cid s) ↔ (
          (v : Bytes) × (rel.contents s (build_enhanced_label_key label cid local_peer_id)
            ≡ some v))
  record_labels_iff label h hc hp = (
    All_at
        (λ l.
          (v : Bytes) × (rel.contents s (build_enhanced_label_key l cid local_peer_id) ≡ some v))
        label (record_labels d local_peer_id cid s) record_labels_sound,
    (λ (v, held). record_labels_complete label v h hc hp held),
  )
