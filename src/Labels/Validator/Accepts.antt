-- ===== src/Labels/Validator/Accepts.antt =====
-- The four validators, and the keys that the routing code builds.
use agntcy_dir.Base.{
  suc, ◌-◌, ◌≤◌, ◌≡◌, ◌↔◌, inr, refl, ap, ◌∙◌, ◌≢◌, Bool, true, false, List, [], ◌∷◌, ◌++◌, arith,
  length, All, ltb, append_assoc, sym, subst,
}
use agntcy_dir.Base.Text.{GoString}
use agntcy_dir.Base.Text.Split.{split, Lacks, split-append, split_of_Lacks, split_cons}
use agntcy_dir.Base.Result.{ok}
use agntcy_dir.Labels.Namespace.{
  slash, prefix, min_label_key_parts, namespace_skills, namespace_domains, namespace_features,
  namespace_locators,
}
use agntcy_dir.Labels.Key.{build_enhanced_label_key}
use agntcy_dir.Labels.Key.RoundTrip.{split-build, split-slash}
use agntcy_dir.Labels.Validator.{
  path_parts, is_empty, validate_skills_specific, validate_locators_specific,
  validate_domains_specific, validate_features_specific, validate_skill, validate_domain,
  validate_feature, validate_locator,
}
use agntcy_dir.Labels.Validator.Shape.{
  IsLabelKey, IsLabelRecord, NonEmpty, Any, scheme_sound, scheme_complete, check_components_sound,
  check_components_complete, path_parts_lem,
}

path_parts_ne : (parts : List GoString) → 5 ≤ length parts → is_empty (path_parts parts) ≡ false
path_parts_ne [] h = absurd (omega arith)
path_parts_ne (a ∷ []) h = absurd (omega arith)
path_parts_ne (a ∷ b ∷ []) h = absurd (omega arith)
path_parts_ne (a ∷ b ∷ c ∷ rest) h =
    let e : length (a ∷ b ∷ c ∷ rest) - 2 - 2 ≡ suc (length rest - 2) = omega arith in rw e

skills_specific_iff :
    (parts : List GoString)
    → 5 ≤ length parts
    → (validate_skills_specific parts ≡ ok tt) ↔ All NonEmpty (path_parts parts)
unfolding validate_skills_specific
skills_specific_iff parts h =
    let long : ltb (length parts) min_label_key_parts ≡ false = ground arith in
    rw (long, path_parts_ne parts h) (check_components_sound 0 _, check_components_complete 0 _)

locators_specific_iff :
    (parts : List GoString)
    → 5 ≤ length parts
    → (validate_locators_specific parts ≡ ok tt) ↔ All NonEmpty (path_parts parts)
unfolding validate_locators_specific
locators_specific_iff parts h =
    let long : ltb (length parts) min_label_key_parts ≡ false = ground arith in
    rw (long, path_parts_ne parts h) (check_components_sound 0 _, check_components_complete 0 _)

All-Any : (parts : List GoString) → All Any parts
All-Any [] = tt
All-Any (p ∷ parts) = (tt, All-Any parts)

domains_specific_iff :
    (parts : List GoString)
    → 5 ≤ length parts
    → (validate_domains_specific parts ≡ ok tt) ↔ All Any (path_parts parts)
unfolding validate_domains_specific
domains_specific_iff parts h =
    let long : ltb (length parts) min_label_key_parts ≡ false = ground arith in
    rw (long, path_parts_ne parts h) (λ _. All-Any (path_parts parts), λ _. refl)

features_specific_iff :
    (parts : List GoString)
    → 5 ≤ length parts
    → (validate_features_specific parts ≡ ok tt) ↔ All Any (path_parts parts)
unfolding validate_features_specific
features_specific_iff parts h =
    let long : ltb (length parts) min_label_key_parts ≡ false = ground arith in
    rw (long, path_parts_ne parts h) (λ _. All-Any (path_parts parts), λ _. refl)

module _ (cid_decodes : GoString → Bool) (key value : GoString) where
  -- A skill record is accepted exactly when its key has the namespace skills, a path of non-empty
  -- components, a CID and a peer ID that is no CID, and its value is empty or a CID.
  pub validate_skill_iff :
      (validate_skill cid_decodes key value ≡ ok tt)
      ↔ IsLabelRecord cid_decodes NonEmpty namespace_skills key value
  unfolding validate_skill
  validate_skill_iff = (
    scheme_sound cid_decodes NonEmpty validate_skills_specific skills_specific_iff namespace_skills
        key value,
    scheme_complete cid_decodes NonEmpty validate_skills_specific skills_specific_iff
        namespace_skills key value,
  )

  -- A locator record is accepted exactly when its key has the namespace locators, a path of non-empty
  -- components, a CID and a peer ID that is no CID, and its value is empty or a CID.
  pub validate_locator_iff :
      (validate_locator cid_decodes key value ≡ ok tt)
      ↔ IsLabelRecord cid_decodes NonEmpty namespace_locators key value
  unfolding validate_locator
  validate_locator_iff = (
    scheme_sound cid_decodes NonEmpty validate_locators_specific locators_specific_iff
        namespace_locators key value,
    scheme_complete cid_decodes NonEmpty validate_locators_specific locators_specific_iff
        namespace_locators key value,
  )

  -- A domain record is accepted exactly when its key has the namespace domains, a path (whose
  -- components may be empty), a CID and a peer ID that is no CID, and its value is empty or a CID.
  pub validate_domain_iff :
      (validate_domain cid_decodes key value ≡ ok tt)
      ↔ IsLabelRecord cid_decodes Any namespace_domains key value
  unfolding validate_domain
  validate_domain_iff = (
    scheme_sound cid_decodes Any validate_domains_specific domains_specific_iff namespace_domains
        key value,
    scheme_complete cid_decodes Any validate_domains_specific domains_specific_iff namespace_domains
        key value,
  )

  -- A feature record is accepted exactly when its key has the namespace features, a path (whose
  -- components may be empty), a CID and a peer ID that is no CID, and its value is empty or a CID.
  pub validate_feature_iff :
      (validate_feature cid_decodes key value ≡ ok tt)
      ↔ IsLabelRecord cid_decodes Any namespace_features key value
  unfolding validate_feature
  validate_feature_iff = (
    scheme_sound cid_decodes Any validate_features_specific features_specific_iff namespace_features
        key value,
    scheme_complete cid_decodes Any validate_features_specific features_specific_iff
        namespace_features key value,
  )

  -- A record is accepted by the validator of a namespace exactly when its key has that namespace, a
  -- path, a CID and a peer ID that is no CID, and its value is empty or a CID. The components of the
  -- path are not empty for skills and locators; for domains and features they may be.
  pub validators_iff :
      ((validate_skill cid_decodes key value ≡ ok tt)
        ↔ IsLabelRecord cid_decodes NonEmpty namespace_skills key value)
      × ((validate_locator cid_decodes key value ≡ ok tt)
          ↔ IsLabelRecord cid_decodes NonEmpty namespace_locators key value)
      × ((validate_domain cid_decodes key value ≡ ok tt)
          ↔ IsLabelRecord cid_decodes Any namespace_domains key value)
      × ((validate_feature cid_decodes key value ≡ ok tt)
          ↔ IsLabelRecord cid_decodes Any namespace_features key value)
  validators_iff =
      (validate_skill_iff, validate_locator_iff, validate_domain_iff, validate_feature_iff)

-- The parts of a label in a namespace.
pub split-prefix :
    (ns name : GoString)
    → Lacks slash ns
    → split slash (prefix ns ++ name) ≡ [] ∷ ns ∷ split slash name
unfolding prefix
split-prefix ns name h =
    ap (split slash) (ap (λ t. slash ∷ t) (append_assoc ns (slash ∷ []) name))
    ∙ split-slash (ns ++ slash ∷ name)
    ∙ ap (λ t. [] ∷ t) (split-append slash ns name ∙ rw (split_of_Lacks slash ns h))

split_ne : (s : GoString) → split slash s ≢ []
split_ne s = let (w, ws, e) = split_cons slash s in rw e (λ p. cc)

module _ (cid_decodes : GoString → Bool) (name cid peer_id : GoString) (cid_lacks : Lacks slash cid)
    (peer_lacks : Lacks slash peer_id) (cid_ne : cid ≢ []) (peer_id_ne : peer_id ≢ [])
    (cid_ok : cid_decodes cid ≡ true) (peer_ok : cid_decodes peer_id ≡ false) where
  built_parts :
      (ns : GoString)
      → Lacks slash ns
      → split slash (build_enhanced_label_key (prefix ns ++ name) cid peer_id)
        ≡ [] ∷ ns ∷ (split slash name ++ cid ∷ peer_id ∷ [])
  built_parts ns h =
      split-build (prefix ns ++ name) cid peer_id cid_lacks peer_lacks ∙ rw (split-prefix ns name h)

  built :
      (P : GoString → Type 0) (ns : GoString)
      → Lacks slash ns
      → All P (split slash name)
      → IsLabelKey cid_decodes P ns (build_enhanced_label_key (prefix ns ++ name) cid peer_id)
  built P ns h hs = record {
    first = [];
    path = split slash name;
    cid = cid;
    peer_id = peer_id;
    parts = built_parts ns h;
    path_ne = split_ne name;
    components = hs;
    cid_ne = cid_ne;
    cid_ok = cid_ok;
    peer_id_ne = peer_id_ne;
    peer_id_ok = peer_ok;
  }

  -- The components of the path of the built key are those of the name.
  built_components :
      (P : GoString → Type 0) (ns ns' : GoString)
      → Lacks slash ns
      → IsLabelKey cid_decodes P ns' (build_enhanced_label_key (prefix ns ++ name) cid peer_id)
      → All P (split slash name)
  built_components P ns ns' h k =
      let same : k.path ≡ split slash name =
        sym (path_parts_lem k.first ns' k.path k.cid k.peer_id)
        ∙ (ap path_parts (sym k.parts ∙ built_parts ns h)
            ∙ path_parts_lem [] ns (split slash name) cid peer_id) in
      subst (All P) same k.components

  accepted_iff :
      (P : GoString → Type 0) (ns : GoString)
      → Lacks slash ns
      → IsLabelRecord cid_decodes P ns
          (build_enhanced_label_key (prefix ns ++ name) cid peer_id)
          cid
        ↔ All P (split slash name)
  accepted_iff P ns h = (
    (λ r. built_components P ns ns h r.label_key),
    (λ hs. record { label_key = built P ns h hs; value_ok = inr cid_ok }),
  )

  -- A key built from a label of a namespace, a CID and a peer ID that is no CID (both non-empty and
  -- free of slashes), with the CID as its value as the routing code announces it, is accepted by the
  -- validator of that namespace: for domains and features always, for skills and locators exactly
  -- when no component of the name is empty.
  pub validate-build :
      ((validate_skill cid_decodes
            (build_enhanced_label_key (prefix namespace_skills ++ name) cid peer_id)
            cid
          ≡ ok tt)
        ↔ All NonEmpty (split slash name))
      × (validate_domain cid_decodes
            (build_enhanced_label_key (prefix namespace_domains ++ name) cid peer_id)
            cid
          ≡ ok tt)
      × (validate_feature cid_decodes
            (build_enhanced_label_key (prefix namespace_features ++ name) cid peer_id)
            cid
          ≡ ok tt)
      × ((validate_locator cid_decodes
              (build_enhanced_label_key (prefix namespace_locators ++ name) cid peer_id)
              cid
            ≡ ok tt)
          ↔ All NonEmpty (split slash name))
  validate-build =
      let skill = validate_skill_iff cid_decodes _ cid in
      let locator = validate_locator_iff cid_decodes _ cid in
      let (skill_in, skill_out) = accepted_iff NonEmpty namespace_skills (omega arith) in
      let (locator_in, locator_out) = accepted_iff NonEmpty namespace_locators (omega arith) in
      (
        ((λ e. skill_in (skill.0 e)), (λ hs. skill.1 (skill_out hs))),
        (validate_domain_iff cid_decodes _ cid).1
            ((accepted_iff Any namespace_domains (omega arith)).1 (All-Any _)),
        (validate_feature_iff cid_decodes _ cid).1
            ((accepted_iff Any namespace_features (omega arith)).1 (All-Any _)),
        ((λ e. locator_in (locator.0 e)), (λ hs. locator.1 (locator_out hs))),
      )
