-- ===== src/Labels/Validator/Plain.antt =====
-- ValidateLabelKey, FormatLabelKey and ExtractCIDFromLabelKey against the enhanced key format.
use agntcy_dir.Base.{
  ℕ, ◌-◌, ◌≡◌, ◌≢◌, refl, sym, ap, ap₂, ◌∙◌, Bool, true, false, List, [], ◌∷◌, ◌++◌, arith, length,
  ltb, if◌then◌else◌, get_or-end, length-append, append_assoc, drop,
}
use agntcy_dir.Base.Text.{GoString, ◌==◌, eq_iff, has_prefix, trim_suffix}
use agntcy_dir.Base.Text.Split.{split, Lacks, split-append, split_of_Lacks, split_cons}
use agntcy_dir.Base.Result.{ok, err}
use agntcy_dir.Labels.Namespace.{slash, prefix, is_valid, parse_namespace}
use agntcy_dir.Labels.Key.{build_enhanced_label_key}
use agntcy_dir.Labels.Key.RoundTrip.{split-build}
use agntcy_dir.Labels.Validator.{bad_key_format, invalid_cid, validate_label_key, format_label_key}
use agntcy_dir.Labels.Validator.Accepts.{split-prefix}

drop-append {ℓ} : {A : Type ℓ} (xs ys : List A) → drop (length xs) (xs ++ ys) ≡ ys
drop-append [] ys = refl
drop-append (x ∷ xs) ys = drop-append xs ys

-- A string that does not end in a slash is not trimmed.
trim_suffix_of_ne :
    (s : GoString) (c : ℕ) → c ≢ slash → trim_suffix (s ++ c ∷ []) (slash ∷ []) ≡ s ++ c ∷ []
unfolding trim_suffix
trim_suffix_of_ne s c h =
    let n : length (s ++ c ∷ []) - 1 ≡ length s = omega (arith, length-append s (c ∷ [])) in
    let last : (c ∷ [] == slash ∷ []) ≡ false = unfold ◌==◌ in ground arith in
    rw (n, drop-append s (c ∷ [])) (ground arith)

has_prefix-prefix : (ns s : GoString) → has_prefix (prefix ns ++ s) (slash ∷ []) ≡ true
unfolding has_prefix prefix
has_prefix-prefix ns s = refl

-- A label that does not end in a slash is formatted by appending the CID.
format_lem :
    (ns s cid : GoString) (c : ℕ)
    → c ≢ slash
    → format_label_key (prefix ns ++ (s ++ c ∷ [])) cid
      ≡ (prefix ns ++ (s ++ c ∷ [])) ++ slash ∷ cid
unfolding format_label_key
format_lem ns s cid c h =
    rw (has_prefix-prefix ns (s ++ c ∷ []))
      (rw (← append_assoc (prefix ns) s (c ∷ [])) (rw (trim_suffix_of_ne (prefix ns ++ s) c h)))

module _ (cid_decodes : GoString → Bool) where
  -- What ValidateLabelKey says of a key whose parts are known.
  validate_parts :
      (key first ns : GoString) (path : List GoString) (last : GoString)
      → split slash key ≡ first ∷ ns ∷ (path ++ last ∷ [])
      → is_valid ns ≡ true
      → last ≢ []
      → validate_label_key cid_decodes key ≡ (
          if ltb (length path) 2
          then err bad_key_format
          else if cid_decodes last
          then ok tt
          else err invalid_cid)
  unfolding validate_label_key parse_namespace
  validate_parts key first ns path last e v ne =
      let end = get_or-end (first ∷ ns ∷ path) last [] in
      let size = length-append path (last ∷ []) in
      rw (e, v) (rw end (ground (arith, eq_iff last [])))

  module _ (ns name cid : GoString) (valid : is_valid ns ≡ true) (ns_lacks : Lacks slash ns)
      (cid_lacks : Lacks slash cid) (cid_ne : cid ≢ []) where
    -- A key formatted from a label of a valid namespace whose name is not empty and does not end in a
    -- slash, and a CID without slashes that is not empty and decodes, passes ValidateLabelKey exactly when the name has two components or more;
    -- with one component it is refused for its format.
    pub validate-format :
        (s : GoString) (c : ℕ)
        → name ≡ s ++ c ∷ []
        → c ≢ slash
        → cid_decodes cid ≡ true
        → validate_label_key cid_decodes (format_label_key (prefix ns ++ name) cid)
          ≡ (if ltb (length (split slash name)) 2 then err bad_key_format else ok tt)
    validate-format s c e h good =
        let parts : split slash (format_label_key (prefix ns ++ name) cid)
            ≡ [] ∷ ns ∷ (split slash name ++ cid ∷ []) =
          ap (split slash) (rw e (format_lem ns s cid c h))
          ∙ split-append slash (prefix ns ++ name) cid
          ∙ ap₂ ◌++◌ (split-prefix ns name ns_lacks) (split_of_Lacks slash cid cid_lacks) in
        rw (validate_parts _ [] ns (split slash name) cid parts valid cid_ne) (rw good)

    -- ValidateLabelKey refuses every enhanced key of a valid namespace (a name without slashes) with
    -- a slash-free CID and a peer ID that is no CID, not empty and free of slashes.
    pub validate_label_key-build :
        (peer_id : GoString)
        → Lacks slash peer_id
        → peer_id ≢ []
        → cid_decodes peer_id ≡ false
        → validate_label_key cid_decodes (build_enhanced_label_key (prefix ns ++ name) cid peer_id)
          ≡ err invalid_cid
    validate_label_key-build peer_id lacks ne bad =
        let (w, ws, nonempty) = split_cons slash name in
        let count = ap length nonempty in
        let key = build_enhanced_label_key (prefix ns ++ name) cid peer_id in
        let parts : split slash key ≡ [] ∷ ns ∷ ((split slash name ++ cid ∷ []) ++ peer_id ∷ []) =
          split-build (prefix ns ++ name) cid peer_id cid_lacks lacks
          ∙ ap (λ t. t ++ cid ∷ peer_id ∷ []) (split-prefix ns name ns_lacks)
          ∙ ap (λ t. [] ∷ ns ∷ t)
              (sym (append_assoc (split slash name) (cid ∷ []) (peer_id ∷ []))) in
        let long : ltb (length (split slash name ++ cid ∷ [])) 2 ≡ false =
          ground (arith, length-append (split slash name) (cid ∷ [])) in
        rw (validate_parts key [] ns (split slash name ++ cid ∷ []) peer_id parts valid ne)
          (rw (long, bad))
