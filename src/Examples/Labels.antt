-- ===== src/Examples/Labels.antt =====
-- Label keys, and a CID decoder that decodes one CID.
use agntcy_dir.Base.{
  ◌≡◌, ◌≤◌, ◌↔◌, refl, Bool, true, false, [], ◌∷◌, ◌++◌, arith, ltb, length, if◌then◌else◌, All,
}
use agntcy_dir.Base.Text.{GoString, lit, ◌==◌, has_prefix}
use agntcy_dir.Base.Text.Split.{Lacks, split, join}
use agntcy_dir.Base.Result.{ok, err}
use agntcy_dir.Labels.Namespace.{
  slash, prefix, namespace_skills, namespace_domains, namespace_features, namespace_locators,
  is_valid,
}
use agntcy_dir.Labels.Key.{build_enhanced_label_key, parse_enhanced_label_key, label_key_fields}
use agntcy_dir.Labels.Key.RoundTrip.{parse-build, build-parse}
use agntcy_dir.Labels.Validator.{
  invalid_cid, bad_key_format, validate_skill, validate_domain, validate_feature, validate_locator,
  select_first_valid, format_label_key, validate_label_key,
}
use agntcy_dir.Labels.Validator.Shape.{IsLabelRecord, NonEmpty, Any}
use agntcy_dir.Labels.Validator.Accepts.{validators_iff, validate-build}
use agntcy_dir.Labels.Validator.Plain.{validate-format, validate_label_key-build}
use agntcy_dir.Labels.Validator.Select.{FirstValid, Accepts, select_first_valid_iff}

abbrev cid : GoString
cid = lit "cid"

abbrev peer : GoString
peer = lit "peer"

abbrev cid_decodes : GoString → Bool
cid_decodes s = s == cid

abbrev key : GoString
key = lit "/skills/a/b/cid/peer"

cid-Lacks : Lacks slash cid
cid-Lacks = (omega arith, (omega arith, (omega arith, tt)))

peer-Lacks : Lacks slash peer
peer-Lacks = (omega arith, (omega arith, (omega arith, (omega arith, tt))))

cid_ok : cid_decodes cid ≡ true
unfolding ◌==◌
cid_ok = refl

peer_ok : cid_decodes peer ≡ false
unfolding ◌==◌
peer_ok = refl

name_parts : split slash (lit "a/b") ≡ lit "a" ∷ lit "b" ∷ []
unfolding split
name_parts = refl

rest_long : 2 ≤ length (split slash (lit "skills/a/b"))
unfolding split
rest_long = omega arith

parsed : parse_enhanced_label_key key ≡ ok (lit "/skills/a/b", cid, peer)
unfolding parse_enhanced_label_key label_key_fields split join has_prefix
parsed = refl

parse-build_example :
    parse_enhanced_label_key (build_enhanced_label_key (lit "/skills/a/b") cid peer)
    ≡ ok (lit "/skills/a/b", cid, peer)
parse-build_example = parse-build (lit "skills/a/b") cid peer rest_long cid-Lacks peer-Lacks

build-parse_example :
    (build_enhanced_label_key (lit "/skills/a/b") cid peer ≡ key)
    × Lacks slash cid
    × Lacks slash peer
    × (3 ≤ length (split slash (lit "/skills/a/b")))
build-parse_example = build-parse key (lit "/skills/a/b") cid peer parsed

validators_iff_example :
    ((validate_skill cid_decodes key cid ≡ ok tt)
      ↔ IsLabelRecord cid_decodes NonEmpty namespace_skills key cid)
    × ((validate_locator cid_decodes key cid ≡ ok tt)
        ↔ IsLabelRecord cid_decodes NonEmpty namespace_locators key cid)
    × ((validate_domain cid_decodes key cid ≡ ok tt)
        ↔ IsLabelRecord cid_decodes Any namespace_domains key cid)
    × ((validate_feature cid_decodes key cid ≡ ok tt)
        ↔ IsLabelRecord cid_decodes Any namespace_features key cid)
validators_iff_example = validators_iff cid_decodes key cid

components : All NonEmpty (split slash (lit "a/b"))
components = rw name_parts ((λ h. cc), ((λ h. cc), tt))

validate-build_example :
    ((validate_skill cid_decodes
          (build_enhanced_label_key (prefix namespace_skills ++ lit "a/b") cid peer)
          cid
        ≡ ok tt)
      ↔ All NonEmpty (split slash (lit "a/b")))
    × (validate_domain cid_decodes
          (build_enhanced_label_key (prefix namespace_domains ++ lit "a/b") cid peer)
          cid
        ≡ ok tt)
    × (validate_feature cid_decodes
          (build_enhanced_label_key (prefix namespace_features ++ lit "a/b") cid peer)
          cid
        ≡ ok tt)
    × ((validate_locator cid_decodes
            (build_enhanced_label_key (prefix namespace_locators ++ lit "a/b") cid peer)
            cid
          ≡ ok tt)
        ↔ All NonEmpty (split slash (lit "a/b")))
validate-build_example =
    validate-build cid_decodes (lit "a/b") cid peer cid-Lacks peer-Lacks (λ h. cc) (λ h. cc) cid_ok
      peer_ok

select_first_valid_iff_example :
    (select_first_valid (validate_skill cid_decodes) key (lit "x" ∷ cid ∷ []) ≡ ok 1)
    ↔ FirstValid (Accepts (validate_skill cid_decodes) key) (lit "x" ∷ cid ∷ []) 1
select_first_valid_iff_example =
    select_first_valid_iff (validate_skill cid_decodes) key (lit "x" ∷ cid ∷ []) 1

skills_valid : is_valid namespace_skills ≡ true
unfolding is_valid ◌==◌
skills_valid = refl

skills-Lacks : Lacks slash namespace_skills
skills-Lacks =
    (omega arith, (omega arith, (omega arith, (omega arith, (omega arith, (omega arith, tt))))))

validate-format_example :
    validate_label_key cid_decodes (format_label_key (prefix namespace_skills ++ lit "ab") cid)
    ≡ (if ltb (length (split slash (lit "ab"))) 2 then err bad_key_format else ok tt)
validate-format_example =
    validate-format cid_decodes namespace_skills (lit "ab") cid skills_valid skills-Lacks cid-Lacks
      (λ h. cc) (lit "a") b'b' refl (omega arith) cid_ok

validate_label_key-build_example :
    validate_label_key cid_decodes
      (build_enhanced_label_key (prefix namespace_skills ++ lit "a/b") cid peer)
    ≡ err invalid_cid
validate_label_key-build_example =
    validate_label_key-build cid_decodes namespace_skills (lit "a/b") cid skills_valid skills-Lacks
      cid-Lacks (λ h. cc) peer peer-Lacks (λ h. cc) peer_ok
