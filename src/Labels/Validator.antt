-- ===== src/Labels/Validator.antt =====
-- The validators of DHT label records (server/routing/validators/validators.go). `cid.Decode` of
-- github.com/ipfs/go-cid enters as the test `cid_decodes`: whether it returns no error.
pub mod Shape
pub mod Accepts
pub mod Plain
pub mod Select
use agntcy_dir.Base.{
  ℕ, zero, suc, ◌+◌, ◌-◌, ◌<◌, Bool, true, false, not, ◌&&◌, List, [], ◌∷◌, ◌++◌, ltb, length,
  get_or, slice, if◌then◌else◌,
}
use agntcy_dir.Base.Text.{GoString, ◌==◌, has_prefix, trim_suffix}
use agntcy_dir.Base.Text.Split.{split}
use agntcy_dir.Base.Result.{Result, ok, err, ◌>>=◌, ◌>>◌, fail_if}
use agntcy_dir.Labels.Namespace.{
  NamespaceType, slash, min_label_key_parts, namespace_skills, namespace_domains,
  namespace_features, namespace_locators, parse_namespace, is_valid_namespace_key,
}
use agntcy_dir.Labels.Key.{last_part, second_last_part}

pub data ValidationError : Type 0 where
  bad_key_format bad_namespace missing_peer_id missing_cid invalid_cid : ValidationError
  empty_path : ValidationError
  empty_component : ℕ → ValidationError
  invalid_value no_values no_valid_values : ValidationError

abbrev pub Checked : Type 0 → Type 0
Checked = Result ValidationError

-- parts[2:len(parts)-2]: the path between the namespace and the CID.
abbrev pub path_parts : List GoString → List GoString
path_parts parts = slice parts 2 (length parts - 2)

abbrev pub is_empty {ℓ} : {A : Type ℓ} → List A → Bool
is_empty [] = true
is_empty (x ∷ xs) = false

-- The loop over the path; a component is reported by its position, from 1.
unfoldable pub check_components : ℕ → List GoString → Checked (Unit {0})
check_components i [] = ok tt
check_components i (part ∷ parts) =
    let rest = check_components (i + 1) parts in
    if part == [] then err (empty_component (i + 1)) else rest

-- The loop of selectFirstValid.
unfoldable pub select_loop :
    (GoString → GoString → Checked (Unit {0})) → GoString → ℕ → List GoString → Checked ℕ
select_loop validate key i [] = err no_valid_values
select_loop validate key i (value ∷ values) = elim (validate key value) [
  | ok _ ↦ ok i
  | err _ ↦ select_loop validate key (i + 1) values
]

-- BaseValidator.selectFirstValid
unfoldable pub select_first_valid :
    (GoString → GoString → Checked (Unit {0})) → GoString → List GoString → Checked ℕ
unfolding select_loop
select_first_valid validate key values =
    if is_empty values then err no_values else select_loop validate key 0 values

-- validateSkillsSpecific, and validateLocatorsSpecific with the same checks.
unfoldable pub validate_skills_specific : List GoString → Checked (Unit {0})
unfolding check_components
validate_skills_specific parts = do
  fail_if (ltb (length parts) min_label_key_parts) bad_key_format
  fail_if (is_empty (path_parts parts)) empty_path
  check_components 0 (path_parts parts)

unfoldable pub validate_locators_specific : List GoString → Checked (Unit {0})
unfolding check_components
validate_locators_specific parts = do
  fail_if (ltb (length parts) min_label_key_parts) bad_key_format
  fail_if (is_empty (path_parts parts)) empty_path
  check_components 0 (path_parts parts)

-- validateDomainsSpecific, and validateFeaturesSpecific with the same checks.
unfoldable pub validate_domains_specific : List GoString → Checked (Unit {0})
validate_domains_specific parts = do
  fail_if (ltb (length parts) min_label_key_parts) bad_key_format
  fail_if (is_empty (path_parts parts)) empty_path

unfoldable pub validate_features_specific : List GoString → Checked (Unit {0})
validate_features_specific parts = do
  fail_if (ltb (length parts) min_label_key_parts) bad_key_format
  fail_if (is_empty (path_parts parts)) empty_path

-- FormatLabelKey
unfoldable pub format_label_key : GoString → GoString → GoString
format_label_key label cid =
    let rooted = if not (has_prefix label (slash ∷ [])) then slash ∷ label else label in
    trim_suffix rooted (slash ∷ []) ++ (slash ∷ cid)

module _ (cid_decodes : GoString → Bool) where
  -- The checks of BaseValidator.validateKeyFormat on the parts of the key.
  unfoldable pub check_parts : List GoString → NamespaceType → Checked (List GoString)
  check_parts parts expected = do
    fail_if (ltb (length parts) min_label_key_parts) bad_key_format
    fail_if (not (get_or parts 1 [] == expected)) bad_namespace
    fail_if (last_part parts == []) missing_peer_id
    fail_if (cid_decodes (last_part parts)) bad_key_format
    fail_if (second_last_part parts == []) missing_cid
    fail_if (not (cid_decodes (second_last_part parts))) invalid_cid
    ok parts

  -- BaseValidator.validateKeyFormat
  unfoldable pub validate_key_format : GoString → NamespaceType → Checked (List GoString)
  validate_key_format key expected = check_parts (split slash key) expected

  -- BaseValidator.validateValue
  unfoldable pub validate_value : GoString → Checked (Unit {0})
  validate_value value = fail_if (ltb 0 (length value) && not (cid_decodes value)) invalid_value

  -- SkillValidator.Validate, DomainValidator.Validate, FeatureValidator.Validate and
  -- LocatorValidator.Validate
  unfoldable pub validate_skill : GoString → GoString → Checked (Unit {0})
  validate_skill key value = do
    parts ← validate_key_format key namespace_skills
    validate_skills_specific parts
    validate_value value

  unfoldable pub validate_domain : GoString → GoString → Checked (Unit {0})
  validate_domain key value = do
    parts ← validate_key_format key namespace_domains
    validate_domains_specific parts
    validate_value value

  unfoldable pub validate_feature : GoString → GoString → Checked (Unit {0})
  validate_feature key value = do
    parts ← validate_key_format key namespace_features
    validate_features_specific parts
    validate_value value

  unfoldable pub validate_locator : GoString → GoString → Checked (Unit {0})
  validate_locator key value = do
    parts ← validate_key_format key namespace_locators
    validate_locators_specific parts
    validate_value value

  -- ValidateLabelKey
  unfoldable pub validate_label_key : GoString → Checked (Unit {0})
  validate_label_key key = do
    let parts = split slash key
    fail_if (ltb (length parts) min_label_key_parts) bad_key_format
    fail_if (not (parse_namespace (get_or parts 1 [])).1) bad_namespace
    fail_if (last_part parts == []) missing_cid
    fail_if (not (cid_decodes (last_part parts))) invalid_cid

  -- ExtractCIDFromLabelKey
  unfoldable pub extract_cid_from_label_key : GoString → Checked GoString
  extract_cid_from_label_key key = do
    let parts = split slash key
    fail_if (ltb (length parts) min_label_key_parts) bad_key_format
    fail_if (not (is_valid_namespace_key key)) bad_namespace
    fail_if (second_last_part parts == []) missing_cid
    fail_if (not (cid_decodes (second_last_part parts))) invalid_cid
    ok (second_last_part parts)
