-- ===== src/Labels/Validator/Shape.antt =====
-- What the validators accept: keys /<namespace>/<path>/<cid>/<peer> with a path, a CID, and a peer
-- ID that is no CID, beside an empty value or a CID.
use agntcy_dir.Base.{
  ℕ, ◌+◌, ◌-◌, ◌≤◌, ◌≡◌, ◌≢◌, ◌↔◌, ◌⊎◌, inl, inr, refl, ap, ◌∙◌, Bool, true, false, List, [], ◌∷◌,
  ◌++◌, arith, length, get_or, All, split_last_two, get_or-last, get_or-second_last, length-append,
  take-append,
}
use agntcy_dir.Base.Text.{GoString, eq_iff}
use agntcy_dir.Base.Text.Split.{split}
use agntcy_dir.Base.Result.{ok, ◌>>=◌, ◌>>◌, >>=-eq-ok}
use agntcy_dir.Labels.Namespace.{NamespaceType, slash}
use agntcy_dir.Labels.Key.{last_part, second_last_part}
use agntcy_dir.Labels.Validator.{
  Checked, check_parts, path_parts, check_components, validate_key_format, validate_value,
}

-- The shape of a key in a namespace; `P` is what each component of the path satisfies.
pub record IsLabelKey (cid_decodes : GoString → Bool) (P : GoString → Type 0) (ns : NamespaceType)
    (key : GoString) : Type 0 where
  pub first : GoString
  pub path : List GoString
  pub cid : GoString
  pub peer_id : GoString
  pub parts : split slash key ≡ first ∷ ns ∷ (path ++ cid ∷ peer_id ∷ [])
  pub path_ne : path ≢ []
  pub components : All P path
  pub cid_ne : cid ≢ []
  pub cid_ok : cid_decodes cid ≡ true
  pub peer_id_ne : peer_id ≢ []
  pub peer_id_ok : cid_decodes peer_id ≡ false

pub record IsLabelRecord (cid_decodes : GoString → Bool) (P : GoString → Type 0)
    (ns : NamespaceType) (key value : GoString) : Type 0 where
  pub label_key : IsLabelKey cid_decodes P ns key
  pub value_ok : (value ≡ []) ⊎ (cid_decodes value ≡ true)

abbrev pub NonEmpty : GoString → Type 0
NonEmpty part = part ≢ []

abbrev pub Any : GoString → Type 0
Any part = Unit

pub path_parts_lem :
    (first ns : GoString) (path : List GoString) (cid peer_id : GoString)
    → path_parts (first ∷ ns ∷ (path ++ cid ∷ peer_id ∷ [])) ≡ path
path_parts_lem first ns path cid peer_id =
    let e : length (first ∷ ns ∷ (path ++ cid ∷ peer_id ∷ [])) - 2 - 2 ≡ length path =
      omega (arith, length-append path (cid ∷ peer_id ∷ [])) in
    rw e (take-append path (cid ∷ peer_id ∷ []))

-- The components pass exactly when none is empty.
pub check_components_sound :
    (i : ℕ) (path : List GoString) → check_components i path ≡ ok tt → All NonEmpty path
unfolding check_components
check_components_sound i [] h = tt
check_components_sound i (part ∷ path) h =
    (ground (arith, eq_iff part []), check_components_sound (i + 1) path (ground arith))

pub check_components_complete :
    (i : ℕ) (path : List GoString) → All NonEmpty path → check_components i path ≡ ok tt
unfolding check_components
check_components_complete i [] h = refl
check_components_complete i (part ∷ path) (p, h) =
    ground (arith, eq_iff part [], check_components_complete (i + 1) path h)

length_of_ne : (path : List GoString) → path ≢ [] → 1 ≤ length path
length_of_ne [] h = absurd (h refl)
length_of_ne (part ∷ path) h = omega arith

ne_of_length : (path : List GoString) → 1 ≤ length path → path ≢ []
ne_of_length [] h = absurd (omega arith)
ne_of_length (part ∷ path) h = λ e. cc

module _ (cid_decodes : GoString → Bool) where
  -- The tests that the parts of a key have passed.
  record Passed (parts : List GoString) (ns : NamespaceType) : Type 0 where
    enough : 5 ≤ length parts
    namespace : get_or parts 1 [] ≡ ns
    peer_id_ne : last_part parts ≢ []
    peer_id_ok : cid_decodes (last_part parts) ≡ false
    cid_ne : second_last_part parts ≢ []
    cid_ok : cid_decodes (second_last_part parts) ≡ true

  check_parts_sound :
      (parts out : List GoString) (ns : NamespaceType)
      → check_parts cid_decodes parts ns ≡ ok out
      → (out ≡ parts) × Passed parts ns
  unfolding check_parts
  check_parts_sound parts out ns h = (
    ground arith,
    record {
      enough = ground arith;
      namespace = ground (arith, eq_iff (get_or parts 1 []) ns);
      peer_id_ne = ground (arith, eq_iff (last_part parts) []);
      peer_id_ok = ground arith;
      cid_ne = ground (arith, eq_iff (second_last_part parts) []);
      cid_ok = ground arith;
    },
  )

  check_parts_complete :
      (parts : List GoString) (ns : NamespaceType)
      → Passed parts ns
      → check_parts cid_decodes parts ns ≡ ok parts
  unfolding check_parts
  check_parts_complete parts ns q = ground (
    arith,
    eq_iff (get_or parts 1 []) ns,
    eq_iff (last_part parts) [],
    eq_iff (second_last_part parts) [],
  )

  module _ {P : GoString → Type 0} {ns : NamespaceType} {key : GoString} where
    -- A key of the shape passes the tests on its parts.
    shape_Passed : (k : IsLabelKey cid_decodes P ns key) → Passed (split slash key) ns
    shape_Passed k =
        let last_e = get_or-last (k.first ∷ ns ∷ k.path) k.cid k.peer_id [] in
        let second_e = get_or-second_last (k.first ∷ ns ∷ k.path) k.cid k.peer_id [] in
        rw k.parts (record {
          enough =
              omega (
                arith,
                length_of_ne k.path k.path_ne,
                length-append k.path (k.cid ∷ k.peer_id ∷ []),
              );
          namespace = refl;
          peer_id_ne = rw last_e k.peer_id_ne;
          peer_id_ok = rw last_e k.peer_id_ok;
          cid_ne = rw second_e k.cid_ne;
          cid_ok = rw second_e k.cid_ok;
        })

    passed_at :
        (first ns' : GoString) (path : List GoString) (cid peer_id : GoString)
        → split slash key ≡ first ∷ ns' ∷ (path ++ cid ∷ peer_id ∷ [])
        → Passed (split slash key) ns
        → All P (path_parts (split slash key))
        → IsLabelKey cid_decodes P ns key
    passed_at first ns' path cid peer_id e q₀ h =
        let last_e = get_or-last (first ∷ ns' ∷ path) cid peer_id [] in
        let second_e = get_or-second_last (first ∷ ns' ∷ path) cid peer_id [] in
        let q : Passed (first ∷ ns' ∷ (path ++ cid ∷ peer_id ∷ [])) ns = rw e at q₀ in
        record {
          first = first;
          path = path;
          cid = cid;
          peer_id = peer_id;
          parts = e ∙ ap (λ t. first ∷ t ∷ (path ++ cid ∷ peer_id ∷ [])) q.namespace;
          path_ne =
              ne_of_length path (omega (arith, q.enough, length-append path (cid ∷ peer_id ∷ [])));
          components = rw (ap path_parts e ∙ path_parts_lem first ns' path cid peer_id) at h;
          cid_ne = rw second_e at q.cid_ne;
          cid_ok = rw second_e at q.cid_ok;
          peer_id_ne = rw last_e at q.peer_id_ne;
          peer_id_ok = rw last_e at q.peer_id_ok;
        }

    shape_of :
        (parts : List GoString)
        → split slash key ≡ parts
        → 5 ≤ length parts
        → Passed (split slash key) ns
        → All P (path_parts (split slash key))
        → IsLabelKey cid_decodes P ns key
    shape_of [] e n q h = absurd (omega arith)
    shape_of (first ∷ []) e n q h = absurd (omega arith)
    shape_of (first ∷ ns' ∷ rest) e n q h =
        let (path, cid, peer_id, e₂) = split_last_two rest (omega arith) in
        passed_at first ns' path cid peer_id (e ∙ ap (λ t. first ∷ ns' ∷ t) e₂) q h

    -- A key whose parts pass the tests has the shape, if the path satisfies `P`.
    Passed_shape :
        Passed (split slash key) ns
        → All P (path_parts (split slash key))
        → IsLabelKey cid_decodes P ns key
    Passed_shape q h = shape_of (split slash key) refl q.enough q h

    components_at : (k : IsLabelKey cid_decodes P ns key) → All P (path_parts (split slash key))
    components_at k = rw (k.parts, path_parts_lem k.first ns k.path k.cid k.peer_id) k.components

  validate_value_sound :
      (value : GoString)
      → validate_value cid_decodes value ≡ ok tt
      → (value ≡ []) ⊎ (cid_decodes value ≡ true)
  unfolding validate_value
  validate_value_sound [] h = inl refl
  validate_value_sound (c ∷ value) h = inr (ground arith)

  validate_value_complete :
      (value : GoString)
      → (value ≡ []) ⊎ (cid_decodes value ≡ true)
      → validate_value cid_decodes value ≡ ok tt
  unfolding validate_value
  validate_value_complete value (inl e) = rw e
  validate_value_complete value (inr e) = ground arith

  -- The common scheme: the format, a check of the parts, and the value.
  module _ (P : GoString → Type 0) (specific : List GoString → Checked (Unit {0}))
      (specific_iff : (parts : List GoString)
        → 5 ≤ length parts
        → (specific parts ≡ ok tt) ↔ All P (path_parts parts))
      (ns : NamespaceType) (key value : GoString) where
    abbrev pub scheme : Checked (Unit {0})
    scheme = do
      parts ← validate_key_format cid_decodes key ns
      specific parts
      validate_value cid_decodes value

    pub scheme_sound : scheme ≡ ok tt → IsLabelRecord cid_decodes P ns key value
    unfolding validate_key_format
    scheme_sound h =
        let (parts, formatted, h₂) = >>=-eq-ok (validate_key_format cid_decodes key ns) _ h in
        let (_, special, valued) = >>=-eq-ok (specific parts) _ h₂ in
        let (same, q) = check_parts_sound (split slash key) parts ns formatted in
        let special' : specific (split slash key) ≡ ok tt = rw same at special in
        record {
          label_key = Passed_shape q ((specific_iff (split slash key) q.enough).0 special');
          value_ok = validate_value_sound value valued;
        }

    pub scheme_complete : IsLabelRecord cid_decodes P ns key value → scheme ≡ ok tt
    unfolding validate_key_format
    scheme_complete r =
        let q = shape_Passed r.label_key in
        rw (check_parts_complete (split slash key) ns q) (
          rw ((specific_iff (split slash key) q.enough).1 (components_at r.label_key))
            (validate_value_complete value r.value_ok))
