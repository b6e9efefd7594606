-- ===== src/Routing/Network.antt =====
-- The validators that the remote routing gives to its DHT (newRemote of server/routing/routing_remote.go), and
-- which announcements they let through. How the DHT reads the namespace of a key is a parameter.
use agntcy_dir.Base.{
  ◌≡◌, ◌≢◌, ◌↔◌, refl, sym, subst, ap, ◌∙◌, Bool, true, false, ◌&&◌, ◌||◌, not, inl, inr, Option,
  none, some, List, [], ◌∷◌, ◌++◌, append_assoc, arith, all, All, In, if◌then◌else◌,
}
use agntcy_dir.Base.Text.{GoString, ◌==◌, eq_iff}
use agntcy_dir.Base.Text.Split.{split, Lacks}
use agntcy_dir.Base.Result.{Result, ok, err, is_ok}
use agntcy_dir.Labels.Namespace.{
  NamespaceType, slash, prefix, all_namespaces, namespace_skills, namespace_domains,
  namespace_features, namespace_locators,
}
use agntcy_dir.Labels.Key.{build_enhanced_label_key}
use agntcy_dir.Labels.Validator.{ValidationError, validate_skill, validate_domain, validate_feature}
use agntcy_dir.Labels.Validator.Shape.{NonEmpty}
use agntcy_dir.Labels.Validator.Accepts.{split-prefix, validate-build}
use agntcy_dir.Routing.Local.RecordLabels.{HasNamespace}

-- The namespaced validator: there is none for locators.
unfoldable pub dht_validator :
    (GoString → Bool)
    → NamespaceType
    → Option (GoString → GoString → Result ValidationError (Unit {0}))
dht_validator cid_decodes ns =
    if ns == namespace_skills
    then some (validate_skill cid_decodes)
    else if ns == namespace_domains
    then some (validate_domain cid_decodes)
    else if ns == namespace_features
    then some (validate_feature cid_decodes)
    else none

abbrev pub validated :
    Option (GoString → GoString → Result ValidationError (Unit {0})) → GoString → GoString → Bool
validated none key value = false
validated (some validate) key value = is_ok (validate key value)

-- What the namespaced validator of go-libp2p-record accepts.
unfoldable pub valid_put :
    (GoString → Option NamespaceType) → (GoString → Bool) → GoString → GoString → Bool
valid_put namespace_of cid_decodes key value = elim (namespace_of key) [
  | none ↦ false
  | some ns ↦ validated (dht_validator cid_decodes ns) key value
]

-- The namespace of a key stands between its first two slashes.
pub record IsNamespaceOf (namespace_of : GoString → Option NamespaceType) : Type 0 where
  pub first_part :
      (ns rest : GoString) → ns ≢ [] → Lacks slash ns → namespace_of (prefix ns ++ rest) ≡ some ns

-- Which labels the network takes: those of domains and features, and the skills whose path has no
-- empty component.
abbrev pub parts_go_out : List GoString → Bool
parts_go_out [] = false
parts_go_out (first ∷ []) = false
parts_go_out (first ∷ ns ∷ path) =
    ns == namespace_domains
    || ns == namespace_features
    || (ns == namespace_skills && all (λ c. not (c == [])) path)

unfoldable pub goes_out : GoString → Bool
goes_out label = parts_go_out (split slash label)

unfoldable pub going_out : List GoString → List GoString
going_out [] = []
going_out (label ∷ labels) =
    let others = going_out labels in if goes_out label then label ∷ others else others

all-NonEmpty_iff :
    (path : List GoString) → All NonEmpty path ↔ (all (λ c. not (c == [])) path ≡ true)
all-NonEmpty_iff [] = ((λ h. refl), (λ e. tt))
all-NonEmpty_iff (c ∷ path) =
    let (into, out) = all-NonEmpty_iff path in
    (
      (λ (full, h). let rest = into h in ground (arith, eq_iff c [], full, rest)),
      (λ e. ((λ empty. ground (arith, eq_iff c [], empty, e)), out (ground (arith, e)))),
    )

same_test :
    {P : Type 0} (r : Result ValidationError (Unit {0})) (b : Bool)
    → (r ≡ ok tt) ↔ P
    → P ↔ (b ≡ true)
    → is_ok r ≡ b
same_test (ok _) b (into, _) (there, _) = sym (there (into refl))
same_test (err e) true (_, out) (_, back) = absurd (let bad = out (back refl) in cc)
same_test (err e) false a b = refl

module _ (namespace_of : GoString → Option NamespaceType) (reads : IsNamespaceOf namespace_of)
    (cid_decodes : GoString → Bool) (rest cid peer_id : GoString) (cid_lacks : Lacks slash cid)
    (peer_lacks : Lacks slash peer_id) (cid_ne : cid ≢ []) (peer_id_ne : peer_id ≢ [])
    (cid_ok : cid_decodes cid ≡ true) (peer_ok : cid_decodes peer_id ≡ false) where
  abbrev key_in : NamespaceType → GoString
  key_in ns = build_enhanced_label_key (prefix ns ++ rest) cid peer_id

  put_in :
      (ns : NamespaceType)
      → ns ≢ []
      → Lacks slash ns
      → valid_put namespace_of cid_decodes (key_in ns) cid
        ≡ validated (dht_validator cid_decodes ns) (key_in ns) cid
  unfolding valid_put build_enhanced_label_key
  put_in ns full h =
      let tail = slash ∷ (cid ++ (slash ∷ peer_id)) in
      let found : namespace_of ((prefix ns ++ rest) ++ tail) ≡ some ns =
        ap namespace_of (append_assoc (prefix ns) rest tail)
        ∙ reads.first_part ns (rest ++ tail) full h in
      rw (found, valid_put) refl

  abbrev Agree : NamespaceType → Type 0
  Agree ns = valid_put namespace_of cid_decodes (key_in ns) cid ≡ goes_out (prefix ns ++ rest)

  skills_agree : Agree namespace_skills
  unfolding goes_out dht_validator ◌==◌
  skills_agree =
      let (skill, _, _, _) =
        validate-build cid_decodes rest cid peer_id cid_lacks peer_lacks cid_ne peer_id_ne cid_ok
          peer_ok in
      put_in namespace_skills (λ e. cc) (omega arith)
      ∙ (same_test (validate_skill cid_decodes (key_in namespace_skills) cid)
            (all (λ c. not (c == [])) (split slash rest)) skill
            (all-NonEmpty_iff (split slash rest))
          ∙ ap parts_go_out (sym (split-prefix namespace_skills rest (omega arith))))

  domains_agree : Agree namespace_domains
  unfolding goes_out dht_validator ◌==◌
  domains_agree =
      let (_, domain, _, _) =
        validate-build cid_decodes rest cid peer_id cid_lacks peer_lacks cid_ne peer_id_ne cid_ok
          peer_ok in
      put_in namespace_domains (λ e. cc) (omega arith)
      ∙ (ap is_ok domain
          ∙ ap parts_go_out (sym (split-prefix namespace_domains rest (omega arith))))

  features_agree : Agree namespace_features
  unfolding goes_out dht_validator ◌==◌
  features_agree =
      let (_, _, feature, _) =
        validate-build cid_decodes rest cid peer_id cid_lacks peer_lacks cid_ne peer_id_ne cid_ok
          peer_ok in
      put_in namespace_features (λ e. cc) (omega arith)
      ∙ (ap is_ok feature
          ∙ ap parts_go_out (sym (split-prefix namespace_features rest (omega arith))))

  locators_agree : Agree namespace_locators
  unfolding goes_out dht_validator ◌==◌
  locators_agree =
      put_in namespace_locators (λ e. cc) (omega arith)
      ∙ ap parts_go_out (sym (split-prefix namespace_locators rest (omega arith)))

  namespaces_agree : (ns : NamespaceType) → In ns all_namespaces → Agree ns
  unfolding all_namespaces
  namespaces_agree ns known = elim known [
    | inl same ↦ subst Agree (sym same) skills_agree
    | inr later ↦ elim later [
      | inl same ↦ subst Agree (sym same) domains_agree
      | inr later' ↦ elim later' [
        | inl same ↦ subst Agree (sym same) features_agree
        | inr last ↦ elim last [
          | inl same ↦ subst Agree (sym same) locators_agree
          | inr none_left ↦ absurd none_left
        ]
      ]
    ]
  ]

-- The DHT takes the announcement of a label exactly when it goes out.
pub valid_put-goes_out :
    (namespace_of : GoString → Option NamespaceType)
    → IsNamespaceOf namespace_of
    → (cid_decodes : GoString → Bool) (label cid peer_id : GoString) → HasNamespace label
    → Lacks slash cid
    → Lacks slash peer_id
    → cid ≢ []
    → peer_id ≢ []
    → cid_decodes cid ≡ true
    → cid_decodes peer_id ≡ false
    → valid_put namespace_of cid_decodes (build_enhanced_label_key label cid peer_id) cid
      ≡ goes_out label
valid_put-goes_out namespace_of reads cid_decodes label cid peer_id spaced hc hp full named good
      bad =
    subst
      (λ l.
        valid_put namespace_of cid_decodes (build_enhanced_label_key l cid peer_id) cid
        ≡ goes_out l)
      (sym spaced.form)
      (namespaces_agree namespace_of reads cid_decodes spaced.rest cid peer_id hc hp full named good
        bad spaced.ns spaced.known)
