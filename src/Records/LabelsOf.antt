-- ===== src/Records/LabelsOf.antt =====
-- The labels of a record (`getLabels` of server/routing/routing_local.go).
use agntcy_dir.Base.{none, some, List, [], ◌∷◌, ◌++◌, length, drop, if◌then◌else◌}
use agntcy_dir.Base.Text.{GoString, has_prefix}
use agntcy_dir.Labels.Namespace.{
  prefix, namespace_skills, namespace_domains, namespace_features, namespace_locators,
  domain_schema_prefix, features_schema_prefix,
}
use agntcy_dir.Records.View.{RecordData, Skill, Extension, Locator}
use agntcy_dir.Records.Adapter.{Record, get_record_data}

unfoldable pub skill_labels : List Skill → List GoString
skill_labels [] = []
skill_labels (s ∷ skills) = (prefix namespace_skills ++ s.name) ∷ skill_labels skills

-- The labels of the extensions whose name starts with a schema prefix.
unfoldable pub extension_labels : GoString → GoString → List Extension → List GoString
extension_labels schema ns [] = []
extension_labels schema ns (e ∷ extensions) =
    let rest = extension_labels schema ns extensions in
    if has_prefix e.name schema then (prefix ns ++ drop (length schema) e.name) ∷ rest else rest

unfoldable pub locator_labels : List Locator → List GoString
locator_labels [] = []
locator_labels (l ∷ locators) = (prefix namespace_locators ++ l.type) ∷ locator_labels locators

unfoldable pub labels_of_data : RecordData → List GoString
labels_of_data d =
    skill_labels d.skills
    ++ (extension_labels domain_schema_prefix namespace_domains d.extensions
        ++ (extension_labels features_schema_prefix namespace_features d.extensions
            ++ locator_labels d.locators))

-- A record without data has no labels.
unfoldable pub get_labels : Record → List GoString
get_labels r = elim (get_record_data r) [ none ↦ [] | some d ↦ labels_of_data d ]
