-- ===== src/Labels/Namespace.antt =====
-- The label namespaces (server/routing/validators/constants.go). `NamespaceType` is a string type.
use agntcy_dir.Base.{ℕ, Bool, true, false, ◌||◌, List, [], ◌∷◌, ◌++◌, if◌then◌else◌, any}
use agntcy_dir.Base.Text.{GoString, lit, ◌==◌, has_prefix}

abbrev pub NamespaceType : Type 0
NamespaceType = GoString

abbrev pub slash : ℕ
slash = b'/'

abbrev pub namespace_skills : NamespaceType
namespace_skills = lit "skills"

abbrev pub namespace_domains : NamespaceType
namespace_domains = lit "domains"

abbrev pub namespace_features : NamespaceType
namespace_features = lit "features"

abbrev pub namespace_locators : NamespaceType
namespace_locators = lit "locators"

-- MinLabelKeyParts
abbrev pub min_label_key_parts : ℕ
min_label_key_parts = 5

abbrev pub domain_schema_prefix : GoString
domain_schema_prefix = lit "schema.oasf.agntcy.org/domains/"

abbrev pub features_schema_prefix : GoString
features_schema_prefix = lit "schema.oasf.agntcy.org/features/"

-- NamespaceType.Prefix
unfoldable pub prefix : NamespaceType → GoString
prefix n = slash ∷ (n ++ slash ∷ [])

-- NamespaceType.IsValid
unfoldable pub is_valid : NamespaceType → Bool
is_valid n =
    n == namespace_skills
    || n == namespace_domains
    || n == namespace_features
    || n == namespace_locators

unfoldable pub parse_namespace : GoString → NamespaceType × Bool
parse_namespace s = if is_valid s then (s, true) else ([], false)

unfoldable pub all_namespaces : List NamespaceType
all_namespaces = namespace_skills ∷ namespace_domains ∷ namespace_features ∷ namespace_locators ∷ []

unfoldable pub is_valid_namespace_key : GoString → Bool
unfolding all_namespaces
is_valid_namespace_key key = any (λ ns. has_prefix key (prefix ns)) all_namespaces

-- The loop of GetNamespaceFromKey.
find_namespace : GoString → List NamespaceType → NamespaceType × Bool
find_namespace key [] = ([], false)
find_namespace key (ns ∷ rest) =
    if has_prefix key (prefix ns) then (ns, true) else find_namespace key rest

unfoldable pub get_namespace_from_key : GoString → NamespaceType × Bool
unfolding all_namespaces find_namespace
get_namespace_from_key key = find_namespace key all_namespaces
