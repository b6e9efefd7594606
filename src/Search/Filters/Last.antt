-- ===== src/Search/Filters/Last.antt =====
-- Of several queries for a name, a version or a skill name, the filters keep the last.
use agntcy_dir.Base.{
  ◌≡◌, refl, subst, ap, ◌∙◌, Bool, true, false, Bool-cases, inl, inr, Option, none, some, List, [],
  ◌∷◌, ◌++◌, if◌then◌else◌,
}
use agntcy_dir.Base.Text.{GoString}
use agntcy_dir.Base.Result.{Result, ok, >>=-eq-ok}
use agntcy_dir.Search.Filters.{
  RecordFilters, no_filters, FilterOption, with_locator_types, with_locator_urls,
  with_extension_names, with_extension_versions, with_skill_ids, apply_option, apply_options,
  RecordQueryType, unspecified, name, version, skill_id, skill_name, locator, extension, unknown,
  RecordQuery, parse_uint, skill_id_option, split_colon, is_blank, unless_blank, locator_options,
  extension_options, query_options, query_to_filters,
}

-- The value of the last query of a type.
abbrev pub is_name : RecordQueryType → Bool
is_name name = true
is_name _ = false

abbrev pub is_version : RecordQueryType → Bool
is_version version = true
is_version _ = false

abbrev pub is_skill_name : RecordQueryType → Bool
is_skill_name skill_name = true
is_skill_name _ = false

abbrev pub or_else : Option GoString → Option GoString → Option GoString
or_else (some v) other = some v
or_else none other = other

pub last_value : (RecordQueryType → Bool) → List RecordQuery → Option GoString
last_value is [] = none
last_value is (q ∷ queries) =
    or_else (last_value is queries) (if is q.type then some q.value else none)

abbrev pub text_of : GoString → Option GoString → GoString
text_of old none = old
text_of old (some v) = v

abbrev pub names_of : List GoString → Option GoString → List GoString
names_of old none = old
names_of old (some v) = v ∷ []

-- A step from `f` to `g` that sets the name, the version or the skill names as the query says.
abbrev Sets : RecordQueryType → GoString → RecordFilters → RecordFilters → Type 0
Sets type value f g =
    (g.name ≡ (if is_name type then value else f.name))
    × (g.version ≡ (if is_version type then value else f.version))
    × (g.skill_names ≡ (if is_skill_name type then value ∷ [] else f.skill_names))

apply_options-append :
    (a b : List FilterOption) (f : RecordFilters)
    → apply_options (a ++ b) f ≡ apply_options b (apply_options a f)
unfolding apply_options
apply_options-append [] b f = refl
apply_options-append (o ∷ a) b f = apply_options-append a b (apply_option o f)

abbrev Keeps : RecordFilters → RecordFilters → Type 0
Keeps f g = (g.name ≡ f.name) × (g.version ≡ f.version) × (g.skill_names ≡ f.skill_names)

unless_blank-Keeps :
    (text : GoString) (o : FilterOption) (f : RecordFilters)
    → Keeps f (apply_option o f)
    → Keeps f (apply_options (unless_blank text o) f)
unfolding apply_options
unless_blank-Keeps text o f keeps = elim (Bool-cases (is_blank text)) [
  | inl blank ↦ rw blank (refl, refl, refl)
  | inr full ↦ rw full keeps
]

both-Keeps :
    (a b : List FilterOption) (f : RecordFilters)
    → Keeps f (apply_options a f)
    → Keeps (apply_options a f) (apply_options b (apply_options a f))
    → Keeps f (apply_options (a ++ b) f)
both-Keeps a b f (n, v, s) (n', v', s') = rw (apply_options-append a b f) (n' ∙ n, v' ∙ v, s' ∙ s)

locator_options-Keeps :
    (p : GoString × Option GoString) (f : RecordFilters)
    → Keeps f (apply_options (locator_options p) f)
unfolding locator_options apply_option
locator_options-Keeps (before, none) f = unless_blank-Keeps before _ f (refl, refl, refl)
locator_options-Keeps (before, some after) f =
    both-Keeps (unless_blank before (with_locator_types (before ∷ [])))
      (unless_blank after (with_locator_urls (after ∷ []))) f
      (unless_blank-Keeps before _ f (refl, refl, refl))
      (unless_blank-Keeps after _ _ (refl, refl, refl))

extension_options-Keeps :
    (p : GoString × Option GoString) (f : RecordFilters)
    → Keeps f (apply_options (extension_options p) f)
unfolding extension_options apply_option
extension_options-Keeps (before, none) f = unless_blank-Keeps before _ f (refl, refl, refl)
extension_options-Keeps (before, some after) f =
    both-Keeps (unless_blank before (with_extension_names (before ∷ [])))
      (unless_blank after (with_extension_versions (after ∷ []))) f
      (unless_blank-Keeps before _ f (refl, refl, refl))
      (unless_blank-Keeps after _ _ (refl, refl, refl))

skill_id_option-Keeps :
    (text : GoString) (o : Option _) (options : List FilterOption) (f : RecordFilters)
    → skill_id_option text o ≡ ok options
    → Keeps f (apply_options options f)
unfolding apply_options apply_option
skill_id_option-Keeps text none options f got = absurd (cc)
skill_id_option-Keeps text (some n) options f got =
    let same : with_skill_ids (n ∷ []) ∷ [] ≡ options = cc in
    subst (λ os. Keeps f (apply_options os f)) same (refl, refl, refl)

set_by :
    (type : RecordQueryType) (value : GoString) (f : RecordFilters)
    (made options : List FilterOption)
    → ◌≡◌ {A = Result GoString (List FilterOption)} (ok made) (ok options)
    → Sets type value f (apply_options made f)
    → Sets type value f (apply_options options f)
set_by type value f made options got sets =
    let same : made ≡ options = cc in subst (λ os. Sets type value f (apply_options os f)) same sets

query_options-Sets :
    (type : RecordQueryType) (value : GoString) (options : List FilterOption) (f : RecordFilters)
    → query_options type value ≡ ok options
    → Sets type value f (apply_options options f)
unfolding query_options apply_options apply_option
query_options-Sets unspecified value options f got =
    set_by unspecified value f [] options got (refl, refl, refl)
query_options-Sets name value options f got = set_by name value f _ options got (refl, refl, refl)
query_options-Sets version value options f got =
    set_by version value f _ options got (refl, refl, refl)
query_options-Sets skill_id value options f got =
    skill_id_option-Keeps value (parse_uint value) options f got
query_options-Sets skill_name value options f got =
    set_by skill_name value f _ options got (refl, refl, refl)
query_options-Sets locator value options f got =
    set_by locator value f _ options got (locator_options-Keeps (split_colon value) f)
query_options-Sets extension value options f got =
    set_by extension value f _ options got (extension_options-Keeps (split_colon value) f)
query_options-Sets (unknown n) value options f got =
    set_by (unknown n) value f [] options got (refl, refl, refl)

text_step :
    (b : Bool) (value old : GoString) (later : Option GoString)
    → text_of (if b then value else old) later
      ≡ text_of old (or_else later (if b then some value else none))
text_step true value old none = refl
text_step true value old (some v) = refl
text_step false value old none = refl
text_step false value old (some v) = refl

names_step :
    (b : Bool) (value : GoString) (old : List GoString) (later : Option GoString)
    → names_of (if b then value ∷ [] else old) later
      ≡ names_of old (or_else later (if b then some value else none))
names_step true value old none = refl
names_step true value old (some v) = refl
names_step false value old none = refl
names_step false value old (some v) = refl

last_from :
    (queries : List RecordQuery) (options : List FilterOption) (f : RecordFilters)
    → query_to_filters queries ≡ ok options
    → let g = apply_options options f in
      (g.name ≡ text_of f.name (last_value is_name queries))
      × (g.version ≡ text_of f.version (last_value is_version queries))
      × (g.skill_names ≡ names_of f.skill_names (last_value is_skill_name queries))
unfolding query_to_filters last_value apply_options
last_from [] options f got =
    let same : [] ≡ options = cc in
    subst
      (λ os.
        ((apply_options os f).name ≡ f.name)
        × ((apply_options os f).version ≡ f.version)
        × ((apply_options os f).skill_names ≡ f.skill_names))
      same (refl, refl, refl)
last_from (q ∷ queries) options f got =
    let (first, made, got') = >>=-eq-ok (query_options q.type q.value) _ got in
    let (rest, more, joined) = >>=-eq-ok (query_to_filters queries) _ got' in
    let same : first ++ rest ≡ options = cc in
    let (n, v, s) = query_options-Sets q.type q.value first f made in
    let (n', v', s') = last_from queries rest (apply_options first f) more in
    rw (← same, apply_options-append first rest f)
      (
        n'
            ∙ (ap (λ t. text_of t (last_value is_name queries)) n
                ∙ text_step (is_name q.type) q.value f.name (last_value is_name queries)),
        v'
            ∙ (ap (λ t. text_of t (last_value is_version queries)) v
                ∙ text_step (is_version q.type) q.value f.version (last_value is_version queries)),
        s'
            ∙ (ap (λ t. names_of t (last_value is_skill_name queries)) s
                ∙ names_step (is_skill_name q.type) q.value f.skill_names
                    (last_value is_skill_name queries)),
      )

-- Where the queries convert, the filters have the name and the version of the last query of that type,
-- and as their skill names only that of the last such query; without a query of that type, the filters
-- have none.
pub query_to_filters_last :
    (queries : List RecordQuery) (options : List FilterOption)
    → query_to_filters queries ≡ ok options
    → let filters = apply_options options no_filters in
      (filters.name ≡ text_of [] (last_value is_name queries))
      × (filters.version ≡ text_of [] (last_value is_version queries))
      × (filters.skill_names ≡ names_of [] (last_value is_skill_name queries))
query_to_filters_last queries options got = last_from queries options no_filters got
