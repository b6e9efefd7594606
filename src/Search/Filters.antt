-- ===== src/Search/Filters.antt =====
-- Search queries as filters of the database (server/database/utils/utils.go and server/types/search.go). A
-- filter option is a constructor for each function that sets a field.
pub mod Last
use agntcy_dir.Base.{
  ℕ, zero, suc, ◌+◌, ◌-◌, ◌*◌, ◌^◌, ◌≡◌, subst, refl, sym, ap, ◌∙◌, Bool, true, false, ◌&&◌, ◌||◌,
  not, Bool-cases, inl, inr, Option, none, some, List, [], ◌∷◌, ◌++◌, all, ltb, leb, eqb, arith,
  if◌then◌else◌, any, map,
}
use agntcy_dir.Base.Text.{GoString, ◌==◌, has_prefix}
use agntcy_dir.Base.Result.{Result, ok, err, >>=-eq-ok, ◌>>=◌}

pub record RecordFilters : Type 0 where
  pub limit : ℕ
  pub offset : ℕ
  pub name : GoString
  pub version : GoString
  pub skill_ids : List ℕ
  pub skill_names : List GoString
  pub locator_types : List GoString
  pub locator_urls : List GoString
  pub extension_names : List GoString
  pub extension_versions : List GoString

abbrev pub no_filters : RecordFilters
no_filters = record {
  limit = 0;
  offset = 0;
  name = [];
  version = [];
  skill_ids = [];
  skill_names = [];
  locator_types = [];
  locator_urls = [];
  extension_names = [];
  extension_versions = [];
}

pub data FilterOption : Type 0 where
  with_limit with_offset : ℕ → FilterOption
  with_name with_version : GoString → FilterOption
  with_skill_ids : List ℕ → FilterOption
  with_skill_names with_locator_types with_locator_urls : List GoString → FilterOption
  with_extension_names with_extension_versions : List GoString → FilterOption

unfoldable pub apply_option : FilterOption → RecordFilters → RecordFilters
apply_option (with_limit n) f = record f { limit = n }
apply_option (with_offset n) f = record f { offset = n }
apply_option (with_name s) f = record f { name = s }
apply_option (with_version s) f = record f { version = s }
apply_option (with_skill_ids l) f = record f { skill_ids = l }
apply_option (with_skill_names l) f = record f { skill_names = l }
apply_option (with_locator_types l) f = record f { locator_types = l }
apply_option (with_locator_urls l) f = record f { locator_urls = l }
apply_option (with_extension_names l) f = record f { extension_names = l }
apply_option (with_extension_versions l) f = record f { extension_versions = l }

-- The loop of GetRecords and GetRecordCIDs over the options.
unfoldable pub apply_options : List FilterOption → RecordFilters → RecordFilters
apply_options [] f = f
apply_options (o ∷ options) f = apply_options options (apply_option o f)

pub data RecordQueryType : Type 0 where
  unspecified name version skill_id skill_name locator extension : RecordQueryType
  unknown : ℕ → RecordQueryType

pub record RecordQuery : Type 0 where
  pub type : RecordQueryType
  pub value : GoString

-- strconv.ParseUint in base 10 and 64 bits
abbrev pub is_digit : ℕ → Bool
is_digit c = leb b'0' c && leb c b'9'

abbrev pub in_range : ℕ → Option ℕ
in_range n = if ltb n (2 ^ 64) then some n else none

unfoldable pub decimal : GoString → ℕ → ℕ
decimal [] n = n
decimal (c ∷ s) n = decimal s (n * 10 + (c - b'0'))

unfoldable pub parse_uint : GoString → Option ℕ
parse_uint [] = none
parse_uint (c ∷ s) = if all is_digit (c ∷ s) then in_range (decimal (c ∷ s) 0) else none

-- strings.SplitN(value, ":", 2): the part before the first colon, and the part after it if there is one.
abbrev pub with_first : ℕ → GoString × Option GoString → GoString × Option GoString
with_first c (before, after) = (c ∷ before, after)

unfoldable pub split_colon : GoString → GoString × Option GoString
split_colon [] = ([], none)
split_colon (c ∷ s) =
    let rest = split_colon s in if eqb c b':' then ([], some s) else with_first c rest

-- strings.TrimSpace(s) == ""
abbrev pub is_space : ℕ → Bool
is_space c = eqb c 32 || (leb 9 c && leb c 13)

-- The spaces of unicode.IsSpace with two and with three bytes in UTF-8.
abbrev pub wide_spaces : List GoString
wide_spaces = (194 ∷ 133 ∷ []) ∷ (194 ∷ 160 ∷ []) ∷ []

abbrev pub wider_spaces : List GoString
wider_spaces =
    (225 ∷ 154 ∷ 128 ∷ [])
    ∷ (226 ∷ 129 ∷ 159 ∷ [])
    ∷ (227 ∷ 128 ∷ 128 ∷ [])
    ∷ map (λ c. 226 ∷ 128 ∷ c ∷ [])
        (128 ∷ 129 ∷ 130 ∷ 131 ∷ 132 ∷ 133 ∷ 134 ∷ 135 ∷ 136 ∷ 137 ∷ 138 ∷ 168 ∷ 169 ∷ 175 ∷ [])

-- The number of bytes of the space that a text begins with; none is 0.
unfoldable pub space_width : ℕ → GoString → ℕ
space_width c s =
    if is_space c
    then 1
    else if any (has_prefix (c ∷ s)) wide_spaces
    then 2
    else if any (has_prefix (c ∷ s)) wider_spaces
    then 3
    else 0

-- `skip` bytes of the space before are still to be passed over.
unfoldable pub blank_after : ℕ → GoString → Bool
blank_after skip [] = true
blank_after (suc skip) (c ∷ s) = blank_after skip s
blank_after zero (c ∷ s) =
    let width = space_width c s in let rest = blank_after (width - 1) s in ltb 0 width && rest

abbrev pub is_blank : GoString → Bool
is_blank s = blank_after 0 s

abbrev pub unless_blank : GoString → FilterOption → List FilterOption
unless_blank s option = if is_blank s then [] else option ∷ []

unfoldable pub locator_options : GoString × Option GoString → List FilterOption
locator_options (before, none) = unless_blank before (with_locator_types (before ∷ []))
locator_options (before, some after) =
    unless_blank before (with_locator_types (before ∷ []))
    ++ unless_blank after (with_locator_urls (after ∷ []))

unfoldable pub extension_options : GoString × Option GoString → List FilterOption
extension_options (before, none) = unless_blank before (with_extension_names (before ∷ []))
extension_options (before, some after) =
    unless_blank before (with_extension_names (before ∷ []))
    ++ unless_blank after (with_extension_versions (after ∷ []))

abbrev pub skill_id_option : GoString → Option ℕ → Result GoString (List FilterOption)
skill_id_option text none = err text
skill_id_option text (some n) = ok (with_skill_ids (n ∷ []) ∷ [])

-- One round of the loop of QueryToFilters; the error carries the text that is no skill ID.
unfoldable pub query_options : RecordQueryType → GoString → Result GoString (List FilterOption)
query_options unspecified value = ok []
query_options name value = ok (with_name value ∷ [])
query_options version value = ok (with_version value ∷ [])
query_options skill_id value = skill_id_option value (parse_uint value)
query_options skill_name value = ok (with_skill_names (value ∷ []) ∷ [])
query_options locator value = ok (locator_options (split_colon value))
query_options extension value = ok (extension_options (split_colon value))
query_options (unknown n) value = ok []

unfoldable pub query_to_filters : List RecordQuery → Result GoString (List FilterOption)
query_to_filters [] = ok []
query_to_filters (q ∷ queries) = do
  options ← query_options q.type q.value
  rest ← query_to_filters queries
  ok (options ++ rest)
