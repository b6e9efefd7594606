-- ===== src/Examples/Publications.antt =====
-- Publications in a table that is a function from IDs, whose records are texts.
use agntcy_dir.Base.{
  ◌≡◌, ◌⊎◌, refl, Bool-cases, inl, inr, Option, none, some, List, [], ◌∷◌, arith, if◌then◌else◌,
}
use agntcy_dir.Base.Text.{GoString, lit, ◌==◌, eq_iff}
use agntcy_dir.Base.Result.{Result, ok, err}
use agntcy_dir.Routing.Datastore.{StoreError, not_found}
use agntcy_dir.Publications.Rows.{
  Publication, PublicationTable, IsReliableTable, record_refs, pending, completed, failed,
  with_publication_status,
}
use agntcy_dir.Publications.Worker.{
  Router, IsAnnounced, process_publication, process_publication_status,
}
use agntcy_dir.Search.Filters.{
  RecordQuery, name, skill_name, FilterOption, with_name, with_skill_names, no_filters,
  query_options, query_to_filters, apply_options,
}
use agntcy_dir.Search.Filters.Last.{
  is_name, is_version, is_skill_name, last_value, text_of, names_of, query_to_filters_last,
}
use agntcy_dir.Examples.Cache.{source}

abbrev Row : Type 0
Row = Publication RecordQuery

abbrev one : Row
one = record { id = lit "p"; request = some (record_refs (lit "a" ∷ [])); status = pending }

-- The rows under other IDs than their own are not read.
abbrev own_row : GoString → Option Row → Option Row
own_row id none = none
own_row id (some p) = if p.id == id then some p else none

abbrev row_or_missing : Option Row → Result StoreError Row
row_or_missing none = err not_found
row_or_missing (some p) = ok p

abbrev table : PublicationTable RecordQuery StoreError
table = record {
  State = GoString → Option Row;
  create = λ p s. (ok tt, λ id. if p.id == id then some p else s id);
  first = λ id s. row_or_missing (own_row id (s id));
  find = λ status s. ok (one ∷ []);
  save = λ p s. (ok tt, λ id. if p.id == id then some p else s id);
}

own_row_id : (id : GoString) (o : Option Row) (p : Row) → own_row id o ≡ some p → p.id ≡ id
own_row_id id none p h = cc
own_row_id id (some x) p h = ground (arith, eq_iff x.id id)

own_row_save :
    (p : Row) (o : Option Row) (id : GoString)
    → own_row id (if p.id == id then some p else o) ≡ (if p.id == id then some p else own_row id o)
own_row_save p o id = elim (Bool-cases (p.id == id)) [
  | inl same ↦ rw same (rw same)
  | inr other ↦ rw other
]

read_row : (o : Option Row) (p : Row) → o ≡ some p → row_or_missing o ≡ ok p
read_row o p h = rw h

abbrev table-IsReliableTable : IsReliableTable table
table-IsReliableTable = record {
  row = λ s id. own_row id (s id);
  first_lem = λ id p s h. read_row (own_row id (s id)) p h;
  row_id = λ id p s h. own_row_id id (s id) p h;
  save_lem = λ p s id. own_row_save p (s id) id;
}

abbrev rows : GoString → Option Row
rows id = some one

one_held : own_row (lit "p") (rows (lit "p")) ≡ some one
unfolding ◌==◌
one_held = refl

abbrev router : Router GoString StoreError
router = record { State = Unit {0}; publish = λ cid r n. (ok tt, n) }

abbrev cids : List RecordQuery → Result StoreError (List GoString)
cids qs = err not_found

process_publication_status_example :
    let s' =
      (process_publication table source router cids (lit "p") (rows, (lit "a" ∷ [], tt))).0 in
    ((own_row (lit "p") (s' (lit "p")) ≡ some (with_publication_status completed one))
      × IsAnnounced table source router cids one.request (lit "a" ∷ [], tt))
    ⊎ ((own_row (lit "p") (s' (lit "p")) ≡ some (with_publication_status failed one))
        × (IsAnnounced table source router cids one.request (lit "a" ∷ [], tt) → ⊥))
process_publication_status_example =
    process_publication_status table source router cids table-IsReliableTable (lit "p") one rows
      (lit "a" ∷ [], tt) one_held

-- Two skills are asked for, and one is searched.
abbrev asked : List RecordQuery
asked =
    record { type = skill_name; value = lit "a" }
    ∷ record { type = name; value = lit "n" }
    ∷ record { type = skill_name; value = lit "b" }
    ∷ []

abbrev made : List FilterOption
made = with_skill_names (lit "a" ∷ []) ∷ with_name (lit "n") ∷ with_skill_names (lit "b" ∷ []) ∷ []

converted : query_to_filters asked ≡ ok made
unfolding query_to_filters query_options
converted = refl

query_to_filters_last_example :
    let filters = apply_options made no_filters in
    (filters.name ≡ text_of [] (last_value is_name asked))
    × (filters.version ≡ text_of [] (last_value is_version asked))
    × (filters.skill_names ≡ names_of [] (last_value is_skill_name asked))
query_to_filters_last_example = query_to_filters_last asked made converted
