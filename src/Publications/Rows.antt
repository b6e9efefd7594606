-- ===== src/Publications/Rows.antt =====
-- The rows of the publication service (server/database/sqlite/publication.go). The calls of gorm are an
-- interface; the request is what its JSON decodes to, and `none` where it does not. Times are left out.
use agntcy_dir.Base.{◌≡◌, Option, some, List, if◌then◌else◌, arith}
use agntcy_dir.Base.Text.{GoString, ◌==◌, eq_iff}
use agntcy_dir.Base.Result.{Result, ok, err}
use agntcy_dir.Base.Action.{Action, ◌>>=◌, reads}

pub data PublicationStatus : Type 0 where
  unspecified pending in_progress completed failed : PublicationStatus

pub data PublishRequest (Query : Type 0) : Type 0 where
  record_refs : List GoString → PublishRequest Query
  queries : List Query → PublishRequest Query
  missing : PublishRequest Query

pub record Publication (Query : Type 0) : Type 0 where
  pub id : GoString
  pub request : Option (PublishRequest Query)
  pub status : PublicationStatus

abbrev pub with_publication_status :
    {Query : Type 0} → PublicationStatus → Publication Query → Publication Query
with_publication_status status p = record { id = p.id; request = p.request; status = status }

-- Create, First by ID, Find by status and Save.
pub record PublicationTable (Query Fault : Type 0) : Type 1 where
  pub State : Type 0
  pub create : Publication Query → Action State Fault (Unit {0})
  pub first : GoString → State → Result Fault (Publication Query)
  pub find : PublicationStatus → State → Result Fault (List (Publication Query))
  pub save : Publication Query → Action State Fault (Unit {0})

-- What a table that does not fail promises: Save replaces the row with the ID.
pub record IsReliableTable {Query Fault : Type 0} (table : PublicationTable Query Fault)
    : Type 0 where
  pub row : table.State → GoString → Option (Publication Query)
  pub first_lem :
      (id : GoString) (p : Publication Query) (s : table.State)
      → row s id ≡ some p
      → table.first id s ≡ ok p
  pub row_id :
      (id : GoString) (p : Publication Query) (s : table.State) → row s id ≡ some p → p.id ≡ id
  pub save_lem :
      (p : Publication Query) (s : table.State) (id : GoString)
      → row (table.save p s).1 id ≡ (if p.id == id then some p else row s id)

module _ {Query Fault : Type 0} (table : PublicationTable Query Fault) where
  abbrev created_publication : GoString → Result Fault (Unit {0}) → Result Fault GoString
  created_publication id (ok _) = ok id
  created_publication id (err e) = err e

  -- DB.CreatePublication; uuid.NewString enters as `id`, and the request encodes.
  unfoldable pub create_publication :
      GoString → PublishRequest Query → Action table.State Fault GoString
  create_publication id request s =
      let (r, s') = table.create (record { id = id; request = some request; status = pending }) s in
      (created_publication id r, s')

  -- DB.UpdatePublicationStatus
  unfoldable pub update_publication_status :
      GoString → PublicationStatus → Action table.State Fault (Unit {0})
  update_publication_status id status =
      reads (table.first id) >>= λ p. table.save (with_publication_status status p)

  module _ (rel : IsReliableTable table) where
    pub updated_row :
        (id : GoString) (status : PublicationStatus) (p : Publication Query) (s : table.State)
        → rel.row s id ≡ some p
        → rel.row (update_publication_status id status s).1 id
          ≡ some (with_publication_status status p)
    unfolding update_publication_status
    updated_row id status p s there = rw (rel.first_lem id p s there) (
        rw (rel.save_lem (with_publication_status status p) s id)
          (ground (arith, eq_iff p.id id, rel.row_id id p s there)))
