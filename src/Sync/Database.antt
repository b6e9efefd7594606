-- ===== src/Sync/Database.antt =====
-- The rows of the sync service and their statuses (server/database/sqlite/sync.go). The calls of gorm
-- are an interface; a look-up that finds no row is an error.
use agntcy_dir.Base.{◌≡◌, Option, some, List, [], if◌then◌else◌}
use agntcy_dir.Base.Text.{GoString, ◌==◌}
use agntcy_dir.Base.Result.{Result, ok, err}
use agntcy_dir.Base.Action.{Action, ◌>>=◌, reads}

pub data SyncStatus : Type 0 where
  unspecified pending in_progress failed delete_pending deleted : SyncStatus

pub record Sync : Type 0 where
  pub id : GoString
  pub remote_directory_url : GoString
  pub remote_registry_url : GoString
  pub status : SyncStatus

abbrev pub with_status : SyncStatus → Sync → Sync
with_status status sync = record {
  id = sync.id;
  remote_directory_url = sync.remote_directory_url;
  remote_registry_url = sync.remote_registry_url;
  status = status;
}

abbrev pub with_registry : GoString → Sync → Sync
with_registry url sync = record {
  id = sync.id;
  remote_directory_url = sync.remote_directory_url;
  remote_registry_url = url;
  status = sync.status;
}

-- Create, First by ID, Find by status and Save.
pub record SyncTable (Fault : Type 0) : Type 1 where
  pub State : Type 0
  pub create : Sync → Action State Fault (Unit {0})
  pub first : GoString → State → Result Fault Sync
  pub find : SyncStatus → State → Result Fault (List Sync)
  pub save : Sync → Action State Fault (Unit {0})

-- What a table that does not fail promises: Save replaces the row with the ID.
pub record IsReliableTable {Fault : Type 0} (table : SyncTable Fault) : Type 0 where
  pub row : table.State → GoString → Option Sync
  pub first_lem :
      (id : GoString) (sync : Sync) (s : table.State)
      → row s id ≡ some sync
      → table.first id s ≡ ok sync
  pub row_id : (id : GoString) (sync : Sync) (s : table.State) → row s id ≡ some sync → sync.id ≡ id
  pub save_ok : (sync : Sync) (s : table.State) → (table.save sync s).0 ≡ ok tt
  pub save_lem :
      (sync : Sync) (s : table.State) (id : GoString)
      → row (table.save sync s).1 id ≡ (if sync.id == id then some sync else row s id)

module _ {Fault : Type 0} (table : SyncTable Fault) where
  abbrev created : GoString → Result Fault (Unit {0}) → Result Fault GoString
  created id (ok _) = ok id
  created id (err e) = err e

  -- DB.CreateSync; uuid.NewString enters as `id`.
  unfoldable pub create_sync : GoString → GoString → Action table.State Fault GoString
  create_sync id remote_url s =
      let (r, s') =
        table.create
          (record {
            id = id;
            remote_directory_url = remote_url;
            remote_registry_url = [];
            status = pending;
          })
          s in
      (created id r, s')

  -- DB.UpdateSyncStatus and DB.UpdateSyncRemoteRegistry
  unfoldable pub update_sync_status : GoString → SyncStatus → Action table.State Fault (Unit {0})
  update_sync_status id status =
      reads (table.first id) >>= λ sync. table.save (with_status status sync)

  unfoldable pub update_sync_remote_registry :
      GoString → GoString → Action table.State Fault (Unit {0})
  update_sync_remote_registry id url =
      reads (table.first id) >>= λ sync. table.save (with_registry url sync)

  -- DB.GetSyncRemoteRegistry
  unfoldable pub get_sync_remote_registry : GoString → table.State → Result Fault GoString
  get_sync_remote_registry id s = elim (table.first id s) [
    | ok sync ↦ ok sync.remote_registry_url
    | err e ↦ err e
  ]
