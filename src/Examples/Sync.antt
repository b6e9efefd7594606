-- ===== src/Examples/Sync.antt =====
-- A table with one row, as a function from IDs, and a configuration file.
use agntcy_dir.Base.{
  ◌≡◌, refl, Option, none, some, List, [], ◌∷◌, ◌++◌, arith, ltb, if◌then◌else◌, Bool-cases, inl,
  inr,
}
use agntcy_dir.Base.Text.{GoString, lit, ◌==◌, eq_iff}
use agntcy_dir.Base.Result.{Result, ok, err}
use agntcy_dir.Sync.Database.{
  Sync, SyncTable, IsReliableTable, pending, in_progress, delete_pending, with_status,
}
use agntcy_dir.Sync.Scheduler.{
  WorkItem, sync_create, item_for, schedule_creation, schedule_creation_effect,
}
use agntcy_dir.Sync.Worker.{Monitor, process_work_item, process_work_item_status, Ended}
use agntcy_dir.Examples.Zot.{file, every, config}

abbrev Rows : Type 0
Rows = GoString → Option Sync

abbrev row_or_missing : Option Sync → Result (Unit {0}) Sync
row_or_missing none = err tt
row_or_missing (some sync) = ok sync

abbrev one : Sync
one = record {
  id = lit "a";
  remote_directory_url = lit "host:1";
  remote_registry_url = [];
  status = delete_pending;
}

-- The rows under other IDs than their own are not read.
abbrev own_row : GoString → Option Sync → Option Sync
own_row id none = none
own_row id (some sync) = if sync.id == id then some sync else none

abbrev table : SyncTable (Unit {0})
table = record {
  State = Rows;
  create = λ sync s. (ok tt, λ id. if sync.id == id then some sync else s id);
  first = λ id s. row_or_missing (own_row id (s id));
  find = λ status s. ok (one ∷ []);
  save = λ sync s. (ok tt, λ id. if sync.id == id then some sync else s id);
}

abbrev rows : Rows
rows id = some one

own_row_id :
    (id : GoString) (o : Option Sync) (sync : Sync) → own_row id o ≡ some sync → sync.id ≡ id
own_row_id id none sync h = cc
own_row_id id (some x) sync h = ground (arith, eq_iff x.id id)

own_row_save :
    (sync : Sync) (o : Option Sync) (id : GoString)
    → own_row id (if sync.id == id then some sync else o)
      ≡ (if sync.id == id then some sync else own_row id o)
own_row_save sync o id = elim (Bool-cases (sync.id == id)) [
  | inl same ↦ rw same (rw same)
  | inr other ↦ rw other
]

read_row : (o : Option Sync) (sync : Sync) → o ≡ some sync → row_or_missing o ≡ ok sync
read_row o sync h = rw h

abbrev table-IsReliableTable : IsReliableTable table
table-IsReliableTable = record {
  row = λ s id. own_row id (s id);
  first_lem = λ id sync s h. read_row (own_row id (s id)) sync h;
  row_id = λ id sync s h. own_row_id id (s id) sync h;
  save_ok = λ sync s. refl;
  save_lem = λ sync s id. own_row_save sync (s id) id;
}

own_one : own_row one.id (rows one.id) ≡ some one
unfolding ◌==◌
own_one = refl

schedule_creation_effect_example :
    (own_row (lit "a") ((schedule_creation table 1 one (rows, [])).0 (lit "a")) ≡ (
      if one.id == lit "a"
      then some (with_status (if ltb 0 1 then in_progress else pending) one)
      else own_row (lit "a") (rows (lit "a"))))
    × ((schedule_creation table 1 one (rows, [])).1
        ≡ (if ltb 0 1 then [] ++ item_for sync_create one ∷ [] else []))
schedule_creation_effect_example =
    schedule_creation_effect table 1 table-IsReliableTable one rows [] (lit "a") own_one

abbrev monitor : Monitor
monitor = record { State = List GoString; start = λ id m. id ∷ m; stop = λ id m. [] }

abbrev negotiate : GoString → Result (Unit {0}) GoString
negotiate url = ok (lit "registry:5000")

abbrev item : WorkItem
item = item_for sync_create one

process_work_item_status_example :
    Ended table file every monitor negotiate table-IsReliableTable sync_create item one config []
      (process_work_item table file every monitor negotiate item (rows, config, []))
process_work_item_status_example =
    process_work_item_status table file every monitor negotiate table-IsReliableTable item rows
      config [] one own_one
