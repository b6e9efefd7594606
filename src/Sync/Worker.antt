-- ===== src/Sync/Worker.antt =====
-- The worker of the sync service (server/sync/worker.go): it carries out work items and writes their
-- outcome into the database. The credential negotiation is a parameter, and so is the monitor, whose
-- two methods never fail. The work item's timeout does not strike.
use agntcy_dir.Base.{◌⊎◌, subst, sym, ap, ◌≡◌, refl, Bool, true, false, inl, inr, some, arith}
use agntcy_dir.Base.Text.{GoString, eq_iff}
use agntcy_dir.Base.Result.{Result, ok, err, Result-cases}
use agntcy_dir.Sync.Database.{
  Sync, SyncStatus, SyncTable, IsReliableTable, in_progress, failed, deleted, with_status,
  with_registry, update_sync_status, update_sync_remote_registry, get_sync_remote_registry,
}
use agntcy_dir.Sync.Scheduler.{WorkItem, WorkItemType, sync_create, sync_delete}
use agntcy_dir.Sync.Zot.{
  ConfigFile, ZotError, add_registry_to_zot_sync, remove_registry_from_zot_sync,
}

-- StartSyncMonitoring and StopSyncMonitoring
pub record Monitor : Type 1 where
  pub State : Type 0
  pub start : GoString → State → State
  pub stop : GoString → State → State

module _ {Fault : Type 0} (table : SyncTable Fault) (file : ConfigFile)
    (url_parses : GoString → Bool) (monitor : Monitor)
    (negotiate : GoString → Result Fault GoString) where
  abbrev pub WorkerState : Type 0
  WorkerState = table.State × file.State × monitor.State

  -- The rest of addSync after the credentials, and after the database. The flag says that it succeeded.
  abbrev pub configure :
      GoString
      → Result ZotError (Unit {0}) × file.State
      → table.State
      → monitor.State
      → Bool × WorkerState
  configure id (ok _, f) s m = (true, (s, f, monitor.start id m))
  configure id (err _, f) s m = (false, (s, f, m))

  abbrev pub register :
      GoString
      → GoString
      → Result Fault (Unit {0}) × table.State
      → file.State
      → monitor.State
      → Bool × WorkerState
  register id url (ok _, s) f m = configure id (add_registry_to_zot_sync file url_parses url f) s m
  register id url (err _, s) f m = (false, (s, f, m))

  unfoldable pub add_sync : WorkItem → WorkerState → Bool × WorkerState
  add_sync item (s, f, m) = elim (negotiate item.remote_directory_url) [
    | err _ ↦ (false, (s, f, m))
    | ok url ↦ register item.sync_id url (update_sync_remote_registry table item.sync_id url s) f m
  ]

  abbrev pub unregister :
      GoString
      → Result ZotError (Unit {0}) × file.State
      → table.State
      → monitor.State
      → Bool × WorkerState
  unregister id (ok _, f) s m = (true, (s, f, monitor.stop id m))
  unregister id (err _, f) s m = (false, (s, f, m))

  unfoldable pub delete_sync : WorkItem → WorkerState → Bool × WorkerState
  delete_sync item (s, f, m) = elim (get_sync_remote_registry table item.sync_id s) [
    | err _ ↦ (false, (s, f, m))
    | ok url ↦ unregister item.sync_id (remove_registry_from_zot_sync file url_parses url f) s m
  ]

  unfoldable pub carry_out : WorkItemType → WorkItem → WorkerState → Bool × WorkerState
  carry_out sync_create item t = add_sync item t
  carry_out sync_delete item t = delete_sync item t

  -- The status that the work ends in.
  abbrev pub final_status : WorkItemType → Bool → SyncStatus
  final_status type false = failed
  final_status sync_create true = in_progress
  final_status sync_delete true = deleted

  -- The update of the status in the database; a failure is logged.
  abbrev pub finished : WorkItemType → WorkItem → Bool × WorkerState → WorkerState
  finished type item (done, (s, f, m)) =
      ((update_sync_status table item.sync_id (final_status type done) s).1, f, m)

  unfoldable pub process_work_item : WorkItem → WorkerState → WorkerState
  process_work_item item t = finished item.type item (carry_out item.type item t)

  module _ (rel : IsReliableTable table) where
    saved_row :
        (id : GoString) (sync : Sync) (s : table.State)
        → sync.id ≡ id
        → rel.row (table.save sync s).1 id ≡ some sync
    saved_row id sync s same = rw (rel.save_lem sync s id) (ground (arith, eq_iff sync.id id))

    update_status_row :
        (id : GoString) (status : SyncStatus) (sync : Sync) (s : table.State)
        → rel.row s id ≡ some sync
        → rel.row (update_sync_status table id status s).1 id ≡ some (with_status status sync)
    unfolding update_sync_status
    update_status_row id status sync s there =
        rw (rel.first_lem id sync s there)
          (saved_row id (with_status status sync) s (rel.row_id id sync s there))

    update_registry_effect :
        (id url : GoString) (sync : Sync) (s : table.State)
        → rel.row s id ≡ some sync
        → update_sync_remote_registry table id url s
          ≡ (ok tt, (table.save (with_registry url sync) s).1)
    unfolding update_sync_remote_registry
    update_registry_effect id url sync s there =
        rw (rel.first_lem id sync s there) (rw (rel.save_ok (with_registry url sync) s))

    -- How a creation ends: the registry was agreed on and added; or it could not be added; or it was not
    -- agreed on.
    abbrev pub Added : WorkItem → Sync → file.State → monitor.State → WorkerState → Type 0
    Added item sync f m (s', f', m') =
        ((url : GoString) × (negotiate item.remote_directory_url ≡ ok url)
          × (add_registry_to_zot_sync file url_parses url f ≡ (ok tt, f'))
          × (rel.row s' item.sync_id ≡ some (with_status in_progress (with_registry url sync)))
          × (m' ≡ monitor.start item.sync_id m))
        ⊎ (((url : GoString) × (e : ZotError) × (negotiate item.remote_directory_url ≡ ok url)
              × (add_registry_to_zot_sync file url_parses url f ≡ (err e, f'))
              × (rel.row s' item.sync_id ≡ some (with_status failed (with_registry url sync)))
              × (m' ≡ m))
            ⊎ ((e : Fault) × (negotiate item.remote_directory_url ≡ err e)
                × (f' ≡ f)
                × (rel.row s' item.sync_id ≡ some (with_status failed sync))
                × (m' ≡ m)))

    -- How a deletion ends: the registry of the sync was removed, or it could not be.
    abbrev pub Removed : WorkItem → Sync → file.State → monitor.State → WorkerState → Type 0
    Removed item sync f m (s', f', m') =
        ((remove_registry_from_zot_sync file url_parses sync.remote_registry_url f ≡ (ok tt, f'))
          × (rel.row s' item.sync_id ≡ some (with_status deleted sync))
          × (m' ≡ monitor.stop item.sync_id m))
        ⊎ ((e : ZotError) × (remove_registry_from_zot_sync file url_parses sync.remote_registry_url
                f
              ≡ (err e, f'))
            × (rel.row s' item.sync_id ≡ some (with_status failed sync))
            × (m' ≡ m))

    abbrev pub Ended :
        WorkItemType → WorkItem → Sync → file.State → monitor.State → WorkerState → Type 0
    Ended sync_create = Added
    Ended sync_delete = Removed

    configured :
        (item : WorkItem) (url : GoString) (sync : Sync) (s : table.State) (f : file.State)
        (m : monitor.State) (z : Result ZotError (Unit {0}) × file.State)
        → add_registry_to_zot_sync file url_parses url f ≡ z
        → negotiate item.remote_directory_url ≡ ok url
        → rel.row s item.sync_id ≡ some (with_registry url sync)
        → Added item sync f m (finished sync_create item (configure item.sync_id z s m))
    configured item url sync s f m (ok _, f') added agreed there =
        inl (url, agreed, added, update_status_row item.sync_id in_progress _ s there, refl)
    configured item url sync s f m (err e, f') broke agreed there =
        inr (inl (url, e, agreed, broke, update_status_row item.sync_id failed _ s there, refl))

    unregistered :
        (item : WorkItem) (sync : Sync) (s : table.State) (f : file.State) (m : monitor.State)
        (z : Result ZotError (Unit {0}) × file.State)
        → remove_registry_from_zot_sync file url_parses sync.remote_registry_url f ≡ z
        → rel.row s item.sync_id ≡ some sync
        → Removed item sync f m (finished sync_delete item (unregister item.sync_id z s m))
    unregistered item sync s f m (ok _, f') gone there =
        inl (gone, update_status_row item.sync_id deleted sync s there, refl)
    unregistered item sync s f m (err e, f') broke there =
        inr (e, broke, update_status_row item.sync_id failed sync s there, refl)

    agreed_on :
        (item : WorkItem) (url : GoString) (sync : Sync) (s : table.State) (f : file.State)
        (m : monitor.State)
        → negotiate item.remote_directory_url ≡ ok url
        → rel.row s item.sync_id ≡ some sync
        → add_sync item (s, f, m)
          ≡ configure item.sync_id
              (add_registry_to_zot_sync file url_parses url f)
              (table.save (with_registry url sync) s).1
              m
    unfolding add_sync
    agreed_on item url sync s f m agreed there =
        rw (agreed, add_sync)
          (ap (λ u. register item.sync_id url u f m)
            (update_registry_effect item.sync_id url sync s there))

    not_agreed :
        (item : WorkItem) (e : Fault) (t : WorkerState)
        → negotiate item.remote_directory_url ≡ err e
        → add_sync item t ≡ (false, t)
    unfolding add_sync
    not_agreed item e (s, f, m) refused = rw (refused, add_sync) refl

    known :
        (item : WorkItem) (sync : Sync) (s : table.State) (f : file.State) (m : monitor.State)
        → rel.row s item.sync_id ≡ some sync
        → delete_sync item (s, f, m)
          ≡ unregister item.sync_id
              (remove_registry_from_zot_sync file url_parses sync.remote_registry_url f)
              s
              m
    unfolding delete_sync get_sync_remote_registry
    known item sync s f m there =
        rw (rel.first_lem item.sync_id sync s there, get_sync_remote_registry, delete_sync) refl

    ended :
        (type : WorkItemType) (item : WorkItem) (s : table.State) (f : file.State)
        (m : monitor.State) (sync : Sync)
        → rel.row s item.sync_id ≡ some sync
        → Ended type item sync f m (finished type item (carry_out type item (s, f, m)))
    unfolding carry_out
    ended sync_create item s f m sync there =
        elim (Result-cases (negotiate item.remote_directory_url)) [
          | inl (url, agreed) ↦
              subst (λ c. Added item sync f m (finished sync_create item c))
                (sym (agreed_on item url sync s f m agreed there))
                (configured item url sync (table.save (with_registry url sync) s).1 f m
                  (add_registry_to_zot_sync file url_parses url f) refl agreed
                  (saved_row item.sync_id (with_registry url sync) s
                    (rel.row_id item.sync_id sync s there)))
          | inr (e, refused) ↦
              subst (λ c. Added item sync f m (finished sync_create item c))
                (sym (not_agreed item e (s, f, m) refused))
                (inr (
                  inr (e, refused, refl, update_status_row item.sync_id failed sync s there, refl)))
        ]
    ended sync_delete item s f m sync there =
        subst (λ c. Removed item sync f m (finished sync_delete item c))
          (sym (known item sync s f m there))
          (unregistered item sync s f m
            (remove_registry_from_zot_sync file url_parses sync.remote_registry_url f) refl there)

    -- On a table that does not fail, the work on a creation ends in one of three ways: in progress, with
    -- the registry that was agreed on noted in the row and added to the zot file, and the sync monitored;
    -- failed, with that registry noted, when it could not be added; or failed when there was no
    -- agreement. A deletion ends deleted, with the registry of the row removed and the monitoring
    -- stopped, or failed when it could not be removed. The status that the sync had before does not
    -- matter, be it a pending deletion.
    pub process_work_item_status :
        (item : WorkItem) (s : table.State) (f : file.State) (m : monitor.State) (sync : Sync)
        → rel.row s item.sync_id ≡ some sync
        → Ended item.type item sync f m (process_work_item item (s, f, m))
    unfolding process_work_item
    process_work_item_status item s f m sync there = ended item.type item s f m sync there
