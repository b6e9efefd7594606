-- ===== src/Sync/Scheduler.antt =====
-- The scheduler of the sync service (server/sync/scheduler.go): it takes pending syncs from the
-- database and puts work items into a queue of bounded length. The context is not cancelled.
use agntcy_dir.Base.{
  ℕ, ◌≤◌, ◌≡◌, refl, ◌∙◌, Bool, true, false, Bool-cases, inl, inr, some, List, [], ◌∷◌, ◌++◌, arith,
  ltb, length, length-append, if◌then◌else◌,
}
use agntcy_dir.Base.Text.{GoString, ◌==◌, eq_refl}
use agntcy_dir.Base.Result.{Result, ok, err}
use agntcy_dir.Sync.Database.{
  Sync, SyncStatus, SyncTable, IsReliableTable, pending, in_progress, delete_pending, with_status,
  update_sync_status,
}

pub data WorkItemType : Type 0 where
  sync_create sync_delete : WorkItemType

pub record WorkItem : Type 0 where
  pub type : WorkItemType
  pub sync_id : GoString
  pub remote_directory_url : GoString

abbrev pub item_for : WorkItemType → Sync → WorkItem
item_for type sync = record {
  type = type;
  sync_id = sync.id;
  remote_directory_url = sync.remote_directory_url;
}

-- The work queue: what is in the channel.
abbrev pub Queue : Type 0
Queue = List WorkItem

-- dispatchWorkItem; the flag says that the item was sent.
abbrev pub dispatch_work_item : ℕ → WorkItem → Queue → Bool × Queue
dispatch_work_item capacity item q =
    if ltb (length q) capacity then (true, q ++ item ∷ []) else (false, q)

module _ {Fault : Type 0} (table : SyncTable Fault) (capacity : ℕ) where
  -- The step for one pending sync: errors are logged.
  abbrev pub after_update :
      Sync → Result Fault (Unit {0}) × table.State → Queue → table.State × Queue
  after_update sync (err _, s) q = (s, q)
  after_update sync (ok _, s) q =
      if ltb (length q) capacity
      then (s, q ++ item_for sync_create sync ∷ [])
      else ((update_sync_status table sync.id pending s).1, q)

  unfoldable pub schedule_creation : Sync → table.State × Queue → table.State × Queue
  schedule_creation sync (s, q) =
      after_update sync (update_sync_status table sync.id in_progress s) q

  unfoldable pub schedule_creations : List Sync → table.State × Queue → table.State × Queue
  schedule_creations [] t = t
  schedule_creations (sync ∷ syncs) t = schedule_creations syncs (schedule_creation sync t)

  unfoldable pub schedule_deletions : List Sync → Queue → Queue
  schedule_deletions [] q = q
  schedule_deletions (sync ∷ syncs) q =
      schedule_deletions syncs (dispatch_work_item capacity (item_for sync_delete sync) q).1

  abbrev syncs_or_none : Result Fault (List Sync) → List Sync
  syncs_or_none (ok syncs) = syncs
  syncs_or_none (err _) = []

  -- processPendingSyncs: creations, then deletions.
  unfoldable pub process_pending_syncs : table.State × Queue → table.State × Queue
  process_pending_syncs (s, q) =
      let (s', q') = schedule_creations (syncs_or_none (table.find pending s)) (s, q) in
      (s', schedule_deletions (syncs_or_none (table.find delete_pending s')) q')

  creation_bounded :
      (sync : Sync) (t : table.State × Queue)
      → length t.1 ≤ capacity
      → length (schedule_creation sync t).1 ≤ capacity
  unfolding schedule_creation
  creation_bounded sync (s, q) h = bounded (update_sync_status table sync.id in_progress s)
    where
      bounded :
          (u : Result Fault (Unit {0}) × table.State) → length (after_update sync u q).1 ≤ capacity
      bounded (err _, s') = h
      bounded (ok _, s') = ground (arith, length-append q (item_for sync_create sync ∷ []))

  creations_bounded :
      (syncs : List Sync) (t : table.State × Queue)
      → length t.1 ≤ capacity
      → length (schedule_creations syncs t).1 ≤ capacity
  unfolding schedule_creations
  creations_bounded [] t h = h
  creations_bounded (sync ∷ syncs) t h =
      creations_bounded syncs (schedule_creation sync t) (creation_bounded sync t h)

  deletions_bounded :
      (syncs : List Sync) (q : Queue)
      → length q ≤ capacity
      → length (schedule_deletions syncs q) ≤ capacity
  unfolding schedule_deletions
  deletions_bounded [] q h = h
  deletions_bounded (sync ∷ syncs) q h =
      deletions_bounded syncs _ (ground (arith, length-append q (item_for sync_delete sync ∷ [])))

  -- A round of the scheduler never holds more items than the queue has room for, whatever the
  -- database does, if it did not before.
  pub process_pending_syncs_bounded :
      (t : table.State × Queue)
      → length t.1 ≤ capacity
      → length (process_pending_syncs t).1 ≤ capacity
  unfolding process_pending_syncs
  process_pending_syncs_bounded (s, q) h = deletions_bounded _ _ (creations_bounded _ (s, q) h)

  module _ (rel : IsReliableTable table) where
    update_effect :
        (sync : Sync) (status : SyncStatus) (s : table.State)
        → rel.row s sync.id ≡ some sync
        → update_sync_status table sync.id status s
          ≡ (ok tt, (table.save (with_status status sync) s).1)
    unfolding update_sync_status
    update_effect sync status s there =
        rw (rel.first_lem sync.id sync s there) (rw (rel.save_ok (with_status status sync) s))

    -- On a table that does not fail, a sync that is scheduled for creation is queued and in progress if
    -- the queue has room, and else is pending and not queued; no other sync changes.
    pub schedule_creation_effect :
        (sync : Sync) (s : table.State) (q : Queue) (id : GoString)
        → rel.row s sync.id ≡ some sync
        → (rel.row (schedule_creation sync (s, q)).0 id ≡ (
            if sync.id == id
            then some (with_status (if ltb (length q) capacity then in_progress else pending) sync)
            else rel.row s id))
          × ((schedule_creation sync (s, q)).1
              ≡ (if ltb (length q) capacity then q ++ item_for sync_create sync ∷ [] else q))
    unfolding schedule_creation
    schedule_creation_effect sync s q id there =
        let s₁ = (table.save (with_status in_progress sync) s).1 in
        let saved = rel.save_lem (with_status in_progress sync) s in
        let now : rel.row s₁ sync.id ≡ some (with_status in_progress sync) =
          rw (saved sync.id, eq_refl sync.id) in
        elim (Bool-cases (ltb (length q) capacity)) [
          | inl room ↦ rw (update_effect sync in_progress s there) (rw room (saved id, refl))
          | inr full ↦ rw (update_effect sync in_progress s there) (
              rw full (
                rw (update_effect (with_status in_progress sync) pending s₁ now)
                  (rel.save_lem (with_status pending sync) s₁ id ∙ ground (arith, saved id), refl)))
        ]
