-- ===== src/Examples/Monitor.antt =====
-- A monitor of two tags, which stand for themselves.
use agntcy_dir.Base.{
  ◌≡◌, ◌≢◌, ◌↔◌, refl, true, false, ◌≤◌, if◌then◌else◌, none, some, List, [], ◌∷◌, arith, In, All,
  inl, inr,
}
use agntcy_dir.Base.Text.{GoString, lit, ◌==◌}
use agntcy_dir.Base.Result.{ok}
use agntcy_dir.Controllers.Store.{SearchDb}
use agntcy_dir.Sync.Monitor.{
  MonitorService, looping, start_sync_monitoring, stop_sync_monitoring, detect_changes,
  perform_monitoring_check,
}
use agntcy_dir.Sync.Monitor.Running.{fresh, started, ended, fresh_monitor, monitor_runs_iff}
use agntcy_dir.Sync.Monitor.Contexts.{live, IsHeld, HasSnapshot}
use agntcy_dir.Sync.Monitor.Changes.{snapshot_of, detect_changes_exact}
use agntcy_dir.Sync.Monitor.Indexed.{IsAdding, IsReading, check_indexes}
use agntcy_dir.Examples.Cache.{holds, found, found_cid, source}
use agntcy_dir.Examples.Controllers.{texts}

abbrev index_db : SearchDb GoString GoString
index_db = record {
  State = List GoString;
  add_record = λ r d. (ok tt, r ∷ d);
  remove_record = λ cid d. (ok tt, d);
}

abbrev index_db-IsAdding : IsAdding texts index_db
index_db-IsAdding = record {
  lists = λ d cid. In cid d;
  added = λ r d. inl refl;
  keeps = λ r cid d h. inr h;
}

source-IsReading : IsReading texts source
source-IsReading = record {
  same = λ cid s. refl;
  pulled = λ cid s r h. found_cid (holds cid s) cid r h;
}

abbrev old : List GoString
old = lit "a" ∷ []

abbrev new : List GoString
new = lit "a" ∷ lit "b" ∷ []

abbrev watching : MonitorService
watching = record {
  is_running = true;
  active_syncs = (lit "s", tt) ∷ [];
  cancel_monitor = some 0;
  contexts = 1;
  goroutines = record { context = 0; phase = looping; cancelled = false } ∷ [];
  shutdowns = 0;
  last_snapshot = some (snapshot_of (λ t. t) old);
}

-- A sync that starts and ends before the first snapshot.
abbrev brief : MonitorService
brief = stop_sync_monitoring (lit "s") (start_sync_monitoring (lit "s") fresh_monitor)

monitor_runs_iff_example :
    ((brief.is_running ≡ true) ↔ (brief.active_syncs ≢ []))
    × (live brief.goroutines ≤ (if brief.is_running then 1 else 0))
    × All (IsHeld brief.is_running brief.cancel_monitor) brief.goroutines
    × All (HasSnapshot brief.last_snapshot) brief.goroutines
monitor_runs_iff_example =
    monitor_runs_iff source index_db Unit none (λ k z. z) (λ t. t) (λ t. true) brief
      (ended (lit "s") (start_sync_monitoring (lit "s") fresh_monitor)
        (started (lit "s") fresh_monitor fresh))

detect_changes_exact_example :
    let changes = detect_changes (snapshot_of (λ t. t) old) (snapshot_of (λ t. t) new) in
    ((tag : GoString) → In tag changes.new_tags ↔ (In tag new × (In tag old → ⊥)))
    × ((changes.has_changes ≡ true) ↔ (changes.new_tags ≢ []))
detect_changes_exact_example =
    detect_changes_exact (λ t. t) old new (λ e. e) ((omega arith, tt), tt)
      ((omega arith, tt), ((omega arith, tt), tt))

abbrev world : List GoString × List GoString × Unit {0}
world = (new, old, tt)

b_found : found (holds (lit "b") new) (lit "b") ≡ ok (lit "b")
unfolding ◌==◌
b_found = refl

a_found : found (holds (lit "a") new) (lit "a") ≡ ok (lit "a")
unfolding ◌==◌
a_found = refl

check_indexes_example :
    (m' : MonitorService) × (x' : List GoString × List GoString × Unit {0})
    × (perform_monitoring_check source index_db Unit none
          (λ k z. z)
          (ok (snapshot_of (λ t. t) new))
          (watching, world)
        ≡ some (m', x'))
    × (m'.last_snapshot ≡ some (snapshot_of (λ t. t) new))
    × All (λ cid. In cid x'.1) new
check_indexes_example =
    check_indexes texts source index_db Unit none (λ k z. z) index_db-IsAdding source-IsReading
      (λ t. t) old new (λ e. e) watching world refl ((omega arith, tt), tt)
      ((omega arith, tt), ((omega arith, tt), tt)) (inl refl, tt)
      ((lit "a", a_found), ((lit "b", b_found), tt))
