-- ===== src/Sync/Monitor/Running.antt =====
-- When the monitor runs, and which of its goroutines.
use agntcy_dir.Base.{
  ◌≤◌, ◌<◌, ◌≡◌, ◌≢◌, ◌↔◌, ◌⊎◌, refl, sym, ◌∙◌, Bool, true, false, inl, inr, Option, none, some,
  List, [], ◌∷◌, arith, length, ltb, All, In, if◌then◌else◌, Bool-cases,
}
use agntcy_dir.Base.Text.{GoString}
use agntcy_dir.Base.Dict.{Dict}
use agntcy_dir.Base.Result.{Result}
use agntcy_dir.Store.Cache.{StoreApi}
use agntcy_dir.Controllers.Store.{SearchDb}
use agntcy_dir.Sync.Monitor.{
  Monitoring, MonitorService, RegistrySnapshot, Indexing, starting, looping, start_sync_monitoring,
  stop_sync_monitoring, stop, leave_monitoring, end_shutdown, begin_registry_monitoring,
  perform_monitoring_check,
}
use agntcy_dir.Sync.Monitor.Goroutines.{
  IsConsistent, start-IsConsistent, stop_sync-IsConsistent, stop-IsConsistent, leave-IsConsistent,
  begin-IsConsistent, check-IsConsistent, idle-IsCancelled,
}
use agntcy_dir.Sync.Monitor.Contexts.{live, IsHeld, HasSnapshot, live-cancelled}

-- What NewMonitorService makes.
abbrev pub fresh_monitor : MonitorService
fresh_monitor = record {
  is_running = false;
  active_syncs = [];
  cancel_monitor = none;
  contexts = 0;
  goroutines = [];
  shutdowns = 0;
  last_snapshot = none;
}

module _ {Rec Meta Fault : Type 0} (store : StoreApi Rec Meta Fault) (db : SearchDb Rec GoString)
    (Zot : Type 0) (pull_public_key : Option (GoString → store.State → Result Fault GoString))
    (upload : GoString → Zot → Zot) (sha256 : GoString → GoString)
    (is_valid_cid : GoString → Bool) where
  -- A goroutine that performs checks: one of runRegistryMonitoring in its loop, or one of
  -- gracefulShutdown.
  abbrev pub IsChecking : MonitorService → Type 0
  IsChecking m = (0 < m.shutdowns) ⊎ ((g : Monitoring) × In g m.goroutines × (g.phase ≡ looping))

  -- The states that calls of the monitor and steps of its goroutines lead to, in any order. A cancelled
  -- goroutine may still take its snapshot and check before it returns; a check that dereferences nil
  -- leads to no state.
  pub data Reachable : MonitorService → Type 0 where
    fresh : Reachable fresh_monitor
    started :
        (id : GoString) (m : MonitorService) → Reachable m → Reachable (start_sync_monitoring id m)
    ended :
        (id : GoString) (m : MonitorService) → Reachable m → Reachable (stop_sync_monitoring id m)
    shut : (m : MonitorService) → Reachable m → Reachable (stop m)
    begins :
        (g : Monitoring) (listed : Result GoString (List GoString)) (m : MonitorService)
        → In g m.goroutines
        → g.phase ≡ starting
        → Reachable m
        → Reachable (begin_registry_monitoring sha256 is_valid_cid g.context listed m)
    checks :
        (listed : Result GoString RegistrySnapshot) (m m' : MonitorService)
        (x x' : Indexing store db Zot pull_public_key upload)
        → IsChecking m
        → perform_monitoring_check store db Zot pull_public_key upload listed (m, x) ≡ some (m', x')
        → Reachable m
        → Reachable m'
    returns :
        (g : Monitoring) (m : MonitorService)
        → In g m.goroutines
        → g.phase ≡ looping
        → g.cancelled ≡ true
        → Reachable m
        → Reachable (leave_monitoring g.context m)
    times_out : (m : MonitorService) → 0 < m.shutdowns → Reachable m → Reachable (end_shutdown m)

  Reachable-IsConsistent : (m : MonitorService) → Reachable m → IsConsistent m
  unfolding end_shutdown
  Reachable-IsConsistent _ fresh = record {
    runs = refl;
    held = tt;
    one = omega (arith, live-cancelled [] tt);
    snapshots = tt;
  }
  Reachable-IsConsistent _ (started id m r) = start-IsConsistent id m (Reachable-IsConsistent m r)
  Reachable-IsConsistent _ (ended id m r) = stop_sync-IsConsistent id m (Reachable-IsConsistent m r)
  Reachable-IsConsistent _ (shut m r) = stop-IsConsistent m (Reachable-IsConsistent m r)
  Reachable-IsConsistent _ (begins g listed m there waits r) =
      begin-IsConsistent sha256 is_valid_cid g.context listed m (Reachable-IsConsistent m r)
  Reachable-IsConsistent _ (checks listed m m' x x' checking done r) =
      check-IsConsistent store db Zot pull_public_key upload listed m m' x x' done
        (Reachable-IsConsistent m r)
  Reachable-IsConsistent _ (returns g m there loops dead r) =
      leave-IsConsistent g.context m (Reachable-IsConsistent m r)
  Reachable-IsConsistent _ (times_out m some_left r) =
      let h = Reachable-IsConsistent m r in
      record { runs = h.runs; held = h.held; one = h.one; snapshots = h.snapshots }

  -- In every state that calls of the monitor and steps of its goroutines lead to, it is running exactly
  -- when a sync is active; at most one monitoring goroutine is not cancelled, and none when the monitor
  -- is not running; one that is not cancelled is the one that the next stop cancels; and a goroutine in
  -- its loop has a last snapshot, so its check does not dereference nil.
  pub monitor_runs_iff :
      (m : MonitorService)
      → Reachable m
      → ((m.is_running ≡ true) ↔ (m.active_syncs ≢ []))
        × (live m.goroutines ≤ (if m.is_running then 1 else 0))
        × All (IsHeld m.is_running m.cancel_monitor) m.goroutines
        × All (HasSnapshot m.last_snapshot) m.goroutines
  monitor_runs_iff m r =
      let h = Reachable-IsConsistent m r in
      let counted = some_active m.active_syncs in
      (
        ((λ on. counted.0 (sym h.runs ∙ on)), (λ ne. h.runs ∙ counted.1 ne)),
        elim (Bool-cases m.is_running) [
          | inl on ↦ rw on h.one
          | inr off ↦
              let none_live = live-cancelled m.goroutines (idle-IsCancelled m h off) in
              rw off (omega (arith, none_live))
        ],
        h.held,
        h.snapshots,
      )
    where
      some_active : (a : Dict (Unit {0})) → (ltb 0 (length a) ≡ true) ↔ (a ≢ [])
      some_active [] = ((λ e. absurd (ground arith)), (λ ne. absurd (ne refl)))
      some_active (x ∷ a) = ((λ e same. cc), (λ ne. ground arith))
