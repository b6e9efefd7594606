-- ===== src/Sync/Monitor/Goroutines.antt =====
-- The goroutines of the monitor: what each operation leaves of them.
use agntcy_dir.Base.{
  ℕ, subst, ◌+◌, ◌≤◌, ◌≡◌, refl, Bool, false, ◌&&◌, not, Bool-cases, inl, inr, Option, none, some,
  List, [], ◌∷◌, arith, length, ltb, eqb, All, All-imp,
}
use agntcy_dir.Base.Text.{GoString}
use agntcy_dir.Base.Dict.{Dict, insert, erase}
use agntcy_dir.Base.Result.{Result, ok, err, Result-cases}
use agntcy_dir.Store.Cache.{StoreApi}
use agntcy_dir.Controllers.Store.{SearchDb}
use agntcy_dir.Sync.Monitor.{
  Monitoring, MonitorService, RegistrySnapshot, Indexing, looping, cancel, start_sync_monitoring,
  stop_sync_monitoring, stop, leave_monitoring, begin_registry_monitoring, create_registry_snapshot,
  perform_monitoring_check, compared,
}
use agntcy_dir.Sync.Monitor.Contexts.{
  live, IsHeld, HasSnapshot, IsCancelled, at_context-All, without_context-All, live-cancelled,
  live-looping, live-without, cancel-IsCancelled, cancel-HasSnapshot,
}

-- The flag says whether a sync is active; at most one goroutine is not cancelled, none when the monitor
-- does not run, and the next stop cancels it.
pub record IsConsistent (m : MonitorService) : Type 0 where
  pub runs : m.is_running ≡ ltb 0 (length m.active_syncs)
  pub held : All (IsHeld m.is_running m.cancel_monitor) m.goroutines
  pub one : live m.goroutines ≤ 1
  pub snapshots : All (HasSnapshot m.last_snapshot) m.goroutines

length-erase : (id : GoString) (a : Dict (Unit {0})) → length (erase id a) ≤ length a
unfolding erase
length-erase id [] = omega arith
length-erase id (x ∷ a) = ground (arith, length-erase id a)

length-insert :
    (id : GoString) (a : Dict (Unit {0})) → length (insert id tt a) ≡ 1 + length (erase id a)
unfolding insert
length-insert id a = ground arith

-- With a monitor that does not run, every goroutine is cancelled.
pub idle-IsCancelled :
    (m : MonitorService) → IsConsistent m → m.is_running ≡ false → All IsCancelled m.goroutines
idle-IsCancelled m h idle =
    All-imp (λ g held. elim held [ inl dead ↦ dead | inr (on, _) ↦ absurd (cc) ]) m.goroutines
      h.held

pub start-IsConsistent :
    (id : GoString) (m : MonitorService)
    → IsConsistent m
    → IsConsistent (start_sync_monitoring id m)
unfolding start_sync_monitoring live
start-IsConsistent id m h =
    elim (Bool-cases (eqb (length (insert id tt m.active_syncs)) 1 && not m.is_running)) [
      | inl first ↦
          let idle : m.is_running ≡ false = ground arith in
          let dead = idle-IsCancelled m h idle in
          let none_live = live-cancelled m.goroutines dead in
          rw first (record {
            runs = ground (arith, length-insert id m.active_syncs);
            held = (inr (refl, refl), All-imp (λ g d. inl d) m.goroutines dead);
            one = omega (arith, none_live);
            snapshots = (inl refl, h.snapshots);
          })
      | inr more ↦ rw more (record {
        runs =
            ground (arith, h.runs, length-insert id m.active_syncs, length-erase id m.active_syncs);
        held = h.held;
        one = h.one;
        snapshots = h.snapshots;
      })
    ]

-- A monitor whose goroutines are all cancelled is consistent when it does not run.
stopped-held :
    (handle : Option ℕ) (gs : List Monitoring) → All IsCancelled gs → All (IsHeld false handle) gs
stopped-held handle gs dead = All-imp (λ g d. inl d) gs dead

pub stop_sync-IsConsistent :
    (id : GoString) (m : MonitorService) → IsConsistent m → IsConsistent (stop_sync_monitoring id m)
unfolding stop_sync_monitoring
stop_sync-IsConsistent id m h =
    elim (Bool-cases (eqb (length (erase id m.active_syncs)) 0 && m.is_running)) [
      | inl last ↦
          let dead = cancel-IsCancelled m.is_running m.cancel_monitor m.goroutines h.held in
          let none_live = live-cancelled (cancel m.cancel_monitor m.goroutines) dead in
          rw last (record {
            runs = ground arith;
            held = stopped-held m.cancel_monitor (cancel m.cancel_monitor m.goroutines) dead;
            one = omega (arith, none_live);
            snapshots =
                cancel-HasSnapshot m.last_snapshot m.cancel_monitor m.goroutines h.snapshots;
          })
      | inr others ↦ rw others (record {
        runs = ground (arith, h.runs, length-erase id m.active_syncs);
        held = h.held;
        one = h.one;
        snapshots = h.snapshots;
      })
    ]

pub stop-IsConsistent : (m : MonitorService) → IsConsistent m → IsConsistent (stop m)
unfolding stop
stop-IsConsistent m h = elim (Bool-cases m.is_running) [
  | inl on ↦
      let dead = cancel-IsCancelled m.is_running m.cancel_monitor m.goroutines h.held in
      let none_live = live-cancelled (cancel m.cancel_monitor m.goroutines) dead in
      record {
        runs = refl;
        held = rw on (stopped-held m.cancel_monitor (cancel m.cancel_monitor m.goroutines) dead);
        one = rw on (omega (arith, none_live));
        snapshots =
            rw on (cancel-HasSnapshot m.last_snapshot m.cancel_monitor m.goroutines h.snapshots);
      }
  | inr off ↦ record {
    runs = refl;
    held = rw off (stopped-held m.cancel_monitor m.goroutines (idle-IsCancelled m h off));
    one = rw off h.one;
    snapshots = rw off h.snapshots;
  }
]

pub leave-IsConsistent :
    (c : ℕ) (m : MonitorService) → IsConsistent m → IsConsistent (leave_monitoring c m)
unfolding leave_monitoring
leave-IsConsistent c m h = record {
  runs = h.runs;
  held = without_context-All (IsHeld m.is_running m.cancel_monitor) c m.goroutines h.held;
  one = omega (arith, h.one, live-without c m.goroutines);
  snapshots = without_context-All (HasSnapshot m.last_snapshot) c m.goroutines h.snapshots;
}

-- With a last snapshot, every goroutine has one to compare with.
pub snapshot-IsConsistent :
    (snapshot : RegistrySnapshot) (m : MonitorService)
    → IsConsistent m
    → IsConsistent (record m { last_snapshot = some snapshot })
snapshot-IsConsistent snapshot m h = record {
  runs = h.runs;
  held = h.held;
  one = h.one;
  snapshots = All-imp (λ g p. inr (λ e. cc)) m.goroutines h.snapshots;
}

pub begin-IsConsistent :
    (sha256 : GoString → GoString) (is_valid_cid : GoString → Bool) (c : ℕ)
    (listed : Result GoString (List GoString)) (m : MonitorService)
    → IsConsistent m
    → IsConsistent (begin_registry_monitoring sha256 is_valid_cid c listed m)
unfolding begin_registry_monitoring
begin-IsConsistent sha256 is_valid_cid c listed m h =
    elim (Result-cases (create_registry_snapshot sha256 is_valid_cid listed)) [
      | inl (snapshot, made) ↦
          let Held = IsHeld m.is_running m.cancel_monitor in
          let Seen = HasSnapshot (some snapshot) in
          let looping_now = λ (g : Monitoring). record g { phase = looping } in
          rw (made, begin_registry_monitoring)
            (record {
              runs = h.runs;
              held =
                  at_context-All Held Held c looping_now (λ g here p. p) (λ g there p. p)
                    m.goroutines h.held;
              one = omega (arith, h.one, live-looping c m.goroutines);
              snapshots =
                  at_context-All (HasSnapshot m.last_snapshot) Seen c looping_now
                    (λ g here p. inr (λ e. cc)) (λ g there p. inr (λ e. cc)) m.goroutines
                    h.snapshots;
            })
      | inr (text, broke) ↦ rw (broke, begin_registry_monitoring) (leave-IsConsistent c m h)
    ]

module _ {Rec Meta Fault : Type 0} (store : StoreApi Rec Meta Fault) (db : SearchDb Rec GoString)
    (Zot : Type 0) (pull_public_key : Option (GoString → store.State → Result Fault GoString))
    (upload : GoString → Zot → Zot) where
  compared-IsConsistent :
      (last : Option RegistrySnapshot) (snapshot : RegistrySnapshot) (m m' : MonitorService)
      (x x' : Indexing store db Zot pull_public_key upload)
      → compared store db Zot pull_public_key upload last snapshot m x ≡ some (m', x')
      → IsConsistent m
      → IsConsistent m'
  compared-IsConsistent none snapshot m m' x x' done h = absurd (cc)
  compared-IsConsistent (some old) snapshot m m' x x' done h =
      let same : record m { last_snapshot = some snapshot } ≡ m' = cc in
      subst IsConsistent same (snapshot-IsConsistent snapshot m h)

  pub check-IsConsistent :
      (listed : Result GoString RegistrySnapshot) (m m' : MonitorService)
      (x x' : Indexing store db Zot pull_public_key upload)
      → perform_monitoring_check store db Zot pull_public_key upload listed (m, x) ≡ some (m', x')
      → IsConsistent m
      → IsConsistent m'
  unfolding perform_monitoring_check
  check-IsConsistent (err text) m m' x x' done h =
      let same : m ≡ m' = cc in subst IsConsistent same h
  check-IsConsistent (ok snapshot) m m' x x' done h =
      compared-IsConsistent m.last_snapshot snapshot m m' x x' done h
