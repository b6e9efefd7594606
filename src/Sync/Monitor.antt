-- ===== src/Sync/Monitor.antt =====
-- The registry monitor (server/sync/monitor): which syncs are active, snapshots of the registry's tags, and
-- the indexing of what is new. The registry, the store, the database, SHA-256 and the upload of keys are
-- parameters. The goroutines are part of the state, and a nil dereference is `none`.
pub mod Contexts
pub mod Goroutines
pub mod Running
pub mod Changes
pub mod Indexed
use agntcy_dir.Base.{
  ℕ, suc, ◌-◌, ◌≡◌, Bool, true, false, ◌&&◌, ◌||◌, not, Option, none, some, List, [], ◌∷◌, ◌++◌,
  any, ltb, eqb, length, map, if◌then◌else◌, leb, ◌+◌,
}
use agntcy_dir.Base.Text.{GoString, lit, ◌==◌, has_prefix}
use agntcy_dir.Base.Dict.{Dict, insert, erase}
use agntcy_dir.Base.Result.{Result, ok, err}
use agntcy_dir.Base.Action.{Action}
use agntcy_dir.Store.Cache.{StoreApi}
use agntcy_dir.Controllers.Store.{SearchDb}

-- strings.Contains, and strings.ToLower on ASCII.
unfoldable pub contains : GoString → GoString → Bool
contains [] part = part == []
contains (c ∷ s) part = let rest = contains s part in has_prefix (c ∷ s) part || rest

abbrev pub lower_char : ℕ → ℕ
lower_char c = if leb b'A' c && leb c b'Z' then c + 32 else c

unfoldable pub to_lower : GoString → GoString
to_lower s = map lower_char s

unfoldable pub is_duplicate_record_error : GoString → Bool
unfolding contains to_lower
is_duplicate_record_error text =
    let s = to_lower text in
    contains s (lit "duplicate")
    || contains s (lit "already exists")
    || contains s (lit "unique constraint")
    || contains s (lit "primary key")

unfoldable pub is_repository_not_found_error : GoString → Bool
unfolding contains
is_repository_not_found_error s =
    contains s (lit "404")
    && (contains s (lit "name unknown")
        || contains s (lit "repository name not known")
        || contains s (lit "not found"))

-- RegistrySnapshot and RegistryChanges, without their times.
pub record RegistrySnapshot : Type 0 where
  pub tags : List GoString
  pub content_hash : GoString

pub record RegistryChanges : Type 0 where
  pub new_tags : List GoString
  pub has_changes : Bool

abbrev pub empty_snapshot : RegistrySnapshot
empty_snapshot = record { tags = []; content_hash = [] }

-- A goroutine of runRegistryMonitoring, before its first snapshot or in its loop, with its context. A
-- cancelled one goes on until it reads that its context is done.
pub data Phase : Type 0 where
  starting looping : Phase

pub record Monitoring : Type 0 where
  pub context : ℕ
  pub phase : Phase
  pub cancelled : Bool

-- The service, the context that cancelMonitor cancels, how many contexts were made, and the goroutines
-- of runRegistryMonitoring and of gracefulShutdown that have not returned.
pub record MonitorService : Type 0 where
  pub is_running : Bool
  pub active_syncs : Dict (Unit {0})
  pub cancel_monitor : Option ℕ
  pub contexts : ℕ
  pub goroutines : List Monitoring
  pub shutdowns : ℕ
  pub last_snapshot : Option RegistrySnapshot

unfoldable pub at_context : ℕ → (Monitoring → Monitoring) → List Monitoring → List Monitoring
at_context c change [] = []
at_context c change (g ∷ gs) =
    let rest = at_context c change gs in (if eqb g.context c then change g else g) ∷ rest

unfoldable pub without_context : ℕ → List Monitoring → List Monitoring
without_context c [] = []
without_context c (g ∷ gs) =
    let rest = without_context c gs in if eqb g.context c then rest else g ∷ rest

-- s.cancelMonitor(), if it is set
unfoldable pub cancel : Option ℕ → List Monitoring → List Monitoring
cancel none gs = gs
cancel (some c) gs = at_context c (λ g. record g { cancelled = true }) gs

-- startMonitoring
abbrev pub start_monitoring : MonitorService → MonitorService
start_monitoring m = record m {
  is_running = true;
  cancel_monitor = some m.contexts;
  contexts = suc m.contexts;
  goroutines = record { context = m.contexts; phase = starting; cancelled = false } ∷ m.goroutines;
}

unfoldable pub start_sync_monitoring : GoString → MonitorService → MonitorService
start_sync_monitoring id m =
    let active = insert id tt m.active_syncs in
    let m' : MonitorService = record m { active_syncs = active } in
    if eqb (length active) 1 && not m.is_running then start_monitoring m' else m'

-- StopSyncMonitoring: a goroutine of gracefulShutdown starts.
unfoldable pub stop_sync_monitoring : GoString → MonitorService → MonitorService
stop_sync_monitoring id m =
    let active = erase id m.active_syncs in
    if eqb (length active) 0 && m.is_running
    then record m {
      is_running = false;
      active_syncs = active;
      goroutines = cancel m.cancel_monitor m.goroutines;
      shutdowns = suc m.shutdowns;
    }
    else record m { active_syncs = active }

-- Stop
unfoldable pub stop : MonitorService → MonitorService
stop m = record m {
  is_running = false;
  active_syncs = [];
  goroutines = if m.is_running then cancel m.cancel_monitor m.goroutines else m.goroutines;
}

-- A goroutine of runRegistryMonitoring returns, as its context is done; one of gracefulShutdown returns at
-- its timeout.
unfoldable pub leave_monitoring : ℕ → MonitorService → MonitorService
leave_monitoring c m = record m { goroutines = without_context c m.goroutines }

unfoldable pub end_shutdown : MonitorService → MonitorService
end_shutdown m = record m { shutdowns = m.shutdowns - 1 }

unfoldable pub filter_cids : (GoString → Bool) → List GoString → List GoString
filter_cids is_valid_cid [] = []
filter_cids is_valid_cid (tag ∷ tags) =
    let rest = filter_cids is_valid_cid tags in if is_valid_cid tag then tag ∷ rest else rest

-- What createContentHash writes into the hasher.
unfoldable pub hashed_text : List GoString → GoString
hashed_text [] = []
hashed_text (tag ∷ tags) = tag ++ (b'|' ∷ hashed_text tags)

module _ (sha256 : GoString → GoString) (is_valid_cid : GoString → Bool) where
  unfoldable pub create_content_hash : List GoString → GoString
  create_content_hash tags = sha256 (hashed_text tags)

  -- createRegistrySnapshot, from what Tags gives: the tags, or the text of an error.
  unfoldable pub create_registry_snapshot :
      Result GoString (List GoString) → Result GoString RegistrySnapshot
  unfolding create_content_hash
  create_registry_snapshot (ok listed) =
      let tags = filter_cids is_valid_cid listed in
      ok (record { tags = tags; content_hash = create_content_hash tags })
  create_registry_snapshot (err text) =
      if is_repository_not_found_error text then ok empty_snapshot else err text

  -- The first part of runRegistryMonitoring, in the goroutine with this context.
  abbrev pub begun : ℕ → Result GoString RegistrySnapshot → MonitorService → MonitorService
  begun c (ok snapshot) m = record m {
    goroutines = at_context c (λ g. record g { phase = looping }) m.goroutines;
    last_snapshot = some snapshot;
  }
  begun c (err text) m = leave_monitoring c m

  unfoldable pub begin_registry_monitoring :
      ℕ → Result GoString (List GoString) → MonitorService → MonitorService
  begin_registry_monitoring c listed m = begun c (create_registry_snapshot listed) m

-- The tags that are not among the old ones.
unfoldable pub added_tags : List GoString → List GoString → List GoString
added_tags old [] = []
added_tags old (tag ∷ tags) =
    let rest = added_tags old tags in if any (λ t. t == tag) old then rest else tag ∷ rest

unfoldable pub detect_changes : RegistrySnapshot → RegistrySnapshot → RegistryChanges
detect_changes old new =
    let added = added_tags old.tags new.tags in
    if old.content_hash == new.content_hash
    then record { new_tags = []; has_changes = false }
    else record { new_tags = added; has_changes = ltb 0 (length added) }

module _ {Rec Meta Fault : Type 0} (store : StoreApi Rec Meta Fault) (db : SearchDb Rec GoString)
    (Zot : Type 0) (pull_public_key : Option (GoString → store.State → Result Fault GoString))
    (upload : GoString → Zot → Zot) where
  abbrev pub Indexing : Type 0
  Indexing = store.State × db.State × Zot

  -- indexRecord; a failure is logged.
  abbrev pub index_pulled : Result Fault Rec × store.State → db.State → Zot → Indexing
  index_pulled (ok r, s) d z = (s, (db.add_record r d).1, z)
  index_pulled (err e, s) d z = (s, d, z)

  unfoldable pub index_record : GoString → Indexing → Indexing
  index_record tag (s, d, z) = index_pulled (store.pull tag s) d z

  -- uploadPublicKey
  abbrev pub upload_pulled : Result Fault GoString → Zot → Zot
  upload_pulled (ok key) z = upload key z
  upload_pulled (err e) z = z

  unfoldable pub upload_public_key : GoString → Indexing → Indexing
  upload_public_key tag (s, d, z) = elim pull_public_key [
    | none ↦ (s, d, z)
    | some pull ↦ (s, d, upload_pulled (pull tag s) z)
  ]

  unfoldable pub process_changes : List GoString → Indexing → Indexing
  process_changes [] x = x
  process_changes (tag ∷ tags) x = process_changes tags (upload_public_key tag (index_record tag x))

  -- performMonitoringCheck
  abbrev pub compared :
      Option RegistrySnapshot
      → RegistrySnapshot
      → MonitorService
      → Indexing
      → Option (MonitorService × Indexing)
  compared none snapshot m x = none
  compared (some old) snapshot m x =
      let changes = detect_changes old snapshot in
      some (
        record m { last_snapshot = some snapshot },
        if changes.has_changes then process_changes changes.new_tags x else x,
      )

  unfoldable pub perform_monitoring_check :
      Result GoString RegistrySnapshot
      → MonitorService × Indexing
      → Option (MonitorService × Indexing)
  perform_monitoring_check (err text) (m, x) = some (m, x)
  perform_monitoring_check (ok snapshot) (m, x) = compared m.last_snapshot snapshot m x
