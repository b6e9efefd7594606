-- ===== src/Sync/Monitor/Indexed.antt =====
-- The search database keeps up with the registry.
use agntcy_dir.Base.{
  ◌≡◌, ◌≢◌, refl, sym, ap, subst, ◌∙◌, Bool, true, false, Bool-cases, inl, inr, Option, some,
  Option-cases, List, [], ◌∷◌, In, All_at, any, any-In, In-any, if◌then◌else◌, All,
}
use agntcy_dir.Base.Text.{GoString, ◌==◌, eq_iff, eq_refl}
use agntcy_dir.Base.Result.{Result, ok, err}
use agntcy_dir.Store.Cache.{StoreApi}
use agntcy_dir.Controllers.Store.{RecordApi, SearchDb}
use agntcy_dir.Sync.Monitor.{
  MonitorService, Indexing, hashed_text, index_record, index_pulled, upload_public_key,
  process_changes, detect_changes, perform_monitoring_check,
}
use agntcy_dir.Sync.Monitor.Changes.{IsTag, snapshot_of, detect_changes_exact}

-- A database whose AddRecord lists the record, if it does not already, and delists none.
pub record IsAdding {Rec : Type 0} (records : RecordApi Rec) (db : SearchDb Rec GoString)
    : Type 1 where
  pub lists : db.State → GoString → Type 0
  pub added : (r : Rec) (d : db.State) → lists (db.add_record r d).1 (records.cid_of r)
  pub keeps :
      (r : Rec) (cid : GoString) (d : db.State) → lists d cid → lists (db.add_record r d).1 cid

-- A store that pulls what is asked for, and that pulling does not change.
pub record IsReading {Rec Meta Fault : Type 0} (records : RecordApi Rec)
    (store : StoreApi Rec Meta Fault) : Type 0 where
  pub same : (cid : GoString) (s : store.State) → (store.pull cid s).1 ≡ s
  pub pulled :
      (cid : GoString) (s : store.State) (r : Rec)
      → (store.pull cid s).0 ≡ ok r
      → records.cid_of r ≡ cid

module _ {Rec Meta Fault : Type 0} (records : RecordApi Rec) (store : StoreApi Rec Meta Fault)
    (db : SearchDb Rec GoString) (Zot : Type 0)
    (pull_public_key : Option (GoString → store.State → Result Fault GoString))
    (upload : GoString → Zot → Zot) (adding : IsAdding records db)
    (reading : IsReading records store) where
  abbrev pub World : Type 0
  World = Indexing store db Zot pull_public_key upload

  -- The store has the record of the tag.
  abbrev pub IsStored : GoString → store.State → Type 0
  IsStored tag s = (r : Rec) × ((store.pull tag s).0 ≡ ok r)

  -- What a step of indexing leaves: the store, and every CID that was listed.
  abbrev Extends : World → World → Type 0
  Extends x y = (y.0 ≡ x.0) × ((cid : GoString) → adding.lists x.1 cid → adding.lists y.1 cid)

  index_pulled-Extends :
      (q : Result Fault Rec × store.State) (s : store.State) (d : db.State) (z : Zot)
      → q.1 ≡ s
      → Extends (s, d, z) (index_pulled store db Zot pull_public_key upload q d z)
  index_pulled-Extends (ok r, s') s d z same = (same, λ cid h. adding.keeps r cid d h)
  index_pulled-Extends (err e, s') s d z same = (same, λ cid h. h)

  index_record-lists :
      (q : Result Fault Rec × store.State) (tag : GoString) (r : Rec) (d : db.State) (z : Zot)
      → q.0 ≡ ok r
      → records.cid_of r ≡ tag
      → adding.lists (index_pulled store db Zot pull_public_key upload q d z).1 tag
  index_record-lists (ok x, s') tag r d z got named =
      let same : x ≡ r = cc in
      subst (adding.lists (db.add_record x d).1) (ap records.cid_of same ∙ named) (adding.added x d)
  index_record-lists (err e, s') tag r d z got named = absurd (cc)

  -- One tag: what is left, and that it is listed if it is stored.
  one_tag :
      (tag : GoString) (x : World)
      → let y =
          upload_public_key store db Zot pull_public_key upload tag
            (index_record store db Zot pull_public_key upload tag x) in
        Extends x y × (IsStored tag x.0 → adding.lists y.1 tag)
  unfolding index_record upload_public_key
  one_tag tag (s, d, z) = elim (Option-cases pull_public_key) [
    | inl nothing ↦ rw (nothing) (indexed, listed)
    | inr (f, there) ↦ rw (there) (indexed, listed)
  ]
    where
      indexed :
          Extends
            (s, d, z)
            (index_pulled store db Zot pull_public_key upload (store.pull tag s) d z)
      indexed = index_pulled-Extends (store.pull tag s) s d z (reading.same tag s)

      listed :
          IsStored tag s
          → adding.lists
              (index_pulled store db Zot pull_public_key upload (store.pull tag s) d z).1
              tag
      listed (r, got) =
          index_record-lists (store.pull tag s) tag r d z got (reading.pulled tag s r got)

  process_changes-lists :
      (tags : List GoString) (x : World)
      → Extends x (process_changes store db Zot pull_public_key upload tags x)
        × ((tag : GoString)
            → In tag tags
            → IsStored tag x.0
            → adding.lists (process_changes store db Zot pull_public_key upload tags x).1 tag)
  unfolding process_changes
  process_changes-lists [] x = ((refl, λ cid h. h), (λ tag there stored. absurd there))
  process_changes-lists (t ∷ tags) x =
      let ((kept, more), listed) = one_tag t x in
      let y =
        upload_public_key store db Zot pull_public_key upload t
          (index_record store db Zot pull_public_key upload t x) in
      let ((kept', more'), listed') = process_changes-lists tags y in
      (
        (kept' ∙ kept, λ cid h. more' cid (more cid h)),
        (λ tag there stored. elim there [
          | inl same ↦ more' tag (
              subst (adding.lists y.1) (sym same)
                (listed (subst (λ c. IsStored c x.0) same stored)))
          | inr later ↦ listed' tag later (subst (IsStored tag) (sym kept) stored)
        ]),
      )

  -- Processing runs only when there are changes, which loses nothing.
  processed-lists :
      (tags : List GoString) (b : Bool) (x : World)
      → (tags ≢ [] → b ≡ true)
      → let y = if b then process_changes store db Zot pull_public_key upload tags x else x in
        Extends x y × ((tag : GoString) → In tag tags → IsStored tag x.0 → adding.lists y.1 tag)
  processed-lists tags true x run = process_changes-lists tags x
  processed-lists [] false x run = ((refl, λ cid h. h), (λ tag there stored. absurd there))
  processed-lists (t ∷ tags) false x run = let clash : false ≡ true = run (λ e. cc) in cc

  all_listed :
      (P : GoString → Type 0) (new : List GoString) → ((t : GoString) → In t new → P t) → All P new
  all_listed P [] each = tt
  all_listed P (t ∷ new) each =
      (each t (inl refl), all_listed P new (λ u there. each u (inr there)))

  -- If every tag of the last snapshot is listed in the search database, a check that finds a snapshot
  -- whose tags all have their record in the store lists every one of them and makes it the last, for a
  -- database whose AddRecord lists the record, a store that pulls what it is asked for, tags with no
  -- bar, and texts of the two snapshots that do not collide under SHA-256.
  pub check_indexes :
      (sha256 : GoString → GoString)
      → (old new : List GoString)
      → (sha256 (hashed_text old) ≡ sha256 (hashed_text new) → hashed_text old ≡ hashed_text new)
      → (m : MonitorService) (x : World) → m.last_snapshot ≡ some (snapshot_of sha256 old)
      → All IsTag old
      → All IsTag new
      → All (adding.lists x.1) old
      → All (λ tag. IsStored tag x.0) new
      → (m' : MonitorService) × (x' : World) × (perform_monitoring_check store db Zot
            pull_public_key upload
            (ok (snapshot_of sha256 new))
            (m, x)
          ≡ some (m', x'))
        × (m'.last_snapshot ≡ some (snapshot_of sha256 new))
        × All (adding.lists x'.1) new
  unfolding perform_monitoring_check
  check_indexes sha256 old new collision_free m x last h k listed stored =
      let (exact, (_, runs)) = detect_changes_exact sha256 old new collision_free h k in
      let changes = detect_changes (snapshot_of sha256 old) (snapshot_of sha256 new) in
      let ((kept, more), found) = processed-lists changes.new_tags changes.has_changes x runs in
      (
        record m { last_snapshot = some (snapshot_of sha256 new) },
        (if changes.has_changes
            then process_changes store db Zot pull_public_key upload changes.new_tags x
            else x),
        rw last refl,
        refl,
        all_listed _ new (λ tag there. elim (Bool-cases (any (λ t. t == tag) old)) [
          | inl known ↦
              let (t, held, eq) = In-any (λ t. t == tag) old known in
              more tag (
                All_at (adding.lists x.1) tag old listed
                  (subst (λ y. In y old) ((eq_iff t tag).0 eq) held))
          | inr unknown ↦
              found tag
                ((exact tag).1 (
                  there,
                  λ held. let hit = any-In (λ t. t == tag) old tag held (eq_refl tag) in cc,
                ))
                (All_at (λ t. IsStored t x.0) tag new stored there)
        ]),
      )
