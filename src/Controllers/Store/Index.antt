-- ===== src/Controllers/Store/Index.antt =====
-- What the streams of the store controller do with the search database.
use agntcy_dir.Base.{◌≡◌, ◌≢◌, ◌⊎◌, inl, inr, refl, subst, none, some, []}
use agntcy_dir.Base.Text.{GoString}
use agntcy_dir.Base.Result.{Result, ok, err, Result-cases}
use agntcy_dir.Store.Cache.{StoreApi}
use agntcy_dir.Controllers.Stream.{Client, serve}
use agntcy_dir.Controllers.Stream.Simulation.{Alike, serve_from-Alike}
use agntcy_dir.Controllers.Store.{
  RecordApi, SearchDb, Refusal, push_failed, delete_failed, StoreCtrl, on_store,
  validate_and_get_cid, validate_record_ref, push_record_to_store, push_round, delete_round, push,
  delete,
}

module _ {Rec Meta Fault : Type 0} (records : RecordApi Rec) (store : StoreApi Rec Meta Fault) where
  module _ (db db' : SearchDb Rec Fault) where
    abbrev pub SameStore : StoreCtrl records store db → StoreCtrl records store db' → Type 0
    SameStore (s, d) (s', d') = s ≡ s'

    on_store-Alike :
        {A B : Type 0} (failed : Fault → Refusal Fault) (answer : A → B)
        (index : db.State → db.State) (index' : db'.State → db'.State)
        (r : Result Fault A × store.State) (d : db.State) (d' : db'.State)
        → Alike SameStore
            (on_store records store db failed answer index r d)
            (on_store records store db' failed answer index' r d')
    on_store-Alike failed answer index index' (ok a, s) d d' = (refl, refl)
    on_store-Alike failed answer index index' (err e, s) d d' = (refl, refl)

    push_round-Alike :
        (r : Rec) (s : store.State) (d : db.State) (d' : db'.State)
        → Alike SameStore
            (push_round records store db r (s, d))
            (push_round records store db' r (s, d'))
    unfolding push_round push_record_to_store
    push_round-Alike r s d d' =
        elim (Result-cases (validate_and_get_cid {Fault = Fault} records r)) [
          | inl (cid, accepted) ↦
              rw (accepted, push_round) (on_store-Alike push_failed some _ _ (store.push r s) d d')
          | inr (e, refused) ↦ rw (refused, push_round) (refl, refl)
        ]

    delete_round-Alike :
        (cid : GoString) (s : store.State) (d : db.State) (d' : db'.State)
        → Alike SameStore
            (delete_round records store db cid (s, d))
            (delete_round records store db' cid (s, d'))
    unfolding delete_round
    delete_round-Alike cid s d d' = elim (Result-cases (validate_record_ref {Fault = Fault} cid)) [
      | inl (checked, accepted) ↦
          rw (accepted, delete_round)
            (on_store-Alike delete_failed (λ _. none) _ _ (store.delete cid s) d d')
      | inr (e, refused) ↦ rw (refused, delete_round) (refl, refl)
    ]

    -- Nothing that a client sees of Push or Delete, and nothing that they do to the store, depends on
    -- the search database, its state or its failures.
    pub push_delete_index_independent :
        (pushing : Client Fault Rec GoString) (deleting : Client Fault GoString (Unit {0}))
        (s : store.State) (d : db.State) (d' : db'.State)
        → Alike SameStore
            (push records store db pushing (s, d))
            (push records store db' pushing (s, d'))
          × Alike SameStore
              (delete records store db deleting (s, d))
              (delete records store db' deleting (s, d'))
    unfolding push delete serve
    push_delete_index_independent pushing deleting s d d' = (
      serve_from-Alike SameStore _ (push_round records store db) (push_round records store db') _
          pushing.requests [] (s, d) (s, d')
          (λ r t t' same.
            subst
              (λ s'.
                Alike SameStore (push_round records store db r t)
                  (push_round records store db' r (s', t'.1)))
              same (push_round-Alike r t.0 t.1 t'.1))
          refl,
      serve_from-Alike SameStore _ (delete_round records store db) (delete_round records store db')
          _ deleting.requests [] (s, d) (s, d')
          (λ c t t' same.
            subst
              (λ s'.
                Alike SameStore (delete_round records store db c t)
                  (delete_round records store db' c (s', t'.1)))
              same (delete_round-Alike c t.0 t.1 t'.1))
          refl,
    )

-- What a search database does with the CIDs that it lists: AddRecord lists at most the record, and
-- RemoveRecord, which does not fail, delists.
pub record IsIndex {Rec Fault : Type 0} (records : RecordApi Rec) (db : SearchDb Rec Fault)
    : Type 1 where
  pub lists : db.State → GoString → Type 0
  pub add_lem :
      (r : Rec) (cid : GoString) (d : db.State)
      → lists (db.add_record r d).1 cid
      → (records.cid_of r ≡ cid) ⊎ lists d cid
  pub remove_lem :
      (gone cid : GoString) (d : db.State)
      → lists (db.remove_record gone d).1 cid
      → (gone ≢ cid) × lists d cid

-- What a store keeps: what was pushed is there, and a push or the deletion of another CID takes
-- nothing away.
pub record KeepsRecords {Rec Meta Fault : Type 0} (records : RecordApi Rec)
    (store : StoreApi Rec Meta Fault) : Type 1 where
  pub holds : store.State → GoString → Type 0
  pub pushed :
      (r : Rec) (s : store.State) (ref : GoString)
      → (store.push r s).0 ≡ ok ref
      → holds (store.push r s).1 (records.cid_of r)
  pub push_keeps :
      (r : Rec) (cid : GoString) (s : store.State) → holds s cid → holds (store.push r s).1 cid
  pub delete_keeps :
      (gone cid : GoString) (s : store.State)
      → gone ≢ cid
      → holds s cid
      → holds (store.delete gone s).1 cid
  pub failed_delete_keeps :
      (gone cid : GoString) (s : store.State) (e : Fault)
      → (store.delete gone s).0 ≡ err e
      → holds s cid
      → holds (store.delete gone s).1 cid

module _ {Rec Meta Fault : Type 0} (records : RecordApi Rec) (store : StoreApi Rec Meta Fault)
    (db : SearchDb Rec Fault) (keeps : KeepsRecords records store)
    (index : IsIndex records db) where
  -- Every CID that the search database lists is in the store.
  abbrev pub IsBacked : StoreCtrl records store db → Type 0
  IsBacked (s, d) = (cid : GoString) → index.lists d cid → keeps.holds s cid
