-- ===== src/Publications/Worker.antt =====
-- The worker of the publication service (server/publication/worker.go): it announces the records of a
-- publication and writes the outcome. The store, the router and the look-up of CIDs by queries are
-- parameters; the timeout does not strike.
use agntcy_dir.Base.{
  ℕ, suc, ◌≤◌, ◌≡◌, ◌↔◌, ◌⊎◌, refl, sym, ap, ◌∙◌, Bool-cases, inl, inr, Option, none, some, List,
  [], ◌∷◌, arith, length, eqb, if◌then◌else◌, subst,
}
use agntcy_dir.Base.Text.{GoString}
use agntcy_dir.Base.Result.{Result, ok, err, Result-cases}
use agntcy_dir.Base.Action.{Action}
use agntcy_dir.Store.Cache.{StoreApi}
use agntcy_dir.Publications.Rows.{
  PublicationStatus, PublishRequest, Publication, PublicationTable, IsReliableTable, record_refs,
  queries, missing, completed, failed, with_publication_status, update_publication_status,
  updated_row,
}

-- Publish of types.RoutingAPI.
pub record Router (Rec Fault : Type 0) : Type 1 where
  pub State : Type 0
  pub publish : GoString → Rec → Action State Fault (Unit {0})

pub data WorkError (Fault : Type 0) : Type 0 where
  failed_by : Fault → WorkError Fault
  unknown_request : WorkError Fault

module _ {Query Rec Meta Fault : Type 0} (table : PublicationTable Query Fault)
    (store : StoreApi Rec Meta Fault) (router : Router Rec Fault)
    (get_record_cids : List Query → Result Fault (List GoString)) where
  abbrev pub Announcing : Type 0
  Announcing = store.State × router.State

  -- announceToDHT
  abbrev pub publish_pulled :
      GoString
      → Result Fault Rec × store.State
      → router.State
      → Result Fault (Unit {0}) × Announcing
  publish_pulled cid (ok r, o) n = let (done, n') = router.publish cid r n in (done, (o, n'))
  publish_pulled cid (err e, o) n = (err e, (o, n))

  unfoldable pub announce_to_dht : GoString → Action Announcing Fault (Unit {0})
  announce_to_dht cid (o, n) = publish_pulled cid (store.pull cid o) n

  abbrev pub as_work_error : {A : Type 0} → Result Fault A → Result (WorkError Fault) A
  as_work_error (ok a) = ok a
  as_work_error (err e) = err (failed_by e)

  -- getCIDsFromRequest
  unfoldable pub get_cids_from_request :
      PublishRequest Query → Result (WorkError Fault) (List GoString)
  get_cids_from_request (record_refs cids) = ok cids
  get_cids_from_request (queries qs) = as_work_error (get_record_cids qs)
  get_cids_from_request missing = err unknown_request

  -- The loop over the CIDs: how many were announced.
  abbrev pub count_announced : Result Fault (Unit {0}) → ℕ × Announcing → ℕ × Announcing
  count_announced (ok _) (n, x) = (suc n, x)
  count_announced (err e) (n, x) = (n, x)

  unfoldable pub announce_all : List GoString → Announcing → ℕ × Announcing
  announce_all [] x = (0, x)
  announce_all (cid ∷ cids) x =
      let (r, x') = announce_to_dht cid x in count_announced r (announce_all cids x')

  -- The status that the work on a publication ends in.
  abbrev pub outcome_of : List GoString → Announcing → PublicationStatus × Announcing
  outcome_of [] x = (completed, x)
  outcome_of (cid ∷ cids) x =
      let (n, x') = announce_all (cid ∷ cids) x in
      (if eqb n (length (cid ∷ cids)) then completed else failed, x')

  abbrev pub outcome_of_cids :
      Result (WorkError Fault) (List GoString) → Announcing → PublicationStatus × Announcing
  outcome_of_cids (ok cids) x = outcome_of cids x
  outcome_of_cids (err e) x = (failed, x)

  abbrev pub outcome_of_request :
      Option (PublishRequest Query) → Announcing → PublicationStatus × Announcing
  outcome_of_request none x = (failed, x)
  outcome_of_request (some request) x = outcome_of_cids (get_cids_from_request request) x

  abbrev pub outcome_of_publication :
      Result Fault (Publication Query) → Announcing → PublicationStatus × Announcing
  outcome_of_publication (ok p) x = outcome_of_request p.request x
  outcome_of_publication (err e) x = (failed, x)

  -- processPublication, with markPublicationCompleted or markPublicationFailed
  unfoldable pub process_publication :
      GoString → table.State × Announcing → table.State × Announcing
  process_publication id (s, x) =
      let (status, x') = outcome_of_publication (table.first id s) x in
      ((update_publication_status table id status s).1, x')

  -- Every CID is announced, one after the other.
  abbrev pub AllAnnounced : List GoString → Announcing → Type 0
  AllAnnounced [] x = Unit
  AllAnnounced (cid ∷ cids) x =
      ((announce_to_dht cid x).0 ≡ ok tt) × AllAnnounced cids (announce_to_dht cid x).1

  announce_all_iff :
      (cids : List GoString) (x : Announcing)
      → ((announce_all cids x).0 ≤ length cids)
        × (((announce_all cids x).0 ≡ length cids) ↔ AllAnnounced cids x)
  unfolding announce_all
  announce_all_iff [] x = (omega arith, ((λ e. tt), (λ h. refl)))
  announce_all_iff (cid ∷ cids) x = elim (Result-cases (announce_to_dht cid x).0) [
    | inl (done, worked) ↦
        let (most, (into, out)) = announce_all_iff cids (announce_to_dht cid x).1 in
        rw (worked) (
          omega (arith, most),
          (
            (λ e.
                let fewer : (announce_all cids (announce_to_dht cid x).1).0 ≡ length cids =
                  omega (arith, e) in
                (refl, into fewer)),
            (λ h. ap suc (out h.1)),
          ),
        )
    | inr (e, broke) ↦
        let (most, (into, out)) = announce_all_iff cids (announce_to_dht cid x).1 in
        rw (broke) (
          omega (arith, most),
          ((λ same. absurd (omega (arith, most, same))), (λ h. let clash = h.0 in cc)),
        )
  ]

  -- The CIDs that a request names.
  abbrev pub Names : Option (PublishRequest Query) → List GoString → Type 0
  Names none cids = ⊥
  Names (some (record_refs refs)) cids = refs ≡ cids
  Names (some (queries qs)) cids = get_record_cids qs ≡ ok cids
  Names (some missing) cids = ⊥

  -- The request names CIDs, and each of them is pulled and published.
  abbrev pub IsAnnounced : Option (PublishRequest Query) → Announcing → Type 0
  IsAnnounced request x = (cids : List GoString) × Names request cids × AllAnnounced cids x

  outcome_of_lem :
      (cids : List GoString) (x : Announcing)
      → (((outcome_of cids x).0 ≡ completed) × AllAnnounced cids x)
        ⊎ (((outcome_of cids x).0 ≡ failed) × (AllAnnounced cids x → ⊥))
  outcome_of_lem [] x = inl (refl, tt)
  outcome_of_lem (cid ∷ cids) x =
      let (_, (into, out)) = announce_all_iff (cid ∷ cids) x in
      elim (Bool-cases (eqb (announce_all (cid ∷ cids) x).0 (length (cid ∷ cids)))) [
        | inl all ↦ inl (rw all refl, into (ground arith))
        | inr some_not ↦ inr (rw some_not refl, λ h. let all = out h in ground arith)
      ]

  outcome_of_request_lem :
      (request : Option (PublishRequest Query)) (x : Announcing)
      → (((outcome_of_request request x).0 ≡ completed) × IsAnnounced request x)
        ⊎ (((outcome_of_request request x).0 ≡ failed) × (IsAnnounced request x → ⊥))
  unfolding get_cids_from_request
  outcome_of_request_lem none x = inr (refl, λ (cids, named, _). named)
  outcome_of_request_lem (some (record_refs refs)) x = elim (outcome_of_lem refs x) [
    | inl (done, all) ↦ inl (done, (refs, refl, all))
    | inr (undone, some_not) ↦
        inr (undone, λ (cids, named, all). some_not (subst (λ l. AllAnnounced l x) (sym named) all))
  ]
  outcome_of_request_lem (some (queries qs)) x = elim (Result-cases (get_record_cids qs)) [
    | inl (found, got) ↦ elim (outcome_of_lem found x) [
      | inl (done, all) ↦
          inl (ap (λ q. (outcome_of_cids (as_work_error q) x).0) got ∙ done, (found, got, all))
      | inr (undone, some_not) ↦ inr (
        ap (λ q. (outcome_of_cids (as_work_error q) x).0) got ∙ undone,
        λ (cids, named, all).
            let same : found ≡ cids = cc in some_not (subst (λ l. AllAnnounced l x) (sym same) all),
      )
    ]
    | inr (e, broke) ↦ inr (
      ap (λ q. (outcome_of_cids (as_work_error q) x).0) broke,
      λ (cids, named, _).
          let clash : ◌≡◌ {A = Result Fault (List GoString)} (err e) (ok cids) =
            sym broke ∙ named in
          cc,
    )
  ]
  outcome_of_request_lem (some missing) x = inr (refl, λ (cids, named, _). named)

  -- On a table that does not fail, a worker leaves its publication completed if its request decodes and
  -- names CIDs whose records are all pulled and published, also if it names none, and else failed.
  pub process_publication_status :
      (rel : IsReliableTable table) (id : GoString) (p : Publication Query) (s : table.State)
      (x : Announcing)
      → rel.row s id ≡ some p
      → let s' = (process_publication id (s, x)).0 in
        ((rel.row s' id ≡ some (with_publication_status completed p)) × IsAnnounced p.request x)
        ⊎ ((rel.row s' id ≡ some (with_publication_status failed p))
            × (IsAnnounced p.request x → ⊥))
  unfolding process_publication
  process_publication_status rel id p s x there =
      let status = (outcome_of_publication (table.first id s) x).0 in
      let read : status ≡ (outcome_of_request p.request x).0 =
        rw (rel.first_lem id p s there) refl in
      let row = updated_row table rel id status p s there in
      elim (outcome_of_request_lem p.request x) [
        | inl (done, all) ↦
            inl (row ∙ ap (λ t. some (with_publication_status t p)) (read ∙ done), all)
        | inr (undone, none_of) ↦
            inr (row ∙ ap (λ t. some (with_publication_status t p)) (read ∙ undone), none_of)
      ]
