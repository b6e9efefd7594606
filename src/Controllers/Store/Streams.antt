-- ===== src/Controllers/Store/Streams.antt =====
-- Streams of records that go through, and streams that stop at a refused record.
use agntcy_dir.Base.{
  ◌≤◌, ◌<◌, ◌≡◌, ◌≢◌, refl, ◌∙◌, true, false, List, [], ◌∷◌, ◌++◌, append_assoc, append-nil, map,
  All, arith, some,
}
use agntcy_dir.Base.Text.{GoString, eq_iff}
use agntcy_dir.Base.Result.{Result, ok, err}
use agntcy_dir.Store.Cache.{StoreApi}
use agntcy_dir.Controllers.Stream.{Client, Takes, serve, serve_from, as_status, respond, after_send}
use agntcy_dir.Controllers.Stream.Rounds.{serve_from-append}
use agntcy_dir.Controllers.Store.{
  RecordApi, SearchDb, Refusal, no_data, no_cid, too_large, max_record_size, validate_record,
  validate_record_ref, push_record_to_store, pull_record_from_store, StoreCtrl,
  validate_and_get_cid, on_store, push_failed, pull_failed, send_failed, push_round, pull_round,
  push, pull,
}

-- A record that Push takes, and why it refuses one.
pub record IsAccepted {Rec : Type 0} (records : RecordApi Rec) (r : Rec) : Type 0 where
  pub full : records.has_data r ≡ true
  pub small : records.size r ≤ max_record_size
  pub cid : records.cid_of r ≢ []

pub data IsRefused {Rec Fault : Type 0} (records : RecordApi Rec) (r : Rec)
    : Refusal Fault → Type 0 where
  empty : records.has_data r ≡ false → IsRefused records r no_data
  large :
      records.has_data r ≡ true
      → max_record_size < records.size r
      → IsRefused records r (too_large (records.size r))
  nameless :
      records.has_data r ≡ true
      → records.size r ≤ max_record_size
      → records.cid_of r ≡ []
      → IsRefused records r no_cid

abbrev pub requesting :
    {Fault A B : Type 0}
    → List A
    → Result Fault (Unit {0})
    → (List B → B → Result Fault (Unit {0}))
    → Client Fault A B
requesting requests ending sends = record { requests = requests; ending = ending; sends = sends }

-- A store addressed by content whose pushes do not fail.
pub record IsContentStore {Rec Meta Fault : Type 0} (records : RecordApi Rec)
    (store : StoreApi Rec Meta Fault) : Type 0 where
  pub push_ok : (r : Rec) (s : store.State) → (store.push r s).0 ≡ ok (records.cid_of r)
  pub push_pull :
      (r : Rec) (s : store.State) → (store.pull (records.cid_of r) (store.push r s).1).0 ≡ ok r
  pub push_keeps :
      (r x : Rec) (cid : GoString) (s : store.State)
      → (store.pull cid s).0 ≡ ok x
      → (store.pull cid (store.push r s).1).0 ≡ ok x
  pub pull_same : (cid : GoString) (s : store.State) → (store.pull cid s).1 ≡ s

module _ {Rec Meta Fault : Type 0} (records : RecordApi Rec) (store : StoreApi Rec Meta Fault)
    (db : SearchDb Rec Fault) where
  validate-IsRefused :
      (r : Rec) (e : Refusal Fault) → IsRefused records r e → validate_and_get_cid records r ≡ err e
  unfolding validate_and_get_cid validate_record
  validate-IsRefused r _ (empty none_there) = ground arith
  validate-IsRefused r _ (large full over) = ground arith
  validate-IsRefused r _ (nameless full small no_name) =
      ground (arith, eq_iff (records.cid_of r) [])

  validate-IsAccepted :
      (r : Rec)
      → IsAccepted records r
      → validate_and_get_cid {Fault = Fault} records r ≡ ok (records.cid_of r)
  unfolding validate_and_get_cid validate_record
  validate-IsAccepted r a = ground (arith, a.full, a.small, a.cid, eq_iff (records.cid_of r) [])

  stops :
      (sends : List GoString → GoString → Result (Refusal Fault) (Unit {0}))
      (ending : Result (Refusal Fault) (Unit {0})) (sent : List GoString) (bad : Rec)
      (e : Refusal Fault) (rest : List Rec) (t : StoreCtrl records store db)
      → IsRefused records bad e
      → serve_from (push_round records store db) sends ending (bad ∷ rest) sent t
        ≡ (record { outcome = err e; responses = sent }, t)
  unfolding serve_from push_round
  stops sends ending sent bad e rest t refused =
      rw (validate-IsRefused bad e refused, push_round) refl

  -- If the records before it go through, Push stops at a record without data, of more than 4 MB or
  -- without a CID: it returns that refusal after the responses to the records before, and neither the
  -- refused record nor any after it touches the store or the search database.
  pub push_first_refused :
      (sends : List GoString → GoString → Result Fault (Unit {0}))
      (ending : Result Fault (Unit {0})) (before rest : List Rec) (bad : Rec) (e : Refusal Fault)
      (t : StoreCtrl records store db)
      → IsRefused records bad e
      → (push records store db (requesting before (ok tt) sends) t).0.outcome ≡ ok tt
      → push records store db (requesting (before ++ (bad ∷ rest)) ending sends) t ≡ (
        record {
          outcome = err e;
          responses = (push records store db (requesting before (ok tt) sends) t).0.responses;
        },
        (push records store db (requesting before (ok tt) sends) t).1,
      )
  unfolding push serve
  push_first_refused sends ending before rest bad e t refused through =
      serve_from-append (push_round records store db) _ _ before (bad ∷ rest) [] t through
      ∙ stops _ _ _ bad e rest _ refused

  module _ (content : IsContentStore records store) where
    pushes : List Rec → store.State → store.State
    pushes [] s = s
    pushes (r ∷ rs) s = pushes rs (store.push r s).1

    holds_after :
        (rs : List Rec) (cid : GoString) (x : Rec) (s : store.State)
        → (store.pull cid s).0 ≡ ok x
        → (store.pull cid (pushes rs s)).0 ≡ ok x
    unfolding pushes
    holds_after [] cid x s there = there
    holds_after (r ∷ rs) cid x s there =
        holds_after rs cid x (store.push r s).1 (content.push_keeps r x cid s there)

    holds_pushed :
        (rs : List Rec) (s : store.State)
        → All (λ r. (store.pull (records.cid_of r) (pushes rs s)).0 ≡ ok r) rs
    unfolding pushes
    holds_pushed [] s = tt
    holds_pushed (r ∷ rs) s = (
      holds_after rs (records.cid_of r) r (store.push r s).1 (content.push_pull r s),
      holds_pushed rs (store.push r s).1,
    )

    push_round-IsAccepted :
        (r : Rec) (t : StoreCtrl records store db)
        → IsAccepted records r
        → push_round records store db r t
          ≡ (ok (some (records.cid_of r)), ((store.push r t.0).1, (db.add_record r t.1).1))
    unfolding push_round push_record_to_store
    push_round-IsAccepted r (s, d) a =
        rw (validate-IsAccepted r a, push_round, push_record_to_store)
          (pushed_lem (store.push r s) (content.push_ok r s))
      where
        pushed_lem :
            (q : Result Fault GoString × store.State)
            → q.0 ≡ ok (records.cid_of r)
            → on_store records store db push_failed some (λ d. (db.add_record r d).1) q d
              ≡ (ok (some (records.cid_of r)), (q.1, (db.add_record r d).1))
        pushed_lem (ok ref, s') same = cc
        pushed_lem (err e, s') same = cc

    pull_round-there :
        (r : Rec) (s : store.State) (d : db.State)
        → records.cid_of r ≢ []
        → (store.pull (records.cid_of r) s).0 ≡ ok r
        → pull_round records store db (records.cid_of r) (s, d) ≡ (ok (some r), (s, d))
    unfolding pull_round pull_record_from_store validate_record_ref
    pull_round-there r s d named there =
        let checked : validate_record_ref {Fault = Fault} (records.cid_of r) ≡ ok tt =
          ground (arith, eq_iff (records.cid_of r) [], named) in
        rw (checked, pull_round, pull_record_from_store)
          (pulled_lem (store.pull (records.cid_of r) s) there
            (content.pull_same (records.cid_of r) s))
      where
        pulled_lem :
            (q : Result Fault Rec × store.State)
            → q.0 ≡ ok r
            → q.1 ≡ s
            → on_store records store db pull_failed some (λ d. d) q d ≡ (ok (some r), (s, d))
        pulled_lem (ok x, s') same kept = cc
        pulled_lem (err e, s') same kept = cc

    push_all :
        (sends : List GoString → GoString → Result (Refusal Fault) (Unit {0}))
        (ending : Result (Refusal Fault) (Unit {0})) (rs : List Rec) (sent : List GoString)
        (s : store.State) (d : db.State)
        → Takes sends
        → All (IsAccepted records) rs
        → (d' : db.State) × (serve_from (push_round records store db) sends ending rs sent (s, d)
            ≡ (
              record { outcome = ending; responses = sent ++ map records.cid_of rs },
              (pushes rs s, d'),
            ))
    unfolding serve_from pushes
    push_all sends ending [] sent s d takes accepted = (d, rw (append-nil sent) refl)
    push_all sends ending (r ∷ rs) sent s d takes (a, accepted) =
        let (d', same) =
          push_all sends ending rs (sent ++ (records.cid_of r ∷ [])) (store.push r s).1
            (db.add_record r d).1 takes accepted in
        (
          d',
          rw (push_round-IsAccepted r (s, d) a, respond, after_send, takes sent (records.cid_of r))
              (same ∙ rw (append_assoc sent (records.cid_of r ∷ []) (map records.cid_of rs)) refl),
        )

    pull_all :
        (sends : List Rec → Rec → Result (Refusal Fault) (Unit {0}))
        (ending : Result (Refusal Fault) (Unit {0})) (rs sent : List Rec) (s : store.State)
        (d : db.State)
        → Takes sends
        → All (λ r. (records.cid_of r ≢ []) × ((store.pull (records.cid_of r) s).0 ≡ ok r)) rs
        → serve_from (pull_round records store db) sends ending (map records.cid_of rs) sent (s, d)
          ≡ (record { outcome = ending; responses = sent ++ rs }, (s, d))
    unfolding serve_from
    pull_all sends ending [] sent s d takes found = rw (append-nil sent) refl
    pull_all sends ending (r ∷ rs) sent s d takes ((named, there), found) =
        rw (pull_round-there r s d named there, respond, after_send, takes sent r)
          (pull_all sends ending rs (sent ++ (r ∷ [])) s d takes found
            ∙ rw (append_assoc sent (r ∷ []) rs) refl)

    named_and_there :
        (rs : List Rec) (s : store.State)
        → All (IsAccepted records) rs
        → All (λ r. (store.pull (records.cid_of r) s).0 ≡ ok r) rs
        → All (λ r. (records.cid_of r ≢ []) × ((store.pull (records.cid_of r) s).0 ≡ ok r)) rs
    named_and_there [] s accepted found = tt
    named_and_there (r ∷ rs) s (a, accepted) (there, found) =
        ((a.cid, there), named_and_there rs s accepted found)

    -- With a client that takes every response and a store addressed by content whose pushes do not
    -- fail, pulling the references that Push sent back for a stream of accepted records returns the
    -- records, in order, and changes nothing, whatever the search database did.
    pub pull-push :
        (takes_refs : List GoString → GoString → Result Fault (Unit {0}))
        (takes_records : List Rec → Rec → Result Fault (Unit {0})) (rs : List Rec)
        (t : StoreCtrl records store db)
        → Takes takes_refs
        → Takes takes_records
        → All (IsAccepted records) rs
        → let (pushed, t') = push records store db (requesting rs (ok tt) takes_refs) t in
          (pushed.outcome ≡ ok tt)
          × (pull records store db (requesting pushed.responses (ok tt) takes_records) t'
              ≡ (record { outcome = ok tt; responses = rs }, t'))
    unfolding push pull serve
    pull-push takes_refs takes_records rs (s, d) refs recs accepted =
        let (d', pushed) =
          push_all (λ sent b. as_status send_failed (takes_refs sent b)) (ok tt) rs [] s d
            (λ sent b. rw (refs sent b) refl) accepted in
        rw pushed (
          refl,
          pull_all (λ sent b. as_status send_failed (takes_records sent b)) (ok tt) rs []
              (pushes rs s) d' (λ sent b. rw (recs sent b) refl)
              (named_and_there rs (pushes rs s) accepted (holds_pushed rs s)),
        )
