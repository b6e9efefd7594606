-- ===== src/Examples/Controllers.antt =====
-- Streams of texts that are their own CIDs.
use agntcy_dir.Base.{
  ◌≡◌, ◌≢◌, ◌⊎◌, inl, inr, refl, true, Bool-cases, none, some, List, [], ◌∷◌, ◌++◌, arith, length,
}
use agntcy_dir.Base.Text.{GoString, lit, ◌==◌, eq_iff, eq_refl}
use agntcy_dir.Base.Result.{Result, ok, err}
use agntcy_dir.Routing.Datastore.{StoreError, failure}
use agntcy_dir.Controllers.Stream.{Client, as_status}
use agntcy_dir.Controllers.Stream.Simulation.{Alike}
use agntcy_dir.Controllers.Stream.Rounds.{total}
use agntcy_dir.Controllers.Store.{RecordApi, SearchDb, push, pull, delete, no_cid, receive_failed}
use agntcy_dir.Controllers.Store.Index.{
  SameStore, push_delete_index_independent, IsIndex, KeepsRecords,
}
use agntcy_dir.Controllers.Store.Streams.{
  nameless, requesting, IsContentStore, push_first_refused, pull-push,
}
use agntcy_dir.Controllers.Store.Referrers.{
  ReferrerStore, PushOptions, PullOptions, PushResponse, PullResponse, push_referrer, pull_referrer,
  due, due_pulled, referrers_answered,
}
use agntcy_dir.Examples.Cache.{
  holds, without, without_keeps, without_gone, source, found_pushed, found_more,
}

abbrev pub texts : RecordApi GoString
texts = record { has_data = λ r. true; size = λ r. length r; cid_of = λ r. r }

abbrev db : SearchDb GoString StoreError
db = record {
  State = List GoString;
  add_record = λ r d. (ok tt, r ∷ d);
  remove_record = λ cid d. (ok tt, without cid d);
}

abbrev broken_db : SearchDb GoString StoreError
broken_db = record {
  State = List GoString;
  add_record = λ r d. (err failure, d);
  remove_record = λ cid d. (err failure, d);
}

abbrev db-IsIndex : IsIndex texts db
db-IsIndex = record {
  lists = λ d cid. holds cid d ≡ true;
  add_lem = λ r cid d h. added r cid d h;
  remove_lem = λ gone cid d h. removed gone cid d h;
}
  where
    added :
        (r cid : GoString) (d : List GoString)
        → holds cid (r ∷ d) ≡ true
        → (r ≡ cid) ⊎ (holds cid d ≡ true)
    added r cid d h = ground (arith, eq_iff r cid)

    removed :
        (gone cid : GoString) (d : List GoString)
        → holds cid (without gone d) ≡ true
        → (gone ≢ cid) × (holds cid d ≡ true)
    removed gone cid d h = elim (Bool-cases (gone == cid)) [
      | inl same ↦
          let one = (eq_iff gone cid).0 same in
          let moved : holds cid (without gone d) ≡ holds cid (without cid d) = rw one refl in
          absurd (ground (arith, without_gone cid d, moved))
      | inr other ↦
          let apart : gone ≢ cid = λ e. ground (arith, eq_iff gone cid) in
          (apart, ground (arith, without_keeps gone cid d apart))
    ]

abbrev source-KeepsRecords : KeepsRecords texts source
source-KeepsRecords = record {
  holds = λ s cid. holds cid s ≡ true;
  pushed = λ r s ref h. rw (eq_refl r) refl;
  push_keeps = λ r cid s h. ground arith;
  delete_keeps = λ gone cid s apart h. rw (without_keeps gone cid s apart) h;
  failed_delete_keeps = λ gone cid s e h there. cc;
}

source-IsContentStore : IsContentStore texts source
source-IsContentStore = record {
  push_ok = λ r s. refl;
  push_pull = λ r s. found_pushed r s;
  push_keeps = λ r x cid s h. found_more r cid x s h;
  pull_same = λ cid s. refl;
}

abbrev takes : {B : Type 0} → List B → B → Result StoreError (Unit {0})
takes sent b = ok tt

abbrev two : List GoString
two = lit "a" ∷ lit "b" ∷ []

pull-push_example :
    ((push texts source db (requesting two (ok tt) takes) ([], [])).0.outcome ≡ ok tt)
    × (pull texts source db
          (requesting
            (push texts source db (requesting two (ok tt) takes) ([], [])).0.responses
            (ok tt)
            takes)
          (push texts source db (requesting two (ok tt) takes) ([], [])).1
        ≡ (
          record { outcome = ok tt; responses = two },
          (push texts source db (requesting two (ok tt) takes) ([], [])).1,
        ))
pull-push_example =
    pull-push texts source db source-IsContentStore takes takes two ([], []) (λ sent b. refl)
      (λ sent b. refl)
      (
        record { full = refl; small = omega arith; cid = λ same. cc },
        (record { full = refl; small = omega arith; cid = λ same. cc }, tt),
      )

push_first_refused_example :
    push texts source db (requesting (two ++ ([] ∷ two)) (err failure) takes) ([], []) ≡ (
      record {
        outcome = err no_cid;
        responses = (push texts source db (requesting two (ok tt) takes) ([], [])).0.responses;
      },
      (push texts source db (requesting two (ok tt) takes) ([], [])).1,
    )
push_first_refused_example =
    push_first_refused texts source db takes (err failure) two two [] no_cid ([], [])
      (nameless refl (omega arith) refl)
      (pull-push texts source db source-IsContentStore takes takes two ([], []) (λ sent b. refl)
        (λ sent b. refl)
        (
          record { full = refl; small = omega arith; cid = λ same. cc },
          (record { full = refl; small = omega arith; cid = λ same. cc }, tt),
        )).0

push_delete_index_independent_example :
    Alike
      (SameStore texts source db broken_db)
      (push texts source db (requesting two (ok tt) takes) ([], []))
      (push texts source broken_db (requesting two (ok tt) takes) ([], []))
    × Alike
        (SameStore texts source db broken_db)
        (delete texts source db (requesting two (ok tt) takes) ([], []))
        (delete texts source broken_db (requesting two (ok tt) takes) ([], []))
push_delete_index_independent_example =
    push_delete_index_independent texts source db broken_db (requesting two (ok tt) takes)
      (requesting two (ok tt) takes) [] [] []

-- A store with public keys only, which fails to push them.
abbrev referrers : ReferrerStore GoString StoreError
referrers = record {
  State = List GoString;
  push_signature = none;
  push_public_key = some (λ cid key s. (err failure, s));
  pull_signature = none;
  pull_public_key = some (λ cid s. ok (lit "key"));
}

abbrev pushing : Client StoreError (GoString × PushOptions GoString) (PushResponse StoreError)
pushing =
    requesting ((lit "a", PushOptions.public_key (lit "key")) ∷ (lit "a", PushOptions.unknown) ∷ [])
      (ok tt) takes

abbrev pulling : Client StoreError (GoString × PullOptions) (PullResponse GoString)
pulling = requesting ((lit "a", PullOptions.public_key) ∷ []) (err failure) takes

referrers_answered_example :
    let pushed = (push_referrer referrers pushing []).0 in
    let pulled = (pull_referrer referrers pulling []).0 in
    (pushed.outcome ≡ as_status receive_failed pushing.ending)
    × (length pushed.responses ≡ total due pushing.requests)
    × (pulled.outcome ≡ as_status receive_failed pulling.ending)
    × (length pulled.responses ≡ total due_pulled pulling.requests)
referrers_answered_example =
    referrers_answered referrers pushing pulling [] (λ sent b. refl) (λ sent b. refl)
      ((λ e. cc), ((λ e. cc), tt)) ((λ e. cc), tt)
