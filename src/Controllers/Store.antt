-- ===== src/Controllers/Store.antt =====
-- The store controller (server/controller/store.go): the streams Push, Pull, Lookup and Delete over the
-- store and the search database. A reference is its CID.
pub mod Index
pub mod Referrers
pub mod Streams
use agntcy_dir.Base.{
  ℕ, ◌*◌, ◌≡◌, Bool, true, false, not, Option, none, some, List, [], ltb, if◌then◌else◌,
}
use agntcy_dir.Base.Text.{GoString, ◌==◌}
use agntcy_dir.Base.Result.{Result, ok, err, ◌>>◌, fail_if}
use agntcy_dir.Base.Action.{Action}
use agntcy_dir.Store.Cache.{StoreApi}
use agntcy_dir.Controllers.Stream.{Client, Served, serve}

-- corev1.Record: whether it has data, proto.Size, and GetCid.
pub record RecordApi (Rec : Type 0) : Type 0 where
  pub has_data : Rec → Bool
  pub size : Rec → ℕ
  pub cid_of : Rec → GoString

-- AddRecord, with the adapter of the record, and RemoveRecord of types.DatabaseAPI.
pub record SearchDb (Rec Fault : Type 0) : Type 1 where
  pub State : Type 0
  pub add_record : Rec → Action State Fault (Unit {0})
  pub remove_record : GoString → Action State Fault (Unit {0})

-- The statuses that the methods return, by their messages.
pub data Refusal (Fault : Type 0) : Type 0 where
  receive_failed send_failed push_failed pull_failed lookup_failed delete_failed :
      Fault → Refusal Fault
  no_data no_cid cid_required : Refusal Fault
  too_large : ℕ → Refusal Fault

pub data StatusCode : Type 0 where
  internal invalid_argument : StatusCode
  other : ℕ → StatusCode

-- The code of a status; `convert` is the code of status.Convert.
unfoldable pub code_of : {Fault : Type 0} → (Fault → StatusCode) → Refusal Fault → StatusCode
code_of convert (receive_failed e) = internal
code_of convert (send_failed e) = internal
code_of convert (push_failed e) = internal
code_of convert (pull_failed e) = convert e
code_of convert (lookup_failed e) = convert e
code_of convert (delete_failed e) = convert e
code_of convert no_data = invalid_argument
code_of convert no_cid = internal
code_of convert cid_required = invalid_argument
code_of convert (too_large n) = invalid_argument

-- 1024 * 1024 * 4
abbrev pub max_record_size : ℕ
max_record_size = 4_194_304

module _ {Rec Fault : Type 0} (records : RecordApi Rec) where
  unfoldable pub validate_record : Rec → Result (Refusal Fault) (Unit {0})
  validate_record r =
      fail_if (not (records.has_data r)) no_data
      >> fail_if (ltb max_record_size (records.size r)) (too_large (records.size r))

  unfoldable pub validate_and_get_cid : Rec → Result (Refusal Fault) GoString
  unfolding validate_record
  validate_and_get_cid r =
      validate_record r >> fail_if (records.cid_of r == []) no_cid >> ok (records.cid_of r)

unfoldable pub validate_record_ref : {Fault : Type 0} → GoString → Result (Refusal Fault) (Unit {0})
validate_record_ref cid = fail_if (cid == []) cid_required

module _ {Rec Meta Fault : Type 0} (records : RecordApi Rec) (store : StoreApi Rec Meta Fault)
    (db : SearchDb Rec Fault) where
  -- storeCtrl: the states of the store and of the search database.
  abbrev pub StoreCtrl : Type 0
  StoreCtrl = store.State × db.State

  -- What a call of the store gives, with `then` on the database when it succeeds and the status of
  -- its failure.
  abbrev pub on_store :
      {A B : Type 0}
      → (Fault → Refusal Fault)
      → (A → B)
      → (db.State → db.State)
      → Result Fault A × store.State
      → db.State
      → Result (Refusal Fault) B × StoreCtrl
  on_store failed answer index (ok a, s) d = (ok (answer a), (s, index d))
  on_store failed answer index (err e, s) d = (err (failed e), (s, d))

  -- A failure of the search index is logged and dropped.
  unfoldable pub push_record_to_store : Rec → Action StoreCtrl (Refusal Fault) (Option GoString)
  push_record_to_store r (s, d) =
      on_store push_failed some (λ d. (db.add_record r d).1) (store.push r s) d

  unfoldable pub pull_record_from_store : GoString → Action StoreCtrl (Refusal Fault) (Option Rec)
  pull_record_from_store cid (s, d) = on_store pull_failed some (λ d. d) (store.pull cid s) d

  -- One round of the loop of each method, after Recv and before Send.
  unfoldable pub push_round : Rec → Action StoreCtrl (Refusal Fault) (Option GoString)
  push_round r t = elim (validate_and_get_cid records r) [
    | ok _ ↦ push_record_to_store r t
    | err e ↦ (err e, t)
  ]

  unfoldable pub pull_round : GoString → Action StoreCtrl (Refusal Fault) (Option Rec)
  pull_round cid t = elim (validate_record_ref cid) [
    | ok _ ↦ pull_record_from_store cid t
    | err e ↦ (err e, t)
  ]

  unfoldable pub lookup_round : GoString → Action StoreCtrl (Refusal Fault) (Option Meta)
  lookup_round cid (s, d) = elim (validate_record_ref cid) [
    | ok _ ↦ on_store lookup_failed some (λ d. d) (store.lookup cid s) d
    | err e ↦ (err e, (s, d))
  ]

  -- Delete sends nothing.
  unfoldable pub delete_round : GoString → Action StoreCtrl (Refusal Fault) (Option (Unit {0}))
  delete_round cid (s, d) = elim (validate_record_ref cid) [
    | ok _ ↦
        on_store delete_failed (λ _. none) (λ d. (db.remove_record cid d).1) (store.delete cid s) d
    | err e ↦ (err e, (s, d))
  ]

  unfoldable pub push :
      Client Fault Rec GoString → StoreCtrl → Served (Refusal Fault) GoString × StoreCtrl
  push = serve receive_failed send_failed push_round

  unfoldable pub pull :
      Client Fault GoString Rec → StoreCtrl → Served (Refusal Fault) Rec × StoreCtrl
  pull = serve receive_failed send_failed pull_round

  unfoldable pub lookup :
      Client Fault GoString Meta → StoreCtrl → Served (Refusal Fault) Meta × StoreCtrl
  lookup = serve receive_failed send_failed lookup_round

  unfoldable pub delete :
      Client Fault GoString (Unit {0}) → StoreCtrl → Served (Refusal Fault) (Unit {0}) × StoreCtrl
  delete = serve receive_failed send_failed delete_round
