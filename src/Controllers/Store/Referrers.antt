-- ===== src/Controllers/Store/Referrers.antt =====
-- PushReferrer and PullReferrer of the store controller: signatures and public keys beside a record.
use agntcy_dir.Base.{
  ℕ, ◌≡◌, ◌≢◌, refl, ◌∙◌, Bool, true, false, Option, none, some, [], length, All, arith,
}
use agntcy_dir.Base.Text.{GoString, eq_iff}
use agntcy_dir.Base.Result.{Result, ok, err}
use agntcy_dir.Base.Action.{Action}
use agntcy_dir.Controllers.Stream.{Client, Served, Takes, serve, as_status}
use agntcy_dir.Controllers.Stream.Rounds.{tally, total, serve_from-total}
use agntcy_dir.Controllers.Store.{Refusal, receive_failed, send_failed, validate_record_ref}

-- The methods for referrers; a store may lack one.
pub record ReferrerStore (Sig Fault : Type 0) : Type 1 where
  pub State : Type 0
  pub push_signature : Option (GoString → Sig → Action State Fault (Unit {0}))
  pub push_public_key : Option (GoString → GoString → Action State Fault (Unit {0}))
  pub pull_signature : Option (GoString → State → Result Fault Sig)
  pub pull_public_key : Option (GoString → State → Result Fault GoString)

pub data PushOptions (Sig : Type 0) : Type 0 where
  signature : Sig → PushOptions Sig
  public_key : GoString → PushOptions Sig
  unknown : PushOptions Sig

pub data PullOptions : Type 0 where
  signature public_key unknown : PullOptions

-- The error messages of a response.
pub data ReferrerError (Fault : Type 0) : Type 0 where
  unsupported : ReferrerError Fault
  signature_failed public_key_failed : GoString → Fault → ReferrerError Fault

pub record PushResponse (Fault : Type 0) : Type 0 where
  pub success : Bool
  pub error_message : Option (ReferrerError Fault)

pub data PullResponse (Sig : Type 0) : Type 0 where
  signature : Option Sig → PullResponse Sig
  public_key : GoString → PullResponse Sig

module _ {Sig Fault : Type 0} (store : ReferrerStore Sig Fault) where
  abbrev push_response :
      (Fault → ReferrerError Fault)
      → Result Fault (Unit {0}) × store.State
      → PushResponse Fault × store.State
  push_response failed (ok _, s) = (record { success = true; error_message = none }, s)
  push_response failed (err e, s) = (record { success = false; error_message = some (failed e) }, s)

  abbrev unsupported_response : store.State → PushResponse Fault × store.State
  unsupported_response s = (record { success = false; error_message = some unsupported }, s)

  unfoldable pub push_signature_referrer :
      GoString → Sig → store.State → PushResponse Fault × store.State
  push_signature_referrer cid sig s = elim store.push_signature [
    | none ↦ unsupported_response s
    | some push ↦ push_response (signature_failed cid) (push cid sig s)
  ]

  unfoldable pub push_public_key_referrer :
      GoString → GoString → store.State → PushResponse Fault × store.State
  push_public_key_referrer cid key s = elim store.push_public_key [
    | none ↦ unsupported_response s
    | some push ↦ push_response (public_key_failed cid) (push cid key s)
  ]

  abbrev pulled_signature : Result Fault Sig → PullResponse Sig
  pulled_signature (ok sig) = PullResponse.signature (some sig)
  pulled_signature (err e) = PullResponse.signature none

  abbrev pulled_key : Result Fault GoString → PullResponse Sig
  pulled_key (ok key) = PullResponse.public_key key
  pulled_key (err e) = PullResponse.public_key []

  unfoldable pub pull_signature_referrer : GoString → store.State → PullResponse Sig
  pull_signature_referrer cid s = elim store.pull_signature [
    | none ↦ PullResponse.signature none
    | some pull ↦ pulled_signature (pull cid s)
  ]

  unfoldable pub pull_public_key_referrer : GoString → store.State → PullResponse Sig
  pull_public_key_referrer cid s = elim store.pull_public_key [
    | none ↦ PullResponse.public_key []
    | some pull ↦ pulled_key (pull cid s)
  ]

  abbrev answering :
      {B : Type 0} → B × store.State → Result (Refusal Fault) (Option B) × store.State
  answering (b, s) = (ok (some b), s)

  -- The switch on the options; an unknown type is skipped.
  unfoldable pub push_options :
      GoString → PushOptions Sig → Action store.State (Refusal Fault) (Option (PushResponse Fault))
  push_options cid (PushOptions.signature sig) s = answering (push_signature_referrer cid sig s)
  push_options cid (PushOptions.public_key key) s = answering (push_public_key_referrer cid key s)
  push_options cid PushOptions.unknown s = (ok none, s)

  unfoldable pub pull_options :
      GoString → PullOptions → Action store.State (Refusal Fault) (Option (PullResponse Sig))
  pull_options cid PullOptions.signature s = (ok (some (pull_signature_referrer cid s)), s)
  pull_options cid PullOptions.public_key s = (ok (some (pull_public_key_referrer cid s)), s)
  pull_options cid PullOptions.unknown s = (ok none, s)

  unfoldable pub push_referrer_round :
      GoString × PushOptions Sig → Action store.State (Refusal Fault) (Option (PushResponse Fault))
  push_referrer_round (cid, options) s = elim (validate_record_ref cid) [
    | ok _ ↦ push_options cid options s
    | err e ↦ (err e, s)
  ]

  unfoldable pub pull_referrer_round :
      GoString × PullOptions → Action store.State (Refusal Fault) (Option (PullResponse Sig))
  pull_referrer_round (cid, options) s = elim (validate_record_ref cid) [
    | ok _ ↦ pull_options cid options s
    | err e ↦ (err e, s)
  ]

  unfoldable pub push_referrer :
      Client Fault (GoString × PushOptions Sig) (PushResponse Fault)
      → store.State
      → Served (Refusal Fault) (PushResponse Fault) × store.State
  push_referrer = serve receive_failed send_failed push_referrer_round

  unfoldable pub pull_referrer :
      Client Fault (GoString × PullOptions) (PullResponse Sig)
      → store.State
      → Served (Refusal Fault) (PullResponse Sig) × store.State
  pull_referrer = serve receive_failed send_failed pull_referrer_round

-- The number of responses that are due.
unfoldable pub due : {Sig : Type 0} → GoString × PushOptions Sig → ℕ
due (cid, PushOptions.signature sig) = 1
due (cid, PushOptions.public_key key) = 1
due (cid, PushOptions.unknown) = 0

unfoldable pub due_pulled : GoString × PullOptions → ℕ
due_pulled (cid, PullOptions.signature) = 1
due_pulled (cid, PullOptions.public_key) = 1
due_pulled (cid, PullOptions.unknown) = 0

module _ {Sig Fault : Type 0} (store : ReferrerStore Sig Fault) where
  push_options-due :
      (cid : GoString) (options : PushOptions Sig) (s : store.State)
      → tally (push_options store cid options s).0 ≡ ok (due (cid, options))
  unfolding push_options due
  push_options-due cid (PushOptions.signature sig) s = refl
  push_options-due cid (PushOptions.public_key key) s = refl
  push_options-due cid PushOptions.unknown s = refl

  pull_options-due :
      (cid : GoString) (options : PullOptions) (s : store.State)
      → tally (pull_options store cid options s).0 ≡ ok (due_pulled (cid, options))
  unfolding pull_options due_pulled
  pull_options-due cid PullOptions.signature s = refl
  pull_options-due cid PullOptions.public_key s = refl
  pull_options-due cid PullOptions.unknown s = refl

  push_referrer_round-due :
      (a : GoString × PushOptions Sig) (s : store.State)
      → a.0 ≢ []
      → tally (push_referrer_round store a s).0 ≡ ok (due a)
  unfolding push_referrer_round validate_record_ref
  push_referrer_round-due (cid, options) s named =
      let checked : validate_record_ref {Fault = Fault} cid ≡ ok tt =
        ground (arith, eq_iff cid [], named) in
      rw (checked, push_referrer_round) (push_options-due cid options s)

  pull_referrer_round-due :
      (a : GoString × PullOptions) (s : store.State)
      → a.0 ≢ []
      → tally (pull_referrer_round store a s).0 ≡ ok (due_pulled a)
  unfolding pull_referrer_round validate_record_ref
  pull_referrer_round-due (cid, options) s named =
      let checked : validate_record_ref {Fault = Fault} cid ≡ ok tt =
        ground (arith, eq_iff cid [], named) in
      rw (checked, pull_referrer_round) (pull_options-due cid options s)

  -- A stream of referrers whose references have CIDs, to a client that takes every response, never
  -- fails by the store: it returns as the client ends it, with one response for each request of a known
  -- type, whether the store supports referrers or fails to push or to pull them.
  pub referrers_answered :
      (pushing : Client Fault (GoString × PushOptions Sig) (PushResponse Fault))
      (pulling : Client Fault (GoString × PullOptions) (PullResponse Sig)) (s : store.State)
      → Takes pushing.sends
      → Takes pulling.sends
      → All (λ a. a.0 ≢ []) pushing.requests
      → All (λ a. a.0 ≢ []) pulling.requests
      → let pushed = (push_referrer store pushing s).0 in
        let pulled = (pull_referrer store pulling s).0 in
        (pushed.outcome ≡ as_status receive_failed pushing.ending)
        × (length pushed.responses ≡ total due pushing.requests)
        × (pulled.outcome ≡ as_status receive_failed pulling.ending)
        × (length pulled.responses ≡ total due_pulled pulling.requests)
  unfolding push_referrer pull_referrer serve
  referrers_answered pushing pulling s takes takes' named named' =
      let (ended, all) =
        serve_from-total (push_referrer_round store)
          (λ sent b. as_status send_failed (pushing.sends sent b)) due (λ a. a.0 ≢ [])
          (as_status receive_failed pushing.ending) pushing.requests [] s
          (λ sent b. rw (takes sent b) refl) push_referrer_round-due named in
      let (ended', all') =
        serve_from-total (pull_referrer_round store)
          (λ sent b. as_status send_failed (pulling.sends sent b)) due_pulled (λ a. a.0 ≢ [])
          (as_status receive_failed pulling.ending) pulling.requests [] s
          (λ sent b. rw (takes' sent b) refl) pull_referrer_round-due named' in
      (ended, all ∙ omega arith, ended', all' ∙ omega arith)
