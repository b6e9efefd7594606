-- ===== src/Routing/Datastore.antt =====
-- The key-value store behind the routing (github.com/ipfs/go-datastore), as an interface: a state,
-- its operations, and what a store that does not fail promises of them.
use agntcy_dir.Base.{
  ℕ, ◌≡◌, ◌≢◌, Bool, true, false, Option, none, some, List, [], ◌∷◌, ◌++◌, if◌then◌else◌, All, In,
}
use agntcy_dir.Base.Text.{GoString, lit, ◌==◌, has_prefix}
use agntcy_dir.Base.Text.Split.{split}
use agntcy_dir.Base.Result.{Result, ok, err}
use agntcy_dir.Base.Action.{Action}
use agntcy_dir.Labels.Namespace.{slash}

abbrev pub Bytes : Type 0
Bytes = List ℕ

-- datastore.ErrNotFound, and every other error.
pub data StoreError : Type 0 where
  not_found failure : StoreError

-- query.Result: `failed` says that its Error is set.
pub record Entry : Type 0 where
  pub key : GoString
  pub value : Bytes
  pub failed : Bool

pub record Datastore : Type 1 where
  pub State : Type 0
  pub Batch : Type 0
  -- datastore.NewKey(s).String()
  pub new_key : GoString → GoString
  pub get : GoString → State → Result StoreError Bytes
  pub has : GoString → State → Result StoreError Bool
  pub put : GoString → Bytes → Action State StoreError (Unit {0})
  pub query : GoString → State → Result StoreError (List Entry)
  pub batch : State → Result StoreError Batch
  pub batch_put : GoString → Bytes → Batch → Result StoreError Batch
  pub batch_delete : GoString → Batch → Result StoreError Batch
  pub commit : Batch → Action State StoreError (Unit {0})

-- What a batch will do.
pub data Op : Type 0 where
  put : GoString → Bytes → Op
  delete : GoString → Op

abbrev pub Contents : Type 0
Contents = GoString → Option Bytes

-- The contents after one operation, and after a batch of them in order.
abbrev pub apply_op : Op → Contents → Contents
apply_op (put k v) c j = if k == j then some v else c j
apply_op (delete k) c j = if k == j then none else c j

unfoldable pub apply_ops : List Op → Contents → Contents
apply_ops [] c = c
apply_ops (op ∷ ops) c = apply_ops ops (apply_op op c)

abbrev pub present : Option Bytes → Bool
present none = false
present (some v) = true

abbrev pub read_result : Option Bytes → Result StoreError Bytes
read_result none = err not_found
read_result (some v) = ok v

abbrev pub CleanPart : GoString → Type 0
CleanPart part = (part ≢ []) × (part ≢ lit ".") × (part ≢ lit "..")

-- A key that path.Clean leaves alone.
pub record IsClean (key : GoString) : Type 0 where
  pub first : GoString
  pub rest : List GoString
  pub parts : split slash key ≡ [] ∷ first ∷ rest
  pub clean : All CleanPart (first ∷ rest)

-- A store that does not fail, such as MapDatastore: `contents` is what it holds, and a batch is the
-- list of what it will do.
pub record IsReliable (d : Datastore) : Type 0 where
  pub contents : d.State → Contents
  pub pending : d.Batch → List Op
  pub fresh : d.State → d.Batch
  pub with_put : GoString → Bytes → d.Batch → d.Batch
  pub with_delete : GoString → d.Batch → d.Batch
  pub entries : GoString → d.State → List Entry
  pub new_key_lem : (key : GoString) → IsClean key → d.new_key key ≡ key
  pub get_lem : (k : GoString) (s : d.State) → d.get k s ≡ read_result (contents s k)
  pub has_lem : (k : GoString) (s : d.State) → d.has k s ≡ ok (present (contents s k))
  pub put_ok : (k : GoString) (v : Bytes) (s : d.State) → (d.put k v s).0 ≡ ok tt
  pub put_lem :
      (k : GoString) (v : Bytes) (s : d.State) (j : GoString)
      → contents (d.put k v s).1 j ≡ apply_op (put k v) (contents s) j
  pub batch_lem : (s : d.State) → d.batch s ≡ ok (fresh s)
  pub fresh_lem : (s : d.State) → pending (fresh s) ≡ []
  pub batch_put_lem :
      (k : GoString) (v : Bytes) (b : d.Batch) → d.batch_put k v b ≡ ok (with_put k v b)
  pub with_put_lem :
      (k : GoString) (v : Bytes) (b : d.Batch)
      → pending (with_put k v b) ≡ pending b ++ put k v ∷ []
  pub batch_delete_lem : (k : GoString) (b : d.Batch) → d.batch_delete k b ≡ ok (with_delete k b)
  pub with_delete_lem :
      (k : GoString) (b : d.Batch) → pending (with_delete k b) ≡ pending b ++ delete k ∷ []
  pub commit_ok : (b : d.Batch) (s : d.State) → (d.commit b s).0 ≡ ok tt
  pub commit_lem :
      (b : d.Batch) (s : d.State) (j : GoString)
      → contents (d.commit b s).1 j ≡ apply_ops (pending b) (contents s) j
  pub query_lem : (p : GoString) (s : d.State) → d.query p s ≡ ok (entries p s)
  pub entries_sound :
      (p : GoString) (s : d.State)
      → All
          (λ e.
            (contents s e.key ≡ some e.value) × (has_prefix e.key p ≡ true) × (e.failed ≡ false))
          (entries p s)
  pub entries_complete :
      (p : GoString) (s : d.State) (k : GoString) (v : Bytes)
      → contents s k ≡ some v
      → has_prefix k p ≡ true
      → In (record { key = k; value = v; failed = false }) (entries p s)
