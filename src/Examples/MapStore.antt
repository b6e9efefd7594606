-- ===== src/Examples/MapStore.antt =====
-- A datastore that does not fail: an association list, with a batch as the list of its operations.
use agntcy_dir.Base.{
  ◌≡◌, refl, sym, ap, ap₂, ◌∙◌, true, false, inl, inr, Option, none, some, List, [], ◌∷◌, ◌++◌,
  arith, if◌then◌else◌, Bool-cases, All, In,
}
use agntcy_dir.Base.Text.{GoString, ◌==◌, eq_iff, eq_refl, has_prefix}
use agntcy_dir.Base.Result.{ok}
use agntcy_dir.Base.Dict.{Dict, lookup, insert, erase, lookup-insert, lookup-erase}
use agntcy_dir.Routing.Datastore.{
  Datastore, Bytes, Entry, Op, put, delete, Contents, apply_op, apply_ops, present, read_result,
  IsReliable,
}

abbrev pub Pairs : Type 0
Pairs = Dict Bytes

abbrev pub run : Op → Pairs → Pairs
run (put k v) s = insert k v s
run (delete k) s = erase k s

unfoldable pub run_all : List Op → Pairs → Pairs
run_all [] s = s
run_all (op ∷ ops) s = run_all ops (run op s)

abbrev value_or_empty : Option Bytes → Bytes
value_or_empty none = []
value_or_empty (some v) = v

abbrev entry : GoString → Bytes → Entry
entry k v = record { key = k; value = v; failed = false }

-- The entries for the keys of `t`, with the values of `s`.
unfoldable pub entries_of : GoString → Pairs → Pairs → List Entry
entries_of p s [] = []
entries_of p s ((k, v) ∷ t) =
    let rest = entries_of p s t in
    if has_prefix k p
    then record { key = k; value = value_or_empty (lookup k s); failed = false } ∷ rest
    else rest

abbrev pub map_store : Datastore
map_store = record {
  State = Pairs;
  Batch = List Op;
  new_key = λ k. k;
  get = λ k s. read_result (lookup k s);
  has = λ k s. ok (present (lookup k s));
  put = λ k v s. (ok tt, insert k v s);
  query = λ p s. ok (entries_of p s s);
  batch = λ s. ok [];
  batch_put = λ k v b. ok (b ++ put k v ∷ []);
  batch_delete = λ k b. ok (b ++ delete k ∷ []);
  commit = λ b s. (ok tt, run_all b s);
}

pub run_lem :
    (op : Op) (s : Pairs) (j : GoString) → lookup j (run op s) ≡ apply_op op (λ k. lookup k s) j
run_lem (put k v) s j = lookup-insert k j v s
run_lem (delete k) s j = lookup-erase k j s

apply_op_cong :
    (op : Op) (c c' : Contents) (j : GoString)
    → ((k : GoString) → c k ≡ c' k)
    → apply_op op c j ≡ apply_op op c' j
apply_op_cong (put k v) c c' j h = rw (h j)
apply_op_cong (delete k) c c' j h = rw (h j)

apply_ops_cong :
    (ops : List Op) (c c' : Contents) (j : GoString)
    → ((k : GoString) → c k ≡ c' k)
    → apply_ops ops c j ≡ apply_ops ops c' j
unfolding apply_ops
apply_ops_cong [] c c' j h = h j
apply_ops_cong (op ∷ ops) c c' j h =
    apply_ops_cong ops (apply_op op c) (apply_op op c') j (λ k. apply_op_cong op c c' k h)

pub run_all_lem :
    (ops : List Op) (s : Pairs) (j : GoString)
    → lookup j (run_all ops s) ≡ apply_ops ops (λ k. lookup k s) j
unfolding run_all apply_ops
run_all_lem [] s j = refl
run_all_lem (op ∷ ops) s j =
    run_all_lem ops (run op s) j
    ∙ apply_ops_cong ops (λ k. lookup k (run op s)) (apply_op op (λ k. lookup k s)) j (run_lem op s)

abbrev pub IsSound : GoString → Pairs → Entry → Type 0
IsSound p s e = (lookup e.key s ≡ some e.value) × (has_prefix e.key p ≡ true) × (e.failed ≡ false)

present_value : (o : Option Bytes) → present o ≡ true → o ≡ some (value_or_empty o)
present_value none h = cc
present_value (some v) h = refl

present_insert :
    (k j : GoString) (v : Bytes) (t : Pairs)
    → present (lookup j t) ≡ true
    → present (lookup j ((k, v) ∷ t)) ≡ true
unfolding lookup
present_insert k j v t h = ground arith

-- Every key of `t` is in `s`.
abbrev pub KeysIn : Pairs → Pairs → Type 0
KeysIn s t = All (λ kv. present (lookup kv.0 s) ≡ true) t

KeysIn-cons : (k : GoString) (v : Bytes) (s t : Pairs) → KeysIn s t → KeysIn ((k, v) ∷ s) t
KeysIn-cons k v s [] h = tt
KeysIn-cons k v s ((j, w) ∷ t) (p, h) = (present_insert k j v s p, KeysIn-cons k v s t h)

present_head : (k : GoString) (v : Bytes) (s : Pairs) → present (lookup k ((k, v) ∷ s)) ≡ true
unfolding lookup
present_head k v s = rw (eq_refl k)

pub KeysIn-self : (s : Pairs) → KeysIn s s
KeysIn-self [] = tt
KeysIn-self ((k, v) ∷ s) = (present_head k v s, KeysIn-cons k v s s (KeysIn-self s))

pub entries_of-IsSound :
    (p : GoString) (s t : Pairs) → KeysIn s t → All (IsSound p s) (entries_of p s t)
unfolding entries_of
entries_of-IsSound p s [] h = tt
entries_of-IsSound p s ((k, v) ∷ t) (there, h) = elim (Bool-cases (has_prefix k p)) [
  | inl starts ↦
      rw starts ((present_value (lookup k s) there, starts, refl), entries_of-IsSound p s t h)
  | inr foreign ↦ rw foreign (entries_of-IsSound p s t h)
]

pub entries_of_complete :
    (p : GoString) (s t : Pairs) (k : GoString) (v : Bytes)
    → lookup k s ≡ some v
    → present (lookup k t) ≡ true
    → has_prefix k p ≡ true
    → In (record { key = k; value = v; failed = false }) (entries_of p s t)
unfolding entries_of lookup
entries_of_complete p s [] k v held there starts = cc
entries_of_complete p s ((j, w) ∷ t) k v held there starts = elim (Bool-cases (j == k)) [
  | inl same ↦
      let starts' : has_prefix j p ≡ true =
        ap (λ x. has_prefix x p) ((eq_iff j k).0 same) ∙ starts in
      let value : v ≡ value_or_empty (lookup j s) =
        ap value_or_empty (sym held)
        ∙ ap (λ x. value_or_empty (lookup x s)) (sym ((eq_iff j k).0 same)) in
      rw starts' (inl (ap₂ (λ x y. entry x y) (sym ((eq_iff j k).0 same)) value))
  | inr different ↦
      let later = entries_of_complete p s t k v held (rw different at there) starts in
      elim (Bool-cases (has_prefix j p)) [
        | inl also ↦ rw also (inr later)
        | inr foreign ↦ rw foreign later
      ]
]

-- The store keeps every promise.
abbrev pub map_store-IsReliable : IsReliable map_store
map_store-IsReliable = record {
  contents = λ s k. lookup k s;
  pending = λ b. b;
  fresh = λ s. [];
  with_put = λ k v b. b ++ put k v ∷ [];
  with_delete = λ k b. b ++ delete k ∷ [];
  entries = λ p s. entries_of p s s;
  new_key_lem = λ k h. refl;
  get_lem = λ k s. refl;
  has_lem = λ k s. refl;
  put_ok = λ k v s. refl;
  put_lem = λ k v s j. run_lem (put k v) s j;
  batch_lem = λ s. refl;
  fresh_lem = λ s. refl;
  batch_put_lem = λ k v b. refl;
  with_put_lem = λ k v b. refl;
  batch_delete_lem = λ k b. refl;
  with_delete_lem = λ k b. refl;
  commit_ok = λ b s. refl;
  commit_lem = λ b s j. run_all_lem b s j;
  query_lem = λ p s. refl;
  entries_sound = λ p s. entries_of-IsSound p s s (KeysIn-self s);
  entries_complete =
      λ p s k v held starts. entries_of_complete p s s k v held (ap present held) starts;
}
