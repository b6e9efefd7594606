-- ===== src/Routing/Remote/Deletion.antt =====
-- What a batch of deletions leaves, and the entries that queries yield, on a store that does not fail.
use agntcy_dir.Base.{
  Option, ◌≡◌, ◌↔◌, ◌⊎◌, refl, ap, sym, subst, ◌∙◌, Bool, true, false, ◌||◌, Bool-cases, none, some,
  List, [], ◌∷◌, ◌++◌, inl, inr, arith, any, if◌then◌else◌, In, All_at, In-append_left,
  In-append_right,
}
use agntcy_dir.Base.Text.{GoString, ◌==◌, eq_iff, has_prefix}
use agntcy_dir.Labels.Namespace.{NamespaceType}
use agntcy_dir.Labels.Metadata.{LabelMetadata}
use agntcy_dir.Routing.Datastore.{Datastore, Bytes, Entry, Contents, delete, IsReliable, apply_ops}
use agntcy_dir.Routing.Local.{Codec}
use agntcy_dir.Routing.Local.Effects.{apply_ops-append}
use agntcy_dir.Routing.Remote.{filtered, over_namespaces, marked_keys, delete_keys}

abbrev pub entry : GoString → Bytes → Entry
entry key value = record { key = key; value = value; failed = false }

abbrev pub holds_key : GoString → List GoString → Bool
holds_key j keys = any (λ k. k == j) keys

module _ (d : Datastore) (codec : Codec LabelMetadata) (local_peer_id : GoString)
    (rel : IsReliable d) where
  contents_of_delete_keys :
      (keys : List GoString) (b : d.Batch) (c : Contents) (j : GoString)
      → apply_ops (rel.pending (delete_keys d codec local_peer_id keys b)) c j
        ≡ (if holds_key j keys then none else apply_ops (rel.pending b) c j)
  unfolding delete_keys
  contents_of_delete_keys [] b c j = refl
  contents_of_delete_keys (k ∷ keys) b c j = rw (rel.batch_delete_lem k b) (
      ground (
        arith,
        contents_of_delete_keys keys (rel.with_delete k b) c j,
        rel.with_delete_lem k b,
        apply_ops-append (rel.pending b) (delete k) c j,
      ))

  -- The contents after the deletion of these keys in a fresh batch.
  pub contents_after_delete :
      (keys : List GoString) (s : d.State) (j : GoString)
      → rel.contents (d.commit (delete_keys d codec local_peer_id keys (rel.fresh s)) s).1 j
        ≡ (if holds_key j keys then none else rel.contents s j)
  unfolding apply_ops
  contents_after_delete keys s j =
      rel.commit_lem (delete_keys d codec local_peer_id keys (rel.fresh s)) s j
      ∙ (contents_of_delete_keys keys (rel.fresh s) (rel.contents s) j ∙ rw (rel.fresh_lem s) refl)

-- The keys of a store are as NewKey writes them.
abbrev pub KeepsKeys : (d : Datastore) → IsReliable d → d.State → Type 0
KeepsKeys d rel s = (k : GoString) (v : Bytes) → rel.contents s k ≡ some v → d.new_key k ≡ k

-- What a query yields is what the store holds.
pub entries-entry :
    (d : Datastore) (rel : IsReliable d) (s : d.State) (p : GoString) (e : Entry)
    → In e (rel.entries p s)
    → (rel.contents s e.key ≡ some e.value) × (has_prefix e.key p ≡ true) × (e.failed ≡ false)
entries-entry d rel s p e there = All_at _ e (rel.entries p s) (rel.entries_sound p s) there

-- An entry of two lists joined is in one of them.
In-append_cases : {A : Type 0} (x : A) (xs ys : List A) → In x (xs ++ ys) → In x xs ⊎ In x ys
In-append_cases x [] ys h = inr h
In-append_cases x (y ∷ xs) ys (inl same) = inl (inl same)
In-append_cases x (y ∷ xs) ys (inr later) = elim (In-append_cases x xs ys later) [
  | inl h ↦ inl (inr h)
  | inr h ↦ inr h
]

pub filtered_iff :
    (test : Entry → Bool) (e : Entry) (entries : List Entry)
    → e.failed ≡ false
    → In e (filtered test entries) ↔ (In e entries × (test e ≡ true))
unfolding filtered
filtered_iff test e [] sound = ((λ h. absurd h), (λ h. absurd h.0))
filtered_iff test e (x ∷ entries) sound =
    let (into, out) = filtered_iff test e entries sound in
    elim (Bool-cases (x.failed || test x)) [
      | inl kept ↦ rw kept (
        (λ h. elim h [
          | inl same ↦ (inl same, passes same kept)
          | inr later ↦ (inr (into later).0, (into later).1)
        ]),
        (λ h. elim h.0 [ inl same ↦ inl same | inr later ↦ inr (out (later, h.1)) ]),
      )
      | inr dropped ↦ rw dropped (
        (λ h. (inr (into h).0, (into h).1)),
        (λ h. elim h.0 [
          | inl same ↦ absurd (refused same dropped h.1)
          | inr later ↦ out (later, h.1)
        ]),
      )
    ]
  where
    passes : e ≡ x → (x.failed || test x) ≡ true → test e ≡ true
    passes same kept =
        let kept' : (e.failed || test e) ≡ true =
          subst (λ y. (y.failed || test y) ≡ true) (sym same) kept in
        ground (arith, kept')

    refused : e ≡ x → (x.failed || test x) ≡ false → test e ≡ true → ⊥
    refused same dropped h =
        let dropped' : (e.failed || test e) ≡ false =
          subst (λ y. (y.failed || test y) ≡ false) (sym same) dropped in
        ground (arith, dropped')

pub over_namespaces_iff :
    (results : NamespaceType → List Entry) (e : Entry) (nss : List NamespaceType)
    → In e (over_namespaces results nss) ↔ ((ns : NamespaceType) × In ns nss × In e (results ns))
unfolding over_namespaces
over_namespaces_iff results e [] = ((λ h. absurd h), (λ (ns, h, _). absurd h))
over_namespaces_iff results e (ns ∷ nss) =
    let (into, out) = over_namespaces_iff results e nss in
    (
      (λ h. elim (In-append_cases e (results ns) _ h) [
        | inl here ↦ (ns, inl refl, here)
        | inr later ↦ let (n, there, found) = into later in (n, inr there, found)
      ]),
      (λ h. elim h.1 [
        | inl same ↦ In-append_left e (results ns) _ (subst (λ n. In e (results n)) same h.2)
        | inr later ↦ In-append_right e (results ns) _ (out (h.0, later, h.2))
      ]),
    )

-- The marked keys, by the entries that they come from.
pub marked_keys_iff :
    (d : Datastore) (test : Entry → Bool) (j : GoString) (entries : List Entry)
    → (holds_key j (marked_keys d test entries) ≡ true)
      ↔ ((e : Entry) × In e entries × (test e ≡ true) × (d.new_key e.key ≡ j))
unfolding marked_keys
marked_keys_iff d test j [] = ((λ h. cc), (λ h. absurd h.1))
marked_keys_iff d test j (x ∷ entries) =
    let (into, out) = marked_keys_iff d test j entries in
    elim (Bool-cases (test x)) [
      | inl marked ↦ rw marked (
        (λ h. elim (Bool-cases (d.new_key x.key == j)) [
          | inl same ↦ (x, inl refl, marked, (eq_iff (d.new_key x.key) j).0 same)
          | inr other ↦
              let (e, there, found, key) = into (ground (arith, other, h)) in
              (e, inr there, found, key)
        ]),
        (λ h. elim h.1 [
          | inl same ↦
              let marks : (d.new_key x.key == j) ≡ true =
                (eq_iff (d.new_key x.key) j).1
                  (ap (λ (y : Entry). d.new_key y.key) (sym same) ∙ h.3) in
              ground (arith, marks)
          | inr later ↦ let rest = out (h.0, later, h.2, h.3) in ground (arith, rest)
        ]),
      )
      | inr unmarked ↦ rw unmarked (
        (λ h. let (e, there, found, key) = into h in (e, inr there, found, key)),
        (λ h. elim h.1 [
          | inl same ↦ (let hit : test x ≡ true = ap test (sym same) ∙ h.2 in cc)
          | inr later ↦ out (h.0, later, h.2, h.3)
        ]),
      )
    ]

-- An entry whose key is written as `j` is what the store holds at `j`.
pub held_entry :
    (d : Datastore) (rel : IsReliable d) (s : d.State) (e : Entry) (j : GoString) (v : Bytes)
    → KeepsKeys d rel s
    → rel.contents s e.key ≡ some e.value
    → d.new_key e.key ≡ j
    → rel.contents s j ≡ some v
    → (e.key ≡ j) × (e.value ≡ v)
held_entry d rel s e j v keeps held same there =
    let key : e.key ≡ j = sym (keeps e.key e.value held) ∙ same in
    let held' : rel.contents s j ≡ some e.value =
      subst (λ k. rel.contents s k ≡ some e.value) key held in
    (key, cc)

-- What is at a key before and after a cleanup that deletes what is `Doomed`, and nothing else.
abbrev pub Swept : (Bytes → Type 0) → Option Bytes → Option Bytes → Type 0
Swept Doomed none after = after ≡ none
Swept Doomed (some v) after = ((after ≡ none) × Doomed v) ⊎ ((after ≡ some v) × (Doomed v → ⊥))

pub swept :
    (Doomed : Bytes → Type 0) (hit : Bool) (before after : Option Bytes)
    → after ≡ (if hit then none else before)
    → ((v : Bytes) → before ≡ some v → (hit ≡ true) ↔ Doomed v)
    → Swept Doomed before after
swept Doomed true none after e doomed = e
swept Doomed false none after e doomed = e
swept Doomed true (some v) after e doomed = inl (e, (doomed v refl).0 refl)
swept Doomed false (some v) after e doomed = inr (e, λ dead. let hit = (doomed v refl).1 dead in cc)

pub Swept-at :
    (Doomed : Bytes → Type 0) (before after : Option Bytes) (v : Bytes)
    → before ≡ some v
    → Swept Doomed before after
    → ((after ≡ none) × Doomed v) ⊎ ((after ≡ some v) × (Doomed v → ⊥))
Swept-at Doomed before after v held h = subst (λ b. Swept Doomed b after) held h

pub Swept-free :
    (Doomed : Bytes → Type 0) (before after : Option Bytes)
    → before ≡ none
    → Swept Doomed before after
    → after ≡ none
Swept-free Doomed before after free h = subst (λ b. Swept Doomed b after) free h

pub Swept-from :
    (Doomed : Bytes → Type 0) (before after : Option Bytes)
    → ((v : Bytes)
        → before ≡ some v
        → ((after ≡ none) × Doomed v) ⊎ ((after ≡ some v) × (Doomed v → ⊥)))
    → (before ≡ none → after ≡ none)
    → Swept Doomed before after
Swept-from Doomed none after held free = free refl
Swept-from Doomed (some v) after held free = held v refl
