-- ===== src/Routing/Remote/Republish.antt =====
-- Republishing (republishLocalLabels of server/routing/routing_remote.go): the labels of every record that
-- the object store still has go to the DHT again, and what is left of the others is deleted.
use agntcy_dir.Base.{
  ◌≡◌, ◌≢◌, ◌↔◌, ◌⊎◌, refl, ap, sym, ◌∙◌, subst, Bool-cases, List, [], ◌∷◌, inl, inr, arith,
  if◌then◌else◌, In,
}
use agntcy_dir.Base.Text.{GoString, lit, ◌==◌, eq_iff}
use agntcy_dir.Base.Text.Split.{split}
use agntcy_dir.Base.Result.{Result, ok, err}
use agntcy_dir.Labels.Namespace.{slash}
use agntcy_dir.Labels.Metadata.{LabelMetadata}
use agntcy_dir.Records.Adapter.{Record}
use agntcy_dir.Records.LabelsOf.{get_labels}
use agntcy_dir.Routing.Datastore.{Datastore, Entry, IsReliable}
use agntcy_dir.Routing.Local.{Codec, records_prefix, record_key}
use agntcy_dir.Routing.Remote.{Dht, announce_labels, cleanup_orphaned_local_labels}
use agntcy_dir.Routing.Remote.Deletion.{Swept, Swept-from, KeepsKeys}
use agntcy_dir.Routing.Remote.Orphans.{IsOrphan}
use agntcy_dir.Routing.Remote.Orphans.Several.{cleanup_orphaned_effect}
use agntcy_dir.Store.Cache.{StoreApi}

-- path.Base
abbrev pub last_of : List GoString → GoString
last_of [] = []
last_of (part ∷ []) = part
last_of (part ∷ next ∷ rest) = last_of (next ∷ rest)

unfoldable pub trim_slashes : List GoString → List GoString
trim_slashes [] = []
trim_slashes (part ∷ rest) =
    let kept = trim_slashes rest in
    if part == [] then (elim kept [ [] ↦ [] | x ∷ xs ↦ part ∷ x ∷ xs ]) else part ∷ kept

unfoldable pub path_base : GoString → GoString
path_base [] = lit "."
path_base (c ∷ s) =
    let parts = trim_slashes (split slash (c ∷ s)) in
    elim parts [ [] ↦ lit "/" | x ∷ xs ↦ last_of (x ∷ xs) ]

module _ {Meta Fault : Type 0} (d : Datastore) (codec : Codec LabelMetadata)
    (local_peer_id : GoString) (dht : Dht Fault) (store : StoreApi Record Meta Fault) where
  abbrev pub RemoteState : Type 0
  RemoteState = d.State × dht.State × store.State

  -- The loop over the record keys: the orphaned CIDs, the DHT and the object store after it.
  abbrev pub after_pull :
      GoString
      → (dht.State → store.State → List GoString × dht.State × store.State)
      → dht.State
      → Result Fault Record × store.State
      → List GoString × dht.State × store.State
  after_pull cid next n (ok r, o) = next (announce_labels dht local_peer_id (get_labels r) cid n) o
  after_pull cid next n (err e, o) = let (orphans, n', o') = next n o in (cid ∷ orphans, n', o')

  unfoldable pub republish_records :
      List Entry → dht.State → store.State → List GoString × dht.State × store.State
  republish_records [] n o = ([], n, o)
  republish_records (e ∷ entries) n o =
      let next = republish_records entries in
      let cid = path_base e.key in
      if cid == [] then next n o else after_pull cid next n (store.pull cid o)

  abbrev pub cleaned : d.State → List GoString × dht.State × store.State → RemoteState
  cleaned s (orphans, n, o) =
      ((cleanup_orphaned_local_labels d codec local_peer_id orphans s).1, n, o)

  unfoldable pub republish_local_labels : RemoteState → RemoteState
  republish_local_labels (s, n, o) = elim (d.query records_prefix s) [
    | err _ ↦ (s, n, o)
    | ok entries ↦ cleaned s (republish_records entries n o)
  ]

module _ {Meta Fault : Type 0} (d : Datastore) (codec : Codec LabelMetadata)
    (local_peer_id : GoString) (dht : Dht Fault) (store : StoreApi Record Meta Fault) where
  -- The CID of a record key whose record the object store does not give.
  abbrev pub IsLost : List Entry → store.State → GoString → Type 0
  IsLost entries o cid =
      (e : Entry) × In e entries
      × (path_base e.key ≡ cid)
      × (cid ≢ [])
      × ((x : Fault) × ((store.pull cid o).0 ≡ err x))

  IsLost-later :
      (e : Entry) (entries : List Entry) (o : store.State) (cid : GoString)
      → IsLost entries o cid
      → IsLost (e ∷ entries) o cid
  IsLost-later e entries o cid (x, there, base, named, fails) = (x, inr there, base, named, fails)

  -- The first entry is lost when its pull fails; the later ones are decided after it.
  orphans_step :
      (e : Entry) (entries : List Entry) (n : dht.State) (o : store.State) (cid : GoString)
      (next : dht.State → store.State → List GoString × dht.State × store.State)
      (q : Result Fault Record × store.State)
      → path_base e.key ≢ []
      → (store.pull (path_base e.key) o).0 ≡ q.0
      → q.1 ≡ o
      → ((n : dht.State) → In cid (next n o).0 ↔ IsLost entries o cid)
      → In cid (after_pull d codec local_peer_id dht store (path_base e.key) next n q).0
        ↔ IsLost (e ∷ entries) o cid
  orphans_step e entries n o cid next (ok r, o') named got kept ih =
      let m = announce_labels dht local_peer_id (get_labels r) (path_base e.key) n in
      (
        (λ h. IsLost-later e entries o cid ((ih m).0 (subst (λ w. In cid (next m w).0) kept h))),
        (λ (x, there, base, some_name, (why, fails)). elim there [
          | inl one ↦
              let same : path_base e.key ≡ cid =
                ap (λ (y : Entry). path_base y.key) (sym one) ∙ base in
              let clash : ok r ≡ err why = sym got ∙ (ap (λ c. (store.pull c o).0) same ∙ fails) in
              cc
          | inr later ↦
              subst (λ w. In cid (next m w).0) (sym kept)
                ((ih m).1 (x, later, base, some_name, (why, fails)))
        ]),
      )
  orphans_step e entries n o cid next (err why, o') named got kept ih = (
    (λ h. elim h [
      | inl one ↦ (
        e,
        inl refl,
        sym one,
        (λ empty. named (sym one ∙ empty)),
        (why, ap (λ c. (store.pull c o).0) one ∙ got),
      )
      | inr later ↦
          IsLost-later e entries o cid ((ih n).0 (subst (λ w. In cid (next n w).0) kept later))
    ]),
    (λ (x, there, base, some_name, fails). elim there [
      | inl one ↦ inl (sym base ∙ ap (λ (y : Entry). path_base y.key) one)
      | inr later ↦ inr (
          subst (λ w. In cid (next n w).0) (sym kept) ((ih n).1 (x, later, base, some_name, fails)))
    ]),
  )

  orphans_iff :
      ((cid : GoString) (o : store.State) → (store.pull cid o).1 ≡ o)
      → (entries : List Entry) (n : dht.State) (o : store.State) (cid : GoString)
      → In cid (republish_records d codec local_peer_id dht store entries n o).0
        ↔ IsLost entries o cid
  unfolding republish_records
  orphans_iff same [] n o cid = ((λ h. absurd h), (λ h. absurd h.1))
  orphans_iff same (e ∷ entries) n o cid = elim (Bool-cases (path_base e.key == [])) [
    | inl unnamed ↦
        let (into, out) = orphans_iff same entries n o cid in
        rw unnamed (
          (λ h. IsLost-later e entries o cid (into h)),
          (λ (x, there, base, named, fails). elim there [
            | inl one ↦ absurd (
                named (
                  sym base
                  ∙ (ap (λ (y : Entry). path_base y.key) one
                      ∙ (eq_iff (path_base e.key) []).0 unnamed)))
            | inr later ↦ out (x, later, base, named, fails)
          ]),
        )
    | inr full ↦
        let named : path_base e.key ≢ [] = λ empty. ground (arith, eq_iff (path_base e.key) []) in
        rw full (
          orphans_step e entries n o cid (republish_records d codec local_peer_id dht store entries)
            (store.pull (path_base e.key) o) named refl (same (path_base e.key) o)
            (λ m. orphans_iff same entries m o cid))
  ]

  -- On a datastore that does not fail, whose keys are as NewKey writes them, and with an object store
  -- that pulling does not change, a round of republishing deletes exactly what is left of the records
  -- that the object store does not give: their record keys, the keys of their labels at this peer and,
  -- if there is such a record, the label keys that do not parse; all else stays as it is.
  pub republish_effect :
      (rel : IsReliable d) (s : d.State) (n : dht.State) (o : store.State)
      → KeepsKeys d rel s
      → ((cid : GoString) (o : store.State) → (store.pull cid o).1 ≡ o)
      → (j : GoString)
      → let s' = (republish_local_labels d codec local_peer_id dht store (s, n, o)).0 in
        Swept
          (λ v.
            (cid : GoString) × IsLost (rel.entries records_prefix s) o cid
            × ((record_key d cid ≡ j) ⊎ IsOrphan cid local_peer_id j))
          (rel.contents s j)
          (rel.contents s' j)
  unfolding republish_local_labels
  republish_effect rel s n o keeps same j =
      let entries = rel.entries records_prefix s in
      let orphans = (republish_records d codec local_peer_id dht store entries n o).0 in
      let (s', cleaned_up, each, free) =
        cleanup_orphaned_effect d codec local_peer_id rel orphans s keeps in
      let left : (republish_local_labels d codec local_peer_id dht store (s, n, o)).0 ≡ s' =
        rw (rel.query_lem records_prefix s, republish_local_labels) (ap (λ t. t.1) cleaned_up) in
      rw left (
        Swept-from _ (rel.contents s j) (rel.contents s' j)
          (λ v held. elim (each j v held) [
            | inl (gone, (cid, there, h)) ↦
                inl (gone, (cid, (orphans_iff same entries n o cid).0 there, h))
            | inr (stays, none_of) ↦ inr (
              stays,
              λ (cid, lost, h). none_of (cid, (orphans_iff same entries n o cid).1 lost, h),
            )
          ])
          (free j))
