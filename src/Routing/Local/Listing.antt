-- ===== src/Routing/Local/Listing.antt =====
-- What List returns, and on which labels it decides.
use agntcy_dir.Base.{
  ℕ, zero, suc, ◌+◌, ◌≡◌, ◌≢◌, refl, sym, ap, ◌∙◌, Bool, true, false, ◌&&◌, not, inl, inr, some,
  List, [], ◌∷◌, ◌++◌, arith, if◌then◌else◌, Bool-cases, take, All, In,
}
use agntcy_dir.Base.Text.{
  GoString, ◌==◌, eq_iff, has_prefix, has_prefix-append, has_prefix_split, trim_prefix,
  trim_prefix-append,
}
use agntcy_dir.Base.Result.{ok, err, Result-cases}
use agntcy_dir.Routing.Datastore.{Datastore, Bytes, Entry, IsReliable, Contents}
use agntcy_dir.Routing.Local.{
  RecordQuery, ListResponse, records_prefix, record_labels, matches_all_queries, list_entries,
  list_records,
}

-- Whether an entry is listed, and the response for it.
abbrev pub listed : (d : Datastore) → GoString → List RecordQuery → d.State → Entry → Bool
listed d local_peer_id queries s e =
    let cid = trim_prefix e.key records_prefix in
    not e.failed && (not (cid == []) && matches_all_queries d local_peer_id cid queries s)

abbrev pub response : (d : Datastore) → GoString → d.State → Entry → ListResponse
response d local_peer_id s e =
    let cid = trim_prefix e.key records_prefix in
    record { cid = cid; labels = record_labels d local_peer_id cid s }

-- The responses for all the entries that are listed, in order.
unfoldable pub all_listed :
    (d : Datastore) → GoString → List RecordQuery → d.State → List Entry → List ListResponse
all_listed d local_peer_id queries s [] = []
all_listed d local_peer_id queries s (e ∷ entries) =
    let rest = all_listed d local_peer_id queries s entries in
    if listed d local_peer_id queries s e then response d local_peer_id s e ∷ rest else rest

-- The first `limit` responses; a limit of 0 is none.
abbrev pub limited : ℕ → List ListResponse → List ListResponse
limited zero rs = rs
limited (suc n) rs = take (suc n) rs

module _ (d : Datastore) (local_peer_id : GoString) (queries : List RecordQuery) (s : d.State) where
  list_all :
      (n : ℕ) (entries : List Entry)
      → list_entries d local_peer_id queries 0 n s entries
        ≡ all_listed d local_peer_id queries s entries
  unfolding list_entries all_listed
  list_all n [] = refl
  list_all n (e ∷ entries) = ground (arith, list_all n entries, list_all (n + 1) entries)

  take_nil : (k : ℕ) → take {A = ListResponse} k [] ≡ []
  take_nil zero = refl
  take_nil (suc k) = refl

  list_some :
      (k limit n : ℕ) (entries : List Entry)
      → limit ≡ n + suc k
      → list_entries d local_peer_id queries limit n s entries
        ≡ take (suc k) (all_listed d local_peer_id queries s entries)
  unfolding list_entries all_listed
  list_some k limit n [] h = refl
  list_some zero limit n (e ∷ entries) h = ground (arith, list_some zero limit n entries h)
  list_some (suc k) limit n (e ∷ entries) h =
      ground (
        arith,
        list_some (suc k) limit n entries h,
        list_some k limit (n + 1) entries (omega arith),
      )

  list_limited :
      (limit : ℕ) (entries : List Entry)
      → list_entries d local_peer_id queries limit 0 s entries
        ≡ limited limit (all_listed d local_peer_id queries s entries)
  list_limited zero entries = list_all 0 entries
  list_limited (suc k) entries = list_some k (suc k) 0 entries (omega arith)

  limited_nil : (limit : ℕ) → [] ≡ limited limit []
  limited_nil zero = refl
  limited_nil (suc k) = refl

  -- List returns the responses for the records of the store that match every query, in the order of
  -- the store, cut at the limit when it is not 0; nothing when the query of the store fails.
  pub list_records_lem :
      (limit : ℕ)
      → list_records d local_peer_id queries limit s
        ≡ limited limit (elim (d.query records_prefix s) as (λ _. List ListResponse) [
          | ok entries ↦ all_listed d local_peer_id queries s entries
          | err _ ↦ []
        ])
  unfolding list_records
  list_records_lem limit = elim (Result-cases (d.query records_prefix s)) [
    | inl (entries, e) ↦ rw (e, list_records) (list_limited limit entries)
    | inr (x, e) ↦ rw (e, list_records) (limited_nil limit)
  ]

  -- What a response says of the store.
  pub record IsFound (contents : Contents) (r : ListResponse) : Type 0 where
    pub value : Bytes
    pub stored : contents (records_prefix ++ r.cid) ≡ some value
    pub has_cid : r.cid ≢ []
    pub matches : matches_all_queries d local_peer_id r.cid queries s ≡ true
    pub its_labels : r.labels ≡ record_labels d local_peer_id r.cid s

  module _ (rel : IsReliable d) where
    abbrev SoundEntry : Entry → Type 0
    SoundEntry e =
        (rel.contents s e.key ≡ some e.value)
        × (has_prefix e.key records_prefix ≡ true)
        × (e.failed ≡ false)

    IsFound-entry :
        (e : Entry)
        → SoundEntry e
        → listed d local_peer_id queries s e ≡ true
        → IsFound (rel.contents s) (response d local_peer_id s e)
    IsFound-entry e (held, starts, sound) h =
        let (t, same) = has_prefix_split e.key records_prefix starts in
        let trimmed : trim_prefix e.key records_prefix ≡ t =
          ap (λ k. trim_prefix k records_prefix) same ∙ trim_prefix-append records_prefix t in
        record {
          value = e.value;
          stored = rw trimmed (ap (rel.contents s) (sym same) ∙ held);
          has_cid =
              λ empty. absurd (ground (arith, eq_iff (trim_prefix e.key records_prefix) [], empty));
          matches = ground arith;
          its_labels = refl;
        }

    All-IsFound :
        (entries : List Entry)
        → All SoundEntry entries
        → All (IsFound (rel.contents s)) (all_listed d local_peer_id queries s entries)
    unfolding all_listed
    All-IsFound [] h = tt
    All-IsFound (e ∷ entries) (h, hs) = elim (Bool-cases (listed d local_peer_id queries s e)) [
      | inl here ↦ rw here (IsFound-entry e h here, All-IsFound entries hs)
      | inr left_out ↦ rw left_out (All-IsFound entries hs)
    ]

    listed-In :
        (e : Entry) (entries : List Entry)
        → In e entries
        → listed d local_peer_id queries s e ≡ true
        → In (response d local_peer_id s e) (all_listed d local_peer_id queries s entries)
    unfolding all_listed
    listed-In e [] h keep = absurd h
    listed-In e (x ∷ entries) (inl same) keep =
        let keep' : listed d local_peer_id queries s x ≡ true = rw (← same) keep in
        rw keep' (inl (ap (response d local_peer_id s) same))
    listed-In e (x ∷ entries) (inr later) keep =
        elim (Bool-cases (listed d local_peer_id queries s x)) [
          | inl here ↦ rw here (inr (listed-In e entries later keep))
          | inr left_out ↦ rw left_out (listed-In e entries later keep)
        ]

    take-IsFound :
        (k : ℕ) (rs : List ListResponse)
        → All (IsFound (rel.contents s)) rs
        → All (IsFound (rel.contents s)) (take k rs)
    take-IsFound zero rs h = tt
    take-IsFound (suc k) [] h = tt
    take-IsFound (suc k) (r ∷ rs) (p, h) = (p, take-IsFound k rs h)

    limited-IsFound :
        (limit : ℕ) (rs : List ListResponse)
        → All (IsFound (rel.contents s)) rs
        → All (IsFound (rel.contents s)) (limited limit rs)
    limited-IsFound zero rs h = h
    limited-IsFound (suc k) rs h = take-IsFound (suc k) rs h

    list_reliable :
        (limit : ℕ)
        → list_records d local_peer_id queries limit s
          ≡ limited limit (all_listed d local_peer_id queries s (rel.entries records_prefix s))
    list_reliable limit = list_records_lem limit ∙ rw (rel.query_lem records_prefix s)

    -- Every response of List is for a record key of the store with a CID, matches every query, and
    -- carries the labels of the record, whatever the limit.
    pub list_records_sound :
        (limit : ℕ) → All (IsFound (rel.contents s)) (list_records d local_peer_id queries limit s)
    list_records_sound limit = rw (list_reliable limit) (
        limited-IsFound limit _
          (All-IsFound (rel.entries records_prefix s) (rel.entries_sound records_prefix s)))

    -- Without a limit, List returns every record of the store that matches every query.
    pub list_records_complete :
        (cid : GoString) (v : Bytes)
        → rel.contents s (records_prefix ++ cid) ≡ some v
        → cid ≢ []
        → matches_all_queries d local_peer_id cid queries s ≡ true
        → In
            (record { cid = cid; labels = record_labels d local_peer_id cid s })
            (list_records d local_peer_id queries 0 s)
    list_records_complete cid v held nonempty matches =
        let e : Entry = record { key = records_prefix ++ cid; value = v; failed = false } in
        let trimmed = trim_prefix-append records_prefix cid in
        let keep : listed d local_peer_id queries s e ≡ true =
          rw trimmed (ground (arith, eq_iff cid [])) in
        let member =
          listed-In e (rel.entries records_prefix s)
            (rel.entries_complete records_prefix s (records_prefix ++ cid) v held
              (has_prefix-append records_prefix cid))
            keep in
        rw (list_reliable 0) (rw trimmed at member)
