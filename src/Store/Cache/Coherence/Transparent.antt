-- ===== src/Store/Cache/Coherence/Transparent.antt =====
-- A cached store answers every sequence of requests as its source does.
use agntcy_dir.Base.{◌≡◌, refl, ap, ap₂, ◌∙◌, List, [], ◌∷◌, All}
use agntcy_dir.Base.Text.{GoString}
use agntcy_dir.Base.Result.{Result}
use agntcy_dir.Routing.Local.Undo.{IsRoundTrip}
use agntcy_dir.Store.Cache.{StoreApi, CacheStore, Content, CachedState, push, pull, lookup, delete}
use agntcy_dir.Store.Cache.Coherence.{IsCid, IsContentStore, IsHonest, IsCoherent}
use agntcy_dir.Store.Cache.Coherence.Served.{
  push-IsServed, pull-IsServed, lookup-IsServed, delete-IsServed,
}

pub data Request (Rec : Type 0) : Type 0 where
  push_request : Rec → Request Rec
  pull_request lookup_request delete_request : GoString → Request Rec

pub data Answer (Rec Meta Fault : Type 0) : Type 0 where
  pushed : Result Fault GoString → Answer Rec Meta Fault
  pulled : Result Fault Rec → Answer Rec Meta Fault
  looked_up : Result Fault Meta → Answer Rec Meta Fault
  deleted : Result Fault (Unit {0}) → Answer Rec Meta Fault

module _ {Rec Meta Fault : Type 0} (content : Content Rec Meta) (source : StoreApi Rec Meta Fault)
    (cache : CacheStore Fault) where
  -- The CID of a request stands in keys.
  abbrev pub IsValid : Request Rec → Type 0
  IsValid (push_request r) = IsCid (content.cid_of r)
  IsValid (pull_request cid) = IsCid cid
  IsValid (lookup_request cid) = IsCid cid
  IsValid (delete_request cid) = IsCid cid

  abbrev answer :
      {A S : Type 0}
      → (Result Fault A → Answer Rec Meta Fault)
      → Result Fault A × S
      → Answer Rec Meta Fault × S
  answer make (r, s) = (make r, s)

  -- One request to the source alone, and to the cached store.
  unfoldable pub serve_source : Request Rec → source.State → Answer Rec Meta Fault × source.State
  serve_source (push_request r) s = answer pushed (source.push r s)
  serve_source (pull_request cid) s = answer pulled (source.pull cid s)
  serve_source (lookup_request cid) s = answer looked_up (source.lookup cid s)
  serve_source (delete_request cid) s = answer deleted (source.delete cid s)

  unfoldable pub serve_cached :
      Request Rec
      → CachedState content source cache
      → Answer Rec Meta Fault × CachedState content source cache
  serve_cached (push_request r) t = answer pushed (push content source cache r t)
  serve_cached (pull_request cid) t = answer pulled (pull content source cache cid t)
  serve_cached (lookup_request cid) t = answer looked_up (lookup content source cache cid t)
  serve_cached (delete_request cid) t = answer deleted (delete content source cache cid t)

  unfoldable pub source_answers : List (Request Rec) → source.State → List (Answer Rec Meta Fault)
  source_answers [] s = []
  source_answers (q ∷ requests) s = let (a, s') = serve_source q s in a ∷ source_answers requests s'

  unfoldable pub cached_answers :
      List (Request Rec) → CachedState content source cache → List (Answer Rec Meta Fault)
  cached_answers [] t = []
  cached_answers (q ∷ requests) t = let (a, t') = serve_cached q t in a ∷ cached_answers requests t'

  module _ (honest : IsHonest cache) (laws : IsContentStore content source)
      (rt : IsRoundTrip content.record_codec) (rt_meta : IsRoundTrip content.meta_codec) where
    serve_agrees :
        (q : Request Rec) (s : source.State) (c : cache.State)
        → IsValid q
        → IsCoherent content source cache honest s c
        → ((serve_cached q (s, c)).0 ≡ (serve_source q s).0)
          × ((serve_cached q (s, c)).1.0 ≡ (serve_source q s).1)
          × IsCoherent content source cache honest
              (serve_cached q (s, c)).1.0
              (serve_cached q (s, c)).1.1
    unfolding serve_source serve_cached
    serve_agrees (push_request r) s c v h =
        let (a, b, k) = push-IsServed content source cache honest laws rt rt_meta r s c v h in
        (ap pushed a, b, k)
    serve_agrees (pull_request cid) s c v h =
        let (a, b, k) = pull-IsServed content source cache honest laws rt rt_meta cid s c v h in
        (ap pulled a, b, k)
    serve_agrees (lookup_request cid) s c v h =
        let (a, b, k) = lookup-IsServed content source cache honest laws rt rt_meta cid s c v h in
        (ap looked_up a, b, k)
    serve_agrees (delete_request cid) s c v h =
        let (a, b, k) = delete-IsServed content source cache honest laws rt rt_meta cid s c v h in
        (ap deleted a, b, k)

    -- From a coherent cache, such as an empty one, the cached store answers every sequence of pushes,
    -- pulls, lookups and deletes of CIDs as the source alone does, if the source is addressed by
    -- content, the encodings read back, and the cache invents nothing and forgets what is deleted.
    pub cached_answers-source_answers :
        (requests : List (Request Rec)) (s : source.State) (c : cache.State)
        → All IsValid requests
        → IsCoherent content source cache honest s c
        → cached_answers requests (s, c) ≡ source_answers requests s
    unfolding cached_answers source_answers
    cached_answers-source_answers [] s c v h = refl
    cached_answers-source_answers (q ∷ requests) s c (v, vs) h =
        let (same, state, coherent) = serve_agrees q s c v h in
        let t = (serve_cached q (s, c)).1 in
        let rest = cached_answers-source_answers requests t.0 t.1 vs coherent in
        ap₂ ◌∷◌ same (rest ∙ ap (source_answers requests) state)
