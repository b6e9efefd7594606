-- ===== src/Store/Cache.antt =====
-- The cached store (server/store/cache/cache.go) over an object store and a datastore. A reference is
-- its CID. What the cache makes of a failure is logged and dropped, so it is no error here either.
pub mod Coherence
use agntcy_dir.Base.{
  ℕ, ◌≡◌, Bool, true, false, Option, none, some, List, [], ◌∷◌, ◌++◌, if◌then◌else◌,
}
use agntcy_dir.Base.Text.{GoString, lit, ◌==◌}
use agntcy_dir.Base.Result.{Result, ok, err, ◌>>=◌}
use agntcy_dir.Base.Action.{Action}
use agntcy_dir.Routing.Datastore.{Bytes}
use agntcy_dir.Routing.Local.{Codec}

-- types.StoreAPI, over the records, their metadata and the errors.
pub record StoreApi (Rec Meta Fault : Type 0) : Type 1 where
  pub State : Type 0
  pub push : Rec → Action State Fault GoString
  pub pull : GoString → Action State Fault Rec
  pub lookup : GoString → Action State Fault Meta
  pub delete : GoString → Action State Fault (Unit {0})

-- The operations of types.Datastore that the cache calls.
pub record CacheStore (Fault : Type 0) : Type 1 where
  pub State : Type 0
  pub new_key : GoString → GoString
  pub get : GoString → State → Result Fault Bytes
  pub put : GoString → Bytes → Action State Fault (Unit {0})
  pub delete : GoString → Action State Fault (Unit {0})

-- corev1.Record and corev1.RecordMeta: their CIDs and their encodings.
pub record Content (Rec Meta : Type 0) : Type 0 where
  pub cid_of : Rec → GoString
  pub cid_of_meta : Meta → GoString
  pub record_codec : Codec Rec
  pub meta_codec : Codec Meta

abbrev pub record_prefix : GoString
record_prefix = lit "/record/"

abbrev pub meta_prefix : GoString
meta_prefix = lit "/meta/"

module _ {Rec Meta Fault : Type 0} (content : Content Rec Meta) (source : StoreApi Rec Meta Fault)
    (cache : CacheStore Fault) where
  -- cachedStore: the states of the source and of the cache.
  abbrev pub CachedState : Type 0
  CachedState = source.State × cache.State

  -- cacheRecord and cacheMeta: the cache after them.
  unfoldable pub cache_record : Rec → cache.State → cache.State
  cache_record r c = if content.cid_of r == [] then c else (elim (content.record_codec.encode r) [
    | none ↦ c
    | some bytes ↦ (cache.put (cache.new_key (record_prefix ++ content.cid_of r)) bytes c).1
  ])

  unfoldable pub cache_meta : Meta → cache.State → cache.State
  cache_meta m c = if content.cid_of_meta m == [] then c else (elim (content.meta_codec.encode m) [
    | none ↦ c
    | some bytes ↦ (cache.put (cache.new_key (meta_prefix ++ content.cid_of_meta m)) bytes c).1
  ])

  abbrev pub decoded : {A : Type 0} → Codec A → Result Fault Bytes → Option A
  decoded codec (ok bytes) = codec.decode bytes
  decoded codec (err _) = none

  -- getRecordFromCache and getMetaFromCache; `none` is an error.
  unfoldable pub get_record_from_cache : GoString → cache.State → Option Rec
  get_record_from_cache cid c =
      decoded content.record_codec (cache.get (cache.new_key (record_prefix ++ cid)) c)

  unfoldable pub get_meta_from_cache : GoString → cache.State → Option Meta
  get_meta_from_cache cid c =
      decoded content.meta_codec (cache.get (cache.new_key (meta_prefix ++ cid)) c)

  -- removeFromCache
  unfoldable pub remove_from_cache : GoString → cache.State → cache.State
  remove_from_cache cid c =
      (cache.delete (cache.new_key (meta_prefix ++ cid))
        (cache.delete (cache.new_key (record_prefix ++ cid)) c).1).1

  -- What follows a call of the source: the cache is filled when it succeeds.
  abbrev pub filling :
      {A : Type 0}
      → (A → cache.State → cache.State)
      → Result Fault A × source.State
      → cache.State
      → Result Fault A × CachedState
  filling fill (ok a, s) c = (ok a, (s, fill a c))
  filling fill (err e, s) c = (err e, (s, c))

  unfoldable pub push : Rec → Action CachedState Fault GoString
  push r (s, c) = filling (λ _. cache_record r) (source.push r s) c

  unfoldable pub pull : GoString → Action CachedState Fault Rec
  pull cid (s, c) = elim (get_record_from_cache cid c) [
    | some r ↦ (ok r, (s, c))
    | none ↦ filling cache_record (source.pull cid s) c
  ]

  unfoldable pub lookup : GoString → Action CachedState Fault Meta
  lookup cid (s, c) = elim (get_meta_from_cache cid c) [
    | some m ↦ (ok m, (s, c))
    | none ↦ filling cache_meta (source.lookup cid s) c
  ]

  unfoldable pub delete : GoString → Action CachedState Fault (Unit {0})
  delete cid (s, c) = let (r, s') = source.delete cid s in (r, (s', remove_from_cache cid c))
