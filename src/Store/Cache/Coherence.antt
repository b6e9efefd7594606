-- ===== src/Store/Cache/Coherence.antt =====
-- The cache agrees with its source: an invariant of the cached store's operations.
pub mod Filling
pub mod Served
pub mod Transparent
use agntcy_dir.Base.{
  ℕ, zero, ◌≡◌, ◌≢◌, ◌⊎◌, inl, inr, refl, sym, ap, ap₂, subst, ◌∙◌, Bool, true, false, Bool-cases,
  Option, none, some, Option-cases, List, [], ◌∷◌, ◌++◌, arith, get_or, if◌then◌else◌, All,
}
use agntcy_dir.Base.Text.{GoString, lit, ◌==◌, eq_iff}
use agntcy_dir.Base.Text.Split.{Lacks, split, split_of_Lacks}
use agntcy_dir.Base.Result.{Result, ok, err, Result-cases}
use agntcy_dir.Labels.Namespace.{slash, prefix}
use agntcy_dir.Labels.Validator.Accepts.{split-prefix}
use agntcy_dir.Routing.Datastore.{Bytes, Contents, IsClean, CleanPart}
use agntcy_dir.Routing.Local.{Codec}
use agntcy_dir.Routing.Local.Undo.{IsRoundTrip}
use agntcy_dir.Store.Cache.{
  StoreApi, CacheStore, Content, record_prefix, meta_prefix, CachedState, cache_record, cache_meta,
  get_record_from_cache, get_meta_from_cache, remove_from_cache, push, pull, lookup, delete,
  filling, decoded,
}

-- A CID as it stands in a key.
pub record IsCid (cid : GoString) : Type 0 where
  pub part : CleanPart cid
  pub lacks : Lacks slash cid

-- A source addressed by content: what it returns for a CID has that CID and stays, until it is
-- deleted; reading changes nothing.
pub record IsContentStore {Rec Meta Fault : Type 0} (content : Content Rec Meta)
    (source : StoreApi Rec Meta Fault) : Type 0 where
  pub pull_same : (cid : GoString) (s : source.State) → (source.pull cid s).1 ≡ s
  pub lookup_same : (cid : GoString) (s : source.State) → (source.lookup cid s).1 ≡ s
  pub pull_cid :
      (cid : GoString) (s : source.State) (r : Rec)
      → (source.pull cid s).0 ≡ ok r
      → content.cid_of r ≡ cid
  pub lookup_cid :
      (cid : GoString) (s : source.State) (m : Meta)
      → (source.lookup cid s).0 ≡ ok m
      → content.cid_of_meta m ≡ cid
  pub push_pull :
      (r : Rec) (s : source.State) (ref : GoString)
      → (source.push r s).0 ≡ ok ref
      → (source.pull (content.cid_of r) (source.push r s).1).0 ≡ ok r
  pub push_keeps :
      (r x : Rec) (cid : GoString) (s : source.State)
      → (source.pull cid s).0 ≡ ok x
      → (source.pull cid (source.push r s).1).0 ≡ ok x
  pub push_keeps_meta :
      (r : Rec) (m : Meta) (cid : GoString) (s : source.State)
      → (source.lookup cid s).0 ≡ ok m
      → (source.lookup cid (source.push r s).1).0 ≡ ok m
  pub delete_keeps :
      (gone cid : GoString) (x : Rec) (s : source.State)
      → gone ≢ cid
      → (source.pull cid s).0 ≡ ok x
      → (source.pull cid (source.delete gone s).1).0 ≡ ok x
  pub delete_keeps_meta :
      (gone cid : GoString) (m : Meta) (s : source.State)
      → gone ≢ cid
      → (source.lookup cid s).0 ≡ ok m
      → (source.lookup cid (source.delete gone s).1).0 ≡ ok m

-- A datastore that may fail to read or to write and may forget, but never makes up a value, and
-- does not keep what was deleted.
pub record IsHonest {Fault : Type 0} (cache : CacheStore Fault) : Type 0 where
  pub contents : cache.State → Contents
  pub new_key_lem : (key : GoString) → IsClean key → cache.new_key key ≡ key
  pub get_lem :
      (k : GoString) (c : cache.State) (v : Bytes) → cache.get k c ≡ ok v → contents c k ≡ some v
  pub put_lem :
      (k j : GoString) (v w : Bytes) (c : cache.State)
      → contents (cache.put k v c).1 j ≡ some w
      → (contents c j ≡ some w) ⊎ ((k ≡ j) × (v ≡ w))
  pub delete_lem :
      (k j : GoString) (w : Bytes) (c : cache.State)
      → contents (cache.delete k c).1 j ≡ some w
      → (k ≢ j) × (contents c j ≡ some w)

prefixed-IsClean :
    (name cid : GoString)
    → CleanPart name
    → Lacks slash name
    → IsCid cid
    → IsClean (prefix name ++ cid)
prefixed-IsClean name cid clean lacks h = record {
  first = name;
  rest = cid ∷ [];
  parts = split-prefix name cid lacks ∙ ap (λ t. [] ∷ name ∷ t) (split_of_Lacks slash cid h.lacks);
  clean = (clean, (h.part, tt));
}

pub record_key-IsClean : (cid : GoString) → IsCid cid → IsClean (record_prefix ++ cid)
unfolding prefix
record_key-IsClean cid h =
    prefixed-IsClean (lit "record") cid ((λ e. cc), (λ e. cc), (λ e. cc))
      (omega arith, (omega arith, (omega arith, (omega arith, (omega arith, (omega arith, tt)))))) h

pub meta_key-IsClean : (cid : GoString) → IsCid cid → IsClean (meta_prefix ++ cid)
unfolding prefix
meta_key-IsClean cid h =
    prefixed-IsClean (lit "meta") cid ((λ e. cc), (λ e. cc), (λ e. cc))
      (omega arith, (omega arith, (omega arith, (omega arith, tt)))) h

pub same_record_key : (a b : GoString) → record_prefix ++ a ≡ record_prefix ++ b → a ≡ b
same_record_key a b e = cc

pub same_meta_key : (a b : GoString) → meta_prefix ++ a ≡ meta_prefix ++ b → a ≡ b
same_meta_key a b e = cc

pub other_key : (a b : GoString) → record_prefix ++ a ≢ meta_prefix ++ b
other_key a b e =
    let apart : ◌≡◌ {A = ℕ} b'r' b'm' = ap (λ t. get_or t 1 0) e in absurd (omega arith)

module _ {Rec Meta Fault : Type 0} (content : Content Rec Meta) (source : StoreApi Rec Meta Fault)
    (cache : CacheStore Fault) (honest : IsHonest cache) where
  -- Whatever the cache holds under a CID is what the source returns for it.
  pub record IsCoherent (s : source.State) (c : cache.State) : Type 0 where
    pub at_record :
        (cid : GoString) (bytes : Bytes)
        → IsCid cid
        → honest.contents c (record_prefix ++ cid) ≡ some bytes
        → (r : Rec) × (content.record_codec.decode bytes ≡ some r) × ((source.pull cid s).0 ≡ ok r)
    pub at_meta :
        (cid : GoString) (bytes : Bytes)
        → IsCid cid
        → honest.contents c (meta_prefix ++ cid) ≡ some bytes
        → (m : Meta) × (content.meta_codec.decode bytes ≡ some m) × ((source.lookup cid s).0 ≡ ok m)
