-- ===== src/Examples/Cache.antt =====
-- A store of texts that are their own CIDs, with an association list as its cache.
use agntcy_dir.Base.{
  ℕ, ◌≡◌, ◌≢◌, ◌⊎◌, inl, inr, refl, sym, ap, Bool, true, false, Bool-cases, Option, none, some,
  List, [], ◌∷◌, arith, get_or, any, if◌then◌else◌,
}
use agntcy_dir.Base.Text.{GoString, lit, ◌==◌, eq_iff, eq_refl}
use agntcy_dir.Base.Result.{Result, ok, err}
use agntcy_dir.Base.Dict.{Dict, lookup, insert, erase, lookup-insert, lookup-erase}
use agntcy_dir.Routing.Datastore.{Bytes, read_result}
use agntcy_dir.Routing.Local.{Codec}
use agntcy_dir.Routing.Local.Undo.{IsRoundTrip}
use agntcy_dir.Store.Cache.{StoreApi, CacheStore, Content}
use agntcy_dir.Store.Cache.Coherence.{IsCid, IsContentStore, IsHonest, IsCoherent}
use agntcy_dir.Store.Cache.Coherence.Transparent.{
  Request, push_request, pull_request, lookup_request, delete_request, cached_answers,
  source_answers, cached_answers-source_answers,
}
use agntcy_dir.Routing.Datastore.{StoreError, not_found}

abbrev text_codec : Codec GoString
text_codec = record { encode = λ t. some t; decode = λ bytes. some bytes }

text_codec-IsRoundTrip : IsRoundTrip text_codec
text_codec-IsRoundTrip = record { back = λ t bytes h. sym h }

abbrev texts : Content GoString GoString
texts = record {
  cid_of = λ r. r;
  cid_of_meta = λ m. m;
  record_codec = text_codec;
  meta_codec = text_codec;
}

abbrev pub holds : GoString → List GoString → Bool
holds cid s = any (λ t. t == cid) s

abbrev pub found : Bool → GoString → Result StoreError GoString
found true cid = ok cid
found false cid = err not_found

pub without : GoString → List GoString → List GoString
without cid [] = []
without cid (t ∷ s) = let rest = without cid s in if t == cid then rest else t ∷ rest

pub without_keeps :
    (gone cid : GoString) (s : List GoString)
    → gone ≢ cid
    → holds cid (without gone s) ≡ holds cid s
unfolding without
without_keeps gone cid [] h = refl
without_keeps gone cid (t ∷ s) h =
    ground (arith, without_keeps gone cid s h, eq_iff t gone, eq_iff t cid)

pub without_gone : (cid : GoString) (s : List GoString) → holds cid (without cid s) ≡ false
unfolding without
without_gone cid [] = refl
without_gone cid (t ∷ s) = ground (arith, without_gone cid s)

abbrev pub source : StoreApi GoString GoString StoreError
source = record {
  State = List GoString;
  push = λ r s. (ok r, r ∷ s);
  pull = λ cid s. (found (holds cid s) cid, s);
  lookup = λ cid s. (found (holds cid s) cid, s);
  delete = λ cid s. (ok tt, without cid s);
}

pub found_cid : (b : Bool) (cid x : GoString) → found b cid ≡ ok x → x ≡ cid
found_cid true cid x h = cc
found_cid false cid x h = cc

pub found_pushed : (r : GoString) (s : List GoString) → found (holds r (r ∷ s)) r ≡ ok r
found_pushed r s = rw (eq_refl r)

pub found_more :
    (r cid x : GoString) (s : List GoString)
    → found (holds cid s) cid ≡ ok x
    → found (holds cid (r ∷ s)) cid ≡ ok x
found_more r cid x s h = ground arith

pub found_left :
    (gone cid x : GoString) (s : List GoString)
    → gone ≢ cid
    → found (holds cid s) cid ≡ ok x
    → found (holds cid (without gone s)) cid ≡ ok x
found_left gone cid x s h e = rw (without_keeps gone cid s h) e

source-IsContentStore : IsContentStore texts source
source-IsContentStore = record {
  pull_same = λ cid s. refl;
  lookup_same = λ cid s. refl;
  pull_cid = λ cid s r h. found_cid (holds cid s) cid r h;
  lookup_cid = λ cid s m h. found_cid (holds cid s) cid m h;
  push_pull = λ r s ref h. found_pushed r s;
  push_keeps = λ r x cid s h. found_more r cid x s h;
  push_keeps_meta = λ r m cid s h. found_more r cid m s h;
  delete_keeps = λ gone cid x s apart h. found_left gone cid x s apart h;
  delete_keeps_meta = λ gone cid m s apart h. found_left gone cid m s apart h;
}

abbrev cache : CacheStore StoreError
cache = record {
  State = Dict Bytes;
  new_key = λ k. k;
  get = λ k c. read_result (lookup k c);
  put = λ k v c. (ok tt, insert k v c);
  delete = λ k c. (ok tt, erase k c);
}

read_held : (o : Option Bytes) (v : Bytes) → read_result o ≡ ok v → o ≡ some v
read_held none v h = cc
read_held (some w) v h = cc

inserted :
    (k j : GoString) (v w : Bytes) (c : Dict Bytes)
    → lookup j (insert k v c) ≡ some w
    → (lookup j c ≡ some w) ⊎ ((k ≡ j) × (v ≡ w))
inserted k j v w c h = elim (Bool-cases (k == j)) [
  | inl same ↦ inr ((eq_iff k j).0 same, ground (arith, lookup-insert k j v c))
  | inr other ↦ inl (ground (arith, lookup-insert k j v c))
]

erased :
    (k j : GoString) (w : Bytes) (c : Dict Bytes)
    → lookup j (erase k c) ≡ some w
    → (k ≢ j) × (lookup j c ≡ some w)
erased k j w c h = elim (Bool-cases (k == j)) [
  | inl same ↦ absurd (ground (arith, lookup-erase k j c))
  | inr other ↦ ((λ e. ground (arith, eq_iff k j)), ground (arith, lookup-erase k j c))
]

abbrev cache-IsHonest : IsHonest cache
cache-IsHonest = record {
  contents = λ c k. lookup k c;
  new_key_lem = λ k h. refl;
  get_lem = λ k c v h. read_held (lookup k c) v h;
  put_lem = inserted;
  delete_lem = erased;
}

nothing_cached : (k : GoString) (bytes : Bytes) → lookup k [] ≡ some bytes → ⊥
unfolding lookup
nothing_cached k bytes h = absurd (ground arith)

empty-IsCoherent : IsCoherent texts source cache cache-IsHonest [] []
empty-IsCoherent = record {
  at_record = λ cid bytes v e. absurd (nothing_cached _ bytes e);
  at_meta = λ cid bytes v e. absurd (nothing_cached _ bytes e);
}

a-IsCid : IsCid (lit "a")
a-IsCid = record {
  part = (
    (λ e. cc),
    (λ e. let apart : ◌≡◌ {A = ℕ} b'a' b'.' = ap (λ t. get_or t 0 0) e in absurd (omega arith)),
    (λ e. cc),
  );
  lacks = (omega arith, tt);
}

abbrev requests : List (Request GoString)
requests =
    push_request (lit "a")
    ∷ pull_request (lit "a")
    ∷ delete_request (lit "a")
    ∷ pull_request (lit "a")
    ∷ lookup_request (lit "a")
    ∷ []

cached_answers-source_answers_example :
    cached_answers texts source cache requests ([], [])
    ≡ source_answers texts source cache requests []
cached_answers-source_answers_example =
    cached_answers-source_answers texts source cache cache-IsHonest source-IsContentStore
      text_codec-IsRoundTrip text_codec-IsRoundTrip requests [] []
      (a-IsCid, (a-IsCid, (a-IsCid, (a-IsCid, (a-IsCid, tt))))) empty-IsCoherent
