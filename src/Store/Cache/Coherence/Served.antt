-- ===== src/Store/Cache/Coherence/Served.antt =====
-- Each operation of the cached store answers as the source does and keeps the cache coherent.
use agntcy_dir.Base.{◌≡◌, inl, inr, refl, sym, ap, ap₂, subst, ◌∙◌, Option-cases, ◌++◌}
use agntcy_dir.Base.Text.{GoString}
use agntcy_dir.Base.Result.{Result, ok, err}
use agntcy_dir.Routing.Local.Undo.{IsRoundTrip}
use agntcy_dir.Store.Cache.{
  StoreApi, CacheStore, Content, record_prefix, meta_prefix, CachedState, cache_record, cache_meta,
  get_record_from_cache, get_meta_from_cache, remove_from_cache, push, pull, lookup, delete,
  filling,
}
use agntcy_dir.Store.Cache.Coherence.{
  IsCid, IsContentStore, IsHonest, IsCoherent, record_key-IsClean, meta_key-IsClean,
}
use agntcy_dir.Store.Cache.Coherence.Filling.{
  cache_record-IsCoherent, cache_meta-IsCoherent, cached_record, cached_meta,
}

module _ {Rec Meta Fault : Type 0} (content : Content Rec Meta) (source : StoreApi Rec Meta Fault)
    (cache : CacheStore Fault) (honest : IsHonest cache) (laws : IsContentStore content source)
    (rt : IsRoundTrip content.record_codec) (rt_meta : IsRoundTrip content.meta_codec) where
  abbrev pub Agrees : source.State → cache.State → Type 0
  Agrees = IsCoherent content source cache honest

  -- The result is the source's, the source's state is as the source leaves it, and the cache agrees.
  abbrev pub IsServed :
      {A : Type 0}
      → Result Fault A × source.State
      → Result Fault A × CachedState content source cache
      → Type 0
  IsServed plain out = (out.0 ≡ plain.0) × (out.1.0 ≡ plain.1) × Agrees out.1.0 out.1.1

  filling-IsServed :
      {A : Type 0} (fill : A → cache.State → cache.State) (plain : Result Fault A × source.State)
      (c : cache.State)
      → ((a : A) → plain.0 ≡ ok a → Agrees plain.1 (fill a c))
      → Agrees plain.1 c
      → IsServed plain (filling content source cache fill plain c)
  filling-IsServed fill (ok a, s) c h k = (refl, refl, h a refl)
  filling-IsServed fill (err e, s) c h k = (refl, refl, k)

  pub pull-IsServed :
      (cid : GoString) (s : source.State) (c : cache.State)
      → IsCid cid
      → Agrees s c
      → IsServed (source.pull cid s) (pull content source cache cid (s, c))
  unfolding pull
  pull-IsServed cid s c valid h =
      elim (Option-cases (get_record_from_cache content source cache cid c)) [
        | inr (r, hit) ↦
            rw (hit, pull)
              (
                sym (
                    cached_record content source cache honest laws rt rt_meta cid s c r valid h
                      hit),
                sym (laws.pull_same cid s),
                h,
              )
        | inl miss ↦
            rw (miss, pull)
              (filling-IsServed (cache_record content source cache) (source.pull cid s) c
                (λ r got.
                  let same = laws.pull_cid cid s r got in
                  rw (laws.pull_same cid s) (
                    cache_record-IsCoherent content source cache honest laws rt rt_meta r s c
                      (subst IsCid (sym same) valid) (ap (λ x. (source.pull x s).0) same ∙ got) h))
                (rw (laws.pull_same cid s) h))
      ]

  pub lookup-IsServed :
      (cid : GoString) (s : source.State) (c : cache.State)
      → IsCid cid
      → Agrees s c
      → IsServed (source.lookup cid s) (lookup content source cache cid (s, c))
  unfolding lookup
  lookup-IsServed cid s c valid h =
      elim (Option-cases (get_meta_from_cache content source cache cid c)) [
        | inr (m, hit) ↦
            rw (hit, lookup)
              (
                sym (cached_meta content source cache honest laws rt rt_meta cid s c m valid h hit),
                sym (laws.lookup_same cid s),
                h,
              )
        | inl miss ↦
            rw (miss, lookup)
              (filling-IsServed (cache_meta content source cache) (source.lookup cid s) c
                (λ m got.
                  let same = laws.lookup_cid cid s m got in
                  rw (laws.lookup_same cid s) (
                    cache_meta-IsCoherent content source cache honest laws rt rt_meta m s c
                      (subst IsCid (sym same) valid) (ap (λ x. (source.lookup x s).0) same ∙ got)
                      h))
                (rw (laws.lookup_same cid s) h))
      ]

  pub push-IsServed :
      (r : Rec) (s : source.State) (c : cache.State)
      → IsCid (content.cid_of r)
      → Agrees s c
      → IsServed (source.push r s) (push content source cache r (s, c))
  unfolding push
  push-IsServed r s c valid h =
      let after : Agrees (source.push r s).1 c = record {
        at_record = λ cid bytes v e.
            let (x, decodes, pulled) = h.at_record cid bytes v e in
            (x, decodes, laws.push_keeps r x cid s pulled);
        at_meta = λ cid bytes v e.
            let (m, decodes, found) = h.at_meta cid bytes v e in
            (m, decodes, laws.push_keeps_meta r m cid s found);
      } in
      filling-IsServed (λ _. cache_record content source cache r) (source.push r s) c
        (λ ref pushed.
          cache_record-IsCoherent content source cache honest laws rt rt_meta r (source.push r s).1
            c valid (laws.push_pull r s ref pushed) after)
        after

  removed :
      (cid : GoString) (c : cache.State)
      → IsCid cid
      → remove_from_cache content source cache cid c
        ≡ (cache.delete (meta_prefix ++ cid) (cache.delete (record_prefix ++ cid) c).1).1
  unfolding remove_from_cache
  removed cid c valid =
      let clean = honest.new_key_lem (record_prefix ++ cid) (record_key-IsClean cid valid) in
      let clean' = honest.new_key_lem (meta_prefix ++ cid) (meta_key-IsClean cid valid) in
      ap₂ (λ a b. (cache.delete a (cache.delete b c).1).1) clean' clean

  pub delete-IsServed :
      (cid : GoString) (s : source.State) (c : cache.State)
      → IsCid cid
      → Agrees s c
      → IsServed (source.delete cid s) (delete content source cache cid (s, c))
  unfolding delete
  delete-IsServed cid s c valid h =
      let c₁ = (cache.delete (record_prefix ++ cid) c).1 in
      (
        refl,
        refl,
        subst (Agrees (source.delete cid s).1) (sym (removed cid c valid)) (record {
          at_record = λ other bytes v e.
              let (_, e₁) =
                honest.delete_lem (meta_prefix ++ cid) (record_prefix ++ other) bytes c₁ e in
              let (apart, e₂) =
                honest.delete_lem (record_prefix ++ cid) (record_prefix ++ other) bytes c e₁ in
              let (x, decodes, pulled) = h.at_record other bytes v e₂ in
              (
                x,
                decodes,
                laws.delete_keeps cid other x s (λ same. apart (ap (λ t. record_prefix ++ t) same))
                    pulled,
              );
          at_meta = λ other bytes v e.
              let (apart, e₁) =
                honest.delete_lem (meta_prefix ++ cid) (meta_prefix ++ other) bytes c₁ e in
              let (_, e₂) =
                honest.delete_lem (record_prefix ++ cid) (meta_prefix ++ other) bytes c e₁ in
              let (m, decodes, found) = h.at_meta other bytes v e₂ in
              (
                m,
                decodes,
                laws.delete_keeps_meta cid other m s
                    (λ same. apart (ap (λ t. meta_prefix ++ t) same)) found,
              );
        }),
      )
