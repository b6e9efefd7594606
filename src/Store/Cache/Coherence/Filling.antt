-- ===== src/Store/Cache/Coherence/Filling.antt =====
-- Filling the cache and reading from it.
use agntcy_dir.Base.{◌≡◌, inl, inr, refl, sym, ap, ◌∙◌, Bool-cases, some, Option-cases, [], ◌++◌}
use agntcy_dir.Base.Text.{GoString, ◌==◌}
use agntcy_dir.Base.Result.{Result, ok, err}
use agntcy_dir.Routing.Datastore.{Bytes}
use agntcy_dir.Routing.Local.{Codec}
use agntcy_dir.Routing.Local.Undo.{IsRoundTrip}
use agntcy_dir.Store.Cache.{
  StoreApi, CacheStore, Content, record_prefix, meta_prefix, cache_record, cache_meta,
  get_record_from_cache, get_meta_from_cache, decoded,
}
use agntcy_dir.Store.Cache.Coherence.{
  IsCid, IsContentStore, IsHonest, IsCoherent, record_key-IsClean, meta_key-IsClean,
  same_record_key, same_meta_key, other_key,
}

some-injective : {A : Type 0} {x y : A} → some x ≡ some y → x ≡ y
some-injective h = cc

module _ {Rec Meta Fault : Type 0} (content : Content Rec Meta) (source : StoreApi Rec Meta Fault)
    (cache : CacheStore Fault) where
  decoded-some :
      {A : Type 0} (codec : Codec A) (got : Result Fault Bytes) (a : A)
      → decoded content source cache codec got ≡ some a
      → (bytes : Bytes) × (got ≡ ok bytes) × (codec.decode bytes ≡ some a)
  decoded-some codec (ok bytes) a h = (bytes, refl, h)
  decoded-some codec (err e) a h = cc

module _ {Rec Meta Fault : Type 0} (content : Content Rec Meta) (source : StoreApi Rec Meta Fault)
    (cache : CacheStore Fault) (honest : IsHonest cache) (laws : IsContentStore content source)
    (rt : IsRoundTrip content.record_codec) (rt_meta : IsRoundTrip content.meta_codec) where
  abbrev Agrees : source.State → cache.State → Type 0
  Agrees = IsCoherent content source cache honest

  pub cache_record-IsCoherent :
      (r : Rec) (s : source.State) (c : cache.State)
      → IsCid (content.cid_of r)
      → (source.pull (content.cid_of r) s).0 ≡ ok r
      → Agrees s c
      → Agrees s (cache_record content source cache r c)
  unfolding cache_record
  cache_record-IsCoherent r s c valid stored h = elim (Bool-cases (content.cid_of r == [])) [
    | inl empty ↦ rw empty h
    | inr named ↦ elim (Option-cases (content.record_codec.encode r)) [
      | inl failed ↦ rw named (rw failed h)
      | inr (bytes, encoded) ↦
          let clean =
            honest.new_key_lem (record_prefix ++ content.cid_of r)
              (record_key-IsClean (content.cid_of r) valid) in
          rw named (
            rw encoded (
              rw clean (record {
                at_record = λ cid w v e.
                    elim (honest.put_lem (record_prefix ++ content.cid_of r) (record_prefix ++ cid)
                      bytes w c e) [
                        | inl old ↦ h.at_record cid w v old
                        | inr (same, new) ↦ (
                          r,
                          ap content.record_codec.decode (sym new) ∙ rt.back r bytes encoded,
                          ap (λ x. (source.pull x s).0)
                                (sym (same_record_key (content.cid_of r) cid same))
                              ∙ stored,
                        )
                      ];
                at_meta = λ cid w v e.
                    elim (honest.put_lem (record_prefix ++ content.cid_of r) (meta_prefix ++ cid)
                      bytes w c e) [
                        | inl old ↦ h.at_meta cid w v old
                        | inr (same, new) ↦ absurd (other_key (content.cid_of r) cid same)
                      ];
              })))
    ]
  ]

  pub cache_meta-IsCoherent :
      (m : Meta) (s : source.State) (c : cache.State)
      → IsCid (content.cid_of_meta m)
      → (source.lookup (content.cid_of_meta m) s).0 ≡ ok m
      → Agrees s c
      → Agrees s (cache_meta content source cache m c)
  unfolding cache_meta
  cache_meta-IsCoherent m s c valid stored h = elim (Bool-cases (content.cid_of_meta m == [])) [
    | inl empty ↦ rw empty h
    | inr named ↦ elim (Option-cases (content.meta_codec.encode m)) [
      | inl failed ↦ rw named (rw failed h)
      | inr (bytes, encoded) ↦
          let clean =
            honest.new_key_lem (meta_prefix ++ content.cid_of_meta m)
              (meta_key-IsClean (content.cid_of_meta m) valid) in
          rw named (
            rw encoded (
              rw clean (record {
                at_record = λ cid w v e.
                    elim (honest.put_lem (meta_prefix ++ content.cid_of_meta m)
                      (record_prefix ++ cid) bytes w c e) [
                        | inl old ↦ h.at_record cid w v old
                        | inr (same, new) ↦
                            absurd (other_key cid (content.cid_of_meta m) (sym same))
                      ];
                at_meta = λ cid w v e.
                    elim (honest.put_lem (meta_prefix ++ content.cid_of_meta m) (meta_prefix ++ cid)
                      bytes w c e) [
                        | inl old ↦ h.at_meta cid w v old
                        | inr (same, new) ↦ (
                          m,
                          ap content.meta_codec.decode (sym new) ∙ rt_meta.back m bytes encoded,
                          ap (λ x. (source.lookup x s).0)
                                (sym (same_meta_key (content.cid_of_meta m) cid same))
                              ∙ stored,
                        )
                      ];
              })))
    ]
  ]

  -- What is read from the cache is the source's.
  pub cached_record :
      (cid : GoString) (s : source.State) (c : cache.State) (r : Rec)
      → IsCid cid
      → Agrees s c
      → get_record_from_cache content source cache cid c ≡ some r
      → (source.pull cid s).0 ≡ ok r
  unfolding get_record_from_cache
  cached_record cid s c r valid h e =
      let key = honest.new_key_lem (record_prefix ++ cid) (record_key-IsClean cid valid) in
      let (bytes, got, decodes) = decoded-some content source cache content.record_codec _ r e in
      let held = honest.get_lem (cache.new_key (record_prefix ++ cid)) c bytes got in
      let (x, decodes', pulled) =
        h.at_record cid bytes valid (ap (honest.contents c) (sym key) ∙ held) in
      pulled ∙ ap ok (some-injective (sym decodes' ∙ decodes))

  pub cached_meta :
      (cid : GoString) (s : source.State) (c : cache.State) (m : Meta)
      → IsCid cid
      → Agrees s c
      → get_meta_from_cache content source cache cid c ≡ some m
      → (source.lookup cid s).0 ≡ ok m
  unfolding get_meta_from_cache
  cached_meta cid s c m valid h e =
      let key = honest.new_key_lem (meta_prefix ++ cid) (meta_key-IsClean cid valid) in
      let (bytes, got, decodes) = decoded-some content source cache content.meta_codec _ m e in
      let held = honest.get_lem (cache.new_key (meta_prefix ++ cid)) c bytes got in
      let (x, decodes', found) =
        h.at_meta cid bytes valid (ap (honest.contents c) (sym key) ∙ held) in
      found ∙ ap ok (some-injective (sym decodes' ∙ decodes))
