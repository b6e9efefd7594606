-- ===== src/Examples/Remote.antt =====
-- Remote labels on the association list, a DHT that remembers, and an object store of nothing.
use agntcy_dir.Base.{
  Bool, Option, ℕ, ◌≡◌, ◌≢◌, ◌⊎◌, refl, none, some, true, get_or, ap, subst, List, [], ◌∷◌, ◌++◌,
  ltb, arith, if◌then◌else◌, inl, ◌-◌,
}
use agntcy_dir.Base.Text.{GoString, lit, ◌==◌, has_prefix}
use agntcy_dir.Base.Text.Split.{split, join}
use agntcy_dir.Routing.Local.Undo.{IsRoundTrip}
use agntcy_dir.Base.Dict.{lookup}
use agntcy_dir.Base.Result.{ok, err}
use agntcy_dir.Labels.Namespace.{slash, prefix, all_namespaces}
use agntcy_dir.Labels.Key.{parse_enhanced_label_key, label_key_fields, extract_peer_id_from_key}
use agntcy_dir.Labels.Metadata.{max_label_age}
use agntcy_dir.Records.Adapter.{Record}
use agntcy_dir.Routing.Datastore.{StoreError, failure}
use agntcy_dir.Routing.Local.{record_key, records_prefix}
use agntcy_dir.Store.Cache.{StoreApi}
use agntcy_dir.Routing.Combined.{IsRecording}
use agntcy_dir.Routing.Network.{valid_put}
use agntcy_dir.Routing.Combined
use agntcy_dir.Routing.Remote.{
  Dht, cleanup_stale_remote_labels, cleanup_labels_for_cid, handle_label_notification,
}
use agntcy_dir.Routing.Remote.Republish.{IsLost, republish_local_labels, republish_effect}
use agntcy_dir.Routing.Remote.Deletion.{Swept}
use agntcy_dir.Routing.Remote.Stale.{IsRemoteLabel, IsDead, cleanup_stale_effect}
use agntcy_dir.Routing.Remote.Announced.{announced_label_lifetime}
use agntcy_dir.Routing.Remote.Orphans.{IsOrphan, cleanup_labels_effect}
use agntcy_dir.Examples.MapStore.{map_store, map_store-IsReliable, Pairs}
use agntcy_dir.Examples.Codecs.{metadata_codec, read_metadata}
use agntcy_dir.Examples.Routing.{r}

abbrev peer : GoString
peer = lit "p"

abbrev key : GoString
key = lit "/skills/a/c/q"

abbrev held : Pairs
held = (key, 7 ∷ 7 ∷ []) ∷ (lit "/records/c", []) ∷ []

q_apart : lit "q" ≢ peer
q_apart e = let apart : ◌≡◌ {A = ℕ} b'q' b'p' = ap (λ t. get_or t 0 0) e in absurd (omega arith)

metadata_codec-IsRoundTrip : IsRoundTrip metadata_codec
unfolding read_metadata
metadata_codec-IsRoundTrip = record {
  back = λ m bytes e.
      let same : m.timestamp ∷ (m.last_seen ∷ []) ≡ bytes = cc in
      subst (λ b. read_metadata b ≡ some m) same refl;
}

key_parses : parse_enhanced_label_key key ≡ ok (lit "/skills/a", lit "c", lit "q")
unfolding parse_enhanced_label_key label_key_fields has_prefix split join
key_parses = refl

key_peer : extract_peer_id_from_key key ≡ lit "q"
unfolding extract_peer_id_from_key split
key_peer = refl

key-IsRemoteLabel : IsRemoteLabel peer key
unfolding all_namespaces prefix has_prefix
key-IsRemoteLabel = record {
  ns = lit "skills";
  known = inl refl;
  starts = refl;
  elsewhere = λ e. let same : lit "q" ≡ peer = rw (← key_peer) e in q_apart same;
}

-- A later cleanup of the label that q announced at 7.
announced_label_lifetime_example :
    lookup key
      (cleanup_stale_remote_labels map_store metadata_codec peer 9
        (handle_label_notification map_store metadata_codec peer 7 key [])).1
    ≡ (if ltb max_label_age (9 - 7) then none else some (7 ∷ 7 ∷ []))
unfolding lookup
announced_label_lifetime_example =
    announced_label_lifetime map_store metadata_codec peer map_store-IsReliable 7 9 key (7 ∷ 7 ∷ [])
      (lit "/skills/a", lit "c", lit "q") []
      (handle_label_notification map_store metadata_codec peer 7 key []) (λ e. cc)
      (λ e. absurd (omega arith)) key-IsRemoteLabel key_parses refl metadata_codec-IsRoundTrip tt
      refl (λ k v h. refl) refl

cleanup_stale_effect_example :
    (s' : Pairs) × (cleanup_stale_remote_labels map_store metadata_codec peer 9 held ≡ (ok tt, s'))
    × ((j : GoString)
        → Swept
            (λ v. IsRemoteLabel peer j × IsDead metadata_codec 9 j v)
            (lookup j held)
            (lookup j s'))
cleanup_stale_effect_example =
    cleanup_stale_effect map_store metadata_codec peer map_store-IsReliable 9 held (λ e. cc)
      (λ k v h. refl)

cleanup_labels_effect_example :
    (s' : Pairs) × (cleanup_labels_for_cid map_store metadata_codec (lit "q") (lit "c") held
      ≡ (true, s'))
    × ((j : GoString)
        → Swept
            (λ v. (record_key map_store (lit "c") ≡ j) ⊎ IsOrphan (lit "c") (lit "q") j)
            (lookup j held)
            (lookup j s'))
cleanup_labels_effect_example =
    cleanup_labels_effect map_store metadata_codec (lit "q") map_store-IsReliable (lit "c") held
      (λ k v h. refl)

abbrev is_c : GoString → Bool
is_c s = s == lit "c"

abbrev second_part : List GoString → Option GoString
second_part [] = none
second_part (first ∷ []) = none
second_part (first ∷ ns ∷ rest) = some ns

abbrev namespace_at : GoString → Option GoString
namespace_at key = second_part (split slash key)

abbrev dht : Dht StoreError
dht = record {
  State = List (GoString × GoString);
  provide = λ cid n. (ok tt, n);
  put_value = λ k v n. (ok tt, if valid_put namespace_at is_c k v then n ++ ((k, v) ∷ []) else n);
}

abbrev recording : IsRecording dht namespace_at is_c
recording = record {
  values = λ n. n;
  provide_ok = λ cid n. refl;
  provide_values = λ cid n. refl;
  put_values = λ k v n. refl;
}

abbrev nothing : StoreApi Record GoString StoreError
nothing = record {
  State = Unit {0};
  push = λ r s. (err failure, s);
  pull = λ cid s. (err failure, s);
  lookup = λ cid s. (err failure, s);
  delete = λ cid s. (err failure, s);
}

republish_effect_example :
    let s' =
      (republish_local_labels map_store metadata_codec (lit "q") dht nothing (held, [], tt)).0 in
    let IsGone =
      (cid : GoString) × IsLost map_store metadata_codec
        (lit "q")
        dht
        nothing
        (map_store-IsReliable.entries records_prefix held)
        tt
        cid
      × ((record_key map_store cid ≡ key) ⊎ IsOrphan cid (lit "q") key) in
    Swept (λ v. IsGone) (lookup key held) (lookup key s')
unfolding lookup ◌==◌
republish_effect_example =
    republish_effect map_store metadata_codec (lit "q") dht nothing map_store-IsReliable held [] tt
      (λ k v h. refl) (λ cid o. refl) key
