-- ===== src/Routing/Handler.antt =====
-- The provider store of the DHT (server/routing/handler.go): an announcement becomes a notification for
-- the remote routing. The CID decoder, and the CID of a multihash, are parameters.
use agntcy_dir.Base.{
  ℕ, ◌≡◌, ◌≢◌, refl, sym, ◌∙◌, ap, append_assoc, Bool, Bool-cases, true, false, Option, none, some,
  List, [], ◌∷◌, ◌++◌, arith, ltb, length, any-In, if◌then◌else◌, inl, inr,
}
use agntcy_dir.Base.Text.{GoString, ◌==◌, eq_iff, has_prefix, has_prefix-append}
use agntcy_dir.Base.Text.Split.{split}
use agntcy_dir.Base.Result.{Result, ok, err}
use agntcy_dir.Labels.Namespace.{
  slash, prefix, all_namespaces, is_valid_namespace_key, min_label_key_parts,
}
use agntcy_dir.Labels.Key.{
  build_enhanced_label_key, second_last_part, extract_cid_from_key, parse_enhanced_label_key,
}
use agntcy_dir.Labels.Key.RoundTrip.{extract-parse}
use agntcy_dir.Labels.Validator.{ValidationError, extract_cid_from_label_key}
use agntcy_dir.Routing.Local.RecordLabels.{HasNamespace}

pub data AnnouncementType : Type 0 where
  label_announcement cid_announcement : AnnouncementType

-- handlerSync, with the CID of its reference and the ID of its peer.
pub record HandlerSync : Type 0 where
  pub ref : GoString
  pub peer : GoString
  pub announcement_type : AnnouncementType
  pub label_key : GoString

module _ (host_id : GoString) (cid_decodes : GoString → Bool)
    (cid_of_multihash : GoString → Option GoString) where
  -- handleLabelAnnouncement: what is sent on the channel.
  abbrev pub notify_label :
      GoString → GoString → Result ValidationError GoString → Option HandlerSync
  notify_label label_key peer (ok ref) = some (record {
    ref = ref;
    peer = peer;
    announcement_type = label_announcement;
    label_key = label_key;
  })
  notify_label label_key peer (err e) = none

  unfoldable pub handle_label_announcement : GoString → GoString → Option HandlerSync
  handle_label_announcement label_key peer =
      notify_label label_key peer (extract_cid_from_label_key cid_decodes label_key)

  -- handleCIDProviderAnnouncement
  abbrev pub notify_cid : GoString → Option GoString → Option HandlerSync
  notify_cid peer none = none
  notify_cid peer (some ref) =
      if ref == []
      then none
      else some
          (record { ref = ref; peer = peer; announcement_type = cid_announcement; label_key = [] })

  unfoldable pub handle_cid_provider_announcement : GoString → GoString → Option HandlerSync
  handle_cid_provider_announcement key peer = notify_cid peer (cid_of_multihash key)

  unfoldable pub handle_announce : GoString → GoString → Option HandlerSync
  handle_announce key peer =
      if host_id == peer
      then none
      else if is_valid_namespace_key key
      then handle_label_announcement key peer
      else handle_cid_provider_announcement key peer

  namespaced :
      (label cid peer : GoString)
      → HasNamespace label
      → is_valid_namespace_key (build_enhanced_label_key label cid peer) ≡ true
  unfolding is_valid_namespace_key build_enhanced_label_key
  namespaced label cid peer h =
      let tail : List ℕ = slash ∷ (cid ++ (slash ∷ peer)) in
      any-In (λ ns. has_prefix (label ++ tail) (prefix ns)) all_namespaces h.ns h.known
        (ap (λ l. has_prefix (l ++ tail) (prefix h.ns)) h.form
          ∙ (ap (λ l. has_prefix l (prefix h.ns)) (append_assoc (prefix h.ns) h.rest tail)
              ∙ has_prefix-append (prefix h.ns) (h.rest ++ tail)))

  extracted :
      (key cid : GoString)
      → cid ≢ []
      → cid_decodes cid ≡ true
      → is_valid_namespace_key key ≡ true
      → extract_cid_from_key key ≡ cid
      → extract_cid_from_label_key cid_decodes key ≡ ok cid
  unfolding extract_cid_from_label_key extract_cid_from_key
  extracted key cid named decodes valid same =
      elim (Bool-cases (ltb (length (split slash key)) min_label_key_parts)) [
        | inl few ↦ absurd (named (sym same ∙ rw few refl))
        | inr many ↦
            let here : second_last_part (split slash key) ≡ cid = sym (rw many refl) ∙ same in
            rw (many, valid, here) (ground (arith, eq_iff cid []))
      ]

  -- A label key that another peer builds, as the key of an announcement, becomes a label notification with
  -- that key, the CID of the record and the peer, for a label in a namespace, a CID that decodes, and
  -- a key that parses to them.
  pub handle_announce-build :
      (label cid peer : GoString)
      → HasNamespace label
      → host_id ≢ peer
      → cid ≢ []
      → cid_decodes cid ≡ true
      → parse_enhanced_label_key (build_enhanced_label_key label cid peer) ≡ ok (label, cid, peer)
      → handle_announce (build_enhanced_label_key label cid peer) peer
        ≡ some (record {
          ref = cid;
          peer = peer;
          announcement_type = label_announcement;
          label_key = build_enhanced_label_key label cid peer;
        })
  unfolding handle_announce handle_label_announcement
  handle_announce-build label cid peer spaced apart named decodes parses =
      let key = build_enhanced_label_key label cid peer in
      let foreign : (host_id == peer) ≡ false = ground (arith, eq_iff host_id peer, apart) in
      let valid : is_valid_namespace_key key ≡ true = namespaced label cid peer spaced in
      let found : extract_cid_from_label_key cid_decodes key ≡ ok cid =
        extracted key cid named decodes valid (extract-parse key label cid peer parses).0 in
      rw (foreign, handle_announce, valid, handle_label_announcement, found) refl
