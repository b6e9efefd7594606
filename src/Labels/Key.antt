-- ===== src/Labels/Key.antt =====
-- Enhanced label keys /<namespace>/<path>/<cid>/<peer> (server/routing/label_metadata.go).
pub mod RoundTrip
use agntcy_dir.Base.{
  ℕ, ◌-◌, Bool, not, List, [], ◌∷◌, ◌++◌, ltb, length, get_or, slice, if◌then◌else◌,
}
use agntcy_dir.Base.Text.{GoString, ◌==◌, has_prefix}
use agntcy_dir.Base.Text.Split.{split, join}
use agntcy_dir.Base.Result.{Result, ok, err}
use agntcy_dir.Labels.Namespace.{slash, min_label_key_parts}

pub data KeyError : Type 0 where
  no_leading_slash too_few_parts : KeyError

-- BuildEnhancedLabelKey: the format "%s/%s/%s".
unfoldable pub build_enhanced_label_key : GoString → GoString → GoString → GoString
build_enhanced_label_key label cid peer_id = label ++ (slash ∷ (cid ++ (slash ∷ peer_id)))

-- parts[len(parts)-1] and parts[len(parts)-2]; the callers have checked the number of parts.
abbrev pub last_part : List GoString → GoString
last_part parts = get_or parts (length parts - 1) []

abbrev pub second_last_part : List GoString → GoString
second_last_part parts = get_or parts (length parts - 2) []

-- The label (parts[1:len(parts)-2], joined), the CID and the peer ID of a split key.
unfoldable pub label_key_fields : List GoString → GoString × GoString × GoString
label_key_fields parts = (
  slash ∷ join (slash ∷ []) (slice parts 1 (length parts - 2)),
  second_last_part parts,
  last_part parts,
)

-- ParseEnhancedLabelKey: the label, the CID and the peer ID.
unfoldable pub parse_enhanced_label_key :
    GoString → Result KeyError (GoString × GoString × GoString)
parse_enhanced_label_key key =
    let parts = split slash key in
    if not (has_prefix key (slash ∷ []))
    then err no_leading_slash
    else if ltb (length parts) min_label_key_parts
    then err too_few_parts
    else ok (label_key_fields parts)

-- ExtractPeerIDFromKey
unfoldable pub extract_peer_id_from_key : GoString → GoString
extract_peer_id_from_key key =
    let parts = split slash key in
    if ltb (length parts) min_label_key_parts then [] else last_part parts

-- ExtractCIDFromKey
unfoldable pub extract_cid_from_key : GoString → GoString
extract_cid_from_key key =
    let parts = split slash key in
    if ltb (length parts) min_label_key_parts then [] else second_last_part parts

-- IsLocalKey
unfoldable pub is_local_key : GoString → GoString → Bool
unfolding extract_peer_id_from_key
is_local_key key local_peer_id = extract_peer_id_from_key key == local_peer_id
