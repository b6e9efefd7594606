-- ===== src/Labels/Key/RoundTrip.antt =====
-- Building and parsing enhanced label keys are inverse to one another.
use agntcy_dir.Base.{
  suc, ◌↔◌, ◌≤◌, ◌≡◌, refl, sym, ap, ap₂, List, [], ◌∷◌, ◌++◌, arith, length, ltb, true, false, ◌∙◌,
  get_or-last, get_or-second_last, slice_middle, length-append, split_last_two, All-append_right,
  All-append_left, All,
}
use agntcy_dir.Base.Text.{GoString, eq_iff, has_prefix, has_prefix_split}
use agntcy_dir.Base.Text.Split.{
  split, join, Lacks, split-append, split_of_Lacks, join-split, join-cons, join-append, split-join,
  Lacks-split,
}
use agntcy_dir.Base.Result.{ok}
use agntcy_dir.Labels.Namespace.{slash, min_label_key_parts}
use agntcy_dir.Labels.Key.{
  label_key_fields, build_enhanced_label_key, parse_enhanced_label_key, extract_peer_id_from_key,
  extract_cid_from_key, is_local_key,
}

-- The parts of a built key.
pub split-build :
    (label cid peer_id : GoString)
    → Lacks slash cid
    → Lacks slash peer_id
    → split slash (build_enhanced_label_key label cid peer_id)
      ≡ split slash label ++ cid ∷ peer_id ∷ []
unfolding build_enhanced_label_key
split-build label cid peer_id hc hp = rw (
  split-append slash label _,
  split-append slash cid peer_id,
  split_of_Lacks slash cid hc,
  split_of_Lacks slash peer_id hp,
)

pub split-slash : (s : GoString) → split slash (slash ∷ s) ≡ [] ∷ split slash s
unfolding split
split-slash s = refl

label_key_fields_lem :
    (mid : List GoString) (cid peer_id : GoString)
    → label_key_fields ([] ∷ (mid ++ cid ∷ peer_id ∷ []))
      ≡ (slash ∷ join (slash ∷ []) mid, cid, peer_id)
unfolding label_key_fields
label_key_fields_lem mid cid peer_id = rw (
  slice_middle [] mid cid peer_id,
  get_or-second_last ([] ∷ mid) cid peer_id [],
  get_or-last ([] ∷ mid) cid peer_id [],
)

long_enough :
    (mid : List GoString) (cid peer_id : GoString)
    → 2 ≤ length mid
    → ltb (length ([] ∷ (mid ++ cid ∷ peer_id ∷ []))) min_label_key_parts ≡ false
long_enough mid cid peer_id h = ground (arith, length-append mid (cid ∷ peer_id ∷ []))

-- What the parser returns for a key whose parts are known.
parse_of_split :
    (key : GoString) (mid : List GoString) (cid peer_id : GoString)
    → has_prefix key (slash ∷ []) ≡ true
    → split slash key ≡ [] ∷ (mid ++ cid ∷ peer_id ∷ [])
    → 2 ≤ length mid
    → parse_enhanced_label_key key ≡ ok (slash ∷ join (slash ∷ []) mid, cid, peer_id)
parse_of_split key mid cid peer_id pre e h =
    rw (← label_key_fields_lem mid cid peer_id)
      (unfold parse_enhanced_label_key in rw (pre, e) (rw (long_enough mid cid peer_id h)))

has_prefix-slash : (s : GoString) → has_prefix (slash ∷ s) (slash ∷ []) ≡ true
unfolding has_prefix
has_prefix-slash s = refl

-- A key built from a label with a namespace and a path, and a CID and a peer ID without slashes,
-- parses to them.
pub parse-build :
    (rest cid peer_id : GoString)
    → 2 ≤ length (split slash rest)
    → Lacks slash cid
    → Lacks slash peer_id
    → parse_enhanced_label_key (build_enhanced_label_key (slash ∷ rest) cid peer_id)
      ≡ ok (slash ∷ rest, cid, peer_id)
parse-build rest cid peer_id h hc hp =
    let e = split-build (slash ∷ rest) cid peer_id hc hp ∙ rw (split-slash rest) in
    parse_of_split (build_enhanced_label_key (slash ∷ rest) cid peer_id) (split slash rest) cid
      peer_id (unfold build_enhanced_label_key in has_prefix-slash _) e h
    ∙ rw (join-split slash rest)

-- The parts of a key that the parser accepts.
record Parsed (key label cid peer_id : GoString) : Type 0 where
  mid : List GoString
  parts : split slash key ≡ [] ∷ (mid ++ cid ∷ peer_id ∷ [])
  enough : 2 ≤ length mid
  labelled : label ≡ slash ∷ join (slash ∷ []) mid

accepted :
    (key label cid peer_id : GoString)
    → parse_enhanced_label_key key ≡ ok (label, cid, peer_id)
    → (has_prefix key (slash ∷ []) ≡ true)
      × (5 ≤ length (split slash key))
      × (label_key_fields (split slash key) ≡ (label, cid, peer_id))
unfolding parse_enhanced_label_key
accepted key label cid peer_id h = (ground arith, ground arith, ground arith)

Parsed-parts :
    (key label cid peer_id : GoString)
    → parse_enhanced_label_key key ≡ ok (label, cid, peer_id)
    → Parsed key label cid peer_id
Parsed-parts key label cid peer_id h =
    let (pre, long, fields) = accepted key label cid peer_id h in
    let (rest, e) = has_prefix_split key (slash ∷ []) pre in
    let e' : split slash key ≡ [] ∷ split slash rest = ap (split slash) e ∙ split-slash rest in
    let count = ap length e' in
    let (mid, c, p, e₂) = split_last_two (split slash rest) (omega arith) in
    let parts : split slash key ≡ [] ∷ (mid ++ c ∷ p ∷ []) = e' ∙ ap (λ t. [] ∷ t) e₂ in
    let count₂ = ap length e₂ in
    let same : ◌≡◌ {A = GoString × GoString × GoString} (slash ∷ join (slash ∷ []) mid, c, p)
        (label, cid, peer_id) =
      sym (label_key_fields_lem mid c p) ∙ ap label_key_fields (sym parts) ∙ fields in
    record {
      mid = mid;
      parts =
          parts ∙ ap₂ (λ t u. [] ∷ (mid ++ t ∷ u ∷ [])) (ap (λ t. t.1) same) (ap (λ t. t.2) same);
      enough = omega (arith, length-append mid (c ∷ p ∷ []));
      labelled = sym (ap (λ t. t.0) same);
    }

-- Joining the parts of a key builds it.
join-parts :
    (mid : List GoString) (cid peer_id : GoString)
    → 2 ≤ length mid
    → join (slash ∷ []) ([] ∷ (mid ++ cid ∷ peer_id ∷ []))
      ≡ build_enhanced_label_key (slash ∷ join (slash ∷ []) mid) cid peer_id
unfolding build_enhanced_label_key
join-parts [] cid peer_id h = absurd (omega arith)
join-parts (w ∷ ws) cid peer_id h =
    join-cons slash [] w (ws ++ cid ∷ peer_id ∷ [])
    ∙ ap (λ t. slash ∷ t) (join-append slash ws w cid (peer_id ∷ []) ∙ rw (join-pair cid peer_id))
  where
    join-pair : (c p : GoString) → join (slash ∷ []) (c ∷ p ∷ []) ≡ c ++ slash ∷ p
    join-pair c p = unfold join in refl

split-label :
    (mid : List GoString)
    → 2 ≤ length mid
    → All (Lacks slash) mid
    → split slash (slash ∷ join (slash ∷ []) mid) ≡ [] ∷ mid
split-label [] h a = absurd (omega arith)
split-label (w ∷ ws) h a = split-slash _ ∙ ap (λ t. [] ∷ t) (split-join slash ws w a)

-- A key that parses is the key built from what the parser returns: a label with a namespace and a
-- path, and a CID and a peer ID without a slash.
pub build-parse :
    (key label cid peer_id : GoString)
    → parse_enhanced_label_key key ≡ ok (label, cid, peer_id)
    → (build_enhanced_label_key label cid peer_id ≡ key)
      × Lacks slash cid
      × Lacks slash peer_id
      × (3 ≤ length (split slash label))
build-parse key label cid peer_id h =
    let q = Parsed-parts key label cid peer_id h in
    let all_lack : All (Lacks slash) ([] ∷ (q.mid ++ cid ∷ peer_id ∷ [])) =
      rw q.parts at (Lacks-split slash key) in
    let ends = All-append_right (Lacks slash) q.mid (cid ∷ peer_id ∷ []) all_lack.1 in
    let label_parts =
      split-label q.mid q.enough (All-append_left (Lacks slash) q.mid _ all_lack.1) in
    let whole : length (split slash label) ≡ suc (length q.mid) =
      ap (λ t. length (split slash t)) q.labelled ∙ ap length label_parts in
    let built =
      ap (λ t. build_enhanced_label_key t cid peer_id) q.labelled
      ∙ sym (join-parts q.mid cid peer_id q.enough)
      ∙ sym (ap (join (slash ∷ [])) q.parts)
      ∙ join-split slash key in
    let enough = q.enough in (built, ends.0, ends.1.0, omega arith)

-- The two extractors agree with the parser: on a key that parses they return its CID and peer ID.
pub extract-parse :
    (key label cid peer_id : GoString)
    → parse_enhanced_label_key key ≡ ok (label, cid, peer_id)
    → (extract_cid_from_key key ≡ cid) × (extract_peer_id_from_key key ≡ peer_id)
unfolding extract_cid_from_key extract_peer_id_from_key label_key_fields
extract-parse key label cid peer_id h =
    let (pre, long, fields) = accepted key label cid peer_id h in
    (ground (arith, ap (λ t. t.1) fields), ground (arith, ap (λ t. t.2) fields))

-- A key built from a label with a namespace and a path, and a CID and a peer ID without slashes, is
-- local to a peer exactly when it names that peer.
pub is_local_key-build :
    (rest cid peer_id local_peer_id : GoString)
    → 2 ≤ length (split slash rest)
    → Lacks slash cid
    → Lacks slash peer_id
    → (is_local_key (build_enhanced_label_key (slash ∷ rest) cid peer_id) local_peer_id ≡ true)
      ↔ (peer_id ≡ local_peer_id)
is_local_key-build rest cid peer_id local_peer_id h hc hp =
    let (_, e) = extract-parse _ _ _ _ (parse-build rest cid peer_id h hc hp) in
    unfold is_local_key in rw e (eq_iff peer_id local_peer_id)
