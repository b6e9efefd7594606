-- ===== src/Base/Text/Split.antt =====
-- strings.Split by one byte, and strings.Join.
use agntcy_dir.Base.{
  ℕ, ◌≡◌, refl, sym, ap, ap₂, ◌∙◌, ◌≢◌, List, [], ◌∷◌, ◌++◌, arith, eqb, eqb_iff, if◌then◌else◌,
  All, append_assoc, Bool-cases, inl, inr,
}
use agntcy_dir.Base.Text.{GoString}

abbrev pub extend_first : ℕ → List GoString → List GoString
extend_first c [] = (c ∷ []) ∷ []
extend_first c (w ∷ ws) = (c ∷ w) ∷ ws

-- strings.Split(s, sep) for a separator of one byte.
unfoldable pub split : ℕ → GoString → List GoString
split sep [] = [] ∷ []
split sep (c ∷ s) = let rest = split sep s in if eqb c sep then [] ∷ rest else extend_first c rest

-- strings.Join(words, sep)
unfoldable pub join : GoString → List GoString → GoString
join sep [] = []
join sep (w ∷ []) = w
join sep (w ∷ v ∷ ws) = w ++ (sep ++ join sep (v ∷ ws))

-- No byte of the string is the separator.
abbrev pub Lacks : ℕ → GoString → Type 0
Lacks sep s = All (λ c. c ≢ sep) s

extend_first-append :
    (c : ℕ) (w : GoString) (ws vs : List GoString)
    → extend_first c ((w ∷ ws) ++ vs) ≡ extend_first c (w ∷ ws) ++ vs
extend_first-append c w ws vs = refl

module _ (sep : ℕ) where
  -- A split has at least one part.
  pub split_cons : (s : GoString) → (w : GoString) × (ws : List GoString) × (split sep s ≡ w ∷ ws)
  unfolding split
  split_cons [] = ([], [], refl)
  split_cons (c ∷ s) =
      let (w, ws, e) = split_cons s in
      elim (Bool-cases (eqb c sep)) [
        | inl same ↦ ([], split sep s, rw same)
        | inr other ↦ (c ∷ w, ws, rw (other, e))
      ]

  pub join-cons :
      (v w : GoString) (ws : List GoString)
      → join (sep ∷ []) (v ∷ w ∷ ws) ≡ v ++ sep ∷ join (sep ∷ []) (w ∷ ws)
  unfolding join
  join-cons v w ws = refl

  join-extend_first :
      (c : ℕ) (ws : List GoString) → join (sep ∷ []) (extend_first c ws) ≡ c ∷ join (sep ∷ []) ws
  unfolding join
  join-extend_first c [] = refl
  join-extend_first c (w ∷ []) = refl
  join-extend_first c (w ∷ v ∷ ws) = refl

  join-nil_split :
      (s : GoString) → join (sep ∷ []) ([] ∷ split sep s) ≡ sep ∷ join (sep ∷ []) (split sep s)
  join-nil_split s = let (w, ws, e) = split_cons s in rw e (join-cons [] w ws)

  -- Joining the parts of a split gives the string back.
  pub join-split : (s : GoString) → join (sep ∷ []) (split sep s) ≡ s
  unfolding split
  join-split [] = unfold join in refl
  join-split (c ∷ s) = elim (Bool-cases (eqb c sep)) [
    | inl same ↦ rw same (join-nil_split s ∙ ap₂ ◌∷◌ (sym ((eqb_iff c sep).0 same)) (join-split s))
    | inr other ↦ rw other (join-extend_first c (split sep s) ∙ ap (λ t. c ∷ t) (join-split s))
  ]

  -- A split at a separator in the middle.
  pub split-append : (s t : GoString) → split sep (s ++ sep ∷ t) ≡ split sep s ++ split sep t
  unfolding split
  split-append [] t = rw ((eqb_iff sep sep).1 refl)
  split-append (c ∷ s) t =
      let (w, ws, e) = split_cons s in
      elim (Bool-cases (eqb c sep)) [
        | inl same ↦ rw (same, split-append s t)
        | inr other ↦ rw (other, split-append s t, e)
      ]

  -- A string with no separator is its own split.
  pub split_of_Lacks : (s : GoString) → Lacks sep s → split sep s ≡ s ∷ []
  unfolding split
  split_of_Lacks [] h = refl
  split_of_Lacks (c ∷ s) (p, h) = ground (arith, split_of_Lacks s h, eqb_iff c sep)

  -- No part of a split holds the separator.
  pub Lacks-split : (s : GoString) → All (Lacks sep) (split sep s)
  unfolding split
  Lacks-split [] = (tt, tt)
  Lacks-split (c ∷ s) =
      let (w, ws, e) = split_cons s in
      let ih : All (Lacks sep) (w ∷ ws) = rw e at (Lacks-split s) in
      elim (Bool-cases (eqb c sep)) [
        | inl same ↦ rw same (tt, Lacks-split s)
        | inr other ↦ rw (other, e) ((ground (arith, eqb_iff c sep), ih.0), ih.1)
      ]

  -- Joining two lists of parts, neither empty.
  pub join-append :
      (ws : List GoString) (w v : GoString) (vs : List GoString)
      → join (sep ∷ []) (w ∷ (ws ++ v ∷ vs))
        ≡ join (sep ∷ []) (w ∷ ws) ++ sep ∷ join (sep ∷ []) (v ∷ vs)
  join-append [] w v vs = unfold join in refl
  join-append (u ∷ ws) w v vs =
      join-cons w u (ws ++ v ∷ vs)
      ∙ rw (join-append ws u v vs, join-cons w u ws) (sym (append_assoc w _ _))

  -- Splitting a join gives the parts back, where none holds the separator.
  pub split-join :
      (ws : List GoString) (w : GoString)
      → All (Lacks sep) (w ∷ ws)
      → split sep (join (sep ∷ []) (w ∷ ws)) ≡ w ∷ ws
  split-join [] w (h, _) = unfold join in split_of_Lacks w h
  split-join (v ∷ ws) w (h, hs) =
      rw (join-cons w v ws, split-append w (join (sep ∷ []) (v ∷ ws)))
        (rw (split_of_Lacks w h, split-join ws v hs))
