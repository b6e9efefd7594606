-- ===== src/Sync/Monitor/Contexts.antt =====
-- Lists of goroutines with their contexts: cancelling and removing them.
use agntcy_dir.Base.{
  ℕ, suc, ◌≤◌, ◌≡◌, ◌≢◌, ◌⊎◌, refl, Bool, true, false, Bool-cases, inl, inr, Option, none, some,
  List, [], ◌∷◌, arith, eqb, All, All-imp, if◌then◌else◌,
}
use agntcy_dir.Sync.Monitor.{
  Monitoring, RegistrySnapshot, starting, looping, at_context, without_context, cancel,
}

-- How many goroutines of runRegistryMonitoring are not cancelled.
unfoldable pub live : List Monitoring → ℕ
live [] = 0
live (g ∷ gs) = let rest = live gs in if g.cancelled then rest else suc rest

-- A goroutine that is cancelled, or that the next stop cancels.
abbrev pub IsHeld : Bool → Option ℕ → Monitoring → Type 0
IsHeld running handle g = (g.cancelled ≡ true) ⊎ ((running ≡ true) × (handle ≡ some g.context))

-- A goroutine in its loop has a last snapshot to compare with.
abbrev pub HasSnapshot : Option RegistrySnapshot → Monitoring → Type 0
HasSnapshot last g = (g.phase ≡ starting) ⊎ (last ≢ none)

abbrev pub IsCancelled : Monitoring → Type 0
IsCancelled g = g.cancelled ≡ true

pub at_context-All :
    (P Q : Monitoring → Type 0) (c : ℕ) (change : Monitoring → Monitoring)
    → ((g : Monitoring) → eqb g.context c ≡ true → P g → Q (change g))
    → ((g : Monitoring) → eqb g.context c ≡ false → P g → Q g)
    → (gs : List Monitoring) → All P gs
    → All Q (at_context c change gs)
unfolding at_context
at_context-All P Q c change hit miss [] h = tt
at_context-All P Q c change hit miss (g ∷ gs) (p, h) =
    let rest = at_context-All P Q c change hit miss gs h in
    elim (Bool-cases (eqb g.context c)) [
      | inl here ↦ rw here (hit g here p, rest)
      | inr there ↦ rw there (miss g there p, rest)
    ]

pub without_context-All :
    (P : Monitoring → Type 0) (c : ℕ) (gs : List Monitoring)
    → All P gs
    → All P (without_context c gs)
unfolding without_context
without_context-All P c [] h = tt
without_context-All P c (g ∷ gs) (p, h) =
    let rest = without_context-All P c gs h in
    elim (Bool-cases (eqb g.context c)) [ inl here ↦ rw here rest | inr there ↦ rw there (p, rest) ]

pub live-cancelled : (gs : List Monitoring) → All IsCancelled gs → live gs ≡ 0
unfolding live
live-cancelled [] h = refl
live-cancelled (g ∷ gs) (dead, h) = rw dead (live-cancelled gs h)

pub live-looping :
    (c : ℕ) (gs : List Monitoring)
    → live (at_context c (λ g. record g { phase = looping }) gs) ≡ live gs
unfolding live at_context
live-looping c [] = refl
live-looping c (g ∷ gs) = elim (Bool-cases (eqb g.context c)) [
  | inl here ↦ rw (here, live-looping c gs) refl
  | inr there ↦ rw (there, live-looping c gs) refl
]

pub live-without : (c : ℕ) (gs : List Monitoring) → live (without_context c gs) ≤ live gs
unfolding live without_context
live-without c [] = omega arith
live-without c (g ∷ gs) = ground (arith, live-without c gs)

-- Stopping cancels every goroutine.
pub cancel-IsCancelled :
    (running : Bool) (handle : Option ℕ) (gs : List Monitoring)
    → All (IsHeld running handle) gs
    → All IsCancelled (cancel handle gs)
unfolding cancel
cancel-IsCancelled running none gs h =
    All-imp (λ g held. elim held [ inl dead ↦ dead | inr (_, clash) ↦ absurd (cc) ]) gs h
cancel-IsCancelled running (some c) gs h =
    at_context-All (IsHeld running (some c)) IsCancelled c (λ g. record g { cancelled = true })
      (λ g here held. refl)
      (λ g there held. elim held [
        | inl dead ↦ dead
        | inr (_, same) ↦ let own : c ≡ g.context = cc in absurd (ground (arith, own, there))
      ])
      gs h

pub cancel-HasSnapshot :
    (last : Option RegistrySnapshot) (handle : Option ℕ) (gs : List Monitoring)
    → All (HasSnapshot last) gs
    → All (HasSnapshot last) (cancel handle gs)
unfolding cancel
cancel-HasSnapshot last none gs h = h
cancel-HasSnapshot last (some c) gs h =
    at_context-All (HasSnapshot last) (HasSnapshot last) c (λ g. record g { cancelled = true })
      (λ g here p. p) (λ g there p. p) gs h
