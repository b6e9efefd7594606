-- ===== src/Controllers/Stream/Rounds.antt =====
-- A stream's invariant from that of a round, and a stream whose first requests go through.
use agntcy_dir.Base.{
  ℕ, ◌+◌, ◌≡◌, refl, ◌∙◌, Option, none, some, List, [], ◌∷◌, ◌++◌, All, length, length-append,
  arith,
}
use agntcy_dir.Base.Result.{Result, ok, err}
use agntcy_dir.Base.Action.{Action}
use agntcy_dir.Controllers.Stream.{Served, Takes, after_send, respond, serve_from}

module _ {S Status B : Type 0} (sends : List B → B → Result Status (Unit {0})) where
  after_send-keeps :
      (P : S → Type 0) (next : List B → S → Served Status B × S) (sent : List B) (b : B) (s : S)
      (r : Result Status (Unit {0}))
      → ((sent : List B) (s : S) → P s → P (next sent s).1)
      → P s
      → P (after_send next sent b s r).1
  after_send-keeps P next sent b s (ok _) keep h = keep (sent ++ (b ∷ [])) s h
  after_send-keeps P next sent b s (err e) keep h = h

  respond-keeps :
      (P : S → Type 0) (next : List B → S → Served Status B × S) (sent : List B)
      (r : Result Status (Option B) × S)
      → ((sent : List B) (s : S) → P s → P (next sent s).1)
      → P r.1
      → P (respond sends next sent r).1
  respond-keeps P next sent (ok (some b), s) keep h =
      after_send-keeps P next sent b s (sends sent b) keep h
  respond-keeps P next sent (ok none, s) keep h = keep sent s h
  respond-keeps P next sent (err e, s) keep h = h

  -- `next` goes through, and `last` continues it as `whole` does.
  abbrev Continues : (next whole last : List B → S → Served Status B × S) → Type 0
  Continues next whole last =
      (sent : List B) (s : S)
      → (next sent s).0.outcome ≡ ok tt
      → whole sent s ≡ last (next sent s).0.responses (next sent s).1

  after_send-Continues :
      (next whole last : List B → S → Served Status B × S) (sent : List B) (b : B) (s : S)
      (r : Result Status (Unit {0}))
      → Continues next whole last
      → (after_send next sent b s r).0.outcome ≡ ok tt
      → after_send whole sent b s r
        ≡ last (after_send next sent b s r).0.responses (after_send next sent b s r).1
  after_send-Continues next whole last sent b s (ok _) continues h =
      continues (sent ++ (b ∷ [])) s h
  after_send-Continues next whole last sent b s (err e) continues h = cc

  respond-Continues :
      (next whole last : List B → S → Served Status B × S) (sent : List B)
      (r : Result Status (Option B) × S)
      → Continues next whole last
      → (respond sends next sent r).0.outcome ≡ ok tt
      → respond sends whole sent r
        ≡ last (respond sends next sent r).0.responses (respond sends next sent r).1
  respond-Continues next whole last sent (ok (some b), s) continues h =
      after_send-Continues next whole last sent b s (sends sent b) continues h
  respond-Continues next whole last sent (ok none, s) continues h = continues sent s h
  respond-Continues next whole last sent (err e, s) continues h = cc

module _ {S Status A B : Type 0} (step : A → Action S Status (Option B))
    (sends : List B → B → Result Status (Unit {0})) where
  -- What a round keeps, the stream keeps, however it ends.
  pub serve_from-keeps :
      (P : S → Type 0) (ending : Result Status (Unit {0})) (requests : List A) (sent : List B)
      (s : S)
      → ((a : A) (s : S) → P s → P (step a s).1)
      → P s
      → P (serve_from step sends ending requests sent s).1
  unfolding serve_from
  serve_from-keeps P ending [] sent s keep h = h
  serve_from-keeps P ending (a ∷ rest) sent s keep h =
      respond-keeps sends P (serve_from step sends ending rest) sent (step a s)
        (λ sent' s' h'. serve_from-keeps P ending rest sent' s' keep h') (keep a s h)

  -- Requests that go through are carried out as if the others did not follow.
  pub serve_from-append :
      (ending : Result Status (Unit {0})) (before rest : List A) (sent : List B) (s : S)
      → (serve_from step sends (ok tt) before sent s).0.outcome ≡ ok tt
      → serve_from step sends ending (before ++ rest) sent s
        ≡ serve_from step sends ending rest
            (serve_from step sends (ok tt) before sent s).0.responses
            (serve_from step sends (ok tt) before sent s).1
  unfolding serve_from
  serve_from-append ending [] rest sent s through = refl
  serve_from-append ending (a ∷ more) rest sent s through =
      respond-Continues sends (serve_from step sends (ok tt) more)
        (serve_from step sends ending (more ++ rest)) (serve_from step sends ending rest) sent
        (step a s) (serve_from-append ending more rest) through

-- How many responses a round gives.
abbrev pub tally : {Status B : Type 0} → Result Status (Option B) → Result Status ℕ
tally (ok (some b)) = ok 1
tally (ok none) = ok 0
tally (err e) = err e

unfoldable pub total : {A : Type 0} → (A → ℕ) → List A → ℕ
total weight [] = 0
total weight (a ∷ rest) = weight a + total weight rest

module _ {S Status A B : Type 0} (step : A → Action S Status (Option B))
    (sends : List B → B → Result Status (Unit {0})) (weight : A → ℕ) where
  -- Where no round fails, the stream ends as its client ends it, with every response sent.
  pub serve_from-total :
      (Fits : A → Type 0) (ending : Result Status (Unit {0})) (requests : List A) (sent : List B)
      (s : S)
      → Takes sends
      → ((a : A) (s : S) → Fits a → tally (step a s).0 ≡ ok (weight a))
      → All Fits requests
      → ((serve_from step sends ending requests sent s).0.outcome ≡ ending)
        × (length (serve_from step sends ending requests sent s).0.responses
            ≡ length sent + total weight requests)
  unfolding serve_from total
  serve_from-total Fits ending [] sent s takes works fits = (refl, omega arith)
  serve_from-total Fits ending (a ∷ rest) sent s takes works (fit, fits) =
      after (step a s) (works a s fit)
        (λ sent' s'. serve_from-total Fits ending rest sent' s' takes works fits)
    where
      after :
          (r : Result Status (Option B) × S)
          → tally r.0 ≡ ok (weight a)
          → ((sent' : List B) (s' : S)
              → ((serve_from step sends ending rest sent' s').0.outcome ≡ ending)
                × (length (serve_from step sends ending rest sent' s').0.responses
                    ≡ length sent' + total weight rest))
          → ((respond sends (serve_from step sends ending rest) sent r).0.outcome ≡ ending)
            × (length (respond sends (serve_from step sends ending rest) sent r).0.responses
                ≡ length sent + (weight a + total weight rest))
      after (ok (some b), s') one next =
          rw (takes sent b, after_send)
            (
              (next (sent ++ (b ∷ [])) s').0,
              let counted : 1 ≡ weight a = ground arith in
                  (next (sent ++ (b ∷ [])) s').1
                  ∙ omega (arith, length-append sent (b ∷ []), counted),
            )
      after (ok none, s') nothing next =
          let counted : 0 ≡ weight a = ground arith in
          ((next sent s').0, (next sent s').1 ∙ omega (arith, counted))
      after (err e, s') failed next = cc
