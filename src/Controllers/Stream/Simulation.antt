-- ===== src/Controllers/Stream/Simulation.antt =====
-- Two methods that answer alike on related states serve a client alike.
use agntcy_dir.Base.{◌≡◌, refl, subst, Option, none, some, List, [], ◌∷◌, ◌++◌}
use agntcy_dir.Base.Result.{Result, ok, err}
use agntcy_dir.Base.Action.{Action}
use agntcy_dir.Controllers.Stream.{Served, after_send, respond, serve_from}

abbrev pub Alike : {S T C : Type 0} → (S → T → Type 0) → C × S → C × T → Type 0
Alike R (c, s) (c', t) = (c ≡ c') × R s t

module _ {S T Status B : Type 0} (R : S → T → Type 0)
    (sends : List B → B → Result Status (Unit {0})) where
  after_send-Alike :
      (next : List B → S → Served Status B × S) (next' : List B → T → Served Status B × T)
      (sent : List B) (b : B) (s : S) (t : T) (r : Result Status (Unit {0}))
      → ((sent : List B) (s : S) (t : T) → R s t → Alike R (next sent s) (next' sent t))
      → R s t
      → Alike R (after_send next sent b s r) (after_send next' sent b t r)
  after_send-Alike next next' sent b s t (ok _) alike h = alike (sent ++ (b ∷ [])) s t h
  after_send-Alike next next' sent b s t (err e) alike h = (refl, h)

  respond-Alike :
      (next : List B → S → Served Status B × S) (next' : List B → T → Served Status B × T)
      (sent : List B) (r : Result Status (Option B)) (s : S) (t : T)
      → ((sent : List B) (s : S) (t : T) → R s t → Alike R (next sent s) (next' sent t))
      → R s t
      → Alike R (respond sends next sent (r, s)) (respond sends next' sent (r, t))
  respond-Alike next next' sent (ok (some b)) s t alike h =
      after_send-Alike next next' sent b s t (sends sent b) alike h
  respond-Alike next next' sent (ok none) s t alike h = alike sent s t h
  respond-Alike next next' sent (err e) s t alike h = (refl, h)

module _ {S T Status A B : Type 0} (R : S → T → Type 0)
    (sends : List B → B → Result Status (Unit {0})) where
  pub serve_from-Alike :
      (step : A → Action S Status (Option B)) (step' : A → Action T Status (Option B))
      (ending : Result Status (Unit {0})) (requests : List A) (sent : List B) (s : S) (t : T)
      → ((a : A) (s : S) (t : T) → R s t → Alike R (step a s) (step' a t))
      → R s t
      → Alike R
          (serve_from step sends ending requests sent s)
          (serve_from step' sends ending requests sent t)
  unfolding serve_from
  serve_from-Alike step step' ending [] sent s t alike h = (refl, h)
  serve_from-Alike step step' ending (a ∷ rest) sent s t alike h =
      subst
        (λ r.
          Alike R (respond sends (serve_from step sends ending rest) sent (step a s))
            (respond sends (serve_from step' sends ending rest) sent (r, (step' a t).1)))
        ((alike a s t h).0)
        (respond-Alike R sends (serve_from step sends ending rest)
          (serve_from step' sends ending rest) sent (step a s).0 (step a s).1 (step' a t).1
          (λ sent' s' t' h'. serve_from-Alike step step' ending rest sent' s' t' alike h')
          (alike a s t h).1)
