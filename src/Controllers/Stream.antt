-- ===== src/Controllers/Stream.antt =====
-- The loop of a bidirectional stream, as every method of server/controller/store.go writes it: receive,
-- carry out, send, until the end of the stream or the first failure.
pub mod Rounds
pub mod Simulation
use agntcy_dir.Base.{
  ◌≡◌, refl, subst, Bool, true, false, Bool-cases, inl, inr, Option, none, some, List, [], ◌∷◌,
  ◌++◌, append_assoc, append-nil, ap, ◌∙◌, if◌then◌else◌,
}
use agntcy_dir.Base.Result.{Result, ok, err}
use agntcy_dir.Base.Action.{Action}

-- What the client does: its requests, how the stream ends after them (io.EOF is `ok`), and whether
-- Send succeeds for a response after those that were sent.
pub record Client (Fault A B : Type 0) : Type 0 where
  pub requests : List A
  pub ending : Result Fault (Unit {0})
  pub sends : List B → B → Result Fault (Unit {0})

abbrev pub as_status :
    {Fault Status A : Type 0} → (Fault → Status) → Result Fault A → Result Status A
as_status wrap (ok a) = ok a
as_status wrap (err e) = err (wrap e)

-- How the method returns, and the responses that it sent.
pub record Served (Status B : Type 0) : Type 0 where
  pub outcome : Result Status (Unit {0})
  pub responses : List B

-- A client that takes every response.
abbrev pub Takes : {Status B : Type 0} → (List B → B → Result Status (Unit {0})) → Type 0
Takes {Status} {B} sends = (sent : List B) (b : B) → sends sent b ≡ ok tt

module _ {S Status B : Type 0} where
  -- What follows stream.Send.
  abbrev pub after_send :
      (List B → S → Served Status B × S)
      → List B
      → B
      → S
      → Result Status (Unit {0})
      → Served Status B × S
  after_send next sent b s (ok _) = next (sent ++ (b ∷ [])) s
  after_send next sent b s (err e) = (record { outcome = err e; responses = sent }, s)

  -- What follows the work on a request; a request with no response is skipped by `continue`.
  abbrev pub respond :
      (List B → B → Result Status (Unit {0}))
      → (List B → S → Served Status B × S)
      → List B
      → Result Status (Option B) × S
      → Served Status B × S
  respond sends next sent (ok (some b), s) = after_send next sent b s (sends sent b)
  respond sends next sent (ok none, s) = next sent s
  respond sends next sent (err e, s) = (record { outcome = err e; responses = sent }, s)

module _ {S Status A B : Type 0} where
  unfoldable pub serve_from :
      (A → Action S Status (Option B))
      → (List B → B → Result Status (Unit {0}))
      → Result Status (Unit {0})
      → List A
      → List B
      → S
      → Served Status B × S
  serve_from step sends ending [] sent s = (record { outcome = ending; responses = sent }, s)
  serve_from step sends ending (a ∷ rest) sent s =
      respond sends (serve_from step sends ending rest) sent (step a s)

  -- `receive_failed` and `send_failed` make the status of a failed Recv and of a failed Send.
  unfoldable pub serve :
      {Fault : Type 0}
      → (Fault → Status)
      → (Fault → Status)
      → (A → Action S Status (Option B))
      → Client Fault A B
      → S
      → Served Status B × S
  unfolding serve_from
  serve receive_failed send_failed step client s =
      serve_from step (λ sent b. as_status send_failed (client.sends sent b))
        (as_status receive_failed client.ending) client.requests [] s
