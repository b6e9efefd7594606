-- ===== src/Base/Action.antt =====
-- Methods that may fail and that change an object: the state comes back beside the error too, since
-- what was written before an error stays written.
use agntcy_dir.Base.Result.{Result, ok, err}

abbrev pub Action {ℓ} : Type ℓ → Type ℓ → Type ℓ → Type ℓ
Action S E A = S → Result E A × S

abbrev pub proceed {ℓ} : {S E A B : Type ℓ} → Result E A × S → (A → Action S E B) → Result E B × S
proceed (ok a, s) f = f a s
proceed (err e, s) f = (err e, s)

infixl 5 ◌>>=◌ ◌>>◌
abbrev pub ◌>>=◌ {ℓ} : {S E A B : Type ℓ} → Action S E A → (A → Action S E B) → Action S E B
◌>>=◌ m f s = proceed (m s) f

abbrev pub ◌>>◌ {ℓ} : {S E A B : Type ℓ} → Action S E A → Action S E B → Action S E B
m >> k = m >>= λ _. k

abbrev pub pure {ℓ} : {S E A : Type ℓ} → A → Action S E A
pure a s = (ok a, s)

abbrev pub raise {ℓ} : {S E A : Type ℓ} → E → Action S E A
raise e s = (err e, s)

-- An operation that reads the state and may fail.
abbrev pub reads {ℓ} : {S E A : Type ℓ} → (S → Result E A) → Action S E A
reads f s = (f s, s)
