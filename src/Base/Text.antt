-- ===== src/Base/Text.antt =====
-- Go strings as lists of bytes, and the functions of package strings that the code calls.
pub mod Split
use Prim.Native.Char.{code}
use agntcy_dir.Base.{
  ℕ, String, ◌≡◌, refl, ◌↔◌, Bool, true, false, ◌&&◌, List, [], ◌∷◌, ◌++◌, arith, eqb, eqb_iff,
  if◌then◌else◌, leb, ◌-◌, length, take, drop,
}

abbrev pub GoString : Type 0
GoString = List ℕ

-- The bytes of an ASCII literal. `String` has its own `[]` and `∷`.
abbrev pub lit : String → GoString
lit String.[] = []
lit (String.◌∷◌ c s) = code c ∷ lit s

infix 50 ◌==◌
unfoldable pub ◌==◌ : GoString → GoString → Bool
[] == [] = true
(a ∷ s) == (b ∷ t) = eqb a b && (s == t)
_ == _ = false

-- `==` decides equality of strings.
pub eq_iff : (s t : GoString) → ((s == t) ≡ true) ↔ (s ≡ t)
unfolding ◌==◌
eq_iff [] [] = ground arith
eq_iff [] (b ∷ t) = ground arith
eq_iff (a ∷ s) [] = ground arith
eq_iff (a ∷ s) (b ∷ t) = ground (arith, eq_iff s t, eqb_iff a b)

pub eq_refl : (s : GoString) → (s == s) ≡ true
eq_refl s = (eq_iff s s).1 refl

-- strings.HasPrefix(s, p)
unfoldable pub has_prefix : GoString → GoString → Bool
has_prefix s [] = true
has_prefix [] (b ∷ p) = false
has_prefix (a ∷ s) (b ∷ p) = eqb a b && has_prefix s p

pub has_prefix-append : (p s : GoString) → has_prefix (p ++ s) p ≡ true
unfolding has_prefix
has_prefix-append [] s = refl
has_prefix-append (a ∷ p) s = ground (arith, has_prefix-append p s)

-- A string with the prefix `p` is `p` and a rest.
pub has_prefix_split : (s p : GoString) → has_prefix s p ≡ true → (t : GoString) × (s ≡ p ++ t)
unfolding has_prefix
has_prefix_split s [] h = (s, refl)
has_prefix_split [] (b ∷ p) h = cc
has_prefix_split (a ∷ s) (b ∷ p) h =
    let (t, e) = has_prefix_split s p (ground arith) in (t, ground arith)

-- strings.TrimPrefix(s, p)
unfoldable pub trim_prefix : GoString → GoString → GoString
unfolding has_prefix
trim_prefix s [] = s
trim_prefix [] (b ∷ p) = []
trim_prefix (a ∷ s) (b ∷ p) = if has_prefix (a ∷ s) (b ∷ p) then trim_prefix s p else a ∷ s

pub trim_prefix-append : (p s : GoString) → trim_prefix (p ++ s) p ≡ s
unfolding trim_prefix has_prefix
trim_prefix-append [] s = refl
trim_prefix-append (a ∷ p) s = ground (arith, has_prefix-append p s, trim_prefix-append p s)

-- strings.HasSuffix(s, p) and strings.TrimSuffix(s, p)
unfoldable pub has_suffix : GoString → GoString → Bool
has_suffix s p = leb (length p) (length s) && (drop (length s - length p) s == p)

unfoldable pub trim_suffix : GoString → GoString → GoString
unfolding has_suffix
trim_suffix s p = if has_suffix s p then take (length s - length p) s else s
