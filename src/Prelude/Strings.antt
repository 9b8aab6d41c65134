-- ===== src/Prelude/Strings.antt =====
-- Go strings as lists of code points, with what the program uses of package strings.
use Prim.Native.Char.{code}
use Prim.Native.String.{String}
use Prim.Native.Nat.{ℕ}
use mathlib.Core.Path.{◌≡◌, refl, ap}
use mathlib.Core.Logic.{◌↔◌, inl, inr}
use mathlib.Core.Bool.{Bool, true, false, ◌&&◌, ◌||◌}
use mathlib.Core.List.{List, [], ◌∷◌, ◌++◌}
use native.Mathlib.Omega.{arith}
use pua.Prelude.Tests.{leb, ◌==◌, if◌then◌else◌, Bool-cases}

abbrev pub Text : Type 0
Text = List ℕ

-- The text of a literal.
abbrev pub txt : String → Text
txt String.[] = []
txt (String.◌∷◌ c s) = code c ∷ txt s

-- `s == t` of Go.
unfoldable pub text_eq : Text → Text → Bool
text_eq [] [] = true
text_eq [] (d ∷ t) = false
text_eq (c ∷ s) [] = false
text_eq (c ∷ s) (d ∷ t) = c == d && text_eq s t

-- `s == ""`.
abbrev pub is_blank : Text → Bool
is_blank [] = true
is_blank (c ∷ s) = false

-- unicode.IsSpace.
unfoldable pub is_space : ℕ → Bool
is_space c =
    (leb 9 c && leb c 13)
    || c == 32
    || c == 0x85
    || c == 0xA0
    || c == 0x1680
    || (leb 0x2000 c && leb c 0x200a)
    || c == 0x2028
    || c == 0x2029
    || c == 0x202f
    || c == 0x205f
    || c == 0x3000

unfoldable pub trim_left : Text → Text
unfolding is_space
trim_left [] = []
trim_left (c ∷ s) = let rest = trim_left s in if is_space c then rest else c ∷ s

-- A character put before a text that is trimmed at its end.
unfoldable pub join_right : ℕ → Text → Text
unfolding is_space
join_right c r = if is_blank r && is_space c then [] else c ∷ r

unfoldable pub trim_right : Text → Text
unfolding join_right
trim_right [] = []
trim_right (c ∷ s) = join_right c (trim_right s)

-- strings.TrimSpace.
unfoldable pub trim_space : Text → Text
unfolding trim_left trim_right
trim_space s = trim_right (trim_left s)

-- strings.HasPrefix.
unfoldable pub has_prefix : Text → Text → Bool
has_prefix s [] = true
has_prefix [] (d ∷ t) = false
has_prefix (c ∷ s) (d ∷ t) = c == d && has_prefix s t

-- strings.Contains.
unfoldable pub contains : Text → Text → Bool
unfolding has_prefix
contains [] t = is_blank t
contains (c ∷ s) t = let rest = contains s t in has_prefix (c ∷ s) t || rest

-- strings.Join.
unfoldable pub join : Text → List Text → Text
join sep [] = []
join sep (s ∷ []) = s
join sep (s ∷ t ∷ rest) = s ++ (sep ++ join sep (t ∷ rest))

pub text_eq_iff : (s t : Text) → (text_eq s t ≡ true) ↔ (s ≡ t)
unfolding text_eq
text_eq_iff [] [] = ground arith
text_eq_iff [] (d ∷ t) = ground arith
text_eq_iff (c ∷ s) [] = ground arith
text_eq_iff (c ∷ s) (d ∷ t) = ground (arith, text_eq_iff s t)

pub text_eq_refl : (s : Text) → text_eq s s ≡ true
text_eq_refl s = (text_eq_iff s s).1 refl

-- The first character is no space.
abbrev IsClean : Text → Type 0
IsClean [] = Unit
IsClean (c ∷ s) = is_space c ≡ false

trim_left-IsClean : (s : Text) → IsClean (trim_left s)
unfolding trim_left
trim_left-IsClean [] = tt
trim_left-IsClean (c ∷ s) = elim (Bool-cases (is_space c)) [
  | inl e ↦ rw e (trim_left-IsClean s)
  | inr e ↦ rw e e
]

trim_left_of_IsClean : (s : Text) → IsClean s → trim_left s ≡ s
unfolding trim_left
trim_left_of_IsClean [] h = refl
trim_left_of_IsClean (c ∷ s) h = rw h

join_right-IsClean : (c : ℕ) (r : Text) → is_space c ≡ false → IsClean (join_right c r)
unfolding join_right
join_right-IsClean c [] h = rw (h, h) refl
join_right-IsClean c (d ∷ r) h = h

trim_right-IsClean : (s : Text) → IsClean s → IsClean (trim_right s)
unfolding trim_right
trim_right-IsClean [] h = tt
trim_right-IsClean (c ∷ s) h = join_right-IsClean c (trim_right s) h

trim_right-join_right :
    (c : ℕ) (r : Text) → trim_right r ≡ r → trim_right (join_right c r) ≡ join_right c r
unfolding trim_right
trim_right-join_right c [] h = elim (Bool-cases (is_space c)) [
  | inl e ↦ rw (e, join_right)
  | inr e ↦ rw (e, join_right) (rw (e, join_right))
]
trim_right-join_right c (d ∷ r) h = ap (join_right c) h

trim_right_idem : (s : Text) → trim_right (trim_right s) ≡ trim_right s
unfolding trim_right
trim_right_idem [] = refl
trim_right_idem (c ∷ s) = trim_right-join_right c (trim_right s) (trim_right_idem s)

-- Trimming a trimmed text changes nothing.
pub trim_space_idem : (s : Text) → trim_space (trim_space s) ≡ trim_space s
unfolding trim_space
trim_space_idem s =
    rw (trim_left_of_IsClean _ (trim_right-IsClean _ (trim_left-IsClean s)))
      (trim_right_idem (trim_left s))
