-- ===== src/Version/Compare.antt =====
-- Compare and IsDevelopment of internal/version/semver.go.
use pua.Prelude.{
  ℕ, ◌-◌, ◌^◌, Bool, true, false, not, ◌&&◌, ◌||◌, List, [], ◌∷◌, Text, txt, text_eq, ltb,
  if◌then◌else◌,
}
use pua.Version.Parse.{Identifier, Version, decimal}

-- The results -1, 0 and 1.
pub data Sign : Type 0 where
  less same greater : Sign

-- The value of strconv.ParseUint on digits where its error is ignored: the greatest number on
-- overflow.
unfoldable pub uint_value : Text → ℕ
unfolding decimal
uint_value s = if ltb (decimal 0 s) (2 ^ 64) then decimal 0 s else 2 ^ 64 - 1

-- `left < right` for strings.
unfoldable pub text_less : Text → Text → Bool
text_less s [] = false
text_less [] (d ∷ t) = true
text_less (c ∷ s) (d ∷ t) = ltb c d || not (ltb d c) && text_less s t

-- Two identifiers with different texts.
unfoldable pub compare_distinct : Identifier → Identifier → Sign
unfolding uint_value text_less
compare_distinct l r =
    if l.numeric && not r.numeric
    then less
    else if not l.numeric && r.numeric
    then greater
    else if l.numeric
    then (if ltb (uint_value l.value) (uint_value r.value) then less else greater)
    else if text_less l.value r.value
    then less
    else greater

-- The loop over the identifiers and the comparison of their numbers after it.
unfoldable pub compare_identifiers : List Identifier → List Identifier → Sign
unfolding compare_distinct
compare_identifiers [] [] = same
compare_identifiers [] (r ∷ rs) = less
compare_identifiers (l ∷ ls) [] = greater
compare_identifiers (l ∷ ls) (r ∷ rs) =
    let rest = compare_identifiers ls rs in
    if text_eq l.value r.value then rest else compare_distinct l r

-- A version without a prerelease comes after those with one.
unfoldable pub compare_prerelease : List Identifier → List Identifier → Sign
unfolding compare_identifiers
compare_prerelease [] (r ∷ rs) = greater
compare_prerelease (l ∷ ls) [] = less
compare_prerelease ls rs = compare_identifiers ls rs

-- One pair of the core; the rest decides where the numbers are the same.
abbrev pub compare_number : ℕ → ℕ → Sign → Sign
compare_number l r rest = if ltb l r then less else if ltb r l then greater else rest

unfoldable pub compare_versions : Version → Version → Sign
unfolding compare_prerelease
compare_versions l r = compare_number l.major r.major (
    compare_number l.minor r.minor
      (compare_number l.patch r.patch (compare_prerelease l.prerelease r.prerelease)))

abbrev has_dev : List Identifier → Bool
has_dev [] = false
has_dev (x ∷ xs) = text_eq x.value (txt "dev") || has_dev xs

abbrev has_dirty : List Text → Bool
has_dirty [] = false
has_dirty (x ∷ xs) = text_eq x (txt "dirty") || has_dirty xs

unfoldable pub is_development : Version → Bool
is_development v = has_dev v.prerelease || has_dirty v.metadata
