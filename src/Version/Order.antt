-- ===== src/Version/Order.antt =====
-- The order that Compare gives (internal/version/semver.go).
use pua.Prelude.{
  ℕ, ◌≡◌, ◌≢◌, ◌↔◌, refl, ap, ◌⊎◌, true, false, List, [], ◌∷◌, arith, Text, text_eq_iff,
  if◌then◌else◌,
}
use pua.Version.Parse.{Identifier, Version}
use pua.Version.Compare.{
  Sign, less, same, greater, uint_value, text_less, compare_distinct, compare_identifiers,
  compare_prerelease, compare_number, compare_versions,
}

abbrev pub flip : Sign → Sign
flip less = greater
flip same = same
flip greater = less

-- Where both identifiers are numeric, their 64-bit numbers tell different texts apart.
abbrev pub TellsApart : Identifier → Identifier → Type 0
TellsApart l r =
    (l.value ≡ r.value)
    ⊎ (l.numeric ≡ false)
    ⊎ (r.numeric ≡ false)
    ⊎ (uint_value l.value ≢ uint_value r.value)

-- The same of the identifiers at each position.
abbrev pub AllTellApart : List Identifier → List Identifier → Type 0
AllTellApart [] rs = Unit
AllTellApart (l ∷ ls) [] = Unit
AllTellApart (l ∷ ls) (r ∷ rs) = TellsApart l r × AllTellApart ls rs

text_less-flip : (s t : Text) → s ≢ t → text_less t s ≡ (if text_less s t then false else true)
unfolding text_less
text_less-flip [] [] n = elim (n refl) [ ]
text_less-flip [] (d ∷ t) n = refl
text_less-flip (c ∷ s) [] n = refl
text_less-flip (c ∷ s) (d ∷ t) n = ground (arith, text_less-flip s t, n, ap (λ x. c ∷ x))

compare_distinct-flip :
    (l r : Identifier)
    → l.value ≢ r.value
    → TellsApart l r
    → compare_distinct r l ≡ flip (compare_distinct l r)
unfolding compare_distinct
compare_distinct-flip l r n h = ground (arith, text_less-flip l.value r.value n)

compare_identifiers-flip :
    (ls rs : List Identifier)
    → AllTellApart ls rs
    → compare_identifiers rs ls ≡ flip (compare_identifiers ls rs)
unfolding compare_identifiers
compare_identifiers-flip [] [] h = refl
compare_identifiers-flip [] (r ∷ rs) h = refl
compare_identifiers-flip (l ∷ ls) [] h = refl
compare_identifiers-flip (l ∷ ls) (r ∷ rs) h = ground (
  arith,
  text_eq_iff l.value r.value,
  text_eq_iff r.value l.value,
  compare_identifiers-flip ls rs h.1,
  compare_distinct-flip l r,
  h.0,
)

compare_prerelease-flip :
    (ls rs : List Identifier)
    → AllTellApart ls rs
    → compare_prerelease rs ls ≡ flip (compare_prerelease ls rs)
unfolding compare_prerelease
compare_prerelease-flip [] [] h = compare_identifiers-flip [] [] h
compare_prerelease-flip [] (r ∷ rs) h = refl
compare_prerelease-flip (l ∷ ls) [] h = refl
compare_prerelease-flip (l ∷ ls) (r ∷ rs) h = compare_identifiers-flip (l ∷ ls) (r ∷ rs) h

compare_number-flip :
    (l r : ℕ) (a b : Sign) → b ≡ flip a → compare_number r l b ≡ flip (compare_number l r a)
compare_number-flip l r a b h = ground (arith, h)

-- Where numeric identifiers of the two prereleases that stand at the same position and differ have
-- different 64-bit numbers, Compare with its arguments exchanged gives the opposite result.
pub compare_versions-flip :
    (l r : Version)
    → AllTellApart l.prerelease r.prerelease
    → compare_versions r l ≡ flip (compare_versions l r)
unfolding compare_versions
compare_versions-flip l r h = compare_number-flip l.major r.major _ _ (
    compare_number-flip l.minor r.minor _ _ (
      compare_number-flip l.patch r.patch _ _
        (compare_prerelease-flip l.prerelease r.prerelease h)))

abbrev pub texts : List Identifier → List Text
texts [] = []
texts (x ∷ xs) = x.value ∷ texts xs

-- What Compare reads of a version.
abbrev pub SamePrecedence : Version → Version → Type 0
SamePrecedence l r =
    (l.major ≡ r.major)
    × (l.minor ≡ r.minor)
    × (l.patch ≡ r.patch)
    × (texts l.prerelease ≡ texts r.prerelease)

compare_distinct-same : (l r : Identifier) → compare_distinct l r ≢ same
unfolding compare_distinct
compare_distinct-same l r h = ground arith

compare_identifiers-same :
    (ls rs : List Identifier) → (compare_identifiers ls rs ≡ same) ↔ (texts ls ≡ texts rs)
unfolding compare_identifiers
compare_identifiers-same [] [] = ground arith
compare_identifiers-same [] (r ∷ rs) = ground arith
compare_identifiers-same (l ∷ ls) [] = ground arith
compare_identifiers-same (l ∷ ls) (r ∷ rs) =
    ground (
      arith,
      text_eq_iff l.value r.value,
      compare_identifiers-same ls rs,
      compare_distinct-same l r,
    )

compare_prerelease-same :
    (ls rs : List Identifier) → (compare_prerelease ls rs ≡ same) ↔ (texts ls ≡ texts rs)
unfolding compare_prerelease
compare_prerelease-same [] [] = compare_identifiers-same [] []
compare_prerelease-same [] (r ∷ rs) = ground arith
compare_prerelease-same (l ∷ ls) [] = ground arith
compare_prerelease-same (l ∷ ls) (r ∷ rs) = compare_identifiers-same (l ∷ ls) (r ∷ rs)

-- Compare gives 0 exactly where the three numbers are the same and so are the texts of the prerelease
-- identifiers, in their order; the build metadata does not count.
pub compare_versions-same : (l r : Version) → (compare_versions l r ≡ same) ↔ SamePrecedence l r
unfolding compare_versions
compare_versions-same l r = ground (arith, compare_prerelease-same l.prerelease r.prerelease)
