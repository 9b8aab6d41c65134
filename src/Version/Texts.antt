-- ===== src/Version/Texts.antt =====
-- The parts of a text that Parse accepts, and how they are joined (internal/version/semver.go).
use pua.Prelude.{
  ℕ, ◌^◌, ◌≤◌, ◌<◌, ◌==◌, ◌≡◌, ◌≢◌, refl, sym, ap, ◌∙◌, subst, ◌⊎◌, inl, inr, Bool, true, false,
  not, ◌&&◌, ◌||◌, Bool-cases, Option, none, some, Option-cases, List, [], ◌∷◌, ◌++◌, map, All,
  Text, is_blank, arith,
}
use pua.Version.Parse.{
  Identifier, Version, is_digit, all_digits, is_numeric, has_leading_zero, split_first, split, push,
  decimal, parse_uint, parse_numeric, is_part, all_parts, parse_core, is_identifier_char,
  all_identifier_chars,
}

abbrev pub IsDigit : ℕ → Type 0
IsDigit c = (48 ≤ c) × (c ≤ 57)

-- A digit, a letter or a hyphen.
abbrev pub IsIdentifierChar : ℕ → Type 0
IsIdentifierChar c = IsDigit c ⊎ (65 ≤ c) × (c ≤ 90) ⊎ (97 ≤ c) × (c ≤ 122) ⊎ (c ≡ 45)

abbrev pub IsFilled : Text → Type 0
IsFilled [] = ⊥
IsFilled (c ∷ s) = Unit

abbrev pub HasNoLeadingZero : Text → Type 0
HasNoLeadingZero (c ∷ d ∷ s) = c ≢ 48
HasNoLeadingZero _ = Unit

-- Digits that write a number of 64 bits.
abbrev pub Writes : Text → ℕ → Type 0
Writes s n = IsFilled s × All IsDigit s × HasNoLeadingZero s × (decimal 0 s ≡ n) × (n < 2 ^ 64)

abbrev pub IsName : Text → Type 0
IsName s = IsFilled s × All IsIdentifierChar s

-- A prerelease identifier is marked numeric where it consists of digits.
abbrev pub IsPrerelease : Identifier → Type 0
IsPrerelease x =
    IsName x.value
    × ((x.numeric ≡ true) × All IsDigit x.value × HasNoLeadingZero x.value
        ⊎ (x.numeric ≡ false) × (all_digits x.value ≡ false))

-- The texts with the separator between them.
abbrev pub join : ℕ → List Text → Text
join sep [] = []
join sep (s ∷ []) = s
join sep (s ∷ t ∷ ss) = s ++ sep ∷ join sep (t ∷ ss)

abbrev pub suffix : ℕ → List Text → Text
suffix mark [] = []
suffix mark (s ∷ ss) = mark ∷ join 46 (s ∷ ss)

abbrev pub value_of : Identifier → Text
value_of x = x.value

-- `major.minor.patch-prerelease+metadata`
pub record IsWritten (t : Text) (v : Version) : Type 0 where
  pub major : Text
  pub minor : Text
  pub patch : Text
  pub writes_major : Writes major v.major
  pub writes_minor : Writes minor v.minor
  pub writes_patch : Writes patch v.patch
  pub prerelease : All IsPrerelease v.prerelease
  pub metadata : All IsName v.metadata
  pub original : v.original ≡ t
  pub text :
      t
      ≡ (join 46 (major ∷ minor ∷ patch ∷ []) ++ suffix 45 (map value_of v.prerelease))
        ++ suffix 43 v.metadata

pub same_char : (a b : ℕ) → (a == b) ≡ true → a ≡ b
same_char a b h = ground (arith, h)

abbrev pub rejoin : ℕ → Text × Option Text → Text
rejoin sep (f, none) = f
rejoin sep (f, some r) = f ++ sep ∷ r

pub rejoin-cons :
    (sep c : ℕ) (p : Text × Option Text) → rejoin sep (c ∷ p.0, p.1) ≡ c ∷ rejoin sep p
rejoin-cons sep c (f, none) = refl
rejoin-cons sep c (f, some r) = refl

pub rejoin-split_first : (sep : ℕ) (s : Text) → rejoin sep (split_first sep s) ≡ s
unfolding split_first
rejoin-split_first sep [] = refl
rejoin-split_first sep (c ∷ s) = elim (Bool-cases (c == sep)) [
  | inl e ↦ rw e (ap (λ (x : ℕ). x ∷ s) (sym (same_char c sep e)))
  | inr e ↦
      rw e (rejoin-cons sep c (split_first sep s) ∙ ap (λ t. c ∷ t) (rejoin-split_first sep s))
]

pub join-push : (sep c : ℕ) (ss : List Text) → join sep (push c ss) ≡ c ∷ join sep ss
join-push sep c [] = refl
join-push sep c (s ∷ []) = refl
join-push sep c (s ∷ t ∷ ss) = refl

abbrev pub HasParts : List Text → Type 0
HasParts [] = ⊥
HasParts (s ∷ ss) = Unit

pub push-HasParts : (c : ℕ) (ss : List Text) → HasParts (push c ss)
push-HasParts c [] = tt
push-HasParts c (s ∷ ss) = tt

pub split-HasParts : (sep : ℕ) (s : Text) → HasParts (split sep s)
unfolding split
split-HasParts sep [] = tt
split-HasParts sep (c ∷ s) = elim (Bool-cases (c == sep)) [
  | inl e ↦ rw e tt
  | inr e ↦ rw e (push-HasParts c (split sep s))
]

pub join-blank : (sep : ℕ) (ss : List Text) → HasParts ss → join sep ([] ∷ ss) ≡ sep ∷ join sep ss
join-blank sep [] h = absurd h
join-blank sep (s ∷ ss) h = refl

pub join-split : (sep : ℕ) (s : Text) → join sep (split sep s) ≡ s
unfolding split
join-split sep [] = refl
join-split sep (c ∷ s) = elim (Bool-cases (c == sep)) [
  | inl e ↦ rw e (
      join-blank sep (split sep s) (split-HasParts sep s)
      ∙ ap (λ t. sep ∷ t) (join-split sep s)
      ∙ ap (λ (x : ℕ). x ∷ s) (sym (same_char c sep e)))
  | inr e ↦ rw e (join-push sep c (split sep s) ∙ ap (λ t. c ∷ t) (join-split sep s))
]

pub and_true : (a b : Bool) → (a && b) ≡ true → (a ≡ true) × (b ≡ true)
and_true a b h = ground (arith, h)

pub or_false : (a b : Bool) → (a || b) ≡ false → (a ≡ false) × (b ≡ false)
or_false a b h = ground (arith, h)

pub negation_holds : (a : Bool) → not a ≡ true → a ≡ false
negation_holds a h = ground (arith, h)

pub negation_fails : (a : Bool) → not a ≡ false → a ≡ true
negation_fails a h = ground (arith, h)

pub digit : (c : ℕ) → is_digit c ≡ true → IsDigit c
digit c h = ground (arith, h)

pub identifier_char : (c : ℕ) → is_identifier_char c ≡ true → IsIdentifierChar c
identifier_char c h = ground (arith, h)

pub digits_hold : (s : Text) → all_digits s ≡ true → All IsDigit s
digits_hold [] h = tt
digits_hold (c ∷ s) h =
    let (a, b) = and_true (is_digit c) (all_digits s) h in (digit c a, digits_hold s b)

pub name_chars : (s : Text) → all_identifier_chars s ≡ true → All IsIdentifierChar s
name_chars [] h = tt
name_chars (c ∷ s) h =
    let (a, b) = and_true (is_identifier_char c) (all_identifier_chars s) h in
    (identifier_char c a, name_chars s b)

pub filled : (s : Text) → is_blank s ≡ false → IsFilled s
filled [] h = absurd (cc)
filled (c ∷ s) h = tt

pub no_leading_zero : (s : Text) → has_leading_zero s ≡ false → HasNoLeadingZero s
no_leading_zero [] h = tt
no_leading_zero (c ∷ []) h = tt
no_leading_zero (c ∷ d ∷ s) h = λ e. ground (arith, h, e)

pub parse_uint-decimal :
    (s : Text) {n : ℕ} → parse_uint s ≡ some n → (decimal 0 s ≡ n) × (n < 2 ^ 64)
unfolding parse_uint
parse_uint-decimal s h = ground (arith, h)

pub is_numeric-digits : (s : Text) → is_numeric s ≡ true → IsFilled s × All IsDigit s
unfolding is_numeric
is_numeric-digits s h =
    let (a, b) = and_true _ (all_digits s) h in (filled s (negation_holds _ a), digits_hold s b)

pub parse_numeric-Writes : (s : Text) {n : ℕ} → parse_numeric s ≡ some n → Writes s n
unfolding parse_numeric
parse_numeric-Writes s {n} h = elim (Bool-cases (not (is_numeric s) || has_leading_zero s)) [
  | inl e ↦ absurd (cc (rw e at h))
  | inr e ↦
      let (a, b) = or_false _ (has_leading_zero s) e in
      let (f, d) = is_numeric-digits s (negation_fails _ a) in
      let (v, k) = parse_uint-decimal s {n = n} (rw e at h) in (f, d, no_leading_zero s b, v, k)
]

-- The three numbers of a core.
abbrev pub IsCore : List Text → ℕ × ℕ × ℕ → Type 0
IsCore ss core =
    (a : Text) × (b : Text) × (c : Text) × (ss ≡ a ∷ b ∷ c ∷ [])
    × Writes a core.0
    × Writes b core.1
    × Writes c core.2

pub parse_core-IsCore :
    (ss : List Text) {core : ℕ × ℕ × ℕ} → parse_core ss ≡ some core → IsCore ss core
unfolding parse_core
parse_core-IsCore [] h = absurd (cc h)
parse_core-IsCore (a ∷ []) h = absurd (cc h)
parse_core-IsCore (a ∷ b ∷ []) h = absurd (cc h)
parse_core-IsCore (a ∷ b ∷ c ∷ d ∷ ss) h = absurd (cc h)
parse_core-IsCore (a ∷ b ∷ c ∷ []) {core} h = elim (Option-cases (parse_numeric a)) [
  | inl e ↦ absurd (cc (rw e at h))
  | inr (x, e) ↦ elim (Option-cases (parse_numeric b)) [
    | inl f ↦ absurd (cc (rw (e, f) at h))
    | inr (y, f) ↦ elim (Option-cases (parse_numeric c)) [
      | inl g ↦ absurd (cc (rw (e, f, g) at h))
      | inr (z, g) ↦
          let k : (x, y, z) ≡ core = cc (rw (e, f, g) at h) in
          subst (λ p. IsCore (a ∷ b ∷ c ∷ []) p) k
            (
              a,
              b,
              c,
              refl,
              parse_numeric-Writes a e,
              parse_numeric-Writes b f,
              parse_numeric-Writes c g,
            )
    ]
  ]
]

pub first_two : (a b c : Bool) → (a && b && c) ≡ true → (a ≡ true) × (b ≡ true)
first_two a b c h = ground (arith, h)

pub is_part-IsName : (p : Bool) (s : Text) → is_part p s ≡ true → IsName s
unfolding is_part
is_part-IsName p s h =
    let (a, b) =
      first_two (not (is_blank s)) (all_identifier_chars s)
        (not (p && is_numeric s && has_leading_zero s)) h in
    (filled s (negation_holds _ a), name_chars s b)

pub all_parts-All : (p : Bool) (ss : List Text) → all_parts p ss ≡ true → All IsName ss
all_parts-All p [] h = tt
all_parts-All p (s ∷ ss) h =
    let (a, b) = and_true _ _ h in (is_part-IsName p s a, all_parts-All p ss b)
