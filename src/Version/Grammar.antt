-- ===== src/Version/Grammar.antt =====
-- What a text that Parse accepts looks like (internal/version/semver.go).
use pua.Prelude.{
  ℕ, ◌≡◌, refl, sym, ap, ◌∙◌, subst, inl, inr, Bool, true, false, ◌&&◌, Bool-cases, Option, none,
  some, Option-cases, List, [], ◌∷◌, ◌++◌, map, All, Text, is_blank, trim_space, arith,
}
use pua.Version.Parse.{
  Identifier, Version, all_digits, is_numeric, has_leading_zero, split_first, split, all_parts,
  parse_identifiers, parse_core, identify, parse_parts, parse_prerelease, parse_metadata,
  core_parts, prerelease_part, version_of, parse_trimmed, parse_version,
}
use pua.Version.Texts.{
  IsFilled, IsName, IsPrerelease, join, suffix, value_of, IsWritten, rejoin, rejoin-split_first,
  HasParts, split-HasParts, join-split, no_leading_zero, is_numeric-digits, parse_core-IsCore,
  all_parts-All,
}

-- What a mark and the text after it stand for.
abbrev marked : ℕ → Option Text → Text
marked mark none = []
marked mark (some s) = mark ∷ s

suffix-join : (mark : ℕ) (ss : List Text) → HasParts ss → suffix mark ss ≡ mark ∷ join 46 ss
suffix-join mark [] h = absurd h
suffix-join mark (s ∷ ss) h = refl

parse_identifiers-parts :
    (s : Text) (p : Bool) {ss : List Text} (mark : ℕ)
    → parse_identifiers s p ≡ some ss
    → All IsName ss × (suffix mark ss ≡ mark ∷ s)
unfolding parse_identifiers
parse_identifiers-parts s p {ss} mark h = elim (Bool-cases (is_blank s)) [
  | inl e ↦ absurd (cc (rw e at h))
  | inr e ↦ elim (Bool-cases (all_parts p (split 46 s))) [
    | inr f ↦ absurd (cc (rw (e, f) at h))
    | inl f ↦
        let k : split 46 s ≡ ss = cc (rw (e, f) at h) in
        subst (λ l. All IsName l × (suffix mark l ≡ mark ∷ s)) k
          (
            all_parts-All p (split 46 s) f,
            suffix-join mark (split 46 s) (split-HasParts 46 s)
                ∙ ap (λ t. mark ∷ t) (join-split 46 s),
          )
  ]
]

parse_metadata-names :
    (o : Option Text) {ss : List Text}
    → parse_metadata o ≡ some ss
    → All IsName ss × (suffix 43 ss ≡ marked 43 o)
unfolding parse_metadata
parse_metadata-names none {ss} h =
    let k : [] ≡ ss = cc h in subst (λ l. All IsName l × (suffix 43 l ≡ [])) k (tt, refl)
parse_metadata-names (some s) h = parse_identifiers-parts s false 43 h

not_digits : (s : Text) → IsFilled s → is_numeric s ≡ false → all_digits s ≡ false
unfolding is_numeric
not_digits [] f h = absurd f
not_digits (c ∷ s) f h = h

identify-IsPrerelease :
    (s : Text) → IsName s → (is_numeric s && has_leading_zero s) ≡ false → IsPrerelease (identify s)
unfolding identify
identify-IsPrerelease s n h = elim (Bool-cases (is_numeric s)) [
  | inl e ↦ (n, inl (e, (is_numeric-digits s e).1, no_leading_zero s (second_false _ _ e h)))
  | inr e ↦ (n, inr (e, not_digits s n.0 e))
]
  where
    second_false : (a b : Bool) → a ≡ true → (a && b) ≡ false → b ≡ false
    second_false a b e h = ground (arith, e, h)

parse_parts-values :
    (ss : List Text) {xs : List Identifier}
    → All IsName ss
    → parse_parts ss ≡ some xs
    → All IsPrerelease xs × (map value_of xs ≡ ss)
unfolding parse_parts identify
parse_parts-values [] {xs} n h =
    let k : [] ≡ xs = cc h in subst (λ l. All IsPrerelease l × (map value_of l ≡ [])) k (tt, refl)
parse_parts-values (s ∷ ss) {xs} (n, ns) h = elim (Option-cases (parse_parts ss)) [
  | inl e ↦ absurd (cc (rw e at h))
  | inr (rest, e) ↦ elim (Bool-cases (is_numeric s && has_leading_zero s)) [
    | inl f ↦ absurd (cc (rw (e, f) at h))
    | inr f ↦
        let (a, b) = parse_parts-values ss {xs = rest} ns e in
        let k : identify s ∷ rest ≡ xs = cc (rw (e, f) at h) in
        subst (λ l. All IsPrerelease l × (map value_of l ≡ s ∷ ss)) k
          ((identify-IsPrerelease s n f, a), ap (λ l. s ∷ l) b)
  ]
]

parse_prerelease-values :
    (o : Option Text) {xs : List Identifier}
    → parse_prerelease o ≡ some xs
    → All IsPrerelease xs × (suffix 45 (map value_of xs) ≡ marked 45 o)
unfolding parse_prerelease
parse_prerelease-values none {xs} h =
    let k : [] ≡ xs = cc h in
    subst (λ l. All IsPrerelease l × (suffix 45 (map value_of l) ≡ [])) k (tt, refl)
parse_prerelease-values (some s) {xs} h = elim (Option-cases (parse_identifiers s true)) [
  | inl e ↦ absurd (cc (rw e at h))
  | inr (parts, e) ↦
      let (n, k) = parse_identifiers-parts s true 45 e in
      let (a, b) = parse_parts-values parts {xs = xs} n (rw e at h) in (a, ap (suffix 45) b ∙ k)
]

append_nil : (s : Text) → s ++ [] ≡ s
append_nil [] = refl
append_nil (c ∷ s) = ap (λ t. c ∷ t) (append_nil s)

rejoin-marked : (sep : ℕ) (p : Text × Option Text) → rejoin sep p ≡ p.0 ++ marked sep p.1
rejoin-marked sep (f, none) = sym (append_nil f)
rejoin-marked sep (f, some r) = refl

-- The parts that Parse reads, in their order, where it succeeds.
parse_trimmed-parts :
    (s : Text) {v : Version}
    → parse_trimmed s ≡ some v
    → (metadata : List Text) × (core : ℕ × ℕ × ℕ) × (prerelease : List Identifier) × (parse_metadata
          (split_first 43 s).1
        ≡ some metadata)
      × (parse_core (core_parts s) ≡ some core)
      × (parse_prerelease (prerelease_part s) ≡ some prerelease)
      × (version_of s metadata core prerelease ≡ v)
unfolding parse_trimmed
parse_trimmed-parts s {v} h = elim (Option-cases (parse_metadata (split_first 43 s).1)) [
  | inl a ↦ let no : ⊥ = ground (arith, a, h) in elim no [ ]
  | inr (metadata, a) ↦ elim (Option-cases (parse_core (core_parts s))) [
    | inl b ↦ let no : ⊥ = ground (arith, a, b, h) in elim no [ ]
    | inr (core, b) ↦ elim (Option-cases (parse_prerelease (prerelease_part s))) [
      | inl c ↦ let no : ⊥ = ground (arith, a, b, c, h) in elim no [ ]
      | inr (prerelease, c) ↦ (metadata, core, prerelease, a, b, c, ground (arith, a, b, c, h))
    ]
  ]
]

-- The text before the metadata, and the core in it.
written_text :
    (s core : Text) (pre meta : Text)
    → core ≡ (split_first 45 (split_first 43 s).0).0
    → pre ≡ marked 45 (prerelease_part s)
    → meta ≡ marked 43 (split_first 43 s).1
    → s ≡ (core ++ pre) ++ meta
unfolding prerelease_part
written_text s core pre meta c p m =
    sym (rejoin-split_first 43 s)
    ∙ rejoin-marked 43 (split_first 43 s)
    ∙ ap (λ t. t ++ marked 43 (split_first 43 s).1)
        (sym (rejoin-split_first 45 (split_first 43 s).0)
          ∙ rejoin-marked 45 (split_first 45 (split_first 43 s).0))
    ∙ rw (c, p, m) refl

parse_trimmed-IsWritten : (s : Text) {v : Version} → parse_trimmed s ≡ some v → IsWritten s v
unfolding core_parts
parse_trimmed-IsWritten s {v} h =
    let (metadata, core, prerelease, m, c, p, e) = parse_trimmed-parts s h in
    let (x, y, z, k, wx, wy, wz) = parse_core-IsCore (core_parts s) c in
    let (np, tp) = parse_prerelease-values (prerelease_part s) p in
    let (nm, tm) = parse_metadata-names (split_first 43 s).1 m in
    subst (IsWritten s) e (record {
      major = x;
      minor = y;
      patch = z;
      writes_major = wx;
      writes_minor = wy;
      writes_patch = wz;
      prerelease = np;
      metadata = nm;
      original = refl;
      text =
          written_text s _ _ _
            (ap (join 46) (sym k) ∙ join-split 46 (split_first 45 (split_first 43 s).0).0) tp tm;
    })

-- A text that Parse accepts is, less the space around it, the three numbers of the version with dots
-- between them, then a hyphen and its prerelease identifiers and a plus and its metadata, each where
-- there are any, with dots between them. The numbers are digits with no leading zero, below 2^64; the
-- identifiers are filled with digits, letters and hyphens; and a prerelease identifier is marked
-- numeric just where it consists of digits, and then has no leading zero. The version prints as that
-- text.
pub parse_version-IsWritten :
    (s : Text) {v : Version} → parse_version s ≡ some v → IsWritten (trim_space s) v
unfolding parse_version
parse_version-IsWritten s h = parse_trimmed-IsWritten (trim_space s) h
