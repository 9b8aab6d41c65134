-- ===== src/Update/Validated.antt =====
-- The versions of a manifest that Validate accepts (internal/update/manifest.go).
use pua.Prelude.{◌≡◌, refl, inl, inr, Option, none, some, arith, Text, txt, Option-cases}
use pua.Version.Parse.{Version, parse_version}
use pua.Update.Manifest.{
  ComponentRelease, Manifest, ManifestError, Url, validate, validate_release, validate_releases,
  or_else, validate_minimum,
}

abbrev pub Parses : Text → Type 0
Parses s = (v : Version) × (parse_version s ≡ some v)

or_else-none : (e f : Option ManifestError) → or_else e f ≡ none → (e ≡ none) × (f ≡ none)
or_else-none none f h = (refl, h)
or_else-none (some e) f h = cc h

module _ (parse_url : Text → Option Url) where
  validate_release-Parses :
      (r : ComponentRelease) (component channel : Text)
      → validate_release parse_url r component channel ≡ none
      → Parses r.version
  unfolding validate_release
  validate_release-Parses r component channel h = elim (Option-cases (parse_version r.version)) [
    | inl e ↦ let no : ⊥ = ground (arith, e, h) in elim no [ ]
    | inr p ↦ p
  ]

  validate_minimum-Parses :
      (m : Manifest) → validate_minimum m ≡ none → Parses m.pua.min_agent_hub_version
  unfolding validate_minimum
  validate_minimum-Parses m h = elim (Option-cases (parse_version m.pua.min_agent_hub_version)) [
    | inl e ↦ let no : ⊥ = ground (arith, e, h) in elim no [ ]
    | inr p ↦ p
  ]

  validate_releases-Parses :
      (m : Manifest)
      → validate_releases parse_url m ≡ none
      → Parses m.pua.version × Parses m.agent_hub.version × Parses m.pua.min_agent_hub_version
  unfolding validate_releases
  validate_releases-Parses m h =
      let (pua, rest) = or_else-none _ _ h in
      let (agent_hub, minimum) = or_else-none _ _ rest in
      (
        validate_release-Parses m.pua (txt "pua") m.channel pua,
        validate_release-Parses m.agent_hub (txt "agenthub") m.channel agent_hub,
        validate_minimum-Parses m minimum,
      )

  pub validate-Parses :
      (m : Manifest)
      → validate parse_url m ≡ none
      → Parses m.pua.version × Parses m.agent_hub.version × Parses m.pua.min_agent_hub_version
  unfolding validate
  validate-Parses m h = validate_releases-Parses m (ground (arith, h))
