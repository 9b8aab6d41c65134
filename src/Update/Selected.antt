-- ===== src/Update/Selected.antt =====
-- What Resolve answers with for any manifest (internal/update/plan.go).
use pua.Prelude.{
  ◌≡◌, refl, sym, ap, ◌∙◌, subst, ◌⊎◌, inl, inr, Option, none, some, List, [], ◌∷◌, arith, Text,
  text_eq_iff, Option-cases,
}
use pua.Version.Parse.{Version, parse_version}
use pua.Version.Compare.{Sign, less, same, greater, compare_versions}
use pua.Update.Manifest.{Asset, ComponentRelease, Manifest, Url, validate, asset_for}
use pua.Update.Resolve.{
  ResolveError, bad_manifest, bad_pua, bad_agent_hub, no_asset, Resolved, ok, err, panic, ◌>>=◌,
  Installed, Selection, Plan, must_parse, select_release, select_newer, target_version,
  check_minimum, too_old, plan_of, resolve_versions, resolve,
}
use pua.Update.Validated.{Parses, validate-Parses}
use pua.Update.Managed.{IsChosen, IsPlan, plan_of-IsPlan}

asset_for-platform :
    (assets : List Asset) (os arch : Text) {a : Asset}
    → asset_for assets os arch ≡ some a
    → (a.os ≡ os) × (a.arch ≡ arch)
unfolding asset_for
asset_for-platform [] os arch h = cc h
asset_for-platform (x ∷ rest) os arch {a} h = ground (
  arith,
  h,
  text_eq_iff x.os os,
  text_eq_iff x.arch arch,
  asset_for-platform rest os arch {a = a},
)

abbrev IsChoice : ComponentRelease → Text → Installed → Resolved (Option Selection) → Type 0
IsChoice r current i (ok s) = IsChosen r current i s
IsChoice r current i (err e) = (e ≡ no_asset) × (asset_for r.assets i.os i.arch ≡ none)
IsChoice r current i panic = ⊥

-- What an error of Resolve says of its input.
abbrev pub Explains : (Text → Option Url) → Manifest → Installed → ResolveError → Type 0
Explains parse_url m i (bad_manifest e) = validate parse_url m ≡ some e
Explains parse_url m i bad_pua = parse_version i.pua_version ≡ none
Explains parse_url m i bad_agent_hub = parse_version i.agent_hub_version ≡ none
Explains parse_url m i no_asset =
    (asset_for m.pua.assets i.os i.arch ≡ none) ⊎ (asset_for m.agent_hub.assets i.os i.arch ≡ none)

abbrev pub IsResolved : (Text → Option Url) → Manifest → Installed → Resolved Plan → Type 0
IsResolved parse_url m i (ok p) = IsPlan m i p
IsResolved parse_url m i (err e) = Explains parse_url m i e
IsResolved parse_url m i panic = ⊥

select_newer-IsChoice :
    (r : ComponentRelease) (current : Text) (i : Installed) (v c : Version) (sign : Sign)
    → sign ≡ compare_versions v c
    → parse_version r.version ≡ some v
    → parse_version current ≡ some c
    → IsChoice r current i (select_newer sign r i)
unfolding select_newer select_release
select_newer-IsChoice r current i v c less e h k = (v, c, h, k, λ x. cc (e ∙ x))
select_newer-IsChoice r current i v c same e h k = (v, c, h, k, λ x. cc (e ∙ x))
select_newer-IsChoice r current i v c greater e h k =
    elim (Option-cases (asset_for r.assets i.os i.arch)) [
      | inl n ↦ rw (n, select_newer) (refl, n)
      | inr (a, f) ↦
          let (os, arch) = asset_for-platform r.assets i.os i.arch f in
          rw (f, select_newer) (refl, os, arch, (v, c, h, k, sym e))
    ]

check_minimum-total :
    (s : Option Selection) (target : Text)
    → ((x : Selection) → s ≡ some x → Parses x.release.min_agent_hub_version)
    → Parses target
    → (text : Text) × (check_minimum s target ≡ ok text)
unfolding check_minimum must_parse
check_minimum-total none target h k = ([], refl)
check_minimum-total (some s) target h (v, e) =
    let (n, d) = h s refl in (too_old (compare_versions v n) s.release target, rw (d, e) refl)

target_version-Parses :
    (m : Manifest) (i : Installed) (s : Option Selection)
    → IsChosen m.agent_hub i.agent_hub_version i s
    → Parses m.agent_hub.version
    → Parses i.agent_hub_version
    → Parses (target_version s i)
target_version-Parses m i none h k l = l
target_version-Parses m i (some s) h k l =
    subst (λ (r : ComponentRelease). Parses r.version) (sym h.0) k

chosen_minimum :
    (m : Manifest) (i : Installed) (s : Option Selection)
    → IsChosen m.pua i.pua_version i s
    → Parses m.pua.min_agent_hub_version
    → (x : Selection) → s ≡ some x
    → Parses x.release.min_agent_hub_version
chosen_minimum m i none h k x e = cc e
chosen_minimum m i (some s) h k x e =
    let same : s ≡ x = cc e in
    subst (λ (r : ComponentRelease). Parses r.min_agent_hub_version)
      (sym h.0 ∙ ap (λ (y : Selection). y.release) same) k

finish-IsResolved :
    (parse_url : Text → Option Url) (m : Manifest) (i : Installed)
    (pua agent_hub : Resolved (Option Selection))
    → IsChoice m.pua i.pua_version i pua
    → IsChoice m.agent_hub i.agent_hub_version i agent_hub
    → Parses m.agent_hub.version
    → Parses i.agent_hub_version
    → Parses m.pua.min_agent_hub_version
    → IsResolved parse_url m i (do
      p ← pua
      a ← agent_hub
      text ← check_minimum p (target_version a i)
      ok (plan_of i p a text))
finish-IsResolved parse_url m i (err e) agent_hub h k v c n = rw h.0 (inl h.1)
finish-IsResolved parse_url m i (ok p) (err e) h k v c n = rw k.0 (inr k.1)
finish-IsResolved parse_url m i (ok p) panic h k v c n = elim k [ ]
finish-IsResolved parse_url m i panic agent_hub h k v c n = elim h [ ]
finish-IsResolved parse_url m i (ok p) (ok a) h k v c n =
    let (text, e) =
      check_minimum-total p (target_version a i) (chosen_minimum m i p h n)
        (target_version-Parses m i a k v c) in
    rw e (plan_of-IsPlan m i p a text h k)

resolve_versions-IsResolved :
    (parse_url : Text → Option Url) (m : Manifest) (i : Installed) (pua agent_hub : Version)
    → parse_version i.pua_version ≡ some pua
    → parse_version i.agent_hub_version ≡ some agent_hub
    → Parses m.pua.version
    → Parses m.agent_hub.version
    → Parses m.pua.min_agent_hub_version
    → IsResolved parse_url m i (resolve_versions m i pua agent_hub)
unfolding resolve_versions must_parse
resolve_versions-IsResolved parse_url m i pua agent_hub h k (v, a) (w, b) n =
    rw (a, b)
      (finish-IsResolved parse_url m i _ _
        (select_newer-IsChoice m.pua i.pua_version i v pua _ refl a h)
        (select_newer-IsChoice m.agent_hub i.agent_hub_version i w agent_hub _ refl b k) (w, b)
        (agent_hub, k) n)

-- Resolve never panics in MustParse, whatever the manifest and the versions installed. An error says
-- that the manifest does not validate, that an installed version does not parse, or that a release
-- has no asset for the platform. A plan selects just those releases of the manifest that are newer
-- than the ones installed, each with an asset for the platform; an update of the app is required
-- exactly where the protocol installed is lower than the one required, no selected release asks for
-- a higher protocol than the greater of the two, and the one required is that of a selected release
-- or 0.
pub resolve-IsResolved :
    (parse_url : Text → Option Url) (m : Manifest) (i : Installed)
    → IsResolved parse_url m i (resolve parse_url m i)
unfolding resolve
resolve-IsResolved parse_url m i = elim (Option-cases (validate parse_url m)) [
  | inr (e, v) ↦ rw (v, resolve) v
  | inl v ↦ elim (Option-cases (parse_version i.pua_version)) [
    | inl p ↦ rw (v, p, resolve) p
    | inr (pua, p) ↦ elim (Option-cases (parse_version i.agent_hub_version)) [
      | inl a ↦ rw (v, p, a, resolve) a
      | inr (agent_hub, a) ↦
          let (x, y, z) = validate-Parses parse_url m v in
          rw (v, p, a, resolve) (resolve_versions-IsResolved parse_url m i pua agent_hub p a x y z)
    ]
  ]
]
