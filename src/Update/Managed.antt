-- ===== src/Update/Managed.antt =====
-- The plan that Resolve makes of the releases selected (internal/update/plan.go).
use pua.Prelude.{
  ℕ, ◌≤◌, ◌≡◌, ◌≢◌, refl, sym, ◌∙◌, subst, ◌⊎◌, inl, inr, Bool-cases, false, Option, none, some,
  arith, Text, ltb,
}
use pua.Version.Parse.{Version, parse_version}
use pua.Version.Compare.{greater, compare_versions}
use pua.Update.Manifest.{ComponentRelease, Manifest}
use pua.Update.Resolve.{Installed, Selection, Plan, require_manager, plan_of}

-- Both versions parse, and the first comes after the second.
abbrev pub IsNewer : Text → Text → Type 0
IsNewer s t =
    (v : Version) × (c : Version) × (parse_version s ≡ some v)
    × (parse_version t ≡ some c)
    × (compare_versions v c ≡ greater)

-- Both versions parse, and the first does not come after the second.
abbrev pub NotNewer : Text → Text → Type 0
NotNewer s t =
    (v : Version) × (c : Version) × (parse_version s ≡ some v)
    × (parse_version t ≡ some c)
    × (compare_versions v c ≢ greater)

-- A release that is selected is the manifest's, is newer than the version installed, and comes with
-- an asset for the platform; none is selected where the manifest's is not newer.
abbrev pub IsChosen : ComponentRelease → Text → Installed → Option Selection → Type 0
IsChosen r current i none = NotNewer r.version current
IsChosen r current i (some s) =
    (s.release ≡ r) × (s.asset.os ≡ i.os) × (s.asset.arch ≡ i.arch) × IsNewer r.version current

-- The protocol of the manager that a selected release asks for is that of the one installed, or the
-- one that the plan requires.
abbrev pub IsManaged : Installed → ℕ → Option Selection → Type 0
IsManaged i required none = Unit
IsManaged i required (some s) =
    (s.release.min_desktop_manager_protocol ≤ i.manager_protocol)
    ⊎ (s.release.min_desktop_manager_protocol ≤ required)

-- The protocol is that of a selected release.
abbrev pub IsAsked : ℕ → Option Selection → Type 0
IsAsked n none = ⊥
IsAsked n (some s) = s.release.min_desktop_manager_protocol ≡ n

pub record IsPlan (m : Manifest) (i : Installed) (p : Plan) : Type 0 where
  pub pua : IsChosen m.pua i.pua_version i p.pua
  pub agent_hub : IsChosen m.agent_hub i.agent_hub_version i p.agent_hub
  pub managed : IsManaged i p.required_manager p.pua × IsManaged i p.required_manager p.agent_hub
  pub asked :
      (p.required_manager ≡ 0)
      ⊎ IsAsked p.required_manager p.pua
      ⊎ IsAsked p.required_manager p.agent_hub
  pub update : p.app_update_required ≡ ltb i.manager_protocol p.required_manager

require_manager-choices :
    (i : Installed) (s : Option Selection) (p : Plan)
    → ((require_manager i s p).pua ≡ p.pua) × ((require_manager i s p).agent_hub ≡ p.agent_hub)
unfolding require_manager
require_manager-choices i none p = (refl, refl)
require_manager-choices i (some s) p = ground arith

require_manager-update :
    (i : Installed) (s : Option Selection) (p : Plan)
    → p.app_update_required ≡ ltb i.manager_protocol p.required_manager
    → (require_manager i s p).app_update_required
      ≡ ltb i.manager_protocol (require_manager i s p).required_manager
unfolding require_manager
require_manager-update i none p h = h
require_manager-update i (some s) p h = ground (arith, h)

require_manager-grows :
    (i : Installed) (s : Option Selection) (p : Plan)
    → p.required_manager ≤ (require_manager i s p).required_manager
unfolding require_manager
require_manager-grows i none p = omega arith
require_manager-grows i (some s) p = ground arith

require_manager-IsManaged :
    (i : Installed) (s : Option Selection) (p : Plan)
    → IsManaged i (require_manager i s p).required_manager s
unfolding require_manager
require_manager-IsManaged i none p = tt
require_manager-IsManaged i (some s) p = ground arith

-- What is required afterwards is what was required before, or what the release asks for.
require_manager-IsAsked :
    (i : Installed) (s : Option Selection) (p : Plan)
    → ((require_manager i s p).required_manager ≡ p.required_manager)
      ⊎ IsAsked (require_manager i s p).required_manager s
unfolding require_manager
require_manager-IsAsked i none p = inl refl
require_manager-IsAsked i (some s) p =
    elim (Bool-cases (ltb i.manager_protocol s.release.min_desktop_manager_protocol)) [
      | inr e ↦ rw e (inl refl)
      | inl e ↦
          rw e (elim (Bool-cases (ltb p.required_manager s.release.min_desktop_manager_protocol)) [
            | inl f ↦ rw f (inr refl)
            | inr f ↦ rw f (inl refl)
          ])
    ]

IsManaged-grows :
    (i : Installed) (n k : ℕ) (s : Option Selection) → n ≤ k → IsManaged i n s → IsManaged i k s
IsManaged-grows i n k none le h = tt
IsManaged-grows i n k (some s) le h = ground arith

-- The loop over the selected releases.
pub plan_of-IsPlan :
    (m : Manifest) (i : Installed) (pua agent_hub : Option Selection) (text : Text)
    → IsChosen m.pua i.pua_version i pua
    → IsChosen m.agent_hub i.agent_hub_version i agent_hub
    → IsPlan m i (plan_of i pua agent_hub text)
plan_of-IsPlan m i pua agent_hub text h k =
    let start : Plan = record {
      pua = pua;
      agent_hub = agent_hub;
      app_update_required = false;
      required_manager = 0;
      compatibility_error = text;
    } in
    let first = require_manager i pua start in
    let (p1, a1) = require_manager-choices i pua start in
    let (p2, a2) = require_manager-choices i agent_hub first in
    record {
      pua = subst (IsChosen m.pua i.pua_version i) (sym (p2 ∙ p1)) h;
      agent_hub = subst (IsChosen m.agent_hub i.agent_hub_version i) (sym (a2 ∙ a1)) k;
      managed = (
        subst (IsManaged i (require_manager i agent_hub first).required_manager) (sym (p2 ∙ p1)) (
            IsManaged-grows i _ _ pua (require_manager-grows i agent_hub first)
              (require_manager-IsManaged i pua start)),
        subst (IsManaged i (require_manager i agent_hub first).required_manager) (sym (a2 ∙ a1))
            (require_manager-IsManaged i agent_hub first),
      );
      asked = elim (require_manager-IsAsked i agent_hub first) [
        | inr a ↦ inr (
            inr (
              subst (IsAsked (require_manager i agent_hub first).required_manager) (sym (a2 ∙ a1))
                a))
        | inl e ↦ elim (require_manager-IsAsked i pua start) [
          | inl f ↦ inl (e ∙ f)
          | inr a ↦ inr (
              inl (
                subst (λ n. IsAsked n (require_manager i agent_hub first).pua) (sym e)
                  (subst (IsAsked first.required_manager) (sym (p2 ∙ p1)) a)))
        ]
      ];
      update =
          require_manager-update i agent_hub first
            (require_manager-update i pua start (ground arith));
    }
