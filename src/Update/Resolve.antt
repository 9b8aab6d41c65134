-- ===== src/Update/Resolve.antt =====
-- Resolve of internal/update/plan.go. The panic of productversion.MustParse is a result of its own.
use pua.Prelude.{ℕ, Bool, true, false, Option, none, some, [], ◌++◌, Text, txt, ltb, if◌then◌else◌}
use pua.Version.Parse.{Version, parse_version}
use pua.Version.Compare.{Sign, less, greater, compare_versions}
use pua.Update.Manifest.{Asset, ComponentRelease, Manifest, ManifestError, Url, validate, asset_for}

pub data ResolveError : Type 0 where
  bad_manifest : ManifestError → ResolveError
  bad_pua bad_agent_hub no_asset : ResolveError

pub data Resolved {ℓ} (A : Type ℓ) : Type ℓ where
  ok : A → Resolved A
  err : ResolveError → Resolved A
  panic : Resolved A

infixl 5 ◌>>=◌
abbrev pub ◌>>=◌ {ℓ κ} : {A : Type ℓ} {B : Type κ} → Resolved A → (A → Resolved B) → Resolved B
ok a >>= f = f a
err e >>= f = err e
panic >>= f = panic

pub record Installed : Type 0 where
  pub pua_version : Text
  pub agent_hub_version : Text
  pub manager_protocol : ℕ
  pub os : Text
  pub arch : Text

pub record Selection : Type 0 where
  pub release : ComponentRelease
  pub asset : Asset

pub record Plan : Type 0 where
  pub pua : Option Selection
  pub agent_hub : Option Selection
  pub app_update_required : Bool
  pub required_manager : ℕ
  pub compatibility_error : Text

abbrev pub or_error {ℓ} : {A : Type ℓ} → ResolveError → Option A → Resolved A
or_error e none = err e
or_error e (some a) = ok a

abbrev or_panic {ℓ} : {A : Type ℓ} → Option A → Resolved A
or_panic none = panic
or_panic (some a) = ok a

unfoldable pub must_parse : Text → Resolved Version
must_parse s = or_panic (parse_version s)

unfoldable pub select_release : ComponentRelease → Installed → Resolved Selection
unfolding asset_for
select_release r i = do
  asset ← or_error no_asset (asset_for r.assets i.os i.arch)
  ok (record { release = r; asset = asset })

-- The release, where its version is newer than the one installed.
unfoldable pub select_newer : Sign → ComponentRelease → Installed → Resolved (Option Selection)
unfolding select_release
select_newer greater r i = do selection ← select_release r i; ok (some selection)
select_newer _ r i = ok none

abbrev pub target_version : Option Selection → Installed → Text
target_version none i = i.agent_hub_version
target_version (some s) i = s.release.version

-- The text for a target that is older than the minimum.
abbrev pub too_old : Sign → ComponentRelease → Text → Text
too_old less r target =
    txt "PUA "
    ++ (r.version
        ++ (txt " requires AgentHub "
            ++ (r.min_agent_hub_version ++ (txt " or newer, but channel offers " ++ target))))
too_old _ r target = []

unfoldable pub check_minimum : Option Selection → Text → Resolved Text
unfolding must_parse compare_versions
check_minimum none target = ok []
check_minimum (some s) target = do
  minimum ← must_parse s.release.min_agent_hub_version
  version ← must_parse target
  ok (too_old (compare_versions version minimum) s.release target)

-- One round of the loop over the selected releases.
unfoldable pub require_manager : Installed → Option Selection → Plan → Plan
require_manager i none p = p
require_manager i (some s) p =
    if ltb i.manager_protocol s.release.min_desktop_manager_protocol
    then record p {
      app_update_required = true;
      required_manager =
          if ltb p.required_manager s.release.min_desktop_manager_protocol
          then s.release.min_desktop_manager_protocol
          else p.required_manager;
    }
    else p

abbrev pub plan_of : Installed → Option Selection → Option Selection → Text → Plan
plan_of i pua agent_hub compatibility = require_manager i agent_hub (
    require_manager i pua (record {
      pua = pua;
      agent_hub = agent_hub;
      app_update_required = false;
      required_manager = 0;
      compatibility_error = compatibility;
    }))

-- Resolve after the checks of the manifest and of the versions installed.
unfoldable pub resolve_versions : Manifest → Installed → Version → Version → Resolved Plan
unfolding must_parse compare_versions select_newer check_minimum require_manager
resolve_versions m i current_pua current_agent_hub = do
  latest_pua ← must_parse m.pua.version
  latest_agent_hub ← must_parse m.agent_hub.version
  pua ← select_newer (compare_versions latest_pua current_pua) m.pua i
  agent_hub ← select_newer (compare_versions latest_agent_hub current_agent_hub) m.agent_hub i
  compatibility ← check_minimum pua (target_version agent_hub i)
  ok (plan_of i pua agent_hub compatibility)

abbrev pub accept : Option ManifestError → Resolved Bool
accept none = ok true
accept (some e) = err (bad_manifest e)

unfoldable pub resolve : (Text → Option Url) → Manifest → Installed → Resolved Plan
unfolding validate resolve_versions
resolve parse_url m i = do
  checked ← accept (validate parse_url m)
  current_pua ← or_error bad_pua (parse_version i.pua_version)
  current_agent_hub ← or_error bad_agent_hub (parse_version i.agent_hub_version)
  resolve_versions m i current_pua current_agent_hub
