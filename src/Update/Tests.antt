-- ===== src/Update/Tests.antt =====
-- The theorem on updates at a manifest with a newer release of each component.
use pua.Prelude.{false, Option, some, [], ◌∷◌, Text, txt}
use pua.Update.Manifest.{Asset, ComponentRelease, Manifest, Url}
use pua.Update.Resolve.{Installed, resolve}
use pua.Update.Selected.{IsResolved, resolve-IsResolved}

abbrev asset : Asset
asset = record {
  os = txt "linux";
  arch = txt "amd64";
  url = txt "https://host/asset";
  sha256 = txt "0000000000000000000000000000000000000000000000000000000000000000";
  size = 1;
  signing_team_id = [];
  signing_identifier = [];
  code_identity = [];
}

abbrev release : Text → ComponentRelease
release component = record {
  component = component;
  version = txt "1.2.0";
  commit = txt "c";
  release_notes_url = [];
  min_desktop_manager_protocol = 2;
  api_major = txt "1";
  min_agent_hub_version = txt "1.1.0";
  assets = asset ∷ [];
}

abbrev manifest : Manifest
manifest = record {
  schema_version = 1;
  channel = txt "stable";
  generated_at = some 1;
  pua = release (txt "pua");
  agent_hub = release (txt "agenthub");
}

abbrev installed : Installed
installed = record {
  pua_version = txt "1.1.0";
  agent_hub_version = txt "1.1.0";
  manager_protocol = 1;
  os = txt "linux";
  arch = txt "amd64";
}

abbrev parse_host : Text → Option Url
parse_host text = some (record { scheme = txt "https"; host = txt "host"; has_user = false })

resolve-IsResolved_example :
    IsResolved parse_host manifest installed (resolve parse_host manifest installed)
resolve-IsResolved_example = resolve-IsResolved parse_host manifest installed
