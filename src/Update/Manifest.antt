-- ===== src/Update/Manifest.antt =====
-- Validate, validateRelease and AssetFor of internal/update/manifest.go. A manifest is what the JSON
-- decoder makes of it; the zero time is `none`, and the URL parser is a parameter.
use pua.Prelude.{
  ℕ, Bool, true, false, not, ◌&&◌, ◌||◌, Option, none, some, List, [], ◌∷◌, ◌++◌, length, Text, txt,
  text_eq, is_blank, trim_space, ltb, leb, ◌==◌, if◌then◌else◌,
}
use pua.Version.Parse.{Version, parse_version}

pub record Asset : Type 0 where
  pub os : Text
  pub arch : Text
  pub url : Text
  pub sha256 : Text
  pub size : ℕ
  pub signing_team_id : Text
  pub signing_identifier : Text
  pub code_identity : Text

pub record ComponentRelease : Type 0 where
  pub component : Text
  pub version : Text
  pub commit : Text
  pub release_notes_url : Text
  pub min_desktop_manager_protocol : ℕ
  pub api_major : Text
  pub min_agent_hub_version : Text
  pub assets : List Asset

pub record Manifest : Type 0 where
  pub schema_version : ℕ
  pub channel : Text
  pub generated_at : Option ℕ
  pub pua : ComponentRelease
  pub agent_hub : ComponentRelease

-- The parts of a parsed URL that the checks read.
pub record Url : Type 0 where
  pub scheme : Text
  pub host : Text
  pub has_user : Bool

pub data ManifestError : Type 0 where
  bad_schema bad_channel no_time bad_label bad_version not_stable incomplete no_assets :
      ManifestError
  bad_asset bad_minimum bad_api : ManifestError

abbrev is_hex_digit : ℕ → Bool
is_hex_digit c = (leb 48 c && leb c 57) || (leb 97 c && leb c 102) || (leb 65 c && leb c 70)

abbrev all_hex : Text → Bool
all_hex [] = true
all_hex (c ∷ s) = is_hex_digit c && all_hex s

-- hex.DecodeString gives the 32 bytes of a SHA-256.
unfoldable pub is_digest : Text → Bool
is_digest s = all_hex s && length s == 64

abbrev pub asset_key : Asset → Text
asset_key a = a.os ++ (47 ∷ a.arch)

abbrev pub seen : Text → List Text → Bool
seen key [] = false
seen key (k ∷ ks) = text_eq key k || seen key ks

abbrev is_missing : Text → Bool
is_missing s = is_blank (trim_space s)

-- The checks of a Darwin asset.
unfoldable pub is_signed : Asset → Bool
is_signed a =
    (not (is_missing a.signing_team_id) && not (is_missing a.signing_identifier)
      || not (is_missing a.code_identity))
    && not (is_missing a.signing_team_id && not (is_missing a.signing_identifier))
    && not (not (is_missing a.signing_team_id) && is_missing a.signing_identifier)

abbrev no_list {ℓ} : {A : Type ℓ} → List A → Bool
no_list [] = true
no_list (x ∷ xs) = false

abbrev pub is_stable_version : Version → Bool
is_stable_version v = no_list v.prerelease && no_list v.metadata

abbrev is_https : Option Url → Bool
is_https none = false
is_https (some u) = text_eq u.scheme (txt "https") && not (is_blank u.host) && not u.has_user

unfoldable pub validate_minimum : Manifest → Option ManifestError
validate_minimum m = elim (parse_version m.pua.min_agent_hub_version) [
  | none ↦ some bad_minimum
  | some v ↦
      if is_blank m.pua.api_major
        || is_blank m.agent_hub.api_major
        || not (text_eq m.pua.api_major m.agent_hub.api_major)
      then some bad_api
      else none
]

abbrev pub or_else : Option ManifestError → Option ManifestError → Option ManifestError
or_else (some e) next = some e
or_else none next = next

abbrev is_channel : Text → Bool
is_channel c = text_eq c (txt "stable") || text_eq c (txt "beta")

abbrev no_date : Option ℕ → Bool
no_date none = true
no_date (some t) = false

module _ (parse_url : Text → Option Url) where
  -- The checks of one asset, but for its key being new.
  unfoldable pub is_asset : Asset → Bool
  unfolding is_signed is_digest
  is_asset a =
      not (is_blank a.os)
      && not (is_blank a.arch)
      && leb 1 a.size
      && (not (text_eq a.os (txt "darwin")) || is_signed a)
      && is_digest a.sha256
      && is_https (parse_url a.url)

  -- The loop over the assets; the keys of those before are `keys`.
  unfoldable pub check_assets : List Text → List Asset → Bool
  unfolding is_asset
  check_assets keys [] = true
  check_assets keys (a ∷ rest) =
      not (seen (asset_key a) keys) && is_asset a && check_assets (asset_key a ∷ keys) rest

  -- The checks that follow the version's.
  unfoldable pub check_release : ComponentRelease → Option ManifestError
  unfolding check_assets
  check_release r =
      if is_missing r.commit || ltb r.min_desktop_manager_protocol 1
      then some incomplete
      else if no_list r.assets
      then some no_assets
      else if check_assets [] r.assets
      then none
      else some bad_asset

  -- validateRelease; `none` is success.
  unfoldable pub validate_release : ComponentRelease → Text → Text → Option ManifestError
  unfolding check_release
  validate_release r component channel =
      if not (text_eq r.component component)
      then some bad_label
      else elim (parse_version r.version) [
        | none ↦ some bad_version
        | some v ↦
            if text_eq channel (txt "stable") && not (is_stable_version v)
            then some not_stable
            else check_release r
      ]

  -- The checks of the two releases and of what they say of one another.
  unfoldable pub validate_releases : Manifest → Option ManifestError
  unfolding validate_release validate_minimum
  validate_releases m =
      or_else (validate_release m.pua (txt "pua") m.channel)
        (or_else (validate_release m.agent_hub (txt "agenthub") m.channel) (validate_minimum m))

  unfoldable pub validate : Manifest → Option ManifestError
  unfolding validate_releases
  validate m =
      if not (m.schema_version == 1)
      then some bad_schema
      else if not (is_channel m.channel)
      then some bad_channel
      else if no_date m.generated_at
      then some no_time
      else validate_releases m

-- AssetFor; `none` is its error.
unfoldable pub asset_for : List Asset → Text → Text → Option Asset
asset_for [] os arch = none
asset_for (a ∷ rest) os arch =
    let found = asset_for rest os arch in
    if text_eq a.os os && text_eq a.arch arch then some a else found
