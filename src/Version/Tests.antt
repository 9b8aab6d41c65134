-- ===== src/Version/Tests.antt =====
-- The theorems on versions at some versions.
use pua.Prelude.{◌≡◌, refl, inl, inr, ◌↔◌, some, true, false, Text, txt, trim_space, [], ◌∷◌}
use pua.Version.Parse.{
  Version, parse_version, parse_trimmed, split_first, split, core_parts, prerelease_part,
  parse_core, parse_prerelease, parse_metadata, parse_numeric, parse_uint, decimal,
  parse_identifiers, parse_parts, identify, is_part, is_numeric,
}
use pua.Version.Compare.{same, compare_versions}
use pua.Version.Texts.{IsWritten}
use pua.Version.Grammar.{parse_version-IsWritten}
use pua.Version.Order.{flip, SamePrecedence, compare_versions-flip, compare_versions-same}

abbrev release : Text → Version
release pre = record {
  major = 1;
  minor = 2;
  patch = 3;
  prerelease = record { value = pre; numeric = false } ∷ [];
  metadata = [];
  original = [];
}

compare_versions-flip_example :
    compare_versions (release (txt "beta")) (release (txt "alpha"))
    ≡ flip (compare_versions (release (txt "alpha")) (release (txt "beta")))
compare_versions-flip_example =
    compare_versions-flip (release (txt "alpha")) (release (txt "beta")) (inr (inl refl), tt)

compare_versions-same_example :
    (compare_versions (release (txt "alpha")) (release (txt "alpha")) ≡ same)
    ↔ SamePrecedence (release (txt "alpha")) (release (txt "alpha"))
compare_versions-same_example =
    compare_versions-same (release (txt "alpha")) (release (txt "alpha"))

abbrev parsed : Version
parsed = record {
  major = 1;
  minor = 20;
  patch = 3;
  prerelease =
      record { value = txt "rc"; numeric = false }
      ∷ record { value = txt "7"; numeric = true }
      ∷ [];
  metadata = txt "dirty" ∷ [];
  original = txt "1.20.3-rc.7+dirty";
}

parses : parse_version (txt " 1.20.3-rc.7+dirty") ≡ some parsed
unfolding parse_version parse_trimmed split_first split core_parts prerelease_part parse_core
    parse_prerelease parse_metadata parse_numeric parse_uint decimal parse_identifiers parse_parts
    identify is_part is_numeric trim_space
parses = refl

parse_version-IsWritten_example : IsWritten (trim_space (txt " 1.20.3-rc.7+dirty")) parsed
parse_version-IsWritten_example = parse_version-IsWritten (txt " 1.20.3-rc.7+dirty") parses
