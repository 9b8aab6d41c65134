-- ===== src/Version/Parse.antt =====
-- Parse of internal/version/semver.go. A text is the list of its characters; an integer of 64 bits
-- is a number below 2 ^ 64.
use pua.Prelude.{
  ℕ, ◌+◌, ◌-◌, ◌*◌, ◌^◌, Bool, true, false, not, ◌&&◌, ◌||◌, Option, none, some, List, [], ◌∷◌,
  Text, is_blank, trim_space, ltb, leb, ◌==◌, if◌then◌else◌, ◌>>=◌,
}

pub record Identifier : Type 0 where
  pub value : Text
  pub numeric : Bool

pub record Version : Type 0 where
  pub major : ℕ
  pub minor : ℕ
  pub patch : ℕ
  pub prerelease : List Identifier
  pub metadata : List Text
  pub original : Text

abbrev pub is_digit : ℕ → Bool
is_digit c = leb 48 c && leb c 57

abbrev pub is_identifier_char : ℕ → Bool
is_identifier_char c = is_digit c || (leb 65 c && leb c 90) || (leb 97 c && leb c 122) || (c == 45)

abbrev pub all_digits : Text → Bool
all_digits [] = true
all_digits (c ∷ s) = is_digit c && all_digits s

abbrev pub all_identifier_chars : Text → Bool
all_identifier_chars [] = true
all_identifier_chars (c ∷ s) = is_identifier_char c && all_identifier_chars s

unfoldable pub is_numeric : Text → Bool
is_numeric s = not (is_blank s) && all_digits s

-- `len(part) > 1 && part[0] == '0'`
abbrev pub has_leading_zero : Text → Bool
has_leading_zero [] = false
has_leading_zero (c ∷ []) = false
has_leading_zero (c ∷ d ∷ s) = c == 48

-- strings.SplitN with the limit 2: what stands before the first separator, and after it.
unfoldable pub split_first : ℕ → Text → Text × Option Text
split_first sep [] = ([], none)
split_first sep (c ∷ s) =
    let (first, rest) = split_first sep s in if c == sep then ([], some s) else (c ∷ first, rest)

abbrev pub push : ℕ → List Text → List Text
push c [] = (c ∷ []) ∷ []
push c (s ∷ ss) = (c ∷ s) ∷ ss

-- strings.Split, which has at least one part.
unfoldable pub split : ℕ → Text → List Text
split sep [] = [] ∷ []
split sep (c ∷ s) = let rest = split sep s in if c == sep then [] ∷ rest else push c rest

-- The number that digits write after the number `n`.
unfoldable pub decimal : ℕ → Text → ℕ
decimal n [] = n
decimal n (c ∷ s) = decimal (n * 10 + (c - 48)) s

-- strconv.ParseUint of digits: `none` is the range error.
unfoldable pub parse_uint : Text → Option ℕ
unfolding decimal
parse_uint s = if ltb (decimal 0 s) (2 ^ 64) then some (decimal 0 s) else none

unfoldable pub parse_numeric : Text → Option ℕ
unfolding is_numeric parse_uint
parse_numeric s = if not (is_numeric s) || has_leading_zero s then none else parse_uint s

-- The checks of one part in parseTextIdentifiers.
unfoldable pub is_part : Bool → Text → Bool
unfolding is_numeric
is_part prerelease s =
    not (is_blank s)
    && all_identifier_chars s
    && not (prerelease && is_numeric s && has_leading_zero s)

abbrev pub all_parts : Bool → List Text → Bool
all_parts prerelease [] = true
all_parts prerelease (s ∷ ss) = is_part prerelease s && all_parts prerelease ss

-- parseTextIdentifiers.
unfoldable pub parse_identifiers : Text → Bool → Option (List Text)
unfolding split is_part
parse_identifiers s prerelease =
    if is_blank s
    then none
    else if all_parts prerelease (split 46 s)
    then some (split 46 s)
    else none

-- The core of a version: exactly three numbers.
unfoldable pub parse_core : List Text → Option (ℕ × ℕ × ℕ)
unfolding parse_numeric
parse_core (a ∷ b ∷ c ∷ []) = do
  major ← parse_numeric a
  minor ← parse_numeric b
  patch ← parse_numeric c
  some (major, minor, patch)
parse_core _ = none

unfoldable pub identify : Text → Identifier
unfolding is_numeric
identify s = record { value = s; numeric = is_numeric s }

-- The loop over the parts of the prerelease.
unfoldable pub parse_parts : List Text → Option (List Identifier)
unfolding identify
parse_parts [] = some []
parse_parts (s ∷ ss) = do
  rest ← parse_parts ss
  if is_numeric s && has_leading_zero s then none else some (identify s ∷ rest)

unfoldable pub parse_prerelease : Option Text → Option (List Identifier)
unfolding parse_identifiers parse_parts
parse_prerelease none = some []
parse_prerelease (some s) = do parts ← parse_identifiers s true; parse_parts parts

unfoldable pub parse_metadata : Option Text → Option (List Text)
unfolding parse_identifiers
parse_metadata none = some []
parse_metadata (some s) = parse_identifiers s false

-- `input == "" || strings.HasPrefix(input, "v")`
abbrev is_refused : Text → Bool
is_refused [] = true
is_refused (c ∷ s) = c == 118

-- The texts between the separators.
unfoldable pub core_parts : Text → List Text
unfolding split_first split
core_parts s = split 46 (split_first 45 (split_first 43 s).0).0

unfoldable pub prerelease_part : Text → Option Text
unfolding split_first
prerelease_part s = (split_first 45 (split_first 43 s).0).1

abbrev pub version_of : Text → List Text → ℕ × ℕ × ℕ → List Identifier → Version
version_of s metadata core prerelease = record {
  major = core.0;
  minor = core.1;
  patch = core.2;
  prerelease = prerelease;
  metadata = metadata;
  original = s;
}

-- Parse after the space around the text is cut off.
unfoldable pub parse_trimmed : Text → Option Version
unfolding split_first core_parts prerelease_part parse_core parse_prerelease parse_metadata
parse_trimmed s = if is_refused s then none else do
  metadata ← parse_metadata (split_first 43 s).1
  core ← parse_core (core_parts s)
  prerelease ← parse_prerelease (prerelease_part s)
  some (version_of s metadata core prerelease)

unfoldable pub parse_version : Text → Option Version
unfolding parse_trimmed
parse_version s = parse_trimmed (trim_space s)
