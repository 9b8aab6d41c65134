-- ===== src/MailStore/Maps.antt =====
-- Go maps by a text key, as lists in the order of first insertion, and sort.SliceStable as an
-- insertion sort.
use pua.Prelude.{
  Bool, true, false, ◌≡◌, List, [], ◌∷◌, Text, text_eq, is_blank, trim_space, if◌then◌else◌,
}

-- `x` stands in the list.
pub data In {ℓ} {A : Type ℓ} (x : A) : List A → Type ℓ where
  here : (y : A) (ys : List A) → x ≡ y → In x (y ∷ ys)
  there : (y : A) (ys : List A) → In x ys → In x (y ∷ ys)

module _ {ℓ} {A : Type ℓ} (key : A → Text) where
  -- `byKey[key] = x`.
  unfoldable pub put : A → List A → List A
  put x [] = x ∷ []
  put x (y ∷ ys) = let rest = put x ys in if text_eq (key y) (key x) then x ∷ ys else y ∷ rest

  -- The map of the entries whose key is not blank; a later entry replaces an earlier one.
  unfoldable pub by_key : List A → List A → List A
  unfolding put
  by_key acc [] = acc
  by_key acc (x ∷ xs) = by_key (if is_blank (trim_space (key x)) then acc else put x acc) xs

module _ {ℓ} {A : Type ℓ} (before : A → A → Bool) where
  unfoldable pub insert : A → List A → List A
  insert x [] = x ∷ []
  insert x (y ∷ ys) = let rest = insert x ys in if before y x then y ∷ rest else x ∷ y ∷ ys

  unfoldable pub sort : List A → List A
  unfolding insert
  sort [] = []
  sort (x ∷ xs) = insert x (sort xs)

module _ {ℓ} {A : Type ℓ} where
  -- The entries that pass a test, in their order.
  unfoldable pub select : (A → Bool) → List A → List A
  select p [] = []
  select p (x ∷ xs) = let rest = select p xs in if p x then x ∷ rest else rest

  -- Some entry has the key.
  unfoldable pub has_key : (A → Text) → Text → List A → Bool
  has_key key k [] = false
  has_key key k (x ∷ xs) = let rest = has_key key k xs in if text_eq (key x) k then true else rest
