-- ===== src/MailStore/Mapped.antt =====
-- The entries of a mapped list and their keys.
use pua.Prelude.{◌≡◌, refl, ap, ◌∙◌, inl, inr, List, [], ◌∷◌, map, Text}
use pua.MailStore.Maps.{In, here, there, has_key}
use pua.MailStore.Members.{In-cons, Unique}

module _ {ℓ κ} {A : Type ℓ} {B : Type κ} (f : A → B) where
  pub In-map : {x : A} {xs : List A} → In x xs → In (f x) (map f xs)
  In-map (here y ys e) = here (f y) (map f ys) (ap f e)
  In-map (there y ys i) = there (f y) (map f ys) (In-map i)

  pub map-In : {y : B} (xs : List A) → In y (map f xs) → (x : A) × In x xs × (y ≡ f x)
  map-In [] i = absurd (elim i [ ])
  map-In (x ∷ xs) i = elim (In-cons i) [
    | inl e ↦ (x, here x xs refl, e)
    | inr j ↦ let (z, k, e) = map-In xs j in (z, there x xs k, e)
  ]

  module _ (from : A → Text) (to : B → Text) (same : (x : A) → to (f x) ≡ from x) where
    pub has_key-map : (k : Text) (xs : List A) → has_key to k (map f xs) ≡ has_key from k xs
    unfolding has_key
    has_key-map k [] = refl
    has_key-map k (x ∷ xs) = rw (same x, has_key-map k xs) refl

    pub Unique-map : (xs : List A) → Unique from xs → Unique to (map f xs)
    Unique-map [] u = tt
    Unique-map (x ∷ xs) (h, u) = (rw (same x) (has_key-map (from x) xs ∙ h), Unique-map xs u)
