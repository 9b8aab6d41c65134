-- ===== src/MailStore/Entries.antt =====
-- The entries of a map by keys, and what a later entry replaces.
use pua.Prelude.{
  false, ◌≡◌, refl, sym, ap, ◌∙◌, subst, ◌⊎◌, inl, inr, Bool-cases, List, [], ◌∷◌, ◌++◌, Text,
  text_eq, text_eq_iff, is_blank, trim_space, if◌then◌else◌, if_cases, arith,
}
use pua.MailStore.Maps.{In, here, there, put, by_key, has_key}
use pua.MailStore.Members.{In-cons, Unique, text_eq_sym}

module _ {ℓ} {A : Type ℓ} (key : A → Text) where
  pub has_key-put :
      (k : Text) (x : A) (ys : List A) → has_key key k (put key x ys) ≡ has_key key k (x ∷ ys)
  unfolding put has_key
  has_key-put k x [] = refl
  has_key-put k x (y ∷ ys) = elim (Bool-cases (text_eq (key y) (key x))) [
    | inl e ↦ rw (e, (text_eq_iff (key y) (key x)).0 e) (ground arith)
    | inr e ↦ rw (e, has_key-put k x ys) (ground arith)
  ]

  pub Unique-put : (x : A) (ys : List A) → Unique key ys → Unique key (put key x ys)
  unfolding put has_key
  Unique-put x [] h = (refl, tt)
  Unique-put x (y ∷ ys) (h, k) = elim (Bool-cases (text_eq (key y) (key x))) [
    | inl e ↦ rw e (subst (λ t. has_key key t ys ≡ false) ((text_eq_iff (key y) (key x)).0 e) h, k)
    | inr e ↦ rw e (
      has_key-put (key y) x ys ∙ rw (text_eq_sym (key x) (key y)) (ground (arith, h, e)),
      Unique-put x ys k,
    )
  ]

  pub In-put_self : (x : A) (ys : List A) → In x (put key x ys)
  unfolding put
  In-put_self x [] = here x [] refl
  In-put_self x (y ∷ ys) =
      if_cases (In x) (text_eq (key y) (key x)) (here x ys refl) (there y _ (In-put_self x ys))

  pub In-put_other :
      (x : A) {z : A} {ys : List A}
      → In z ys
      → text_eq (key z) (key x) ≡ false
      → In z (put key x ys)
  unfolding put
  In-put_other x {z} (here y ys e) h =
      rw (ap (λ u. text_eq (key u) (key x)) (sym e) ∙ h) (here y (put key x ys) e)
  In-put_other x {z} (there y ys i) h =
      if_cases (In z) (text_eq (key y) (key x)) (there x ys i) (there y _ (In-put_other x i h))

  pub put-In : (x : A) {z : A} (ys : List A) → In z (put key x ys) → (z ≡ x) ⊎ In z ys
  unfolding put
  put-In x [] i = In-cons i
  put-In x {z} (y ∷ ys) i = elim (Bool-cases (text_eq (key y) (key x))) [
    | inl e ↦ elim (In-cons (subst (λ b. In z (if b then x ∷ ys else y ∷ put key x ys)) e i)) [
      | inl f ↦ inl f
      | inr j ↦ inr (there y ys j)
    ]
    | inr e ↦ elim (In-cons (subst (λ b. In z (if b then x ∷ ys else y ∷ put key x ys)) e i)) [
      | inl f ↦ inr (here y ys f)
      | inr j ↦ elim (put-In x ys j) [ inl f ↦ inl f | inr l ↦ inr (there y ys l) ]
    ]
  ]

  pub Unique-by_key : (acc xs : List A) → Unique key acc → Unique key (by_key key acc xs)
  unfolding by_key
  Unique-by_key acc [] h = h
  Unique-by_key acc (x ∷ xs) h =
      Unique-by_key (if is_blank (trim_space (key x)) then acc else put key x acc) xs
        (if_cases (Unique key) (is_blank (trim_space (key x))) h (Unique-put x acc h))

  pub by_key-append :
      (acc xs ys : List A) → by_key key acc (xs ++ ys) ≡ by_key key (by_key key acc xs) ys
  unfolding by_key
  by_key-append acc [] ys = refl
  by_key-append acc (x ∷ xs) ys =
      by_key-append (if is_blank (trim_space (key x)) then acc else put key x acc) xs ys

  -- An entry of the map stays where no later one has its key.
  by_key-keeps :
      {z : A} (acc xs : List A)
      → In z acc
      → has_key key (key z) xs ≡ false
      → In z (by_key key acc xs)
  unfolding by_key has_key
  by_key-keeps acc [] i h = i
  by_key-keeps {z} acc (x ∷ xs) i h =
      by_key-keeps (if is_blank (trim_space (key x)) then acc else put key x acc) xs
        (if_cases (In z) (is_blank (trim_space (key x))) i
          (In-put_other x i (text_eq_sym (key z) (key x) ∙ ground (arith, h))))
        (ground (arith, h))

  -- The last entry of its key is in the map.
  pub In-by_key :
      {x : A} (acc : List A) {xs : List A}
      → In x xs
      → Unique key xs
      → is_blank (trim_space (key x)) ≡ false
      → In x (by_key key acc xs)
  unfolding by_key
  In-by_key {x} acc (here y ys e) (h, u) b =
      by_key-keeps _ ys
        (rw (ap (λ z. is_blank (trim_space (key z))) (sym e) ∙ b)
          (subst (λ z. In z (put key y acc)) (sym e) (In-put_self y acc)))
        (subst (λ z. has_key key (key z) ys ≡ false) (sym e) h)
  In-by_key acc (there y ys i) (h, u) b =
      In-by_key (if is_blank (trim_space (key y)) then acc else put key y acc) i u b

  -- What is in the map was put there, and its key is not blank.
  pub by_key-In :
      {z : A} (acc xs : List A)
      → In z (by_key key acc xs)
      → In z acc ⊎ (In z xs × (is_blank (trim_space (key z)) ≡ false))
  unfolding by_key
  by_key-In acc [] i = inl i
  by_key-In {z} acc (x ∷ xs) i =
      elim (by_key-In (if is_blank (trim_space (key x)) then acc else put key x acc) xs i) [
        | inl j ↦ elim (Bool-cases (is_blank (trim_space (key x)))) [
          | inl e ↦ inl (subst (λ b. In z (if b then acc else put key x acc)) e j)
          | inr e ↦ elim (put-In x acc (subst (λ b. In z (if b then acc else put key x acc)) e j)) [
            | inl f ↦ inr (here x xs f, ap (λ u. is_blank (trim_space (key u))) f ∙ e)
            | inr l ↦ inl l
          ]
        ]
        | inr (j, b) ↦ inr (there x xs j, b)
      ]
