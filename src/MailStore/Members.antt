-- ===== src/MailStore/Members.antt =====
-- The entries of maps, of sorted lists and of selections, and the keys that they have.
use pua.Prelude.{
  ◌+◌, Bool, true, false, ◌≡◌, refl, sym, ap, ◌∙◌, subst, ◌⊎◌, inl, inr, Bool-cases, List, [], ◌∷◌,
  ◌++◌, length, Text, text_eq, text_eq_iff, text_eq_refl, if◌then◌else◌, if_cases, arith,
}
use pua.MailStore.Maps.{In, here, there, insert, sort, select, has_key}

pub text_eq_sym : (s t : Text) → text_eq s t ≡ text_eq t s
text_eq_sym s t = ground (arith, text_eq_iff s t, text_eq_iff t s)

module _ {ℓ} {A : Type ℓ} where
  pub In-append_left : {x : A} {xs : List A} (ys : List A) → In x xs → In x (xs ++ ys)
  In-append_left ys (here y zs e) = here y (zs ++ ys) e
  In-append_left ys (there y zs h) = there y (zs ++ ys) (In-append_left ys h)

  pub In-append_right : {x : A} (xs : List A) {ys : List A} → In x ys → In x (xs ++ ys)
  In-append_right [] h = h
  In-append_right (y ∷ xs) h = there y _ (In-append_right xs h)

  pub In-select : (p : A → Bool) {x : A} {xs : List A} → In x xs → p x ≡ true → In x (select p xs)
  unfolding select
  In-select p {x} (here y ys e) h = rw (ap p (sym e) ∙ h) (here y (select p ys) e)
  In-select p (there y ys i) h =
      if_cases (In _) (p y) (there y (select p ys) (In-select p i h)) (In-select p i h)

  pub In-cons : {x y : A} {ys : List A} → In x (y ∷ ys) → (x ≡ y) ⊎ In x ys
  In-cons (here y ys e) = inl e
  In-cons (there y ys i) = inr i

  pub select-In : (p : A → Bool) {x : A} (xs : List A) → In x (select p xs) → In x xs × (p x ≡ true)
  unfolding select
  select-In p [] h = absurd (elim h [ ])
  select-In p {x} (y ∷ xs) h = elim (Bool-cases (p y)) [
    | inl e ↦ elim (In-cons (subst (λ b. In x (if b then y ∷ select p xs else select p xs)) e h)) [
      | inl f ↦ (here y xs f, ap p f ∙ e)
      | inr i ↦ let r = select-In p xs i in (there y xs r.0, r.1)
    ]
    | inr e ↦
        let r =
          select-In p xs (subst (λ b. In x (if b then y ∷ select p xs else select p xs)) e h) in
        (there y xs r.0, r.1)
  ]

  pub select-append :
      (p : A → Bool) (xs ys : List A) → select p (xs ++ ys) ≡ select p xs ++ select p ys
  unfolding select
  select-append p [] ys = refl
  select-append p (x ∷ xs) ys = elim (Bool-cases (p x)) [
    | inl e ↦ rw e (ap (λ l. x ∷ l) (select-append p xs ys))
    | inr e ↦ rw e (select-append p xs ys)
  ]

  module _ (before : A → A → Bool) where
    In-insert_self : (x : A) (ys : List A) → In x (insert before x ys)
    unfolding insert
    In-insert_self x [] = here x [] refl
    In-insert_self x (y ∷ ys) =
        if_cases (In x) (before y x) (there y _ (In-insert_self x ys)) (here x (y ∷ ys) refl)

    In-insert : (x : A) {z : A} {ys : List A} → In z ys → In z (insert before x ys)
    unfolding insert
    In-insert x {z} (here y ys e) =
        if_cases (In z) (before y x) (here y (insert before x ys) e)
          (there x (y ∷ ys) (here y ys e))
    In-insert x {z} (there y ys i) =
        if_cases (In z) (before y x) (there y _ (In-insert x i)) (there x (y ∷ ys) (there y ys i))

    pub In-sort : {x : A} {xs : List A} → In x xs → In x (sort before xs)
    unfolding sort
    In-sort {x} (here y ys e) =
        subst (λ z. In z (insert before y (sort before ys))) (sym e)
          (In-insert_self y (sort before ys))
    In-sort (there y ys i) = In-insert y (In-sort i)

    insert-In : (x : A) {z : A} (ys : List A) → In z (insert before x ys) → (z ≡ x) ⊎ In z ys
    unfolding insert
    insert-In x [] i = In-cons i
    insert-In x {z} (y ∷ ys) i = elim (Bool-cases (before y x)) [
      | inl e ↦
          elim (In-cons
            (subst (λ b. In z (if b then y ∷ insert before x ys else x ∷ y ∷ ys)) e i)) [
              | inl f ↦ inr (here y ys f)
              | inr j ↦ elim (insert-In x ys j) [ inl f ↦ inl f | inr k ↦ inr (there y ys k) ]
            ]
      | inr e ↦ In-cons (subst (λ b. In z (if b then y ∷ insert before x ys else x ∷ y ∷ ys)) e i)
    ]

    pub sort-In : {z : A} (xs : List A) → In z (sort before xs) → In z xs
    unfolding sort
    sort-In [] i = i
    sort-In (x ∷ xs) i = elim (insert-In x (sort before xs) i) [
      | inl e ↦ here x xs e
      | inr j ↦ there x xs (sort-In xs j)
    ]

    length-insert : (x : A) (ys : List A) → length (insert before x ys) ≡ length ys + 1
    unfolding insert
    length-insert x [] = omega arith
    length-insert x (y ∷ ys) = elim (Bool-cases (before y x)) [
      | inl e ↦ rw e (omega (arith, length-insert x ys))
      | inr e ↦ rw e (omega arith)
    ]

    pub length-sort : (xs : List A) → length (sort before xs) ≡ length xs
    unfolding sort
    length-sort [] = refl
    length-sort (x ∷ xs) = omega (arith, length-insert x (sort before xs), length-sort xs)

    module _ (key : A → Text) where
      has_key-insert :
          (k : Text) (x : A) (ys : List A)
          → has_key key k (insert before x ys) ≡ has_key key k (x ∷ ys)
      unfolding insert has_key
      has_key-insert k x [] = refl
      has_key-insert k x (y ∷ ys) = elim (Bool-cases (before y x)) [
        | inl e ↦ rw (e, has_key-insert k x ys) (ground arith)
        | inr e ↦ rw e refl
      ]

      pub has_key-sort :
          (k : Text) (xs : List A) → has_key key k (sort before xs) ≡ has_key key k xs
      unfolding sort has_key
      has_key-sort k [] = refl
      has_key-sort k (x ∷ xs) =
          has_key-insert k x (sort before xs)
          ∙ ap (λ b. if text_eq (key x) k then true else b) (has_key-sort k xs)

  module _ (key : A → Text) where
    -- No two entries have the same key.
    abbrev pub Unique : List A → Type 0
    Unique [] = Unit
    Unique (x ∷ xs) = (has_key key (key x) xs ≡ false) × Unique xs

    pub has_key-In : {x : A} {xs : List A} → In x xs → has_key key (key x) xs ≡ true
    unfolding has_key
    has_key-In {x} (here y ys e) =
        rw (ap (λ z. text_eq (key z) (key x)) (sym e) ∙ text_eq_refl (key x)) refl
    has_key-In (there y ys i) = rw (has_key-In i) (ground arith)

    pub has_key-append :
        (k : Text) (xs ys : List A)
        → has_key key k xs ≡ false
        → has_key key k ys ≡ false
        → has_key key k (xs ++ ys) ≡ false
    unfolding has_key
    has_key-append k [] ys a b = b
    has_key-append k (x ∷ xs) ys a b = ground (arith, has_key-append k xs ys)

    -- Where a selection has a key so has the list.
    pub has_key-select :
        (p : A → Bool) (k : Text) (xs : List A)
        → has_key key k xs ≡ false
        → has_key key k (select p xs) ≡ false
    unfolding has_key select
    has_key-select p k [] h = refl
    has_key-select p k (x ∷ xs) h = ground (arith, has_key-select p k xs)

    pub Unique-select : (p : A → Bool) (xs : List A) → Unique xs → Unique (select p xs)
    unfolding select
    Unique-select p [] h = tt
    Unique-select p (x ∷ xs) (h, k) =
        if_cases Unique (p x) (has_key-select p (key x) xs h, Unique-select p xs k)
          (Unique-select p xs k)

    Unique-insert :
        (before : A → A → Bool) (x : A) (ys : List A)
        → has_key key (key x) ys ≡ false
        → Unique ys
        → Unique (insert before x ys)
    unfolding insert has_key
    Unique-insert before x [] h k = (refl, tt)
    Unique-insert before x (y ∷ ys) h (a, k) = elim (Bool-cases (before y x)) [
      | inl e ↦ rw e (
        (has_key-insert before key (key y) x ys
            ∙ rw (text_eq_sym (key x) (key y)) (ground (arith, h, a))),
        Unique-insert before x ys (ground (arith, h)) k,
      )
      | inr e ↦ rw e (h, (a, k))
    ]

    pub Unique-sort : (before : A → A → Bool) (xs : List A) → Unique xs → Unique (sort before xs)
    unfolding sort
    Unique-sort before [] h = tt
    Unique-sort before (x ∷ xs) (h, k) =
        Unique-insert before x (sort before xs) (has_key-sort before key (key x) xs ∙ h)
          (Unique-sort before xs k)

    -- Two entries of one key are the same.
    pub Unique-eq : {x y : A} (xs : List A) → Unique xs → In x xs → In y xs → key x ≡ key y → x ≡ y
    Unique-eq [] u i j e = absurd (elim i [ ])
    Unique-eq {x} {y} (z ∷ xs) (h, u) i j e = elim (In-cons i) [
      | inl a ↦ elim (In-cons j) [ inl b ↦ a ∙ sym b | inr b ↦ absurd (cc (has_key-In b, h, a, e)) ]
      | inr a ↦ elim (In-cons j) [
        | inl b ↦ absurd (cc (has_key-In a, h, b, e))
        | inr b ↦ Unique-eq xs u a b e
      ]
    ]
