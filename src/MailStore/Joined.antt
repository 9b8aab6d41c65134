-- ===== src/MailStore/Joined.antt =====
-- Joining notifications: the ids stay unique and no source is lost.
use pua.Prelude.{
  true, false, ◌≡◌, refl, sym, ◌∙◌, subst, inl, inr, Bool-cases, List, [], ◌∷◌, Text, text_eq,
  text_eq_iff, arith,
}
use pua.MailStore.Maps.{In, here, there, has_key}
use pua.MailStore.Members.{In-cons, Unique, text_eq_sym}
use pua.MailStore.Outbox.{
  Operation, has_text, source_ids, normalize_sources, join_ids, update_operation, append_operation,
  append_unique,
}
use pua.MailStore.Sources.{
  operation_id, AllClean, source_ids-clean, set_sources-In, join_ids-keeps, join_ids-In,
  join_ids-clean,
}

-- The operation `d` has the id and every source of `c`.
abbrev pub Covers : Operation → Operation → Type 0
Covers c d =
    (d.id ≡ c.id)
    × ((t : Text) → has_text t (source_ids c) ≡ true → has_text t (source_ids d) ≡ true)

Covers-refl : (c : Operation) → Covers c c
Covers-refl c = (refl, λ t h. h)

normalize_sources-Covers : (o : Operation) → Covers o (normalize_sources o)
unfolding normalize_sources
normalize_sources-Covers o = (refl, λ t h. set_sources-In t (source_ids o) o (source_ids-clean o) h)

joined_clean : (c o : Operation) → AllClean (join_ids (source_ids c) (source_ids o))
joined_clean c o =
    join_ids-clean (source_ids c) (source_ids o) (source_ids-clean c) (source_ids-clean o)

update_operation-current : (c o : Operation) → Covers c (update_operation c o)
unfolding update_operation source_ids
update_operation-current c o = (
  refl,
  λ t h.
      set_sources-In t (join_ids (source_ids c) (source_ids o)) c (joined_clean c o)
        (join_ids-keeps t (source_ids c) (source_ids o) h),
)

update_operation-new : (c o : Operation) → c.id ≡ o.id → Covers o (update_operation c o)
unfolding update_operation source_ids
update_operation-new c o e = (
  e,
  λ t h.
      set_sources-In t (join_ids (source_ids c) (source_ids o)) c (joined_clean c o)
        (join_ids-In t (source_ids c) (source_ids o) h),
)

abbrev Covered : Operation → List Operation → Type 0
Covered c l = (d : Operation) × In d l × Covers c d

Covered-later : (c x : Operation) (l : List Operation) → Covered c l → Covered c (x ∷ l)
Covered-later c x l (d, i, h) = (d, there x l i, h)

append_operation-new : (o : Operation) (cs : List Operation) → Covered o (append_operation o cs)
unfolding append_operation
append_operation-new o [] = (o, here o [] refl, Covers-refl o)
append_operation-new o (c ∷ cs) = elim (Bool-cases (text_eq c.id o.id)) [
  | inl e ↦
      rw e (
        update_operation c o,
        here _ cs refl,
        update_operation-new c o ((text_eq_iff c.id o.id).0 e),
      )
  | inr e ↦ rw e (Covered-later o c (append_operation o cs) (append_operation-new o cs))
]

append_operation-old :
    {c : Operation} (o : Operation) (cs : List Operation)
    → In c cs
    → Covered c (append_operation o cs)
unfolding append_operation
append_operation-old o [] i = absurd (elim i [ ])
append_operation-old {c} o (x ∷ cs) (here y ys e) = elim (Bool-cases (text_eq x.id o.id)) [
  | inl f ↦ rw f (
      subst (λ z. Covered z (update_operation x o ∷ cs)) (sym e)
        (update_operation x o, here _ cs refl, update_operation-current x o))
  | inr f ↦
      rw f (x, here x (append_operation o cs) refl, subst (λ z. Covers z x) (sym e) (Covers-refl x))
]
append_operation-old {c} o (x ∷ cs) (there y ys i) = elim (Bool-cases (text_eq x.id o.id)) [
  | inl f ↦ rw f (c, there _ cs i, Covers-refl c)
  | inr f ↦ rw f (Covered-later c x (append_operation o cs) (append_operation-old o cs i))
]

has_key-append_operation :
    (k : Text) (o : Operation) (cs : List Operation)
    → has_key operation_id k cs ≡ false
    → text_eq o.id k ≡ false
    → has_key operation_id k (append_operation o cs) ≡ false
unfolding append_operation has_key update_operation
has_key-append_operation k o [] h n = rw n refl
has_key-append_operation k o (c ∷ cs) h n = elim (Bool-cases (text_eq c.id o.id)) [
  | inl e ↦ rw e h
  | inr e ↦ rw e (ground (arith, h, has_key-append_operation k o cs))
]

append_operation-Unique :
    (o : Operation) (cs : List Operation)
    → Unique operation_id cs
    → Unique operation_id (append_operation o cs)
unfolding append_operation update_operation has_key
append_operation-Unique o [] u = (refl, tt)
append_operation-Unique o (c ∷ cs) (h, u) = elim (Bool-cases (text_eq c.id o.id)) [
  | inl e ↦ rw e (h, u)
  | inr e ↦ rw e (
    has_key-append_operation c.id o cs h (text_eq_sym o.id c.id ∙ e),
    append_operation-Unique o cs u,
  )
]

-- Where the operations have different ids they still have after appendUniqueMailboxOperation; and for
-- each operation that was there, and for the new one, there is one after it that has the same id and
-- every source of it.
pub append_unique-Covers :
    (operations : List Operation) (o c : Operation)
    → Unique operation_id operations
    → In c (o ∷ operations)
    → Unique operation_id (append_unique operations o)
      × ((d : Operation) × In d (append_unique operations o) × Covers c d)
unfolding append_unique
append_unique-Covers operations o c u i = (
  append_operation-Unique (normalize_sources o) operations u,
  elim (In-cons i) [
    | inl e ↦
        let (d, j, h) = append_operation-new (normalize_sources o) operations in
        (
          d,
          j,
          subst (λ z. Covers z d) (sym e)
              (
                h.0 ∙ (normalize_sources-Covers o).0,
                λ t k. h.1 t ((normalize_sources-Covers o).1 t k),
              ),
        )
    | inr j ↦ append_operation-old (normalize_sources o) operations j
  ],
)
