-- ===== src/MailStore/Sources.antt =====
-- The ids of the sources of a notification: which are kept where ids are appended and joined.
use pua.Prelude.{
  true, false, ◌||◌, ◌≡◌, refl, ◌∙◌, subst, inl, inr, Bool-cases, List, [], ◌∷◌, ◌++◌, All, Text,
  text_eq, text_eq_iff, text_eq_refl, is_blank, trim_space, trim_space_idem, if◌then◌else◌,
  if_cases, arith,
}
use pua.MailStore.Outbox.{
  Operation, has_text, append_id, append_ids, source_ids, set_sources, join_ids, first_or,
}

abbrev pub operation_id : Operation → Text
operation_id o = o.id

-- Trimmed and not blank.
abbrev pub AllClean : List Text → Type 0
AllClean = All (λ t. (trim_space t ≡ t) × (is_blank t ≡ false))

has_text-append :
    (t : Text) (us vs : List Text) → has_text t us ≡ true → has_text t (us ++ vs) ≡ true
unfolding has_text
has_text-append t [] vs h = absurd (cc)
has_text-append t (u ∷ us) vs h = ground (arith, h, has_text-append t us vs)

has_text-last : (t : Text) (us : List Text) → has_text t (us ++ t ∷ []) ≡ true
unfolding has_text
has_text-last t [] = rw (text_eq_refl t) refl
has_text-last t (u ∷ us) = rw (has_text-last t us) (ground arith)

append_id-keeps :
    (t v : Text) (us : List Text) → has_text t us ≡ true → has_text t (append_id us v) ≡ true
unfolding append_id
append_id-keeps t v us h =
    if_cases (λ l. has_text t l ≡ true) (is_blank (trim_space v) || has_text (trim_space v) us) h
      (has_text-append t us (trim_space v ∷ []) h)

append_ids-keeps :
    (t : Text) (us vs : List Text) → has_text t us ≡ true → has_text t (append_ids us vs) ≡ true
unfolding append_ids
append_ids-keeps t us [] h = h
append_ids-keeps t us (v ∷ vs) h = append_ids-keeps t (append_id us v) vs (append_id-keeps t v us h)

append_id_self :
    (v : Text) (us : List Text)
    → is_blank (trim_space v) ≡ false
    → has_text (trim_space v) (append_id us v) ≡ true
unfolding append_id
append_id_self v us b = elim (Bool-cases (has_text (trim_space v) us)) [
  | inl e ↦ rw (b, e) e
  | inr e ↦ rw (b, e) (has_text-last (trim_space v) us)
]

-- Clean ids are all appended.
append_ids-In :
    (t : Text) (us vs : List Text)
    → AllClean vs
    → has_text t vs ≡ true
    → has_text t (append_ids us vs) ≡ true
unfolding append_ids has_text
append_ids-In t us [] c h = absurd (cc)
append_ids-In t us (v ∷ vs) ((e, b), c) h = elim (Bool-cases (text_eq v t)) [
  | inl f ↦ append_ids-keeps t (append_id us v) vs (
      subst (λ u. has_text u (append_id us v) ≡ true) (e ∙ (text_eq_iff v t).0 f)
        (append_id_self v us (rw e b)))
  | inr f ↦ append_ids-In t (append_id us v) vs c (ground (arith, h, f))
]

clean_append :
    (us : List Text) (t : Text)
    → AllClean us
    → (trim_space t ≡ t) × (is_blank t ≡ false)
    → AllClean (us ++ t ∷ [])
clean_append [] t h c = (c, tt)
clean_append (u ∷ us) t (a, h) c = (a, clean_append us t h c)

append_id-clean : (us : List Text) (v : Text) → AllClean us → AllClean (append_id us v)
unfolding append_id
append_id-clean us v h = elim (Bool-cases (is_blank (trim_space v))) [
  | inl e ↦ rw e h
  | inr e ↦ rw e (
      if_cases AllClean (has_text (trim_space v) us) h
        (clean_append us (trim_space v) h (trim_space_idem v, e)))
]

append_ids-clean : (us vs : List Text) → AllClean us → AllClean (append_ids us vs)
unfolding append_ids
append_ids-clean us [] h = h
append_ids-clean us (v ∷ vs) h = append_ids-clean (append_id us v) vs (append_id-clean us v h)

pub source_ids-clean : (o : Operation) → AllClean (source_ids o)
unfolding source_ids
source_ids-clean o = append_ids-clean [] (o.source_message_id ∷ o.source_message_ids) tt

-- The ids that an operation is given are among its sources.
pub set_sources-In :
    (t : Text) (ids : List Text) (o : Operation)
    → AllClean ids
    → has_text t ids ≡ true
    → has_text t (source_ids (set_sources ids o)) ≡ true
unfolding source_ids append_ids
set_sources-In t ids o c h =
    append_ids-In t (append_id [] (first_or o.source_message_id ids)) ids c h

pub join_ids-keeps :
    (t : Text) (us vs : List Text) → has_text t us ≡ true → has_text t (join_ids us vs) ≡ true
unfolding join_ids
join_ids-keeps t us [] h = h
join_ids-keeps t us (v ∷ vs) h =
    join_ids-keeps t (if has_text v us then us else us ++ v ∷ []) vs
      (if_cases (λ l. has_text t l ≡ true) (has_text v us) h (has_text-append t us (v ∷ []) h))

pub join_ids-In :
    (t : Text) (us vs : List Text) → has_text t vs ≡ true → has_text t (join_ids us vs) ≡ true
unfolding join_ids has_text
join_ids-In t us [] h = absurd (cc)
join_ids-In t us (v ∷ vs) h = elim (Bool-cases (text_eq v t)) [
  | inl f ↦ join_ids-keeps t (if has_text v us then us else us ++ v ∷ []) vs (
      subst (λ u. has_text u (if has_text v us then us else us ++ v ∷ []) ≡ true)
        ((text_eq_iff v t).0 f) (now v us))
  | inr f ↦ join_ids-In t (if has_text v us then us else us ++ v ∷ []) vs (ground (arith, h, f))
]
  where
    now : (u : Text) (l : List Text) → has_text u (if has_text u l then l else l ++ u ∷ []) ≡ true
    now u l = elim (Bool-cases (has_text u l)) [ inl e ↦ rw e e | inr e ↦ rw e (has_text-last u l) ]

pub join_ids-clean : (us vs : List Text) → AllClean us → AllClean vs → AllClean (join_ids us vs)
unfolding join_ids
join_ids-clean us [] h k = h
join_ids-clean us (v ∷ vs) h (c, k) =
    join_ids-clean (if has_text v us then us else us ++ v ∷ []) vs
      (if_cases AllClean (has_text v us) h (clean_append us v h c)) k
