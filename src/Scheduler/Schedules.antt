-- ===== src/Scheduler/Schedules.antt =====
-- The list of schedules stays valid where one is added, replaced or removed.
use pua.Prelude.{
  true, false, ◌≡◌, refl, sym, subst, ◌∙◌, inl, inr, none, some, List, [], ◌∷◌, ◌++◌, Text, text_eq,
  text_eq_iff, text_eq_refl, Bool-cases, arith,
}
use pua.Scheduler.Config.{Schedule, Library, is_schedule, is_seen, check_schedules, schedule_checks}
use pua.Scheduler.Operations.{find_schedule, replace_schedule, remove_from}
use pua.Scheduler.Results.{check-none, passes, all_pass, no_error}

text_eq_sym : (s t : Text) → text_eq s t ≡ false → text_eq t s ≡ false
text_eq_sym s t h = elim (Bool-cases (text_eq t s)) [
  | inl e ↦ absurd (differ s t h ((text_eq_iff t s).0 e))
  | inr e ↦ e
]
  where
    differ : (s t : Text) → text_eq s t ≡ false → t ≡ s → ⊥
    differ s t h e =
        let r = text_eq_refl s in
        (let q = subst (λ x. text_eq s x ≡ false) e h in ground (arith, r, q))

pub not_none : {x : Schedule} → some x ≡ none → ⊥
not_none e = cc

pub some_injective : {x y : Schedule} → some x ≡ some y → x ≡ y
some_injective e = cc

-- Where the head has the id, it is found; where it has not, the rest is searched.
pub find_schedule-here :
    (id : Text) (x : Schedule) (xs : List Schedule)
    → text_eq x.id id ≡ true
    → find_schedule id (x ∷ xs) ≡ some x
unfolding find_schedule
find_schedule-here id x xs e = rw e refl

pub find_schedule-there :
    (id : Text) (x : Schedule) (xs : List Schedule)
    → text_eq x.id id ≡ false
    → find_schedule id (x ∷ xs) ≡ find_schedule id xs
unfolding find_schedule
find_schedule-there id x xs e = rw e refl

module _ (lib : Library) where
  abbrev pub Fits : List Text → List Schedule → Type 0
  Fits seen xs = check_schedules lib seen xs ≡ none

  unpack :
      (seen : List Text) (s : Schedule) (xs : List Schedule)
      → Fits seen (s ∷ xs)
      → (is_schedule lib s ≡ true) × (is_seen s.id seen ≡ false) × Fits (s.id ∷ seen) xs
  unfolding check_schedules
  unpack seen s xs h =
      let (a, (b, (c, u))) =
        all_pass (schedule_checks lib seen s (check_schedules lib (s.id ∷ seen) xs)) h in
      (check-none _ _ a, (let n = check-none _ _ b in ground (arith, n)), c)

  pack :
      (seen : List Text) (s : Schedule) (xs : List Schedule)
      → is_schedule lib s ≡ true
      → is_seen s.id seen ≡ false
      → Fits (s.id ∷ seen) xs
      → Fits seen (s ∷ xs)
  unfolding check_schedules
  pack seen s xs a b c =
      no_error (schedule_checks lib seen s (check_schedules lib (s.id ∷ seen) xs))
        (passes _ _ a, (passes _ _ (ground (arith, b)), (c, tt)))

  Fits-nil : (seen : List Text) → Fits seen []
  unfolding check_schedules
  Fits-nil seen = refl

  pub Fits-append :
      (seen : List Text) (xs : List Schedule) (s : Schedule)
      → Fits seen xs
      → is_schedule lib s ≡ true
      → is_seen s.id seen ≡ false
      → find_schedule s.id xs ≡ none
      → Fits seen (xs ++ s ∷ [])
  unfolding find_schedule
  Fits-append seen [] s h v n f = pack seen s [] v n (Fits-nil (s.id ∷ seen))
  Fits-append seen (x ∷ xs) s h v n f =
      let (u, k, rest) = unpack seen x xs h in
      elim (Bool-cases (text_eq x.id s.id)) [
        | inl e ↦ absurd (not_none (sym (find_schedule-here s.id x xs e) ∙ f))
        | inr e ↦ pack seen x (xs ++ s ∷ []) u k (
            Fits-append (x.id ∷ seen) xs s rest v
              (let q = text_eq_sym x.id s.id e in ground (arith, q, n))
              (sym (find_schedule-there s.id x xs e) ∙ f))
      ]

  Fits-weaken :
      (seen fewer : List Text) (xs : List Schedule)
      → ((t : Text) → is_seen t seen ≡ false → is_seen t fewer ≡ false)
      → Fits seen xs
      → Fits fewer xs
  unfolding check_schedules
  Fits-weaken seen fewer [] w h = refl
  Fits-weaken seen fewer (x ∷ xs) w h =
      let (v, n, rest) = unpack seen x xs h in
      pack fewer x xs v (w x.id n) (
        Fits-weaken (x.id ∷ seen) (x.id ∷ fewer) xs
          (λ t k. let q = w t (ground (arith, k)) in ground (arith, k, q)) rest)

  pub Fits-remove :
      (seen : List Text) (id : Text) (xs : List Schedule)
      → Fits seen xs
      → Fits seen (remove_from id xs)
  unfolding remove_from
  Fits-remove seen id [] h = h
  Fits-remove seen id (x ∷ xs) h =
      let (v, n, rest) = unpack seen x xs h in
      elim (Bool-cases (text_eq x.id id)) [
        | inl e ↦ rw e (Fits-weaken (x.id ∷ seen) seen xs (λ t k. ground (arith, k)) rest)
        | inr e ↦ rw e (pack seen x (remove_from id xs) v n (Fits-remove (x.id ∷ seen) id xs rest))
      ]

  pub Fits-replace :
      (seen : List Text) (id : Text) (y : Schedule) (xs : List Schedule)
      → Fits seen xs
      → is_schedule lib y ≡ true
      → y.id ≡ id
      → Fits seen (replace_schedule id y xs)
  unfolding replace_schedule
  Fits-replace seen id y [] h v e = h
  Fits-replace seen id y (x ∷ xs) h v e =
      let (u, n, rest) = unpack seen x xs h in
      elim (Bool-cases (text_eq x.id id)) [
        | inl k ↦ rw k (
            let same = (text_eq_iff x.id id).0 k ∙ sym e in
            pack seen y xs v (subst (λ t. is_seen t seen ≡ false) same n)
              (subst (λ t. Fits (t ∷ seen) xs) same rest))
        | inr k ↦ rw k (
            pack seen x (replace_schedule id y xs) u n
              (Fits-replace (x.id ∷ seen) id y xs rest v e))
      ]

  -- The schedule that is found is valid and has the id.
  pub find_schedule-IsFound :
      (seen : List Text) (id : Text) (xs : List Schedule) (s : Schedule)
      → Fits seen xs
      → find_schedule id xs ≡ some s
      → (is_schedule lib s ≡ true) × (s.id ≡ id)
  unfolding find_schedule
  find_schedule-IsFound seen id [] s h e = cc
  find_schedule-IsFound seen id (x ∷ xs) s h e =
      let (u, k, rest) = unpack seen x xs h in
      elim (Bool-cases (text_eq x.id id)) [
        | inl q ↦
            let same = some_injective (sym (find_schedule-here id x xs q) ∙ e) in
            subst (λ y. (is_schedule lib y ≡ true) × (y.id ≡ id)) same
              (u, (text_eq_iff x.id id).0 q)
        | inr q ↦
            find_schedule-IsFound (x.id ∷ seen) id xs s rest
              (sym (find_schedule-there id x xs q) ∙ e)
      ]
