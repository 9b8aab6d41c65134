-- ===== src/Generation/Ownership.antt =====
-- What a guard that matches says of the facts, and the guarded commit (internal/serve/generation_lifecycle.go).
use pua.Prelude.{
  Bool, true, false, ◌&&◌, ◌≡◌, refl, ◌⊎◌, inl, inr, Option, none, some, arith, Text, text_eq_iff,
  trim_space, trim_space_idem, is_blank, if◌then◌else◌,
}
use pua.Generation.Facts.{Facts, Plan, intent_text}
use pua.Generation.Normal.{normalize, lifecycle_intent, lifecycle_guard}
use pua.Generation.Guard.{
  equal_guard_field, guards_match, guard_matches_facts, next_message_id, guarded_commit, run_commit,
}

-- A guard field is empty, or the text that the facts have now is the one it was planned against.
abbrev pub Owns : Text → Text → Type 0
Owns expected actual =
    (is_blank (trim_space expected) ≡ true) ⊎ (trim_space expected ≡ trim_space actual)

equal_guard_field-Owns : (s t : Text) → equal_guard_field s t ≡ true → Owns s t
unfolding equal_guard_field
equal_guard_field-Owns s t h = ground (arith, text_eq_iff (trim_space s) (trim_space t))

pub record OwnsAll (p : Plan) (f : Facts) : Type 0 where
  pub workspace : Owns p.guard.workspace_instance_id f.workspace_instance_id
  pub resource : Owns p.guard.resource_id f.resource_id
  pub revision : Owns p.guard.revision f.revision
  pub intent :
      Owns (intent_text p.guard.lifecycle_intent) (intent_text (lifecycle_intent (normalize f)).0)
  pub generation : Owns p.guard.generation_id f.generation_id
  pub session : Owns p.guard.session_id f.session_id
  pub turn : Owns p.guard.turn_id f.turn_id
  pub message : Owns p.guard.message_id (next_message_id f.next_message)

equal_guard_field-Owns_trim :
    (s t : Text) → equal_guard_field s (trim_space (trim_space t)) ≡ true → Owns s t
equal_guard_field-Owns_trim s t h =
    rw (trim_space_idem t, trim_space_idem t) at
      (equal_guard_field-Owns s (trim_space (trim_space t)) h)

and_parts : (a b : Bool) → (a && b) ≡ true → (a ≡ true) × (b ≡ true)
and_parts a b h = ground arith

guard_matches_facts-OwnsAll : (p : Plan) (f : Facts) → guard_matches_facts p f ≡ true → OwnsAll p f
unfolding guard_matches_facts guards_match normalize lifecycle_guard
guard_matches_facts-OwnsAll p f h =
    let (h1, eighth) = and_parts _ _ h in
    let (h2, seventh) = and_parts _ _ h1 in
    let (h3, sixth) = and_parts _ _ h2 in
    let (h4, fifth) = and_parts _ _ h3 in
    let (h5, fourth) = and_parts _ _ h4 in
    let (h6, third) = and_parts _ _ h5 in
    let (first, second) = and_parts _ _ h6 in
    record {
      workspace = equal_guard_field-Owns_trim _ _ first;
      resource = equal_guard_field-Owns_trim _ _ second;
      revision = equal_guard_field-Owns_trim _ _ third;
      intent = equal_guard_field-Owns _ _ fourth;
      generation = equal_guard_field-Owns_trim _ _ fifth;
      session = equal_guard_field-Owns_trim _ _ sixth;
      turn = equal_guard_field-Owns_trim _ _ seventh;
      message = equal_guard_field-Owns _ _ eighth;
    }

-- What a commit behind the test `b` promises where the test implies `P`.
abbrev pub Outcome {ℓ κ} :
    {S : Type ℓ}
    → Type κ
    → Bool
    → Option (S → S × Option Text)
    → S
    → S × Bool × Option Text
    → Type (ℓ ⊔ κ)
Outcome {S} P b c s r =
    (P × ((run : S → S × Option Text) × (c ≡ some run) × (r ≡ ((run s).0, true, (run s).1))))
    ⊎ (r.1 ≡ false) × (r.0 ≡ s) × ((b ≡ false) ⊎ (c ≡ none))

commit_outcome {ℓ κ} :
    {S : Type ℓ} {P : Type κ} (b : Bool) (c : Option (S → S × Option Text)) (s : S)
    → (b ≡ true → P)
    → Outcome P b c s (if b then run_commit c s else (s, false, none))
unfolding run_commit
commit_outcome true none s h = inr (refl, refl, inr refl)
commit_outcome true (some run) s h = inl (h refl, (run, refl, refl))
commit_outcome false c s h = inr (refl, refl, inl refl)

-- A guarded commit either ran the given function on the store and reports true with its error, and
-- then every identity of the plan's guard is empty or still that of the facts; or it reports false
-- and left the store as it was, because the guard does not match or there is no function.
pub guarded_commit_outcome {ℓ} :
    {S : Type ℓ} (p : Plan) (f : Facts) (c : Option (S → S × Option Text)) (s : S)
    → Outcome (OwnsAll p f) (guard_matches_facts p f) c s (guarded_commit p f c s)
unfolding guarded_commit
guarded_commit_outcome p f c s =
    commit_outcome (guard_matches_facts p f) c s (guard_matches_facts-OwnsAll p f)
