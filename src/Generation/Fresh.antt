-- ===== src/Generation/Fresh.antt =====
-- The guard that PlanGeneration puts in a plan (internal/serve/generation_lifecycle.go).
use pua.Prelude.{
  true, ◌≡◌, refl, ◌∙◌, ◌⊎◌, inl, inr, Option, none, some, arith, Text, txt, Bool-cases,
  text_eq_refl, trim_space, trim_space_idem, [],
}
use pua.Generation.Facts.{
  Intent, Operation, Message, Facts, Guard, Plan, is_no_intent, recovery, stop_session,
  archive_session, resume_session,
}
use pua.Generation.Normal.{
  normalize, normalize_next, normalize_message, lifecycle_intent, lifecycle_guard,
}
use pua.Generation.Steps.{finish, finish_guard, wake, plan_message, plan_lifecycle_intent}
use pua.Generation.Plan.{
  plan_receipt_recovery, plan_settled, plan_for, plan_current, plan_normalized, plan_generation,
  start_plan, empty_plan, recover_stop, recover_archive, recover_by, plan_or,
}
use pua.Generation.Guard.{equal_guard_field, guards_match, guard_matches_facts, next_message_id}

-- A step leaves the guard alone or fills in the id of the next message.
abbrev Guarded : Plan → Facts → Plan → Type 0
Guarded p f q = (q.guard ≡ p.guard) ⊎ (q.guard ≡ finish_guard p.guard f.next_message)

plan_message-Guarded : (p : Plan) (f : Facts) → Guarded p f (plan_message p f f.next_message)
unfolding plan_message finish finish_guard wake
plan_message-Guarded p f = ground arith

plan_lifecycle_intent-Guarded :
    (p : Plan) (f : Facts) (i : Intent) (reason : Text)
    → Guarded p f (plan_lifecycle_intent p f i reason)
unfolding plan_lifecycle_intent finish finish_guard
plan_lifecycle_intent-Guarded p f i reason = ground (arith, plan_message-Guarded p f)

plan_settled-Guarded : (p : Plan) (f : Facts) → Guarded p f (plan_settled p f)
unfolding plan_settled finish finish_guard wake
plan_settled-Guarded p f = ground (arith, plan_message-Guarded p f)

abbrev GuardedIf : Plan → Facts → Option Plan → Type 0
GuardedIf p f none = Unit {0}
GuardedIf p f (some q) = Guarded p f q

recover_stop-Guarded :
    (p : Plan) (f : Facts) (i : Intent) (reason : Text) → Guarded p f (recover_stop p f i reason)
unfolding recover_stop finish finish_guard
recover_stop-Guarded p f i reason =
    ground
      (arith, plan_lifecycle_intent-Guarded (record p { intent = i; reason = reason }) f i reason)

recover_archive-Guarded :
    (p : Plan) (f : Facts) (i : Intent) (reason : Text) → Guarded p f (recover_archive p f i reason)
unfolding recover_archive finish finish_guard
recover_archive-Guarded p f i reason =
    ground
      (arith, plan_lifecycle_intent-Guarded (record p { intent = i; reason = reason }) f i reason)

recover_by-Guarded : (op : Operation) (p : Plan) (f : Facts) → GuardedIf p f (recover_by op p f)
unfolding recover_by finish finish_guard wake
recover_by-Guarded stop_session p f = recover_stop-Guarded p f _ _
recover_by-Guarded archive_session p f = recover_archive-Guarded p f _ _
recover_by-Guarded resume_session p f = ground (
  arith,
  plan_lifecycle_intent-Guarded (record p { intent = recovery }) f recovery
      (txt "resume_terminal_failure"),
)
recover_by-Guarded _ p f = ground arith

plan_receipt_recovery-Guarded : (p : Plan) (f : Facts) → GuardedIf p f (plan_receipt_recovery p f)
unfolding plan_receipt_recovery
plan_receipt_recovery-Guarded p f =
    ground (arith, recover_by-Guarded f.lifecycle.receipt.operation p f)

plan_or-Guarded :
    (o : Option Plan) (q p : Plan) (f : Facts)
    → GuardedIf p f o
    → Guarded p f q
    → Guarded p f (plan_or o q)
plan_or-Guarded none q p f h k = k
plan_or-Guarded (some r) q p f h k = h

plan_current-Guarded :
    (p : Plan) (f : Facts) (i : Intent) (reason : Text) → Guarded p f (plan_current p f i reason)
unfolding plan_current
plan_current-Guarded p f i reason = elim (Bool-cases (is_no_intent i)) [
  | inl e ↦ rw e (
      plan_or-Guarded (plan_receipt_recovery p f) (plan_settled p f) p f
        (plan_receipt_recovery-Guarded p f) (plan_settled-Guarded p f))
  | inr e ↦ rw e (plan_lifecycle_intent-Guarded p f i reason)
]

plan_for-Guarded :
    (p : Plan) (f : Facts) (i : Intent) (reason : Text) → Guarded p f (plan_for p f i reason)
unfolding plan_for finish finish_guard
plan_for-Guarded p f i reason =
    ground (arith, plan_message-Guarded p f, plan_current-Guarded p f i reason)

-- The guard of a plan is that of the normalised facts, perhaps with the id of the next message.
abbrev pub GuardOf : Facts → Guard → Type 0
GuardOf f g = (g ≡ lifecycle_guard f) ⊎ (g ≡ finish_guard (lifecycle_guard f) f.next_message)

pub plan_normalized-GuardOf : (f : Facts) → GuardOf f (plan_normalized f).guard
unfolding plan_normalized start_plan empty_plan lifecycle_guard
plan_normalized-GuardOf f =
    ground (arith, plan_for-Guarded (start_plan f) f (lifecycle_intent f).0 (lifecycle_intent f).1)

equal_guard_field_same : (s : Text) → equal_guard_field s s ≡ true
unfolding equal_guard_field
equal_guard_field_same s = ground (arith, text_eq_refl (trim_space s))

equal_guard_field_trim :
    (s : Text) → equal_guard_field (trim_space (trim_space s)) (trim_space s) ≡ true
unfolding equal_guard_field
equal_guard_field_trim s =
    rw (trim_space_idem s, trim_space_idem s) (ground (arith, text_eq_refl (trim_space s)))

next_message_id_matches :
    (m : Option Message) (g : Guard)
    → g.message_id ≡ []
    → equal_guard_field (finish_guard g (normalize_next m)).message_id (next_message_id m) ≡ true
unfolding finish_guard next_message_id normalize_message trim_space
next_message_id_matches none g h = rw h (unfold equal_guard_field in refl)
next_message_id_matches (some m) g h = rw h (equal_guard_field_trim m.id)

guards_match_same :
    (g : Guard) (x t : Text)
    → guards_match (record g { message_id = x }) g t ≡ equal_guard_field x t
unfolding guards_match
guards_match_same g x t = simp equal_guard_field_same

finish_guard-update :
    (g : Guard) (m : Option Message)
    → finish_guard g m ≡ record g { message_id = (finish_guard g m).message_id }
unfolding finish_guard
finish_guard-update g none = refl
finish_guard-update g (some m) = refl

guards_match-GuardOf :
    (f : Facts) (g : Guard)
    → GuardOf (normalize f) g
    → guards_match g (lifecycle_guard (normalize f)) (next_message_id f.next_message) ≡ true
unfolding normalize lifecycle_guard
guards_match-GuardOf f g (inl e) = rw e (
    guards_match_same (lifecycle_guard (normalize f)) [] (next_message_id f.next_message)
    ∙ (unfold equal_guard_field trim_space in refl))
guards_match-GuardOf f g (inr e) =
    rw (e, finish_guard-update (lifecycle_guard (normalize f)) (normalize_next f.next_message))
      (guards_match_same (lifecycle_guard (normalize f)) _ (next_message_id f.next_message)
        ∙ next_message_id_matches f.next_message (lifecycle_guard (normalize f))
            (unfold lifecycle_guard in refl))

-- The guard of a plan that was just made matches the facts that it was made from, on every branch
-- of the planner.
pub plan_generation_fresh : (f : Facts) → guard_matches_facts (plan_generation f) f ≡ true
unfolding guard_matches_facts plan_generation
plan_generation_fresh f =
    guards_match-GuardOf f (plan_normalized (normalize f)).guard
      (plan_normalized-GuardOf (normalize f))
