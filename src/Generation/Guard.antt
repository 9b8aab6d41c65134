-- ===== src/Generation/Guard.antt =====
-- LifecycleGuardMatchesFacts and GuardedLifecycleCommit of internal/serve/generation_lifecycle.go.
use pua.Prelude.{
  Bool, true, false, ◌&&◌, ◌||◌, Option, none, some, [], Text, txt, text_eq, is_blank, trim_space,
  if◌then◌else◌,
}
use pua.Generation.Facts.{Facts, Guard, Message, Plan, intent_text}
use pua.Generation.Normal.{normalize, lifecycle_guard}

unfoldable pub equal_guard_field : Text → Text → Bool
equal_guard_field expected actual =
    is_blank (trim_space expected) || text_eq (trim_space expected) (trim_space actual)

unfoldable pub next_message_id : Option Message → Text
next_message_id none = []
next_message_id (some m) = trim_space m.id

-- The conjunction over the fields of a plan's guard and of the guard that the facts have now.
unfoldable pub guards_match : Guard → Guard → Text → Bool
guards_match g h message_id =
    equal_guard_field g.workspace_instance_id h.workspace_instance_id
    && equal_guard_field g.resource_id h.resource_id
    && equal_guard_field g.revision h.revision
    && equal_guard_field (intent_text g.lifecycle_intent) (intent_text h.lifecycle_intent)
    && equal_guard_field g.generation_id h.generation_id
    && equal_guard_field g.session_id h.session_id
    && equal_guard_field g.turn_id h.turn_id
    && equal_guard_field g.message_id message_id

unfoldable pub guard_matches_facts : Plan → Facts → Bool
unfolding guards_match
guard_matches_facts p f =
    guards_match p.guard (lifecycle_guard (normalize f)) (next_message_id f.next_message)

-- A commit changes a store and may fail; `none` is a nil function.
unfoldable pub run_commit {ℓ} :
    {S : Type ℓ} → Option (S → S × Option Text) → S → S × Bool × Option Text
run_commit none s = (s, false, some (txt "lifecycle commit is nil"))
run_commit (some c) s = let r = c s in (r.0, true, r.1)

unfoldable pub guarded_commit {ℓ} :
    {S : Type ℓ} → Plan → Facts → Option (S → S × Option Text) → S → S × Bool × Option Text
unfolding run_commit
guarded_commit p f commit s =
    if guard_matches_facts p f then run_commit commit s else (s, false, none)
