-- ===== src/Generation/Adapted.antt =====
-- What the legacy adapter promises the planner (internal/serve/generation_lifecycle.go).
use pua.Prelude.{ℕ, ◌≡◌, ◌≢◌, ◌≤◌, ◌⊎◌, false, arith}
use pua.Generation.Facts.{Intent, idle, replacement, archive, recovery, retire_generation, Plan}
use pua.Generation.Legacy.{GenerationRecord, legacy_intent}
use pua.Generation.Adapt.{apply_plan}

-- How strong a reason is for a generation to leave: an archived resource before a replacement, that
-- before a recovery, and that before an idle sleep.
abbrev pub strength : Intent → ℕ
strength archive = 4
strength replacement = 3
strength recovery = 2
strength idle = 1
strength _ = 0

-- Applying any plan but one that retires the generation never weakens the record's lifecycle intent,
-- and makes it at least as strong as the plan's archive, replacement or idle intent.
pub apply_plan-strength :
    (r : GenerationRecord) (p : Plan)
    → p.operation ≢ retire_generation
    → (strength (legacy_intent r false) ≤ strength (legacy_intent (apply_plan r p) false))
      × ((p.intent ≡ recovery)
          ⊎ (strength p.intent ≤ strength (legacy_intent (apply_plan r p) false)))
unfolding apply_plan legacy_intent
apply_plan-strength r p h = ground arith
