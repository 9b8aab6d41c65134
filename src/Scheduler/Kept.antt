-- ===== src/Scheduler/Kept.antt =====
-- What the operations of the Scheduler leave as the configuration, whether they succeed or fail; and a
-- schedule that is added and removed.
use pua.Prelude.{
  ℕ, Bool, true, false, not, ◌&&◌, ◌||◌, leb, ◌≡◌, ◌⊎◌, refl, sym, subst, ap, ◌∙◌, none, some, List,
  [], ◌∷◌, ◌++◌, Text, txt, text_eq, text_eq_refl, Bool-cases, inl, inr, is_space, trim_space,
  trim_left, trim_right, join_right, arith,
}
use pua.Scheduler.Config.{
  Result, sync_failed, ok, error, ◌>>=◌, Schedule, SchedulerConfig, Library, all_lower_hex,
  validate,
}
use pua.Scheduler.Operations.{
  CreateScheduleInput, UpdateScheduleInput, Surroundings, SchedulerWrite, saved, not_replaced,
  not_synced, find_schedule, remove_from, commit, plan_add, add_schedule, plan_update,
  update_schedule, plan_remove, remove_schedule, added,
}
use pua.Scheduler.Results.{bind_ok, ok_injective}
use pua.Scheduler.Schedules.{find_schedule-here, find_schedule-there, not_none}
use pua.Scheduler.Valid.{
  random_id-some, IsClock, IsRandom, plan_add-IsValid, plan_update-IsValid, plan_remove-IsValid,
}

-- After an error the configuration is the one before, or it is valid and the directory could not be
-- synced; after a success it is valid.
abbrev pub IsKept {ℓ} :
    {A : Type ℓ} → Library → SchedulerConfig → Result A × SchedulerConfig → Type 0
IsKept lib c (error e, d) = (d ≡ c) ⊎ (e ≡ sync_failed) × (validate lib d ≡ none)
IsKept lib c (ok a, d) = validate lib d ≡ none

pub commit-IsKept {ℓ} :
    {A : Type ℓ} (lib : Library) (disk : SchedulerWrite) (r : Result (A × SchedulerConfig))
    (c : SchedulerConfig)
    → ((a : A) (d : SchedulerConfig) → r ≡ ok (a, d) → validate lib d ≡ none)
    → IsKept lib c (commit disk r c)
unfolding commit
commit-IsKept lib disk (error e) c h = inl refl
commit-IsKept lib saved (ok (a, d)) c h = h a d refl
commit-IsKept lib not_replaced (ok (a, d)) c h = inl refl
commit-IsKept lib not_synced (ok (a, d)) c h = inr (refl, h a d refl)

-- The random bytes give an id that no schedule has.
abbrev pub IsFresh : Surroundings → SchedulerConfig → Type 0
IsFresh env c =
    (h : Text)
    → env.random_hex ≡ some h
    → IsRandom h × (find_schedule (txt "schedule-" ++ h) c.schedules ≡ none)

-- Where the clock prints a time that is read back and the random id is new, adding, updating and
-- removing a schedule each leave the configuration as it was if they fail, save where the new file is
-- in place and only the sync of its directory fails; then, and where they succeed, they leave one
-- that the next read accepts.
pub operations-IsKept :
    (env : Surroundings) (c : SchedulerConfig) (new : CreateScheduleInput)
    (change : UpdateScheduleInput) (id : Text)
    → IsClock env.lib env.now
    → IsFresh env c
    → IsKept env.lib c (add_schedule env new c)
      × IsKept env.lib c (update_schedule env change c)
      × IsKept env.lib c (remove_schedule env id c)
unfolding add_schedule update_schedule remove_schedule
operations-IsKept env c new change id clock fresh = (
  commit-IsKept env.lib env.disk (plan_add env new c) c
      (λ a d e. plan_add-IsValid env new c d a clock fresh e),
  commit-IsKept env.lib env.disk (plan_update env change c) c
      (λ a d e. plan_update-IsValid env change c d a clock e),
  commit-IsKept env.lib env.disk (plan_remove env id c) c
      (λ a d e. plan_remove-IsValid env id c d a e),
)

hex_not_space :
    (c : ℕ) → ((leb 48 c && leb c 57) || (leb 97 c && leb c 102)) ≡ true → is_space c ≡ false
unfolding is_space
hex_not_space c h = ground (arith, h)

join_right-solid : (c : ℕ) (r : Text) → is_space c ≡ false → join_right c r ≡ c ∷ r
unfolding join_right
join_right-solid c [] h = rw h refl
join_right-solid c (d ∷ r) h = refl

-- No character is a space.
all_solid : Text → Bool
all_solid [] = true
all_solid (c ∷ s) = not (is_space c) && all_solid s

and_true : (a b : Bool) → (a && b) ≡ true → (a ≡ true) × (b ≡ true)
and_true a b e = ground (arith, e)

not-true : (a : Bool) → not a ≡ true → a ≡ false
not-true a e = ground (arith, e)

trim_right-solid : (s : Text) → all_solid s ≡ true → trim_right s ≡ s
unfolding trim_right all_solid
trim_right-solid [] e = refl
trim_right-solid (c ∷ s) e =
    let (a, b) = and_true (not (is_space c)) (all_solid s) e in
    ap (join_right c) (trim_right-solid s b) ∙ join_right-solid c s (not-true _ a)

all_solid-hex : (h : Text) → all_lower_hex h ≡ true → all_solid h ≡ true
unfolding all_lower_hex all_solid
all_solid-hex [] e = refl
all_solid-hex (c ∷ s) e =
    let (a, b) = and_true _ (all_lower_hex s) e in rw (hex_not_space c a) (all_solid-hex s b)

trim_space-id :
    (h : Text) → all_lower_hex h ≡ true → trim_space (txt "schedule-" ++ h) ≡ (txt "schedule-" ++ h)
unfolding trim_space trim_left is_space all_solid
trim_space-id h e = trim_right-solid (txt "schedule-" ++ h) (all_solid-hex h e)

misses :
    (id : Text) (x : Schedule) (l : List Schedule)
    → find_schedule id (x ∷ l) ≡ none
    → (text_eq x.id id ≡ false) × (find_schedule id l ≡ none)
misses id x l e = elim (Bool-cases (text_eq x.id id)) [
  | inl q ↦ absurd (not_none (sym (find_schedule-here id x l q) ∙ e))
  | inr q ↦ (q, sym (find_schedule-there id x l q) ∙ e)
]

-- A schedule put at the end under a new id is found there, and removed from there.
find_schedule-last :
    (s : Schedule) (l : List Schedule)
    → find_schedule s.id l ≡ none
    → find_schedule s.id (l ++ s ∷ []) ≡ some s
find_schedule-last s [] e = find_schedule-here s.id s [] (text_eq_refl s.id)
find_schedule-last s (x ∷ l) e =
    let (q, r) = misses s.id x l e in
    find_schedule-there s.id x (l ++ s ∷ []) q ∙ find_schedule-last s l r

remove_from-last :
    (s : Schedule) (l : List Schedule)
    → find_schedule s.id l ≡ none
    → remove_from s.id (l ++ s ∷ []) ≡ l
unfolding remove_from
remove_from-last s [] e = rw (text_eq_refl s.id) refl
remove_from-last s (x ∷ l) e = let (q, r) = misses s.id x l e in rw (q, remove_from-last s l r) refl

-- Removing the schedule that was put last.
removes :
    (env : Surroundings) (c : SchedulerConfig) (s : Schedule)
    → env.disk ≡ saved
    → trim_space s.id ≡ s.id
    → find_schedule s.id c.schedules ≡ none
    → validate env.lib (record c { schedules = c.schedules ++ s ∷ [] }) ≡ none
    → remove_schedule env s.id (record c { schedules = c.schedules ++ s ∷ [] }) ≡ (ok s, c)
unfolding remove_schedule plan_remove commit ◌>>=◌
removes env c s disk t new valid =
    rw (valid, t, find_schedule-last s c.schedules new, disk, remove_from-last s c.schedules new)
      refl

commit_ok {ℓ} :
    {A : Type ℓ} (disk : SchedulerWrite) (r : Result (A × SchedulerConfig)) (c d : SchedulerConfig)
    (a : A)
    → commit disk r c ≡ (ok a, d)
    → (disk ≡ saved) × (r ≡ ok (a, d))
unfolding commit
commit_ok saved (ok (b, x)) c d a e = (refl, cc)
commit_ok not_replaced (ok (b, x)) c d a e = cc
commit_ok not_synced (ok (b, x)) c d a e = cc
commit_ok disk (error x) c d a e = cc

-- A schedule that is added and then removed by the id that AddSchedule returned is the one returned,
-- and the configuration is the one before, where the random id is new and the clock prints a time
-- that is read back.
pub remove-add :
    (env : Surroundings) (c d : SchedulerConfig) (new : CreateScheduleInput) (s : Schedule)
    → IsClock env.lib env.now
    → IsFresh env c
    → add_schedule env new c ≡ (ok s, d)
    → remove_schedule env s.id d ≡ (ok s, c)
unfolding add_schedule plan_add
remove-add env c d new s clock fresh e =
    let (disk, planned) = commit_ok env.disk (plan_add env new c) c d s e in
    let valid = plan_add-IsValid env new c d s clock fresh planned in
    let (a, v, p) = bind_ok _ _ _ planned in
    let (f, n, q) = bind_ok _ _ _ p in
    let (b, l, r) = bind_ok _ _ _ q in
    let (id, i, z) = bind_ok _ _ _ r in
    let (h, k, m) = random_id-some env.random_hex id i in
    let (digits, free) = fresh h k in
    subst (λ x. remove_schedule env x.0.id x.1 ≡ (ok x.0, c)) (ok_injective z)
      (removes env c (added env id f c).0 disk
        (subst (λ t. trim_space t ≡ t) m (trim_space-id h digits.digits))
        (subst (λ t. find_schedule t c.schedules ≡ none) m free)
        (subst (λ x. validate env.lib x.1 ≡ none) (sym (ok_injective z)) valid))
