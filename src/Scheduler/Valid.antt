-- ===== src/Scheduler/Valid.antt =====
-- Every operation of the Scheduler keeps its configuration valid.
use pua.Prelude.{
  ℕ, true, false, leb, ◌≡◌, refl, subst, ap, Option, none, some, List, [], ◌∷◌, ◌++◌, length, Text,
  txt, is_blank, trim_space, trim_space_idem, has_prefix, arith,
}
use pua.Scheduler.Config.{
  ok, Schedule, SchedulerConfig, Library, byte_length, has_nul, all_lower_hex, is_schedule_id,
  is_field, is_schedule, config_checks, validate, maximum_text_length,
}
use pua.Scheduler.Operations.{
  option_or, CreateScheduleInput, UpdateScheduleInput, Surroundings, Fields, find_schedule,
  replace_schedule, remove_from, found, random_id, field_checks, fields_error, normalize_fields,
  added, plan_add, changed, plan_update, plan_remove,
}
use pua.Scheduler.Results.{bind_ok, ok_injective, checked_ok, check-none, all_pass, no_error}
use pua.Scheduler.Schedules.{Fits, Fits-append, Fits-remove, Fits-replace, find_schedule-IsFound}

-- The fields that normalizeScheduleFields returns are those of a valid schedule.
abbrev GoodFields : Fields → Type 0
GoodFields f =
    (is_field length f.description ≡ true)
    × (is_field length f.condition ≡ true)
    × (is_field byte_length f.target ≡ true)

field_lem :
    (size : Text → ℕ) (s : Text)
    → is_blank (trim_space s) ≡ false
    → leb (size (trim_space s)) maximum_text_length ≡ true
    → has_nul (trim_space s) ≡ false
    → is_field size (trim_space s) ≡ true
unfolding is_field
field_lem size s a b c = rw (trim_space_idem s, a, b, c) refl

-- A time as the clock prints it is a valid field and is read back.
pub record IsClock (lib : Library) (now : Text) : Type 0 where
  pub field : is_field byte_length now ≡ true
  pub read : lib.is_time now ≡ true

-- The digits of twelve random bytes.
pub record IsRandom (h : Text) : Type 0 where
  pub digits : all_lower_hex h ≡ true
  pub long : length h ≡ 24

random_id-IsId : (h : Text) → IsRandom h → is_schedule_id (txt "schedule-" ++ h) ≡ true
unfolding is_schedule_id has_prefix
random_id-IsId h r = rw (r.long, r.digits) refl

short : (n : ℕ) → leb n 200 ≡ true → leb n maximum_text_length ≡ true
short n h = ground (arith, h)

pub random_id-some :
    (o : Option Text) (id : Text)
    → random_id o ≡ ok id
    → (h : Text) × (o ≡ some h) × ((txt "schedule-" ++ h) ≡ id)
random_id-some none id e = cc
random_id-some (some h) id e = (h, refl, ok_injective e)

found-some : (id : Text) (o : Option Schedule) (s : Schedule) → found id o ≡ ok s → o ≡ some s
found-some id none s e = cc
found-some id (some x) s e = ap some (ok_injective e)

module _ (env : Surroundings) where
  normalize_fields-Good :
      (d c t : Text) (f : Fields) → normalize_fields env d c t ≡ ok f → GoodFields f
  unfolding normalize_fields fields_error
  normalize_fields-Good d c t f e =
      let (b, p, q) = bind_ok _ _ f e in
      let (x, (y, (z, u))) =
        all_pass (field_checks env (trim_space d) (trim_space c) (trim_space t))
          (checked_ok _ b p) in
      let blank = check-none _ _ x in
      let sizes = check-none _ _ y in
      subst GoodFields (ok_injective q) (
        field_lem length d (ground (arith, blank)) (ground (arith, sizes)) (ground (arith, sizes)),
        field_lem length c (ground (arith, blank)) (ground (arith, sizes)) (ground (arith, sizes)),
        field_lem byte_length t (ground (arith, blank)) (short _ (ground (arith, sizes)))
            (ground (arith, sizes)),
      )

  -- Another list of schedules in a valid configuration.
  with_schedules :
      (c : SchedulerConfig) (l : List Schedule)
      → validate env.lib c ≡ none
      → Fits env.lib [] l
      → validate env.lib (record c { schedules = l }) ≡ none
  unfolding validate
  with_schedules c l v f =
      let (a, (b, (d, (e, (g, (h, u)))))) = all_pass (config_checks env.lib c) v in
      no_error (config_checks env.lib (record c { schedules = l })) (a, (b, (d, (e, (g, (f, tt))))))

  schedules-Fits : (c : SchedulerConfig) → validate env.lib c ≡ none → Fits env.lib [] c.schedules
  unfolding validate
  schedules-Fits c v =
      let (a, (b, (d, (e, (g, (h, u)))))) = all_pass (config_checks env.lib c) v in h

  -- A valid schedule with other fields and times that are good.
  schedule-Good :
      (s : Schedule) (f : Fields) (made : Text)
      → is_schedule_id s.id ≡ true
      → GoodFields f
      → IsClock env.lib made
      → IsClock env.lib env.now
      → is_schedule env.lib (record s {
        description = f.description;
        condition = f.condition;
        target = f.target;
        created_at = made;
        updated_at = env.now;
      })
        ≡ true
  unfolding is_schedule
  schedule-Good s f made i (a, b, c) k l = rw (i, a, b, c, k.field, k.read, l.field, l.read) refl

  parts :
      (s : Schedule)
      → is_schedule env.lib s ≡ true
      → (is_schedule_id s.id ≡ true) × IsClock env.lib s.created_at
  unfolding is_schedule
  parts s h = (ground (arith, h), record { field = ground (arith, h); read = ground (arith, h) })

  pub plan_remove-IsValid :
      (id : Text) (c d : SchedulerConfig) (s : Schedule)
      → plan_remove env id c ≡ ok (s, d)
      → validate env.lib d ≡ none
  unfolding plan_remove
  plan_remove-IsValid id c d s e =
      let (a, v, p) = bind_ok _ _ _ e in
      let (x, y, q) = bind_ok _ _ _ p in
      let valid = checked_ok _ a v in
      subst (λ r. validate env.lib r.1 ≡ none) (ok_injective q)
        (with_schedules c (remove_from (trim_space id) c.schedules) valid
          (Fits-remove env.lib [] (trim_space id) c.schedules (schedules-Fits c valid)))

  added-IsValid :
      (id h : Text) (f : Fields) (c : SchedulerConfig)
      → validate env.lib c ≡ none
      → IsClock env.lib env.now
      → GoodFields f
      → (txt "schedule-" ++ h) ≡ id
      → IsRandom h
      → find_schedule (txt "schedule-" ++ h) c.schedules ≡ none
      → validate env.lib (added env id f c).1 ≡ none
  added-IsValid id h f c valid clock good e r new =
      let s = (added env id f c).0 in
      with_schedules c (c.schedules ++ s ∷ []) valid (
        Fits-append env.lib [] c.schedules s (schedules-Fits c valid)
          (schedule-Good s f env.now (subst (λ t. is_schedule_id t ≡ true) e (random_id-IsId h r))
            good clock clock)
          refl (subst (λ t. find_schedule t c.schedules ≡ none) e new))

  pub plan_add-IsValid :
      (input : CreateScheduleInput) (c d : SchedulerConfig) (s : Schedule)
      → IsClock env.lib env.now
      → ((h : Text)
          → env.random_hex ≡ some h
          → IsRandom h × (find_schedule (txt "schedule-" ++ h) c.schedules ≡ none))
      → plan_add env input c ≡ ok (s, d)
      → validate env.lib d ≡ none
  unfolding plan_add
  plan_add-IsValid input c d s clock fresh e =
      let (a, v, p) = bind_ok _ _ _ e in
      let (f, n, q) = bind_ok _ _ _ p in
      let (b, l, r) = bind_ok _ _ _ q in
      let (id, i, z) = bind_ok _ _ _ r in
      let (h, k, m) = random_id-some env.random_hex id i in
      let (digits, new) = fresh h k in
      subst (λ r. validate env.lib r.1 ≡ none) (ok_injective z)
        (added-IsValid id h f c (checked_ok _ a v) clock
          (normalize_fields-Good input.description input.condition input.target f n) m digits new)

  changed-IsValid :
      (id : Text) (s : Schedule) (f : Fields) (c : SchedulerConfig)
      → validate env.lib c ≡ none
      → IsClock env.lib env.now
      → GoodFields f
      → find_schedule id c.schedules ≡ some s
      → validate env.lib (changed env id s f c).1 ≡ none
  changed-IsValid id s f c valid clock good e =
      let fits = schedules-Fits c valid in
      let (u, same) = find_schedule-IsFound env.lib [] id c.schedules s fits e in
      let (i, made) = parts s u in
      let y = (changed env id s f c).0 in
      with_schedules c (replace_schedule id y c.schedules) valid (
        Fits-replace env.lib [] id y c.schedules fits
          (schedule-Good s f s.created_at i good made clock) same)

  pub plan_update-IsValid :
      (input : UpdateScheduleInput) (c d : SchedulerConfig) (s : Schedule)
      → IsClock env.lib env.now
      → plan_update env input c ≡ ok (s, d)
      → validate env.lib d ≡ none
  unfolding plan_update
  plan_update-IsValid input c d s clock e =
      let (o, g, w) = bind_ok _ _ _ e in
      let (a, v, p) = bind_ok _ _ _ w in
      let (x, y, q) = bind_ok _ _ _ p in
      let (f, n, r) = bind_ok _ _ _ q in
      let (b, l, z) = bind_ok _ _ _ r in
      subst (λ r. validate env.lib r.1 ≡ none) (ok_injective z)
        (changed-IsValid (trim_space input.id) x f c (checked_ok _ a v) clock
          (normalize_fields-Good (option_or input.description x.description)
            (option_or input.condition x.condition) (option_or input.target x.target) f n)
          (found-some _ _ x y))
