-- ===== src/Idle/Retired.antt =====
-- What holds where the retirement of an idle generation begins.
use pua.Prelude.{
  ℕ, Bool, true, false, ◌≡◌, refl, subst, ◌⊎◌, inl, inr, Bool-cases, Option, none, some, Text, txt,
  is_blank, trim_space,
}
use pua.Generation.Facts.{Facts, Plan, is_idle}
use pua.Generation.Normal.{normalize, lifecycle_intent}
use pua.Generation.Legacy.{HubSession}
use pua.Generation.Adapt.{adapt_facts}
use pua.Generation.Safety.{Allowed, plan_generation-Allowed}
use pua.Mailbox.Message.{Mailbox}
use pua.Idle.Deadline.{IdleRecord}
use pua.Idle.Retire.{
  RetireWorld, retiring, leaves_generation, is_same_generation, can_sleep, is_busy, apply_stop,
  request_sleep, retired_record, input_of, retire_plan, retire_by, retire_idle, retire_session,
  start_retirement,
}

request_sleep-sleeps :
    (p : Plan) (r : IdleRecord)
    → is_idle p.intent ≡ true
    → (request_sleep p r).generation.idle_sleep_stop_requested ≡ true
request_sleep-sleeps p r h = elim (Bool-cases r.generation.idle_sleep_stop_requested) [
  | inl e ↦ simp (e, h)
  | inr e ↦ simp (e, h)
]

stored_is : (r x : IdleRecord) → retiring r ≡ retiring x → r ≡ x
stored_is r x h = cc

module _ (parse_time : Text → Option ℕ) (format_time : ℕ → Text) where
  -- The facts that the planner was given.
  abbrev pub facts_of : RetireWorld → HubSession → Mailbox → Facts
  facts_of w s ms = adapt_facts parse_time (input_of w s ms)

  -- The session can sleep and is not busy, and the plan may be and is to take the generation away.
  abbrev pub CanSleep : RetireWorld → HubSession → Mailbox → Plan → Type 0
  CanSleep w s ms p =
      (w.session ≡ some s)
      × (w.mailbox ≡ some ms)
      × (w.archived ≡ some false)
      × (w.stopping ≡ false)
      × (is_busy s ≡ false)
      × (can_sleep s.state ≡ true)
      × (leaves_generation p.operation ≡ false)
      × Allowed (normalize (facts_of w s ms)) (lifecycle_intent (normalize (facts_of w s ms))).0
          p.operation

  -- The record says that it stops, and for an idle generation that it was put to sleep.
  abbrev pub Marked : Plan → IdleRecord → Type 0
  Marked p x =
      (x.generation.status ≡ txt "stopping")
      × ((is_idle p.intent ≡ false) ⊎ (x.generation.idle_sleep_stop_requested ≡ true))

  abbrev pub Retires : RetireWorld → IdleRecord → Type 0
  Retires w x =
      (s : HubSession) × (ms : Mailbox) × CanSleep w s ms
        (retire_plan parse_time format_time w s ms)
      × Marked (retire_plan parse_time format_time w s ms) x

  marked : (now : Text) (p : Plan) (r : IdleRecord) → Marked p (retired_record now p r)
  unfolding retired_record
  marked now p r = elim (Bool-cases (is_idle p.intent)) [
    | inl e ↦ (refl, inr (request_sleep-sleeps p (apply_stop p r) e))
    | inr e ↦ (refl, inl e)
  ]

  Taken : RetireWorld → Plan → IdleRecord → Type 0
  Taken w p x = (leaves_generation p.operation ≡ false) × (w.stopping ≡ false) × Marked p x

  taken :
      (w : RetireWorld) (p : Plan) (x : IdleRecord)
      → retire_by parse_time format_time w p ≡ retiring x
      → Taken w p x
  unfolding Taken
  taken w p x h = elim (Bool-cases (leaves_generation p.operation)) [
    | inl a ↦ absurd (cc (rw a at h))
    | inr a ↦ elim (Bool-cases w.stopping) [
      | inl b ↦ absurd (cc (rw (a, b) at h))
      | inr b ↦ elim (Bool-cases w.saved) [
        | inl c ↦ (
          a,
          b,
          subst (Marked p) (stored_is _ x (rw (a, b, c) at h))
              (marked (format_time w.now) p w.current),
        )
        | inr c ↦ absurd (cc (rw (a, b, c) at h))
      ]
    ]
  ]

  retire_idle-Retires :
      (w : RetireWorld) (s : HubSession) (mailbox : Option Mailbox) (archived : Option Bool)
      (x : IdleRecord)
      → w.session ≡ some s
      → w.mailbox ≡ mailbox
      → w.archived ≡ archived
      → is_busy s ≡ false
      → can_sleep s.state ≡ true
      → retire_idle parse_time format_time w s mailbox archived ≡ retiring x
      → Retires w x
  unfolding Taken
  retire_idle-Retires w s none archived x e m a b c h = absurd (cc)
  retire_idle-Retires w s (some ms) none x e m a b c h = absurd (cc)
  retire_idle-Retires w s (some ms) (some true) x e m a b c h = absurd (cc)
  retire_idle-Retires w s (some ms) (some false) x e m a b c h =
      let (l, t, k) = taken w (retire_plan parse_time format_time w s ms) x h in
      (s, ms, (e, m, a, t, b, c, l, plan_generation-Allowed (facts_of w s ms)), k)

  retire_session-Retires :
      (w : RetireWorld) (session : Option HubSession) (x : IdleRecord)
      → w.session ≡ session
      → retire_session parse_time format_time w session ≡ retiring x
      → Retires w x
  retire_session-Retires w none x e h = absurd (cc)
  retire_session-Retires w (some s) x e h = elim (Bool-cases w.matches) [
    | inr a ↦ absurd (cc (rw a at h))
    | inl a ↦ elim (Bool-cases (is_busy s)) [
      | inl b ↦ absurd (cc (rw (a, b) at h))
      | inr b ↦ elim (Bool-cases (can_sleep s.state)) [
        | inl c ↦ retire_idle-Retires w s _ _ x e refl refl b c (rw (a, b, c) at h)
        | inr c ↦ absurd (cc (rw (a, b, c) at h))
      ]
    ]
  ]

  -- Where startIdleRetirementLocked begins a retirement, the record is of the same generation as the
  -- snapshot; the resource is not archived, no stop is under way, the session has neither an active
  -- turn nor an approval that waits and is ready, stopping or stopped; the operation that the planner
  -- chose is one that the facts allow and none of those that let the generation be; and the record
  -- that is stored says that it is stopping and, for the idle intent, that the sleep was requested.
  pub start_retirement-Retires :
      (w : RetireWorld) (r x : IdleRecord)
      → start_retirement parse_time format_time w r ≡ retiring x
      → (is_same_generation w.latest r ≡ true) × Retires w x
  unfolding start_retirement
  start_retirement-Retires w r x h =
      elim (Bool-cases (is_blank (trim_space r.generation.agent_hub_session_id))) [
        | inl a ↦ absurd (cc (rw a at h))
        | inr a ↦ elim (Bool-cases (is_same_generation w.latest r)) [
          | inr b ↦ absurd (cc (rw (a, b) at h))
          | inl b ↦ elim (Bool-cases w.stopping_before) [
            | inl c ↦ absurd (cc (rw (a, b, c) at h))
            | inr c ↦ elim (Bool-cases w.configured) [
              | inr d ↦ absurd (cc (rw (a, b, c, d) at h))
              | inl d ↦ (b, retire_session-Retires w w.session x refl (rw (a, b, c, d) at h))
            ]
          ]
        ]
      ]
