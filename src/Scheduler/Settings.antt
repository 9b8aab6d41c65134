-- ===== src/Scheduler/Settings.antt =====
-- SetSchedulerSettings keeps the configuration valid where strings.ToLower keeps the name of a profile
-- a name (internal/app/scheduler.go, resource_agent.go).
use pua.Prelude.{
  ℕ, Bool, true, false, not, ◌&&◌, ◌||◌, leb, ◌≡◌, refl, sym, subst, inl, inr, Option, none, some,
  Text, txt, text_eq, text_eq_iff, is_blank, is_space, trim_space, trim_left, trim_right,
  join_right, trim_space_idem, Bool-cases, arith, if◌then◌else◌,
}
use pua.Scheduler.Config.{
  SchedulerError, ok, error, AgentBinding, SchedulerConfig, Library, byte_length, has_nul,
  normalize_trimmed, normalize_binding, binding_error, config_checks, validate, is_limit,
}
use pua.Scheduler.Operations.{
  SchedulerSettingsInput, Surroundings, option_or, is_limit_given, with_settings, settings_checks,
  plan_settings, set_settings,
}
use pua.Scheduler.Results.{
  bind_ok, ok_injective, checked_ok, check-none, passes, all_pass, no_error,
}
use pua.Scheduler.Kept.{IsKept, commit-IsKept}

-- Lowering keeps the two kinds, and makes of this name a trimmed one that is still no longer than 80
-- bytes.
pub record IsLowered (lib : Library) (name : Text) : Type 0 where
  pub profile : lib.to_lower (txt "profile") ≡ txt "profile"
  pub agent : lib.to_lower (txt "agent") ≡ txt "agent"
  pub trimmed : trim_space (lib.to_lower name) ≡ lib.to_lower name
  pub shown : is_blank (lib.to_lower name) ≡ false
  pub size : leb (byte_length (lib.to_lower name)) 80 ≡ true
  pub clean : has_nul (lib.to_lower name) ≡ false

taken {ℓ} : {A : Type ℓ} (b : Bool) (x y : A) {z : A} → b ≡ true → (if b then x else y) ≡ z → x ≡ z
taken true x y e h = h
taken false x y e h = cc

passed {ℓ} :
    {A : Type ℓ} (b : Bool) (x y : A) {z : A} → b ≡ false → (if b then x else y) ≡ z → y ≡ z
passed false x y e h = h
passed true x y e h = cc

trim_profile : trim_space (txt "profile") ≡ txt "profile"
unfolding trim_space trim_left trim_right is_space join_right
trim_profile = refl

trim_agent : trim_space (txt "agent") ≡ txt "agent"
unfolding trim_space trim_left trim_right is_space join_right
trim_agent = refl

trim_default : trim_space (txt "default") ≡ txt "default"
unfolding trim_space trim_left trim_right is_space join_right
trim_default = refl

nul_default : has_nul (txt "default") ≡ false
unfolding has_nul
nul_default = refl

refuses : {x : SchedulerError} {b : AgentBinding} → error x ≡ ok b → ⊥
refuses e = cc

either_kind : (a b : Bool) → (not a && not b) ≡ false → a ≡ false → b ≡ true
either_kind a b h k = ground (arith, h, k)

fits : (a b : Bool) → (not a || b) ≡ false → a ≡ true
fits a b h = ground (arith, h)

no_nul : (a b : Bool) → (not a || b) ≡ false → b ≡ false
no_nul a b h = ground (arith, h)

module _ (lib : Library) where
  -- A binding that NormalizeAgentBinding accepts.
  abbrev Accepted : AgentBinding → Type 0
  Accepted b = binding_error lib (normalize_binding lib b) ≡ none

  profile-Accepted :
      (n : Text)
      → lib.to_lower (txt "profile") ≡ txt "profile"
      → trim_space n ≡ n
      → is_blank n ≡ false
      → leb (byte_length n) 80 ≡ true
      → has_nul n ≡ false
      → Accepted (record { kind = txt "profile"; name = n })
  unfolding normalize_binding normalize_trimmed text_eq
  profile-Accepted n p t b s c = rw (trim_profile, p, t, b, s, c) refl

  agent-Accepted :
      (n : Text)
      → lib.to_lower (txt "agent") ≡ txt "agent"
      → trim_space n ≡ n
      → is_blank n ≡ false
      → leb (byte_length n) 80 ≡ true
      → has_nul n ≡ false
      → Accepted (record { kind = txt "agent"; name = n })
  unfolding normalize_binding normalize_trimmed text_eq
  agent-Accepted n p t b s c = rw (trim_agent, p, t, b, s, c) refl

  -- The binding that is returned for a kind and a name that pass the tests.
  named-Accepted :
      (k n : Text)
      → IsLowered lib n
      → trim_space n ≡ n
      → (not (text_eq k (txt "profile")) && not (text_eq k (txt "agent"))) ≡ false
      → is_blank n ≡ false
      → (not (leb (byte_length n) 80) || has_nul n) ≡ false
      → Accepted
          (record { kind = k; name = if text_eq k (txt "profile") then lib.to_lower n else n })
  unfolding text_eq
  named-Accepted k n l t q r u = elim (Bool-cases (text_eq k (txt "profile"))) [
    | inl v ↦
        subst named (sym ((text_eq_iff k (txt "profile")).0 v))
          (profile-Accepted (lib.to_lower n) l.profile l.trimmed l.shown l.size l.clean)
    | inr v ↦
        subst named (sym ((text_eq_iff k (txt "agent")).0 (either_kind _ _ q v)))
          (agent-Accepted n l.agent t r (fits _ _ u) (no_nul _ _ u))
  ]
    where
      named : Text → Type 0
      named x =
          Accepted
            (record { kind = x; name = if text_eq x (txt "profile") then lib.to_lower n else n })

  normalize_trimmed-Accepted :
      (k n : Text) (b : AgentBinding)
      → IsLowered lib n
      → trim_space n ≡ n
      → normalize_trimmed lib k n ≡ ok b
      → Accepted b
  unfolding normalize_trimmed
  normalize_trimmed-Accepted k n b l t e = elim (Bool-cases (is_blank k && is_blank n)) [
    | inl p ↦
        subst Accepted (ok_injective (taken _ _ _ p e))
          (profile-Accepted (txt "default") l.profile trim_default refl refl nul_default)
    | inr p ↦
        let e1 = passed _ _ _ p e in
        elim (Bool-cases (not (text_eq k (txt "profile")) && not (text_eq k (txt "agent")))) [
          | inl q ↦ absurd (refuses (taken _ _ _ q e1))
          | inr q ↦
              let e2 = passed _ _ _ q e1 in
              elim (Bool-cases (is_blank n)) [
                | inl r ↦ absurd (refuses (taken _ _ _ r e2))
                | inr r ↦
                    let e3 = passed _ _ _ r e2 in
                    elim (Bool-cases (not (leb (byte_length n) 80) || has_nul n)) [
                      | inl u ↦ absurd (refuses (taken _ _ _ u e3))
                      | inr u ↦
                          subst Accepted (ok_injective (passed _ _ _ u e3))
                            (named-Accepted k n l t q r u)
                    ]
              ]
        ]
  ]

limit_kept :
    (o : Option ℕ) (n : ℕ)
    → is_limit_given o ≡ true
    → is_limit n ≡ true
    → is_limit (option_or o n) ≡ true
limit_kept none n h k = k
limit_kept (some m) n h k = h

module _ (env : Surroundings) where
  plan_settings-IsValid :
      (input : SchedulerSettingsInput) (c d r : SchedulerConfig)
      → IsLowered env.lib (trim_space input.agent_binding.name)
      → plan_settings env input c ≡ ok (r, d)
      → validate env.lib d ≡ none
  unfolding plan_settings normalize_binding validate
  plan_settings-IsValid input c d r l e =
      let (b, n, p) = bind_ok _ _ _ e in
      let (x, k, q) = bind_ok _ _ _ p in
      let (y, v, z) = bind_ok _ _ _ q in
      let (w, (lc, (ld, u))) = all_pass (settings_checks env input) (checked_ok _ x k) in
      let (c1, (c2, (c3, (c4, (c5, (c6, c7)))))) =
        all_pass (config_checks env.lib c) (checked_ok _ y v) in
      subst (λ t. validate env.lib t.1 ≡ none) (ok_injective z)
        (no_error (config_checks env.lib (with_settings env input b c)) (
          c1,
          (
            normalize_trimmed-Accepted env.lib _ _ b l (trim_space_idem input.agent_binding.name) n,
            (
              passes _ _ (check-none _ _ w),
              (
                passes _ _ (
                    limit_kept input.condition_max_chars c.condition_max_chars (check-none _ _ lc)
                      (check-none _ _ c4)),
                (
                  passes _ _ (
                      limit_kept input.description_max_chars c.description_max_chars
                        (check-none _ _ ld) (check-none _ _ c5)),
                  (c6, tt),
                ),
              ),
            ),
          ),
        ))

  -- Where strings.ToLower keeps the name of the binding a trimmed name of at most 80 bytes, setting the
  -- Scheduler's settings leaves the configuration as it was if it fails, save where the new file is in
  -- place and only the sync of its directory fails; then, and where it succeeds, it leaves one that the
  -- next read accepts.
  pub set_settings-IsKept :
      (input : SchedulerSettingsInput) (c : SchedulerConfig)
      → IsLowered env.lib (trim_space input.agent_binding.name)
      → IsKept env.lib c (set_settings env input c)
  unfolding set_settings
  set_settings-IsKept input c l =
      commit-IsKept env.lib env.disk (plan_settings env input c) c
        (λ r d e. plan_settings-IsValid input c d r l e)
