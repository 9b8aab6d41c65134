-- ===== src/Scheduler/Results.antt =====
-- The results of the Scheduler's operations and checks taken apart.
use pua.Prelude.{Bool, true, false, ◌≡◌, refl, Option, none, some, List, [], ◌∷◌, All}
use pua.Scheduler.Config.{SchedulerError, Result, ok, error, ◌>>=◌, first_error, check, checked}

pub bind_ok {ℓ κ} :
    {A : Type ℓ} {B : Type κ} (r : Result A) (f : A → Result B) (b : B)
    → (r >>= f) ≡ ok b
    → (a : A) × (r ≡ ok a) × (f a ≡ ok b)
unfolding ◌>>=◌
bind_ok (ok a) f b e = (a, refl, e)
bind_ok (error x) f b e = cc

pub ok_injective {ℓ} : {A : Type ℓ} {a b : A} → ok a ≡ ok b → a ≡ b
ok_injective e = cc

pub checked_ok : (o : Option SchedulerError) (b : Bool) → checked o ≡ ok b → o ≡ none
checked_ok none b e = refl
checked_ok (some x) b e = cc

pub check-none : (b : Bool) (x : SchedulerError) → check b x ≡ none → b ≡ true
check-none true x e = refl
check-none false x e = cc

pub passes : (b : Bool) (x : SchedulerError) → b ≡ true → check b x ≡ none
passes true x e = refl
passes false x e = cc

-- No check fails.
abbrev pub AllPass : List (Option SchedulerError) → Type 0
AllPass = All (λ o. o ≡ none)

pub all_pass : (l : List (Option SchedulerError)) → first_error l ≡ none → AllPass l
all_pass [] e = tt
all_pass (none ∷ l) e = (refl, all_pass l e)
all_pass (some x ∷ l) e = cc

pub no_error : (l : List (Option SchedulerError)) → AllPass l → first_error l ≡ none
no_error [] h = refl
no_error (none ∷ l) h = no_error l h.1
no_error (some x ∷ l) h = cc
