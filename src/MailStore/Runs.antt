-- ===== src/MailStore/Runs.antt =====
-- What holds of the directory of a mailbox after a program: the rules for a call, for one program
-- after another and for the removal of temporaries.
use pua.Prelude.{ℕ, zero, suc, true, ◌≡◌, none, List, [], ◌∷◌, Text, if_cases}
use pua.MailStore.Disk.{
  Directory, set_temp, Call, remove, DiskEnv, Run, returned, failed, crashed, Program, ◌>>◌, call,
}
use pua.MailStore.Commit.{clean, deferring}

-- What holds of the directory where a program returns, where it fails and where the process dies.
pub data Ensures (P F C : Directory → Type 0) : Run → Type 0 where
  returns : (d : Directory) (n : ℕ) → P d → Ensures P F C (returned d n)
  fails : (d : Directory) (n : ℕ) → F d → Ensures P F C (failed d n)
  dies : (d : Directory) → C d → Ensures P F C (crashed d)

pub weaken :
    {P F C P' F' C' : Directory → Type 0} {r : Run}
    → Ensures P F C r
    → ((d : Directory) → P d → P' d)
    → ((d : Directory) → F d → F' d)
    → ((d : Directory) → C d → C' d)
    → Ensures P' F' C' r
weaken (returns d n h) p f c = returns d n (p d h)
weaken (fails d n h) p f c = fails d n (f d h)
weaken (dies d h) p f c = dies d (c d h)

then_by :
    {P Q F C : Directory → Type 0} (q : Program) {r : Run}
    → Ensures P F C r
    → ((e : Directory) (k : ℕ) → P e → Ensures Q F C (q e k))
    → Ensures Q F C
        (elim r [ returned e k ↦ q e k | failed e k ↦ failed e k | crashed e ↦ crashed e ])
then_by q (returns d n h) k = k d n h
then_by q (fails d n h) k = fails d n h
then_by q (dies d h) k = dies d h

-- One program after another.
pub in_turn :
    {P Q F C : Directory → Type 0} (p q : Program) (d : Directory) (n : ℕ)
    → Ensures P F C (p d n)
    → ((e : Directory) (k : ℕ) → P e → Ensures Q F C (q e k))
    → Ensures Q F C ((p >> q) d n)
unfolding ◌>>◌
in_turn p q d n h k = then_by q h k

module _ (env : DiskEnv) where
  pub calls :
      {P F C : Directory → Type 0} (c : Call) (f : Directory → Directory) (d : Directory) (n : ℕ)
      → P (f d)
      → F d
      → C d
      → Ensures P F C (call env c f d n)
  unfolding call
  calls c f d zero p q r = dies d r
  calls {P} {F} {C} c f d (suc k) p q r =
      if_cases (Ensures P F C) (env.works c k) (returns (f d) k p) (fails d k q)

  -- A call that is never refused.
  pub calls_work :
      {P F C : Directory → Type 0} (c : Call) (f : Directory → Directory) (d : Directory) (n : ℕ)
      → ((k : ℕ) → env.works c k ≡ true)
      → P (f d)
      → C d
      → Ensures P F C (call env c f d n)
  unfolding call
  calls_work c f d zero w p r = dies d r
  calls_work c f d (suc k) w p r = rw (w k) (returns (f d) k p)

  -- The removal of the temporaries keeps what removing one keeps.
  pub cleans :
      (P F : Directory → Type 0) (ts : List Text) (d : Directory) (n : ℕ)
      → ((t : Text) (e : Directory) → F e → F (set_temp t none e))
      → F d
      → Ensures P F F (clean env ts d n)
  unfolding clean
  cleans P F [] d n k h = fails d n h
  cleans P F (t ∷ ts) d zero k h = dies d h
  cleans P F (t ∷ ts) d (suc m) k h =
      cleans P F ts _ m k (if_cases F (env.works remove m) (k t d h) h)

  defers_by :
      {P F C : Directory → Type 0} (ts : List Text) {r : Run}
      → ((t : Text) (e : Directory) → F e → F (set_temp t none e))
      → ((e : Directory) → F e → C e)
      → Ensures P F C r
      → Ensures P F C (elim r [
        | returned e k ↦ returned e k
        | failed e k ↦ clean env ts e k
        | crashed e ↦ crashed e
      ])
  defers_by ts k c (returns d n h) = returns d n h
  defers_by {P} {F} ts k c (fails d n h) = weaken (cleans P F ts d n k h) (λ _ p. p) (λ _ p. p) c
  defers_by ts k c (dies d h) = dies d h

  pub defers :
      {P F C : Directory → Type 0} (ts : List Text) (p : Program) (d : Directory) (n : ℕ)
      → ((t : Text) (e : Directory) → F e → F (set_temp t none e))
      → ((e : Directory) → F e → C e)
      → Ensures P F C (p d n)
      → Ensures P F C (deferring env ts p d n)
  unfolding deferring
  defers ts p d n k c h = defers_by ts k c h
