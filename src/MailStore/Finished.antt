-- ===== src/MailStore/Finished.antt =====
-- A recovery in which every call works returns.
use pua.Prelude.{
  ℕ, zero, suc, ◌+◌, ◌*◌, ◌≤◌, true, ◌≡◌, refl, Option, none, some, List, [], ◌∷◌, length, Text,
  is_blank, trim_space, Bool-cases, inl, inr, arith,
}
use pua.MailStore.Disk.{
  Doc, Directory, set_temp, set_file, set_commit, Call, read, stat, remove, rename, sync_dir,
  DiskEnv, Run, returned, failed, crashed, Program, ◌>>◌, call,
}
use pua.MailStore.Commit.{all_docs, unchanged, move, redo_by, redo, redo_all, recover_by, recover}

-- The program returned, with at least `m` calls left, and `P` holds of the directory.
data Finishes (P : Directory → Type 0) (m : ℕ) : Run → Type 0 where
  finishes : (d : Directory) (k : ℕ) → m ≤ k → P d → Finishes P m (returned d k)

abbrev Any : Directory → Type 0
Any d = Unit

then-Finishes :
    {P Q : Directory → Type 0} {m j : ℕ} (q : Program) {r : Run}
    → Finishes P m r
    → ((e : Directory) (k : ℕ) → m ≤ k → P e → Finishes Q j (q e k))
    → Finishes Q j
        (elim r [ returned e k ↦ q e k | failed e k ↦ failed e k | crashed e ↦ crashed e ])
then-Finishes q (finishes d k l h) f = f d k l h

in_turn-Finishes :
    {P Q : Directory → Type 0} {m j : ℕ} (p q : Program) (d : Directory) (n : ℕ)
    → Finishes P m (p d n)
    → ((e : Directory) (k : ℕ) → m ≤ k → P e → Finishes Q j (q e k))
    → Finishes Q j ((p >> q) d n)
unfolding ◌>>◌
in_turn-Finishes p q d n h f = then-Finishes q h f

-- What a program that finishes returned.
returned_of :
    {P : Directory → Type 0} {m : ℕ} {r : Run}
    → Finishes P m r
    → (e : Directory) × (k : ℕ) × (r ≡ returned e k) × P e
returned_of (finishes d k l h) = (d, k, refl, h)

module _ (env : DiskEnv) (works : (c : Call) (k : ℕ) → env.works c k ≡ true) where
  call-Finishes :
      (P : Directory → Type 0) (m : ℕ) (c : Call) (f : Directory → Directory) (d : Directory)
      (n : ℕ)
      → m + 1 ≤ n
      → P (f d)
      → Finishes P m (call env c f d n)
  unfolding call
  call-Finishes P m c f d zero l h = absurd (omega (arith, l))
  call-Finishes P m c f d (suc k) l h = rw (works c k) (finishes (f d) k (omega (arith, l)) h)

  move-Finishes :
      (m : ℕ) (a : Doc) (t x : Text) (d : Directory) (n : ℕ)
      → m + 1 ≤ n
      → d.temp t ≡ some x
      → Finishes Any m (move env a t d n)
  unfolding move
  move-Finishes m a t x d n l e =
      rw e (call-Finishes Any m rename (λ u. set_temp t none (set_file a (some x) u)) d n l tt)

  redo_by-Finishes :
      (m : ℕ) (o : Option Text) (a : Doc) (t : Text) (d : Directory) (n : ℕ)
      → m + 1 ≤ n
      → d.temp t ≡ o
      → Finishes Any m (redo_by env o a t d n)
  redo_by-Finishes m none a t d n l e = finishes d n (omega (arith, l)) tt
  redo_by-Finishes m (some x) a t d n l e = move-Finishes m a t x d n l e

  redo-Finishes :
      (m : ℕ) (a : Doc) (t : Text) (d : Directory) (n : ℕ)
      → m + 2 ≤ n
      → Finishes Any m (redo env a t d n)
  unfolding redo
  redo-Finishes m a t d n l = elim (Bool-cases (is_blank (trim_space t))) [
    | inl b ↦ rw b (finishes d n (omega (arith, l)) tt)
    | inr b ↦ rw b (
        in_turn-Finishes (call env stat unchanged) _ d n
          (call-Finishes Any (m + 1) stat unchanged d n (omega (arith, l)) tt)
          (λ u i g _. redo_by-Finishes m (u.temp t) a t u i g refl))
  ]

  redo_all-Finishes :
      (m : ℕ) (rest : List Doc) (names : Doc → Text) (d : Directory) (n : ℕ)
      → m + 2 * length rest ≤ n
      → Finishes Any m (redo_all env rest names d n)
  unfolding redo_all
  redo_all-Finishes m [] names d n l = finishes d n (omega (arith, l)) tt
  redo_all-Finishes m (a ∷ rest) names d n l =
      in_turn-Finishes (redo env a (names a)) _ d n
        (redo-Finishes (m + 2 * length rest) a (names a) d n (omega (arith, l)))
        (λ u i g _. redo_all-Finishes m rest names u i g)

  abbrev Closed : Directory → Type 0
  Closed d = d.commit ≡ none

  recover_by-Finishes :
      (o : Option (Doc → Text)) (d : Directory) (n : ℕ)
      → 10 ≤ n
      → d.commit ≡ o
      → Finishes Closed 0 (recover_by env o d n)
  recover_by-Finishes none d n l e = finishes d n (omega arith) e
  recover_by-Finishes (some names) d n l e =
      in_turn-Finishes (redo_all env all_docs names) _ d n
        (redo_all-Finishes 2 all_docs names d n l)
        (λ u i g _.
          in_turn-Finishes (call env remove (set_commit none)) _ u i
            (call-Finishes Closed 1 remove (set_commit none) u i g refl)
            (λ v j p c. call-Finishes Closed 0 sync_dir unchanged v j p c))

  -- A recovery in which every call works, and which has eleven calls before the process dies,
  -- returns and leaves no commit under way, whatever the directory.
  pub recover-Returns :
      (d : Directory) (n : ℕ)
      → 11 ≤ n
      → (e : Directory) × (k : ℕ) × (recover env d n ≡ returned e k) × (e.commit ≡ none)
  unfolding recover
  recover-Returns d n l = returned_of (
      in_turn-Finishes (call env read unchanged) _ d n
        (call-Finishes Any 10 read unchanged d n l tt)
        (λ u i g _. recover_by-Finishes u.commit u i g refl))
