-- ===== src/MailStore/Recovery.antt =====
-- A recovery keeps the directory safe wherever it stops, and leaves the old documents or the new ones
-- where it returns.
use pua.Prelude.{ℕ, ◌≡◌, refl, ◌⊎◌, inl, inr, Option, none, some, List, [], ◌∷◌, Text, arith}
use pua.MailStore.Disk.{
  Doc, Directory, set_temp, set_file, set_commit, read, stat, remove, rename, sync_dir, DiskEnv,
  Run, returned, failed, crashed, call,
}
use pua.MailStore.Commit.{
  all_docs, unchanged, move, redo_by, redo, redo_all, recover_by, recover, write_documents,
}
use pua.MailStore.Runs.{Ensures, returns, fails, dies, in_turn, calls}
use pua.MailStore.Atomic.{
  IsReliable, IsOld, IsNew, IsSafe, IsPending, IsStaged, IsMoved, EachMoved, AllApart, Apart, onto,
  pending_kept, all_moved_kept, IsMoved-now, all-Apart, all-IsMoved, write_documents-Ensures,
}

-- The directory that a run leaves.
abbrev pub left : Run → Directory
left (returned d n) = d
left (failed d n) = d
left (crashed d) = d

-- Recoveries one after the other, each cut short at its own place.
pub attempts : List (DiskEnv × ℕ) → Directory → Directory
attempts [] d = d
attempts ((env, n) ∷ rest) d = attempts rest (left (recover env d n))

module _ (env : DiskEnv) (old : Doc → Option Text) (q : IsReliable env) where
  -- Where the recovery returns.
  abbrev pub IsSettled : Directory → Type 0
  IsSettled d = IsOld env old d ⊎ IsNew env old d

  settled-IsSafe : (d : Directory) → IsSettled d → IsSafe env old d
  settled-IsSafe d (inl h) = inl h
  settled-IsSafe d (inr h) = inr (inl h)

  left-IsSafe :
      {P : Directory → Type 0} {r : Run}
      → Ensures P (IsSafe env old) (IsSafe env old) r
      → ((d : Directory) → P d → IsSafe env old d)
      → IsSafe env old (left r)
  left-IsSafe (returns d n h) p = p d h
  left-IsSafe (fails d n h) p = h
  left-IsSafe (dies d h) p = h

  -- The recovery runs in an environment of its own.
  module _ (now : DiskEnv) where
    abbrev Redone : List Doc → Directory → Type 0
    Redone l d = IsPending env old d × EachMoved env old q l d

    redoes_by :
        (a : Doc) (l : List Doc) (d : Directory) (n : ℕ) (o : Option Text)
        → d.temp (env.name a) ≡ o
        → IsStaged env old a d ⊎ IsMoved env old a d
        → AllApart env old q a l
        → Redone l d
        → Ensures
            (Redone (a ∷ l))
            (IsSafe env old)
            (IsSafe env old)
            (redo_by now o a (env.name a) d n)
    unfolding move
    redoes_by a l d n none e (inl (t, f, h)) s r = absurd (ground (arith, e, h))
    redoes_by a l d n none e (inr h) s (p, r) = returns d n (p, (h, r))
    redoes_by a l d n (some x) e (inr (h, f)) s r = absurd (ground (arith, e, h))
    redoes_by a l d n (some x) e (inl (t, f, h)) s ((c, p), r) = rw h (
        calls now rename (λ u. set_temp (env.name a) none (set_file a (some t) u)) d n
          (
            (c, λ b. pending_kept env old q a b t d f (p b)),
            (IsMoved-now env old q a t d f, all_moved_kept env old q a l t d s r),
          )
          (inr (inr (c, p))) (inr (inr (c, p))))

    redoes :
        (a : Doc) (l : List Doc) (d : Directory) (n : ℕ)
        → AllApart env old q a l
        → Redone l d
        → Ensures (Redone (a ∷ l)) (IsSafe env old) (IsSafe env old) (redo now a (env.name a) d n)
    unfolding redo
    redoes a l d n s h = rw (q.named a) (
        in_turn {P = Redone l} (call now stat unchanged) _ d n
          (calls now stat unchanged d n h (inr (inr h.0)) (inr (inr h.0)))
          (λ u i g. redoes_by a l u i (u.temp (env.name a)) refl (g.0.1 a) s g))

    redoes_all :
        (rest l : List Doc) (d : Directory) (n : ℕ)
        → Apart env old q rest l
        → Redone l d
        → Ensures
            (Redone (onto env old q rest l))
            (IsSafe env old)
            (IsSafe env old)
            (redo_all now rest env.name d n)
    unfolding redo_all
    redoes_all [] l d n s h = returns d n h
    redoes_all (a ∷ rest) l d n (s, r) h =
        in_turn (redo now a (env.name a)) _ d n (redoes a l d n s h)
          (λ e k g. redoes_all rest (a ∷ l) e k r g)

    names_eq :
        (names : Doc → Text) (d : Directory)
        → d.commit ≡ some names
        → d.commit ≡ some env.name
        → names ≡ env.name
    names_eq names d e c = cc

    recovers_by :
        (o : Option (Doc → Text)) (d : Directory) (n : ℕ)
        → d.commit ≡ o
        → IsSafe env old d
        → Ensures IsSettled (IsSafe env old) (IsSafe env old) (recover_by now o d n)
    recovers_by none d n e (inl h) = returns d n (inl h)
    recovers_by none d n e (inr (inl h)) = returns d n (inr h)
    recovers_by none d n e (inr (inr (c, p))) = absurd (ground (arith, e, c))
    recovers_by (some names) d n e (inl (c, h)) = absurd (ground (arith, e, c))
    recovers_by (some names) d n e (inr (inl (c, h))) = absurd (ground (arith, e, c))
    recovers_by (some names) d n e (inr (inr (c, p))) = rw (names_eq names d e c) (
        in_turn {P = Redone (onto env old q all_docs [])} (redo_all now all_docs env.name) _ d n
          (redoes_all all_docs [] d n (all-Apart env old q) ((c, p), tt))
          (λ u i g.
            in_turn {P = IsNew env old} (call now remove (set_commit none)) _ u i
              (calls now remove (set_commit none) u i (refl, λ a. (all-IsMoved env old q u g.1 a).1)
                (inr (inr g.0)) (inr (inr g.0)))
              (λ v j r. calls now sync_dir unchanged v j (inr r) (inr (inl r)) (inr (inl r)))))

    pub recover-Ensures :
        (d : Directory) (n : ℕ)
        → IsSafe env old d
        → Ensures IsSettled (IsSafe env old) (IsSafe env old) (recover now d n)
    unfolding recover
    recover-Ensures d n h =
        in_turn {P = IsSafe env old} (call now read unchanged) _ d n
          (calls now read unchanged d n h h h) (λ u i g. recovers_by u.commit u i refl g)

  attempts-IsSafe :
      (tries : List (DiskEnv × ℕ)) (d : Directory)
      → IsSafe env old d
      → IsSafe env old (attempts tries d)
  unfolding attempts
  attempts-IsSafe [] d h = h
  attempts-IsSafe ((now, n) ∷ rest) d h =
      attempts-IsSafe rest (left (recover now d n))
        (left-IsSafe (recover-Ensures now d n h) settled-IsSafe)

  -- The write of the documents of a mailbox over the old ones, where no commit is under way, the
  -- temporaries have names of their own and no rename and no sync of the directory is refused; any
  -- other call may fail, and the process may die after any number of calls. Where the write returns
  -- the documents are the new ones. Whatever it leaves, and after any number of recoveries that fail
  -- or are cut short in their turn, a recovery that returns leaves no commit under way, and all the
  -- documents are the old ones or all are the new ones.
  pub write_documents-IsAtomic :
      (d : Directory) (n : ℕ) (tries : List (DiskEnv × ℕ)) (now : DiskEnv) (k : ℕ)
      → IsOld env old d
      → Ensures (IsNew env old) (IsSafe env old) (IsSafe env old) (write_documents env d n)
        × Ensures IsSettled
            (IsSafe env old)
            (IsSafe env old)
            (recover now (attempts tries (left (write_documents env d n))) k)
  write_documents-IsAtomic d n tries now k h =
      let written = write_documents-Ensures env old q d n h in
      (
        written,
        recover-Ensures now _ k
            (attempts-IsSafe tries _ (left-IsSafe written (λ _ g. inr (inl g)))),
      )
