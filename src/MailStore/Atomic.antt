-- ===== src/MailStore/Atomic.antt =====
-- The write of the documents is all or nothing, also where the process dies, and the next recovery
-- completes or drops it.
use pua.Prelude.{
  ℕ, Bool, true, false, ◌≡◌, refl, sym, subst, ◌⊎◌, inl, inr, Bool-cases, Option, none, some, List,
  [], ◌∷◌, map, Text, text_eq, text_eq_refl, is_blank, trim_space, All, if◌then◌else◌, arith,
}
use pua.MailStore.Disk.{
  Doc, hot, receipts, outbox, scheduler, same_doc, Directory, set_temp, set_file, set_meta,
  set_commit, create, write, sync, close, prepare, make_dir, stat, remove, rename, sync_dir,
  DiskEnv, call,
}
use pua.MailStore.Commit.{
  all_docs, unchanged, open_new, open_file, stage_encoded, stage, deferring, stage_all, write_json,
  move, move_all, ensure_meta_by, ensure_meta, publish, write_documents,
}
use pua.MailStore.Runs.{Ensures, returns, fails, weaken, in_turn, calls, calls_work, defers}

-- The temporaries have different names that are not blank, and no rename and no sync of the directory
-- is refused.
pub record IsReliable (env : DiskEnv) : Type 0 where
  pub distinct : (a b : Doc) → same_doc a b ≡ false → text_eq (env.name a) (env.name b) ≡ false
  pub named : (a : Doc) → is_blank (trim_space (env.name a)) ≡ false
  pub renames : (k : ℕ) → env.works rename k ≡ true
  pub syncs : (k : ℕ) → env.works sync_dir k ≡ true

same_doc_eq : (a b : Doc) → same_doc a b ≡ true → a ≡ b
same_doc_eq hot hot h = refl
same_doc_eq receipts receipts h = refl
same_doc_eq outbox outbox h = refl
same_doc_eq scheduler scheduler h = refl
same_doc_eq a b h = absurd (ground (arith, h))

same_doc_refl : (a : Doc) → same_doc a a ≡ true
same_doc_refl hot = refl
same_doc_refl receipts = refl
same_doc_refl outbox = refl
same_doc_refl scheduler = refl

module _ (env : DiskEnv) (old : Doc → Option Text) where
  -- No commit is under way, and the documents are the old ones.
  abbrev pub IsOld : Directory → Type 0
  IsOld d = (d.commit ≡ none) × ((a : Doc) → d.file a ≡ old a)

  -- No commit is under way, and the documents are the new ones.
  abbrev pub IsNew : Directory → Type 0
  IsNew d = (d.commit ≡ none) × ((a : Doc) → d.file a ≡ env.encode a)

  -- The temporary of a document holds the new text.
  abbrev pub IsStaged : Doc → Directory → Type 0
  IsStaged a d = (t : Text) × (env.encode a ≡ some t) × (d.temp (env.name a) ≡ some t)

  -- The temporary of a document has become the document.
  abbrev pub IsMoved : Doc → Directory → Type 0
  IsMoved a d = (d.temp (env.name a) ≡ none) × (d.file a ≡ env.encode a)

  -- The commit is decided: every new text is at hand, in its temporary or in its document.
  abbrev pub IsPending : Directory → Type 0
  IsPending d = (d.commit ≡ some env.name) × ((a : Doc) → IsStaged a d ⊎ IsMoved a d)

  abbrev pub IsSafe : Directory → Type 0
  IsSafe d = IsOld d ⊎ IsNew d ⊎ IsPending d

  abbrev pub AllMoved : Directory → Type 0
  AllMoved d = (d.commit ≡ some env.name) × ((a : Doc) → IsMoved a d)

  -- What is left where the write returns an error.
  abbrev pub IsGivenUp : Directory → Type 0
  IsGivenUp d = IsOld d ⊎ AllMoved d

  pub given_up-IsSafe : (d : Directory) → IsGivenUp d → IsSafe d
  given_up-IsSafe d (inl h) = inl h
  given_up-IsSafe d (inr (c, h)) = inr (inr (c, λ a. inr (h a)))

  none_stays : (b : Bool) (o : Option Text) → o ≡ none → (if b then none else o) ≡ none
  none_stays b o h = ground (arith, h)

  removed-IsGivenUp : (t : Text) (d : Directory) → IsGivenUp d → IsGivenUp (set_temp t none d)
  removed-IsGivenUp t d (inl h) = inl h
  removed-IsGivenUp t d (inr (c, h)) =
      inr (c, λ a. (none_stays (text_eq t (env.name a)) _ (h a).0, (h a).1))

  module _ (q : IsReliable env) where
    -- Writing another temporary, and another document, leaves the staged and the moved as they are.
    IsStaged-kept :
        (a b : Doc) (x : Option Text) (d : Directory)
        → same_doc a b ≡ false
        → IsStaged b d
        → IsStaged b (set_temp (env.name a) x d)
    IsStaged-kept a b x d s (t, e, h) = (t, e, rw (q.distinct a b s) h)

    IsMoved-kept :
        (a b : Doc) (x : Option Text) (d : Directory)
        → same_doc a b ≡ false
        → IsMoved b d
        → IsMoved b (set_temp (env.name a) none (set_file a x d))
    IsMoved-kept a b x d s (h, e) = (rw (q.distinct a b s) h, rw s e)

    pub IsMoved-now :
        (a : Doc) (x : Text) (d : Directory)
        → env.encode a ≡ some x
        → IsMoved a (set_temp (env.name a) none (set_file a (some x) d))
    IsMoved-now a x d e = (rw (text_eq_refl (env.name a)) refl, rw (same_doc_refl a) (sym e))

    pub pending_kept :
        (a b : Doc) (x : Text) (d : Directory)
        → env.encode a ≡ some x
        → IsStaged b d ⊎ IsMoved b d
        → IsStaged b (set_temp (env.name a) none (set_file a (some x) d))
          ⊎ IsMoved b (set_temp (env.name a) none (set_file a (some x) d))
    pending_kept a b x d e h = elim (Bool-cases (same_doc a b)) [
      | inl s ↦ inr (
          subst (λ c. IsMoved c (set_temp (env.name a) none (set_file a (some x) d)))
            (same_doc_eq a b s) (IsMoved-now a x d e))
      | inr s ↦ elim h [
        | inl g ↦ inl (IsStaged-kept a b none (set_file a (some x) d) s g)
        | inr g ↦ inr (IsMoved-kept a b (some x) d s g)
      ]
    ]

    abbrev pub AllApart : Doc → List Doc → Type 0
    AllApart a = All (λ b. same_doc a b ≡ false)

    abbrev AllStaged : List Doc → Directory → Type 0
    AllStaged l d = All (λ b. IsStaged b d) l

    abbrev pub EachMoved : List Doc → Directory → Type 0
    EachMoved l d = All (λ b. IsMoved b d) l

    AllStaged-kept :
        (a : Doc) (l : List Doc) (x : Option Text) (d : Directory)
        → AllApart a l
        → AllStaged l d
        → AllStaged l (set_temp (env.name a) x d)
    AllStaged-kept a [] x d s h = tt
    AllStaged-kept a (b ∷ l) x d (s, r) (h, k) =
        (IsStaged-kept a b x d s h, AllStaged-kept a l x d r k)

    pub all_moved_kept :
        (a : Doc) (l : List Doc) (x : Text) (d : Directory)
        → AllApart a l
        → EachMoved l d
        → EachMoved l (set_temp (env.name a) none (set_file a (some x) d))
    all_moved_kept a [] x d s h = tt
    all_moved_kept a (b ∷ l) x d (s, r) (h, k) =
        (IsMoved-kept a b (some x) d s h, all_moved_kept a l x d r k)

    abbrev Prepared : List Doc → Directory → Type 0
    Prepared l d = IsOld d × AllStaged l d

    opens :
        (o : Option Text) (a : Doc) (l : List Doc) (d : Directory) (n : ℕ)
        → AllApart a l
        → Prepared l d
        → Ensures (Prepared l) IsOld IsOld (open_new env o (env.name a) d n)
    opens none a l d n s (h, k) = calls env create _ d n (h, AllStaged-kept a l (some []) d s k) h h
    opens (some x) a l d n s (h, k) = fails d n h

    stages_encoded :
        (o : Option Text) (a : Doc) (l : List Doc) (d : Directory) (n : ℕ)
        → env.encode a ≡ o
        → AllApart a l
        → Prepared l d
        → Ensures (Prepared (a ∷ l)) IsOld IsOld (stage_encoded env o (env.name a) d n)
    unfolding open_file
    stages_encoded none a l d n e s (h, k) = fails d n h
    stages_encoded (some x) a l d n e s h =
        in_turn (open_file env (env.name a)) _ d n (opens (d.temp (env.name a)) a l d n s h)
          (λ u i g.
            in_turn (call env write (set_temp (env.name a) (some x))) _ u i
              (calls env write (set_temp (env.name a) (some x)) u i
                (
                  g.0,
                  (
                    (x, e, rw (text_eq_refl (env.name a)) refl),
                    AllStaged-kept a l (some x) u s g.1,
                  ),
                )
                g.0 g.0)
              (λ v j p.
                in_turn (call env sync unchanged) _ v j (calls env sync unchanged v j p p.0 p.0)
                  (λ w m r. calls env close unchanged w m r r.0 r.0)))

    abbrev pub Apart : List Doc → List Doc → Type 0
    Apart [] l = Unit
    Apart (a ∷ rest) l = AllApart a l × Apart rest (a ∷ l)

    abbrev pub onto : List Doc → List Doc → List Doc
    onto [] l = l
    onto (a ∷ rest) l = onto rest (a ∷ l)

    IsOld-cleaned : (t : Text) (d : Directory) → IsOld d → IsOld (set_temp t none d)
    IsOld-cleaned t d h = h

    stages_all :
        (rest l : List Doc) (ts : List Text) (d : Directory) (n : ℕ)
        → Apart rest l
        → Prepared l d
        → Ensures (Prepared (onto rest l)) IsOld IsOld (stage_all env rest ts d n)
    unfolding stage_all stage
    stages_all [] l ts d n s h = returns d n h
    stages_all (a ∷ rest) l ts d n (s, r) h =
        in_turn (deferring env ts (stage env a)) _ d n
          (defers env ts (stage env a) d n IsOld-cleaned (λ _ p. p)
            (stages_encoded (env.encode a) a l d n refl s h))
          (λ e k g. stages_all rest (a ∷ l) _ e k r g)

    -- Part of the temporaries are moved, those of `l`, and those of `rest` are still to be.
    abbrev Moving : List Doc → List Doc → Directory → Type 0
    Moving rest l d = IsPending d × AllStaged rest d × EachMoved l d

    moves :
        (a : Doc) (rest l : List Doc) (d : Directory) (n : ℕ)
        → AllApart a rest
        → AllApart a l
        → Moving (a ∷ rest) l d
        → Ensures (Moving rest (a ∷ l)) IsGivenUp IsSafe (move env a (env.name a) d n)
    unfolding move
    moves a rest l d n s r ((c, p), ((t, e, h), k), m) = rw h (
        calls_work env rename (λ u. set_temp (env.name a) none (set_file a (some t) u)) d n
          q.renames
          (
            (c, λ b. pending_kept a b t d e (p b)),
            AllStaged-kept a rest none (set_file a (some t) d) s k,
            (IsMoved-now a t d e, all_moved_kept a l t d r m),
          )
          (inr (inr (c, p))))

    abbrev Ordered : List Doc → List Doc → Type 0
    Ordered [] l = Unit
    Ordered (a ∷ rest) l = AllApart a rest × AllApart a l × Ordered rest (a ∷ l)

    moves_all :
        (rest l : List Doc) (d : Directory) (n : ℕ)
        → Ordered rest l
        → Moving rest l d
        → Ensures (Moving [] (onto rest l)) IsGivenUp IsSafe (move_all env rest d n)
    unfolding move_all
    moves_all [] l d n o h = returns d n h
    moves_all (a ∷ rest) l d n (s, r, o) h =
        in_turn (move env a (env.name a)) _ d n (moves a rest l d n s r h)
          (λ e k g. moves_all rest (a ∷ l) e k o g)

    all_staged : (d : Directory) → AllStaged (onto all_docs []) d → (a : Doc) → IsStaged a d
    all_staged d h hot = h.1.1.1.0
    all_staged d h receipts = h.1.1.0
    all_staged d h outbox = h.1.0
    all_staged d h scheduler = h.0

    pub all-IsMoved : (d : Directory) → EachMoved (onto all_docs []) d → (a : Doc) → IsMoved a d
    all-IsMoved d h hot = h.1.1.1.0
    all-IsMoved d h receipts = h.1.1.0
    all-IsMoved d h outbox = h.1.0
    all-IsMoved d h scheduler = h.0

    all-Ordered : Ordered all_docs []
    all-Ordered = (
      (refl, (refl, (refl, tt))),
      tt,
      (
        (refl, (refl, tt)),
        (refl, tt),
        ((refl, tt), (refl, (refl, tt)), (tt, (refl, (refl, (refl, tt))), tt)),
      ),
    )

    pub all-Apart : Apart all_docs []
    all-Apart = (tt, ((refl, tt), ((refl, (refl, tt)), ((refl, (refl, (refl, tt))), tt))))

    -- After the write of commit.json.
    abbrev Decided : Directory → Type 0
    Decided d = (d.commit ≡ some env.name) × AllStaged (onto all_docs []) d

    Decided-Moving : (d : Directory) → Decided d → Moving all_docs [] d
    Decided-Moving d (c, h) =
        ((c, λ a. inl (all_staged d h a)), (h.1.1.1.0, (h.1.1.0, (h.1.0, (h.0, tt)))), tt)

    decides :
        (d : Directory) (n : ℕ)
        → Prepared (onto all_docs []) d
        → Ensures Decided IsGivenUp IsSafe (write_json env (set_commit (some env.name)) d n)
    unfolding write_json
    decides d n h =
        in_turn {P = Prepared (onto all_docs [])} (call env prepare unchanged) _ d n
          (calls env prepare unchanged d n h (inl h.0) (inl h.0))
          (λ u i g.
            in_turn {P = Decided} (call env rename (set_commit (some env.name))) _ u i
              (calls_work env rename (set_commit (some env.name)) u i q.renames (refl, g.1)
                (inl g.0))
              (λ v j p.
                calls_work env sync_dir unchanged v j q.syncs p (inr (inr (Decided-Moving v p).0))))

    publishes :
        (d : Directory) (n : ℕ)
        → Prepared (onto all_docs []) d
        → Ensures IsNew IsGivenUp IsSafe (publish env d n)
    unfolding publish
    publishes d n h =
        in_turn (write_json env (set_commit (some env.name))) _ d n (decides d n h) (λ u i g.
          in_turn (move_all env all_docs) _ u i
            (moves_all all_docs [] u i all-Ordered (Decided-Moving u g))
            (λ v j p.
              calls env remove (set_commit none) v j (refl, λ a. (all-IsMoved v p.2 a).1)
                (inr (p.0.0, all-IsMoved v p.2)) (inr (inr p.0))))

    ensures_meta_by :
        (o : Option Text) (d : Directory) (n : ℕ)
        → IsOld d
        → Ensures IsOld IsOld IsOld (ensure_meta_by env o d n)
    unfolding write_json
    ensures_meta_by (some x) d n h = returns d n h
    ensures_meta_by none d n h =
        in_turn (call env prepare unchanged) _ d n (calls env prepare unchanged d n h h h) (λ u i g.
          in_turn (call env rename (set_meta env.encoded_meta)) _ u i
            (calls env rename (set_meta env.encoded_meta) u i g g g)
            (λ v j p. calls env sync_dir unchanged v j p p p))

    ensures_meta :
        (d : Directory) (n : ℕ) → IsOld d → Ensures IsOld IsOld IsOld (ensure_meta env d n)
    unfolding ensure_meta
    ensures_meta d n h =
        in_turn (call env make_dir unchanged) _ d n (calls env make_dir unchanged d n h h h)
          (λ u i g.
            in_turn (call env stat unchanged) _ u i (calls env stat unchanged u i g g g)
              (λ v j p. ensures_meta_by v.meta v j p))

    -- Where the write returns the documents are the new ones; where it returns an error or the process
    -- dies the directory is safe.
    pub write_documents-Ensures :
        (d : Directory) (n : ℕ) → IsOld d → Ensures IsNew IsSafe IsSafe (write_documents env d n)
    unfolding write_documents
    write_documents-Ensures d n h =
        in_turn (ensure_meta env) _ d n
          (weaken (ensures_meta d n h) (λ _ g. g) (λ _ g. inl g) (λ _ g. inl g))
          (λ u i g.
            in_turn (stage_all env all_docs []) _ u i
              (weaken (stages_all all_docs [] [] u i all-Apart (g, tt)) (λ _ p. p) (λ _ p. inl p)
                (λ _ p. inl p))
              (λ v j p.
                in_turn (deferring env (map env.name all_docs) (publish env)) _ v j
                  (weaken
                    (defers env (map env.name all_docs) (publish env) v j removed-IsGivenUp
                      given_up-IsSafe (publishes v j p))
                    (λ _ r. r) given_up-IsSafe (λ _ r. r))
                  (λ w m r. calls env sync_dir unchanged w m r (inr (inl r)) (inr (inl r)))))
