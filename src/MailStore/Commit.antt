-- ===== src/MailStore/Commit.antt =====
-- writeResourceMailboxStoreDocuments and recoverResourceMailboxTransaction of
-- internal/serve/resource_mailbox_store.go.
use pua.Prelude.{
  zero, suc, Option, none, some, List, [], ◌∷◌, ◌++◌, map, Text, is_blank, trim_space,
  if◌then◌else◌,
}
use pua.MailStore.Disk.{
  Doc, hot, receipts, outbox, scheduler, Directory, set_temp, set_file, set_meta, set_commit,
  make_dir, stat, read, prepare, create, write, sync, close, rename, remove, sync_dir, DiskEnv,
  returned, failed, crashed, Program, skip, fail, ◌>>◌, call,
}

abbrev pub all_docs : List Doc
all_docs = hot ∷ receipts ∷ outbox ∷ scheduler ∷ []

abbrev pub unchanged : Directory → Directory
unchanged d = d

module _ (env : DiskEnv) where
  -- os.OpenFile with O_EXCL.
  abbrev pub open_new : Option Text → Text → Program
  open_new none t = call env create (set_temp t (some []))
  open_new (some x) t = fail

  unfoldable pub open_file : Text → Program
  unfolding call
  open_file t d = open_new (d.temp t) t d

  abbrev pub stage_encoded : Option Text → Text → Program
  stage_encoded none t = fail
  stage_encoded (some x) t =
      open_file t
      >> call env write (set_temp t (some x))
      >> call env sync unchanged
      >> call env close unchanged

  -- One document of the loop that writes the temporaries.
  unfoldable pub stage : Doc → Program
  unfolding ◌>>◌ call open_file
  stage a = stage_encoded (env.encode a) (env.name a)

  -- The deferred removal of the temporaries, which ignores its errors.
  unfoldable pub clean : List Text → Program
  clean [] d n = failed d n
  clean (t ∷ ts) d zero = crashed d
  clean (t ∷ ts) d (suc k) = clean ts (if env.works remove k then set_temp t none d else d) k

  -- A part that returns while the temporaries are to be removed.
  unfoldable pub deferring : List Text → Program → Program
  unfolding clean
  deferring ts p d n = elim (p d n) [
    | returned e k ↦ returned e k
    | failed e k ↦ clean ts e k
    | crashed e ↦ crashed e
  ]

  unfoldable pub stage_all : List Doc → List Text → Program
  unfolding ◌>>◌ stage deferring
  stage_all [] ts = skip
  stage_all (a ∷ rest) ts = deferring ts (stage a) >> stage_all rest (ts ++ env.name a ∷ [])

  -- writeResourceMailboxJSON, by what its rename does.
  unfoldable pub write_json : (Directory → Directory) → Program
  unfolding ◌>>◌ call
  write_json f = call env prepare unchanged >> call env rename f >> call env sync_dir unchanged

  abbrev pub move_by : Option Text → Doc → Text → Program
  move_by none a t = fail
  move_by (some x) a t = call env rename (λ d. set_temp t none (set_file a (some x) d))

  -- os.Rename of a temporary to its document.
  unfoldable pub move : Doc → Text → Program
  unfolding call
  move a t d = move_by (d.temp t) a t d

  unfoldable pub move_all : List Doc → Program
  unfolding ◌>>◌ move
  move_all [] = skip
  move_all (a ∷ rest) = move a (env.name a) >> move_all rest

  abbrev pub ensure_meta_by : Option Text → Program
  ensure_meta_by none = write_json (set_meta env.encoded_meta)
  ensure_meta_by (some x) = skip

  unfoldable pub ensure_meta : Program
  unfolding ◌>>◌ call write_json
  ensure_meta =
      call env make_dir unchanged >> call env stat unchanged >> λ d. ensure_meta_by d.meta d

  -- From the write of commit.json to its removal.
  unfoldable pub publish : Program
  unfolding ◌>>◌ call write_json move_all
  publish =
      write_json (set_commit (some env.name))
      >> move_all all_docs
      >> call env remove (set_commit none)

  -- writeResourceMailboxStoreDocuments.
  unfoldable pub write_documents : Program
  unfolding ◌>>◌ call ensure_meta stage_all deferring publish
  write_documents =
      ensure_meta
      >> stage_all all_docs []
      >> deferring (map env.name all_docs) publish
      >> call env sync_dir unchanged

  abbrev pub redo_by : Option Text → Doc → Text → Program
  redo_by none a t = skip
  redo_by (some x) a t = move a t

  -- One document of the loop of recoverResourceMailboxTransaction.
  unfoldable pub redo : Doc → Text → Program
  unfolding ◌>>◌ call move
  redo a t =
      if is_blank (trim_space t)
      then skip
      else call env stat unchanged >> λ d. redo_by (d.temp t) a t d

  unfoldable pub redo_all : List Doc → (Doc → Text) → Program
  unfolding ◌>>◌ redo
  redo_all [] names = skip
  redo_all (a ∷ rest) names = redo a (names a) >> redo_all rest names

  abbrev pub recover_by : Option (Doc → Text) → Program
  recover_by none = skip
  recover_by (some names) =
      redo_all all_docs names >> call env remove (set_commit none) >> call env sync_dir unchanged

  -- recoverResourceMailboxTransaction.
  unfoldable pub recover : Program
  unfolding ◌>>◌ call redo_all
  recover = call env read unchanged >> λ d. recover_by d.commit d
