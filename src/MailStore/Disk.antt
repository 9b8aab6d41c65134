-- ===== src/MailStore/Disk.antt =====
-- The directory of a resource's mailbox and the calls of the operating system on it, for
-- internal/serve/resource_mailbox_store.go. A program stops at a crash, which comes after a number of
-- calls; a file is its text.
use pua.Prelude.{ℕ, zero, suc, Bool, true, false, Option, some, Text, text_eq, if◌then◌else◌}

-- hot.json, receipts.json, outbox.json and scheduler.json.
pub data Doc : Type 0 where
  hot receipts outbox scheduler : Doc

abbrev pub same_doc : Doc → Doc → Bool
same_doc hot hot = true
same_doc receipts receipts = true
same_doc outbox outbox = true
same_doc scheduler scheduler = true
same_doc _ _ = false

-- The four documents, their temporaries by name, meta.json, and commit.json with the names of the
-- temporaries.
pub record Directory : Type 0 where
  pub file : Doc → Option Text
  pub temp : Text → Option Text
  pub meta : Option Text
  pub commit : Option (Doc → Text)

abbrev pub set_temp : Text → Option Text → Directory → Directory
set_temp t x d = record d { temp = λ u. if text_eq t u then x else d.temp u }

abbrev pub set_file : Doc → Option Text → Directory → Directory
set_file a x d = record d { file = λ b. if same_doc a b then x else d.file b }

abbrev pub set_meta : Text → Directory → Directory
set_meta t d = record d { meta = some t }

abbrev pub set_commit : Option (Doc → Text) → Directory → Directory
set_commit c d = record d { commit = c }

-- The kinds of calls; `prepare` stands for all that writeResourceMailboxFile does before its rename.
pub data Call : Type 0 where
  make_dir stat read prepare create write sync close rename remove sync_dir : Call

-- What a program meets: whether a call works, by its kind and the number of calls that are left; what
-- json.MarshalIndent makes of a document; and the names of the temporaries.
pub record DiskEnv : Type 0 where
  pub works : Call → ℕ → Bool
  pub encode : Doc → Option Text
  pub encoded_meta : Text
  pub name : Doc → Text

-- How a program ends: it returns, it returns an error, or the process dies.
pub data Run : Type 0 where
  returned failed : Directory → ℕ → Run
  crashed : Directory → Run

-- The number is that of the calls before the crash.
abbrev pub Program : Type 0
Program = Directory → ℕ → Run

abbrev pub skip : Program
skip d n = returned d n

abbrev pub fail : Program
fail d n = failed d n

infixr 5 ◌>>◌
unfoldable pub ◌>>◌ : Program → Program → Program
(p >> q) d n = elim (p d n) [
  | returned e k ↦ q e k
  | failed e k ↦ failed e k
  | crashed e ↦ crashed e
]

-- One call: it works and changes the directory, or it does not.
unfoldable pub call : DiskEnv → Call → (Directory → Directory) → Program
call env c f d zero = crashed d
call env c f d (suc k) = if env.works c k then returned (f d) k else failed d k
