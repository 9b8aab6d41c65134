-- ===== src/MailStore/Merged.antt =====
-- What the merge of the documents holds, and the receipts that are retained.
use pua.Prelude.{
  ℕ, ◌+◌, false, ◌≡◌, refl, sym, ap, ◌∙◌, subst, inl, inr, Bool-cases, List, [], ◌∷◌, Text, text_eq,
  if_cases, arith,
}
use pua.Mailbox.Message.{MailMessage, Mailbox}
use pua.Mailbox.Operations.{ResourceMailbox}
use pua.MailStore.Maps.{In, here, there, put, has_key}
use pua.MailStore.Members.{In-sort, Unique, text_eq_sym}
use pua.MailStore.Entries.{has_key-put, In-put_self, In-put_other}
use pua.MailStore.Receipts.{Receipt, message_of_receipt}
use pua.MailStore.Documents.{in_order, Clock, is_retained, retained_from}
use pua.MailStore.Load.{id_of, put_all, receive, add_receipts, merge}
use pua.MailStore.Kept.{receipt_id}

-- An entry of a list without the key has another one.
other_key {ℓ} :
    {A : Type ℓ} (key : A → Text) {y : A} (k : Text) (xs : List A)
    → has_key key k xs ≡ false
    → In y xs
    → text_eq (key y) k ≡ false
unfolding has_key
other_key key k [] h i = absurd (elim i [ ])
other_key key k (x ∷ xs) h (here z zs e) = rw (ap (λ u. text_eq (key u) k) e) (ground (arith, h))
other_key key k (x ∷ xs) h (there z zs i) = other_key key k xs (ground (arith, h)) i

put_all-keeps :
    {y : MailMessage} (acc ms : Mailbox)
    → In y acc
    → has_key id_of y.id ms ≡ false
    → In y (put_all acc ms)
unfolding put_all has_key
put_all-keeps acc [] i h = i
put_all-keeps {y} acc (m ∷ ms) i h =
    put_all-keeps (put id_of m acc) ms
      (In-put_other id_of m i (text_eq_sym y.id m.id ∙ ground (arith, h))) (ground (arith, h))

In-put_all :
    {y : MailMessage} (acc : Mailbox) {ms : Mailbox}
    → In y ms
    → Unique id_of ms
    → In y (put_all acc ms)
unfolding put_all
In-put_all {y} acc (here m ms e) (h, u) =
    put_all-keeps (put id_of m acc) ms
      (subst (λ z. In z (put id_of m acc)) (sym e) (In-put_self id_of m acc))
      (subst (λ (z : MailMessage). has_key id_of z.id ms ≡ false) (sym e) h)
In-put_all acc (there m ms i) (h, u) = In-put_all (put id_of m acc) i u

has_key-put_all :
    (k : Text) (acc ms : Mailbox)
    → has_key id_of k acc ≡ false
    → has_key id_of k ms ≡ false
    → has_key id_of k (put_all acc ms) ≡ false
unfolding put_all has_key
has_key-put_all k acc [] a h = a
has_key-put_all k acc (m ∷ ms) a h =
    has_key-put_all k (put id_of m acc) ms (has_key-put id_of k m acc ∙ ground (arith, a, h))
      (ground (arith, h))

receive-keeps :
    {y : MailMessage} (b : ResourceMailbox) (r : Receipt)
    → In y b.messages
    → In y (receive b r).messages
unfolding receive
receive-keeps {y} b r i = elim (Bool-cases (has_key id_of r.id b.messages)) [
  | inl e ↦ rw e i
  | inr e ↦ rw e (In-put_other id_of (message_of_receipt r) i (other_key id_of r.id b.messages e i))
]

receive-In :
    (b : ResourceMailbox) (r : Receipt)
    → has_key id_of r.id b.messages ≡ false
    → In (message_of_receipt r) (receive b r).messages
unfolding receive
receive-In b r e = rw e (In-put_self id_of (message_of_receipt r) b.messages)

has_key-receive :
    (k : Text) (b : ResourceMailbox) (r : Receipt)
    → text_eq r.id k ≡ false
    → has_key id_of k b.messages ≡ false
    → has_key id_of k (receive b r).messages ≡ false
unfolding receive has_key message_of_receipt
has_key-receive k b r n h = elim (Bool-cases (has_key id_of r.id b.messages)) [
  | inl e ↦ rw e h
  | inr e ↦ rw e (has_key-put id_of k (message_of_receipt r) b.messages ∙ rw n h)
]

add_receipts-keeps :
    {y : MailMessage} (b : ResourceMailbox) (rs : List Receipt)
    → In y b.messages
    → In y (add_receipts b rs).messages
unfolding add_receipts
add_receipts-keeps b [] i = i
add_receipts-keeps b (r ∷ rs) i = add_receipts-keeps (receive b r) rs (receive-keeps b r i)

In-add_receipts :
    {r : Receipt} (b : ResourceMailbox) {rs : List Receipt}
    → In r rs
    → Unique receipt_id rs
    → has_key id_of r.id b.messages ≡ false
    → In (message_of_receipt r) (add_receipts b rs).messages
unfolding add_receipts
In-add_receipts {r} b (here x xs e) (u, v) h = add_receipts-keeps (receive b x) xs (
    subst (λ z. In (message_of_receipt z) (receive b x).messages) (sym e)
      (receive-In b x (ap (λ (z : Receipt). has_key id_of z.id b.messages) (sym e) ∙ h)))
In-add_receipts {r} b (there x xs i) (u, v) h =
    In-add_receipts (receive b x) i v
      (has_key-receive r.id b x (text_eq_sym x.id r.id ∙ other_key receipt_id x.id xs u i) h)

-- The messages of the two documents, as they are loaded.
pub merge-hot :
    {y : MailMessage} (next : ℕ) (hot : Mailbox) (rs : List Receipt)
    → In y hot
    → Unique id_of hot
    → In y (merge next hot rs).messages
unfolding merge
merge-hot next hot rs i u = In-sort in_order (add_receipts-keeps _ rs (In-put_all [] i u))

pub merge-receipt :
    {r : Receipt} (next : ℕ) (hot : Mailbox) (rs : List Receipt)
    → In r rs
    → Unique receipt_id rs
    → has_key id_of r.id hot ≡ false
    → In (message_of_receipt r) (merge next hot rs).messages
unfolding merge
merge-receipt {r} next hot rs i u h =
    In-sort in_order (In-add_receipts _ i u (has_key-put_all r.id [] hot refl h))

has_key-retained :
    (clock : Clock) (k : Text) (index : ℕ) (rs : List Receipt)
    → has_key receipt_id k rs ≡ false
    → has_key receipt_id k (retained_from clock index rs) ≡ false
unfolding has_key retained_from
has_key-retained clock k index [] h = refl
has_key-retained clock k index (r ∷ rs) h = elim (Bool-cases (is_retained clock index r)) [
  | inl e ↦ rw e (ground (arith, h, has_key-retained clock k (index + 1) rs))
  | inr e ↦ rw e (has_key-retained clock k (index + 1) rs (ground (arith, h)))
]

pub Unique-retained :
    (clock : Clock) (index : ℕ) (rs : List Receipt)
    → Unique receipt_id rs
    → Unique receipt_id (retained_from clock index rs)
unfolding retained_from
Unique-retained clock index [] u = tt
Unique-retained clock index (r ∷ rs) (h, u) =
    if_cases (Unique receipt_id) (is_retained clock index r)
      (has_key-retained clock r.id (index + 1) rs h, Unique-retained clock (index + 1) rs u)
      (Unique-retained clock (index + 1) rs u)
