-- ===== src/Generation/OperationId.antt =====
-- lifecycleOperationID of internal/serve/generation_lifecycle.go as the identity of an effect.
use pua.Prelude.{ℕ, ◌≡◌, ◌≢◌, [], ◌∷◌, ◌++◌, arith, Text, All}
use pua.Generation.Facts.{Operation, operation_text}
use pua.Generation.Steps.{separator, lifecycle_operation_id}

abbrev pub NoNul : Text → Type 0
NoNul s = All (λ (c : ℕ). c ≢ 0) s

-- A separated prefix without the separator is determined by the whole.
prefix-injective :
    (a b r s : Text)
    → NoNul a
    → NoNul b
    → a ++ (separator ++ r) ≡ b ++ (separator ++ s)
    → (a ≡ b) × (r ≡ s)
prefix-injective [] [] r s ha hb e = ground arith
prefix-injective [] (d ∷ b) r s ha hb e = ground arith
prefix-injective (c ∷ a) [] r s ha hb e = ground arith
prefix-injective (c ∷ a) (d ∷ b) r s ha hb e = ground (arith, prefix-injective a b r s ha.1 hb.1)

-- Two operations with one operation id are the same operation on the same generation, session, turn
-- and message, where none of the identities but the message's holds the separator NUL.
pub lifecycle_operation_id-injective :
    (op op' : Operation) (g g' s s' t t' m m' : Text)
    → NoNul (operation_text op)
    → NoNul (operation_text op')
    → NoNul g
    → NoNul g'
    → NoNul s
    → NoNul s'
    → NoNul t
    → NoNul t'
    → lifecycle_operation_id op g s t m ≡ lifecycle_operation_id op' g' s' t' m'
    → (operation_text op ≡ operation_text op') × (g ≡ g') × (s ≡ s') × (t ≡ t') × (m ≡ m')
unfolding lifecycle_operation_id
lifecycle_operation_id-injective op op' g g' s s' t t' m m' ho ho' hg hg' hs hs' ht ht' e =
    let (eo, e1) = prefix-injective _ _ _ _ ho ho' e in
    let (eg, e2) = prefix-injective _ _ _ _ hg hg' e1 in
    let (es, e3) = prefix-injective _ _ _ _ hs hs' e2 in
    let (et, em) = prefix-injective _ _ _ _ ht ht' e3 in (eo, eg, es, et, em)
