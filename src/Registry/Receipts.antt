-- ===== src/Registry/Receipts.antt =====
-- The receipts of cleanups and their verification (runtime/src/resources.ts).
use mathlib.Core.List.{Memᴰ}
use ai_macos.Base.{
  ℕ, String, ◌≡◌, refl, sym, ap, ◌∙◌, ◌⊎◌, inl, inr, Bool, true, false, negate, ◌&&◌, Option, none,
  some, List, [], ◌∷◌, arith, ◌==◌, string_eq, nat_eq, ok, Result-cases, Bool-cases, ==_refl, any,
  length,
}
use ai_macos.Base.Dict
use ai_macos.Base.Dict.{Dict, get-set}
use ai_macos.Resource.{Handle, HandleState, active, CleanupOutcome, Lease, Receipt, receipt_eq}
use ai_macos.Registry.{Host, Registry}
use ai_macos.Registry.Cleanup.{
  Planned, Staged, new_receipt, leases_of, plan, owned_resources, is_complete_cleanup,
  prepare_cleanup, finish, finish_all, commit, record_receipt,
}
use ai_macos.Registry.Methods.{apply_cleanup, verify}
use ai_macos.Registry.Release.{prepare_cases, prepared_commits}

abbrev matches : Handle → Lease → Bool
matches h l = (l.lease_id == h.lease_id) && (l.lease_generation == h.lease_generation)

pub any-leases_of :
    (h : Handle) (hs : List Handle) → Memᴰ h hs → any (matches h) (leases_of hs) ≡ true
any-leases_of h [] m = elim m [ ]
any-leases_of h (x ∷ hs) (Memᴰ.head e) = ground arith
any-leases_of h (x ∷ hs) (Memᴰ.tail m) = ground (arith, any-leases_of h hs m)

none_missing :
    (leases : List Lease) (hs : List Handle)
    → ((h : Handle) → Memᴰ h hs → any (matches h) leases ≡ true)
    → any (λ h. negate (any (matches h) leases)) hs ≡ false
none_missing leases [] f = refl
none_missing leases (h ∷ hs) f =
    ground (arith, f h (Memᴰ.head refl), none_missing leases hs (λ x m. f x (Memᴰ.tail m)))

pub length-leases_of : (hs : List Handle) → length (leases_of hs) ≡ length hs
length-leases_of [] = refl
length-leases_of (h ∷ hs) = omega (arith, length-leases_of hs)

finish-receipts :
    (receipt : Option Receipt) (reg : Registry) (p : Planned) {reg' : Registry}
    → finish receipt reg p ≡ ok reg'
    → reg'.receipts ≡ reg.receipts
unfolding finish
finish-receipts receipt reg p h = ground arith

finish_all-receipts :
    (receipt : Option Receipt) (ps : List Planned) (reg : Registry) {reg' : Registry}
    → finish_all receipt reg ps ≡ ok reg'
    → reg'.receipts ≡ reg.receipts
unfolding finish_all
finish_all-receipts receipt [] reg h = ground arith
finish_all-receipts receipt (p ∷ ps) reg {reg'} h = elim (Result-cases (finish receipt reg p)) [
  | inr (e, failed) ↦ absurd (ground arith)
  | inl (next, done) ↦
      finish_all-receipts receipt ps next {reg' = reg'} (ground arith)
      ∙ finish-receipts receipt reg p done
]

-- What `prepareCleanup` stages as the receipt.
pub staged_receipt :
    (host : Host) (now : ℕ) (from : HandleState) (reg : Registry) (operation_id : String)
    (handles : List Handle) (cleanup : CleanupOutcome) {prepared : Registry} {staged : Staged}
    → prepare_cleanup host now from reg operation_id handles cleanup ≡ ok (prepared, staged)
    → (is_complete_cleanup cleanup ≡ true)
        × (staged.receipt ≡ some (new_receipt host reg.drawn now operation_id handles))
      ⊎ (is_complete_cleanup cleanup ≡ false) × (staged.receipt ≡ none)
unfolding prepare_cleanup
staged_receipt host now from reg op hs cleanup h =
    elim (Result-cases (plan reg.slots from op (owned_resources cleanup))) [
      | inr (e, failed) ↦ absurd (ground arith)
      | inl (ps, planned) ↦ elim (Bool-cases (is_complete_cleanup cleanup)) [
        | inl complete ↦ inl (complete, ground arith)
        | inr partial ↦ inr (partial, ground arith)
      ]
    ]

commit-receipts :
    (reg : Registry) (staged : Staged) {reg' : Registry} {after : Staged}
    → staged.committed ≡ false
    → commit reg staged ≡ ok (reg', after)
    → reg'.receipts ≡ record_receipt staged.receipt reg.receipts
unfolding commit
commit-receipts reg staged {reg'} fresh h =
    let start = record reg { receipts = record_receipt staged.receipt reg.receipts } in
    elim (Result-cases (finish_all staged.receipt start staged.planned)) [
      | inr (e, failed) ↦ absurd (ground arith)
      | inl (next, done) ↦
          let same : next ≡ reg' = ground arith in
          ap (λ (r : Registry). r.receipts) (sym same)
          ∙ finish_all-receipts staged.receipt staged.planned start done
    ]

verify_stored :
    (host : Host) (reg : Registry) (drawn now : ℕ) (operation_id : String) (handles : List Handle)
    → let receipt = new_receipt host drawn now operation_id handles in
      Dict.get receipt.receipt_id reg.receipts ≡ some receipt → verify reg receipt handles ≡ ok tt
unfolding verify new_receipt
verify_stored host reg drawn now op hs found =
    ground
      (arith, length-leases_of hs, none_missing (leases_of hs) hs (λ h m. any-leases_of h hs m))

-- The commit of a staged cleanup that has a receipt keeps it, and it verifies.
verify-commit :
    (host : Host) (now drawn : ℕ) (prepared : Registry) (staged : Staged) (operation_id : String)
    (handles : List Handle) {after : Registry} {done : Staged}
    → staged.receipt ≡ some (new_receipt host drawn now operation_id handles)
    → staged.committed ≡ false
    → commit prepared staged ≡ ok (after, done)
    → verify after (new_receipt host drawn now operation_id handles) handles ≡ ok tt
verify-commit host now drawn prepared staged op hs {after} {done} issued fresh h =
    let r = new_receipt host drawn now op hs in
    verify_stored host after drawn now op hs (
      ap (Dict.get r.receipt_id) (
        commit-receipts prepared staged {after = done} fresh h
        ∙ ap (λ o. record_receipt o prepared.receipts) issued)
      ∙ get-set r.receipt_id r.receipt_id r prepared.receipts
      ∙ rw (==_refl r.receipt_id) refl)

module _ (host : Host) (now : ℕ) (reg : Registry) {reg' : Registry} (operation_id : String)
    (handles : List Handle) (cleanup : CleanupOutcome) {receipt : Option Receipt}
    (applied : apply_cleanup host now reg operation_id handles cleanup ≡ ok (reg', receipt)) where
  -- A cleanup has a receipt exactly when it is complete, and the registry then verifies the
  -- receipt for the operation's handles.
  pub verify-apply_cleanup :
      (is_complete_cleanup cleanup ≡ true)
        × ((r : Receipt) × (receipt ≡ some r) × (verify reg' r handles ≡ ok tt))
      ⊎ (is_complete_cleanup cleanup ≡ false) × (receipt ≡ none)
  unfolding apply_cleanup
  verify-apply_cleanup =
      elim (Result-cases (prepare_cleanup host now active reg operation_id handles cleanup)) [
        | inr (e, failed) ↦ absurd (ground arith)
        | inl ((prepared, staged), returned) ↦
            let w = prepare_cases host now active reg operation_id handles cleanup returned in
            let (r, done, _, _) = prepared_commits w in
            elim (staged_receipt host now active reg operation_id handles cleanup returned) [
              | inl (complete, issued) ↦
                  let good =
                    verify-commit host now reg.drawn prepared staged operation_id handles issued
                      w.fresh done in
                  inl (
                    complete,
                    (
                      new_receipt host reg.drawn now operation_id handles,
                      ground arith,
                      ground arith,
                    ),
                  )
              | inr (partial, nothing) ↦ inr (partial, ground arith)
            ]
      ]
