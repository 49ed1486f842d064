-- ===== src/Registry/Preserve.antt =====
-- The invariant of the slots over the commit of a cleanup (runtime/src/resources.ts).
use ai_macos.Base.{
  ℕ, String, ◌≡◌, refl, ap, subst, inl, inr, Option, List, [], ◌∷◌, arith, string_eq, ok,
  Result-cases, Option-cases, Bool-cases,
}
use ai_macos.Base.Dict
use ai_macos.Base.Dict.{Dict}
use ai_macos.Resource.{Handle, quarantined, TerminalOutcome, released, Receipt}
use ai_macos.Registry.{Slot, Registry}
use ai_macos.Registry.Cleanup.{
  Planned, Staged, free_slot, mark_slot, finish, finish_all, commit, record_receipt,
}
use ai_macos.Registry.Invariant.{IsSlot, IsSound, set-IsSound, delete-IsSound}

marked-IsSlot :
    (key : String) (s : Slot) (object : ℕ)
    → IsSlot key s
    → IsSlot key (record {
      issued = s.issued;
      current = record s.current { state = quarantined };
      object = object;
    })
marked-IsSlot key s object w = record {
  keyed = w.keyed;
  was_active = w.was_active;
  now = elim w.now [
    | inl same ↦ inr (ap (λ (h : Handle). record h { state = quarantined }) same)
    | inr already ↦ inr (ap (λ (h : Handle). record h { state = quarantined }) already)
  ];
}

SoundReg : Registry → Type 0
SoundReg reg = IsSound reg.slots reg.objects

finish-IsSound :
    (receipt : Option Receipt) (reg : Registry) (p : Planned) {after : Registry}
    → SoundReg reg
    → finish receipt reg p ≡ ok after
    → SoundReg after
unfolding finish SoundReg
finish-IsSound receipt reg p {after} v h = go p.resource.outcome refl
  where
    go : (t : TerminalOutcome) → p.resource.outcome ≡ t → SoundReg after
    go released e =
        subst SoundReg {x = free_slot receipt reg p} {y = after} (ground arith)
          (delete-IsSound v p.key)
    go TerminalOutcome.quarantined e = elim (Option-cases (Dict.get p.key reg.slots)) [
      | inl missing ↦ absurd (ground arith)
      | inr (s, found) ↦ subst SoundReg {x = mark_slot reg p s} {y = after} (ground arith) (
          set-IsSound v p.key
            (record {
              issued = s.issued;
              current = record s.current { state = quarantined };
              object = reg.objects;
            })
            (marked-IsSlot p.key s reg.objects (v.each p.key s found)) refl)
    ]

finish_all-IsSound :
    (receipt : Option Receipt) (ps : List Planned) (reg : Registry) {after : Registry}
    → SoundReg reg
    → finish_all receipt reg ps ≡ ok after
    → SoundReg after
unfolding finish_all
finish_all-IsSound receipt [] reg {after} v h =
    subst SoundReg {x = reg} {y = after} (ground arith) v
finish_all-IsSound receipt (p ∷ ps) reg {after} v h = elim (Result-cases (finish receipt reg p)) [
  | inr (e, failed) ↦ absurd (ground arith)
  | inl (next, step) ↦
      finish_all-IsSound receipt ps next {after = after} (finish-IsSound receipt reg p v step)
        (ground arith)
]

-- A commit that returns keeps the registry sound, whatever came between its two halves.
pub commit-IsSound :
    (reg : Registry) (staged : Staged) {after : Registry} {done : Staged}
    → IsSound reg.slots reg.objects
    → commit reg staged ≡ ok (after, done)
    → IsSound after.slots after.objects
unfolding commit SoundReg
commit-IsSound reg staged {after} v h = elim (Bool-cases staged.committed) [
  | inl again ↦ subst SoundReg {x = reg} {y = after} (ground arith) v
  | inr fresh ↦
      let start = record reg { receipts = record_receipt staged.receipt reg.receipts } in
      elim (Result-cases (finish_all staged.receipt start staged.planned)) [
        | inr (e, failed) ↦ absurd (ground arith)
        | inl (next, looped) ↦
            subst SoundReg {x = next} {y = after} (ground arith)
              (finish_all-IsSound staged.receipt staged.planned start v looped)
      ]
]
