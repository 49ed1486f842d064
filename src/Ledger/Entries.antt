-- ===== src/Ledger/Entries.antt =====
-- What a transition of the ledger does to its entries (`validateLedgerTransition` of
-- shared/src/contracts/native-lifecycle.ts).
use mathlib.Core.List.{Memᴰ}
use ai_macos.Base.{
  ℕ, String, ◌<◌, ◌≡◌, refl, ◌∙◌, ◌⊎◌, inl, inr, true, false, some, List, [], ◌∷◌, arith, ◌==◌,
  string_eq, nat_eq, ok, Result-cases, Bool-cases, Option-cases, includes, repeats,
}
use ai_macos.Base.Dict
use ai_macos.Base.Dict.{Dict, get-set, get-delete}
use ai_macos.Ledger.{
  Entry, HeldState, held_kind_eq, held_state_eq, ledger_key_eq, Snapshot, Ack, allowed, sequences,
  index_onto, high_water, advance_entry, advance_entries, validate_transition, is_nonempty,
  snapshot_is_valid,
}

-- A step of one entry: the same input under the same sequence, in a state that the table allows.
pub record Advances (old e : Entry) : Type 0 where
  pub sequence : e.sequence ≡ old.sequence
  pub kind : e.kind ≡ old.kind
  pub code : e.code ≡ old.code
  pub state : includes (allowed old.state) e.state ≡ true

module _ (maximum : ℕ) where
  entry-Advances :
      (before : Dict ℕ Entry) (e : Entry) {next : Dict ℕ Entry} (s : ℕ) (old : Entry)
      → advance_entry maximum before e ≡ ok next
      → old.sequence ≡ s
      → Dict.get s before ≡ some old
      → Advances old e ⊎ (Dict.get s next ≡ some old)
  unfolding advance_entry
  entry-Advances before e {next} s old h own found = elim (Bool-cases (e.sequence == s)) [
    | inl same ↦ inl (record {
      sequence = ground arith;
      kind = ground arith;
      code = ground arith;
      state = ground arith;
    })
    | inr other ↦ inr (ground (arith, get-delete e.sequence s before))
  ]

  entries_advance :
      (es : List Entry) (before : Dict ℕ Entry) {after : Dict ℕ Entry} (s : ℕ) (old : Entry)
      → advance_entries maximum before es ≡ ok after
      → old.sequence ≡ s
      → Dict.get s before ≡ some old
      → ((e : Entry) × Memᴰ e es × Advances old e) ⊎ (Dict.get s after ≡ some old)
  unfolding advance_entries
  entries_advance [] before s old h own found = inr (ground arith)
  entries_advance (e ∷ es) before {after} s old h own found =
      elim (Result-cases (advance_entry maximum before e)) [
        | inr (x, failed) ↦ absurd (ground arith)
        | inl (next, step) ↦ elim (entry-Advances before e s old step own found) [
          | inl a ↦ inl (e, Memᴰ.head refl, a)
          | inr kept ↦
              elim (entries_advance es next {after = after} s old (ground arith) own kept) [
                | inl (f, m, a) ↦ inl (f, Memᴰ.tail m, a)
                | inr left ↦ inr left
              ]
        ]
      ]

  -- An entry that the loop met is a step of one in the map, or is new.
  entry_origin :
      (before : Dict ℕ Entry) (e : Entry) {next : Dict ℕ Entry}
      → advance_entry maximum before e ≡ ok next
      → ((old : Entry) × (Dict.get e.sequence before ≡ some old))
        ⊎ (e.state ≡ HeldState.pending_down) × (maximum < e.sequence)
  unfolding advance_entry
  entry_origin before e h = elim (Option-cases (Dict.get e.sequence before)) [
    | inl missing ↦ inr (ground arith, ground arith)
    | inr (old, found) ↦ inl (old, found)
  ]

index_keeps :
    (es : List Entry) (m : Dict ℕ Entry) (s : ℕ)
    → includes (sequences es) s ≡ false
    → Dict.get s (index_onto m es) ≡ Dict.get s m
unfolding index_onto
index_keeps [] m s new = refl
index_keeps (e ∷ es) m s new =
    index_keeps es (Dict.set e.sequence e m) s (ground arith)
    ∙ get-set e.sequence s e m
    ∙ ground arith

indexed :
    (es : List Entry) (m : Dict ℕ Entry) (old : Entry)
    → repeats (sequences es) ≡ false
    → Memᴰ old es
    → Dict.get old.sequence (index_onto m es) ≡ some old
unfolding index_onto
indexed [] m old distinct here = elim here [ ]
indexed (e ∷ es) m old distinct (Memᴰ.head same) =
    index_keeps es (Dict.set e.sequence e m) old.sequence (ground (arith, same))
    ∙ get-set e.sequence old.sequence e m
    ∙ ground (arith, same)
indexed (e ∷ es) m old distinct (Memᴰ.tail there) =
    indexed es (Dict.set e.sequence e m) old (ground arith) there

none_left :
    (lost : Dict ℕ Entry) (s : ℕ) (old : Entry)
    → is_nonempty lost ≡ false
    → Dict.get s lost ≡ some old
    → ⊥
unfolding Dict.get
none_left [] s old e found = cc
none_left (x ∷ lost) s old e found = cc

-- No entry is lost by a transition from a valid snapshot, and each keeps its input and takes an allowed step.
pub validate_transition-Advances :
    (digest : Snapshot → String) (previous next : Snapshot) (ack : Ack) (old : Entry)
    → snapshot_is_valid previous ≡ true
    → validate_transition digest previous next ack ≡ ok tt
    → Memᴰ old previous.entries
    → (e : Entry) × Memᴰ e next.entries × Advances old e
unfolding validate_transition snapshot_is_valid
validate_transition-Advances digest previous next ack old valid h here =
    elim (Result-cases (
      advance_entries (high_water previous.entries) (index_onto [] previous.entries)
        next.entries)) [
          | inr (x, failed) ↦ absurd (ground arith)
          | inl (lost, looped) ↦
              elim (entries_advance (high_water previous.entries) next.entries
                (index_onto [] previous.entries) old.sequence old looped refl
                (indexed previous.entries [] old (ground arith) here)) [
                  | inl found ↦ found
                  | inr left ↦ absurd (none_left lost old.sequence old (ground arith) left)
                ]
        ]
