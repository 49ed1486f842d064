-- ===== src/Journal/History.antt =====
-- Whole calls of the journal and their sequences (runtime/src/storage/operation-journal.ts).
use ai_macos.Base.{
  ℕ, String, ◌≤◌, ◌<◌, ◌≡◌, refl, sym, ap, subst, ◌∙◌, inl, inr, true, Option, none, some, arith,
  ◌==◌, string_eq, nat_eq, ok, Result-cases, Bool-cases, Option-cases, eq_of_==, leb,
}
use ai_macos.Base.Dict
use ai_macos.Base.Dict.{get-set}
use ai_macos.Resource.{Receipt}
use ai_macos.Operation.Record.{OperationRecord}
use ai_macos.Journal.{
  JournalHost, Envelope, Evidence, Store, operation_key, journal_key_eq, operation_record_eq,
}
use ai_macos.Journal.Persist.{
  read_envelope, new_envelope, write_record, assert_successor, persist_over, persist,
}
use ai_macos.Journal.Facts.{Follows, Follows-refl, Follows-trans, assert_successor-Follows}

module _ (host : JournalHost) where
  abbrev pub path_of : OperationRecord → String
  path_of r = host.path (operation_key r)

  -- How the file under the path of the record became what it is.
  pub data IsPersisted (store : Store) (r : OperationRecord) (revision : ℕ)
      (offered : Option Receipt) : Store → Type 0 where
    created :
        Dict.get (path_of r) store ≡ none
        → IsPersisted store r revision offered
            (Dict.set (path_of r) (new_envelope host r revision) store)
    replayed :
        {old : Envelope}
        → Dict.get (path_of r) store ≡ some old
        → old.revision ≡ revision
        → old.content ≡ r
        → IsPersisted store r revision offered store
    replaced :
        {old : Envelope}
        → Dict.get (path_of r) store ≡ some old
        → old.revision < revision
        → assert_successor host old.content r offered revision ≡ ok tt
        → IsPersisted store r revision offered
            (Dict.set (path_of r) (new_envelope host r revision) store)

  pub found_of_read :
      (store : Store) (path : String) {o : Option Envelope}
      → read_envelope host store path ≡ ok o
      → Dict.get path store ≡ o
  unfolding read_envelope
  found_of_read store path h = elim (Option-cases (Dict.get path store)) [
    | inl missing ↦ ground arith
    | inr (env, found) ↦ ground arith
  ]

  pub written :
      (store : Store) (r : OperationRecord) (revision : ℕ) {ev : Evidence} {after : Store}
      → write_record host store r revision ≡ ok (ev, after)
      → (after ≡ Dict.set (path_of r) (new_envelope host r revision) store)
        × (ev ≡ record { revision = revision; content = r })
        × (leb (host.bytes (new_envelope host r revision)) 1048576 ≡ true)
  unfolding write_record
  written store r revision h = ground arith

  module _ (store : Store) (r : OperationRecord) (revision : ℕ) (offered : Option Receipt)
      {ev : Evidence} {after : Store} where
    over_cases :
        (o : Option Envelope)
        → Dict.get (path_of r) store ≡ o
        → persist_over host store o r revision offered ≡ ok (ev, after)
        → IsPersisted store r revision offered after
    unfolding persist_over
    over_cases none found h =
        subst (IsPersisted store r revision offered)
          (sym (written store r revision {ev = ev} (ground arith)).0) (created found)
    over_cases (some old) found h = elim (Bool-cases (revision == old.revision)) [
      | inl same ↦
          subst (IsPersisted store r revision offered) (ground arith)
            (replayed found (ground arith) (ground arith))
      | inr other ↦
          subst (IsPersisted store r revision offered)
            (sym (written store r revision {ev = ev} (ground arith)).0)
            (replaced found (ground arith) (ground arith))
    ]

    pub persist-IsPersisted :
        persist host store r revision offered ≡ ok (ev, after)
        → IsPersisted store r revision offered after
    unfolding persist
    persist-IsPersisted h = elim (Result-cases (read_envelope host store (path_of r))) [
      | inr (e, failed) ↦ absurd (ground arith)
      | inl (o, returned) ↦ over_cases o (found_of_read store (path_of r) returned) (ground arith)
    ]

  -- What later calls keep of the file under a path: its revision only grows, a record follows the
  -- one before it, and one revision has one record.
  abbrev Keeps : Store → Store → Type 0
  Keeps before after =
      (path : String) (old : Envelope)
      → Dict.get path before ≡ some old
      → (new : Envelope) × (Dict.get path after ≡ some new)
        × (old.revision ≤ new.revision)
        × Follows old.content new.content
        × (old.revision ≡ new.revision → new.content ≡ old.content)

  Keeps-refl : (store : Store) → Keeps store store
  Keeps-refl store path old found = (old, found, omega arith, Follows-refl old.content, λ e. refl)

  Keeps-trans : (a b c : Store) → Keeps a b → Keeps b c → Keeps a c
  Keeps-trans a b c f g path old found =
      let (mid, there, up, follows, one) = f path old found in
      let (new, last, higher, next, same) = g path mid there in
      (
        new,
        last,
        omega (arith, up, higher),
        Follows-trans follows next,
        λ e. same (omega (arith, up, higher, e)) ∙ one (omega (arith, up, higher, e)),
      )

  set-Keeps :
      (store : Store) (path : String) (env : Envelope)
      → ((old : Envelope)
          → Dict.get path store ≡ some old
          → (old.revision < env.revision) × Follows old.content env.content)
      → Keeps store (Dict.set path env store)
  set-Keeps store path env newer other old found = elim (Bool-cases (path == other)) [
    | inl same ↦
        let (up, follows) =
          newer old (ap (λ p. Dict.get p store) (eq_of_== path other same) ∙ found) in
        (
          env,
          get-set path other env store ∙ rw same refl,
          omega (arith, up),
          follows,
          λ e. absurd (omega (arith, up, e)),
        )
    | inr different ↦ (
      old,
      get-set path other env store ∙ rw different found,
      omega arith,
      Follows-refl old.content,
      λ e. refl,
    )
  ]

  module _ (store : Store) (r : OperationRecord) (revision : ℕ) (offered : Option Receipt) where
    IsPersisted-Keeps :
        {after : Store} → IsPersisted store r revision offered after → Keeps store after
    unfolding new_envelope
    IsPersisted-Keeps (created missing) =
        set-Keeps store (path_of r) (new_envelope host r revision) (λ old found. cc)
    IsPersisted-Keeps (replayed found same equal) = Keeps-refl store
    IsPersisted-Keeps (replaced {old} found up checked) =
        set-Keeps store (path_of r) (new_envelope host r revision) (λ o there.
          subst (λ (x : Envelope). (x.revision < revision) × Follows x.content r) {x = old} {y = o}
            (cc (found, there))
            (up, assert_successor-Follows host old.content r offered revision checked))

  -- The directories that calls of `persist` lead to.
  pub data Calls (start : Store) : Store → Type 0 where
    none_yet : Calls start start
    persisted :
        {before after : Store} {ev : Evidence} (r : OperationRecord) (revision : ℕ)
        (offered : Option Receipt)
        → Calls start before
        → persist host before r revision offered ≡ ok (ev, after)
        → Calls start after

  -- Whatever calls of `persist` return, in any order and for any records, the file under a path
  -- stays: its revision never goes back, an equal revision has the same record, and the record
  -- follows the one that was there.
  pub Calls-keep :
      {start after : Store} (path : String) (old : Envelope)
      → Calls start after
      → Dict.get path start ≡ some old
      → (new : Envelope) × (Dict.get path after ≡ some new)
        × (old.revision ≤ new.revision)
        × Follows old.content new.content
        × (old.revision ≡ new.revision → new.content ≡ old.content)
  Calls-keep path old calls found = go calls path old found
    where
      go : {start after : Store} → Calls start after → Keeps start after
      go {start} none_yet = Keeps-refl start
      go {start} {after} (persisted {before} r revision offered earlier h) =
          Keeps-trans start before after (go earlier) (
            IsPersisted-Keeps before r revision offered
              (persist-IsPersisted before r revision offered h))
