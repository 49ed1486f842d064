-- ===== src/Journal/Readback.antt =====
-- What `read` and a repeated `persist` return after a `persist`
-- (runtime/src/storage/operation-journal.ts).
use ai_macos.Base.{
  ℕ, ◌≡◌, ◌≢◌, refl, sym, ap, ◌∙◌, inl, inr, true, Option, none, some, arith, ◌==◌, string_eq,
  nat_eq, ok, Result-cases, Bool-cases, ==_refl, ==_ne,
}
use ai_macos.Base.Dict
use ai_macos.Base.Dict.{get-set}
use ai_macos.Resource.{Receipt}
use ai_macos.Operation.Record.{OperationRecord, record_is_valid}
use ai_macos.Journal.{
  JournalHost, JournalKey, Envelope, Evidence, Store, operation_key, journal_key_eq,
  operation_record_eq,
}
use ai_macos.Journal.Persist.{
  read_envelope, new_envelope, write_record, persist_over, persist, read, is_revision,
}
use ai_macos.Journal.History.{path_of, written, IsPersisted, persist-IsPersisted}

-- The file after the call.
abbrev IsDurable : JournalHost → OperationRecord → ℕ → Evidence → Store → Type 0
IsDurable host r revision ev after =
    (env : Envelope) × (read_envelope host after (path_of host r) ≡ ok (some env))
    × (env.revision ≡ revision)
    × (env.content ≡ r)
    × (ev ≡ record { revision = revision; content = r })

module _ (host : JournalHost) (store : Store) (r : OperationRecord) (revision : ℕ)
    (offered : Option Receipt) {ev : Evidence} {after : Store} where
  IsDurable-new :
      record_is_valid r ≡ true
      → is_revision revision ≡ true
      → write_record host store r revision ≡ ok (ev, after)
      → IsDurable host r revision ev after
  unfolding read_envelope new_envelope
  IsDurable-new valid positive h =
      let (stored, evidence, small) = written host store r revision h in
      let env = new_envelope host r revision in
      let found : Dict.get (path_of host r) after ≡ some env =
        ap (Dict.get (path_of host r)) stored
        ∙ get-set (path_of host r) (path_of host r) env store
        ∙ rw (==_refl (path_of host r)) refl in
      (env, ground arith, refl, refl, evidence)

  IsDurable-over :
      (o : Option Envelope)
      → record_is_valid r ≡ true
      → is_revision revision ≡ true
      → read_envelope host store (path_of host r) ≡ ok o
      → persist_over host store o r revision offered ≡ ok (ev, after)
      → IsDurable host r revision ev after
  unfolding persist_over
  IsDurable-over none valid positive returned h = IsDurable-new valid positive (ground arith)
  IsDurable-over (some old) valid positive returned h =
      elim (Bool-cases (revision == old.revision)) [
        | inl same ↦
            let unchanged : after ≡ store = ground arith in
            (
              old,
              ap (λ s. read_envelope host s (path_of host r)) unchanged ∙ returned,
              ground arith,
              ground arith,
              ground arith,
            )
        | inr other ↦ IsDurable-new valid positive (ground arith)
      ]

  persist-IsDurable :
      persist host store r revision offered ≡ ok (ev, after) → IsDurable host r revision ev after
  unfolding persist
  persist-IsDurable h = elim (Result-cases (read_envelope host store (path_of host r))) [
    | inr (e, failed) ↦ absurd (ground arith)
    | inl (o, returned) ↦ IsDurable-over o (ground arith) (ground arith) returned (ground arith)
  ]

  -- After a `persist` that returned, `read` of the record's key returns the record under its
  -- revision, and the same `persist` returns the same again and writes nothing.
  pub read-persist :
      persist host store r revision offered ≡ ok (ev, after)
      → (read host after (operation_key r) ≡ ok (some ev))
        × ((again : Option Receipt) → persist host after r revision again ≡ ok (ev, after))
  unfolding read persist persist_over
  read-persist h =
      let (env, there, same, equal, evidence) = persist-IsDurable h in
      (rw there (ground arith), λ again. ground arith)

  -- It returns what it returned before under any key of another path.
  pub read-persist_other :
      (key : JournalKey)
      → host.path key ≢ path_of host r
      → persist host store r revision offered ≡ ok (ev, after)
      → read host after key ≡ read host store key
  unfolding read read_envelope
  read-persist_other key other h = same_read (persist-IsPersisted host store r revision offered h)
    where
      kept :
          (env : Envelope)
          → Dict.get (host.path key) (Dict.set (path_of host r) env store)
            ≡ Dict.get (host.path key) store
      kept env =
          get-set (path_of host r) (host.path key) env store
          ∙ rw (==_ne (path_of host r) (host.path key) (λ e. other (sym e))) refl

      same_read :
          {now : Store}
          → IsPersisted host store r revision offered now
          → read host now key ≡ read host store key
      same_read (IsPersisted.created missing) =
          rw (kept (new_envelope host r revision), read, read_envelope) refl
      same_read (IsPersisted.replayed found same equal) = refl
      same_read (IsPersisted.replaced found up checked) =
          rw (kept (new_envelope host r revision), read, read_envelope) refl
