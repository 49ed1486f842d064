-- ===== src/Lifetime/Writes.antt =====
-- What a call of `persist` does (runtime/src/lifetime-state.ts).
use ai_macos.Base.{
  String, ◌≡◌, subst, inl, inr, true, Option, some, arith, string_eq, nat_eq, ok, Result-cases, leb,
}
use ai_macos.Base.Dict
use ai_macos.Base.Dict.{get-set}
use ai_macos.Lifetime.{LifetimeRecord, record_is_valid, assert_transition}
use ai_macos.Lifetime.Persist.{
  LifetimeHost, LifetimeStore, Envelope, read, new_envelope, write_record, assert_over, persist,
}

module _ (host : LifetimeHost) where
  abbrev pub path_of : LifetimeRecord → String
  path_of r = host.path r.physical_ownership_key

  -- What a call of `persist` does.
  pub record IsPersisted (store : LifetimeStore) (r : LifetimeRecord) (after : LifetimeStore)
      : Type 0 where
    pub valid : record_is_valid r ≡ true
    pub fits : leb (host.bytes (new_envelope host r)) 1048576 ≡ true
    pub stored : after ≡ Dict.set (path_of r) (new_envelope host r) store
    pub follows :
        (old : Envelope)
        → Dict.get (path_of r) store ≡ some old
        → assert_transition old.content r ≡ ok tt

  found_of_read :
      (store : LifetimeStore) (path : String) {o : Option LifetimeRecord}
      → read host store path ≡ ok o
      → ((env : Envelope) → Dict.get path store ≡ some env → o ≡ some env.content)
  unfolding read
  found_of_read store path h env found = ground arith

  module _ (store : LifetimeStore) (r : LifetimeRecord) {answer : LifetimeRecord}
      {after : LifetimeStore} where
    written :
        write_record host store r ≡ ok (answer, after)
        → (after ≡ Dict.set (path_of r) (new_envelope host r) store)
          × (answer ≡ r)
          × (leb (host.bytes (new_envelope host r)) 1048576 ≡ true)
    unfolding write_record
    written h = ground arith

    checked :
        (o : Option LifetimeRecord)
        → read host store (path_of r) ≡ ok o
        → persist host store r ≡ ok (answer, after)
        → (record_is_valid r ≡ true)
          × (assert_over o r ≡ ok tt)
          × (write_record host store r ≡ ok (answer, after))
    unfolding persist
    checked o returned h = ground arith

    pub persist-IsPersisted : persist host store r ≡ ok (answer, after) → IsPersisted store r after
    unfolding persist
    persist-IsPersisted h = elim (Result-cases (read host store (path_of r))) [
      | inr (e, failed) ↦ absurd (ground arith)
      | inl (o, returned) ↦
          let (valid, over, wrote) = checked o returned h in
          let (stored, same, fits) = written wrote in
          record {
            valid = valid;
            fits = fits;
            stored = stored;
            follows = λ old found.
                subst (λ x. assert_over x r ≡ ok tt)
                  (found_of_read store (path_of r) returned old found) over;
          }
    ]
