-- ===== src/Lifetime/Readable.antt =====
-- Directories whose files `FileLifetimeStore` can read (runtime/src/lifetime-state.ts).
use ai_macos.Base.{
  String, ◌≡◌, refl, sym, subst, ◌∙◌, inl, inr, true, some, arith, ◌==◌, string_eq, nat_eq, ok,
  Bool-cases, leb, ==_refl,
}
use ai_macos.Base.Dict
use ai_macos.Base.Dict.{get-set}
use ai_macos.Lifetime.{LifetimeRecord, record_is_valid}
use ai_macos.Lifetime.Persist.{LifetimeHost, LifetimeStore, Envelope, read, new_envelope}
use ai_macos.Lifetime.Writes.{path_of, IsPersisted}

module _ (host : LifetimeHost) where
  -- A directory whose files can all be read.
  pub record IsSound (store : LifetimeStore) : Type 0 where
    pub readable :
        (path : String) (env : Envelope)
        → Dict.get path store ≡ some env
        → read host store path ≡ ok (some env.content)

  read_stored :
      (store : LifetimeStore) (path : String) (env : Envelope)
      → Dict.get path store ≡ some env
      → leb (host.bytes env) 1048576 ≡ true
      → record_is_valid env.content ≡ true
      → (host.path env.content.physical_ownership_key == path) ≡ true
      → (host.checksum env.content == env.checksum) ≡ true
      → read host store path ≡ ok (some env.content)
  unfolding read
  read_stored store path env found fits valid named summed = ground arith

  -- Reading looks only at the file under the path.
  read_same :
      (store other : LifetimeStore) (path : String)
      → Dict.get path store ≡ Dict.get path other
      → read host store path ≡ read host other path
  unfolding read
  read_same store other path same = rw (read, same) refl

  pub IsPersisted-IsSound :
      (store : LifetimeStore) (r : LifetimeRecord) (after : LifetimeStore)
      → IsPersisted host store r after
      → IsSound store
      → IsSound after
  unfolding new_envelope
  IsPersisted-IsSound store r after did sound = record {
    readable = λ path env found. elim (Bool-cases (path_of host r == path)) [
      | inl same ↦
          let there : Dict.get path after ≡ some (new_envelope host r) =
            rw did.stored
              (get-set (path_of host r) path (new_envelope host r) store ∙ rw same refl) in
          let summed : (host.checksum r == host.checksum r) ≡ true = ==_refl (host.checksum r) in
          let is_new : new_envelope host r ≡ env = cc (there, found) in
          subst (λ (x : Envelope). read host after path ≡ ok (some x.content)) is_new
            (read_stored after path (new_envelope host r) there did.fits did.valid same summed)
      | inr other ↦
          let untouched : Dict.get path after ≡ Dict.get path store =
            rw did.stored
              (get-set (path_of host r) path (new_envelope host r) store ∙ rw other refl) in
          read_same after store path untouched ∙ sound.readable path env (sym untouched ∙ found)
    ];
  }
