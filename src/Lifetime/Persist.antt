-- ===== src/Lifetime/Persist.antt =====
-- `FileLifetimeStore` of runtime/src/lifetime-state.ts: the last record of every physical ownership
-- key in a directory of files. Two calls do not overlap: `#exclusive` queues them.
use ai_macos.Base.{
  ℕ, String, Bool, true, false, ◌&&◌, Option, none, some, List, [], ◌∷◌, ◌==◌, string_eq, leb, ltb,
  negate, length, Result, ok, ◌>>=◌, ◌>>◌, reject_if, or_throw,
}
use ai_macos.Base.Dict
use ai_macos.Base.Dict.{Dict}
use ai_macos.Lifetime.{
  LifetimeRecord, OwnershipKey, LifetimeError, record_is_valid, assert_transition, invalid_record,
  capacity_exceeded, file_too_large, invalid_file, wrong_filename, wrong_checksum, record_vanished,
}

-- `lifetimeEnvelopeSchema`; its format and version are literals.
pub record Envelope : Type 0 where
  pub checksum : String
  pub content : LifetimeRecord

abbrev pub LifetimeStore : Type 0
LifetimeStore = Dict String Envelope

-- What the store is given: `#path` of a key, `lifetimeChecksum`, and the bytes of an envelope.
pub record LifetimeHost : Type 0 where
  pub path : OwnershipKey → String
  pub checksum : LifetimeRecord → String
  pub bytes : Envelope → ℕ

abbrev is_absent : Option Envelope → Bool
is_absent none = true
is_absent (some env) = false

-- `assertLifetimeTransition`, if there is an earlier record.
abbrev pub assert_over : Option LifetimeRecord → LifetimeRecord → Result LifetimeError (Unit {0})
assert_over none next = ok tt
assert_over (some previous) next = assert_transition previous next

module _ (host : LifetimeHost) where
  -- `#read`
  unfoldable pub read : LifetimeStore → String → Result LifetimeError (Option LifetimeRecord)
  read store path = elim (Dict.get path store) [
    | none ↦ ok none
    | some env ↦ do
      reject_if (negate (leb (host.bytes env) 1048576 && record_is_valid env.content)) invalid_file
      reject_if (negate (host.path env.content.physical_ownership_key == path)) wrong_filename
      reject_if (negate (host.checksum env.content == env.checksum)) wrong_checksum
      ok (some env.content)
  ]

  unfoldable pub new_envelope : LifetimeRecord → Envelope
  new_envelope r = record { checksum = host.checksum r; content = r }

  -- The capacity, the byte limit and the atomic replacement of the file.
  unfoldable pub write_record :
      LifetimeStore → LifetimeRecord → Result LifetimeError (LifetimeRecord × LifetimeStore)
  write_record store r =
      let path = host.path r.physical_ownership_key in
      do
        reject_if (is_absent (Dict.get path store) && leb 10000 (length store)) capacity_exceeded
        reject_if (ltb 1048576 (host.bytes (new_envelope r))) file_too_large
        ok (r, Dict.set path (new_envelope r) store)

  -- `persist`
  unfoldable pub persist :
      LifetimeStore → LifetimeRecord → Result LifetimeError (LifetimeRecord × LifetimeStore)
  persist store r = do
    reject_if (negate (record_is_valid r)) invalid_record
    existing ← read store (host.path r.physical_ownership_key)
    assert_over existing r
    write_record store r

  -- `loadAll` on the paths that `storageFiles` lists.
  unfoldable pub load_all : LifetimeStore → List String → Result LifetimeError (List LifetimeRecord)
  load_all store [] = ok []
  load_all store (path ∷ paths) = do
    found ← read store path
    r ← or_throw found record_vanished
    records ← load_all store paths
    ok (r ∷ records)
