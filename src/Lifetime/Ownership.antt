-- ===== src/Lifetime/Ownership.antt =====
-- The abstract view of `FileLifetimeStore` (runtime/src/lifetime-state.ts): who owns what, without
-- files, envelopes and checksums.
use ai_macos.Base.{
  String, ◌≡◌, refl, ap, inl, inr, Option, none, some, ◌==◌, string_eq, Option-cases, Bool-cases,
  if◌then◌else◌,
}
use ai_macos.Base.Dict
use ai_macos.Base.Dict.{get-set}
use ai_macos.Lifetime.{LifetimeRecord}
use ai_macos.Lifetime.Persist.{LifetimeHost, LifetimeStore, Envelope, new_envelope}
use ai_macos.Lifetime.Moves.{Succeeds, assert_transition-Succeeds}
use ai_macos.Lifetime.Writes.{path_of, IsPersisted, persist-IsPersisted}
use ai_macos.Lifetime.History.{Calls}

-- The record, if any, of each path.
abbrev pub Ownership : Type 0
Ownership = String → Option LifetimeRecord

abbrev pub content_of : Option Envelope → Option LifetimeRecord
content_of none = none
content_of (some env) = some env.content

abbrev pub view : LifetimeStore → Ownership
view store path = content_of (Dict.get path store)

abbrev pub assign : String → LifetimeRecord → Ownership → Ownership
assign path r owned other = if path == other then some r else owned other

-- A path takes a record if it has none, or if the record succeeds the one that it has.
pub data MayTake (owned : Ownership) (path : String) (r : LifetimeRecord) : Type 0 where
  unowned : owned path ≡ none → MayTake owned path r
  succeeding :
      {old : LifetimeRecord} → owned path ≡ some old → Succeeds old r → MayTake owned path r

-- The ownerships that such assignments lead to.
pub data Assigned (start : Ownership) : Ownership → Type 0 where
  unchanged : Assigned start start
  assigned :
      {before after : Ownership} (path : String) (r : LifetimeRecord)
      → Assigned start before
      → MayTake before path r
      → ((other : String) → after other ≡ assign path r before other)
      → Assigned start after

module _ (host : LifetimeHost) where
  stored_view :
      (store : LifetimeStore) (r : LifetimeRecord) (after : LifetimeStore)
      → IsPersisted host store r after
      → (other : String) → view after other ≡ assign (path_of host r) r (view store) other
  unfolding new_envelope
  stored_view store r after did other =
      let path = path_of host r in
      let there = get-set path other (new_envelope host r) store in
      elim (Bool-cases (path == other)) [
        | inl same ↦ rw (did.stored, there, same) refl
        | inr different ↦ rw (did.stored, there, different) refl
      ]

  may_take :
      (store : LifetimeStore) (r : LifetimeRecord) (after : LifetimeStore)
      → IsPersisted host store r after
      → MayTake (view store) (path_of host r) r
  may_take store r after did = elim (Option-cases (Dict.get (path_of host r) store)) [
    | inl missing ↦ MayTake.unowned (ap content_of missing)
    | inr (old, found) ↦
        MayTake.succeeding (ap content_of found)
          (assert_transition-Succeeds old.content r (did.follows old found))
  ]

  -- The store implements ownership: whatever calls of `persist` return, its view has come about by
  -- assignments of records to paths that had none or a record that the new one succeeds.
  pub Calls-Assigned :
      {start after : LifetimeStore} → Calls host start after → Assigned (view start) (view after)
  Calls-Assigned Calls.none_yet = Assigned.unchanged
  Calls-Assigned {start} {after} (Calls.persisted {before} r earlier h) =
      let did = persist-IsPersisted host before r h in
      Assigned.assigned (path_of host r) r (Calls-Assigned {start = start} {after = before} earlier)
        (may_take before r after did) (stored_view before r after did)
