-- ===== src/Registry/Authority.antt =====
-- `assertActive` of runtime/src/resources.ts after the methods that give and take leases, and the
-- registries that the methods lead to.
use ai_macos.Base.{
  ℕ, String, ◌<◌, ◌≡◌, ◌≢◌, ap, inl, inr, List, [], ◌∷◌, arith, ◌==◌, string_eq, All, ok,
  Option-cases, Bool-cases, eq_of_==,
}
use ai_macos.Base.Dict
use ai_macos.Resource.{ResourceRef, Handle, HandleState, handle_eq, handle_state_eq, CleanupOutcome}
use ai_macos.Operation.{ClientSession}
use ai_macos.Registry.{
  Host, Registry, empty_registry, AuthorityRequest, resource_key, acquire, assert_active,
}
use ai_macos.Registry.Cleanup.{Staged, prepare_cleanup, commit}
use ai_macos.Registry.Methods.{quarantine}
use ai_macos.Registry.Invariant.{IsSound, empty-IsSound}
use ai_macos.Registry.Grants.{IsGrant, IsHeld, acquire_grants, acquire-IsSound}
use ai_macos.Registry.Release.{prepare_cases}
use ai_macos.Registry.Preserve.{commit-IsSound}
use ai_macos.Registry.Quarantine.{quarantine_marks, quarantine_skips, quarantine-IsSound}

-- The request by which an operation shows a handle of its own.
abbrev pub own_request : Host → ClientSession → String → Handle → ℕ → AuthorityRequest
own_request host session operation_id h now = record {
  handle = h;
  operation_id = operation_id;
  client_session_id = session.client_session_id;
  principal_id = session.principal_id;
  generation = host.generation;
  now = now;
}

module _ (host : Host) (reg : Registry) (session : ClientSession) (operation_id : String)
    (now expires_at : ℕ) where
  granted_is_active :
      (h : Handle)
      → IsGrant host session operation_id expires_at h
      → IsHeld reg.slots h
      → now < expires_at
      → assert_active reg (own_request host session operation_id h now) ≡ ok tt
  unfolding assert_active
  granted_is_active h g (o, held) early =
      ground (arith, held, g.active, g.operation, g.client, g.principal, g.generation)

-- The registries that the methods lead to; whole cleanups are a preparation and a commit.
pub data Reachable (host : Host) : Registry → Type 0 where
  initially : Reachable host empty_registry
  acquired :
      {reg after : Registry} {hs : List Handle} (session : ClientSession) (operation_id : String)
      (requested : List ResourceRef) (expires_at : ℕ)
      → Reachable host reg
      → acquire host reg session operation_id requested expires_at ≡ ok (after, hs)
      → Reachable host after
  prepared :
      {reg after : Registry} {staged : Staged} (now : ℕ) (from : HandleState)
      (operation_id : String) (handles : List Handle) (cleanup : CleanupOutcome)
      → Reachable host reg
      → prepare_cleanup host now from reg operation_id handles cleanup ≡ ok (after, staged)
      → Reachable host after
  committed :
      {reg after : Registry} {done : Staged} (staged : Staged)
      → Reachable host reg
      → commit reg staged ≡ ok (after, done)
      → Reachable host after
  set_aside :
      {reg : Registry} (operation_id : String)
      → Reachable host reg
      → Reachable host (quarantine reg operation_id).0

-- Every registry that the methods lead to, in any order and interleaving, is sound.
pub Reachable-IsSound :
    (host : Host) {reg : Registry} → Reachable host reg → IsSound reg.slots reg.objects
Reachable-IsSound host initially = empty-IsSound
Reachable-IsSound host (acquired {reg} session op requested expires_at path h) =
    acquire-IsSound host reg session op requested expires_at h (Reachable-IsSound host path)
Reachable-IsSound host (prepared {reg} now from op handles cleanup path h) =
    let w = prepare_cases host now from reg op handles cleanup h in
    rw (w.slots, w.objects) (Reachable-IsSound host path)
Reachable-IsSound host (committed {reg} staged path h) =
    commit-IsSound reg staged (Reachable-IsSound host path) h
Reachable-IsSound host (set_aside {reg} op path) =
    quarantine-IsSound reg (Reachable-IsSound host path) op

module _ (reg : Registry) (v : IsSound reg.slots reg.objects) (op : String) where
  -- In a sound registry, after `quarantine` of an operation no request of it passes `assertActive`.
  pub quarantine_revokes :
      (q : AuthorityRequest) → assert_active (quarantine reg op).0 q ≡ ok tt → q.operation_id ≢ op
  unfolding assert_active
  quarantine_revokes q h own =
      let k = resource_key q.handle.resource in
      elim (Option-cases (Dict.get k reg.slots)) [
        | inl missing ↦ ground (arith, quarantine_skips reg v op k missing)
        | inr (s, found) ↦ elim (Bool-cases (s.issued.operation_id == op)) [
          | inl theirs ↦
              let (t, there, same, state) =
                (quarantine_marks reg v op k s found).0
                  (eq_of_== s.issued.operation_id op theirs) in
              ground (arith, there, state)
          | inr foreign ↦
              let kept = (quarantine_marks reg v op k s found).1 (λ e. ground (arith, e)) in
              elim ((v.each k s found).now) [
                | inl same ↦ ground (arith, ap (λ (x : Handle). x.operation_id) same)
                | inr marked ↦ ground (arith, ap (λ (x : Handle). x.operation_id) marked)
              ]
        ]
      ]

module _ (host : Host) (after : Registry) (session : ClientSession) (operation_id : String)
    (expires_at now : ℕ) where
  All-active :
      (xs : List Handle)
      → All (IsGrant host session operation_id expires_at) xs
      → All (IsHeld after.slots) xs
      → now < expires_at
      → All (λ h. assert_active after (own_request host session operation_id h now) ≡ ok tt) xs
  All-active [] grants helds early = tt
  All-active (h ∷ xs) grants helds early = (
    granted_is_active host after session operation_id now expires_at h grants.0 helds.0 early,
    All-active xs grants.1 helds.1 early,
  )

module _ (host : Host) (reg : Registry) {after : Registry} (session : ClientSession)
    (operation_id : String) (requested : List ResourceRef) (expires_at now : ℕ)
    {hs : List Handle} where
  -- Until they expire, all handles that a request was granted are active for the operation and the
  -- session that asked for them.
  pub acquire_authorizes :
      acquire host reg session operation_id requested expires_at ≡ ok (after, hs)
      → now < expires_at
      → All (λ h. assert_active after (own_request host session operation_id h now) ≡ ok tt) hs
  acquire_authorizes h early =
      let (perm, grants, helds, frame, receipts, tombstones) =
        acquire_grants host reg session operation_id requested expires_at h in
      All-active host after session operation_id expires_at now hs grants helds early
