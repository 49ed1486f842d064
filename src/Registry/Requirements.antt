-- ===== src/Registry/Requirements.antt =====
-- What an adapter asks of the runtime's resource authority (shared/src/contracts/resources.ts): the
-- interface `ResourceAuthority`, its clients, and the registry as its implementation.
use ai_macos.Base.{
  ℕ, String, ◌+◌, Bool, true, false, ◌&&◌, ◌||◌, ◌≡◌, refl, sym, subst, ◌<◌, inl, inr, none, some,
  List, [], ◌∷◌, map, ◌==◌, Eq, string_eq, nat_eq, arith, negate, find, any, includes, Result, ok,
  err, ◌>>=◌, ◌>>◌, or_throw, reject_if, IsOk, All, All-imp, Bool-cases, Result-cases, Option-cases,
  ==_refl, if◌then◌else◌,
}
use mathlib.Core.Logic.Or
use mathlib.Core.HLevel.{⊥_prop}
use mathlib.Core.List.Perm
use mathlib.Core.List.{Mem, mem-cons, not-mem-nil}
use ai_macos.Identity.{Generation}
use ai_macos.Resource.{
  ResourceRef, ResourceKind, Handle, handle_eq, CleanupOutcome, unowned, lease_ids, cleanup_handles,
}
use ai_macos.Operation.{ClientSession}
use ai_macos.Registry.{
  Host, Registry, RegistryError, AuthorityRequest, acquire, assert_active, assert_owned_set,
}
use ai_macos.Registry.Grants.{acquire_grants}
use ai_macos.Registry.Invariant.{IsSound}
use ai_macos.Registry.Methods.{quarantine}
use ai_macos.Registry.Authority.{acquire_authorizes, quarantine_revokes}

unfoldable pub ResourceKind_discrete : Discrete ResourceKind
ResourceKind_discrete = hlevel

instance abbrev pub resource_kind_eq : Eq ResourceKind
resource_kind_eq = record { decide = ResourceKind_discrete }

-- `ResourceAuthority`; its methods change nothing.
pub record ResourceAuthority (E : Type 0) : Type 0 where
  pub assert_active : AuthorityRequest → Result E (Unit {0})
  pub assert_owned_set : String → List Handle → Result E (Unit {0})

-- `ResourceAuthorityRequest` without its handle
pub record Owner : Type 0 where
  pub operation_id : String
  pub client_session_id : String
  pub principal_id : String
  pub generation : Generation
  pub now : ℕ

pub data RequirementError (E : Type 0) : Type 0 where
  not_handed_out : ResourceRef → RequirementError E
  refused : E → RequirementError E
  unleased_cleanup cleanup_lost not_partition changed_handle : RequirementError E

abbrev pub or_refused : {E : Type 0} → Result E (Unit {0}) → Result (RequirementError E) (Unit {0})
or_refused (ok done) = ok done
or_refused (err thrown) = err (refused thrown)

abbrev pub request_of : Owner → Handle → AuthorityRequest
request_of o h = record {
  handle = h;
  operation_id = o.operation_id;
  client_session_id = o.client_session_id;
  principal_id = o.principal_id;
  generation = o.generation;
  now = o.now;
}

abbrev pub is_of : ResourceRef → Handle → Bool
is_of r h = (h.kind == r.kind) && (h.resource_ref == r.resource_ref)

-- The loop over the resources of the cleanup.
unfoldable pub check_handles :
    {E : Type 0} → List Handle → List Handle → Result (RequirementError E) (Unit {0})
check_handles issued [] = ok tt
check_handles issued (h ∷ rest) =
    let later = check_handles issued rest in
    do
      mine ← or_throw (find (λ x. x.lease_id == h.lease_id) issued) changed_handle
      reject_if (negate (mine == h)) changed_handle
      later

-- `new Set(xs).size`
unfoldable pub distinct : List String → ℕ
distinct [] = 0
distinct (x ∷ xs) = let n = distinct xs in if includes xs x then n else n + 1

unfoldable pub check_partition :
    {E : Type 0} → List Handle → CleanupOutcome → Result (RequirementError E) (Unit {0})
check_partition handles unowned = err cleanup_lost
check_partition handles cleanup =
    let expected = lease_ids handles in
    let actual = lease_ids (cleanup_handles cleanup) in
    do
      reject_if
          (negate (distinct expected == distinct actual)
            || any (λ id. negate (includes actual id)) expected)
          not_partition
      check_handles handles (cleanup_handles cleanup)

abbrev is_unowned : CleanupOutcome → Bool
is_unowned unowned = true
is_unowned _ = false

abbrev check_cleanup :
    {E : Type 0} → List Handle → CleanupOutcome → Result (RequirementError E) (Unit {0})
check_cleanup [] cleanup = reject_if (negate (is_unowned cleanup)) unleased_cleanup
check_cleanup handles cleanup = check_partition handles cleanup

module _ {E : Type 0} (authority : ResourceAuthority E) where
  -- `requireAuthorizedResourceHandles`
  unfoldable pub require_authorized :
      List Handle → Owner → List ResourceRef → Result (RequirementError E) (Unit {0})
  require_authorized handles owner [] = ok tt
  require_authorized handles owner (r ∷ required) =
      let rest = require_authorized handles owner required in
      do
        h ← or_throw (find (is_of r) handles) (not_handed_out r)
        or_refused (authority.assert_active (request_of owner h))
        rest

  -- `assertCleanupOwnsExactHandles`
  unfoldable pub assert_cleanup_owns :
      String → List Handle → CleanupOutcome → Result (RequirementError E) (Unit {0})
  assert_cleanup_owns operation_id handles cleanup = do
    or_refused (authority.assert_owned_set operation_id handles)
    check_cleanup handles cleanup

-- The registry as the authority.
abbrev pub registry_authority : Registry → ResourceAuthority RegistryError
registry_authority reg = record {
  assert_active = assert_active reg;
  assert_owned_set = assert_owned_set reg;
}

found_holds :
    (p : Handle → Bool) (P : Handle → Type 0) (hs : List Handle) {h : Handle}
    → find p hs ≡ some h
    → All P hs
    → P h
found_holds p P [] {h} found all = cc
found_holds p P (x ∷ hs) {h} found all = elim (Bool-cases (p x)) [
  | inl yes_x ↦ let same : x ≡ h = ground (arith, yes_x) in subst P same all.0
  | inr no_x ↦ found_holds p P hs {h = h} (ground (arith, no_x)) all.1
]

is_own : (h : Handle) → is_of h.resource h ≡ true
is_own h = rw (==_refl h.kind, ==_refl h.resource_ref) refl

-- A resource that some handle is of is found.
is_found :
    (r : ResourceRef) (hs : List Handle)
    → find (is_of r) hs ≡ none
    → ¬ Mem r (map (λ (h : Handle). h.resource) hs)
is_found r [] h m = not-mem-nil m
is_found r (x ∷ hs) h m = elim (Bool-cases (is_of r x)) [
  | inl same ↦ absurd (ground (arith, same))
  | inr other ↦
      Or.elim ⊥_prop (mem-cons.0 m)
        (λ same. cc (subst (λ q. is_of q x ≡ true) (sym same) (is_own x), other))
        (λ later. is_found r hs (ground (arith, other)) later)
]

module _ {E : Type 0} (authority : ResourceAuthority E) (owner : Owner) (hs : List Handle) where
  requires :
      (required : List ResourceRef)
      → All (λ r. Mem r (map (λ (h : Handle). h.resource) hs)) required
      → All (λ h. authority.assert_active (request_of owner h) ≡ ok tt) hs
      → require_authorized authority hs owner required ≡ ok tt
  unfolding require_authorized
  requires [] among active = refl
  requires (r ∷ required) among active = elim (Option-cases (find (is_of r) hs)) [
    | inl missing ↦ absurd (is_found r hs missing among.0)
    | inr (h, found) ↦
        let passes_h =
          found_holds (is_of r) (λ x. authority.assert_active (request_of owner x) ≡ ok tt) hs
            {h = h} found active in
        rw (found, passes_h) (requires required among.1 active)
  ]

abbrev pub owner_of : Host → ClientSession → String → ℕ → Owner
owner_of host session operation_id now = record {
  operation_id = operation_id;
  client_session_id = session.client_session_id;
  principal_id = session.principal_id;
  generation = host.generation;
  now = now;
}

module _ (host : Host) (reg : Registry) {after : Registry} (session : ClientSession)
    (operation_id : String) (requested required : List ResourceRef) (expires_at now : ℕ)
    {hs : List Handle} where
  -- Over the registry, what an adapter requires of the handles that `acquire` granted is authorized
  -- until they expire, if the resources that it requires were requested.
  pub require-acquire :
      acquire host reg session operation_id requested expires_at ≡ ok (after, hs)
      → now < expires_at
      → All (λ r. Mem r requested) required
      → require_authorized
          (registry_authority after)
          hs
          (owner_of host session operation_id now)
          required
        ≡ ok tt
  require-acquire h early among =
      let (perm, grants, helds, frame, receipts, tombstones) =
        acquire_grants host reg session operation_id requested expires_at h in
      requires (registry_authority after) (owner_of host session operation_id now) hs required
        (All-imp required (λ r m. (Perm.mem_iff perm).1 m) among)
        (acquire_authorizes host reg session operation_id requested expires_at now h early)

module _ (reg : Registry) (sound : IsSound reg.slots reg.objects) (owner : Owner)
    (handles : List Handle) (r : ResourceRef) (required : List ResourceRef) where
  -- In a sound registry, after `quarantine` of an operation an adapter that requires some resource for
  -- it is refused, whatever handles it shows.
  pub require-quarantine : ¬ IsOk (
      require_authorized
        (registry_authority (quarantine reg owner.operation_id).0)
        handles
        owner
        (r ∷ required))
  unfolding require_authorized
  require-quarantine passed =
      let closed = quarantine reg owner.operation_id in
      elim (Option-cases (find (is_of r) handles)) [
        | inl missing ↦ absurd (ground (arith, missing))
        | inr (h, found) ↦ elim (Result-cases (assert_active closed.0 (request_of owner h))) [
          | inr (e, failed) ↦ absurd (ground (arith, found, failed))
          | inl (done, active) ↦
              quarantine_revokes reg sound owner.operation_id (request_of owner h) active refl
        ]
      ]
