-- ===== src/Registry/Grants.antt =====
-- What a granted `acquire` of runtime/src/resources.ts returns and changes.
use mathlib.Core.List.{Perm, Nodup, Nodup-cons, Mem, mem-cons}
use mathlib.Core.List.Perm
use mathlib.Core.Logic.Or
use ai_macos.Base.{
  ◌+◌, ◌∙◌, ==_refl, eq_of_==, ℕ, String, ◌≡◌, refl, sym, ap, false, some, List, [], ◌∷◌, map,
  arith, Bool-cases, inl, inr, ok, repeats, Nodup-of_repeats, mem_of_mem-map, ◌==◌, string_eq, All,
  All-imp, length,
}
use ai_macos.Base.Dict
use ai_macos.Base.Dict.{Dict, get-set}
use ai_macos.Resource.{ResourceRef, Handle, HandleState}
use ai_macos.Operation.{ClientSession}
use ai_macos.Registry.{
  store, issue, Host, Slot, Registry, resource_key, sort_resources, keys_of, check_free, acquire,
}
use ai_macos.Registry.Invariant.{IsSound, store-IsSound}
use ai_macos.Registry.Keys.{resource_key_inj, sort_resources-perm}

-- The slot of a handle that has just been issued.
abbrev pub IsHeld : Dict String Slot → Handle → Type 0
IsHeld slots h =
    (o : ℕ) × (Dict.get (resource_key h.resource) slots
      ≡ some (record { issued = h; current = h; object = o }))

abbrev handle_key : Handle → String
handle_key h = resource_key h.resource

store_frame :
    (hs : List Handle) (o : ℕ) (slots : Dict String Slot) (k : String)
    → ¬ Mem k (map handle_key hs)
    → Dict.get k (store hs o slots) ≡ Dict.get k slots
unfolding store
store_frame [] o slots k new = refl
store_frame (h ∷ hs) o slots k new =
    store_frame hs (o + 1) _ k (λ m. new (mem-cons.1 (Or.inr m)))
    ∙ get-set (handle_key h) k _ slots
    ∙ elim (Bool-cases (handle_key h == k)) [
      | inl same ↦ absurd (new (mem-cons.1 (Or.inl (sym (eq_of_== (handle_key h) k same)))))
      | inr other ↦ rw other
    ]

store-IsHeld :
    (hs : List Handle) (o : ℕ) (slots : Dict String Slot)
    → Nodup (map handle_key hs)
    → All (IsHeld (store hs o slots)) hs
unfolding store
store-IsHeld [] o slots d = tt
store-IsHeld (h ∷ hs) o slots d =
    let (new, rest) = Nodup-cons.0 d in
    (
      (
        o,
        store_frame hs (o + 1) _ (handle_key h) new
            ∙ get-set (handle_key h) (handle_key h) _ slots
            ∙ rw (==_refl (handle_key h)),
      ),
      store-IsHeld hs (o + 1) _ rest,
    )

-- A handle that the call issued: active, under the caller's operation, session and generation.
pub record IsGrant (host : Host) (session : ClientSession) (operation_id : String) (expires_at : ℕ)
    (h : Handle) : Type 0 where
  pub active : h.state ≡ HandleState.active
  pub operation : h.operation_id ≡ operation_id
  pub client : h.client_session_id ≡ session.client_session_id
  pub principal : h.principal_id ≡ session.principal_id
  pub generation : h.generation ≡ host.generation
  pub expiry : h.expires_at ≡ expires_at

issue-IsGrant :
    (host : Host) (session : ClientSession) (operation_id : String) (expires_at drawn : ℕ)
    (rs : List ResourceRef)
    → All
        (IsGrant host session operation_id expires_at)
        (issue host session operation_id expires_at drawn rs)
unfolding issue
issue-IsGrant host session op expires_at drawn [] = tt
issue-IsGrant host session op expires_at drawn (r ∷ rs) = (
  record {
    active = refl;
    operation = refl;
    client = refl;
    principal = refl;
    generation = refl;
    expiry = refl;
  },
  issue-IsGrant host session op expires_at (drawn + 2) rs,
)

map-issue :
    (host : Host) (session : ClientSession) (operation_id : String) (expires_at drawn : ℕ)
    (rs : List ResourceRef)
    → map (λ (h : Handle). h.resource) (issue host session operation_id expires_at drawn rs) ≡ rs
unfolding issue
map-issue host session op expires_at drawn [] = refl
map-issue host session op expires_at drawn (r ∷ rs) =
    ap (◌∷◌ r) (map-issue host session op expires_at (drawn + 2) rs)

keys-issue :
    (host : Host) (session : ClientSession) (operation_id : String) (expires_at drawn : ℕ)
    (rs : List ResourceRef)
    → map handle_key (issue host session operation_id expires_at drawn rs) ≡ keys_of rs
unfolding issue
keys-issue host session op expires_at drawn [] = refl
keys-issue host session op expires_at drawn (r ∷ rs) =
    ap (◌∷◌ (resource_key r)) (keys-issue host session op expires_at (drawn + 2) rs)

module _ (host : Host) (reg : Registry) {reg' : Registry} (session : ClientSession)
    (operation_id : String) (requested : List ResourceRef) (expires_at : ℕ) {hs : List Handle}
    (granted : acquire host reg session operation_id requested expires_at ≡ ok (reg', hs)) where
  abbrev issued_handles : List Handle
  issued_handles =
      issue host session operation_id expires_at reg.drawn (sort_resources host requested)

  pub acquire_cases :
      (repeats (keys_of (sort_resources host requested)) ≡ false)
      × (check_free reg.slots (keys_of (sort_resources host requested)) ≡ ok tt)
      × (hs ≡ issued_handles)
      × (reg'.slots ≡ store issued_handles reg.objects reg.slots)
      × (reg'.objects ≡ reg.objects + length issued_handles)
      × (reg'.receipts ≡ reg.receipts)
      × (reg'.tombstones ≡ reg.tombstones)
  unfolding acquire
  acquire_cases = ground arith

  -- What a granted request returns and changes: one grant for each requested resource, which now
  -- holds its slot; no other resource's slot changes, nor a receipt or a tombstone.
  pub acquire_grants :
      Perm (map (λ (h : Handle). h.resource) hs) requested
      × All (IsGrant host session operation_id expires_at) hs
      × All (IsHeld reg'.slots) hs
      × ((r : ResourceRef)
          → ¬ Mem r requested
          → Dict.get (resource_key r) reg'.slots ≡ Dict.get (resource_key r) reg.slots)
      × (reg'.receipts ≡ reg.receipts)
      × (reg'.tombstones ≡ reg.tombstones)
  acquire_grants =
      let (distinct, free, same_hs, same_slots, objects, receipts, tombstones) = acquire_cases in
      let sorted = sort_resources-perm host requested in
      (
        rw (same_hs, map-issue) sorted,
        rw same_hs (issue-IsGrant host session operation_id expires_at reg.drawn _),
        rw (same_hs, same_slots)
            (store-IsHeld issued_handles reg.objects reg.slots
              (rw keys-issue (Nodup-of_repeats _ distinct))),
        λ r new. rw same_slots (
            store_frame issued_handles reg.objects reg.slots (resource_key r) (
              rw keys-issue (λ m.
                new
                  ((Perm.mem_iff sorted).0 (mem_of_mem-map resource_key resource_key_inj _ r m))))),
        receipts,
        tombstones,
      )

  pub acquire-IsSound : IsSound reg.slots reg.objects → IsSound reg'.slots reg'.objects
  acquire-IsSound v =
      let (distinct, free, same_hs, same_slots, objects, receipts, tombstones) = acquire_cases in
      rw (same_slots, objects)
        (store-IsSound issued_handles reg.objects v (
          All-imp {P = IsGrant host session operation_id expires_at} issued_handles
            (λ h g. g.active) (issue-IsGrant host session operation_id expires_at reg.drawn _)))
