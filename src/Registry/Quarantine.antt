-- ===== src/Registry/Quarantine.antt =====
-- `quarantine` of runtime/src/resources.ts: which slots it marks, and which it leaves.
use mathlib.Core.List.{Memᴰ}
use ai_macos.Base.{
  String, ◌≡◌, ◌≢◌, refl, sym, ap, subst, ◌∙◌, inl, inr, true, none, some, List, [], ◌∷◌, arith,
  ◌==◌, string_eq, All, Bool-cases, ==_refl, ==_ne, eq_of_==,
}
use ai_macos.Base.Dict
use ai_macos.Base.Dict.{Dict, values, get-set, IsUnique, All-entries}
use ai_macos.Resource.{Handle, active, quarantined}
use ai_macos.Registry.{Slot, Registry, resource_key}
use ai_macos.Registry.Invariant.{IsSound, set-IsSound}
use ai_macos.Registry.Methods.{quarantine_slot, quarantine_all, issued_to, quarantine}

-- The slot under `key` is the handle's, and is quarantined.
abbrev pub IsMarked : Dict String Slot → String → Handle → Type 0
IsMarked slots key h =
    (s : Slot) × (Dict.get key slots ≡ some s) × (s.issued ≡ h) × (s.current.state ≡ quarantined)

module _ (k : String) (h0 : Handle) where
  -- No handle but `h0` stands under the key `k`.
  abbrev OnlyAt : List Handle → Type 0
  OnlyAt = All λ h. resource_key h.resource ≡ k → h ≡ h0

  slot_marks :
      (reg : Registry) → resource_key h0.resource ≡ k → IsMarked (quarantine_slot reg h0).slots k h0
  unfolding quarantine_slot
  slot_marks reg e =
      let s : Slot = record {
        issued = h0;
        current = record h0 { state = quarantined };
        object = reg.objects;
      } in
      (s, get-set (resource_key h0.resource) k s reg.slots ∙ rw (e, ==_refl k) refl, refl, refl)

  slot_skips :
      (reg : Registry) (h : Handle)
      → resource_key h.resource ≢ k
      → Dict.get k (quarantine_slot reg h).slots ≡ Dict.get k reg.slots
  unfolding quarantine_slot
  slot_skips reg h other =
      get-set (resource_key h.resource) k
        (record { issued = h; current = record h { state = quarantined }; object = reg.objects })
        reg.slots
      ∙ rw (==_ne (resource_key h.resource) k other) refl

  stays-IsMarked :
      (hs : List Handle) (reg : Registry)
      → OnlyAt hs
      → IsMarked reg.slots k h0
      → IsMarked (quarantine_all reg hs).slots k h0
  unfolding quarantine_all
  stays-IsMarked [] reg only m = m
  stays-IsMarked (h ∷ hs) reg only (s, found, same, now) =
      stays-IsMarked hs (quarantine_slot reg h) only.1
        (elim (Bool-cases (resource_key h.resource == k)) [
          | inl here ↦
              let at = eq_of_== (resource_key h.resource) k here in
              subst (λ x. IsMarked (quarantine_slot reg x).slots k h0) (sym (only.0 at))
                (slot_marks reg
                  (ap (λ (x : Handle). resource_key x.resource) (sym (only.0 at)) ∙ at))
          | inr other ↦ (s, slot_skips reg h (λ e. ground (arith, e, ==_refl k)) ∙ found, same, now)
        ])

  all_mark :
      (hs : List Handle) (reg : Registry)
      → OnlyAt hs
      → resource_key h0.resource ≡ k
      → Memᴰ h0 hs
      → IsMarked (quarantine_all reg hs).slots k h0
  unfolding quarantine_all
  all_mark [] reg only e m = elim m [ ]
  all_mark (h ∷ hs) reg only e (Memᴰ.head same) =
      stays-IsMarked hs (quarantine_slot reg h) only.1
        (subst (λ x. IsMarked (quarantine_slot reg x).slots k h0) (cc same) (slot_marks reg e))
  all_mark (h ∷ hs) reg only e (Memᴰ.tail m) = all_mark hs (quarantine_slot reg h) only.1 e m

All-skip :
    (k : String) (hs : List Handle) (reg : Registry)
    → All (λ h. resource_key h.resource ≢ k) hs
    → Dict.get k (quarantine_all reg hs).slots ≡ Dict.get k reg.slots
unfolding quarantine_all
All-skip k [] reg others = refl
All-skip k (h ∷ hs) reg others =
    All-skip k hs (quarantine_slot reg h) others.1 ∙ slot_skips k h reg h others.0

issued_found :
    (op : String) (slots : Dict String Slot) (k : String) (s : Slot)
    → Dict.get k slots ≡ some s
    → s.issued.operation_id ≡ op
    → Memᴰ s.issued (issued_to op slots)
unfolding Dict.get issued_to
issued_found op [] k s found own = cc
issued_found op ((j, x) ∷ slots) k s found own = elim (Bool-cases (j == k)) [
  | inl here ↦
      let same : x ≡ s = ground arith in
      let listed : (x.issued.operation_id == op) ≡ true = ground arith in
      rw listed (Memᴰ.head (ap (λ (y : Slot). y.issued) (sym same)))
  | inr other ↦
      let later = issued_found op slots k s (ground arith) own in
      elim (Bool-cases (x.issued.operation_id == op)) [
        | inl listed ↦ rw listed (Memᴰ.tail later)
        | inr foreign ↦ rw foreign later
      ]
]

All-issued :
    (op : String) (P : Handle → Type 0) (slots : Dict String Slot)
    → All (λ e. (e.1).issued.operation_id ≡ op → P (e.1).issued) slots
    → All P (issued_to op slots)
unfolding issued_to
All-issued op P [] h = tt
All-issued op P ((j, x) ∷ slots) h = elim (Bool-cases (x.issued.operation_id == op)) [
  | inl own ↦ rw own (h.0 (eq_of_== x.issued.operation_id op own), All-issued op P slots h.1)
  | inr foreign ↦ rw foreign (All-issued op P slots h.1)
]

quarantine_all-IsSound :
    (hs : List Handle) (r : Registry)
    → IsSound r.slots r.objects
    → All (λ h. h.state ≡ active) hs
    → IsSound (quarantine_all r hs).slots (quarantine_all r hs).objects
unfolding quarantine_all quarantine_slot
quarantine_all-IsSound [] r w actives = w
quarantine_all-IsSound (h ∷ hs) r w actives =
    quarantine_all-IsSound hs (quarantine_slot r h)
      (set-IsSound w (resource_key h.resource)
        (record { issued = h; current = record h { state = quarantined }; object = r.objects })
        (record { keyed = refl; was_active = actives.0; now = inr refl }) refl)
      actives.1

module _ (reg : Registry) (v : IsSound reg.slots reg.objects) (op : String) where
  each_issued :
      (P : Handle → Type 0)
      → ((k : String) (s : Slot)
          → Dict.get k reg.slots ≡ some s
          → s.issued.operation_id ≡ op
          → P s.issued)
      → All P (issued_to op reg.slots)
  each_issued P f =
      All-issued op P reg.slots
        (All-entries (λ k s. s.issued.operation_id ≡ op → P s.issued) reg.slots v.unique f)

  -- In a sound registry `quarantine` marks every slot that was issued to the operation, which
  -- keeps its handle, and leaves every other slot as it is.
  pub quarantine_marks :
      (k : String) (s : Slot)
      → Dict.get k reg.slots ≡ some s
      → ((s.issued.operation_id ≡ op) → IsMarked (quarantine reg op).0.slots k s.issued)
        × ((s.issued.operation_id ≢ op)
            → Dict.get k (quarantine reg op).0.slots ≡ Dict.get k reg.slots)
  unfolding quarantine
  quarantine_marks k s found = (
    (λ own.
        all_mark k s.issued (issued_to op reg.slots) reg
          (each_issued (λ h. resource_key h.resource ≡ k → h ≡ s.issued)
            (λ j t there mine at. ground (arith, (v.each j t there).keyed)))
          (v.each k s found).keyed (issued_found op reg.slots k s found own)),
    λ foreign. All-skip k (issued_to op reg.slots) reg (
        each_issued (λ h. resource_key h.resource ≢ k)
          (λ j t there mine at. ground (arith, (v.each j t there).keyed))),
  )

  issued_active : All (λ h. h.state ≡ active) (issued_to op reg.slots)
  issued_active =
      each_issued (λ h. h.state ≡ active) (λ k s found own. (v.each k s found).was_active)

  -- It stays sound.
  pub quarantine-IsSound : IsSound (quarantine reg op).0.slots (quarantine reg op).0.objects
  unfolding quarantine
  quarantine-IsSound = quarantine_all-IsSound (issued_to op reg.slots) reg v issued_active

  -- It takes no free resource.
  pub quarantine_skips :
      (k : String) → Dict.get k reg.slots ≡ none → Dict.get k (quarantine reg op).0.slots ≡ none
  unfolding quarantine
  quarantine_skips k missing =
      All-skip k (issued_to op reg.slots) reg (
        each_issued (λ h. resource_key h.resource ≢ k)
          (λ j t there mine at. ground (arith, (v.each j t there).keyed)))
      ∙ missing
