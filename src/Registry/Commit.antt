-- ===== src/Registry/Commit.antt =====
-- What one `commit` of a prepared cleanup does to the slots (runtime/src/resources.ts).
use mathlib.Core.List.{Nodup, Nodup-cons, Mem, mem-cons}
use mathlib.Core.Logic.Or
use ai_macos.Base.{
  String, ◌≡◌, ◌≢◌, refl, sym, subst, ◌∙◌, Option, none, some, List, [], ◌∷◌, map, arith, string_eq,
  nat_eq, All, ok, ==_refl, ==_ne,
}
use ai_macos.Base.Dict
use ai_macos.Base.Dict.{Dict, get-set, get-delete}
use ai_macos.Resource.{Handle, HandleState, TerminalOutcome, released, Receipt}
use ai_macos.Registry.{Slot, Registry}
use ai_macos.Registry.Cleanup.{Planned, free_slot, mark_slot, finish, finish_all}

-- The slot of a planned resource is the one that was planned.
abbrev pub IsPlanned : Dict String Slot → Planned → Type 0
IsPlanned slots p =
    (s : Slot) × (Dict.get p.key slots ≡ some s) × (s.issued ≡ p.stored) × (s.object ≡ p.object)

-- What the outcome of a resource asks for: the slot is free, or it is marked as quarantined.
abbrev pub SettledAt : Dict String Slot → String → Handle → TerminalOutcome → Type 0
SettledAt slots key h released = Dict.get key slots ≡ none
SettledAt slots key h TerminalOutcome.quarantined =
    (s : Slot) × (Dict.get key slots ≡ some s)
    × (s.issued ≡ h)
    × (s.current.state ≡ HandleState.quarantined)

abbrev pub IsSettled : Dict String Slot → Planned → Type 0
IsSettled slots p = SettledAt slots p.key p.stored p.resource.outcome

-- Nothing but the slot under `key` differs.
abbrev pub SameBut : String → Dict String Slot → Dict String Slot → Type 0
SameBut key before after = (k : String) → key ≢ k → Dict.get k after ≡ Dict.get k before

module _ (receipt : Option Receipt) (reg : Registry) (p : Planned) where
  finish_free : p.resource.outcome ≡ released → finish receipt reg p ≡ ok (free_slot receipt reg p)
  unfolding finish
  finish_free e = ground arith

  finish_mark :
      {s : Slot}
      → p.resource.outcome ≡ TerminalOutcome.quarantined
      → Dict.get p.key reg.slots ≡ some s
      → finish receipt reg p ≡ ok (mark_slot reg p s)
  unfolding finish
  finish_mark e found = ground arith

  pub finish_settles :
      IsPlanned reg.slots p
      → (reg' : Registry) × (finish receipt reg p ≡ ok reg')
        × IsSettled reg'.slots p
        × SameBut p.key reg.slots reg'.slots
  finish_settles (s, found, same, unchanged) = go p.resource.outcome refl
    where
      marked : Slot
      marked = record {
        issued = s.issued;
        current = record s.current { state = HandleState.quarantined };
        object = reg.objects;
      }

      go :
          (t : TerminalOutcome)
          → p.resource.outcome ≡ t
          → (reg' : Registry) × (finish receipt reg p ≡ ok reg')
            × IsSettled reg'.slots p
            × SameBut p.key reg.slots reg'.slots
      go released e = (
        free_slot receipt reg p,
        finish_free e,
        subst (SettledAt (Dict.delete p.key reg.slots) p.key p.stored) (sym e)
            (get-delete p.key p.key reg.slots ∙ rw (==_refl p.key)),
        λ k other. get-delete p.key k reg.slots ∙ rw (==_ne p.key k other),
      )
      go TerminalOutcome.quarantined e = (
        mark_slot reg p s,
        finish_mark e found,
        subst (SettledAt (mark_slot reg p s).slots p.key p.stored) (sym e)
            (marked, get-set p.key p.key marked reg.slots ∙ rw (==_refl p.key), same, refl),
        λ k other. get-set p.key k marked reg.slots ∙ rw (==_ne p.key k other),
      )

still_planned :
    (before after : Dict String Slot) (key : String) (ps : List Planned)
    → ¬ Mem key (map (λ (p : Planned). p.key) ps)
    → SameBut key before after
    → All (IsPlanned before) ps
    → All (IsPlanned after) ps
still_planned before after key [] new same w = tt
still_planned before after key (p ∷ ps) new same ((s, found, issued, object), later) = (
  (s, same p.key (λ e. new (mem-cons.1 (Or.inl e))) ∙ found, issued, object),
  still_planned before after key ps (λ m. new (mem-cons.1 (Or.inr m))) same later,
)

still_settled :
    (before after : Dict String Slot) (p : Planned) (t : TerminalOutcome)
    → Dict.get p.key after ≡ Dict.get p.key before
    → SettledAt before p.key p.stored t
    → SettledAt after p.key p.stored t
still_settled before after p released same h = same ∙ h
still_settled before after p TerminalOutcome.quarantined same (s, found, issued, now) =
    (s, same ∙ found, issued, now)

-- The whole loop settles every resource, and no slot but theirs differs.
pub finish_all_settles :
    (receipt : Option Receipt) (ps : List Planned) (reg : Registry)
    → Nodup (map (λ (p : Planned). p.key) ps)
    → All (IsPlanned reg.slots) ps
    → (reg' : Registry) × (finish_all receipt reg ps ≡ ok reg')
      × All (IsSettled reg'.slots) ps
      × ((k : String)
          → ¬ Mem k (map (λ (p : Planned). p.key) ps)
          → Dict.get k reg'.slots ≡ Dict.get k reg.slots)
unfolding finish_all
finish_all_settles receipt [] reg d w = (reg, refl, tt, λ k new. refl)
finish_all_settles receipt (p ∷ ps) reg d w =
    let (new, rest) = Nodup-cons.0 d in
    let (next, step, settled, frame) = finish_settles receipt reg p w.0 in
    let (reg', steps, all_settled, frames) =
      finish_all_settles receipt ps next rest
        (still_planned reg.slots next.slots p.key ps new frame w.1) in
    (
      reg',
      rw (step, finish_all) steps,
      (
        still_settled next.slots reg'.slots p p.resource.outcome (frames p.key new) settled,
        all_settled,
      ),
      λ k outside.
          frames k (λ m. outside (mem-cons.1 (Or.inr m)))
          ∙ frame k (λ e. outside (mem-cons.1 (Or.inl (sym e)))),
    )
