-- ===== src/Recovery.antt =====
-- shared/src/contracts/recovery-domain.ts: the durable gate before an operation is sent to the
-- native host.
use ai_macos.Base.{
  ℕ, String, Bool, true, false, ◌&&◌, List, [], ◌∷◌, Eq, ltb, negate, ℕ_discrete, String_discrete,
  if◌then◌else◌,
}
use ai_macos.Identity.{Generation}

pub data HoldKind : Type 0 where
  key button : HoldKind

pub record Hold : Type 0 where
  pub kind : HoldKind
  pub code : ℕ

pub data Domain : Type 0 where
  no_held_input possible_held_input : Domain

pub record Descriptor : Type 0 where
  pub native_build_id : String
  pub method : String
  pub domain : Domain
  pub possible_holds : List Hold

-- The order of the texts `kind:code`, the code padded to five digits: "button" comes before "key".
abbrev hold_lt : Hold → Hold → Bool
hold_lt a b = elim a.kind [
  | button ↦ elim b.kind [ button ↦ ltb a.code b.code | key ↦ true ]
  | key ↦ elim b.kind [ button ↦ false | key ↦ ltb a.code b.code ]
]

ascending : List Hold → Bool
ascending [] = true
ascending (a ∷ []) = true
ascending (a ∷ b ∷ rest) = hold_lt a b && ascending (b ∷ rest)

abbrev is_empty : List Hold → Bool
is_empty [] = true
is_empty _ = false

abbrev is_no_held : Domain → Bool
is_no_held no_held_input = true
is_no_held _ = false

-- The refinement of `nativeRecoveryDescriptorSchema`.
unfoldable pub descriptor_is_valid : Descriptor → Bool
unfolding ascending
descriptor_is_valid d =
    (if is_no_held d.domain then is_empty d.possible_holds else negate (is_empty d.possible_holds))
    && ascending d.possible_holds

pub record Grant : Type 0 where
  pub generation : Generation
  pub open generation use *
  pub native_generation : String
  pub operation_id : String
  pub context_sha256 : String
  pub descriptor : Descriptor
  pub descriptor_sha256 : String
  pub journal_revision : ℕ

-- `NativeRecoveryState`: its phases "not-authorized" and "send-authorized".
pub data RecoveryGate : Type 0 where
  not_authorized : (native_build_id native_generation : String) → RecoveryGate
  send_authorized : Grant → RecoveryGate

unfoldable pub RecoveryGate_discrete : Discrete RecoveryGate
RecoveryGate_discrete = hlevel (String_discrete, ℕ_discrete)

instance abbrev pub recovery_gate_eq : Eq RecoveryGate
recovery_gate_eq = record { decide = RecoveryGate_discrete }
