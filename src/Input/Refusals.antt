-- ===== src/Input/Refusals.antt =====
-- When a drag has no plan (`planDrag` and `normalizeModifiers` of input/src/action-plan.ts).
use ai_macos.Base.{
  ℕ, String, ◌+◌, ◌-◌, ◌≤◌, ◌≡◌, refl, subst, ◌↔◌, inl, inr, Bool, true, false, Option, none, some,
  List, [], ◌∷◌, ◌++◌, arith, length, IsOk, All, Result-cases, Option-cases, Bool-cases, nat_eq,
  string_eq, includes,
}
use ai_macos.Base.Dict
use ai_macos.Input.{TextHost, Numbers}
use ai_macos.Input.Keys.{modifier_flag, modifier_table}
use ai_macos.Input.Modifiers.{Modifier, collect, normalize_modifiers, canonical_by_flag}
use ai_macos.Input.Pointer.{
  Point, DragInput, normalize_point, trajectory_from, plan_drag, or_default,
}

abbrev pub is_known : {A : Type 0} → Option A → Bool
is_known none = false
is_known (some a) = true

-- Every flag of the table has a canonical name.
flag_is_canonical :
    (name : String) {flag : ℕ}
    → Dict.get name modifier_table ≡ some flag
    → is_known (Dict.get flag canonical_by_flag) ≡ true
unfolding Dict.get
flag_is_canonical name h = ground arith

module _ (host : TextHost) where
  -- The modifiers of the list all have flags.
  abbrev pub AllKnown : List String → Type 0
  AllKnown names = All (λ name. is_known (modifier_flag host name) ≡ true) names

  known_flag :
      (name : String)
      → is_known (modifier_flag host name) ≡ true
      → (flag : ℕ) × (modifier_flag host name ≡ some flag)
        × (is_known (Dict.get flag canonical_by_flag) ≡ true)
  unfolding modifier_flag
  known_flag name h = elim (Option-cases (Dict.get (host.lower_case name) modifier_table)) [
    | inl missing ↦ absurd (ground (arith, missing))
    | inr (flag, found) ↦ (flag, found, flag_is_canonical (host.lower_case name) found)
  ]

  collect-IsOk :
      (seen : List ℕ) (normalized : List Modifier) (names : List String)
      → AllKnown names
      → IsOk (collect host seen normalized names)
  unfolding collect
  collect-IsOk seen normalized [] known = tt
  collect-IsOk seen normalized (name ∷ names) known =
      let (flag, found, canonical) = known_flag name known.0 in
      elim (Bool-cases (includes seen flag)) [
        | inl old ↦ rw (found, old) (collect-IsOk seen normalized names known.1)
        | inr new ↦ elim (Option-cases (Dict.get flag canonical_by_flag)) [
          | inl missing ↦ absurd (ground (arith, missing))
          | inr (c, there) ↦
              rw (found, new, there)
                (collect-IsOk (flag ∷ seen) (normalized ++ (c ∷ [])) names known.1)
        ]
      ]

  collect-known :
      (seen : List ℕ) (normalized : List Modifier) (names : List String)
      → IsOk (collect host seen normalized names)
      → AllKnown names
  unfolding collect
  collect-known seen normalized [] h = tt
  collect-known seen normalized (name ∷ names) h = elim (Option-cases (modifier_flag host name)) [
    | inl missing ↦ absurd (ground (arith, missing))
    | inr (flag, found) ↦ elim (Bool-cases (includes seen flag)) [
      | inl old ↦ (rw found refl, collect-known seen normalized names (ground (arith, found, old)))
      | inr new ↦ elim (Option-cases (Dict.get flag canonical_by_flag)) [
        | inl missing ↦ absurd (ground (arith, found, new, missing))
        | inr (c, there) ↦ (
          rw found refl,
          collect-known (flag ∷ seen) (normalized ++ (c ∷ [])) names
              (ground (arith, found, new, there)),
        )
      ]
    ]
  ]

  normalize-IsOk_iff :
      (names : List String) → IsOk (normalize_modifiers host names) ↔ AllKnown names
  unfolding normalize_modifiers
  normalize-IsOk_iff names = (
    (λ h. elim (Result-cases (collect host [] [] names)) [
      | inr (e, failed) ↦ absurd (ground (arith, failed))
      | inl (out, done) ↦ collect-known [] [] names (rw done tt)
    ]),
    λ known. elim (Result-cases (collect host [] [] names)) [
      | inr (e, failed) ↦ absurd (subst IsOk failed (collect-IsOk [] [] names known))
      | inl (out, done) ↦ rw done tt
    ],
  )

module _ {N : Type 0} (numbers : Numbers N) where
  abbrev pub IsFinite : Point N → Type 0
  IsFinite p = (numbers.is_finite p.x ≡ true) × (numbers.is_finite p.y ≡ true)

  module _ (duration denominator : ℕ) where
    trajectory-IsOk :
        (index : ℕ) (points : List (Point N))
        → All IsFinite points
        → IsOk (trajectory_from numbers duration denominator index points)
    unfolding trajectory_from normalize_point
    trajectory-IsOk index [] finite = tt
    trajectory-IsOk index (p ∷ points) finite =
        elim (Result-cases (trajectory_from numbers duration denominator (index + 1) points)) [
          | inr (e, failed) ↦
              absurd (subst IsOk failed (trajectory-IsOk (index + 1) points finite.1))
          | inl (rest, done) ↦ ground (arith, done, finite.0)
        ]

    trajectory-IsFinite :
        (index : ℕ) (points : List (Point N))
        → IsOk (trajectory_from numbers duration denominator index points)
        → All IsFinite points
    unfolding trajectory_from normalize_point
    trajectory-IsFinite index [] h = tt
    trajectory-IsFinite index (p ∷ points) h =
        elim (Result-cases (trajectory_from numbers duration denominator (index + 1) points)) [
          | inr (e, failed) ↦ absurd (ground (arith, failed))
          | inl (rest, done) ↦ (
            (ground (arith, done), ground (arith, done)),
            trajectory-IsFinite (index + 1) points (rw done tt),
          )
        ]

module _ {N : Type 0} (numbers : Numbers N) (host : TextHost) (input : DragInput N) where
  -- A drag has a plan exactly when its duration is between 1 and 5000 milliseconds, it has between 2
  -- and 512 points, all of them finite, and every modifier is known; otherwise planning it throws.
  pub plan_drag-IsOk_iff :
      IsOk (plan_drag numbers host input)
      ↔ (1 ≤ input.duration_ms)
        × (input.duration_ms ≤ 5000)
        × (2 ≤ length input.points)
        × (length input.points ≤ 512)
        × All (IsFinite numbers) input.points
        × AllKnown host (or_default input.modifiers [])
  unfolding plan_drag
  plan_drag-IsOk_iff =
      let last = length input.points - 1 in
      let names = or_default input.modifiers [] in
      elim (Result-cases (trajectory_from numbers input.duration_ms last 0 input.points)) [
        | inr (e, failed) ↦ (
          (λ h. absurd (ground (arith, failed))),
          λ h. absurd (
              subst IsOk failed
                (trajectory-IsOk numbers input.duration_ms last 0 input.points h.4)),
        )
        | inl (path, done) ↦ elim (Result-cases (normalize_modifiers host names)) [
          | inr (e, failed) ↦ (
            (λ h. absurd (ground (arith, done, failed))),
            λ h. absurd (subst IsOk failed ((normalize-IsOk_iff host names).1 h.5)),
          )
          | inl (modifiers, named) ↦ (
            (λ h. (
              ground (arith, done, named),
              ground (arith, done, named),
              ground (arith, done, named),
              ground (arith, done, named),
              trajectory-IsFinite numbers input.duration_ms last 0 input.points (rw done tt),
              (normalize-IsOk_iff host names).0 (rw named tt),
            )),
            λ h. ground (arith, done, named),
          )
        ]
      ]
