-- ===== src/Input/Modifiers.antt =====
-- `normalizeModifiers` of input/src/action-plan.ts.
use ai_macos.Base.{
  ℕ, String, Bool, true, false, ◌||◌, Option, none, some, List, [], ◌∷◌, ◌++◌, ◌==◌, Eq, nat_eq,
  string_eq, leb, select, any, includes, Result, ok, ◌>>=◌, or_throw, if◌then◌else◌, ◌≡◌, refl, sym,
  ap, subst, ◌∙◌, eq_of_==, arith, inl, inr, Bool-cases, Option-cases, Result-cases, ℕ_discrete,
}
use ai_macos.Base.Dict
use ai_macos.Base.Dict.{Dict}
use ai_macos.Input.{TextHost, PlanError, unsupported_modifier}
use ai_macos.Input.Keys.{modifier_flag}

-- The canonical names.
pub data Modifier : Type 0 where
  cmd shift alt ctrl fn : Modifier

unfoldable pub Modifier_discrete : Discrete Modifier
Modifier_discrete = hlevel

instance abbrev pub modifier_eq : Eq Modifier
modifier_eq = record { decide = Modifier_discrete }

-- `canonicalByFlag`
abbrev pub canonical_by_flag : Dict ℕ Modifier
canonical_by_flag =
    (1048576, cmd) ∷ (131072, shift) ∷ (524288, alt) ∷ (262144, ctrl) ∷ (8388608, fn) ∷ []

-- `order`, and `order.indexOf(name)`.
abbrev pub modifier_order : List Modifier
modifier_order = cmd ∷ shift ∷ alt ∷ ctrl ∷ fn ∷ []

abbrev pub rank : Modifier → ℕ
rank cmd = 0
rank shift = 1
rank alt = 2
rank ctrl = 3
rank fn = 4

-- `normalized.sort(…)`, by insertion.
unfoldable pub insert : Modifier → List Modifier → List Modifier
insert m [] = m ∷ []
insert m (n ∷ rest) =
    let later = insert m rest in if leb (rank m) (rank n) then m ∷ n ∷ rest else n ∷ later

unfoldable pub sort_onto : List Modifier → List Modifier → List Modifier
sort_onto sorted [] = sorted
sort_onto sorted (m ∷ ms) = sort_onto (insert m sorted) ms

unfoldable pub sort : List Modifier → List Modifier
sort ms = sort_onto [] ms

-- The loop over the modifiers, with the flags that have been seen and the names so far. An inherited
-- member counts as the flag 0, which has no canonical name, and throws like an unknown modifier.
unfoldable pub collect :
    TextHost → List ℕ → List Modifier → List String → Result PlanError (List Modifier)
collect host seen normalized [] = ok normalized
collect host seen normalized (name ∷ names) = do
  flag ← or_throw (modifier_flag host name) unsupported_modifier
  if includes seen flag then collect host seen normalized names else (do
    canonical ← or_throw (Dict.get flag canonical_by_flag) unsupported_modifier
    collect host (flag ∷ seen) (normalized ++ (canonical ∷ [])) names)

-- `normalizeModifiers`
unfoldable pub normalize_modifiers : TextHost → List String → Result PlanError (List Modifier)
normalize_modifiers host names = do normalized ← collect host [] [] names; ok (sort normalized)

-- The flag of a canonical name.
abbrev pub flag_of : Modifier → ℕ
flag_of cmd = 1048576
flag_of shift = 131072
flag_of alt = 524288
flag_of ctrl = 262144
flag_of fn = 8388608

abbrev pub has_flag : Option ℕ → ℕ → Bool
has_flag none flag = false
has_flag (some f) flag = f == flag

-- Some of the names has the flag of the modifier.
abbrev pub is_named : TextHost → List String → Modifier → Bool
is_named host names m = any (λ name. has_flag (modifier_flag host name) (flag_of m)) names

sort-append :
    (acc ms : List Modifier) (m : Modifier)
    → sort_onto acc (ms ++ (m ∷ [])) ≡ insert m (sort_onto acc ms)
unfolding sort_onto
sort-append acc [] m = refl
sort-append acc (n ∷ ms) m = sort-append (insert n acc) ms m

abbrev pick : (a b c d e : Bool) → List Modifier
pick a b c d e =
    let fns = if e then fn ∷ [] else [] in
    let ctrls = if d then ctrl ∷ fns else fns in
    let alts = if c then alt ∷ ctrls else ctrls in
    let shifts = if b then shift ∷ alts else alts in if a then cmd ∷ shifts else shifts

insert_cmd : (b c d e : Bool) → insert cmd (pick false b c d e) ≡ pick true b c d e
unfolding insert
insert_cmd b c d e = ground arith

insert_shift : (a c d e : Bool) → insert shift (pick a false c d e) ≡ pick a true c d e
unfolding insert
insert_shift b c d e = ground arith

insert_alt : (a b d e : Bool) → insert alt (pick a b false d e) ≡ pick a b true d e
unfolding insert
insert_alt a b d e = ground arith

insert_ctrl : (a b c e : Bool) → insert ctrl (pick a b c false e) ≡ pick a b c true e
unfolding insert
insert_ctrl a b c e = ground arith

insert_fn : (a b c d : Bool) → insert fn (pick a b c d false) ≡ pick a b c d true
unfolding insert
insert_fn a b c d = ground arith

canonical_flag :
    (flag : ℕ) {m : Modifier} → Dict.get flag canonical_by_flag ≡ some m → flag ≡ flag_of m
unfolding Dict.get
canonical_flag flag h = ground arith

-- A new name goes to its place.
insert_new :
    (seen : List ℕ) (m : Modifier)
    → includes seen (flag_of m) ≡ false
    → insert m (select (λ n. includes seen (flag_of n)) modifier_order)
      ≡ select (λ n. includes (flag_of m ∷ seen) (flag_of n)) modifier_order
unfolding ℕ_discrete
insert_new seen cmd h = rw h (
    insert_cmd (includes seen 131072) (includes seen 524288) (includes seen 262144)
      (includes seen 8388608))
insert_new seen shift h = rw h (
    insert_shift (includes seen 1048576) (includes seen 524288) (includes seen 262144)
      (includes seen 8388608))
insert_new seen alt h = rw h (
    insert_alt (includes seen 1048576) (includes seen 131072) (includes seen 262144)
      (includes seen 8388608))
insert_new seen ctrl h = rw h (
    insert_ctrl (includes seen 1048576) (includes seen 131072) (includes seen 524288)
      (includes seen 8388608))
insert_new seen fn h = rw h (
    insert_fn (includes seen 1048576) (includes seen 131072) (includes seen 524288)
      (includes seen 262144))

or_false : (a : Bool) → a ≡ (a || false)
or_false true = refl
or_false false = refl

bools : (a b c : Bool) → a || b || c ≡ (b || (a || c))
bools true true c = refl
bools true false c = refl
bools false b c = refl

select-ext :
    (p q : Modifier → Bool) (ms : List Modifier)
    → ((m : Modifier) → p m ≡ q m)
    → select p ms ≡ select q ms
select-ext p q [] same = refl
select-ext p q (m ∷ ms) same = rw (same m, select-ext p q ms same) refl

held_new :
    (seen : List ℕ) (flag : ℕ) (normalized : List Modifier) (c : Modifier)
    → flag ≡ flag_of c
    → includes seen flag ≡ false
    → sort normalized ≡ select (λ m. includes seen (flag_of m)) modifier_order
    → sort (normalized ++ (c ∷ []))
      ≡ select (λ m. includes (flag ∷ seen) (flag_of m)) modifier_order
unfolding sort
held_new seen flag normalized c same new held =
    let absent : includes seen (flag_of c) ≡ false =
      subst (λ f. includes seen f ≡ false) same new in
    sort-append [] normalized c
    ∙ ap (insert c) held
    ∙ insert_new seen c absent
    ∙ ap (λ f. select (λ m. includes (f ∷ seen) (flag_of m)) modifier_order) (sym same)

module _ (host : TextHost) where
  seen_again :
      (seen : List ℕ) (flag : ℕ)
      → includes seen flag ≡ true
      → (name : String) (names : List String) (m : Modifier) → modifier_flag host name ≡ some flag
      → includes seen (flag_of m) || is_named host names m
        ≡ (includes seen (flag_of m) || is_named host (name ∷ names) m)
  seen_again seen flag old name names m found = elim (Bool-cases (flag == flag_of m)) [
    | inl same ↦
        let held : includes seen (flag_of m) ≡ true =
          subst (λ f. includes seen f ≡ true) (eq_of_== flag (flag_of m) same) old in
        rw held refl
    | inr other ↦ rw (found, other) refl
  ]

  seen_first :
      (seen : List ℕ) (flag : ℕ) (name : String) (names : List String) (m : Modifier)
      → modifier_flag host name ≡ some flag
      → includes (flag ∷ seen) (flag_of m) || is_named host names m
        ≡ (includes seen (flag_of m) || is_named host (name ∷ names) m)
  seen_first seen flag name names m found =
      rw found (bools (flag == flag_of m) (includes seen (flag_of m)) (is_named host names m))

  nothing : sort [] ≡ []
  unfolding sort sort_onto
  nothing = refl

  collect-eq :
      (seen : List ℕ) (normalized : List Modifier) (names : List String) {out : List Modifier}
      → sort normalized ≡ select (λ m. includes seen (flag_of m)) modifier_order
      → collect host seen normalized names ≡ ok out
      → sort out ≡ select (λ m. includes seen (flag_of m) || is_named host names m) modifier_order
  unfolding collect
  collect-eq seen normalized [] {out} held h =
      let same : normalized ≡ out = ground arith in
      ap sort (sym same)
      ∙ held
      ∙ select-ext (λ m. includes seen (flag_of m)) (λ m. includes seen (flag_of m) || false)
          modifier_order (λ m. or_false (includes seen (flag_of m)))
  collect-eq seen normalized (name ∷ names) {out} held h =
      elim (Option-cases (modifier_flag host name)) [
        | inl missing ↦ absurd (ground (arith, missing))
        | inr (flag, found) ↦ elim (Bool-cases (includes seen flag)) [
          | inl old ↦
              collect-eq seen normalized names {out = out} held (ground (arith, found, old))
              ∙ select-ext (λ m. includes seen (flag_of m) || is_named host names m)
                  (λ m. includes seen (flag_of m) || is_named host (name ∷ names) m) modifier_order
                  (λ m. seen_again seen flag old name names m found)
          | inr new ↦ elim (Option-cases (Dict.get flag canonical_by_flag)) [
            | inl missing ↦ absurd (ground (arith, found, new, missing))
            | inr (c, canonical) ↦
                let is_flag = canonical_flag flag {m = c} canonical in
                collect-eq (flag ∷ seen) (normalized ++ (c ∷ [])) names {out = out}
                  (held_new seen flag normalized c is_flag new held)
                  (ground (arith, found, new, canonical))
                ∙ select-ext (λ m. includes (flag ∷ seen) (flag_of m) || is_named host names m)
                    (λ m. includes seen (flag_of m) || is_named host (name ∷ names) m)
                    modifier_order (λ m. seen_first seen flag name names m found)
          ]
        ]
      ]

  -- The modifiers that `normalizeModifiers` returns are those of the order cmd, shift, alt, ctrl, fn
  -- whose flag some of the given names has, under whichever name and however often.
  pub normalize_modifiers-eq :
      (names : List String) {out : List Modifier}
      → normalize_modifiers host names ≡ ok out
      → out ≡ select (is_named host names) modifier_order
  unfolding normalize_modifiers
  normalize_modifiers-eq names {out} h = elim (Result-cases (collect host [] [] names)) [
    | inr (e, failed) ↦ absurd (ground (arith, failed))
    | inl (normalized, done) ↦
        let sorted : sort normalized ≡ out = ground (arith, done) in
        sym sorted ∙ collect-eq [] [] names {out = normalized} nothing done
  ]
