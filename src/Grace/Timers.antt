-- ===== src/Grace/Timers.antt =====
-- Lists of timers, and the entries that they belong to (runtime/src/client-grace.ts).
use ai_macos.Base.{
  ℕ, String, ◌≡◌, ◌≢◌, refl, ap, subst, ◌∙◌, inl, inr, Bool, true, false, some, List, [], ◌∷◌, ◌==◌,
  nat_eq, string_eq, find, All, Bool-cases, arith, eq_of_==,
}
use ai_macos.Base.Dict
use ai_macos.Base.Dict.{Dict, get-set, get-delete}
use ai_macos.Grace.{GraceEntry, Timer, clear, clear_all, set_pending, entry_of, some_pending}

-- The lineage of the timer has the entry of that timer.
abbrev pub HasEntry : Dict String GraceEntry → Bool → Timer → Type 0
HasEntry entries pending t = Dict.get t.lineage entries ≡ some (entry_of t.id pending)

pub All-clear {ℓ κ} :
    (P : Timer → Type ℓ) (Q : Timer → Type κ) (id : ℕ) (ts : List Timer)
    → ((t : Timer) → P t → (t.id == id) ≡ false → Q t)
    → All P ts
    → All Q (clear id ts)
unfolding clear
All-clear P Q id [] f all = tt
All-clear P Q id (t ∷ ts) f all = elim (Bool-cases (t.id == id)) [
  | inl same ↦ rw same (All-clear P Q id ts f all.1)
  | inr other ↦ rw other (f t all.0 other, All-clear P Q id ts f all.1)
]

-- What holds of every timer holds of one that is found.
pub All-find {ℓ} :
    (P : Timer → Type ℓ) (id : ℕ) (ts : List Timer) {t : Timer}
    → find (λ (u : Timer). u.id == id) ts ≡ some t
    → All P ts
    → P t × (t.id ≡ id)
All-find P id [] found all = absurd (ground arith)
All-find P id (u ∷ us) {t} found all = elim (Bool-cases (u.id == id)) [
  | inl same ↦
      let here : u ≡ t = ground arith in
      subst (λ (x : Timer). P x × (x.id ≡ id)) here (all.0, ground arith)
  | inr other ↦ All-find P id us (ground arith) all.1
]

module _ (l : String) (entries : Dict String GraceEntry) (pending : Bool) (t : Timer) where
  pub at_lineage :
      (l == t.lineage) ≡ true
      → HasEntry entries pending t
      → Dict.get l entries ≡ some (entry_of t.id pending)
  at_lineage same has = ap (λ k. Dict.get k entries) (eq_of_== l t.lineage same) ∙ has

  -- A lineage that has another entry loses or replaces it without harm to this timer.
  pub delete-HasEntry :
      Dict.get l entries ≢ some (entry_of t.id pending)
      → HasEntry entries pending t
      → HasEntry (Dict.delete l entries) pending t
  delete-HasEntry other has = elim (Bool-cases (l == t.lineage)) [
    | inl same ↦ absurd (other (at_lineage same has))
    | inr apart ↦ get-delete l t.lineage entries ∙ rw apart has
  ]

  pub set-HasEntry :
      (e : GraceEntry)
      → Dict.get l entries ≢ some (entry_of t.id pending)
      → HasEntry entries pending t
      → HasEntry (Dict.set l e entries) pending t
  set-HasEntry e other has = elim (Bool-cases (l == t.lineage)) [
    | inl same ↦ absurd (other (at_lineage same has))
    | inr apart ↦ get-set l t.lineage e entries ∙ rw apart has
  ]

pub set_pending-eq :
    (t : Timer) (entries : Dict String GraceEntry)
    → HasEntry entries false t
    → set_pending t entries ≡ Dict.set t.lineage (entry_of t.id true) entries
unfolding set_pending
set_pending-eq t entries has = ground (arith, has)

-- The loop of `drain` and `close` reaches every timer.
pub clear_all-empty :
    (entries : Dict String GraceEntry) (ts : List Timer)
    → All (HasEntry entries false) ts
    → clear_all entries ts ≡ []
unfolding clear_all Dict.get
clear_all-empty [] [] all = refl
clear_all-empty [] (t ∷ ts) all = absurd (ground (arith, all.0))
clear_all-empty ((l, e) ∷ rest) ts all = clear_all-empty rest (clear e.timer ts) (
    All-clear (HasEntry ((l, e) ∷ rest) false) (HasEntry rest false) e.timer ts
      (λ t has other. ground arith) all)

HasEntry-pending :
    (entries : Dict String GraceEntry) (t : Timer)
    → HasEntry entries true t
    → some_pending entries ≡ true
unfolding some_pending Dict.get
HasEntry-pending [] t has = absurd (ground arith)
HasEntry-pending ((l, e) ∷ rest) t has = elim (Bool-cases (l == t.lineage)) [
  | inl same ↦ ground arith
  | inr other ↦ ground (arith, HasEntry-pending rest t)
]

pub none_cleans :
    (entries : Dict String GraceEntry) (ts : List Timer)
    → some_pending entries ≡ false
    → All (HasEntry entries true) ts
    → ts ≡ []
none_cleans entries [] idle all = refl
none_cleans entries (t ∷ ts) idle all = absurd (ground (arith, HasEntry-pending entries t all.0))
