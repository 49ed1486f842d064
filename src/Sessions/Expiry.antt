-- ===== src/Sessions/Expiry.antt =====
-- `nextExpiryAt` and `expiredSessions` of runtime/src/client-sessions.ts.
use ai_macos.Base.{
  ℕ, ◌<◌, ◌≡◌, refl, sym, ◌∙◌, ◌↔◌, Bool, false, ◌&&◌, ◌||◌, Option, none, some, List, [], ◌∷◌, map,
  select, arith, string_eq, any, leb,
}
use ai_macos.Base.Dict.{values}
use ai_macos.Sessions.{
  SessionHost, Sessions, Stored, is_live, sooner, next_expiry_from, next_expiry_at,
  expired_sessions,
}

module _ (host : SessionHost) (now : ℕ) where
  abbrev is_due : Option ℕ → Bool
  is_due none = false
  is_due (some at) = leb at now

  abbrev is_expired : Stored → Bool
  is_expired s = is_live host s && leb s.session.expires_at now

  due_sooner : (next : Option ℕ) (at : ℕ) → is_due (sooner next at) ≡ is_due next || leb at now
  due_sooner none at = refl
  due_sooner (some next) at = ground arith

  due_from :
      (xs : List Stored) (next : Option ℕ)
      → is_due (next_expiry_from host next xs) ≡ is_due next || any is_expired xs
  unfolding next_expiry_from
  due_from [] next = ground arith
  due_from (s ∷ xs) next = ground (
    arith,
    due_from xs next,
    due_from xs (sooner next s.session.expires_at),
    due_sooner next s.session.expires_at,
  )

  empty_iff :
      (xs : List Stored)
      → (map (λ (s : Stored). s.session) (select is_expired xs) ≡ []) ↔ (any is_expired xs ≡ false)
  empty_iff [] = ((λ e. refl), λ e. refl)
  empty_iff (s ∷ xs) =
      ((λ e. ground (arith, (empty_iff xs).0)), λ e. ground (arith, (empty_iff xs).1))

  -- Some session has expired exactly when the next expiry is due.
  pub expired-next_expiry :
      (st : Sessions)
      → (expired_sessions host st now ≡ [])
        ↔ ((at : ℕ) → next_expiry_at host st ≡ some at → now < at)
  unfolding expired_sessions next_expiry_at
  expired-next_expiry st = (
    (λ e at found.
        ground (arith, due_from (values st.sessions) none, (empty_iff (values st.sessions)).0 e)),
    λ later. (empty_iff (values st.sessions)).1 (
        sym (due_from (values st.sessions) none)
        ∙ not_due (next_expiry_from host none (values st.sessions)) later),
  )
    where
      not_due : (o : Option ℕ) → ((at : ℕ) → o ≡ some at → now < at) → is_due o ≡ false
      not_due none f = refl
      not_due (some at) f = ground (arith, f at refl)
