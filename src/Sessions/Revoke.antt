-- ===== src/Sessions/Revoke.antt =====
-- `revokePrincipal` of runtime/src/client-sessions.ts.
use ai_macos.Base.{
  ℕ, String, ◌≡◌, ◌≢◌, ◌⊎◌, inl, inr, true, some, [], ◌∷◌, arith, ◌==◌, string_eq, nat_eq, ok,
  Bool-cases, Option-cases,
}
use ai_macos.Base.Dict
use ai_macos.Base.Dict.{Dict, get-set}
use ai_macos.Operation.{ClientSession, client_session_eq}
use ai_macos.Sessions.{
  SessionHost, Sessions, Stored, by_digest, assert_stored_active, authenticate, resumable,
  assert_active, revoke_one, revoke_each, revoke_principal,
}

module _ (p : String) where
  -- Every session of the principal is revoked, but for those that the loop has yet to meet.
  RevokedBut : Dict String Stored → Dict String Stored → Type 0
  RevokedBut todo sessions =
      (k : String) (s : Stored)
      → Dict.get k sessions ≡ some s
      → s.session.principal_id ≡ p
      → (s.revoked ≡ true) ⊎ (Dict.get k todo ≡ some s)

  revoke_one-Revoked :
      (key : String) (x : Stored) (rest : Dict String Stored) (st : Sessions)
      → RevokedBut ((key, x) ∷ rest) st.sessions
      → RevokedBut rest (revoke_one p key x st).sessions
  unfolding revoke_one Dict.get RevokedBut
  revoke_one-Revoked key x rest st before k s found own =
      elim (Bool-cases (x.session.principal_id == p)) [
        | inl theirs ↦ elim (Bool-cases (key == k)) [
          | inl same ↦ inl (ground (arith, get-set key k (record x { revoked = true }) st.sessions))
          | inr other ↦
              elim (before k s
                (ground (arith, get-set key k (record x { revoked = true }) st.sessions)) own) [
                  | inl done ↦ inl done
                  | inr left ↦ inr (ground arith)
                ]
        ]
        | inr foreign ↦ elim (before k s (ground arith) own) [
          | inl done ↦ inl done
          | inr left ↦ inr (ground arith)
        ]
      ]

  revoke_each-Revoked :
      (todo : Dict String Stored) (st : Sessions)
      → RevokedBut todo st.sessions
      → RevokedBut [] (revoke_each p todo st).sessions
  unfolding revoke_each
  revoke_each-Revoked [] st before = before
  revoke_each-Revoked ((key, x) ∷ rest) st before =
      revoke_each-Revoked rest (revoke_one p key x st) (revoke_one-Revoked key x rest st before)

  revoked_after :
      (st : Sessions) (k : String) (s : Stored)
      → Dict.get k (revoke_principal st p).sessions ≡ some s
      → s.session.principal_id ≡ p
      → s.revoked ≡ true
  unfolding revoke_principal RevokedBut Dict.get
  revoked_after st k s found own =
      elim (revoke_each-Revoked st.sessions st (λ j t there mine. inr there) k s found own) [
        | inl done ↦ done
        | inr left ↦ cc
      ]

module _ (host : SessionHost) (st : Sessions) (p : String) (now : ℕ) where
  -- Once a principal is revoked, no bearer token authenticates it, no resumption token resumes a
  -- session of it, and no session of it is active.
  pub revoked_is_refused :
      ((token : String) (session : ClientSession)
        → authenticate host now (revoke_principal st p) token ≡ ok session
        → session.principal_id ≢ p)
      × ((token : String) (s : Stored)
          → resumable host now (revoke_principal st p) token ≡ ok s
          → s.session.principal_id ≢ p)
      × ((session : ClientSession)
          → assert_active host (revoke_principal st p) session now ≡ ok tt
          → session.principal_id ≢ p)
  unfolding authenticate resumable assert_active by_digest assert_stored_active
  revoked_is_refused = (
    (λ token session h own.
        let after = revoke_principal st p in
        elim (Option-cases (Dict.get (host.sha256 token) after.bearers)) [
          | inl missing ↦ ground arith
          | inr (id, listed) ↦ elim (Option-cases (Dict.get id after.sessions)) [
            | inl missing ↦ ground arith
            | inr (s, found) ↦ ground (arith, revoked_after p st id s found)
          ]
        ]),
    (λ token s h own.
        let after = revoke_principal st p in
        elim (Option-cases (Dict.get (host.sha256 token) after.resumptions)) [
          | inl missing ↦ ground arith
          | inr (id, listed) ↦ elim (Option-cases (Dict.get id after.sessions)) [
            | inl missing ↦ ground arith
            | inr (t, found) ↦ ground (arith, revoked_after p st id t found)
          ]
        ]),
    λ session h own.
        let after = revoke_principal st p in
        elim (Option-cases (Dict.get session.client_session_id after.sessions)) [
          | inl missing ↦ ground arith
          | inr (s, found) ↦ ground (arith, revoked_after p st session.client_session_id s found)
        ],
  )
