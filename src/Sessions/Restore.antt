-- ===== src/Sessions/Restore.antt =====
-- `restore` of runtime/src/client-sessions.ts: the sessions of a snapshot at startup.
use mathlib.Core.List.{Memᴰ}
use ai_macos.Base.{
  ℕ, String, ◌<◌, ◌≡◌, ◌≢◌, refl, ap, subst, ◌∙◌, inl, inr, Bool, true, false, negate, ◌&&◌, ◌||◌,
  some, List, [], ◌∷◌, arith, ◌==◌, string_eq, nat_eq, leb, length, every, includes, All,
  Bool-cases, Result, ok, ◌>>◌, reject_if, ==_refl, ==_ne, if◌then◌else◌,
}
use ai_macos.Base.Dict
use ai_macos.Base.Dict.{Dict, values, get-set}
use ai_macos.Operation.{session_is_valid}
use ai_macos.Sessions.{
  SessionHost, Sessions, Stored, SessionError, not_at_startup, invalid_snapshot,
  foreign_or_duplicate, duplicate_resumption, resumption_end, resumable, by_digest,
}

abbrev pub is_nonempty : Dict String Stored → Bool
is_nonempty [] = false
is_nonempty _ = true

-- `snapshot`
abbrev pub snapshot : Sessions → List Stored
snapshot st = values st.sessions

module _ (host : SessionHost) where
  -- The first loop of `restore`; the lists are its sets `ids` and `resumptions`.
  unfoldable pub check_restored :
      List String → List String → List Stored → Result SessionError (Unit {0})
  check_restored ids resumptions [] = ok tt
  check_restored ids resumptions (s ∷ rest) =
      let id = s.session.client_session_id in
      let later =
        check_restored (id ∷ ids)
          (if s.revoked then resumptions else s.resumption_digest ∷ resumptions) rest in
      do
        reject_if
            (negate (s.session.login_session_id == host.generation.login_session_id)
              || includes ids id)
            foreign_or_duplicate
        reject_if (negate s.revoked && includes resumptions s.resumption_digest)
            duplicate_resumption
        later

  -- The body of the second loop.
  unfoldable pub restore_one : Stored → Sessions → Sessions
  restore_one s st =
      let id = s.session.client_session_id in
      record st {
        sessions = Dict.set id s st.sessions;
        resumptions =
            if s.revoked then st.resumptions else Dict.set s.resumption_digest id st.resumptions;
        bearers =
            if negate s.revoked
              && negate s.disconnected
              && (s.session.runtime_epoch == host.generation.runtime_epoch)
            then Dict.set s.bearer_digest id st.bearers
            else st.bearers;
      }

  unfoldable pub restore_all : List Stored → Sessions → Sessions
  restore_all [] st = st
  restore_all (s ∷ rest) st = restore_all rest (restore_one s st)

  unfoldable pub restore : Sessions → List Stored → Result SessionError Sessions
  restore st records = do
    reject_if (is_nonempty st.sessions) not_at_startup
    reject_if
        (negate (leb (length records) 10000 && every (λ s. session_is_valid s.session) records))
        invalid_snapshot
    check_restored [] [] records
    ok (restore_all records st)

  -- What the check has seen stands in no later record.
  Absent : String → String → List Stored → Type 0
  Absent id digest xs =
      All
        (λ (s : Stored).
          (s.session.client_session_id ≢ id) × (s.revoked ≡ false → s.resumption_digest ≢ digest))
        xs

  check-Absent :
      (xs : List Stored) (ids digests : List String) (id digest : String)
      → includes ids id ≡ true
      → includes digests digest ≡ true
      → check_restored ids digests xs ≡ ok tt
      → Absent id digest xs
  unfolding check_restored Absent
  check-Absent [] ids digests id digest i d h = tt
  check-Absent (s ∷ xs) ids digests id digest i d h = (
    ((λ e. ground (arith, e)), λ live e. ground (arith, e)),
    check-Absent xs (s.session.client_session_id ∷ ids)
        (if s.revoked then digests else s.resumption_digest ∷ digests) id digest (ground arith)
        (elim (Bool-cases s.revoked) [ inl r ↦ rw r d | inr r ↦ ground arith ]) (ground arith),
  )

  -- The session and its resumption digest are listed.
  IsListed : Stored → Sessions → Type 0
  IsListed s st =
      (Dict.get s.session.client_session_id st.sessions ≡ some s)
      × (Dict.get s.resumption_digest st.resumptions ≡ some s.session.client_session_id)

  stays-IsListed :
      (xs : List Stored) (st : Sessions) (s : Stored)
      → Absent s.session.client_session_id s.resumption_digest xs
      → IsListed s st
      → IsListed s (restore_all xs st)
  unfolding restore_all restore_one Absent IsListed
  stays-IsListed [] st s away listed = listed
  stays-IsListed (x ∷ xs) st s ((other, fresh), away) (found, indexed) =
      stays-IsListed xs (restore_one x st) s away (
        get-set x.session.client_session_id s.session.client_session_id x st.sessions
            ∙ rw (==_ne x.session.client_session_id s.session.client_session_id other) found,
        elim (Bool-cases x.revoked) [
          | inl r ↦ rw r indexed
          | inr r ↦ rw r (
              get-set x.resumption_digest s.resumption_digest x.session.client_session_id
                st.resumptions
              ∙ rw (==_ne x.resumption_digest s.resumption_digest (fresh r)) indexed)
        ],
      )

  head-IsListed :
      (x : Stored) (xs : List Stored) (ids digests : List String) (st : Sessions)
      → check_restored ids digests (x ∷ xs) ≡ ok tt
      → x.revoked ≡ false
      → IsListed x (restore_all xs (restore_one x st))
  unfolding check_restored restore_one IsListed
  head-IsListed x xs ids digests st h live =
      let id = x.session.client_session_id in
      stays-IsListed xs (restore_one x st) x
        (check-Absent xs (id ∷ ids) (x.resumption_digest ∷ digests) id x.resumption_digest
          (ground (arith, ==_refl id)) (ground (arith, ==_refl x.resumption_digest)) (ground arith))
        (
          get-set id id x st.sessions ∙ rw (==_refl id) refl,
          rw live (
              get-set x.resumption_digest x.resumption_digest id st.resumptions
              ∙ rw (==_refl x.resumption_digest) refl),
        )

  login_checked :
      (xs : List Stored) (ids digests : List String) (s : Stored)
      → check_restored ids digests xs ≡ ok tt
      → Memᴰ s xs
      → s.session.login_session_id ≡ host.generation.login_session_id
  unfolding check_restored
  login_checked [] ids digests s h m = elim m [ ]
  login_checked (x ∷ xs) ids digests s h (Memᴰ.head same) = ground (arith, same)
  login_checked (x ∷ xs) ids digests s h (Memᴰ.tail m) =
      login_checked xs (x.session.client_session_id ∷ ids)
        (if x.revoked then digests else x.resumption_digest ∷ digests) s (ground arith) m

  all-IsListed :
      (xs : List Stored) (ids digests : List String) (st : Sessions) (s : Stored)
      → check_restored ids digests xs ≡ ok tt
      → Memᴰ s xs
      → s.revoked ≡ false
      → IsListed s (restore_all xs st)
  unfolding check_restored restore_all
  all-IsListed [] ids digests st s h m live = elim m [ ]
  all-IsListed (x ∷ xs) ids digests st s h (Memᴰ.tail m) live =
      all-IsListed xs (x.session.client_session_id ∷ ids)
        (if x.revoked then digests else x.resumption_digest ∷ digests) (restore_one x st) s
        (ground arith) m live
  all-IsListed (x ∷ xs) ids digests st s h (Memᴰ.head same) live =
      let at : x ≡ s = cc same in
      subst (λ y. IsListed y (restore_all xs (restore_one x st))) at
        (head-IsListed x xs ids digests st h (ap (λ (y : Stored). y.revoked) at ∙ live))

  listed_resumes :
      (st : Sessions) (s : Stored) (token : String) (now : ℕ)
      → IsListed s st
      → s.revoked ≡ false
      → host.sha256 token ≡ s.resumption_digest
      → s.session.login_session_id ≡ host.generation.login_session_id
      → now < resumption_end s
      → resumable host now st token ≡ ok s
  unfolding resumable by_digest IsListed
  listed_resumes st s token now (found, indexed) live digest login early =
      rw (digest, indexed, found, live) (ground arith)

  -- Every session of the snapshot that was not revoked is found by its token, after a restart,
  -- until its resumption ends.
  pub resumable-restore :
      (st : Sessions) (records : List Stored) {after : Sessions} (s : Stored) (token : String)
      (now : ℕ)
      → restore st records ≡ ok after
      → Memᴰ s records
      → s.revoked ≡ false
      → host.sha256 token ≡ s.resumption_digest
      → now < resumption_end s
      → resumable host now after token ≡ ok s
  unfolding restore
  resumable-restore st records {after} s token now h m live digest early =
      let checked : check_restored [] [] records ≡ ok tt = ground arith in
      let same : restore_all records st ≡ after = ground arith in
      listed_resumes after s token now
        (subst (IsListed s) same (all-IsListed records [] [] st s checked m live)) live digest
        (login_checked records [] [] s checked m) early
