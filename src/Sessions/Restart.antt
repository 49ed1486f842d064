-- ===== src/Sessions/Restart.antt =====
-- `restore` and `resume` of runtime/src/client-sessions.ts together: a client that comes back after a
-- restart.
use mathlib.Core.List.{Memᴰ}
use ai_macos.Base.{
  ℕ, String, ◌+◌, ◌<◌, ◌≤◌, ◌≡◌, refl, ap, ◌∙◌, ◌⊎◌, inl, inr, Bool-cases, false, none, List, [],
  ◌∷◌, arith, string_eq, nat_eq, leb, length, includes, Result-cases, ok, err, if◌then◌else◌,
}
use ai_macos.Base.Dict
use ai_macos.Base.Dict.{Dict, get-set}
use ai_macos.Sessions.{
  SessionHost, Sessions, Stored, Credential, resumption_end, resumable, open_session, resume,
  lineage, capacity_reached,
}
use ai_macos.Sessions.Restore.{
  check_restored, restore_one, restore_all, restore, is_nonempty, resumable-restore,
}
use ai_macos.Sessions.Resume.{resume_replaces}

length-set :
    (k : String) (v : Stored) (m : Dict String Stored)
    → Dict.get k m ≡ none
    → length (Dict.set k v m) ≡ length m + 1
unfolding Dict.get Dict.set
length-set k v [] missing = refl
length-set k v ((j, w) ∷ m) missing = ground (arith, length-set k v m)

-- Every key of the dictionary is listed.
abbrev Covers : List String → Dict String Stored → Type 0
Covers ids m = (k : String) → includes ids k ≡ false → Dict.get k m ≡ none

module _ (host : SessionHost) where
  set-Covers :
      (ids : List String) (m : Dict String Stored) (id : String) (s : Stored)
      → Covers ids m
      → Covers (id ∷ ids) (Dict.set id s m)
  set-Covers ids m id s covers k other = get-set id k s m ∙ ground (arith, covers k)

  -- A restored snapshot has an entry for each of its records.
  length-restore_all :
      (xs : List Stored) (ids digests : List String) (st : Sessions)
      → check_restored host ids digests xs ≡ ok tt
      → Covers ids st.sessions
      → length (restore_all host xs st).sessions ≡ length xs + length st.sessions
  unfolding check_restored restore_all restore_one
  length-restore_all [] ids digests st h covers = omega arith
  length-restore_all (x ∷ xs) ids digests st h covers =
      let id = x.session.client_session_id in
      let fresh : includes ids id ≡ false = ground arith in
      let missing : Dict.get id st.sessions ≡ none = covers id fresh in
      omega (
        arith,
        length-set id x st.sessions missing,
        length-restore_all xs (id ∷ ids)
            (if x.revoked then digests else x.resumption_digest ∷ digests) (restore_one host x st)
            (ground arith) (set-Covers ids st.sessions id x covers),
      )

  length-restore :
      (st : Sessions) (records : List Stored) {after : Sessions}
      → restore host st records ≡ ok after
      → (length after.sessions ≡ length records) × (length records ≤ 10000)
  unfolding restore Dict.get
  length-restore st records {after} h =
      let checked : check_restored host [] [] records ≡ ok tt = ground arith in
      let same : restore_all host records st ≡ after = ground arith in
      let empty : st.sessions ≡ [] = is_empty st.sessions (ground arith) in
      let all = length-restore_all records [] [] st checked (λ k other. ap (Dict.get k) empty) in
      (
        omega (arith, all, ap (λ (x : Sessions). length x.sessions) same, ap length empty),
        ground arith,
      )
    where
      is_empty : (m : Dict String Stored) → is_nonempty m ≡ false → m ≡ []
      is_empty [] h = refl
      is_empty (e ∷ m) h = cc h

  -- What `resume` answers once the token has found its session.
  module _ (now : ℕ) (st : Sessions) (token : String) (ttl : ℕ) (s : Stored)
      (found : resumable host now st token ≡ ok s) where
    resume_full : 10000 ≤ length st.sessions → resume host now st token ttl ≡ err capacity_reached
    unfolding resume open_session
    resume_full full = rw found (ground arith)

    resume_with_room :
        length st.sessions < 10000
        → 1 ≤ ttl
        → ttl ≤ 7200000
        → (opened : Sessions) × (c : Credential) × (resume host now st token ttl ≡ ok (opened, c))
          × (c.session.principal_id ≡ s.session.principal_id)
          × (lineage opened c.session ≡ ok s.lineage_id)
    unfolding resume open_session
    resume_with_room room some_time bounded = elim (Result-cases (resume host now st token ttl)) [
      | inr (e, failed) ↦ absurd (ground (arith, found))
      | inl ((opened, c), returned) ↦
          let (previous, resumed, principal, line, rest) =
            resume_replaces host now st token ttl returned in
          let same : previous ≡ s = cc (resumed, found) in
          (
            opened,
            c,
            returned,
            principal ∙ ap (λ (x : Stored). x.session.principal_id) same,
            line ∙ ap (λ (x : Stored). ok x.lineage_id) same,
          )
    ]

  -- After a restart with a snapshot, a session of it that was not revoked is resumed by its token,
  -- as long as its resumption has not ended and the time to live is within the bounds: a session
  -- opens for its principal, in its lineage. Only if the snapshot has all of 10000 records is the
  -- resumption refused, with the capacity error.
  pub resume-restore :
      (st : Sessions) (records : List Stored) {after : Sessions} (s : Stored) (token : String)
      (now ttl : ℕ)
      → restore host st records ≡ ok after
      → Memᴰ s records
      → s.revoked ≡ false
      → host.sha256 token ≡ s.resumption_digest
      → now < resumption_end s
      → 1 ≤ ttl
      → ttl ≤ 7200000
      → ((length records < 10000)
          × ((opened : Sessions) × (c : Credential) × (resume host now after token ttl
                ≡ ok (opened, c))
              × (c.session.principal_id ≡ s.session.principal_id)
              × (lineage opened c.session ≡ ok s.lineage_id)))
        ⊎ ((length records ≡ 10000) × (resume host now after token ttl ≡ err capacity_reached))
  resume-restore st records {after} s token now ttl h m live digest early some_time bounded =
      let found = resumable-restore host st records s token now h m live digest early in
      let (all, most) = length-restore st records h in
      elim (Bool-cases (leb 10000 (length records))) [
        | inl full ↦
            let most_of : length records ≡ 10000 = ground arith in
            inr (most_of, resume_full now after token ttl s found (omega (arith, all, most_of)))
        | inr room ↦
            let fewer : length records < 10000 = ground arith in
            inl (
              fewer,
              resume_with_room now after token ttl s found (omega (arith, all, fewer)) some_time
                  bounded,
            )
      ]
