-- ===== src/Sessions/Resume.antt =====
-- `open`, `authenticate` and `resume` of runtime/src/client-sessions.ts.
use ai_macos.Base.{
  ℕ, String, ◌+◌, ◌<◌, ◌≡◌, ◌≢◌, refl, ap, ◌∙◌, inl, inr, true, false, Option, none, some, arith,
  string_eq, nat_eq, ok, err, Result-cases, ==_refl, ==_ne,
}
use ai_macos.Base.Dict
use ai_macos.Base.Dict.{Dict, get-set, get-delete}
use ai_macos.Identity.{Generation}
use ai_macos.Operation.{client_session_eq}
use ai_macos.Sessions.{
  SessionHost, Sessions, Stored, Credential, wrong_credential, new_stored, by_digest,
  assert_stored_active, authenticate, resumable, resume, open_session, open_new, retire,
  assert_active, token_or, next_draw, lineage,
}

module _ (host : SessionHost) where
  -- What `#open` leaves under its new session.
  record IsOpened (now : ℕ) (principal_id lineage_id : String) (ttl : ℕ) (c : Credential)
      (st : Sessions) (stored : Stored) : Type 0 where
    session : c.session ≡ stored.session
    listed : Dict.get (host.sha256 c.bearer_token) st.bearers ≡ some c.session.client_session_id
    found : Dict.get c.session.client_session_id st.sessions ≡ some stored
    generation : stored.session.generation ≡ host.generation
    principal : stored.session.principal_id ≡ principal_id
    lineage : stored.lineage_id ≡ lineage_id
    ends : stored.session.expires_at ≡ now + ttl
    live : stored.revoked ≡ false
    connected : stored.disconnected ≡ false
    bearer : stored.bearer_digest ≡ host.sha256 c.bearer_token

  open_session-IsOpened :
      (now : ℕ) (st : Sessions) (d : ℕ) (principal_id lineage_id : String) (ttl : ℕ)
      (token : Option String) {after : Sessions} {c : Credential}
      → open_session host now st d principal_id lineage_id ttl token ≡ ok (after, c)
      → (stored : Stored) × IsOpened now principal_id lineage_id ttl c after stored
  unfolding open_session new_stored
  open_session-IsOpened now st d principal_id lineage_id ttl token {after} {c} h =
      let bearer = host.next_id "bearer" d in
      let resumption = token_or token (host.next_id "resume" (d + 1)) in
      let stored =
        new_stored host principal_id lineage_id ttl now (next_draw token d) bearer resumption
          (now + 86400000) in
      let id = stored.session.client_session_id in
      (
        stored,
        record {
          session = ground arith;
          listed = ground (arith, get-set (host.sha256 bearer) (host.sha256 bearer) id st.bearers);
          found = ground (arith, get-set id id stored st.sessions);
          generation = ground arith;
          principal = refl;
          lineage = refl;
          ends = refl;
          live = refl;
          connected = refl;
          bearer = ground arith;
        },
      )

  -- An opened session that is found under its token authenticates until it expires.
  opened_authenticates :
      (now later : ℕ) (principal_id lineage_id : String) (ttl : ℕ) (c : Credential) (st : Sessions)
      (stored : Stored)
      → IsOpened now principal_id lineage_id ttl c st stored
      → later < now + ttl
      → authenticate host later st c.bearer_token ≡ ok c.session
  unfolding authenticate by_digest assert_stored_active
  opened_authenticates now later principal_id lineage_id ttl c st stored o early =
      let epoch = ap (λ (g : Generation). g.runtime_epoch) o.generation in
      let login = ap (λ (g : Generation). g.login_session_id) o.generation in
      ground (arith, o.session, o.listed, o.found, o.ends, o.live, o.connected, epoch, login)

  -- The bearer token of a session that `open` returned authenticates it, to the principal, until
  -- its time to live is over.
  pub authenticate-open :
      (now later : ℕ) (st : Sessions) (principal_id : String) (ttl : ℕ) {after : Sessions}
      {c : Credential}
      → open_new host now st principal_id ttl ≡ ok (after, c)
      → later < now + ttl
      → (authenticate host later after c.bearer_token ≡ ok c.session)
        × (c.session.principal_id ≡ principal_id)
  unfolding open_new
  authenticate-open now later st principal_id ttl {after} {c} h early =
      let (stored, o) =
        open_session-IsOpened now st (st.drawn + 1) principal_id (host.next_id "lineage" st.drawn)
          ttl none h in
      (
        opened_authenticates now later principal_id (host.next_id "lineage" st.drawn) ttl c after
            stored o early,
        ground (arith, o.session, o.principal),
      )

  -- The states of a `resume` that returned.
  resume_cases :
      (now : ℕ) (st : Sessions) (token : String) (ttl : ℕ) {after : Sessions} {c : Credential}
      → resume host now st token ttl ≡ ok (after, c)
      → (previous : Stored) × (opened : Sessions) × (resumable host now st token ≡ ok previous)
        × (open_session host now st st.drawn previous.session.principal_id previous.lineage_id ttl
              (some token)
            ≡ ok (opened, c))
        × (after ≡ retire previous c.session.client_session_id opened)
  unfolding resume
  resume_cases now st token ttl h = elim (Result-cases (resumable host now st token)) [
    | inr (e, failed) ↦ absurd (ground arith)
    | inl (previous, returned) ↦
        elim (Result-cases (
          open_session host now st st.drawn previous.session.principal_id previous.lineage_id ttl
            (some token))) [
              | inr (e, failed) ↦ absurd (ground arith)
              | inl ((opened, made), done) ↦
                  (previous, opened, returned, ground arith, ground arith)
            ]
  ]

  -- What is left of the old session and of the new one once the old one is retired.
  module _ (previous : Stored) (id : String) (st : Sessions) where
    opened_stays : Dict.get id (retire previous id st).sessions ≡ Dict.get id st.sessions
    unfolding retire
    opened_stays =
        let old = previous.session.client_session_id in
        ground (
          arith,
          get-set old id (record previous { disconnected = true; revoked = true }) st.sessions,
        )

    bearer_stays :
        (digest : String)
        → previous.bearer_digest ≢ digest
        → Dict.get digest (retire previous id st).bearers ≡ Dict.get digest st.bearers
    unfolding retire
    bearer_stays digest other =
        get-delete previous.bearer_digest digest st.bearers
        ∙ rw (==_ne previous.bearer_digest digest other) refl

    bearer_gone : Dict.get previous.bearer_digest (retire previous id st).bearers ≡ none
    unfolding retire
    bearer_gone =
        get-delete previous.bearer_digest previous.bearer_digest st.bearers
        ∙ rw (==_refl previous.bearer_digest) refl

    old_is_retired :
        previous.session.client_session_id ≢ id
        → Dict.get previous.session.client_session_id (retire previous id st).sessions
          ≡ some (record previous { disconnected = true; revoked = true })
    unfolding retire
    old_is_retired other =
        let old = previous.session.client_session_id in
        ground (
          arith,
          get-set old old (record previous { disconnected = true; revoked = true }) st.sessions,
        )

  -- The answers of a state in which an entry is found or missing.
  has_lineage :
      (c : Credential) (st : Sessions) {now ttl : ℕ} {principal_id lineage_id : String}
      (stored : Stored) {opened : Sessions}
      → IsOpened now principal_id lineage_id ttl c opened stored
      → Dict.get c.session.client_session_id st.sessions ≡ some stored
      → lineage st c.session ≡ ok lineage_id
  unfolding lineage
  has_lineage c st stored o found = ground (arith, o.session, o.lineage)

  gone_refused :
      (st : Sessions) (token : String)
      → Dict.get (host.sha256 token) st.bearers ≡ none
      → (later : ℕ) → authenticate host later st token ≡ err wrong_credential
  unfolding authenticate by_digest
  gone_refused st token gone later = ground arith

  retired_refused :
      (st : Sessions) (previous : Stored)
      → Dict.get previous.session.client_session_id st.sessions
        ≡ some (record previous { disconnected = true; revoked = true })
      → (later : ℕ) → ¬ (assert_active host st previous.session later ≡ ok tt)
  unfolding assert_active assert_stored_active
  retired_refused st previous found later h = ground (arith, ==_refl previous.session)

  module _ (now : ℕ) (st : Sessions) (token : String) (ttl : ℕ) {after : Sessions} {c : Credential}
      (h : resume host now st token ttl ≡ ok (after, c)) where
    -- A session that was resumed continues the lineage and the principal of the one that the token
    -- found; if its identifier and its bearer digest are new, its bearer token authenticates it
    -- until it expires, the bearer token of the old session authenticates nothing, and the old
    -- session is active no more.
    pub resume_replaces :
        (previous : Stored) × (resumable host now st token ≡ ok previous)
        × (c.session.principal_id ≡ previous.session.principal_id)
        × (lineage after c.session ≡ ok previous.lineage_id)
        × ((previous.session.client_session_id ≢ c.session.client_session_id)
            → (previous.bearer_digest ≢ host.sha256 c.bearer_token)
            → ((later : ℕ)
                → later < now + ttl
                → authenticate host later after c.bearer_token ≡ ok c.session)
              × ((old : String) (later : ℕ)
                  → host.sha256 old ≡ previous.bearer_digest
                  → authenticate host later after old ≡ err wrong_credential)
              × ((later : ℕ) → ¬ (assert_active host after previous.session later ≡ ok tt)))
    resume_replaces =
        let (previous, opened, returned, done, now_there) = resume_cases now st token ttl h in
        let (stored, o) =
          open_session-IsOpened now st st.drawn previous.session.principal_id previous.lineage_id
            ttl (some token) done in
        (
          previous,
          returned,
          ground (arith, o.session, o.principal),
          has_lineage c after stored o (
              ap (λ (x : Sessions). Dict.get c.session.client_session_id x.sessions) now_there
              ∙ opened_stays previous c.session.client_session_id opened
              ∙ o.found),
          λ other fresh. (
            (λ later early.
                opened_authenticates now later previous.session.principal_id previous.lineage_id ttl
                  c after stored
                  (record {
                    session = o.session;
                    listed =
                        ap (λ (x : Sessions). Dict.get (host.sha256 c.bearer_token) x.bearers)
                          now_there
                        ∙ bearer_stays previous c.session.client_session_id opened
                            (host.sha256 c.bearer_token) fresh
                        ∙ o.listed;
                    found =
                        ap (λ (x : Sessions). Dict.get c.session.client_session_id x.sessions)
                          now_there
                        ∙ opened_stays previous c.session.client_session_id opened
                        ∙ o.found;
                    generation = o.generation;
                    principal = o.principal;
                    lineage = o.lineage;
                    ends = o.ends;
                    live = o.live;
                    connected = o.connected;
                    bearer = o.bearer;
                  })
                  early),
            (λ old later same.
                gone_refused after old
                  (rw (now_there, same) (bearer_gone previous c.session.client_session_id opened))
                  later),
            λ later.
                retired_refused after previous
                  (rw now_there (old_is_retired previous c.session.client_session_id opened other))
                  later,
          ),
        )
