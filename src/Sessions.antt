-- ===== src/Sessions.antt =====
-- runtime/src/client-sessions.ts: `ClientSessionRegistry`. A call returns the new state or throws
-- and changes nothing; the listeners of `subscribeChanged` are told of changes and change nothing.
pub mod Restore
pub mod Revoke
pub mod Resume
pub mod Expiry
pub mod Restart
mod Tests
use ai_macos.Base.{
  ℕ, String, Bool, true, false, ◌&&◌, ◌||◌, ◌+◌, min, Option, none, some, List, [], ◌∷◌, map, ◌==◌,
  nat_eq, string_eq, ltb, leb, negate, length, select, Result, ok, err, ◌>>=◌, ◌>>◌, reject_if,
  or_throw, if◌then◌else◌,
}
use ai_macos.Base.Dict
use ai_macos.Base.Dict.{Dict, values}
use ai_macos.Identity.{Generation}
use ai_macos.Operation.{ClientSession, client_session_eq}

-- `StoredClientSession`
pub record Stored : Type 0 where
  pub session : ClientSession
  pub lineage_id : String
  pub bearer_digest : String
  pub resumption_digest : String
  pub resumption_expires_at : Option ℕ
  pub disconnected : Bool
  pub revoked : Bool

-- `RuntimeClientCredential`
pub record Credential : Type 0 where
  pub session : ClientSession
  pub bearer_token : String
  pub resumption_token : String

pub record Sessions : Type 0 where
  pub sessions : Dict String Stored
  pub bearers : Dict String String
  pub resumptions : Dict String String
  pub drawn : ℕ

-- What the registry is given: its generation, the texts that `ids.next(prefix)` draws, by the
-- number of the draw, and `sha256`.
pub record SessionHost : Type 0 where
  pub generation : Generation
  pub next_id : String → ℕ → String
  pub sha256 : String → String

pub data SessionError : Type 0 where
  capacity_reached ttl_out_of_bounds wrong_credential : SessionError
  session_revoked foreign_generation session_expired session_disconnected : SessionError
  not_resumable not_registered : SessionError
  not_at_startup invalid_snapshot foreign_or_duplicate duplicate_resumption : SessionError

abbrev pub empty_sessions : Sessions
empty_sessions = record { sessions = []; bearers = []; resumptions = []; drawn = 0 }

abbrev pub token_or : Option String → String → String
token_or none drawn = drawn
token_or (some t) drawn = t

abbrev pub next_draw : Option String → ℕ → ℕ
next_draw none d = d + 2
next_draw (some t) d = d + 1

-- `#byDigest`
unfoldable pub by_digest : Sessions → Dict String String → String → Result SessionError Stored
by_digest st index digest = do
  id ← or_throw (Dict.get digest index) wrong_credential
  or_throw (Dict.get id st.sessions) wrong_credential

abbrev pub resumption_end : Stored → ℕ
resumption_end s = elim s.resumption_expires_at [ none ↦ s.session.expires_at | some e ↦ e ]

-- The mutation of `previous`, which its entry shows unless `#open` has replaced that entry.
unfoldable pub retire : Stored → String → Sessions → Sessions
retire previous opened_id st =
    let id = previous.session.client_session_id in
    record st {
      sessions =
          if id == opened_id
          then st.sessions
          else Dict.set id (record previous { disconnected = true; revoked = true }) st.sessions;
      bearers = Dict.delete previous.bearer_digest st.bearers;
    }

abbrev pub sooner : Option ℕ → ℕ → Option ℕ
sooner none at = some at
sooner (some next) at = some (min next at)

module _ (host : SessionHost) where
  -- The record that `#open` stores; `d` is the number of the first draw.
  unfoldable pub new_stored : String → String → ℕ → ℕ → ℕ → String → String → ℕ → Stored
  new_stored principal_id lineage_id ttl now d bearer resumption e = record {
    session = record {
      client_session_id = host.next_id "client" d;
      principal_id = principal_id;
      generation = host.generation;
      authentication_generation = host.next_id "auth" (d + 1);
      authenticated_at = now;
      expires_at = now + ttl;
    };
    lineage_id = lineage_id;
    bearer_digest = host.sha256 bearer;
    resumption_digest = host.sha256 resumption;
    resumption_expires_at = some e;
    disconnected = false;
    revoked = false;
  }

  -- `#open`, from the draw number `d` on.
  unfoldable pub open_session :
      ℕ
      → Sessions
      → ℕ
      → String
      → String
      → ℕ
      → Option String
      → Result SessionError (Sessions × Credential)
  open_session now st d principal_id lineage_id ttl resume_token = do
    reject_if (leb 10000 (length st.sessions)) capacity_reached
    reject_if (ltb ttl 1 || ltb 7200000 ttl) ttl_out_of_bounds
    let bearer = host.next_id "bearer" d
    let resumption = token_or resume_token (host.next_id "resume" (d + 1))
    let next = next_draw resume_token d
    let stored = new_stored principal_id lineage_id ttl now next bearer resumption (now + 86400000)
    let id = stored.session.client_session_id
    ok (
      record {
        sessions = Dict.set id stored st.sessions;
        bearers = Dict.set stored.bearer_digest id st.bearers;
        resumptions = Dict.set stored.resumption_digest id st.resumptions;
        drawn = next + 2;
      },
      record { session = stored.session; bearer_token = bearer; resumption_token = resumption },
    )

  -- `open`
  unfoldable pub open_new : ℕ → Sessions → String → ℕ → Result SessionError (Sessions × Credential)
  open_new now st principal_id ttl =
      open_session now st (st.drawn + 1) principal_id (host.next_id "lineage" st.drawn) ttl none

  -- `#assertStoredActive`
  unfoldable pub assert_stored_active : Stored → ℕ → Result SessionError (Unit {0})
  assert_stored_active s now = do
    reject_if s.revoked session_revoked
    reject_if
        (negate (s.session.runtime_epoch == host.generation.runtime_epoch)
          || negate (s.session.login_session_id == host.generation.login_session_id))
        foreign_generation
    reject_if (leb s.session.expires_at now) session_expired

  unfoldable pub authenticate : ℕ → Sessions → String → Result SessionError ClientSession
  authenticate now st bearer_token = do
    s ← by_digest st st.bearers (host.sha256 bearer_token)
    assert_stored_active s now
    reject_if s.disconnected session_disconnected
    ok s.session

  -- `#resumable`
  unfoldable pub resumable : ℕ → Sessions → String → Result SessionError Stored
  resumable now st resumption_token = do
    s ← by_digest st st.resumptions (host.sha256 resumption_token)
    reject_if
        (s.revoked
          || negate (s.session.login_session_id == host.generation.login_session_id)
          || leb (resumption_end s) now)
        not_resumable
    ok s

  unfoldable pub resume : ℕ → Sessions → String → ℕ → Result SessionError (Sessions × Credential)
  resume now st resumption_token ttl = do
    previous ← resumable now st resumption_token
    opened ←
        open_session now st st.drawn previous.session.principal_id previous.lineage_id ttl
          (some resumption_token)
    ok (retire previous opened.1.session.client_session_id opened.0, opened.1)

  unfoldable pub resumption_lineage : ℕ → Sessions → String → Result SessionError String
  resumption_lineage now st resumption_token = do
    s ← resumable now st resumption_token
    ok s.lineage_id

  unfoldable pub assert_active : Sessions → ClientSession → ℕ → Result SessionError (Unit {0})
  assert_active st session now = do
    s ← or_throw (Dict.get session.client_session_id st.sessions) not_registered
    reject_if (negate (s.session == session)) not_registered
    assert_stored_active s now
    reject_if s.disconnected session_disconnected

  -- The test of `nextExpiryAt` and `expiredSessions`.
  abbrev pub is_live : Stored → Bool
  is_live s =
      negate s.disconnected
      && negate s.revoked
      && (s.session.runtime_epoch == host.generation.runtime_epoch)

  unfoldable pub next_expiry_from : Option ℕ → List Stored → Option ℕ
  next_expiry_from next [] = next
  next_expiry_from next (s ∷ rest) =
      let skip = next_expiry_from next rest in
      let count = next_expiry_from (sooner next s.session.expires_at) rest in
      if is_live s then count else skip

  -- `nextExpiryAt`
  unfoldable pub next_expiry_at : Sessions → Option ℕ
  next_expiry_at st = next_expiry_from none (values st.sessions)

  unfoldable pub expired_sessions : Sessions → ℕ → List ClientSession
  expired_sessions st now =
      map (λ (s : Stored). s.session)
        (select (λ (s : Stored). is_live s && leb s.session.expires_at now) (values st.sessions))

unfoldable pub lineage : Sessions → ClientSession → Result SessionError String
lineage st session = do
  s ← or_throw (Dict.get session.client_session_id st.sessions) not_registered
  reject_if (negate (s.session == session)) not_registered
  ok s.lineage_id

unfoldable pub historical_lineage : Sessions → String → String → Option String
historical_lineage st client_session_id principal_id =
    elim (Dict.get client_session_id st.sessions) [
      | none ↦ none
      | some s ↦ if s.session.principal_id == principal_id then some s.lineage_id else none
    ]

unfoldable pub disconnect : Sessions → String → Sessions
disconnect st client_session_id = elim (Dict.get client_session_id st.sessions) [
  | none ↦ st
  | some s ↦ record st {
    sessions = Dict.set client_session_id (record s { disconnected = true }) st.sessions;
    bearers = Dict.delete s.bearer_digest st.bearers;
  }
]

-- One turn of the loop of `revokePrincipal`.
unfoldable pub revoke_one : String → String → Stored → Sessions → Sessions
revoke_one principal_id key s st =
    let revoked_now : Sessions = record st {
      sessions = Dict.set key (record s { revoked = true }) st.sessions;
      bearers = Dict.delete s.bearer_digest st.bearers;
      resumptions = Dict.delete s.resumption_digest st.resumptions;
    } in
    if s.session.principal_id == principal_id then revoked_now else st

unfoldable pub revoke_each : String → Dict String Stored → Sessions → Sessions
revoke_each principal_id [] st = st
revoke_each principal_id ((key, s) ∷ rest) st =
    revoke_each principal_id rest (revoke_one principal_id key s st)

-- `revokePrincipal`
unfoldable pub revoke_principal : Sessions → String → Sessions
revoke_principal st principal_id = revoke_each principal_id st.sessions st
