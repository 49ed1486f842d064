-- ===== src/Sessions/Tests.antt =====
-- Runs of the client sessions on a small input, to which the theorems apply.
use mathlib.Core.List.{Memᴰ}
use ai_macos.Base.{
  ℕ, String, ◌+◌, ◌<◌, ◌≡◌, ◌≢◌, ◌↔◌, ◌⊎◌, length, refl, true, false, some, [], ◌∷◌, arith,
  string_eq, ok, err, String_discrete, concat, ltb, if◌then◌else◌,
}
use ai_macos.Base.Dict
use ai_macos.Operation.{session_is_valid, ClientSession}
use ai_macos.Sessions.{
  SessionHost, Sessions, Stored, Credential, wrong_credential, capacity_reached, empty_sessions,
  open_new, open_session, new_stored, authenticate, resumable, by_digest, resume, retire, lineage,
  assert_active, next_expiry_at, expired_sessions, revoke_principal,
}
use ai_macos.Sessions.Restore.{snapshot, restore, restore_all, restore_one, check_restored}
use ai_macos.Sessions.Resume.{authenticate-open, resume_replaces}
use ai_macos.Sessions.Restart.{resume-restore}
use ai_macos.Sessions.Revoke.{revoked_is_refused}
use ai_macos.Sessions.Expiry.{expired-next_expiry}

abbrev number : ℕ → String
number n = if ltb n 5 then "-a" else "-b"

abbrev host : SessionHost
host = record {
  generation = record { runtime_epoch = "epoch"; login_session_id = "login" };
  next_id = λ prefix n. concat prefix (number n);
  sha256 = λ token. token;
}

abbrev session : String → String → ℕ → ClientSession
session id auth at = record {
  client_session_id = id;
  principal_id = "principal";
  generation = host.generation;
  authentication_generation = auth;
  authenticated_at = at;
  expires_at = at + 50;
}

abbrev stored : ClientSession → String → Stored
stored s bearer = record {
  session = s;
  lineage_id = "lineage-a";
  bearer_digest = bearer;
  resumption_digest = "resume-a";
  resumption_expires_at = some (s.authenticated_at + 86400000);
  disconnected = false;
  revoked = false;
}

abbrev opened : Sessions
opened = record {
  sessions = ("client-a", stored (session "client-a" "auth-a" 10) "bearer-a") ∷ [];
  bearers = ("bearer-a", "client-a") ∷ [];
  resumptions = ("resume-a", "client-a") ∷ [];
  drawn = 5;
}

abbrev credential : Credential
credential = record {
  session = session "client-a" "auth-a" 10;
  bearer_token = "bearer-a";
  resumption_token = "resume-a";
}

opens : open_new host 10 empty_sessions "principal" 50 ≡ ok (opened, credential)
unfolding open_new open_session new_stored Dict.set String_discrete concat
opens = refl

authenticate-open_example :
    (authenticate host 30 opened "bearer-a" ≡ ok (session "client-a" "auth-a" 10))
    × (credential.session.principal_id ≡ "principal")
authenticate-open_example =
    authenticate-open host 10 30 empty_sessions "principal" 50 opens (omega arith)

abbrev resumed : Sessions
resumed = record {
  sessions =
      (
        "client-a",
        record (stored (session "client-a" "auth-a" 10) "bearer-a") {
          disconnected = true;
          revoked = true;
        },
      )
      ∷ ("client-b", stored (session "client-b" "auth-b" 40) "bearer-b")
      ∷ [];
  bearers = ("bearer-b", "client-b") ∷ [];
  resumptions = ("resume-a", "client-b") ∷ [];
  drawn = 8;
}

abbrev next_credential : Credential
next_credential = record {
  session = session "client-b" "auth-b" 40;
  bearer_token = "bearer-b";
  resumption_token = "resume-a";
}

resumes : resume host 40 opened "resume-a" 50 ≡ ok (resumed, next_credential)
unfolding resume resumable by_digest retire open_session new_stored Dict.get Dict.set Dict.delete
    String_discrete concat
resumes = refl

resume_replaces_example :
    (previous : Stored) × (resumable host 40 opened "resume-a" ≡ ok previous)
    × (next_credential.session.principal_id ≡ previous.session.principal_id)
    × (lineage resumed (session "client-b" "auth-b" 40) ≡ ok previous.lineage_id)
    × ((previous.session.client_session_id ≢ "client-b")
        → (previous.bearer_digest ≢ "bearer-b")
        → ((later : ℕ)
            → later < 90
            → authenticate host later resumed "bearer-b" ≡ ok (session "client-b" "auth-b" 40))
          × ((old : String) (later : ℕ)
              → old ≡ previous.bearer_digest
              → authenticate host later resumed old ≡ err wrong_credential)
          × ((later : ℕ) → ¬ (assert_active host resumed previous.session later ≡ ok tt)))
resume_replaces_example = resume_replaces host 40 opened "resume-a" 50 resumes

revoked_is_refused_example :
    ((token : String) (s : ClientSession)
      → authenticate host 30 (revoke_principal opened "principal") token ≡ ok s
      → s.principal_id ≢ "principal")
    × ((token : String) (s : Stored)
        → resumable host 30 (revoke_principal opened "principal") token ≡ ok s
        → s.session.principal_id ≢ "principal")
    × ((s : ClientSession)
        → assert_active host (revoke_principal opened "principal") s 30 ≡ ok tt
        → s.principal_id ≢ "principal")
revoked_is_refused_example = revoked_is_refused host opened "principal" 30

expired-next_expiry_example :
    (expired_sessions host opened 60 ≡ [])
    ↔ ((at : ℕ) → next_expiry_at host opened ≡ some at → 60 < at)
expired-next_expiry_example = expired-next_expiry host 60 opened

abbrev restored : Sessions
restored = record opened { drawn = 0 }

restores : restore host empty_sessions (snapshot opened) ≡ ok restored
unfolding restore restore_all restore_one check_restored session_is_valid Dict.get Dict.set
    String_discrete
restores = refl

listed : Memᴰ (stored (session "client-a" "auth-a" 10) "bearer-a") (snapshot opened)
listed = Memᴰ.head refl

resume-restore_example :
    ((length (snapshot opened) < 10000)
      × ((after : Sessions) × (c : Credential) × (resume host 60 restored "resume-a" 50
            ≡ ok (after, c))
          × (c.session.principal_id ≡ "principal")
          × (lineage after c.session ≡ ok "lineage-a")))
    ⊎ ((length (snapshot opened) ≡ 10000)
        × (resume host 60 restored "resume-a" 50 ≡ err capacity_reached))
resume-restore_example =
    resume-restore host empty_sessions (snapshot opened)
      (stored (session "client-a" "auth-a" 10) "bearer-a") "resume-a" 60 50 restores listed refl
      refl (omega arith) (omega arith) (omega arith)
