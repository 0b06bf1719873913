-- ===== src/Session/Worker.antt =====
-- src/sshsession.cpp: startConnection, fetchCredentials, startWorker and the helpers they share.
use longterm.Base.{
  ℕ, Option, Bool, true, false, ◌&&◌, ◌||◌, not, none, [], ◌∷◌, ◌++◌, if◌then◌else◌, is_empty,
}
use longterm.Base.Text.{Text}
use longterm.Session.{
  State, disconnected, connecting, connected, SecretKind, of_password, of_private_key, AuthSource,
  Credentials, Continuation, then_auth, then_start, Fetch, of_resume_key, of_secret, Answer, secret,
  refusal, Effect, started, side_started, side_stopped, key_removed, Session,
}

abbrev pub is_disconnected : State → Bool
is_disconnected disconnected = true
is_disconnected _ = false

abbrev pub is_connected : State → Bool
is_connected connected = true
is_connected _ = false

abbrev pub emits : Effect → Session → Session
emits e s = record s { outbox = e ∷ s.outbox }

-- `AuthSource()`
abbrev pub no_auth : AuthSource
no_auth = record { password = []; vault = false; secret_id = []; kind = of_password }

-- `SshCredentials none`
abbrev pub no_credentials : Credentials
no_credentials = record { password = []; private_key = []; unlocked_key = none }

-- A text stands for its bytes in UTF-8.
abbrev pub own_credentials : AuthSource → Credentials
own_credentials source = record no_credentials { password = source.password }

abbrev pub secret_credentials : SecretKind → Text → Credentials
secret_credentials of_password text = record no_credentials { password = text }
secret_credentials of_private_key text = record no_credentials { private_key = text }

-- QStringLiteral("mosh") + m_sessionId
abbrev pub mosh_secret : Session → Text
mosh_secret s = 109 ∷ 111 ∷ 115 ∷ 104 ∷ s.session_id

unfoldable pub can_resume : Session → Bool
can_resume s = s.mosh_vault && s.mosh && not (is_empty s.session_id) && s.journal

unfoldable pub worker_failed : Text → Bool → Session → Session
worker_failed message network s = record s {
  lost = if network then is_connected s.state || s.lost else false;
  error_string = message;
}

-- `config.credentials` and `config.jumpCredentials`
abbrev pub with_unlocked : Option ℕ → Credentials → Credentials
with_unlocked key credentials = record credentials { unlocked_key = key }

-- What startWorker forgets of the connection before.
abbrev pub reset_connection : Session → Session
reset_connection s = record s {
  error_string = [];
  host_key_mismatch = false;
  reached_connected = false;
  local_address = [];
}

-- The end of startWorker, `own` and `jump` with the keys that are unlocked.
abbrev pub run_worker : Credentials → Credentials → Bool → Session → Session
run_worker own jump side s =
    let key = if s.mosh then s.resume_key else [] in
    if side
    then record s { side_worker = true; outbox = side_started own jump ∷ s.outbox }
    else record (reset_connection s) {
      worker = true;
      resuming = not (is_empty key);
      state = connecting;
      outbox = started own jump key ∷ s.outbox;
    }

unfoldable pub start_worker : Credentials → Credentials → Bool → Session → Session
start_worker own jump side s =
    run_worker (with_unlocked s.unlocked_key own) (with_unlocked s.unlocked_jump_key jump) side s

-- The inner functions of startConnection and of startSideWorker.
unfoldable pub fetched_all : Bool → Credentials → Credentials → Session → Session
fetched_all false jump own s =
    start_worker own jump false (record s { secret_fetch_pending = false })
fetched_all true jump own s =
    let t = record s { side_fetch_pending = false } in
    if not s.side_fetch_pending
    then s
    else if s.worker && s.uses_mosh && not s.side_worker
    then start_worker own jump true t
    else t

-- fetchCredentials: `done` is what follows at once where there is no vault to ask, `continuation` the
-- same for when the vault answers.
unfoldable pub fetch_then :
    (Credentials → Session → Session) → Continuation → AuthSource → Session → Session
fetch_then done continuation source s =
    if source.vault
    then record s { fetches = s.fetches ++ of_secret source.kind continuation ∷ [] }
    else done (own_credentials source) s

unfoldable pub fetch_own : Bool → Credentials → Session → Session
fetch_own side jump s = fetch_then (fetched_all side jump) (then_start side jump) s.auth s

unfoldable pub fetch_both : Bool → Session → Session
fetch_both side s =
    fetch_then (fetch_own side) (then_auth side) (if s.has_jump then s.jump_auth else no_auth) s

unfoldable pub go_on : Continuation → Credentials → Session → Session
go_on (then_auth side) credentials s = fetch_own side credentials s
go_on (then_start side jump) credentials s = fetched_all side jump credentials s

abbrev pub is_side : Continuation → Bool
is_side (then_auth side) = side
is_side (then_start side jump) = side

unfoldable pub start_connection : Session → Session
start_connection s =
    let t = record s { error_string = []; secret_fetch_pending = true; state = connecting } in
    if not (is_disconnected s.state)
    then s
    else if can_resume s
    then record t { fetches = s.fetches ++ of_resume_key ∷ [] }
    else fetch_both false t

-- The answers of the vault, as each fetch takes them.
unfoldable pub secret_fetched : SecretKind → Continuation → Answer → Session → Session
secret_fetched kind k (secret text) s =
    if is_side k
    then (if s.side_fetch_pending then go_on k (secret_credentials kind text) s else s)
    else (if s.secret_fetch_pending then go_on k (secret_credentials kind text) s else s)
secret_fetched kind k (refusal message) s =
    if is_side k
    then record s { side_fetch_pending = false }
    else if s.secret_fetch_pending
    then record (worker_failed message false s) {
      secret_fetch_pending = false;
      state = disconnected;
    }
    else s

-- The file is taken to be gone once QFile::remove returns.
unfoldable pub resume_key_missing : Session → Session
resume_key_missing s =
    start_connection
      (record s { secret_fetch_pending = false; journal = false; state = disconnected })

unfoldable pub resume_key_fetched : Answer → Session → Session
resume_key_fetched (refusal message) s = if s.secret_fetch_pending then resume_key_missing s else s
resume_key_fetched (secret key) s =
    let t = record s { secret_fetch_pending = false; resume_key = key } in
    if not s.secret_fetch_pending
    then s
    else if is_empty key
    then resume_key_missing s
    else record (start_worker no_credentials no_credentials false t) { resume_key = [] }

unfoldable pub fetched : Fetch → Answer → Session → Session
fetched of_resume_key a s = resume_key_fetched a s
fetched (of_secret kind k) a s = secret_fetched kind k a s

unfoldable pub stop_side_worker : Session → Session
stop_side_worker s =
    let t = record s { side_fetch_pending = false; side_retry = false; side_up = false } in
    if s.side_worker then record t { side_worker = false; outbox = side_stopped ∷ s.outbox } else t

unfoldable pub start_side_worker : Session → Session
start_side_worker s =
    if s.side_worker
      || (s.side_fetch_pending
          || (not s.worker || (not s.uses_mosh || (not (is_connected s.state) || s.ssh_up))))
    then s
    else fetch_both true (record s { side_fetch_pending = true })

unfoldable pub forget_mosh : Session → Session
forget_mosh s =
    if is_empty s.session_id
    then s
    else if s.mosh_vault
    then record s { journal = false; outbox = key_removed (mosh_secret s) ∷ s.outbox }
    else record s { journal = false }
