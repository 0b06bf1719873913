-- ===== src/Session/Run.antt =====
-- A run of the session: what the user interface asks for, the answers of the vault and the signals of
-- the workers, in any order in which they can come.
use longterm.Base.{ℕ, zero, suc, Bool, true, false, Option, none, some, List, [], ◌∷◌, ◌≡◌}
use longterm.Base.Text.{Text}
use longterm.Session.{disconnected, SecretKind, Fetch, Answer, Session}
use longterm.Session.Worker.{no_auth, fetched, worker_failed, start_side_worker}
use longterm.Session.Event.{
  connect_to_host, reconnect, connect_with_secret, set_secret, clear_stored_secret, set_jump_host,
  answer_prompt, roam, drop_connection, disconnect_from_host, worker_prompt, worker_connected,
  host_key_changed, key_unlocked, ssh_closed, worker_finished, side_worker_finished, worker_exited,
}
use longterm.Session.KnownHosts.{trust_new_host_key}

pub data Event : Type 0 where
  asks_to_connect : (password : Text) → Event
  asks_to_reconnect : Event
  asks_with_secret : (vault : Bool) (secret_id : Text) → SecretKind → Event
  asks_to_trust : Event
  asks_to_disconnect : Event
  answers_prompt : Text → (remember : Bool) → Event
  changes_secret : (vault : Bool) (secret_id : Text) → SecretKind → Event
  clears_secret : Event
  changes_jump : (vault : Bool) (secret_id : Text) → SecretKind → Event
  changes_options : (mosh : Bool) (command : Text) → Event
  roams : Event
  drops : (message : Text) → Event
  vault_answers : ℕ → Answer → Event
  journal_is : Bool → Event
  retry_fires : Event
  worker_connects : (address : Text) → Event
  worker_fails : (message : Text) (network : Bool) → Event
  worker_asks : (text : Text) (echo can_remember : Bool) (label : Text) → Event
  worker_unlocks : (key : ℕ) (jump : Bool) → Event
  worker_finds_key : (fingerprint pattern : Text) → Event
  mosh_starts : Event
  mosh_goes : Event
  mosh_silent : (seconds : ℕ) → Event
  ssh_closes : Event
  shell_exits : ℕ → Event
  worker_finishes : Event
  side_connects : Event
  side_finishes : Event

-- The fetch at an index, and the others.
unfoldable pub take_fetch : ℕ → List Fetch → Option (Fetch × List Fetch)
take_fetch n [] = none
take_fetch zero (f ∷ fs) = some (f, fs)
take_fetch (suc n) (f ∷ fs) = elim (take_fetch n fs) [ none ↦ none | some p ↦ some (p.0, f ∷ p.1) ]

unfoldable pub answer_fetch : Option (Fetch × List Fetch) → Answer → Session → Session
answer_fetch none a s = s
answer_fetch (some (f, fs)) a s = fetched f a (record s { fetches = fs })

unfoldable pub handle : Event → Session → Session
handle (asks_to_connect password) s = connect_to_host password s
handle asks_to_reconnect s = reconnect s
handle (asks_with_secret vault secret_id kind) s = connect_with_secret vault secret_id kind s
handle asks_to_trust s = trust_new_host_key s
handle asks_to_disconnect s = disconnect_from_host s
handle (answers_prompt answer remember) s = answer_prompt answer remember s
handle (changes_secret vault secret_id kind) s = set_secret vault secret_id kind s
handle clears_secret s = clear_stored_secret s
handle (changes_jump vault secret_id kind) s = set_jump_host vault secret_id kind s
handle (changes_options mosh command) s = record s { mosh = mosh; command = command }
handle roams s = roam s
handle (drops message) s = drop_connection message s
handle (vault_answers n a) s = answer_fetch (take_fetch n s.fetches) a s
handle (journal_is there) s = record s { journal = there }
handle retry_fires s = start_side_worker (record s { side_retry = false })
handle (worker_connects address) s = worker_connected address s
handle (worker_fails message network) s = worker_failed message network s
handle (worker_asks text echo can_remember label) s = worker_prompt text echo can_remember label s
handle (worker_unlocks key jump) s = key_unlocked key jump s
handle (worker_finds_key fingerprint pattern) s = host_key_changed fingerprint pattern s
handle mosh_starts s = record s { uses_mosh = true }
handle mosh_goes s = record s { connect_after_worker = true }
handle (mosh_silent seconds) s = record s { silent_seconds = seconds }
handle ssh_closes s = ssh_closed s
handle (shell_exits status) s = worker_exited status s
handle worker_finishes s = worker_finished s
handle side_connects s = record s { side_up = true }
handle side_finishes s = side_worker_finished s

-- A signal of a worker comes while the session has that worker, the timer fires while it runs.
unfoldable pub occurs : Event → Session → Bool
occurs retry_fires s = s.side_retry
occurs (worker_connects address) s = s.worker
occurs (worker_fails message network) s = s.worker
occurs (worker_asks text echo can_remember label) s = s.worker
occurs (worker_unlocks key jump) s = s.worker
occurs (worker_finds_key fingerprint pattern) s = s.worker
occurs mosh_starts s = s.worker
occurs mosh_goes s = s.worker
occurs (mosh_silent seconds) s = s.worker
occurs ssh_closes s = s.worker
occurs (shell_exits status) s = s.worker
occurs worker_finishes s = s.worker
occurs side_connects s = s.side_worker
occurs side_finishes s = s.side_worker
occurs _ s = true

pub data Step : Session → Session → Type 0 where
  happens : {s : Session} (e : Event) → occurs e s ≡ true → Step s (handle e s)

-- A session of the options, the jump host and the ids that its owner gave it, before any connection.
abbrev pub new_session : Bool → Text → Bool → Session
new_session mosh session_id mosh_vault = record {
  state = disconnected;
  error_string = [];
  worker = false;
  secret_fetch_pending = false;
  host_key_mismatch = false;
  server_fingerprint = [];
  mismatch_pattern = [];
  prompting = false;
  prompt_text = [];
  prompt_echo = false;
  prompt_can_remember = false;
  prompt_label = [];
  can_remember_password = false;
  lost = false;
  reached_connected = false;
  local_address = [];
  auth = no_auth;
  has_jump = false;
  jump_auth = no_auth;
  unlocked_key = none;
  unlocked_jump_key = none;
  mosh = mosh;
  command = [];
  uses_mosh = false;
  silent_seconds = 0;
  ssh_up = false;
  side_worker = false;
  side_fetch_pending = false;
  side_up = false;
  side_retry = false;
  session_id = session_id;
  mosh_vault = mosh_vault;
  journal = false;
  resume_key = [];
  resuming = false;
  connect_after_worker = false;
  known_hosts = [];
  fetches = [];
  outbox = [];
}

pub data Reachable : Session → Type 0 where
  begins :
      (mosh : Bool) (session_id : Text) (mosh_vault : Bool)
      → Reachable (new_session mosh session_id mosh_vault)
  goes_on : {s t : Session} → Reachable s → Step s t → Reachable t
