-- ===== src/Session/Event.antt =====
-- src/sshsession.cpp: the calls of the user interface, the signals of the workers and the answers of
-- the vault, each with the code that runs for it.
use longterm.Base.{ℕ, Bool, true, false, ◌&&◌, ◌||◌, not, none, some, [], if◌then◌else◌, is_empty}
use longterm.Base.Text.{Text, same}
use longterm.Session.{
  disconnected, connected, SecretKind, of_password, AuthSource, stopped, roamed, answered,
  remembered, key_removed, connection_lost, shell_exited, command_finished, Session,
}
use longterm.Session.Worker.{
  is_disconnected, is_connected, emits, no_auth, mosh_secret, worker_failed, start_connection,
  stop_side_worker, start_side_worker, forget_mosh,
}

unfoldable pub connect_to_host : Text → Session → Session
connect_to_host password s =
    if not (is_disconnected s.state)
    then s
    else start_connection
        (record s { auth = record no_auth { password = password }; unlocked_key = none })

unfoldable pub reconnect : Session → Session
reconnect s = if not (is_disconnected s.state) then s else start_connection s

abbrev is_password : SecretKind → Bool
is_password of_password = true
is_password _ = false

-- `!=` of the three members
abbrev pub is_other : AuthSource → Bool → Text → SecretKind → Bool
is_other auth vault secret_id kind =
    not (if vault then auth.vault else not auth.vault)
    || (not (same auth.secret_id secret_id)
        || not (if is_password kind then is_password auth.kind else not (is_password auth.kind)))

abbrev pub source_of : Bool → Text → SecretKind → AuthSource
source_of vault secret_id kind = record no_auth {
  vault = vault;
  secret_id = secret_id;
  kind = kind;
}

unfoldable pub set_secret : Bool → Text → SecretKind → Session → Session
set_secret vault secret_id kind s = record s {
  unlocked_key = if is_other s.auth vault secret_id kind then none else s.unlocked_key;
  auth = source_of vault secret_id kind;
}

unfoldable pub connect_with_secret : Bool → Text → SecretKind → Session → Session
connect_with_secret vault secret_id kind s =
    if not (is_disconnected s.state) || not vault
    then s
    else start_connection (set_secret vault secret_id kind s)

unfoldable pub clear_stored_secret : Session → Session
clear_stored_secret s = record s {
  auth = if s.auth.vault then no_auth else s.auth;
  unlocked_key = none;
}

unfoldable pub set_jump_host : Bool → Text → SecretKind → Session → Session
set_jump_host vault secret_id kind s = record s {
  unlocked_jump_key =
      if not s.has_jump || is_other s.jump_auth vault secret_id kind
      then none
      else s.unlocked_jump_key;
  has_jump = true;
  jump_auth = source_of vault secret_id kind;
}

-- `setPrompt(false, QString(), false, false, QString())`
unfoldable pub no_prompt : Session → Session
no_prompt s = record s {
  prompting = false;
  prompt_text = [];
  prompt_echo = false;
  prompt_can_remember = false;
  prompt_label = [];
}

unfoldable pub worker_prompt : Text → Bool → Bool → Text → Session → Session
worker_prompt text echo can_remember label s = record s {
  prompting = true;
  prompt_text = text;
  prompt_echo = echo;
  prompt_can_remember = can_remember;
  prompt_label = label;
}

unfoldable pub remember_answer : Text → Bool → Session → Session
remember_answer answer remember s =
    let t = record s { auth = record no_auth { password = answer } } in
    if s.prompt_can_remember && is_password s.auth.kind
    then (if remember && s.can_remember_password then emits (remembered answer) t else t)
    else s

unfoldable pub answer_prompt : Text → Bool → Session → Session
answer_prompt answer remember s =
    if not s.prompting || not s.worker
    then s
    else emits (answered answer) (no_prompt (remember_answer answer remember s))

unfoldable pub roam : Session → Session
roam s =
    let t = emits roamed s in
    if not s.worker || not s.uses_mosh
    then s
    else if not s.ssh_up && not s.side_up
    then start_side_worker (stop_side_worker t)
    else t

unfoldable pub drop_connection : Text → Session → Session
drop_connection message s =
    if not (is_connected s.state) || not s.worker
    then s
    else emits stopped (worker_failed message true s)

unfoldable pub give_up_fetch : Session → Session
give_up_fetch s =
    if s.secret_fetch_pending
    then record s { secret_fetch_pending = false; state = disconnected }
    else s

unfoldable pub stop_worker : Session → Session
stop_worker s = if s.worker then emits stopped s else s

unfoldable pub disconnect_from_host : Session → Session
disconnect_from_host s =
    let t = record s { lost = false; unlocked_key = none; unlocked_jump_key = none } in
    stop_worker (
      give_up_fetch (
        if s.mosh_vault && not (is_empty s.session_id)
        then emits (key_removed (mosh_secret s)) t
        else t))

unfoldable pub worker_connected : Text → Session → Session
worker_connected address s = record s {
  local_address = address;
  reached_connected = true;
  lost = false;
  ssh_up = not s.resuming;
  state = connected;
  side_retry = s.resuming || s.side_retry;
}

unfoldable pub host_key_changed : Text → Text → Session → Session
host_key_changed fingerprint pattern s = record s {
  server_fingerprint = fingerprint;
  mismatch_pattern = pattern;
  host_key_mismatch = true;
}

unfoldable pub key_unlocked : ℕ → Bool → Session → Session
key_unlocked key jump s =
    if not s.worker
    then s
    else if jump
    then record s { unlocked_jump_key = some key }
    else record s { unlocked_key = some key }

unfoldable pub ssh_closed : Session → Session
ssh_closed s = record s { ssh_up = false; side_retry = true }

unfoldable pub worker_gone : Session → Session
worker_gone s =
    let t = record s { worker = false; local_address = []; ssh_up = false } in
    record (stop_side_worker (no_prompt t)) {
      uses_mosh = false;
      silent_seconds = 0;
      resuming = false;
      state = disconnected;
    }

unfoldable pub worker_finished : Session → Session
worker_finished s =
    let t = worker_gone s in
    if t.connect_after_worker
    then start_connection (forget_mosh (record t { connect_after_worker = false }))
    else if s.lost && s.reached_connected
    then emits connection_lost t
    else t

unfoldable pub side_worker_finished : Session → Session
side_worker_finished s = record s {
  side_worker = false;
  side_up = false;
  side_retry = (s.worker && (s.uses_mosh && not s.ssh_up)) || s.side_retry;
}

unfoldable pub worker_exited : ℕ → Session → Session
worker_exited status s =
    if is_empty s.command then emits shell_exited s else emits (command_finished status) s
