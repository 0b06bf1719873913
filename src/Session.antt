-- ===== src/Session.antt =====
-- src/sshsession.cpp: the session that the user interface sees. The records are here, what happens
-- to them is in the child modules.
pub mod Worker
pub mod Event
pub mod KnownHosts
pub mod Trusted
pub mod Options
pub mod Forwards
pub mod Predict
pub mod Typing
pub mod Socks
pub mod Run
pub mod Consistent
pub mod Handled
pub mod Ended
pub mod Awaited
pub mod Progress
pub mod Settles
use longterm.Base.{ℕ, Bool, Option, List}
use longterm.Base.Text.{Text}

pub data State : Type 0 where
  disconnected : State
  connecting : State
  connected : State

pub data SecretKind : Type 0 where
  of_password : SecretKind
  of_private_key : SecretKind

-- `vault` says whether the pointer to the vault is set.
pub record AuthSource : Type 0 where
  pub password : Text
  pub vault : Bool
  pub secret_id : Text
  pub kind : SecretKind

-- A key whose passphrase was typed is a number that stands for the shared pointer to it.
pub record Credentials : Type 0 where
  pub password : Text
  pub private_key : Text
  pub unlocked_key : Option ℕ

-- What `fetchCredentials` goes on with: the credentials of the host behind the jump host, or the
-- start of a worker with those of both. `side` as in the code.
pub data Continuation : Type 0 where
  then_auth : (side : Bool) → Continuation
  then_start : (side : Bool) (jump : Credentials) → Continuation

-- A fetch of the vault that was not answered yet.
pub data Fetch : Type 0 where
  of_resume_key : Fetch
  of_secret : SecretKind → Continuation → Fetch

-- The vault's answer: the secret, or the text of an error.
pub data Answer : Type 0 where
  secret : Text → Answer
  refusal : Text → Answer

-- What the session does to the world outside of it.
pub data Effect : Type 0 where
  started : (own jump : Credentials) (resume_key : Text) → Effect
  side_started : (own jump : Credentials) → Effect
  stopped : Effect
  side_stopped : Effect
  roamed : Effect
  answered : Text → Effect
  remembered : Text → Effect
  key_removed : Text → Effect
  connection_lost : Effect
  shell_exited : Effect
  command_finished : ℕ → Effect

-- The members of `SshSession` that its connection depends on. `worker` and `side_worker` say whether
-- the pointers are set, `journal` whether the file at `journalPath` exists, `mosh` and `command` are
-- of `m_options`, `side_retry` whether that timer runs. `fetches` and `outbox` are not members: the
-- fetches that the vault has yet to answer, the oldest first, and all that was done, the newest first.
pub record Session : Type 0 where
  pub state : State
  pub error_string : Text
  pub worker : Bool
  pub secret_fetch_pending : Bool
  pub host_key_mismatch : Bool
  pub server_fingerprint : Text
  pub mismatch_pattern : Text
  pub prompting : Bool
  pub prompt_text : Text
  pub prompt_echo : Bool
  pub prompt_can_remember : Bool
  pub prompt_label : Text
  pub can_remember_password : Bool
  pub lost : Bool
  pub reached_connected : Bool
  pub local_address : Text
  pub auth : AuthSource
  pub has_jump : Bool
  pub jump_auth : AuthSource
  pub unlocked_key : Option ℕ
  pub unlocked_jump_key : Option ℕ
  pub mosh : Bool
  pub command : Text
  pub uses_mosh : Bool
  pub silent_seconds : ℕ
  pub ssh_up : Bool
  pub side_worker : Bool
  pub side_fetch_pending : Bool
  pub side_up : Bool
  pub side_retry : Bool
  pub session_id : Text
  pub mosh_vault : Bool
  pub journal : Bool
  pub resume_key : Text
  pub resuming : Bool
  pub connect_after_worker : Bool
  pub known_hosts : List Text
  pub fetches : List Fetch
  pub outbox : List Effect
