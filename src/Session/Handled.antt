-- ===== src/Session/Handled.antt =====
-- Each event keeps a session consistent, and so does a run.
use longterm.Session.Consistent.{
  fetched-IsConsistent, start_side_worker-IsConsistent, stop_side_worker-IsConsistent,
  start_connection-IsConsistent, IsConsistent,
}
use longterm.Session.Worker.{
  emits, start_connection, no_auth, stop_side_worker, worker_failed, forget_mosh,
}
use longterm.Session.KnownHosts.{without_pattern, trust_new_host_key}
use longterm.Session.Event.{
  side_worker_finished, worker_exited, ssh_closed, host_key_changed, key_unlocked, stop_worker,
  no_prompt, worker_prompt, give_up_fetch, remember_answer, worker_finished, worker_gone,
  worker_connected, disconnect_from_host, drop_connection, roam, answer_prompt, set_jump_host,
  clear_stored_secret, connect_with_secret, set_secret, reconnect, connect_to_host,
}
use longterm.Base.{
  ◌&&◌, if◌then◌else◌, if_intro, List, ◌∷◌, Option, Bool, true, false, none, some, ◌≡◌, arith,
}
use longterm.Base.Text.{Text}
use longterm.Session.Run.{
  asks_to_reconnect, asks_to_trust, asks_to_disconnect, clears_secret, roams, retry_fires,
  mosh_starts, mosh_goes, ssh_closes, worker_finishes, side_connects, side_finishes, shell_exits,
  mosh_silent, worker_finds_key, worker_unlocks, worker_asks, worker_fails, worker_connects,
  journal_is, take_fetch, vault_answers, drops, changes_options, changes_jump, changes_secret,
  answers_prompt, asks_with_secret, asks_to_connect, Event, happens, goes_on, begins, Reachable,
  answer_fetch, handle, occurs,
}
use longterm.Session.{connection_lost, Effect, Answer, Fetch, roamed, SecretKind, Session}

connect_to_host-IsConsistent :
    (password : Text) (s : Session) → IsConsistent s → IsConsistent (connect_to_host password s)
unfolding connect_to_host
connect_to_host-IsConsistent password s g = ground (
  arith,
  start_connection-IsConsistent
      (record s { auth = record no_auth { password = password }; unlocked_key = none }),
)

pub reconnect-IsConsistent : (s : Session) → IsConsistent s → IsConsistent (reconnect s)
unfolding reconnect
reconnect-IsConsistent s g = ground (arith, start_connection-IsConsistent s)

set_secret-IsConsistent :
    (vault : Bool) (secret_id : Text) (kind : SecretKind) (s : Session)
    → IsConsistent s
    → IsConsistent (set_secret vault secret_id kind s)
unfolding set_secret
set_secret-IsConsistent vault secret_id kind s g = ground arith

connect_with_secret-IsConsistent :
    (vault : Bool) (secret_id : Text) (kind : SecretKind) (s : Session)
    → IsConsistent s
    → IsConsistent (connect_with_secret vault secret_id kind s)
unfolding connect_with_secret
connect_with_secret-IsConsistent vault secret_id kind s g = ground (
  arith,
  set_secret-IsConsistent vault secret_id kind s,
  start_connection-IsConsistent (set_secret vault secret_id kind s),
)

clear_stored_secret-IsConsistent :
    (s : Session) → IsConsistent s → IsConsistent (clear_stored_secret s)
unfolding clear_stored_secret
clear_stored_secret-IsConsistent s g = ground arith

set_jump_host-IsConsistent :
    (vault : Bool) (secret_id : Text) (kind : SecretKind) (s : Session)
    → IsConsistent s
    → IsConsistent (set_jump_host vault secret_id kind s)
unfolding set_jump_host
set_jump_host-IsConsistent vault secret_id kind s g = ground arith

trust_new_host_key-IsConsistent :
    (s : Session) → IsConsistent s → IsConsistent (trust_new_host_key s)
unfolding trust_new_host_key
trust_new_host_key-IsConsistent s g = ground (
  arith,
  reconnect-IsConsistent
      (record s { known_hosts = without_pattern s.mismatch_pattern s.known_hosts }),
)

answer_prompt-IsConsistent :
    (answer : Text) (remember : Bool) (s : Session)
    → IsConsistent s
    → IsConsistent (answer_prompt answer remember s)
unfolding answer_prompt remember_answer no_prompt
answer_prompt-IsConsistent answer remember s g = ground arith

roam-IsConsistent : (s : Session) → IsConsistent s → IsConsistent (roam s)
unfolding roam
roam-IsConsistent s g =
    let t = record s { outbox = roamed ∷ s.outbox } in
    ground
      (arith, stop_side_worker-IsConsistent t, start_side_worker-IsConsistent (stop_side_worker t))

drop_connection-IsConsistent :
    (message : Text) (s : Session) → IsConsistent s → IsConsistent (drop_connection message s)
unfolding drop_connection worker_failed
drop_connection-IsConsistent message s g = ground arith

pub disconnect_from_host-IsConsistent :
    (s : Session) → IsConsistent s → IsConsistent (disconnect_from_host s)
unfolding disconnect_from_host give_up_fetch stop_worker
disconnect_from_host-IsConsistent s g = ground arith

worker_connected-IsConsistent :
    (address : Text) (s : Session)
    → s.worker ≡ true
    → IsConsistent s
    → IsConsistent (worker_connected address s)
unfolding worker_connected
worker_connected-IsConsistent address s w g = ground arith

worker_gone-IsConsistent :
    (s : Session) → s.worker ≡ true → IsConsistent s → IsConsistent (worker_gone s)
unfolding worker_gone stop_side_worker no_prompt
worker_gone-IsConsistent s w g = ground arith

forget_mosh-IsConsistent : (s : Session) → IsConsistent s → IsConsistent (forget_mosh s)
unfolding forget_mosh
forget_mosh-IsConsistent s g = ground arith

emits-IsConsistent : (e : Effect) (s : Session) → IsConsistent s → IsConsistent (emits e s)
emits-IsConsistent e s g = ground arith

connects_again-IsConsistent :
    (s : Session)
    → IsConsistent s
    → IsConsistent (start_connection (forget_mosh (record s { connect_after_worker = false })))
connects_again-IsConsistent s g =
    start_connection-IsConsistent (forget_mosh (record s { connect_after_worker = false }))
      (forget_mosh-IsConsistent (record s { connect_after_worker = false }) (ground arith))

worker_finished-IsConsistent :
    (s : Session) → s.worker ≡ true → IsConsistent s → IsConsistent (worker_finished s)
unfolding worker_finished
worker_finished-IsConsistent s w g =
    let h = worker_gone-IsConsistent s w g in
    if_intro IsConsistent (worker_gone s).connect_after_worker
      (start_connection (forget_mosh (record (worker_gone s) { connect_after_worker = false })))
      (if s.lost && s.reached_connected
        then emits connection_lost (worker_gone s)
        else worker_gone s)
      (λ _. connects_again-IsConsistent (worker_gone s) h)
      (λ _.
        if_intro IsConsistent (s.lost && s.reached_connected)
          (emits connection_lost (worker_gone s)) (worker_gone s)
          (λ _. emits-IsConsistent connection_lost (worker_gone s) h) (λ _. h))

answer_fetch-IsConsistent :
    (f : Option (Fetch × List Fetch)) (a : Answer) (s : Session)
    → IsConsistent s
    → IsConsistent (answer_fetch f a s)
unfolding answer_fetch
answer_fetch-IsConsistent none a s g = g
answer_fetch-IsConsistent (some (f, fs)) a s g =
    fetched-IsConsistent f a (record s { fetches = fs }) (ground arith)

-- Every event that can occur keeps a session consistent.
pub handle-IsConsistent :
    (e : Event) (s : Session) → occurs e s ≡ true → IsConsistent s → IsConsistent (handle e s)
unfolding handle occurs worker_failed worker_prompt key_unlocked host_key_changed ssh_closed
    worker_exited side_worker_finished
handle-IsConsistent (asks_to_connect password) s o g = connect_to_host-IsConsistent password s g
handle-IsConsistent asks_to_reconnect s o g = reconnect-IsConsistent s g
handle-IsConsistent (asks_with_secret vault secret_id kind) s o g =
    connect_with_secret-IsConsistent vault secret_id kind s g
handle-IsConsistent asks_to_trust s o g = trust_new_host_key-IsConsistent s g
handle-IsConsistent asks_to_disconnect s o g = disconnect_from_host-IsConsistent s g
handle-IsConsistent (answers_prompt answer remember) s o g =
    answer_prompt-IsConsistent answer remember s g
handle-IsConsistent (changes_secret vault secret_id kind) s o g =
    set_secret-IsConsistent vault secret_id kind s g
handle-IsConsistent clears_secret s o g = clear_stored_secret-IsConsistent s g
handle-IsConsistent (changes_jump vault secret_id kind) s o g =
    set_jump_host-IsConsistent vault secret_id kind s g
handle-IsConsistent (changes_options mosh command) s o g = ground arith
handle-IsConsistent roams s o g = roam-IsConsistent s g
handle-IsConsistent (drops message) s o g = drop_connection-IsConsistent message s g
handle-IsConsistent (vault_answers n a) s o g =
    answer_fetch-IsConsistent (take_fetch n s.fetches) a s g
handle-IsConsistent (journal_is there) s o g = ground arith
handle-IsConsistent retry_fires s o g =
    start_side_worker-IsConsistent (record s { side_retry = false }) (ground arith)
handle-IsConsistent (worker_connects address) s o g = worker_connected-IsConsistent address s o g
handle-IsConsistent (worker_fails message network) s o g = ground arith
handle-IsConsistent (worker_asks text echo can_remember label) s o g = ground arith
handle-IsConsistent (worker_unlocks key jump) s o g = ground arith
handle-IsConsistent (worker_finds_key fingerprint pattern) s o g = ground arith
handle-IsConsistent mosh_starts s o g = ground arith
handle-IsConsistent mosh_goes s o g = ground arith
handle-IsConsistent (mosh_silent seconds) s o g = ground arith
handle-IsConsistent ssh_closes s o g = ground arith
handle-IsConsistent (shell_exits status) s o g = ground arith
handle-IsConsistent worker_finishes s o g = worker_finished-IsConsistent s o g
handle-IsConsistent side_connects s o g = ground arith
handle-IsConsistent side_finishes s o g = ground arith

-- In every run: Disconnected is the state without a worker and without a fetch, Connecting is the one
-- with exactly one of them, Connected has a worker; the rest is there only where what it needs is.
pub Reachable-IsConsistent : {s : Session} → Reachable s → IsConsistent s
Reachable-IsConsistent (begins mosh session_id mosh_vault) = ground arith
Reachable-IsConsistent (goes_on {s} r (happens e o)) =
    handle-IsConsistent e s o (Reachable-IsConsistent r)
