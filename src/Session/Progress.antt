-- ===== src/Session/Progress.antt =====
-- A session that waits for the vault: each event keeps a fetch for it, and the vault's answers end it.
use longterm.Session.Run.{
  asks_to_disconnect, worker_finishes, retry_fires, roams, asks_to_trust, asks_to_reconnect,
  vault_answers, answers_prompt, asks_with_secret, asks_to_connect, Event, happens, goes_on, begins,
  Reachable, handle,
}
use longterm.Session.Worker.{
  no_auth, worker_failed, start_connection, forget_mosh, stop_side_worker,
}
use longterm.Session.KnownHosts.{without_pattern, trust_new_host_key}
use longterm.Session.Event.{
  set_jump_host, clear_stored_secret, drop_connection, stop_worker, give_up_fetch,
  disconnect_from_host, worker_connected, side_worker_finished, worker_exited, ssh_closed,
  host_key_changed, key_unlocked, worker_prompt, no_prompt, remember_answer, set_secret,
  worker_finished, worker_gone, roam, answer_prompt, connect_with_secret, reconnect,
  connect_to_host,
}
use longterm.Base.{◌∷◌, Bool, false, none, arith}
use longterm.Session.{SecretKind, roamed, Text, Session}
use longterm.Session.Awaited.{
  answer_fetch-IsAwaited, start_side_worker-IsAwaited, start_connection-IsAwaited, IsAwaited,
}

connect_to_host-IsAwaited :
    (password : Text) (s : Session) → IsAwaited s → IsAwaited (connect_to_host password s)
unfolding connect_to_host
connect_to_host-IsAwaited password s g = ground (
  arith,
  start_connection-IsAwaited
      (record s { auth = record no_auth { password = password }; unlocked_key = none }),
)

reconnect-IsAwaited : (s : Session) → IsAwaited s → IsAwaited (reconnect s)
unfolding reconnect
reconnect-IsAwaited s g = ground (arith, start_connection-IsAwaited s)

connect_with_secret-IsAwaited :
    (vault : Bool) (secret_id : Text) (kind : SecretKind) (s : Session)
    → IsAwaited s
    → IsAwaited (connect_with_secret vault secret_id kind s)
unfolding connect_with_secret set_secret
connect_with_secret-IsAwaited vault secret_id kind s g =
    ground (arith, start_connection-IsAwaited (set_secret vault secret_id kind s))

trust_new_host_key-IsAwaited : (s : Session) → IsAwaited s → IsAwaited (trust_new_host_key s)
unfolding trust_new_host_key
trust_new_host_key-IsAwaited s g = ground (
  arith,
  reconnect-IsAwaited (record s { known_hosts = without_pattern s.mismatch_pattern s.known_hosts }),
)

answer_prompt-IsAwaited :
    (answer : Text) (remember : Bool) (s : Session)
    → IsAwaited s
    → IsAwaited (answer_prompt answer remember s)
unfolding answer_prompt remember_answer no_prompt
answer_prompt-IsAwaited answer remember s g = ground arith

stop_side_worker-IsAwaited : (s : Session) → IsAwaited s → IsAwaited (stop_side_worker s)
unfolding stop_side_worker
stop_side_worker-IsAwaited s g = ground arith

roam-IsAwaited : (s : Session) → IsAwaited s → IsAwaited (roam s)
unfolding roam
roam-IsAwaited s g =
    let t = record s { outbox = roamed ∷ s.outbox } in
    ground (arith, stop_side_worker-IsAwaited t, start_side_worker-IsAwaited (stop_side_worker t))

worker_gone-IsAwaited : (s : Session) → IsAwaited s → IsAwaited (worker_gone s)
unfolding worker_gone stop_side_worker no_prompt
worker_gone-IsAwaited s g = ground arith

connects_again-IsAwaited :
    (s : Session)
    → IsAwaited s
    → IsAwaited (start_connection (forget_mosh (record s { connect_after_worker = false })))
unfolding forget_mosh
connects_again-IsAwaited s g =
    start_connection-IsAwaited (forget_mosh (record s { connect_after_worker = false }))
      (ground arith)

worker_finished-IsAwaited : (s : Session) → IsAwaited s → IsAwaited (worker_finished s)
unfolding worker_finished
worker_finished-IsAwaited s g =
    let h = worker_gone-IsAwaited s g in
    ground (arith, connects_again-IsAwaited (worker_gone s) h, h)

handle-IsAwaited : (e : Event) (s : Session) → IsAwaited s → IsAwaited (handle e s)
unfolding handle worker_failed worker_prompt key_unlocked host_key_changed ssh_closed worker_exited
    side_worker_finished worker_connected disconnect_from_host give_up_fetch stop_worker
    drop_connection set_secret clear_stored_secret set_jump_host
handle-IsAwaited (asks_to_connect password) s g = connect_to_host-IsAwaited password s g
handle-IsAwaited asks_to_reconnect s g = reconnect-IsAwaited s g
handle-IsAwaited (asks_with_secret vault secret_id kind) s g =
    connect_with_secret-IsAwaited vault secret_id kind s g
handle-IsAwaited asks_to_trust s g = trust_new_host_key-IsAwaited s g
handle-IsAwaited (answers_prompt answer remember) s g = answer_prompt-IsAwaited answer remember s g
handle-IsAwaited roams s g = roam-IsAwaited s g
handle-IsAwaited (vault_answers n a) s g = answer_fetch-IsAwaited n a s g
handle-IsAwaited retry_fires s g =
    start_side_worker-IsAwaited (record s { side_retry = false }) (ground arith)
handle-IsAwaited worker_finishes s g = worker_finished-IsAwaited s g
handle-IsAwaited asks_to_disconnect s g = ground arith
handle-IsAwaited e s g = ground arith

pub Reachable-IsAwaited : {s : Session} → Reachable s → IsAwaited s
Reachable-IsAwaited (begins mosh session_id mosh_vault) = ground arith
Reachable-IsAwaited (goes_on {s} r (happens e o)) = handle-IsAwaited e s (Reachable-IsAwaited r)
