-- ===== src/Tests/Sessions.antt =====
-- A session with a password in the vault, from the first connection to its end.
use longterm.Session.Worker.{
  start_worker, fetched_all, go_on, secret_fetched, forget_mosh, fetched, stop_side_worker,
  fetch_then, fetch_own, fetch_both, can_resume, start_connection,
}
use longterm.Session.Handled.{Reachable-IsConsistent}
use longterm.Session.Event.{
  worker_connected, no_prompt, stop_worker, give_up_fetch, worker_gone, set_secret, worker_finished,
  disconnect_from_host, connect_with_secret,
}
use longterm.Session.Settles.{Reachable-Settles, Settles}
use longterm.Session.Consistent.{IsConsistent}
use longterm.Session.Run.{
  goes_on, answer_fetch, take_fetch, mosh_goes, happens, worker_finishes, worker_connects,
  vault_answers, asks_with_secret, begins, occurs, handle, Reachable, new_session,
}
use longterm.Base.{◌≡◌, refl, true, [], ◌∷◌}
use longterm.Session.{connected, connecting, secret, of_password, Session}

abbrev first_session : Session
first_session = new_session true (105 ∷ []) true

first_session-Reachable : Reachable first_session
first_session-Reachable = begins true (105 ∷ []) true

abbrev waiting : Session
waiting = handle (asks_with_secret true (112 ∷ []) of_password) first_session

waiting-Reachable : Reachable waiting
unfolding occurs
waiting-Reachable =
    goes_on first_session-Reachable (happens (asks_with_secret true (112 ∷ []) of_password) refl)

abbrev working : Session
working = handle (vault_answers 0 (secret (120 ∷ []))) waiting

working-Reachable : Reachable working
unfolding occurs
working-Reachable = goes_on waiting-Reachable (happens (vault_answers 0 (secret (120 ∷ []))) refl)

abbrev online : Session
online = handle (worker_connects (97 ∷ [])) working

-- The session went through Connecting, and is Connected with the password of the vault.
online_state : online.state ≡ connected
unfolding handle connect_with_secret set_secret start_connection can_resume fetch_both fetch_own
    fetch_then take_fetch answer_fetch fetched secret_fetched go_on fetched_all start_worker
    worker_connected
online_state = refl

online_occurs : occurs (worker_connects (97 ∷ [])) working ≡ true
unfolding occurs handle connect_with_secret set_secret start_connection can_resume fetch_both
    fetch_own fetch_then take_fetch answer_fetch fetched secret_fetched go_on fetched_all
    start_worker worker_connected
online_occurs = refl

online-Reachable : Reachable online
online-Reachable = goes_on working-Reachable (happens (worker_connects (97 ∷ [])) online_occurs)

Reachable-IsConsistent_example : IsConsistent online
Reachable-IsConsistent_example = Reachable-IsConsistent online-Reachable

Reachable-Settles_example : Settles 3 waiting
Reachable-Settles_example = Reachable-Settles waiting-Reachable

abbrev ended : Session
ended = handle worker_finishes (disconnect_from_host online)

-- A mosh session that is gone connects again, although the user ended the session in between.
abbrev unwanted : Session
unwanted = handle worker_finishes (disconnect_from_host (handle mosh_goes working))

unwanted_state : unwanted.state ≡ connecting
unfolding handle worker_finished worker_gone disconnect_from_host give_up_fetch stop_worker
    start_connection can_resume fetch_both fetch_own fetch_then stop_side_worker no_prompt
    forget_mosh connect_with_secret set_secret take_fetch answer_fetch fetched secret_fetched go_on
    fetched_all start_worker
unwanted_state = refl
