-- ===== src/Session/Consistent.antt =====
-- What holds of a session between two events.
use longterm.Base.{Bool, true, false, ◌||◌, ◌&&◌, ◌≡◌, [], arith}
use longterm.Base.Text.{Text}
use longterm.Session.{
  then_auth, then_start, Answer, secret, refusal, AuthSource, Continuation, Session, disconnected,
  connecting, connected, Fetch, of_resume_key, of_secret, Credentials,
}
use longterm.Session.Worker.{
  no_credentials, secret_credentials, resume_key_missing, own_credentials, resume_key_fetched,
  secret_fetched, start_side_worker, fetched, go_on, start_connection, fetch_both, fetch_own,
  fetch_then, is_side, start_worker, worker_failed, stop_side_worker, fetched_all,
}

pub record IsConsistent (s : Session) : Type 0 where
  pub idle : s.state ≡ disconnected → s.worker || s.secret_fetch_pending ≡ false
  pub busy : s.state ≡ connecting → s.worker || s.secret_fetch_pending ≡ true
  pub up : s.state ≡ connected → s.worker ≡ true
  pub one : s.worker && s.secret_fetch_pending ≡ false
  pub ssh : s.ssh_up ≡ true → s.state ≡ connected
  pub over : s.uses_mosh ≡ true → s.worker ≡ true
  pub side : s.side_worker ≡ true → s.uses_mosh ≡ true
  pub side_fetch : s.side_fetch_pending ≡ true → s.uses_mosh ≡ true
  pub side_ready : s.side_up ≡ true → s.side_worker ≡ true
  pub retry : s.side_retry ≡ true → s.worker ≡ true
  pub asks : s.prompting ≡ true → s.worker ≡ true
  pub resumes : s.resuming ≡ true → s.worker ≡ true

pub worker_failed-IsConsistent :
    (message : Text) (network : Bool) (s : Session)
    → IsConsistent s
    → IsConsistent (worker_failed message network s)
unfolding worker_failed
worker_failed-IsConsistent message network s g = ground arith

pub stop_side_worker-IsConsistent :
    (s : Session) → IsConsistent s → IsConsistent (stop_side_worker s)
unfolding stop_side_worker
stop_side_worker-IsConsistent s g = ground arith

-- The start of the connection, as it is between the calls of startConnection and of startWorker.
pub fetched_own-IsConsistent :
    (own jump : Credentials) (s : Session)
    → s.secret_fetch_pending ≡ true
    → IsConsistent s
    → IsConsistent (fetched_all false jump own s)
unfolding fetched_all start_worker
fetched_own-IsConsistent own jump s p g = ground arith

pub fetched_side-IsConsistent :
    (own jump : Credentials) (s : Session)
    → IsConsistent s
    → IsConsistent (fetched_all true jump own s)
unfolding fetched_all start_worker
fetched_side-IsConsistent own jump s g = ground arith

pub fetch_then-IsConsistent :
    (done : Credentials → Session → Session) (k : Continuation) (source : AuthSource) (s : Session)
    → ((c : Credentials) → IsConsistent (done c s))
    → IsConsistent s
    → IsConsistent (fetch_then done k source s)
unfolding fetch_then
fetch_then-IsConsistent done k source s f g = ground (arith, f (own_credentials source))

pub fetch_own-IsConsistent :
    (side : Bool) (jump : Credentials) (s : Session)
    → side || s.secret_fetch_pending ≡ true
    → IsConsistent s
    → IsConsistent (fetch_own side jump s)
unfolding fetch_own
fetch_own-IsConsistent true jump s p g =
    fetch_then-IsConsistent _ _ _ s (λ c. fetched_side-IsConsistent c jump s g) g
fetch_own-IsConsistent false jump s p g =
    fetch_then-IsConsistent _ _ _ s (λ c. fetched_own-IsConsistent c jump s p g) g

pub fetch_both-IsConsistent :
    (side : Bool) (s : Session)
    → side || s.secret_fetch_pending ≡ true
    → IsConsistent s
    → IsConsistent (fetch_both side s)
unfolding fetch_both
fetch_both-IsConsistent side s p g =
    fetch_then-IsConsistent _ _ _ s (λ c. fetch_own-IsConsistent side c s p g) g

pub start_connection-IsConsistent :
    (s : Session) → IsConsistent s → IsConsistent (start_connection s)
unfolding start_connection
start_connection-IsConsistent s g = ground (
  arith,
  fetch_both-IsConsistent false
      (record s { error_string = []; secret_fetch_pending = true; state = connecting }),
)

pub go_on-IsConsistent :
    (k : Continuation) (c : Credentials) (s : Session)
    → is_side k || s.secret_fetch_pending ≡ true
    → IsConsistent s
    → IsConsistent (go_on k c s)
unfolding go_on
go_on-IsConsistent (then_auth side) c s p g = fetch_own-IsConsistent side c s p g
go_on-IsConsistent (then_start true jump) c s p g = fetched_side-IsConsistent c jump s g
go_on-IsConsistent (then_start false jump) c s p g = fetched_own-IsConsistent c jump s p g

pub resume_key_missing-IsConsistent :
    (s : Session)
    → s.secret_fetch_pending ≡ true
    → IsConsistent s
    → IsConsistent (resume_key_missing s)
unfolding resume_key_missing
resume_key_missing-IsConsistent s p g = ground (
  arith,
  start_connection-IsConsistent
      (record s { secret_fetch_pending = false; journal = false; state = disconnected }),
)

pub resumed-IsConsistent :
    (key : Text) (s : Session)
    → s.secret_fetch_pending ≡ true
    → IsConsistent s
    → IsConsistent
        (record (start_worker no_credentials no_credentials false
          (record s { secret_fetch_pending = false; resume_key = key })) { resume_key = [] })
unfolding start_worker
resumed-IsConsistent key s p g = ground arith

pub fetched-IsConsistent :
    (f : Fetch) (a : Answer) (s : Session) → IsConsistent s → IsConsistent (fetched f a s)
unfolding fetched secret_fetched resume_key_fetched worker_failed
fetched-IsConsistent (of_secret kind k) (secret text) s g =
    ground (arith, go_on-IsConsistent k (secret_credentials kind text) s)
fetched-IsConsistent (of_secret kind k) (refusal message) s g = ground arith
fetched-IsConsistent of_resume_key (secret key) s g =
    ground (arith, resume_key_missing-IsConsistent s, resumed-IsConsistent key s)
fetched-IsConsistent of_resume_key (refusal message) s g =
    ground (arith, resume_key_missing-IsConsistent s)

pub start_side_worker-IsConsistent :
    (s : Session) → IsConsistent s → IsConsistent (start_side_worker s)
unfolding start_side_worker
start_side_worker-IsConsistent s g =
    ground (arith, fetch_both-IsConsistent true (record s { side_fetch_pending = true }))
