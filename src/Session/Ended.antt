-- ===== src/Session/Ended.antt =====
-- After disconnectFromHost: what comes without the user does not connect again.
use longterm.Session.Run.{
  roams, side_finishes, side_connects, ssh_closes, worker_finishes, mosh_starts, retry_fires,
  shell_exits, mosh_silent, worker_finds_key, worker_unlocks, worker_asks, worker_fails,
  worker_connects, journal_is, occurs, vault_answers, handle, Event,
}
use longterm.Base.{[], ◌∷◌, Bool, true, false, ◌≡◌, List, ℕ, ◌+◌}
use longterm.Session.{connection_lost, started, disconnected, Effect, Session}

-- The main connections that were begun, and those that were asked for as the last one was lost. The
-- SSH connection at the side of mosh is not one of them.
pub main_begun : List Effect → ℕ
main_begun [] = 0
main_begun (started own jump key ∷ es) = main_begun es + 1
main_begun (connection_lost ∷ es) = main_begun es + 1
main_begun (_ ∷ es) = main_begun es

-- Events that the user has no part in: the answers of the vault, the timer, a change of the network
-- that a session roams over, and the signals of the workers but for a failure of the network and for a
-- mosh session that is gone. The `dropConnection` of a session that cannot roam is such a failure.
unfoldable pub is_quiet : Event → Bool
is_quiet (vault_answers n a) = true
is_quiet (journal_is there) = true
is_quiet retry_fires = true
is_quiet roams = true
is_quiet (worker_connects address) = true
is_quiet (worker_fails message false) = true
is_quiet (worker_asks text echo can_remember label) = true
is_quiet (worker_unlocks key jump) = true
is_quiet (worker_finds_key fingerprint pattern) = true
is_quiet mosh_starts = true
is_quiet (mosh_silent seconds) = true
is_quiet ssh_closes = true
is_quiet (shell_exits status) = true
is_quiet worker_finishes = true
is_quiet side_connects = true
is_quiet side_finishes = true
is_quiet _ = false

-- `Quiet s t`: such events take the session from `s` to `t`.
pub data Quiet (s : Session) : Session → Type 0 where
  rests : Quiet s s
  comes :
      {t : Session}
      → Quiet s t
      → (e : Event) → is_quiet e ≡ true
      → occurs e t ≡ true
      → Quiet s (handle e t)

-- Nothing is left that would connect by itself, and `n` connections were main_begun.
pub record IsOver (n : ℕ) (s : Session) : Type 0 where
  pub fetching : s.secret_fetch_pending ≡ false
  pub lost : s.lost ≡ false
  pub again : s.connect_after_worker ≡ false
  pub count : main_begun s.outbox ≡ n

-- Disconnected, with nothing at the side of it either: no connection, no fetch for one, no timer.
pub record IsIdle (t : Session) : Type 0 where
  pub ended : t.state ≡ disconnected
  pub alone : t.side_worker ≡ false
  pub unasked : t.side_fetch_pending ≡ false
  pub down : t.side_up ≡ false
  pub untimed : t.side_retry ≡ false
