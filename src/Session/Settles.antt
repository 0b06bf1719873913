-- ===== src/Session/Settles.antt =====
-- Three answers of the vault are enough for a session that waits for it.
use longterm.Session.Progress.{Reachable-IsAwaited}
use longterm.Session.Handled.{Reachable-IsConsistent}
use longterm.Session.Awaited.{is_own, has_own}
use longterm.Session.Worker.{
  no_auth, can_resume, secret_credentials, resume_key_fetched, resume_key_missing, start_connection,
  fetch_both, own_credentials, worker_failed, start_worker, fetch_then, go_on, fetched_all,
  fetch_own, fetched, secret_fetched,
}
use longterm.Session.Run.{Reachable, answer_fetch, vault_answers, handle, take_fetch}
use longterm.Session.Consistent.{fetched_own-IsConsistent, fetched-IsConsistent, IsConsistent}
use mathlib.Core.Path.{subst}
use longterm.Base.{
  is_empty, Bool-cases, if◌then◌else◌, if_intro, [], ◌∷◌, ◌++◌, length, inr, inl, true, false, some,
  ◌≡◌, arith, refl, List, ℕ, ◌⊎◌, sym, zero, suc,
}
use longterm.Session.{
  of_resume_key, Text, connecting, AuthSource, then_auth, refusal, secret, of_secret, then_start,
  Credentials, SecretKind, Fetch, Answer, disconnected, Session,
}

-- A worker is at work for the session, or the session is Disconnected.
IsSettled : Session → Type 0
IsSettled s = (s.worker ≡ true) ⊎ (s.state ≡ disconnected)

-- At most `k` answers settle the session, whatever they are: those to the fetches at some indices.
pub Settles : ℕ → Session → Type 0
unfolding IsSettled
Settles zero s = IsSettled s
Settles (suc k) s =
    IsSettled s ⊎ ((n : ℕ) × ((a : Answer) → Settles k (handle (vault_answers n a) s)))

settled : (k : ℕ) (s : Session) → IsSettled s → Settles k s
unfolding Settles
settled zero s h = h
settled (suc k) s h = inl h

idle-Settles : (k : ℕ) (s : Session) → s.secret_fetch_pending ≡ false → IsConsistent s → Settles k s
unfolding IsSettled
idle-Settles k s p g = settled k s (ground arith)

later : (k : ℕ) (s : Session) → Settles k s → Settles (suc k) s
unfolding Settles
later zero s h = inl h
later (suc k) s (inl h) = inl h
later (suc k) s (inr (n, h)) = inr (n, λ a. later k (handle (vault_answers n a) s) (h a))

take_fetch-last :
    (fs : List Fetch) (f : Fetch) → take_fetch (length fs) (fs ++ f ∷ []) ≡ some (f, fs)
unfolding take_fetch
take_fetch-last [] f = refl
take_fetch-last (g ∷ fs) f = rw (take_fetch-last fs f)

-- The fetch at an index is answered, and what follows settles.
answers :
    (k n : ℕ) (s : Session) (f : Fetch) (gs : List Fetch)
    → take_fetch n s.fetches ≡ some (f, gs)
    → ((a : Answer) → Settles k (fetched f a (record s { fetches = gs })))
    → Settles (suc k) s
unfolding Settles handle answer_fetch
answers k n s f gs e h = inr (n, λ a. subst (λ o. Settles k (answer_fetch o a s)) (sym e) (h a))

secret_fetched-idle :
    (kind : SecretKind) (jump : Credentials) (a : Answer) (s : Session)
    → (secret_fetched kind (then_start false jump) a s).secret_fetch_pending ≡ false
unfolding secret_fetched go_on fetched_all start_worker worker_failed
secret_fetched-idle kind jump (secret text) s = ground arith
secret_fetched-idle kind jump (refusal text) s = ground arith

start-Settles :
    (n : ℕ) (s : Session) (kind : SecretKind) (jump : Credentials) (gs : List Fetch)
    → take_fetch n s.fetches ≡ some (of_secret kind (then_start false jump), gs)
    → IsConsistent s
    → Settles 1 s
unfolding fetched
start-Settles n s kind jump gs e g =
    answers 0 n s (of_secret kind (then_start false jump)) gs e (λ a.
      idle-Settles 0 (secret_fetched kind (then_start false jump) a (record s { fetches = gs }))
        (secret_fetched-idle kind jump a (record s { fetches = gs }))
        (fetched-IsConsistent (of_secret kind (then_start false jump)) a (record s { fetches = gs })
          (ground arith)))

fetched_all-idle :
    (jump own : Credentials) (s : Session)
    → (fetched_all false jump own s).secret_fetch_pending ≡ false
unfolding fetched_all start_worker
fetched_all-idle jump own s = ground arith

fetch_own-Settles :
    (jump : Credentials) (s : Session)
    → s.secret_fetch_pending ≡ true
    → IsConsistent s
    → Settles 1 (fetch_own false jump s)
unfolding fetch_own fetch_then
fetch_own-Settles jump s p g =
    let f : Fetch = of_secret s.auth.kind (then_start false jump) in
    let t : Session = record s { fetches = s.fetches ++ f ∷ [] } in
    if_intro (Settles 1) s.auth.vault t (fetched_all false jump (own_credentials s.auth) s)
      (λ _.
        start-Settles (length s.fetches) t s.auth.kind jump s.fetches (take_fetch-last s.fetches f)
          (ground arith))
      (λ _.
        idle-Settles 1 (fetched_all false jump (own_credentials s.auth) s)
          (fetched_all-idle jump (own_credentials s.auth) s)
          (fetched_own-IsConsistent (own_credentials s.auth) jump s p g))

auth_fetched-Settles :
    (kind : SecretKind) (a : Answer) (s : Session)
    → s.secret_fetch_pending ≡ true
    → IsConsistent s
    → Settles 1 (secret_fetched kind (then_auth false) a s)
unfolding fetched secret_fetched go_on worker_failed
auth_fetched-Settles kind (secret text) s p g =
    if_intro (Settles 1) s.secret_fetch_pending (fetch_own false (secret_credentials kind text) s) s
      (λ _. fetch_own-Settles (secret_credentials kind text) s p g) (λ e. idle-Settles 1 s e g)
auth_fetched-Settles kind (refusal text) s p g =
    let t = secret_fetched kind (then_auth false) (refusal text) s in
    idle-Settles 1 t (ground arith)
      (fetched-IsConsistent (of_secret kind (then_auth false)) (refusal text) s g)

auth-Settles :
    (n : ℕ) (s : Session) (kind : SecretKind) (gs : List Fetch)
    → take_fetch n s.fetches ≡ some (of_secret kind (then_auth false), gs)
    → s.secret_fetch_pending ≡ true
    → IsConsistent s
    → Settles 2 s
unfolding fetched
auth-Settles n s kind gs e p g =
    answers 1 n s (of_secret kind (then_auth false)) gs e
      (λ a. auth_fetched-Settles kind a (record s { fetches = gs }) p (ground arith))

fetch_both-Settles :
    (s : Session) → s.secret_fetch_pending ≡ true → IsConsistent s → Settles 2 (fetch_both false s)
unfolding fetch_both fetch_then
fetch_both-Settles s p g =
    let source : AuthSource = if s.has_jump then s.jump_auth else no_auth in
    let f : Fetch = of_secret source.kind (then_auth false) in
    let t : Session = record s { fetches = s.fetches ++ f ∷ [] } in
    if_intro (Settles 2) source.vault t (fetch_own false (own_credentials source) s)
      (λ _.
        auth-Settles (length s.fetches) t source.kind s.fetches (take_fetch-last s.fetches f) p
          (ground arith))
      (λ _.
        later 1 (fetch_own false (own_credentials source) s)
          (fetch_own-Settles (own_credentials source) s p g))

start_login-Settles :
    (s : Session)
    → s.state ≡ disconnected
    → s.journal ≡ false
    → IsConsistent s
    → Settles 2 (start_connection s)
unfolding start_connection can_resume
start_login-Settles s d j g =
    let t : Session = record s {
      error_string = [];
      secret_fetch_pending = true;
      state = connecting;
    } in
    let e : start_connection s ≡ fetch_both false t = ground arith in
    subst (Settles 2) (sym e) (fetch_both-Settles t refl (ground arith))

resume_key_missing-Settles :
    (s : Session)
    → s.secret_fetch_pending ≡ true
    → IsConsistent s
    → Settles 2 (resume_key_missing s)
unfolding resume_key_missing
resume_key_missing-Settles s p g =
    start_login-Settles
      (record s { secret_fetch_pending = false; journal = false; state = disconnected }) refl refl
      (ground arith)

empty_key :
    (key : Text) (s : Session)
    → s.secret_fetch_pending ≡ true
    → is_empty key ≡ true
    → IsConsistent s
    → Settles 2 (resume_key_fetched (secret key) s)
unfolding resume_key_fetched
empty_key key s p e g =
    let e' : resume_key_fetched (secret key) s ≡ resume_key_missing s = ground arith in
    subst (Settles 2) (sym e') (resume_key_missing-Settles s p g)

resume_key_fetched-Settles :
    (a : Answer) (s : Session)
    → s.secret_fetch_pending ≡ true
    → IsConsistent s
    → Settles 2 (resume_key_fetched a s)
unfolding fetched resume_key_fetched start_worker
resume_key_fetched-Settles (refusal text) s p g =
    let e : resume_key_fetched (refusal text) s ≡ resume_key_missing s = ground arith in
    subst (Settles 2) (sym e) (resume_key_missing-Settles s p g)
resume_key_fetched-Settles (secret key) s p g = elim (Bool-cases (is_empty key)) [
  | inl e ↦ empty_key key s p e g
  | inr e ↦
      idle-Settles 2 (resume_key_fetched (secret key) s) (ground arith)
        (fetched-IsConsistent of_resume_key (secret key) s g)
]

-- A fetch of the connection's own, and where it is.
OwnAt : List Fetch → Type 0
OwnAt fs =
    (n : ℕ) × (f : Fetch) × (gs : List Fetch) × (take_fetch n fs ≡ some (f, gs)) × (is_own f ≡ true)

later_own : (f : Fetch) (fs : List Fetch) → OwnAt fs → OwnAt (f ∷ fs)
unfolding OwnAt take_fetch
later_own f fs (n, g, gs, e, o) = (suc n, g, f ∷ gs, rw e, o)

own_at : (fs : List Fetch) → has_own fs ≡ true → OwnAt fs
unfolding has_own take_fetch OwnAt
own_at [] h = ground arith
own_at (f ∷ fs) h = elim (Bool-cases (is_own f)) [
  | inl e ↦ (zero, f, fs, refl, e)
  | inr e ↦ later_own f fs (own_at fs (ground arith))
]

own-Settles :
    (n : ℕ) (s : Session) (f : Fetch) (gs : List Fetch)
    → take_fetch n s.fetches ≡ some (f, gs)
    → is_own f ≡ true
    → s.secret_fetch_pending ≡ true
    → IsConsistent s
    → Settles 3 s
unfolding fetched
own-Settles n s of_resume_key gs e o p g =
    answers 2 n s of_resume_key gs e
      (λ a. resume_key_fetched-Settles a (record s { fetches = gs }) p (ground arith))
own-Settles n s (of_secret kind (then_auth false)) gs e o p g =
    later 2 s (auth-Settles n s kind gs e p g)
own-Settles n s (of_secret kind (then_start false jump)) gs e o p g =
    later 2 s (later 1 s (start-Settles n s kind jump gs e g))
own-Settles n s (of_secret kind (then_auth true)) gs e o p g = cc
own-Settles n s (of_secret kind (then_start true jump)) gs e o p g = cc

-- In every run of the session, at most three answers of the vault, whatever they are, lead to a worker
-- at work or to Disconnected: a session never waits for an answer that does not come any more.
pub Reachable-Settles : {s : Session} → Reachable s → Settles 3 s
unfolding OwnAt
Reachable-Settles {s} r = elim (Bool-cases s.secret_fetch_pending) [
  | inr e ↦ idle-Settles 3 s e (Reachable-IsConsistent r)
  | inl e ↦
      let (n, f, gs, h, o) = own_at s.fetches (Reachable-IsAwaited r e) in
      own-Settles n s f gs h o e (Reachable-IsConsistent r)
]
