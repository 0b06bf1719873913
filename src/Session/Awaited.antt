-- ===== src/Session/Awaited.antt =====
-- A session that waits for the vault gets on with the vault's answers.
use mathlib.Core.Path.{subst}
use Prim.Native.Nat.{zero}
use longterm.Session.Worker.{
  secret_credentials, own_credentials, is_side, resume_key_missing, start_worker, fetched,
  resume_key_fetched, secret_fetched, go_on, start_side_worker, start_connection, fetch_both,
  fetch_own, fetch_then, fetched_all,
}
use longterm.Session.Run.{answer_fetch, take_fetch}
use longterm.Base.{
  sym, inl, Option-cases, inr, suc, [], not, ◌⊎◌, ◌||◌, ◌++◌, ◌∷◌, Bool, true, false, some, ◌≡◌,
  arith, refl, List, ℕ,
}
use longterm.Session.{
  refusal, then_start, disconnected, then_auth, connecting, secret, AuthSource, Answer, SecretKind,
  Continuation, of_resume_key, Credentials, of_secret, Fetch, Session,
}

abbrev pub is_own : Fetch → Bool
is_own of_resume_key = true
is_own (of_secret kind k) = not (is_side k)

-- A fetch of the connection itself, of the vault, was not answered yet.
unfoldable pub has_own : List Fetch → Bool
has_own [] = false
has_own (f ∷ fs) = is_own f || has_own fs

has_own-snoc : (fs : List Fetch) (f : Fetch) → has_own (fs ++ f ∷ []) ≡ is_own f || has_own fs
unfolding has_own
has_own-snoc [] f = refl
has_own-snoc (g ∷ fs) f = ground (arith, has_own-snoc fs f)

pub has_own-take_fetch :
    (n : ℕ) (fs gs : List Fetch) (f : Fetch)
    → take_fetch n fs ≡ some (f, gs)
    → has_own fs ≡ is_own f || has_own gs
unfolding has_own take_fetch
has_own-take_fetch n [] gs f h = ground arith
has_own-take_fetch zero (g ∷ fs) gs f h = ground arith
has_own-take_fetch (suc n) (g ∷ fs) gs f h = elim (Option-cases (take_fetch n fs)) [
  | inl e ↦ ground arith
  | inr ((f', gs'), e) ↦ ground (arith, has_own-take_fetch n fs gs' f' e)
]

abbrev pub IsAwaited : Session → Type 0
IsAwaited s = s.secret_fetch_pending ≡ true → has_own s.fetches ≡ true

fetched_own-IsAwaited :
    (own jump : Credentials) (s : Session) → IsAwaited (fetched_all false jump own s)
unfolding fetched_all start_worker
fetched_own-IsAwaited own jump s = ground arith

fetched_side-IsAwaited :
    (own jump : Credentials) (s : Session) → IsAwaited s → IsAwaited (fetched_all true jump own s)
unfolding fetched_all start_worker
fetched_side-IsAwaited own jump s g = ground arith

fetch_then_own-IsAwaited :
    (done : Credentials → Session → Session) (k : Continuation) (source : AuthSource) (s : Session)
    → ((c : Credentials) → IsAwaited (done c s))
    → is_side k ≡ false
    → IsAwaited (fetch_then done k source s)
unfolding fetch_then
fetch_then_own-IsAwaited done k source s f o =
    ground (arith, f (own_credentials source), has_own-snoc s.fetches (of_secret source.kind k))

fetch_then_side-IsAwaited :
    (done : Credentials → Session → Session) (k : Continuation) (source : AuthSource) (s : Session)
    → ((c : Credentials) → IsAwaited (done c s))
    → IsAwaited s
    → IsAwaited (fetch_then done k source s)
unfolding fetch_then
fetch_then_side-IsAwaited done k source s f g =
    ground (arith, f (own_credentials source), has_own-snoc s.fetches (of_secret source.kind k))

pub fetch_own-IsAwaited :
    (side : Bool) (jump : Credentials) (s : Session)
    → side ≡ false ⊎ IsAwaited s
    → IsAwaited (fetch_own side jump s)
unfolding fetch_own
fetch_own-IsAwaited false jump s g =
    fetch_then_own-IsAwaited _ _ _ s (λ c. fetched_own-IsAwaited c jump s) refl
fetch_own-IsAwaited true jump s (inr g) =
    fetch_then_side-IsAwaited _ _ _ s (λ c. fetched_side-IsAwaited c jump s g) g
fetch_own-IsAwaited true jump s (inl e) = cc

pub fetch_both-IsAwaited :
    (side : Bool) (s : Session) → side ≡ false ⊎ IsAwaited s → IsAwaited (fetch_both side s)
unfolding fetch_both
fetch_both-IsAwaited false s g =
    fetch_then_own-IsAwaited _ _ _ s (λ c. fetch_own-IsAwaited false c s g) refl
fetch_both-IsAwaited true s (inr g) =
    fetch_then_side-IsAwaited _ _ _ s (λ c. fetch_own-IsAwaited true c s (inr g)) g
fetch_both-IsAwaited true s (inl e) = cc

pub start_connection-IsAwaited : (s : Session) → IsAwaited s → IsAwaited (start_connection s)
unfolding start_connection
start_connection-IsAwaited s g = ground (
  arith,
  has_own-snoc s.fetches of_resume_key,
  fetch_both-IsAwaited false
      (record s { error_string = []; secret_fetch_pending = true; state = connecting }) (inl refl),
)

pub start_side_worker-IsAwaited : (s : Session) → IsAwaited s → IsAwaited (start_side_worker s)
unfolding start_side_worker
start_side_worker-IsAwaited s g =
    ground (arith, fetch_both-IsAwaited true (record s { side_fetch_pending = true }))

go_on-IsAwaited :
    (k : Continuation) (c : Credentials) (s : Session)
    → is_side k ≡ false ⊎ IsAwaited s
    → IsAwaited (go_on k c s)
unfolding go_on
go_on-IsAwaited (then_auth side) c s g = fetch_own-IsAwaited side c s g
go_on-IsAwaited (then_start false jump) c s g = fetched_own-IsAwaited c jump s
go_on-IsAwaited (then_start true jump) c s (inr g) = fetched_side-IsAwaited c jump s g
go_on-IsAwaited (then_start true jump) c s (inl e) = cc

secret_fetched-IsAwaited :
    (kind : SecretKind) (k : Continuation) (a : Answer) (s : Session)
    → is_side k ≡ false ⊎ IsAwaited s
    → IsAwaited (secret_fetched kind k a s)
unfolding secret_fetched
secret_fetched-IsAwaited kind k (secret text) s g =
    ground (arith, go_on-IsAwaited k (secret_credentials kind text) s g)
secret_fetched-IsAwaited kind k (refusal text) s g = ground arith

resume_key_fetched-IsAwaited : (a : Answer) (s : Session) → IsAwaited (resume_key_fetched a s)
unfolding resume_key_fetched resume_key_missing start_worker
resume_key_fetched-IsAwaited (secret key) s = ground (
  arith,
  start_connection-IsAwaited
      (record s { secret_fetch_pending = false; journal = false; state = disconnected }),
)
resume_key_fetched-IsAwaited (refusal text) s = ground (
  arith,
  start_connection-IsAwaited
      (record s { secret_fetch_pending = false; journal = false; state = disconnected }),
)

-- The fetches that are left hold one of the connection's own, unless that is the one that is answered.
pub fetched-IsAwaited :
    (f : Fetch) (a : Answer) (s : Session)
    → is_own f ≡ true ⊎ IsAwaited s
    → IsAwaited (fetched f a s)
unfolding fetched
fetched-IsAwaited of_resume_key a s g = resume_key_fetched-IsAwaited a s
fetched-IsAwaited (of_secret kind k) a s g = secret_fetched-IsAwaited kind k a s (ground arith)

pub answer_fetch-IsAwaited :
    (n : ℕ) (a : Answer) (s : Session)
    → IsAwaited s
    → IsAwaited (answer_fetch (take_fetch n s.fetches) a s)
unfolding answer_fetch
answer_fetch-IsAwaited n a s g = elim (Option-cases (take_fetch n s.fetches)) [
  | inl e ↦ subst (λ o. IsAwaited (answer_fetch o a s)) (sym e) g
  | inr ((f, gs), e) ↦
      subst (λ o. IsAwaited (answer_fetch o a s)) (sym e)
        (fetched-IsAwaited f a (record s { fetches = gs })
          (ground (arith, has_own-take_fetch n s.fetches gs f e)))
]
