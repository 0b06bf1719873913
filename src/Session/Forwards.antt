-- ===== src/Session/Forwards.antt =====
-- The forwards that importConfig takes from an OpenSSH configuration, as startWorker reads them.
use longterm.Hosts.Host.{pos}
use longterm.Session.Options.{port_in, before_last, unbracket, forward_between, read_forward}
use longterm.Hosts.Config.Arguments.{past, past_in, before}
use longterm.Hosts.Config.Fields.{
  is_port, after_last, Qt, forward_of, count_of, after_last_in, has_character,
}
use longterm.Base.{
  ltb, some, none, ◌≤◌, ◌+◌, ℕ, true, false, [], ◌∷◌, ◌++◌, is_empty, refl, arith, ◌≡◌,
}
use longterm.Base.Text.{Text}

-- What is behind the last mark has no mark, where the text that is kept has none but what follows.
after_last_in-has :
    (kept : Text) (c : ℕ) (s : Text)
    → (has_character c kept ≡ true → has_character c s ≡ true)
    → has_character c (after_last_in kept c s) ≡ false
after_last_in-has kept c [] h = ground arith
after_last_in-has kept c (d ∷ s) h =
    ground (arith, after_last_in-has kept c s, after_last_in-has s c s)

before-append : (c : ℕ) (s t : Text) → has_character c s ≡ false → before c (s ++ c ∷ t) ≡ s
unfolding before
before-append c [] t h = ground arith
before-append c (d ∷ s) t h = ground (arith, before-append c s t)

past_in-append :
    (all : Text) (c : ℕ) (s t : Text) → has_character c s ≡ false → past_in all c (s ++ c ∷ t) ≡ t
unfolding past_in
past_in-append all c [] t h = ground arith
past_in-append all c (d ∷ s) t h = ground (arith, past_in-append all c s t)

-- The last part does not depend on what stands before the last mark.
after_last_in-append :
    (kept : Text) (c : ℕ) (s t : Text) → after_last_in kept c (s ++ c ∷ t) ≡ after_last_in t c t
after_last_in-append kept c [] t = ground arith
after_last_in-append kept c (d ∷ s) t =
    ground (arith, after_last_in-append kept c s t, after_last_in-append (s ++ c ∷ t) c s t)

count-append : (c : ℕ) (s t : Text) → count_of c (s ++ c ∷ t) ≡ count_of c s + (count_of c t + 1)
count-append c [] t = ground arith
count-append c (d ∷ s) t = ground (arith, count-append c s t)

count-has : (c : ℕ) (s : Text) → has_character c s ≡ true → 1 ≤ count_of c s
count-has c [] h = ground arith
count-has c (d ∷ s) h = ground (arith, count-has c s)

forward_of-entry :
    (qt : Qt) (value target entry : Text)
    → forward_of qt (value ∷ target ∷ []) ≡ entry ∷ []
    → (entry ≡ after_last b':' value ++ b':' ∷ target)
      × (has_character b':' target ≡ true)
      × (is_port qt (after_last b':' value) ≡ true)
      × (is_port qt (after_last b':' target) ≡ true)
unfolding forward_of
forward_of-entry qt value target entry h = (ground arith, ground arith, ground arith, ground arith)

is_port-port_in :
    (qt : Qt) (text : Text) (n : ℕ)
    → is_port qt text ≡ true
    → qt.to_int text ≡ some (pos n)
    → port_in (qt.to_int text) ≡ some n
unfolding is_port port_in
is_port-port_in qt text n p e = ground arith

number-is_empty :
    (qt : Qt) (text : Text) (n : ℕ)
    → qt.to_int [] ≡ none
    → qt.to_int text ≡ some (pos n)
    → is_empty text ≡ false
number-is_empty qt [] n z e = ground arith
number-is_empty qt (c ∷ text) n z e = refl

-- The parts of an entry, as startWorker takes it apart.
entry-parts :
    (near target : Text)
    → has_character b':' near ≡ false
    → has_character b':' target ≡ true
    → (before b':' (near ++ b':' ∷ target) ≡ near)
      × (past b':' (near ++ b':' ∷ target) ≡ target)
      × (after_last b':' (near ++ b':' ∷ target) ≡ after_last b':' target)
      × (ltb (count_of b':' (near ++ b':' ∷ target)) 2 ≡ false)
entry-parts near target a h = (
  before-append b':' near target a,
  past_in-append (near ++ b':' ∷ target) b':' near target a,
  after_last_in-append (near ++ b':' ∷ target) b':' near target,
  ground (arith, count-append b':' near target, count-has b':' target h),
)

-- A forward that importConfig takes from a line of two arguments is the one that startWorker sets up,
-- with the two ports and the host between them, where toInt takes no number from an empty text and
-- the target names a host.
pub read_forward-forward_of :
    (qt : Qt) (value target entry : Text) (near far : ℕ)
    → forward_of qt (value ∷ target ∷ []) ≡ entry ∷ []
    → qt.to_int [] ≡ none
    → qt.to_int (after_last b':' value) ≡ some (pos near)
    → qt.to_int (after_last b':' target) ≡ some (pos far)
    → is_empty (unbracket (before_last b':' target)) ≡ false
    → read_forward qt entry
      ≡ some
          (record { near_port = near; host = unbracket (before_last b':' target); far_port = far })
unfolding read_forward forward_between
read_forward-forward_of qt value target entry near far h z n f e =
    let (eq', colon, p, q) = forward_of-entry qt value target entry h in
    let text = after_last b':' value in
    let (b, a, l, c) =
      entry-parts text target (after_last_in-has value b':' value (λ x. x)) colon in
    rw (
      eq',
      b,
      a,
      l,
      c,
      is_port-port_in qt text near p n,
      is_port-port_in qt (after_last b':' target) far q f,
      number-is_empty qt text near z n,
      e,
    )
