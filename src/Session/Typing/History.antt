-- ===== src/Session/Typing/History.antt =====
-- What the history of typed lines holds.
use Prim.Native.Nat.{zero}
use longterm.Session.Typing.{
  typed_line, Screen, clear_typed, track_typing, key, plain_key, after_csi, after_escape, enter,
  chop_letters, chop_spaces, chop_character, chop, chop_continuations, max_line, max_history,
  add_history, remove_line, Typing,
}
use longterm.Base.{
  length-append, ◌-◌, ◌&&◌, ◌||◌, length-drop, ◌≤◌, suc, [], length, not, drop, ◌++◌, ◌∷◌, ℕ, Bool,
  true, false, ◌≡◌, refl, arith, List,
}
use longterm.Base.Text.{same_left, same_refl, same_sym, same, Text}

unfoldable pub has_line : Text → List Text → Bool
has_line line [] = false
has_line line (l ∷ ls) = same l line || has_line line ls

unfoldable pub is_distinct : List Text → Bool
unfolding has_line
is_distinct [] = true
is_distinct (l ∷ ls) = not (has_line l ls) && is_distinct ls

-- At most 200 lines, no two the same, the line that is typed within its bound, and the parameters of
-- a sequence within theirs.
pub record IsTyping (t : Typing) : Type 0 where
  pub few : length t.history ≤ max_history
  pub distinct : is_distinct t.history ≡ true
  pub short : length t.typed ≤ max_line
  pub escapes : t.escape ≤ 3
  pub parameters : length t.parameters ≤ 16

pub has_line-remove_line :
    (line other : Text) (ls : List Text)
    → has_line other (remove_line line ls) ≡ has_line other ls && not (same line other)
unfolding has_line remove_line
has_line-remove_line line other [] = refl
has_line-remove_line line other (l ∷ ls) = ground (
  arith,
  has_line-remove_line line other ls,
  same_left l line other,
  same_left line other l,
  same_sym l line,
  same_sym l other,
)

pub has_line-snoc :
    (line other : Text) (ls : List Text)
    → has_line other (ls ++ line ∷ []) ≡ has_line other ls || same line other
unfolding has_line
has_line-snoc line other [] = ground arith
has_line-snoc line other (l ∷ ls) = ground (arith, has_line-snoc line other ls)

remove_line-distinct :
    (line : Text) (ls : List Text)
    → is_distinct ls ≡ true
    → is_distinct (remove_line line ls) ≡ true
unfolding is_distinct remove_line
remove_line-distinct line [] d = refl
remove_line-distinct line (l ∷ ls) d =
    ground (arith, remove_line-distinct line ls, has_line-remove_line line l ls)

snoc-distinct :
    (line : Text) (ls : List Text)
    → is_distinct ls ≡ true
    → has_line line ls ≡ false
    → is_distinct (ls ++ line ∷ []) ≡ true
unfolding is_distinct has_line
snoc-distinct line [] d h = refl
snoc-distinct line (l ∷ ls) d h =
    ground (arith, snoc-distinct line ls, has_line-snoc line l ls, same_sym l line)

drop-distinct : (n : ℕ) (ls : List Text) → is_distinct ls ≡ true → is_distinct (drop n ls) ≡ true
unfolding is_distinct
drop-distinct zero ls d = d
drop-distinct (suc n) [] d = refl
drop-distinct (suc n) (l ∷ ls) d = drop-distinct n ls (ground arith)

pub drop-has_line :
    (n : ℕ) (line : Text) (ls : List Text)
    → has_line line (drop n ls) ≡ true
    → has_line line ls ≡ true
unfolding has_line
drop-has_line zero line ls h = h
drop-has_line (suc n) line [] h = h
drop-has_line (suc n) line (l ∷ ls) h = ground (arith, drop-has_line n line ls h)

add_history-distinct :
    (line : Text) (ls : List Text)
    → is_distinct ls ≡ true
    → is_distinct (add_history line ls) ≡ true
unfolding add_history
add_history-distinct line ls d = drop-distinct _ (remove_line line ls ++ line ∷ []) (
    snoc-distinct line (remove_line line ls) (remove_line-distinct line ls d)
      (ground (arith, has_line-remove_line line line ls, same_refl line)))

length-add_history : (line : Text) (ls : List Text) → length (add_history line ls) ≤ max_history
unfolding add_history
length-add_history line ls = omega (
  arith,
  length-drop (length (remove_line line ls ++ line ∷ []) - max_history)
      (remove_line line ls ++ line ∷ []),
)

chop_continuations-length : (typed : Text) → length (chop_continuations typed) ≤ length typed
unfolding chop_continuations
chop_continuations-length [] = omega arith
chop_continuations-length (c ∷ typed) = ground (arith, chop_continuations-length typed)

chop-length : (typed : Text) → length (chop typed) ≤ length typed
chop-length [] = omega arith
chop-length (c ∷ typed) = omega arith

chop_character-length : (typed : Text) → length (chop_character typed) ≤ length typed
unfolding chop_character
chop_character-length typed =
    omega (arith, chop-length (chop_continuations typed), chop_continuations-length typed)

chop_spaces-length : (typed : Text) → length (chop_spaces typed) ≤ length typed
unfolding chop_spaces
chop_spaces-length [] = omega arith
chop_spaces-length (c ∷ typed) = ground (arith, chop_spaces-length typed)

chop_letters-length : (typed : Text) → length (chop_letters typed) ≤ length typed
unfolding chop_letters
chop_letters-length [] = omega arith
chop_letters-length (c ∷ typed) = ground (arith, chop_letters-length typed)

enter-IsTyping : (screen : Screen) (t : Typing) → IsTyping t → IsTyping (enter screen t)
unfolding enter clear_typed
enter-IsTyping screen t h = ground (
  arith,
  h.few,
  h.distinct,
  h.short,
  h.escapes,
  h.parameters,
  length-add_history (typed_line screen t) t.history,
  add_history-distinct (typed_line screen t) t.history,
)

after_escape-IsTyping : (c : ℕ) (t : Typing) → IsTyping t → IsTyping (after_escape c t)
unfolding after_escape
after_escape-IsTyping c t h = ground arith

after_csi-IsTyping : (c : ℕ) (t : Typing) → IsTyping t → IsTyping (after_csi c t)
unfolding after_csi
after_csi-IsTyping c t h = ground (arith, length-append t.parameters (c ∷ []))

plain_key-IsTyping :
    (screen : Screen) (c : ℕ) (t : Typing) → IsTyping t → IsTyping (plain_key screen c t)
unfolding plain_key clear_typed
plain_key-IsTyping screen c t h = ground (
  arith,
  enter-IsTyping screen t h,
  chop_character-length t.typed,
  chop_letters-length (chop_spaces t.typed),
  chop_spaces-length t.typed,
)

key-IsTyping : (screen : Screen) (c : ℕ) (t : Typing) → IsTyping t → IsTyping (key screen c t)
unfolding key
key-IsTyping screen c t h =
    ground (
      arith,
      after_escape-IsTyping c t h,
      after_csi-IsTyping c t h,
      plain_key-IsTyping screen c t h,
    )

-- Whatever bytes come, in whatever state of an escape sequence: the history stays within 200 lines, no
-- two the same, and the line that is typed within 4096 bytes.
pub track_typing-IsTyping :
    (screen : Screen) (bytes : Text) (t : Typing)
    → IsTyping t
    → IsTyping (track_typing screen bytes t)
unfolding track_typing
track_typing-IsTyping screen [] t h = h
track_typing-IsTyping screen (c ∷ bytes) t h =
    track_typing-IsTyping screen bytes (key screen c t) (key-IsTyping screen c t h)
