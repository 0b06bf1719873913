-- ===== src/Session/Typing.antt =====
-- src/sshsession.cpp: trackTyping, which keeps the lines that were typed.
pub mod History
pub mod Shown
use mathlib.Core.List.{reverse}
use longterm.Base.{
  ◌-◌, ℕ, ◌+◌, Bool, true, false, ◌||◌, ◌&&◌, not, Option, none, some, List, [], ◌∷◌, ◌++◌, ◌==◌,
  ltb, leb, if◌then◌else◌, is_empty, length, drop, take,
}
use longterm.Base.Text.{Text, same, trimmed}
use longterm.Session.Predict.{Screen}

-- The members for the line that is being typed, and `m_history`. The bytes of `typed` are the last
-- one first.
pub record Typing : Type 0 where
  pub typed : Text
  pub unknown : Bool
  pub escape : ℕ
  pub paste : Bool
  pub parameters : Text
  pub history : List Text

abbrev pub max_history : ℕ
max_history = 200

abbrev pub max_line : ℕ
max_line = 4096

unfoldable pub is_prefix : Text → Text → Bool
is_prefix [] s = true
is_prefix (c ∷ line) [] = false
is_prefix (c ∷ line) (d ∷ s) = c == d && is_prefix line s

-- QString::contains
unfoldable pub contains_line : Text → Text → Bool
contains_line [] line = is_empty line
contains_line (d ∷ s) line = is_prefix line (d ∷ s) || contains_line s line

unfoldable pub remove_line : Text → List Text → List Text
remove_line line [] = []
remove_line line (l ∷ ls) = if same l line then remove_line line ls else l ∷ remove_line line ls

-- Without its first lines, as many as are over 200.
unfoldable pub add_history : Text → List Text → List Text
add_history line history =
    let longer = remove_line line history ++ line ∷ [] in drop (length longer - max_history) longer

-- `QString::fromUtf8(m_typed).trimmed()`
unfoldable pub typed_line : Screen → Typing → Text
typed_line screen t = trimmed (screen.from_utf8 (reverse t.typed))

-- Only what the screen shows on the cursor's line, typed with echo on.
unfoldable pub is_shown : Screen → Text → Bool
is_shown screen line =
    not (is_empty line) && (not screen.alt_screen && contains_line (screen.text screen.row) line)

unfoldable pub clear_typed : Typing → Typing
clear_typed t = record t { typed = []; unknown = false }

unfoldable pub enter : Screen → Typing → Typing
enter screen t =
    let line = typed_line screen t in
    clear_typed (
      if not t.unknown && is_shown screen line
      then record t { history = add_history line t.history }
      else t)

-- `(c & 0xc0) == 0x80`
abbrev pub is_continuation : ℕ → Bool
is_continuation c = leb 0x80 c && leb c 0xbf

abbrev pub chop : Text → Text
chop [] = []
chop (c ∷ typed) = typed

unfoldable pub chop_continuations : Text → Text
chop_continuations [] = []
chop_continuations (c ∷ typed) = if is_continuation c then chop_continuations typed else c ∷ typed

-- One character, which in UTF-8 may be several bytes.
unfoldable pub chop_character : Text → Text
chop_character typed = chop (chop_continuations typed)

unfoldable pub chop_spaces : Text → Text
chop_spaces [] = []
chop_spaces (c ∷ typed) = if c == b' ' then chop_spaces typed else c ∷ typed

unfoldable pub chop_letters : Text → Text
chop_letters [] = []
chop_letters (c ∷ typed) = if c == b' ' then c ∷ typed else chop_letters typed

abbrev pub with_unknown : Typing → Typing
with_unknown t = record t { unknown = true }

unfoldable pub after_escape : ℕ → Typing → Typing
after_escape c t =
    if c == b'['
    then record t { escape = 2 }
    else if c == b'O'
    then record t { escape = 3 }
    else record t { escape = 0; unknown = true }

abbrev pub paste_starts : Text
paste_starts = b'2' ∷ b'0' ∷ b'0' ∷ []

abbrev pub paste_ends : Text
paste_ends = b'2' ∷ b'0' ∷ b'1' ∷ []

-- Bracketed paste marks the text between as typed in one go.
unfoldable pub after_csi : ℕ → Typing → Typing
after_csi c t =
    let done = record t { parameters = []; escape = 0 } in
    if leb 0x40 c && leb c 0x7e
    then (if c == b'~' && (same t.parameters paste_starts || same t.parameters paste_ends)
        then record done { paste = same t.parameters paste_starts }
        else record done { unknown = true })
    else if ltb (length t.parameters) 16
    then record t { parameters = t.parameters ++ c ∷ [] }
    else t

unfoldable pub plain_key : Screen → ℕ → Typing → Typing
plain_key screen c t =
    if c == 0x1b
    then record t { escape = 1 }
    else if c == 0x0d && not t.paste
    then enter screen t
    else if c == 0x7f || c == 0x08
    then record t { typed = chop_character t.typed }
    else if c == 0x15 || c == 0x03
    then clear_typed t
    else if c == 0x17
    then record t { typed = chop_letters (chop_spaces t.typed) }
    else if ltb c 0x20 && not (t.paste && (c == 0x0d || (c == 0x0a || c == 0x09)))
    then with_unknown t
    else if ltb (length t.typed) max_line
    then record t { typed = c ∷ t.typed }
    else t

unfoldable pub key : Screen → ℕ → Typing → Typing
key screen c t =
    if t.escape == 1
    then after_escape c t
    else if t.escape == 2
    then after_csi c t
    else if t.escape == 3
    then record t { escape = 0; unknown = true }
    else plain_key screen c t

unfoldable pub track_typing : Screen → Text → Typing → Typing
track_typing screen [] t = t
track_typing screen (c ∷ bytes) t = track_typing screen bytes (key screen c t)
