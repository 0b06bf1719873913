-- ===== src/Session/Typing/Shown.antt =====
-- Only lines that stood on the screen get into the history.
use longterm.Session.Typing.History.{has_line-remove_line, has_line-snoc, drop-has_line, has_line}
use longterm.Session.Typing.{
  contains_line, is_prefix, max_history, remove_line, typed_line, is_shown, plain_key, after_csi,
  after_escape, clear_typed, Typing, track_typing, key, enter, add_history,
}
use longterm.Session.Predict.{Screen}
use longterm.Base.{
  refl, ap, inr, inl, Bool-cases, ◌⊎◌, is_empty, ◌-◌, ◌++◌, length, [], ◌∷◌, ◌||◌, ℕ, true, false,
  ◌≡◌, arith, List,
}
use longterm.Base.Text.{same→eq, same, Text}

-- Each call of `trackTyping`, with the screen of that moment.
unfoldable pub track_all : List (Screen × Text) → Typing → Typing
track_all [] t = t
track_all ((screen, bytes) ∷ calls) t = track_all calls (track_typing screen bytes t)

-- The line is a part of what stands where the cursor is, on the normal screen, and not empty.
pub record StandsOn (screen : Screen) (line : Text) : Type 0 where
  pub normal : screen.alt_screen ≡ false
  pub filled : is_empty line ≡ false
  pub within : (before after : Text) × (screen.text screen.row ≡ before ++ line ++ after)

-- So it was on the screen of one of the calls.
pub Stood : Text → List (Screen × Text) → Type 0
Stood line [] = ⊥
Stood line ((screen, bytes) ∷ calls) = StandsOn screen line ⊎ Stood line calls

is_prefix-append : (line s : Text) → is_prefix line s ≡ true → (after : Text) × (s ≡ line ++ after)
unfolding is_prefix
is_prefix-append [] s h = (s, refl)
is_prefix-append (c ∷ line) [] h = cc
is_prefix-append (c ∷ line) (d ∷ s) h =
    let (after, e) = is_prefix-append line s (ground arith) in
    let same_first : d ≡ c = ground arith in (after, rw (same_first, e))

contains_line-append :
    (s line : Text)
    → contains_line s line ≡ true
    → (before after : Text) × (s ≡ before ++ line ++ after)
unfolding contains_line
contains_line-append [] [] h = ([], [], refl)
contains_line-append [] (c ∷ line) h = cc
contains_line-append (d ∷ s) line h = elim (Bool-cases (is_prefix line (d ∷ s))) [
  | inl e ↦ let (after, p) = is_prefix-append line (d ∷ s) e in ([], after, p)
  | inr e ↦
      let (before, after, p) = contains_line-append s line (ground (arith, h, e)) in
      (d ∷ before, after, ap (◌∷◌ d) p)
]

is_shown-StandsOn :
    (screen : Screen) (line : Text) → is_shown screen line ≡ true → StandsOn screen line
unfolding is_shown
is_shown-StandsOn screen line h = record {
  normal = ground arith;
  filled = ground arith;
  within = contains_line-append (screen.text screen.row) line (ground arith);
}

add_history-has_line :
    (line other : Text) (ls : List Text)
    → has_line other (add_history line ls) ≡ true
    → has_line other ls || same line other ≡ true
unfolding add_history
add_history-has_line line other ls h = ground (
  arith,
  drop-has_line (length (remove_line line ls ++ line ∷ []) - max_history) other
      (remove_line line ls ++ line ∷ []) h,
  has_line-snoc line other (remove_line line ls),
  has_line-remove_line line other ls,
)

enter-has_line :
    (screen : Screen) (line : Text) (t : Typing)
    → has_line line (enter screen t).history ≡ true
    → has_line line t.history || is_shown screen line ≡ true
unfolding enter clear_typed
enter-has_line screen line t h = ground (
  arith,
  add_history-has_line (typed_line screen t) line t.history,
  same→eq (typed_line screen t) line,
)

key-has_line :
    (screen : Screen) (c : ℕ) (line : Text) (t : Typing)
    → has_line line (key screen c t).history ≡ true
    → has_line line t.history || is_shown screen line ≡ true
unfolding key after_escape after_csi plain_key clear_typed
key-has_line screen c line t h = ground (arith, enter-has_line screen line t)

track_typing-has_line :
    (screen : Screen) (bytes line : Text) (t : Typing)
    → has_line line (track_typing screen bytes t).history ≡ true
    → has_line line t.history || is_shown screen line ≡ true
unfolding track_typing
track_typing-has_line screen [] line t h = ground arith
track_typing-has_line screen (c ∷ bytes) line t h = ground (
  arith,
  track_typing-has_line screen bytes line (key screen c t) h,
  key-has_line screen c line t,
)

-- A line of the history was there before, or at one of the calls it stood on the line of the
-- cursor, as a part of it that is not empty, on the normal screen.
pub track_all-has_line :
    (calls : List (Screen × Text)) (line : Text) (t : Typing)
    → has_line line (track_all calls t).history ≡ true
    → (has_line line t.history ≡ true) ⊎ Stood line calls
unfolding track_all Stood
track_all-has_line [] line t h = inl h
track_all-has_line ((screen, bytes) ∷ calls) line t h =
    elim (track_all-has_line calls line (track_typing screen bytes t) h) [
      | inr later ↦ inr (inr later)
      | inl now ↦ elim (Bool-cases (has_line line t.history)) [
        | inl e ↦ inl e
        | inr e ↦
            let shown : is_shown screen line ≡ true =
              ground (arith, e, track_typing-has_line screen bytes line t now) in
            inr (inl (is_shown-StandsOn screen line shown))
      ]
    ]
