-- ===== src/Tests/Typed.antt =====
-- A command that is echoed, and a password that is not.
use longterm.Session.Predict.Hidden.{echoes, types, begins, goes_on, Run-hidden, any_came_out}
use longterm.Session.Typing.History.{track_typing-IsTyping, IsTyping, is_distinct, has_line}
use longterm.Session.Typing.Shown.{track_all-has_line, Stood, track_all}
use longterm.Session.Typing.{
  remove_line, add_history, is_prefix, contains_line, is_shown, typed_line, clear_typed, enter,
  plain_key, key, track_typing, Typing,
}
use longterm.Session.Predict.{
  take_echoed, show_list, show_predictions, clear_predictions, next_place, mosh_echo, predict,
  came_out, is_printable, Predictor, Screen,
}
use longterm.Base.{◌⊎◌, [], ◌∷◌, true, false, ◌≡◌, refl, arith, List, none}
use longterm.Base.Text.{is_space, skip_spaces, trimmed, same, Text}

-- A screen with "ls" on its line, and one with nothing on it.
abbrev echoing : Screen
echoing = record {
  text = λ row. b'l' ∷ b's' ∷ [];
  row = 3;
  column = 0;
  columns = 80;
  alt_screen = false;
  from_utf8 = λ bytes. bytes;
  has_expired = false;
}

abbrev silent : Screen
silent = record echoing { text = λ row. [] }

abbrev nothing_typed : Typing
nothing_typed = record {
  typed = [];
  unknown = false;
  escape = 0;
  paste = false;
  parameters = [];
  history = [];
}

-- "ls", Enter, then "pw", Enter, where nothing is echoed.
abbrev calls : List (Screen × Text)
calls = (echoing, b'l' ∷ b's' ∷ 13 ∷ []) ∷ (silent, b'p' ∷ b'w' ∷ 13 ∷ []) ∷ []

kept : (track_all calls nothing_typed).history ≡ (b'l' ∷ b's' ∷ []) ∷ []
unfolding track_all track_typing key plain_key enter clear_typed typed_line is_shown contains_line
    is_prefix add_history remove_line trimmed skip_spaces is_space
kept = refl

kept_ls : has_line (b'l' ∷ b's' ∷ []) (track_all calls nothing_typed).history ≡ true
unfolding has_line track_all track_typing key plain_key enter clear_typed typed_line is_shown
    contains_line is_prefix add_history remove_line trimmed skip_spaces is_space same
kept_ls = refl

track_all-has_line_example :
    (has_line (b'l' ∷ b's' ∷ []) nothing_typed.history ≡ true) ⊎ Stood (b'l' ∷ b's' ∷ []) calls
track_all-has_line_example = track_all-has_line calls (b'l' ∷ b's' ∷ []) nothing_typed kept_ls

nothing_typed-IsTyping : IsTyping nothing_typed
unfolding is_distinct
nothing_typed-IsTyping = ground arith

track_typing-IsTyping_example :
    IsTyping (track_typing echoing (b'l' ∷ b's' ∷ 13 ∷ []) nothing_typed)
track_typing-IsTyping_example =
    track_typing-IsTyping echoing (b'l' ∷ b's' ∷ 13 ∷ []) nothing_typed nothing_typed-IsTyping

abbrev predictor : Predictor
predictor = record {
  predictions = [];
  typed_bytes = 0;
  trusted = true;
  enabled = true;
  round_trip = 100;
  min_round_trip = 50;
  shown = none;
}

-- After Enter "p" is typed, and acknowledged without an echo.
abbrev asked : Predictor
asked = predict silent (13 ∷ []) predictor

abbrev keyed : Predictor
keyed = predict silent (b'p' ∷ []) asked

abbrev echoed : Predictor
echoed = mosh_echo silent 2 100 keyed

enter-is_printable : is_printable (13 ∷ []) ≡ false
unfolding is_printable
enter-is_printable = refl

nothing_came_out : any_came_out silent keyed.predictions ≡ false
unfolding any_came_out came_out predict is_printable next_place clear_predictions show_predictions
    show_list same
nothing_came_out = refl

Run-hidden_example : echoed.shown ≡ none
Run-hidden_example =
    Run-hidden silent (13 ∷ []) predictor enter-is_printable
      (goes_on (goes_on begins (types silent (b'p' ∷ []))) (echoes silent 2 100 nothing_came_out))

-- Where the guess came out, what is typed next is shown.
abbrev confirmed : Predictor
confirmed =
    predict echoing (b's' ∷ [])
      (mosh_echo echoing 1 100 (predict echoing (b'l' ∷ []) (record predictor { trusted = false })))

confirmed_shown : confirmed.trusted ≡ true
unfolding came_out predict is_printable next_place clear_predictions show_predictions show_list same
    mosh_echo take_echoed
confirmed_shown = refl
