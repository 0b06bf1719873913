-- ===== src/Session/Predict.antt =====
-- src/sshsession.cpp: predict, onMoshEcho, showPredictions and clearPredictions.
pub mod Hidden
use longterm.Base.{
  ℕ, ◌+◌, Bool, true, false, ◌||◌, ◌&&◌, not, Option, none, some, List, [], ◌∷◌, ◌++◌, ◌==◌, ltb,
  leb, if◌then◌else◌, is_empty, length, drop, take,
}
use longterm.Base.Text.{Text, same}

-- What the code asks of the terminal, of Qt's decoder and of its timer: `text(row)`, the cursor,
-- `columns()`, `altScreen()`, `fromUtf8` and `m_predictionAge.hasExpired`.
pub record Screen : Type 0 where
  pub text : ℕ → Text
  pub row : ℕ
  pub column : ℕ
  pub columns : ℕ
  pub alt_screen : Bool
  pub from_utf8 : Text → Text
  pub has_expired : Bool

pub record Prediction : Type 0 where
  pub text : Text
  pub row : ℕ
  pub column : ℕ
  pub end_bytes : ℕ

-- The members for predictions. `shown` is what `setPrediction` was given last, nothing for row -1.
pub record Predictor : Type 0 where
  pub predictions : List Prediction
  pub typed_bytes : ℕ
  pub trusted : Bool
  pub enabled : Bool
  pub round_trip : ℕ
  pub min_round_trip : ℕ
  pub shown : Option Prediction

abbrev pub max_predicted : ℕ
max_predicted = 200

unfoldable pub is_printable : Text → Bool
is_printable [] = true
is_printable (c ∷ data') = (leb 0x20 c && not (c == 0x7f)) && is_printable data'

unfoldable pub clear_predictions : Bool → Predictor → Predictor
clear_predictions trusted p = record p { predictions = []; trusted = trusted; shown = none }

unfoldable pub all_text : List Prediction → Text
all_text [] = []
all_text (g ∷ gs) = g.text ++ all_text gs

unfoldable pub show_list : List Prediction → Predictor → Predictor
show_list [] p = record p { shown = none }
show_list (g ∷ gs) p =
    if not p.trusted || ltb p.round_trip p.min_round_trip
    then record p { shown = none }
    else record p { shown = some (record g { text = all_text (g ∷ gs) }) }

unfoldable pub show_predictions : Screen → Predictor → Predictor
show_predictions screen p =
    if not (is_empty p.predictions) && screen.has_expired
    then clear_predictions false p
    else show_list p.predictions p

-- The row and the column behind the last prediction, or those of the cursor.
unfoldable pub next_place : Screen → List Prediction → ℕ × ℕ
next_place screen [] = (screen.row, screen.column)
next_place screen (g ∷ []) = (g.row, g.column + length g.text)
next_place screen (g ∷ (h ∷ gs)) = next_place screen (h ∷ gs)

unfoldable pub predict : Screen → Text → Predictor → Predictor
predict screen bytes p =
    let typed = record p { typed_bytes = p.typed_bytes + length bytes } in
    let text = screen.from_utf8 bytes in
    let place = next_place screen p.predictions in
    let g : Prediction = record {
      text = text;
      row = place.0;
      column = place.1;
      end_bytes = p.typed_bytes + length bytes;
    } in
    if not (is_printable bytes)
      || (not p.enabled
          || (screen.alt_screen
              || (leb screen.columns (place.1 + length text)
                  || leb max_predicted (length p.predictions))))
    then clear_predictions false typed
    else show_predictions (record screen { has_expired = false })
        (record typed { predictions = p.predictions ++ g ∷ [] })

-- `text(row).mid(column, text.size())` is the text that was guessed.
unfoldable pub came_out : Screen → Prediction → Bool
came_out screen g = same (take (length g.text) (drop g.column (screen.text g.row))) g.text

unfoldable pub take_echoed : Screen → ℕ → List Prediction → Predictor → Predictor
take_echoed screen echoed [] p = show_predictions screen (record p { predictions = [] })
take_echoed screen echoed (g ∷ gs) p =
    let rest = take_echoed screen echoed gs (record p { trusted = true }) in
    if leb g.end_bytes echoed
    then (if came_out screen g then rest else clear_predictions false p)
    else show_predictions screen (record p { predictions = g ∷ gs })

unfoldable pub mosh_echo : Screen → ℕ → ℕ → Predictor → Predictor
mosh_echo screen echoed round_trip p =
    take_echoed screen echoed p.predictions (record p { round_trip = round_trip })
