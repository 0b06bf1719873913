-- ===== src/Session/Predict/Hidden.antt =====
-- What is typed where nothing is echoed, as at a password prompt, is never shown as a prediction.
use longterm.Base.{
  ◌||◌, length, ◌+◌, ◌∷◌, [], ◌++◌, [], ◌∷◌, ℕ, none, List, Bool, false, ◌≡◌, refl, arith,
}
use longterm.Session.Predict.{
  is_printable, next_place, came_out, Text, Prediction, mosh_echo, take_echoed, predict,
  show_predictions, show_list, clear_predictions, Predictor, Screen,
}

-- A guess of a text stands on the screen where it was expected.
unfoldable pub any_came_out : Screen → List Prediction → Bool
any_came_out screen [] = false
any_came_out screen (g ∷ gs) = came_out screen g || any_came_out screen gs

-- Keys, acknowledged input and the timer, with no guess on the screen as it is acknowledged.
pub data Unseen : Predictor → Predictor → Type 0 where
  types : {p : Predictor} (screen : Screen) (bytes : Text) → Unseen p (predict screen bytes p)
  echoes :
      {p : Predictor} (screen : Screen) (echoed round_trip : ℕ)
      → any_came_out screen p.predictions ≡ false
      → Unseen p (mosh_echo screen echoed round_trip p)
  expires : {p : Predictor} (screen : Screen) → Unseen p (show_predictions screen p)
  resets : {p : Predictor} → Unseen p (clear_predictions false p)

pub data Run (p : Predictor) : Predictor → Type 0 where
  begins : Run p p
  goes_on : {q r : Predictor} → Run p q → Unseen q r → Run p r

-- Nothing is trusted, so nothing is shown.
pub record IsHidden (p : Predictor) : Type 0 where
  pub doubt : p.trusted ≡ false
  pub hidden : p.shown ≡ none

clear_predictions-IsHidden : (p : Predictor) → IsHidden (clear_predictions false p)
unfolding clear_predictions
clear_predictions-IsHidden p = record { doubt = refl; hidden = refl }

show_list-IsHidden :
    (gs : List Prediction) (p : Predictor) → p.trusted ≡ false → IsHidden (show_list gs p)
unfolding show_list
show_list-IsHidden [] p d = ground arith
show_list-IsHidden (g ∷ gs) p d = ground arith

show_predictions-IsHidden :
    (screen : Screen) (p : Predictor) → p.trusted ≡ false → IsHidden (show_predictions screen p)
unfolding show_predictions
show_predictions-IsHidden screen p d =
    ground (arith, show_list-IsHidden p.predictions p d, clear_predictions-IsHidden p)

predict-IsHidden :
    (screen : Screen) (bytes : Text) (p : Predictor)
    → IsHidden p
    → IsHidden (predict screen bytes p)
unfolding predict
predict-IsHidden screen bytes p h =
    let place = next_place screen p.predictions in
    let end = p.typed_bytes + length bytes in
    let g : Prediction = record {
      text = screen.from_utf8 bytes;
      row = place.0;
      column = place.1;
      end_bytes = end;
    } in
    let typed : Predictor = record p { typed_bytes = end } in
    ground (
      arith,
      h.doubt,
      clear_predictions-IsHidden typed,
      show_predictions-IsHidden (record screen { has_expired = false })
          (record typed { predictions = p.predictions ++ g ∷ [] }),
    )

take_echoed-IsHidden :
    (screen : Screen) (echoed : ℕ) (gs : List Prediction) (p : Predictor)
    → any_came_out screen gs ≡ false
    → p.trusted ≡ false
    → IsHidden (take_echoed screen echoed gs p)
unfolding take_echoed any_came_out
take_echoed-IsHidden screen echoed [] p u d =
    show_predictions-IsHidden screen (record p { predictions = [] }) d
take_echoed-IsHidden screen echoed (g ∷ gs) p u d = ground (
  arith,
  show_predictions-IsHidden screen (record p { predictions = g ∷ gs }) d,
  clear_predictions-IsHidden p,
)

Unseen-IsHidden : {p q : Predictor} → Unseen p q → IsHidden p → IsHidden q
unfolding mosh_echo
Unseen-IsHidden {p} (types screen bytes) h = predict-IsHidden screen bytes p h
Unseen-IsHidden {p} (echoes screen echoed round_trip u) h =
    take_echoed-IsHidden screen echoed p.predictions (record p { round_trip = round_trip }) u
      h.doubt
Unseen-IsHidden {p} (expires screen) h = show_predictions-IsHidden screen p h.doubt
Unseen-IsHidden {p} resets h = clear_predictions-IsHidden p

Run-IsHidden : {p q : Predictor} → IsHidden p → Run p q → IsHidden q
Run-IsHidden h begins = h
Run-IsHidden h (goes_on r u) = Unseen-IsHidden u (Run-IsHidden h r)

-- A key that is not printable, such as Enter, takes the guesses down.
predict-clears :
    (screen : Screen) (bytes : Text) (p : Predictor)
    → is_printable bytes ≡ false
    → IsHidden (predict screen bytes p)
unfolding predict
predict-clears screen bytes p n =
    ground
      (arith, clear_predictions-IsHidden (record p { typed_bytes = p.typed_bytes + length bytes }))

-- After Enter or another key that is not printable, as long as no guess stands on the screen when the
-- server acknowledges it, as at a password prompt, nothing that is typed is shown ahead of the server,
-- whatever keys, echoes and timers come.
pub Run-hidden :
    {q : Predictor} (screen : Screen) (bytes : Text) (p : Predictor)
    → is_printable bytes ≡ false
    → Run (predict screen bytes p) q
    → q.shown ≡ none
Run-hidden screen bytes p n r = (Run-IsHidden (predict-clears screen bytes p n) r).hidden
