-- ===== src/Mosh/Sender/Typed.antt =====
-- What `write` adds to the events: the keys, behind all that was typed, and in no event that went out.
use longterm.Mosh.Send.Keeps.{write_longer, write_grown}
use longterm.Mosh.Send.Valid.{IsValid}
use Prim.Native.Nat.{zero}
use longterm.Mosh.Journal.{journal_event, write_entry}
use longterm.Base.{
  false, if_intro, Bool, ◌∙◌, is_empty, ◌||◌, if◌then◌else◌, inr, append_assoc, suc, true,
  append-nil, sym, ◌-◌, length, ◌==◌, [], Bool-cases, ap, inl, ◌≤◌, ◌<◌, ◌++◌, take, ◌∷◌, ◌⊎◌, ℕ,
  refl, ◌≡◌, arith, List,
}
use longterm.Mosh.Sender.{
  Client, grows, write_entry, journal_event, last, last_event, of_keys, add_keys, Sender, UserEvent,
  Bytes, write,
}

-- What the user did, key by key and size by size, wherever the events were cut.
abbrev pub Input : Type 0
Input = ℕ ⊎ (ℕ × ℕ)

abbrev pub typed_keys : Bytes → List Input
typed_keys [] = []
typed_keys (key ∷ keys) = inl key ∷ typed_keys keys

pub input_of : List UserEvent → List Input
input_of [] = []
input_of (e ∷ es) =
    if e.columns == 0
    then typed_keys e.keys ++ input_of es
    else inr (e.columns, e.rows) ∷ input_of es

-- The events that the last of the sent states has.
pub sent_events : Sender → List UserEvent → List UserEvent
sent_events s es = take ((last s.sent).events - s.event_base) es

typed_keys-append : (a b : Bytes) → typed_keys (a ++ b) ≡ typed_keys a ++ typed_keys b
typed_keys-append [] b = refl
typed_keys-append (key ∷ a) b = ap (◌∷◌ (inl key)) (typed_keys-append a b)

input_of-append : (es fs : List UserEvent) → input_of (es ++ fs) ≡ input_of es ++ input_of fs
unfolding input_of
input_of-append [] fs = refl
input_of-append (e ∷ es) fs = elim (Bool-cases (e.columns == 0)) [
  | inl z ↦
      rw (z, input_of-append es fs)
        (sym (append_assoc (typed_keys e.keys) (input_of es) (input_of fs)))
  | inr z ↦ rw (z, input_of-append es fs) refl
]

input_of-keys : (keys : Bytes) → input_of (of_keys keys ∷ []) ≡ typed_keys keys
unfolding input_of
input_of-keys keys = append-nil (typed_keys keys)

input_of-add_keys :
    (keys : Bytes) (e : UserEvent) (es : List UserEvent)
    → ((last_event e es).columns == 0) ≡ true
    → input_of (add_keys keys (e ∷ es)) ≡ input_of (e ∷ es) ++ typed_keys keys
unfolding input_of add_keys last_event
input_of-add_keys keys e [] z = rw z (
    append-nil (typed_keys (e.keys ++ keys))
    ∙ typed_keys-append e.keys keys
    ∙ ap (λ l. l ++ typed_keys keys) (sym (append-nil (typed_keys e.keys))))
input_of-add_keys keys e (f ∷ es) z = elim (Bool-cases (e.columns == 0)) [
  | inl y ↦
      rw (y, input_of-add_keys keys f es z)
        (sym (append_assoc (typed_keys e.keys) (input_of (f ∷ es)) (typed_keys keys)))
  | inr y ↦ rw (y, input_of-add_keys keys f es z) refl
]

take-add_keys :
    (n : ℕ) (keys : Bytes) (es : List UserEvent)
    → n < length es
    → take n (add_keys keys es) ≡ take n es
unfolding add_keys
take-add_keys n keys [] h = refl
take-add_keys zero keys (e ∷ es) h = refl
take-add_keys (suc n) keys (e ∷ []) h = absurd (omega arith)
take-add_keys (suc n) keys (e ∷ (f ∷ es)) h =
    ap (◌∷◌ e) (take-add_keys n keys (f ∷ es) (omega arith))

take-snoc :
    (n : ℕ) (es : List UserEvent) (e : UserEvent)
    → n ≤ length es
    → take n (es ++ e ∷ []) ≡ take n es
take-snoc zero es e h = refl
take-snoc (suc n) [] e h = absurd (omega arith)
take-snoc (suc n) (f ∷ es) e h = ap (◌∷◌ f) (take-snoc n es e (omega arith))

-- What `write` must make of the events and of the rest of the sender.
pub record IsTyped (keys : Bytes) (before after : Sender) : Type 0 where
  pub valid : IsValid after
  pub input :
      input_of after.events
      ≡ input_of before.events ++ (if before.shutdown_in_progress then [] else typed_keys keys)
  pub sent : sent_events before after.events ≡ sent_events before before.events
  pub kept :
      (after.sent ≡ before.sent)
      × (after.event_base ≡ before.event_base)
      × (after.assumed ≡ before.assumed)

no_keys :
    (keys : Bytes) (stopping : Bool) (l : List Input)
    → stopping || is_empty keys ≡ true
    → l ≡ l ++ (if stopping then [] else typed_keys keys)
no_keys keys true l h = sym (append-nil l)
no_keys [] false l h = sym (append-nil l)
no_keys (key ∷ keys) false l h = cc

unchanged-IsTyped :
    (keys : Bytes) (s : Sender)
    → s.shutdown_in_progress || is_empty keys ≡ true
    → IsValid s
    → IsTyped keys s s
unchanged-IsTyped keys s h v = record {
  valid = v;
  input = no_keys keys s.shutdown_in_progress (input_of s.events) h;
  sent = refl;
  kept = (refl, refl, refl);
}

-- Events that may grow end in one of keys that did not go out yet.
grows-parts :
    (keys : Bytes) (s : Sender) (es : List UserEvent)
    → es ≡ s.events
    → grows s es ≡ true
    → (input_of (add_keys keys es) ≡ input_of es ++ typed_keys keys)
      × (sent_events s (add_keys keys es) ≡ sent_events s es)
unfolding grows sent_events
grows-parts keys s [] e g = cc
grows-parts keys s (f ∷ es) e g =
    let size : length (f ∷ es) ≡ length s.events = ap length e in
    (
      input_of-add_keys keys f es (ground arith),
      take-add_keys ((last s.sent).events - s.event_base) keys (f ∷ es) (ground (arith, size)),
    )

-- Typing puts the keys behind all that was typed before, whether they make a new event or are added
-- to the last one, changes no event that a sent state has, and keeps the sender valid. A session
-- that is being shut down takes no keys.
pub write-IsTyped :
    (keys : Bytes) (c : Client) → IsValid c.sender → IsTyped keys c.sender (write keys c).sender
unfolding write journal_event write_entry sent_events
write-IsTyped keys c v =
    if_intro (λ (d : Client). IsTyped keys c.sender d.sender)
      (c.shutdown_in_progress || is_empty keys) _ _ (λ h. unchanged-IsTyped keys c.sender h v)
      (λ h.
        if_intro (λ (d : Client). IsTyped keys c.sender d.sender) (grows c.sender c.events) _ _
          (λ g.
            let (input, sent) = grows-parts keys c.sender c.events refl g in
            let stop : c.shutdown_in_progress ≡ false = ground (arith, h) in
            record {
              valid = write_grown keys c.sender v;
              input = rw stop input;
              sent = sent;
              kept = (refl, refl, refl);
            })
          (λ g.
            let stop : c.shutdown_in_progress ≡ false = ground (arith, h) in
            record {
              valid = write_longer keys c.sender v;
              input = rw stop (
                  input_of-append c.events (of_keys keys ∷ [])
                  ∙ ap (λ l. input_of c.events ++ l) (input_of-keys keys));
              sent =
                  take-snoc ((last c.sent).events - c.event_base) c.events (of_keys keys)
                    (omega (arith, v.within));
              kept = (refl, refl, refl);
            }))
