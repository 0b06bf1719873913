-- ===== src/Mosh/Sender/History.antt =====
-- What `calculateTimers` forgets of the events is what the server has.
use longterm.Base.{
  ltb→le, inr, inl, ◌⊎◌, ℕ, ◌+◌, ◌≤◌, ◌≡◌, refl, ap, ◌∙◌, List, [], ◌∷◌, ◌++◌, arith, ltb, length,
  if_intro, length-append, append_assoc,
}
use longterm.Mosh.Client.{UserEvent, Sender, max_of}
use longterm.Mosh.Journal.{first}
use longterm.Mosh.Sender.{pop_events, forget_events}

-- All events since the start are those that were forgotten, `old`, and those that are kept.
abbrev pub history : List UserEvent → Sender → List UserEvent
history old s = old ++ s.events

-- What `calculateTimers` forgets: the first of the events, as many as the limit is above the base,
-- and no others.
pop_events-history :
    (limit base : ℕ) (es : List UserEvent)
    → (gone : List UserEvent) × (gone ++ (pop_events limit base es).1 ≡ es)
      × (base + length gone ≡ (pop_events limit base es).0)
      × ((pop_events limit base es).0 ≤ max_of limit base)
      × (((pop_events limit base es).1 ≡ []) ⊎ (limit ≤ (pop_events limit base es).0))
unfolding pop_events
pop_events-history limit base [] = ([], refl, omega arith, ground arith, inl refl)
pop_events-history limit base (e ∷ es) =
    if_intro
      (λ (r : ℕ × List UserEvent).
        (gone : List UserEvent) × (gone ++ r.1 ≡ e ∷ es)
        × (base + length gone ≡ r.0)
        × (r.0 ≤ max_of limit base)
        × ((r.1 ≡ []) ⊎ (limit ≤ r.0)))
      (ltb base limit) _ _
      (λ l.
        let (gone, all, size, most, least) = pop_events-history limit (base + 1) es in
        (e ∷ gone, ap (◌∷◌ e) all, omega (arith, size), ground (arith, l, most), least))
      (λ l. ([], refl, omega arith, ground arith, inr (ltb→le base limit l)))

-- Forgetting events leaves the history of all events as it was, and the base counts those that were
-- forgotten. None goes that is not in the first of the sent states, and all go that are, as far as
-- they are kept.
pub forget_events-history :
    (old : List UserEvent) (s : Sender)
    → length old ≡ s.event_base
    → (gone : List UserEvent) × (history (old ++ gone) (forget_events s) ≡ history old s)
      × (length (old ++ gone) ≡ (forget_events s).event_base)
      × ((forget_events s).event_base ≤ max_of (first s.sent).events s.event_base)
      × (((forget_events s).events ≡ []) ⊎ ((first s.sent).events ≤ (forget_events s).event_base))
unfolding forget_events
forget_events-history old s e =
    let (gone, all, base, most, least) =
      pop_events-history (first s.sent).events s.event_base s.events in
    (
      gone,
      append_assoc old gone _ ∙ ap (◌++◌ old) all,
      omega (arith, length-append old gone, base),
      most,
      least,
    )
