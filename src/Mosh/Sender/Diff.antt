-- ===== src/Mosh/Sender/Diff.antt =====
-- src/moshclient.cpp, `userDiff`: what a server reads from a diff.
use longterm.Mosh.Proto.Field.{put_bytes-append, at}
use longterm.Mosh.Proto.{put_bytes, while_next, Reader}
use longterm.Mosh.Proto.Loop.{while_next_done}
use longterm.Base.{
  append_assoc, All, ◌++◌, true, ◌≤◌, ◌∙◌, append-nil, sym, ap, [], length, ℕ, ◌≡◌, arith, List,
  ◌∷◌, drop, zero, suc, ◌-◌,
}
use longterm.Mosh.Sender.History.{history}
use longterm.Mosh.Client.{max_of}
use longterm.Mosh.Sender.{Sender, UserEvent, Bytes, user_diff, event_bytes, put_events}
use longterm.Mosh.Sender.UserMessage.{IsInput, read_message, read_message-Forward, message_step}

-- The events of the messages, in their order.
pub read_events : Bytes → List UserEvent
read_events diff = (while_next read_message (at diff) []).1

put_events-append :
    (message : Bytes) (es : List UserEvent) → put_events message es ≡ message ++ put_events [] es
unfolding put_events
put_events-append message [] = sym (append-nil message)
put_events-append message (e ∷ es) =
    put_events-append (put_bytes message 1 (event_bytes e)) es
    ∙ ap (λ b. b ++ put_events [] es) (put_bytes-append message 1 (event_bytes e))
    ∙ append_assoc message _ _
    ∙ ap (◌++◌ message) (sym (put_events-append (put_bytes [] 1 (event_bytes e)) es))

events_read :
    (es done : List UserEvent)
    → All IsInput es
    → (while_next read_message (at (put_events [] es)) done).1 ≡ done ++ es
unfolding put_events
events_read [] done h =
    ap (λ (p : Reader × List UserEvent). p.1)
      (while_next_done read_message read_message-Forward true done)
    ∙ sym (append-nil done)
events_read (e ∷ es) done (h, all) =
    ap (λ b. (while_next read_message (at b) done).1)
      (put_events-append (put_bytes [] 1 (event_bytes e)) es)
    ∙ ap (λ (p : Reader × List UserEvent). p.1) (message_step e (put_events [] es) done h)
    ∙ events_read es (done ++ e ∷ []) all
    ∙ append_assoc done (e ∷ []) es

All-drop : (n : ℕ) (es : List UserEvent) → All IsInput es → All IsInput (drop n es)
All-drop zero es all = all
All-drop (suc n) [] all = tt
All-drop (suc n) (e ∷ es) (h, all) = All-drop n es all

drop-append_more :
    (n : ℕ) (xs ys : List UserEvent) → length xs ≤ n → drop n (xs ++ ys) ≡ drop (n - length xs) ys
drop-append_more n [] ys h = let e : n - 0 ≡ n = omega arith in rw e
drop-append_more zero (x ∷ xs) ys h = absurd (omega arith)
drop-append_more (suc n) (x ∷ xs) ys h =
    let e : suc n - suc (length xs) ≡ n - length xs = omega arith in
    rw e (drop-append_more n xs ys (omega arith))

-- What a server that reads a UserMessage finds in the diff from a state with some number of events:
-- every event behind these of all that were typed, forgotten ones included, in their order and each
-- as it was typed, or all the kept ones when the number is below the base. The kept events are
-- keys, less than 4 GiB, or sizes without keys, each number below 2^31.
pub read_events-user_diff :
    (old : List UserEvent) (s : Sender) (from : ℕ)
    → length old ≡ s.event_base
    → All IsInput s.events
    → read_events (user_diff from s) ≡ drop (max_of from s.event_base) (history old s)
unfolding user_diff read_events
read_events-user_diff old s from e all =
    let n = max_of from s.event_base in
    let least : length old ≤ n = ground arith in
    events_read (drop (n - s.event_base) s.events) [] (All-drop (n - s.event_base) s.events all)
    ∙ ap (λ base. drop (n - base) s.events) (sym e)
    ∙ sym (drop-append_more n old s.events least)
