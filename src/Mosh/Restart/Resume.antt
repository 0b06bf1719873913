-- ===== src/Mosh/Restart/Resume.antt =====
-- src/moshclient.cpp: `start` and `resume`.
use longterm.Base.{
  ℕ, Bool, true, false, ◌||◌, not, Option, none, some, List, [], ◌∷◌, ◌++◌, ltb, ◌==◌,
  if◌then◌else◌, length, is_empty,
}
use longterm.Base.Words.{Bytes}
use longterm.Base.Assoc.{insert, find}
use longterm.Mosh.Client.{
  Client, SentState, ReceivedState, damaged_journal, invalid_address, Failure, fail, no_parent,
}
use longterm.Mosh.Journal.{rewrite_journal}
use longterm.Mosh.Link.{Env, Outside, new_socket}
use longterm.Mosh.Sender.{resize}
use longterm.Mosh.Receiver.{steps_to, reset_mirror}
use longterm.Mosh.Restart.Read.{read_journal}

-- What a start finds: whether the key is good and the journal can be opened, and its path's file.
pub record Launch : Type 0 where
  pub key_failure : Option Failure
  pub opens : Bool
  pub columns : ℕ
  pub rows : ℕ

-- What both leave behind where they succeed: a socket, and the size for the server.
unfoldable pub go_online : Env → Launch → Client → Bool × Client
go_online env l c =
    let online = new_socket env c in
    elim env.new_fd [ none ↦ (false, online) | some _ ↦ (true, resize l.columns l.rows online) ]

-- mosh-server's first screen, an empty one of 80x24.
abbrev pub first_screen : ReceivedState
first_screen = record {
  num = 0;
  parent = no_parent;
  diff = [];
  columns = 80;
  rows = 24;
  scroll_index = 0;
}

abbrev pub hear : Env → Client → Client
hear env c = record c {
  link = record c.link { last_roundtrip_success = env.now };
  sender = record c.sender {
    last_heard = env.now;
    next_ack_time = env.now;
    next_send_time = env.now;
  };
}

pub start : Env → Launch → Bytes → Client → Bool × Client
unfolding go_online
start env l remote c =
    let addressed = record c { link = record c.link { remote = remote } } in
    let first_state : SentState = record { num = 0; events = 0; timestamp = env.now } in
    let ready = hear env (record addressed {
      receiver = record addressed.receiver {
        states = insert 0 first_screen addressed.states;
        mirror = reset_mirror [] 80 24;
      };
      sender = record addressed.sender { sent = addressed.sent ++ first_state ∷ [] };
    }) in
    if ltb 128 (length remote) then (false, fail invalid_address c) else elim l.key_failure [
      | some failure ↦ (false, fail failure addressed)
      | none ↦ go_online env l ready
    ]

-- The states below the front go, and the front is put first where it is missing.
from_front : ℕ → ℕ → List SentState → List SentState
from_front num events [] = record { num = num; events = events; timestamp = 0 } ∷ []
from_front num events (s ∷ ss) =
    let later = from_front num events ss in
    if ltb s.num num
    then later
    else if s.num == num
    then s ∷ ss
    else record { num = num; events = events; timestamp = 0 } ∷ s ∷ ss

-- A client that goes on where the one of the journal ended. Any number below the reservations may
-- have gone out before.
unfoldable pub resumed : Outside → Env → Client → Client
unfolding from_front
resumed outside env c =
    let screen = outside.describe (steps_to c.states c.latest) in
    let s : ReceivedState = elim (find c.latest c.states) [ none ↦ first_screen | some s ↦ s ] in
    hear env (record c {
      link = record c.link { next_seq = c.seq_reserved };
      journal = record c.journal { state_floor = c.state_reserved };
      sender = record c.sender { sent = from_front c.journaled_front c.event_base c.sent };
      receiver = record c.receiver {
        ack_num = c.latest;
        output =
            c.output ++ record { bytes = []; replace = true; screen = screen; skip_lines = 0 } ∷ [];
        shown_scroll = s.scroll_index;
        mirror = reset_mirror screen s.columns s.rows;
      };
    })

-- `setJournal`: the file is truncated and written anew.
unfoldable pub set_journal : Bool → Client → Bool × Client
set_journal true c =
    (true, rewrite_journal (record c { journal = record c.journal { file = some [] } }))
set_journal false c = (false, record c { journal = record c.journal { file = none } })

unfoldable pub resume : Outside → Env → Launch → Option Bytes → Client → Bool × Client
unfolding resumed set_journal go_online
resume outside env l file c =
    let (ok, read) = read_journal file c in
    let (opened, journaled) = set_journal l.opens (resumed outside env read) in
    if not ok || is_empty (steps_to read.states read.latest)
    then (false, fail damaged_journal read)
    else elim l.key_failure [
      | some failure ↦ (false, fail failure read)
      | none ↦ if opened then go_online env l journaled else (false, journaled)
    ]
