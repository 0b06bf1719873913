-- ===== src/Mosh/Receiver.antt =====
-- src/moshclient.cpp: `receiveInstruction`, `applyDiff`, `stepsTo`, `throwAwayUntil`, `takeOutput`.
pub mod Steps
pub mod Insert
pub mod Screen
pub mod ThrowAway
pub mod Received
use longterm.Base.{
  ℕ, zero, suc, ◌+◌, ◌-◌, Bool, true, false, ◌&&◌, ◌||◌, not, none, some, List, [], ◌∷◌, ◌++◌, ltb,
  leb, ◌==◌, if◌then◌else◌, length, is_empty,
}
use longterm.Base.Words.{Bytes}
use longterm.Base.Assoc.{find, insert, contains}
use longterm.Mosh.HostMessage.{Changes, read_host_message}
use longterm.Mosh.Instruction.{Instruction, protocol_version, read_instruction}
use longterm.Mosh.Client.{
  ReceivedState, Output, Mirror, screen_state, latest_state, Client, wrong_version, fail, no_parent,
  max_of,
}
use longterm.Mosh.Journal.{write_entry, rewrite_journal, first}
use longterm.Mosh.Link.{Env, Outside}
use longterm.Mosh.Ack.{process_acknowledgment}

abbrev pub max_received_states : ℕ
max_received_states = 64

abbrev pub max_received_bytes : ℕ
max_received_bytes = 262144

-- At most one step more than there are states: `steps.size() > m_states.size()` ends the loop.
unfoldable pub steps_loop :
    ℕ → List (ℕ × ReceivedState) → ℕ → List (Bytes × ℕ × ℕ) → List (Bytes × ℕ × ℕ)
steps_loop zero states at steps = []
steps_loop (suc rounds) states at steps = elim (find at states) [
  | none ↦ []
  | some s ↦
      let more = (s.diff, s.columns, s.rows) ∷ steps in
      let rest = steps_loop rounds states s.parent more in
      if s.parent == no_parent then more else rest
]

unfoldable pub steps_to : List (ℕ × ReceivedState) → ℕ → List (Bytes × ℕ × ℕ)
steps_to states num = steps_loop (suc (length states)) states num []

pub reset_mirror : Bytes → ℕ → ℕ → Mirror
reset_mirror screen columns rows = record {
  start_screen = screen;
  start_columns = columns;
  start_rows = rows;
  writes = [];
}

write_mirror : Changes → Mirror → Mirror
write_mirror ch m = record m { writes = m.writes ++ (ch.bytes, ch.columns, ch.rows) ∷ [] }

-- The new state, once the mirror was written to.
enter_state :
    Outside → Env → ReceivedState → ℕ → ℕ → Bytes → Changes → Mirror → Output → Client → Client
unfolding write_mirror
enter_state outside env base old_num new_num diff ch mirror output c =
    let written = write_mirror ch mirror in
    let s : ReceivedState = record {
      num = new_num;
      parent = old_num;
      diff = ch.bytes;
      columns = ch.columns;
      rows = ch.rows;
      scroll_index = base.scroll_index + outside.lines_scrolled written;
    } in
    let d = record c {
      receiver = record c.receiver {
        mirror = written;
        output = c.output ++ output ∷ [];
        states = insert new_num s c.states;
        latest = new_num;
        shown_scroll = max_of c.shown_scroll s.scroll_index;
        ack_num = new_num;
      };
      sender = record c.sender {
        last_heard = env.now;
        pending_data_ack = if is_empty diff then c.pending_data_ack else true;
      };
    } in
    write_entry (latest_state new_num) (write_entry (screen_state s) d)

-- The changes go to the screen that is shown, or to that of the state that they start from.
apply_changes : Outside → Env → ReceivedState → ℕ → ℕ → Bytes → Changes → Client → Client
apply_changes outside env base old_num new_num diff ch c =
    let skip_lines = c.shown_scroll - base.scroll_index in
    let steps = steps_to c.states old_num in
    let screen = outside.describe steps in
    let on_top =
      enter_state outside env base old_num new_num diff ch c.mirror
        (record { bytes = ch.bytes; replace = false; screen = []; skip_lines = skip_lines }) c in
    let replaced =
      enter_state outside env base old_num new_num diff ch
        (reset_mirror screen base.columns base.rows)
        (record { bytes = ch.bytes; replace = true; screen = screen; skip_lines = skip_lines }) c in
    if old_num == c.latest then on_top else if is_empty steps then c else replaced

-- What was echoed counts even where the message is not `ok`.
apply_message : Outside → Env → ReceivedState → ℕ → ℕ → Bytes → Client → Client
apply_message outside env base old_num new_num diff c =
    let (r, ch) =
      read_host_message diff
        (record { bytes = []; columns = base.columns; rows = base.rows; echo_ack = c.echo_ack }) in
    let d = record c { receiver = record c.receiver { echo_ack = ch.echo_ack } } in
    if r.ok then apply_changes outside env base old_num new_num diff ch d else d

pub apply_diff : Outside → Env → ℕ → ℕ → Bytes → Client → Client
apply_diff outside env old_num new_num diff c =
    if leb new_num c.latest || contains new_num c.states then c else elim (find old_num c.states) [
      | none ↦ c
      | some base ↦ apply_message outside env base old_num new_num diff c
    ]

abbrev pub total_bytes : List (ℕ × ReceivedState) → ℕ
total_bytes [] = 0
total_bytes ((n, s) ∷ m) = length s.diff + total_bytes m

-- Whether a state is reached from `num` or a whole screen, through states from `num` on only. The
-- rounds are those of a walk that meets no state twice.
through_kept : ℕ → List (ℕ × ReceivedState) → ℕ → ℕ → Bool
through_kept zero states num at = false
through_kept (suc rounds) states num at = elim (find at states) [
  | none ↦ false
  | some s ↦
      let rest = through_kept rounds states num s.parent in
      if ltb at num then false else if (s.parent == no_parent) || (at == num) then true else rest
]

is_kept : List (ℕ × ReceivedState) → ℕ → ReceivedState → Bool
is_kept states num s =
    ((s.parent == no_parent) || through_kept (suc (length states)) states num s.parent)
    && not (s.num == num)

-- A state reached by way of one that goes becomes a whole screen of its own.
keep_state :
    Outside
    → List (ℕ × ReceivedState)
    → ℕ
    → ReceivedState
    → List (ℕ × ReceivedState)
    → List (ℕ × ReceivedState)
keep_state outside states num s kept =
    let steps = steps_to states s.num in
    if is_kept states num s
    then insert s.num s kept
    else if is_empty steps
    then kept
    else insert s.num (record s { diff = outside.describe steps; parent = no_parent }) kept

keep_from :
    Outside
    → List (ℕ × ReceivedState)
    → ℕ
    → List (ℕ × ReceivedState)
    → List (ℕ × ReceivedState)
    → List (ℕ × ReceivedState)
keep_from outside states num [] kept = kept
keep_from outside states num ((n, s) ∷ m) kept =
    keep_from outside states num m
      (if ltb n num then kept else keep_state outside states num s kept)

pub throw_away_until : Outside → ℕ → Client → Client
throw_away_until outside num c =
    let kept = keep_from outside c.states num c.states [] in
    if not (contains num c.states)
      || (ltb (length c.states) max_received_states
          && ltb (total_bytes c.states) max_received_bytes)
    then c
    else rewrite_journal (record c { receiver = record c.receiver { states = kept } })

take_output : Client → List Output × Client
take_output c = (c.output, record c { receiver = record c.receiver { output = [] } })

handle_instruction : Outside → Env → Instruction → Client → Client
handle_instruction outside env i c =
    let b = process_acknowledgment i.ack_num c in
    let d = record b {
      link = record b.link { last_roundtrip_success = (first b.sent).timestamp };
    } in
    if not (i.version == protocol_version)
    then fail (wrong_version i.version) c
    else throw_away_until outside i.throwaway_num
        (apply_diff outside env i.old_num i.new_num i.diff d)

pub receive_instruction : Outside → Env → Bytes → Client → Client
receive_instruction outside env data' c = elim (read_instruction data') [
  | none ↦ c
  | some i ↦ handle_instruction outside env i c
]
