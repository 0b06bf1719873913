-- ===== src/Mosh/Receiver/Screen.antt =====
-- `applyDiff` keeps the states it received sound, and its mirror in the newest of them.
use longterm.Base.{
  ℕ, ◌≤◌, ◌<◌, ◌≡◌, ◌⊎◌, inl, inr, refl, sym, ◌∙◌, true, false, ◌||◌, some, List, [], ◌∷◌, ◌++◌,
  ◌==◌, leb, arith, is_empty, append_assoc, append-nil, Option-cases, if_intro, ==→eq,
}
use mathlib.Core.Path.{subst}
use longterm.Base.Words.{Bytes}
use longterm.Base.Assoc.{Ordered, Ordered-insert, find, contains, find-contains, contains-insert}
use longterm.Mosh.Client.{ReceivedState, Output, Mirror, Client, no_parent}
use longterm.Mosh.Journal.{write_entry}
use longterm.Mosh.Link.{Env, Outside}
use longterm.Mosh.HostMessage.{Changes, read_host_message}
use longterm.Mosh.Receiver.{
  steps_to, reset_mirror, write_mirror, enter_state, apply_changes, apply_message, apply_diff,
}
use longterm.Mosh.Receiver.Steps.{Step, Way, further, Rooted, steps_to-Way}
use longterm.Mosh.Receiver.Insert.{find-new, contains-inserted, Way-insert, Rooted-insert}

-- The states received: with sound parents, and the latest of them with the greatest number.
pub record IsReceiver (c : Client) : Type 0 where
  pub rooted : Rooted c.states
  pub ordered : Ordered 0 c.states
  pub there : contains c.latest c.states ≡ true
  pub newest : (k : ℕ) → contains k c.states ≡ true → k ≤ c.latest

-- The mirror started from the description of the first steps of the way to the latest state, or
-- from a whole screen, and was written the other steps.
pub record Shows (outside : Outside) (c : Client) : Type 0 where
  pub before : List Step
  pub started :
      (c.mirror.start_screen ≡ outside.describe before)
      ⊎ (before ≡ (c.mirror.start_screen, c.mirror.start_columns, c.mirror.start_rows) ∷ [])
  pub way : Way c.states c.latest (before ++ c.mirror.writes)

-- What `applyDiff` has checked when it enters a new state.
record Enters (c : Client) (base : ReceivedState) (old_num new_num : ℕ) : Type 0 where
  base_at : find old_num c.states ≡ some base
  later : c.latest < new_num
  fresh : contains new_num c.states ≡ false

-- A state whose number is the mark of no parent would be taken for none by those made from it.
abbrev IfProper : Type 0 → ℕ → Type 0 → Type 0
IfProper Q num P = (num == no_parent) ≡ false → Q → P

module _ (outside : Outside) (env : Env) (base : ReceivedState) (old_num new_num : ℕ) (diff : Bytes)
    (ch : Changes) (Q : Type 0) where
  enter_state-IsReceiver :
      (m : Mirror) (o : Output) (c : Client)
      → Enters c base old_num new_num
      → IsReceiver c
      → IsReceiver (enter_state outside env base old_num new_num diff ch m o c)
  unfolding enter_state write_entry
  enter_state-IsReceiver m o c e v =
      let held : contains old_num c.states ≡ true = find-contains old_num c.states e.base_at in
      record {
        rooted =
            Rooted-insert new_num _ refl (inr (omega (arith, v.newest old_num held, e.later), held))
              v.rooted;
        ordered = Ordered-insert 0 new_num _ c.states (omega arith) v.ordered;
        there = contains-insert new_num new_num _ c.states ∙ ground arith;
        newest = λ k h. elim (contains-inserted new_num k _ c.states h) [
          | inl same ↦ omega (arith, same)
          | inr old ↦ omega (arith, v.newest k old, e.later)
        ];
      }

  enter_state-Shows :
      (m : Mirror) (o : Output) (c : Client) (before : List Step)
      → Enters c base old_num new_num
      → (old_num == no_parent) ≡ false
      → (m.start_screen ≡ outside.describe before)
        ⊎ (before ≡ (m.start_screen, m.start_columns, m.start_rows) ∷ [])
      → Way c.states old_num (before ++ m.writes)
      → Shows outside (enter_state outside env base old_num new_num diff ch m o c)
  unfolding enter_state write_entry write_mirror
  enter_state-Shows m o c before e proper started w = record {
    before = before;
    started = started;
    way = subst (Way _ new_num) (append_assoc before m.writes _) (
        further _ (before ++ m.writes) (find-new new_num _ c.states) proper
          (Way-insert new_num _ e.fresh w));
  }

  abbrev Sound : Client → Type 0
  Sound d = IsReceiver d × IfProper Q old_num (Shows outside d)

  apply_changes-Sound :
      (c : Client)
      → Enters c base old_num new_num
      → Sound c
      → Sound (apply_changes outside env base old_num new_num diff ch c)
  unfolding apply_changes reset_mirror
  apply_changes-Sound c e (v, s) =
      if_intro Sound (old_num == c.latest) _ _
        (λ top. (
          enter_state-IsReceiver _ _ c e v,
          λ p q. enter_state-Shows c.mirror _ c (s p q).before e p (s p q).started (
              subst (λ k. Way c.states k ((s p q).before ++ c.mirror.writes))
                (sym (==→eq old_num c.latest top)) (s p q).way),
        ))
        (λ _.
          if_intro Sound (is_empty (steps_to c.states old_num)) _ _ (λ _. (v, s))
            (λ _. (
              enter_state-IsReceiver _ _ c e v,
              λ p q. enter_state-Shows _ _ c (steps_to c.states old_num) e p (inl refl) (
                  subst (Way c.states old_num) (sym (append-nil _)) (
                    steps_to-Way c.states old_num v.rooted
                      (find-contains old_num c.states e.base_at))),
            )))

abbrev echoed : ℕ → Client → Client
echoed n c = record c { receiver = record c.receiver { echo_ack = n } }

echoed-IsReceiver : (n : ℕ) (c : Client) → IsReceiver c → IsReceiver (echoed n c)
echoed-IsReceiver n c v = record {
  rooted = v.rooted;
  ordered = v.ordered;
  there = v.there;
  newest = v.newest;
}

echoed-Shows :
    (outside : Outside) (n : ℕ) (c : Client) → Shows outside c → Shows outside (echoed n c)
echoed-Shows outside n c s = record { before = s.before; started = s.started; way = s.way }

module _ (outside : Outside) (env : Env) (old_num new_num : ℕ) (diff : Bytes) (c : Client)
    (Q : Type 0) where
  apply_message-Sound :
      (base : ReceivedState)
      → Enters c base old_num new_num
      → IsReceiver c × IfProper Q old_num (Shows outside c)
      → IsReceiver (apply_message outside env base old_num new_num diff c)
        × IfProper Q old_num (Shows outside (apply_message outside env base old_num new_num diff c))
  unfolding apply_message
  apply_message-Sound base e (v, s) =
      let read =
        read_host_message diff (record {
          bytes = [];
          columns = base.columns;
          rows = base.rows;
          echo_ack = c.echo_ack;
        }) in
      let n = read.1.echo_ack in
      if_intro (λ (d : Client). IsReceiver d × IfProper Q old_num (Shows outside d)) read.0.ok
        (apply_changes outside env base old_num new_num diff read.1 (echoed n c)) (echoed n c)
        (λ _.
          apply_changes-Sound outside env base old_num new_num diff read.1 Q (echoed n c)
            (record { base_at = e.base_at; later = e.later; fresh = e.fresh })
            (echoed-IsReceiver n c v, λ p q. echoed-Shows outside n c (s p q)))
        (λ _. (echoed-IsReceiver n c v, λ p q. echoed-Shows outside n c (s p q)))

  apply_diff-cases :
      IsReceiver c × IfProper Q old_num (Shows outside c)
      → IsReceiver (apply_diff outside env old_num new_num diff c)
        × IfProper Q old_num (Shows outside (apply_diff outside env old_num new_num diff c))
  unfolding apply_diff
  apply_diff-cases h =
      if_intro (λ (d : Client). IsReceiver d × IfProper Q old_num (Shows outside d))
        (leb new_num c.latest || contains new_num c.states) _ _ (λ _. h)
        (λ later. elim (Option-cases (find old_num c.states)) [
          | inl e ↦ rw e h
          | inr (base, e) ↦ rw e (
              apply_message-Sound base
                (record {
                  base_at = e;
                  later = ground (arith, later);
                  fresh = ground (arith, later);
                })
                h)
        ])

module _ (outside : Outside) (env : Env) (old_num new_num : ℕ) (diff : Bytes) (c : Client) where
  pub apply_diff-IsReceiver :
      IsReceiver c → IsReceiver (apply_diff outside env old_num new_num diff c)
  apply_diff-IsReceiver v =
      (apply_diff-cases outside env old_num new_num diff c (Shows outside c) (v, λ p s. s)).0

  -- Where the changes start from a state whose number is not the mark of no parent, the states
  -- received stay rooted, with the latest the greatest, and the mirror was written exactly the
  -- steps of the way to the latest state.
  pub apply_diff-Sound :
      (old_num == no_parent) ≡ false
      → IsReceiver c
      → Shows outside c
      → IsReceiver (apply_diff outside env old_num new_num diff c)
        × Shows outside (apply_diff outside env old_num new_num diff c)
  apply_diff-Sound proper v s =
      let h =
        apply_diff-cases outside env old_num new_num diff c (Shows outside c) (v, λ p s'. s') in
      (h.0, h.1 proper s)
