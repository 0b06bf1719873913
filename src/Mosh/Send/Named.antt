-- ===== src/Mosh/Send/Named.antt =====
-- Which state an instruction names as the one that its diff starts from.
use longterm.Base.{
  ℕ, zero, suc, ◌-◌, ◌≤◌, ◌<◌, ◌≡◌, ◌⊎◌, inl, inr, refl, sym, ap, ◌∙◌, false, some, List, [], ◌∷◌,
  ◌++◌, arith, ltb, ◌==◌, if_intro, length, take, drop, get_elem?, length-append, ltb→lt,
}
use mathlib.Core.Bool.{false≢true}
use longterm.Base.Words.{Bytes}
use longterm.Mosh.Client.{SentState, Client, sent_state}
use longterm.Mosh.Journal.{last, write_entry}
use longterm.Mosh.Link.{Env}
use longterm.Mosh.Sender.{max_sent_states, state_at, at_or, event_end}
use longterm.Mosh.Send.{
  remember, touch_last, add_sent_state, reserve_state, receiver_num, with_state, instruction_of,
}
use longterm.Mosh.Send.Steps.{write_entry-sender, reserve_state-sender}

module _ {ℓ} {A : Type ℓ} where
  get_elem?-before :
      (i j : ℕ) (xs : List A) → j < i → get_elem? (take i xs ++ drop (suc i) xs) j ≡ get_elem? xs j
  get_elem?-before zero j xs h = elim h [ ]
  get_elem?-before (suc i) j [] h = refl
  get_elem?-before (suc i) zero (x ∷ xs) h = refl
  get_elem?-before (suc i) (suc j) (x ∷ xs) h = get_elem?-before i j xs (omega arith)

  get_elem?-after :
      (i j : ℕ) (xs : List A)
      → i ≤ j
      → get_elem? (take i xs ++ drop (suc i) xs) j ≡ get_elem? xs (suc j)
  get_elem?-after zero j [] h = refl
  get_elem?-after zero j (x ∷ xs) h = refl
  get_elem?-after (suc i) j [] h = refl
  get_elem?-after (suc i) zero (x ∷ xs) h = absurd (omega arith)
  get_elem?-after (suc i) (suc j) (x ∷ xs) h = get_elem?-after i j xs (omega arith)

  get_elem?-front :
      (j : ℕ) (xs ys : List A) → j < length xs → get_elem? (xs ++ ys) j ≡ get_elem? xs j
  get_elem?-front j [] ys h = elim h [ ]
  get_elem?-front zero (x ∷ xs) ys h = refl
  get_elem?-front (suc j) (x ∷ xs) ys h = get_elem?-front j xs ys (omega arith)

  get_elem?-end :
      (j : ℕ) (xs : List A) (y : A) → j ≡ length xs → get_elem? (xs ++ y ∷ []) j ≡ some y
  get_elem?-end zero [] y e = refl
  get_elem?-end (suc j) (x ∷ xs) y e = get_elem?-end j xs y (omega arith)
  get_elem?-end zero (x ∷ xs) y e = absurd (omega arith)
  get_elem?-end (suc j) [] y e = absurd (omega arith)

-- Room for the new state, or an assumed state that stands before the one that goes.
abbrev pub Steady : ℕ → List SentState → Type 0
Steady i ss = (length ss < max_sent_states) ⊎ (i ≤ 16)

remember_keeps :
    (s : SentState) (ss : List SentState) (i : ℕ)
    → length ss ≤ max_sent_states
    → i < length ss
    → Steady i ss
    → get_elem? (remember s ss) i ≡ get_elem? ss i
unfolding remember
remember_keeps s ss i h lt st =
    if_intro (λ l. get_elem? l i ≡ get_elem? ss i) (ltb max_sent_states (length (ss ++ s ∷ []))) _ _
      (λ e.
        let place : length (ss ++ s ∷ []) - 16 ≡ 17 =
          omega (arith, ltb→lt _ _ e, length-append ss (s ∷ [])) in
        rw place (
          get_elem?-before 17 i (ss ++ s ∷ []) (low (ltb→lt _ _ e))
          ∙ get_elem?-front i ss (s ∷ []) lt))
      (λ _. get_elem?-front i ss (s ∷ []) lt)
  where
    low : max_sent_states < length (ss ++ s ∷ []) → i < 17
    low e = elim st [
      | inl few ↦ absurd (omega (arith, few, length-append ss (s ∷ [])))
      | inr near ↦ omega arith
    ]

remember_moves :
    (s : SentState) (ss : List SentState) → length ss ≡ 32 → get_elem? (remember s ss) 31 ≡ some s
unfolding remember
remember_moves s ss h =
    let len : length (ss ++ s ∷ []) ≡ 33 = omega (arith, length-append ss (s ∷ [])) in
    rw len (get_elem?-after 17 31 (ss ++ s ∷ []) (omega arith) ∙ get_elem?-end 32 ss s (sym h))

touch_last-num :
    (time i : ℕ) (ss : List SentState) → (state_at (touch_last time ss) i).num ≡ (state_at ss i).num
unfolding touch_last
touch_last-num time i [] = refl
touch_last-num time zero (s ∷ []) = refl
touch_last-num time (suc i) (s ∷ []) = refl
touch_last-num time zero (s ∷ (t ∷ ss)) = refl
touch_last-num time (suc i) (s ∷ (t ∷ ss)) = touch_last-num time i (t ∷ ss)

-- The state that `addSentState` adds.
abbrev added : ℕ → ℕ → ℕ → SentState
added time num events = record { num = num; events = events; timestamp = time }

add_sent_state-at :
    (time num events : ℕ) (c : Client)
    → state_at (add_sent_state time num events c).sent (add_sent_state time num events c).assumed
      ≡ state_at (remember (added time num events) c.sent) c.assumed
unfolding add_sent_state
add_sent_state-at time num events c =
    ap (λ s. state_at (remember (added time num events) s.sent) s.assumed) kept
  where
    kept : (write_entry (sent_state num events) (reserve_state num c)).sender ≡ c.sender
    kept = write_entry-sender _ (reserve_state num c) ∙ reserve_state-sender num c

-- With fewer than 32 states sent, or an assumed state among the first 17, an instruction names
-- the assumed state, from which its diff was made.
instruction_of-with_state :
    (env : Env) (diff : Bytes) (c : Client)
    → length c.sent ≤ max_sent_states
    → c.assumed < length c.sent
    → Steady c.assumed c.sent
    → (instruction_of (with_state env c) diff (receiver_num c)).old_num
      ≡ (state_at c.sent c.assumed).num
unfolding instruction_of with_state
instruction_of-with_state env diff c few lt steady =
    if_intro (λ (d : Client). (state_at d.sent d.assumed).num ≡ (state_at c.sent c.assumed).num)
      (receiver_num c == (last c.sent).num) _ _ (λ _. touch_last-num env.now c.assumed c.sent)
      (λ _.
        ap (λ t. t.num) (add_sent_state-at env.now (receiver_num c) (event_end c.sender) c)
        ∙ ap (λ o. (at_or o).num) (remember_keeps _ c.sent c.assumed few lt steady))

-- With 32 states sent and the last of them assumed to have arrived, an instruction that makes a
-- new state names that new state as the one to start from: `m_assumed` is an index, and
-- `addSentState` has moved the states behind the one that it removes.
pub instruction_of-with_state_full :
    (env : Env) (diff : Bytes) (c : Client)
    → length c.sent ≡ 32
    → c.assumed ≡ 31
    → (receiver_num c == (last c.sent).num) ≡ false
    → (instruction_of (with_state env c) diff (receiver_num c)).old_num
      ≡ (instruction_of (with_state env c) diff (receiver_num c)).new_num
unfolding instruction_of with_state
instruction_of-with_state_full env diff c len at other =
    if_intro (λ (d : Client). (state_at d.sent d.assumed).num ≡ receiver_num c)
      (receiver_num c == (last c.sent).num) _ _ (λ e. absurd (false≢true (sym other ∙ e)))
      (λ _.
        ap (λ t. t.num) (add_sent_state-at env.now (receiver_num c) (event_end c.sender) c)
        ∙ ap
            (λ i.
              (state_at (remember (added env.now (receiver_num c) (event_end c.sender)) c.sent)
                i).num)
            at
        ∙ ap (λ o. (at_or o).num) (remember_moves _ c.sent len))
