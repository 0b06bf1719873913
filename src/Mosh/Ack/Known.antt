-- ===== src/Mosh/Ack/Known.antt =====
-- An acknowledgment of a state that is known makes it the front; any other changes nothing.
use longterm.Base.{
  ℕ, ◌≤◌, ◌<◌, ◌≡◌, refl, sym, ap, ◌∙◌, true, false, List, [], ◌∷◌, arith, ltb, ◌==◌, length,
  if_intro, Bool-cases, inl, inr, ltb→lt, ltb→le, ==→eq,
}
use mathlib.Core.Path.{subst}
use mathlib.Core.Bool.{false≢true}
use longterm.Mosh.Client.{SentState, Client}
use longterm.Mosh.Journal.{first, last, write_entry}
use longterm.Mosh.Send.States.{Chain, IsChain}
use longterm.Mosh.Send.Valid.{IsValid}
use longterm.Mosh.Ack.{known, drop_before, journal_front, process_acknowledgment}

-- What is left of the states when `num` was acknowledged.
record Acknowledged (num : ℕ) (old new : List SentState) : Type 0 where
  chain : IsChain new
  at_front : (first new).num ≡ num
  same_last : last new ≡ last old
  later : (first old).events ≤ (first new).events
  fewer : length new ≤ length old

known_le :
    (num : ℕ) (s : SentState) (ss : List SentState) → Chain s ss → known num ss ≡ true → s.num ≤ num
unfolding known
known_le num s [] c k = cc
known_le num s (t ∷ ss) c k = elim (Bool-cases (t.num == num)) [
  | inl e ↦ omega (arith, c.0.num, ==→eq t.num num e)
  | inr e ↦ omega (arith, c.0.num, known_le num t ss c.1 (rw e at k))
]

known_tail :
    (num : ℕ) (s : SentState) (ss : List SentState)
    → s.num < num
    → known num (s ∷ ss) ≡ true
    → known num ss ≡ true
unfolding known
known_tail num s ss h k = ground arith

known_first :
    (num : ℕ) (s : SentState) (ss : List SentState)
    → Chain s ss
    → num ≤ s.num
    → known num (s ∷ ss) ≡ true
    → s.num ≡ num
unfolding known
known_first num s ss c h k = ground (arith, known_le num s ss c)

drop_before_lem :
    (num : ℕ) (s : SentState) (ss : List SentState)
    → Chain s ss
    → known num (s ∷ ss) ≡ true
    → Acknowledged num (s ∷ ss) (drop_before num (s ∷ ss))
unfolding drop_before
drop_before_lem num s [] c k =
    if_intro (Acknowledged num (s ∷ [])) (ltb s.num num) _ _
      (λ e. absurd (unfold known in false≢true (known_tail num s [] (ltb→lt _ _ e) k)))
      (λ e. record {
        chain = c;
        at_front = known_first num s [] c (ltb→le _ _ e) k;
        same_last = refl;
        later = omega arith;
        fewer = omega arith;
      })
drop_before_lem num s (t ∷ ss) c k =
    if_intro (Acknowledged num (s ∷ (t ∷ ss))) (ltb s.num num) _ _
      (λ e.
        let a = drop_before_lem num t ss c.1 (known_tail num s (t ∷ ss) (ltb→lt _ _ e) k) in
        record {
          chain = a.chain;
          at_front = a.at_front;
          same_last = a.same_last;
          later = omega (arith, a.later, c.0.events);
          fewer = omega (arith, a.fewer);
        })
      (λ e. record {
        chain = c;
        at_front = known_first num s (t ∷ ss) c (ltb→le _ _ e) k;
        same_last = refl;
        later = omega arith;
        fewer = omega arith;
      })

acknowledged :
    (num : ℕ) (ss : List SentState)
    → IsChain ss
    → known num ss ≡ true
    → Acknowledged num ss (drop_before num ss)
acknowledged num [] c k = absurd c
acknowledged num (s ∷ ss) c k = drop_before_lem num s ss c k

journal_front-sender : (c : Client) → (journal_front c).sender ≡ c.sender
unfolding journal_front write_entry
journal_front-sender c = ground arith

-- What an acknowledgment does to the states, and that it leaves the invariant.
pub record AcknowledgedTo (num : ℕ) (c d : Client) : Type 0 where
  pub valid : IsValid d.sender
  pub front_num : known num c.sent ≡ true → (first d.sent).num ≡ num
  pub same_last : last d.sent ≡ last c.sent
  pub ignored : known num c.sent ≡ false → d ≡ c

abbrev dropped : ℕ → Client → Client
dropped num c = record c { sender = record c.sender { sent = drop_before num c.sent } }

acknowledges :
    (num : ℕ) (c : Client)
    → IsValid c.sender
    → known num c.sent ≡ true
    → (d : Client) → d.sender ≡ (dropped num c).sender
    → AcknowledgedTo num c d
acknowledges num c v k d e =
    let a = acknowledged num c.sent v.chain k in
    let states : d.sent ≡ drop_before num c.sent = ap (λ t. t.sent) e in
    record {
      valid = subst IsValid (sym e) (record {
        chain = a.chain;
        few = omega (arith, a.fewer, v.few);
        based = omega (arith, a.later, v.based);
        within = rw a.same_last v.within;
        top = rw a.same_last v.top;
        running = λ r. rw a.same_last (v.running r);
      });
      front_num = λ _. rw states a.at_front;
      same_last = rw states a.same_last;
      ignored = λ f. absurd (false≢true (sym f ∙ k));
    }

-- An acknowledgment of a state that is known makes it the front, any other changes nothing; the
-- newest state and the sender's invariant stay.
pub process_acknowledgment_lem :
    (num : ℕ) (c : Client) → IsValid c.sender → AcknowledgedTo num c (process_acknowledgment num c)
unfolding process_acknowledgment
process_acknowledgment_lem num c v =
    if_intro (AcknowledgedTo num c) (known num c.sent) _ _
      (λ k. acknowledges num c v k _ (journal_front-sender (dropped num c)))
      (λ k. record {
        valid = v;
        front_num = λ e. absurd (false≢true (sym k ∙ e));
        same_last = refl;
        ignored = λ _. refl;
      })
