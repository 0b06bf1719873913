-- ===== src/Mosh/Send/States.antt =====
-- The states that were sent: in order, at most 32 of them, and never none.
use longterm.Base.{
  ℕ, zero, suc, ◌-◌, ◌≤◌, ◌<◌, ◌≡◌, inl, inr, refl, ap, ◌∙◌, List, [], ◌∷◌, ◌++◌, arith, ltb,
  length, take, drop, length-append, Bool-cases, ltb→lt, ltb→le,
}
use longterm.Mosh.Client.{SentState, shutdown_num}
use longterm.Mosh.Journal.{first, last, last_from}
use longterm.Mosh.Sender.{max_sent_states}
use longterm.Mosh.Send.{remember}

-- A number comes twice only where it is that of the last state of all, and events are not lost.
pub record Before (s t : SentState) : Type 0 where
  pub num : s.num ≤ t.num
  pub distinct : s.num ≡ t.num → t.num ≡ shutdown_num
  pub events : s.events ≤ t.events

abbrev pub Chain : SentState → List SentState → Type 0
Chain s [] = Unit
Chain s (t ∷ ts) = Before s t × Chain t ts

-- Not empty, and each state before the next.
abbrev pub IsChain : List SentState → Type 0
IsChain [] = ⊥
IsChain (s ∷ ss) = Chain s ss

Before-trans : {s t u : SentState} → Before s t → Before t u → u.num ≤ shutdown_num → Before s u
Before-trans b c h = record {
  num = omega (arith, b.num, c.num);
  distinct = λ e. c.distinct (omega (arith, b.num, c.num));
  events = omega (arith, b.events, c.events);
}

Chain-last :
    (s : SentState) (ss : List SentState) (t : SentState)
    → Chain s ss
    → Before (last_from s ss) t
    → Chain s (ss ++ t ∷ [])
Chain-last s [] t c b = (b, tt)
Chain-last s (u ∷ ss) t c b = (c.0, Chain-last u ss t c.1 b)

Chain-tail : (s t : SentState) (ss : List SentState) → Before s t → Chain t ss → Chain s ss
Chain-tail s t [] b c = tt
Chain-tail s t (u ∷ ss) b c = (
  record {
    num = omega (arith, b.num, c.0.num);
    distinct = λ e. c.0.distinct (omega (arith, b.num, c.0.num));
    events = omega (arith, b.events, c.0.events);
  },
  c.1,
)

-- A state less in the middle leaves the order.
Chain-without :
    (i : ℕ) (s : SentState) (ss : List SentState)
    → Chain s ss
    → Chain s (take i ss ++ drop (suc i) ss)
Chain-without zero s [] c = tt
Chain-without (suc i) s [] c = tt
Chain-without zero s (t ∷ ss) c = Chain-tail s t ss c.0 c.1
Chain-without (suc i) s (t ∷ ss) c = (c.0, Chain-without i t ss c.1)

last_from-without :
    (i : ℕ) (s : SentState) (ss : List SentState)
    → suc i < length ss
    → last_from s (take i ss ++ drop (suc i) ss) ≡ last_from s ss
last_from-without i s [] h = elim h [ ]
last_from-without zero s (t ∷ []) h = absurd (omega arith)
last_from-without zero s (t ∷ (u ∷ ss)) h = refl
last_from-without (suc i) s (t ∷ ss) h = last_from-without i t ss (omega arith)

length-without :
    (i : ℕ) (ss : List SentState)
    → i < length ss
    → suc (length (take i ss ++ drop (suc i) ss)) ≡ length ss
length-without i [] h = elim h [ ]
length-without zero (t ∷ ss) h = refl
length-without (suc i) (t ∷ ss) h = ap suc (length-without i ss (omega arith))

pub last_from-append :
    (s : SentState) (ss : List SentState) (t : SentState) → last_from s (ss ++ t ∷ []) ≡ t
last_from-append s [] t = refl
last_from-append s (u ∷ ss) t = last_from-append u ss t

-- What `addSentState` leaves of the list.
pub record Remembers (s : SentState) (old new : List SentState) : Type 0 where
  pub chain : IsChain new
  pub same_first : first new ≡ first old
  pub new_last : last new ≡ s
  pub few : length new ≤ max_sent_states

-- The new state comes last, the first stays, the order holds and there are at most 32.
pub remember_lem :
    (s : SentState) (old : List SentState)
    → IsChain old
    → Before (last old) s
    → length old ≤ max_sent_states
    → Remembers s old (remember s old)
unfolding remember
remember_lem s [] c b h = absurd c
remember_lem s (t ∷ ss) c b h =
    elim (Bool-cases (ltb max_sent_states (length ((t ∷ ss) ++ s ∷ [])))) [
      | inl e ↦ rw (e, remember) (crowded (omega (arith, ltb→lt _ _ e, len)))
      | inr e ↦
          rw (e, remember)
            (record {
              chain = Chain-last t ss s c b;
              same_first = refl;
              new_last = last_from-append t ss s;
              few = ltb→le _ _ e;
            })
    ]
  where
    len : length (ss ++ s ∷ []) ≡ suc (length ss)
    len = omega (arith, length-append ss (s ∷ []))

    crowded :
        length ss ≡ 31
        → Remembers s (t ∷ ss) (
            take (suc (length (ss ++ s ∷ [])) - 16) (t ∷ (ss ++ s ∷ []))
            ++ drop (suc (suc (length (ss ++ s ∷ [])) - 16)) (t ∷ (ss ++ s ∷ [])))
    crowded l =
        let place : suc (length (ss ++ s ∷ [])) - 16 ≡ 17 = omega (arith, len) in
        rw place (record {
          chain = Chain-without 16 t (ss ++ s ∷ []) (Chain-last t ss s c b);
          same_first = refl;
          new_last =
              last_from-without 16 t (ss ++ s ∷ []) (omega (arith, len)) ∙ last_from-append t ss s;
          few = omega (arith, len, length-without 16 (ss ++ s ∷ []) (omega (arith, len)));
        })
