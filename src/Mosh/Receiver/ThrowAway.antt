-- ===== src/Mosh/Receiver/ThrowAway.antt =====
-- `throwAwayUntil` leaves the states that it keeps sound, and the latest among them.
use longterm.Base.{
  ℕ, zero, suc, ◌≤◌, ◌<◌, ◌≡◌, ◌⊎◌, inl, inr, refl, sym, ◌∙◌, true, false, ◌||◌, ◌&&◌, not, some,
  List, [], ◌∷◌, ◌++◌, ◌==◌, ltb, arith, length, is_empty, if◌then◌else◌, Bool-cases, Option-cases,
  if_intro, ==→eq, ltb→le,
}
use mathlib.Core.Path.{subst}
use mathlib.Core.Bool.{false≢true}
use longterm.Base.Assoc.{
  find, insert, contains, contains-find, find-contains, contains-insert, Ordered, Ordered-insert,
  Found, Ordered-Found,
}
use longterm.Mosh.Client.{Receiver, ReceivedState, Client, no_parent}
use longterm.Mosh.Journal.{rewrite_journal}
use longterm.Mosh.Link.{Outside}
use longterm.Mosh.Receiver.{
  steps_to, through_kept, is_kept, keep_state, keep_from, throw_away_until, total_bytes,
  max_received_states, max_received_bytes,
}
use longterm.Mosh.Receiver.Steps.{Step, States, Way, whole, further, Rooted, steps_to-Way}
use longterm.Mosh.Receiver.Insert.{find-inserted, contains-kept}
use longterm.Mosh.Receiver.Screen.{IsReceiver}

nonempty-append : (xs : List Step) (x : Step) → is_empty (xs ++ x ∷ []) ≡ false
nonempty-append [] x = refl
nonempty-append (y ∷ xs) x = refl

nonempty-Way : {m : States} {k : ℕ} {xs : List Step} → Way m k xs → is_empty xs ≡ false
nonempty-Way (whole s f e) = refl
nonempty-Way (further s xs f e w) = nonempty-append xs _

-- A state reached through states that stay has a parent that stays.
through_kept-contains :
    (n : ℕ) (m : States) (num at : ℕ)
    → through_kept n m num at ≡ true
    → (contains at m ≡ true) × (num ≤ at)
unfolding through_kept
through_kept-contains zero m num at h = cc
through_kept-contains (suc n) m num at h = elim (Option-cases (find at m)) [
  | inl e ↦ absurd (false≢true (rw (e, through_kept) at h))
  | inr (s, e) ↦ (
    find-contains at m e,
    elim (Bool-cases (ltb at num)) [
      | inl lt ↦ absurd (false≢true (rw (e, through_kept, lt) at h))
      | inr ge ↦ ltb→le at num ge
    ],
  )
]

module _ (outside : Outside) (m : States) (num : ℕ) (r : Rooted m) where
  -- A state that was kept, by its number in the map.
  record Stays (k : ℕ) (t : ReceivedState) : Type 0 where
    num_at : t.num ≡ k
    was : contains k m ≡ true
    parent :
        ((t.parent == no_parent) ≡ true)
        ⊎ ((t.parent < k) × (contains t.parent m ≡ true) × (num ≤ t.parent))

  abbrev AllStay : States → Type 0
  AllStay kept = (k : ℕ) (t : ReceivedState) → find k kept ≡ some t → Stays k t

  AllStay-insert :
      (k : ℕ) (s : ReceivedState) (kept : States)
      → Stays k s
      → AllStay kept
      → AllStay (insert k s kept)
  AllStay-insert k s kept st all j t f = elim (find-inserted k j s kept f) [
    | inl (e, q) ↦ subst (λ i. Stays i t) e (subst (Stays k) q st)
    | inr g ↦ all j t g
  ]

  is_kept-Stays :
      (k : ℕ) (s : ReceivedState) → find k m ≡ some s → is_kept m num s ≡ true → Stays k s
  unfolding is_kept
  is_kept-Stays k s f h = record {
    num_at = r.numbered f;
    was = find-contains k m f;
    parent = elim (r.parents f) [
      | inl e ↦ inl e
      | inr (lt, c) ↦ elim (Bool-cases (s.parent == no_parent)) [
        | inl e ↦ inl e
        | inr e ↦ inr (
          lt,
          c,
          (through_kept-contains (suc (length m)) m num s.parent (ground (arith, h, e))).1,
        )
      ]
    ];
  }

  -- What is kept after the state `k` was looked at.
  record After (k : ℕ) (kept kept' : States) : Type 0 where
    all : AllStay kept → AllStay kept'
    has : contains k kept' ≡ true
    more : (j : ℕ) → contains j kept ≡ true → contains j kept' ≡ true
    order : Ordered 0 kept → Ordered 0 kept'

  insert-After :
      (k : ℕ) (s : ReceivedState) (kept : States) → Stays k s → After k kept (insert s.num s kept)
  insert-After k s kept st =
      subst (λ i. After k kept (insert i s kept)) (sym st.num_at)
        (record {
          all = AllStay-insert k s kept st;
          has = contains-insert k k s kept ∙ ground arith;
          more = λ j c. contains-kept k j s kept c;
          order = Ordered-insert 0 k s kept (omega arith);
        })

  keep_state-After :
      (k : ℕ) (s : ReceivedState) (kept : States)
      → find k m ≡ some s
      → After k kept (keep_state outside m num s kept)
  unfolding keep_state
  keep_state-After k s kept f =
      let there : contains s.num m ≡ true = rw (r.numbered f) (find-contains k m f) in
      if_intro (After k kept) (is_kept m num s) _ _
        (λ h. insert-After k s kept (is_kept-Stays k s f h))
        (λ _.
          if_intro (After k kept) (is_empty (steps_to m s.num)) _ _
            (λ e. absurd (false≢true (sym (nonempty-Way (steps_to-Way m s.num r there)) ∙ e)))
            (λ _.
              insert-After k
                (record s { diff = outside.describe (steps_to m s.num); parent = no_parent }) kept
                (record { num_at = r.numbered f; was = find-contains k m f; parent = inl refl })))

  -- What is kept after the states of `l`.
  record Kept (l kept kept' : States) : Type 0 where
    all : AllStay kept'
    order : Ordered 0 kept'
    more : (j : ℕ) → contains j kept ≡ true → contains j kept' ≡ true
    has : (j : ℕ) → num ≤ j → contains j l ≡ true → contains j kept' ≡ true

  one-Kept :
      (k : ℕ) (s : ReceivedState) (kept : States)
      → find k m ≡ some s
      → AllStay kept
      → Ordered 0 kept
      → Kept ((k, s) ∷ []) kept (if ltb k num then kept else keep_state outside m num s kept)
  unfolding contains
  one-Kept k s kept f all o =
      if_intro (Kept ((k, s) ∷ []) kept) (ltb k num) _ _
        (λ lt. record {
          all = all;
          order = o;
          more = λ j c. c;
          has = λ j le c. absurd (ground (arith, lt, le, c));
        })
        (λ _.
          let a = keep_state-After k s kept f in
          record {
            all = a.all all;
            order = a.order o;
            more = a.more;
            has = λ j le c. elim (Bool-cases (k == j)) [
              | inl e ↦
                  subst (λ i. contains i (keep_state outside m num s kept) ≡ true) (==→eq k j e)
                    a.has
              | inr e ↦ absurd (ground (arith, e, c))
            ];
          })

  keep_from-Kept :
      (l kept : States)
      → Found m l
      → AllStay kept
      → Ordered 0 kept
      → Kept l kept (keep_from outside m num l kept)
  unfolding keep_from contains
  keep_from-Kept [] kept found all o = record {
    all = all;
    order = o;
    more = λ j c. c;
    has = λ j le c. cc;
  }
  keep_from-Kept ((k, s) ∷ l) kept (f, found) all o =
      let one = one-Kept k s kept f all o in
      let rest = keep_from-Kept l _ found one.all one.order in
      record {
        all = rest.all;
        order = rest.order;
        more = λ j c. rest.more j (one.more j c);
        has = λ j le c. elim (Bool-cases (k == j)) [
          | inl e ↦ rest.more j (one.has j le (rw e refl))
          | inr e ↦ rest.has j le (rw e at c)
        ];
      }

  -- The states that are kept are sound.
  Kept-Rooted : (l kept : States) → Kept m kept l → Rooted l
  Kept-Rooted l kept h = record {
    numbered = λ {k} {s = t} f. (h.all k t f).num_at;
    parents = λ {k} {s = t} f. elim (h.all k t f).parent [
      | inl e ↦ inl e
      | inr (lt, c, le) ↦ inr (lt, h.has t.parent le c)
    ];
  }

pub rewrite_journal-receiver : (c : Client) → (rewrite_journal c).receiver ≡ c.receiver
unfolding rewrite_journal
rewrite_journal-receiver c = ground arith

none_kept : (outside : Outside) (m : States) (num : ℕ) (r : Rooted m) → AllStay outside m num r []
unfolding find
none_kept outside m num r k t f = cc

-- What is sound depends on the receiver only.
pub IsReceiver-receiver : (c d : Client) → d.receiver ≡ c.receiver → IsReceiver c → IsReceiver d
IsReceiver-receiver c d e v = record {
  rooted = subst (λ (r : Receiver). Rooted r.states) (sym e) v.rooted;
  ordered = subst (λ (r : Receiver). Ordered 0 r.states) (sym e) v.ordered;
  there = subst (λ (r : Receiver). contains r.latest r.states ≡ true) (sym e) v.there;
  newest =
      subst (λ (r : Receiver). (k : ℕ) → contains k r.states ≡ true → k ≤ r.latest) (sym e)
        v.newest;
}

abbrev with_states : States → Client → Client
with_states kept c = record c { receiver = record c.receiver { states = kept } }

keep_from-IsReceiver :
    (outside : Outside) (num : ℕ) (c : Client)
    → IsReceiver c
    → contains num c.states ≡ true
    → IsReceiver (with_states (keep_from outside c.states num c.states []) c)
keep_from-IsReceiver outside num c v there =
    let m = c.states in
    let h =
      keep_from-Kept outside m num v.rooted m [] (Ordered-Found 0 m v.ordered)
        (none_kept outside m num v.rooted) tt in
    record {
      rooted = Kept-Rooted outside m num v.rooted _ [] h;
      ordered = h.order;
      there = h.has c.latest (v.newest num there) v.there;
      newest = λ k held.
          let (t, f) = contains-find k (keep_from outside m num m []) held in
          v.newest k (h.all k t f).was;
    }

-- `throwAwayUntil` leaves the states that it keeps rooted, in the order of their numbers, and the
-- latest among them, whatever number the server gives.
pub throw_away_until-IsReceiver :
    (outside : Outside) (num : ℕ) (c : Client)
    → IsReceiver c
    → IsReceiver (throw_away_until outside num c)
unfolding throw_away_until
throw_away_until-IsReceiver outside num c v =
    if_intro IsReceiver
      (not (contains num c.states)
        || (ltb (length c.states) max_received_states
            && ltb (total_bytes c.states) max_received_bytes))
      _ _ (λ _. v)
      (λ go.
        IsReceiver-receiver _ _ (rewrite_journal-receiver _)
          (keep_from-IsReceiver outside num c v (ground (arith, go))))
