-- ===== src/Mosh/Receiver/Insert.antt =====
-- A state that is added leaves the way to the others, and the states sound.
use longterm.Base.{
  ℕ, ◌<◌, ◌≡◌, ◌⊎◌, inl, inr, refl, sym, ap, ◌∙◌, true, false, some, List, ◌==◌, arith, Bool-cases,
  ==→eq, eq→==,
}
use mathlib.Core.Path.{subst}
use mathlib.Core.Bool.{false≢true}
use longterm.Base.Assoc.{find, insert, contains, find-insert, find-contains, contains-insert}
use longterm.Mosh.Client.{ReceivedState, no_parent}
use longterm.Mosh.Receiver.Steps.{Step, States, Way, whole, further, Rooted}

pub find-kept :
    (n k : ℕ) (s : ReceivedState) {t : ReceivedState} (m : States)
    → contains n m ≡ false
    → find k m ≡ some t
    → find k (insert n s m) ≡ some t
find-kept n k s m fresh f = elim (Bool-cases (n == k)) [
  | inl e ↦
      let same : n ≡ k = ==→eq n k e in
      absurd (false≢true (sym fresh ∙ ap (λ i. contains i m) same ∙ find-contains k m f))
  | inr e ↦ find-insert n k s m ∙ rw e f
]

pub Way-insert :
    {m : States} {k : ℕ} {xs : List Step} (n : ℕ) (s : ReceivedState)
    → contains n m ≡ false
    → Way m k xs
    → Way (insert n s m) k xs
Way-insert {m} n s fresh (whole t f e) = whole t (find-kept n _ s m fresh f) e
Way-insert {m} n s fresh (further t xs f e w) =
    further t xs (find-kept n _ s m fresh f) e (Way-insert n s fresh w)

pub find-new : (n : ℕ) (s : ReceivedState) (m : States) → find n (insert n s m) ≡ some s
find-new n s m = find-insert n n s m ∙ rw (eq→== n n refl) refl

pub contains-kept :
    (n k : ℕ) (s : ReceivedState) (m : States)
    → contains k m ≡ true
    → contains k (insert n s m) ≡ true
contains-kept n k s m c = contains-insert n k s m ∙ ground (arith, c)

pub find-inserted :
    (n k : ℕ) (s : ReceivedState) {t : ReceivedState} (m : States)
    → find k (insert n s m) ≡ some t
    → ((n ≡ k) × (s ≡ t)) ⊎ (find k m ≡ some t)
find-inserted n k s m f = elim (Bool-cases (n == k)) [
  | inl e ↦
      let g : some s ≡ some _ = sym (find-insert n k s m ∙ rw e refl) ∙ f in inl (==→eq n k e, cc)
  | inr e ↦ inr (sym (find-insert n k s m ∙ rw e refl) ∙ f)
]

pub contains-inserted :
    (n k : ℕ) (s : ReceivedState) (m : States)
    → contains k (insert n s m) ≡ true
    → (n ≡ k) ⊎ (contains k m ≡ true)
contains-inserted n k s m h = ground (arith, contains-insert n k s m, h)

-- A state that is a whole screen, or has an older parent that is there.
abbrev pub HasParent : States → ℕ → ReceivedState → Type 0
HasParent m k s = ((s.parent == no_parent) ≡ true) ⊎ ((s.parent < k) × (contains s.parent m ≡ true))

HasParent-insert :
    (m : States) (k n : ℕ) (s t : ReceivedState) → HasParent m k t → HasParent (insert n s m) k t
HasParent-insert m k n s t (inl e) = inl e
HasParent-insert m k n s t (inr (lt, c)) = inr (lt, contains-kept n t.parent s m c)

pub Rooted-insert :
    {m : States} (n : ℕ) (s : ReceivedState)
    → s.num ≡ n
    → ((s.parent == no_parent) ≡ true) ⊎ ((s.parent < n) × (contains s.parent m ≡ true))
    → Rooted m
    → Rooted (insert n s m)
Rooted-insert {m} n s num parent r = record {
  numbered = λ {k} {s = t} f. elim (find-inserted n k s m f) [
    | inl (e, q) ↦ sym (ap (λ u. u.num) q) ∙ num ∙ e
    | inr g ↦ r.numbered g
  ];
  parents = λ {k} {s = t} f. HasParent-insert m k n s t (elim (find-inserted n k s m f) [
    | inl (e, q) ↦ subst (λ i. HasParent m i t) e (subst (HasParent m n) q parent)
    | inr g ↦ r.parents g
  ]);
}
