-- ===== src/Mosh/Receiver/Steps.antt =====
-- `stepsTo` finds the way to every state that is there, within its bound.
use longterm.Base.{
  ℕ, zero, suc, ◌≤◌, ◌<◌, ◌≡◌, ◌⊎◌, inl, inr, refl, sym, ◌∙◌, true, false, some, List, [], ◌∷◌,
  ◌++◌, ◌==◌, arith, length, append_assoc, append-nil, length-append, Bool-cases,
}
use mathlib.Core.Path.{subst}
use longterm.Base.Words.{Bytes}
use longterm.Base.Assoc.{find, contains, contains-find, count_below, count_below-le, count_below-lt}
use longterm.Mosh.Client.{ReceivedState, no_parent}
use longterm.Mosh.Receiver.{steps_loop, steps_to}

abbrev pub Step : Type 0
Step = Bytes × ℕ × ℕ

abbrev pub step_of : ReceivedState → Step
step_of s = (s.diff, s.columns, s.rows)

abbrev pub States : Type 0
States = List (ℕ × ReceivedState)

-- The steps from a whole screen to a state, oldest first.
pub data Way (m : States) : ℕ → List Step → Type 0 where
  whole :
      {k : ℕ} (s : ReceivedState)
      → find k m ≡ some s
      → (s.parent == no_parent) ≡ true
      → Way m k (step_of s ∷ [])
  further :
      {k : ℕ} (s : ReceivedState) (xs : List Step)
      → find k m ≡ some s
      → (s.parent == no_parent) ≡ false
      → Way m s.parent xs
      → Way m k (xs ++ step_of s ∷ [])

-- Every state stands under its number, and is a whole screen or has an older parent that is there.
pub record Rooted (m : States) : Type 0 where
  pub numbered : {k : ℕ} {s : ReceivedState} → find k m ≡ some s → s.num ≡ k
  pub parents :
      {k : ℕ} {s : ReceivedState}
      → find k m ≡ some s
      → ((s.parent == no_parent) ≡ true) ⊎ ((s.parent < k) × (contains s.parent m ≡ true))

steps_loop-Way :
    {m : States} {k : ℕ} {xs : List Step} (n : ℕ) (steps : List Step)
    → Way m k xs
    → length xs ≤ n
    → steps_loop n m k steps ≡ xs ++ steps
unfolding steps_loop
steps_loop-Way zero steps (whole s f e) h = absurd (omega arith)
steps_loop-Way (suc n) steps (whole s f e) h = rw (f, steps_loop, e) refl
steps_loop-Way zero steps (further s xs f e w) h =
    absurd (omega (arith, length-append xs (step_of s ∷ []), h))
steps_loop-Way (suc n) steps (further s xs f e w) h =
    rw (f, steps_loop, e)
      (steps_loop-Way n (step_of s ∷ steps) w (omega (arith, length-append xs (step_of s ∷ []), h))
        ∙ sym (append_assoc xs (step_of s ∷ []) steps))

-- From a state there is a way, of at most a step for each state not above it.
contains-Way :
    {m : States}
    → Rooted m
    → (n k : ℕ) → count_below k m < n
    → contains k m ≡ true
    → (xs : List Step) × Way m k xs × (length xs ≤ n)
contains-Way r zero k h c = absurd (omega arith)
contains-Way {m} r (suc n) k h c =
    let (s, f) = contains-find k m c in
    elim (Bool-cases (s.parent == no_parent)) [
      | inl e ↦ (step_of s ∷ [], whole s f e, omega arith)
      | inr e ↦ elim (r.parents f) [
        | inl e' ↦ absurd (cc)
        | inr (lt, there) ↦
            let (xs, w, le) =
              contains-Way r n s.parent (omega (arith, count_below-lt s.parent k m lt there))
                there in
            (
              xs ++ step_of s ∷ [],
              further s xs f e w,
              omega (arith, length-append xs (step_of s ∷ []), le),
            )
      ]
    ]

-- Among states with older parents, `stepsTo` gives the way to each that is there.
pub steps_to-Way : (m : States) (k : ℕ) → Rooted m → contains k m ≡ true → Way m k (steps_to m k)
unfolding steps_to
steps_to-Way m k r c =
    let (xs, w, le) = contains-Way r (suc (length m)) k (omega (arith, count_below-le k m)) c in
    subst (Way m k) (sym (steps_loop-Way (suc (length m)) [] w le ∙ append-nil xs)) w
