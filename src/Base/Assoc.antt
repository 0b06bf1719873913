-- ===== src/Base/Assoc.antt =====
-- `QMap<quint64, V>`: the entries in the order of their keys.
use Prim.Native.Nat.{ℕ}
use mathlib.Core.Path.{◌≡◌, refl}
use mathlib.Core.Bool.{Bool, true, false}
use mathlib.Core.List.{List, [], ◌∷◌}
use mathlib.Core.Option.{Option, none, some}
use native.Mathlib.Omega.{arith}
use mathlib.Core.Logic.{inl, inr}
use Prim.Native.Nat.{suc, ◌+◌, ◌≤◌, ◌<◌}
use mathlib.Core.Path.{subst}
use longterm.Base.Lists.{length, All}
use longterm.Base.Tests.{ltb, ◌==◌, if◌then◌else◌, Bool-cases, if_intro, ltb→lt, ==→eq, eq→==}

module _ {ℓ} {V : Type ℓ} where
  unfoldable pub find : ℕ → List (ℕ × V) → Option V
  find k [] = none
  find k ((j, v) ∷ m) = if j == k then some v else find k m

  unfoldable pub insert : ℕ → V → List (ℕ × V) → List (ℕ × V)
  insert k v [] = (k, v) ∷ []
  insert k v ((j, w) ∷ m) =
      if ltb k j then (k, v) ∷ (j, w) ∷ m else if j == k then (k, v) ∷ m else (j, w) ∷ insert k v m

  unfoldable pub contains : ℕ → List (ℕ × V) → Bool
  contains k [] = false
  contains k ((j, v) ∷ m) = if j == k then true else contains k m

  pub find-insert :
      (k j : ℕ) (v : V) (m : List (ℕ × V))
      → find j (insert k v m) ≡ (if k == j then some v else find j m)
  unfolding find insert
  find-insert k j v [] = refl
  find-insert k j v ((i, w) ∷ m) = ground (arith, find-insert k j v m)

  pub contains-find :
      (k : ℕ) (m : List (ℕ × V)) → contains k m ≡ true → (v : V) × (find k m ≡ some v)
  unfolding find contains
  contains-find k [] h = cc
  contains-find k ((j, v) ∷ m) h = elim (Bool-cases (j == k)) [
    | inl e ↦ (v, rw e)
    | inr e ↦ let (w, f) = contains-find k m (rw e at h) in (w, rw e f)
  ]

  pub find-contains : (k : ℕ) (m : List (ℕ × V)) {v : V} → find k m ≡ some v → contains k m ≡ true
  unfolding find contains
  find-contains k [] h = cc
  find-contains k ((j, w) ∷ m) h = elim (Bool-cases (j == k)) [
    | inl e ↦ rw e
    | inr e ↦ rw e (find-contains k m (rw e at h))
  ]

  pub contains-insert :
      (k j : ℕ) (v : V) (m : List (ℕ × V))
      → contains j (insert k v m) ≡ (if k == j then true else contains j m)
  unfolding contains insert
  contains-insert k j v [] = refl
  contains-insert k j v ((i, w) ∷ m) = ground (arith, contains-insert k j v m)

  -- How many keys are below `k`.
  abbrev pub count_below : ℕ → List (ℕ × V) → ℕ
  count_below k [] = 0
  count_below k ((j, v) ∷ m) = (if ltb j k then 1 else 0) + count_below k m

  pub count_below-le : (k : ℕ) (m : List (ℕ × V)) → count_below k m ≤ length m
  count_below-le k [] = omega arith
  count_below-le k ((j, v) ∷ m) = ground (arith, count_below-le k m)

  count_below_mono : (p k : ℕ) (m : List (ℕ × V)) → p ≤ k → count_below p m ≤ count_below k m
  count_below_mono p k [] h = omega arith
  count_below_mono p k ((j, v) ∷ m) h = ground (arith, count_below_mono p k m)

  pub count_below-lt :
      (p k : ℕ) (m : List (ℕ × V)) → p < k → contains p m ≡ true → count_below p m < count_below k m
  unfolding contains
  count_below-lt p k [] h c = cc
  count_below-lt p k ((j, v) ∷ m) h c = ground (arith, count_below-lt p k m, count_below_mono p k m)

  -- The keys rise, from `low` on.
  abbrev pub Ordered : ℕ → List (ℕ × V) → Type 0
  Ordered low [] = Unit {0}
  Ordered low ((k, v) ∷ m) = (low ≤ k) × Ordered (suc k) m

  pub Ordered-insert :
      (low k : ℕ) (v : V) (m : List (ℕ × V)) → low ≤ k → Ordered low m → Ordered low (insert k v m)
  unfolding insert
  Ordered-insert low k v [] h o = (h, tt)
  Ordered-insert low k v ((j, w) ∷ m) h (lo, o) =
      if_intro (Ordered low) (ltb k j) _ _ (λ lt. (h, (ltb→lt k j lt, o)))
        (λ ge.
          if_intro (Ordered low) (j == k) _ _
            (λ e. (h, subst (λ i. Ordered (suc i) m) (==→eq j k e) o))
            (λ other. (lo, Ordered-insert (suc j) k v m (ground (arith, ge, other)) o)))

  -- The entries of `l` are those that are found in `m`.
  abbrev pub Found : List (ℕ × V) → List (ℕ × V) → Type ℓ
  Found m l = All (λ (e : ℕ × V). find e.0 m ≡ some e.1) l

  Found-skip :
      (low j : ℕ) (w : V) (m l : List (ℕ × V))
      → j < low
      → Ordered low l
      → Found m l
      → Found ((j, w) ∷ m) l
  unfolding find
  Found-skip low j w m [] lt o f = tt
  Found-skip low j w m ((k, v) ∷ l) lt (le, o) (f, fs) = (
    elim (Bool-cases (j == k)) [ inl e ↦ absurd (omega (arith, ==→eq j k e)) | inr e ↦ rw e f ],
    Found-skip (suc k) j w m l (omega arith) o fs,
  )

  pub Ordered-Found : (low : ℕ) (m : List (ℕ × V)) → Ordered low m → Found m m
  unfolding find
  Ordered-Found low [] o = tt
  Ordered-Found low ((k, v) ∷ m) (le, o) = (
    rw (eq→== k k refl) refl,
    Found-skip (suc k) k v m m (omega arith) o (Ordered-Found (suc k) m o),
  )
