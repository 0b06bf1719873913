-- ===== src/Mosh/Fragment/Agree.antt =====
-- An assembly whose arrived parts are those of one payload, at their places.
use longterm.Base.{
  ℕ, zero, suc, ◌+◌, ◌-◌, ◌≤◌, ◌≡◌, refl, ap, Bool, true, false, some, List, [], ◌∷◌, arith, length,
  replicate, get_elem?, set, length-replicate,
}
use native.Mathlib.Nat.{sub-zero}
use longterm.Base.Words.{Bytes}
use longterm.Mosh.Fragment.{resize, count_true}

-- What arrived is the part of the payload at its place, and no place is beyond the payload.
abbrev pub Agree : List Bytes → List Bool → List Bytes → Type 0
Agree [] [] ts = Unit
Agree (p ∷ ps) (b ∷ bs) (t ∷ ts) = (b ≡ true → p ≡ t) × Agree ps bs ts
Agree (p ∷ ps) (b ∷ bs) [] = ⊥
Agree [] (b ∷ bs) ts = ⊥
Agree (p ∷ ps) [] ts = ⊥

pub Agree-replicate :
    (n : ℕ) (ts : List Bytes) → n ≤ length ts → Agree (replicate n []) (replicate n false) ts
Agree-replicate zero ts h = tt
Agree-replicate (suc n) [] h = absurd (omega arith)
Agree-replicate (suc n) (t ∷ ts) h = (λ e. cc, Agree-replicate n ts (omega arith))

pub resize-nil {ℓ} : {A : Type ℓ} (n : ℕ) (a : A) → resize n a [] ≡ replicate n a
unfolding resize
resize-nil zero a = refl
resize-nil (suc n) a = rw (sub-zero)

pub resize-zero {ℓ} : {A : Type ℓ} (a : A) (xs : List A) → resize 0 a xs ≡ []
unfolding resize
resize-zero a xs = let e : 0 - length xs ≡ 0 = omega arith in rw e

pub resize-cons {ℓ} :
    {A : Type ℓ} (n : ℕ) (a x : A) (xs : List A) → resize (suc n) a (x ∷ xs) ≡ x ∷ resize n a xs
unfolding resize
resize-cons n a x xs = let e : suc n - suc (length xs) ≡ n - length xs = omega arith in rw e

pub Agree-resize :
    (n : ℕ) (ps : List Bytes) (bs : List Bool) (ts : List Bytes)
    → Agree ps bs ts
    → n ≤ length ts
    → Agree (resize n [] ps) (resize n false bs) ts
Agree-resize n [] [] ts a h =
    rw (resize-nil {A = Bytes} n [], resize-nil n false) (Agree-replicate n ts h)
Agree-resize zero (p ∷ ps) (b ∷ bs) (t ∷ ts) a h =
    rw (resize-zero {A = Bytes} [] (p ∷ ps), resize-zero false (b ∷ bs)) tt
Agree-resize (suc n) (p ∷ ps) (b ∷ bs) (t ∷ ts) a h =
    rw (resize-cons n [] p ps, resize-cons n false b bs)
      (a.0, Agree-resize n ps bs ts a.1 (omega arith))
Agree-resize n (p ∷ ps) (b ∷ bs) [] a h = absurd a
Agree-resize n [] (b ∷ bs) ts a h = absurd a
Agree-resize n (p ∷ ps) [] ts a h = absurd a

pub Agree-set :
    (i : ℕ) (ps : List Bytes) (bs : List Bool) (ts : List Bytes) (t : Bytes)
    → Agree ps bs ts
    → get_elem? ts i ≡ some t
    → Agree (set ps i t) (set bs i true) ts
Agree-set i [] [] ts t a h = tt
Agree-set zero (p ∷ ps) (b ∷ bs) (u ∷ ts) t a h = (λ e. cc, a.1)
Agree-set (suc i) (p ∷ ps) (b ∷ bs) (u ∷ ts) t a h = (a.0, Agree-set i ps bs ts t a.1 h)
Agree-set i (p ∷ ps) (b ∷ bs) [] t a h = absurd a
Agree-set i [] (b ∷ bs) ts t a h = absurd a
Agree-set i (p ∷ ps) [] ts t a h = absurd a

pub count_true-le :
    (ps : List Bytes) (bs : List Bool) (ts : List Bytes)
    → Agree ps bs ts
    → count_true bs ≤ length ts
unfolding count_true
count_true-le [] [] ts a = omega arith
count_true-le (p ∷ ps) (true ∷ bs) (t ∷ ts) a = omega (arith, count_true-le ps bs ts a.1)
count_true-le (p ∷ ps) (false ∷ bs) (t ∷ ts) a = omega (arith, count_true-le ps bs ts a.1)
count_true-le (p ∷ ps) (b ∷ bs) [] a = absurd a
count_true-le [] (b ∷ bs) ts a = absurd a
count_true-le (p ∷ ps) [] ts a = absurd a

-- When as many arrived as the payload has, they are all of it.
pub Agree-complete :
    (ps : List Bytes) (bs : List Bool) (ts : List Bytes)
    → Agree ps bs ts
    → count_true bs ≡ length ts
    → ps ≡ ts
unfolding count_true
Agree-complete [] [] [] a e = refl
Agree-complete [] [] (t ∷ ts) a e = absurd (omega arith)
Agree-complete (p ∷ ps) (true ∷ bs) (t ∷ ts) a e =
    let q : p ≡ t = a.0 refl in let r : ps ≡ ts = Agree-complete ps bs ts a.1 (omega arith) in cc
Agree-complete (p ∷ ps) (false ∷ bs) (t ∷ ts) a e =
    absurd (omega (arith, count_true-le ps bs ts a.1))
Agree-complete (p ∷ ps) (b ∷ bs) [] a e = absurd a
Agree-complete [] (b ∷ bs) ts a e = absurd a
Agree-complete (p ∷ ps) [] ts a e = absurd a

pub count_true-replicate : (n : ℕ) → count_true (replicate n false) ≡ 0
unfolding count_true
count_true-replicate zero = refl
count_true-replicate (suc n) = count_true-replicate n

pub count_true-set :
    (i : ℕ) (bs : List Bool)
    → get_elem? bs i ≡ some false
    → count_true (set bs i true) ≡ count_true bs + 1
unfolding count_true
count_true-set i [] h = cc
count_true-set zero (true ∷ bs) h = cc
count_true-set zero (false ∷ bs) h = omega arith
count_true-set (suc i) (true ∷ bs) h = omega (arith, count_true-set i bs h)
count_true-set (suc i) (false ∷ bs) h = count_true-set i bs h

-- Growing adds places where nothing arrived.
pub count_true-resize :
    (n : ℕ) (bs : List Bool) → length bs ≤ n → count_true (resize n false bs) ≡ count_true bs
unfolding count_true
count_true-resize n [] h = rw (resize-nil n false) (count_true-replicate n)
count_true-resize zero (b ∷ bs) h = absurd (omega arith)
count_true-resize (suc n) (true ∷ bs) h =
    rw (resize-cons n false true bs) (ap suc (count_true-resize n bs (omega arith)))
count_true-resize (suc n) (false ∷ bs) h =
    rw (resize-cons n false false bs) (count_true-resize n bs (omega arith))

pub Agree-length :
    (ps : List Bytes) (bs : List Bool) (ts : List Bytes) → Agree ps bs ts → length bs ≡ length ps
Agree-length [] [] ts a = refl
Agree-length (p ∷ ps) (b ∷ bs) (t ∷ ts) a = ap suc (Agree-length ps bs ts a.1)
Agree-length (p ∷ ps) (b ∷ bs) [] a = absurd a
Agree-length [] (b ∷ bs) ts a = absurd a
Agree-length (p ∷ ps) [] ts a = absurd a

pub length-resize {ℓ} : {A : Type ℓ} (n : ℕ) (a : A) (xs : List A) → length (resize n a xs) ≡ n
length-resize n a [] = rw (resize-nil n a) (length-replicate n a)
length-resize zero a (x ∷ xs) = rw (resize-zero a (x ∷ xs))
length-resize (suc n) a (x ∷ xs) = rw (resize-cons n a x xs) (ap suc (length-resize n a xs))
