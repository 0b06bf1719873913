-- ===== src/Mosh/Fragment/InOrder.antt =====
-- A payload sent in fragments and received in order comes out, once and unchanged.
use longterm.Base.{
  ℕ, zero, suc, ◌+◌, ◌≤◌, ◌<◌, ◌^◌, ◌≡◌, refl, sym, ap, ◌∙◌, Bool, true, false, Option, none, some,
  List, [], ◌∷◌, ◌++◌, arith, ◌==◌, length, replicate, get_elem?, set, is_empty, append_assoc,
  length-append, length-replicate, lt→ltb, eq→==,
}
use longterm.Base.Words.{Bytes}
use longterm.Mosh.Fragment.{
  Assembly, max_fragments, fragment, resize, count_true, select, make_room, place, close, concat,
  is_complete, finish, accept, receive_fragment, collect, deliver,
}
use longterm.Mosh.Fragment.Agree.{resize-cons, resize-nil}
use longterm.Mosh.Fragment.Codec.{receive_fragment-fragment}

-- The first parts of a payload have arrived.
abbrev pub partial : ℕ → List Bytes → Assembly
partial id ps = record {
  id = id;
  parts = ps;
  arrived = replicate (length ps) true;
  count = length ps;
  total = none;
}

module _ {ℓ} {A : Type ℓ} where
  resize_one : (n : ℕ) (a : A) (xs : List A) → n ≡ length xs → resize (n + 1) a xs ≡ xs ++ a ∷ []
  resize_one zero a [] e = resize-nil 1 a
  resize_one (suc n) a (x ∷ xs) e =
      let q : suc n + 1 ≡ suc (n + 1) = omega arith in
      rw (q, resize-cons (n + 1) a x xs) (ap (◌∷◌ x) (resize_one n a xs (omega arith)))
  resize_one zero a (x ∷ xs) e = absurd (omega arith)
  resize_one (suc n) a [] e = absurd (omega arith)

  resize_same : (n : ℕ) (a : A) (xs : List A) → n ≡ length xs → resize n a xs ≡ xs
  resize_same zero a [] e = resize-nil 0 a
  resize_same (suc n) a (x ∷ xs) e =
      rw (resize-cons n a x xs) (ap (◌∷◌ x) (resize_same n a xs (omega arith)))
  resize_same zero a (x ∷ xs) e = absurd (omega arith)
  resize_same (suc n) a [] e = absurd (omega arith)

  set_last : (n : ℕ) (a b : A) (xs : List A) → n ≡ length xs → set (xs ++ a ∷ []) n b ≡ xs ++ b ∷ []
  set_last zero a b [] e = refl
  set_last (suc n) a b (x ∷ xs) e = ap (◌∷◌ x) (set_last n a b xs (omega arith))
  set_last zero a b (x ∷ xs) e = absurd (omega arith)
  set_last (suc n) a b [] e = absurd (omega arith)

  get_last : (n : ℕ) (a : A) (xs : List A) → n ≡ length xs → get_elem? (xs ++ a ∷ []) n ≡ some a
  get_last zero a [] e = refl
  get_last (suc n) a (x ∷ xs) e = get_last n a xs (omega arith)
  get_last zero a (x ∷ xs) e = absurd (omega arith)
  get_last (suc n) a [] e = absurd (omega arith)

  replicate-last : (n : ℕ) (a : A) → replicate n a ++ a ∷ [] ≡ replicate (suc n) a
  replicate-last zero a = refl
  replicate-last (suc n) a = ap (◌∷◌ a) (replicate-last n a)

count_all : (n : ℕ) → count_true (replicate n true) ≡ n
unfolding count_true
count_all zero = refl
count_all (suc n) = ap suc (count_all n)

module _ (id : ℕ) (ps : List Bytes) (t : Bytes) where
  abbrev n : ℕ
  n = length ps

  abbrev roomy : Assembly
  roomy = record {
    id = id;
    parts = ps ++ [] ∷ [];
    arrived = replicate n true ++ false ∷ [];
    count = n;
    total = none;
  }

  select_lem : select (partial id ps) id n ≡ partial id ps
  unfolding select
  select_lem = ground arith

  make_room_lem : make_room (partial id ps) n ≡ roomy
  unfolding make_room
  make_room_lem = rw (
    lt→ltb n (n + 1) (omega arith),
    resize_one n [] ps refl,
    resize_one n false (replicate n true) (sym (length-replicate n true)),
  )

  length-longer : length (ps ++ t ∷ []) ≡ suc n
  length-longer = omega (arith, length-append ps (t ∷ []))

  place_lem : place roomy n t ≡ partial id (ps ++ t ∷ [])
  unfolding place
  place_lem =
      let all = sym (length-replicate n true) in
      rw
        (
          get_last n false (replicate n true) all,
          place,
          set_last n [] t ps refl,
          set_last n false true (replicate n true) all,
          replicate-last n true,
          length-longer,
        )
        (let e : n + 1 ≡ suc n = omega arith in rw e)

  after_part_lem : place (make_room (select (partial id ps) id n) n) n t ≡ partial id (ps ++ t ∷ [])
  after_part_lem = rw (select_lem, make_room_lem, place_lem)

  accept_part :
      n < max_fragments → accept (partial id ps) id n false t ≡ (partial id (ps ++ t ∷ []), none)
  unfolding accept close finish is_complete
  accept_part h = rw after_part_lem (ground arith)

  abbrev fresh : Assembly
  fresh = record { id = id; parts = []; arrived = []; count = 0; total = none }

  accept_final :
      n < max_fragments → accept (partial id ps) id n true t ≡ (fresh, some (concat (ps ++ t ∷ [])))
  unfolding accept close finish is_complete
  accept_final h = rw after_part_lem (
      let l : n + 1 ≡ length (ps ++ t ∷ []) = omega (arith, length-longer) in
      let same =
        resize_same (n + 1) false (replicate (length (ps ++ t ∷ [])) true)
          (l ∙ sym (length-replicate (length (ps ++ t ∷ [])) true)) in
      rw (same, resize_same (n + 1) [] (ps ++ t ∷ []) l, count_all (length (ps ++ t ∷ [])))
        (ground (arith, l)))

abbrev one_place : ℕ → Assembly
one_place id = record { id = id; parts = [] ∷ []; arrived = false ∷ []; count = 0; total = none }

start_over :
    (a : Assembly) (id : ℕ) → (id == a.id) ≡ false → make_room (select a id 0) 0 ≡ one_place id
unfolding select make_room
start_over a id e = rw (e, select)

start_empty : (id : ℕ) → make_room (select (partial id []) id 0) 0 ≡ one_place id
unfolding select make_room resize
start_empty id = rw (eq→== id id refl, select)

-- Fragments of another id start over, so what was there before does not matter.
accept_first :
    (a : Assembly) (id : ℕ) (final : Bool) (t : Bytes)
    → (id == a.id) ≡ false
    → accept a id 0 final t ≡ accept (partial id []) id 0 final t
unfolding accept
accept_first a id final t e = rw (start_over a id e, start_empty id)

-- The parts of a payload, the last one marked.
abbrev pub marked : ℕ → ℕ → List Bytes → List Bytes
marked id number [] = []
marked id number (t ∷ ts) = fragment id number (is_empty ts) t ∷ marked id (number + 1) ts

deliver_one :
    (a : Assembly) (f : Bytes) (fs : List Bytes) (b : Assembly) (out : Option Bytes)
    → receive_fragment a f ≡ (b, out)
    → deliver a (f ∷ fs) ≡ collect out (deliver b fs)
unfolding deliver
deliver_one a f fs b out e = rw e

module _ (id : ℕ) (id_fits : id < 2 ^ 64) where
  deliver_rest :
      (ps : List Bytes) (t : Bytes) (ts : List Bytes) (number : ℕ)
      → number ≡ length ps
      → number + length (t ∷ ts) ≤ max_fragments
      → deliver (partial id ps) (marked id number (t ∷ ts)) ≡ concat (ps ++ t ∷ ts) ∷ []
  unfolding collect deliver
  deliver_rest ps t [] number e h =
      deliver_one _ _ [] (fresh id ps t) (some (concat (ps ++ t ∷ []))) (
        receive_fragment-fragment (partial id ps) id number true t id_fits (omega arith)
        ∙ rw e (accept_final id ps t (omega arith)))
  deliver_rest ps t (u ∷ ts) number e h =
      deliver_one _ _ (marked id (number + 1) (u ∷ ts)) (partial id (ps ++ t ∷ [])) none (
        receive_fragment-fragment (partial id ps) id number false t id_fits (omega arith)
        ∙ rw e (accept_part id ps t (omega arith)))
      ∙ deliver_rest (ps ++ t ∷ []) u ts (number + 1) (omega (arith, length-append ps (t ∷ [])))
          (omega arith)
      ∙ ap (λ l. concat l ∷ []) (append_assoc ps (t ∷ []) (u ∷ ts))

  receive_first :
      (a : Assembly) (final : Bool) (t : Bytes)
      → (id == a.id) ≡ false
      → receive_fragment a (fragment id 0 final t)
        ≡ receive_fragment (partial id []) (fragment id 0 final t)
  receive_first a final t e =
      receive_fragment-fragment a id 0 final t id_fits (omega arith)
      ∙ accept_first a id final t e
      ∙ sym (receive_fragment-fragment (partial id []) id 0 final t id_fits (omega arith))

  pub deliver-marked :
      (a : Assembly) (t : Bytes) (ts : List Bytes)
      → (id == a.id) ≡ false
      → length (t ∷ ts) ≤ max_fragments
      → deliver a (marked id 0 (t ∷ ts)) ≡ concat (t ∷ ts) ∷ []
  deliver-marked a t ts e h =
      deliver_one a _ (marked id 1 ts) _ _ (receive_first a (is_empty ts) t e)
      ∙ sym (deliver_one (partial id []) _ (marked id 1 ts) _ _ refl)
      ∙ deliver_rest [] t ts 0 refl (omega arith)

  pub deliver_all :
      (a : Assembly) (ts : List Bytes)
      → (id == a.id) ≡ false
      → 0 < length ts
      → length ts ≤ max_fragments
      → deliver a (marked id 0 ts) ≡ concat ts ∷ []
  deliver_all a [] e pos h = elim pos [ ]
  deliver_all a (t ∷ ts) e pos h = deliver-marked a t ts e h
