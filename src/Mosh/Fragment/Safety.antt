-- ===== src/Mosh/Fragment/Safety.antt =====
-- Whatever order the fragments come in, lost, repeated or mixed, only whole payloads come out.
use longterm.Base.{
  ℕ, suc, ◌+◌, ◌≤◌, ◌<◌, ◌^◌, ◌≡◌, ◌⊎◌, inl, inr, refl, sym, ap, ◌∙◌, Bool, true, false, Option,
  none, some, List, [], ◌∷◌, arith, ltb, leb, ◌==◌, length, get_elem?, All, Bool-cases, ltb→lt,
  get_elem?-lt, lt-get_elem?, ==→eq,
}
use mathlib.Core.Path.{subst}
use longterm.Base.Words.{Bytes}
use longterm.Mosh.Fragment.{
  Assembly, no_assembly, max_fragments, fragment, count_true, select, make_room, place, close,
  concat, is_complete, finish, accept, receive_fragment, collect, deliver,
}
use longterm.Mosh.Fragment.Agree.{
  Agree, Agree-replicate, Agree-resize, Agree-set, Agree-complete, Agree-length, length-resize,
  count_true-replicate, count_true-set, count_true-resize,
}
use longterm.Mosh.Fragment.Codec.{receive_fragment-fragment}

-- The assembly holds parts of the payload that `ts` is cut into.
pub record Holds (ts : List Bytes) (a : Assembly) : Type 0 where
  pub agree : Agree a.parts a.arrived ts
  pub counted : a.count ≡ count_true a.arrived
  pub total : (a.total ≡ none) ⊎ (a.total ≡ some (length ts))

module _ (ts : List Bytes) (i : ℕ) (within : i < length ts) where
  make_room-Holds : (a : Assembly) → Holds ts a → Holds ts (make_room a i)
  unfolding make_room
  make_room-Holds a h = elim (Bool-cases (ltb (length a.parts) (i + 1))) [
    | inl e ↦
        rw (e, make_room)
          (record {
            agree = Agree-resize (i + 1) a.parts a.arrived ts h.agree (omega arith);
            counted =
                h.counted
                ∙ sym (
                    count_true-resize (i + 1) a.arrived
                      (omega (arith, Agree-length a.parts a.arrived ts h.agree, ltb→lt _ _ e)));
            total = h.total;
          })
    | inr e ↦ rw (e, make_room) h
  ]

  make_room-lt : (a : Assembly) → Holds ts a → i < length (make_room a i).arrived
  unfolding make_room
  make_room-lt a h =
      ground
        (arith, length-resize (i + 1) false a.arrived, Agree-length a.parts a.arrived ts h.agree)

  place-Holds :
      (a : Assembly) (t : Bytes) (o : Option Bool)
      → Holds ts a
      → i < length a.arrived
      → get_elem? ts i ≡ some t
      → get_elem? a.arrived i ≡ o
      → Holds ts (place a i t)
  unfolding place
  place-Holds a t none h lt e q = let (b, p) = get_elem?-lt a.arrived i lt in cc
  place-Holds a t (some true) h lt e q = rw (q, place) h
  place-Holds a t (some false) h lt e q =
      rw (q, place)
        (record {
          agree = Agree-set i a.parts a.arrived ts t h.agree e;
          counted = omega (arith, h.counted, count_true-set i a.arrived q);
          total = h.total;
        })

  close-Holds :
      (a : Assembly) (final : Bool)
      → Holds ts a
      → final ≡ (suc i == length ts)
      → Holds ts (close a i final)
  unfolding close
  close-Holds a true h e = record {
    agree = Agree-resize (i + 1) a.parts a.arrived ts h.agree (omega arith);
    counted = refl;
    total = inr (ground arith);
  }
  close-Holds a false h e = h

-- What comes out is the payload, and what stays holds parts of it.
abbrev Whole : List Bytes → Assembly × Option Bytes → Type 0
Whole ts (a, out) = Holds ts a × ((out ≡ none) ⊎ (out ≡ some (concat ts)))

finished-Holds :
    (id : ℕ) (ts : List Bytes)
    → Holds ts (record { id = id; parts = []; arrived = []; count = 0; total = none })
unfolding count_true
finished-Holds id ts = record { agree = tt; counted = refl; total = inl refl }

complete_count : (a : Assembly) (n : ℕ) → is_complete a ≡ true → a.total ≡ some n → a.count ≡ n
unfolding is_complete
complete_count a n e t = ground arith

incomplete : (a : Assembly) → a.total ≡ none → is_complete a ≡ true → ⊥
unfolding is_complete
incomplete a t e = ground arith

finish-Whole : (ts : List Bytes) (a : Assembly) → Holds ts a → Whole ts (finish a)
unfolding finish
finish-Whole ts a h = elim (Bool-cases (is_complete a)) [
  | inl e ↦ rw (e, finish) (finished-Holds a.id ts, inr (ap (λ ps. some (concat ps)) (all e)))
  | inr e ↦ rw (e, finish) (h, inl refl)
]
  where
    all : is_complete a ≡ true → a.parts ≡ ts
    all e = elim h.total [
      | inl n ↦ absurd (incomplete a n e)
      | inr n ↦ Agree-complete a.parts a.arrived ts h.agree (sym h.counted ∙ complete_count a _ e n)
    ]

select-Holds :
    (sent : ℕ → List Bytes) (a : Assembly) (id i : ℕ)
    → Holds (sent a.id) a
    → i < length (sent id)
    → Holds (sent id) (select a id i)
unfolding select
select-Holds sent a id i h lt = elim (Bool-cases (id == a.id)) [
  | inl e ↦ rw (e, select) (subst (λ j. Holds (sent j) a) (sym (==→eq id a.id e)) h)
  | inr e ↦
      rw (e, select)
        (record {
          agree = Agree-replicate (i + 1) (sent id) (omega arith);
          counted = sym (count_true-replicate (i + 1));
          total = inl refl;
        })
]

make_room-id : (a : Assembly) (i : ℕ) → (make_room a i).id ≡ a.id
unfolding make_room
make_room-id a i = ground arith

place-id : (a : Assembly) (i : ℕ) (t : Bytes) → (place a i t).id ≡ a.id
unfolding place
place-id a i t = ground arith

close-id : (a : Assembly) (i : ℕ) (final : Bool) → (close a i final).id ≡ a.id
unfolding close
close-id a i true = refl
close-id a i false = refl

finish-id : (a : Assembly) → (finish a).0.id ≡ a.id
unfolding finish
finish-id a = ground arith

select-id : (a : Assembly) (id i : ℕ) → (select a id i).id ≡ id
unfolding select
select-id a id i = ground arith

-- What was sent under each id: the parts of its payload, in order.
module _ (sent : ℕ → List Bytes) where
  -- One of the fragments of a payload that was sent.
  pub record IsSent (f : Bytes) : Type 0 where
    pub id : ℕ
    pub number : ℕ
    pub part : Bytes
    pub id_fits : id < 2 ^ 64
    pub allowed : length (sent id) ≤ max_fragments
    pub found : get_elem? (sent id) number ≡ some part
    pub written : f ≡ fragment id number (suc number == length (sent id)) part

  accept-Whole :
      (a : Assembly) (id number : ℕ) (part : Bytes)
      → Holds (sent a.id) a
      → length (sent id) ≤ max_fragments
      → get_elem? (sent id) number ≡ some part
      → Whole (sent id) (accept a id number (suc number == length (sent id)) part)
        × ((accept a id number (suc number == length (sent id)) part).0.id ≡ id)
  unfolding accept
  accept-Whole a id number part h fits e =
      let lt = lt-get_elem? (sent id) number e in
      let b = select a id number in
      let c = make_room b number in
      let d = place c number part in
      let hb = select-Holds sent a id number h lt in
      let hc = make_room-Holds (sent id) number lt b hb in
      let hd =
        place-Holds (sent id) number lt c part (get_elem? c.arrived number) hc
          (make_room-lt (sent id) number lt b hb) e refl in
      let f = close d number (suc number == length (sent id)) in
      rw (leb_false number (omega arith)) (
        finish-Whole (sent id) f (close-Holds (sent id) number lt d _ hd refl),
        finish-id f
            ∙ close-id d number _
            ∙ place-id c number part
            ∙ make_room-id b number
            ∙ select-id a id number,
      )
    where
      leb_false : (n : ℕ) → n < max_fragments → leb max_fragments n ≡ false
      leb_false n h = ground arith

  abbrev pub IsPayload : Bytes → Type 0
  IsPayload p = (id : ℕ) × (0 < length (sent id)) × (p ≡ concat (sent id))

  receive_sent :
      (a : Assembly) (f : Bytes)
      → Holds (sent a.id) a
      → (s : IsSent f)
      → Whole (sent s.id) (receive_fragment a f) × ((receive_fragment a f).0.id ≡ s.id)
  receive_sent a f h s =
      let lt = lt-get_elem? (sent s.id) s.number s.found in
      let fits : s.number < 32768 = omega (arith, s.allowed) in
      rw
        (
          s.written,
          receive_fragment-fragment a s.id s.number (suc s.number == length (sent s.id)) s.part
              s.id_fits fits,
        )
        (accept-Whole a s.id s.number s.part h s.allowed s.found)

  collect-All :
      (o : Option Bytes) (later : List Bytes) (id : ℕ)
      → 0 < length (sent id)
      → (o ≡ none) ⊎ (o ≡ some (concat (sent id)))
      → All IsPayload later
      → All IsPayload (collect o later)
  unfolding collect
  collect-All none later id pos e all = all
  collect-All (some p) later id pos (inl e) all = cc
  collect-All (some p) later id pos (inr e) all =
      let q : p ≡ concat (sent id) = ground (arith, e) in ((id, pos, q), all)

  deliver_from :
      (a : Assembly) (fs : List Bytes)
      → Holds (sent a.id) a
      → All IsSent fs
      → All IsPayload (deliver a fs)
  unfolding deliver
  deliver_from a [] h all = tt
  deliver_from a (f ∷ fs) h (s, all) =
      let (whole, at_id) = receive_sent a f h s in
      let lt = lt-get_elem? (sent s.id) s.number s.found in
      collect-All _ _ s.id (omega arith) whole.1 (
        deliver_from (receive_fragment a f).0 fs
          (subst (λ j. Holds (sent j) (receive_fragment a f).0) (sym at_id) whole.0) all)

  -- A fresh client that receives fragments of payloads of at most MaxFragments parts each, in any
  -- order, any of them lost, repeated or mixed with those of another payload, puts together only
  -- payloads that were sent, each of them whole.
  pub deliver_sent : (fs : List Bytes) → All IsSent fs → All IsPayload (deliver no_assembly fs)
  deliver_sent fs all =
      deliver_from no_assembly fs (finished-Holds no_assembly.id (sent no_assembly.id)) all
