-- ===== src/Hosts/Store/Invariant.antt =====
-- What holds of the hosts after every operation.
use longterm.Base.{
  ℕ, suc, ◌≤◌, ◌<◌, ◌≡◌, refl, ap, ◌∙◌, false, none, some, List, map, [], ◌∷◌, ◌++◌, arith,
  if_intro, Bool-cases, inl, inr, length, length-append, All, is_empty,
}
use longterm.Base.Text.{Text, same, same_sym}
use longterm.Hosts.Host.{
  pos, negsuc, ℤ, Host, Form, edit, seconds, valid_port, max_hosts, max_keep_alive_interval,
  max_connect_timeout,
}
use longterm.Hosts.Store.{find, change, remove_at}
use longterm.Hosts.Store.Lookup.{
  find-map, KeepsId, Distinct, map_found, find-change, find-append, find-remove_at,
}

-- A host as the code leaves it: with an id, and its numbers in their ranges.
pub record IsHost (h : Host) : Type 0 where
  pub has_id : is_empty h.id ≡ false
  pub port_from : 1 ≤ h.port
  pub port_to : h.port ≤ 65535
  pub keep_alive : h.keep_alive_interval ≤ max_keep_alive_interval
  pub timeout : h.connect_timeout ≤ max_connect_timeout

pub record IsValid (hs : List Host) : Type 0 where
  pub few : length hs ≤ max_hosts
  pub distinct : Distinct hs
  pub each : All IsHost hs

pub valid_port_bounds : (p : ℤ) → (1 ≤ valid_port p) × (valid_port p ≤ 65535)
unfolding valid_port
valid_port_bounds (pos n) = ground arith
valid_port_bounds (negsuc n) = omega arith

pub seconds-le : (v : ℤ) (n : ℕ) → seconds v n ≤ n
unfolding seconds
seconds-le (pos m) n = ground arith
seconds-le (negsuc m) n = omega arith

pub edit-id : (form : Form) (h : Host) → (edit form h).id ≡ h.id
unfolding edit
edit-id form h = refl

pub edit-IsHost : (form : Form) (h : Host) → is_empty h.id ≡ false → IsHost (edit form h)
unfolding edit
edit-IsHost form h e = record {
  has_id = e;
  port_from = (valid_port_bounds form.port).0;
  port_to = (valid_port_bounds form.port).1;
  keep_alive = seconds-le form.options.keep_alive_interval max_keep_alive_interval;
  timeout = seconds-le form.options.connect_timeout max_connect_timeout;
}

-- A change of the hosts that leaves them valid, where each host stays one.
module _ (i : Text) (f : Host → Host) (keeps : KeepsId i f) where
  length-change : (hs : List Host) → length (change i f hs) ≡ length hs
  unfolding change
  length-change [] = refl
  length-change (h ∷ hs) = ground (arith, length-change hs)

  Distinct-change : (hs : List Host) → Distinct hs → Distinct (change i f hs)
  unfolding change
  Distinct-change [] d = tt
  Distinct-change (h ∷ hs) (gone, d) =
      if_intro Distinct (same h.id i) _ _ (λ e. (ap (λ x. find x hs) (keeps h e) ∙ gone, d))
        (λ e. (find-change i h.id f hs keeps ∙ rw (same_sym i h.id ∙ e) gone, Distinct-change hs d))

  All-change :
      (P : Host → Type 0) (hs : List Host)
      → ((h : Host) → find i hs ≡ some h → P h → P (f h))
      → All P hs
      → All P (change i f hs)
  unfolding change find
  All-change P [] keep all = tt
  All-change P (h ∷ hs) keep (p, all) =
      if_intro (All P) (same h.id i) _ _ (λ e. (keep h (rw e refl) p, all))
        (λ e. (p, All-change P hs (λ g found. keep g (rw e found)) all))

  pub change-IsValid :
      (hs : List Host)
      → ((h : Host) → find i hs ≡ some h → IsHost h → IsHost (f h))
      → IsValid hs
      → IsValid (change i f hs)
  change-IsValid hs keep v = record {
    few = rw (length-change hs) v.few;
    distinct = Distinct-change hs v.distinct;
    each = All-change IsHost hs keep v.each;
  }

-- A change of all hosts.
module _ (f : Host → Host) (keeps : (h : Host) → (f h).id ≡ h.id) where
  length-map : (hs : List Host) → length (map f hs) ≡ length hs
  length-map [] = refl
  length-map (h ∷ hs) = ap suc (length-map hs)

  Distinct-map : (hs : List Host) → Distinct hs → Distinct (map f hs)
  Distinct-map [] d = tt
  Distinct-map (h ∷ hs) (gone, d) = (
    ap (λ x. find x (map f hs)) (keeps h) ∙ find-map h.id f hs keeps ∙ ap (map_found f) gone,
    Distinct-map hs d,
  )

  All-map :
      (P : Host → Type 0) (hs : List Host)
      → ((h : Host) → P h → P (f h))
      → All P hs
      → All P (map f hs)
  All-map P [] keep all = tt
  All-map P (h ∷ hs) keep (p, all) = (keep h p, All-map P hs keep all)

  pub map-IsValid :
      (hs : List Host) → ((h : Host) → IsHost h → IsHost (f h)) → IsValid hs → IsValid (map f hs)
  map-IsValid hs keep v = record {
    few = rw (length-map hs) v.few;
    distinct = Distinct-map hs v.distinct;
    each = All-map IsHost hs keep v.each;
  }

module _ (i : Text) where
  length-remove_at : (hs : List Host) → length (remove_at i hs) ≤ length hs
  unfolding remove_at
  length-remove_at [] = omega arith
  length-remove_at (h ∷ hs) = ground (arith, length-remove_at hs)

  Distinct-remove_at : (hs : List Host) → Distinct hs → Distinct (remove_at i hs)
  unfolding remove_at
  Distinct-remove_at [] d = tt
  Distinct-remove_at (h ∷ hs) (gone, d) =
      if_intro Distinct (same h.id i) _ _ (λ _. d)
        (λ e. (find-remove_at i h.id hs d ∙ rw (same_sym i h.id ∙ e) gone, Distinct-remove_at hs d))

  All-remove_at : (P : Host → Type 0) (hs : List Host) → All P hs → All P (remove_at i hs)
  unfolding remove_at
  All-remove_at P [] all = tt
  All-remove_at P (h ∷ hs) (p, all) =
      if_intro (All P) (same h.id i) _ _ (λ _. all) (λ _. (p, All-remove_at P hs all))

  pub remove_at-IsValid : (hs : List Host) → IsValid hs → IsValid (remove_at i hs)
  remove_at-IsValid hs v = record {
    few = omega (arith, length-remove_at hs, v.few);
    distinct = Distinct-remove_at hs v.distinct;
    each = All-remove_at IsHost hs v.each;
  }

Distinct-append :
    (hs : List Host) (h : Host) → Distinct hs → find h.id hs ≡ none → Distinct (hs ++ h ∷ [])
unfolding find
Distinct-append [] h d gone = (refl, tt)
Distinct-append (g ∷ hs) h (first, d) gone = elim (Bool-cases (same g.id h.id)) [
  | inl e ↦ absurd (cc (rw e at gone))
  | inr e ↦ (
    find-append g.id hs h ∙ rw (first, same_sym h.id g.id ∙ e) refl,
    Distinct-append hs h d (rw e at gone),
  )
]

All-append : (P : Host → Type 0) (hs : List Host) (h : Host) → All P hs → P h → All P (hs ++ h ∷ [])
All-append P [] h all p = (p, tt)
All-append P (g ∷ hs) h (q, all) p = (q, All-append P hs h all p)

pub append-IsValid :
    (hs : List Host) (h : Host)
    → length hs < max_hosts
    → find h.id hs ≡ none
    → IsHost h
    → IsValid hs
    → IsValid (hs ++ h ∷ [])
append-IsValid hs h lt gone p v = record {
  few = omega (arith, length-append hs (h ∷ []));
  distinct = Distinct-append hs h v.distinct gone;
  each = All-append IsHost hs h v.each p;
}
