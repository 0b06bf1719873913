-- ===== src/Hosts/Store/Keeps.antt =====
-- Every operation of the store, and every answer of the vault, leaves it valid and written.
use mathlib.Core.Bool.{false≢true}
use longterm.Base.{
  option_intro, All, ◌≡◌, refl, sym, ap, ◌∙◌, Bool, false, ◌&&◌, ◌||◌, not, none, some, List, [],
  ◌∷◌, ◌++◌, map, arith, leb, if_intro, Bool-cases, inl, inr, length, is_empty,
}
use mathlib.Core.Path.{subst}
use longterm.Base.Text.{Text, same, same→eq}
use longterm.Hosts.Host.{Host, Form, edit, new_host, max_hosts}
use longterm.Hosts.Store.{
  Store, Request, HostError, find, change, save, ask, set_error, change_saved, same_flag, save_host,
  put_host, save_password, set_has_password, no_error, too_many_hosts,
}
use longterm.Hosts.Store.Invariant.{
  IsHost, IsValid, edit-id, edit-IsHost, change-IsValid, map-IsValid, append-IsValid,
}

some_inj : {a b : Host} → some a ≡ some b → a ≡ b
some_inj e = cc

-- The hosts are valid, and the settings file holds them where nothing is saved in one go.
pub record IsGoodIn (batch : Bool) (s : Store) : Type 0 where
  pub valid : IsValid s.hosts
  pub written : batch ≡ false → s.saved ≡ s.hosts
  pub mode : s.batch ≡ batch

abbrev pub IsGood : Store → Type 0
IsGood s = IsGoodIn false s

pub find-id : (id : Text) (hs : List Host) {h : Host} → find id hs ≡ some h → h.id ≡ id
unfolding find
find-id id [] e = cc
find-id id (g ∷ hs) e = elim (Bool-cases (same g.id id)) [
  | inl d ↦
      let q : some g ≡ some _ = rw d at e in ap (λ x. x.id) (some_inj (sym q)) ∙ same→eq g.id id d
  | inr d ↦ find-id id hs (rw d at e)
]

pub found-IsHost :
    (id : Text) (hs : List Host) {h : Host} → All IsHost hs → find id hs ≡ some h → IsHost h
unfolding find
found-IsHost id [] all e = cc
found-IsHost id (g ∷ hs) (p, all) e = elim (Bool-cases (same g.id id)) [
  | inl d ↦ let q : some g ≡ some _ = rw d at e in subst IsHost (some_inj q) p
  | inr d ↦ found-IsHost id hs all (rw d at e)
]

pub ask-IsGood : {b : Bool} (r : Request) (s : Store) → IsGoodIn b s → IsGoodIn b (ask r s)
ask-IsGood {b} r s g = record { valid = g.valid; written = g.written; mode = g.mode }

pub set_error-IsGood :
    {b : Bool} (e : HostError) (s : Store) → IsGoodIn b s → IsGoodIn b (set_error e s)
set_error-IsGood {b} e s g = record { valid = g.valid; written = g.written; mode = g.mode }

-- A change of a host that leaves its id and its numbers.
abbrev pub Harmless : (Host → Host) → Type 0
Harmless f = (h : Host) → ((f h).id ≡ h.id) × (IsHost h → IsHost (f h))

pub change_saved-IsGood :
    {b : Bool} (id : Text) (f : Host → Host) (s : Store)
    → Harmless f
    → IsGoodIn b s
    → IsGoodIn b (change_saved id f s)
change_saved-IsGood {b} id f s ok g = record {
  valid = change-IsValid id f (λ h _. (ok h).0) s.hosts (λ h _. (ok h).1) g.valid;
  written = λ _. refl;
  mode = g.mode;
}

pub map_saved-IsGood :
    (f : Host → Host) (s : Store)
    → Harmless f
    → IsGood s
    → IsGood (save (record s { hosts = map f s.hosts }))
map_saved-IsGood f s ok g = record {
  valid = map-IsValid f (λ h. (ok h).0) s.hosts (λ h. (ok h).1) g.valid;
  written = λ _. refl;
  mode = g.mode;
}

-- The fields that `IsHost` is about are the same.
pub same-IsHost :
    (g h : Host)
    → g.id ≡ h.id
    → g.port ≡ h.port
    → g.keep_alive_interval ≡ h.keep_alive_interval
    → g.connect_timeout ≡ h.connect_timeout
    → IsHost h
    → IsHost g
same-IsHost g h i p k c v = record {
  has_id = ap is_empty i ∙ v.has_id;
  port_from = omega (arith, v.port_from);
  port_to = omega (arith, v.port_to);
  keep_alive = omega (arith, v.keep_alive);
  timeout = omega (arith, v.timeout);
}

pub set_has_password-IsGood :
    {b : Bool} (id : Text) (has : Bool) (s : Store)
    → IsGoodIn b s
    → IsGoodIn b (set_has_password id has s)
unfolding set_has_password
set_has_password-IsGood {b} id has s g =
    option_intro (IsGoodIn b) (find id s.hosts) (λ _. g)
      (λ h _.
        if_intro (IsGoodIn b) (same_flag h.has_password has) _ _ (λ _. g)
          (λ _.
            change_saved-IsGood id (λ h. record h { has_password = has }) s
              (λ h. (refl, same-IsHost _ h refl refl refl refl)) g))

save_password-IsGood :
    {b : Bool} (form : Form) (h : Host) (s : Store)
    → IsGoodIn b s
    → IsGoodIn b (save_password form h s)
unfolding save_password
save_password-IsGood {b} form h s g =
    if_intro (IsGoodIn b)
      (is_empty form.key_id && (form.remember_password && not (is_empty form.password))) _ _
      (λ _. ask-IsGood _ s g)
      (λ _.
        if_intro (IsGoodIn b)
          ((not (is_empty form.key_id) || not form.remember_password) && h.has_password) _ _
          (λ _. ask-IsGood _ _ (set_has_password-IsGood h.id false s g)) (λ _. g))

put_host-IsGood :
    {b : Bool} (form : Form) (h : Host) (hs : List Host) (s : Store)
    → IsGoodIn b s
    → IsValid hs
    → IsGoodIn b (put_host form h hs s).1
unfolding put_host
put_host-IsGood {b} form h hs s g v = save_password-IsGood form h _ (
    set_error-IsGood no_error _ (
      if_intro (IsGoodIn b) s.batch _ _
        (λ e. record {
          valid = v;
          written = λ f. absurd (false≢true (sym f ∙ sym g.mode ∙ e));
          mode = g.mode;
        })
        (λ _. record { valid = v; written = λ _. refl; mode = g.mode })))

pub new_host-id : (fresh : Text) → (new_host fresh).id ≡ fresh
unfolding new_host
new_host-id fresh = refl

pub save_host-IsGood :
    {b : Bool} (fresh id : Text) (form : Form) (s : Store)
    → is_empty fresh ≡ false
    → find fresh s.hosts ≡ none
    → IsGoodIn b s
    → IsGoodIn b (save_host fresh id form s).1
unfolding save_host
save_host-IsGood {b} fresh id form s ne unused g =
    option_intro (λ (r : Text × Store). IsGoodIn b r.1) (find id s.hosts)
      (λ _.
        if_intro (λ (r : Text × Store). IsGoodIn b r.1) (leb max_hosts (length s.hosts)) _ _
          (λ _. set_error-IsGood too_many_hosts s g)
          (λ more.
            put_host-IsGood form (edit form (new_host fresh))
              (s.hosts ++ edit form (new_host fresh) ∷ []) s g
              (append-IsValid s.hosts (edit form (new_host fresh)) (ground (arith, more))
                (ap (λ x. find x s.hosts) (edit-id form (new_host fresh) ∙ new_host-id fresh)
                  ∙ unused)
                (edit-IsHost form (new_host fresh) (ap is_empty (new_host-id fresh) ∙ ne))
                g.valid)))
      (λ old found.
        put_host-IsGood form (edit form old) (change id (λ _. edit form old) s.hosts) s g (
          change-IsValid id (λ _. edit form old)
            (λ h e. edit-id form old ∙ find-id id s.hosts found ∙ sym (same→eq h.id id e)) s.hosts
            (λ h e p. edit-IsHost form old (found-IsHost id s.hosts g.valid.each found).has_id)
            g.valid))
