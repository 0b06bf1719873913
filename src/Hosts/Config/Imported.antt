-- ===== src/Hosts/Config/Imported.antt =====
-- A configuration that is imported, whatever it says, leaves the store valid and written.
use mathlib.Core.Bool.{false≢true}
use longterm.Base.{
  ℕ, suc, ◌+◌, ◌≤◌, ◌≡◌, refl, sym, ◌∙◌, true, false, ◌||◌, none, some, List, [], ◌∷◌, arith, leb,
  ◌==◌, if_intro, option_intro, Bool-cases, Option-cases, inl, inr, length, is_empty,
}
use longterm.Base.Text.{Text, same, same→eq}
use longterm.Hosts.Host.{Host, Form, max_hosts}
use longterm.Hosts.Store.{Store, find, change}
use longterm.Hosts.Store.Invariant.{IsValid, change-IsValid}
use longterm.Hosts.Store.Keeps.{IsGoodIn, IsGood, save_host-IsGood, same-IsHost}
use longterm.Hosts.Store.Refine.{same-find}
use longterm.Hosts.Store.Saved.{saved_as, save_host-found}
use longterm.Hosts.Copy.{set_batch}
use longterm.Hosts.Config.Fields.{Qt}
use longterm.Hosts.Config.Parse.{Imported, read_config}
use longterm.Hosts.Config.Import.{
  find_name, host_at, id_of, import_form, import_entry, import_entries, set_jump, set_jumps,
  import_config, row_where,
}

-- Ids that differ, none of them empty or that of a host.
pub record AreFresh (fresh : ℕ → Text) (hs : List Host) : Type 0 where
  pub filled : (i : ℕ) → is_empty (fresh i) ≡ false
  pub distinct : (i j : ℕ) → fresh i ≡ fresh j → i ≡ j
  pub unused : (i : ℕ) → find (fresh i) hs ≡ none

saved_as-none :
    (new id j : Text) (form : Form) (hs : List Host)
    → find j hs ≡ none
    → same new j ≡ false
    → saved_as new id form hs j ≡ none
saved_as-none new id j form hs gone other = elim (Option-cases (find id hs)) [
  | inr (old, found) ↦ elim (Bool-cases (same id j)) [
    | inl e ↦ absurd (some_none (sym found ∙ same-find id j hs e ∙ gone))
    | inr e ↦ rw (saved_as, found, e) gone
  ]
  | inl lost ↦ elim (Bool-cases (leb max_hosts (length hs))) [
    | inl full ↦ rw (saved_as, lost, full) gone
    | inr room ↦ rw (saved_as, lost, room, other) gone
  ]
]
  where
    some_none : {h : Host} → some h ≡ none → ⊥
    some_none e = cc

module _ (fresh : ℕ → Text) (first : List Host) (f : AreFresh fresh first) where
  -- The ids that were not given out yet.
  Left : ℕ → Store → Type 0
  Left i s = (j : ℕ) → i ≤ j → find (fresh j) s.hosts ≡ none

  ids_differ : (i j : ℕ) → suc i ≤ j → same (fresh i) (fresh j) ≡ false
  ids_differ i j lt = elim (Bool-cases (same (fresh i) (fresh j))) [
    | inl e ↦ absurd (omega (arith, lt, f.distinct i j (same→eq (fresh i) (fresh j) e)))
    | inr e ↦ e
  ]

  import_entry-IsGood :
      (i : ℕ) (e : Imported) (s : Store)
      → Left i s
      → IsGoodIn true s
      → IsGoodIn true (import_entry (fresh i) e s).1 × Left (i + 1) (import_entry (fresh i) e s).1
  unfolding import_entry Left
  import_entry-IsGood i e s left g =
      let existing = host_at (find_name e.name s.hosts) s.hosts in
      let form = import_form e existing in
      (
        save_host-IsGood (fresh i) (id_of existing) form s (f.filled i) (left i (omega arith)) g,
        λ j lt.
            save_host-found (fresh i) (id_of existing) form s (fresh j) (left i (omega arith))
            ∙ saved_as-none (fresh i) (id_of existing) (fresh j) form s.hosts
                (left j (omega (arith, lt))) (ids_differ i j (omega (arith, lt))),
      )

  import_entries-IsGood :
      (i : ℕ) (es : List Imported) (s : Store)
      → Left i s
      → IsGoodIn true s
      → IsGoodIn true (import_entries fresh i es s).1
  unfolding import_entries
  import_entries-IsGood i [] s left g = g
  import_entries-IsGood i (e ∷ es) s left g =
      let (good, later) = import_entry-IsGood i e s left g in
      import_entries-IsGood (i + 1) es (import_entry (fresh i) e s).1 later good

set_jump-IsValid :
    (id : Text) (e : Imported) (hs : List Host) → IsValid hs → IsValid (set_jump id e hs)
unfolding set_jump
set_jump-IsValid id e hs v =
    option_intro IsValid (find_name e.jump hs) (λ _. v)
      (λ jump_row _.
        option_intro IsValid (row_where (λ h. same h.id id) hs) (λ _. v)
          (λ row _.
            if_intro IsValid (is_empty e.jump || jump_row == row) hs
              (change id (λ h. record h { jump_host_id = id_of (host_at (some jump_row) hs) }) hs)
              (λ _. v)
              (λ _.
                change-IsValid id
                  (λ h. record h { jump_host_id = id_of (host_at (some jump_row) hs) })
                  (λ h _. refl) hs (λ h _. same-IsHost _ h refl refl refl refl) v)))

set_jumps-IsValid :
    (ids : List (Text × Imported)) (hs : List Host) → IsValid hs → IsValid (set_jumps ids hs)
unfolding set_jumps
set_jumps-IsValid [] hs v = v
set_jumps-IsValid ((id, e) ∷ ids) hs v =
    set_jumps-IsValid ids (set_jump id e hs) (set_jump-IsValid id e hs v)

pub import_config-IsGood :
    (qt : Qt) (fresh : ℕ → Text) (config : Text) (s : Store)
    → AreFresh fresh s.hosts
    → IsGood s
    → IsGood (import_config qt fresh config s).1
unfolding import_config
import_config-IsGood qt fresh config s f g =
    let started : IsGoodIn true (set_batch true s) = record {
      valid = g.valid;
      written = λ e. absurd (false≢true (sym e));
      mode = refl;
    } in
    let entries = read_config qt config in
    let read = import_entries fresh 0 entries (set_batch true s) in
    let good =
      import_entries-IsGood fresh s.hosts f 0 entries (set_batch true s)
        (unfold Left in λ j _. f.unused j) started in
    record {
      valid = set_jumps-IsValid read.0 read.1.hosts good.valid;
      written = λ _. refl;
      mode = refl;
    }
