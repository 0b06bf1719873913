-- ===== src/Hosts/Store/Reach.antt =====
-- A run of the store: what the user asks for, in any order, and the answers of the vault between.
-- The restoring of a backup is apart, in Hosts/Copy.
use mathlib.Core.Path.{subst}
use longterm.Base.{refl, sym, arith, ℕ, ◌≡◌, Bool, false, Option, none, is_empty, List, []}
use longterm.Base.Text.{Text}
use longterm.Hosts.Host.{Host, Form}
use longterm.Hosts.Store.{
  Store, find, save_host, remember_password, password_stored, forget_key, set_system, remove_host,
  set_favorite, set_key, mark_used, no_error,
}
use longterm.Hosts.Store.Keeps.{IsGood, save_host-IsGood}
use longterm.Hosts.Store.Changes.{
  remember_password-IsGood, password_stored-IsGood, forget_key-IsGood, set_system-IsGood,
  remove_host-IsGood, set_favorite-IsGood, set_key-IsGood, mark_used-IsGood,
}
use longterm.Hosts.Config.Fields.{Qt}
use longterm.Hosts.Config.Import.{import_config}
use longterm.Hosts.Config.Imported.{AreFresh, import_config-IsGood}
use longterm.Hosts.Copy.{duplicate_host}
use longterm.Hosts.Copy.Duplicate.{duplicate_host-IsGood}
use longterm.Hosts.Settings.{load, save_entries}
use longterm.Hosts.Settings.RoundTrip.{load-save_entries}
use longterm.Hosts.Store.Invariant.{IsValid}

-- The store of a new process: what it reads from the settings file.
abbrev pub start : List Host → Store
start saved = record {
  hosts = load (save_entries saved);
  saved = saved;
  batch = false;
  error = no_error;
  requests = [];
}

-- `Step s t`: one call, or one answer of the vault, takes the store from `s` to `t`. An id that
-- `QUuid::createUuid` gives is not empty, and no host has it yet.
pub data Step : Store → Store → Type 0 where
  saves :
      {s : Store} (fresh id : Text) (form : Form)
      → is_empty fresh ≡ false
      → find fresh s.hosts ≡ none
      → Step s (save_host fresh id form s).1
  remembers : {s : Store} (id password : Text) → Step s (remember_password id password s)
  answers : {s : Store} (id : Text) (answer : Option Text) → Step s (password_stored id answer s)
  forgets : {s : Store} (key : Text) → Step s (forget_key key s)
  detects :
      {s : Store} (id system_id system_name : Text) → Step s (set_system id system_id system_name s)
  removes : {s : Store} (id : Text) → Step s (remove_host id s)
  marks : {s : Store} (id : Text) (favorite : Bool) → Step s (set_favorite id favorite s)
  keys : {s : Store} (id key : Text) → Step s (set_key id key s)
  duplicates :
      {s : Store} (copy : Text → ℕ → Text) (fresh id : Text)
      → is_empty fresh ≡ false
      → find fresh s.hosts ≡ none
      → Step s (duplicate_host copy fresh id s).1
  imports :
      {s : Store} (qt : Qt) (fresh : ℕ → Text) (config : Text)
      → AreFresh fresh s.hosts
      → Step s (import_config qt fresh config s).1
  restarts : {s : Store} → Step s (start s.saved)
  uses : {s : Store} (now : ℕ) (id : Text) → Step s (mark_used now id s)

-- From a new installation, by any number of steps.
pub data Reachable : Store → Type 0 where
  begins : Reachable (start [])
  goes_on : {s t : Store} → Reachable s → Step s t → Reachable t

no_hosts : IsValid []
no_hosts = record { few = omega arith; distinct = tt; each = tt }

start-IsGood : (hosts : List Host) → IsValid hosts → IsGood (start hosts)
start-IsGood hosts v = record {
  valid = subst IsValid (sym (load-save_entries hosts v)) v;
  written = λ _. sym (load-save_entries hosts v);
  mode = refl;
}

Step-IsGood : {s t : Store} → Step s t → IsGood s → IsGood t
Step-IsGood {s} (saves fresh id form ne unused) g = save_host-IsGood fresh id form s ne unused g
Step-IsGood {s} (remembers id password) g = remember_password-IsGood id password s g
Step-IsGood {s} (answers id answer) g = password_stored-IsGood id answer s g
Step-IsGood {s} (forgets key) g = forget_key-IsGood key s g
Step-IsGood {s} (detects id system_id system_name) g =
    set_system-IsGood id system_id system_name s g
Step-IsGood {s} (removes id) g = remove_host-IsGood id s g
Step-IsGood {s} (marks id favorite) g = set_favorite-IsGood id favorite s g
Step-IsGood {s} (keys id key) g = set_key-IsGood id key s g
Step-IsGood {s} (duplicates copy fresh id ne unused) g =
    duplicate_host-IsGood copy fresh id s ne unused g
Step-IsGood {s} (imports qt fresh config are_fresh) g =
    import_config-IsGood qt fresh config s are_fresh g
Step-IsGood {s} restarts g = start-IsGood s.saved (subst IsValid (sym (g.written refl)) g.valid)
Step-IsGood {s} (uses now id) g = mark_used-IsGood now id s g

Reachable-IsGood : {s : Store} → Reachable s → IsGood s
Reachable-IsGood begins = start-IsGood [] no_hosts
Reachable-IsGood (goes_on r step) = Step-IsGood step (Reachable-IsGood r)

-- however a store is reached by its steps, its hosts are at most 1000, have ids that differ and
-- numbers in their ranges, and the settings file holds just these hosts
pub Reachable-IsValid : (s : Store) → Reachable s → IsValid s.hosts × (s.saved ≡ s.hosts)
Reachable-IsValid s r = let g = Reachable-IsGood r in (g.valid, g.written refl)
