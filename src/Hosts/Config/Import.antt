-- ===== src/Hosts/Config/Import.antt =====
-- src/hoststore.cpp: the second half of `importConfig`, which saves the entries that were read.
use longterm.Base.{
  ℕ, suc, ◌+◌, Bool, true, false, ◌||◌, Option, none, some, List, [], ◌∷◌, ◌==◌, if◌then◌else◌,
  length, get_elem?, is_empty,
}
use longterm.Base.Text.{Text, same, is_space, trimmed}
use longterm.Hosts.Host.{pos, Host, Form}
use longterm.Hosts.Store.{Store, change, save, save_host}
use longterm.Hosts.Copy.{set_batch}
use longterm.Hosts.Config.Fields.{Qt}
use longterm.Hosts.Config.Parse.{Imported, read_config}

-- `simplified` and a dash for each space: runs of white space become one dash.
abbrev dashed : Text → Text
dashed [] = []
dashed (c ∷ s) =
    let rest = dashed s in
    if is_space c
    then elim s [ [] ↦ [] | d ∷ later ↦ if is_space d then rest else b'-' ∷ rest ]
    else c ∷ rest

unfoldable pub config_alias : Text → Text
config_alias name = dashed (trimmed name)

-- `indexOf` and `indexOfName`: the row of the first host of which a test holds.
abbrev pub next_row : Option ℕ → Option ℕ
next_row none = none
next_row (some n) = some (suc n)

pub row_where : (Host → Bool) → List Host → Option ℕ
row_where test [] = none
row_where test (h ∷ hs) = let row = next_row (row_where test hs) in if test h then some 0 else row

-- By the name itself, or else by the alias that it is exported with.
pub find_name : Text → List Host → Option ℕ
unfolding row_where config_alias
find_name name hs = elim (row_where (λ h. same h.name name) hs) [
  | some row ↦ some row
  | none ↦ row_where (λ h. same (config_alias h.name) name) hs
]

unfoldable pub host_at : Option ℕ → List Host → Option Host
host_at none hs = none
host_at (some row) hs = get_elem? hs row

-- What an entry sets; a host that is there keeps what ssh_config has no word for.
unfoldable pub import_form : Imported → Option Host → Form
import_form e existing = record {
  name = e.name;
  address = e.address;
  port = e.port;
  user = e.user;
  key_id = elim existing [ none ↦ [] | some h ↦ h.key_id ];
  password = [];
  remember_password = elim existing [ none ↦ false | some h ↦ h.has_password ];
  options = record {
    jump_host_id = [];
    forward_agent = e.forward_agent;
    local_forwards = e.local_forwards;
    remote_forwards = e.remote_forwards;
    dynamic_forwards = e.dynamic_forwards;
    environment = e.environment;
    tmux_session = e.tmux_session;
    keep_alive_interval = pos e.keep_alive_interval;
    connect_timeout = pos e.connect_timeout;
    mosh = elim existing [ none ↦ false | some h ↦ h.mosh ];
    mosh_server = elim existing [ none ↦ [] | some h ↦ h.mosh_server ];
    group = elim existing [ none ↦ [] | some h ↦ h.group ];
    mac_address = elim existing [ none ↦ [] | some h ↦ h.mac_address ];
    logging = elim existing [ none ↦ false | some h ↦ h.logging ];
  };
}

abbrev pub id_of : Option Host → Text
id_of none = []
id_of (some h) = h.id

unfoldable pub import_entry : Text → Imported → Store → Text × Store
unfolding import_form host_at find_name
import_entry fresh e s =
    let existing = host_at (find_name e.name s.hosts) s.hosts in
    save_host fresh (id_of existing) (import_form e existing) s

-- `fresh i` is the id that `QUuid::createUuid` would give for the entry `i`. The result says which
-- host each entry went to.
unfoldable pub import_entries :
    (ℕ → Text) → ℕ → List Imported → Store → List (Text × Imported) × Store
unfolding import_entry
import_entries fresh i [] s = ([], s)
import_entries fresh i (e ∷ es) s =
    let (id, t) = import_entry (fresh i) e s in
    let (ids, u) = import_entries fresh (i + 1) es t in ((id, e) ∷ ids, u)

-- The jump of one entry, by the hosts' names after all were saved.
unfoldable pub set_jump : Text → Imported → List Host → List Host
unfolding find_name host_at row_where
set_jump id e hs = elim (find_name e.jump hs) [
  | none ↦ hs
  | some jump_row ↦ elim (row_where (λ h. same h.id id) hs) [
    | none ↦ hs
    | some row ↦
        if is_empty e.jump || jump_row == row
        then hs
        else change id (λ h. record h { jump_host_id = id_of (host_at (some jump_row) hs) }) hs
  ]
]

unfoldable pub set_jumps : List (Text × Imported) → List Host → List Host
unfolding set_jump
set_jumps [] hs = hs
set_jumps ((id, e) ∷ es) hs = set_jumps es (set_jump id e hs)

-- The result is how many entries were read.
unfoldable pub import_config : Qt → (ℕ → Text) → Text → Store → ℕ × Store
unfolding import_entries set_jumps
import_config qt fresh config s =
    let entries = read_config qt config in
    let (ids, saved) = import_entries fresh 0 entries (set_batch true s) in
    (length entries, save (record saved { batch = false; hosts = set_jumps ids saved.hosts }))
