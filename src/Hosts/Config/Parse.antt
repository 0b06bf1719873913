-- ===== src/Hosts/Config/Parse.antt =====
-- src/hoststore.cpp: the first half of `importConfig`, which reads the entries of a configuration.
use longterm.Base.{
  ℕ, Bool, true, false, ◌||◌, Option, none, some, List, [], ◌∷◌, ◌++◌, ◌==◌, if◌then◌else◌,
  is_empty,
}
use longterm.Base.Text.{Text, same, is_space, trimmed}
use longterm.Hosts.Host.{ℤ, pos, seconds, max_keep_alive_interval, max_connect_timeout}
use longterm.Hosts.Config.Arguments.{codes, config_arguments, past}
use longterm.Hosts.Config.Fields.{
  Qt, has_character, starts_with, after_last, is_port, int_of, first_argument, forward_of, jump_of,
  variables,
}

pub record Imported : Type 0 where
  pub name : Text
  pub address : Text
  pub port : ℤ
  pub user : Text
  pub jump : Text
  pub forward_agent : Bool
  pub local_forwards : List Text
  pub remote_forwards : List Text
  pub dynamic_forwards : List Text
  pub environment : List Text
  pub tmux_session : Text
  pub keep_alive_interval : ℕ
  pub connect_timeout : ℕ

abbrev pub new_entry : Text → Imported
new_entry alias = record {
  name = alias;
  address = alias;
  port = pos 22;
  user = [];
  jump = [];
  forward_agent = false;
  local_forwards = [];
  remote_forwards = [];
  dynamic_forwards = [];
  environment = [];
  tmux_session = [];
  keep_alive_interval = 0;
  connect_timeout = 0;
}

-- `entry` points to the last of the entries or nowhere.
pub record Parse : Type 0 where
  pub entries : List Imported
  pub entry : Bool

abbrev change_last : (Imported → Imported) → List Imported → List Imported
change_last f [] = []
change_last f (e ∷ []) = f e ∷ []
change_last f (e ∷ (g ∷ es)) = e ∷ change_last f (g ∷ es)

-- The first place of a white space or `=`, where a key ends; none where there is no such place.
abbrev split_key : Text → Option (Text × Text)
split_key [] = none
split_key (c ∷ s) = elim (split_key s) [
  | none ↦ if is_space c || c == b'=' then some ([], c ∷ s) else none
  | some (key, rest) ↦ if is_space c || c == b'=' then some ([], c ∷ s) else some (c ∷ key, rest)
]

-- What is behind the key, without an equals sign in front.
unfoldable pub rest_of : Text → Text
rest_of text =
    let rest = trimmed text in if starts_with b'=' rest then trimmed (past b'=' rest) else rest

abbrev is_pattern : Text → Bool
is_pattern alias =
    has_character b'*' alias || (has_character b'?' alias || has_character b'!' alias)

-- What a key, in lower case, changes of the entry that it belongs to.
unfoldable pub change_entry : Qt → Text → Text → Imported → Imported
unfolding is_port forward_of jump_of config_arguments
change_entry qt key rest e =
    let arguments = config_arguments rest in
    let value = first_argument arguments in
    if same key (codes "hostname")
    then record e { address = value }
    else if same key (codes "port")
    then if is_port qt value then record e { port = int_of qt value } else e
    else if same key (codes "user")
    then record e { user = value }
    else if same key (codes "proxyjump")
    then record e { jump = jump_of value }
    else if same key (codes "forwardagent")
    then record e { forward_agent = same (qt.to_lower value) (codes "yes") }
    else if same key (codes "localforward")
    then record e { local_forwards = e.local_forwards ++ forward_of qt arguments }
    else if same key (codes "remoteforward")
    then record e { remote_forwards = e.remote_forwards ++ forward_of qt arguments }
    else if same key (codes "dynamicforward")
    then if is_port qt (after_last b':' value)
      then record e { dynamic_forwards = e.dynamic_forwards ++ after_last b':' value ∷ [] }
      else e
    else if same key (codes "setenv")
    then record e { environment = e.environment ++ variables arguments }
    else if same key (codes "serveraliveinterval")
    then record e { keep_alive_interval = seconds (int_of qt value) max_keep_alive_interval }
    else if same key (codes "connecttimeout")
    then record e { connect_timeout = seconds (int_of qt value) max_connect_timeout }
    else if same key (codes "remotecommand")
    then elim (qt.tmux rest) [
      | none ↦ e
      | some (quoted, bare) ↦ record e { tmux_session = if is_empty quoted then bare else quoted }
    ]
    else e

-- A line that is trimmed. A pattern and `match` apply to many hosts, and end an entry.
unfoldable pub read_line : Qt → Text → Parse → Parse
unfolding rest_of change_entry config_arguments
read_line qt line p = elim (split_key line) [
  | none ↦ p
  | some (name, behind) ↦
      let key = qt.to_lower name in
      let rest = rest_of behind in
      let alias = first_argument (config_arguments rest) in
      if is_empty line || starts_with b'#' line
      then p
      else if same key (codes "host")
      then if is_empty alias || is_pattern alias
        then record p { entry = false }
        else record p { entries = p.entries ++ new_entry alias ∷ []; entry = true }
      else if same key (codes "match")
      then record p { entry = false }
      else if p.entry
      then record p { entries = change_last (change_entry qt key rest) p.entries }
      else p
]

unfoldable pub read_lines : Qt → List Text → Parse → Parse
unfolding read_line
read_lines qt [] p = p
read_lines qt (line ∷ lines) p = read_lines qt lines (read_line qt (trimmed line) p)

-- `split('\n')`
unfoldable pub lines_of : Text → List Text
lines_of [] = [] ∷ []
lines_of (c ∷ s) = elim (lines_of s) [
  | [] ↦ []
  | line ∷ lines ↦ if c == 0xa then [] ∷ (line ∷ lines) else (c ∷ line) ∷ lines
]

unfoldable pub read_config : Qt → Text → List Imported
unfolding read_lines lines_of
read_config qt config =
    (read_lines qt (lines_of config) (record { entries = []; entry = false })).entries
