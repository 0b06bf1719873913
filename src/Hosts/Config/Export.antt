-- ===== src/Hosts/Config/Export.antt =====
-- src/hoststore.cpp: `exportConfig`.
use longterm.Base.{
  ℕ, Bool, true, ◌&&◌, ◌||◌, not, none, some, List, [], ◌∷◌, ◌++◌, leb, ltb, ◌==◌, if◌then◌else◌,
  is_empty,
}
use longterm.Base.Text.{Text}
use longterm.Hosts.Host.{Host}
use longterm.Hosts.Store.{Store, find}
use longterm.Hosts.Config.Arguments.{codes, before, past_in, past, config_variable}
use longterm.Hosts.Config.Import.{config_alias}

-- A line of a key, indented.
abbrev config_line : Text → Text → Text
config_line key value = codes "    " ++ key ++ b' ' ∷ value ++ 0xa ∷ []

-- `[A-Za-z0-9_.,:@%+/-]`
abbrev pub is_safe : ℕ → Bool
is_safe c =
    (leb b'A' c && leb c b'Z')
    || ((leb b'a' c && leb c b'z')
        || ((leb b'+' c && leb c b':') || (c == b'_' || (c == b'@' || c == b'%'))))

abbrev pub all_safe : Text → Bool
all_safe [] = true
all_safe (c ∷ s) = is_safe c && all_safe s

-- A quote ends the quoted text, stands escaped and begins it anew.
unfoldable pub escape_quotes : Text → Text
escape_quotes [] = []
escape_quotes (c ∷ s) =
    let rest = escape_quotes s in if c == b'\'' then codes "'\\''" ++ rest else c ∷ rest

unfoldable pub shell_quote : Text → Text
unfolding escape_quotes
shell_quote text =
    if not (is_empty text) && all_safe text then text else b'\'' ∷ escape_quotes text ++ b'\'' ∷ []

abbrev lines_for : (Text → Text) → List Text → Text
lines_for f [] = []
lines_for f (t ∷ ts) = f t ++ lines_for f ts

-- `%1 %2` of a forward, cut at its first colon.
abbrev forward_arguments : Text → Text
forward_arguments forward = before b':' forward ++ b' ' ∷ past b':' forward

abbrev if_filled : Text → Text → Text
if_filled text written = if is_empty text then [] else written

-- `digits` is how `arg` writes a number.
export_host : (ℕ → Text) → List Host → Host → Text
unfolding config_alias shell_quote config_variable before past_in
export_host digits hosts h =
    codes "Host "
    ++ config_alias h.name
    ++ 0xa ∷ []
    ++ config_line (codes "HostName") h.address
    ++ (if h.port == 22 then [] else config_line (codes "Port") (digits h.port))
    ++ if_filled h.user (config_line (codes "User") h.user)
    ++ if_filled h.jump_host_id (elim (find h.jump_host_id hosts) [
      | none ↦ []
      | some jump ↦ config_line (codes "ProxyJump") (config_alias jump.name)
    ])
    ++ (if h.forward_agent then config_line (codes "ForwardAgent") (codes "yes") else [])
    ++ lines_for (λ f. config_line (codes "LocalForward") (forward_arguments f)) h.local_forwards
    ++ lines_for (λ f. config_line (codes "RemoteForward") (forward_arguments f)) h.remote_forwards
    ++ lines_for (config_line (codes "DynamicForward")) h.dynamic_forwards
    ++ lines_for (λ v. config_line (codes "SetEnv") (config_variable v)) h.environment
    ++ (if ltb 0 h.keep_alive_interval
        then config_line (codes "ServerAliveInterval") (digits h.keep_alive_interval)
        else [])
    ++ (if ltb 0 h.connect_timeout
        then config_line (codes "ConnectTimeout") (digits h.connect_timeout)
        else [])
    ++ if_filled h.tmux_session (
        config_line (codes "RemoteCommand")
          (codes "tmux new-session -A -s " ++ shell_quote h.tmux_session)
        ++ config_line (codes "RequestTTY") (codes "yes"))
    ++ 0xa ∷ []

abbrev export_hosts_of : (ℕ → Text) → List Host → List Host → Text
export_hosts_of digits hosts [] = []
export_hosts_of digits hosts (h ∷ hs) =
    export_host digits hosts h ++ export_hosts_of digits hosts hs

export_config : (ℕ → Text) → Store → Text
unfolding export_host
export_config digits s = export_hosts_of digits s.hosts s.hosts
