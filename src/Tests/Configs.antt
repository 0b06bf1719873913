-- ===== src/Tests/Configs.antt =====
-- A variable with a quote and a space, a session's name with a quote, and a small configuration.
use longterm.Base.{◌≡◌, refl, [], ◌∷◌, ◌++◌, some, none}
use longterm.Base.Text.{Text, is_space, trimmed, skip_spaces, same}
use longterm.Hosts.Config.Arguments.{
  codes, config_arguments, config_variable, without_quotes, scan, scan_character, before, past_in,
}
use longterm.Hosts.Config.Quoting.{IsName, config_arguments-config_variable}
use longterm.Hosts.Config.Fields.{Qt, is_port, forward_of, jump_of}
use longterm.Hosts.Config.Parse.{
  new_entry, read_config, read_lines, read_line, lines_of, rest_of, change_entry,
}
use longterm.Hosts.Host.{pos}

abbrev name : Text
name = codes "LANG"

name-IsName : IsName name
unfolding is_space
name-IsName = (
  (((refl, refl, refl)), ((refl, refl, refl), ((refl, refl, refl), ((refl, refl, refl), tt)))),
  (refl, (refl, (refl, (refl, tt)))),
  refl,
)

config_arguments-config_variable_example :
    config_arguments (config_variable (name ++ b'=' ∷ codes "a\" b"))
    ≡ (name ++ b'=' ∷ without_quotes (codes "a\" b")) ∷ []
config_arguments-config_variable_example =
    config_arguments-config_variable name (codes "a\" b") name-IsName

-- Every number is 2222 and lower case is as it is.
abbrev qt : Qt
qt = record { to_int = λ text. some (pos 2222); to_lower = λ text. text; tmux = λ text. none }

-- A pattern ends an entry; a comment does not.
reads :
    read_config qt (codes "host a\n  hostname = b\n# c\n  port 2222\nhost *\n  user d\n")
    ≡ record (new_entry (codes "a")) { address = codes "b"; port = pos 2222 } ∷ []
unfolding read_config read_lines read_line lines_of rest_of change_entry config_arguments scan
    scan_character is_port forward_of jump_of before past_in trimmed skip_spaces is_space same
reads = refl
