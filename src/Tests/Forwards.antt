-- ===== src/Tests/Forwards.antt =====
-- A forward to an IPv6 address, and a known_hosts file with three lines.
use longterm.Session.KnownHosts.{
  add_kept, remove_all, names_host, comma_join, comma_add, comma_split, key_part, host_part,
  kept_line, without_pattern,
}
use longterm.Session.Options.{
  all_but_last, without_ends, ends_with, before_last, read_forward, unbracket,
}
use longterm.Hosts.Host.{ℤ, pos}
use longterm.Hosts.Config.Fields.{is_port, forward_of, after_last, Qt}
use longterm.Base.Text.{same, Text}
use longterm.Base.{
  is_empty, ◌-◌, ◌+◌, if◌then◌else◌, ◌++◌, Option, ◌*◌, ◌≡◌, refl, false, none, some, List, [], ◌∷◌,
  ℕ,
}
use longterm.Session.Forwards.{read_forward-forward_of}
use longterm.Session.Trusted.{keys_of, without_pattern-keys_of}

digits : ℕ → Text → ℕ
digits n [] = n
digits n (c ∷ text) = digits (n * 10 + (c - 48)) text

decimal : Text → Option ℤ
unfolding digits
decimal [] = none
decimal (c ∷ text) = some (pos (digits 0 (c ∷ text)))

abbrev qt : Qt
qt = record { to_int = decimal; to_lower = λ text. text; tmux = λ text. none }

-- "8080" and "[::1]:80"
abbrev near_text : Text
near_text = b'8' ∷ b'0' ∷ b'8' ∷ b'0' ∷ []

abbrev target_text : Text
target_text = b'[' ∷ b':' ∷ b':' ∷ b'1' ∷ b']' ∷ b':' ∷ b'8' ∷ b'0' ∷ []

near_number : decimal near_text ≡ some (pos 8080)
unfolding decimal digits
near_number = refl

far_number : decimal (after_last b':' target_text) ≡ some (pos 80)
unfolding decimal digits
far_number = refl

imported : forward_of qt (near_text ∷ target_text ∷ []) ≡ (near_text ++ b':' ∷ target_text) ∷ []
unfolding forward_of is_port decimal digits
imported = refl

no_number : decimal [] ≡ none
unfolding decimal
no_number = refl

named : is_empty (unbracket (before_last b':' target_text)) ≡ false
unfolding unbracket before_last ends_with without_ends all_but_last
named = refl

read_forward-forward_of_example :
    read_forward qt (near_text ++ b':' ∷ target_text)
    ≡ some (record {
      near_port = 8080;
      host = unbracket (before_last b':' target_text);
      far_port = 80;
    })
read_forward-forward_of_example =
    read_forward-forward_of qt near_text target_text (near_text ++ b':' ∷ target_text) 8080 80
      imported no_number near_number far_number named

host_example : unbracket (before_last b':' target_text) ≡ b':' ∷ b':' ∷ b'1' ∷ []
unfolding unbracket before_last ends_with without_ends all_but_last
host_example = refl

-- "a,b x", "b y" and "c z"
abbrev lines : List Text
lines =
    (b'a' ∷ b',' ∷ b'b' ∷ b' ' ∷ b'x' ∷ [])
    ∷ (b'b' ∷ b' ' ∷ b'y' ∷ [])
    ∷ (b'c' ∷ b' ' ∷ b'z' ∷ [])
    ∷ []

trusted_lines :
    without_pattern (b'b' ∷ []) lines ≡ (b'a' ∷ b' ' ∷ b'x' ∷ []) ∷ (b'c' ∷ b' ' ∷ b'z' ∷ []) ∷ []
unfolding without_pattern kept_line host_part key_part comma_split comma_add comma_join names_host
    remove_all add_kept same
trusted_lines = refl

without_pattern-keys_of_example :
    keys_of (b'a' ∷ []) (without_pattern (b'b' ∷ []) lines)
    ≡ (if same (b'b' ∷ []) (b'a' ∷ []) then [] else keys_of (b'a' ∷ []) lines)
without_pattern-keys_of_example = without_pattern-keys_of (b'a' ∷ []) (b'b' ∷ []) lines refl
