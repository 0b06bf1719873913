-- ===== src/Hosts/Config/Fields.antt =====
-- src/hoststore.cpp: `isPort`, and what `importConfig` takes from the values of its keys.
use longterm.Base.{
  ℕ, ◌+◌, Bool, true, false, ◌&&◌, ◌||◌, Option, none, some, List, [], ◌∷◌, ◌++◌, leb, ◌==◌,
  if◌then◌else◌, length,
}
use longterm.Base.Text.{Text, trimmed}
use longterm.Hosts.Host.{ℤ, pos, negsuc}
use longterm.Hosts.Config.Arguments.{before, past_in, past}

-- What Qt does with texts: `toInt`, `toLower`, and the two captures of the expression for tmux,
-- where it matches exactly.
pub record Qt : Type 0 where
  pub to_int : Text → Option ℤ
  pub to_lower : Text → Text
  pub tmux : Text → Option (Text × Text)

abbrev pub has_character : ℕ → Text → Bool
has_character c [] = false
has_character c (d ∷ s) = d == c || has_character c s

abbrev pub count_of : ℕ → Text → ℕ
count_of c [] = 0
count_of c (d ∷ s) = if d == c then count_of c s + 1 else count_of c s

-- `section(c, -1)` and `mid(lastIndexOf(c) + 1)`: what is behind the last such character.
abbrev pub after_last_in : Text → ℕ → Text → Text
after_last_in kept c [] = kept
after_last_in kept c (d ∷ s) = if d == c then after_last_in s c s else after_last_in kept c s

abbrev pub after_last : ℕ → Text → Text
after_last c s = after_last_in s c s

abbrev pub starts_with : ℕ → Text → Bool
starts_with c [] = false
starts_with c (d ∷ s) = d == c

abbrev pub in_range : Option ℤ → Bool
in_range none = false
in_range (some (pos n)) = leb 1 n && leb n 65535
in_range (some (negsuc n)) = false

unfoldable pub is_port : Qt → Text → Bool
is_port qt text = in_range (qt.to_int text)

-- `toInt`, 0 for what is no number.
abbrev pub int_of : Qt → Text → ℤ
int_of qt text = elim (qt.to_int text) [ none ↦ pos 0 | some n ↦ n ]

-- The first two arguments, empty where they are missing.
abbrev pub first_argument : List Text → Text
first_argument [] = []
first_argument (a ∷ more) = a

abbrev pub second_argument : List Text → Text
second_argument [] = []
second_argument (a ∷ more) = first_argument more

-- A port and a target, as one entry.
unfoldable pub forward_of : Qt → List Text → List Text
unfolding is_port
forward_of qt arguments =
    let value = first_argument arguments in
    let target = second_argument arguments in
    if length arguments == 2
      && (is_port qt (after_last b':' value)
          && (has_character b':' target && is_port qt (after_last b':' target)))
    then (after_last b':' value ++ b':' ∷ target) ∷ []
    else []

-- The host of `user@host:port`, the first of a list.
unfoldable pub jump_of : Text → Text
unfolding before past_in
jump_of value =
    let host = after_last b'@' (trimmed (before b',' value)) in
    if starts_with b'[' host && has_character b']' host
    then before b']' (past b'[' host)
    else if count_of b':' host == 1
    then before b':' host
    else host

abbrev pub is_letter : ℕ → Bool
is_letter c = (leb b'A' c && leb c b'Z') || ((leb b'a' c && leb c b'z') || c == b'_')

abbrev pub name_ends : Text → Bool
name_ends [] = false
name_ends (c ∷ s) =
    if c == b'='
    then true
    else if is_letter c || (leb b'0' c && leb c b'9')
    then name_ends s
    else false

-- `^[A-Za-z_][A-Za-z0-9_]*=`
abbrev pub is_variable : Text → Bool
is_variable [] = false
is_variable (c ∷ s) = is_letter c && name_ends s

abbrev pub variables : List Text → List Text
variables [] = []
variables (a ∷ more) = if is_variable a then a ∷ variables more else variables more
