-- ===== src/Hosts/Config/Shell.antt =====
-- What a POSIX shell makes of a text that was quoted for it.
use longterm.Base.{◌||◌, leb, ℕ, Bool, ◌&&◌, Option, none, some, [], ◌∷◌, ◌==◌, if◌then◌else◌}
use longterm.Base.Text.{Text}

pub data Mode : Type 0 where
  bare : Mode
  in_quotes : Mode
  escaped : Mode

abbrev with_character : ℕ → Option Text → Option Text
with_character c none = none
with_character c (some s) = some (c ∷ s)

-- What a POSIX shell does not take as it is in a word: blanks and control characters, the quotes,
-- the operators, what starts an expansion, a pattern, a comment or an assignment, and what is not
-- ASCII.
abbrev pub is_special : ℕ → Bool
is_special c =
    leb c b'$'
    || ((leb b'&' c && leb c b'*')
        || ((leb b';' c && leb c b'?')
            || ((leb b'[' c && leb c b'^') || (c == b'`' || leb b'{' c))))

-- The one word that a shell reads: between single quotes every character stands for itself, and
-- so does one behind a backslash outside of them, a newline aside. Outside, a special character is
-- refused.
pub shell_word : Mode → Text → Option Text
shell_word bare [] = some []
shell_word in_quotes [] = none
shell_word escaped [] = none
shell_word bare (c ∷ s) =
    let quoted = shell_word in_quotes s in
    let literal = shell_word escaped s in
    let later = shell_word bare s in
    if c == b'\''
    then quoted
    else if c == b'\\'
    then literal
    else if is_special c
    then none
    else with_character c later
shell_word in_quotes (c ∷ s) =
    let outside = shell_word bare s in
    let later = shell_word in_quotes s in if c == b'\'' then outside else with_character c later
shell_word escaped (c ∷ s) =
    let later = shell_word bare s in if c == 10 then none else with_character c later
