-- ===== src/Hosts/Config/Arguments.antt =====
-- src/hoststore.cpp: `configArguments`, and how `exportConfig` writes a variable.
use Prim.Native.Char.{code}
use Prim.Native.String.{String}
use longterm.Base.{
  ℕ, Bool, true, false, ◌&&◌, ◌||◌, not, Option, none, some, List, [], ◌∷◌, ◌++◌, ◌==◌,
  if◌then◌else◌, is_empty,
}
use longterm.Base.Text.{Text, is_space}

-- The code units of a text in the source.
abbrev pub codes : String → Text
codes String.[] = []
codes (String.◌∷◌ c s) = code c ∷ codes s

pub record Scan : Type 0 where
  pub arguments : List Text
  pub current : Text
  pub in_argument : Bool
  pub quoted : Bool

abbrev pub push : ℕ → Scan → Scan
push c s = record s { current = s.current ++ c ∷ []; in_argument = true }

abbrev pub arguments_so_far : Scan → List Text
arguments_so_far s = if s.in_argument then s.arguments ++ s.current ∷ [] else s.arguments

-- A round of the loop, `none` where it breaks off. Nothing is quoted outside of an argument.
unfoldable pub scan_character : ℕ → Scan → Option Scan
unfolding is_space
scan_character c s =
    if s.quoted
    then some (
        if c == b'"'
        then record s { quoted = false }
        else record s { current = s.current ++ c ∷ [] })
    else if c == b'"'
    then some (record s { quoted = true; in_argument = true })
    else if is_space c
    then some (record s { arguments = arguments_so_far s; current = []; in_argument = false })
    else if c == b'#' && not s.in_argument
    then none
    else some (push c s)

unfoldable pub scan : Text → Scan → List Text
unfolding scan_character
scan [] s = arguments_so_far s
scan (c ∷ text) s = elim (scan_character c s) [ none ↦ arguments_so_far s | some t ↦ scan text t ]

abbrev pub no_scan : Scan
no_scan = record { arguments = []; current = []; in_argument = false; quoted = false }

unfoldable pub config_arguments : Text → List Text
unfolding scan
config_arguments text = scan text no_scan

-- OpenSSH has no escape for a quote inside a quoted value.
unfoldable pub without_quotes : Text → Text
without_quotes [] = []
without_quotes (c ∷ s) = let rest = without_quotes s in if c == b'"' then rest else c ∷ rest

-- `contains("[\\s#]")`
unfoldable pub has_gap : Text → Bool
has_gap [] = false
has_gap (c ∷ s) = (is_space c || c == b'#') || has_gap s

unfoldable pub config_value : Text → Text
unfolding without_quotes has_gap
config_value value =
    let plain = without_quotes value in
    if is_empty plain || has_gap plain then b'"' ∷ plain ++ b'"' ∷ [] else plain

-- Up to the first character and past it; all of the text both times where there is none.
unfoldable pub before : ℕ → Text → Text
before c [] = []
before c (d ∷ s) = let rest = before c s in if d == c then [] else d ∷ rest

unfoldable pub past_in : Text → ℕ → Text → Text
past_in all c [] = all
past_in all c (d ∷ s) = let rest = past_in all c s in if d == c then s else rest

abbrev pub past : ℕ → Text → Text
past c s = past_in s c s

-- The arguments of the line `SetEnv %1=%2` of a variable.
unfoldable pub config_variable : Text → Text
unfolding config_value before past_in
config_variable variable = before b'=' variable ++ b'=' ∷ config_value (past b'=' variable)
