-- ===== src/Hosts/Config/Quoting.antt =====
-- A variable that is exported is read back, but for the quotes in its value.
use longterm.Base.{
  ℕ, ◌≡◌, refl, sym, ap, ◌∙◌, true, false, ◌||◌, List, [], ◌∷◌, ◌++◌, ◌==◌, is_empty, All, arith,
  Bool-cases, inl, inr, append-nil, append_assoc,
}
use longterm.Base.Text.{Text, is_space}
use longterm.Hosts.Config.Arguments.{
  Scan, scan_character, scan, no_scan, config_arguments, without_quotes, has_gap, config_value,
  before, past_in, past, config_variable,
}

-- A character that stands for itself in an argument without quotes.
abbrev pub IsPlain : ℕ → Type 0
IsPlain c = (is_space c ≡ false) × ((c == b'"') ≡ false) × ((c == b'#') ≡ false)

-- An argument that was begun takes plain characters in.
abbrev begun : List Text → Text → Scan
begun arguments current = record {
  arguments = arguments;
  current = current;
  in_argument = true;
  quoted = false;
}

scan-plain :
    (text rest : Text) (arguments : List Text) (current : Text)
    → All IsPlain text
    → scan (text ++ rest) (begun arguments current) ≡ scan rest (begun arguments (current ++ text))
unfolding scan scan_character
scan-plain [] rest arguments current all =
    ap (λ x. scan rest (begun arguments x)) (sym (append-nil current))
scan-plain (c ∷ text) rest arguments current ((a, b, d), all) =
    rw (scan, b, a, d)
      (scan-plain text rest arguments (current ++ c ∷ []) all
        ∙ ap (λ x. scan rest (begun arguments x)) (append_assoc current (c ∷ []) text))

-- Between quotes anything but a quote is taken as it is.
scan-quoted :
    (text rest : Text) (arguments : List Text) (current : Text)
    → All (λ c. (c == b'"') ≡ false) text
    → scan (text ++ b'"' ∷ rest) (record (begun arguments current) { quoted = true })
      ≡ scan rest (begun arguments (current ++ text))
unfolding scan scan_character
scan-quoted [] rest arguments current all =
    ap (λ x. scan rest (begun arguments x)) (sym (append-nil current))
scan-quoted (c ∷ text) rest arguments current (a, all) = rw a (
    scan-quoted text rest arguments (current ++ c ∷ []) all
    ∙ ap (λ x. scan rest (begun arguments x)) (append_assoc current (c ∷ []) text))

without_quotes-All : (s : Text) → All (λ c. (c == b'"') ≡ false) (without_quotes s)
unfolding without_quotes
without_quotes-All [] = tt
without_quotes-All (c ∷ s) = elim (Bool-cases (c == b'"')) [
  | inl e ↦ rw e (without_quotes-All s)
  | inr e ↦ rw e (e, without_quotes-All s)
]

has_gap-IsPlain : (s : Text) → All (λ c. (c == b'"') ≡ false) s → has_gap s ≡ false → All IsPlain s
unfolding has_gap
has_gap-IsPlain [] q e = tt
has_gap-IsPlain (c ∷ s) (a, q) e =
    let neither : (is_space c || c == b'#') ≡ false = ground (arith, e) in
    ((ground (arith, neither), a, ground (arith, neither)), has_gap-IsPlain s q (ground (arith, e)))

-- A plain character begins an argument.
scan-first :
    (c : ℕ) (text : Text) → IsPlain c → scan (c ∷ text) no_scan ≡ scan text (begun [] (c ∷ []))
unfolding scan scan_character
scan-first c text (a, b, d) = rw (scan, b, a, d) refl

equals-IsPlain : IsPlain b'='
unfolding is_space
equals-IsPlain = (refl, refl, refl)

-- A value behind the name, with quotes or without.
scan-config_value :
    (value : Text) (current : Text)
    → scan (config_value value) (begun [] current) ≡ (current ++ without_quotes value) ∷ []
unfolding config_value
scan-config_value value current =
    let plain = without_quotes value in
    let quotes = without_quotes-All value in
    elim (Bool-cases (is_empty plain || has_gap plain)) [
      | inl e ↦
          rw e (unfold scan in unfold scan_character in scan-quoted plain [] [] current quotes)
      | inr e ↦ rw e (
          ap (λ x. scan x (begun [] current)) (sym (append-nil plain))
          ∙ scan-plain plain [] [] current (has_gap-IsPlain plain quotes (ground (arith, e)))
          ∙ unfold scan in refl)
    ]

before-name :
    (name value : Text)
    → All (λ c. (c == b'=') ≡ false) name
    → before b'=' (name ++ b'=' ∷ value) ≡ name
unfolding before
before-name [] value all = refl
before-name (c ∷ name) value (e, all) = rw e (ap (λ x. c ∷ x) (before-name name value all))

past-name :
    (whole name value : Text)
    → All (λ c. (c == b'=') ≡ false) name
    → past_in whole b'=' (name ++ b'=' ∷ value) ≡ value
unfolding past_in
past-name whole [] value all = refl
past-name whole (c ∷ name) value (e, all) = rw e (past-name whole name value all)

-- What a name of a variable is made of.
abbrev pub IsName : Text → Type 0
IsName name = All IsPlain name × All (λ c. (c == b'=') ≡ false) name × (is_empty name ≡ false)

-- a variable that is exported, whatever its value, is read back as one argument with the same
-- name and value, without the quotes that the value had
pub config_arguments-config_variable :
    (name value : Text)
    → IsName name
    → config_arguments (config_variable (name ++ b'=' ∷ value))
      ≡ (name ++ b'=' ∷ without_quotes value) ∷ []
unfolding config_arguments config_variable
config_arguments-config_variable [] value (plain, equals, filled) = cc
config_arguments-config_variable (c ∷ name) value ((p, plain), equals, filled) =
    let whole = c ∷ name ++ b'=' ∷ value in
    let text = name ++ b'=' ∷ config_value value in
    ap (λ x. scan (x ++ b'=' ∷ config_value (past b'=' whole)) no_scan)
      (before-name (c ∷ name) value equals)
    ∙ ap (λ x. scan (c ∷ name ++ b'=' ∷ config_value x) no_scan)
        (past-name whole (c ∷ name) value equals)
    ∙ scan-first c text p
    ∙ scan-plain name (b'=' ∷ config_value value) [] (c ∷ []) plain
    ∙ scan-plain (b'=' ∷ []) (config_value value) [] (c ∷ name) (equals-IsPlain, tt)
    ∙ scan-config_value value (c ∷ name ++ b'=' ∷ [])
    ∙ ap (λ x. x ∷ []) (append_assoc (c ∷ name) (b'=' ∷ []) (without_quotes value))
