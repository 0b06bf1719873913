-- ===== src/Session/Trusted.antt =====
-- What trustNewHostKey leaves of the known_hosts file, name by name.
use mathlib.Core.Path.{subst}
use longterm.Session.KnownHosts.{
  without_pattern, kept_line, add_kept, names_host, comma_join, remove_all, comma_split, comma_add,
  host_part, key_part,
}
use longterm.Base.{
  sym, inr, Bool-cases, inl, ◌⊎◌, ap, ◌∙◌, ◌&&◌, ℕ, Bool, true, false, ◌||◌, not, List, [], ◌∷◌,
  ◌++◌, ◌==◌, if◌then◌else◌, is_empty, refl, arith, ◌≡◌,
}
use longterm.Base.Text.{same→eq, same_sym, same_left, Text, same}

-- The line gives a key of the host of that name.
pub lists : Text → Text → Bool
lists name line =
    not (is_empty (key_part line))
    && (not (is_empty (host_part line)) && names_host name (comma_split (host_part line)))

-- What follows the names in every line of the host, its keys.
pub keys_of : Text → List Text → List Text
keys_of name [] = []
keys_of name (line ∷ lines) =
    if lists name line then key_part line ∷ keys_of name lines else keys_of name lines

has : ℕ → Text → Bool
has c [] = false
has c (d ∷ text) = d == c || has c text

any_has : ℕ → List Text → Bool
any_has c [] = false
any_has c (name ∷ names) = has c name || any_has c names

host_part-has : (line : Text) → has b' ' (host_part line) ≡ false
unfolding has host_part
host_part-has [] = refl
host_part-has (c ∷ line) = ground (arith, host_part-has line)

comma_add-any_has :
    (b c : ℕ) (names : List Text) → any_has b (comma_add c names) ≡ c == b || any_has b names
unfolding any_has comma_add has
comma_add-any_has b c [] = ground arith
comma_add-any_has b c (name ∷ names) = ground arith

comma_split-any_has :
    (b : ℕ) (text : Text) → has b text ≡ false → any_has b (comma_split text) ≡ false
unfolding has comma_split any_has
comma_split-any_has b [] h = refl
comma_split-any_has b (c ∷ text) h =
    ground (arith, comma_split-any_has b text, comma_add-any_has b c (comma_split text))

comma_split-no_comma : (text : Text) → any_has b',' (comma_split text) ≡ false
unfolding has comma_split any_has
comma_split-no_comma [] = refl
comma_split-no_comma (c ∷ text) =
    ground (arith, comma_split-no_comma text, comma_add-any_has b',' c (comma_split text))

remove_all-any_has :
    (b : ℕ) (pattern : Text) (names : List Text)
    → any_has b names ≡ false
    → any_has b (remove_all pattern names) ≡ false
unfolding any_has remove_all
remove_all-any_has b pattern [] h = refl
remove_all-any_has b pattern (name ∷ names) h = ground (arith, remove_all-any_has b pattern names)

append-has : (b : ℕ) (s t : Text) → has b (s ++ t) ≡ has b s || has b t
unfolding has
append-has b [] t = refl
append-has b (c ∷ s) t = ground (arith, append-has b s t)

comma_join-has :
    (names : List Text) → any_has b' ' names ≡ false → has b' ' (comma_join names) ≡ false
unfolding any_has comma_join has
comma_join-has [] h = refl
comma_join-has (name ∷ []) h = ground arith
comma_join-has (name ∷ (other ∷ names)) h = ground (
  arith,
  append-has b' ' name (b',' ∷ comma_join (other ∷ names)),
  comma_join-has (other ∷ names),
)

-- A line is read back from the two halves it was written from.
host_part-append :
    (text rest : Text) → has b' ' text ≡ false → host_part (text ++ b' ' ∷ rest) ≡ text
unfolding has host_part
host_part-append [] rest h = refl
host_part-append (c ∷ text) rest h = ground (arith, host_part-append text rest)

key_part-append :
    (text rest : Text) → has b' ' text ≡ false → key_part (text ++ b' ' ∷ rest) ≡ b' ' ∷ rest
unfolding has key_part
key_part-append [] rest h = refl
key_part-append (c ∷ text) rest h = ground (arith, key_part-append text rest)

comma_split-append :
    (name text : Text)
    → has b',' name ≡ false
    → comma_split (name ++ b',' ∷ text) ≡ name ∷ comma_split text
unfolding has comma_split comma_add
comma_split-append [] text h = refl
comma_split-append (c ∷ name) text h = ground (arith, comma_split-append name text)

comma_split-alone : (name : Text) → has b',' name ≡ false → comma_split name ≡ name ∷ []
unfolding has comma_split comma_add
comma_split-alone [] h = refl
comma_split-alone (c ∷ name) h = ground (arith, comma_split-alone name)

comma_split-comma_join :
    (name : Text) (names : List Text)
    → any_has b',' (name ∷ names) ≡ false
    → comma_split (comma_join (name ∷ names)) ≡ name ∷ names
unfolding any_has comma_join
comma_split-comma_join name [] h = comma_split-alone name (ground arith)
comma_split-comma_join name (other ∷ names) h =
    comma_split-append name (comma_join (other ∷ names)) (ground arith)
    ∙ ap (λ t. name ∷ t) (comma_split-comma_join other names (ground arith))

names_host-remove_all :
    (name pattern : Text) (names : List Text)
    → names_host name (remove_all pattern names) ≡ not (same pattern name) && names_host name names
unfolding names_host remove_all
names_host-remove_all name pattern [] = ground arith
names_host-remove_all name pattern (n ∷ names) = ground (
  arith,
  names_host-remove_all name pattern names,
  same_left n pattern name,
  same_left pattern name n,
  same_sym n pattern,
  same_sym n name,
)

comma_join-is_empty :
    (name : Text) (names : List Text)
    → is_empty name ≡ false
    → names_host name names ≡ true
    → is_empty (comma_join names) ≡ false
unfolding names_host comma_join
comma_join-is_empty name [] e h = ground arith
comma_join-is_empty name (n ∷ []) e h = ap is_empty (same→eq n name (ground arith)) ∙ e
comma_join-is_empty name ([] ∷ (other ∷ names)) e h = refl
comma_join-is_empty name ((c ∷ n) ∷ (other ∷ names)) e h = refl

-- A line that is written anew lists the names that it was written from.
lists-comma_join :
    (name rest n : Text) (names : List Text)
    → is_empty name ≡ false
    → any_has b' ' (n ∷ names) ≡ false
    → any_has b',' (n ∷ names) ≡ false
    → lists name (comma_join (n ∷ names) ++ b' ' ∷ rest) ≡ names_host name (n ∷ names)
unfolding lists
lists-comma_join name rest n names e s c =
    let t = comma_join (n ∷ names) in
    let h = comma_join-has (n ∷ names) s in
    ground (
      arith,
      host_part-append t rest h,
      key_part-append t rest h,
      comma_split-comma_join n names c,
      comma_join-is_empty name (n ∷ names) e,
    )

add_kept-keys_of :
    (name rest : Text) (names kept : List Text)
    → is_empty name ≡ false
    → any_has b' ' names ≡ false
    → any_has b',' names ≡ false
    → keys_of name (add_kept (b' ' ∷ rest) names kept)
      ≡ (if names_host name names then (b' ' ∷ rest) ∷ keys_of name kept else keys_of name kept)
unfolding add_kept keys_of names_host
add_kept-keys_of name rest [] kept e s c = refl
add_kept-keys_of name rest (n ∷ names) kept e s c = rw (
  lists-comma_join name rest n names e s c,
  key_part-append (comma_join (n ∷ names)) rest (comma_join-has (n ∷ names) s),
)

key_part-space :
    (line : Text) → (key_part line ≡ []) ⊎ ((rest : Text) × (key_part line ≡ b' ' ∷ rest))
unfolding key_part
key_part-space [] = inl refl
key_part-space (c ∷ line) = elim (Bool-cases (c == b' ')) [
  | inl e ↦ inr (line, ground arith)
  | inr e ↦
      let h : key_part (c ∷ line) ≡ key_part line = ground arith in
      subst (λ k. (k ≡ []) ⊎ ((rest : Text) × (k ≡ b' ' ∷ rest))) (sym h) (key_part-space line)
]

-- A line that gives keys to the pattern, among other names or alone.
listed-keys_of :
    (name pattern line : Text) (kept : List Text)
    → is_empty name ≡ false
    → lists pattern line ≡ true
    → keys_of name
        (add_kept (key_part line) (remove_all pattern (comma_split (host_part line))) kept)
      ≡ (if not (same pattern name) && lists name line
          then key_part line ∷ keys_of name kept
          else keys_of name kept)
unfolding lists
listed-keys_of name pattern line kept e l = elim (key_part-space line) [
  | inl h ↦ ground arith
  | inr (rest, h) ↦
      let names = comma_split (host_part line) in
      let r = remove_all pattern names in
      ground (
        arith,
        h,
        names_host-remove_all name pattern names,
        add_kept-keys_of name rest r kept e
            (remove_all-any_has b' ' pattern names
              (comma_split-any_has b' ' (host_part line) (host_part-has line)))
            (remove_all-any_has b',' pattern names (comma_split-no_comma (host_part line))),
      )
]

kept_line-keys_of :
    (name pattern line : Text) (kept : List Text)
    → is_empty name ≡ false
    → keys_of name (kept_line pattern line kept) ≡ (
        if not (same pattern name) && lists name line
        then key_part line ∷ keys_of name kept
        else keys_of name kept)
unfolding kept_line lists keys_of
kept_line-keys_of name pattern line kept e = elim (Bool-cases (lists pattern line)) [
  | inl l ↦ ground (arith, listed-keys_of name pattern line kept e)
  | inr l ↦ ground (arith, same→eq pattern name)
]

-- trustNewHostKey leaves no key of the host whose key changed, and leaves every other host all of its
-- keys, in their order, for names that are not empty.
pub without_pattern-keys_of :
    (name pattern : Text) (lines : List Text)
    → is_empty name ≡ false
    → keys_of name (without_pattern pattern lines)
      ≡ (if same pattern name then [] else keys_of name lines)
unfolding without_pattern keys_of
without_pattern-keys_of name pattern [] e = ground arith
without_pattern-keys_of name pattern (line ∷ lines) e = ground (
  arith,
  kept_line-keys_of name pattern line (without_pattern pattern lines) e,
  without_pattern-keys_of name pattern lines e,
)
