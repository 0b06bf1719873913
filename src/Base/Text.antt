-- ===== src/Base/Text.antt =====
-- `QString` as a list of UTF-16 code units, and what the program uses of Qt's text functions.
use Prim.Native.Nat.{ℕ}
use mathlib.Core.Path.{◌≡◌, refl, sym, ap, ◌∙◌}
use mathlib.Core.Bool.{Bool, true, false, ◌&&◌, ◌||◌}
use mathlib.Core.List.{List, [], ◌∷◌, reverse}
use native.Mathlib.Omega.{arith}
use longterm.Base.Tests.{leb, ◌==◌, if◌then◌else◌}

abbrev pub Text : Type 0
Text = List ℕ

-- `==`
unfoldable pub same : Text → Text → Bool
same [] [] = true
same (a ∷ s) (b ∷ t) = a == b && same s t
same _ _ = false

pub same_refl : (s : Text) → same s s ≡ true
unfolding same
same_refl [] = refl
same_refl (a ∷ s) = ground (arith, same_refl s)

pub same→eq : (s t : Text) → same s t ≡ true → s ≡ t
unfolding same
same→eq [] [] h = refl
same→eq [] (b ∷ t) h = cc
same→eq (a ∷ s) [] h = cc
same→eq (a ∷ s) (b ∷ t) h = ground (arith, same→eq s t)

-- QChar::isSpace: the separators of Unicode and the control characters from tab to return.
unfoldable pub is_space : ℕ → Bool
is_space c =
    (leb 0x9 c && leb c 0xd)
    || (c == 0x20
        || (c == 0x85
            || (c == 0xa0
                || (c == 0x1680
                    || ((leb 0x2000 c && leb c 0x200a)
                        || (c == 0x2028
                            || (c == 0x2029 || (c == 0x202f || (c == 0x205f || c == 0x3000)))))))))

unfoldable pub skip_spaces : Text → Text
skip_spaces [] = []
skip_spaces (c ∷ s) = if is_space c then skip_spaces s else c ∷ s

-- QString::trimmed
unfoldable pub trimmed : Text → Text
trimmed s = reverse (skip_spaces (reverse (skip_spaces s)))

pub same_sym : (s t : Text) → same s t ≡ same t s
unfolding same
same_sym [] [] = refl
same_sym [] (b ∷ t) = refl
same_sym (a ∷ s) [] = refl
same_sym (a ∷ s) (b ∷ t) = ground (arith, same_sym s t)

-- Of two equal texts, the third is the same as both or as none.
pub same_left : (s t u : Text) → same s t ≡ true → same s u ≡ same t u
same_left s t u h = ap (λ x. same x u) (same→eq s t h)

-- Two texts that differ are not both the same as a third.
pub same_apart : (s t u : Text) → same s t ≡ false → same s u ≡ true → same t u ≡ false
same_apart s t u h e = same_sym t u ∙ sym (same_left s u t e) ∙ h

pub same-nil : (c : ℕ) (s : Text) → same [] (c ∷ s) ≡ false
unfolding same
same-nil c s = refl
