-- ===== src/Prelude/Text.antt =====
-- Texts as lists of code points, with the string operations of the source: comparison, lower case,
-- strip, prefix, suffix and substring tests. Case and white space are those of ASCII.
use Prim.Native.Nat.{ℕ, ◌+◌}
use Prim.Native.Char.{code}
use Prim.Native.String.{String}
use mathlib.Core.Bool.{Bool, true, false, ◌&&◌, ◌||◌}
use mathlib.Core.List.{List, [], ◌∷◌, map, reverse}
use mathlib.Core.Path.{◌≡◌, refl}
use native.Mathlib.Omega.{arith}
use agi_inspired.Prelude.Tests.{leb, ◌==◌, if◌then◌else◌}

abbrev pub Text : Type 0
Text = List ℕ

abbrev pub codes : String → Text
codes String.[] = []
codes (String.◌∷◌ c s) = code c ∷ codes s

unfoldable pub text_eq : Text → Text → Bool
text_eq [] [] = true
text_eq [] (b ∷ bs) = false
text_eq (a ∷ as') [] = false
text_eq (a ∷ as') (b ∷ bs) = a == b && text_eq as' bs

-- Membership in a collection of texts.
unfoldable pub contains : List Text → Text → Bool
unfolding text_eq
contains [] t = false
contains (u ∷ us) t = text_eq u t || contains us t

unfoldable pub lower_code : ℕ → ℕ
lower_code c = if leb 65 c && leb c 90 then c + 32 else c

unfoldable pub lower : Text → Text
unfolding lower_code
lower = map lower_code

-- The white space that `str.strip` removes, among the ASCII code points.
unfoldable pub is_space : ℕ → Bool
is_space c = c == 32 || (leb 9 c && leb c 13) || (leb 28 c && leb c 31)

unfoldable pub strip_left : Text → Text
unfolding is_space
strip_left [] = []
strip_left (c ∷ t) = let rest = strip_left t in if is_space c then rest else c ∷ t

unfoldable pub strip : Text → Text
unfolding strip_left
strip t = reverse (strip_left (reverse (strip_left t)))

unfoldable pub starts_with : Text → Text → Bool
starts_with t [] = true
starts_with [] (p ∷ ps) = false
starts_with (c ∷ t) (p ∷ ps) = c == p && starts_with t ps

unfoldable pub ends_with : Text → Text → Bool
unfolding starts_with
ends_with t suffix = starts_with (reverse t) (reverse suffix)

-- `needle in t`
unfoldable pub has_part : Text → Text → Bool
unfolding starts_with
has_part [] needle = starts_with [] needle
has_part (c ∷ t) needle = starts_with (c ∷ t) needle || has_part t needle

pub text_eq_refl : (t : Text) → text_eq t t ≡ true
unfolding text_eq
text_eq_refl [] = refl
text_eq_refl (c ∷ t) = ground (arith, text_eq_refl t)

pub text_eq_sound : (t u : Text) → text_eq t u ≡ true → t ≡ u
unfolding text_eq
text_eq_sound [] [] h = refl
text_eq_sound [] (b ∷ bs) h = cc
text_eq_sound (a ∷ as') [] h = cc
text_eq_sound (a ∷ as') (b ∷ bs) h = ground (arith, text_eq_sound as' bs)

lower_test : lower (codes "Web_Search") ≡ codes "web_search"
unfolding lower
lower_test = refl

has_part_test : has_part (codes "my_search_tool") (codes "search") ≡ true
unfolding has_part
has_part_test = refl

-- Python's order of texts, and `sorted` on them.
unfoldable pub text_le : Text → Text → Bool
text_le [] u = true
text_le (a ∷ t) [] = false
text_le (a ∷ t) (b ∷ u) = if a == b then text_le t u else leb a b

unfoldable pub insert_text : Text → List Text → List Text
unfolding text_le
insert_text t [] = t ∷ []
insert_text t (u ∷ us) = let rest = insert_text t us in if text_le t u then t ∷ u ∷ us else u ∷ rest

unfoldable pub sort_texts : List Text → List Text
unfolding insert_text
sort_texts [] = []
sort_texts (t ∷ ts) = insert_text t (sort_texts ts)
