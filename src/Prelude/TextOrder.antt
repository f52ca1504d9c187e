-- ===== src/Prelude/TextOrder.antt =====
-- Python's order of texts is total and transitive.
use agi_inspired.Prelude.Text.{Text, text_le}
use mathlib.Core.Path.{◌≡◌, refl}
use mathlib.Core.Bool.{true, false}
use mathlib.Core.List.{[], ◌∷◌}
use native.Mathlib.Omega.{arith}

pub text_le_total : (t u : Text) → text_le t u ≡ false → text_le u t ≡ true
unfolding text_le
text_le_total [] u h = cc
text_le_total (a ∷ t) [] h = refl
text_le_total (a ∷ t) (b ∷ u) h = ground (arith, text_le_total t u)

pub text_le_trans : (t u v : Text) → text_le t u ≡ true → text_le u v ≡ true → text_le t v ≡ true
unfolding text_le
text_le_trans [] u v h k = refl
text_le_trans (a ∷ t) [] v h k = cc
text_le_trans (a ∷ t) (b ∷ u) [] h k = cc
text_le_trans (a ∷ t) (b ∷ u) (c ∷ v) h k = ground (arith, text_le_trans t u v)
