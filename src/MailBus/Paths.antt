-- ===== src/MailBus/Paths.antt =====
-- orchestrator/mailbus.py: what a write at one path leaves at that path and at every other.
use agi_inspired.Prelude.{
  suc, ◌≤◌, Bool, true, false, not, ◌&&◌, none, some, List, [], ◌∷◌, ◌≡◌, inl, inr, refl, sym, ap,
  Bool-cases, arith, All, All-keep_of, count, keep, keep-yes, keep-no,
}
use agi_inspired.Prelude.Text.{Text, text_eq, text_eq_refl, text_eq_sound}
use agi_inspired.MailBus.Files.{Content, File, is_at, first, find, remove, put}

-- Two paths differ.
abbrev pub Apart : Text → Text → Text → Text → Type 0
Apart a n b m = (text_eq a b && text_eq n m) ≡ false

pub text_eq_sym : (t u : Text) → text_eq t u ≡ text_eq u t
unfolding text_eq
text_eq_sym [] [] = refl
text_eq_sym [] (c ∷ u) = refl
text_eq_sym (c ∷ t) [] = refl
text_eq_sym (c ∷ t) (d ∷ u) = ground (arith, text_eq_sym t u)

is_at_self :
    (a n : Text) (c : Content) → is_at a n (record { agent = a; name = n; content = c }) ≡ true
unfolding is_at
is_at_self a n c = rw (text_eq_refl a, text_eq_refl n) refl

-- What is kept by a test that every element of another passes has the same first one of those.
first-keep :
    (p q : File → Bool)
    → ((f : File) → p f ≡ true → q f ≡ true)
    → (fs : List File) → first p (keep q fs) ≡ first p fs
unfolding first
first-keep p q h [] = unfold keep in refl
first-keep p q h (f ∷ fs) = elim (Bool-cases (q f)) [
  | inl e ↦ rw (keep-yes q f fs e, first-keep p q h fs) refl
  | inr e ↦ elim (Bool-cases (p f)) [
    | inl e' ↦ absurd (cc (h f e', e))
    | inr e' ↦ rw (keep-no q f fs e, first-keep p q h fs, e') refl
  ]
]

first-keep-none : (p : File → Bool) (fs : List File) → first p (keep (λ f. not (p f)) fs) ≡ none
unfolding first
first-keep-none p [] = unfold keep in refl
first-keep-none p (f ∷ fs) = elim (Bool-cases (p f)) [
  | inl e ↦ rw (keep-no (λ g. not (p g)) f fs (ap not e)) (first-keep-none p fs)
  | inr e ↦ rw (keep-yes (λ g. not (p g)) f fs (ap not e), e) (first-keep-none p fs)
]

pub find-put : (a n : Text) (c : Content) (fs : List File) → find a n (put a n c fs) ≡ some c
unfolding find put first
find-put a n c fs = rw (is_at_self a n c) refl

pub find-remove : (a n : Text) (fs : List File) → find a n (remove a n fs) ≡ none
unfolding find remove
find-remove a n fs = first-keep-none (is_at a n) fs

not_both :
    (a n b m x y : Text)
    → Apart a n b m
    → (text_eq x a && text_eq y n) ≡ true
    → (text_eq x b && text_eq y m) ≡ true
    → ⊥
not_both a n b m x y ne h e =
    let xa = text_eq_sound x a (ground arith) in
    let yn = text_eq_sound y n (ground arith) in
    let ne' : (text_eq x b && text_eq y m) ≡ false = rw (sym xa, sym yn) at ne in cc (ne', e)

-- A file at one of two paths that differ is not at the other.
is_at-Apart :
    (a n b m : Text) → Apart a n b m → (f : File) → is_at a n f ≡ true → not (is_at b m f) ≡ true
unfolding is_at
is_at-Apart a n b m ne f h = elim (Bool-cases (is_at b m f)) [
  | inl e ↦ absurd (not_both a n b m f.agent f.name ne h e)
  | inr e ↦ ap not e
]

pub find-remove_other :
    (a n b m : Text) (fs : List File) → Apart a n b m → find a n (remove b m fs) ≡ find a n fs
unfolding find remove
find-remove_other a n b m fs ne =
    first-keep (is_at a n) (λ f. not (is_at b m f)) (is_at-Apart a n b m ne) fs

is_at_other :
    (a n b m : Text) (c : Content)
    → Apart a n b m
    → is_at a n (record { agent = b; name = m; content = c }) ≡ false
unfolding is_at
is_at_other a n b m c ne = rw (text_eq_sym b a, text_eq_sym m n) ne

pub find-put_other :
    (a n b m : Text) (c : Content) (fs : List File)
    → Apart a n b m
    → find a n (put b m c fs) ≡ find a n fs
unfolding put
find-put_other a n b m c fs ne =
    unfold find first in rw (is_at_other a n b m c ne) (find-remove_other a n b m fs ne)

-- Removing a file takes none of the other files away from a count.
pub count-remove_le :
    (p : File → Bool) (a n : Text) (fs : List File) → count p (remove a n fs) ≤ count p fs
unfolding count remove keep
count-remove_le p a n [] = omega arith
count-remove_le p a n (f ∷ fs) = ground (arith, count-remove_le p a n fs)

pub count-put_le :
    (p : File → Bool) (a n : Text) (c : Content) (fs : List File)
    → count p (put a n c fs) ≤ suc (count p fs)
unfolding count put
count-put_le p a n c fs = ground (arith, count-remove_le p a n fs)

pub All-remove :
    (P : File → Type 0) (a n : Text) (fs : List File) → All P fs → All P (remove a n fs)
unfolding remove
All-remove P a n fs h = All-keep_of P (λ f. not (is_at a n f)) fs h

pub All-put :
    (P : File → Type 0) (a n : Text) (c : Content) (fs : List File)
    → P (record { agent = a; name = n; content = c })
    → All P fs
    → All P (put a n c fs)
unfolding put
All-put P a n c fs p h = (p, All-remove P a n fs h)
