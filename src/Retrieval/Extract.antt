-- ===== src/Retrieval/Extract.antt =====
-- orchestrator/retrieval_progress.py: what `_after_locked` reads from the text of a result, by the
-- patterns `URL_RE` and `WORD_RE` and by `_fingerprint`, and Python's sets of texts.
use agi_inspired.Prelude.{
  ℕ, zero, suc, ◌-◌, Bool, not, ◌&&◌, ◌||◌, List, [], ◌∷◌, ◌++◌, leb, ◌==◌, length, if◌then◌else◌,
  ◌≡◌, refl, map,
}
use agi_inspired.Prelude.Text.{Text, codes, contains, lower, starts_with, is_space}

-- Sets of texts, as lists with no text twice.
unfoldable pub set_add : Text → List Text → List Text
set_add t us = if contains us t then us else us ++ t ∷ []

-- `us.update(ts)`
unfoldable pub set_update : List Text → List Text → List Text
unfolding set_add
set_update us [] = us
set_update us (t ∷ ts) = set_update (set_add t us) ts

unfoldable pub set_of : List Text → List Text
unfolding set_update
set_of ts = set_update [] ts

-- `us - vs`
unfoldable pub set_minus : List Text → List Text → List Text
set_minus [] vs = []
set_minus (u ∷ us) vs = let rest = set_minus us vs in if contains vs u then rest else u ∷ rest

-- [a-z0-9]; the text is in lower case at each of its uses.
unfoldable pub is_word_code : ℕ → Bool
is_word_code c = (leb 97 c && leb c 122) || (leb 48 c && leb c 57)

-- A run of word characters that ends here counts if it has three or more.
unfoldable pub close_run : Text → List Text → List Text
close_run run ws = if leb 3 (length run) then run ∷ ws else ws

unfoldable pub words_from : Text → Text → List Text
unfolding is_word_code close_run
words_from run [] = close_run run []
words_from run (c ∷ t) =
    let ends = words_from [] t in
    let goes_on = words_from (run ++ c ∷ []) t in
    if is_word_code c then goes_on else close_run run ends

-- `WORD_RE.findall(text.lower())`
unfoldable pub words : Text → List Text
unfolding words_from lower
words t = words_from [] (lower t)

-- [^\s<>"'`]
unfoldable pub is_url_code : ℕ → Bool
unfolding is_space
is_url_code c = not (is_space c || c == b'<' || c == b'>' || c == b'"' || c == 39 || c == b'`')

unfoldable pub url_run : Text → Text
unfolding is_url_code
url_run [] = []
url_run (c ∷ t) = let rest = url_run t in if is_url_code c then c ∷ rest else []

-- `some` length of `https?://` where the text starts with it, in either case; 0 where it does not.
unfoldable pub scheme_length : Text → ℕ
unfolding lower starts_with
scheme_length t =
    if starts_with (lower t) (codes "http://")
    then 7
    else if starts_with (lower t) (codes "https://")
    then 8
    else 0

unfoldable pub drop : ℕ → Text → Text
drop zero t = t
drop (suc n) [] = []
drop (suc n) (c ∷ t) = drop n t

-- The match of `URL_RE` that starts here, or the empty text.
unfoldable pub url_here : Text → Text
unfolding scheme_length url_run drop
url_here t =
    let n = scheme_length t in if n == 0 || length (url_run (drop n t)) == 0 then [] else url_run t

-- `skip` characters belong to the match before.
unfoldable pub urls_from : ℕ → Text → List Text
unfolding url_here
urls_from skip [] = []
urls_from (suc skip) (c ∷ t) = urls_from skip t
urls_from zero (c ∷ t) =
    let here = url_here (c ∷ t) in
    let none_here = urls_from 0 t in
    let after = urls_from (length here - 1) t in
    if length here == 0 then none_here else here ∷ after

-- `URL_RE.findall(text)`
unfoldable pub urls : Text → List Text
unfolding urls_from
urls = urls_from 0

unfoldable pub join_words : List Text → Text
join_words [] = []
join_words (w ∷ []) = w
join_words (w ∷ v ∷ ws) = w ++ 32 ∷ join_words (v ∷ ws)

-- `_fingerprint`, over the digest of Python's library.
unfoldable pub fingerprint : (Text → Text) → Text → Text
unfolding join_words words
fingerprint sha256 t = sha256 (join_words (words t))

-- The set of the canonical forms of the URLs in a text. `_canonical_url` rests on the URL reader and
-- writer of Python's library, and is a parameter.
unfoldable pub canonical_urls : (Text → Text) → Text → List Text
unfolding set_of urls
canonical_urls canonical_url t = set_of (map canonical_url (urls t))

urls_test :
    urls (codes "see HTTPS://a.org/x, (http://b.io) http:// end")
    ≡ codes "HTTPS://a.org/x," ∷ codes "http://b.io)" ∷ []
unfolding urls
urls_test = refl

words_test : words (codes "An owl, 42 or GPT4.") ≡ codes "owl" ∷ codes "gpt4" ∷ []
unfolding words
words_test = refl
