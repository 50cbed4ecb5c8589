-- ===== src/Maps/Texts.antt =====
-- How texts are made comparable in backend/src/services/maps.service.ts.
use hop_drop.Accounts.Text.{to_lower, join_text, text_length, trim}
use hop_drop.Maps.Words.{add_word, one_word}
use Prim.Native.Char.{Char, code}
use hop_drop.Common.{Bool, true, false, ◌&&◌, ◌||◌, List, leb, filter}
use Prim.Native.String.{String, [], ◌∷◌}

-- `[a-z0-9]`
abbrev pub is_word_char : Char → Bool
is_word_char c = (leb 97 (code c) && leb (code c) 122) || (leb 48 (code c) && leb (code c) 57)

abbrev space_before : String → String
space_before t = join_text " " t

-- `replace(/[^a-z0-9]+/g, ' ')`: a run of other characters becomes one space.
unfoldable pub spaced : Bool → String → String
spaced in_run [] = []
spaced in_run (c ∷ t) = elim (is_word_char c) [
  | true ↦ c ∷ spaced false t
  | false ↦ elim in_run [ true ↦ spaced true t | false ↦ space_before (spaced true t) ]
]

-- `normalizeText`
unfoldable pub normalize_text : String → String
unfolding spaced
normalize_text t = trim (spaced false (to_lower (trim t)))

-- The words of a text, each after the characters that were read of it.
unfoldable pub words_after : String → String → List String
words_after word [] = one_word word
words_after word (c ∷ t) = elim (is_word_char c) [
  | true ↦ words_after (join_text word (c ∷ [])) t
  | false ↦ add_word word (words_after [] t)
]

-- `tokenizeText`
unfoldable pub tokenize_text : String → List String
unfolding normalize_text words_after
tokenize_text t = filter (λ word. leb 2 (text_length word)) (words_after [] (normalize_text t))
