-- ===== src/Termination/Similarity.antt =====
-- `outputSimilarity` and its helpers: the share of common words of two outputs.
use Prim.Native.Char.{code}
use Prim.Native.String
use dogpile.Base.{
  ℕ, Bool, true, false, ◌&&◌, ◌||◌, List, [], ◌∷◌, ◌++◌, String, Js, leb, ◌==◌, str_eq,
  if◌then◌else◌, length, filter, trim, has_string, set_of,
}
use dogpile.Data.Agent.{TranscriptEntry}

-- `output.trim().toLowerCase()`, with the runtime's `toLowerCase`.
normalize_output : (String → String) → String → String
normalize_output to_lower output = to_lower (trim output)

is_word : ℕ → Bool
is_word c = leb b'a' c && leb c b'z' || leb b'0' c && leb c b'9'

-- Ends the word that is being read; an empty one is dropped.
close : String → List String → List String
close word rest = if str_eq word "" then rest else word ∷ rest

words_from : String → String → List String
words_from word String.[] = close word []
words_from word (String.◌∷◌ c s) = elim (is_word (code c)) [
  | true ↦ words_from (String.◌++◌ word (String.◌∷◌ c String.[])) s
  | false ↦ close word (words_from "" s)
]

pub tokenize : String → List String
unfolding is_word close words_from
tokenize output = words_from "" output

pub intersection_size : List String → List String → ℕ
intersection_size left right = length (filter (λ t. has_string t right) left)

pub union_size : List String → List String → ℕ
union_size left right = length (set_of (left ++ right))

module _ {F : Type 0} ⦃js : Js F⦄ where
  token_similarity : List String → List String → F
  unfolding intersection_size union_size
  token_similarity [] right = js.of_nat 0
  token_similarity (l ∷ ls) [] = js.of_nat 0
  token_similarity (l ∷ ls) (r ∷ rs) =
      let left = set_of (l ∷ ls) in
      let right = set_of (r ∷ rs) in
      let union = union_size left right in
      if union == 0
      then js.of_nat 0
      else js.div (js.of_nat (intersection_size left right)) (js.of_nat union)

  unfoldable pub output_similarity : String → String → F
  unfolding normalize_output tokenize token_similarity
  output_similarity left right =
      let normalized_left = normalize_output js.to_lower left in
      let normalized_right = normalize_output js.to_lower right in
      if str_eq normalized_left normalized_right
      then js.of_nat 1
      else token_similarity (tokenize normalized_left) (tokenize normalized_right)

  unfoldable pub consecutive_similarities : List (TranscriptEntry F) → List F
  consecutive_similarities [] = []
  consecutive_similarities (previous ∷ []) = []
  consecutive_similarities (previous ∷ current ∷ rest) =
      output_similarity previous.output current.output ∷ consecutive_similarities (current ∷ rest)
