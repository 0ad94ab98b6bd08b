-- ===== src/Decisions/Encode.antt =====
-- A delegate written as the JSON object that src/runtime/decisions.ts reads, and read back.
use dogpile.Base.{
  ℕ, suc, leb, ltb, ◌≤◌, true, false, Option, none, some, String, Js, HasWhole, safe_limit, ◌<◌,
  trim, str_eq, str_eq_iff, ◌≡◌, refl, sym, ◌∙◌, ap, ap₂, arith,
}
use dogpile.Base.Result.{Result, ok, ◌>>=◌}
use dogpile.Data.Json.{Json, Fields, num, str, obj, end, field}
use dogpile.Data.Agent.{
  Protocol, coordinator, sequential, broadcast, shared, BudgetCaps, DelegateDecision,
}
use dogpile.Data.Error.{DogpileError}
use dogpile.Decisions.{
  whole_from, parse_whole, parse_budget_fields, parse_delegate_budget, parse_optional_budget,
  check_parse_depth, parse_fields, parse_single_delegate_object,
}
use dogpile.Decisions.Reading.{
  ParseContext, Texts, filled, protocol_of_name, get_field, or_throw, as_record, parse_protocol,
  parse_intent, check_parent_model, parse_model,
}
use dogpile.Decisions.Allowed.{
  Optionally, IsFilled, IsModelFor, SetsCountsOnly, IsWithinDepth, IsAllowed,
}

pub name_of : Protocol → String
name_of coordinator = "coordinator"
name_of sequential = "sequential"
name_of broadcast = "broadcast"
name_of shared = "shared"

protocol_of_name-name_of : (p : Protocol) → protocol_of_name (name_of p) ≡ some p
unfolding protocol_of_name name_of
protocol_of_name-name_of coordinator = refl
protocol_of_name-name_of sequential = refl
protocol_of_name-name_of broadcast = refl
protocol_of_name-name_of shared = refl

below : (least n : ℕ) → least ≤ n → leb least n ≡ true
below least n h = ground arith

not_deeper : (current limit : ℕ) → suc current ≤ limit → ltb limit (suc current) ≡ false
not_deeper current limit h = ground arith

nonnegative : (o : Option ℕ) → Optionally (λ n. 0 ≤ n) o
unfolding Optionally
nonnegative none = tt
nonnegative (some n) = omega arith

depth_back :
    (F : Type 0) ⦃js : Js F⦄ (current limit : Option ℕ)
    → IsWithinDepth current limit
    → check_parse_depth {F = F} current limit ≡ ok tt
unfolding check_parse_depth IsWithinDepth
depth_back F none limit h = refl
depth_back F (some current) none h = refl
depth_back F (some current) (some limit) h = rw (not_deeper current limit h) refl

abbrev pub map_option : {A B : Type 0} → (A → B) → Option A → Option B
map_option f none = none
map_option f (some a) = some (f a)

module _ {F : Type 0} where
  -- A property that is left out where it is absent.
  pub option_field : String → Option (Json F) → Fields F → Fields F
  option_field k none rest = rest
  option_field k (some v) rest = field k v rest

  get_other :
      (key k : String) (o : Option (Json F)) (rest : Fields F)
      → str_eq k key ≡ false
      → get_field key (option_field k o rest) ≡ get_field key rest
  unfolding get_field option_field
  get_other key k none rest e = refl
  get_other key k (some v) rest e = rw e refl

  get_own :
      (k : String) (o : Option (Json F)) (rest : Fields F)
      → str_eq k k ≡ true
      → get_field k rest ≡ none
      → get_field k (option_field k o rest) ≡ o
  unfolding get_field option_field
  get_own k none rest e n = n
  get_own k (some v) rest e n = rw e refl

  -- Three properties under different keys are each found.
  first_back :
      (a b c : String) (t k i : Option (Json F))
      → str_eq a a ≡ true
      → str_eq b a ≡ false
      → str_eq c a ≡ false
      → get_field a (option_field a t (option_field b k (option_field c i end))) ≡ t
  unfolding get_field
  first_back a b c t k i same b_differs c_differs =
      get_own a t _ same (get_other a b k _ b_differs ∙ get_other a c i _ c_differs)

  second_back :
      (a b c : String) (t k i : Option (Json F))
      → str_eq b b ≡ true
      → str_eq a b ≡ false
      → str_eq c b ≡ false
      → get_field b (option_field a t (option_field b k (option_field c i end))) ≡ k
  unfolding get_field
  second_back a b c t k i same a_differs c_differs =
      get_other b a t _ a_differs ∙ get_own b k _ same (get_other b c i _ c_differs)

  third_back :
      (a b c : String) (t k i : Option (Json F))
      → str_eq c c ≡ true
      → str_eq a c ≡ false
      → str_eq b c ≡ false
      → get_field c (option_field a t (option_field b k (option_field c i end))) ≡ i
  unfolding get_field
  third_back a b c t k i same a_differs b_differs =
      get_other c a t _ a_differs ∙ get_other c b k _ b_differs ∙ get_own c i _ same refl

  step :
      {A B : Type 0} (m : Result (DogpileError F) A) (a : A) (f : A → Result (DogpileError F) B)
      (r : Result (DogpileError F) B)
      → m ≡ ok a
      → f a ≡ r
      → (m >>= f) ≡ r
  step m a f r e h = rw e h

  intent_back :
      (texts : Texts F) (intent : String)
      → trim intent ≡ intent
      → IsFilled intent
      → parse_intent texts (some (str intent)) ≡ ok intent
  unfolding parse_intent filled IsFilled
  intent_back texts intent t f = rw (t, f) refl

  model_back :
      (texts : Texts F) (parent model : Option String)
      → Optionally (IsModelFor parent) model
      → parse_model texts parent (map_option str model) ≡ ok model
  unfolding parse_model filled check_parent_model IsFilled IsModelFor Optionally
  model_back texts parent none h = refl
  model_back texts none (some m) (f, h) = rw f refl
  model_back texts (some p) (some m) (f, h) = rw (f, (str_eq_iff m p).1 h) refl

module _ {F : Type 0} ⦃js : Js F⦄ where
  abbrev count : Option ℕ → Option (Json F)
  count o = map_option (λ n. num (js.of_nat n)) o

  pub encode_caps : BudgetCaps F → Json F
  encode_caps caps = obj (
      option_field "timeoutMs" (count caps.timeout_ms) (
        option_field "maxTokens" (count caps.max_tokens)
          (option_field "maxIterations" (count caps.max_iterations) end)))

  pub encode : DelegateDecision F → Json F
  encode d = obj (
      field "protocol" (str (name_of d.protocol)) (
        field "intent" (str d.intent) (
          option_field "model" (map_option str d.model) (
            option_field "budget" (map_option encode_caps d.budget)
              (option_field "maxConcurrentChildren" (count d.max_concurrent_children) end)))))

  unfoldable pub HasSafeCaps : BudgetCaps F → Type 0
  HasSafeCaps caps =
      Optionally (λ n. n < safe_limit) caps.timeout_ms
      × Optionally (λ n. n < safe_limit) caps.max_tokens
      × Optionally (λ n. n < safe_limit) caps.max_iterations

  -- All counts are below 2^53.
  unfoldable pub HasSafeCounts : DelegateDecision F → Type 0
  HasSafeCounts d =
      Optionally HasSafeCaps d.budget × Optionally (λ n. n < safe_limit) d.max_concurrent_children

  whole_back :
      HasWhole js
      → (least : ℕ) (make : Json F → DogpileError F) (o : Option ℕ) → Optionally (λ n. least ≤ n) o
      → Optionally (λ n. n < safe_limit) o
      → parse_whole least make (count o) ≡ ok o
  unfolding parse_whole whole_from Optionally
  whole_back laws least make none h safe = refl
  whole_back laws least make (some n) h safe = rw (laws.whole-of_nat n safe, below least n h) refl

  caps_back :
      HasWhole js
      → (texts : Texts F) (caps : BudgetCaps F) → SetsCountsOnly caps
      → HasSafeCaps caps
      → parse_delegate_budget texts (encode_caps caps) ≡ ok caps
  unfolding parse_delegate_budget parse_budget_fields encode_caps SetsCountsOnly HasSafeCaps
  caps_back laws texts caps (no_usd, no_weight) (time, tokens, iterations) =
      step _ caps.timeout_ms _ _
        (ap (parse_whole 0 _)
            (first_back "timeoutMs" "maxTokens" "maxIterations" _ _ _ refl refl refl)
          ∙ whole_back laws 0 _ caps.timeout_ms (nonnegative _) time)
        (step _ caps.max_tokens _ _
          (ap (parse_whole 0 _)
              (second_back "timeoutMs" "maxTokens" "maxIterations" _ _ _ refl refl refl)
            ∙ whole_back laws 0 _ caps.max_tokens (nonnegative _) tokens)
          (step _ caps.max_iterations _ _
            (ap (parse_whole 0 _)
                (third_back "timeoutMs" "maxTokens" "maxIterations" _ _ _ refl refl refl)
              ∙ whole_back laws 0 _ caps.max_iterations (nonnegative _) iterations)
            (ap₂ (λ usd weight. ok (record caps { max_usd = usd; quality_weight = weight }))
              (sym no_usd) (sym no_weight))))

  budget_back :
      HasWhole js
      → (texts : Texts F) (o : Option (BudgetCaps F)) → Optionally SetsCountsOnly o
      → Optionally HasSafeCaps o
      → parse_optional_budget texts (map_option encode_caps o) ≡ ok o
  unfolding parse_optional_budget Optionally
  budget_back laws texts none h safe = refl
  budget_back laws texts (some caps) h safe =
      step _ caps _ _ (caps_back laws texts caps h safe) refl

  -- A delegate that may be started, with an intent that has no blanks around it and counts below 2^53,
  -- is read back as it was written.
  pub parse_single_delegate_object-encode :
      HasWhole js
      → (texts : Texts F) (ctx : ParseContext) (d : DelegateDecision F) → trim d.intent ≡ d.intent
      → IsAllowed ctx d
      → HasSafeCounts d
      → parse_single_delegate_object texts ctx (encode d) ≡ ok d
  unfolding parse_single_delegate_object as_record parse_fields encode get_field parse_protocol
      IsAllowed HasSafeCounts
  parse_single_delegate_object-encode laws texts ctx d trimmed (f, fits, counts, positive, within)
        (safe_caps, safe_children) =
      step _ d.protocol _ _ (ap (or_throw _) (protocol_of_name-name_of d.protocol)) (
        step _ d.intent _ _ (intent_back texts d.intent trimmed f) (
          step _ d.model _ _
            (ap (parse_model texts _)
                (first_back "model" "budget" "maxConcurrentChildren" _ _ _ refl refl refl)
              ∙ model_back texts _ d.model fits)
            (step _ d.budget _ _
              (ap (parse_optional_budget texts)
                  (second_back "model" "budget" "maxConcurrentChildren" _ _ _ refl refl refl)
                ∙ budget_back laws texts d.budget counts safe_caps)
              (step _ d.max_concurrent_children _ _
                (ap (parse_whole 1 _)
                    (third_back "model" "budget" "maxConcurrentChildren" _ _ _ refl refl refl)
                  ∙ whole_back laws 1 _ d.max_concurrent_children positive safe_children)
                (step _ tt _ _ (depth_back F ctx.current_depth ctx.max_depth within) refl)))))
