-- ===== src/Accounting/Recompute/Compared.antt =====
-- The fields that `recomputeAccountingFromTrace` of src/runtime/defaults.ts compares and the errors on
-- a difference.
use dogpile.Base.{
  ℕ, ◌==◌, Bool, true, false, Option, none, some, String, List, [], ◌∷◌, Js, if◌then◌else◌,
}
use dogpile.Data.Json.{Fields, num, str, obj, end, field}
use dogpile.Data.Error.{DogpileError, invalid_configuration}
use dogpile.Data.Replay.{RunAccounting}

pub data AccountingField : Type 0 where
  cost_usd cost_input_tokens cost_output_tokens cost_total_tokens : AccountingField
  usage_usd usage_input_tokens usage_output_tokens usage_total_tokens : AccountingField

abbrev pub recompute_field_order : List AccountingField
recompute_field_order =
    cost_usd ∷ cost_input_tokens ∷ cost_output_tokens ∷ cost_total_tokens ∷ usage_usd
    ∷ usage_input_tokens ∷ usage_output_tokens ∷ usage_total_tokens ∷ []

unfoldable pub field_name : AccountingField → String
field_name cost_usd = "cost.usd"
field_name cost_input_tokens = "cost.inputTokens"
field_name cost_output_tokens = "cost.outputTokens"
field_name cost_total_tokens = "cost.totalTokens"
field_name usage_usd = "usage.usd"
field_name usage_input_tokens = "usage.inputTokens"
field_name usage_output_tokens = "usage.outputTokens"
field_name usage_total_tokens = "usage.totalTokens"

-- `field.startsWith("usage.")`.
unfoldable pub is_usage : AccountingField → Bool
is_usage usage_usd = true
is_usage usage_input_tokens = true
is_usage usage_output_tokens = true
is_usage usage_total_tokens = true
is_usage f = false

-- A number that is read from an accounting: an amount of dollars, or a count of tokens.
pub data Amount (F : Type 0) : Type 0 where
  dollars : F → Amount F
  tokens : ℕ → Amount F

pub record Drift (F : Type 0) : Type 0 where
  pub field_of : AccountingField
  pub recorded : Amount F
  pub recomputed : Amount F

module _ {F : Type 0} where
  unfoldable pub read_numeric_field : RunAccounting F → AccountingField → Amount F
  read_numeric_field a cost_usd = dollars a.cost.usd
  read_numeric_field a cost_input_tokens = tokens a.cost.input_tokens
  read_numeric_field a cost_output_tokens = tokens a.cost.output_tokens
  read_numeric_field a cost_total_tokens = tokens a.cost.total_tokens
  read_numeric_field a usage_usd = dollars a.usage.usd
  read_numeric_field a usage_input_tokens = tokens a.usage.input_tokens
  read_numeric_field a usage_output_tokens = tokens a.usage.output_tokens
  read_numeric_field a usage_total_tokens = tokens a.usage.total_tokens

module _ {F : Type 0} ⦃js : Js F⦄ where
  -- 1e-9, the float nearest to the quotient.
  abbrev pub float_epsilon : F
  float_epsilon = js.div (js.of_nat 1) (js.of_nat 1000000000)

  -- Dollars are compared up to the tolerance, tokens with `===`.
  unfoldable pub fields_equal : Amount F → Amount F → Bool
  fields_equal (dollars a) (dollars b) = js.lt (js.abs (js.sub a b)) float_epsilon
  fields_equal (tokens a) (tokens b) = a == b
  fields_equal a b = false

  -- The loop over the fields.
  unfoldable pub first_drift :
      List AccountingField → RunAccounting F → RunAccounting F → Option (Drift F)
  first_drift [] recorded recomputed = none
  first_drift (f ∷ fs) recorded recomputed =
      let rest = first_drift fs recorded recomputed in
      if fields_equal (read_numeric_field recorded f) (read_numeric_field recomputed f)
      then rest
      else some (record {
        field_of = f;
        recorded = read_numeric_field recorded f;
        recomputed = read_numeric_field recomputed f;
      })

  unfoldable pub first_differing_field : RunAccounting F → RunAccounting F → Option (Drift F)
  first_differing_field recorded recomputed = first_drift recompute_field_order recorded recomputed

  amount_number : Amount F → F
  amount_number (dollars x) = x
  amount_number (tokens n) = js.of_nat n

  -- The number in a message.
  unfoldable pub amount_text : Amount F → String
  unfolding amount_number
  amount_text a = js.show (amount_number a)

  -- `eventIndex` and the rest of the detail of every mismatch.
  unfoldable pub mismatch_detail : F → String → Drift F → Fields F
  unfolding amount_number field_name
  mismatch_detail event_index child_run_id d = field "eventIndex" (num event_index) (
      field "childRunId" (str child_run_id) (
        field "field" (str (field_name d.field_of)) (
          field "recorded" (num (amount_number d.recorded))
            (field "recomputed" (num (amount_number d.recomputed)) end))))

  unfoldable pub mismatch_error : String → Fields F → DogpileError F
  mismatch_error message detail = record {
    code = invalid_configuration;
    message = message;
    retryable = some false;
    provider_id = none;
    detail = some (
        obj (
          field "kind" (str "trace-validation")
            (field "reason" (str "trace-accounting-mismatch") detail)));
  }

  unfoldable pub rollup_error : String → F → String → Drift F → DogpileError F
  unfolding mismatch_error mismatch_detail
  rollup_error message event_index child_run_id d =
      mismatch_error message
        (field "subReason" (str "parent-rollup-drift") (mismatch_detail event_index child_run_id d))
