-- ===== src/Data/Cost.antt =====
-- Cost summaries (src/types.ts, src/runtime/defaults.ts).
use dogpile.Base.{ℕ, ◌+◌, Js}

pub record CostSummary (F : Type 0) : Type 0 where
  pub usd : F
  pub input_tokens : ℕ
  pub output_tokens : ℕ
  pub total_tokens : ℕ

module _ {F : Type 0} ⦃js : Js F⦄ where
  unfoldable pub empty_cost : CostSummary F
  empty_cost = record { usd = js.of_nat 0; input_tokens = 0; output_tokens = 0; total_tokens = 0 }

  unfoldable pub add_cost : CostSummary F → CostSummary F → CostSummary F
  add_cost left right = record {
    usd = js.add left.usd right.usd;
    input_tokens = left.input_tokens + right.input_tokens;
    output_tokens = left.output_tokens + right.output_tokens;
    total_tokens = left.total_tokens + right.total_tokens;
  }
