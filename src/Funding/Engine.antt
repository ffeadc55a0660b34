-- ===== src/Funding/Engine.antt =====
-- internal/funding/engine.go: entries and exits of the funding carry, for each pair of the configuration.
use trading_challenge.Prelude.{
  Bool, true, false, Option, none, some, List, [], ◌∷◌, String, if◌then◌else◌, ℤ, pos, lt_ℤ, add64,
  Dict, lookup, insert, Float64,
}
use trading_challenge.Arb.{ExpectedMetrics, TradeIntent}
use trading_challenge.Arb.Pair.{PairConfig, pair_id, pair_intent, positive_beta}
use trading_challenge.Funding.Config.{Config, allocation_pct_for_diff}

pub record Quote {ℓ} (F : Type ℓ) : Type ℓ where
  pub symbol : String
  pub perp_price : F
  pub funding_rate : F
  pub ts_ms : ℤ

pub record OpenPosition {ℓ} (F : Type ℓ) : Type ℓ where
  pub pair_id : String
  pub primary_symbol : String
  pub hedge_symbol : String
  pub notional_usd : F
  pub hedge_beta : F
  pub entry_diff_bps : F
  pub entry_time : ℤ
  pub negative_cycles : ℤ
  pub last_diff_bps : F

pub record Engine {ℓ} (F : Type ℓ) : Type ℓ where
  pub cfg : Config F
  pub quotes : Dict (Quote F)
  pub positions : Dict (OpenPosition F)
  pub cooldowns : Dict ℤ
  pub betas : Dict F
  pub seq_id : ℤ

module _ {ℓ} {F : Type ℓ} where
  abbrev pub new_engine : Config F → Engine F
  new_engine cfg = record {
    cfg = cfg;
    quotes = [];
    positions = [];
    cooldowns = [];
    betas = [];
    seq_id = pos 0;
  }

  unfoldable pub update_quote : Quote F → Engine F → Engine F
  unfolding insert
  update_quote q e = record e { quotes = insert q.symbol q e.quotes }

  unfoldable pub update_beta : (primary hedge : String) → F → Engine F → Engine F
  unfolding pair_id insert
  update_beta primary hedge beta e = record e {
    betas = insert (pair_id primary hedge) beta e.betas;
  }

  -- The pair has a position, or is on its cooldown.
  unfoldable pub is_busy : Engine F → String → (now : ℤ) → Bool
  unfolding lookup
  is_busy e pid now = elim (lookup pid e.positions) [
    | some _ ↦ true
    | none ↦ elim (lookup pid e.cooldowns) [ none ↦ false | some until ↦ lt_ℤ now until ]
  ]

module _ {ℓ} {F : Type ℓ} ⦃flt : Float64 F⦄ where
  -- The differential in basis points, if both legs are quoted.
  unfoldable pub diff_bps : Dict (Quote F) → (primary hedge : String) → Option F
  unfolding lookup
  diff_bps quotes primary hedge = elim (lookup primary quotes) [
    | none ↦ none
    | some pq ↦ elim (lookup hedge quotes) [
      | none ↦ none
      | some hq ↦ some (flt.mul (flt.sub pq.funding_rate hq.funding_rate) (flt.lit 10_000 0))
    ]
  ]

  unfoldable pub annual_pct : F → F
  annual_pct diff =
      flt.mul (flt.mul (flt.div diff (flt.lit 10_000 0)) (flt.lit 100 0)) (flt.lit 1095 0)

  unfoldable pub beta_of : Engine F → String → F
  unfolding lookup
  beta_of e pid =
      positive_beta (elim (lookup pid e.betas) as (λ _. F) [ none ↦ flt.lit 0 0 | some b ↦ b ])

  unfoldable pub primary_notional : Config F → (equity diff : F) → F
  unfolding allocation_pct_for_diff
  primary_notional cfg equity diff =
      let most = flt.mul equity (flt.div cfg.max_allocation_pct (flt.lit 100 0)) in
      let wanted = flt.mul equity (flt.div (allocation_pct_for_diff cfg diff) (flt.lit 100 0)) in
      if flt.lt most wanted then most else wanted

  -- What the entry is expected to bring.
  unfoldable pub entry_metrics : Config F → (diff annual primary hedge : F) → ExpectedMetrics F
  entry_metrics cfg diff annual primary hedge =
      let total = flt.add primary hedge in
      let fees = flt.mul total (flt.div cfg.fee_bps_taker (flt.lit 10_000 0)) in
      let slippage = flt.mul total (flt.div cfg.max_slippage_bps (flt.lit 10_000 0)) in
      let cost = flt.mul (flt.div (flt.add fees slippage) primary) (flt.lit 10_000 0) in
      let net = flt.sub diff cost in
      record {
        edge_bps_gross = diff;
        edge_bps_net = net;
        profit_usd_net = flt.mul primary (flt.div net (flt.lit 10_000 0));
        fees_usd_est = fees;
        slippage_usd_est = slippage;
        funding_rate_8h_bps = diff;
        annual_yield_pct_net =
            flt.sub annual (
              flt.mul (flt.mul (flt.div cost (flt.lit 10_000 0)) (flt.lit 1095 0)) (flt.lit 100 0));
      }

  -- The amount of the primary leg, if the pair is to be entered at this differential.
  unfoldable pub entry_notional : Config F → (equity diff : F) → Option F
  unfolding annual_pct primary_notional
  entry_notional cfg equity diff =
      let notional = primary_notional cfg equity diff in
      if flt.le diff (flt.lit 0 0)
      then none
      else if flt.lt (annual_pct diff) cfg.min_annual_yield_pct
      then none
      else if flt.lt notional (flt.lit 10 0)
      then none
      else some notional

  unfoldable pub entry_intent :
      Engine F → PairConfig F → (now seq : ℤ) → (diff notional : F) → TradeIntent F
  unfolding pair_id beta_of entry_metrics annual_pct
  entry_intent e pair now seq diff notional =
      let pid = pair_id pair.primary pair.hedge in
      let beta = beta_of e pid in
      let hedge = flt.div notional beta in
      pair_intent (record { prefix = "fund"; strategy = "funding"; cooldown = "funding" })
        e.cfg.intent_ttl_ms e.cfg.max_slippage_bps pid pair.primary pair.hedge beta now seq false
        notional hedge (entry_metrics e.cfg diff (annual_pct diff) notional hedge)

  -- The differential and the amount, if the pair is to be entered.
  unfoldable pub entry_of : Engine F → (equity : F) → (now : ℤ) → PairConfig F → Option (F × F)
  unfolding pair_id is_busy diff_bps entry_notional
  entry_of e equity now pair = elim (is_busy e (pair_id pair.primary pair.hedge) now) [
    | true ↦ none
    | false ↦ elim (diff_bps e.quotes pair.primary pair.hedge) [
      | none ↦ none
      | some diff ↦ elim (entry_notional e.cfg equity diff) [
        | none ↦ none
        | some notional ↦ some (diff, notional)
      ]
    ]
  ]

  unfoldable pub evaluate_pairs :
      Engine F → (equity : F) → (now seq : ℤ) → List (PairConfig F) → ℤ × List (TradeIntent F)
  unfolding entry_of entry_intent
  evaluate_pairs e equity now seq [] = (seq, [])
  evaluate_pairs e equity now seq (pair ∷ pairs) = elim (entry_of e equity now pair) [
    | none ↦ evaluate_pairs e equity now seq pairs
    | some (diff, notional) ↦
        let n = add64 seq (pos 1) in
        let (seq', intents) = evaluate_pairs e equity now n pairs in
        (seq', entry_intent e pair now n diff notional ∷ intents)
  ]

  unfoldable pub evaluate : (now : ℤ) (equity : F) → Engine F → Engine F × List (TradeIntent F)
  unfolding evaluate_pairs
  evaluate now equity e =
      let (seq, intents) = evaluate_pairs e equity now e.seq_id e.cfg.pairs in
      (record e { seq_id = seq }, intents)
