-- ===== src/Strategy/Selector.antt =====
-- internal/strategy/selector.go: the configuration, the state, and the decisions for one pair.
use trading_challenge.Prelude.{
  Bool, true, false, ◌&&◌, ◌||◌, Option, none, some, List, [], ◌∷◌, String, str_eq, if◌then◌else◌,
  ℤ, pos, lt_ℤ, le_ℤ, add64, sub64, Dict, Float64,
}
use trading_challenge.Strategy.Types.{
  StrategyType, funding_carry, basis_reversion, hold, PairCondition, ExitReason,
  correlation_degraded, funding_diff_reversed, regime_bearish, diff_below_threshold,
  spread_converged, spread_adverse, spread_timeout, carry, reversion, nothing, Decision,
}

pub record SelectorConfig {ℓ} (F : Type ℓ) : Type ℓ where
  pub basis_entry_z_score : F
  pub basis_exit_z_score : F
  pub min_spread_edge_bps : F
  pub min_funding_diff_bps : F
  pub min_funding_annual_pct : F
  pub min_correlation : F
  pub max_concurrent_positions : ℤ
  pub max_allocation_pct : F
  pub total_max_allocation_pct : F
  pub fee_bps_taker : F
  pub max_slippage_bps : F
  pub intent_ttl_ms : ℤ
  pub cooldown_s : ℤ
  pub funding_exit_threshold_bps : F
  pub funding_negative_exit_cycles : ℤ
  pub basis_holding_max_ms : ℤ

pub record OpenPosition {ℓ} (F : Type ℓ) : Type ℓ where
  pub pair_id : String
  pub primary_symbol : String
  pub hedge_symbol : String
  pub strategy : StrategyType
  pub notional_usd : F
  pub hedge_beta : F
  pub entry_spread : F
  pub entry_fund_diff : F
  pub entry_time_ms : ℤ
  pub negative_cycles : ℤ

pub record Selector {ℓ} (F : Type ℓ) : Type ℓ where
  pub cfg : SelectorConfig F
  pub positions : Dict (OpenPosition F)
  pub cooldowns : Dict ℤ
  pub seq_id : ℤ

unfoldable pub is_basis : StrategyType → Bool
is_basis basis_reversion = true
is_basis _ = false

unfoldable pub is_hold : StrategyType → Bool
is_hold hold = true
is_hold _ = false

module _ {ℓ} {F : Type ℓ} where
  abbrev pub new_selector : SelectorConfig F → Selector F
  new_selector cfg = record { cfg = cfg; positions = []; cooldowns = []; seq_id = pos 0 }

  unfoldable pub find_pair_condition :
      List (PairCondition F) → (primary hedge : String) → Option (PairCondition F)
  find_pair_condition [] primary hedge = none
  find_pair_condition (p ∷ pairs) primary hedge =
      if str_eq p.primary_symbol primary && str_eq p.hedge_symbol hedge
      then some p
      else find_pair_condition pairs primary hedge

module _ {ℓ} {F : Type ℓ} ⦃flt : Float64 F⦄ where
  abbrev pub default_selector_config : SelectorConfig F
  default_selector_config = record {
    basis_entry_z_score = flt.lit 20 1;
    basis_exit_z_score = flt.lit 5 1;
    min_spread_edge_bps = flt.lit 50 1;
    min_funding_diff_bps = flt.lit 50 1;
    min_funding_annual_pct = flt.lit 50 1;
    min_correlation = flt.lit 70 2;
    max_concurrent_positions = pos 2;
    max_allocation_pct = flt.lit 300 1;
    total_max_allocation_pct = flt.lit 600 1;
    fee_bps_taker = flt.lit 55 1;
    max_slippage_bps = flt.lit 50 1;
    intent_ttl_ms = pos 10_000;
    cooldown_s = pos 300;
    funding_exit_threshold_bps = flt.lit 5 1;
    funding_negative_exit_cycles = pos 2;
    basis_holding_max_ms = pos 14_400_000;
  }

  unfoldable pub funding_allocation_pct : SelectorConfig F → F → F
  funding_allocation_pct cfg diff =
      if flt.le (flt.lit 30 0) diff
      then flt.min cfg.max_allocation_pct (flt.lit 30 0)
      else if flt.le (flt.lit 10 0) diff
      then flt.min cfg.max_allocation_pct (flt.lit 20 0)
      else flt.min cfg.max_allocation_pct (flt.lit 15 0)

  -- The notional of both legs, added up in the order of iteration.
  unfoldable pub total_notional : F → Dict (OpenPosition F) → F
  total_notional total [] = total
  total_notional total ((_, p) ∷ positions) =
      total_notional
        (flt.add total
          (flt.add p.notional_usd (flt.div p.notional_usd (flt.max p.hedge_beta (flt.lit 1 1)))))
        positions

  unfoldable pub total_allocated_pct : F → Dict (OpenPosition F) → F
  unfolding total_notional
  total_allocated_pct equity positions =
      if flt.le equity (flt.lit 0 0)
      then flt.lit 100 0
      else flt.mul (flt.div (total_notional (flt.lit 0 0) positions) equity) (flt.lit 100 0)

  -- The carry is attractive.
  unfoldable pub is_carry : SelectorConfig F → PairCondition F → (annual : F) → Bool
  is_carry cfg cond annual =
      flt.lt (flt.lit 0 0) cond.funding_diff_bps
      && flt.le cfg.min_funding_diff_bps cond.funding_diff_bps
      && flt.le cfg.min_funding_annual_pct annual
      && (str_eq cond.regime "BULLISH" || str_eq cond.regime "NEUTRAL")

  unfoldable pub annual_pct : F → F
  annual_pct diff =
      flt.mul (flt.mul (flt.div (flt.abs diff) (flt.lit 10_000 0)) (flt.lit 100 0)) (flt.lit 1095 0)

  unfoldable pub select_strategy : SelectorConfig F → PairCondition F → Decision F
  unfolding is_carry annual_pct funding_allocation_pct
  select_strategy cfg cond =
      let cost = flt.mul cfg.fee_bps_taker (flt.lit 4 0) in
      let diff = cond.funding_diff_bps in
      let annual = annual_pct diff in
      let z = flt.abs cond.spread_z_score in
      let edge = flt.sub (flt.mul (flt.mul z cond.spread_std_dev) (flt.lit 10_000 0)) cost in
      if is_carry cfg cond annual
      then record {
        primary_symbol = cond.primary_symbol;
        hedge_symbol = cond.hedge_symbol;
        strategy = funding_carry;
        confidence = flt.min (flt.div annual (flt.lit 20 0)) (flt.lit 1 0);
        reason = carry diff annual cond.correlation cond.beta cond.regime;
        allocation_pct = funding_allocation_pct cfg diff;
        expected_edge_bps = flt.sub diff (flt.div cost (flt.lit 6 0));
        expected_holding_time = "8h+";
      }
      else if flt.le cfg.basis_entry_z_score z && flt.le cfg.min_spread_edge_bps edge
      then record {
        primary_symbol = cond.primary_symbol;
        hedge_symbol = cond.hedge_symbol;
        strategy = basis_reversion;
        confidence = flt.min (flt.div z (flt.lit 4 0)) (flt.lit 1 0);
        reason = reversion cond.spread_z_score edge cond.correlation;
        allocation_pct = flt.min cfg.max_allocation_pct (flt.lit 20 0);
        expected_edge_bps = edge;
        expected_holding_time = "1-4h";
      }
      else record {
        primary_symbol = cond.primary_symbol;
        hedge_symbol = cond.hedge_symbol;
        strategy = hold;
        confidence = flt.lit 1 0;
        reason = nothing diff cond.spread_z_score cond.correlation cond.regime;
        allocation_pct = flt.lit 0 0;
        expected_edge_bps = flt.lit 0 0;
        expected_holding_time = "";
      }

  -- The position with its count of cycles, and the reason to leave it.
  unfoldable pub should_exit_carry :
      SelectorConfig F → OpenPosition F → PairCondition F → OpenPosition F × Option (ExitReason F)
  should_exit_carry cfg p cond =
      let bearish : Option (ExitReason F) =
        if str_eq cond.regime "BEARISH" || str_eq cond.regime "PERSISTENT"
        then some regime_bearish
        else none in
      let n = add64 p.negative_cycles (pos 1) in
      if flt.lt cond.funding_diff_bps (flt.lit 0 0)
      then (p, some funding_diff_reversed)
      else if flt.lt cond.funding_diff_bps cfg.funding_exit_threshold_bps
      then (
        record p { negative_cycles = n },
        if le_ℤ cfg.funding_negative_exit_cycles n then some (diff_below_threshold n) else bearish,
      )
      else (record p { negative_cycles = pos 0 }, bearish)

  unfoldable pub should_exit_basis :
      SelectorConfig F → OpenPosition F → PairCondition F → (now : ℤ) → Option (ExitReason F)
  should_exit_basis cfg p cond now =
      let z = cond.spread_z_score in
      if flt.le (flt.abs z) cfg.basis_exit_z_score
      then some spread_converged
      else if flt.lt z (flt.neg cfg.basis_entry_z_score) && flt.lt (flt.lit 0 0) p.entry_spread
      then some spread_adverse
      else if flt.lt cfg.basis_entry_z_score z && flt.lt p.entry_spread (flt.lit 0 0)
      then some spread_adverse
      else if lt_ℤ cfg.basis_holding_max_ms (sub64 now p.entry_time_ms)
      then some spread_timeout
      else none

  unfoldable pub should_exit :
      SelectorConfig F
      → OpenPosition F
      → PairCondition F
      → (now : ℤ) → OpenPosition F × Option (ExitReason F)
  unfolding should_exit_carry should_exit_basis
  should_exit cfg p cond now =
      if flt.lt cond.correlation cfg.min_correlation
      then (p, some (correlation_degraded cond.correlation))
      else (elim p.strategy [
        | funding_carry ↦ should_exit_carry cfg p cond
        | basis_reversion ↦ (p, should_exit_basis cfg p cond now)
        | _ ↦ (p, none)
      ])
