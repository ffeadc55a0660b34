-- ===== src/Allocator/Examples.antt =====
-- The theorems of the allocator with its default configuration, in ten-thousandths of a dollar.
use trading_challenge.Prelude.{
  contains_upper, ℕ, ◌*◌, ◌≡◌, refl, ◌⊎◌, ◌↔◌, true, false, none, some, [], ◌∷◌, String, ℤ, pos,
  ◌+ℤ◌, ◌-ℤ◌,
}
use trading_challenge.Prelude.Fixed.{fixed_float, mul_fixed, div_fixed}
use trading_challenge.Arb.{TradeLeg, TradeIntent}
use trading_challenge.Allocator.Engine.{
  Engine, Pool, funding, basis, default_config, new_engine, approve, release_notional, is_exempt,
  pool_of, per_leg_notional, check_limits, max_alloc, max_capital, scale_factor, combined_max,
  available_for,
}
use trading_challenge.Allocator.Caps.{
  IsWithin, IsCapped, approve_iff, approve_all, approve_all-IsCapped, release-approve,
}

abbrev usd : ℕ → ℤ
usd n = pos (n * 10_000)

abbrev leg : String → String → TradeLeg ℤ
leg action symbol = record {
  action = action;
  type = "LIMIT";
  market = "PERP";
  symbol = symbol;
  notional_usd = usd 20_000;
  max_slippage_bps = usd 5;
  price_limit = pos 0;
}

abbrev intent : TradeIntent ℤ
intent = record {
  intent_id = "funding-1";
  strategy = "funding_arb";
  symbol = "BTCUSDT";
  hedge_symbol = "ETHUSDT";
  hedge_beta = usd 1;
  ts_ms = pos 0;
  expires_ms = pos 10_000;
  legs = leg "SELL" "BTCUSDT" ∷ leg "BUY" "ETHUSDT" ∷ [];
  expected = record {
    edge_bps_gross = pos 0;
    edge_bps_net = pos 0;
    profit_usd_net = pos 0;
    fees_usd_est = pos 0;
    slippage_usd_est = pos 0;
    funding_rate_8h_bps = pos 0;
    annual_yield_pct_net = pos 0;
  };
  constraints = record {
    max_age_ms = pos 10_000;
    hedge_preference = "SEQUENTIAL";
    cooldown_key = "";
  };
}

abbrev start : Engine ℤ
start = new_engine default_config

not_exempt : is_exempt intent.strategy ≡ false
unfolding is_exempt contains_upper
not_exempt = refl

funding_pool : pool_of intent.strategy ≡ some funding
unfolding pool_of contains_upper
funding_pool = refl

passes : (approve intent start).1 ≡ none
unfolding approve is_exempt contains_upper pool_of check_limits per_leg_notional max_alloc
    combined_max available_for max_capital scale_factor new_engine default_config mul_fixed
    div_fixed ◌+ℤ◌ ◌-ℤ◌
passes = refl

approve_iff_example : ((approve intent start).1 ≡ none) ↔ (
    (is_exempt intent.strategy ≡ true)
    ⊎ ((p : Pool) × (pool_of intent.strategy ≡ some p)
        × IsWithin p (per_leg_notional intent.legs) start))
approve_iff_example = approve_iff intent start

start-IsCapped : IsCapped start
unfolding max_alloc max_capital scale_factor new_engine default_config mul_fixed div_fixed
start-IsCapped funding = refl
start-IsCapped basis = refl

-- Of four such intents the last is refused.
approve_all-IsCapped_example : IsCapped (approve_all (intent ∷ intent ∷ intent ∷ intent ∷ []) start)
approve_all-IsCapped_example =
    approve_all-IsCapped (intent ∷ intent ∷ intent ∷ intent ∷ []) start start-IsCapped

release-approve_example :
    release_notional intent.strategy (per_leg_notional intent.legs) (approve intent start).0 ≡ start
unfolding per_leg_notional new_engine default_config ◌-ℤ◌ ◌+ℤ◌ div_fixed
release-approve_example =
    release-approve intent start funding not_exempt funding_pool passes refl refl
