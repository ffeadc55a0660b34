-- ===== src/Arb/Pair.antt =====
-- What the intents of the strategy selector, the funding engine and the spread engine have in common: two
-- legs on perpetual futures, one after the other.
use trading_challenge.Prelude.{
  ◌≡◌, str_eq, Bool, List, [], ◌∷◌, String, show_int, ◌<>◌, if◌then◌else◌, ℤ, add64, Float64,
}
use trading_challenge.Arb.{TradeLeg, ExpectedMetrics, TradeIntent}

-- The key of a pair.
unfoldable pub pair_id : (primary hedge : String) → String
pair_id primary hedge = primary <> ":" <> hedge

-- The pairs of a configuration.
pub record PairConfig {ℓ} (F : Type ℓ) : Type ℓ where
  pub primary : String
  pub hedge : String
  pub min_correlation : F

-- What names an intent: the prefix of its id, its strategy, and the prefix of its cooldown key.
pub record Label : Type 0 where
  pub prefix : String
  pub strategy : String
  pub cooldown : String

abbrev opposite : String → String
opposite action = if str_eq action "SELL" then "BUY" else "SELL"

module _ {ℓ} {F : Type ℓ} where
  -- The one leg takes back the other: the same amount of the same symbol, in the other direction.
  abbrev pub IsReverse : TradeLeg F → TradeLeg F → Type ℓ
  IsReverse a b =
      (b.action ≡ opposite a.action) × (b.symbol ≡ a.symbol) × (b.notional_usd ≡ a.notional_usd)

  abbrev pub AreReverse : List (TradeLeg F) → List (TradeLeg F) → Type ℓ
  AreReverse [] others = others ≡ []
  AreReverse (a ∷ legs) [] = a ∷ legs ≡ []
  AreReverse (a ∷ legs) (b ∷ others) = IsReverse a b × AreReverse legs others

module _ {ℓ} {F : Type ℓ} ⦃flt : Float64 F⦄ where
  abbrev pub perp_leg : (slippage : F) (action symbol : String) → F → TradeLeg F
  perp_leg slippage action symbol notional = record {
    action = action;
    type = "LIMIT";
    market = "PERP";
    symbol = symbol;
    notional_usd = notional;
    max_slippage_bps = slippage;
    price_limit = flt.lit 0 0;
  }

  -- `buys` tells whether the primary is bought.
  abbrev pub pair_intent :
      Label
      → (ttl : ℤ) (slippage : F) (pid primary hedge : String) (beta : F) (now seq : ℤ) (buys : Bool)
        (primary_notional hedge_notional : F)
      → ExpectedMetrics F
      → TradeIntent F
  pair_intent label ttl slippage pid primary hedge beta now seq buys pn hn expected = record {
    intent_id = label.prefix <> "-" <> pid <> "-" <> show_int now <> "-" <> show_int seq;
    strategy = label.strategy;
    symbol = primary;
    hedge_symbol = hedge;
    hedge_beta = beta;
    ts_ms = now;
    expires_ms = add64 now ttl;
    legs =
        perp_leg slippage (if buys then "BUY" else "SELL") primary pn
        ∷ perp_leg slippage (if buys then "SELL" else "BUY") hedge hn
        ∷ [];
    expected = expected;
    constraints = record {
      max_age_ms = ttl;
      hedge_preference = "SEQUENTIAL";
      cooldown_key = label.cooldown <> ":" <> pid;
    };
  }

  -- The metrics that an intent states; the others are zero.
  abbrev pub edges : (gross net : F) → ExpectedMetrics F
  edges gross net = record {
    edge_bps_gross = gross;
    edge_bps_net = net;
    profit_usd_net = flt.lit 0 0;
    fees_usd_est = flt.lit 0 0;
    slippage_usd_est = flt.lit 0 0;
    funding_rate_8h_bps = flt.lit 0 0;
    annual_yield_pct_net = flt.lit 0 0;
  }

  abbrev pub positive_beta : F → F
  positive_beta beta = if flt.le beta (flt.lit 0 0) then flt.lit 1 0 else beta
