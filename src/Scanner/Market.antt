-- ===== src/Scanner/Market.antt =====
-- internal/scanner/types.go: the data that a detector looks at; and the helpers that the detectors share.
use trading_challenge.Prelude.{
  Bool, none, some, List, [], ◌∷◌, map, String, if◌then◌else◌, ℤ, Dict, last, Float64,
}
use trading_challenge.Scanner.Types.{Candle}

abbrev pub tf_15m : String
tf_15m = "15"

abbrev pub tf_4h : String
tf_4h = "240"

pub record OpenInterestSnapshot {ℓ} (F : Type ℓ) : Type ℓ where
  pub symbol : String
  pub open_interest : F
  pub ts_ms : ℤ

pub record FundingSnapshot {ℓ} (F : Type ℓ) : Type ℓ where
  pub symbol : String
  pub funding_rate : F
  pub ts_ms : ℤ

pub record MarketState {ℓ} (F : Type ℓ) : Type ℓ where
  pub symbol : String
  pub price : F
  pub best_bid : F
  pub best_ask : F
  pub mark_price : F
  pub volume_24h : F
  pub ts_ms : ℤ
  pub candles : Dict (List (Candle F))
  pub funding_history : List (FundingSnapshot F)
  pub oi_history : List (OpenInterestSnapshot F)
  pub funding_rate : F

module _ {ℓ} {F : Type ℓ} ⦃flt : Float64 F⦄ where
  unfoldable mid_price : Candle F → F
  mid_price c = flt.div (flt.add c.high c.low) (flt.lit 2 0)

  unfoldable range : Candle F → F
  range c = flt.sub c.high c.low

  unfoldable pub is_bullish : Candle F → Bool
  is_bullish c = flt.lt c.open_price c.close

  unfoldable pub clamp : (v least most : F) → F
  clamp v least most = if flt.lt v least then least else if flt.lt most v then most else v

  -- A strength that grows by an amount if a condition holds.
  abbrev pub raised : F → Bool → (amount : F) → F
  raised strength condition amount = if condition then flt.add strength amount else strength

  abbrev pub closes_of : List (Candle F) → List F
  closes_of candles = map (λ c. c.close) candles

  -- The last item, or a default where there is none.
  abbrev pub last_or : F → List F → F
  last_or default values = elim (last values) [ none ↦ default | some v ↦ v ]

  -- The highest high and the lowest low, from those of a first candle.
  unfoldable pub bounds_of : (high low : F) → List (Candle F) → F × F
  bounds_of high low [] = (high, low)
  bounds_of high low (c ∷ candles) =
      bounds_of (if flt.lt high c.high then c.high else high)
        (if flt.lt c.low low then c.low else low) candles
