-- ===== src/Exchange.antt =====
-- internal/exchange/types.go and exchange.go: orders, their answers, the constraints of a venue, and the
-- interface to the exchange. The clients behind it speak HTTP with a service outside the repository, so it
-- is a parameter: W is the state of the world, with the clock, and each call leads to another.
use trading_challenge.Prelude.{ℤ, String, Bool, Option, if◌then◌else◌, Time, Float64}

-- `Side` is a text: the executor converts the action of a leg to it.
abbrev pub side_buy : String
side_buy = "Buy"

abbrev pub side_sell : String
side_sell = "Sell"

pub data OrderType : Type 0 where
  market limit ioc : OrderType

pub data OrderStatus : Type 0 where
  fresh partially_filled filled cancelled rejected expired : OrderStatus
  unknown : String → OrderStatus

pub data Category : Type 0 where
  linear spot unset : Category

pub record OrderRequest {ℓ κ} (D : Type ℓ) (F : Type κ) : Type (ℓ ⊔ κ) where
  pub category : Category
  pub symbol : String
  pub side : String
  pub type : OrderType
  pub quantity : D
  pub price : D
  pub notional_usd : D
  pub max_slippage_bps : F
  pub client_order_id : String
  pub reduce_only : Bool
  pub stop_loss : D
  pub take_profit : D

pub record OrderResponse {ℓ} (D : Type ℓ) : Type ℓ where
  pub order_id : String
  pub client_order_id : String
  pub symbol : String
  pub side : String
  pub type : OrderType
  pub status : OrderStatus
  pub price : D
  pub avg_fill_price : D
  pub quantity : D
  pub filled_qty : D
  pub fees_usd : D
  pub created_at : Time
  pub updated_at : Time

pub record Position {ℓ} (D : Type ℓ) : Type ℓ where
  pub symbol : String
  pub side : String
  pub quantity : D
  pub entry_price : D
  pub mark_price : D
  pub unrealized_pnl : D
  pub leverage : D
  pub notional_usd : D
  pub liq_price : D

pub record AccountEquity {ℓ} (D : Type ℓ) : Type ℓ where
  pub total_equity : D
  pub available_balance : D
  pub unrealized_pnl : D
  pub total_margin : D

pub record VenueConstraints {ℓ} (F : Type ℓ) : Type ℓ where
  pub symbol : String
  pub tick_size : F
  pub lot_size : F
  pub min_qty : F
  pub min_notional : F

module _ {ℓ} {F : Type ℓ} ⦃flt : Float64 F⦄ where
  unfoldable pub round_price : VenueConstraints F → F → F
  round_price vc price =
      if flt.le vc.tick_size (flt.lit 0 0)
      then price
      else flt.mul (flt.round (flt.div price vc.tick_size)) vc.tick_size

  unfoldable pub round_qty : VenueConstraints F → F → F
  round_qty vc qty =
      if flt.le vc.lot_size (flt.lit 0 0)
      then qty
      else flt.mul (flt.floor (flt.div qty vc.lot_size)) vc.lot_size

-- What the executor uses of `Exchange`, with the clock: `now` is `time.Now().UnixMilli()` and `sleep` waits
-- for nanoseconds. `none` is an error (of `GetConstraints`, a nil pointer).
pub record Exchange {ω ℓ κ} (W : Type ω) (D : Type ℓ) (F : Type κ) : Type (ω ⊔ ℓ ⊔ κ) where
  pub now : W → W × ℤ
  pub sleep : ℤ → W → W
  pub place_order : OrderRequest D F → W → W × Option (OrderResponse D)
  pub cancel_order : Category → String → String → W → W
  pub get_order : Category → String → String → W → W × Option (OrderResponse D)
  pub get_ticker_price : Category → String → W → W × Option D
  pub get_constraints : Category → String → W → W × Option (VenueConstraints F)
