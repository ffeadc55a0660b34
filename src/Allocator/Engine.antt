-- ===== src/Allocator/Engine.antt =====
-- internal/allocator/config.go and engine.go: the capital allocator. Amounts are float64. A method returns
-- the new engine; the mutex makes each method atomic.
use Prim.Native.String.{String}
use trading_challenge.Prelude.{
  ◌==◌, Bool, true, ◌&&◌, ◌||◌, Option, none, some, List, foldl, length, contains_upper,
  if◌then◌else◌, ℤ, pos, Float64,
}
use trading_challenge.Arb.{TradeLeg, TradeIntent}

pub record Config {ℓ} (F : Type ℓ) : Type ℓ where
  pub initial_capital_usd : F
  pub funding_max_pct : F
  pub basis_max_pct : F
  pub cash_reserve_pct : F
  pub drawdown_scaling : Bool
  pub rebalance_interval_min : ℤ
  pub kelly_fraction : F

pub data ConfigError : Type 0 where
  initial_capital total_allocation kelly_range : ConfigError

pub record Engine {ℓ} (F : Type ℓ) : Type ℓ where
  pub cfg : Config F
  pub current_equity : F
  pub funding_notional : F
  pub basis_notional : F
  pub peak_equity : F
  pub drawdown_pct : F

-- The reasons of a refusal, with the amounts that their messages print.
pub data Rejection {ℓ} (F : Type ℓ) : Type ℓ where
  funding_exceeded : (current intent most : F) → Rejection F
  basis_exceeded : (current intent most : F) → Rejection F
  unknown_strategy : String → Rejection F
  combined_exceeded : (deployed most : F) → Rejection F
  insufficient_capital : (requested available : F) → Rejection F

-- The two pools of notional.
pub data Pool : Type 0 where
  funding basis : Pool

-- The pool of a strategy, by its name.
unfoldable pub pool_of : String → Option Pool
pool_of strategy =
    if contains_upper strategy "FUNDING"
    then some funding
    else if contains_upper strategy "BASIS"
    then some basis
    else none

-- Exits and safety trades are approved at once.
unfoldable pub is_exempt : String → Bool
is_exempt strategy = contains_upper strategy "EXIT" || contains_upper strategy "SAFETY"

abbrev pub notional {ℓ} : {F : Type ℓ} → Pool → Engine F → F
notional funding e = e.funding_notional
notional basis e = e.basis_notional

abbrev pub set_notional {ℓ} : {F : Type ℓ} → Pool → F → Engine F → Engine F
set_notional funding x e = record e { funding_notional = x }
set_notional basis x e = record e { basis_notional = x }

abbrev pub max_pct {ℓ} : {F : Type ℓ} → Pool → Config F → F
max_pct funding cfg = cfg.funding_max_pct
max_pct basis cfg = cfg.basis_max_pct

exceeded {ℓ} : {F : Type ℓ} → Pool → (current intent most : F) → Rejection F
exceeded funding = funding_exceeded
exceeded basis = basis_exceeded

module _ {ℓ} {F : Type ℓ} ⦃flt : Float64 F⦄ where
  unfoldable pub default_config : Config F
  default_config = record {
    initial_capital_usd = flt.lit 100_000 0;
    funding_max_pct = flt.lit 60 0;
    basis_max_pct = flt.lit 25 0;
    cash_reserve_pct = flt.lit 12 0;
    drawdown_scaling = true;
    rebalance_interval_min = pos 30;
    kelly_fraction = flt.lit 15 2;
  }

  -- `none` is the `nil` error.
  unfoldable pub validate : Config F → Option ConfigError
  validate c =
      let total_max = flt.add (flt.add c.funding_max_pct c.basis_max_pct) c.cash_reserve_pct in
      if flt.le c.initial_capital_usd (flt.lit 0 0)
      then some initial_capital
      else if flt.lt (flt.lit 100 0) total_max
      then some total_allocation
      else if flt.lt c.kelly_fraction (flt.lit 0 0) || flt.lt (flt.lit 1 0) c.kelly_fraction
      then some kelly_range
      else none

  unfoldable pub new_engine : Config F → Engine F
  new_engine cfg = record {
    cfg = cfg;
    current_equity = cfg.initial_capital_usd;
    funding_notional = flt.lit 0 0;
    basis_notional = flt.lit 0 0;
    peak_equity = cfg.initial_capital_usd;
    drawdown_pct = flt.lit 0 0;
  }

  -- The allocation unit of an intent: of two legs, half of the total.
  unfoldable pub per_leg_notional : List (TradeLeg F) → F
  per_leg_notional legs =
      let total = foldl (λ sum leg. flt.add sum leg.notional_usd) (flt.lit 0 0) legs in
      if length legs == 2 then flt.div total (flt.lit 2 0) else total

  unfoldable pub max_capital : Engine F → F
  max_capital e =
      if flt.le e.current_equity (flt.lit 0 0) then e.cfg.initial_capital_usd else e.current_equity

  unfoldable pub scale_factor : Engine F → F
  scale_factor e =
      if e.cfg.drawdown_scaling && flt.lt (flt.lit 0 0) e.drawdown_pct
      then flt.max (flt.lit 25 2) (flt.sub (flt.lit 1 0) (flt.div e.drawdown_pct (flt.lit 10 0)))
      else flt.lit 1 0

  -- The cap of a pool, the combined cap and the capital that is left.
  unfoldable pub max_alloc : Pool → Engine F → F
  max_alloc p e =
      flt.mul (flt.div (flt.mul (max_capital e) (max_pct p e.cfg)) (flt.lit 100 0)) (scale_factor e)

  unfoldable pub combined_max : Engine F → F
  combined_max e =
      flt.mul
        (flt.div (flt.mul (max_capital e) (flt.sub (flt.lit 100 0) e.cfg.cash_reserve_pct))
          (flt.lit 100 0))
        (scale_factor e)

  unfoldable pub available_for : F → Engine F → F
  available_for capital e =
      flt.sub (flt.sub (flt.sub capital e.funding_notional) e.basis_notional)
        (flt.div (flt.mul capital e.cfg.cash_reserve_pct) (flt.lit 100 0))

  -- The three limits on an amount for a pool, in the order of the checks.
  unfoldable pub check_limits : Pool → F → Engine F → Option (Rejection F)
  unfolding exceeded
  check_limits p amount e =
      let deployed = flt.add (flt.add e.funding_notional e.basis_notional) amount in
      let available = available_for (max_capital e) e in
      if flt.lt (max_alloc p e) (flt.add (notional p e) amount)
      then some (exceeded p (notional p e) amount (max_alloc p e))
      else if flt.lt (combined_max e) deployed
      then some (combined_exceeded deployed (combined_max e))
      else if flt.lt available amount
      then some (insufficient_capital amount available)
      else none

  -- `none` is approved.
  unfoldable pub approve : TradeIntent F → Engine F → Engine F × Option (Rejection F)
  approve intent e =
      let amount = per_leg_notional intent.legs in
      if is_exempt intent.strategy then (e, none) else elim (pool_of intent.strategy) [
        | none ↦ (e, some (unknown_strategy intent.strategy))
        | some p ↦ elim (check_limits p amount e) [
          | some r ↦ (e, some r)
          | none ↦ (set_notional p (flt.add (notional p e) amount) e, none)
        ]
      ]

  unfoldable pub release_notional : String → F → Engine F → Engine F
  release_notional strategy amount e = elim (pool_of strategy) [
    | none ↦ e
    | some p ↦
        let left = flt.sub (notional p e) amount in
        set_notional p (if flt.lt left (flt.lit 0 0) then flt.lit 0 0 else left) e
  ]

  unfoldable pub update_equity : (equity drawdown_pct : F) → Engine F → Engine F
  update_equity equity drawdown_pct e = record e {
    current_equity = equity;
    drawdown_pct = drawdown_pct;
    peak_equity = if flt.lt e.peak_equity equity then equity else e.peak_equity;
  }

  unfoldable pub available_capital : Engine F → F
  available_capital e =
      let available = available_for e.current_equity e in
      if flt.lt available (flt.lit 0 0) then flt.lit 0 0 else available
