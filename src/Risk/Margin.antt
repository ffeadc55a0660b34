-- ===== src/Risk/Margin.antt =====
-- internal/risk/margin.go: the use of margin and the distance to liquidation.
use trading_challenge.Prelude.{
  Bool, ◌||◌, Option, none, some, List, [], ◌∷◌, String, if◌then◌else◌, ℤ, pos, Time, unix_milli,
  Decimal, is_zero, is_negative, Float64, Convert,
}

pub record Config {ℓ} (F : Type ℓ) : Type ℓ where
  pub warn_ratio_pct : F
  pub critical_ratio_pct : F
  pub halt_ratio_pct : F
  pub liq_price_buffer_pct : F

pub record Snapshot {ℓ} (D : Type ℓ) : Type ℓ where
  pub total_equity : D
  pub total_margin_used : D
  pub available_margin : D
  pub ts_ms : ℤ

pub record PositionInfo {ℓ} (D : Type ℓ) : Type ℓ where
  pub symbol : String
  pub mark_price : D
  pub liq_price : D
  pub side : String
  pub notional : D

-- `Level` is one of three texts.
pub data Level : Type 0 where
  warn critical halt : Level

pub record Alert {ℓ} (F : Type ℓ) : Type ℓ where
  pub ts_ms : ℤ
  pub level : Level
  pub metric : String
  pub value : F
  pub threshold : F
  pub symbol : String
  pub message : String

pub record Monitor {ℓ κ} (D : Type ℓ) (F : Type κ) : Type (ℓ ⊔ κ) where
  pub cfg : Config F
  pub last_snapshot : Option (Snapshot D)
  pub positions : List (PositionInfo D)
  pub last_check_ms : ℤ

module _ {ℓ} {F : Type ℓ} ⦃flt : Float64 F⦄ where
  unfoldable pub default_config : Config F
  default_config = record {
    warn_ratio_pct = flt.lit 60 0;
    critical_ratio_pct = flt.lit 75 0;
    halt_ratio_pct = flt.lit 85 0;
    liq_price_buffer_pct = flt.lit 5 0;
  }

  -- The alert on a ratio, by the first threshold that it reaches.
  unfoldable pub ratio_alert : Config F → ℤ → F → List (Alert F)
  ratio_alert cfg ts ratio =
      let a : Alert F = record {
        ts_ms = ts;
        level = halt;
        metric = "margin_ratio_pct";
        value = ratio;
        threshold = cfg.halt_ratio_pct;
        symbol = "";
        message = "margin ratio exceeded halt threshold — flatten all positions";
      } in
      if flt.le cfg.halt_ratio_pct ratio
      then a ∷ []
      else if flt.le cfg.critical_ratio_pct ratio
      then record a {
        level = critical;
        threshold = cfg.critical_ratio_pct;
        message = "margin ratio critical — reduce position size immediately";
      }
        ∷ []
      else if flt.le cfg.warn_ratio_pct ratio
      then record a {
        level = warn;
        threshold = cfg.warn_ratio_pct;
        message = "margin ratio elevated";
      }
        ∷ []
      else []

module _ {ℓ κ} {D : Type ℓ} {F : Type κ} ⦃dec : Decimal D⦄ ⦃flt : Float64 F⦄
    ⦃conv : Convert D F⦄ where
  unfoldable pub new_monitor : Config F → Monitor D F
  new_monitor cfg = record {
    cfg = cfg;
    last_snapshot = none;
    positions = [];
    last_check_ms = pos 0;
  }

  unfoldable pub ratio_pct : Snapshot D → F
  ratio_pct snap =
      conv.to_float
        (dec.mul (dec.div snap.total_margin_used snap.total_equity) (dec.of_int (pos 100)))

  unfoldable pub update_margin : Snapshot D → Monitor D F → Monitor D F × List (Alert F)
  update_margin snap m = (
    record m { last_snapshot = some snap; last_check_ms = snap.ts_ms },
    if is_zero snap.total_equity || is_negative snap.total_equity
        then []
        else ratio_alert m.cfg snap.ts_ms (ratio_pct snap),
  )

  -- One round of the loop of `UpdatePositions`: `none` for no alert.
  unfoldable pub position_alert : Config F → ℤ → PositionInfo D → Option (Alert F)
  position_alert cfg now p =
      let mark = conv.to_float p.mark_price in
      let buffer =
        flt.mul (flt.div (flt.abs (flt.sub mark (conv.to_float p.liq_price))) mark)
          (flt.lit 100 0) in
      if is_zero p.mark_price || is_zero p.liq_price
      then none
      else if flt.le mark (flt.lit 0 0)
      then none
      else if flt.lt buffer cfg.liq_price_buffer_pct
      then some (record {
        ts_ms = now;
        level = critical;
        metric = "liq_price_buffer_pct";
        value = buffer;
        threshold = cfg.liq_price_buffer_pct;
        symbol = p.symbol;
        message = "position approaching liquidation price — add margin or reduce";
      })
      else none

  unfoldable pub position_alerts : Config F → ℤ → List (PositionInfo D) → List (Alert F)
  position_alerts cfg now [] = []
  position_alerts cfg now (p ∷ ps) =
      let rest = position_alerts cfg now ps in
      elim (position_alert cfg now p) [ none ↦ rest | some a ↦ a ∷ rest ]

  unfoldable pub update_positions :
      Time → List (PositionInfo D) → Monitor D F → Monitor D F × List (Alert F)
  update_positions t positions m =
      (record m { positions = positions }, position_alerts m.cfg (unix_milli t) positions)

  unfoldable pub current_ratio_pct : Monitor D F → F
  current_ratio_pct m = elim m.last_snapshot [
    | none ↦ flt.lit 0 0
    | some snap ↦ if is_zero snap.total_equity then flt.lit 0 0 else ratio_pct snap
  ]

  unfoldable pub needs_reduce_position : Monitor D F → Bool
  needs_reduce_position m = flt.le m.cfg.critical_ratio_pct (current_ratio_pct m)

  unfoldable pub needs_halt : Monitor D F → Bool
  needs_halt m = flt.le m.cfg.halt_ratio_pct (current_ratio_pct m)
