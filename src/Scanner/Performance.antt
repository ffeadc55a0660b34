-- ===== src/Scanner/Performance.antt =====
-- internal/scanner/tracker.go: the record of a trade and the statistics over the completed trades.
use trading_challenge.Prelude.{
  ◌-◌, Bool, ◌&&◌, Option, none, some, List, [], ◌∷◌, map, length, foldl, some_of, String,
  if◌then◌else◌, ltb, ℤ, pos, lt_ℤ, add64, Dict, lookup, insert, Time, Date, utc_date, same_date,
  Float64,
}
use trading_challenge.Scanner.Types.{SignalAlert}

pub record TradeRecord {ℓ} (F : Type ℓ) : Type ℓ where
  pub alert : SignalAlert F
  pub entry_time : Time
  pub exit_time : Option Time
  pub actual_entry : F
  pub actual_sl : F
  pub actual_tp : F
  pub actual_exit_price : F
  pub actual_pnl_usd : F
  pub actual_pnl_pct : F
  pub slippage : F
  pub fees : F
  pub counted_for_trading_day : Bool

-- The results by factor, or by symbol, which has no average.
pub record Performance {ℓ} (F : Type ℓ) : Type ℓ where
  pub name : String
  pub trades : ℤ
  pub wins : ℤ
  pub win_rate : F
  pub avg_pnl : F
  pub total_pnl : F

pub record PerformanceStats {ℓ} (F : Type ℓ) : Type ℓ where
  pub total_trades : ℤ
  pub win_count : ℤ
  pub loss_count : ℤ
  pub win_rate : F
  pub avg_win_usd : F
  pub avg_loss_usd : F
  pub profit_factor : F
  pub expectancy_usd : F
  pub avg_rr : F
  pub max_consec_losses : ℤ
  pub max_drawdown_usd : F
  pub total_pnl_usd : F
  pub sharpe_estimate : F
  pub factor_stats : Dict (Performance F)
  pub symbol_stats : Dict (Performance F)
  pub trading_days_completed : ℤ
  pub trading_days_needed : ℤ

-- The variables of the loop over the history.
pub record Tally {ℓ} (F : Type ℓ) : Type ℓ where
  pub total_trades : ℤ
  pub win_count : ℤ
  pub loss_count : ℤ
  pub gross_profit : F
  pub gross_loss : F
  pub consec_losses : ℤ
  pub max_consec_losses : ℤ
  pub equity : F
  pub peak_equity : F
  pub max_drawdown : F
  pub factors : Dict (Performance F)
  pub symbols : Dict (Performance F)
  pub days : List Date

module _ {ℓ} {F : Type ℓ} ⦃flt : Float64 F⦄ where
  abbrev pub no_stats : PerformanceStats F
  no_stats = record {
    total_trades = pos 0;
    win_count = pos 0;
    loss_count = pos 0;
    win_rate = flt.lit 0 0;
    avg_win_usd = flt.lit 0 0;
    avg_loss_usd = flt.lit 0 0;
    profit_factor = flt.lit 0 0;
    expectancy_usd = flt.lit 0 0;
    avg_rr = flt.lit 0 0;
    max_consec_losses = pos 0;
    max_drawdown_usd = flt.lit 0 0;
    total_pnl_usd = flt.lit 0 0;
    sharpe_estimate = flt.lit 0 0;
    factor_stats = [];
    symbol_stats = [];
    trading_days_completed = pos 0;
    trading_days_needed = pos 0;
  }

  abbrev pub no_tally : Tally F
  no_tally = record {
    total_trades = pos 0;
    win_count = pos 0;
    loss_count = pos 0;
    gross_profit = flt.lit 0 0;
    gross_loss = flt.lit 0 0;
    consec_losses = pos 0;
    max_consec_losses = pos 0;
    equity = flt.lit 0 0;
    peak_equity = flt.lit 0 0;
    max_drawdown = flt.lit 0 0;
    factors = [];
    symbols = [];
    days = [];
  }

  abbrev no_performance : String → Performance F
  no_performance name = record {
    name = name;
    trades = pos 0;
    wins = pos 0;
    win_rate = flt.lit 0 0;
    avg_pnl = flt.lit 0 0;
    total_pnl = flt.lit 0 0;
  }

  -- A result is added to those of a name, which gets an entry with its first.
  unfoldable pub add_result : F → Dict (Performance F) → String → Dict (Performance F)
  unfolding lookup insert
  add_result pnl table name =
      let p : Performance F = elim (lookup name table) [
        | none ↦ no_performance name
        | some found ↦ found
      ] in
      insert name
        (record p {
          trades = add64 p.trades (pos 1);
          total_pnl = flt.add p.total_pnl pnl;
          wins = if flt.lt (flt.lit 0 0) pnl then add64 p.wins (pos 1) else p.wins;
        })
        table

  -- A set of days: one that is in it already is not added again.
  unfoldable pub add_day : TradeRecord F → List Date → List Date
  unfolding utc_date same_date some_of
  add_day rec days = elim rec.exit_time [
    | none ↦ days
    | some t ↦
        if rec.counted_for_trading_day
        then (if some_of (same_date (utc_date t)) days then days else utc_date t ∷ days)
        else days
  ]

  unfoldable pub count_trade : Tally F → TradeRecord F → Tally F
  unfolding add_result add_day
  count_trade s rec =
      let pnl = rec.actual_pnl_usd in
      let won = flt.lt (flt.lit 0 0) pnl in
      let equity = flt.add s.equity pnl in
      let peak = if flt.lt s.peak_equity equity then equity else s.peak_equity in
      let drawdown = flt.sub peak equity in
      let streak = add64 s.consec_losses (pos 1) in
      record {
        total_trades = add64 s.total_trades (pos 1);
        win_count = if won then add64 s.win_count (pos 1) else s.win_count;
        loss_count = if won then s.loss_count else add64 s.loss_count (pos 1);
        gross_profit = if won then flt.add s.gross_profit pnl else s.gross_profit;
        gross_loss = if won then s.gross_loss else flt.add s.gross_loss (flt.abs pnl);
        consec_losses = if won then pos 0 else streak;
        max_consec_losses =
            if won
            then s.max_consec_losses
            else if lt_ℤ s.max_consec_losses streak
            then streak
            else s.max_consec_losses;
        equity = equity;
        peak_equity = peak;
        max_drawdown = if flt.lt s.max_drawdown drawdown then drawdown else s.max_drawdown;
        factors = foldl (add_result pnl) s.factors (map (λ sig. sig.factor) rec.alert.signals);
        symbols = add_result pnl s.symbols rec.alert.symbol;
        days = add_day rec s.days;
      }

  abbrev share : ℤ → ℤ → F
  share part whole = flt.mul (flt.div (flt.of_int part) (flt.of_int whole)) (flt.lit 100 0)

  -- The averages of a table.
  unfoldable pub finish_factors : Dict (Performance F) → Dict (Performance F)
  finish_factors table =
      map
        (λ (e : String × Performance F). (
          e.0,
          if lt_ℤ (pos 0) e.1.trades
              then record e.1 {
                win_rate = share e.1.wins e.1.trades;
                avg_pnl = flt.div e.1.total_pnl (flt.of_int e.1.trades);
              }
              else e.1,
        ))
        table

  unfoldable pub finish_symbols : Dict (Performance F) → Dict (Performance F)
  finish_symbols table =
      map
        (λ (e : String × Performance F). (
          e.0,
          if lt_ℤ (pos 0) e.1.trades
              then record e.1 { win_rate = share e.1.wins e.1.trades }
              else e.1,
        ))
        table

  -- The mean R-multiple and the estimate of the Sharpe ratio.
  unfoldable pub average_r : (average_loss : F) → List F → F
  average_r average_loss pnls =
      flt.div (foldl (λ total pnl. flt.add total (flt.div pnl average_loss)) (flt.lit 0 0) pnls)
        (flt.of_int (pos (length pnls)))

  unfoldable pub sharpe_of : (equity : F) → List F → F
  sharpe_of equity pnls =
      let n = length pnls in
      let mean = flt.div equity (flt.of_int (pos n)) in
      let squares =
        foldl (λ total pnl. flt.add total (flt.mul (flt.sub pnl mean) (flt.sub pnl mean)))
          (flt.lit 0 0) pnls in
      let stddev = flt.sqrt (flt.div squares (flt.of_int (pos (n - 1)))) in
      if ltb 1 n && flt.lt (flt.lit 0 0) stddev
      then flt.mul (flt.div mean stddev) (flt.sqrt (flt.lit 252 0))
      else flt.lit 0 0

  unfoldable pub recompute_stats : List (TradeRecord F) → PerformanceStats F
  unfolding count_trade finish_factors finish_symbols average_r sharpe_of
  recompute_stats [] = no_stats
  recompute_stats (first ∷ rest) =
      let s = foldl count_trade no_tally (first ∷ rest) in
      let pnls = map (λ rec. rec.actual_pnl_usd) (first ∷ rest) in
      let some_trades = lt_ℤ (pos 0) s.total_trades in
      let average_loss =
        if lt_ℤ (pos 0) s.loss_count
        then flt.div s.gross_loss (flt.of_int s.loss_count)
        else flt.lit 0 0 in
      record {
        total_trades = s.total_trades;
        win_count = s.win_count;
        loss_count = s.loss_count;
        win_rate = if some_trades then share s.win_count s.total_trades else flt.lit 0 0;
        avg_win_usd =
            if lt_ℤ (pos 0) s.win_count
            then flt.div s.gross_profit (flt.of_int s.win_count)
            else flt.lit 0 0;
        avg_loss_usd = average_loss;
        profit_factor =
            if flt.lt (flt.lit 0 0) s.gross_loss
            then flt.div s.gross_profit s.gross_loss
            else flt.lit 0 0;
        expectancy_usd =
            if some_trades then flt.div s.equity (flt.of_int s.total_trades) else flt.lit 0 0;
        avg_rr =
            if flt.lt (flt.lit 0 0) average_loss then average_r average_loss pnls else flt.lit 0 0;
        max_consec_losses = s.max_consec_losses;
        max_drawdown_usd = s.max_drawdown;
        total_pnl_usd = s.equity;
        sharpe_estimate = sharpe_of s.equity pnls;
        factor_stats = finish_factors s.factors;
        symbol_stats = finish_symbols s.symbols;
        trading_days_completed = pos (length s.days);
        trading_days_needed = pos 10;
      }
