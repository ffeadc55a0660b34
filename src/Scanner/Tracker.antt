-- ===== src/Scanner/Tracker.antt =====
-- internal/scanner/tracker.go: the open trades and their outcomes. The file of the history is read once, as
-- an argument; writing it is left out.
use trading_challenge.Prelude.{
  Bool, true, false, Option, none, some, List, [], ◌∷◌, ◌++◌, length, String, str_eq, if◌then◌else◌,
  ℤ, pos, le_ℤ, Dict, lookup, insert, erase, Time, Float64,
}
use trading_challenge.Funding.Regime.{keep_window}
use trading_challenge.Scanner.Types.{is_long, TradeOutcome, tp_hit, sl_hit, manual, SignalAlert}
use trading_challenge.Scanner.Performance.{TradeRecord, PerformanceStats, no_stats, recompute_stats}

pub record OutcomeTracker {ℓ} (F : Type ℓ) : Type ℓ where
  pub open_trades : Dict (TradeRecord F)
  pub history : List (TradeRecord F)
  pub stats : PerformanceStats F
  pub max_history : ℤ

module _ {ℓ} {F : Type ℓ} ⦃flt : Float64 F⦄ where
  -- `stored` is what the history file holds, if there is one that can be read.
  unfoldable pub new_outcome_tracker :
      (stored : Option (List (TradeRecord F))) → ℤ → OutcomeTracker F
  unfolding recompute_stats
  new_outcome_tracker stored max_history =
      let t : OutcomeTracker F = record {
        open_trades = [];
        history = [];
        stats = no_stats;
        max_history = if le_ℤ max_history (pos 0) then pos 500 else max_history;
      } in
      elim stored [ none ↦ t | some l ↦ record t { history = l; stats = recompute_stats l } ]

  unfoldable pub register_trade :
      (now : Time) → SignalAlert F → (entry sl tp : F) → OutcomeTracker F → OutcomeTracker F
  unfolding insert
  register_trade now alert entry sl tp t =
      let rec : TradeRecord F = record {
        alert = alert;
        entry_time = now;
        exit_time = none;
        actual_entry = entry;
        actual_sl = sl;
        actual_tp = tp;
        actual_exit_price = flt.lit 0 0;
        actual_pnl_usd = flt.lit 0 0;
        actual_pnl_pct = flt.lit 0 0;
        slippage = flt.lit 0 0;
        fees = flt.lit 0 0;
        counted_for_trading_day = false;
      } in
      record t { open_trades = insert alert.id rec t.open_trades }

  -- The profit of a trade before its fees.
  unfoldable pub raw_pnl : TradeRecord F → (exit_price : F) → F
  unfolding is_long
  raw_pnl rec exit_price =
      let gained =
        if is_long rec.alert.direction
        then flt.sub exit_price rec.actual_entry
        else flt.sub rec.actual_entry exit_price in
      flt.mul (flt.div gained rec.actual_entry) rec.alert.risk.position_size_usd

  unfoldable pub with_pnl : TradeRecord F → (exit_price fees : F) → TradeRecord F
  unfolding raw_pnl
  with_pnl rec exit_price fees =
      let pnl = flt.sub (raw_pnl rec exit_price) fees in
      if flt.lt (flt.lit 0 0) rec.actual_entry
      then record rec {
        actual_pnl_usd = pnl;
        actual_pnl_pct = flt.mul (flt.div pnl rec.alert.risk.position_size_usd) (flt.lit 100 0);
        slippage =
            flt.mul
              (flt.div (flt.abs (flt.sub rec.actual_entry rec.alert.risk.entry))
                rec.alert.risk.entry)
              (flt.lit 10_000 0);
      }
      else rec

  -- The record of a trade that is over.
  unfoldable pub close_record :
      (now : Time) → TradeOutcome → (exit_price fees : F) → TradeRecord F → TradeRecord F
  unfolding with_pnl
  close_record now outcome exit_price fees rec =
      let r =
        with_pnl (record rec { exit_time = some now; actual_exit_price = exit_price; fees = fees })
          exit_price fees in
      record r {
        alert = record r.alert {
          outcome = outcome;
          outcome_at = some now;
          outcome_pnl = r.actual_pnl_usd;
          outcome_detail = some (record {
            outcome = outcome;
            exit_price = exit_price;
            pnl_usd = r.actual_pnl_usd;
            pnl_pct = r.actual_pnl_pct;
          });
        };
        counted_for_trading_day = flt.le (flt.lit 1 0) (flt.abs r.actual_pnl_pct);
      }

  -- The tracker, and whether the trade was found; `none` is the panic of a slice out of range.
  unfoldable pub record_outcome :
      (now : Time)
      → String
      → TradeOutcome
      → (exit_price fees : F) → OutcomeTracker F
      → Option (OutcomeTracker F × Bool)
  unfolding lookup keep_window erase close_record recompute_stats
  record_outcome now id outcome exit_price fees t = elim (lookup id t.open_trades) [
    | none ↦ some (t, false)
    | some rec ↦
        elim (keep_window t.max_history
          (t.history ++ (close_record now outcome exit_price fees rec ∷ []))) [
            | none ↦ none
            | some kept ↦ some (
              record t {
                history = kept;
                open_trades = erase id t.open_trades;
                stats = recompute_stats kept;
              },
              true,
            )
          ]
  ]

  -- The price has reached the stop-loss, or the target.
  unfoldable pub is_triggered : TradeRecord F → (price : F) → Bool
  unfolding is_long
  is_triggered rec price =
      if is_long rec.alert.direction
      then (if flt.le price rec.actual_sl
          then true
          else if flt.le rec.actual_tp price
          then true
          else false)
      else if flt.le rec.actual_sl price
      then true
      else if flt.le price rec.actual_tp
      then true
      else false

  unfoldable pub check_price_for_outcome :
      (symbol : String) (price : F) → Dict (TradeRecord F) → List String
  unfolding is_triggered
  check_price_for_outcome symbol price [] = []
  check_price_for_outcome symbol price ((id, rec) ∷ open_trades) =
      let rest = check_price_for_outcome symbol price open_trades in
      if str_eq rec.alert.symbol symbol
      then (if is_triggered rec price then id ∷ rest else rest)
      else rest

  unfoldable pub outcome_of : TradeRecord F → (exit_price : F) → TradeOutcome
  unfolding is_long
  outcome_of rec exit_price =
      if is_long rec.alert.direction
      then (if flt.le exit_price rec.actual_sl
          then sl_hit
          else if flt.le rec.actual_tp exit_price
          then tp_hit
          else manual)
      else if flt.le rec.actual_sl exit_price
      then sl_hit
      else if flt.le exit_price rec.actual_tp
      then tp_hit
      else manual

  unfoldable pub determine_outcome : String → (exit_price : F) → OutcomeTracker F → TradeOutcome
  unfolding lookup outcome_of
  determine_outcome id exit_price t = elim (lookup id t.open_trades) [
    | none ↦ manual
    | some rec ↦ outcome_of rec exit_price
  ]

  unfoldable pub open_trade_count : OutcomeTracker F → ℤ
  open_trade_count t = pos (length t.open_trades)
