-- ===== src/Strategy/Evaluate.antt =====
-- internal/strategy/selector.go: `Evaluate` and the confirmations. The order of the map of positions is that
-- of the list.
use trading_challenge.Prelude.{
  Bool, true, false, none, some, List, [], ◌∷◌, ◌++◌, map, length, String, if◌then◌else◌, ℤ, pos,
  lt_ℤ, le_ℤ, add64, mul64, Dict, lookup, insert, erase, Float64,
}
use trading_challenge.Arb.{TradeIntent}
use trading_challenge.Arb.Pair.{pair_id}
use trading_challenge.Strategy.Types.{
  StrategyType, hold, PairCondition, Reason, exit, low_correlation, Decision, Evaluation,
  PositionState,
}
use trading_challenge.Strategy.Selector.{
  SelectorConfig, OpenPosition, Selector, is_hold, find_pair_condition, total_allocated_pct,
  select_strategy, should_exit,
}
use trading_challenge.Strategy.Intents.{build_entry_intent, build_exit_intent}

module _ {ℓ} {F : Type ℓ} ⦃flt : Float64 F⦄ where
  -- A decision that only says why.
  abbrev plain_decision : (primary hedge : String) → StrategyType → Reason F → Decision F
  plain_decision primary hedge strategy reason = record {
    primary_symbol = primary;
    hedge_symbol = hedge;
    strategy = strategy;
    confidence = flt.lit 1 0;
    reason = reason;
    allocation_pct = flt.lit 0 0;
    expected_edge_bps = flt.lit 0 0;
    expected_holding_time = "";
  }

  -- The first phase: the positions, whose counts of cycles change, the sequence number, the exits and the
  -- decisions.
  unfoldable pub exit_phase :
      SelectorConfig F
      → List (PairCondition F)
      → (now seq : ℤ) → Dict (OpenPosition F)
      → Dict (OpenPosition F) × ℤ × List (TradeIntent F) × List (Decision F)
  unfolding find_pair_condition should_exit build_exit_intent
  exit_phase cfg pairs now seq [] = ([], seq, [], [])
  exit_phase cfg pairs now seq ((pid, p) ∷ positions) =
      elim (find_pair_condition pairs p.primary_symbol p.hedge_symbol) [
        | none ↦
            let (kept, seq', exits, decisions) = exit_phase cfg pairs now seq positions in
            ((pid, p) ∷ kept, seq', exits, decisions)
        | some cond ↦
            let (p', verdict) = should_exit cfg p cond now in
            elim verdict [
              | none ↦
                  let (kept, seq', exits, decisions) = exit_phase cfg pairs now seq positions in
                  ((pid, p') ∷ kept, seq', exits, decisions)
              | some reason ↦
                  let n = add64 seq (pos 1) in
                  let (kept, seq', exits, decisions) = exit_phase cfg pairs now n positions in
                  (
                    (pid, p') ∷ kept,
                    seq',
                    build_exit_intent cfg p' now n ∷ exits,
                    plain_decision p'.primary_symbol p'.hedge_symbol p'.strategy (exit reason)
                        ∷ decisions,
                  )
            ]
      ]

  -- The pair has a position, or is on its cooldown.
  unfoldable pub is_busy : Selector F → PairCondition F → (now : ℤ) → Bool
  unfolding pair_id lookup
  is_busy s cond now =
      let pid = pair_id cond.primary_symbol cond.hedge_symbol in
      elim (lookup pid s.positions) [
        | some _ ↦ true
        | none ↦ elim (lookup pid s.cooldowns) [ none ↦ false | some until ↦ lt_ℤ now until ]
      ]

  -- The loop ends (`break`).
  unfoldable pub is_full : Selector F → (allocated : F) → Bool
  is_full s allocated =
      if le_ℤ s.cfg.max_concurrent_positions (pos (length s.positions))
      then true
      else flt.le s.cfg.total_max_allocation_pct allocated

  unfoldable pub allocation : Selector F → Decision F → (allocated : F) → F
  allocation s decision allocated =
      flt.min decision.allocation_pct (flt.sub s.cfg.total_max_allocation_pct allocated)

  -- The second phase.
  unfoldable pub entry_phase :
      Selector F
      → (equity : F) → (now : ℤ) → (allocated : F) → (seq : ℤ) → List (PairCondition F)
      → ℤ × List (TradeIntent F) × List (Decision F)
  unfolding is_busy is_full allocation select_strategy is_hold build_entry_intent
  entry_phase s equity now allocated seq [] = (seq, [], [])
  entry_phase s equity now allocated seq (cond ∷ pairs) = elim (is_busy s cond now) [
    | true ↦ entry_phase s equity now allocated seq pairs
    | false ↦ elim (is_full s allocated) [
      | true ↦ (seq, [], [])
      | false ↦ elim (flt.lt cond.correlation s.cfg.min_correlation) [
        | true ↦
            let (seq', entries, decisions) = entry_phase s equity now allocated seq pairs in
            (
              seq',
              entries,
              plain_decision cond.primary_symbol cond.hedge_symbol hold
                    (low_correlation cond.correlation s.cfg.min_correlation)
                  ∷ decisions,
            )
        | false ↦
            let decision = select_strategy s.cfg cond in
            let share = allocation s decision allocated in
            let notional = flt.mul equity (flt.div share (flt.lit 100 0)) in
            elim (if is_hold decision.strategy then true else flt.lt notional (flt.lit 20 0)) [
              | true ↦
                  let (seq', entries, decisions) = entry_phase s equity now allocated seq pairs in
                  (seq', entries, decision ∷ decisions)
              | false ↦
                  let n = add64 seq (pos 1) in
                  let (seq', entries, decisions) =
                    entry_phase s equity now (flt.add allocated share) n pairs in
                  (
                    seq',
                    build_entry_intent s.cfg cond decision notional now n ∷ entries,
                    decision ∷ decisions,
                  )
            ]
      ]
    ]
  ]

  unfoldable pub evaluate :
      (now : ℤ)
      → List (PairCondition F)
      → (account_equity regime_scale : F) → Selector F
      → Selector F × Evaluation F
  unfolding exit_phase total_allocated_pct entry_phase
  evaluate now pairs account_equity regime_scale s =
      let equity = flt.mul account_equity regime_scale in
      let (positions, seq, exits, left) = exit_phase s.cfg pairs now s.seq_id s.positions in
      let s₁ = record s { positions = positions; seq_id = seq } in
      let (seq', entries, entered) =
        entry_phase s₁ equity now (total_allocated_pct equity positions) seq pairs in
      (
        record s₁ { seq_id = seq' },
        record { entries = entries; exits = exits; decisions = left ++ entered },
      )

  unfoldable pub cool_down : (now : ℤ) → String → Selector F → Selector F
  unfolding insert
  cool_down now pid s = record s {
    cooldowns = insert pid (add64 now (mul64 s.cfg.cooldown_s (pos 1000))) s.cooldowns;
  }

  abbrev pub entered_position :
      (now : ℤ) (primary hedge : String)
      → StrategyType
      → (notional_usd : F) → PairCondition F
      → OpenPosition F
  entered_position now primary hedge strategy notional_usd cond = record {
    pair_id = pair_id primary hedge;
    primary_symbol = primary;
    hedge_symbol = hedge;
    strategy = strategy;
    notional_usd = notional_usd;
    hedge_beta = cond.beta;
    entry_spread = cond.spread_z_score;
    entry_fund_diff = cond.funding_diff_bps;
    entry_time_ms = now;
    negative_cycles = pos 0;
  }

  unfoldable pub confirm_entry :
      (now : ℤ) (primary hedge : String)
      → StrategyType
      → (notional_usd : F) → PairCondition F
      → Selector F
      → Selector F
  unfolding pair_id insert cool_down
  confirm_entry now primary hedge strategy notional_usd cond s =
      let pid = pair_id primary hedge in
      let p = entered_position now primary hedge strategy notional_usd cond in
      cool_down now pid (record s { positions = insert pid p s.positions })

  unfoldable pub confirm_exit : (now : ℤ) (primary hedge : String) → Selector F → Selector F
  unfolding pair_id erase cool_down
  confirm_exit now primary hedge s =
      let pid = pair_id primary hedge in
      cool_down now pid (record s { positions = erase pid s.positions })

  unfoldable open_positions : Selector F → Dict (PositionState F)
  open_positions s =
      map
        (λ (entry : String × OpenPosition F). (
          entry.0,
          record {
            primary_symbol = entry.1.primary_symbol;
            hedge_symbol = entry.1.hedge_symbol;
            strategy = entry.1.strategy;
            notional_usd = entry.1.notional_usd;
            hedge_beta = entry.1.hedge_beta;
            entry_spread = entry.1.entry_spread;
            entry_rate = entry.1.entry_fund_diff;
            entry_time_ms = entry.1.entry_time_ms;
          },
        ))
        s.positions

  unfoldable position_count : Selector F → ℤ
  position_count s = pos (length s.positions)
