-- ===== src/Funding/Exits.antt =====
-- internal/funding/engine.go: `EvaluateExits`, the confirmations and the totals.
use trading_challenge.Prelude.{
  Bool, true, false, none, some, List, [], ◌∷◌, String, if◌then◌else◌, ℤ, pos, le_ℤ, add64, mul64,
  Dict, insert, erase, Float64,
}
use trading_challenge.Arb.{TradeIntent}
use trading_challenge.Arb.Pair.{pair_id, pair_intent, edges, positive_beta}
use trading_challenge.Funding.Config.{Config}
use trading_challenge.Funding.Engine.{Quote, OpenPosition, Engine, diff_bps}

module _ {ℓ} {F : Type ℓ} ⦃flt : Float64 F⦄ where
  -- The position after a cycle at this differential, and whether it is left.
  unfoldable pub observe : Config F → F → OpenPosition F → OpenPosition F × Bool
  observe cfg diff p =
      let seen = record p { last_diff_bps = diff } in
      let n = add64 p.negative_cycles (pos 1) in
      if flt.lt diff (flt.lit 0 0)
      then (seen, true)
      else if flt.lt diff cfg.exit_threshold_diff_bps
      then (record seen { negative_cycles = n }, le_ℤ cfg.negative_exit_cycles n)
      else (record seen { negative_cycles = pos 0 }, false)

  unfoldable pub exit_intent : Config F → String → OpenPosition F → (now seq : ℤ) → TradeIntent F
  exit_intent cfg pid p now seq =
      let beta = positive_beta p.hedge_beta in
      pair_intent
        (record { prefix = "fund-exit"; strategy = "funding_exit"; cooldown = "funding-exit" })
        cfg.intent_ttl_ms cfg.max_slippage_bps pid p.primary_symbol p.hedge_symbol beta now seq true
        p.notional_usd (flt.div p.notional_usd beta) (edges (flt.lit 0 0) (flt.lit 0 0))

  unfoldable pub cool_until : Config F → (now : ℤ) → ℤ
  cool_until cfg now = add64 now (mul64 cfg.cooldown_s (pos 1000))

  -- The loop over the positions: these, the cooldowns, the sequence number and the intents.
  unfoldable pub exit_loop :
      Config F
      → Dict (Quote F)
      → (now : ℤ) → Dict ℤ
      → (seq : ℤ) → Dict (OpenPosition F)
      → Dict (OpenPosition F) × Dict ℤ × ℤ × List (TradeIntent F)
  unfolding diff_bps observe exit_intent insert cool_until
  exit_loop cfg quotes now cooldowns seq [] = ([], cooldowns, seq, [])
  exit_loop cfg quotes now cooldowns seq ((pid, p) ∷ positions) =
      elim (diff_bps quotes p.primary_symbol p.hedge_symbol) [
        | none ↦
            let (rest, cooldowns', seq', intents) =
              exit_loop cfg quotes now cooldowns seq positions in
            ((pid, p) ∷ rest, cooldowns', seq', intents)
        | some diff ↦
            let (p', leave) = observe cfg diff p in
            elim leave [
              | false ↦
                  let (rest, cooldowns', seq', intents) =
                    exit_loop cfg quotes now cooldowns seq positions in
                  ((pid, p') ∷ rest, cooldowns', seq', intents)
              | true ↦
                  let n = add64 seq (pos 1) in
                  let (rest, cooldowns', seq', intents) =
                    exit_loop cfg quotes now (insert pid (cool_until cfg now) cooldowns) n
                      positions in
                  ((pid, p') ∷ rest, cooldowns', seq', exit_intent cfg pid p' now n ∷ intents)
            ]
      ]

  unfoldable pub evaluate_exits : (now : ℤ) → Engine F → Engine F × List (TradeIntent F)
  unfolding exit_loop
  evaluate_exits now e =
      let (positions, cooldowns, seq, intents) =
        exit_loop e.cfg e.quotes now e.cooldowns e.seq_id e.positions in
      (record e { positions = positions; cooldowns = cooldowns; seq_id = seq }, intents)

  abbrev pub entered_position :
      (now : ℤ) (primary hedge : String) (notional_usd beta entry_diff_bps : F) → OpenPosition F
  entered_position now primary hedge notional_usd beta entry_diff_bps = record {
    pair_id = pair_id primary hedge;
    primary_symbol = primary;
    hedge_symbol = hedge;
    notional_usd = notional_usd;
    hedge_beta = beta;
    entry_diff_bps = entry_diff_bps;
    entry_time = now;
    negative_cycles = pos 0;
    last_diff_bps = entry_diff_bps;
  }

  unfoldable pub confirm_entry :
      (now : ℤ) (primary hedge : String) (notional_usd beta entry_diff_bps : F)
      → Engine F
      → Engine F
  unfolding pair_id insert cool_until
  confirm_entry now primary hedge notional_usd beta entry_diff_bps e =
      let pid = pair_id primary hedge in
      let p = entered_position now primary hedge notional_usd beta entry_diff_bps in
      record e {
        positions = insert pid p e.positions;
        cooldowns = insert pid (cool_until e.cfg now) e.cooldowns;
      }

  unfoldable pub confirm_exit : (primary hedge : String) → Engine F → Engine F
  unfolding pair_id erase
  confirm_exit primary hedge e = record e { positions = erase (pair_id primary hedge) e.positions }

  -- The notional of both legs, added up in the order of iteration.
  unfoldable total_from : F → Dict (OpenPosition F) → F
  total_from total [] = total
  total_from total ((_, p) ∷ positions) =
      total_from
        (flt.add total
          (flt.add p.notional_usd (flt.div p.notional_usd (positive_beta p.hedge_beta))))
        positions

  total_notional : Engine F → F
  unfolding total_from
  total_notional e = total_from (flt.lit 0 0) e.positions
