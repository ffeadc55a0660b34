-- ===== src/Arb/Engine.antt =====
-- internal/arb/engine.go and config.go: the spread engine, which trades the log price ratio of a pair.
use trading_challenge.Prelude.{
  false, Option, none, some, List, [], ◌∷◌, ◌++◌, String, if◌then◌else◌, ℤ, pos, add64, sub64,
  mul64, Dict, lookup, insert, Float64,
}
use trading_challenge.Arb.Pair.{PairConfig, pair_id}
use trading_challenge.Arb.Stats.{SpreadSample, RollingStats, prune, compute_rolling_stats}

pub record BasisConfig {ℓ} (F : Type ℓ) : Type ℓ where
  pub pairs : List (PairConfig F)
  pub entry_std_dev : F
  pub exit_std_dev : F
  pub min_annualized_basis_pct : F
  pub max_hold_days : ℤ
  pub max_allocation_pct : F
  pub max_slippage_bps : F
  pub cooldown_s : ℤ
  pub intent_ttl_ms : ℤ
  pub fee_bps_taker : F

pub record BasisPosition {ℓ} (F : Type ℓ) : Type ℓ where
  pub pair_id : String
  pub primary_symbol : String
  pub hedge_symbol : String
  pub notional_usd : F
  pub hedge_beta : F
  pub entry_spread : F
  pub entry_time : ℤ
  pub entry_mean : F
  pub entry_std_dev : F

pub record PairState {ℓ} (F : Type ℓ) : Type ℓ where
  pub primary_price : F
  pub hedge_price : F
  pub last_ts_ms : ℤ
  pub samples : List (SpreadSample F)
  pub position : Option (BasisPosition F)
  pub cooldown_ms : ℤ
  pub beta : F

pub record Engine {ℓ} (F : Type ℓ) : Type ℓ where
  pub cfg : BasisConfig F
  pub state : Dict (PairState F)
  pub seq_id : ℤ

-- The windows of the statistics and of the pruning, in milliseconds.
abbrev pub day_ms : ℤ
day_ms = pos 86_400_000

abbrev pub keep_ms : ℤ
keep_ms = pos 90_000_000

module _ {ℓ} {F : Type ℓ} ⦃flt : Float64 F⦄ where
  abbrev pub default_basis_config : BasisConfig F
  default_basis_config = record {
    pairs =
        (record { primary = "BTCUSDT"; hedge = "ETHUSDT"; min_correlation = flt.lit 70 2 }) ∷ [];
    entry_std_dev = flt.lit 2 0;
    exit_std_dev = flt.lit 5 1;
    min_annualized_basis_pct = flt.lit 15 0;
    max_hold_days = pos 7;
    max_allocation_pct = flt.lit 25 0;
    max_slippage_bps = flt.lit 5 0;
    cooldown_s = pos 300;
    intent_ttl_ms = pos 10_000;
    fee_bps_taker = flt.lit 55 1;
  }

  abbrev pub new_pair : PairState F
  new_pair = record {
    primary_price = flt.lit 0 0;
    hedge_price = flt.lit 0 0;
    last_ts_ms = pos 0;
    samples = [];
    position = none;
    cooldown_ms = pos 0;
    beta = flt.lit 1 0;
  }

  unfoldable pub new_states : List (PairConfig F) → Dict (PairState F) → Dict (PairState F)
  unfolding insert pair_id
  new_states [] state = state
  new_states (pair ∷ pairs) state =
      new_states pairs (insert (pair_id pair.primary pair.hedge) new_pair state)

  unfoldable pub new_engine : BasisConfig F → Engine F
  unfolding new_states
  new_engine cfg = record { cfg = cfg; state = new_states cfg.pairs []; seq_id = pos 0 }

  unfoldable pub pair_state : String → Engine F → PairState F
  unfolding lookup
  pair_state pid e = elim (lookup pid e.state) as (λ _. PairState F) [
    | none ↦ new_pair
    | some ps ↦ ps
  ]

  -- The sample of a quote, with the samples older than 25 hours left out.
  unfoldable pub observe :
      (primary_price hedge_price : F) → ℤ → List (SpreadSample F) → List (SpreadSample F)
  unfolding prune
  observe primary_price hedge_price ts samples = prune (sub64 ts keep_ms) (
      samples ++ (record { spread = flt.log (flt.div primary_price hedge_price); ts_ms = ts } ∷ []))

  unfoldable pub update_prices :
      (primary hedge : String) (primary_price hedge_price : F) → ℤ → Engine F → Engine F
  unfolding pair_id pair_state insert observe
  update_prices primary hedge primary_price hedge_price ts e =
      let pid = pair_id primary hedge in
      let ps = pair_state pid e in
      let both =
        if flt.lt (flt.lit 0 0) primary_price then flt.lt (flt.lit 0 0) hedge_price else false in
      record e {
        state =
            insert pid
              (record ps {
                primary_price = primary_price;
                hedge_price = hedge_price;
                last_ts_ms = ts;
                samples =
                    if both then observe primary_price hedge_price ts ps.samples else ps.samples;
              })
              e.state;
      }

  unfoldable pub update_beta : (primary hedge : String) → F → Engine F → Engine F
  unfolding pair_id lookup insert
  update_beta primary hedge beta e =
      let pid = pair_id primary hedge in
      elim (lookup pid e.state) [
        | none ↦ e
        | some ps ↦ record e { state = insert pid (record ps { beta = beta }) e.state }
      ]

  -- `ConfirmEntry`, with the statistics of the day at that time.
  abbrev pub entered_position :
      (now : ℤ) (primary hedge : String) (notional_usd beta entry_spread : F)
      → RollingStats F
      → BasisPosition F
  entered_position now primary hedge notional_usd beta entry_spread stats = record {
    pair_id = pair_id primary hedge;
    primary_symbol = primary;
    hedge_symbol = hedge;
    notional_usd = notional_usd;
    hedge_beta = beta;
    entry_spread = entry_spread;
    entry_time = now;
    entry_mean = stats.mean;
    entry_std_dev = stats.stddev;
  }

  unfoldable pub cool_until : BasisConfig F → (now : ℤ) → ℤ
  cool_until cfg now = add64 now (mul64 cfg.cooldown_s (pos 1000))

  unfoldable pub confirm_entry :
      (now : ℤ) (primary hedge : String) (notional_usd beta entry_spread : F) → Engine F → Engine F
  unfolding pair_id lookup insert compute_rolling_stats cool_until
  confirm_entry now primary hedge notional_usd beta entry_spread e =
      let pid = pair_id primary hedge in
      elim (lookup pid e.state) [
        | none ↦ e
        | some ps ↦
            let stats = compute_rolling_stats ps.samples now day_ms in
            let p = entered_position now primary hedge notional_usd beta entry_spread stats in
            record e {
              state =
                  insert pid (record ps { position = some p; cooldown_ms = cool_until e.cfg now })
                    e.state;
            }
      ]

  unfoldable pub confirm_exit : (now : ℤ) (primary hedge : String) → Engine F → Engine F
  unfolding pair_id lookup insert cool_until
  confirm_exit now primary hedge e =
      let pid = pair_id primary hedge in
      elim (lookup pid e.state) [
        | none ↦ e
        | some ps ↦ record e {
          state =
              insert pid (record ps { position = none; cooldown_ms = cool_until e.cfg now })
                e.state;
        }
      ]
