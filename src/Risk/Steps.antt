-- ===== src/Risk/Steps.antt =====
-- Sequences of calls of the risk daemon's methods.
use trading_challenge.Prelude.{
  ◌≤◌, ◌≡◌, inl, inr, Bool, true, false, Bool-cases, List, [], ◌∷◌, ◌++◌, All, arith, String, ℤ,
  le_ℤ, Time, unix_milli, length, select, Decimal, ◌≼◌, IsOrdered, le_refl, le-raised, raised_mono,
  Float64, Convert,
}
use trading_challenge.Risk.Types.{Mode, rank}
use trading_challenge.Risk.Config.{Config}
use trading_challenge.Risk.Daemon.{
  FillEvent, PositionSnapshot, Daemon, new_daemon, prune_older_than, escalate_to, evaluate,
  record_fill, store_equity, update_equity, tick, record_position_snapshot, set_mode, current_state,
  error_rate_5m,
}
use trading_challenge.Risk.Prune.{prune_older_than-eq-select}
use trading_challenge.Risk.Escalation.{evaluate_lem, rank-evaluate-le}

-- The first list comes from the second by dropping items.
pub data IsSubseq {ℓ} {A : Type ℓ} : List A → List A → Type ℓ where
  empty : IsSubseq [] []
  skip : {y : A} {xs ys : List A} → IsSubseq xs ys → IsSubseq xs (y ∷ ys)
  keep : {x : A} {xs ys : List A} → IsSubseq xs ys → IsSubseq (x ∷ xs) (x ∷ ys)

module _ {ℓ} {A : Type ℓ} where
  IsSubseq-snoc :
      {xs ys : List A} (z : A) → IsSubseq xs ys → IsSubseq (xs ++ (z ∷ [])) (ys ++ (z ∷ []))
  IsSubseq-snoc z empty = keep empty
  IsSubseq-snoc z (skip s) = skip (IsSubseq-snoc z s)
  IsSubseq-snoc z (keep s) = keep (IsSubseq-snoc z s)

  IsSubseq-snoc_skip : {xs ys : List A} (z : A) → IsSubseq xs ys → IsSubseq xs (ys ++ (z ∷ []))
  IsSubseq-snoc_skip z empty = skip empty
  IsSubseq-snoc_skip z (skip s) = skip (IsSubseq-snoc_skip z s)
  IsSubseq-snoc_skip z (keep s) = keep (IsSubseq-snoc_skip z s)

  IsSubseq-select :
      (p : A → Bool) {xs ys : List A} → IsSubseq xs ys → IsSubseq (select p xs) (select p ys)
  unfolding select
  IsSubseq-select p empty = empty
  IsSubseq-select p (skip {y = y} s) = elim (Bool-cases (p y)) [
    | inl e ↦ rw e (skip (IsSubseq-select p s))
    | inr e ↦ rw e (IsSubseq-select p s)
  ]
  IsSubseq-select p (keep {x = x} s) = elim (Bool-cases (p x)) [
    | inl e ↦ rw e (keep (IsSubseq-select p s))
    | inr e ↦ rw e (IsSubseq-select p s)
  ]

  pub length_of_IsSubseq : {xs ys : List A} → IsSubseq xs ys → length xs ≤ length ys
  length_of_IsSubseq empty = omega arith
  length_of_IsSubseq (skip s) = omega (arith, length_of_IsSubseq s)
  length_of_IsSubseq (keep s) = omega (arith, length_of_IsSubseq s)

-- A call of a method; `operate` is the operator's `SetMode`.
pub data Call {ℓ} (D : Type ℓ) : Type ℓ where
  fill : Time → D → Bool → Call D
  equity : (t today : Time) → D → Call D
  wake : Time → Call D
  snapshot : Time → List (PositionSnapshot D) → Call D
  query : (t rated : Time) → Call D
  operate : Mode → String → Call D

-- Any call but the operator's.
abbrev pub IsAutomatic {ℓ} : {D : Type ℓ} → Call D → Type 0
IsAutomatic (operate _ _) = ⊥
IsAutomatic _ = Unit

module _ {ℓ} {D : Type ℓ} where
  prune-IsSubseq :
      (cutoff : ℤ) {errors fills : List (FillEvent D)}
      → IsSubseq errors fills
      → IsSubseq (prune_older_than errors cutoff) (prune_older_than fills cutoff)
  prune-IsSubseq cutoff {errors} {fills} s =
      rw (prune_older_than-eq-select errors cutoff, prune_older_than-eq-select fills cutoff)
        (IsSubseq-select (λ e. le_ℤ cutoff e.ts_ms) s)

module _ {ℓ κ} {D : Type ℓ} {F : Type κ} ⦃dec : Decimal D⦄ ⦃flt : Float64 F⦄
    ⦃conv : Convert D F⦄ where
  unfoldable pub step : Call D → Daemon D F → Daemon D F
  step (fill t pnl is_error) d = (record_fill t pnl is_error d).0
  step (equity t today e) d = (update_equity t today e d).0
  step (wake t) d = (tick t d).0
  step (snapshot t positions) d = (record_position_snapshot t positions d).0
  step (query t rated) d = (current_state t rated d).0
  step (operate m reason) d = set_mode m reason d

  unfoldable pub run : List (Call D) → Daemon D F → Daemon D F
  unfolding step
  run [] d = d
  run (c ∷ cs) d = run cs (step c d)

  snapshot_lem :
      (t : Time) (positions : List (PositionSnapshot D)) (d : Daemon D F)
      → let e = (record_position_snapshot t positions d).0 in
        (rank d.mode ≤ rank e.mode)
        × (e.peak_equity_usd ≡ d.peak_equity_usd)
        × (e.current_equity_usd ≡ d.current_equity_usd)
        × (e.daily_peak_equity ≡ d.daily_peak_equity)
        × (e.fill_events ≡ d.fill_events)
        × (e.error_events ≡ d.error_events)
  unfolding record_position_snapshot escalate_to
  snapshot_lem t positions d = ground arith

  step-rank : (c : Call D) (d : Daemon D F) → IsAutomatic c → rank d.mode ≤ rank (step c d).mode
  unfolding step
  step-rank (fill t pnl is_error) d a = unfold record_fill in rank-evaluate-le _ _
  step-rank (equity t today e) d a =
      unfold update_equity store_equity in rank-evaluate-le (unix_milli t) (store_equity today e d)
  step-rank (wake t) d a = unfold tick in rank-evaluate-le _ _
  step-rank (snapshot t positions) d a = (snapshot_lem t positions d).0
  step-rank (query t rated) d a = unfold current_state error_rate_5m in omega arith
  step-rank (operate m reason) d a = absurd a

  -- Whatever is reported to the engine and in whatever order, its mode never becomes milder unless the
  -- operator sets it.
  pub run-rank :
      (cs : List (Call D)) (d : Daemon D F)
      → All IsAutomatic cs
      → rank d.mode ≤ rank (run cs d).mode
  unfolding run
  run-rank [] d a = omega arith
  run-rank (c ∷ cs) d (a, rest) = omega (arith, step-rank c d a, run-rank cs (step c d) rest)

  pub record Inv (d : Daemon D F) : Type ℓ where
    pub under_peak : d.current_equity_usd ≼ d.peak_equity_usd
    pub under_daily : d.current_equity_usd ≼ d.daily_peak_equity
    pub daily_under_peak : d.daily_peak_equity ≼ d.peak_equity_usd
    pub errors_among_fills : IsSubseq d.error_events d.fill_events

  evaluate-Inv : (now : ℤ) {d : Daemon D F} → Inv d → Inv (evaluate now d).0
  evaluate-Inv now {d} v =
      let (_, s, f, e) = evaluate_lem now d in
      record {
        under_peak = rw (s.same_current, s.same_peak) v.under_peak;
        under_daily = rw (s.same_current, s.same_daily) v.under_daily;
        daily_under_peak = rw (s.same_daily, s.same_peak) v.daily_under_peak;
        errors_among_fills = rw (f, e) (prune-IsSubseq _ v.errors_among_fills);
      }

  module _ (laws : IsOrdered D) where
    store_equity-Inv :
        (today : Time) (e : D) {d : Daemon D F} → Inv d → Inv (store_equity today e d)
    unfolding store_equity
    store_equity-Inv today e {d} v = record {
      under_peak = le-raised laws e d.peak_equity_usd;
      under_daily = le-raised laws e _;
      daily_under_peak = ground (
        arith,
        v.daily_under_peak,
        raised_mono laws e d.daily_peak_equity d.peak_equity_usd,
        le-raised laws e d.peak_equity_usd,
        le_refl laws e,
      );
      errors_among_fills = v.errors_among_fills;
    }

    new_daemon-Inv : (now : Time) (cfg : Config F) → Inv (new_daemon now cfg)
    unfolding new_daemon
    new_daemon-Inv now cfg = record {
      under_peak = le_refl laws dec.nought;
      under_daily = le_refl laws dec.nought;
      daily_under_peak = le_refl laws dec.nought;
      errors_among_fills = empty;
    }

    fill-Inv :
        (t : Time) (pnl : D) (is_error : Bool) {d : Daemon D F}
        → Inv d
        → Inv (record_fill t pnl is_error d).0
    unfolding record_fill
    fill-Inv t pnl true v = evaluate-Inv (unix_milli t) (record {
      under_peak = v.under_peak;
      under_daily = v.under_daily;
      daily_under_peak = v.daily_under_peak;
      errors_among_fills = IsSubseq-snoc _ v.errors_among_fills;
    })
    fill-Inv t pnl false v = evaluate-Inv (unix_milli t) (record {
      under_peak = v.under_peak;
      under_daily = v.under_daily;
      daily_under_peak = v.daily_under_peak;
      errors_among_fills = IsSubseq-snoc_skip _ v.errors_among_fills;
    })

    snapshot-Inv :
        (t : Time) (positions : List (PositionSnapshot D)) {d : Daemon D F}
        → Inv d
        → Inv (record_position_snapshot t positions d).0
    snapshot-Inv t positions {d} v =
        let (_, p, c, y, f, e) = snapshot_lem t positions d in
        record {
          under_peak = rw (c, p) v.under_peak;
          under_daily = rw (c, y) v.under_daily;
          daily_under_peak = rw (y, p) v.daily_under_peak;
          errors_among_fills = rw (f, e) v.errors_among_fills;
        }

    step-Inv : (c : Call D) {d : Daemon D F} → Inv d → Inv (step c d)
    unfolding step
    step-Inv (fill t pnl is_error) v = fill-Inv t pnl is_error v
    step-Inv (equity t today e) v =
        unfold update_equity in evaluate-Inv (unix_milli t) (store_equity-Inv today e v)
    step-Inv (wake t) v = unfold tick in evaluate-Inv (unix_milli t) v
    step-Inv (snapshot t positions) v = snapshot-Inv t positions v
    step-Inv (query t rated) v =
        unfold current_state error_rate_5m in
        record {
          under_peak = v.under_peak;
          under_daily = v.under_daily;
          daily_under_peak = v.daily_under_peak;
          errors_among_fills = prune-IsSubseq _ v.errors_among_fills;
        }
    step-Inv (operate m reason) v =
        unfold set_mode in
        record {
          under_peak = v.under_peak;
          under_daily = v.under_daily;
          daily_under_peak = v.daily_under_peak;
          errors_among_fills = v.errors_among_fills;
        }

    run-Inv : (cs : List (Call D)) {d : Daemon D F} → Inv d → Inv (run cs d)
    unfolding run
    run-Inv [] v = v
    run-Inv (c ∷ cs) v = run-Inv cs (step-Inv c v)

    -- Under the laws of an order: after any calls of a new daemon, the equity is at most the daily
    -- peak, which is at most the overall peak, and the errors are among the fills, so that they are
    -- not more.
    pub peaks_in_order :
        (now : Time) (cfg : Config F) (cs : List (Call D))
        → let d = run cs (new_daemon now cfg) in
          Inv d × (length d.error_events ≤ length d.fill_events)
    peaks_in_order now cfg cs =
        let v = run-Inv cs (new_daemon-Inv now cfg) in (v, length_of_IsSubseq v.errors_among_fills)
