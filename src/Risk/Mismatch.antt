-- ===== src/Risk/Mismatch.antt =====
-- The unhedged legs: the clock that starts at the first unhedged snapshot.
use Prim.Native.Nat.{max}
use trading_challenge.Prelude.{
  ◌≡◌, refl, true, false, List, [], ◌∷◌, All, arith, pos, eq_ℤ, le_ℤ, sub64, Time, unix_milli,
  if◌then◌else◌, Decimal, Float64, Convert,
}
use trading_challenge.Risk.Types.{rank}
use trading_challenge.Risk.Daemon.{
  PositionSnapshot, Daemon, escalate_to, has_unhedged, record_position_snapshot,
}

module _ {ℓ} {D : Type ℓ} ⦃dec : Decimal D⦄ where
  abbrev pub IsUnhedged : D → List (PositionSnapshot D) → Type 0
  IsUnhedged factor positions = has_unhedged factor positions ≡ true

module _ {ℓ κ} {D : Type ℓ} {F : Type κ} ⦃dec : Decimal D⦄ ⦃flt : Float64 F⦄
    ⦃conv : Convert D F⦄ where
  -- A series of snapshots, each with its time.
  unfoldable pub snapshots : List (Time × List (PositionSnapshot D)) → Daemon D F → Daemon D F
  snapshots [] d = d
  snapshots ((t, positions) ∷ rest) d = snapshots rest (record_position_snapshot t positions d).0

  -- One unhedged snapshot.
  unhedged_step :
      (t : Time) (positions : List (PositionSnapshot D)) (d : Daemon D F)
      → IsUnhedged (conv.from_float (flt.lit 5 2)) positions
      → let e = (record_position_snapshot t positions d).0 in
        let since = if eq_ℤ d.unhedged_since (pos 0) then unix_milli t else d.unhedged_since in
        (e.unhedged_since ≡ since)
        × (e.cfg ≡ d.cfg)
        × (rank e.mode ≡ (
            if le_ℤ d.cfg.leg_mismatch_close_ms (sub64 (unix_milli t) since)
            then max (rank d.mode) 3
            else rank d.mode))
  unfolding record_position_snapshot escalate_to
  unhedged_step t positions d u = ground arith

  unhedged_series :
      (l : List (Time × List (PositionSnapshot D))) (d : Daemon D F)
      → eq_ℤ d.unhedged_since (pos 0) ≡ false
      → All (λ s. IsUnhedged (conv.from_float (flt.lit 5 2)) s.1) l
      → ((snapshots l d).unhedged_since ≡ d.unhedged_since) × ((snapshots l d).cfg ≡ d.cfg)
  unfolding snapshots
  unhedged_series [] d z u = (refl, refl)
  unhedged_series ((t, positions) ∷ l) d z (u, rest) =
      let e = (record_position_snapshot t positions d).0 in
      ground (arith, unhedged_step t positions d u, unhedged_series l e)

  -- From a stopped clock: after a first unhedged snapshot at t₀, which is not the epoch, and any
  -- number of others that are all unhedged, one more at t moves to FLATTEN at least exactly if the
  -- configured time has passed since t₀, and else leaves the mode alone.
  pub mismatch_clock :
      (t₀ t : Time) (first last : List (PositionSnapshot D))
      (l : List (Time × List (PositionSnapshot D))) (d : Daemon D F)
      → eq_ℤ d.unhedged_since (pos 0) ≡ true
      → eq_ℤ (unix_milli t₀) (pos 0) ≡ false
      → IsUnhedged (conv.from_float (flt.lit 5 2)) first
      → All (λ s. IsUnhedged (conv.from_float (flt.lit 5 2)) s.1) l
      → IsUnhedged (conv.from_float (flt.lit 5 2)) last
      → let before_last = snapshots l (record_position_snapshot t₀ first d).0 in
        rank (record_position_snapshot t last before_last).0.mode ≡ (
          if le_ℤ d.cfg.leg_mismatch_close_ms (sub64 (unix_milli t) (unix_milli t₀))
          then max (rank before_last.mode) 3
          else rank before_last.mode)
  mismatch_clock t₀ t first last l d z nz u us v =
      let d₀ = (record_position_snapshot t₀ first d).0 in
      let before_last = snapshots l d₀ in
      ground (
        arith,
        unhedged_step t₀ first d u,
        unhedged_series l d₀,
        unhedged_step t last before_last v,
        us,
      )

  -- A hedged snapshot stops the clock and leaves the mode alone.
  pub hedged_resets :
      (t : Time) (positions : List (PositionSnapshot D)) (d : Daemon D F)
      → has_unhedged (conv.from_float (flt.lit 5 2)) positions ≡ false
      → ((record_position_snapshot t positions d).0.unhedged_since ≡ pos 0)
        × ((record_position_snapshot t positions d).0.mode ≡ d.mode)
  unfolding record_position_snapshot
  hedged_resets t positions d h = ground arith
