-- ===== src/Funding/Cycles.antt =====
-- When a low differential closes a position.
use trading_challenge.Prelude.{
  ℕ, ◌+◌, ◌^◌, ◌<◌, ◌≤◌, ◌↔◌, ◌≡◌, refl, ap, ◌∙◌, true, false, List, [], ◌∷◌, length, All, arith,
  pos, add64, ◌+ℤ◌, add64_exact, int_laws, Float64,
}
use trading_challenge.Funding.Config.{Config}
use trading_challenge.Funding.Engine.{OpenPosition}
use trading_challenge.Funding.Exits.{observe}

-- The counter does not wrap.
add64_count : (k : ℕ) → k < 2 ^ 62 → add64 (pos k) (pos 1) ≡ pos (k + 1)
unfolding ◌+ℤ◌
add64_count k h = add64_exact (pos k) (pos 1) (ground arith) ∙ omega int_laws

module _ {ℓ} {F : Type ℓ} ⦃flt : Float64 F⦄ where
  -- A differential that is not reversed, and below the threshold or not.
  abbrev pub IsLow : Config F → F → Type 0
  IsLow cfg diff =
      (flt.lt diff (flt.lit 0 0) ≡ false) × (flt.lt diff cfg.exit_threshold_diff_bps ≡ true)

  abbrev pub IsHigh : Config F → F → Type 0
  IsHigh cfg diff =
      (flt.lt diff (flt.lit 0 0) ≡ false) × (flt.lt diff cfg.exit_threshold_diff_bps ≡ false)

  -- The position after some cycles.
  pub observe_all : Config F → List F → OpenPosition F → OpenPosition F
  observe_all cfg [] p = p
  observe_all cfg (diff ∷ diffs) p = observe_all cfg diffs (observe cfg diff p).0

  low_streak :
      (cfg : Config F) (diffs : List F) (p : OpenPosition F) (k : ℕ)
      → All (IsLow cfg) diffs
      → p.negative_cycles ≡ pos k
      → k + length diffs < 2 ^ 62
      → (observe_all cfg diffs p).negative_cycles ≡ pos (k + length diffs)
  unfolding observe_all observe
  low_streak cfg [] p k h e b = e ∙ ap pos (omega arith)
  low_streak cfg (diff ∷ diffs) p k ((positive, low), h) e b =
      let n : add64 p.negative_cycles (pos 1) ≡ pos (k + 1) =
        ap (λ c. add64 c (pos 1)) e ∙ add64_count k (ground arith) in
      let seen : (observe cfg diff p).0.negative_cycles ≡ pos (k + 1) = rw (positive, low) n in
      low_streak cfg diffs (observe cfg diff p).0 (k + 1) h seen (ground arith) ∙ omega int_laws

  -- After a cycle that is not low and any number of low ones, another low cycle closes the position
  -- exactly when it is the configured one in a row, or a later one. The counter is far from the
  -- end of its range.
  streak_exits_iff :
      (cfg : Config F) (high diff : F) (diffs : List F) (p : OpenPosition F) (limit : ℕ)
      → IsHigh cfg high
      → All (IsLow cfg) diffs
      → IsLow cfg diff
      → length diffs < 2 ^ 62
      → cfg.negative_exit_cycles ≡ pos limit
      → let p' = observe_all cfg (high ∷ diffs) p in
        ((observe cfg diff p').1 ≡ true) ↔ (limit ≤ length diffs + 1)
  unfolding observe_all observe
  streak_exits_iff cfg high diff diffs p limit (positive, above) h (positive', low) b e =
      let start = (observe cfg high p).0 in
      let reset : start.negative_cycles ≡ pos 0 = rw (positive, above) refl in
      let p' = observe_all cfg diffs start in
      let counted : p'.negative_cycles ≡ pos (length diffs) =
        low_streak cfg diffs start 0 h reset (ground arith) ∙ ap pos (omega arith) in
      let n : add64 p'.negative_cycles (pos 1) ≡ pos (length diffs + 1) =
        ap (λ c. add64 c (pos 1)) counted ∙ add64_count (length diffs) b in
      rw (positive', low, n, e) (ground arith)
