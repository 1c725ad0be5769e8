-- ===== src/Client/Writer/Rest.antt =====
-- What the writer has written when there is nothing left to do.
use feature_flag_service.Common.{
  ◌≡◌, refl, subst, ◌⊎◌, inl, inr, ℕ, ◌+◌, ◌-◌, ◌<◌, Bool, true, false, List, [], ◌∷◌, Option, none,
  some, arith,
}
use feature_flag_service.Client.Writer.{
  Phase, waiting, draining, writing, stopped, Writer, new_async_writer, resume, swapped, Reachable,
  start, puts, wakes, closes, takes_signal, takes_done, swaps, writes,
}

module _ {ℓ} {E : Type ℓ} where
  abbrev pub last_written : List E → Option E
  last_written [] = none
  last_written (e ∷ es) = some e

  -- A pending entry will be seen: someone is about to signal, or has, or the goroutine is at `drain`.
  abbrev pub IsNoticed : Option E → Bool → ℕ → Phase E → Type 0
  IsNoticed none sig waking phase = Unit
  IsNoticed (some e) sig waking waiting = (sig ≡ true) ⊎ (0 < waking)
  IsNoticed (some e) sig waking (draining last) = Unit
  IsNoticed (some e) sig waking (writing d last) = (sig ≡ true) ⊎ (0 < waking)
  IsNoticed (some e) sig waking stopped = Unit

  -- Where the newest entry is.
  abbrev pub IsTraced : Option E → Option E → Phase E → List E → Type ℓ
  IsTraced newest (some e) phase written = newest ≡ some e
  IsTraced newest none (writing e last) written = newest ≡ some e
  IsTraced newest none waiting written = newest ≡ last_written written
  IsTraced newest none (draining last) written = newest ≡ last_written written
  IsTraced newest none stopped written = newest ≡ last_written written

  abbrev pub IsSound : Writer E → Type ℓ
  IsSound w =
      IsNoticed w.pending w.sig w.waking w.phase × IsTraced w.newest w.pending w.phase w.written

  put-IsNoticed :
      (e : E) (sig : Bool) (waking : ℕ) (phase : Phase E)
      → IsNoticed (some e) sig (waking + 1) phase
  put-IsNoticed e sig waking waiting = inr (omega arith)
  put-IsNoticed e sig waking (draining last) = tt
  put-IsNoticed e sig waking (writing d last) = inr (omega arith)
  put-IsNoticed e sig waking stopped = tt

  wake-IsNoticed :
      (pending : Option E) (waking : ℕ) (phase : Phase E) → IsNoticed pending true waking phase
  wake-IsNoticed none waking phase = tt
  wake-IsNoticed (some e) waking waiting = inl refl
  wake-IsNoticed (some e) waking (draining last) = tt
  wake-IsNoticed (some e) waking (writing d last) = inl refl
  wake-IsNoticed (some e) waking stopped = tt

  draining-IsNoticed :
      (pending : Option E) (sig : Bool) (waking : ℕ) (last : Bool)
      → IsNoticed pending sig waking (draining last)
  draining-IsNoticed none sig waking last = tt
  draining-IsNoticed (some e) sig waking last = tt

  waiting-IsTraced :
      (newest pending : Option E) (written : List E) (last : Bool)
      → IsTraced newest pending waiting written
      → IsTraced newest pending (draining last) written
  waiting-IsTraced newest none written last h = h
  waiting-IsTraced newest (some e) written last h = h

  swap-IsTraced :
      (newest pending : Option E) (last : Bool) (written : List E)
      → IsTraced newest pending (draining last) written
      → IsTraced newest none (swapped pending last) written
  swap-IsTraced newest none true written h = h
  swap-IsTraced newest none false written h = h
  swap-IsTraced newest (some e) last written h = h

  write-IsNoticed :
      (pending : Option E) (sig : Bool) (waking : ℕ) (e : E) (last : Bool)
      → IsNoticed pending sig waking (writing e last)
      → IsNoticed pending sig waking (resume last)
  write-IsNoticed none sig waking e last h = tt
  write-IsNoticed (some d) sig waking e true h = tt
  write-IsNoticed (some d) sig waking e false h = h

  write-IsTraced :
      (newest pending : Option E) (e : E) (last : Bool) (written : List E)
      → IsTraced newest pending (writing e last) written
      → IsTraced newest pending (resume last) (e ∷ written)
  write-IsTraced newest none e true written h = h
  write-IsTraced newest none e false written h = h
  write-IsTraced newest (some d) e last written h = h

  pub Reachable-IsSound : (w : Writer E) → Reachable w → IsSound w
  unfolding new_async_writer
  Reachable-IsSound _ start = (tt, refl)
  Reachable-IsSound _ (puts e w r) = (put-IsNoticed e w.sig w.waking w.phase, refl)
  Reachable-IsSound _ (wakes w busy r) =
      (wake-IsNoticed w.pending (w.waking - 1) w.phase, (Reachable-IsSound w r).1)
  Reachable-IsSound _ (closes w r) = Reachable-IsSound w r
  Reachable-IsSound _ (takes_signal w idle full r) = (
    draining-IsNoticed w.pending false w.waking false,
    waiting-IsTraced w.newest w.pending w.written false
        (subst (λ p. IsTraced w.newest w.pending p w.written) idle (Reachable-IsSound w r).1),
  )
  Reachable-IsSound _ (takes_done w idle over r) = (
    draining-IsNoticed w.pending w.sig w.waking true,
    waiting-IsTraced w.newest w.pending w.written true
        (subst (λ p. IsTraced w.newest w.pending p w.written) idle (Reachable-IsSound w r).1),
  )
  Reachable-IsSound _ (swaps last w there r) = (
    tt,
    swap-IsTraced w.newest w.pending last w.written
        (subst (λ p. IsTraced w.newest w.pending p w.written) there (Reachable-IsSound w r).1),
  )
  Reachable-IsSound _ (writes e last w there r) = (
    write-IsNoticed w.pending w.sig w.waking e last
        (subst (λ p. IsNoticed w.pending w.sig w.waking p) there (Reachable-IsSound w r).0),
    write-IsTraced w.newest w.pending e last w.written
        (subst (λ p. IsTraced w.newest w.pending p w.written) there (Reachable-IsSound w r).1),
  )

  at_rest :
      (newest pending : Option E) (sig : Bool) (written : List E)
      → sig ≡ false
      → IsNoticed pending sig 0 waiting
      → IsTraced newest pending waiting written
      → newest ≡ last_written written
  at_rest newest none sig written quiet noticed traced = traced
  at_rest newest (some e) sig written quiet noticed traced = absurd (ground arith)

  -- Under every interleaving, when the goroutine has nothing to do and no caller is under way, the last
  -- entry that was handed to the store is the newest that was enqueued: writes may be skipped, the last
  -- one never is.
  pub written_at_rest :
      (w : Writer E)
      → Reachable w
      → w.phase ≡ waiting
      → w.sig ≡ false
      → w.waking ≡ 0
      → w.newest ≡ last_written w.written
  written_at_rest w r idle quiet alone =
      let (noticed, traced) = Reachable-IsSound w r in
      at_rest w.newest w.pending w.sig w.written quiet
        (subst (λ n. IsNoticed w.pending w.sig n waiting) alone
          (subst (λ p. IsNoticed w.pending w.sig w.waking p) idle noticed))
        (subst (λ p. IsTraced w.newest w.pending p w.written) idle traced)
