-- ===== src/Client/Writer/Settles.antt =====
-- The goroutine left to itself comes to rest.
use feature_flag_service.Common.{
  ◌≡◌, refl, sym, Bool, true, false, subst, ℕ, zero, suc, List, [], ◌∷◌, Option, none, some, arith,
}
use feature_flag_service.Client.Writer.{
  Phase, waiting, draining, writing, stopped, Writer, Reachable, next_step, settle,
}
use feature_flag_service.Client.Writer.Rest.{last_written, IsNoticed, IsTraced, Reachable-IsSound}

-- The first of a sequence.
abbrev pub first_of {κ} : {A : Type κ} → ℕ → (ℕ → A) → List A
first_of zero f = []
first_of (suc n) f = f 0 ∷ first_of n (λ k. f (suc k))

module _ {ℓ} {E : Type ℓ} where
  -- The final drain is still to come.
  abbrev pub IsOpen : Phase E → Type 0
  IsOpen waiting = Unit
  IsOpen (draining last) = Unit
  IsOpen (writing e true) = ⊥
  IsOpen (writing e false) = Unit
  IsOpen stopped = ⊥

  -- Nothing is left to do, whichever way a `select` goes, and the newest entry is the last one written.
  abbrev pub IsSettled : Writer E → Type ℓ
  IsSettled w =
      ((pick : Bool) → next_step pick w.phase w ≡ none) × (w.newest ≡ last_written w.written)

  -- By what there is to do: a write, then a signal or the end. A `select` has a choice at most once: at
  -- the first step, or after a write or an empty drain at the second or the third.
  settle-fields :
      (p1 p2 p3 p4 p5 p6 p7 : Bool) (phase : Phase E) (pending : Option E) (sig done : Bool)
      (written : List E) (newest : Option E)
      → IsOpen phase
      → IsNoticed pending sig 0 phase
      → IsTraced newest pending phase written
      → IsSettled (
          settle (p1 ∷ p2 ∷ p3 ∷ p4 ∷ p5 ∷ p6 ∷ p7 ∷ []) (record {
            pending = pending;
            sig = sig;
            done = done;
            waking = 0;
            phase = phase;
            written = written;
            newest = newest;
          }))
  unfolding settle next_step
  settle-fields true p2 p3 p4 p5 p6 p7 waiting none true true written newest o n t =
      ((λ pick. refl), t)
  settle-fields false p2 p3 p4 p5 p6 p7 waiting none true true written newest o n t =
      ((λ pick. refl), t)
  settle-fields p1 p2 p3 p4 p5 p6 p7 waiting none true false written newest o n t =
      ((λ pick. refl), t)
  settle-fields p1 p2 p3 p4 p5 p6 p7 waiting none false true written newest o n t =
      ((λ pick. refl), t)
  settle-fields p1 p2 p3 p4 p5 p6 p7 waiting none false false written newest o n t =
      ((λ pick. refl), t)
  settle-fields true p2 p3 p4 p5 p6 p7 waiting (some e) true true written newest o n t =
      ((λ pick. refl), t)
  settle-fields false p2 p3 p4 p5 p6 p7 waiting (some e) true true written newest o n t =
      ((λ pick. refl), t)
  settle-fields p1 p2 p3 p4 p5 p6 p7 waiting (some e) true false written newest o n t =
      ((λ pick. refl), t)
  settle-fields p1 p2 p3 p4 p5 p6 p7 waiting (some e) false true written newest o n t =
      ((λ pick. refl), t)
  settle-fields p1 p2 p3 p4 p5 p6 p7 waiting (some e) false false written newest o n t =
      absurd (ground arith)
  settle-fields p1 p2 p3 p4 p5 p6 p7 (draining true) none sig done written newest o n t =
      ((λ pick. refl), t)
  settle-fields p1 p2 p3 p4 p5 p6 p7 (draining true) (some e) sig done written newest o n t =
      ((λ pick. refl), t)
  settle-fields p1 true p3 p4 p5 p6 p7 (draining false) none true true written newest o n t =
      ((λ pick. refl), t)
  settle-fields p1 false p3 p4 p5 p6 p7 (draining false) none true true written newest o n t =
      ((λ pick. refl), t)
  settle-fields p1 p2 p3 p4 p5 p6 p7 (draining false) none true false written newest o n t =
      ((λ pick. refl), t)
  settle-fields p1 p2 p3 p4 p5 p6 p7 (draining false) none false true written newest o n t =
      ((λ pick. refl), t)
  settle-fields p1 p2 p3 p4 p5 p6 p7 (draining false) none false false written newest o n t =
      ((λ pick. refl), t)
  settle-fields p1 p2 true p4 p5 p6 p7 (draining false) (some e) true true written newest o n t =
      ((λ pick. refl), t)
  settle-fields p1 p2 false p4 p5 p6 p7 (draining false) (some e) true true written newest o n t =
      ((λ pick. refl), t)
  settle-fields p1 p2 p3 p4 p5 p6 p7 (draining false) (some e) true false written newest o n t =
      ((λ pick. refl), t)
  settle-fields p1 p2 p3 p4 p5 p6 p7 (draining false) (some e) false true written newest o n t =
      ((λ pick. refl), t)
  settle-fields p1 p2 p3 p4 p5 p6 p7 (draining false) (some e) false false written newest o n t =
      ((λ pick. refl), t)
  settle-fields p1 p2 p3 p4 p5 p6 p7 (writing d true) pending sig done written newest o n t =
      absurd o
  settle-fields p1 true p3 p4 p5 p6 p7 (writing d false) none true true written newest o n t =
      ((λ pick. refl), t)
  settle-fields p1 false p3 p4 p5 p6 p7 (writing d false) none true true written newest o n t =
      ((λ pick. refl), t)
  settle-fields p1 p2 p3 p4 p5 p6 p7 (writing d false) none true false written newest o n t =
      ((λ pick. refl), t)
  settle-fields p1 p2 p3 p4 p5 p6 p7 (writing d false) none false true written newest o n t =
      ((λ pick. refl), t)
  settle-fields p1 p2 p3 p4 p5 p6 p7 (writing d false) none false false written newest o n t =
      ((λ pick. refl), t)
  settle-fields p1 true p3 p4 p5 p6 p7 (writing d false) (some e) true true written newest o n t =
      ((λ pick. refl), t)
  settle-fields p1 false p3 p4 p5 p6 p7 (writing d false) (some e) true true written newest o n t =
      ((λ pick. refl), t)
  settle-fields p1 p2 p3 p4 p5 p6 p7 (writing d false) (some e) true false written newest o n t =
      ((λ pick. refl), t)
  settle-fields p1 p2 p3 p4 p5 p6 p7 (writing d false) (some e) false true written newest o n t =
      ((λ pick. refl), t)
  settle-fields p1 p2 p3 p4 p5 p6 p7 (writing d false) (some e) false false written newest o n t =
      absurd (ground arith)
  settle-fields p1 p2 p3 p4 p5 p6 p7 stopped pending sig done written newest o n t = absurd o

  -- From every state that can come about, before the final drain and with no caller under way, seven
  -- steps of the goroutine are enough, whichever way each `select` goes: it has nothing left to do, and
  -- the last entry that was handed to the store is the newest that was enqueued, closed or not.
  pub settle-IsSettled :
      (picks : ℕ → Bool) (w : Writer E)
      → Reachable w
      → w.waking ≡ 0
      → IsOpen w.phase
      → IsSettled (settle (first_of 7 picks) w)
  settle-IsSettled picks w r alone before =
      let (noticed, traced) = Reachable-IsSound w r in
      subst
        (λ n. IsSettled (
          settle (first_of 7 picks) (record {
            pending = w.pending;
            sig = w.sig;
            done = w.done;
            waking = n;
            phase = w.phase;
            written = w.written;
            newest = w.newest;
          })))
        (sym alone)
        (settle-fields (picks 0) (picks 1) (picks 2) (picks 3) (picks 4) (picks 5) (picks 6) w.phase
          w.pending w.sig w.done w.written w.newest before
          (subst (λ n. IsNoticed w.pending w.sig n w.phase) alone noticed) traced)
