-- ===== src/Client/Limiter.antt =====
-- `logLimiter` of pkg/client/client.go: which cell a flag and a reason share, and what happens to one
-- cell. A cell's two numbers are atomics, so that a call is several steps, with other calls between
-- them. Times are nanoseconds since 1970 and far enough from the end of an int64 for the sum with the
-- interval, and counts are below it.
mod Examples
use Prim.Native.Nat.{bit_xor}
use feature_flag_service.Common.{
  ◌≡◌, refl, ℕ, ◌+◌, ◌-◌, ◌*◌, ◌%◌, ◌^◌, ◌≤◌, ◌<◌, ltb, ltb→lt, ltb-false→le, Bool, Bool-cases,
  true, false, Bytes, List, [], ◌∷◌, if◌then◌else◌, length, inl, inr, arith,
}
use feature_flag_service.Core.Model.{
  Reason, reason_unknown, rule_match, rollout_in, rollout_out, fallthrough, disabled,
  flag_not_found, type_mismatch, missing_subject, error,
}

-- The constants of internal/core/reason.go as numbers.
abbrev pub reason_code : Reason → ℕ
reason_code reason_unknown = 0
reason_code rule_match = 1
reason_code rollout_in = 2
reason_code rollout_out = 3
reason_code fallthrough = 4
reason_code disabled = 5
reason_code flag_not_found = 6
reason_code type_mismatch = 7
reason_code missing_subject = 8
reason_code error = 9

abbrev pub mixed : ℕ → ℕ → ℕ
mixed h b = (bit_xor h b * 16777619) % 2 ^ 32

unfoldable pub mix_all : ℕ → Bytes → ℕ
mix_all h [] = h
mix_all h (b ∷ s) = mix_all (mixed h b) s

-- The index of the cell: `h & 255` on the hash.
unfoldable pub cell_index : Bytes → Reason → ℕ
unfolding mix_all
cell_index flag reason = mixed (mix_all 2166136261 flag) (reason_code reason) % 256

-- `limCell`. What happened is kept beside it: the calls between their two atomics, the calls refused,
-- the counts that were returned, and the times of the calls that were let through, newest first.
pub record Cell : Type 0 where
  pub next : ℕ
  pub suppressed : ℕ
  pub passing : ℕ
  pub refused : ℕ
  pub reports : List ℕ
  pub passed : List ℕ

abbrev pub new_cell : Cell
new_cell = record { next = 0; suppressed = 0; passing = 0; refused = 0; reports = []; passed = [] }

-- `cell.suppressed.Add(1)`
abbrev pub refuse : Cell → Cell
refuse c = record c { suppressed = c.suppressed + 1; refused = c.refused + 1 }

-- `cell.suppressed.Swap(0) + 1`
abbrev pub report : Cell → Cell
report c = record c {
  suppressed = 0;
  passing = c.passing - 1;
  reports = (c.suppressed + 1) ∷ c.reports;
}

module _ (interval : ℕ) where
  -- The compare-and-swap that succeeds.
  abbrev pub pass : ℕ → Cell → Cell
  pass now c = record c { next = now + interval; passing = c.passing + 1; passed = now ∷ c.passed }

  -- `allow` on its cell, with no other call between.
  unfoldable pub allow : ℕ → Cell → Cell × ℕ × Bool
  allow now c =
      if ltb now c.next then (refuse c, 0, false) else (report (pass now c), c.suppressed + 1, true)

  -- The cells that calls can lead to, whatever comes between their steps. A call that is refused saw the
  -- time ahead of it, which only grows; one whose swap succeeds saw the value that the swap replaces.
  pub data Reachable : Cell → Type 0 where
    start : Reachable new_cell
    refuses : (now : ℕ) (c : Cell) → now < c.next → Reachable c → Reachable (refuse c)
    passes : (now : ℕ) (c : Cell) → c.next ≤ now → Reachable c → Reachable (pass now c)
    reports : (c : Cell) → 0 < c.passing → Reachable c → Reachable (report c)

  abbrev pub sum : List ℕ → ℕ
  sum [] = 0
  sum (n ∷ ns) = n + sum ns

  -- Each time is at least an interval after the one before it.
  abbrev pub IsSpaced : List ℕ → Type 0
  IsSpaced [] = Unit
  IsSpaced (t ∷ []) = Unit
  IsSpaced (t ∷ (s ∷ ts)) = (s + interval ≤ t) × IsSpaced (s ∷ ts)

  abbrev IsAhead : ℕ → List ℕ → Type 0
  IsAhead next [] = Unit
  IsAhead next (t ∷ ts) = t + interval ≤ next

  IsAhead-IsSpaced :
      (now next : ℕ) (ts : List ℕ)
      → next ≤ now
      → IsAhead next ts
      → IsSpaced ts
      → IsSpaced (now ∷ ts)
  IsAhead-IsSpaced now next [] h ahead spaced = tt
  IsAhead-IsSpaced now next (t ∷ ts) h ahead spaced = (omega arith, spaced)

  Reachable-IsSpaced : (c : Cell) → Reachable c → IsAhead c.next c.passed × IsSpaced c.passed
  Reachable-IsSpaced _ start = (tt, tt)
  Reachable-IsSpaced _ (refuses now c h r) = Reachable-IsSpaced c r
  Reachable-IsSpaced _ (passes now c h r) =
      let (ahead, spaced) = Reachable-IsSpaced c r in
      (omega arith, IsAhead-IsSpaced now c.next c.passed h ahead spaced)
  Reachable-IsSpaced _ (reports c h r) = Reachable-IsSpaced c r

  Reachable-sum :
      (c : Cell)
      → Reachable c
      → (sum c.reports + c.suppressed ≡ c.refused + length c.reports)
        × (length c.reports + c.passing ≡ length c.passed)
  Reachable-sum _ start = (refl, refl)
  Reachable-sum _ (refuses now c h r) =
      let (counted, through) = Reachable-sum c r in (omega (arith, counted), through)
  Reachable-sum _ (passes now c h r) =
      let (counted, through) = Reachable-sum c r in (counted, omega (arith, through))
  Reachable-sum _ (reports c h r) =
      let (counted, through) = Reachable-sum c r in (omega (arith, counted), omega (arith, through))

  -- Under every interleaving of the calls that share a cell, the calls let through are at least an
  -- interval apart; and when no call is under way, the counts they returned and the count still held
  -- add up to all the calls, so that each suppressed line is counted once.
  pub allow-IsSpaced :
      (c : Cell)
      → Reachable c
      → c.passing ≡ 0
      → IsSpaced c.passed × (sum c.reports + c.suppressed ≡ c.refused + length c.passed)
  allow-IsSpaced c r quiet =
      let (counted, through) = Reachable-sum c r in
      ((Reachable-IsSpaced c r).1, omega (arith, counted, through, quiet))

  -- A call by itself leads to such a cell again, with none under way if none was.
  pub allow-Reachable : (now : ℕ) (c : Cell) → Reachable c → Reachable (allow now c).0
  unfolding allow
  allow-Reachable now c r = elim (Bool-cases (ltb now c.next)) [
    | inl early ↦ rw early (refuses now c (ltb→lt now c.next early) r)
    | inr due ↦
        rw due (reports (pass now c) (omega arith) (passes now c (ltb-false→le now c.next due) r))
  ]
