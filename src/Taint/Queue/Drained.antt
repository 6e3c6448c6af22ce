-- ===== src/Taint/Queue/Drained.antt =====
-- What shutdown of internal/analysis/active/taint/taint_analyzer.go leaves: nothing.
use scalpel_cli.Common.{
  ℕ, zero, suc, ◌+◌, ◌<◌, ◌≤◌, ◌⊎◌, ◌≡◌, refl, sym, ap, ◌∙◌, Bool, true, List, [], ◌∷◌, ◌++◌, arith,
  inl, inr, Bool-cases, ◌==◌, length,
}
use mathlib.Core.List.{append-nil}
use scalpel_cli.Taint.Types.{Event}
use scalpel_cli.Taint.Queue.{
  Engine, start_workers, take_event, worker_takes, worker_ends, has_shut_down,
}
use scalpel_cli.Taint.Queue.Steps.{Reach, reachable_queue-Inv}

-- Where at least one worker was started and the shutdown has returned, every event that the channel
-- accepted has been taken by a worker, in order.
pub all_handled :
    (capacity n : ℕ) (has_oast : Bool) {s : Engine}
    → 0 < n
    → Reach (start_workers capacity n has_oast) s
    → has_shut_down s ≡ true
    → s.taken ≡ s.accepted
unfolding has_shut_down
all_handled capacity n o {s} few r e =
    let i = reachable_queue-Inv capacity n o r in
    sym (i.conserved ∙ ap (λ es. s.taken ++ es) (ground (arith, i, e, few)) ∙ append-nil s.taken)

-- The workers go on alone, for so many rounds.
unfoldable pub work : ℕ → Engine → Engine
work zero s = s
work (suc k) s = work k (worker_ends (worker_takes s))

abbrev pub rounds_left : Engine → ℕ
rounds_left s = length s.events + s.workers

-- One round leaves less to do, where a worker is left.
record Less (s t : Engine) : Type 0 where
  closed_still : t.is_closed ≡ true
  fewer : t.workers ≤ s.workers
  less : 0 < s.workers → rounds_left t < rounds_left s

take_event-Less :
    (s : Engine) (es : List Event)
    → s.is_closed ≡ true
    → s.events ≡ es
    → Less s (worker_ends (take_event es s))
unfolding worker_ends
take_event-Less s [] c h = record {
  closed_still = ground (arith, c, h);
  fewer = ground (arith, c, h);
  less = ground (arith, c, h);
}
take_event-Less s (e ∷ []) c h = record {
  closed_still = ground (arith, c, h);
  fewer = ground (arith, c, h);
  less = ground (arith, c, h);
}
take_event-Less s (e ∷ f ∷ es) c h = record {
  closed_still = ground (arith, c, h);
  fewer = ground (arith, c, h);
  less = ground (arith, c, h);
}

idle-Less :
    (s : Engine) (es : List Event)
    → s.is_closed ≡ true
    → s.events ≡ es
    → s.workers ≡ 0
    → Less s (worker_ends s)
unfolding worker_ends
idle-Less s [] c h z = record {
  closed_still = ground (arith, c, h);
  fewer = ground (arith, c, h);
  less = λ l. absurd (omega arith);
}
idle-Less s (e ∷ es) c h z = record {
  closed_still = ground (arith, c, h);
  fewer = ground (arith, c, h);
  less = λ l. absurd (omega arith);
}

round-Less : (s : Engine) → s.is_closed ≡ true → Less s (worker_ends (worker_takes s))
unfolding worker_takes
round-Less s c = elim (Bool-cases (s.workers == 0)) [
  | inl z ↦ simp (z) (idle-Less s s.events c refl (ground (arith, z)))
  | inr z ↦ simp (z) (take_event-Less s s.events c refl)
]

done_still :
    (k : ℕ) (s : Engine) → s.is_closed ≡ true → s.workers ≡ 0 → has_shut_down (work k s) ≡ true
unfolding work has_shut_down
done_still zero s c z = ground (arith, c, z)
done_still (suc k) s c z =
    let less = round-Less s c in
    done_still k (worker_ends (worker_takes s)) less.closed_still (omega (arith, less.fewer, z))

-- Once the channel of events is closed, the shutdown returns after at most as many rounds of the
-- workers as there are events and workers left.
pub work_ends :
    (k : ℕ) (s : Engine) → s.is_closed ≡ true → rounds_left s ≤ k → has_shut_down (work k s) ≡ true
unfolding work
work_ends zero s c h = done_still zero s c (omega (arith, h))
work_ends (suc k) s c h =
    let less = round-Less s c in
    elim (zero_or_pos s.workers) [
      | inl z ↦ done_still (suc k) s c z
      | inr l ↦
          work_ends k (worker_ends (worker_takes s)) less.closed_still
            (omega (arith, less.less l, h))
    ]
  where
    zero_or_pos : (n : ℕ) → (n ≡ 0) ⊎ (0 < n)
    zero_or_pos zero = inl refl
    zero_or_pos (suc n) = inr (omega arith)
