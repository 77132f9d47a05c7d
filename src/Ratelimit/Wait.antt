-- ===== src/Ratelimit/Wait.antt =====
-- The waiting time that a refusal names.
use onto_ontological_context.Prelude.{
  ℕ, ◌+◌, ◌-◌, ◌*◌, ◌≤◌, ◌<◌, ◌≡◌, refl, ◌≢◌, inl, inr, List, [], ◌∷◌, arith, length, ltb, ◌==◌,
  Bool-cases,
}
use onto_ontological_context.Ratelimit.{
  allowed, refused, second, evict, wait_seconds, verdict, check,
}
use onto_ontological_context.Ratelimit.Spec.{Ascending, Ascending-le, Ascending-evict}

module _ (limit window : ℕ) where
  -- The oldest time is within the window.
  abbrev IsFresh : ℕ → List ℕ → Type 0
  IsFresh now [] = Unit
  IsFresh now (t ∷ ts) = now ≤ t + window * second

  evict-IsFresh : (now : ℕ) (ts : List ℕ) → IsFresh now (evict window now ts)
  unfolding evict
  evict-IsFresh now [] = tt
  evict-IsFresh now (t ∷ ts) = elim (Bool-cases (ltb (t + window * second) now)) [
    | inl old ↦ rw old (evict-IsFresh now ts)
    | inr young ↦ rw young (ground arith)
  ]

  length-evict-le : (now : ℕ) (ts : List ℕ) → length (evict window now ts) ≤ length ts
  unfolding evict
  length-evict-le now [] = omega arith
  length-evict-le now (t ∷ ts) = ground (arith, length-evict-le now ts)

  evict_gone :
      (now t : ℕ) (ts : List ℕ)
      → t + window * second < now
      → evict window now (t ∷ ts) ≡ evict window now ts
  unfolding evict
  evict_gone now t ts h = ground arith

  evict_kept :
      (now t : ℕ) (ts : List ℕ) → now ≤ t + window * second → evict window now (t ∷ ts) ≡ t ∷ ts
  unfolding evict
  evict_kept now t ts h = ground arith

  allowed_of_room :
      (now : ℕ) (ts : List ℕ) → length ts < limit → verdict limit window now ts ≡ allowed
  unfolding verdict
  allowed_of_room now [] h = refl
  allowed_of_room now (t ∷ ts) h = ground arith

  never_refused : (now wait : ℕ) → verdict limit window now [] ≢ refused wait
  unfolding verdict
  never_refused now wait h = cc

  full_of_refused :
      (now wait t : ℕ) (ts : List ℕ)
      → verdict limit window now (t ∷ ts) ≡ refused wait
      → (limit ≤ length (t ∷ ts)) × (wait ≡ wait_seconds window now t)
  unfolding verdict
  full_of_refused now wait t ts h = ground arith

  refused_of_full :
      (now t : ℕ) (ts : List ℕ)
      → limit ≤ length (t ∷ ts)
      → verdict limit window now (t ∷ ts) ≢ allowed
  unfolding verdict
  refused_of_full now t ts h = ground arith

  wait_seconds_lem :
      (now t wait : ℕ)
      → t ≤ now
      → now ≤ t + window * second
      → wait ≡ wait_seconds window now t
      → (t + window * second < now + wait * second)
        × (now + (wait - 1) * second ≤ t + window * second)
  unfolding wait_seconds
  wait_seconds_lem now t wait past fresh e = (omega arith, omega arith)

  kept-wait :
      (now wait : ℕ) (kept : List ℕ)
      → length kept ≤ limit
      → Ascending 0 kept now
      → IsFresh now kept
      → verdict limit window now kept ≡ refused wait
      → (verdict limit window (now + wait * second) (evict window (now + wait * second) kept)
          ≡ allowed)
        × (verdict limit window
              (now + (wait - 1) * second)
              (evict window (now + (wait - 1) * second) kept)
            ≢ allowed)
  kept-wait now wait [] room up fresh h = absurd (never_refused now wait h)
  kept-wait now wait (t ∷ ts) room up fresh h =
      let (full, e) = full_of_refused now wait t ts h in
      let (over, before) = wait_seconds_lem now t wait (Ascending-le t ts now up.1) fresh e in
      (
        allowed_of_room (now + wait * second) _ (
            rw (evict_gone (now + wait * second) t ts over)
              (omega (arith, length-evict-le (now + wait * second) ts))),
        rw (evict_kept (now + (wait - 1) * second) t ts before) (refused_of_full _ t ts full),
      )

  -- A refusal names a time that is enough and hardly more: a check after that many seconds passes if
  -- nothing is recorded in between, and one a second earlier does not. The deque holds at most `limit`
  -- times, in order and none in the future.
  check-wait :
      (now wait : ℕ) (ts : List ℕ)
      → length ts ≤ limit
      → Ascending 0 ts now
      → (check limit window now ts).0 ≡ refused wait
      → ((check limit window (now + wait * second) (check limit window now ts).1).0 ≡ allowed)
        × ((check limit window (now + (wait - 1) * second) (check limit window now ts).1).0
            ≢ allowed)
  unfolding check
  check-wait now wait ts room up h = elim (Bool-cases (limit == 0)) [
    | inl none ↦ ground arith
    | inr some ↦ rw some (
        kept-wait now wait (evict window now ts) (omega (arith, length-evict-le now ts))
          (Ascending-evict limit window now 0 ts now up) (evict-IsFresh now ts) (rw some at h))
  ]
