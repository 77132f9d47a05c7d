-- ===== src/Ratelimit/Bound.antt =====
-- `check_and_record` decides as the ideal limiter does, which keeps every window under the limit.
use onto_ontological_context.Prelude.{
  ℕ, ◌≤◌, ◌<◌, ◌≡◌, refl, ◌∙◌, ap, sym, ◌⊎◌, inl, inr, true, false, List, [], ◌∷◌, ◌++◌, arith,
  length, select, ◌==◌, if◌then◌else◌, Bool-cases,
}
use onto_ontological_context.Ratelimit.{Verdict, allowed, refused, evict, verdict, check_and_record}
use onto_ontological_context.Ratelimit.Spec.{
  Ascending, recent, ideal_allows, ideal_run, is_allowed, run, within, Tracks, evict_lem,
  verdict_lem, Tracks-evict, Tracks-record_input, length-select-append, length-select_mono,
}

Verdict-cases : (v : Verdict) → (v ≡ allowed) ⊎ ((wait : ℕ) × (v ≡ refused wait))
Verdict-cases allowed = inl refl
Verdict-cases (refused wait) = inr (wait, refl)

module _ (limit window : ℕ) where
  unlimited :
      (now : ℕ) (ts : List ℕ) → limit ≡ 0 → check_and_record limit window now ts ≡ (allowed, ts)
  unfolding check_and_record
  unlimited now ts e = ground arith

  verdict-ideal_allows :
      (last now : ℕ) (accepted ts : List ℕ)
      → 0 < limit
      → last ≤ now
      → Tracks limit window last accepted ts
      → is_allowed limit window (verdict limit window now (evict window now ts))
        ≡ ideal_allows limit window now accepted
  verdict-ideal_allows last now accepted ts pos le inv = ground (
    arith,
    verdict_lem limit window now (evict window now ts) pos,
    ap length (evict_lem limit window now inv.low ts last inv.ascending),
    inv.counts now le,
  )

  check_and_record-verdict :
      (now : ℕ) (ts : List ℕ)
      → 0 < limit
      → (check_and_record limit window now ts).0 ≡ verdict limit window now (evict window now ts)
  unfolding check_and_record
  check_and_record-verdict now ts pos =
      let some_limit : (limit == 0) ≡ false = ground arith in
      elim (Verdict-cases (verdict limit window now (evict window now ts))) [
        | inl e ↦ rw (some_limit, e)
        | inr (wait, e) ↦ rw (some_limit, e)
      ]

  -- After one call the deque goes on tracking.
  Tracks-check_and_record :
      (last now : ℕ) (accepted ts : List ℕ)
      → 0 < limit
      → last ≤ now
      → Tracks limit window last accepted ts
      → Tracks limit window now
          (if is_allowed limit window (check_and_record limit window now ts).0
            then accepted ++ now ∷ []
            else accepted)
          (check_and_record limit window now ts).1
  unfolding check_and_record
  Tracks-check_and_record last now accepted ts pos le inv =
      let kept = Tracks-evict limit window last now accepted ts le inv in
      let some_limit : (limit == 0) ≡ false = ground arith in
      elim (Verdict-cases (verdict limit window now (evict window now ts))) [
        | inl e ↦
            rw (some_limit, e)
              (Tracks-record_input limit window now accepted (evict window now ts) kept)
        | inr (wait, e) ↦ rw (some_limit, e) kept
      ]

  run_tracking :
      (last : ℕ) (calls : List ℕ) (end : ℕ) (accepted ts : List ℕ)
      → 0 < limit
      → Ascending last calls end
      → Tracks limit window last accepted ts
      → run limit window ts accepted calls ≡ ideal_run limit window accepted calls
  run_tracking last [] end accepted ts pos up inv = refl
  run_tracking last (now ∷ calls) end accepted ts pos up inv =
      run_tracking now calls end _ (check_and_record limit window now ts).1 pos up.1
        (Tracks-check_and_record last now accepted ts pos up.0 inv)
      ∙ ap (λ b. ideal_run limit window (if b then accepted ++ now ∷ [] else accepted) calls)
          (ap (is_allowed limit window) (check_and_record-verdict now ts pos)
            ∙ verdict-ideal_allows last now accepted ts pos up.0 inv)

  run_unlimited :
      (calls accepted ts : List ℕ)
      → limit ≡ 0
      → run limit window ts accepted calls ≡ ideal_run limit window accepted calls
  run_unlimited [] accepted ts e = refl
  run_unlimited (now ∷ calls) accepted ts e =
      let all : ideal_allows limit window now accepted ≡ true = ground arith in
      ap
        (λ (r : Verdict × List ℕ).
          run limit window r.1
            (if is_allowed limit window r.0 then accepted ++ now ∷ [] else accepted) calls)
        (unlimited now ts e)
      ∙ run_unlimited calls (accepted ++ now ∷ []) ts e
      ∙ ap (λ b. ideal_run limit window (if b then accepted ++ now ∷ [] else accepted) calls)
          (sym all)

  -- Called at times that do not fall, `check_and_record` accepts exactly what the ideal limiter
  -- accepts: a call for which fewer accepted calls than the limit lie within the window before it,
  -- or any call if the limit is 0.
  pub run-ideal_run :
      (calls : List ℕ) (end : ℕ)
      → Ascending 0 calls end
      → run limit window [] [] calls ≡ ideal_run limit window [] calls
  run-ideal_run calls end up = elim (Bool-cases (limit == 0)) [
    | inl e ↦ run_unlimited calls [] [] (ground arith)
    | inr e ↦
        run_tracking 0 calls end [] [] (ground arith) up
          (record { low = 0; ascending = omega arith; counts = λ now le. refl })
  ]

  ideal_run-within :
      (t : ℕ) (calls accepted : List ℕ)
      → 0 < limit
      → length (select (within limit window t) accepted) ≤ limit
      → length (select (within limit window t) (ideal_run limit window accepted calls)) ≤ limit
  ideal_run-within t [] accepted pos h = h
  ideal_run-within t (now ∷ calls) accepted pos h =
      ideal_run-within t calls _ pos (elim (Bool-cases (within limit window t now)) [
        | inl inside ↦ ground (
          arith,
          length-select-append (within limit window t) accepted now,
          length-select_mono (within limit window t) (recent limit window now) accepted
              (λ x e. ground arith),
        )
        | inr outside ↦ ground (arith, length-select-append (within limit window t) accepted now)
      ])

  -- Whatever the calls, if their times do not fall, no stretch of one window length, wherever it
  -- starts, contains more accepted calls than a limit above 0.
  pub run-within :
      (calls : List ℕ) (end t : ℕ)
      → 0 < limit
      → Ascending 0 calls end
      → length (select (within limit window t) (run limit window [] [] calls)) ≤ limit
  run-within calls end t pos up =
      rw (run-ideal_run calls end up) (ideal_run-within t calls [] pos (omega arith))
