-- ===== src/Ratelimit/Spec.antt =====
-- The limiter against an ideal one that forgets no time, and the bound on what a window accepts.
use onto_ontological_context.Prelude.{
  ℕ, ◌+◌, ◌*◌, ◌≤◌, ◌<◌, ◌≡◌, refl, ◌∙◌, ap, sym, inl, inr, Bool, true, false, ◌&&◌, ◌||◌, List, [],
  ◌∷◌, ◌++◌, arith, length, select, ltb, leb, ◌==◌, if◌then◌else◌, Bool-cases,
}
use onto_ontological_context.Ratelimit.{
  Verdict, allowed, refused, second, evict, record_input, verdict, check_and_record,
}

-- The times rise from the first bound to the last.
abbrev pub Ascending : ℕ → List ℕ → ℕ → Type 0
Ascending low [] high = low ≤ high
Ascending low (t ∷ ts) high = (low ≤ t) × Ascending t ts high

pub Ascending-le : (low : ℕ) (ts : List ℕ) (high : ℕ) → Ascending low ts high → low ≤ high
Ascending-le low [] high h = h
Ascending-le low (t ∷ ts) high h = omega (arith, h.0, Ascending-le t ts high h.1)

Ascending-weaken :
    (low low' : ℕ) (ts : List ℕ) (high : ℕ)
    → low' ≤ low
    → Ascending low ts high
    → Ascending low' ts high
Ascending-weaken low low' [] high le h = omega arith
Ascending-weaken low low' (t ∷ ts) high le h = (omega (arith, h.0), h.1)

Ascending-append :
    (low : ℕ) (ts : List ℕ) (high now : ℕ)
    → Ascending low ts high
    → high ≤ now
    → Ascending low (ts ++ now ∷ []) now
Ascending-append low [] high now h le = (omega arith, omega arith)
Ascending-append low (t ∷ ts) high now h le = (h.0, Ascending-append t ts high now h.1 le)

pub length-select-append :
    (p : ℕ → Bool) (xs : List ℕ) (x : ℕ)
    → length (select p (xs ++ x ∷ [])) ≡ length (select p xs) + (if p x then 1 else 0)
length-select-append p [] x = ground arith
length-select-append p (y ∷ xs) x = ground (arith, length-select-append p xs x)

-- A test that implies another selects no more.
pub length-select_mono :
    (p q : ℕ → Bool) (xs : List ℕ)
    → ((x : ℕ) → p x ≡ true → q x ≡ true)
    → length (select p xs) ≤ length (select q xs)
length-select_mono p q [] h = omega arith
length-select_mono p q (x ∷ xs) h = ground (arith, h x, length-select_mono p q xs h)

module _ (limit window : ℕ) where
  -- An acceptance at this time still counts.
  abbrev pub recent : ℕ → ℕ → Bool
  recent now a = leb now (a + window * second)

  -- The ideal limiter lets a call in when fewer acceptances than the limit still count.
  abbrev pub ideal_allows : ℕ → List ℕ → Bool
  ideal_allows now accepted = (limit == 0) || ltb (length (select (recent now) accepted)) limit

  -- The accepted calls among those at the given times, after the ones accepted before.
  abbrev pub ideal_run : List ℕ → List ℕ → List ℕ
  ideal_run accepted [] = accepted
  ideal_run accepted (now ∷ calls) =
      ideal_run (if ideal_allows now accepted then accepted ++ now ∷ [] else accepted) calls

  abbrev pub is_allowed : Verdict → Bool
  is_allowed allowed = true
  is_allowed (refused wait) = false

  abbrev pub run : List ℕ → List ℕ → List ℕ → List ℕ
  run timestamps accepted [] = accepted
  run timestamps accepted (now ∷ calls) =
      run (check_and_record limit window now timestamps).1
        (if is_allowed (check_and_record limit window now timestamps).0
          then accepted ++ now ∷ []
          else accepted)
        calls

  -- The times from `t` on that one window covers.
  abbrev pub within : ℕ → ℕ → Bool
  within t a = leb t a && leb a (t + window * second)

  all_recent :
      (now t : ℕ) (ts : List ℕ) (high : ℕ)
      → Ascending t ts high
      → now ≤ t + window * second
      → select (recent now) ts ≡ ts
  all_recent now t [] high h le = refl
  all_recent now t (u ∷ ts) high h le = ground (arith, h.0, all_recent now u ts high h.1)

  pub evict_lem :
      (now low : ℕ) (ts : List ℕ) (high : ℕ)
      → Ascending low ts high
      → evict window now ts ≡ select (recent now) ts
  unfolding evict
  evict_lem now low [] high h = refl
  evict_lem now low (t ∷ ts) high h =
      ground (arith, evict_lem now t ts high h.1, all_recent now t ts high h.1)

  pub Ascending-evict :
      (now low : ℕ) (ts : List ℕ) (high : ℕ)
      → Ascending low ts high
      → Ascending low (evict window now ts) high
  unfolding evict
  Ascending-evict now low [] high h = h
  Ascending-evict now low (t ∷ ts) high h = elim (Bool-cases (ltb (t + window * second) now)) [
    | inl old ↦
        rw old (
          Ascending-weaken t low (evict window now ts) high h.0 (Ascending-evict now t ts high h.1))
    | inr young ↦ rw young h
  ]

  select_twice :
      (now later : ℕ) (ts : List ℕ)
      → now ≤ later
      → select (recent later) (select (recent now) ts) ≡ select (recent later) ts
  select_twice now later [] le = refl
  select_twice now later (t ∷ ts) le = ground (arith, select_twice now later ts le)

  -- The deque holds, in order, all acceptances that will still count.
  pub record Tracks (last : ℕ) (accepted timestamps : List ℕ) : Type 0 where
    pub low : ℕ
    pub ascending : Ascending low timestamps last
    pub counts :
        (now : ℕ)
        → last ≤ now
        → length (select (recent now) accepted) ≡ length (select (recent now) timestamps)

  pub verdict_lem :
      (now : ℕ) (kept : List ℕ)
      → 0 < limit
      → is_allowed (verdict limit window now kept) ≡ ltb (length kept) limit
  unfolding verdict
  verdict_lem now [] h = ground arith
  verdict_lem now (t ∷ ts) h = ground arith

  pub Tracks-evict :
      (last now : ℕ) (accepted ts : List ℕ)
      → last ≤ now
      → Tracks last accepted ts
      → Tracks now accepted (evict window now ts)
  Tracks-evict last now accepted ts le inv = record {
    low = inv.low;
    ascending =
        raised inv.low (evict window now ts) (Ascending-evict now inv.low ts last inv.ascending);
    counts = λ later le'.
        inv.counts later (omega arith)
        ∙ ap length (
            sym (select_twice now later ts le')
            ∙ ap (select (recent later)) (sym (evict_lem now inv.low ts last inv.ascending)));
  }
    where
      raised : (low : ℕ) (xs : List ℕ) → Ascending low xs last → Ascending low xs now
      raised low [] h = omega arith
      raised low (x ∷ xs) h = (h.0, raised x xs h.1)

  pub Tracks-record_input :
      (now : ℕ) (accepted ts : List ℕ)
      → Tracks now accepted ts
      → Tracks now (accepted ++ now ∷ []) (record_input now ts)
  unfolding record_input
  Tracks-record_input now accepted ts inv = record {
    low = inv.low;
    ascending = Ascending-append inv.low ts now now inv.ascending (omega arith);
    counts = λ later le. omega (
      arith,
      inv.counts later le,
      length-select-append (recent later) accepted now,
      length-select-append (recent later) ts now,
    );
  }
