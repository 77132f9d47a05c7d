-- ===== src/Consent/Covered.antt =====
-- What stands behind a positive answer of the ledger.
use onto_ontological_context.Prelude.{
  ℕ, ◌-◌, ◌*◌, ◌<◌, ◌≤◌, ◌≡◌, ◌⊎◌, refl, sym, ap, ◌∙◌, inl, inr, Bool, true, false, not, ◌&&◌, ◌||◌,
  Option, none, some, List, [], ◌∷◌, ◌++◌, eq_iff, ltb→lt, arith, select, any_of, all_of, ltb, leb,
  str_eq, Bool-cases,
}
use onto_ontological_context.Prelude.Texts.{member}
use onto_ontological_context.Ratelimit.{second}
use onto_ontological_context.Consent.Ledger.{
  ConsentRecord, Ledger, Profile, Request, is_some, is_unexpired, is_overdue, is_match, best,
  newest, find_active, needs_reconfirmation, check_record, check,
}

all-weaken :
    (p q : ConsentRecord → Bool) (rs : List ConsentRecord)
    → ((r : ConsentRecord) → p r ≡ true → q r ≡ true)
    → all_of p rs ≡ true
    → all_of q rs ≡ true
all-weaken p q [] h all = refl
all-weaken p q (r ∷ rs) h all = ground (arith, h r, all-weaken p q rs h)

best-later :
    (r s : ConsentRecord) (ss : List ConsentRecord)
    → ltb r.granted_at (best s ss).granted_at ≡ true
    → best r (s ∷ ss) ≡ best s ss
unfolding best
best-later r s ss e = rw e refl

best-here :
    (r s : ConsentRecord) (ss : List ConsentRecord)
    → ltb r.granted_at (best s ss).granted_at ≡ false
    → best r (s ∷ ss) ≡ r
unfolding best
best-here r s ss e = rw e refl

best-alone : (r : ConsentRecord) → best r [] ≡ r
unfolding best
best-alone r = refl

best-greatest :
    (r : ConsentRecord) (rs : List ConsentRecord)
    → all_of (λ (s : ConsentRecord). leb s.granted_at (best r rs).granted_at) (r ∷ rs) ≡ true
best-greatest r [] = rw (best-alone r) (ground arith)
best-greatest r (s ∷ ss) = elim (Bool-cases (ltb r.granted_at (best s ss).granted_at)) [
  | inl e ↦
      let below : all_of (λ (t : ConsentRecord). leb t.granted_at (best s ss).granted_at)
            (r ∷ s ∷ ss)
          ≡ true =
        ground (arith, best-greatest s ss, e) in
      ap
        (λ (b : ConsentRecord).
          all_of (λ (t : ConsentRecord). leb t.granted_at b.granted_at) (r ∷ s ∷ ss))
        (best-later r s ss e)
      ∙ below
  | inr e ↦
      let below =
        all-weaken (λ (t : ConsentRecord). leb t.granted_at (best s ss).granted_at)
          (λ (t : ConsentRecord). leb t.granted_at r.granted_at) (s ∷ ss) (λ t h. ground (arith, e))
          (best-greatest s ss) in
      let greatest : all_of (λ (t : ConsentRecord). leb t.granted_at r.granted_at) (r ∷ s ∷ ss)
          ≡ true =
        ground (arith, below) in
      ap
        (λ (b : ConsentRecord).
          all_of (λ (t : ConsentRecord). leb t.granted_at b.granted_at) (r ∷ s ∷ ss))
        (best-here r s ss e)
      ∙ greatest
]

best-any :
    (p : ConsentRecord → Bool) (r : ConsentRecord) (rs : List ConsentRecord)
    → p (best r rs) ≡ true
    → any_of p (r ∷ rs) ≡ true
best-any p r [] h = let there : p r ≡ true = ap p (sym (best-alone r)) ∙ h in rw there refl
best-any p r (s ∷ ss) h = elim (Bool-cases (ltb r.granted_at (best s ss).granted_at)) [
  | inl e ↦
      let there : p (best s ss) ≡ true = ap p (sym (best-later r s ss e)) ∙ h in
      ground (arith, best-any p s ss there)
  | inr e ↦ let there : p r ≡ true = ap p (sym (best-here r s ss e)) ∙ h in rw there refl
]

select_any :
    (p q : ConsentRecord → Bool) (rs : List ConsentRecord)
    → any_of p (select q rs) ≡ true
    → any_of (λ r. p r && q r) rs ≡ true
select_any p q [] h = h
select_any p q (r ∷ rs) h = ground (arith, select_any p q rs)

select_all :
    (p q : ConsentRecord → Bool) (rs : List ConsentRecord)
    → all_of p (select q rs) ≡ true
    → all_of (λ r. not (q r) || p r) rs ≡ true
select_all p q [] h = refl
select_all p q (r ∷ rs) h = ground (arith, select_all p q rs)

-- A record lets a request pass: it is confirmed, and has the operation and the classification.
abbrev is_sufficient : Profile → ℕ → Request → ConsentRecord → Bool
is_sufficient p now q r =
    not (needs_reconfirmation now p.reconfirm_days r)
    && member q.operation r.operations
    && leb q.classification r.classification_max

-- A record is for a request, lets it pass, and no other record for the request is newer.
abbrev is_covering : Profile → ℕ → Request → Ledger → ConsentRecord → Bool
is_covering p now q l r =
    (is_sufficient p now q r
      && all_of (λ (s : ConsentRecord). not (is_match now q s) || leb s.granted_at r.granted_at)
          l.records)
    && is_match now q r

check_record-sufficient :
    (p : Profile) (now : ℕ) (q : Request) (r : ConsentRecord)
    → (check_record p now q (some r)).allowed ≡ is_sufficient p now q r
unfolding check_record
check_record-sufficient p now q r = ground arith

found-covering :
    (p : Profile) (now : ℕ) (q : Request) (l : Ledger) (matches : List ConsentRecord)
    → select (is_match now q) l.records ≡ matches
    → (check_record p now q (newest matches)).allowed ≡ true
    → any_of (is_covering p now q l) l.records ≡ true
unfolding check_record
found-covering p now q l [] same h = ground arith
found-covering p now q l (r ∷ rs) same h =
    let b = best r rs in
    let suff : is_sufficient p now q b ≡ true = sym (check_record-sufficient p now q b) ∙ h in
    let greatest : all_of (λ (s : ConsentRecord). leb s.granted_at b.granted_at)
          (select (is_match now q) l.records)
        ≡ true =
      rw same (best-greatest r rs) in
    let newest_one =
      select_all (λ (s : ConsentRecord). leb s.granted_at b.granted_at) (is_match now q) l.records
        greatest in
    let covers = λ (t : ConsentRecord).
      is_sufficient p now q t
      && all_of (λ (s : ConsentRecord). not (is_match now q s) || leb s.granted_at t.granted_at)
          l.records in
    let some_match : any_of covers (select (is_match now q) l.records) ≡ true =
      rw same (best-any covers r rs (rw suff newest_one)) in
    select_any covers (is_match now q) l.records some_match

-- A record is active at a time, for the two parties and the purpose of a request.
pub record InForce (now : ℕ) (q : Request) (r : ConsentRecord) : Type 0 where
  pub subject_id : r.subject_id ≡ q.subject_id
  pub requester_id : r.requester_id ≡ q.requester_id
  pub purpose : r.purpose ≡ q.purpose
  pub status : r.status ≡ "active"
  pub revoked_at : r.revoked_at ≡ none
  pub valid_until : (r.valid_until ≡ none) ⊎ ((t : ℕ) × (r.valid_until ≡ some t) × (now < t))

-- A record ends at a time, or was confirmed less than the days of the profile ago.
abbrev pub Confirmed : ℕ → ℕ → ConsentRecord → Type 0
Confirmed now days r =
    ((t : ℕ) × (r.valid_until ≡ some t))
    ⊎ ((last : ℕ) × (r.last_reconfirmed ≡ some last) × (now - last < days * 86400 * second))

until_cases :
    (now : ℕ) (o : Option ℕ)
    → is_unexpired now o ≡ true
    → (o ≡ none) ⊎ ((t : ℕ) × (o ≡ some t) × (now < t))
until_cases now none h = inl refl
until_cases now (some t) h = inr (t, refl, omega (arith, ltb→lt now t h))

not_revoked : (o : Option ℕ) → not (is_some o) ≡ true → o ≡ none
not_revoked none h = refl
not_revoked (some t) h = absurd (ground arith)

is_match-InForce :
    (now : ℕ) (q : Request) (r : ConsentRecord) → is_match now q r ≡ true → InForce now q r
unfolding is_match
is_match-InForce now q r h = record {
  subject_id = ground (arith, eq_iff r.subject_id q.subject_id);
  requester_id = ground (arith, eq_iff r.requester_id q.requester_id);
  purpose = ground (arith, eq_iff r.purpose q.purpose);
  status = ground (arith, eq_iff r.status "active");
  revoked_at = not_revoked r.revoked_at (ground arith);
  valid_until = until_cases now r.valid_until (ground arith);
}

recent :
    (now days : ℕ) (until last : Option ℕ)
    → (not (is_some until) && is_overdue now days last) ≡ false
    → ((t : ℕ) × (until ≡ some t)) ⊎ ((l : ℕ) × (last ≡ some l) × (now - l < days * 86400 * second))
recent now days (some t) last h = inl (t, refl)
recent now days none none h = absurd (ground arith)
recent now days none (some l) h = inr (l, refl, ground (arith, h))

needs_reconfirmation-Confirmed :
    (now days : ℕ) (r : ConsentRecord)
    → r.status ≡ "active"
    → needs_reconfirmation now days r ≡ false
    → Confirmed now days r
unfolding needs_reconfirmation
needs_reconfirmation-Confirmed now days r active h =
    recent now days r.valid_until r.last_reconfirmed
      (ground (arith, h, (eq_iff r.status "active").1 active))

any_of_split :
    (p : ConsentRecord → Bool) (rs : List ConsentRecord)
    → any_of p rs ≡ true
    → (pre : List ConsentRecord) × (r : ConsentRecord) × (post : List ConsentRecord) × (rs
        ≡ pre ++ r ∷ post)
      × (p r ≡ true)
any_of_split p [] h = absurd (ground arith)
any_of_split p (r ∷ rs) h = elim (Bool-cases (p r)) [
  | inl e ↦ ([], r, rs, refl, e)
  | inr e ↦
      let (pre, s, post, same, k) = any_of_split p rs (ground arith) in
      (r ∷ pre, s, post, ap (◌∷◌ r) same, k)
]

-- A record lets a request pass: it is in force and confirmed, has the operation and reaches the
-- classification, and no record that the query of the ledger finds was granted later.
abbrev pub Covers : Profile → ℕ → Request → Ledger → ConsentRecord → Type 0
Covers p now q l r =
    InForce now q r
    × Confirmed now p.reconfirm_days r
    × (member q.operation r.operations ≡ true)
    × (q.classification ≤ r.classification_max)
    × (all_of (λ (s : ConsentRecord). not (is_match now q s) || leb s.granted_at r.granted_at)
          l.records
        ≡ true)

is_covering-Covers :
    (p : Profile) (now : ℕ) (q : Request) (l : Ledger) (r : ConsentRecord)
    → is_covering p now q l r ≡ true
    → Covers p now q l r
is_covering-Covers p now q l r h =
    let force = is_match-InForce now q r (ground (arith, h)) in
    (
      force,
      needs_reconfirmation-Confirmed now p.reconfirm_days r force.status (ground (arith, h)),
      ground (arith, h),
      ground (arith, h),
      ground (arith, h),
    )

-- Between two parties, under a profile that asks for consent, the ledger allows a request only if it
-- holds a record for these parties and the purpose that is active, not revoked and not past its end,
-- that has an end or was confirmed within the days of the profile, that names the operation and
-- reaches the classification; and of the records in force for it this is a newest.
pub check-covering :
    (p : Profile) (now : ℕ) (q : Request) (l : Ledger)
    → str_eq q.subject_id q.requester_id ≡ false
    → p.glba_opt_out_model ≡ false
    → (check p now q l).allowed ≡ true
    → (pre : List ConsentRecord) × (r : ConsentRecord) × (post : List ConsentRecord) × (l.records
        ≡ pre ++ r ∷ post)
      × Covers p now q l r
unfolding check find_active
check-covering p now q l other model allowed =
    let (pre, r, post, same, covering) = any_of_split (is_covering p now q l) l.records (
      found-covering p now q l (select (is_match now q) l.records) refl
        (ground (arith, allowed))) in
    (pre, r, post, same, is_covering-Covers p now q l r covering)
