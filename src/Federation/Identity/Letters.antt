-- ===== src/Federation/Identity/Letters.antt =====
-- The alphabet of api/federation/node_identity.py: digits as characters, and back.
use mathlib.Core.Path.{subst}
use mathlib.Core.List.{reverse_aux, append_assoc, append-nil}
use onto_ontological_context.Prelude.{
  ℕ, zero, suc, ◌+◌, ◌*◌, ◌/◌, ◌%◌, ◌<◌, ◌≡◌, refl, ap, sym, inl, inr, Bool-cases, Option-cases,
  ◌∙◌, Bool, true, false, ◌&&◌, none, some, List, [], ◌∷◌, ◌++◌, All, length, arith, ◌==◌, ==_iff,
}
use onto_ontological_context.Federation.Identity.{
  b58_alphabet, character_at, index_of, encode_loop, decode_loop,
}
use onto_ontological_context.Federation.Identity.Digits.{value, low_digits}

abbrev is_zero_at : Bool → Bool → Bool
is_zero_at true b = b
is_zero_at false true = false
is_zero_at false false = true

-- A character stands at one place of the alphabet, and at the first exactly if it is '1'.
abbrev found_at : ℕ → List ℕ → Bool
found_at d [] = false
found_at d (c ∷ e ∷ cs) = false
found_at d (c ∷ []) =
    elim (index_of c b58_alphabet) [ none ↦ false | some i ↦ i == d ]
    && is_zero_at (c == b'1') (d == 0)

table : ℕ → Bool
unfolding character_at index_of
table zero = true
table (suc d) = found_at d (character_at b58_alphabet d) && table d

table_58 : table 58 ≡ true
unfolding table
table_58 = refl

both : (a b : Bool) → (a && b) ≡ true → (a ≡ true) × (b ≡ true)
both true b h = (refl, h)
both false b h = cc

lt_of_suc : (d n : ℕ) → d < suc n → (d == n) ≡ false → d < n
lt_of_suc d n lt h = ground arith

table-found_at :
    (n d : ℕ) → table n ≡ true → d < n → found_at d (character_at b58_alphabet d) ≡ true
unfolding table
table-found_at zero d h lt = absurd (omega arith)
table-found_at (suc n) d h lt =
    let (now, before) = both (found_at n (character_at b58_alphabet n)) (table n) h in
    elim (Bool-cases (d == n)) [
      | inl same ↦
          subst (λ (k : ℕ). found_at k (character_at b58_alphabet k) ≡ true)
            (sym ((==_iff d n).0 same)) now
      | inr other ↦ table-found_at n d before (lt_of_suc d n lt other)
    ]

read-found_at :
    (d : ℕ) (cs : List ℕ)
    → found_at d cs ≡ true
    → (c : ℕ) × (cs ≡ c ∷ []) × (index_of c b58_alphabet ≡ some d) × ((c == b'1') ≡ (d == 0))
read-found_at d [] h = cc
read-found_at d (c ∷ e ∷ cs) h = cc
read-found_at d (c ∷ []) h = (c, refl, ground arith, ground arith)

-- The character of a digit.
pub letter :
    (d : ℕ)
    → d < 58
    → (c : ℕ) × (character_at b58_alphabet d ≡ c ∷ [])
      × (index_of c b58_alphabet ≡ some d)
      × ((c == b'1') ≡ (d == 0))
letter d h = read-found_at d (character_at b58_alphabet d) (table-found_at 58 d table_58 h)

-- What is found at a place stands there.
character_at-index_of :
    (c i : ℕ) (cs : List ℕ)
    → index_of c cs ≡ some i
    → (i < length cs) × (character_at cs i ≡ c ∷ [])
unfolding index_of character_at
character_at-index_of c i [] h = cc
character_at-index_of c zero (a ∷ cs) h = ground (arith, ==_iff a c)
character_at-index_of c (suc i) (a ∷ cs) h =
    ground (arith, ==_iff a c, character_at-index_of c i cs)

-- digits as text
unfoldable pub spell : List ℕ → List ℕ
spell [] = []
spell (d ∷ ds) = character_at b58_alphabet d ++ spell ds

abbrev pub IsDigits : List ℕ → Type 0
IsDigits ds = All (λ d. d < 58) ds

pub reverse_aux-spell :
    (ds es : List ℕ) → IsDigits ds → reverse_aux (spell ds) (spell es) ≡ spell (reverse_aux ds es)
unfolding spell
reverse_aux-spell [] es h = refl
reverse_aux-spell (d ∷ ds) es (small, h) =
    let (c, at, _, _) = letter d small in
    rw at
      (ap (λ l. reverse_aux (spell ds) (l ++ spell es)) (sym at) ∙ reverse_aux-spell ds (d ∷ es) h)

-- The loop of `_b58_encode` appends the digits, the lowest first.
pub encode_loop_lem :
    (fuel n : ℕ) (result : List ℕ)
    → encode_loop fuel n result ≡ result ++ spell (low_digits 58 fuel n)
unfolding encode_loop spell low_digits
encode_loop_lem zero n result = sym (append-nil result)
encode_loop_lem (suc fuel) zero result = sym (append-nil result)
encode_loop_lem (suc fuel) (suc n) result =
    let d : List ℕ = character_at b58_alphabet (suc n % 58) in
    ground (
      arith,
      encode_loop_lem fuel (suc n / 58) (result ++ d),
      append_assoc result d (spell (low_digits 58 fuel (suc n / 58))),
    )

-- The loop of `_b58_decode` reads what digits spell, and nothing else.
pub decode_loop-spell :
    (n : ℕ) (ds : List ℕ) → IsDigits ds → decode_loop n (spell ds) ≡ some (value 58 n ds)
unfolding decode_loop spell value
decode_loop-spell n [] h = refl
decode_loop-spell n (d ∷ ds) (small, h) =
    let (c, at, found, _) = letter d small in
    rw at (ground (arith, found, decode_loop-spell (n * 58 + d) ds h))

pub decode_loop_sound :
    (n m : ℕ) (cs : List ℕ)
    → decode_loop n cs ≡ some m
    → (ds : List ℕ) × (cs ≡ spell ds) × IsDigits ds × (m ≡ value 58 n ds)
unfolding decode_loop spell value
decode_loop_sound n m [] h = ([], refl, tt, ground arith)
decode_loop_sound n m (c ∷ cs) h = elim (Option-cases (index_of c b58_alphabet)) [
  | inl missing ↦ absurd (ground (arith, missing))
  | inr (i, found) ↦
      let (small, at) = character_at-index_of c i b58_alphabet found in
      let read : decode_loop (n * 58 + i) cs ≡ some m = rw (found, decode_loop) at h in
      let (ds, same, all, exact) = decode_loop_sound (n * 58 + i) m cs read in
      (i ∷ ds, rw at (ap (λ l. c ∷ l) same), (omega arith, all), exact)
]
