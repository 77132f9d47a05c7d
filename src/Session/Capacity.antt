-- ===== src/Session/Capacity.antt =====
-- What holds of the manager after every operation: distinct tokens, each with its own record, no more
-- sessions than configured, and a last token that has a session.
pub mod Steps
pub mod Calls
use onto_ontological_context.Prelude.{
  ℕ, suc, ◌+◌, ◌-◌, ◌≤◌, ◌<◌, ◌≡◌, refl, ◌∙◌, ap, sym, inl, inr, String, Bool, true, false, not,
  ◌&&◌, ◌||◌, Option, none, some, List, [], ◌∷◌, arith, length, str_eq, eq_iff, eq_refl, ltb, leb,
  if◌then◌else◌, Bool-cases, Option-cases,
}
use onto_ontological_context.Prelude.Dict
use onto_ontological_context.Prelude.Dict.{Dict, keys, get-remove, get-set}
use onto_ontological_context.Prelude.Keys.{
  IsDict, set-IsDict, remove-IsDict, length-set, length-remove-le, length-remove-lt,
  member-keys-set, member-keys-remove,
}
use onto_ontological_context.Prelude.Texts.{member}
use onto_ontological_context.Session.{
  SessionRecord, SessionManager, AuditEntry, dispatch, forget, drop_session, expired_tokens,
  purge_one, purge_tokens, purge_expired, oldest_from, oldest, session_expired,
}

pub record IsWell (n : ℕ) (m : SessionManager) : Type 0 where
  pub distinct : IsDict m.sessions
  pub capacity : length m.sessions ≤ n
  pub keyed : (t : String) (s : SessionRecord) → Dict.get t m.sessions ≡ some s → s.raw_token ≡ t
  pub last : (t : String) → m.last_token ≡ some t → member t (keys m.sessions) ≡ true

pub dispatch-IsWell :
    (n : ℕ) (entry : AuditEntry) (m : SessionManager) → IsWell n m → IsWell n (dispatch entry m)
unfolding dispatch
dispatch-IsWell n entry m w = record {
  distinct = w.distinct;
  capacity = w.capacity;
  keyed = w.keyed;
  last = w.last;
}

forget-none :
    (raw t : String) (o : Option String)
    → forget raw none o ≡ some t
    → (o ≡ some t) × (str_eq raw t ≡ false)
unfolding forget
forget-none raw t none h = cc
forget-none raw t (some last) h = elim (Bool-cases (str_eq raw last)) [
  | inl same ↦ absurd (ground arith)
  | inr other ↦
      let e : some last ≡ some t = rw other at h in
      (e, ground (arith, eq_iff raw last, eq_iff raw t))
]

pub drop_session-IsWell :
    (n : ℕ) (raw : String) (m : SessionManager) → IsWell n m → IsWell n (drop_session raw m)
unfolding drop_session
drop_session-IsWell n raw m w = record {
  distinct = remove-IsDict raw m.sessions w.distinct;
  capacity = omega (arith, w.capacity, length-remove-le raw m.sessions);
  keyed = λ t s h. w.keyed t s (ground (arith, get-remove t raw m.sessions));
  last = λ t h.
      let (was, other) = forget-none raw t m.last_token h in
      member-keys-remove t raw m.sessions ∙ rw (other, w.last t was);
}

purge_one-IsWell :
    (n now : ℕ) (raw : String) (m : SessionManager) → IsWell n m → IsWell n (purge_one now raw m)
unfolding purge_one
purge_one-IsWell n now raw m w = elim (Option-cases (Dict.get raw m.sessions)) [
  | inl e ↦ rw (e, purge_one) w
  | inr (s, e) ↦
      rw (e, purge_one) (dispatch-IsWell n _ (drop_session raw m) (drop_session-IsWell n raw m w))
]

purge_tokens-IsWell :
    (n now : ℕ) (ts : List String) (m : SessionManager)
    → IsWell n m
    → IsWell n (purge_tokens now ts m)
unfolding purge_tokens
purge_tokens-IsWell n now [] m w = w
purge_tokens-IsWell n now (t ∷ ts) m w =
    purge_tokens-IsWell n now ts (purge_one now t m) (purge_one-IsWell n now t m w)

pub purge_expired-IsWell :
    (n now : ℕ) (m : SessionManager) → IsWell n m → IsWell n (purge_expired now m)
unfolding purge_expired
purge_expired-IsWell n now m w = purge_tokens-IsWell n now (expired_tokens now m.sessions) m w

-- The manager with one entry more or renewed, which is the last one started or leaves the last token.
pub set-IsWell :
    (n : ℕ) (raw : String) (s : SessionRecord) (last : Option String) (m : SessionManager)
    → IsWell n m
    → s.raw_token ≡ raw
    → length (Dict.set raw s m.sessions) ≤ n
    → ((t : String) → last ≡ some t → (str_eq raw t || member t (keys m.sessions)) ≡ true)
    → IsWell n (record m { sessions = Dict.set raw s m.sessions; last_token = last })
set-IsWell n raw s last m w key room known = record {
  distinct = set-IsDict raw s m.sessions w.distinct;
  capacity = room;
  keyed = λ t r h. elim (Bool-cases (str_eq raw t)) [
    | inl same ↦
        let e : some s ≡ some r = sym (get-set t raw s m.sessions ∙ rw same) ∙ h in
        cc (e, key, (eq_iff raw t).0 same)
    | inr other ↦ w.keyed t r (sym (get-set t raw s m.sessions ∙ rw other) ∙ h)
  ];
  last = λ t h. member-keys-set t raw s m.sessions ∙ known t h;
}

one_of :
    (best new : String × SessionRecord) (b : Bool) (x : String) (r : Bool)
    → (str_eq (if b then new else best).0 x || r) ≡ true
    → (str_eq best.0 x || (str_eq new.0 x || r)) ≡ true
one_of best new true x r h = ground arith
one_of best new false x r h = ground arith

oldest_from-member :
    (best : String × SessionRecord) (d : Dict SessionRecord)
    → (str_eq best.0 (oldest_from best d).0 || member (oldest_from best d).0 (keys d)) ≡ true
unfolding oldest_from member
oldest_from-member best [] = ground (arith, eq_refl best.0)
oldest_from-member best ((k, s) ∷ d) =
    one_of best (k, s) (ltb s.created_at best.1.created_at) _ _
      (oldest_from-member (if ltb s.created_at best.1.created_at then (k, s) else best) d)

-- A dict with entries has an oldest one, and its key is there.
pub oldest-member :
    (d : Dict SessionRecord)
    → 0 < length d
    → (k : String) × (s : SessionRecord) × (oldest d ≡ some (k, s)) × (member k (keys d) ≡ true)
unfolding oldest member
oldest-member [] h = absurd (omega arith)
oldest-member (first ∷ d) h =
    ((oldest_from first d).0, (oldest_from first d).1, refl, oldest_from-member first d)
