-- ===== src/Session/Purge.antt =====
-- What `_purge_expired` leaves: the sessions that have not expired, and no others.
use onto_ontological_context.Prelude.{
  ℕ, ◌≡◌, refl, ◌∙◌, ap, sym, inl, inr, String, Bool, false, Option, none, some, List, [], ◌∷◌,
  arith, str_eq, eq_iff, if◌then◌else◌, Bool-cases, Option-cases,
}
use onto_ontological_context.Prelude.Dict
use onto_ontological_context.Prelude.Dict.{Dict, keys, get-remove, get_absent}
use onto_ontological_context.Prelude.Keys.{IsDict, remove-IsDict}
use onto_ontological_context.Prelude.Texts.{member}
use onto_ontological_context.Session.{
  SessionRecord, SessionManager, is_expired, drop_session, dispatch, expired_tokens, purge_one,
  purge_tokens, purge_expired,
}

-- A session that has not expired.
abbrev pub live : ℕ → Option SessionRecord → Option SessionRecord
live now none = none
live now (some s) = if is_expired now s then none else some s

abbrev is_dead : ℕ → Option SessionRecord → Bool
is_dead now none = false
is_dead now (some s) = is_expired now s

purge_one_absent :
    (now : ℕ) (raw : String) (m : SessionManager)
    → Dict.get raw m.sessions ≡ none
    → purge_one now raw m ≡ m
unfolding purge_one
purge_one_absent now raw m e = rw (e, purge_one)

purge_one_sessions :
    (now : ℕ) (raw : String) (s : SessionRecord) (m : SessionManager)
    → Dict.get raw m.sessions ≡ some s
    → (purge_one now raw m).sessions ≡ Dict.remove raw m.sessions
unfolding purge_one dispatch drop_session
purge_one_sessions now raw s m e = rw (e, purge_one)

get-purge_one :
    (now : ℕ) (t raw : String) (m : SessionManager)
    → Dict.get t (purge_one now raw m).sessions
      ≡ (if str_eq raw t then none else Dict.get t m.sessions)
get-purge_one now t raw m = elim (Option-cases (Dict.get raw m.sessions)) [
  | inl e ↦
      ap (λ (n : SessionManager). Dict.get t n.sessions) (purge_one_absent now raw m e)
      ∙ elim (Bool-cases (str_eq raw t)) [
        | inl same ↦ rw same (ap (λ r. Dict.get r m.sessions) (sym ((eq_iff raw t).0 same)) ∙ e)
        | inr other ↦ rw other
      ]
  | inr (s, e) ↦ ap (Dict.get t) (purge_one_sessions now raw s m e) ∙ get-remove t raw m.sessions
]

get-purge_tokens :
    (now : ℕ) (t : String) (ts : List String) (m : SessionManager)
    → Dict.get t (purge_tokens now ts m).sessions
      ≡ (if member t ts then none else Dict.get t m.sessions)
unfolding purge_tokens member
get-purge_tokens now t [] m = refl
get-purge_tokens now t (raw ∷ ts) m =
    ground (arith, get-purge_tokens now t ts (purge_one now raw m), get-purge_one now t raw m)

expired_tokens-keys :
    (now : ℕ) (t : String) (d : Dict SessionRecord)
    → member t (keys d) ≡ false
    → member t (expired_tokens now d) ≡ false
unfolding expired_tokens member
expired_tokens-keys now t [] h = refl
expired_tokens-keys now t ((k, s) ∷ d) h = ground (arith, expired_tokens-keys now t d)

member-expired_tokens :
    (now : ℕ) (t : String) (d : Dict SessionRecord)
    → IsDict d
    → member t (expired_tokens now d) ≡ is_dead now (Dict.get t d)
unfolding expired_tokens member Dict.get
member-expired_tokens now t [] h = refl
member-expired_tokens now t ((k, s) ∷ d) h = elim (Bool-cases (str_eq k t)) [
  | inl same ↦
      let e : k ≡ t = (eq_iff k t).0 same in
      let rest = expired_tokens-keys now t d (rw e at h.0) in rw same (ground (arith, rest))
  | inr other ↦ rw other (ground (arith, member-expired_tokens now t d h.1))
]

pub get-purge_expired :
    (now : ℕ) (t : String) (m : SessionManager)
    → IsDict m.sessions
    → Dict.get t (purge_expired now m).sessions ≡ live now (Dict.get t m.sessions)
unfolding purge_expired
get-purge_expired now t m h =
    get-purge_tokens now t (expired_tokens now m.sessions) m
    ∙ ap (λ b. if b then none else Dict.get t m.sessions) (member-expired_tokens now t m.sessions h)
    ∙ kept (Dict.get t m.sessions)
  where
    kept : (o : Option SessionRecord) → (if is_dead now o then none else o) ≡ live now o
    kept none = refl
    kept (some s) = refl

-- A purge brings no token back.
pub purge_expired-absent :
    (now : ℕ) (t : String) (m : SessionManager)
    → Dict.get t m.sessions ≡ none
    → Dict.get t (purge_expired now m).sessions ≡ none
unfolding purge_expired
purge_expired-absent now t m h =
    ground (arith, h, get-purge_tokens now t (expired_tokens now m.sessions) m)

purge_one-IsDict :
    (now : ℕ) (raw : String) (m : SessionManager)
    → IsDict m.sessions
    → IsDict (purge_one now raw m).sessions
purge_one-IsDict now raw m d = elim (Option-cases (Dict.get raw m.sessions)) [
  | inl e ↦ rw (purge_one_absent now raw m e) d
  | inr (s, e) ↦ rw (purge_one_sessions now raw s m e) (remove-IsDict raw m.sessions d)
]

purge_tokens-IsDict :
    (now : ℕ) (ts : List String) (m : SessionManager)
    → IsDict m.sessions
    → IsDict (purge_tokens now ts m).sessions
unfolding purge_tokens
purge_tokens-IsDict now [] m d = d
purge_tokens-IsDict now (t ∷ ts) m d =
    purge_tokens-IsDict now ts (purge_one now t m) (purge_one-IsDict now t m d)

pub purge_expired-IsDict :
    (now : ℕ) (m : SessionManager) → IsDict m.sessions → IsDict (purge_expired now m).sessions
unfolding purge_expired
purge_expired-IsDict now m d = purge_tokens-IsDict now (expired_tokens now m.sessions) m d
