-- ===== src/Session/Tests.antt =====
-- A manager with room for one session. Fingerprints are their own digests.
use onto_ontological_context.Prelude.{
  ◌≡◌, ◌↔◌, refl, String, true, none, some, List, [], ◌∷◌, arith, eq_iff,
}
use onto_ontological_context.Prelude.Dict
use onto_ontological_context.Prelude.Dict.{Dict}
use onto_ontological_context.Prelude.Texts.{member}
use onto_ontological_context.Session.{SessionRecord, SessionManager, empty_manager, is_expired}
use onto_ontological_context.Session.Manager.{
  Request, Config, new_session, validate, rotate, Call, start_call, validate_call, rotate_call,
  perform_all,
}
use onto_ontological_context.Session.Capacity.{IsWell}
use onto_ontological_context.Session.Capacity.Calls.{perform_all-IsWell}
use onto_ontological_context.Session.Accepts.{Accepts, validate_iff}
use onto_ontological_context.Session.Tokens.{granted, rotated}
use onto_ontological_context.Session.Rotation.{rotate-final}

abbrev same : String → String
same s = s

abbrev config : Config
config = record { max_concurrent_sessions = 1; enforce_connection_binding = true }

abbrev request : Request
request = record {
  identity = "local";
  idle_timeout = 10;
  max_duration = 100;
  connection_fingerprint = some "laptop";
  consent_reference = none;
}

abbrev session : SessionRecord
session = new_session same same 5 "t1" request

abbrev manager : SessionManager
manager = record { sessions = ("t1", session) ∷ []; audit_log = []; last_token = some "t1" }

perform_all-IsWell_example :
    (after : SessionManager) × (perform_all same same config
        (start_call 1 "t1" request ∷ start_call 2 "t2" request ∷ rotate_call 3 "t2" "t3" ∷ [])
        empty_manager
      ≡ some after)
    × IsWell 1 after
perform_all-IsWell_example =
    perform_all-IsWell same same config
      (start_call 1 "t1" request ∷ start_call 2 "t2" request ∷ rotate_call 3 "t2" "t3" ∷ [])
      (omega arith)

validate_iff_example :
    ((validate same same config 14 "t1" (some "laptop") manager).0
      ≡ some (record session { last_used_at = 14 }))
    ↔ ((s : SessionRecord) × (Dict.get "t1" manager.sessions ≡ some s)
        × Accepts same same config 14 (some "laptop") s
        × (record session { last_used_at = 14 } ≡ record s { last_used_at = 14 }))
unfolding member
validate_iff_example =
    validate_iff same same config 14 "t1" (some "laptop") manager
      (record session { last_used_at = 14 }) (refl, tt)

manager-IsWell : IsWell 1 manager
unfolding Dict.get member
manager-IsWell = record {
  distinct = (refl, tt);
  capacity = omega arith;
  keyed = λ t s h. ground (arith, eq_iff "t1" t);
  last = λ t h. ground (arith, eq_iff "t1" t);
}

abbrev later_calls : List Call
later_calls = validate_call 9 "t1" none ∷ start_call 10 "t3" request ∷ []

rotate-final_example :
    ((rotate same same 7 "t1" "t2" manager).0 ≡ some "t2")
    × ((validate same same config 8 "t2" (some "laptop") (rotate same same 7 "t1" "t2" manager).1).0
        ≡ granted same same config 8 (some "laptop") (some (rotated same same 7 "t2" session)))
    × (after : SessionManager) × (perform_all same same config later_calls
          (rotate same same 7 "t1" "t2" manager).1
        ≡ some after)
    × ((validate same same config 8 "t1" (some "laptop") after).0 ≡ none)
unfolding Dict.get is_expired
rotate-final_example =
    rotate-final same same config 7 8 "t1" "t2" (some "laptop") session manager later_calls
      (omega arith) manager-IsWell refl refl refl (tt, (refl, tt))
