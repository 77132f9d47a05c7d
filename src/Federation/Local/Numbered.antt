-- ===== src/Federation/Local/Numbered.antt =====
-- What a node has accepted from a sender.
use onto_ontological_context.Prelude.{
  ℕ, zero, suc, ◌+◌, ◌≡◌, refl, sym, ap, ◌∙◌, max, inl, inr, String, Bool, true, false, not, ◌&&◌,
  none, some, List, [], ◌∷◌, ◌++◌, map, arith, ◌==◌, str_eq, eq_iff, if◌then◌else◌, Bool-cases,
}
use onto_ontological_context.Safety.{Config, check_inbound}
use onto_ontological_context.Federation.Audit.{
  InboxRow, Messages, max_seen, SequenceStatus, sequence_ok, sequence_gap, sequence_duplicate,
  validate_inbound_sequence, record_inbound, mark_processed,
}
use onto_ontological_context.Federation.Local.{
  Message, store_share, receive_as, receive, receive_all,
}

-- the numbers of the accepted messages of a sender, in the order of their arrival
abbrev pub accepted_ids : String → List InboxRow → List ℕ
accepted_ids sender [] = []
accepted_ids sender (r ∷ rs) =
    if str_eq r.sender sender && not r.rejected
    then r.sequence_id ∷ accepted_ids sender rs
    else accepted_ids sender rs

-- 1, 2, and so on up to a number
abbrev pub up_to : ℕ → List ℕ
up_to zero = []
up_to (suc n) = up_to n ++ suc n ∷ []

abbrev IsNumbered : String → List InboxRow → Type 0
IsNumbered sender inbox = accepted_ids sender inbox ≡ up_to (max_seen sender inbox)

pub accepted_ids-append :
    (sender : String) (rs : List InboxRow) (r : InboxRow)
    → accepted_ids sender (rs ++ r ∷ []) ≡ accepted_ids sender rs ++ accepted_ids sender (r ∷ [])
accepted_ids-append sender [] r = refl
accepted_ids-append sender (q ∷ rs) r =
    elim (Bool-cases (str_eq q.sender sender && not q.rejected)) [
      | inl e ↦ rw e (ap (λ ids. q.sequence_id ∷ ids) (accepted_ids-append sender rs r))
      | inr e ↦ rw e (accepted_ids-append sender rs r)
    ]

append_nothing : (xs : List ℕ) → xs ++ [] ≡ xs
append_nothing [] = refl
append_nothing (x ∷ xs) = ap (λ ys. x ∷ ys) (append_nothing xs)

abbrev choose : Bool → ℕ → ℕ → ℕ
choose b x n = if b then max x n else n

choose-choose : (b d : Bool) (x y n : ℕ) → choose b x (choose d y n) ≡ choose d y (choose b x n)
choose-choose true true x y n = omega arith
choose-choose true false x y n = refl
choose-choose false d x y n = refl

max_seen-append :
    (sender : String) (rs : List InboxRow) (r : InboxRow)
    → max_seen sender (rs ++ r ∷ [])
      ≡ choose (str_eq r.sender sender && not r.rejected) r.sequence_id (max_seen sender rs)
unfolding max_seen
max_seen-append sender [] r = refl
max_seen-append sender (q ∷ rs) r =
    let counted = str_eq q.sender sender && not q.rejected in
    ap (choose counted q.sequence_id) (max_seen-append sender rs r)
    ∙ choose-choose counted (str_eq r.sender sender && not r.rejected) q.sequence_id r.sequence_id
        (max_seen sender rs)

-- An update of the time of processing leaves the numbers alone.
pub process-keeps :
    (now id : ℕ) (sender : String) (rs : List InboxRow)
    → (accepted_ids sender (
          map (λ (r : InboxRow). if r.id == id then record r { processed_at = some now } else r) rs)
        ≡ accepted_ids sender rs)
      × (max_seen sender (
            map
              (λ (r : InboxRow). if r.id == id then record r { processed_at = some now } else r)
              rs)
          ≡ max_seen sender rs)
unfolding max_seen
process-keeps now id sender [] = (refl, refl)
process-keeps now id sender (r ∷ rs) =
    let (ids, top) = process-keeps now id sender rs in
    elim (Bool-cases (r.id == id)) [
      | inl e ↦ rw e (rw (ids, top) (refl, refl))
      | inr e ↦ rw e (rw (ids, top) (refl, refl))
    ]

-- A new row keeps the numbering if it is rejected, or of another sender, or has the next number.
append-IsNumbered :
    (sender : String) (rs : List InboxRow) (r : InboxRow)
    → (str_eq r.sender sender ≡ true → r.sequence_id ≡ max_seen sender rs + 1)
    → IsNumbered sender rs
    → IsNumbered sender (rs ++ r ∷ [])
append-IsNumbered sender rs r next h =
    elim (Bool-cases (str_eq r.sender sender && not r.rejected)) [
      | inl e ↦
          let same : str_eq r.sender sender ≡ true = ground (arith, e) in
          let number : r.sequence_id ≡ suc (max_seen sender rs) = omega (arith, next same) in
          let single : accepted_ids sender (r ∷ []) ≡ r.sequence_id ∷ [] = rw e refl in
          let grown : choose (str_eq r.sender sender && not r.rejected) r.sequence_id
                (max_seen sender rs)
              ≡ suc (max_seen sender rs) =
            rw e (omega (arith, number)) in
          accepted_ids-append sender rs r
          ∙ ap (λ ids. accepted_ids sender rs ++ ids) single
          ∙ ap (λ ids. ids ++ r.sequence_id ∷ []) h
          ∙ ap (λ n. up_to (max_seen sender rs) ++ n ∷ []) number
          ∙ ap up_to (sym (max_seen-append sender rs r ∙ grown))
      | inr e ↦
          let none_new : accepted_ids sender (r ∷ []) ≡ [] = rw e refl in
          let same_top : choose (str_eq r.sender sender && not r.rejected) r.sequence_id
                (max_seen sender rs)
              ≡ max_seen sender rs =
            rw e refl in
          accepted_ids-append sender rs r
          ∙ ap (λ ids. accepted_ids sender rs ++ ids) none_new
          ∙ append_nothing (accepted_ids sender rs)
          ∙ h
          ∙ ap up_to (sym (max_seen-append sender rs r ∙ same_top))
    ]

-- A number that is in order is the next one.
in_order :
    (sender : String) (id : ℕ) (m : Messages)
    → validate_inbound_sequence sender id m ≡ sequence_ok
    → id ≡ max_seen sender m.inbox + 1
unfolding validate_inbound_sequence
in_order sender id m h = ground (arith, h)

next_for :
    (sender : String) (msg : Message) (m : Messages)
    → validate_inbound_sequence msg.sender_did msg.sequence_id m ≡ sequence_ok
    → str_eq msg.sender_did sender ≡ true
    → msg.sequence_id ≡ max_seen sender m.inbox + 1
next_for sender msg m valid same =
    let equal : msg.sender_did ≡ sender = (eq_iff msg.sender_did sender).0 same in
    in_order msg.sender_did msg.sequence_id m valid ∙ ap (λ s. max_seen s m.inbox + 1) equal

store_share-IsNumbered :
    (allowed : Bool) (now : ℕ) (sender : String) (msg : Message) (m : Messages)
    → validate_inbound_sequence msg.sender_did msg.sequence_id m ≡ sequence_ok
    → IsNumbered sender m.inbox
    → IsNumbered sender (store_share allowed now msg m).1.inbox
unfolding store_share record_inbound mark_processed
store_share-IsNumbered true now sender msg m valid h =
    let (inbox_id, recorded) =
      record_inbound now msg.sender_did "SHARE" msg.sequence_id msg.payload_hash false none m in
    let (ids, top) = process-keeps now m.next_inbox_id sender recorded.inbox in
    ids ∙ append-IsNumbered sender m.inbox _ (next_for sender msg m valid) h ∙ ap up_to (sym top)
store_share-IsNumbered false now sender msg m valid h =
    append-IsNumbered sender m.inbox _ (next_for sender msg m valid) h

module _ (contains_crisis : String → Bool) (c : Config) where
  receive_as-IsNumbered :
      (s : SequenceStatus) (now trust_score : ℕ) (sender : String) (msg : Message) (m : Messages)
      → validate_inbound_sequence msg.sender_did msg.sequence_id m ≡ s
      → IsNumbered sender m.inbox
      → IsNumbered sender (receive_as contains_crisis c s now trust_score msg m).1.inbox
  unfolding receive_as
  receive_as-IsNumbered sequence_duplicate now trust_score sender msg m valid h = h
  receive_as-IsNumbered sequence_gap now trust_score sender msg m valid h = h
  receive_as-IsNumbered sequence_ok now trust_score sender msg m valid h =
      store_share-IsNumbered (check_inbound contains_crisis c msg.data_fields trust_score).0 now
        sender msg m valid h

  -- Whatever arrives from anyone, in any order, lost or repeated, if the messages are handled one after
  -- another, those that a node has accepted from a sender have the numbers from 1 up to the greatest,
  -- in this order and each once.
  pub receive_all-numbered :
      (arrivals : List (ℕ × ℕ × Message)) (sender : String) (m : Messages)
      → accepted_ids sender m.inbox ≡ up_to (max_seen sender m.inbox)
      → accepted_ids sender (receive_all contains_crisis c arrivals m).inbox
        ≡ up_to (max_seen sender (receive_all contains_crisis c arrivals m).inbox)
  unfolding receive_all receive
  receive_all-numbered [] sender m h = h
  receive_all-numbered ((now, trust_score, msg) ∷ arrivals) sender m h =
      receive_all-numbered arrivals sender (receive contains_crisis c now trust_score msg m).1 (
        receive_as-IsNumbered (validate_inbound_sequence msg.sender_did msg.sequence_id m) now
          trust_score sender msg m refl h)
