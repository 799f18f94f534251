-- ===== src/Cases/Opened.antt =====
-- A case that is opened: once for a payment, and with a valid audit chain.
use reclaim_rail.Base.{
  ℕ, ◌+◌, ◌≡◌, ok_inj, not, raise_if, ◌>>◌, Exn, ◌==◌, any, map, String, refl, sym, ap, ◌∙◌, Bool,
  true, false, Option, none, some, List, [], ◌∷◌, ◌++◌, Result, ok, >>=-eq-ok, Result-cases, inl,
  inr, Datetime, arith, strip, lstrip, rstrip, is_space,
}
use reclaim_rail.Base.Rows.{find, find_key, find_snoc}
use reclaim_rail.Projection.{PaymentAttempt}
use reclaim_rail.Audit.Values.{Value, null, text, canonicalize_fields, canonicalize}
use reclaim_rail.Audit.Chain.{Platform, Verification, all_valid}
use reclaim_rail.Audit.Chain.Evidence.{IsDigest}
use reclaim_rail.Audit.Store.{
  AppendRequest, make_append_request, append_audit_event, verify_persisted,
}
use reclaim_rail.Audit.Store.Appended.{append_verifies}
use reclaim_rail.Storage.Events.{verify_events}
use reclaim_rail.Storage.{RecoveryCase, RecoveryTables, audit_of}
use reclaim_rail.Cases.{
  CreationResult, created, existing, ineligible, IneligibilityReason, make_creation_result,
  evaluate_eligibility, new_case, text_or_null, uuid_or_null, opened_event, open_case,
  open_eligible, get_or_open, for_attempt, create_or_get_case,
}

one_guard {ℓ} :
    {A : Type ℓ} (b : Bool) (x : Exn) (rest : Result A) (answer : A)
    → (raise_if b x >> rest) ≡ ok answer
    → rest ≡ ok answer
one_guard false x rest answer h = h
one_guard true x rest answer h = cc

module _ (platform : Platform) where
  abbrev pub existing_result : RecoveryCase → CreationResult
  existing_result c = record {
    disposition = existing;
    recovery_case = some c;
    audit_event = none;
    ineligibility_reasons = [];
  }

  open_case_frame :
      (db db' : RecoveryTables) (p : PaymentAttempt) (c : RecoveryCase) (r : CreationResult)
      → open_case platform db p c ≡ ok (r, db')
      → (r.recovery_case ≡ some c) × (db'.cases ≡ db.cases ++ (c ∷ []))
  unfolding open_case make_creation_result
  open_case_frame db db' p c r h =
      let (request, _, q) = >>=-eq-ok (make_append_request platform (opened_event p c)) _ h in
      let (grown, _, w) =
        >>=-eq-ok
          (append_audit_event platform (audit_of (record db { cases = db.cases ++ (c ∷ []) })) c.id
            request)
          _ q in
      let pair = ok_inj _ (r, db') w in
      (sym (ap (λ k. k.0.recovery_case) pair), sym (ap (λ k. k.1.cases) pair))

  unopened :
      (db db' : RecoveryTables) (p : PaymentAttempt) (c : RecoveryCase) (r : CreationResult)
      (reasons : List IneligibilityReason)
      → open_eligible platform db p c reasons ≡ ok (r, db')
      → r.disposition ≡ created
      → (reasons ≡ []) × (open_case platform db p c ≡ ok (r, db'))
  unfolding make_creation_result
  unopened db db' p c r [] h d = (refl, h)
  unopened db db' p c r (reason ∷ reasons) h d =
      let pair = ok_inj _ (r, db') h in
      let kind : ineligible ≡ created = ap (λ k. k.0.disposition) pair ∙ d in absurd cc

  -- what has been so when a case is opened
  created_from :
      (db db' : RecoveryTables) (p : PaymentAttempt) (c : RecoveryCase) (r : CreationResult)
      (old : Option RecoveryCase)
      → get_or_open platform db p c old ≡ ok (r, db')
      → r.disposition ≡ created
      → (old ≡ none) × (evaluate_eligibility p ≡ []) × (open_case platform db p c ≡ ok (r, db'))
  unfolding make_creation_result
  created_from db db' p c r none h d =
      let (e, w) = unopened db db' p c r (evaluate_eligibility p) h d in (refl, e, w)
  created_from db db' p c r (some old) h d =
      let pair = ok_inj _ (r, db') h in
      let kind : existing ≡ created = ap (λ k. k.0.disposition) pair ∙ d in absurd cc

  found_attempt :
      (o : Option PaymentAttempt) (id : ℕ) (p : PaymentAttempt)
      → for_attempt platform o id ≡ ok p
      → o ≡ some p
  found_attempt none id p h = cc
  found_attempt (some q) id p h = cc

  again_existing :
      (db : RecoveryTables) (p : PaymentAttempt) (c old : RecoveryCase)
      → get_or_open platform db p c (some old) ≡ ok (existing_result old, db)
  unfolding make_creation_result
  again_existing db p c old = refl

  -- When a case is created, the payment attempt was there and eligible for recovery, and a later
  -- call for the same attempt, at any aware time and with whatever other arguments, returns that
  -- case as existing and leaves the tables as they are.
  pub opened_once :
      (attempts : List PaymentAttempt) (db db' : RecoveryTables) (new_id again_id id : ℕ)
      (at later_at : Datetime) (allowed later_allowed : Bool) (incident later_incident : Option ℕ)
      (r : CreationResult)
      → create_or_get_case platform attempts db new_id id at allowed incident ≡ ok (r, db')
      → r.disposition ≡ created
      → later_at.tz_aware ≡ true
      → (p : PaymentAttempt) × (c : RecoveryCase) × (find (λ a. a.id) id attempts ≡ some p)
        × (evaluate_eligibility p ≡ [])
        × (r.recovery_case ≡ some c)
        × (create_or_get_case platform attempts db' again_id id later_at later_allowed
              later_incident
            ≡ ok (existing_result c, db'))
  unfolding create_or_get_case
  opened_once attempts db db' new_id again_id id at later_at allowed later_allowed incident
        later_incident r h d aware =
      let (p, found, rest) =
        >>=-eq-ok (for_attempt platform (find (λ a. a.id) id attempts) id) _
          (one_guard (not at.tz_aware) _ _ _ h) in
      let attempt = found_attempt (find (λ a. a.id) id attempts) id p found in
      let c = new_case new_id p at allowed incident in
      let (fresh, eligible, opened) = created_from db db' p c r _ rest d in
      let (shown, rows) = open_case_frame db db' p c r opened in
      let stored : find (λ k. k.payment_attempt_id) id db'.cases ≡ some c =
        ap (find (λ k. k.payment_attempt_id) id) rows
        ∙ find_snoc (λ k. k.payment_attempt_id) id db.cases c fresh
            (find_key (λ a. a.id) id attempts p attempt) in
      (
        p,
        c,
        attempt,
        eligible,
        shown,
        simp (aware, attempt, stored)
            (again_existing db' p (new_case again_id p later_at later_allowed later_incident) c),
      )

  method-canonical :
      (o : Option String)
      → canonicalize platform.uuid_text platform.iso_text (text_or_null o) ≡ ok (text_or_null o)
  unfolding canonicalize
  method-canonical none = refl
  method-canonical (some m) = refl

  incident-canonical :
      (o : Option ℕ)
      → (w : Value) × (canonicalize platform.uuid_text platform.iso_text (uuid_or_null o) ≡ ok w)
  unfolding canonicalize
  incident-canonical none = (null, refl)
  incident-canonical (some n) = (text (platform.uuid_text n), refl)

  opened_request :
      (p : PaymentAttempt) (c : RecoveryCase)
      → c.opened_at.tz_aware ≡ true
      → (r : AppendRequest) × (make_append_request platform (opened_event p c) ≡ ok r)
  unfolding make_append_request canonicalize_fields canonicalize strip lstrip rstrip is_space
  opened_request p c aware = elim (Result-cases (make_append_request platform (opened_event p c))) [
    | inr w ↦ w
    | inl (x, q) ↦
        (let (w, e) = incident-canonical c.source_incident_id in
          absurd (ground (arith, method-canonical c.payment_method)))
  ]

  any_last :
      (cs : List RecoveryCase) (c : RecoveryCase)
      → any (λ k. k == c.id) (map (λ k. k.id) (cs ++ (c ∷ []))) ≡ true
  any_last [] c = ground arith
  any_last (d ∷ cs) c = ground (arith, any_last cs c)

  -- Where the platform answers digests, the time carries a zone, the payment attempt is there,
  -- eligible and without a case, and what is stored under the new identifier verifies as a valid
  -- audit chain, a case is created, and its chain verifies as valid with one event more.
  pub opened_verifies :
      (attempts : List PaymentAttempt) (db : RecoveryTables) (new_id id : ℕ) (at : Datetime)
      (allowed : Bool) (incident : Option ℕ) (p : PaymentAttempt) (found : Verification)
      → IsDigest platform
      → at.tz_aware ≡ true
      → find (λ a. a.id) id attempts ≡ some p
      → evaluate_eligibility p ≡ []
      → find (λ c. c.payment_attempt_id) id db.cases ≡ none
      → verify_persisted platform (audit_of db) new_id ≡ ok found
      → found.is_valid ≡ true
      → (r : CreationResult) × (db' : RecoveryTables) × (create_or_get_case platform attempts db
            new_id id at allowed incident
          ≡ ok (r, db'))
        × (r.disposition ≡ created)
        × (verify_persisted platform (audit_of db') new_id
            ≡ ok (all_valid (found.checked_event_count + 1)))
  unfolding create_or_get_case open_case make_creation_result
  opened_verifies attempts db new_id id at allowed incident p found digests aware attempt eligible
        fresh verified sound =
      let c = new_case new_id p at allowed incident in
      let inserted : RecoveryTables = record db { cases = db.cases ++ (c ∷ []) } in
      let (request, requested) = opened_request p c aware in
      let (e, audit, appended, again) =
        append_verifies platform (audit_of inserted) new_id (opened_event p c) request found digests
          requested (any_last db.cases c)
          (verify_events platform (audit_of inserted) (audit_of db) new_id refl ∙ verified) sound in
      let db' : RecoveryTables = record inserted { audit_events = audit.events } in
      (
        record {
          disposition = created;
          recovery_case = some c;
          audit_event = some e;
          ineligibility_reasons = [];
        },
        db',
        simp (aware, attempt, fresh, eligible, requested, appended),
        refl,
        verify_events platform (audit_of db') audit new_id refl ∙ again,
      )
