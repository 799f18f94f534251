-- ===== src/Projection/Store/Once.antt =====
-- A delivered event is projected once, however often and with whomever it is delivered.
use reclaim_rail.Base.{
  ℕ, ◌+◌, ◌≤◌, ◌==◌, ℤ, ◌≡◌, refl, true, false, none, some, List, [], ◌∷◌, ◌++◌, ok, Datetime,
  arith, if◌then◌else◌, Option-cases, Result-cases, inl, inr,
}
use reclaim_rail.Payments.Truth.{PaymentEvidenceSource, PaymentTruthState}
use reclaim_rail.Projection.{
  LifecycleEvent, PaymentAttempt, StateTransition, apply_payment_event_to_projection,
}
use reclaim_rail.Projection.Store.{
  Tables, TruthRecorder, ProjectionResult, result_from_transition, find_existing_transition,
  save_attempt, project_payment_lifecycle_event, lock_payment_attempt,
  create_payment_attempt_if_missing,
}

-- the audit rows of one webhook event
abbrev pub count_event : ℕ → List StateTransition → ℕ
count_event id [] = 0
count_event id (t ∷ ts) = (if t.webhook_event_id == id then 1 else 0) + count_event id ts

count-find_none :
    (ts : List StateTransition) (id : ℕ)
    → find_existing_transition ts id ≡ none
    → count_event id ts ≡ 0
unfolding find_existing_transition
count-find_none [] id h = refl
count-find_none (t ∷ ts) id h = ground (arith, count-find_none ts id)

count-find_some :
    (ts : List StateTransition) (id : ℕ) (t : StateTransition)
    → find_existing_transition ts id ≡ some t
    → 1 ≤ count_event id ts
unfolding find_existing_transition
count-find_some [] id t h = cc
count-find_some (u ∷ ts) id t h = ground (arith, count-find_some ts id t)

count-append :
    (ts us : List StateTransition) (id : ℕ)
    → count_event id (ts ++ us) ≡ count_event id ts + count_event id us
count-append [] us id = omega arith
count-append (t ∷ ts) us id = omega (arith, count-append ts us id)

module _ (to_ms : ℤ → ℤ) (a : PaymentAttempt) (e : LifecycleEvent) (now : Datetime)
    (source : PaymentEvidenceSource) where
  apply_event_id :
      (a' : PaymentAttempt) (t : StateTransition)
      → apply_payment_event_to_projection to_ms a e now source ≡ ok (a', t)
      → t.webhook_event_id ≡ e.webhook_event_id
  unfolding apply_payment_event_to_projection
  apply_event_id a' t h = ground arith

-- what a second delivery returns for the result of the first
abbrev pub as_duplicate : ProjectionResult → ProjectionResult
as_duplicate r = record r { duplicate = true; truth_state = none; truth_version = none }

module _ (to_ms : ℤ → ℤ) (record_truth : TruthRecorder) (fresh_id : ℕ) (others : Tables → Tables)
    (e : LifecycleEvent) (now : Datetime) (source : PaymentEvidenceSource) (db : Tables)
    (r : ProjectionResult) (db' : Tables)
    (projected : project_payment_lifecycle_event to_ms record_truth fresh_id others e now source db
      ≡ ok (r, db')) where
  -- the tables under the lock
  abbrev under_lock : Tables
  under_lock =
      others (record db { attempts = create_payment_attempt_if_missing fresh_id e now db.attempts })

  abbrev after_write : PaymentAttempt → StateTransition → Tables
  after_write a' t = record under_lock {
    attempts = save_attempt e a' under_lock.attempts;
    transitions = under_lock.transitions ++ (t ∷ []);
  }

  -- the three ways to return
  data Returned : Type 0 where
    seen :
        (t : StateTransition)
        → find_existing_transition db.transitions e.webhook_event_id ≡ some t
        → r ≡ result_from_transition t true
        → db' ≡ db
        → Returned
    seen_locked :
        (t : StateTransition)
        → find_existing_transition under_lock.transitions e.webhook_event_id ≡ some t
        → r ≡ result_from_transition t true
        → db' ≡ under_lock
        → Returned
    written :
        (a a' : PaymentAttempt) (t : StateTransition)
        → find_existing_transition under_lock.transitions e.webhook_event_id ≡ none
        → apply_payment_event_to_projection to_ms a e now source ≡ ok (a', t)
        → (truth : PaymentTruthState × ℕ)
        → r ≡ record (result_from_transition t false) {
          truth_state = some truth.0;
          truth_version = some truth.1;
        }
        → db'.transitions ≡ under_lock.transitions ++ (t ∷ [])
        → Returned

  returned : Returned
  unfolding project_payment_lifecycle_event
  returned = elim (Option-cases (find_existing_transition db.transitions e.webhook_event_id)) [
    | inr (t, p) ↦ Returned.seen t p (ground arith) (ground arith)
    | inl p ↦ elim (Option-cases (lock_payment_attempt under_lock.attempts e)) [
      | inl q ↦ absurd (ground arith)
      | inr (a, q) ↦
          elim (Option-cases (find_existing_transition under_lock.transitions e.webhook_event_id)) [
            | inr (t, u) ↦ Returned.seen_locked t u (ground arith) (ground arith)
            | inl u ↦ elim (Result-cases (apply_payment_event_to_projection to_ms a e now source)) [
              | inl (x, w) ↦ absurd (ground arith)
              | inr ((a', t), w) ↦ elim (Result-cases (record_truth (after_write a' t) a' t)) [
                | inl (x, v) ↦ absurd (ground arith)
                | inr (truth, v) ↦ Returned.written a a' t u w truth (ground arith) (ground arith)
              ]
            ]
          ]
    ]
  ]

  -- After a projection that returns, the event has exactly one audit row, provided that the
  -- tables at hand hold at most one and that the other transactions never make it more than one.
  pub project-count :
      count_event e.webhook_event_id db.transitions ≤ 1
      → ((x : Tables)
          → count_event e.webhook_event_id x.transitions ≤ 1
          → count_event e.webhook_event_id (others x).transitions ≤ 1)
      → count_event e.webhook_event_id db'.transitions ≡ 1
  project-count h k = go returned
    where
      go : Returned → count_event e.webhook_event_id db'.transitions ≡ 1
      go (Returned.seen t p q w) =
          rw w (omega (arith, count-find_some db.transitions e.webhook_event_id t p))
      go (Returned.seen_locked t p q w) = rw w (
          omega (
            arith,
            k
                (record db {
                  attempts = create_payment_attempt_if_missing fresh_id e now db.attempts;
                })
                h,
            count-find_some under_lock.transitions e.webhook_event_id t p,
          ))
      go (Returned.written a a' t p w truth q z) =
          rw (z, count-append under_lock.transitions (t ∷ []) e.webhook_event_id)
            (ground (
              arith,
              count-find_none under_lock.transitions e.webhook_event_id p,
              apply_event_id to_ms a e now source a' t w,
            ))
