-- ===== src/Storage/Events.antt =====
-- `append_recovery_audit_event` over the recovery tables: the event is the last change of a service, no
-- other table changes with it, and it can only fail with its request.
use reclaim_rail.Base.{ℕ, ◌+◌, ◌≡◌, refl, ◌∙◌, true, some, List, Result, ok, ◌>>=◌, >>=-eq-ok}
use reclaim_rail.Base.Rows.{find, any_key}
use reclaim_rail.Audit.Chain.{Platform, ChainEntry, Verification, all_valid}
use reclaim_rail.Audit.Chain.Evidence.{IsDigest}
use reclaim_rail.Audit.Store.{
  AuditTables, AppendRequest, case_events, load_chain, make_append_request, append_audit_event,
  verify_persisted,
}
use reclaim_rail.Audit.Store.Appended.{append_verifies}
use reclaim_rail.Storage.{RecoveryCase, RecoveryTables, audit_of}

module _ (platform : Platform) where
  -- `append_recovery_audit_event` with the request that is made for it
  unfoldable pub record_event : RecoveryTables → ℕ → AppendRequest → Result RecoveryTables
  record_event db case_id raw = do
    request ← make_append_request platform raw
    grown ← append_audit_event platform (audit_of db) case_id request
    ok (record db { audit_events = grown.1.events })

module _ (platform : Platform) where
  pub record_event_frame :
      (db db' : RecoveryTables) (case_id : ℕ) (raw : AppendRequest)
      → record_event platform db case_id raw ≡ ok db'
      → (events : List ChainEntry) × (db' ≡ record db { audit_events = events })
  unfolding record_event
  record_event_frame db db' case_id raw h =
      let (request, p, q) = >>=-eq-ok (make_append_request platform raw) _ h in
      let (grown, r, s) =
        >>=-eq-ok (append_audit_event platform (audit_of db) case_id request) _ q in
      (grown.1.events, cc)

  pub verify_events :
      (a b : AuditTables) (id : ℕ)
      → a.events ≡ b.events
      → verify_persisted platform a id ≡ verify_persisted platform b id
  unfolding verify_persisted load_chain case_events
  verify_events a b id e = rw e

module _ (platform : Platform) where
  pub record_event_verifies :
      (db : RecoveryTables) (id : ℕ) (c : RecoveryCase) (raw r : AppendRequest) (v : Verification)
      → IsDigest platform
      → make_append_request platform raw ≡ ok r
      → find (λ c. c.id) id db.cases ≡ some c
      → verify_persisted platform (audit_of db) id ≡ ok v
      → v.is_valid ≡ true
      → (db' : RecoveryTables) × (record_event platform db id raw ≡ ok db')
        × (verify_persisted platform (audit_of db') id ≡ ok (all_valid (v.checked_event_count + 1)))
  unfolding record_event
  record_event_verifies db id c raw r v digests requested row verified sound =
      let known = any_key (λ c. c.id) id db.cases c row in
      let (e, audit, appended, again) =
        append_verifies platform (audit_of db) id raw r v digests requested known verified sound in
      (
        record db { audit_events = audit.events },
        simp (requested, appended),
        verify_events platform (audit_of (record db { audit_events = audit.events })) audit id refl
            ∙ again,
      )
