-- ===== src/Storage/Chains.antt =====
-- The audit chains of all cases: an event that is recorded for one case keeps every chain valid.
use reclaim_rail.Base.{
  ℕ, ◌==◌, ==_iff, ◌≡◌, refl, sym, ◌∙◌, ap, Bool, Bool-cases, inl, inr, true, false, not, List, [],
  ◌∷◌, ◌++◌, any, filter, ok, raise_if, passed_guard, >>=-eq-ok, >>-eq-ok, arith,
}
use reclaim_rail.Audit.Chain.{
  Platform, ChainEntry, Verification, compute_audit_hash, build_audit_entry,
}
use reclaim_rail.Audit.Chain.Evidence.{IsDigest}
use reclaim_rail.Audit.Store.{
  AuditTables, AppendRequest, of_case, case_events, latest, next_entry, make_append_request,
  append_audit_event, load_chain, verify_persisted,
}
use reclaim_rail.Audit.Store.Reload.{made_fields}
use reclaim_rail.Audit.Store.Appended.{append_verifies}
use reclaim_rail.Storage.{RecoveryTables, audit_of}
use reclaim_rail.Storage.Events.{record_event, verify_events}

-- the stored events of a case verify as a valid chain
abbrev pub IsSound : Platform → RecoveryTables → ℕ → Type 0
IsSound platform db id =
    (v : Verification) × (verify_persisted platform (audit_of db) id ≡ ok v) × (v.is_valid ≡ true)

filter_snoc :
    (t : ChainEntry → Bool) (es : List ChainEntry) (e : ChainEntry)
    → t e ≡ false
    → filter t (es ++ (e ∷ [])) ≡ filter t es
filter_snoc t [] e h = ground arith
filter_snoc t (f ∷ es) e h = ground (arith, filter_snoc t es e h)

module _ (platform : Platform) where
  build_audit_entry-case :
      (raw e : ChainEntry)
      → build_audit_entry platform raw ≡ ok e
      → e.recovery_case_id ≡ raw.recovery_case_id
  unfolding build_audit_entry
  build_audit_entry-case raw e h =
      let (hash, p, q) = >>=-eq-ok (compute_audit_hash platform raw) _ h in
      (made_fields _ e q).of_case

  -- the chain of another case
  other_chain :
      (db : AuditTables) (e : ChainEntry) (id : ℕ)
      → (e.recovery_case_id == id) ≡ false
      → verify_persisted platform (record db { events = db.events ++ (e ∷ []) }) id
        ≡ verify_persisted platform db id
  unfolding verify_persisted load_chain case_events of_case
  other_chain db e id h = rw (filter_snoc (of_case id) db.events e h)

  -- what an append that returns has gone through
  appended :
      (db db' : AuditTables) (id : ℕ) (r : AppendRequest) (e : ChainEntry)
      → append_audit_event platform db id r ≡ ok (e, db')
      → (any (λ c. c == id) db.cases ≡ true)
        × (e.recovery_case_id ≡ id)
        × (db' ≡ record db { events = db.events ++ (e ∷ []) })
  unfolding append_audit_event
  appended db db' id r e h =
      let (known, h₁) = >>-eq-ok (raise_if (not (any (λ c. c == id) db.cases)) _) _ h in
      let (built, h₂, h₃) =
        >>=-eq-ok
          (build_audit_entry platform (next_entry platform id r (latest (case_events id db)))) _
          h₁ in
      let same : built ≡ e = cc in
      (
        passed_guard (any (λ c. c == id) db.cases) _ known,
        ap (λ x. x.recovery_case_id) (sym same) ∙ build_audit_entry-case _ built h₂,
        cc,
      )

  append-verify_persisted :
      (db db' : AuditTables) (case_id id : ℕ) (raw r : AppendRequest) (e : ChainEntry)
      (v : Verification)
      → IsDigest platform
      → make_append_request platform raw ≡ ok r
      → append_audit_event platform db case_id r ≡ ok (e, db')
      → verify_persisted platform db id ≡ ok v
      → v.is_valid ≡ true
      → (w : Verification) × (verify_persisted platform db' id ≡ ok w) × (w.is_valid ≡ true)
  append-verify_persisted db db' case_id id raw r e v digests requested h verified sound =
      let (known, of_it, after) = appended db db' case_id r e h in
      elim (Bool-cases (case_id == id)) [
        | inl same ↦
            let at_id : case_id ≡ id = (==_iff case_id id).0 same in
            let here : verify_persisted platform db case_id ≡ ok v =
              ap (verify_persisted platform db) at_id ∙ verified in
            let (f, db₁, made, again) =
              append_verifies platform db case_id raw r v digests requested known here sound in
            let one : db₁ ≡ db' = cc in
            (
              _,
              ap (λ i. verify_persisted platform db' i) (sym at_id)
                  ∙ ap (λ x. verify_persisted platform x case_id) (sym one)
                  ∙ again,
              refl,
            )
        | inr apart ↦
            let other : (e.recovery_case_id == id) ≡ false = ap (λ i. i == id) of_it ∙ apart in
            (
              v,
              ap (λ x. verify_persisted platform x id) after ∙ other_chain db e id other ∙ verified,
              sound,
            )
      ]

  pub record_event-IsSound :
      (db db' : RecoveryTables) (case_id id : ℕ) (raw : AppendRequest)
      → IsDigest platform
      → record_event platform db case_id raw ≡ ok db'
      → IsSound platform db id
      → IsSound platform db' id
  unfolding record_event
  record_event-IsSound db db' case_id id raw digests h (v, verified, sound) =
      let (r, requested, h₁) = >>=-eq-ok (make_append_request platform raw) _ h in
      let (grown, h₂, h₃) = >>=-eq-ok (append_audit_event platform (audit_of db) case_id r) _ h₁ in
      let (w, again, valid) =
        append-verify_persisted (audit_of db) grown.1 case_id id raw r grown.0 v digests requested
          h₂ verified sound in
      let same : db' ≡ record db { audit_events = grown.1.events } = cc in
      (
        w,
        verify_events platform (audit_of db') grown.1 id (ap (λ x. x.audit_events) same) ∙ again,
        valid,
      )
