-- ===== src/Audit/Store/Appended.antt =====
-- An appended event keeps the chain of its case valid.
use reclaim_rail.Base.{
  ℕ, ◌+◌, ◌==◌, ◌≡◌, refl, sym, subst, ◌∙◌, ok, String, Option, none, some, List, [], ◌∷◌, ◌++◌,
  all, any, length, map_ok, true, arith, Result-cases, inl, inr,
}
use reclaim_rail.Audit.Chain.{
  Platform, ChainEntry, Verification, all_valid, make_chain_entry, normalize_optional_hash,
  verify_chain,
}
use reclaim_rail.Audit.Chain.Linked.{Follows, Linked, IsChain, IsChain-valid, verify_chain_total}
use reclaim_rail.Audit.Chain.Evidence.{IsDigest, last_hash}
use reclaim_rail.Audit.Store.Reload.{made_fields}
use reclaim_rail.Audit.Store.{
  AuditTables, AppendRequest, of_case, latest, case_events, next_number, chained_hash,
  make_append_request, append_audit_event, load_chain, verify_persisted,
}
use reclaim_rail.Audit.Store.Rows.{
  below, map_ok-append, Loads, Loads-map_ok, own_events, length-snoc, case_events-append,
}
use reclaim_rail.Audit.Store.Built.{built}

module _ (platform : Platform) where
  Linked-append :
      (c : ℕ) (p : Option String) (n : ℕ) (es : List ChainEntry) (e : ChainEntry)
      → Linked platform c p n es
      → Follows platform c (last_hash p es) (n + length es + 1) e
      → Linked platform c p n (es ++ (e ∷ []))
  Linked-append c p n [] e l f = (
    let same : n + 0 + 1 ≡ n + 1 = omega arith in subst (λ k. Follows platform c p k e) same f,
    tt,
  )
  Linked-append c p n (g ∷ gs) e (h, l) f = (
    h,
    Linked-append c (some g.event_hash) (n + 1) gs e l (
        let same : n + length (g ∷ gs) + 1 ≡ n + 1 + length gs + 1 = omega arith in
        subst (λ k. Follows platform c (last_hash (some g.event_hash) gs) k e) same f),
  )

  -- what the last row of a chain carries on
  record Carries (rows : List ChainEntry) (p : Option String) (n : ℕ) (es : List ChainEntry)
      : Type 0 where
    numbers : next_number (latest rows) ≡ n + length es + 1
    hashes : normalize_optional_hash (chained_hash (latest rows)) ≡ ok (last_hash p es)
    bounded : all (below (n + length es + 1)) rows ≡ true

  bounded_more :
      (k m : ℕ) (rows : List ChainEntry)
      → k ≡ m
      → all (below k) rows ≡ true
      → all (below m) rows ≡ true
  bounded_more k m rows e h = subst (λ j. all (below j) rows ≡ true) e h

  carries :
      (c : ℕ) (p : Option String) (n : ℕ) (row e : ChainEntry) (rows es : List ChainEntry)
      → Loads (row ∷ rows) (e ∷ es)
      → Linked platform c p n (e ∷ es)
      → Carries (row ∷ rows) p n (e ∷ es)
  carries c p n row e [] [] (q, _) (f, _) =
      let m = made_fields row e q in
      record {
        numbers = ground (arith, m.number, f.numbered);
        hashes = ground (arith, m.own);
        bounded = ground (arith, m.number, f.numbered);
      }
  carries c p n row e [] (d ∷ ds) (q, w) l = absurd w
  carries c p n row e (next ∷ rows) [] (q, w) l = absurd w
  carries c p n row e (next ∷ rows) (d ∷ ds) (q, w) (f, l) =
      let m = made_fields row e q in
      let rest = carries c (some e.event_hash) (n + 1) next d rows ds w l in
      let more : n + 1 + length (d ∷ ds) + 1 ≡ n + length (e ∷ d ∷ ds) + 1 = omega arith in
      record {
        numbers = rest.numbers ∙ more;
        hashes = rest.hashes;
        bounded = ground (
          arith,
          m.number,
          f.numbered,
          bounded_more _ (n + length (e ∷ d ∷ ds) + 1) (next ∷ rows) more rest.bounded,
        );
      }

  chain-Carries :
      (rows es : List ChainEntry)
      → map_ok make_chain_entry rows ≡ ok es
      → IsChain platform es
      → Carries rows none 0 es
  chain-Carries [] [] h c = record { numbers = omega arith; hashes = refl; bounded = refl }
  chain-Carries [] (e ∷ es) h c = cc
  chain-Carries (row ∷ rows) [] h c = absurd (Loads-map_ok (row ∷ rows) [] h)
  chain-Carries (row ∷ rows) (e ∷ es) h c =
      carries e.recovery_case_id none 0 row e rows es (Loads-map_ok (row ∷ rows) (e ∷ es) h) c

  of_case_loaded :
      (id : ℕ) (rows es : List ChainEntry)
      → Loads rows es
      → all (of_case id) rows ≡ true
      → all (of_case id) es ≡ true
  unfolding of_case
  of_case_loaded id [] [] w h = refl
  of_case_loaded id [] (e ∷ es) w h = absurd w
  of_case_loaded id (row ∷ rows) [] w h = absurd w
  of_case_loaded id (row ∷ rows) (e ∷ es) (q, w) h =
      let m = made_fields row e q in ground (arith, m.of_case, of_case_loaded id rows es w)

  IsChain-append :
      (id : ℕ) (es : List ChainEntry) (e : ChainEntry)
      → IsChain platform es
      → all (of_case id) es ≡ true
      → Follows platform id (last_hash none es) (length es + 1) e
      → IsChain platform (es ++ (e ∷ []))
  unfolding of_case
  IsChain-append id [] e c h f = (
    subst (λ i. Follows platform i none 1 e) (sym f.of_case)
        (let same : 0 + 1 ≡ 1 = omega arith in subst (λ k. Follows platform id none k e) same f),
    tt,
  )
  IsChain-append id (g ∷ gs) e c h f =
      let same : id ≡ g.recovery_case_id = ground arith in
      let count : length (g ∷ gs) + 1 ≡ 0 + length (g ∷ gs) + 1 = omega arith in
      Linked-append g.recovery_case_id none 0 (g ∷ gs) e c (
        subst (λ k. Follows platform g.recovery_case_id (last_hash none (g ∷ gs)) k e) count
          (subst (λ i. Follows platform i (last_hash none (g ∷ gs)) (length (g ∷ gs) + 1) e) same
            f))

-- Where the platform answers digests, the case exists, the chain of its stored events verifies as
-- valid, and the request is one that its constructor accepts, appending returns, and the chain of
-- the stored events verifies as valid again with one event more, where the table keeps event data as
-- it is given.
pub append_verifies :
    (platform : Platform) (db : AuditTables) (id : ℕ) (raw r : AppendRequest) (v : Verification)
    → IsDigest platform
    → make_append_request platform raw ≡ ok r
    → any (λ c. c == id) db.cases ≡ true
    → verify_persisted platform db id ≡ ok v
    → v.is_valid ≡ true
    → (e : ChainEntry) × (db' : AuditTables) × (append_audit_event platform db id r ≡ ok (e, db'))
      × (verify_persisted platform db' id ≡ ok (all_valid (v.checked_event_count + 1)))
unfolding append_audit_event verify_persisted load_chain
append_verifies platform db id raw r v digests requested known verified sound =
    elim (Result-cases (map_ok make_chain_entry (case_events id db))) [
      | inl (x, w) ↦ absurd (ground arith)
      | inr (es, w) ↦
          (let h : verify_chain platform es ≡ ok v = ground arith in
            let chain = IsChain-valid platform es v h sound in
            let counted : v.checked_event_count ≡ length es =
              ground (arith, verify_chain_total platform es chain) in
            let carry = chain-Carries platform (case_events id db) es w chain in
            let (e, build, b) =
              built platform digests id raw r requested (latest (case_events id db))
                (last_hash none es) carry.hashes in
            let number : e.sequence_number ≡ 0 + length es + 1 = b.numbered ∙ carry.numbers in
            let above =
              bounded_more platform _ e.sequence_number (case_events id db) (sym number)
                carry.bounded in
            let follows : Follows platform id (last_hash none es) (length es + 1) e = record {
              of_case = b.of_request;
              numbered = omega (arith, number);
              hashed_by = b.hashed_by;
              linked = b.linked;
              own_hash = b.own_hash;
            } in
            let own =
              of_case_loaded platform id (case_events id db) es
                (Loads-map_ok (case_events id db) es w) (own_events id db) in
            (
              e,
              record db { events = db.events ++ (e ∷ []) },
              rw (known, build),
              rw (
                case_events-append id db e b.of_request above,
                map_ok-append (case_events id db) es e w b.made,
                verify_chain_total platform (es ++ (e ∷ []))
                    (IsChain-append platform id es e chain own follows),
                length-snoc es e,
                counted,
              ),
            ))
    ]
