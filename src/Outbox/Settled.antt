-- ===== src/Outbox/Settled.antt =====
-- What a batch of the dispatcher leaves of the messages that it claimed.
use reclaim_rail.Base.{
  ℕ, ◌+◌, ◌==◌, ◌≡◌, refl, subst, ap, ◌∙◌, ℤ, Bool, true, false, ◌&&◌, List, [], ◌∷◌, any, length,
  arith, Datetime, String, inl, inr, Bool-cases,
}
use reclaim_rail.Outbox.{
  OutboxMessage, DispatcherConfig, ClaimedMessage, DispatchResult, BrokerAnswer, accepted, raised,
  is_publishing, is_published, gives_up, update_where, still_claimed, claim_messages,
  mark_published, as_published, as_failure, record_failure, counted_failure, finish, dispatch_each,
  dispatch_batch,
}

-- a row with the identifier that is still on its way
abbrev pub unsettled : ℕ → OutboxMessage → Bool
unsettled id m = (m.id == id) && is_publishing m.status

-- an end that a claimed row is given
pub record Ends (f : OutboxMessage → OutboxMessage) : Type 0 where
  pub same_id : (m : OutboxMessage) → (f m).id ≡ m.id
  pub settles : (m : OutboxMessage) → is_publishing (f m).status ≡ false

as_published-Ends : (now : Datetime) (s : String) → Ends (as_published now s)
as_published-Ends now s = record { same_id = λ m. refl; settles = λ m. refl }

as_failure-Ends :
    (b : Bool) (now : Datetime) (delay : ℤ) (s : String) → Ends (as_failure b now delay s)
as_failure-Ends true now delay s = record { same_id = λ m. refl; settles = λ m. refl }
as_failure-Ends false now delay s = record { same_id = λ m. refl; settles = λ m. refl }

-- ending the rows of a message settles them, and unsettles none
update-settles :
    (c : ClaimedMessage) (f : OutboxMessage → OutboxMessage) (rows : List OutboxMessage)
    → Ends f
    → any (unsettled c.id) (update_where (still_claimed c) f rows) ≡ false
update-settles c f [] e = refl
update-settles c f (m ∷ rows) e =
    ground (arith, e.same_id m, e.settles m, update-settles c f rows e)

update-keeps :
    (id : ℕ) (c : ClaimedMessage) (f : OutboxMessage → OutboxMessage) (rows : List OutboxMessage)
    → Ends f
    → any (unsettled id) rows ≡ false
    → any (unsettled id) (update_where (still_claimed c) f rows) ≡ false
update-keeps id c f [] e h = refl
update-keeps id c f (m ∷ rows) e h =
    ground (arith, e.same_id m, e.settles m, update-keeps id c f rows e)

-- the counts of a result
abbrev pub ended : DispatchResult → ℕ
ended r = r.published + r.retried + r.failed

module _ (broker : ClaimedMessage → BrokerAnswer) (clock : ClaimedMessage → Datetime)
    (retry_delay : ℕ → ℤ) (config : DispatcherConfig) where
  -- what the end of one message does
  pub record Step (c : ClaimedMessage) (r r' : DispatchResult) (rows rows' : List OutboxMessage)
      : Type 0 where
    pub end_of : OutboxMessage → OutboxMessage
    pub ends : Ends end_of
    pub moved : rows' ≡ update_where (still_claimed c) end_of rows
    pub counted : ended r' ≡ ended r + 1
    pub kept : r'.claimed ≡ r.claimed
    pub honest :
        (m : OutboxMessage)
        → is_published (end_of m).status ≡ true
        → (s : String) × (broker c ≡ accepted s)

  counted-failure :
      (b : Bool) (r : DispatchResult)
      → (ended (counted_failure b r) ≡ ended r + 1) × ((counted_failure b r).claimed ≡ r.claimed)
  counted-failure true r = (omega arith, refl)
  counted-failure false r = (omega arith, refl)

  failure_unpublished :
      (b : Bool) (now : Datetime) (delay : ℤ) (error : String) (m : OutboxMessage)
      → is_published (as_failure b now delay error m).status ≡ false
  failure_unpublished true now delay error m = refl
  failure_unpublished false now delay error m = refl

  pub finish-Step :
      (a : BrokerAnswer) (c : ClaimedMessage) (r : DispatchResult) (rows : List OutboxMessage)
      → broker c ≡ a
      → let (r', rows') = finish broker clock retry_delay config a c r rows in
        Step c r r' rows rows'
  unfolding finish mark_published record_failure
  finish-Step (accepted s) c r rows h = record {
    end_of = as_published (clock c) s;
    ends = as_published-Ends (clock c) s;
    moved = refl;
    counted = omega arith;
    kept = refl;
    honest = λ m p. (s, h);
  }
  finish-Step (raised s) c r rows h =
      let b = gives_up config c in
      let f = as_failure b (clock c) (retry_delay c.attempt_count) s in
      record {
        end_of = f;
        ends = as_failure-Ends b (clock c) (retry_delay c.attempt_count) s;
        moved = refl;
        counted = (counted-failure b r).0;
        kept = (counted-failure b r).1;
        honest = λ m p.
            absurd
              (ground (arith, failure_unpublished b (clock c) (retry_delay c.attempt_count) s m));
      }

  each_keeps :
      (id : ℕ) (cs : List ClaimedMessage) (r : DispatchResult) (rows : List OutboxMessage)
      → any (unsettled id) rows ≡ false
      → any (unsettled id) (dispatch_each broker clock retry_delay config cs r rows).1 ≡ false
  unfolding dispatch_each
  each_keeps id [] r rows h = h
  each_keeps id (c ∷ cs) r rows h =
      let (r', rows') = finish broker clock retry_delay config (broker c) c r rows in
      let s = finish-Step (broker c) c r rows refl in
      each_keeps id cs r' rows'
        (ap (any (unsettled id)) s.moved ∙ update-keeps id c s.end_of rows s.ends h)

  each_settles :
      (id : ℕ) (cs : List ClaimedMessage) (r : DispatchResult) (rows : List OutboxMessage)
      → any (λ c. c.id == id) cs ≡ true
      → any (unsettled id) (dispatch_each broker clock retry_delay config cs r rows).1 ≡ false
  unfolding dispatch_each
  each_settles id [] r rows h = cc
  each_settles id (c ∷ cs) r rows h =
      let (r', rows') = finish broker clock retry_delay config (broker c) c r rows in
      let s = finish-Step (broker c) c r rows refl in
      elim (Bool-cases (c.id == id)) [
        | inl e ↦
            (let same : c.id ≡ id = ground arith in
              each_keeps id cs r' rows' (
                ap (any (unsettled id)) s.moved
                ∙ subst
                    (λ i. any (unsettled i) (update_where (still_claimed c) s.end_of rows) ≡ false)
                    same (update-settles c s.end_of rows s.ends)))
        | inr e ↦ each_settles id cs r' rows' (ground arith)
      ]

  each_counts :
      (cs : List ClaimedMessage) (r : DispatchResult) (rows : List OutboxMessage)
      → let r' = (dispatch_each broker clock retry_delay config cs r rows).0 in
        (ended r' ≡ ended r + length cs) × (r'.claimed ≡ r.claimed)
  unfolding dispatch_each
  each_counts [] r rows = (omega arith, refl)
  each_counts (c ∷ cs) r rows =
      let (r', rows') = finish broker clock retry_delay config (broker c) c r rows in
      let s = finish-Step (broker c) c r rows refl in
      let (p, q) = each_counts cs r' rows' in (omega (arith, p, s.counted), q ∙ s.kept)

  -- After a batch, no row with the identifier of a message that it claimed is still on its way, the
  -- result counts every claimed message, and each of them as published, retried or failed.
  pub dispatch_settles :
      (now : Datetime) (rows : List OutboxMessage) (id : ℕ)
      → any (λ c. c.id == id) (claim_messages config now rows).0 ≡ true
      → let (r, rows') = dispatch_batch broker clock retry_delay config now rows in
        (any (unsettled id) rows' ≡ false)
        × (r.claimed ≡ length (claim_messages config now rows).0)
        × (r.published + r.retried + r.failed ≡ r.claimed)
  unfolding dispatch_batch
  dispatch_settles now rows id h =
      let (messages, claimed_rows) = claim_messages config now rows in
      let start : DispatchResult = record {
        claimed = length messages;
        published = 0;
        retried = 0;
        failed = 0;
      } in
      let (p, q) = each_counts messages start claimed_rows in
      (each_settles id messages start claimed_rows h, q, omega (arith, p, q))
