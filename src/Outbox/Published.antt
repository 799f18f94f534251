-- ===== src/Outbox/Published.antt =====
-- Which messages a batch of the dispatcher marks as published, and which it leaves alone.
use mathlib.Core.List.{Memᴰ}
use reclaim_rail.Base.{
  ℕ, ◌≡◌, refl, sym, ap, subst, ◌∙◌, ℤ, Bool, true, false, ◌&&◌, List, [], ◌∷◌, arith, Datetime,
  String, inl, inr, ◌⊎◌, Bool-cases, if◌then◌else◌,
}
use reclaim_rail.Outbox.{
  OutboxMessage, DispatcherConfig, ClaimedMessage, DispatchResult, BrokerAnswer, accepted,
  is_pending, is_publishing, is_published, is_stale, stale_limit, release, claimable, claim,
  in_batch, update_where, still_claimed, claim_messages, finish, dispatch_each, dispatch_batch,
}
use reclaim_rail.Outbox.Settled.{Ends, finish-Step}

-- a row that an update does not concern stays, and every row after it comes from one before it
mem-update :
    (p : OutboxMessage → Bool) (f : OutboxMessage → OutboxMessage) {m : OutboxMessage}
    {rows : List OutboxMessage}
    → Memᴰ m rows
    → p m ≡ false
    → Memᴰ m (update_where p f rows)
mem-update p f (Memᴰ.head e) h = Memᴰ.head (rw (← e, h))
mem-update p f (Memᴰ.tail n) h = Memᴰ.tail (mem-update p f n h)

mem_of_mem-update :
    (p : OutboxMessage → Bool) (f : OutboxMessage → OutboxMessage) {m : OutboxMessage}
    (rows : List OutboxMessage)
    → Memᴰ m (update_where p f rows)
    → (n : OutboxMessage) × Memᴰ n rows × (m ≡ (if p n then f n else n))
mem_of_mem-update p f [] x = elim x [ ]
mem_of_mem-update p f (n ∷ rows) (Memᴰ.head e) = (n, Memᴰ.head refl, e)
mem_of_mem-update p f (n ∷ rows) (Memᴰ.tail x) =
    let (k, y, e) = mem_of_mem-update p f rows x in (k, Memᴰ.tail y, e)

module _ (broker : ClaimedMessage → BrokerAnswer) (clock : ClaimedMessage → Datetime)
    (retry_delay : ℕ → ℤ) (config : DispatcherConfig) where
  -- a message of the list that the broker has accepted, with the identifier
  abbrev pub Taken : ℕ → List ClaimedMessage → Type 0
  Taken id cs =
      (c : ClaimedMessage) × Memᴰ c cs × (c.id ≡ id) × ((s : String) × (broker c ≡ accepted s))

  came_from :
      (c : ClaimedMessage) (cs : List ClaimedMessage) (rows : List OutboxMessage)
      (f : OutboxMessage → OutboxMessage)
      → Ends f
      → ((n : OutboxMessage)
          → is_published (f n).status ≡ true
          → (s : String) × (broker c ≡ accepted s))
      → (m : OutboxMessage) → Memᴰ m (update_where (still_claimed c) f rows)
      → is_published m.status ≡ true
      → Memᴰ m rows ⊎ Taken m.id (c ∷ cs)
  came_from c cs rows f ends honest m x p =
      let (n, z, e) = mem_of_mem-update (still_claimed c) f rows x in
      elim (Bool-cases (still_claimed c n)) [
        | inl h ↦
            (let same : m ≡ f n = ground arith in
              let key : c.id ≡ m.id =
                (let own : n.id ≡ c.id = ground arith in
                  sym own ∙ sym (ends.same_id n) ∙ ap (λ k. k.id) (sym same)) in
              inr
                (c, Memᴰ.head refl, key, honest n (ap (λ k. is_published k.status) (sym same) ∙ p)))
        | inr h ↦ (let same : m ≡ n = ground arith in inl (subst (λ k. Memᴰ k rows) (sym same) z))
      ]

  -- a published row is not one that an update has made unpublished
  untouched :
      (f : OutboxMessage → OutboxMessage) (b : Bool) (n m : OutboxMessage)
      → m ≡ (if b then f n else n)
      → ((k : OutboxMessage) → is_published (f k).status ≡ false)
      → is_published m.status ≡ true
      → m ≡ n
  untouched f true n m e h p = absurd (ground (arith, h n, ap (λ k. is_published k.status) e))
  untouched f false n m e h p = e

  each_published :
      (cs : List ClaimedMessage) (r : DispatchResult) (rows : List OutboxMessage)
      (m : OutboxMessage)
      → Memᴰ m (dispatch_each broker clock retry_delay config cs r rows).1
      → is_published m.status ≡ true
      → Memᴰ m rows ⊎ Taken m.id cs
  unfolding dispatch_each
  each_published [] r rows m x p = inl x
  each_published (c ∷ cs) r rows m x p =
      let (r', rows') = finish broker clock retry_delay config (broker c) c r rows in
      let s = finish-Step broker clock retry_delay config (broker c) c r rows refl in
      elim (each_published cs r' rows' m x p) [
        | inr (d, y, e, w) ↦ inr (d, Memᴰ.tail y, e, w)
        | inl y ↦ came_from c cs rows s.end_of s.ends s.honest m (subst (Memᴰ m) s.moved y) p
      ]

  claim_published :
      (now : Datetime) (rows : List OutboxMessage) (m : OutboxMessage)
      → Memᴰ m (claim_messages config now rows).1
      → is_published m.status ≡ true
      → Memᴰ m rows
  unfolding claim_messages
  claim_published now rows m x p =
      let (n, y, e) = mem_of_mem-update _ (claim now) _ x in
      let same = untouched (claim now) _ n m e (λ k. refl) p in
      let (k, z, e') = mem_of_mem-update (is_stale (stale_limit config now)) (release now) rows y in
      let same' =
        untouched (release now) _ k n e' (λ k. refl)
          (ap (λ b. is_published b.status) (sym same) ∙ p) in
      subst (λ b. Memᴰ b rows) (sym (same ∙ same')) z

  -- A row that a batch leaves as published was so before, or the broker has accepted a message of
  -- the batch with its identifier.
  pub published_accepted :
      (now : Datetime) (rows : List OutboxMessage) (m : OutboxMessage)
      → Memᴰ m (dispatch_batch broker clock retry_delay config now rows).1
      → is_published m.status ≡ true
      → Memᴰ m rows ⊎ Taken m.id (claim_messages config now rows).0
  unfolding dispatch_batch
  published_accepted now rows m x p =
      let (messages, claimed_rows) = claim_messages config now rows in
      elim (each_published messages _ claimed_rows m x p) [
        | inl y ↦ inl (claim_published now rows m y p)
        | inr w ↦ inr w
      ]

  each_stays :
      (cs : List ClaimedMessage) (r : DispatchResult) (rows : List OutboxMessage)
      (m : OutboxMessage)
      → Memᴰ m rows
      → is_publishing m.status ≡ false
      → Memᴰ m (dispatch_each broker clock retry_delay config cs r rows).1
  unfolding dispatch_each
  each_stays [] r rows m x h = x
  each_stays (c ∷ cs) r rows m x h =
      let (r', rows') = finish broker clock retry_delay config (broker c) c r rows in
      let s = finish-Step broker clock retry_delay config (broker c) c r rows refl in
      let passed : still_claimed c m ≡ false = ground arith in
      each_stays cs r' rows' m
        (subst (Memᴰ m) (sym s.moved) (mem-update (still_claimed c) s.end_of x passed)) h

  -- A row that is neither pending nor on its way, one that is published or failed for good, is left
  -- as it is by every batch.
  pub ended_stays :
      (now : Datetime) (rows : List OutboxMessage) (m : OutboxMessage)
      → Memᴰ m rows
      → is_pending m.status ≡ false
      → is_publishing m.status ≡ false
      → Memᴰ m (dispatch_batch broker clock retry_delay config now rows).1
  unfolding dispatch_batch claim_messages
  ended_stays now rows m x h k =
      let fresh : is_stale (stale_limit config now) m ≡ false = ground arith in
      let apart : (claimable now m && in_batch _ m) ≡ false = ground arith in
      each_stays _ _ _ m (mem-update _ (claim now) (mem-update _ (release now) x fresh) apart) k
