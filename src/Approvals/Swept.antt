-- ===== src/Approvals/Swept.antt =====
-- What the expiry of pending approvals leaves.
use reclaim_rail.Base.{
  ℕ, ◌==◌, ◌≡◌, refl, sym, ap, not, if◌then◌else◌, subst, ◌∙◌, ℤ, pos_part, ltb, true, false, some,
  Result, ok, List, [], ◌∷◌, any, take, filter, length, ◌>>=◌, >>=-eq-ok, after_guards, Datetime,
  arith, Bool-cases, inl, inr,
}
use reclaim_rail.Base.Rows.{
  find, put, sort, find_key, found-put, find_other, any-find, any-sort, any-filter, any-map,
  length-map, take_whole,
}
use reclaim_rail.Audit.Chain.{Platform}
use reclaim_rail.Storage.{RecoveryApproval, RecoveryTables, pending}
use reclaim_rail.Approvals.{approval_is}
use reclaim_rail.Approvals.Decisions.{Graph, expire_graph, load_graph, expire_approval}
use reclaim_rail.Approvals.Queue.{
  due, expires_first, batch_limit, due_ids, expire_one, expire_each, expire_pending,
}
use reclaim_rail.Approvals.Parts.{Loaded, load_graph-Loaded, expire_approval_frame}

-- the row that a query by its identifier finds
abbrev RowOf : RecoveryTables → ℕ → RecoveryApproval → Type 0
RowOf db i a = find (λ b. b.id) i db.approvals ≡ some a

-- a row that is due is in a batch that is not full
due_listed :
    (db : RecoveryTables) (at : Datetime) (n : ℤ) (i : ℕ) (a : RecoveryApproval)
    → RowOf db i a
    → due at a ≡ true
    → ltb (length (due_ids db.approvals at n)) (pos_part n) ≡ true
    → any (λ id. id == i) (due_ids db.approvals at n) ≡ true
due_listed db at n i a row overdue small =
    let found = any-find (λ b. b.id) (due at) i db.approvals a row overdue in
    let waiting = sort expires_first (filter (due at) db.approvals) in
    let few : ltb (length (take (pos_part n) waiting)) (pos_part n) ≡ true =
      rw (← length-map (λ b. b.id) (take (pos_part n) waiting)) small in
    any-map (λ id. id == i) (λ b. b.id) (take (pos_part n) waiting)
    ∙ ap (any (λ b. b.id == i)) (take_whole (pos_part n) waiting few)
    ∙ any-sort expires_first (λ b. b.id == i) (filter (due at) db.approvals)
    ∙ any-filter (λ b. b.id == i) (due at) db.approvals
    ∙ found

module _ (platform : Platform) where
  abbrev round : RecoveryTables → Graph → Datetime → Result RecoveryTables
  round db g at =
      if not (approval_is g.approval.status pending)
      then ok db
      else expire_approval platform db g at >>= λ x. ok x.1

  skipped :
      (db db' : RecoveryTables) (g : Graph) (at : Datetime)
      → approval_is g.approval.status pending ≡ false
      → round db g at ≡ ok db'
      → db' ≡ db
  skipped db db' g at settled q = ground arith

  expired_round :
      (db db' : RecoveryTables) (g : Graph) (at : Datetime)
      → approval_is g.approval.status pending ≡ true
      → round db g at ≡ ok db'
      → db'.approvals ≡ put (λ b. b.id) (expire_graph at g).approval db.approvals
  expired_round db db' g at still q =
      let ((after, db₁), e, r) =
        >>=-eq-ok (expire_approval platform db g at) (λ x. ok x.1) (rw still at q) in
      let (same, (events, frame)) = expire_approval_frame platform db db₁ g after at e in
      let last : db₁ ≡ db' = cc in
      ap (λ d. d.approvals) (sym last ∙ frame)
      ∙ ap (λ k. put (λ b. b.id) k.approval db.approvals) same

  not_it :
      (db : RecoveryTables) (id i : ℕ) (g : Graph) (a : RecoveryApproval)
      → Loaded platform db id g
      → RowOf db i a
      → approval_is g.approval.status pending ≡ false
      → approval_is a.status pending ≡ true
      → (id == i) ≡ false
  not_it db id i g a l row settled p = elim (Bool-cases (id == i)) [
    | inr other ↦ other
    | inl e ↦
        (let same : id ≡ i = ground arith in
          let both : some g.approval ≡ some a =
            sym l.approval_row ∙ subst (λ k. RowOf db k a) (sym same) row in
          let one : g.approval ≡ a = cc in
          absurd (ground (arith, ap (λ k. approval_is k.status pending) one)))
  ]

  written :
      (db db' : RecoveryTables) (id i : ℕ) (g : Graph) (a : RecoveryApproval) (at : Datetime)
      → Loaded platform db id g
      → db'.approvals ≡ put (λ b. b.id) (expire_graph at g).approval db.approvals
      → RowOf db' i a
      → approval_is a.status pending ≡ true
      → RowOf db i a × ((id == i) ≡ false)
  written db db' id i g a at l w row p =
      let row' = rw w at row in
      elim (Bool-cases (id == i)) [
        | inl e ↦
            (let same : id ≡ i = ground arith in
              let put_row =
                found-put (λ b. b.id) id (expire_graph at g).approval g.approval db.approvals
                  l.approval_row refl in
              let both : some (expire_graph at g).approval ≡ some a =
                sym put_row
                ∙ subst
                    (λ k.
                      find (λ b. b.id) k (put (λ b. b.id) (expire_graph at g).approval db.approvals)
                      ≡ some a)
                    (sym same) row' in
              let one : (expire_graph at g).approval ≡ a = cc in
              absurd (ground (arith, ap (λ k. approval_is k.status pending) one)))
        | inr e ↦
            (let key : g.approval.id ≡ id =
                find_key (λ b. b.id) id db.approvals g.approval l.approval_row in
              let apart : (g.approval.id == i) ≡ false = rw key e in
              (
                sym (find_other (λ b. b.id) i (expire_graph at g).approval db.approvals apart)
                    ∙ row',
                e,
              ))
      ]

  -- a pending row after a round was there before it, and is of another approval
  expire_one_pending :
      (db db' : RecoveryTables) (id : ℕ) (at : Datetime) (i : ℕ) (a : RecoveryApproval)
      → expire_one platform db id at ≡ ok db'
      → RowOf db' i a
      → approval_is a.status pending ≡ true
      → RowOf db i a × ((id == i) ≡ false)
  unfolding expire_one
  expire_one_pending db db' id at i a h row p =
      let (g, loaded, q) = >>=-eq-ok (load_graph platform db id) _ h in
      let l = load_graph-Loaded platform db id g loaded in
      elim (Bool-cases (approval_is g.approval.status pending)) [
        | inr settled ↦
            (let same : db' ≡ db = skipped db db' g at settled q in
              let before_it : RowOf db i a = subst (λ d. RowOf d i a) same row in
              (before_it, not_it db id i g a l before_it settled p))
        | inl still ↦ written db db' id i g a at l (expired_round db db' g at still q) row p
      ]

  pub expire_each_pending :
      (db db' : RecoveryTables) (ids : List ℕ) (at : Datetime) (i : ℕ) (a : RecoveryApproval)
      → expire_each platform db ids at ≡ ok db'
      → RowOf db' i a
      → approval_is a.status pending ≡ true
      → RowOf db i a × (any (λ id. id == i) ids ≡ false)
  unfolding expire_each
  expire_each_pending db db' [] at i a h row p =
      let same : db' ≡ db = cc in (subst (λ d. RowOf d i a) same row, refl)
  expire_each_pending db db' (id ∷ ids) at i a h row p =
      let (db₁, one, rest) = >>=-eq-ok (expire_one platform db id at) _ h in
      let (row₁, others) = expire_each_pending db₁ db' ids at i a rest row p in
      let (row₀, other) = expire_one_pending db db₁ id at i a one row₁ p in
      (row₀, rw (other, others))

  -- When the expiry of pending approvals returns fewer than its batch size, no approval that a
  -- query by its identifier finds afterwards is pending and past its expiry.
  pub expire_pending_clears :
      (db db' : RecoveryTables) (at : Datetime) (batch_size : ℤ) (count i : ℕ)
      (a : RecoveryApproval)
      → expire_pending platform db at batch_size ≡ ok (count, db')
      → ltb count (pos_part batch_size) ≡ true
      → RowOf db' i a
      → due at a ≡ false
  unfolding expire_pending
  expire_pending_clears db db' at batch_size count i a h small row = elim (Bool-cases (due at a)) [
    | inr settled ↦ settled
    | inl overdue ↦
        (let ids = due_ids db.approvals at batch_size in
          let (db₁, each, answer) =
            >>=-eq-ok (expire_each platform db ids at) _
              (after_guards (not at.tz_aware) (not (batch_limit batch_size)) _ _ _ _ h) in
          let last : db₁ ≡ db' = cc in
          let counted : length ids ≡ count = cc in
          let (row₀, unlisted) =
            expire_each_pending db db' ids at i a (rw last at each) row (ground arith) in
          let listed = due_listed db at batch_size i a row₀ overdue (rw counted small) in absurd cc)
  ]
