-- ===== src/Approvals/Queue.antt =====
-- The queries over all approvals: the batch that expires the pending ones, and the list for operators.
use reclaim_rail.Base.{
  ℕ, leb, ℤ, pos, pos_part, leb_ℤ, Bool, true, not, ◌&&◌, ◌||◌, Option, none, some, List, [], ◌∷◌,
  length, take, filter, map, Result, ok, value_error, ◌>>=◌, ◌>>◌, raise_if, Datetime, before,
  not_after, require_timezone_aware, if◌then◌else◌,
}
use reclaim_rail.Base.Rows.{sort}
use reclaim_rail.Audit.Chain.{Platform}
use reclaim_rail.Storage.{ApprovalStatus, pending, RecoveryApproval, RecoveryTables}
use reclaim_rail.Approvals.{approval_is}
use reclaim_rail.Approvals.Decisions.{load_graph, expire_approval}

-- `status == PENDING` and `expires_at <= reference_time`
abbrev pub due : Datetime → RecoveryApproval → Bool
due at a = approval_is a.status pending && not_after a.expires_at at

-- `order_by(expires_at, id)`
abbrev pub expires_first : RecoveryApproval → RecoveryApproval → Bool
expires_first a b =
    before a.expires_at b.expires_at || (not (before b.expires_at a.expires_at) && leb a.id b.id)

-- `order_by(requested_at.desc(), id)`
abbrev pub requested_last : RecoveryApproval → RecoveryApproval → Bool
requested_last a b =
    before b.requested_at a.requested_at
    || (not (before a.requested_at b.requested_at) && leb a.id b.id)

-- `where(status == s)`, where one is asked for
abbrev pub with_status : Option ApprovalStatus → RecoveryApproval → Bool
with_status none a = true
with_status (some s) a = approval_is a.status s

-- `1 <= n <= 500`
abbrev pub batch_limit : ℤ → Bool
batch_limit n = leb_ℤ (pos 1) n && leb_ℤ n (pos 500)

-- the identifiers of a batch; no row is locked by another session
abbrev pub due_ids : List RecoveryApproval → Datetime → ℤ → List ℕ
due_ids approvals at batch_size =
    map (λ a. a.id) (take (pos_part batch_size) (sort expires_first (filter (due at) approvals)))

-- `list_recovery_approvals`
unfoldable pub list_approvals :
    RecoveryTables → Option ApprovalStatus → ℤ → Result (List RecoveryApproval)
list_approvals db status limit = do
  raise_if (not (batch_limit limit)) (value_error "Approval list limit must be between 1 and 500")
  ok (take (pos_part limit) (sort requested_last (filter (with_status status) db.approvals)))

module _ (platform : Platform) where
  -- one round of the loop
  unfoldable pub expire_one : RecoveryTables → ℕ → Datetime → Result RecoveryTables
  expire_one db id at = do
    g ← load_graph platform db id
    if not (approval_is g.approval.status pending)
        then ok db
        else do (after, db') ← expire_approval platform db g at; ok db'

  unfoldable pub expire_each : RecoveryTables → List ℕ → Datetime → Result RecoveryTables
  expire_each db [] at = ok db
  expire_each db (id ∷ ids) at = do db' ← expire_one db id at; expire_each db' ids at

  -- `expire_pending_recovery_approvals`
  unfoldable pub expire_pending : RecoveryTables → Datetime → ℤ → Result (ℕ × RecoveryTables)
  expire_pending db at batch_size = do
    require_timezone_aware at (value_error "Approval expiry time must be timezone-aware")
    raise_if (not (batch_limit batch_size))
        (value_error "Approval expiry batch size must be between 1 and 500")
    let ids = due_ids db.approvals at batch_size
    db' ← expire_each db ids at
    ok (length ids, db')
