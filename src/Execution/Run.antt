-- ===== src/Execution/Run.antt =====
-- `attach_transient_customer_to_payment_link_request` and `execute_recovery_payment_link_action`: the
-- transactions of one execution, with what the providers answer in it as parameters.
use reclaim_rail.Base.{
  ℕ, ◌==◌, ℤ, String, Bool, true, false, not, ◌&&◌, Option, none, some, is_some, Result, ok, err,
  value_error, provider_error, customer_provider_error, provider_failure, ◌>>=◌, ◌>>◌, Datetime,
  require_timezone_aware, if◌then◌else◌,
}
use reclaim_rail.Audit.Chain.{Platform}
use reclaim_rail.Links.{LinkRequest, PaymentLink, PaymentCustomer}
use reclaim_rail.Storage.{RecoveryTables}
use reclaim_rail.Execution.{
  PreparedAction, ExecutionResult, Preparation, prepared, terminal, Bounds, Surroundings,
}
use reclaim_rail.Execution.Prepare.{prepare_action}
use reclaim_rail.Execution.Finish.{validate_link, complete_action, fail_action}

-- the operations of `RazorpayPaymentLinkProvider` that an execution calls, each at most once
pub record LinkProvider : Type 0 where
  pub create_link : LinkRequest → Result PaymentLink
  pub find_link : String → Result (Option PaymentLink)

-- `fetch_payment_customer`
abbrev pub CustomerProvider : Type 0
CustomerProvider = String → Result PaymentCustomer

-- `async with session_factory.begin()`: what is raised rolls the transaction back
abbrev pub transact {ℓ} :
    {A : Type ℓ} → RecoveryTables → Result (A × RecoveryTables) → Result A × RecoveryTables
transact db (ok (answer, db')) = (ok answer, db')
transact db (err e) = (err e, db)

abbrev pub with_customer : PreparedAction → PaymentCustomer → PreparedAction
with_customer p customer =
    if not (is_some customer.email) && not (is_some customer.contact) then p else record p {
      request = record p.request {
        customer_email = customer.email;
        customer_contact = customer.contact;
        notify_email = false;
        notify_sms = false;
      };
    }

-- the `except` clause of the lookup
abbrev pub after_lookup : PreparedAction → Result PaymentCustomer → Result PreparedAction
after_lookup p (ok customer) = ok (with_customer p customer)
after_lookup p (err customer_provider_error) = ok p
after_lookup p (err e) = err e

abbrev pub look_up : PreparedAction → Option CustomerProvider → Result PreparedAction
look_up p none = ok p
look_up p (some fetch) = after_lookup p (fetch p.provider_payment_id)

unfoldable pub attach_customer : PreparedAction → Option CustomerProvider → Result PreparedAction
attach_customer p customers = if not p.customer_contact_allowed then ok p else look_up p customers

-- the link of a first attempt, and of a retry
abbrev pub created_link : LinkProvider → PreparedAction → Result (PaymentLink × Bool)
created_link provider p = do link ← provider.create_link p.request; ok (link, false)

abbrev pub found_or_created :
    LinkProvider → PreparedAction → Option PaymentLink → Result (PaymentLink × Bool)
found_or_created provider p (some link) = ok (link, true)
found_or_created provider p none = created_link provider p

unfoldable pub obtain_link : LinkProvider → PreparedAction → Result (PaymentLink × Bool)
obtain_link provider p =
    if p.attempt_number == 1
    then created_link provider p
    else do found ← provider.find_link p.reference_id; found_or_created provider p found

-- the body of `try`
unfoldable pub deliver :
    LinkProvider
    → Option CustomerProvider
    → PreparedAction
    → Result (PreparedAction × PaymentLink × Bool)
deliver provider customers p = do
  p' ← attach_customer p customers
  (link, recovered_existing) ← obtain_link provider p'
  validate_link p' link
  ok (p', link, recovered_existing)

module _ (platform : Platform) where
  abbrev pub failure_of :
      Option ℕ → Result Bool × RecoveryTables → Result ExecutionResult × RecoveryTables
  failure_of status_code (ok retryable, db) = (err (provider_failure retryable status_code), db)
  failure_of status_code (err e, db) = (err e, db)

  -- the second transaction: a failure or the completion
  unfoldable pub settle :
      RecoveryTables
      → PreparedAction
      → ℤ
      → Datetime
      → Result (PreparedAction × PaymentLink × Bool)
      → Result ExecutionResult × RecoveryTables
  settle db p maximum_attempts at (ok (p', link, recovered_existing)) =
      transact db (complete_action platform db p' link recovered_existing at)
  settle db p maximum_attempts at (err (provider_error retryable status_code code)) =
      failure_of status_code (
        transact db (
          fail_action platform db p
            (record {
              retryable = retryable;
              status_code = status_code;
              provider_error_code = code;
            })
            at maximum_attempts))
  settle db p maximum_attempts at (err e) = (err e, db)

  abbrev pub go_on :
      LinkProvider
      → Option CustomerProvider
      → ℤ
      → Datetime
      → Result Preparation × RecoveryTables
      → Result ExecutionResult × RecoveryTables
  go_on provider customers maximum_attempts at (err e, db) = (err e, db)
  go_on provider customers maximum_attempts at (ok (terminal result), db) = (ok result, db)
  go_on provider customers maximum_attempts at (ok (prepared p), db) =
      settle db p maximum_attempts at (deliver provider customers p)

  abbrev pub after_check :
      Result (Unit {0})
      → RecoveryTables
      → Result ExecutionResult × RecoveryTables
      → Result ExecutionResult × RecoveryTables
  after_check (err e) db rest = (err e, db)
  after_check (ok _) db rest = rest

  -- `execute_recovery_payment_link_action`, with the tables that it leaves
  unfoldable pub execute_action :
      (ℕ → String)
      → Surroundings
      → LinkProvider
      → Option CustomerProvider
      → RecoveryTables
      → ℕ
      → Bounds
      → Datetime
      → Result ExecutionResult × RecoveryTables
  execute_action uuid_hex around provider customers db id bounds at =
      after_check
        (require_timezone_aware at
          (value_error "Recovery action execution time must be timezone-aware"))
        db
        (go_on provider customers bounds.maximum_attempts at
          (transact db (prepare_action platform uuid_hex around db id bounds at)))
