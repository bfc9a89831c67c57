-- ===== src/Billing/Deliveries.antt =====
-- services/billing/src/deliveries/service.ts and repository.ts, with the order of
-- packages/contracts/src/delivery-rank.ts and its schema delivery-status-rank.json: what a delivery
-- report does. A status that the order does not have cannot be written down here.
pub mod Laws
use faktureringssystemet.Prelude.{
  ℕ, Bool, true, false, ◌&&◌, Option, none, some, List, [], ◌∷◌, ◌++◌, if◌then◌else◌, ltb,
  find_first, update_where, count_where,
}
use faktureringssystemet.Shared.Tx.{Tx, pure, gets, modify, ◌>>=◌, ◌>>◌}
use faktureringssystemet.Billing.Store.{DeliveryStatus, InvoiceRow, CustomerRow, Db}
use faktureringssystemet.Billing.Invoices.Repository.{is_invoice, is_customer}
use faktureringssystemet.Billing.Payments.{mark_processed}

-- `deliveryRank`
abbrev pub delivery_rank : DeliveryStatus → ℕ
delivery_rank DeliveryStatus.none = 0
delivery_rank DeliveryStatus.queued = 1
delivery_rank DeliveryStatus.sent = 2
delivery_rank DeliveryStatus.failed = 3
delivery_rank DeliveryStatus.delivered = 4
delivery_rank DeliveryStatus.bounced = 5

pub data BounceType : Type 0 where
  hard soft : BounceType

pub record DeliveryUpdate : Type 0 where
  pub event_id : ℕ
  pub tenant_id : ℕ
  pub correlation_id : ℕ
  pub invoice_id : ℕ
  pub delivery_status : DeliveryStatus
  pub bounce_type : Option BounceType

pub record DeliveryOutcome : Type 0 where
  pub applied : Bool
  pub status_advanced : Bool
  pub email_invalidated : Bool

-- The invoices whose delivery a report moves on.
abbrev pub is_behind : ℕ → ℕ → DeliveryStatus → InvoiceRow → Bool
is_behind t i next r =
    is_invoice t i r && ltb (delivery_rank r.delivery_status) (delivery_rank next)

abbrev pub with_delivery : DeliveryStatus → InvoiceRow → InvoiceRow
with_delivery next r = record r { delivery_status = next }

unfoldable pub advance_delivery_status : ℕ → ℕ → DeliveryStatus → Tx Db ℕ
advance_delivery_status t i next = do
  n ← gets (λ (db : Db). count_where (is_behind t i next) db.invoices)
  modify (λ db. record db {
    invoices = update_where (is_behind t i next) (with_delivery next) db.invoices;
  })
  pure n

abbrev customer_of : Option InvoiceRow → Option ℕ
customer_of none = none
customer_of (some r) = some r.customer_id

unfoldable pub customer_id_for_invoice : ℕ → ℕ → Tx Db (Option ℕ)
customer_id_for_invoice t i = gets (λ db. customer_of (find_first (is_invoice t i) db.invoices))

abbrev pub has_valid_email : ℕ → ℕ → CustomerRow → Bool
has_valid_email t c r = is_customer t c r && r.email_valid

abbrev pub without_email : CustomerRow → CustomerRow
without_email r = record r { email_valid = false }

unfoldable pub invalidate_customer_email : ℕ → ℕ → Tx Db ℕ
invalidate_customer_email t c = do
  n ← gets (λ (db : Db). count_where (has_valid_email t c) db.customers)
  modify (λ db. record db {
    customers = update_where (has_valid_email t c) without_email db.customers;
  })
  pure n

abbrev is_hard_bounce : DeliveryStatus → Option BounceType → Bool
is_hard_bounce DeliveryStatus.bounced (some BounceType.hard) = true
is_hard_bounce _ _ = false

-- The entry of the audit log that documents is named in.
unfoldable pub audit_email_invalidated : DeliveryUpdate → ℕ → Tx Db (Unit {0})
audit_email_invalidated u customer = modify (λ db. record db {
  audit_log =
      db.audit_log
      ++ record {
        tenant_id = u.tenant_id;
        actor_user_id = none;
        actor_service = some "documents";
        action = "customer.email_invalidated";
        resource_id = customer;
        correlation_id = u.correlation_id;
      }
        ∷ [];
})

unfoldable pub shut_off : DeliveryUpdate → ℕ → Tx Db Bool
shut_off u customer = do
  n ← invalidate_customer_email u.tenant_id customer
  let logged = audit_email_invalidated u customer >> pure true
  if ltb 0 n then logged else pure false

unfoldable pub invalidate_on_hard_bounce : DeliveryUpdate → Tx Db Bool
invalidate_on_hard_bounce u =
    let bounce = (do
      customer ← customer_id_for_invoice u.tenant_id u.invoice_id
      elim customer [ none ↦ pure false | some c ↦ shut_off u c ]) in
    if is_hard_bounce u.delivery_status u.bounce_type then bounce else pure false

abbrev pub not_reported : DeliveryOutcome
not_reported = record { applied = false; status_advanced = false; email_invalidated = false }

unfoldable pub apply_report : DeliveryUpdate → Tx Db DeliveryOutcome
apply_report u = do
  advanced ← advance_delivery_status u.tenant_id u.invoice_id u.delivery_status
  invalidated ← invalidate_on_hard_bounce u
  pure
      (record { applied = true; status_advanced = ltb 0 advanced; email_invalidated = invalidated })

unfoldable pub apply : DeliveryUpdate → Tx Db DeliveryOutcome
apply u = do
  fresh ← mark_processed u.event_id
  let rest = apply_report u
  if fresh then rest else pure not_reported
