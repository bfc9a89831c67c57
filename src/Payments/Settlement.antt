-- ===== src/Payments/Settlement.antt =====
-- services/payments/src/billing-client.ts before services/billing/src: payments asks billing over the
-- network, here over a network that works, and billing books what payments' events say.
pub mod Laws
mod Tests
use faktureringssystemet.Prelude.{ℕ, Option, none, some, or_else}
use faktureringssystemet.Shared.Errors.{Error, Result, ok, err}
use faktureringssystemet.Billing.Store.{Db}
use faktureringssystemet.Billing.CompanySettings.{resolve_tenant_by_bankgiro}
use faktureringssystemet.Billing.Invoices.Resolve.{ResolvedInvoice, resolve_by_ocr, resolve_by_id}
use faktureringssystemet.Billing.Payments.{PaymentApplyUpdate}
use faktureringssystemet.Payments.Store.{InvoiceForMatching, BillingClient, PaymentEvent}

-- 404 is no error.
abbrev pub answer_of : {A B : Type 0} → (A → B) → Result (A × Db) → Result (Option B)
answer_of f (ok (a, db)) = ok (some (f a))
answer_of f (err Error.not_found) = ok none
answer_of f (err e) = err e

abbrev pub for_matching : ResolvedInvoice → InvoiceForMatching
for_matching r = record {
  current_invoice_id = r.current_invoice_id;
  status = r.status;
  remaining_ore = r.remaining_ore;
  currency = r.currency;
}

-- The answers come from billing's database as it is.
abbrev pub client_of : Db → BillingClient
client_of db = record {
  resolve_tenant_by_bankgiro = λ b c. answer_of (λ t. t) (resolve_tenant_by_bankgiro b db);
  resolve_invoice_by_ocr = λ t ocr c. answer_of for_matching (resolve_by_ocr t ocr db);
  resolve_invoice_by_id = λ t i c. answer_of for_matching (resolve_by_id t i db);
}

-- What billing's consumer makes of an event of payments.
abbrev pub update_of : ℕ → PaymentEvent → PaymentApplyUpdate
update_of id e = record {
  event_id = id;
  tenant_id = or_else e.tenant_id 0;
  invoice_id = e.invoice_id;
  payment_id = e.payment_id;
  amount_ore = e.amount_ore;
}
