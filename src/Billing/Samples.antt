-- ===== src/Billing/Samples.antt =====
-- A small database of billing and calls of it, for tests.
use faktureringssystemet.Prelude.{true, false, none, some, List, [], ◌∷◌}
use faktureringssystemet.Prelude.Int.{pos}
use faktureringssystemet.Billing.Dates.{Date, RecurrenceInterval}
use faktureringssystemet.Billing.Vat.{VatRate}
use faktureringssystemet.Billing.Store.{
  InvoiceType, InvoiceStatus, DeliveryStatus, CustomerType, CustomerRow, CompanySettingsRow,
  InvoiceRow, Db, RequestContext,
}
use faktureringssystemet.Billing.Invoices.Repository.{default_settings}
use faktureringssystemet.Billing.Invoices.Service.{CreateInvoiceInput}
use faktureringssystemet.Shared.Text.{codes}
use faktureringssystemet.Billing.CompanySettings.{CompanySettingsPatch}
use faktureringssystemet.Billing.Payments.{PaymentApplyUpdate, PaymentApplyOutcome}
use faktureringssystemet.Billing.Deliveries.{BounceType, DeliveryUpdate, DeliveryOutcome}
use faktureringssystemet.Billing.Calls.{Call, create, send, configure, drop_template}
use faktureringssystemet.Billing.Customers.{Deps}

abbrev pub customer : CustomerRow
customer = record {
  id = 7;
  tenant_id = 1;
  customer_type = CustomerType.company;
  name = "Kund AB";
  email = "kund@example.se";
  email_valid = true;
  org_number = some "5560360793";
  pnr_encrypted = none;
  pnr_hmac = none;
  address_street = none;
  address_zip = none;
  address_city = none;
  payment_terms_days = none;
}

abbrev pub empty : Db
empty = record {
  invoices = [];
  items = [];
  payments = [];
  snapshots = [];
  customers = customer ∷ [];
  settings = [];
  templates = [];
  outbox = [];
  audit_log = [];
  processed_events = [];
  next_invoice_id = 1;
  next_template_id = 1;
  next_customer_id = 8;
}

abbrev pub ctx : RequestContext
ctx = record { user_id = 3; tenant_id = 1; correlation_id = 99 }

-- Encryption and the HMAC that leave a text as it is.
abbrev pub deps : Deps
deps = record { encrypt_field = λ t. t; hmac_field = λ t. t; current_year = 2026 }

abbrev pub today : Date
today = record { year = 2026; month = 5; day = 4 }

abbrev pub one_line : CreateInvoiceInput
one_line = record {
  customer_id = some 7;
  customer = none;
  date_issued = none;
  date_due = none;
  currency = none;
  lines =
      record {
        description = "Konsulttid";
        quantity = 2000;
        unit_price_ore = 50000;
        vat_rate = VatRate.rate_25;
        unit = none;
      }
      ∷ [];
}

abbrev pub own_details : CompanySettingsPatch
own_details = record {
  company_name = some "Firma AB";
  org_number = some (codes "556036-0793");
  bankgiro = some (codes "5050-1055");
  vat_number = none;
  address_street = none;
  address_zip = none;
  address_city = none;
  logo_url = none;
  reminder_fee_ore = none;
  payment_terms_days = none;
}

-- A draft that is sent, and one that is refused before the sender's details are known.
abbrev pub calls : List Call
calls = create deps today ctx one_line ∷ send ctx 1 ∷ configure ctx own_details ∷ send ctx 1 ∷ []

-- The sender's row and the invoice after these calls.
abbrev pub sender : CompanySettingsRow
sender = record (default_settings 1) {
  company_name = some "Firma AB";
  org_number = some (codes "556036-0793");
  bankgiro = some (codes "50501055");
  next_invoice_number = 2;
}

abbrev pub sent_invoice : InvoiceRow
sent_invoice = record {
  id = 1;
  tenant_id = 1;
  customer_id = 7;
  invoice_number = some 1;
  ocr_number = some (codes "133");
  invoice_type = InvoiceType.invoice;
  status = InvoiceStatus.sent;
  delivery_status = DeliveryStatus.none;
  date_issued = today;
  date_due = record { year = 2026; month = 6; day = 3 };
  currency = "SEK";
  total_excl_vat_ore = pos 100000;
  total_vat_ore = pos 25000;
  total_incl_vat_ore = pos 125000;
  credits_invoice_id = none;
  reminds_invoice_id = none;
  superseded_by_invoice_id = none;
  parent_template_id = none;
}

abbrev pub sold : Db
sold = record empty { invoices = sent_invoice ∷ []; settings = sender ∷ []; next_invoice_id = 2 }

-- An invoice that came from a template, and calls of which one deletes that.
abbrev pub generated_invoice : InvoiceRow
generated_invoice = record sent_invoice { parent_template_id = some 1 }

abbrev pub subscribed : Db
subscribed = record sold {
  invoices = generated_invoice ∷ [];
  templates =
      record {
        id = 1;
        tenant_id = 1;
        customer_id = 7;
        interval = RecurrenceInterval.monthly;
        next_generation_date = today;
        billing_day = 1;
        is_active = true;
        currency = none;
        lines = one_line.lines;
      }
      ∷ [];
  next_template_id = 2;
}

abbrev pub ending_calls : List Call
ending_calls = drop_template ctx 1 ∷ calls

abbrev pub drafted : Db
drafted = record sold {
  invoices =
      record sent_invoice { invoice_number = none; ocr_number = none; status = InvoiceStatus.draft }
      ∷ [];
}

abbrev pub whole_payment : PaymentApplyUpdate
whole_payment = record {
  event_id = 41;
  tenant_id = 1;
  invoice_id = 1;
  payment_id = codes "tx-1";
  amount_ore = 125000;
}

abbrev pub paid_outcome : PaymentApplyOutcome
paid_outcome = record {
  applied = true;
  payment_inserted = true;
  invoice_marked_paid = true;
  alarms = [];
}

abbrev pub paid_up : Db
paid_up = record sold {
  invoices = record sent_invoice { status = InvoiceStatus.paid } ∷ [];
  payments =
      record { tenant_id = 1; invoice_id = 1; payment_id = codes "tx-1"; amount_ore = 125000 } ∷ [];
  processed_events = 41 ∷ [];
}

abbrev pub bounced : DeliveryUpdate
bounced = record {
  event_id = 42;
  tenant_id = 1;
  correlation_id = 99;
  invoice_id = 1;
  delivery_status = DeliveryStatus.bounced;
  bounce_type = some BounceType.soft;
}

abbrev pub bounce_outcome : DeliveryOutcome
bounce_outcome = record { applied = true; status_advanced = true; email_invalidated = false }

abbrev pub returned : Db
returned = record sold {
  invoices = record sent_invoice { delivery_status = DeliveryStatus.bounced } ∷ [];
  processed_events = 42 ∷ [];
}
