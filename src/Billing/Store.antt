-- ===== src/Billing/Store.antt =====
-- The tables of billing's database that the modelled code reads and writes, from the row types in
-- services/billing/src. The columns created_at, updated_at and sent_at, which hold times of writing,
-- are left out. A number stands for a UUID (event id, correlation id), which is only compared.
use faktureringssystemet.Prelude.{ℕ, Bool, String, Option, List}
use faktureringssystemet.Prelude.Int.{ℤ}
use faktureringssystemet.Shared.Text.{Text}
use faktureringssystemet.Billing.Dates.{Date, RecurrenceInterval}
use faktureringssystemet.Billing.Vat.{VatRate}

pub data InvoiceType : Type 0 where
  invoice credit_note reminder : InvoiceType

pub data InvoiceStatus : Type 0 where
  draft sent paid overdue credited superseded settled : InvoiceStatus

pub data DeliveryStatus : Type 0 where
  none queued sent delivered bounced failed : DeliveryStatus

pub record InvoiceRow : Type 0 where
  pub id : ℕ
  pub tenant_id : ℕ
  pub customer_id : ℕ
  pub invoice_number : Option ℕ
  pub ocr_number : Option Text
  pub invoice_type : InvoiceType
  pub status : InvoiceStatus
  pub delivery_status : DeliveryStatus
  pub date_issued : Date
  pub date_due : Date
  pub currency : String
  pub total_excl_vat_ore : ℤ
  pub total_vat_ore : ℤ
  pub total_incl_vat_ore : ℤ
  pub credits_invoice_id : Option ℕ
  pub reminds_invoice_id : Option ℕ
  pub superseded_by_invoice_id : Option ℕ
  pub parent_template_id : Option ℕ

-- `quantity` in thousandths; a credit note's is negative.
pub record InvoiceItem : Type 0 where
  pub position : ℕ
  pub description : String
  pub quantity : ℤ
  pub unit : String
  pub unit_price_ore : ℕ
  pub vat_rate : VatRate
  pub line_excl_vat_ore : ℤ
  pub line_vat_ore : ℤ
  pub line_incl_vat_ore : ℤ

pub record InvoiceItemRow : Type 0 where
  pub invoice_id : ℕ
  pub tenant_id : ℕ
  pub item : InvoiceItem

pub record PaymentRow : Type 0 where
  pub tenant_id : ℕ
  pub invoice_id : ℕ
  pub payment_id : Text
  pub amount_ore : ℕ

pub data CustomerType : Type 0 where
  company private : CustomerType

pub record CustomerRow : Type 0 where
  pub id : ℕ
  pub tenant_id : ℕ
  pub customer_type : CustomerType
  pub name : String
  pub email : String
  pub email_valid : Bool
  pub org_number : Option String
  pub pnr_encrypted : Option Text
  pub pnr_hmac : Option Text
  pub address_street : Option String
  pub address_zip : Option String
  pub address_city : Option String
  pub payment_terms_days : Option ℕ

pub record CompanySettingsRow : Type 0 where
  pub tenant_id : ℕ
  pub company_name : Option String
  pub org_number : Option Text
  pub bankgiro : Option Text
  pub vat_number : Option String
  pub address_street : Option String
  pub address_zip : Option String
  pub address_city : Option String
  pub logo_url : Option String
  pub next_invoice_number : ℕ
  pub reminder_fee_ore : ℕ
  pub payment_terms_days : ℕ

pub record LineInputDto : Type 0 where
  pub description : String
  pub quantity : ℕ
  pub unit_price_ore : ℕ
  pub vat_rate : VatRate
  pub unit : Option String

pub record InvoiceTemplateRow : Type 0 where
  pub id : ℕ
  pub tenant_id : ℕ
  pub customer_id : ℕ
  pub interval : RecurrenceInterval
  pub next_generation_date : Date
  pub billing_day : ℕ
  pub is_active : Bool
  pub currency : Option String
  pub lines : List LineInputDto

pub record Address : Type 0 where
  pub street : Option String
  pub zip : Option String
  pub city : Option String

-- `reminds_invoice_number` is there only for a reminder.
pub record SnapshotInvoice : Type 0 where
  pub id : ℕ
  pub invoice_number : Option ℕ
  pub ocr_number : Option Text
  pub invoice_type : InvoiceType
  pub date_issued : Date
  pub date_due : Date
  pub currency : String
  pub total_excl_vat_ore : ℤ
  pub total_vat_ore : ℤ
  pub total_incl_vat_ore : ℤ
  pub reminds_invoice_number : Option (Option ℕ)

pub record SnapshotCompany : Type 0 where
  pub name : Option String
  pub org_number : Option Text
  pub bankgiro : Option Text
  pub vat_number : Option String
  pub address : Address
  pub logo_url : Option String

pub record SnapshotCustomer : Type 0 where
  pub id : ℕ
  pub name : String
  pub email : String
  pub email_valid : Bool
  pub customer_type : CustomerType
  pub org_number : Option String
  pub address : Address

-- The frozen copy that documents renders.
pub record Snapshot : Type 0 where
  pub invoice : SnapshotInvoice
  pub company : SnapshotCompany
  pub customer : SnapshotCustomer
  pub lines : List InvoiceItem

pub record SnapshotRow : Type 0 where
  pub invoice_id : ℕ
  pub tenant_id : ℕ
  pub payload : Snapshot

-- The events that billing's invoice service writes, with their payloads.
pub data EventPayload : Type 0 where
  invoice_sent : ℕ → EventPayload
  invoice_credited invoice_reminder_sent : ℕ → ℕ → EventPayload

pub record OutboxEvent : Type 0 where
  pub tenant_id : ℕ
  pub correlation_id : ℕ
  pub payload : EventPayload

-- The metadata of an entry is left out.
pub record AuditEntry : Type 0 where
  pub tenant_id : ℕ
  pub actor_user_id : Option ℕ
  pub actor_service : Option String
  pub action : String
  pub resource_id : ℕ
  pub correlation_id : ℕ

-- The identity columns count in `next_invoice_id`, `next_template_id` and `next_customer_id`.
pub record Db : Type 0 where
  pub invoices : List InvoiceRow
  pub items : List InvoiceItemRow
  pub payments : List PaymentRow
  pub snapshots : List SnapshotRow
  pub customers : List CustomerRow
  pub settings : List CompanySettingsRow
  pub templates : List InvoiceTemplateRow
  pub outbox : List OutboxEvent
  pub audit_log : List AuditEntry
  pub processed_events : List ℕ
  pub next_invoice_id : ℕ
  pub next_template_id : ℕ
  pub next_customer_id : ℕ

-- `RequestContext`.
pub record RequestContext : Type 0 where
  pub user_id : ℕ
  pub tenant_id : ℕ
  pub correlation_id : ℕ
