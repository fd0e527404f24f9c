-- ===== src/Checkout/Records.antt =====
-- The tables of prisma/schema.prisma that the checkout reads and writes. Times are in milliseconds
-- and amounts in thousandths.
use bookingqube_nest_backend.Prelude.{ℕ, String, Option, List, Bool}
use bookingqube_nest_backend.Inventory.Model.{InventoryDelta, Store}

pub data HoldStatus : Type 0 where
  active expired released converted : HoldStatus

pub data OrderStatus : Type 0 where
  pending_payment paid cancelled order_expired refunded partially_refunded : OrderStatus

-- A row of `ticket_holds` with its rows of `ticket_hold_items`.
pub record TicketHold : Type 0 where
  pub id : String
  pub status : HoldStatus
  pub expires_at : ℕ
  pub customer_id : Option String
  pub release_token_hash : Option String
  pub items : List InventoryDelta

pub record OrderLine : Type 0 where
  pub inventory_item_id : Option String
  pub quantity : ℕ

-- The method is the one that the label of the order's payment stands for.
pub record Order : Type 0 where
  pub id : String
  pub hold_id : Option String
  pub status : OrderStatus
  pub common_order : String
  pub idempotency_key : String
  pub customer_id : Option String
  pub customer_email : Option String
  pub event_id : Option String
  pub event_slug : Option String
  pub is_pos : Bool
  pub total_amount : ℕ
  pub currency : String
  pub items : List OrderLine
  pub label_method_id : Option ℕ
  pub paid_at : Option ℕ
  pub cancelled_at : Option ℕ
  pub report_version : ℕ

pub record AdvancePayment : Type 0 where
  pub hold_id : String
  pub is_pending : Bool

pub data PaymentGateway : Type 0 where
  myfatoorah mastercard qpay : PaymentGateway

pub data PaymentStatus : Type 0 where
  payment_pending payment_paid payment_failed payment_cancelled : PaymentStatus
  payment_refunded payment_partially_refunded : PaymentStatus

-- A row of `payments`, and when and why it failed.
pub record OrderPayment : Type 0 where
  pub order_id : String
  pub provider : PaymentGateway
  pub status : PaymentStatus
  pub amount : ℕ
  pub currency : String
  pub provider_payment_id : Option String
  pub provider_session_id : Option String
  pub provider_invoice_id : Option String
  pub paid_at : Option ℕ
  pub failed_at : Option ℕ
  pub failure_message : Option String

pub data RecoveryStatus : Type 0 where
  open_recovery resolved abandoned : RecoveryStatus

pub data RecoveryReason : Type 0 where
  awaiting_confirm payment_ok_booking_failed inventory_unavailable : RecoveryReason
  confirm_never_called : RecoveryReason

-- `HostedProviderRefs` of src/modules/checkout/hosted-payment-records.ts without the payload.
pub record ProviderRefs : Type 0 where
  pub session_id : Option String
  pub payment_id : Option String
  pub invoice_id : Option String
  pub result_indicator : Option String
  pub gateway : Option PaymentGateway

pub data SnapshotValue : Type 0 where
  null_value : SnapshotValue
  value : String → SnapshotValue
  response : ProviderRefs → SnapshotValue

-- A JSON object by its keys.
abbrev pub Snapshot : Type 0
Snapshot = String → Option SnapshotValue

-- A row of `customer_payment_recoveries`.
pub record Recovery : Type 0 where
  pub id : String
  pub common_order : Option String
  pub order_id : Option String
  pub customer_id : Option String
  pub customer_email : Option String
  pub event_id : Option String
  pub event_slug : Option String
  pub gateway : PaymentGateway
  pub status : RecoveryStatus
  pub reason : RecoveryReason
  pub amount : ℕ
  pub currency : String
  pub idempotency_key : Option String
  pub provider_session_id : Option String
  pub provider_invoice_id : Option String
  pub provider_payment_id : Option String
  pub checkout_snapshot : Snapshot
  pub failure_message : Option String
  pub resolved_at : Option ℕ
  pub created_at : ℕ

-- The fields of a callback of a bank that are read.
pub record GatewayCallback : Type 0 where
  pub response_confirmation_id : Option String
  pub confirmation_id : Option String
  pub response_pun : Option String
  pub pun : Option String

-- `params_json` of a session.
pub record HostedParams : Type 0 where
  pub provider_response : ProviderRefs
  pub gateway_callback : Option GatewayCallback
  pub qpay_callback : Option GatewayCallback
  pub result_indicator : Option String
  pub qpay_verified : Bool
  pub confirmed_at : Option ℕ

-- A row of `hosted_checkout_sessions`.
pub record HostedSession : Type 0 where
  pub id : String
  pub sid : String
  pub order_id : Option String
  pub common_order : Option String
  pub checkout_ref : Option String
  pub gateway : PaymentGateway
  pub is_paid : Bool
  pub amount : ℕ
  pub currency : String
  pub params : HostedParams
  pub created_at : ℕ

-- The tables and the stock, the holds with a job, and the orders handed to the report.
pub record Bookings : Type 0 where
  pub store : Store
  pub holds : List TicketHold
  pub orders : List Order
  pub advance_payments : List AdvancePayment
  pub payments : List OrderPayment
  pub recoveries : List Recovery
  pub sessions : List HostedSession
  pub jobs : List String
  pub report_syncs : List String
