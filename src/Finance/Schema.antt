-- ===== src/Finance/Schema.antt =====
-- prisma/schema.prisma: the finance tables, as rows of records, and their state as one record.
-- Ids, dates and texts that are only compared are numbers. Columns that no modelled operation reads
-- are left out (titles, reasons, actors, time stamps of approvals). Amounts that the DTOs validate
-- as non-negative are numbers; an adjustment's amount and a fund's balance are integers.
use vielhome_backend.Base.{ℕ, Bool, Option, List}
use vielhome_backend.Base.Int.{ℤ}

pub data BatchStatus : Type 0 where
  draft issued closed cancelled : BatchStatus

pub data ItemStatus : Type 0 where
  unpaid partially_paid paid : ItemStatus

pub data PaymentStatus : Type 0 where
  pending_approval approved rejected reversed refunded : PaymentStatus

pub data SelectionMode : Type 0 where
  legacy_automatic explicit_selection : SelectionMode

pub data ReservationState : Type 0 where
  active released applied : ReservationState

pub data ChargeKind : Type 0 where
  monthly reserve repair emergency insurance special other : ChargeKind

pub data FundType : Type 0 where
  current reserve_fund renovation emergency_fund insurance_fund custom : FundType

pub data EntryType : Type 0 where
  charge payment adjustment refund credit_applied reversal opening_balance expense : EntryType

pub data Direction : Type 0 where
  debit credit : Direction

pub data ExpenseStatus : Type 0 where
  posted voided : ExpenseStatus

pub data PayerType : Type 0 where
  owner tenant resident : PayerType

pub data SourceType : Type 0 where
  late_fee opening_balance_correction : SourceType

-- The obligation that an allocation or a selection names: exactly one of `chargeItemId` and
-- `adjustmentId` is set.
pub data Target : Type 0 where
  to_item : ℕ → Target
  to_adjustment : ℕ → Target

-- `referenceType` and `referenceId` of a ledger entry.
pub data Reference : Type 0 where
  of_payment of_adjustment of_refund of_expense of_fund of_batch of_item : ℕ → Reference

pub record Fund : Type 0 where
  pub id : ℕ
  pub building_id : ℕ
  pub fund_type : FundType
  pub is_default : Bool
  pub is_active : Bool
  pub balance : ℤ

pub record ChargeBatch : Type 0 where
  pub id : ℕ
  pub building_id : ℕ
  pub fund_id : ℕ
  pub total_amount : ℕ
  pub status : BatchStatus
  pub kind : Option ChargeKind
  pub series_id : Option ℕ
  pub period_start : Option ℕ
  pub due_date : Option ℕ

pub record ChargeItem : Type 0 where
  pub id : ℕ
  pub batch_id : ℕ
  pub unit_id : ℕ
  pub amount : ℕ
  pub paid_amount : ℕ
  pub status : ItemStatus
  pub resolved_payer_type : Option PayerType
  pub created_at : ℕ

pub record Adjustment : Type 0 where
  pub id : ℕ
  pub unit_id : ℕ
  pub building_id : ℕ
  pub fund_id : ℕ
  pub amount : ℤ
  pub paid_amount : ℕ
  pub source_type : Option SourceType
  pub source_id : Option ℕ
  pub created_at : ℕ

pub record Payment : Type 0 where
  pub id : ℕ
  pub building_id : ℕ
  pub unit_id : ℕ
  pub fund_id : ℕ
  pub payer_id : ℕ
  pub amount : ℕ
  pub method : ℕ
  pub status : PaymentStatus
  pub selection_mode : SelectionMode
  pub idempotency_key : Option ℕ
  pub reference : Option ℕ
  pub note : Option ℕ

pub record Allocation : Type 0 where
  pub payment_id : ℕ
  pub target : Target
  pub amount : ℕ

pub record DebtSelection : Type 0 where
  pub payment_id : ℕ
  pub target : Target
  pub selected_amount : ℕ
  pub reservation_state : ReservationState

pub record CreditBalance : Type 0 where
  pub unit_id : ℕ
  pub balance : ℕ

pub record LedgerEntry : Type 0 where
  pub fund_id : ℕ
  pub entry_type : EntryType
  pub direction : Direction
  pub amount : ℕ
  pub reference : Reference

pub record Refund : Type 0 where
  pub id : ℕ
  pub payment_id : ℕ
  pub amount : ℕ

pub record Expense : Type 0 where
  pub id : ℕ
  pub fund_id : ℕ
  pub amount : ℕ
  pub status : ExpenseStatus
  pub idempotency_key : Option ℕ

pub record ItemPayer : Type 0 where
  pub item_id : ℕ
  pub person_id : ℕ

-- The finance tables together.
pub record Store : Type 0 where
  pub funds : List Fund
  pub batches : List ChargeBatch
  pub items : List ChargeItem
  pub adjustments : List Adjustment
  pub payments : List Payment
  pub allocations : List Allocation
  pub selections : List DebtSelection
  pub credits : List CreditBalance
  pub ledger : List LedgerEntry
  pub refunds : List Refund
  pub expenses : List Expense
  pub item_payers : List ItemPayer
