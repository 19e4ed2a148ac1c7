-- ===== src/DynUpdate/Updates.antt =====
-- The updates of server/internal/sync/entity_ops.go: what each asks for, and that none panics.
use Prim.Native.String.{String}
use text.Mathlib.Text.{◌==◌ as str_eq}
use family_ledger.Base.{◌≡◌, not, Option, some, List, [], ◌∷◌}
use family_ledger.Base.Int.{ℤ, pos, eqb_ℤ}
use family_ledger.Loan.Float.{Float}
use family_ledger.DynUpdate.{SetCall, Statement}
use family_ledger.DynUpdate.Numbering.{enabled, PointsAt}
use family_ledger.DynUpdate.Entities.{
  Value, string, int64, int, float64, LoanPayload, LoanGroupPayload, InvestmentPayload,
  FixedAssetPayload, is_there, quantity_or_zero, cost_basis_or_zero,
}

module _ {A : Type 0} where
  -- The statement that an operation built: it is there, and points at the values of the calls.
  abbrev pub Updates : List (SetCall A) → String → A → Option (Statement A) → Type 0
  Updates calls table entity_id o =
      (s : Statement A) × (o ≡ some s) × PointsAt (enabled calls) table entity_id s

module _ (fl : Float) where
  -- A column with a text that is not empty, and a number that is not zero.
  abbrev of_text : String → String → SetCall (Value fl.Number)
  of_text column s = record { column = column; value = string s; condition = not (str_eq s "") }

  abbrev of_int64 : String → ℤ → SetCall (Value fl.Number)
  of_int64 column n = record { column = column; value = int64 n; condition = not (eqb_ℤ n (pos 0)) }

  abbrev pub loan_calls : LoanPayload fl.Number → List (SetCall (Value fl.Number))
  loan_calls p =
      of_text "name" p.name
      ∷ of_int64 "remaining_principal" p.remaining_principal
      ∷ record {
        column = "paid_months";
        value = int p.paid_months;
        condition = not (eqb_ℤ p.paid_months (pos 0));
      }
      ∷ record {
        column = "annual_rate";
        value = float64 p.annual_rate;
        condition = not (fl.eq p.annual_rate (fl.of_int (pos 0)));
      }
      ∷ []

  abbrev pub loan_group_calls : LoanGroupPayload → List (SetCall (Value fl.Number))
  loan_group_calls p = of_text "name" p.name ∷ of_int64 "total_principal" p.total_principal ∷ []

  abbrev pub investment_calls : InvestmentPayload fl.Number → List (SetCall (Value fl.Number))
  investment_calls p =
      of_text "name" p.name
      ∷ record {
        column = "quantity";
        value = float64 (quantity_or_zero fl p);
        condition = is_there p.quantity;
      }
      ∷ record {
        column = "cost_basis";
        value = int64 (cost_basis_or_zero fl p);
        condition = is_there p.cost_basis;
      }
      ∷ []

  abbrev pub fixed_asset_calls : FixedAssetPayload → List (SetCall (Value fl.Number))
  fixed_asset_calls p =
      of_text "name" p.name
      ∷ of_int64 "current_value" p.current_value
      ∷ of_text "description" p.description
      ∷ []
