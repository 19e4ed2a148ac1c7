-- ===== src/Transaction/SmallBooks.antt =====
-- A small database with transactions, for the examples.
use family_ledger.Base.{◌*◌, true, false, none, [], ◌∷◌}
use family_ledger.Base.Int.{pos_part, ℤ, pos}
use family_ledger.Db.{idle, World}
use family_ledger.Store.{income, expense, Transaction, Category, Store}
use family_ledger.Account.Examples.{strokes, tables}
use family_ledger.Transaction.{Drawn, type_expense}
use family_ledger.Transaction.Input.{CreateTransactionRequest}
use family_ledger.Transaction.Change.{Convert, UpdateTransactionRequest}

abbrev pub food : Category
food = record {
  id = 4;
  name = "food";
  icon_key = "food";
  kind = expense;
  is_preset = true;
  sort_order = pos 1;
  parent_id = none;
  user_id = none;
  deleted = false;
}

-- Transaction 8 of user 5 is in a foreign currency.
abbrev pub abroad : Transaction
abroad = record {
  id = 8;
  user_id = 5;
  account_id = 2;
  family_id = none;
  category_id = 4;
  amount = pos 10;
  currency = "USD";
  amount_cny = pos 70;
  exchange_rate = 7;
  kind = income;
  note = "";
  txn_date = pos 0;
  tags = [];
  image_urls = [];
  deleted = false;
}

abbrev pub books : Store
books = record tables { categories = food ∷ [] }

abbrev pub foreign_books : Store
foreign_books = record books { transactions = abroad ∷ [] }

abbrev pub on : Store → World Store
on s = record { store = s; session = idle; faults = [] }

abbrev pub drawn : Drawn
drawn = record { now = pos 5; tomorrow = pos 6; new_id = 9; sync_id = 1 }

-- A unit of the other currency is `rate` yuan.
abbrev pub times : Convert
times x rate = pos (pos_part x * rate)

abbrev pub lunch : ℤ → CreateTransactionRequest
lunch amount = record {
  account_id = strokes 0;
  category_id = strokes 4;
  amount = amount;
  currency = "";
  amount_cny = pos 0;
  exchange_rate = 0;
  type = type_expense;
  note = "noodles";
  txn_date = none;
  tags = [];
  image_urls = [];
}

abbrev pub no_change : UpdateTransactionRequest
no_change = record {
  transaction_id = strokes 9;
  category_id = none;
  amount = none;
  note = none;
  tags = none;
  type = none;
  currency = none;
  txn_date = none;
}

abbrev pub lunch_row : Transaction
lunch_row = record {
  id = 9;
  user_id = 0;
  account_id = 0;
  family_id = none;
  category_id = 4;
  amount = pos 20;
  currency = "CNY";
  amount_cny = pos 20;
  exchange_rate = 4607182418800017408;
  kind = expense;
  note = "noodles";
  txn_date = pos 5;
  tags = [];
  image_urls = [];
  deleted = false;
}
