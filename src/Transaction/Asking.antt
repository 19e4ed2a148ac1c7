-- ===== src/Transaction/Asking.antt =====
-- What validateCreateInput and checkAccountPermission
-- (server/internal/transaction/create_pipeline.go) let through.
use Prim.Native.String.{len, String}
use family_ledger.Base.{◌≤◌, ℕ, ◌≡◌, ◌⊎◌, inl, inr, refl, true, false, Option, none, some, arith}
use text.Mathlib.Text.{◌==◌ as str_eq}
use family_ledger.Base.Int.{ℤ, pos, ◌≤ℤ◌, leb_ℤ}
use family_ledger.Db.Triple.{
  Triple, pure-Triple, raise-Triple, bind-Triple, then-Triple, query-Triple, if-Triple,
  weaken-Triple, raise_if-Triple, or_raise-Triple, facts-Triple, strengthen-Triple,
}
use family_ledger.Store.{
  expense, income, TransactionKind, is_empty, Uuid, Transaction, Account, Store,
}
use family_ledger.Permission.{can_create}
use family_ledger.Permission.Granted.{Granted, check-Triple}
use family_ledger.Account.{find_live, family_text}
use family_ledger.Transaction.{
  type_income, type_expense, type_unspecified, TransactionType, Drawn, Timestamp, validate_txn_date,
}
use family_ledger.Transaction.Input.{
  CreateTransactionRequest, rate_one, kind_asked, currency_asked, home_amount, date_asked,
  validate_create_input,
}
use family_ledger.Transaction.Create.{check_account_permission}

-- The kind of a type that is asked for: what is not an income is an expense.
abbrev pub IsKind : TransactionType → TransactionKind → Type 0
IsKind type_income k = k ≡ income
IsKind type_expense k = k ≡ expense
IsKind type_unspecified k = k ≡ expense

-- The present, where no date is asked for, or the date asked for, which is valid and lies between
-- 2000 and a day from now.
abbrev pub IsDated : Drawn → Option Timestamp → ℤ → Type 0
IsDated drawn none d = d ≡ drawn.now
IsDated drawn (some ts) d =
    (d ≡ ts.instant) × (ts.is_valid ≡ true) × (pos 946684800000000000 ≤ℤ d) × (d ≤ℤ drawn.tomorrow)

-- The row that a request asks for.
pub record IsAsked (ids : Uuid) (drawn : Drawn) (user_id : String) (req : CreateTransactionRequest)
    (t : Transaction) : Type 0 where
  pub id_is : t.id ≡ drawn.new_id
  pub user_is : ids.parse user_id ≡ some t.user_id
  pub account_is : ids.parse req.account_id ≡ some t.account_id
  pub category_is : ids.parse req.category_id ≡ some t.category_id
  pub amount_is : t.amount ≡ req.amount
  pub kind_is : t.kind ≡ kind_asked req.type
  pub currency_is : t.currency ≡ currency_asked req.currency
  pub positive : pos 1 ≤ℤ t.amount
  pub at_most : t.amount ≤ℤ pos 99999999999
  pub cny_positive : pos 1 ≤ℤ t.amount_cny
  pub cny_is : (t.amount_cny ≡ req.amount_cny) ⊎ (t.amount_cny ≡ t.amount)
  pub at_home : str_eq t.currency "CNY" ≡ true → t.amount_cny ≡ t.amount
  pub kind_asked_for : IsKind req.type t.kind
  pub default_currency : is_empty req.currency ≡ true → t.currency ≡ "CNY"
  pub own_currency : is_empty req.currency ≡ false → t.currency ≡ req.currency
  -- 4607182418800017408 is the double 1.0.
  pub rate_at_home : str_eq t.currency "CNY" ≡ true → t.exchange_rate ≡ 4607182418800017408
  pub abroad :
      str_eq t.currency "CNY" ≡ false
      → (t.amount_cny ≡ req.amount_cny) × (t.exchange_rate ≡ req.exchange_rate)
  pub note_is : t.note ≡ req.note
  pub note_fits : len req.note ≤ 1000
  pub tags_are : t.tags ≡ req.tags
  pub image_urls_are : t.image_urls ≡ req.image_urls
  pub no_family : t.family_id ≡ none
  pub dated : IsDated drawn req.txn_date t.txn_date
  pub is_live : t.deleted ≡ false

-- The user `uid` may enter transactions on the account: it is its owner's own, or its family lets
-- the user create.
abbrev pub MayBook : Uuid → ℕ → Account → Store → Type 0
MayBook ids uid a s =
    ((a.family_id ≡ none) × (a.user_id ≡ uid))
    ⊎ Granted ids (ids.text uid) (family_text ids a.family_id) can_create s

personal : (ids : Uuid) (f : Option ℕ) → is_empty (family_text ids f) ≡ true → f ≡ none
personal ids none e = refl
personal ids (some f) e = absurd (ground (arith, ids.text_some f))

module _ {P E : Store → Type 0} (stays : (s : Store) → P s → E s) where
  pub check_account_permission-Triple :
      (ids : Uuid) (uid account_id : ℕ)
      → Triple P
          (check_account_permission ids uid account_id)
          (λ _ s. P s × ((a : Account) × (find_live account_id s ≡ some a) × MayBook ids uid a s))
          E
  unfolding check_account_permission
  check_account_permission-Triple ids uid account_id = bind-Triple (query-Triple stays _ _) λ a.
      if-Triple _
        (λ own.
          weaken-Triple (raise_if-Triple (λ s p. stays s p.0) _ _)
            λ _ s p. (p.0.0, (a, p.0.1, inl (personal ids a.family_id own, ground (arith, p.1)))))
        (λ shared.
          weaken-Triple (check-Triple ids _ _ _ (λ s p. stays s p.0))
            λ _ s p. (p.0.0, (a, p.0.1, passed a shared p.1)))
    where
      passed :
          {s : Store} (a : Account)
          → is_empty (family_text ids a.family_id) ≡ false
          → (is_empty (family_text ids a.family_id) ≡ true)
            ⊎ Granted ids (ids.text uid) (family_text ids a.family_id) can_create s
          → MayBook ids uid a s
      passed a shared (inl empty) = absurd (ground arith)
      passed a shared (inr g) = inr g

  pub validate_txn_date-Triple :
      (drawn : Drawn) (ts : Timestamp)
      → Triple P (validate_txn_date drawn ts) (λ d s. P s × IsDated drawn (some ts) d) E
  unfolding validate_txn_date
  validate_txn_date-Triple drawn ts = then-Triple (raise_if-Triple stays _ _) λ _.
      then-Triple (raise_if-Triple (λ s p. stays s p.0) _ _) λ _.
        pure-Triple ts.instant
          (λ s p. (p.0.0, (refl, ground (arith, p.0.1), ground (arith, p.1), ground (arith, p.1))))

  date_asked-Triple :
      (drawn : Drawn) (o : Option Timestamp)
      → Triple P (date_asked drawn o) (λ d s. P s × IsDated drawn o d) E
  unfolding date_asked
  date_asked-Triple drawn none = pure-Triple drawn.now (λ s p. (p, refl))
  date_asked-Triple drawn (some ts) = validate_txn_date-Triple drawn ts

  -- The amount in CNY, of a request whose amount is positive.
  home_amount-Triple :
      (req : CreateTransactionRequest)
      → pos 1 ≤ℤ req.amount
      → Triple P
          (home_amount req)
          (λ c s.
            P s
            × ((pos 1 ≤ℤ c.0)
                × ((c.0 ≡ req.amount_cny) ⊎ (c.0 ≡ req.amount))
                × (str_eq (currency_asked req.currency) "CNY" ≡ true → c.0 ≡ req.amount)
                × (str_eq (currency_asked req.currency) "CNY" ≡ true → c.1 ≡ 4607182418800017408)
                × (str_eq (currency_asked req.currency) "CNY" ≡ false
                    → (c.0 ≡ req.amount_cny) × (c.1 ≡ req.exchange_rate))))
          E
  unfolding home_amount
  home_amount-Triple req h =
      if-Triple (str_eq (currency_asked req.currency) "CNY")
        (λ home.
          pure-Triple (req.amount, rate_one)
            (λ s p. (
              p,
              (
                h,
                inr refl,
                λ _. refl,
                λ _. refl,
                λ foreign. absurd (ground (arith, home, foreign)),
              ),
            )))
        (λ foreign.
          if-Triple (leb_ℤ req.amount_cny (pos 0)) (λ _. raise-Triple _ stays)
            (λ cny.
              pure-Triple (req.amount_cny, req.exchange_rate)
                (λ s p. (
                  p,
                  (
                    ground (arith, cny),
                    inl refl,
                    λ home. absurd (ground (arith, home, foreign)),
                    λ home. absurd (ground (arith, home, foreign)),
                    λ _. (refl, refl),
                  ),
                ))))

asked-IsKind : (k : TransactionType) → IsKind k (kind_asked k)
asked-IsKind type_income = refl
asked-IsKind type_expense = refl
asked-IsKind type_unspecified = refl

default_asked : (c : String) → is_empty c ≡ true → currency_asked c ≡ "CNY"
default_asked c e = rw e refl

own_asked : (c : String) → is_empty c ≡ false → currency_asked c ≡ c
own_asked c e = rw e refl

module _ {P E : Store → Type 0} (stays : (s : Store) → P s → E s) where
  pub validate_create_input-Triple :
      (ids : Uuid) (drawn : Drawn) (user_id : String) (req : CreateTransactionRequest)
      → Triple P
          (validate_create_input ids drawn user_id req)
          (λ t s. P s × IsAsked ids drawn user_id req t)
          E
  unfolding validate_create_input
  validate_create_input-Triple ids drawn user_id req =
      bind-Triple (or_raise-Triple stays _ _) λ uid.
        bind-Triple (or_raise-Triple (λ s p. stays s p.0) _ _) λ account_id.
          bind-Triple (or_raise-Triple (λ s p. stays s p.0.0) _ _) λ category_id.
            then-Triple (raise_if-Triple (λ s p. stays s p.0.0.0) _ _) λ _.
              then-Triple (raise_if-Triple (λ s p. stays s p.0.0.0.0) _ _) λ _.
                then-Triple (raise_if-Triple (λ s p. stays s p.0.0.0.0.0) _ _) λ _.
                  facts-Triple
                    {C = (ids.parse user_id ≡ some uid)
                      × (ids.parse req.account_id ≡ some account_id)
                      × (ids.parse req.category_id ≡ some category_id)
                      × (pos 1 ≤ℤ req.amount)
                      × (req.amount ≤ℤ pos 99999999999)
                      × (len req.note ≤ 1000)}
                    (λ s p. (
                      p.0.0.0.0.0.1,
                      p.0.0.0.0.1,
                      p.0.0.0.1,
                      ground (arith, p.0.0.1),
                      ground (arith, p.0.1),
                      ground (arith, p.1),
                    ))
                    λ c.
                      strengthen-Triple {P' = P} (λ s p. p.0.0.0.0.0.0)
                        (bind-Triple (home_amount-Triple stays req c.3) λ cny.
                          bind-Triple (date_asked-Triple (λ s p. stays s p.0) drawn req.txn_date)
                            λ d. pure-Triple _ (λ s p. (
                              p.0.0,
                              record {
                                id_is = refl;
                                user_is = c.0;
                                account_is = c.1;
                                category_is = c.2;
                                amount_is = refl;
                                kind_is = refl;
                                currency_is = refl;
                                positive = c.3;
                                at_most = c.4;
                                cny_positive = p.0.1.0;
                                cny_is = p.0.1.1;
                                at_home = p.0.1.2;
                                kind_asked_for = asked-IsKind req.type;
                                default_currency = default_asked req.currency;
                                own_currency = own_asked req.currency;
                                rate_at_home = p.0.1.3;
                                abroad = p.0.1.4;
                                note_is = refl;
                                note_fits = c.5;
                                tags_are = refl;
                                image_urls_are = refl;
                                no_family = refl;
                                dated = p.1;
                                is_live = refl;
                              },
                            )))
