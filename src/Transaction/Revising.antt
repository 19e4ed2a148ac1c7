-- ===== src/Transaction/Revising.antt =====
-- The columns that UpdateTransaction (server/internal/transaction/service.go) sets.
use text.Mathlib.Text.{◌==◌ as str_eq}
use mathlib.Core.Path.{subst}
use Prim.Native.String.{String}
use family_ledger.Base.{
  ◌⊎◌, inl, inr, true, false, ap, ◌∙◌, ℕ, ◌≡◌, refl, Option, none, some, List, arith,
}
use family_ledger.Base.Int.{ℤ, pos, ◌≤ℤ◌}
use family_ledger.Db.Triple.{
  Triple, pure-Triple, raise-Triple, bind-Triple, then-Triple, raise_if-Triple, or_raise-Triple,
  statement-Triple, weaken-Triple,
}
use family_ledger.Store.{is_empty, Uuid, TransactionKind, income, expense, Transaction, Store}
use family_ledger.Transaction.{
  Timestamp, Drawn, TransactionType, type_unspecified, type_income, type_expense,
}
use family_ledger.Transaction.Change.{
  Convert, UpdateTransactionRequest, to_cny, set_amount, set_category, set_note, set_tags, set_type,
  set_currency, set_date, changed_row,
}
use family_ledger.Transaction.Asking.{IsDated, validate_txn_date-Triple}

-- The new value, if there is one.
abbrev pub or_old {ℓ} : {A : Type ℓ} → Option A → A → A
or_old none x = x
or_old (some y) x = y

abbrev pub cny_or_old : Convert → Option ℤ → Transaction → ℤ
cny_or_old convert none t = t.amount_cny
cny_or_old convert (some x) t = to_cny convert t x

abbrev pub kind_or_old : Option TransactionType → TransactionKind → TransactionKind
kind_or_old (some type_income) k = income
kind_or_old (some type_expense) k = expense
kind_or_old (some type_unspecified) k = k
kind_or_old none k = k

-- The old row with what the request sets, a category and a date.
abbrev pub columns : Convert → UpdateTransactionRequest → Transaction → ℕ → ℤ → Transaction
columns convert req old category_id txn_date = record old {
  amount = or_old req.amount old.amount;
  amount_cny = cny_or_old convert req.amount old;
  category_id = category_id;
  note = or_old req.note old.note;
  tags = or_old req.tags old.tags;
  kind = kind_or_old req.type old.kind;
  currency = or_old req.currency old.currency;
  txn_date = txn_date;
}

-- The category asked for, or the old one.
abbrev pub IsCategory : Uuid → Option String → ℕ → ℕ → Type 0
IsCategory ids none old c = c ≡ old
IsCategory ids (some o) old c = ids.parse o ≡ some c

-- The date asked for, which is valid and in range, or the old one.
abbrev pub IsNewDate : Drawn → Option Timestamp → ℤ → ℤ → Type 0
IsNewDate drawn none old d = d ≡ old
IsNewDate drawn (some ts) old d = IsDated drawn (some ts) d

-- The row `new` is the row `old` with the columns that the request sets. The amount in CNY follows
-- the amount, and nothing else.
pub record IsRevised (ids : Uuid) (convert : Convert) (drawn : Drawn)
    (req : UpdateTransactionRequest) (old new : Transaction) : Type 0 where
  pub category_id : ℕ
  pub txn_date : ℤ
  pub category_is : IsCategory ids req.category_id old.category_id category_id
  pub date_is : IsNewDate drawn req.txn_date old.txn_date txn_date
  pub cny_at_home :
      (x : ℤ)
      → req.amount ≡ some x
      → (str_eq old.currency "CNY" ≡ true) ⊎ (is_empty old.currency ≡ true)
      → new.amount_cny ≡ x
  pub cny_abroad :
      (x : ℤ)
      → req.amount ≡ some x
      → str_eq old.currency "CNY" ≡ false
      → is_empty old.currency ≡ false
      → new.amount_cny ≡ convert x old.exchange_rate
  pub positive : (x : ℤ) → req.amount ≡ some x → pos 1 ≤ℤ x
  pub row : new ≡ columns convert req old category_id txn_date

module _ {P : Store → Type 0} where
  set_amount-Triple :
      (convert : Convert) (o : Option ℤ) (t : Transaction)
      → Triple P
          (set_amount convert o t)
          (λ u s.
            P s
            × (((x : ℤ) → o ≡ some x → pos 1 ≤ℤ x)
                × (u ≡ record t {
                  amount = or_old o t.amount;
                  amount_cny = cny_or_old convert o t;
                })))
          (λ _. Unit {0})
  unfolding set_amount
  set_amount-Triple convert none t =
      pure-Triple t (λ s p. (p, ((λ x e. absurd (ground arith)), refl)))
  set_amount-Triple convert (some y) t =
      then-Triple (raise_if-Triple (λ _ _. tt) _ _)
        λ _. pure-Triple _ (λ s p. (p.0, ((λ x e. ground (arith, p.1, e)), refl)))

  set_category-Triple :
      (ids : Uuid) (o : Option String) (t : Transaction)
      → Triple P
          (set_category ids o t)
          (λ u s.
            P s × ((c : ℕ) × (u ≡ record t { category_id = c }) × IsCategory ids o t.category_id c))
          (λ _. Unit {0})
  unfolding set_category
  set_category-Triple ids none t = pure-Triple t (λ s p. (p, (t.category_id, refl, refl)))
  set_category-Triple ids (some o) t = bind-Triple (or_raise-Triple (λ _ _. tt) _ _) λ c.
      bind-Triple
        (statement-Triple {Q = λ _ s. P s × (ids.parse o ≡ some c)} _ _ _ (λ s p. p) (λ _ _. tt))
        λ found.
          then-Triple (raise_if-Triple (λ _ _. tt) _ _)
            λ _. pure-Triple _ (λ s p. (p.0.0, (c, refl, p.0.1)))

  set_type-Triple :
      (o : Option TransactionType) (t : Transaction)
      → Triple P
          (set_type o t)
          (λ u s. P s × (u ≡ record t { kind = kind_or_old o t.kind }))
          (λ _. Unit {0})
  unfolding set_type
  set_type-Triple none t = pure-Triple t (λ s p. (p, refl))
  set_type-Triple (some type_income) t = pure-Triple _ (λ s p. (p, refl))
  set_type-Triple (some type_expense) t = pure-Triple _ (λ s p. (p, refl))
  set_type-Triple (some type_unspecified) t = raise-Triple _ (λ _ _. tt)

  set_date-Triple :
      (drawn : Drawn) (o : Option Timestamp) (t : Transaction)
      → Triple P
          (set_date drawn o t)
          (λ u s.
            P s × ((d : ℤ) × (u ≡ record t { txn_date = d }) × IsNewDate drawn o t.txn_date d))
          (λ _. Unit {0})
  unfolding set_date
  set_date-Triple drawn none t = pure-Triple t (λ s p. (p, (t.txn_date, refl, refl)))
  set_date-Triple drawn (some ts) t =
      bind-Triple (validate_txn_date-Triple (λ _ _. tt) drawn ts)
        λ d. pure-Triple _ (λ s p. (p.0, (d, refl, p.1)))

set_note_lem :
    (o : Option String) (t : Transaction) → set_note o t ≡ record t { note = or_old o t.note }
set_note_lem none t = refl
set_note_lem (some n) t = refl

set_tags_lem :
    (o : Option (List String)) (t : Transaction)
    → set_tags o t ≡ record t { tags = or_old o t.tags }
set_tags_lem none t = refl
set_tags_lem (some n) t = refl

set_currency_lem :
    (o : Option String) (t : Transaction)
    → set_currency o t ≡ record t { currency = or_old o t.currency }
set_currency_lem none t = refl
set_currency_lem (some n) t = refl

cny_home :
    (convert : Convert) (o : Option ℤ) (old : Transaction) (x : ℤ)
    → o ≡ some x
    → (str_eq old.currency "CNY" ≡ true) ⊎ (is_empty old.currency ≡ true)
    → cny_or_old convert o old ≡ x
cny_home convert o old x e (inl h) = rw (e, h) refl
cny_home convert o old x e (inr h) = rw e (ground (arith, h))

cny_foreign :
    (convert : Convert) (o : Option ℤ) (old : Transaction) (x : ℤ)
    → o ≡ some x
    → str_eq old.currency "CNY" ≡ false
    → is_empty old.currency ≡ false
    → cny_or_old convert o old ≡ convert x old.exchange_rate
cny_foreign convert o old x e h k = rw (e, h, k) refl

all_columns :
    (ids : Uuid) (convert : Convert) (drawn : Drawn) (req : UpdateTransactionRequest)
    (old t1 t2 t3 new : Transaction) (c : ℕ) (d : ℤ)
    → t1 ≡ record old {
      amount = or_old req.amount old.amount;
      amount_cny = cny_or_old convert req.amount old;
    }
    → t2 ≡ record t1 { category_id = c }
    → (let u = set_tags req.tags (set_note req.note t2) in
        t3 ≡ record u { kind = kind_or_old req.type u.kind })
    → (let u = set_currency req.currency t3 in new ≡ record u { txn_date = d })
    → ((x : ℤ) → req.amount ≡ some x → pos 1 ≤ℤ x)
    → IsCategory ids req.category_id old.category_id c
    → IsNewDate drawn req.txn_date old.txn_date d
    → IsRevised ids convert drawn req old new
all_columns ids convert drawn req old t1 t2 t3 new c d e1 e2 e3 e4 positive category date =
    let row : new ≡ columns convert req old c d =
      rw
        (
          e4,
          set_currency_lem req.currency t3,
          e3,
          set_tags_lem req.tags (set_note req.note t2),
          set_note_lem req.note t2,
          e2,
          e1,
        )
        refl in
    record {
      category_id = c;
      txn_date = d;
      category_is = category;
      date_is = date;
      cny_at_home = λ x e h. cny row ∙ cny_home convert req.amount old x e h;
      cny_abroad = λ x e h k. cny row ∙ cny_foreign convert req.amount old x e h k;
      positive = positive;
      row = row;
    }
  where
    cny : new ≡ columns convert req old c d → new.amount_cny ≡ cny_or_old convert req.amount old
    cny e = ap (λ (t : Transaction). t.amount_cny) e

pub changed_row-Triple :
    (ids : Uuid) (convert : Convert) (drawn : Drawn) (req : UpdateTransactionRequest)
    (old : Transaction) {P : Store → Type 0}
    → Triple P
        (changed_row ids convert drawn req old)
        (λ new s. P s × IsRevised ids convert drawn req old new)
        (λ _. Unit {0})
unfolding changed_row
changed_row-Triple ids convert drawn req old =
    bind-Triple (set_amount-Triple convert req.amount old) λ t1.
      bind-Triple (set_category-Triple ids req.category_id t1) λ t2.
        bind-Triple (set_type-Triple req.type _) λ t3.
          weaken-Triple (set_date-Triple drawn req.txn_date _) λ new s p.
            let ((((q, (positive, e1)), (c, e2, category)), e3), (d, e4, date)) = p in
            (
              q,
              all_columns ids convert drawn req old t1 t2 t3 new c d e1 e2 e3 e4 positive
                  (old_category t1 e1 c category) (old_date t1 t2 t3 e1 e2 e3 d date),
            )
  where
    old_category :
        (t1 : Transaction)
        → t1 ≡ record old {
          amount = or_old req.amount old.amount;
          amount_cny = cny_or_old convert req.amount old;
        }
        → (c : ℕ) → IsCategory ids req.category_id t1.category_id c
        → IsCategory ids req.category_id old.category_id c
    old_category t1 e1 c h =
        subst (λ (x : ℕ). IsCategory ids req.category_id x c)
          (ap (λ (t : Transaction). t.category_id) e1) h

    old_date :
        (t1 t2 t3 : Transaction) {c : ℕ}
        → t1 ≡ record old {
          amount = or_old req.amount old.amount;
          amount_cny = cny_or_old convert req.amount old;
        }
        → t2 ≡ record t1 { category_id = c }
        → (let u = set_tags req.tags (set_note req.note t2) in
            t3 ≡ record u { kind = kind_or_old req.type u.kind })
        → (d : ℤ) → IsNewDate drawn req.txn_date (set_currency req.currency t3).txn_date d
        → IsNewDate drawn req.txn_date old.txn_date d
    old_date t1 t2 t3 e1 e2 e3 d h =
        let same : (set_currency req.currency t3).txn_date ≡ old.txn_date =
          rw
            (
              set_currency_lem req.currency t3,
              e3,
              set_tags_lem req.tags (set_note req.note t2),
              set_note_lem req.note t2,
              e2,
              e1,
            )
            refl in
        subst (λ (x : ℤ). IsNewDate drawn req.txn_date x d) same h
