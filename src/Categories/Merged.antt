-- ===== src/Categories/Merged.antt =====
-- What MergeCategories (server/internal/transaction/service.go) does.
use family_ledger.Categories.Moving.{
  IsUse, Moves, IsMoved, Each, remap-Moves, Each-Each, Moves-NoUse, remap-uses,
}
use family_ledger.Categories.Budgeting.{
  budget_amount, target-kept, target-inherits, others-kept, source-gone, has_budget-some,
  has_budget-none, drop-budgets,
}
use family_ledger.Categories.Owned.{owned_row, kinds_agree}
use family_ledger.Transaction.Rows.{All}
use mathlib.Core.Path.{subst}
use family_ledger.Base.Int.{ℤ}
use Prim.Native.String.{String}
use family_ledger.Base.{
  none, sym, ⊤, ℕ, ◌≡◌, ◌≢◌, refl, ap, ◌∙◌, true, false, Option, some, List, ◌∷◌, ◌==◌, arith,
}
use text.Mathlib.Text.{◌==◌ as str_eq}
use family_ledger.Db.{World}
use family_ledger.Db.Triple.{
  statement-Triple, Triple, Post, pure-Triple, bind-Triple, then-Triple, raise_if-Triple,
  or_raise-Triple, read-Triple, weaken-Triple, strengthen-Triple, facts-Triple, done-Triple,
  exec_eq-Triple, atomically-Triple,
}
use family_ledger.Store.{Uuid, Category, op_update, SyncOperation, Store}
use family_ledger.Store.Context.{get_user_id-Triple}
use family_ledger.Transaction.{find_live_category, same_kind, sync_client_id}
use family_ledger.Transaction.Booking.{insert_sync_operation-done}
use family_ledger.Categories.{each_category}
use family_ledger.Categories.Merging.{
  find_owned, remap_transactions, count_uses, reparent, has_budget, remap_budgets, drop_budgets,
  delete_one, merge_rows, merge_in_tx, merge_categories,
}

abbrev merge_op : Uuid → ℕ → ℕ → ℕ → SyncOperation
merge_op ids sync_id uid source = record {
  user_id = uid;
  entity_type = "category_merge";
  entity_id = source;
  op_type = op_update;
  client_id = sync_client_id ids "merge" sync_id;
}

-- The tables after the writes.
abbrev merged : Uuid → ℕ → ℕ → ℕ → ℕ → Store → Store
merged ids sync_id uid source target s = record s {
  transactions = remap_transactions uid source target s.transactions;
  categories =
      each_category (delete_one source) (each_category (reparent source target) s.categories);
  category_budgets =
      drop_budgets source (remap_budgets source target s.category_budgets s.category_budgets);
  sync_operations = merge_op ids sync_id uid source ∷ s.sync_operations;
}

-- One live category of the user has been merged into another of the same type.
pub record IsMerged (ids : Uuid) (ctx : Option String) (sync_id : ℕ) (source_id target_id : String)
    (s : Store) (n : ℕ) (s' : Store) : Type 0 where
  pub caller_id : String
  pub uid : ℕ
  pub source : ℕ
  pub target : ℕ
  pub from : Category
  pub to : Category
  pub caller : ctx ≡ some caller_id
  pub source_is : ids.parse source_id ≡ some source
  pub target_is : ids.parse target_id ≡ some target
  pub from_owned : find_owned source s ≡ some (from, uid)
  pub to_owned :
      (v : ℕ) × (find_owned target s ≡ some (to, v)) × (str_eq (ids.text v) caller_id ≡ true)
  pub own : str_eq (ids.text uid) caller_id ≡ true
  pub same_type : same_kind from.kind to.kind ≡ true
  pub count : n ≡ count_uses uid source s.transactions
  pub tables : s' ≡ merged ids sync_id uid source target s
  pub differ : source ≢ target
  pub from_row : find_live_category source s ≡ some from
  pub from_user : from.user_id ≡ some uid
  pub to_row : find_live_category target s ≡ some to
  pub same_kinds : from.kind ≡ to.kind
  pub moves : Moves uid source target s.transactions s'.transactions n
  pub categories_moved : Each (IsMoved source target) s.categories s'.categories
  pub unused : count_uses uid source s'.transactions ≡ 0
  pub no_use : All (λ t. ¬ (IsUse uid source t)) s'.transactions
  pub budgets_kept :
      (budget : ℕ) (x : ℤ)
      → budget_amount budget target s.category_budgets ≡ some x
      → budget_amount budget target s'.category_budgets ≡ some x
  pub budgets_inherited :
      (budget : ℕ)
      → budget_amount budget target s.category_budgets ≡ none
      → budget_amount budget target s'.category_budgets
        ≡ budget_amount budget source s.category_budgets
  pub other_budgets :
      (budget category : ℕ)
      → category ≢ source
      → category ≢ target
      → budget_amount budget category s'.category_budgets
        ≡ budget_amount budget category s.category_budgets
  pub source_budgets : (budget : ℕ) → budget_amount budget source s'.category_budgets ≡ none
  pub no_budget : (budget : ℕ) → has_budget budget source s'.category_budgets ≡ false

merge_rows-Triple :
    (ids : Uuid) (sync_id uid source target : ℕ) (s : Store)
    → Triple
        (λ s'. s' ≡ s)
        (merge_rows ids sync_id uid source target)
        (λ n s'.
          (n ≡ count_uses uid source s.transactions)
          × (s' ≡ merged ids sync_id uid source target s))
        (λ _. ⊤)
unfolding merge_rows
merge_rows-Triple ids sync_id uid source target s =
    bind-Triple
      (strengthen-Triple {P' = λ s'. s' ≡ s} (λ s' p. p)
        (statement-Triple
          {Q = λ n s'.
            (n ≡ count_uses uid source s.transactions)
            × (s'
                ≡ record s { transactions = remap_transactions uid source target s.transactions })}
          _ _ _ (λ s' p. (rw p refl, rw p refl)) (λ _ _. tt)))
      λ n. then-Triple (exec_eq-Triple (λ _ _. tt) _) λ _.
        then-Triple (exec_eq-Triple (λ _ _. tt) _) λ _.
          then-Triple (exec_eq-Triple (λ _ _. tt) _) λ _.
            then-Triple (exec_eq-Triple (λ _ _. tt) _) λ _.
              then-Triple (done-Triple (λ _ _. tt) _ _ _) λ _. pure-Triple n λ s' p.
                let (s5, (s4, (s3, (s2, (s1, (count, e1), e2), e3), e4), e5), o) = p in
                let e6 = insert_sync_operation-done (merge_op ids sync_id uid source) s5 s' o in
                (count, rw (e6, e5, e4, e3, e2, e1) refl)

-- What the checks within the transaction have found out, and the writes.
abbrev Checked : Uuid → ℕ → String → ℕ → ℕ → Store → ℕ → Store → Type 0
Checked ids sync_id user_id source target s n s' =
    (f : Category × ℕ) × (t : Category × ℕ) × (find_owned source s ≡ some f)
    × (find_owned target s ≡ some t)
    × (str_eq (ids.text f.1) user_id ≡ true)
    × (str_eq (ids.text t.1) user_id ≡ true)
    × (same_kind f.0.kind t.0.kind ≡ true)
    × (n ≡ count_uses f.1 source s.transactions)
    × (s' ≡ merged ids sync_id f.1 source target s)

merge_in_tx-Triple :
    (ids : Uuid) (sync_id : ℕ) (user_id : String) (source target : ℕ) (s : Store)
    → Triple
        (λ s'. s' ≡ s)
        (merge_in_tx ids sync_id user_id source target)
        (Checked ids sync_id user_id source target s)
        (λ _. ⊤)
unfolding merge_in_tx
merge_in_tx-Triple ids sync_id user_id source target s =
    bind-Triple (read-Triple (λ _ _. tt) _ _ _) λ f.
      bind-Triple (read-Triple (λ _ _. tt) _ _ _) λ t.
        then-Triple (raise_if-Triple (λ _ _. tt) _ _) λ _.
          then-Triple (raise_if-Triple (λ _ _. tt) _ _) λ _.
            facts-Triple
              {C = (find_owned source s ≡ some f)
                × (find_owned target s ≡ some t)
                × (str_eq (ids.text f.1) user_id ≡ true)
                × (str_eq (ids.text t.1) user_id ≡ true)
                × (same_kind f.0.kind t.0.kind ≡ true)}
              (λ s' p. (
                rw p.0.0.0.0 at p.0.0.0.1,
                rw p.0.0.0.0 at p.0.0.1,
                ground (arith, p.0.1),
                ground (arith, p.0.1),
                ground (arith, p.1),
              ))
              λ c.
                strengthen-Triple {P' = λ s'. s' ≡ s} (λ s' p. p.0.0.0.0)
                  (weaken-Triple (merge_rows-Triple ids sync_id f.1 source target s)
                    λ n s' p. (f, t, c.0, c.1, c.2, c.3, c.4, p.0, p.1))

distinct : (a b : ℕ) → a == b ≡ false → a ≢ b
distinct a b e k = ground arith

is_merged :
    (ids : Uuid) (ctx : Option String) (sync_id : ℕ) (source_id target_id user_id : String)
    (source target : ℕ) (s : Store) (n : ℕ) (s' : Store)
    → ctx ≡ some user_id
    → ids.parse source_id ≡ some source
    → ids.parse target_id ≡ some target
    → source ≢ target
    → Checked ids sync_id user_id source target s n s'
    → IsMerged ids ctx sync_id source_id target_id s n s'
is_merged ids ctx sync_id source_id target_id user_id source target s n s' c ps pt ne h =
    let (f, t, from, to, own, other, same, count, e) = h in
    record {
      caller_id = user_id;
      uid = f.1;
      source = source;
      target = target;
      from = f.0;
      to = t.0;
      caller = c;
      source_is = ps;
      target_is = pt;
      from_owned = from;
      to_owned = (t.1, to, other);
      own = own;
      same_type = same;
      count = count;
      tables = e;
      differ = ne;
      from_row = (owned_row source s f from).0;
      from_user = (owned_row source s f from).1;
      to_row = (owned_row target s t to).0;
      same_kinds = kinds_agree f.0.kind t.0.kind same;
      moves = moves;
      categories_moved =
          subst (λ (l : List Category). Each (IsMoved source target) s.categories l)
            (sym (ap (λ (u : Store). u.categories) e)) (Each-Each source target s.categories);
      no_use = Moves-NoUse ne moves;
      budgets_kept = λ b x h.
          budgets b target
          ∙ target-kept b source target s.category_budgets s.category_budgets ne
              (has_budget-some b target s.category_budgets x h)
          ∙ h;
      budgets_inherited = λ b h.
          let none_there = has_budget-none b target s.category_budgets h in
          budgets b target
          ∙ target-inherits b source target s.category_budgets s.category_budgets ne none_there
              none_there;
      other_budgets = λ b c ns nt.
          budgets b c ∙ others-kept b c source target s.category_budgets s.category_budgets ns nt;
      source_budgets =
          λ b. budgets b source ∙ source-gone b source target s.category_budgets s.category_budgets;
      unused =
          ap (λ (u : Store). count_uses f.1 source u.transactions) e
          ∙ remap-uses f.1 source target s.transactions ne;
      no_budget = λ budget.
          ap (λ (u : Store). has_budget budget source u.category_budgets) e
          ∙ drop-budgets budget source _;
    }
  where
    budgets :
        (b c : ℕ)
        → budget_amount b c s'.category_budgets
          ≡ budget_amount b c (
              drop_budgets source
                (remap_budgets source target s.category_budgets s.category_budgets))
    budgets b c = ap (λ (u : Store). budget_amount b c u.category_budgets) h.8

    moves : Moves h.0.1 source target s.transactions s'.transactions n
    moves =
        rw (h.7, ap (λ (u : Store). u.transactions) h.8)
          (remap-Moves h.0.1 source target s.transactions)

-- `MergeCategories` either fails and changes no table, or was asked for by a user of the context who
-- owns both categories, which are live, different and of one type. Then the live transactions of the
-- user in the source, and no others, are in the target, the answer is their number, and the user has
-- no live transaction in the source. No budget has an amount for the source; a budget keeps its
-- amount for the target, or, without one, gets that of the source, and keeps all others. Live
-- children of the source are children of the target, the source is deleted, no other category has
-- changed, and the operation to synchronise has been stored.
-- Nothing else has changed, so no balance.
pub merge_categories-IsMerged :
    (ids : Uuid) (ctx : Option String) (sync_id : ℕ) (source_id target_id : String)
    (w : World Store)
    → let (r, w') = merge_categories ids ctx sync_id source_id target_id w in
      Post (IsMerged ids ctx sync_id source_id target_id w.store) (λ s'. s' ≡ w.store) r w'.store
unfolding merge_categories
merge_categories-IsMerged ids ctx sync_id source_id target_id w =
    (bind-Triple (get_user_id-Triple ctx {P = λ s'. s' ≡ w.store} (λ s' p. p)) λ user_id.
        bind-Triple (or_raise-Triple (λ s' p. p.0) _ _) λ source.
          bind-Triple (or_raise-Triple (λ s' p. p.0.0) _ _) λ target.
            then-Triple (raise_if-Triple (λ s' p. p.0.0.0) _ _) λ _.
              facts-Triple
                {C = (ctx ≡ some user_id)
                  × (ids.parse source_id ≡ some source)
                  × (ids.parse target_id ≡ some target)
                  × (source ≢ target)}
                (λ s' p. (p.0.0.0.1, p.0.0.1, p.0.1, distinct source target p.1))
                λ c.
                  strengthen-Triple {P' = λ s'. s' ≡ w.store} (λ s' p. p.0.0.0.0)
                    (weaken-Triple
                      (atomically-Triple (λ s' p. p)
                        (merge_in_tx-Triple ids sync_id user_id source target w.store))
                      λ n s' p.
                        is_merged ids ctx sync_id source_id target_id user_id source target w.store
                          n s' c.0 c.1 c.2 c.3 p)).run
      w refl
