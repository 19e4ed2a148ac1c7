-- ===== src/DynUpdate/Numbering.antt =====
-- server/pkg/dynupdate/builder.go: the arguments of the statement are where its text points.
use text.Mathlib.TextLemmas.{append_assoc as text_assoc}
use Prim.Native.String.{String, ◌++◌ as ◌⊕◌}
use mathlib.Core.Path.{subst}
use mathlib.Core.List.{append_assoc, append-nil}
use family_ledger.Base.{
  ℕ, zero, suc, ◌+◌, ◌≡◌, refl, sym, ap, ◌∙◌, inl, inr, Bool, true, false, ◌&&◌, none, some, List,
  [], ◌∷◌, ◌++◌, ltb, if◌then◌else◌, arith, Bool-cases, some_inj,
}
use family_ledger.Base.Lists.{length, get_elem?, length-append}
use family_ledger.DynUpdate.{
  is_valid_identifier, decimal, assignment, join, Builder, set, has_updates, build, build_no_op,
  build_or_no_op, SetCall, set_all, update_statement, Statement, zero_builder,
}

pick_true : {B : Type 0} {x : B} {t : Bool} (y : B) → t ≡ true → (if t then x else y) ≡ x
pick_true y f = rw (f) refl

pick_false : {B : Type 0} {y : B} {t : Bool} (x : B) → t ≡ false → (if t then x else y) ≡ y
pick_false x f = rw (f) refl

positive : (n : ℕ) → ltb 0 (suc n) ≡ true
positive n = ground arith

zero_place : (n k : ℕ) → n ≡ 0 + k → n ≡ k
zero_place n k at = omega arith

clause_text : (a n r : String) → (a ⊕ (" = $" ⊕ n)) ⊕ r ≡ a ⊕ (" = $" ⊕ (n ⊕ r))
clause_text a n r = text_assoc a (" = $" ⊕ n) r ∙ ap (λ (s : String). a ⊕ s) (text_assoc " = $" n r)

module _ {A : Type 0} where
  -- The calls whose condition holds.
  abbrev pub enabled : List (SetCall A) → List (SetCall A)
  enabled [] = []
  enabled (c ∷ calls) = if c.condition then c ∷ enabled calls else enabled calls

  abbrev pub all_valid : List (SetCall A) → Bool
  all_valid [] = true
  all_valid (c ∷ calls) = is_valid_identifier c.column && all_valid calls

  -- The assignments to their columns, from the number `k`.
  abbrev pub numbered : ℕ → List (SetCall A) → List String
  numbered k [] = []
  numbered k (c ∷ calls) = assignment c.column k ∷ numbered (suc k) calls

  abbrev pub values : List (SetCall A) → List A
  values [] = []
  values (c ∷ calls) = c.value ∷ values calls

  -- What a builder holds after calls that all apply.
  abbrev pub extended : Builder A → List (SetCall A) → Builder A
  extended b calls = record b {
    set_clauses = b.set_clauses ++ numbered (suc (length b.args)) calls;
    args = b.args ++ values calls;
  }

  set-skips :
      (c : SetCall A) (b : Builder A)
      → c.condition ≡ false
      → set c.column c.value c.condition b ≡ some b
  unfolding set
  set-skips c b e = rw (e) refl

  set-refuses :
      (c : SetCall A) (b : Builder A)
      → c.condition ≡ true
      → is_valid_identifier c.column ≡ false
      → set c.column c.value c.condition b ≡ none
  unfolding set
  set-refuses c b e f = rw (e, f) refl

  length-snoc : (l : List A) (a : A) → length (l ++ (a ∷ [])) ≡ suc (length l)
  length-snoc l a = omega (arith, length-append l (a ∷ []))

  set-adds :
      (c : SetCall A) (b : Builder A)
      → c.condition ≡ true
      → is_valid_identifier c.column ≡ true
      → set c.column c.value c.condition b ≡ some (extended b (c ∷ []))
  unfolding set
  set-adds c b e f = rw (e, f, length-snoc b.args c.value) refl

  extended-cons :
      (c : SetCall A) (calls : List (SetCall A)) (b : Builder A)
      → extended (extended b (c ∷ [])) calls ≡ extended b (c ∷ calls)
  extended-cons c calls b =
      rw
        (
          length-snoc b.args c.value,
          append_assoc b.set_clauses (assignment c.column (suc (length b.args)) ∷ [])
              (numbered (suc (suc (length b.args))) calls),
          append_assoc b.args (c.value ∷ []) (values calls),
        )
        refl

  set_all_lem :
      (calls : List (SetCall A)) (b : Builder A)
      → set_all calls b
        ≡ (if all_valid (enabled calls) then some (extended b (enabled calls)) else none)
  unfolding set_all
  set_all_lem [] b = rw (append-nil b.set_clauses, append-nil b.args) refl
  set_all_lem (c ∷ calls) b = elim (Bool-cases c.condition) [
    | inr e ↦ rw (set-skips c b e, e) (set_all_lem calls b)
    | inl e ↦ elim (Bool-cases (is_valid_identifier c.column)) [
      | inr f ↦ rw (set-refuses c b e f, e, f) refl
      | inl f ↦
          rw
            (
              set-adds c b e f,
              set_all_lem calls (extended b (c ∷ [])),
              extended-cons c (enabled calls) b,
              e,
              f,
            )
            refl
    ]
  ]

  -- The statement for the calls that apply, written out.
  abbrev pub statement_of : List (SetCall A) → String → A → Statement A
  statement_of [] table entity_id = (
    "UPDATE " ⊕ (table ⊕ " SET updated_at = NOW() WHERE id = $1"),
    entity_id ∷ [],
    record { set_clauses = []; args = []; built = true },
  )
  statement_of (c ∷ calls) table entity_id = (
    "UPDATE "
        ⊕ (table
            ⊕ (" SET "
                ⊕ (join (numbered 1 (c ∷ calls) ++ ("updated_at = NOW()" ∷ []))
                    ⊕ (" WHERE id = $"
                        ⊕ (decimal (suc (length (c ∷ calls))) ⊕ " AND deleted_at IS NULL"))))),
    values (c ∷ calls) ++ (entity_id ∷ []),
    record { set_clauses = numbered 1 (c ∷ calls); args = values (c ∷ calls); built = true },
  )

  length-values : (calls : List (SetCall A)) → length (values calls) ≡ length calls
  length-values [] = refl
  length-values (c ∷ calls) = ap suc (length-values calls)

  length-args :
      (calls : List (SetCall A)) (a : A) → length (values calls ++ (a ∷ [])) ≡ suc (length calls)
  length-args calls a = length-snoc (values calls) a ∙ ap suc (length-values calls)

  build-extended :
      (calls : List (SetCall A)) (table : String) (entity_id : A)
      → build_or_no_op table entity_id (extended zero_builder calls)
        ≡ (if is_valid_identifier table then some (statement_of calls table entity_id) else none)
  unfolding build_or_no_op has_updates build build_no_op
  build-extended [] table entity_id = elim (Bool-cases (is_valid_identifier table)) [
    | inl e ↦ rw (e) refl
    | inr e ↦ rw (e) refl
  ]
  build-extended (c ∷ calls) table entity_id = elim (Bool-cases (is_valid_identifier table)) [
    | inl e ↦ rw (e, length-args calls entity_id, positive (length (numbered 2 calls))) refl
    | inr e ↦ rw (e, positive (length (numbered 2 calls))) refl
  ]

  -- The calls of Set of one operation, followed by BuildOrNoOp on a table, panic if a column that
  -- is to be set, or the table, is not a valid identifier. Otherwise they give the statement that
  -- sets the columns whose condition holds, in the order of the calls, to the arguments from $1 on,
  -- and that takes its row from the argument after them; without such a column, the one that sets
  -- `updated_at` only.
  pub update_statement_lem :
      (calls : List (SetCall A)) (table : String) (entity_id : A)
      → update_statement calls table entity_id ≡ (
          if all_valid (enabled calls) && is_valid_identifier table
          then some (statement_of (enabled calls) table entity_id)
          else none)
  unfolding update_statement
  update_statement_lem calls table entity_id = elim (Bool-cases (all_valid (enabled calls))) [
    | inl e ↦
        rw (set_all_lem calls zero_builder, e) (build-extended (enabled calls) table entity_id)
    | inr e ↦ rw (set_all_lem calls zero_builder, e) refl
  ]

  value-at :
      (cs : List (SetCall A)) (a : A) (i : ℕ) (c : SetCall A)
      → get_elem? cs i ≡ some c
      → get_elem? (values cs ++ (a ∷ [])) i ≡ some c.value
  value-at [] a i c e = cc
  value-at (d ∷ cs) a zero c e = ap (λ x. some x.value) (some_inj e)
  value-at (d ∷ cs) a (suc i) c e = value-at cs a i c e

  id-at : (cs : List (SetCall A)) (a : A) → get_elem? (values cs ++ (a ∷ [])) (length cs) ≡ some a
  id-at [] a = refl
  id-at (d ∷ cs) a = id-at cs a

  clause-at :
      (k : ℕ) (cs : List (SetCall A)) (i : ℕ) (c : SetCall A) (n : ℕ)
      → n ≡ i + k
      → get_elem? cs i ≡ some c
      → get_elem? (numbered k cs) i ≡ some (assignment c.column n)
  clause-at k [] i c n at e = cc
  clause-at k (d ∷ cs) zero c n at e =
      rw (zero_place n k at) (ap (λ x. some (assignment x.column k)) (some_inj e))
  clause-at k (d ∷ cs) (suc i) c n at e = clause-at (suc k) cs i c n (omega arith) e

  length-numbered : (k : ℕ) (cs : List (SetCall A)) → length (numbered k cs) ≡ length cs
  length-numbered k [] = refl
  length-numbered k (c ∷ cs) = ap suc (length-numbered (suc k) cs)

  -- The list of assignments for the calls, to the arguments from `$k` on, before that of
  -- `updated_at`.
  abbrev pub set_list : ℕ → List (SetCall A) → String
  set_list k [] = "updated_at = NOW()"
  set_list k (c ∷ cs) = c.column ⊕ (" = $" ⊕ (decimal k ⊕ (", " ⊕ set_list (suc k) cs)))

  -- The text of a statement on a table.
  abbrev pub query_text : List (SetCall A) → String → String
  query_text [] table = "UPDATE " ⊕ (table ⊕ " SET updated_at = NOW() WHERE id = $1")
  query_text (c ∷ cs) table =
      "UPDATE "
      ⊕ (table
          ⊕ (" SET "
              ⊕ (set_list 1 (c ∷ cs)
                  ⊕ (" WHERE id = $"
                      ⊕ (decimal (suc (length (c ∷ cs))) ⊕ " AND deleted_at IS NULL")))))

  join-set_list :
      (k : ℕ) (cs : List (SetCall A))
      → join (numbered k cs ++ ("updated_at = NOW()" ∷ [])) ≡ set_list k cs
  unfolding join assignment
  join-set_list k [] = refl
  join-set_list k (c ∷ []) = clause_text c.column (decimal k) ", updated_at = NOW()"
  join-set_list k (c ∷ d ∷ cs) =
      clause_text c.column (decimal k) _
      ∙ ap (λ (r : String). c.column ⊕ (" = $" ⊕ (decimal k ⊕ (", " ⊕ r))))
          (join-set_list (suc k) (d ∷ cs))

  -- The statement for the calls `cs` on a table: its text, and its arguments, the value of the call
  -- at a place, to which the clause at this place points by its number, then the id.
  pub record PointsAt (cs : List (SetCall A)) (table : String) (entity_id : A) (s : Statement A)
      : Type 0 where
    pub text_is : s.0 ≡ query_text cs table
    pub value_at :
        (i : ℕ) (c : SetCall A) → get_elem? cs i ≡ some c → get_elem? s.1 i ≡ some c.value
    pub id_at : get_elem? s.1 (length cs) ≡ some entity_id
    pub args_length : length s.1 ≡ suc (length cs)
    pub clause_at :
        (i : ℕ) (c : SetCall A)
        → get_elem? cs i ≡ some c
        → get_elem? s.2.set_clauses i ≡ some (c.column ⊕ (" = $" ⊕ decimal (suc i)))
    pub clauses_length : length s.2.set_clauses ≡ length cs
    -- A builder is used up by its statement.
    pub used_up : (table : String) (a : A) → build table a s.2 ≡ none

  statement_of-PointsAt :
      (cs : List (SetCall A)) (table : String) (entity_id : A)
      → PointsAt cs table entity_id (statement_of cs table entity_id)
  unfolding build assignment
  statement_of-PointsAt [] table entity_id = record {
    text_is = refl;
    value_at = λ i c e. cc;
    id_at = refl;
    args_length = refl;
    clause_at = λ i c e. cc;
    clauses_length = refl;
    used_up = λ t a. refl;
  }
  statement_of-PointsAt (d ∷ cs) table entity_id = record {
    text_is = rw (join-set_list 1 (d ∷ cs)) refl;
    value_at = value-at (d ∷ cs) entity_id;
    id_at = id-at (d ∷ cs) entity_id;
    args_length = length-args (d ∷ cs) entity_id;
    clause_at = λ i c e. clause-at 1 (d ∷ cs) i c (suc i) (omega arith) e;
    clauses_length = length-numbered 1 (d ∷ cs);
    used_up = λ t a. refl;
  }

  -- A statement that an operation builds is an UPDATE of the table whose text sets, in order, the
  -- column of each call whose condition holds to an argument, from $1 on, and `updated_at`, in the row
  -- whose id is the argument after these and that is not deleted; without such a call, the text sets
  -- `updated_at` only, in the row whose id is $1. The clause at place i names the column of its call and the argument i + 1, which is the
  -- value of the call; the argument after these, and the last, is the id. The builder that is left
  -- refuses to Build again.
  pub update_statement-PointsAt :
      (calls : List (SetCall A)) (table : String) (entity_id : A) (s : Statement A)
      → update_statement calls table entity_id ≡ some s
      → PointsAt (enabled calls) table entity_id s
  update_statement-PointsAt calls table entity_id s e =
      elim (Bool-cases (all_valid (enabled calls) && is_valid_identifier table)) [
        | inl f ↦
            subst (PointsAt (enabled calls) table entity_id)
              (some_inj (sym (update_statement_lem calls table entity_id ∙ pick_true none f) ∙ e))
              (statement_of-PointsAt (enabled calls) table entity_id)
        | inr f ↦
            let refused =
              update_statement_lem calls table entity_id
              ∙ pick_false (some (statement_of (enabled calls) table entity_id)) f in
            cc
      ]
