-- ===== src/DynUpdate.antt =====
-- server/pkg/dynupdate/builder.go: UPDATE statements with as many columns as a request names. What
-- Go holds as `interface{}` is of a type that the caller chooses, and `box` is the conversion to it;
-- a panic is `none`.
pub mod Numbering
pub mod Entities
pub mod Updates
pub mod Examples
use Prim.Native.Char.{Char, code}
use Prim.Native.String.{String, ◌++◌ as ◌⊕◌, len, slice}
use text.Mathlib.Text.{◌==◌ as str_eq}
use family_ledger.Base.{
  ℕ, zero, suc, ◌+◌, ◌/◌, ◌%◌, Bool, true, false, not, ◌&&◌, ◌||◌, Option, none, some, List, [],
  ◌∷◌, ◌++◌, ◌==◌, ltb, leb, if◌then◌else◌,
}
use family_ledger.Base.Lists.{length}
use family_ledger.Base.Int.{ℤ, pos, eqb_ℤ}
use family_ledger.Loan.Float.{Float}

-- `[a-zA-Z_]`
abbrev is_letter : Char → Bool
is_letter c =
    leb 65 (code c) && leb (code c) 90 || leb 97 (code c) && leb (code c) 122 || code c == 95

-- `[a-zA-Z0-9_]`
abbrev is_word : Char → Bool
is_word c = is_letter c || leb 48 (code c) && leb (code c) 57

-- `[a-zA-Z0-9_]*` up to the end
abbrev is_word_text : String → Bool
is_word_text String.[] = true
is_word_text (String.◌∷◌ c s) = is_word c && is_word_text s

-- `identifierRe.MatchString`
abbrev identifier_re : String → Bool
identifier_re String.[] = false
identifier_re (String.◌∷◌ c s) = is_letter c && is_word_text s

-- `isValidIdentifier`
unfoldable pub is_valid_identifier : String → Bool
is_valid_identifier name = ltb 0 (len name) && leb (len name) 63 && identifier_re name

-- What `%d` prints for a number; the number itself is enough fuel after the first digit.
abbrev digits : ℕ → ℕ → String
digits zero n = slice "0123456789" n (suc n)
digits (suc fuel) n =
    let front = digits fuel (n / 10) in
    if ltb n 10
    then slice "0123456789" n (suc n)
    else front ⊕ slice "0123456789" (n % 10) (suc (n % 10))

unfoldable pub decimal : ℕ → String
decimal n = digits n n

-- `fmt.Sprintf("%s = $%d", column, n)`
unfoldable pub assignment : String → ℕ → String
assignment column n = column ⊕ (" = $" ⊕ decimal n)

-- `strings.Join(clauses, ", ")`
unfoldable pub join : List String → String
join [] = ""
join (c ∷ []) = c
join (c ∷ d ∷ l) = c ⊕ (", " ⊕ join (d ∷ l))

pub record Builder (A : Type 0) : Type 0 where
  pub set_clauses : List String
  pub args : List A
  pub built : Bool

-- The statement with its arguments, and the builder that is left.
abbrev pub Statement : Type 0 → Type 0
Statement A = String × List A × Builder A

-- The code after a call that may panic.
infixl 10 ◌>>=◌
abbrev pub ◌>>=◌ : {B C : Type 0} → Option B → (B → Option C) → Option C
none >>= f = none
some b >>= f = f b

module _ {A : Type 0} where
  -- `var b dynupdate.Builder`
  abbrev pub zero_builder : Builder A
  zero_builder = record { set_clauses = []; args = []; built = false }

  -- `Set`
  unfoldable pub set : String → A → Bool → Builder A → Option (Builder A)
  set column value condition b =
      if not condition
      then some b
      else if not (is_valid_identifier column)
      then none
      else some (record b {
        set_clauses = b.set_clauses ++ (assignment column (length (b.args ++ (value ∷ []))) ∷ []);
        args = b.args ++ (value ∷ []);
      })

  -- `SetString`
  unfoldable pub set_string : (String → A) → String → String → Builder A → Option (Builder A)
  set_string box column value = set column (box value) (not (str_eq value ""))

  -- `SetInt64NonZero` and `SetIntNonZero`
  unfoldable pub set_int_non_zero : (ℤ → A) → String → ℤ → Builder A → Option (Builder A)
  set_int_non_zero box column value = set column (box value) (not (eqb_ℤ value (pos 0)))

  -- `SetFloat64NonZero`
  unfoldable pub set_float64_non_zero :
      (fl : Float) → (fl.Number → A) → String → fl.Number → Builder A → Option (Builder A)
  set_float64_non_zero fl box column value =
      set column (box value) (not (fl.eq value (fl.of_int (pos 0))))

  -- `HasUpdates`
  unfoldable pub has_updates : Builder A → Bool
  has_updates b = ltb 0 (length b.set_clauses)

  -- `Build`
  unfoldable pub build : String → A → Builder A → Option (Statement A)
  build table entity_id b =
      if b.built
      then none
      else if not (is_valid_identifier table)
      then none
      else let clauses = b.set_clauses ++ ("updated_at = NOW()" ∷ []) in
        let args = b.args ++ (entity_id ∷ []) in
        some (
          "UPDATE "
              ⊕ (table
                  ⊕ (" SET "
                      ⊕ (join clauses
                          ⊕ (" WHERE id = $"
                              ⊕ (decimal (length args) ⊕ " AND deleted_at IS NULL"))))),
          args,
          record b { built = true },
        )

  -- `BuildNoOp`
  unfoldable pub build_no_op : String → A → Option (String × List A)
  build_no_op table entity_id =
      if not (is_valid_identifier table)
      then none
      else some ("UPDATE " ⊕ (table ⊕ " SET updated_at = NOW() WHERE id = $1"), entity_id ∷ [])

  abbrev leave : Builder A → Option (String × List A) → Option (Statement A)
  leave b none = none
  leave b (some (query, args)) = some (query, args, b)

  -- `BuildOrNoOp`
  unfoldable pub build_or_no_op : String → A → Builder A → Option (Statement A)
  build_or_no_op table entity_id b =
      if not (has_updates b)
      then leave (record b { built = true }) (build_no_op table entity_id)
      else build table entity_id b

-- A call of `Set`, with its arguments.
pub record SetCall (A : Type 0) : Type 0 where
  pub column : String
  pub value : A
  pub condition : Bool

module _ {A : Type 0} where
  -- The calls of one operation, one after the other.
  unfoldable pub set_all : List (SetCall A) → Builder A → Option (Builder A)
  set_all [] b = some b
  set_all (c ∷ calls) b = set c.column c.value c.condition b >>= set_all calls

  -- What the operations on synchronised rows do with a builder
  -- (server/internal/sync/entity_ops.go).
  unfoldable pub update_statement : List (SetCall A) → String → A → Option (Statement A)
  update_statement calls table entity_id =
      set_all calls zero_builder >>= build_or_no_op table entity_id
