-- ===== src/Odbc.antt =====
-- The ODBC driver and the database behind it, which Dao.cpp calls and the repository does not hold:
-- a parameter of the model. What it answers may depend on all that was executed before.
use cpp_iocp_server.Prelude.{
  ℕ, String, ◌≢◌, Bool, true, false, Option, none, some, List, [], ◌∷◌, ◌-◌, take,
}
use cpp_iocp_server.Text.{Text}
use cpp_iocp_server.Outcome.{returns, undefined, M}

pub data Parameter : Type 0 where
  text : Text → Parameter
  integer : ℕ → Parameter

-- A prepared query and what is bound to its question marks, in order.
pub record Statement : Type 0 where
  pub query : String
  pub parameters : List Parameter

-- The columns of a fetched row. A query of two columns leaves the third empty.
pub record Row : Type 0 where
  pub first : Text
  pub second : Text
  pub third : Text

-- `SQLRETURN` of `SQLExecute`
pub data SqlReturn : Type 0 where
  success success_with_info no_data error : SqlReturn

-- `res != -1`
abbrev pub is_not_error : SqlReturn → Bool
is_not_error error = false
is_not_error _ = true

pub record Reply : Type 0 where
  pub code : SqlReturn
  pub rows : List Row

pub record Database : Type 0 where
  pub executed : List Statement  -- the newest first
  pub answer : List Statement → Statement → Reply

-- `SQLPrepare`, `SQLBindParameter` and `SQLExecute`
unfoldable pub execute : Statement → M Database Reply
execute st db = returns (db.answer db.executed st) (record db { executed = st ∷ db.executed })

-- `SQLFetch(hStmt) != SQL_NO_DATA` and the bound columns after it. `SQLFetch` after a query that
-- failed is an error, not `SQL_NO_DATA`, and leaves the bound arrays as they are, uninitialised.
abbrev pub first_row : List Row → Option Row
first_row [] = none
first_row (r ∷ rest) = some r

unfoldable pub fetch : Reply → M Database (Option Row)
fetch reply db = elim reply.code [ error ↦ undefined | _ ↦ returns (first_row reply.rows) db ]

-- `SQLFetch` in a loop until `SQL_NO_DATA`
unfoldable pub fetch_all : Reply → M Database (List Row)
fetch_all reply db = elim reply.code [ error ↦ undefined | _ ↦ returns reply.rows db ]

-- A column of type `SQL_C_CHAR` bound to a `char` array of `n` bytes: cut to leave room for the
-- terminator.
abbrev pub bound : ℕ → Text → Text
bound n column = take (n - 1) column

-- The driver answers each query.
pub record IsServing (db : Database) : Type 0 where
  pub serves : (past : List Statement) (st : Statement) → (db.answer past st).code ≢ error
