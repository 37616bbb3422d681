-- ===== src/Database.antt =====
-- The database connection: src/DatabaseManager.h and DatabaseManager.cpp. PostgreSQL behind libpqxx
-- is outside the sources: what it answers to a text of SQL is an argument.
pub mod Lifetime
use proj8315server.Base.{ℕ, Bool, true, false, Option, none, some, List, [], ◌∷◌, ℤ, pos, String}

-- QUERY_STATUS__X.
pub data QueryStatus : Type 0 where
  incomplete ok connection_error syntax_error unique_violation unexpected_error : QueryStatus

-- `pqxx::result` as the code reads it: what `getValue` yields for a row and a column at each of its
-- types, with the default value that it yields where the conversion fails.
pub record Rows : Type 0 where
  pub size : ℕ
  pub text_at : ℕ → ℕ → String
  pub flag_at : ℕ → ℕ → Bool
  pub int_at : ℕ → ℕ → ℤ

abbrev pub no_rows : Rows
no_rows = record { size = 0; text_at = λ _ _. ""; flag_at = λ _ _. false; int_at = λ _ _. pos 0 }

pub record QueryResult : Type 0 where
  pub status : QueryStatus
  pub result : Rows
  pub error_msg : String

-- How a transaction ends: with rows, or by one of the exceptions that `exec_query` catches.
pub data Transaction : Type 0 where
  committed : Rows → Transaction
  syntax_thrown unique_thrown other_thrown : String → Transaction

-- `s_pConnection`. A connection that was deleted leaves its address behind.
pub data Pointer : Type 0 where
  null_pointer connected dangling : Pointer

-- What constructing a `pqxx::connection` comes to.
pub data Opening : Type 0 where
  opened not_open threw : Opening

-- `connect`: the pointer afterwards, and the result.
unfoldable pub connect : Opening → Pointer → Pointer × Bool
connect opened null_pointer = (connected, true)
connect not_open null_pointer = (dangling, false)
connect threw null_pointer = (null_pointer, false)
connect how p = (p, false)

-- `disconnect`; closing through a dangling pointer is a fault.
unfoldable pub disconnect : Pointer → Option Pointer
disconnect null_pointer = some null_pointer
disconnect connected = some dangling
disconnect dangling = none

abbrev pub result_of : Transaction → QueryResult
result_of (committed rows) = record { status = ok; result = rows; error_msg = "" }
result_of (syntax_thrown what) = record {
  status = syntax_error;
  result = no_rows;
  error_msg = what;
}
result_of (unique_thrown what) = record {
  status = unique_violation;
  result = no_rows;
  error_msg = what;
}
result_of (other_thrown what) = record {
  status = unexpected_error;
  result = no_rows;
  error_msg = what;
}

-- `exec_query`; the transaction is run only on a connection.
unfoldable pub exec_query : Pointer → Transaction → Option QueryResult
exec_query null_pointer t =
    some (record { status = connection_error; result = no_rows; error_msg = "" })
exec_query connected t = some (result_of t)
exec_query dangling t = none
