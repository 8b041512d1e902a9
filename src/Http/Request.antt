-- ===== src/Http/Request.antt =====
-- misc/http/request.h and response.h. A pointer into the read buffer is a span of it: where it
-- begins, and the length that stands beside it.
use orca_db.Base.{ℕ, Option, none, some, Bytes, [], List, take, drop}

pub record Span : Type 0 where
  pub start : ℕ
  pub len : ℕ

abbrev pub bytes_of : Bytes → Span → Bytes
bytes_of buf s = take s.len (drop s.start buf)

-- `val` is `none` for the literal "" that a parameter without `=` gets.
pub record Param : Type 0 where
  pub key : Span
  pub val : Option Span

-- `params[8]` and `param_count` are one list. `body` is `none` for NULL.
pub record Request : Type 0 where
  pub method : Span
  pub path : Span
  pub params : List Param
  pub content_length : ℕ
  pub body : Option Span

abbrev pub val_bytes : Bytes → Param → Bytes
val_bytes buf p = elim p.val [ none ↦ [] | some s ↦ bytes_of buf s ]
