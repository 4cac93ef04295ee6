-- ===== src/Lang/Ast.antt =====
-- The syntax tree of crates/tamal-lang/src/parser.rs.
use Prim.Native.String.{String}
use tamal.Base.{ℕ, suc, Bool, List, [], ◌∷◌, Option}
use tamal.Base.Int.{ℤ}
use tamal.Asm.Diagnostics.{Span}

pub data BinOp : Type 0 where
  xor concat : BinOp

-- `Vec<Expr>` and `Vec<Arg>` stand in the block, since they hold expressions.
mutual
  pub data Expr : Type 0 where
    int : ℤ → Span → Expr
    name : String → Span → Expr
    bytes : Exprs → Span → Expr
    call : String → Args → Span → Expr
    binary : BinOp → Expr → Expr → Span → Expr

  pub data Exprs : Type 0 where
    no_elems : Exprs
    elem : Expr → Exprs → Exprs

  -- An argument has its name, if it is named, its value and its span.
  pub data Args : Type 0 where
    no_args : Args
    arg : Option String → Expr → Span → Args → Args

-- `args.len()`.
unfoldable pub args_len : Args → ℕ
args_len no_args = 0
args_len (arg key value span args) = suc (args_len args)

-- `Expr::span`.
unfoldable pub span_of : Expr → Span
span_of (int value span) = span
span_of (name n span) = span
span_of (bytes elems span) = span
span_of (call func args span) = span
span_of (binary op lhs rhs span) = span

-- The statement keywords, which name no callable.
abbrev pub stmt_keywords : List String
stmt_keywords =
    "pass" ∷ "fail" ∷ "send" ∷ "crc_region" ∷ "config" ∷ "frame" ∷ "recv" ∷ "wait_state" ∷ "expect"
    ∷ "repeat" ∷ []

-- `Type`.
pub data Ty : Type 0 where
  byte_type int_type bytes_type : Ty

unfoldable pub type_name : Ty → String
type_name byte_type = "byte"
type_name int_type = "int"
type_name bytes_type = "bytes"

pub record Param : Type 0 where
  pub name : String
  pub ty : Ty
  pub default : Option Expr
  pub span : Span

pub record FnDef : Type 0 where
  pub name : String
  pub name_span : Span
  pub params : List Param
  pub ret : Ty
  pub body : Expr

pub record Const : Type 0 where
  pub name : String
  pub name_span : Span
  pub value : Expr

pub data RecvTarget : Type 0 where
  named : String → RecvTarget
  discard : RecvTarget

-- `Vec<Stmt>` stands in the block. The number of `fail` and the operands of a raw instruction are
-- texts of the source.
mutual
  pub data Stmt : Type 0 where
    pass : Stmt
    fail : String → Span → Stmt
    raw : String → List String → Span → Stmt
    send : Expr → Bool → Span → Stmt
    crc_region : List Expr → Span → Stmt
    config : String → String → String → String → Span → Stmt
    frame : Stmts → Span → Stmt
    recv : List RecvTarget → Span → Stmt
    wait_state : Option String → Span → Stmt
    expect : Expr → Span → Stmt
    proc_call : String → Span → Args → Span → Stmt
    repeat : Expr → Stmts → Span → Stmt

  pub data Stmts : Type 0 where
    no_stmts : Stmts
    stmt : Stmt → Stmts → Stmts

pub record ProcDef : Type 0 where
  pub name : String
  pub name_span : Span
  pub params : List Param
  pub body : Stmts

pub record Test : Type 0 where
  pub name : String
  pub name_span : Span
  pub stmts : Stmts

pub record Module : Type 0 where
  pub consts : List Const
  pub fns : List FnDef
  pub procs : List ProcDef
  pub tests : List Test
