-- ===== src/Asm/Symbol.antt =====
-- The symbol table of crates/tamal-asm/src/symbol.rs: a map from names, as the list of its entries.
use Prim.Native.String.{String}
use text.Mathlib.Text.{◌==◌ as str_eq}
use tamal.Base.{ℕ, List, [], ◌∷◌, Option, none, some, if◌then◌else◌, Result, ok, err}
use tamal.Base.Int.{ℤ}
use tamal.Asm.Diagnostics.{Span}

pub data Sym : Type 0 where
  equ : ℤ → Sym
  label : ℕ → Sym

abbrev pub SymbolTable : Type 0
SymbolTable = List (String × Sym × Span)

unfoldable pub entry : SymbolTable → String → Option (Sym × Span)
entry [] name = none
entry ((n, sym, span) ∷ map) name = if str_eq n name then some (sym, span) else entry map name

unfoldable pub get : SymbolTable → String → Option Sym
get map name = elim (entry map name) [ none ↦ none | some (s, _) ↦ some s ]

-- The table with the symbol, or the span that defines the name already.
unfoldable pub insert : SymbolTable → String → Sym → Span → Result SymbolTable Span
insert map name sym span = elim (entry map name) [
  | some (_, prev) ↦ err prev
  | none ↦ ok ((name, sym, span) ∷ map)
]
