-- ===== src/Lang/Consteval/Types.antt =====
-- Values of the declared types, and what the checks of crates/tamal-lang/src/consteval.rs give.
use Prim.Native.String.{String}
use text.Mathlib.Text.{◌==◌ as str_eq}
use tamal.Base.{
  ℕ, zero, suc, ◌<◌, ltb, Bool, true, false, Bool-cases, List, [], ◌∷◌, Option, none, some, All,
  ◌≡◌, refl, subst, inl, inr, arith,
}
use tamal.Base.Int.{ℤ, pos, negsuc}
use tamal.Asm.Diagnostics.{Span, Place, argument_of}
use tamal.Asm.Outcome.{Outcome, done, outcome, ◌>>◌, Yields, yields, fails, Yields-bind}
use tamal.Lang.Ast.{Ty, byte_type, int_type, bytes_type, Param, Expr}
use tamal.Lang.Consteval.{
  Value, Table, get_value, contains_key, check_int, check_bytes, check_type, byte_of, param_at,
  param_named, param_for,
}
use tamal.Lang.Consteval.Eval.{as_int, as_bytes, as_byte, bind_value}

abbrev pub IsByte : ℕ → Type 0
IsByte n = n < 256

-- A byte string holds bytes.
pub data IsValue : Value → Type 0 where
  an_int : {n : ℤ} → IsValue (Value.int n)
  a_string : {b : List ℕ} → All IsByte b → IsValue (Value.bytes b)

-- The value is of the type; a byte is an integer from 0 to 255.
pub data HasType : Ty → Value → Type 0 where
  is_byte : (n : ℕ) → n < 256 → HasType byte_type (Value.int (pos n))
  is_int : {n : ℤ} → HasType int_type (Value.int n)
  is_bytes : {b : List ℕ} → HasType bytes_type (Value.bytes b)

byte_type_of :
    (n : ℤ) (span : Span) (what : Place)
    → Yields (λ _. HasType byte_type (Value.int n)) (outcome (check_int byte_type n span what))
unfolding check_int
byte_type_of (pos n) span what = elim (Bool-cases (ltb n 256)) [
  | inl e ↦ rw e (yields (is_byte n (ground arith)))
  | inr e ↦ rw e fails
]
byte_type_of (negsuc n) span what = fails

-- A value that passes the check has the type.
pub check_type-HasType :
    (v : Value) (ty : Ty) (span : Span) (what : Place)
    → Yields (λ _. HasType ty v) (outcome (check_type v ty span what))
unfolding check_type check_int check_bytes
check_type-HasType (Value.int n) byte_type span what = byte_type_of n span what
check_type-HasType (Value.int n) int_type span what = yields is_int
check_type-HasType (Value.int n) bytes_type span what = fails
check_type-HasType (Value.bytes b) byte_type span what = fails
check_type-HasType (Value.bytes b) int_type span what = fails
check_type-HasType (Value.bytes b) bytes_type span what = yields is_bytes

pub as_int-Yields : (e : Expr) {v : Value} → IsValue v → Yields (λ _. Unit {0}) (as_int e v)
unfolding as_int
as_int-Yields e an_int = yields tt
as_int-Yields e (a_string h) = fails

pub as_bytes-Yields : (e : Expr) {v : Value} → IsValue v → Yields (All IsByte) (as_bytes e v)
unfolding as_bytes
as_bytes-Yields e an_int = fails
as_bytes-Yields e (a_string h) = yields h

pub as_byte-Yields : (e : Expr) (n : ℤ) → Yields IsByte (as_byte e n)
unfolding as_byte byte_of
as_byte-Yields e (pos n) = elim (Bool-cases (ltb n 256)) [
  | inl t ↦ rw (t, as_byte) (yields (ground arith))
  | inr t ↦ rw (t, as_byte) fails
]
as_byte-Yields e (negsuc n) = fails

abbrev pub AreValues : Table → Type 0
AreValues table = All (λ (entry : String × Value). IsValue entry.1) table

pub get_value-IsValue :
    (table : Table) (name : String) {v : Value}
    → AreValues table
    → get_value table name ≡ some v
    → IsValue v
unfolding get_value
get_value-IsValue [] name h e = cc
get_value-IsValue ((n, w) ∷ table) name (p, h) e = elim (Bool-cases (str_eq n name)) [
  | inl t ↦ found p (rw t at e)
  | inr t ↦ get_value-IsValue table name h (rw t at e)
]
  where
    found : {w v : Value} → IsValue w → some w ≡ some v → IsValue v
    found p e = subst IsValue (cc) p

-- One of the parameters.
pub data Among (p : Param) : List Param → Type 0 where
  first : {params : List Param} → Among p (p ∷ params)
  later : {q : Param} {params : List Param} → Among p params → Among p (q ∷ params)

-- An entry of the table belongs to a parameter, and has its type.
pub record IsBinding (params : List Param) (entry : String × Value) : Type 0 where
  pub param : Param
  pub among : Among param params
  pub named : param.name ≡ entry.0
  pub typed : HasType param.ty entry.1
  pub value : IsValue entry.1

abbrev pub AreBindings : List Param → Table → Type 0
AreBindings params table = All (IsBinding params) table

pub AreBindings-AreValues :
    (params : List Param) (table : Table) → AreBindings params table → AreValues table
AreBindings-AreValues params [] h = tt
AreBindings-AreValues params (entry ∷ table) (b, h) =
    (b.value, AreBindings-AreValues params table h)

param_at-Among :
    (params : List Param) (i : ℕ) {p : Param} → param_at params i ≡ some p → Among p params
unfolding param_at
param_at-Among [] i e = cc
param_at-Among (q ∷ params) zero e = subst (λ (r : Param). Among r (q ∷ params)) (cc) first
param_at-Among (q ∷ params) (suc i) e = later (param_at-Among params i e)

param_named-Among :
    (params : List Param) (name : String) {p : Param}
    → param_named params name ≡ some p
    → Among p params
unfolding param_named
param_named-Among [] name e = cc
param_named-Among (q ∷ params) name {p} e = elim (Bool-cases (str_eq q.name name)) [
  | inl t ↦ here (rw t at e)
  | inr t ↦ later (param_named-Among params name (rw t at e))
]
  where
    here : some q ≡ some p → Among p (q ∷ params)
    here e = subst (λ (r : Param). Among r (q ∷ params)) (cc) first

pub param_for-Among :
    (callee : String) (params : List Param) (given : ℕ) (key : Option String) (span : Span) (i : ℕ)
    (seen : Bool)
    → Yields
        (λ (r : Param × Bool). Among r.0 params)
        (outcome (param_for callee params given key span i seen))
unfolding param_for
param_for-Among callee params given none span i true = fails
param_for-Among callee params given none span i false = at (param_at params i) refl
  where
    at :
        (r : Option Param)
        → param_at params i ≡ r
        → Yields
            (λ (r : Param × Bool). Among r.0 params)
            (outcome (param_for callee params given none span i false))
    at none e = rw (e, outcome) fails
    at (some p) e = rw (e, outcome) (yields (param_at-Among params i e))
param_for-Among callee params given (some name) span i seen = at (param_named params name) refl
  where
    at :
        (r : Option Param)
        → param_named params name ≡ r
        → Yields
            (λ (r : Param × Bool). Among r.0 params)
            (outcome (param_for callee params given (some name) span i seen))
    at none e = rw (e, outcome) fails
    at (some p) e = rw (e, outcome) (yields (param_named-Among params name e))

-- A checked value for a parameter, in front of a table.
pub add_binding :
    {params : List Param} (bound : Table) (p : Param) (v : Value) (span : Span) (what : Place)
    → Among p params
    → IsValue v
    → AreBindings params bound
    → Yields
        (AreBindings params)
        (outcome (check_type v p.ty span what) >> done ((p.name, v) ∷ bound))
add_binding bound p v span what among value h =
    Yields-bind (check_type-HasType v p.ty span what) λ _ typed.
      yields (record { param = p; among = among; named = refl; typed = typed; value = value }, h)

-- Binding an argument keeps the table typed.
pub bind_value-AreBindings :
    (callee : String) {params : List Param} (p : Param) (span : Span) (bound : Table)
    {m : Outcome Value}
    → Among p params
    → Yields IsValue m
    → AreBindings params bound
    → Yields (AreBindings params) (bind_value callee p span bound m)
unfolding bind_value
bind_value-AreBindings callee p span bound {m} among value h =
    elim (Bool-cases (contains_key bound p.name)) [
      | inl e ↦ rw (e, bind_value) fails
      | inr e ↦
          rw (e, bind_value)
            (Yields-bind value
              λ v q. add_binding bound p v span (argument_of p.name callee) among q h)
    ]
