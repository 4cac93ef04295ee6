-- ===== src/Asm/Encoder/Line/Sizes.antt =====
-- How many instructions a line becomes: what pass 1 counts.
use Prim.Native.String.{String}
use text.Mathlib.Text.{◌==◌ as str_eq}
use text.Mathlib.TextEquality.{eq_iff}
use tamal.Base.{
  ℕ, ◌≡◌, refl, sym, subst, ◌∙◌, List, [], ◌∷◌, length, Bool, true, false, Bool-cases, inl, inr,
  if◌then◌else◌, Result, ok, err, ◌>>=◌, ◌>>◌, arith, ◌≤◌, ◌&&◌, ◌^◌, ◌-◌,
}
use tamal.Abi.Isa.Instr.{Instr}
use tamal.Abi.Isa.Operand.{ShiftOp}
use tamal.Asm.Diagnostics.{Span, Diagnostic}
use tamal.Asm.Parser.{Operand}
use tamal.Asm.Symbol.{SymbolTable}
use tamal.Base.Int.{ℤ, pos, negsuc, leb_ℤ, is_zero, low_bits}
use tamal.Asm.Encoder.Resolve.{resolve_reg}
use tamal.Asm.Encoder.Li.{li_low, tile_li, li_value, li_word_count, instr_word_count, sized}
use tamal.Asm.Encoder.Forms.{Seq, rrr, rri, shift, branch}
use tamal.Asm.Encoder.Line.{encode_pseudo, encode_data, encode_line}

-- What holds of the instructions, if there are any.
pub data Ok (P : List Instr → Type 0) : Seq → Type 0 where
  made : {is : List Instr} → P is → Ok P (ok is)
  failed : {e : Diagnostic} → Ok P (err e)

pub Ok-inverse : {P : List Instr → Type 0} {is : List Instr} (m : Seq) → Ok P m → m ≡ ok is → P is
Ok-inverse {P = P} m (made p) e = subst P (cc e) p
Ok-inverse m failed e = cc e

pub Ok-if :
    {P : List Instr → Type 0} {x y : Seq} (b : Bool) → Ok P x → Ok P y → Ok P (if b then x else y)
Ok-if true h k = h
Ok-if false h k = k

pub Ok-if_not :
    {P : List Instr → Type 0} (x y : Seq) (b : Bool)
    → b ≡ false
    → Ok P y
    → Ok P (if b then x else y)
Ok-if_not x y b h k = rw h k

pub Ok-bind :
    {P : List Instr → Type 0} {A : Type 0} (m : Result A Diagnostic) {f : A → Seq}
    → ((a : A) → Ok P (f a))
    → Ok P (m >>= f)
Ok-bind (ok a) h = h a
Ok-bind (err e) h = failed

pub Ok-then :
    {P : List Instr → Type 0} (m : Result (Unit {0}) Diagnostic) {k : Seq} → Ok P k → Ok P (m >> k)
Ok-then (ok a) h = h
Ok-then (err e) h = failed

abbrev One : List Instr → Type 0
One is = length is ≡ 1

made-One : (i : Instr) → Ok One (ok (i ∷ []))
made-One i = made refl

ruleset one_rules = (Ok-if, Ok-bind, Ok-then, made-One, failed)

rrr-One :
    (ops : List Operand) (span : Span) (m : String) (ctor : ℕ → ℕ → ℕ → Instr)
    → Ok One (rrr ops span m ctor)
unfolding rrr
rrr-One ops span m ctor = search one_rules

rri-One :
    (ops : List Operand) (span : Span) (m : String) (syms : SymbolTable) (ctor : ℕ → ℕ → ℕ → Instr)
    → Ok One (rri ops span m syms ctor)
unfolding rri
rri-One ops span m syms ctor = search one_rules

shift-One :
    (ops : List Operand) (span : Span) (m : String) (syms : SymbolTable) (op : ShiftOp)
    → Ok One (shift ops span m syms op)
unfolding shift
shift-One ops span m syms op = search one_rules

branch-One :
    (ops : List Operand) (span : Span) (m : String) (addr : ℕ) (syms : SymbolTable)
    (ctor : ℕ → ℕ → ℕ → Instr)
    → Ok One (branch ops span m addr syms ctor)
unfolding branch
branch-One ops span m addr syms ctor = search one_rules

pseudo-One :
    (m : String) (ops : List Operand) (span : Span) (addr : ℕ) (syms : SymbolTable)
    → str_eq m "li" ≡ false
    → Ok One (encode_pseudo m ops span addr syms)
unfolding encode_pseudo
pseudo-One m ops span addr syms h = search (branch-One, one_rules, Ok-if_not) depth 30

data-One :
    (m : String) (ops : List Operand) (span : Span) (addr : ℕ) (syms : SymbolTable)
    → str_eq m "li" ≡ false
    → Ok One (encode_data m ops span addr syms)
unfolding encode_data
data-One m ops span addr syms h =
    search (pseudo-One, h, rrr-One, rri-One, shift-One, one_rules) depth 40

line-One :
    (m : String) (ops : List Operand) (span : Span) (addr : ℕ) (syms : SymbolTable)
    → str_eq m "li" ≡ false
    → Ok One (encode_line m ops span addr syms)
unfolding encode_line
line-One m ops span addr syms h = search (data-One, h, one_rules) depth 40

-- How many words `li` takes, whatever its register: one or two.
abbrev li_words : ℤ → ℕ
li_words v =
    if leb_ℤ (negsuc (2 ^ 20 - 1)) v && leb_ℤ v (pos (2 ^ 20 - 1))
    then 1
    else if is_zero (li_low (low_bits 32 v))
    then 1
    else 2

length-tile_li : (rd : ℕ) (v : ℤ) → length (tile_li rd v) ≡ li_words v
unfolding tile_li
length-tile_li rd v =
    elim (Bool-cases (leb_ℤ (negsuc (2 ^ 20 - 1)) v && leb_ℤ v (pos (2 ^ 20 - 1)))) [
      | inl e ↦ rw e
      | inr e ↦
          rw e
            (elim (Bool-cases (is_zero (li_low (low_bits 32 v)))) [ inl z ↦ rw z | inr z ↦ rw z ])
    ]

li_words-le : (v : ℤ) → li_words v ≤ 2
li_words-le v = elim (Bool-cases (leb_ℤ (negsuc (2 ^ 20 - 1)) v && leb_ℤ v (pos (2 ^ 20 - 1)))) [
  | inl e ↦ rw e (omega arith)
  | inr e ↦ rw e (elim (Bool-cases (is_zero (li_low (low_bits 32 v)))) [
    | inl z ↦ rw z (omega arith)
    | inr z ↦ rw z (omega arith)
  ])
]

li_word_count-words : (v : ℤ) → li_word_count v ≡ li_words v
unfolding li_word_count
li_word_count-words v = rw (length-tile_li) (omega (arith, li_words-le v))

word_count-other :
    (m : String) (ops : List Operand) (syms : SymbolTable)
    → str_eq m "li" ≡ false
    → instr_word_count m ops syms ≡ 1
unfolding instr_word_count
word_count-other m [] syms h = refl
word_count-other m (a ∷ []) syms h = refl
word_count-other m (a ∷ b ∷ []) syms h = rw h
word_count-other m (a ∷ b ∷ c ∷ ops) syms h = refl

-- The table `before` gives `li` the values that `syms` gives it.
abbrev pub SameLi : SymbolTable → SymbolTable → Type 0
SameLi before syms = (b : Operand) (v : ℤ) → li_value b syms ≡ ok v → li_value b before ≡ ok v

li-count :
    (ops : List Operand) (span : Span) (addr : ℕ) (syms before : SymbolTable) (is : List Instr)
    → SameLi before syms
    → encode_line "li" ops span addr syms ≡ ok is
    → length is ≡ instr_word_count "li" ops before
unfolding encode_line encode_data encode_pseudo instr_word_count
li-count [] span addr syms before is same e = cc e
li-count (a ∷ []) span addr syms before is same e = cc e
li-count (a ∷ b ∷ c ∷ ops) span addr syms before is same e = cc e
li-count (a ∷ b ∷ []) span addr syms before is same e =
    value (resolve_reg a) (li_value b syms) refl e
  where
    value :
        (r : Result ℕ Diagnostic) (v : Result ℤ Diagnostic)
        → li_value b syms ≡ v
        → (r >>= λ rd. v >>= λ x. ok (tile_li rd x)) ≡ ok is
        → length is ≡ sized (li_value b before)
    value (err x) v g k = cc k
    value (ok rd) (err x) g k = cc k
    value (ok rd) (ok v) g k = cc (same b v g, k, length-tile_li rd v, li_word_count-words v)

-- An instruction line that assembles becomes as many instructions as pass 1 counts for it with the table
-- that it has by then, when that table gives `li` the same values.
pub encode_line-count :
    (m : String) (ops : List Operand) (span : Span) (addr : ℕ) (syms before : SymbolTable)
    (is : List Instr)
    → SameLi before syms
    → encode_line m ops span addr syms ≡ ok is
    → length is ≡ instr_word_count m ops before
encode_line-count m ops span addr syms before is same e = elim (Bool-cases (str_eq m "li")) [
  | inl h ↦
      let li = (eq_iff m "li").0 h in
      subst (λ n. length is ≡ instr_word_count n ops before) (sym li)
        (li-count ops span addr syms before is same
          (subst (λ n. encode_line n ops span addr syms ≡ ok is) li e))
  | inr h ↦ Ok-inverse _ (line-One m ops span addr syms h) e ∙ sym (word_count-other m ops before h)
]
