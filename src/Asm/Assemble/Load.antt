-- ===== src/Asm/Assemble/Load.antt =====
-- From assembly to the loader: the bytes and the words of an assembled program.
use tamal.Base.{◌≡◌, refl, ap₂, ◌∙◌, List, [], ◌∷◌, length, leb, map, All, ok, arith, true}
use tamal.Abi.Isa.Instr.{Instr, IsValid}
use tamal.Abi.Isa.Encode.{encode, program_to_le_bytes}
use tamal.Abi.Isa.Decode.{decode}
use tamal.Abi.Isa.RoundTrip.{decode-encode}
use tamal.Abi.Isa.Words.{encode-IsU32}
use tamal.Abi.Wire.Words.{program_to_le_bytes-words}
use tamal.Loader.Error.{max_program_words}
use tamal.Loader.Program.{validate_program_bytes}
use tamal.Loader.Program.Valid.{validate-words}
use tamal.Asm.Parser.{Line}
use tamal.Asm.Assemble.{Program, assemble_lines}
use tamal.Asm.Assemble.Words.{assemble_lines-total}
use tamal.Asm.Assemble.Valid.{assemble_lines-Valid}

length-map : (is : List Instr) → length (map encode is) ≡ length is
length-map [] = refl
length-map (i ∷ is) = omega (arith, length-map is)

decode-All : (is : List Instr) → All IsValid is → map decode (map encode is) ≡ map ok is
decode-All [] h = refl
decode-All (i ∷ is) (h, hs) = ap₂ (λ x xs. x ∷ xs) (decode-encode i h) (decode-All is hs)

-- The loader accepts the bytes of an assembled program as its words, and each word decodes to the
-- instruction that it was assembled from.
pub validate-assemble_lines :
    (lines : List Line) (p : Program)
    → assemble_lines lines ≡ ok p
    → (validate_program_bytes (program_to_le_bytes p.instrs) ≡ ok (map encode p.instrs))
      × (map decode (map encode p.instrs) ≡ map ok p.instrs)
validate-assemble_lines lines p e = (
  rw program_to_le_bytes-words
      (validate-words (map encode p.instrs) (encode-IsU32 p.instrs) ∙ rw fits),
  decode-All p.instrs (assemble_lines-Valid lines p e),
)
  where
    fits : leb (length (map encode p.instrs)) max_program_words ≡ true
    fits = ground (arith, length-map p.instrs, (assemble_lines-total lines p e).1)
