-- ===== src/Lib.antt =====
-- tamal: a test rig for the eSPI bus, driven from a host. A program for the rig's engine is a list of
-- 32-bit instruction words. The host (crates/tamal-loader) sends the words in frames over a serial line,
-- starts the engine, and reads back a ring of trace words; both sides share the formats of
-- crates/tamal-abi. The assembler (crates/tamal-asm) turns the lines of a source into such a program.
--
-- The files, by the code they model:
--   Abi/Isa        crates/tamal-abi/src/isa.rs: operands (Operand), packing of fields (Fields), the
--                  instructions (Instr), `Instr::encode` (Encode) and `Instr::decode` (Decode)
--   Abi/Crc8       crates/tamal-abi/src/crc8.rs
--   Abi/Cobs       crates/tamal-abi/src/cobs.rs
--   Abi/Wire       crates/tamal-abi/src/wire.rs: frames, control messages and drains
--   Abi/Trace      crates/tamal-abi/src/trace.rs; Trace/Layout has an independent writer of a ring
--   Abi/Config     crates/tamal-abi/src/config.rs
--   Loader/Error, Loader/Program     crates/tamal-loader/src/error.rs
--   Loader/Transport                 crates/tamal-loader/src/transport.rs
--   Loader/Device                    crates/tamal-loader/src/device.rs; Device/Rig is a rig that keeps
--                  the protocol, with the engine as a parameter
--   Asm/Diagnostics, Asm/Outcome     crates/tamal-asm/src/diagnostics.rs, and results with an error of it
--   Asm/Scanner    the loop of both lexers, crates/tamal-asm/src/lexer.rs and crates/tamal-lang/src/lexer.rs
--   Asm/Lexer      crates/tamal-asm/src/lexer.rs; Lexer/Grammar is an independent grammar of its tokens
--   Asm/Parser, Asm/Parse            crates/tamal-asm/src/parser.rs: the lines, and `parse`
--   Asm/Symbol, Asm/Passes           crates/tamal-asm/src/symbol.rs
--   Asm/Encoder    crates/tamal-asm/src/encoder.rs: operands (Resolve), `li` (Li), `set_config`
--                  (SetConfig), shared forms (Args, Forms) and `encode_line` (Line); Li/Effect
--                  reads the instructions of `li` as the engine does, with the registers of
--                  hdl/src/Tamal/RegFile.hs
--   Asm/Assemble   crates/tamal-asm/src/lib.rs, `assemble` from the parsed lines on
--   Asm/Source     crates/tamal-asm/src/lib.rs, `assemble` from the bytes of a source on
--   Lang/Lexer     crates/tamal-lang/src/lexer.rs; Lexer/Grammar is an independent grammar of its tokens
--   Lang/RegAlloc  crates/tamal-lang/src/regalloc.rs; RegAlloc/Pool is the stack of register sets that it
--                  stands for
--   Lang/Ast       the syntax tree of crates/tamal-lang/src/parser.rs
--   Lang/Consteval crates/tamal-lang/src/consteval.rs: values and environments here, and the evaluator in
--                  Consteval/Eval
--   Lang/Emit      crates/tamal-lang/src/emit.rs: the state here, and the statements in Emit/Lower;
--                  Emit/Bus is an observer of the lines
--   Lang/Driver    crates/tamal-lang/src/lib.rs, `lower` from the parsed module on
--   Base           helpers: Boolean tests, lists, machine words, results, bits
--   Runs           tests, and the theorems at concrete inputs
--
-- A value of a Rust integer type is a number, and every cast and shift that can lose bits is written out
-- with its remainder. `Result` and `?` are Base/Errors. A method on `&mut self` takes the state and gives
-- its result with the state afterwards.
--
-- Loops: `encode_loop`, `records_loop` and `read_loop` recurse on the list that they consume, as do the
-- passes of the assembler, and `run_loop` on the attempts left. `decode_loop` of COBS has fuel, one step
-- for a group, and starts with the length of the input: each group consumes its code byte, so that many
-- steps are enough.
--
-- The lexers have fuel, one round for a byte, and start with the length of the source; the parser of the
-- assembler has one round for a token. Each round takes one at least. A source is its bytes, and an index
-- into it, or into the tokens, goes with the list of what is left from it on.
--
-- Parameters: the serial port (what its reads give is a list of polls), the transport of a session, and
-- the engine of the rig. An I/O error is a number, and the texts of error messages are left out.
--
-- In the assembler, a message is its kind with the values that its text shows, and the hash map of
-- symbols is the list of its entries. `expect` and `unwrap` on an operand newtype give 0 where the program
-- would panic. A signed integer of any width is an integer of Base/Int, with its casts written out.
--
-- The compiler (crates/tamal-lang) lowers a module of compile-time functions, inlined procedures and one
-- test to lines of assembly: Driver checks the module, Consteval folds its constants, Emit walks the
-- statements of the test and takes registers from RegAlloc. Evaluation and lowering recurse on the tree,
-- with a depth for what they expand, the bodies of functions and of procedures; Asm/Outcome has a value
-- for a depth that is used up. `emit` starts with a level for each procedure, and evaluation with one for
-- each function and one more: a chain of expansions names each at most once, so that is enough. The hash
-- maps are lists of entries or functions, and an emitted line is its kind with its operands. `i64` values
-- are integers of Base/Int: the operations on them (xor, a shift to the right, a mask) do not leave the
-- range of the type.
--
-- Not modelled: the text output (in crates/tamal-asm mnemonics.rs, disasm.rs and the listing in lib.rs;
-- in crates/tamal-lang the text, the byte ranges and the remapping of the lines of emit.rs), the parser of
-- crates/tamal-lang (the methods of P in parser.rs), the command-line tools, and the hardware description
-- (hdl, in Haskell).
pub mod Base
pub mod Abi
pub mod Loader
pub mod Asm
pub mod Lang
pub mod Runs
