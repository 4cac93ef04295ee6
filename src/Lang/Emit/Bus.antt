-- ===== src/Lang/Emit/Bus.antt =====
-- The chip select and the verdict registers as an observer of the lines sees them, and the state of
-- the emitter that goes with it. Raw instructions are the author's own, and are passed over.
use tamal.Base.{
  ◌<◌, ◌==◌, if◌then◌else◌, Bool, true, false, Bool-cases, List, [], ◌∷◌, ◌++◌, map, Option, none,
  some, All, ◌≡◌, refl, inl, inr, arith, ==→eq,
}
use tamal.Asm.Diagnostics.{Span}
use tamal.Lang.RegAlloc.{Reg, contains, mark, mark_checked}
use tamal.Lang.Emit.{AsmLine, Deferred}

-- The line is released or asserted, with the registers that hold a residue not yet judged.
pub data Bus : Type 0 where
  released asserted : List Reg → Bus

abbrev pub latched : Bus → List Reg
latched (released regs) = regs
latched (asserted regs) = regs

-- A verdict waits for the release and judges the residues in order.
unfoldable pub judge : Reg → Bus → Option Bus
judge reg (asserted regs) = none
judge reg (released []) = none
judge reg (released (r ∷ regs)) = if r == reg then some (released regs) else none

unfoldable pub assert_line : Bus → Option Bus
assert_line (released []) = some (asserted [])
assert_line _ = none

unfoldable pub release_line : Bus → Option Bus
release_line (asserted regs) = some (released regs)
release_line (released regs) = none

-- What needs the line released and every residue judged.
unfoldable pub settled : Bus → Option Bus
settled (released []) = some (released [])
settled _ = none

-- A write must spare the residues.
unfoldable pub overwrite : Reg → Bus → Option Bus
overwrite reg bus = if contains (latched bus) reg then none else some bus

unfoldable pub latch : Reg → Bus → Option Bus
latch reg (released regs) = none
latch reg (asserted regs) = if contains regs reg then none else some (asserted (regs ++ reg ∷ []))

unfoldable pub observe : AsmLine → Bus → Option Bus
observe AsmLine.globl_start bus = some bus
observe AsmLine.start_label bus = some bus
observe AsmLine.cs_assert bus = assert_line bus
observe AsmLine.cs_deassert bus = release_line bus
observe AsmLine.crc_reset bus = some bus
observe (AsmLine.label_line label) bus = some bus
observe (AsmLine.halt_byte code) bus = settled bus
observe (AsmLine.put_byte b) bus = some bus
observe (AsmLine.halt_text code) bus = settled bus
observe (AsmLine.raw_line mnemonic operands) bus = some bus
observe (AsmLine.set_config role io sck alert) bus = settled bus
observe (AsmLine.bnez reg label) bus = judge reg bus
observe (AsmLine.get_byte reg) bus = overwrite reg bus
observe (AsmLine.rdsr_crc reg) bus = latch reg bus
observe (AsmLine.li reg n) bus = overwrite reg bus
observe (AsmLine.beq a b label) bus = some bus

abbrev pub then_observe : Option Bus → AsmLine → Option Bus
then_observe none line = none
then_observe (some bus) line = observe line bus

unfoldable pub watch : List (AsmLine × Span) → Option Bus → Option Bus
watch [] bus = bus
watch ((line, span) ∷ lines) bus = watch lines (then_observe bus line)

pub watch-append :
    (lines : List (AsmLine × Span)) (line : AsmLine) (span : Span) (bus : Option Bus)
    → watch (lines ++ (line, span) ∷ []) bus ≡ then_observe (watch lines bus) line
unfolding watch
watch-append [] line span bus = refl
watch-append ((l, s) ∷ lines) line span bus = watch-append lines line span (then_observe bus l)

-- The residues of a frame, and the bus while it is the innermost one.
abbrev pub regs_of : List Deferred → List Reg
regs_of frame = map (λ (d : Deferred). d.reg) frame

abbrev pub bus_of : List (List Deferred) → Bus
bus_of [] = released []
bus_of (frame ∷ frames) = asserted (regs_of frame)

-- The registers of the pending verdicts are busy.
abbrev pub AreHeld : (Reg → Bool) → List Deferred → Type 0
AreHeld busy frame = All (λ (d : Deferred). (busy d.reg ≡ true) × (d.reg < 16)) frame

abbrev pub HeldBy : (Reg → Bool) → List (List Deferred) → Type 0
HeldBy busy [] = Unit {0}
HeldBy busy (frame ∷ frames) = AreHeld busy frame

-- A register outside the pending verdicts.
abbrev pub Fresh : Reg → List (List Deferred) → Type 0
Fresh reg [] = Unit {0}
Fresh reg (frame ∷ frames) = contains (regs_of frame) reg ≡ false

idle-Fresh :
    (busy : Reg → Bool) (frame : List Deferred) (reg : Reg)
    → AreHeld busy frame
    → busy reg ≡ false
    → contains (regs_of frame) reg ≡ false
unfolding contains
idle-Fresh busy [] reg h idle = refl
idle-Fresh busy (d ∷ frame) reg ((b, _), h) idle = elim (Bool-cases (d.reg == reg)) [
  | inl e ↦ absurd (clash (rw (==→eq d.reg reg e) at b))
  | inr e ↦ rw e (idle-Fresh busy frame reg h idle)
]
  where
    clash : busy reg ≡ true → ⊥
    clash b = cc

-- A register that is not busy is no pending residue.
pub fresh_of_idle :
    (busy : Reg → Bool) (frames : List (List Deferred)) (reg : Reg)
    → HeldBy busy frames
    → busy reg ≡ false
    → Fresh reg frames
fresh_of_idle busy [] reg h idle = tt
fresh_of_idle busy (frame ∷ frames) reg h idle = idle-Fresh busy frame reg h idle

-- Busy registers may become more.
pub HeldBy-mono :
    (busy busy' : Reg → Bool) (frames : List (List Deferred))
    → ((n : Reg) → busy n ≡ true → busy' n ≡ true)
    → HeldBy busy frames
    → HeldBy busy' frames
HeldBy-mono busy busy' [] up h = tt
HeldBy-mono busy busy' (frame ∷ frames) up h = on frame h
  where
    on : (frame : List Deferred) → AreHeld busy frame → AreHeld busy' frame
    on [] h = tt
    on (d ∷ frame) ((b, lt), h) = ((up d.reg b, lt), on frame h)

AreHeld-free :
    (busy : Reg → Bool) (frame : List Deferred) (reg : Reg)
    → contains (regs_of frame) reg ≡ false
    → AreHeld busy frame
    → AreHeld (mark_checked busy reg false) frame
unfolding contains mark_checked mark
AreHeld-free busy [] reg fresh h = tt
AreHeld-free busy (d ∷ frame) reg fresh ((b, lt), h) = elim (Bool-cases (d.reg == reg)) [
  | inl e ↦ absurd (clash (rw e at fresh))
  | inr e ↦ ((ground arith, lt), AreHeld-free busy frame reg (rw e at fresh) h)
]
  where
    clash : true ≡ false → ⊥
    clash e = cc

-- Giving back another register leaves the pending ones busy.
pub HeldBy-free :
    (busy : Reg → Bool) (frames : List (List Deferred)) (reg : Reg)
    → Fresh reg frames
    → HeldBy busy frames
    → HeldBy (mark_checked busy reg false) frames
HeldBy-free busy [] reg fresh h = tt
HeldBy-free busy (frame ∷ frames) reg fresh h = AreHeld-free busy frame reg fresh h
