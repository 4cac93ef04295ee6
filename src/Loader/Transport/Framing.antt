-- ===== src/Loader/Transport/Framing.antt =====
-- How a frame is read when its bytes are spread over time.
use tamal.Base.{
  ℕ, ◌≡◌, ◌≢◌, refl, sym, ap, subst, ◌∙◌, none, some, Result, List, [], ◌∷◌, ◌++◌, append_assoc,
  All, IsByte, ne→==, ok,
}
use mathlib.Core.List.{append_cancel_right}
use tamal.Abi.Cobs.Shape.{IsStuffed}
use tamal.Abi.Wire.{delimiter, frame_encode}
use tamal.Abi.Wire.Frames.{frame_encode_shape}
use tamal.Loader.Error.{TransportError}
use tamal.Loader.Transport.{push_frame_byte, Poll, idle, byte, read_loop, read_frame}

-- The polls bring these bytes one by one and then the delimiter, with idle polls anywhere before it.
pub data Brings : List Poll → List ℕ → Type 0 where
  closes : Brings (byte delimiter ∷ []) []
  waits : {ps : List Poll} {body : List ℕ} → Brings ps body → Brings (idle ∷ ps) body
  brings :
      {ps : List Poll} {body : List ℕ} (b : ℕ) → Brings ps body → Brings (byte b ∷ ps) (b ∷ body)

-- Between frames: idle polls and delimiters that close nothing.
pub data Quiet : List Poll → Type 0 where
  quiet : Quiet []
  lull : {ps : List Poll} → Quiet ps → Quiet (idle ∷ ps)
  stray : {ps : List Poll} → Quiet ps → Quiet (byte delimiter ∷ ps)

-- A byte that is not 0 joins the frame.
reads_byte :
    (ps : List Poll) (acc : List ℕ) (b : ℕ)
    → b ≢ 0
    → read_loop (byte b ∷ ps) acc ≡ read_loop ps (acc ++ b ∷ [])
reads_byte ps acc b nz =
    unfold read_loop in
    ap
      (λ p. elim p.0 as (λ _. Result (List ℕ) TransportError × List Poll) [
        | some f ↦ (ok f, ps)
        | none ↦ read_loop ps p.1
      ])
      pushed
  where
    pushed : push_frame_byte acc b ≡ (none, acc ++ b ∷ [])
    pushed = unfold push_frame_byte in rw (ne→== b delimiter nz)

-- With a frame begun, bytes that are not 0 join it, and the delimiter closes it.
reads_body :
    {ps : List Poll} {body : List ℕ}
    → Brings ps body
    → (a : ℕ) (acc : List ℕ) (later : List Poll) → All IsStuffed body
    → read_loop (ps ++ later) (a ∷ acc) ≡ (ok ((a ∷ acc) ++ (body ++ delimiter ∷ [])), later)
unfolding read_loop push_frame_byte
reads_body closes a acc later h = refl
reads_body (waits w) a acc later h = reads_body w a acc later h
reads_body (brings {ps = ps} {body = body} b w) a acc later (hb, h) =
    reads_byte (ps ++ later) (a ∷ acc) b hb.1
    ∙ rw (← append_assoc (a ∷ acc) (b ∷ []) (body ++ delimiter ∷ []))
        (reads_body w a (acc ++ b ∷ []) later h)

-- Outside a frame, the first byte that is not 0 begins one.
reads_frame :
    {ps : List Poll} {b : ℕ} {body : List ℕ}
    → Brings ps (b ∷ body)
    → (later : List Poll) → All IsStuffed (b ∷ body)
    → read_loop (ps ++ later) [] ≡ (ok ((b ∷ body) ++ delimiter ∷ []), later)
unfolding read_loop push_frame_byte
reads_frame (waits w) later h = reads_frame w later h
reads_frame (brings {ps = ps} {body = body} b w) later (hb, h) =
    reads_byte (ps ++ later) [] b hb.1 ∙ reads_body w b [] later h

reads-Quiet :
    {qs : List Poll} → Quiet qs → (ps : List Poll) → read_loop (qs ++ ps) [] ≡ read_loop ps []
unfolding read_loop push_frame_byte
reads-Quiet quiet ps = refl
reads-Quiet (lull q) ps = reads-Quiet q ps
reads-Quiet (stray q) ps = reads-Quiet q ps

-- When a quiet line then brings the frame of a message, whatever the idle polls between its bytes, the
-- read gives that frame whole and leaves the later polls unread.
pub read_frame-frame_encode :
    (logical : List ℕ)
    → All IsByte logical
    → {qs ps later : List Poll} {body : List ℕ} → Quiet qs
    → Brings ps body
    → frame_encode logical ≡ body ++ delimiter ∷ []
    → read_frame (qs ++ (ps ++ later)) ≡ (ok (frame_encode logical), later)
unfolding read_frame
read_frame-frame_encode logical hl {qs = qs} {ps = ps} {later = later} {body = body} q w e =
    let (b, rest, shape, stuffed) = frame_encode_shape logical hl in
    let same = append_cancel_right body (b ∷ rest) (delimiter ∷ []) (sym e ∙ shape) in
    rw (reads-Quiet q (ps ++ later), shape) (reads_frame (subst (Brings ps) same w) later stuffed)
