-- ===== src/Gateway/Framing.antt =====
-- Frames survive the wire.
use onepark_smart_park.Prelude.{
  ℕ, ◌<◌, ◌≡◌, refl, false, some, List, [], ◌∷◌, ◌++◌, Text, map, length, length-append, All, ltb,
  arith, ◌==◌,
}
use onepark_smart_park.Gateway.Frame.{newline, is_eol, lines_of, trim_eol, keep_unless_eol, read}

-- A device's frames, each with its newline, one after the other.
abbrev pub with_newline : Text → Text
with_newline frame = frame ++ newline ∷ []

abbrev pub on_wire : List Text → Text
on_wire [] = []
on_wire (frame ∷ frames) = with_newline frame ++ on_wire frames

-- A frame that the gateway takes whole: no line ends inside, and short enough with its newline.
abbrev pub Sendable : ℕ → Text → Type 0
Sendable max_bytes frame = All (λ b. is_eol b ≡ false) frame × (length frame < max_bytes)

lines_of-with_newline :
    (frame rest : Text)
    → All (λ b. is_eol b ≡ false) frame
    → lines_of (with_newline frame ++ rest) ≡ with_newline frame ∷ lines_of rest
unfolding lines_of
lines_of-with_newline [] rest h = refl
lines_of-with_newline (b ∷ frame) rest h =
    let one : (b == newline) ≡ false = ground arith in
    rw (one, lines_of-with_newline frame rest h.1) refl

keep_lem : (b : ℕ) (s : Text) → is_eol b ≡ false → keep_unless_eol b s ≡ b ∷ s
keep_lem b [] h = rw h refl
keep_lem b (c ∷ s) h = refl

trim_eol-with_newline :
    (frame : Text) → All (λ b. is_eol b ≡ false) frame → trim_eol (with_newline frame) ≡ frame
unfolding trim_eol
trim_eol-with_newline [] h = refl
trim_eol-with_newline (b ∷ frame) h = rw (trim_eol-with_newline frame h.1) (keep_lem b frame h.0)

read-with_newline :
    (max_bytes : ℕ) (frame : Text)
    → Sendable max_bytes frame
    → read max_bytes (with_newline frame) ≡ some frame
unfolding read
read-with_newline max_bytes frame h =
    let fits : ltb max_bytes (length (with_newline frame)) ≡ false =
      rw (length-append frame (newline ∷ [])) (let short = h.1 in ground arith) in
    rw (fits, trim_eol-with_newline frame h.0) refl

-- The gateway reads from a stream the frames that were written to it, in their order, if they hold
-- no line ends and fit into the limit.
pub read-on_wire :
    (max_bytes : ℕ) (frames : List Text)
    → All (Sendable max_bytes) frames
    → map (read max_bytes) (lines_of (on_wire frames)) ≡ map some frames
unfolding lines_of
read-on_wire max_bytes [] h = refl
read-on_wire max_bytes (frame ∷ frames) h =
    rw
      (
        lines_of-with_newline frame (on_wire frames) h.0.0,
        read-with_newline max_bytes frame h.0,
        read-on_wire max_bytes frames h.1,
      )
      refl
