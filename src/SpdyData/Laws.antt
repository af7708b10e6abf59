-- ===== src/SpdyData/Laws.antt =====
-- The cursor's arithmetic.
use spindly.Prelude.{ℕ, ◌≤◌, ◌≡◌, arith, length, drop, length-drop, drop-drop}
use spindly.SpdyData.{SpdyData, available, at_cursor, advance, IsWithin}

pub available-length : (d : SpdyData) → IsWithin d → available d ≡ length (at_cursor d)
unfolding available at_cursor
available-length d w = omega (arith, length-drop d.cursor d.buf)

pub at_cursor-advance : (d : SpdyData) (n : ℕ) → at_cursor (advance d n) ≡ drop n (at_cursor d)
unfolding at_cursor
at_cursor-advance d n = drop-drop d.cursor n d.buf

pub IsWithin-advance :
    (d : SpdyData) (n : ℕ) → IsWithin d → n ≤ available d → IsWithin (advance d n)
unfolding available
IsWithin-advance d n w h = omega arith
