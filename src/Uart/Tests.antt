-- ===== src/Uart/Tests.antt =====
-- A run of the serial port, and the theorem at it.
use octox.Base.{◌^◌, ◌-◌, refl, true, false, [], ◌∷◌, ◌++◌, arith, replicate}
use octox.Uart.Defs.{Uart, putc}
use octox.Uart.Order.{IsRing, PutPost, putc-post}

-- One byte waits, at the wrap of the index.
abbrev uart : Uart
uart = record { tx_buf = replicate 31 0 ++ (7 ∷ []); tx_w = 0; tx_r = 2 ^ 64 - 1; wire = [] }

uart-IsRing : IsRing 1 uart
uart-IsRing = record { sized = refl; reads = omega arith; writes = omega arith; fits = omega arith }

putc-post_example : PutPost false 1 1 9 uart (putc false (true ∷ false ∷ []) 9 uart)
putc-post_example = putc-post false (true ∷ false ∷ []) 1 9 uart uart-IsRing
