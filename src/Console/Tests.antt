-- ===== src/Console/Tests.antt =====
-- Runs of the console on small inputs, and the theorems at such inputs.
use octox.Base.{◌^◌, ◌-◌, ◌≡◌, refl, true, false, [], ◌∷◌, ◌++◌, arith, replicate}
use octox.Console.Defs.{Cons, intr, store, read, ctrl}
use octox.Console.Ring.{ready, line, bytes}
use octox.Console.Edit.{view, typed}
use octox.Console.Refine.{IsGood, intr-typed}
use octox.Console.Read.{taken, take_loop, read-take}

-- "hi" and a newline are ready, and "a" is being edited, at the wrap of the 64-bit indices.
abbrev cons : Cons
cons = record {
  buf = b'i' ∷ 10 ∷ b'a' ∷ (replicate 124 0 ++ (b'h' ∷ []));
  r = 2 ^ 64 - 1;
  w = 2;
  e = 3;
}

cons-IsGood : IsGood cons
unfolding line bytes
cons-IsGood = record {
  valid = record { sized = refl; words = omega arith; order = omega arith; fits = omega arith };
  plain = (refl, tt);
}

intr-typed_example : view (intr cons b'b').cons ≡ typed (view cons) b'b'
intr-typed_example = intr-typed b'b' cons-IsGood (λ e. absurd (ground (arith, e)))

typed_b : line (intr cons b'b').cons ≡ b'a' ∷ b'b' ∷ []
unfolding intr store line bytes
typed_b = refl

read-take_example :
    taken (read false (λ _. true) 5 cons) ≡ take_loop false (λ _. true) 5 5 [] (ready cons)
read-take_example = read-take false (λ _. true) 5 cons-IsGood.valid

-- ^H, the backspace of the module's comment, is stored as a byte of the line: the arm for it tests
-- for `ctrl(b'H') | 0x7f`, which is DEL.
control_h_is_stored : line (intr cons (ctrl b'H')).cons ≡ b'a' ∷ 8 ∷ []
unfolding intr store line bytes
control_h_is_stored = refl
