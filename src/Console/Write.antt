-- ===== src/Console/Write.antt =====
-- `write` sends the byte at `src` again and again.
use octox.Base.{ℕ, zero, suc, ◌+◌, ◌≡◌, sym, ◌∙◌, List, [], ◌++◌, arith, Option, some}
use mathlib.Core.List.{append_assoc, append-nil}
use octox.Console.Defs.{Event, putc, write_loop, write}

unfoldable pub times : ℕ → List Event → List Event
times zero es = []
times (suc n) es = es ++ times n es

module _ (copyin : ℕ → Option ℕ) (src : ℕ) {x : ℕ} (e : copyin src ≡ some x) where
  write_loop-times :
      (k i : ℕ) (es : List Event) → write_loop copyin src k i es ≡ (i + k, es ++ times k (putc x))
  unfolding write_loop times
  write_loop-times zero i es = λ j. (done j, sym (append-nil es) j)
    where
      done : i ≡ i + 0
      done = omega arith
  write_loop-times (suc k) i es =
      rw (e, write_loop)
        (write_loop-times k (suc i) (es ++ putc x) ∙ λ j.
          (more j, append_assoc es (putc x) (times k (putc x)) j))
    where
      more : suc i + k ≡ i + suc k
      more = omega arith

-- Where the byte at `src` can be read, `write` of `n` bytes reports `n` and sends that byte `n`
-- times, whatever stands behind it.
write-times :
    (copyin : ℕ → Option ℕ) (src n : ℕ) {x : ℕ}
    → copyin src ≡ some x
    → write copyin src n ≡ (n, times n (putc x))
unfolding write
write-times copyin src n {x} e =
    write_loop-times copyin src e n 0 [] ∙ λ j. (all j, times n (putc x))
  where
    all : 0 + n ≡ n
    all = omega arith
