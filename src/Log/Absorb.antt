-- ===== src/Log/Absorb.antt =====
-- `write`: the list of logged blocks as a set, with repeated writes of a block absorbed.
use octox.Base.{
  ℕ, zero, suc, ◌+◌, ◌≤◌, ◌<◌, ◌≡◌, refl, sym, ◌⊎◌, inl, inr, Bool, true, false, ◌||◌, List, [],
  ◌∷◌, ◌==◌, ==_iff, arith, done, Bool-cases, length, set,
}
use octox.Log.Defs.{Log, Bufs, log_size, write, absorbed, append, pin}
use octox.Log.Blocks.{listed}

absorbed-listed : (b n : ℕ) (bs : List ℕ) (f : Bool) → absorbed b n bs ≡ done f → f ≡ listed b n bs
unfolding absorbed
absorbed-listed b zero bs f e = ground arith
absorbed-listed b (suc n) [] f e = absurd (ground arith)
absorbed-listed b (suc n) (x ∷ bs) f e = ground (arith, absorbed-listed b n bs f)

listed-set :
    (c b n : ℕ) (bs : List ℕ)
    → n < length bs
    → listed c (suc n) (set bs n b) ≡ (b == c) || listed c n bs
listed-set c b n [] h = absurd (omega arith)
listed-set c b zero (x ∷ bs) h = refl
listed-set c b (suc n) (x ∷ bs) h =
    rw (listed-set c b n bs (omega arith)) (swap (x == c) (b == c) _)
  where
    swap : (p q r : Bool) → (p || (q || r)) ≡ (q || (p || r))
    swap p q r = ground arith

listed_self :
    (c b n : ℕ) (bs : List ℕ) → listed b n bs ≡ true → listed c n bs ≡ (b == c) || listed c n bs
listed_self c b n bs e = elim (Bool-cases (b == c)) [
  | inl q ↦ let same : b ≡ c = (==_iff b c).0 q in rw (q) (rw (← same) e)
  | inr q ↦ rw q
]

write-cases :
    (l : Log) (b : ℕ) (s : Bufs) {l' : Log} {s' : Bufs}
    → write l b s ≡ done (l', s')
    → ((absorbed b l.lh.n l.lh.block ≡ done true) × (l' ≡ l) × (s' ≡ s))
      ⊎ ((absorbed b l.lh.n l.lh.block ≡ done false)
          × (l.lh.n < log_size)
          × (l' ≡ append b l)
          × (s' ≡ pin b s))
unfolding write
write-cases l b s e = ground arith

-- A write that returns leaves exactly the logged blocks and the written one in the log, in at most
-- one more place; what it changes of the buffers is at most the pin of that block.
write_set :
    (l : Log) (b : ℕ) (s : Bufs) {l' : Log} {s' : Bufs}
    → length l.lh.block ≡ log_size
    → write l b s ≡ done (l', s')
    → ((c : ℕ) → listed c l'.lh.n l'.lh.block ≡ (b == c) || listed c l.lh.n l.lh.block)
      × (l'.lh.n ≤ l.lh.n + 1)
      × (s'.cache ≡ s.cache)
      × (s'.disk ≡ s.disk)
write_set l b s full e = elim (write-cases l b s e) [
  | inl (a, p, q) ↦
      rw (p, q)
        (
          λ c. listed_self c b l.lh.n l.lh.block (sym (absorbed-listed b l.lh.n l.lh.block true a)),
          omega arith,
          refl,
          refl,
        )
  | inr (a, n, p, q) ↦
      rw (p, q)
        (
          λ c.
              let more : l.lh.n + 1 ≡ suc l.lh.n = omega arith in
              rw more (listed-set c b l.lh.n l.lh.block (omega arith)),
          omega arith,
          refl,
          refl,
        )
]
