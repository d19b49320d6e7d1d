-- ===== src/Log/Admission.antt =====
-- `begin_op`, `write` and `end_op` as calls of concurrent file system operations, each of which
-- writes at most MAXOPBLOCKS blocks: `begin_op` admits only what the log has room for.
use octox.Base.{
  ℕ, zero, suc, ◌+◌, ◌-◌, ◌*◌, ◌≤◌, ◌<◌, ◌≡◌, ◌⊎◌, >>=-eq-done, refl, Bool, true, false, List, [],
  ◌∷◌, ◌==◌, some, if◌then◌else◌, arith, All, done, Bool-cases, panicked, leb, length, length-set,
  inl, inr,
}
use octox.Log.Defs.{
  Log, Bufs, log_size, max_op_blocks, begin_op, end_op_locked, end_op_commit, write, absorbed,
  append, pin, commit, cleared,
}

-- The log, the buffers, and for each operation in progress the number of writes it has left.
pub record System : Type 0 where
  pub log : Log
  pub bufs : Bufs
  pub ops : List ℕ

-- One operation of the list makes one of its writes.
pub data Spend : List ℕ → List ℕ → Type 0 where
  here : {r : ℕ} {xs : List ℕ} → Spend (suc r ∷ xs) (r ∷ xs)
  there : {x : ℕ} {xs ys : List ℕ} → Spend xs ys → Spend (x ∷ xs) (x ∷ ys)

-- One operation of the list ends.
pub data Leave : List ℕ → List ℕ → Type 0 where
  here : {r : ℕ} {xs : List ℕ} → Leave (r ∷ xs) xs
  there : {x : ℕ} {xs ys : List ℕ} → Leave xs ys → Leave (x ∷ xs) (x ∷ ys)

-- A call that returns. While a commit runs no operation is in progress.
pub data Step (t u : System) : Type 0 where
  begins : begin_op t.log ≡ some u.log → u.bufs ≡ t.bufs → u.ops ≡ max_op_blocks ∷ t.ops → Step t u
  writes : (b : ℕ) → write t.log b t.bufs ≡ done (u.log, u.bufs) → Spend t.ops u.ops → Step t u
  ends :
      {last : Bool}
      → end_op_locked t.log ≡ done (u.log, last)
      → u.bufs ≡ t.bufs
      → Leave t.ops u.ops
      → Step t u
  commits :
      (refuses : Bool)
      → t.log.committing ≡ true
      → end_op_commit refuses t.log t.bufs ≡ done (u.log, u.bufs)
      → u.ops ≡ t.ops
      → Step t u

pub data Reach (t : System) : System → Type 0 where
  start : Reach t t
  later : {u v : System} → Reach t u → Step u v → Reach t v

unfoldable pub budget : List ℕ → ℕ
budget [] = 0
budget (x ∷ xs) = x + budget xs

-- The operations admitted can all finish within the log.
pub record Admitted (t : System) : Type 0 where
  pub sized : length t.log.lh.block ≡ log_size
  pub counted : t.log.outstanding ≡ length t.ops
  pub within : All (λ x. x ≤ max_op_blocks) t.ops
  pub room : t.log.lh.n + budget t.ops ≤ log_size
  pub alone : t.log.committing ≡ true → t.log.outstanding ≡ 0

Spend-budget :
    {xs ys : List ℕ}
    → Spend xs ys
    → (budget xs ≡ suc (budget ys)) × (length xs ≡ length ys) × (0 < length xs)
unfolding budget
Spend-budget here = omega arith
Spend-budget (there s) = omega (arith, Spend-budget s)

Spend-All :
    {xs ys : List ℕ}
    → Spend xs ys
    → All (λ x. x ≤ max_op_blocks) xs
    → All (λ x. x ≤ max_op_blocks) ys
Spend-All here h = (omega arith, h.1)
Spend-All (there s) h = (h.0, Spend-All s h.1)

Leave-budget :
    {xs ys : List ℕ} → Leave xs ys → (budget ys ≤ budget xs) × (length xs ≡ suc (length ys))
unfolding budget
Leave-budget here = omega arith
Leave-budget (there s) = omega (arith, Leave-budget s)

Leave-All :
    {xs ys : List ℕ}
    → Leave xs ys
    → All (λ x. x ≤ max_op_blocks) xs
    → All (λ x. x ≤ max_op_blocks) ys
Leave-All here h = h.1
Leave-All (there s) h = (h.0, Leave-All s h.1)

budget-le : (xs : List ℕ) → All (λ x. x ≤ max_op_blocks) xs → budget xs ≤ length xs * max_op_blocks
unfolding budget
budget-le [] h = omega arith
budget-le (x ∷ xs) h = omega (arith, h.0, budget-le xs h.1)

length-zero-budget : (xs : List ℕ) → length xs ≡ 0 → budget xs ≡ 0
unfolding budget
length-zero-budget [] h = refl
length-zero-budget (x ∷ xs) h = absurd (omega arith)

commit-log :
    (r : Bool) (l : Log) (s s' : Bufs) {l' : Log} → commit r l s ≡ done (l', s') → l' ≡ cleared l
unfolding commit
commit-log r l s s' e = ground arith

end_op_commit-log :
    (r : Bool) (l : Log) (s s' : Bufs) {l' : Log}
    → end_op_commit r l s ≡ done (l', s')
    → l' ≡ record (cleared l) { committing = false }
unfolding end_op_commit
end_op_commit-log r l s s' e =
    let ((l1, s1), p, q) = >>=-eq-done (commit r l s) _ e in
    ground (arith, q, commit-log r l s s1 p)

absorbed_total : (b n : ℕ) (bs : List ℕ) → n ≤ length bs → (f : Bool) × (absorbed b n bs ≡ done f)
unfolding absorbed
absorbed_total b zero bs h = (false, refl)
absorbed_total b (suc n) [] h = absurd (omega arith)
absorbed_total b (suc n) (x ∷ bs) h = elim (Bool-cases (x == b)) [
  | inl e ↦ (true, rw e)
  | inr e ↦ let (f, p) = absorbed_total b n bs (omega arith) in (f, rw e p)
]

write-log :
    (l : Log) (b : ℕ) (s s' : Bufs) {l' : Log}
    → write l b s ≡ done (l', s')
    → (l' ≡ l) ⊎ (l' ≡ append b l)
unfolding write
write-log l b s s' e = ground arith

-- Every step keeps the invariant.
pub Step-Admitted : {t u : System} → Step t u → Admitted t → Admitted u
unfolding begin_op end_op_locked budget
Step-Admitted {t} {u} (begins e b o) v = record {
  sized = ground (arith, v.sized);
  counted = ground (arith, v.counted);
  within = rw o (omega arith, v.within);
  room = ground (arith, o, v.room, v.counted, budget-le t.ops v.within);
  alone = ground arith;
}
Step-Admitted {t} {u} (writes b e p) v = record {
  sized =
      ground
        (arith, write-log t.log b t.bufs u.bufs e, length-set t.log.lh.block t.log.lh.n b, v.sized);
  counted = ground (arith, write-log t.log b t.bufs u.bufs e, Spend-budget p, v.counted);
  within = Spend-All p v.within;
  room = ground (arith, write-log t.log b t.bufs u.bufs e, Spend-budget p, v.room);
  alone = ground (arith, write-log t.log b t.bufs u.bufs e, v.alone);
}
Step-Admitted {t} {u} (ends e b p) v = record {
  sized = ground (arith, v.sized);
  counted = ground (arith, v.counted, Leave-budget p);
  within = Leave-All p v.within;
  room = ground (arith, Leave-budget p, v.room);
  alone = ground (arith, Leave-budget p, v.counted);
}
Step-Admitted {t} {u} (commits refuses c e o) v = record {
  sized = ground (arith, end_op_commit-log refuses t.log t.bufs u.bufs e, v.sized);
  counted = ground (arith, end_op_commit-log refuses t.log t.bufs u.bufs e, v.counted, o);
  within = rw o v.within;
  room = ground (
    arith,
    end_op_commit-log refuses t.log t.bufs u.bufs e,
    o,
    v.alone c,
    v.counted,
    length-zero-budget t.ops,
  );
  alone = ground (arith, end_op_commit-log refuses t.log t.bufs u.bufs e);
}

pub Reach-Admitted : {t u : System} → Reach t u → Admitted t → Admitted u
Reach-Admitted start v = v
Reach-Admitted (later r s) v = Step-Admitted s (Reach-Admitted r v)

Spend-pos : {xs ys : List ℕ} → Spend xs ys → 0 < budget xs
Spend-pos s = omega (arith, Spend-budget s)

-- Either the test of the log's size stops the write, or the write returns.
unfoldable pub Writes : Log → ℕ → Bufs → Type 0
Writes l b s =
    ((l.size ≤ l.lh.n + 1) × (write l b s ≡ panicked))
    ⊎ ((l.lh.n + 1 < l.size) × (r : Log × Bufs) × (write l b s ≡ done r))

write_ok :
    (t : System) (b : ℕ)
    → Admitted t
    → t.log.lh.n < log_size
    → 0 < t.log.outstanding
    → Writes t.log b t.bufs
unfolding write Writes
write_ok t b v n o =
    let (f, e) = absorbed_total b t.log.lh.n t.log.lh.block (omega (arith, v.sized)) in
    elim (Bool-cases (leb t.log.size (t.log.lh.n + 1))) [
      | inl small ↦ inl (ground (arith, small), ground (arith, small))
      | inr big ↦ inr (
        ground (arith, big),
        if f then (t.log, t.bufs) else (append b t.log, pin b t.bufs),
        ground (arith, e, big),
      )
    ]

-- In every state that calls of `begin_op`, `write`, `end_op` and commits lead to from a state
-- that is within its budget, a write by an operation that has made fewer than MAXOPBLOCKS of them
-- passes the test of LOGSIZE and the search of the header: it returns when the log's size is more
-- than one above the number of logged blocks, and panics otherwise, which a log of LOGSIZE blocks
-- comes to at the thirtieth block.
pub write-Admitted :
    {t u : System} {ys : List ℕ} (b : ℕ)
    → Admitted t
    → Reach t u
    → Spend u.ops ys
    → Writes u.log b u.bufs
write-Admitted {u} b v r p =
    let w = Reach-Admitted r v in
    write_ok u b w (omega (arith, Spend-pos p, w.room)) (omega (arith, Spend-budget p, w.counted))

end_op_ok :
    (l : Log) (n : ℕ)
    → l.outstanding ≡ suc n
    → l.committing ≡ false
    → (l' : Log) × (end_op_locked l ≡ done (l', n == 0))
unfolding end_op_locked
end_op_ok l zero o c = (record l { outstanding = 0; committing = true }, ground (arith, o, c))
end_op_ok l (suc n) o c = (record l { outstanding = l.outstanding - 1 }, ground (arith, o, c))

-- In every state that calls of `begin_op`, `write`, `end_op` and commits lead to from a state within its budget, the end of an operation does not panic, and it asks for a commit exactly when
-- no other operation is in progress.
end_op-Admitted :
    {t u : System} {ys : List ℕ}
    → Admitted t
    → Reach t u
    → Leave u.ops ys
    → (l : Log) × (end_op_locked u.log ≡ done (l, length ys == 0))
end_op-Admitted {u} {ys} v r p =
    let w = Reach-Admitted r v in
    end_op_ok u.log (length ys) (omega (arith, w.counted, Leave-budget p)) (idle w)
  where
    idle : Admitted u → u.log.committing ≡ false
    idle w = ground (arith, w.alone, w.counted, Leave-budget p)

-- In every state that calls of `begin_op`, `write`, `end_op` and commits lead to from a state within its budget, while a commit runs no operation is in progress.
commit_alone : {t u : System} → Admitted t → Reach t u → u.log.committing ≡ true → length u.ops ≡ 0
commit_alone v r c = let w = Reach-Admitted r v in omega (arith, w.alone c, w.counted)
