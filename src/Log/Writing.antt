-- ===== src/Log/Writing.antt =====
-- `write_log`: the logged blocks are copied into the log.
use octox.Base.{
  ◌^◌, leb, subst, sym, ℕ, zero, suc, ◌+◌, ◌≤◌, ◌<◌, ◌≡◌, refl, ap, ◌∙◌, true, false, List, [], ◌∷◌,
  arith, All, update, Outcome, done, fun_ext,
}
use octox.Log.Defs.{Block, Disk, Bufs, log_size, log_one, log_loop, fill, stored}
use octox.Log.Blocks.{Home, listed, Firsts, Holds, Clear}

-- What one round of `write_log` leaves when the guard lets its holder write.
unfoldable one_logged : (from to : ℕ) → Bufs → Bufs
one_logged from to s = stored to (fill to (s.cache from) s)

one_logged-disk :
    (from to : ℕ) (s : Bufs) → (one_logged from to s).disk ≡ update s.disk to (s.cache from)
unfolding one_logged
one_logged-disk from to s = fun_ext λ b. ground arith

one_logged-history :
    (from to : ℕ) (s : Bufs)
    → (one_logged from to s).history ≡ update s.disk to (s.cache from) ∷ s.history
unfolding one_logged
one_logged-history from to s = ap (λ d. d ∷ s.history) (fun_ext λ b. ground arith)

-- What `write_log` leaves: the entries from `tail` on hold `T`, all below is as before, and no home
-- block has changed.
pub record Written (old T : Disk) (start tail k : ℕ) (bs : List ℕ) (s : Bufs) (m : Outcome Bufs)
    : Type 0 where
  pub result : Bufs
  pub returns : m ≡ done result
  pub cached : Holds T result.cache start tail k bs
  pub stored : Holds T result.disk start tail k bs
  pub below : (c : ℕ) → c ≤ start + tail → (result.cache c ≡ s.cache c) × (result.disk c ≡ s.disk c)
  pub now : Clear start old result.disk
  pub past : All (Clear start old) result.history

Clear-update :
    (start : ℕ) (old d : Disk) (c : ℕ) (w : Block)
    → start < c
    → c ≤ start + log_size
    → Clear start old d
    → Clear start old (update d c w)
Clear-update start old d c w lo hi h = record {
  head = ground (arith, h.head);
  home = λ b o. ground (arith, h.home b o);
}

one_logged-cache :
    (from to : ℕ) (s : Bufs) → (one_logged from to s).cache ≡ update s.cache to (s.cache from)
unfolding one_logged
one_logged-cache from to s = refl

Written-cons :
    (old T : Disk) (start tail k b : ℕ) (bs : List ℕ) (s : Bufs) {m : Outcome Bufs}
    → s.cache b ≡ T b
    → Written old T start (suc tail) k bs (one_logged b (start + tail + 1) s) m
    → Written old T start tail (suc k) (b ∷ bs) s m
Written-cons old T start tail k b bs s src i = record {
  result = i.result;
  returns = i.returns;
  cached = (here.0, i.cached);
  stored = (here.1, i.stored);
  below = λ c o. (ground (arith, low c o), ground (arith, low c o));
  now = i.now;
  past = i.past;
}
  where
    e : ℕ
    e = start + tail + 1

    at :
        (c : ℕ)
        → c ≤ start + suc tail
        → (i.result.cache c ≡ update s.cache e (s.cache b) c)
          × (i.result.disk c ≡ update s.disk e (s.cache b) c)
    at c o = (
      (i.below c o).0 ∙ ap (λ (f : Disk). f c) (one_logged-cache b e s),
      (i.below c o).1 ∙ ap (λ (f : Disk). f c) (one_logged-disk b e s),
    )

    here : (i.result.cache e ≡ T b) × (i.result.disk e ≡ T b)
    here = ground (arith, at e (omega arith), src)

    low : (c : ℕ) → c ≤ start + tail → (i.result.cache c ≡ s.cache c) × (i.result.disk c ≡ s.disk c)
    low c o = ground (arith, at c (omega arith))

pub log_loop_lem :
    (old T : Disk) (start k tail : ℕ) (bs : List ℕ) (s : Bufs)
    → tail + k ≤ log_size
    → start + log_size < 2 ^ 32
    → Firsts (Home start) k bs
    → ((b : ℕ) → Home start b → listed b k bs ≡ true → s.cache b ≡ T b)
    → Clear start old s.disk
    → All (Clear start old) s.history
    → Written old T start tail k bs s (log_loop false start k tail bs s)
unfolding log_loop log_one one_logged
log_loop_lem old T start zero tail bs s fits range f src c h = record {
  result = s;
  returns = refl;
  cached = tt;
  stored = tt;
  below = λ x o. (refl, refl);
  now = c;
  past = h;
}
log_loop_lem old T start (suc k) tail [] s fits range f src c h = absurd f
log_loop_lem old T start (suc k) tail (b ∷ bs) s fits range f src c h =
    let no_overflow : leb (2 ^ 32) (start + tail + 1) ≡ false = ground (arith, fits, range) in
    let e = start + tail + 1 in
    let d' = Clear-update start old s.disk e (s.cache b) (omega arith) (omega arith) c in
    rw no_overflow (
      Written-cons old T start tail k b bs s (src b f.0 (ground arith)) (
        log_loop_lem old T start k (suc tail) bs (one_logged b e s) (omega arith) range f.1
          (λ x o q. ap (λ (g : Disk). g x) (one_logged-cache b e s) ∙ ground (arith, src x o))
          (rw (one_logged-disk b e s) d')
          (subst (All (Clear start old)) (sym (one_logged-history b e s)) (d', h))))
