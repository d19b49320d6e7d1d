-- ===== src/Channel/Order.antt =====
-- What a channel keeps: its bound, its count, and the order of what is sent.
use octox.Base.{
  ℕ, ◌+◌, ◌≤◌, ◌≡◌, ◌≢◌, refl, sym, ap, ◌∙◌, Bool, true, false, List, [], ◌∷◌, ◌++◌, ◌==◌, leb,
  if◌then◌else◌, arith, inl, inr, Bool-cases, Option, none, some, length, length-append, Outcome,
  done, panicked,
}
use octox.Channel.Defs.{
  Channel, sem_wait, sem_post, sync_channel, send_wait, push, pop_from, pop, post, Step, waits,
  pushes, pops, posts, Reach, start, later,
}

abbrev pub bit : Bool → ℕ
bit true = 1
bit false = 0

append_assoc : (xs ys zs : List ℕ) → (xs ++ ys) ++ zs ≡ xs ++ (ys ++ zs)
append_assoc [] ys zs = refl
append_assoc (x ∷ xs) ys zs = ap (λ r. x ∷ r) (append_assoc xs ys zs)

pub record IsSound (max : ℕ) (c : Channel) : Type 0 where
  pub size : c.max ≡ max
  pub counted : c.cnt ≡ length c.buf + (c.senders + bit c.receiver)
  pub bounded : c.cnt ≤ max
  pub ordered : c.got ++ c.buf ≡ c.sent

-- A result that is none, or sound.
abbrev Keeps : ℕ → Option Channel → Type 0
Keeps max (some c) = IsSound max c
Keeps max none = Unit

module _ (max : ℕ) where
  Keeps-if :
      (b : Bool) (x y : Option Channel)
      → (b ≡ true → Keeps max x)
      → (b ≡ false → Keeps max y)
      → Keeps max (if b then x else y)
  Keeps-if true x y h k = h refl
  Keeps-if false x y h k = k refl

  send_wait-Keeps : (c : Channel) → IsSound max c → Keeps max (send_wait c)
  unfolding send_wait sem_wait
  send_wait-Keeps c h = elim (Bool-cases (leb c.max c.cnt)) [
    | inl t ↦ rw (t, Keeps) tt
    | inr t ↦
        rw (t, Keeps)
          (record {
            size = h.size;
            counted = omega (arith, h.counted);
            bounded = ground (arith, t, h.size);
            ordered = h.ordered;
          })
  ]

  push-Keeps : (x : ℕ) (c : Channel) → IsSound max c → Keeps max (push x c)
  unfolding push
  push-Keeps x c h =
      Keeps-if c.receiver none _ (λ _. tt)
        λ r.
          Keeps-if (c.senders == 0) none _ (λ _. tt)
            λ s. record {
              size = h.size;
              counted = ground (arith, h.counted, s, length-append c.buf (x ∷ []));
              bounded = h.bounded;
              ordered = sym (append_assoc c.got c.buf (x ∷ [])) ∙ ap (λ r. r ++ (x ∷ [])) h.ordered;
            }

  pop_from-Keeps :
      (c : Channel)
      → IsSound max c
      → c.receiver ≡ false
      → (b : List ℕ) → b ≡ c.buf
      → Keeps max (pop_from b c)
  unfolding pop_from
  pop_from-Keeps c h f [] e = tt
  pop_from-Keeps c h f (x ∷ xs) e = record {
    size = h.size;
    counted = omega (arith, h.counted, ap length e, ap bit f);
    bounded = h.bounded;
    ordered = append_assoc c.got (x ∷ []) xs ∙ (ap (λ r. c.got ++ r) e ∙ h.ordered);
  }

  pop-Keeps : (c : Channel) → IsSound max c → Keeps max (pop c)
  unfolding pop
  pop-Keeps c h = Keeps-if c.receiver none _ (λ _. tt) λ f. pop_from-Keeps c h f c.buf refl

  abbrev Posted : Outcome Channel → Type 0
  Posted (done c) = IsSound max c
  Posted panicked = ⊥

  post-Posted : (c : Channel) → IsSound max c → c.receiver ≡ true → Posted (post c)
  unfolding post sem_post
  post-Posted c h t =
      let some_in : (c.cnt == 0) ≡ false = ground (arith, h.counted, ap bit t) in
      rw (some_in, Posted)
        (record {
          size = h.size;
          counted = omega (arith, h.counted, ap bit t);
          bounded = omega (arith, h.bounded);
          ordered = h.ordered;
        })

  Step-IsSound : (c d : Channel) → Step c d → IsSound max c → IsSound max d
  Step-IsSound c d (waits e) h = rw (e, Keeps) at (send_wait-Keeps c h)
  Step-IsSound c d (pushes x e) h = rw (e, Keeps) at (push-Keeps x c h)
  Step-IsSound c d (pops e) h = rw (e, Keeps) at (pop-Keeps c h)
  Step-IsSound c d (posts t e) h = rw (e, Posted) at (post-Posted c h t)

  Reach-IsSound : (c d : Channel) → IsSound max c → Reach c d → IsSound max d
  Reach-IsSound c d h start = h
  Reach-IsSound c d h (later {d = m} r s) = Step-IsSound m d s (Reach-IsSound c m h r)

new-IsSound : (max : ℕ) → IsSound max (sync_channel max)
new-IsSound max = record {
  size = refl;
  counted = omega arith;
  bounded = omega arith;
  ordered = refl;
}

-- Whatever senders and receivers of a new channel do, in any interleaving: the buffer never has more
-- elements than the channel's bound, what has been received and what is in the buffer are what was
-- sent, in the order it was sent, and a receiver that has taken an element ends without a panic.
pub Reach-ordered :
    (max : ℕ) (c : Channel)
    → Reach (sync_channel max) c
    → (length c.buf ≤ max) × (c.got ++ c.buf ≡ c.sent) × (c.receiver ≡ true → post c ≢ panicked)
Reach-ordered max c r =
    let h = Reach-IsSound max (sync_channel max) c (new-IsSound max) r in
    (
      omega (arith, h.counted, h.bounded),
      h.ordered,
      λ t e. rw (e, Posted) at (post-Posted max c h t),
    )
