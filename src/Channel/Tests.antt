-- ===== src/Channel/Tests.antt =====
-- A run of a channel, and the theorem at it.
use octox.Base.{◌≤◌, ◌≡◌, ◌≢◌, refl, true, [], ◌∷◌, ◌++◌, none, length, panicked}
use octox.Channel.Defs.{
  Channel, sync_channel, sem_wait, send_wait, push, pop, pop_from, post, waits, pushes, pops, Reach,
  start, later,
}
use octox.Channel.Order.{Reach-ordered}

abbrev entered : Channel
entered = record (sync_channel 1) { cnt = 1; senders = 1 }

abbrev full : Channel
full = record (sync_channel 1) { cnt = 1; buf = 7 ∷ []; sent = 7 ∷ [] }

abbrev taken : Channel
taken = record (sync_channel 1) { cnt = 1; receiver = true; sent = 7 ∷ []; got = 7 ∷ [] }

new-taken : Reach (sync_channel 1) taken
unfolding send_wait sem_wait push pop pop_from
new-taken =
    later {d = full} (later {d = entered} (later start (waits refl)) (pushes 7 refl)) (pops refl)

-- A second sender has to wait.
full_waits : send_wait full ≡ none
unfolding send_wait sem_wait
full_waits = refl

Reach-ordered_example :
    (length taken.buf ≤ 1)
    × (taken.got ++ taken.buf ≡ taken.sent)
    × (taken.receiver ≡ true → post taken ≢ panicked)
Reach-ordered_example = Reach-ordered 1 taken new-taken
