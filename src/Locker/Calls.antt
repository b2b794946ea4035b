-- ===== src/Locker/Calls.antt =====
-- Sequences of calls of the trait `Presentation` on the presentation of src/locker/mod.rs.
use genkan.Prelude.{List, [], ◌∷◌}
use genkan.SessionLock.Frames.{Input}
use genkan.Locker.Services.{Services}
use genkan.Locker.Presenter.{Locker}
use genkan.Locker.Dialogue.{
  receive_latest, receive_deferred, lock_confirmed, input, take_authorization,
}

-- The calls of the trait.
pub data Call : Type 0 where
  latest deferred confirm authorize : Call
  typed : Input → Call

module _ (S : Services) where
  unfoldable pub serve : Call → Locker S → Locker S
  serve latest p = (receive_latest S p).1
  serve deferred p = (receive_deferred S p).1
  serve confirm p = lock_confirmed S p
  serve (typed i) p = (input S p i).1
  serve authorize p = (take_authorization S p).1

  unfoldable pub run : List Call → Locker S → Locker S
  unfolding serve
  run [] p = p
  run (c ∷ cs) p = run cs (serve c p)
