-- ===== src/Voice/Opus/Tests.antt =====
-- voice/opus.rs: the theorems at concrete inputs.
use discord_async_rs.Prelude.{
  ℕ, true, false, none, some, List, [], ◌∷◌, length, ok, ◌≤◌, ◌+◌, ◌*◌, arith,
}
use discord_async_rs.Voice.Opus.{Poll, Item, OpusStream, Tick, encoder_frame_size, new}
use discord_async_rs.Voice.Opus.Given.{polls}
use discord_async_rs.Voice.Opus.Paced.{Timely, polls-paced}

abbrev stream : OpusStream Unit
stream = record {
  deadline = 1000;
  has_delayed = false;
  encoder = Poll.pending ∷ Poll.ready (some (ok (1 ∷ []))) ∷ Poll.ready none ∷ [];
  silence_frames = 1;
  done = false;
}

abbrev at : ℕ → Tick
at n = record { elapsed = true; now = n }

abbrev ticks : List Tick
ticks = at 1500 ∷ at 22000 ∷ at 50000 ∷ at 80000 ∷ []

ticks-Timely : Timely 1000 ticks stream
unfolding discord_async_rs.Voice.Opus.poll_next
ticks-Timely = (
  omega arith,
  λ _. omega arith,
  (
    omega arith,
    λ _. omega arith,
    (omega arith, λ _. omega arith, (omega arith, λ _. omega arith, tt)),
  ),
)

polls-paced_example :
    stream.deadline + 20000 * length (polls ticks stream).0 ≤ (polls ticks stream).1.deadline
polls-paced_example = polls-paced 1000 ticks stream (λ _. omega arith) ticks-Timely
