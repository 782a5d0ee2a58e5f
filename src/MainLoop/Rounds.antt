-- ===== src/MainLoop/Rounds.antt =====
-- src/hardware_dep/dpdk/main.c: the loop of a core, one round at a time.
use t4p4s_ma.Common.{ℕ, suc, ◌≡◌, true, false, some}
use t4p4s_ma.MainLoop.{Nic, round, rounds, ended}

module _ {P W : Type 0} (nic : Nic P W) where
  pub rounds_goes_on :
      {w w' : W} (fuel : ℕ)
      → nic.core_is_working w ≡ some true
      → round nic w ≡ some w'
      → rounds nic (suc fuel) w ≡ rounds nic fuel w'
  unfolding rounds
  rounds_goes_on fuel working e = rw (rounds, working, e)

  pub rounds_ends :
      {w : W} (fuel : ℕ) → nic.core_is_working w ≡ some false → rounds nic (suc fuel) w ≡ ended w
  unfolding rounds
  rounds_ends fuel done = rw (rounds, done)
