-- ===== src/NicOff/Suite.antt =====
-- src/hardware_dep/dpdk/main.c and dpdk_nicoff.c: the launches of a test suite, one test case each, on
-- the master core; the exit code of the process.
use t4p4s_ma.Common.{
  ℕ, zero, suc, ◌+◌, ◌≡◌, ◌<◌, Bool, true, false, Option, none, some, List, [], ◌∷◌, ◌++◌, length,
  get_elem?, if◌then◌else◌, ℤ, pos, is_neg,
}
use t4p4s_ma.MainLoop.{◌>>=◌, dpdk_main_loop, ended, crashed, goes_on, launch_dpdk}
use t4p4s_ma.NicOff.{Cmd, fake_end, Packet, Switch, World, nic_off, init_lcore_data}
use t4p4s_ma.NicOff.Run.{Step}
use t4p4s_ma.NicOff.Verdict.{AllSay, AllMeet, buffers, after_all}

-- `t4p4s_test_suite`: the `steps` of each test case, for the master core; null where the suite ends.
abbrev pub Suite : Type 0
Suite = List (Option (List Cmd))

-- `launch_count`; with no end, it reads beyond the array.
unfoldable pub launch_count : Suite → Option ℕ
launch_count [] = none
launch_count (none ∷ suite) = some 0
launch_count (some steps ∷ suite) = do n ← launch_count suite; some (suc n)

-- How the process ends: with a code, by a crash, or not with this fuel.
pub data Exit : Type 0 where
  code : ℤ → Exit
  crash : Exit
  no_end : Exit

-- What main.c calls of the generated switch, of the tables and of the control plane: all that comes
-- before a launch, `init_dataplane`, and `flush_tables`.
pub record Setup (S : Type 0) : Type 0 where
  pub init : S → S
  pub init_dataplane : S → Packet
  pub flush_tables : S → S

-- `t4p4s_normal_exit`
abbrev pub t4p4s_normal_exit : Bool → ℤ
t4p4s_normal_exit encountered_error = if encountered_error then pos 3 else pos 0

-- The switch and the packet descriptor at a launch, from the state that the launches before it left.
abbrev pub prepared : {S : Type 0} → Setup S → World S → World S
prepared setup w =
    let s = setup.init w.switch in record w { switch = s; pd = setup.init_dataplane s }

module _ {S : Type 0} (sw : Switch S) (setup : Setup S) (suite : Suite) (fuel : ℕ) where
  -- The loop of `main` with `n` launches left from `i` on; `slaves i` is what `rte_eal_wait_lcore`
  -- returns for the slaves of launch `i`.
  unfoldable pub launches : (ℕ → List ℤ) → ℕ → ℕ → World S → Exit
  unfolding launch_dpdk
  launches slaves zero i w = code (t4p4s_normal_exit w.encountered_error)
  launches slaves (suc n) i w = elim (get_elem? suite i) [
    | none ↦ crash
    | some no_steps ↦ elim no_steps [
      | none ↦ crash
      | some steps ↦
          elim (dpdk_main_loop (nic_off sw steps) fuel (init_lcore_data (prepared setup w))) [
            | crashed ↦ crash
            | goes_on w' ↦ no_end
            | ended w' ↦ elim (is_neg (launch_dpdk (slaves i))) [
              | true ↦ code (launch_dpdk (slaves i))
              | false ↦
                  launches slaves n (i + 1) (record w' { switch = setup.flush_tables w'.switch })
            ]
          ]
    ]
  ]

  -- `main` behind the initialisation.
  unfoldable pub main : (ℕ → List ℤ) → World S → Exit
  unfolding launch_count launches
  main slaves w = elim (launch_count suite) [ none ↦ crash | some n ↦ launches slaves n 0 w ]

-- A suite that is written out: for each test case its commands, what they say, and what stands at its
-- end.
pub record Case : Type 0 where
  pub cmds : List Cmd
  pub steps : List Step
  pub last : Cmd
  pub rest : List Cmd

abbrev pub written : List Case → Suite → Suite
written [] after = none ∷ after
written (c ∷ cs) after = some (c.cmds ++ c.last ∷ c.rest) ∷ written cs after

module _ {S : Type 0} (sw : Switch S) (setup : Setup S) where
  abbrev pub WellFormed : ℕ → List Case → Type 0
  WellFormed fuel [] = Unit
  WellFormed fuel (c ∷ cs) =
      AllSay sw c.cmds c.steps
      × (c.last.action ≡ fake_end)
      × (length c.cmds < fuel)
      × WellFormed fuel cs

  -- How many buffers all the test cases take, each from the switch as the ones before leave it.
  abbrev pub all_buffers : List Case → S → ℕ
  all_buffers [] s = 0
  all_buffers (c ∷ cs) s =
      let s' = setup.init s in
      buffers sw c.steps (s', setup.init_dataplane s')
      + all_buffers cs (setup.flush_tables (after_all sw c.steps (s', setup.init_dataplane s')).0)

  -- All test cases have what they expect, each from the switch as the ones before leave it.
  abbrev pub SuiteMeets : List Case → S → Type 0
  SuiteMeets [] s = Unit
  SuiteMeets (c ∷ cs) s =
      let s' = setup.init s in
      AllMeet sw c.steps (s', setup.init_dataplane s')
      × SuiteMeets cs (setup.flush_tables (after_all sw c.steps (s', setup.init_dataplane s')).0)
