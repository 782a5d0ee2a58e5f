-- ===== src/NicOff/Exit.antt =====
-- src/hardware_dep/dpdk/main.c and dpdk_nicoff.c: the exit code of a test suite.
use t4p4s_ma.Common.{
  ℕ, suc, ◌+◌, ◌≡◌, ◌<◌, ◌≤◌, ◌↔◌, refl, sym, ap, ◌∙◌, subst, arith, Bool, true, false, ◌||◌, not,
  some, List, [], ◌∷◌, ◌++◌, length, get_elem?, ℤ, is_neg,
}
use t4p4s_ma.MainLoop.{dpdk_main_loop, ended, launch_dpdk}
use t4p4s_ma.NicOff.{Cmd, Switch, World, nic_off, init_lcore_data}
use t4p4s_ma.NicOff.Verdict.{dpdk_main_loop-Result}
use t4p4s_ma.NicOff.Suite.{
  Suite, launch_count, code, Setup, t4p4s_normal_exit, prepared, launches, main, Case, written,
  WellFormed, all_buffers, SuiteMeets,
}

launch_count-written :
    (cs : List Case) (after : Suite) → launch_count (written cs after) ≡ some (length cs)
unfolding launch_count
launch_count-written [] after = refl
launch_count-written (c ∷ cs) after = rw (launch_count-written cs after)

no_error_parts : (e valid : Bool) → (e || not valid) ≡ false → (e ≡ false) × (valid ≡ true)
no_error_parts e valid h = ground arith

no_error_of : {e valid : Bool} → e ≡ false → valid ≡ true → (e || not valid) ≡ false
no_error_of h k = ground arith

module _ {S : Type 0} (sw : Switch S) (setup : Setup S) (suite : Suite) (fuel : ℕ)
    (slaves : ℕ → List ℤ) where
  -- A launch whose test case ends with this state, and whose slaves have no error, goes on to the next.
  launches_next :
      (n i : ℕ) (w w' : World S) (steps : List Cmd)
      → get_elem? suite i ≡ some (some steps)
      → dpdk_main_loop (nic_off sw steps) fuel (init_lcore_data (prepared setup w)) ≡ ended w'
      → is_neg (launch_dpdk (slaves i)) ≡ false
      → launches sw setup suite fuel slaves (suc n) i w
        ≡ launches sw setup suite fuel slaves n
            (i + 1)
            (record w' { switch = setup.flush_tables w'.switch })
  unfolding launches
  launches_next n i w w' steps at ends fine = rw (launches, at, ends, fine)

  -- The exit code, when all test cases are left from here on.
  launches_lem :
      (cs : List Case) (after : Suite) (i : ℕ) (w : World S)
      → 1 < sw.max_ethports
      → ((k : ℕ) → get_elem? suite (i + k) ≡ get_elem? (written cs after) k)
      → WellFormed sw setup fuel cs
      → all_buffers sw setup cs w.switch ≤ w.free_mbufs
      → ((k : ℕ) → is_neg (launch_dpdk (slaves k)) ≡ false)
      → (e : Bool) × (launches sw setup suite fuel slaves (length cs) i w
          ≡ code (t4p4s_normal_exit e))
        × ((e ≡ false) ↔ ((w.encountered_error ≡ false) × SuiteMeets sw setup cs w.switch))
  unfolding launches
  launches_lem [] after i w ports at well room fine =
      (w.encountered_error, refl, (λ h. (h, tt), λ h. h.0))
  launches_lem (c ∷ cs) after i w ports at (says, ends, enough, well) room fine =
      let w₀ = prepared setup w in
      let (w₁, run, result) =
        dpdk_main_loop-Result sw c.cmds c.steps c.last c.rest w₀ fuel ports says ends (omega arith)
          enough in
      let left : all_buffers sw setup cs (setup.flush_tables w₁.switch) ≤ w₁.free_mbufs =
        subst (λ s. all_buffers sw setup cs (setup.flush_tables s) ≤ w₁.free_mbufs)
          (sym result.state) (omega (arith, result.free)) in
      let Rest = λ (s : S). SuiteMeets sw setup cs (setup.flush_tables s) in
      let w₂ = record w₁ { switch = setup.flush_tables w₁.switch } in
      let (e, exits, verdict) =
        launches_lem cs after (i + 1) w₂ ports
          (λ k.
            subst (λ n. get_elem? suite n ≡ get_elem? (written cs after) k) (omega arith)
              (at (suc k)))
          well left fine in
      (
        e,
        launches_next (length cs) i w w₁ (c.cmds ++ c.last ∷ c.rest)
              (subst (λ n. get_elem? suite n ≡ some (some (c.cmds ++ c.last ∷ c.rest)))
                (omega arith) (at 0))
              run (fine i)
            ∙ exits,
        (
          λ h.
              let (no_error, rest_meet) = verdict.0 h in
              let (before, valid) =
                no_error_parts w.encountered_error w₁.is_valid (sym result.noted ∙ no_error) in
              (before, (result.verdict.0 valid, subst Rest result.state rest_meet)),
          λ (before, (meets, rest_meet)). verdict.1 (
            result.noted ∙ no_error_of before (result.verdict.1 meets),
            subst Rest (sym result.state) rest_meet,
          ),
        ),
      )

-- The exit code of a suite whose commands are well formed, where DPDK has room for at least two ports,
-- with enough buffers in the pool, of which other cores take none, for all its packets and for the clones of all that the switch
-- broadcasts, and with no error on the slaves: 0 when in every test case the switch did what is
-- expected, from the tables as the test cases before leave them, and no error was noted before; else 3.
pub main_lem :
    {S : Type 0} (sw : Switch S) (setup : Setup S) (slaves : ℕ → List ℤ) (fuel : ℕ) (cs : List Case)
    (after : Suite) (w : World S)
    → 1 < sw.max_ethports
    → WellFormed sw setup fuel cs
    → all_buffers sw setup cs w.switch ≤ w.free_mbufs
    → ((k : ℕ) → is_neg (launch_dpdk (slaves k)) ≡ false)
    → (e : Bool) × (main sw setup (written cs after) fuel slaves w ≡ code (t4p4s_normal_exit e))
      × ((e ≡ false) ↔ ((w.encountered_error ≡ false) × SuiteMeets sw setup cs w.switch))
unfolding main
main_lem sw setup slaves fuel cs after w ports well room fine =
    rw (main, launch_count-written cs after)
      (launches_lem sw setup (written cs after) fuel slaves cs after 0 w ports
        (λ k. ap (get_elem? (written cs after)) (omega arith)) well room fine)
