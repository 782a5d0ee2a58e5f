-- ===== src/NicOff/Verdict.antt =====
-- src/hardware_dep/dpdk/dpdk_nicoff.c in the loop of main.c: a whole test case.
use t4p4s_ma.Common.{
  subst, ℕ, zero, suc, ◌+◌, ◌≡◌, ◌<◌, ◌≤◌, ◌↔◌, ◌⊎◌, inl, inr, refl, sym, ap, ◌∙◌, arith, Bool,
  true, false, ◌&&◌, ◌||◌, not, some, List, [], ◌∷◌, ◌++◌, length, get_elem?, if◌then◌else◌,
  Bool-cases,
}
use t4p4s_ma.Memory.{load_bytes}
use t4p4s_ma.Memory.Laws.{length-load_bytes}
use t4p4s_ma.MainLoop.{rounds, dpdk_main_loop, ended}
use t4p4s_ma.MainLoop.Rounds.{rounds_goes_on, rounds_ends}
use t4p4s_ma.NicOff.{
  Cmd, fake_end, Packet, Switch, World, init_lcore_data, wrong_bytes, nic_off, core_is_working,
}
use t4p4s_ma.NicOff.Checks.{is_good, wrong_bytes_lem}
use t4p4s_ma.NicOff.Run.{
  Step, packet, pause, set_default, Says, after, needs, step_passes, next, round_lem,
}

module _ {S : Type 0} (sw : Switch S) where
  abbrev pub AllSay : List Cmd → List Step → Type 0
  AllSay [] [] = Unit
  AllSay [] (st ∷ sts) = ⊥
  AllSay (cmd ∷ cmds) [] = ⊥
  AllSay (cmd ∷ cmds) (st ∷ sts) = Says sw cmd st × AllSay cmds sts

  -- What the step expects of the switch: that it drops the packet, or sends just the bytes expected
  -- on the port expected.
  abbrev pub Meets : Step → Packet → Type 0
  Meets (packet ins in_port out_port outs) pd =
      (pd.drop ≡ true) ⊎ ((pd.egress_port ≡ out_port) × (load_bytes pd.bytes 0 pd.pkt_len ≡ outs))
  Meets pause pd = Unit
  Meets (set_default ptr arg) pd = Unit

  -- The same of all the steps, each with the switch as the steps before it leave it.
  abbrev pub AllMeet : List Step → S × Packet → Type 0
  AllMeet [] r = Unit
  AllMeet (st ∷ sts) r = Meets st (after sw st r).1 × AllMeet sts (after sw st r)

  pub after_all : List Step → S × Packet → S × Packet
  after_all [] r = r
  after_all (st ∷ sts) r = after_all sts (after sw st r)

  -- How many buffers the steps take: one for each packet, and one for each clone of a packet that the
  -- switch broadcasts.
  abbrev pub buffers : List Step → S × Packet → ℕ
  buffers [] r = 0
  buffers (st ∷ sts) r = needs sw st (after sw st r).1 + buffers sts (after sw st r)

  passes : List Step → S × Packet → Bool
  passes [] r = true
  passes (st ∷ sts) r = step_passes sw st (after sw st r).1 && passes sts (after sw st r)

  good_parts :
      (out_port : ℕ) (outs : List ℕ) (e : ℕ) (pd : Packet)
      → is_good out_port outs e pd ≡ true
      → (out_port ≡ e) × (length outs ≡ pd.pkt_len) × (wrong_bytes outs pd.bytes 0 ≡ 0)
  good_parts out_port outs e pd h = ground arith

  step_passes_lem : (st : Step) (pd : Packet) → (step_passes sw st pd ≡ true) ↔ Meets st pd
  step_passes_lem (packet ins in_port out_port outs) pd =
      let (same, as_said) = wrong_bytes_lem outs pd.bytes 0 in
      (
        λ h. elim (Bool-cases pd.drop) [
          | inl dropped ↦ inl dropped
          | inr kept ↦
              let (port, len, none_wrong) =
                good_parts out_port outs pd.egress_port pd (simp kept at h) in
              inr (sym port, subst (λ n. load_bytes pd.bytes 0 n ≡ outs) len (same none_wrong))
        ],
        λ h. elim h [
          | inl dropped ↦ ground arith
          | inr (port, bytes) ↦
              let len : length outs ≡ pd.pkt_len =
                ap length (sym bytes) ∙ length-load_bytes pd.bytes 0 pd.pkt_len in
              let none_wrong : wrong_bytes outs pd.bytes 0 ≡ 0 =
                as_said (subst (λ n. load_bytes pd.bytes 0 n ≡ outs) (sym len) bytes) in
              ground arith
        ],
      )
  step_passes_lem pause pd = (λ _. tt, λ _. refl)
  step_passes_lem (set_default ptr arg) pd = (λ _. tt, λ _. refl)

  and_parts : (a b : Bool) → (a && b) ≡ true → (a ≡ true) × (b ≡ true)
  and_parts a b h = ground arith

  passes_lem : (sts : List Step) (r : S × Packet) → (passes sts r ≡ true) ↔ AllMeet sts r
  unfolding passes
  passes_lem [] r = (λ _. tt, λ _. refl)
  passes_lem (st ∷ sts) r =
      let (to, from) = step_passes_lem st (after sw st r).1 in
      let (to_all, from_all) = passes_lem sts (after sw st r) in
      (
        λ h. let (now, later) = and_parts _ _ h in (to now, to_all later),
        λ h. rw (from h.0, from_all h.1),
      )

  module _ (steps : List Cmd) where
    pub run : List Step → World S → World S
    run [] w = w
    run (st ∷ sts) w = run sts (next sw steps st w)

    still_working :
        (cmd : Cmd) (st : Step) (w : World S)
        → get_elem? steps w.idx ≡ some cmd
        → Says sw cmd st
        → core_is_working sw steps w ≡ some true
    unfolding core_is_working
    still_working cmd (packet ins in_port out_port outs) w current says = ground (arith, says.0)
    still_working cmd pause w current says = ground (arith, says.0)
    still_working cmd (set_default ptr arg) w current says = ground (arith, says.0)

    ended_there :
        (last : Cmd) (w : World S)
        → get_elem? steps w.idx ≡ some last
        → last.action ≡ fake_end
        → core_is_working sw steps w ≡ some false
    unfolding core_is_working
    ended_there last w current ends = ground arith

    first :
        (cmds : List Cmd) (w : World S)
        → ((i : ℕ) → get_elem? steps (w.idx + i) ≡ get_elem? cmds i)
        → get_elem? steps w.idx ≡ get_elem? cmds 0
    first cmds w at =
        let z : w.idx + 0 ≡ w.idx = omega arith in
        subst (λ n. get_elem? steps n ≡ get_elem? cmds 0) z (at 0)

    rounds_lem :
        (cmds : List Cmd) (sts : List Step) (last : Cmd) (rest : List Cmd) (w : World S) (fuel : ℕ)
        → 1 < sw.max_ethports
        → ((i : ℕ) → get_elem? steps (w.idx + i) ≡ get_elem? (cmds ++ last ∷ rest) i)
        → AllSay cmds sts
        → last.action ≡ fake_end
        → buffers sts (w.switch, w.pd) ≤ w.free_mbufs
        → length cmds < fuel
        → rounds (nic_off sw steps) fuel w ≡ ended (run sts w)
    unfolding run nic_off
    rounds_lem [] [] last rest w (suc fuel) ports at says ends room enough =
        rounds_ends (nic_off sw steps) fuel (ended_there last w (first (last ∷ rest) w at) ends)
    rounds_lem (cmd ∷ cmds) (st ∷ sts) last rest w (suc fuel) ports at (says, all_say) ends room
          enough =
        let current = first (cmd ∷ cmds ++ last ∷ rest) w at in
        rounds_goes_on (nic_off sw steps) fuel (still_working cmd st w current says)
          (round_lem sw steps cmd st w ports current says (omega arith))
        ∙ rounds_lem cmds sts last rest (next sw steps st w) fuel ports
            (λ i.
              subst (λ n. get_elem? steps n ≡ get_elem? (cmds ++ last ∷ rest) i) (omega arith)
                (at (suc i)))
            all_say ends (omega arith) (omega arith)
    rounds_lem [] (st ∷ sts) last rest w fuel ports at says ends room enough = absurd says
    rounds_lem (cmd ∷ cmds) [] last rest w fuel ports at says ends room enough = absurd says
    rounds_lem [] [] last rest w zero ports at says ends room enough = absurd (omega arith)
    rounds_lem (cmd ∷ cmds) (st ∷ sts) last rest w zero ports at says ends room enough =
        absurd (omega arith)

    run_is_valid :
        (sts : List Step) (w : World S)
        → (run sts w).is_valid ≡ (w.is_valid && passes sts (w.switch, w.pd))
    unfolding run passes
    run_is_valid [] w = ground arith
    run_is_valid (st ∷ sts) w = run_is_valid sts (next sw steps st w) ∙ ground arith

    error_kept :
        (e valid error drop good : Bool)
        → error ≡ (e || not valid)
        → (if not drop then error || not (valid && (drop || good)) else error)
          ≡ (e || not (valid && (drop || good)))
    error_kept e valid error drop good h = ground arith

    next_error :
        (e : Bool) (st : Step) (w : World S)
        → w.encountered_error ≡ (e || not w.is_valid)
        → (next sw steps st w).encountered_error ≡ (e || not (next sw steps st w).is_valid)
    next_error e (packet ins in_port out_port outs) w h = error_kept e _ _ _ _ h
    next_error e pause w h = ground arith
    next_error e (set_default ptr arg) w h = ground arith

    run_encountered_error :
        (e : Bool) (sts : List Step) (w : World S)
        → w.encountered_error ≡ (e || not w.is_valid)
        → (run sts w).encountered_error ≡ (e || not (run sts w).is_valid)
    unfolding run
    run_encountered_error e [] w h = h
    run_encountered_error e (st ∷ sts) w h =
        run_encountered_error e sts (next sw steps st w) (next_error e st w h)

    run_idx : (sts : List Step) (w : World S) → (run sts w).idx ≡ w.idx + length sts
    unfolding run
    run_idx [] w = omega arith
    run_idx (st ∷ sts) w = omega (arith, run_idx sts (next sw steps st w))

    run_free :
        (sts : List Step) (w : World S)
        → buffers sts (w.switch, w.pd) ≤ w.free_mbufs
        → (run sts w).free_mbufs + buffers sts (w.switch, w.pd) ≡ w.free_mbufs
    unfolding run
    run_free [] w h = omega arith
    run_free (st ∷ sts) w h = omega (arith, run_free sts (next sw steps st w))

    run_switch :
        (sts : List Step) (w : World S) → (run sts w).switch ≡ (after_all sts (w.switch, w.pd)).0
    unfolding run after_all
    run_switch [] w = refl
    run_switch (st ∷ sts) w = run_switch sts (next sw steps st w)

  -- What a test case leaves behind: `init_lcore_data` starts it with this state.
  pub record Result (sts : List Step) (w w' : World S) : Type 0 where
    -- the result is valid just when the switch did all that the test case expects
    pub verdict : (w'.is_valid ≡ true) ↔ AllMeet sts (w.switch, w.pd)
    -- an error is noted just when the result is not valid, or one was noted before
    pub noted : w'.encountered_error ≡ (w.encountered_error || not w'.is_valid)
    pub done : w'.idx ≡ length sts
    pub free : w'.free_mbufs + buffers sts (w.switch, w.pd) ≡ w.free_mbufs
    pub state : w'.switch ≡ (after_all sts (w.switch, w.pd)).0

  -- Where DPDK has room for at least two ports: a test case whose commands are well formed, up to the
  -- first one that ends it, ends, if there are enough buffers in the pool, of which other cores take none
  -- meanwhile, for its packets and for the
  -- clones of those that the switch broadcasts, which are never given back. The result is valid just
  -- when the switch dropped each packet, or sent just the bytes expected on the port expected; else an
  -- error is noted, which is kept.
  pub dpdk_main_loop-Result :
      (cmds : List Cmd) (sts : List Step) (last : Cmd) (rest : List Cmd) (w : World S) (fuel : ℕ)
      → 1 < sw.max_ethports
      → AllSay cmds sts
      → last.action ≡ fake_end
      → buffers sts (w.switch, w.pd) ≤ w.free_mbufs
      → length cmds < fuel
      → (w' : World S) × (dpdk_main_loop (nic_off sw (cmds ++ last ∷ rest)) fuel (init_lcore_data w)
          ≡ ended w')
        × Result sts w w'
  unfolding dpdk_main_loop nic_off init_lcore_data
  dpdk_main_loop-Result cmds sts last rest w fuel ports says ends room enough =
      let steps = cmds ++ last ∷ rest in
      let w₀ = init_lcore_data w in
      let (to, from) = passes_lem sts (w.switch, w.pd) in
      (
        run steps sts w₀,
        rounds_lem steps cmds sts last rest w₀ fuel ports (λ i. ap (get_elem? steps) (omega arith))
            says ends room enough,
        record {
          verdict = (
            λ h. to (sym (run_is_valid steps sts w₀) ∙ h),
            λ h. run_is_valid steps sts w₀ ∙ from h,
          );
          noted = run_encountered_error steps w.encountered_error sts w₀ (ground arith);
          done = run_idx steps sts w₀ ∙ omega arith;
          free = run_free steps sts w₀ room;
          state = run_switch steps sts w₀;
        },
      )
