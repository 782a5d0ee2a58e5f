-- ===== src/Controller/Learn.antt =====
-- dpdk_l2fwd_controller.c, dpdk_psa_l2fwd_controller.c and dpdk_state-machine-table_controller.c:
-- what the controllers do with the digests of the switch.
use t4p4s_ma.Common.{
  ℕ, ◌+◌, ◌*◌, Bool, true, List, [], ◌∷◌, ◌++◌, ◌&&◌, ◌==◌, if◌then◌else◌, get_or,
}
use Prim.Native.String.{String}
use t4p4s_ma.Memory.{
  Mem, ok, arrow, memcpy, store_bytes, Cmd, pure, get, codes, ◌>>=◌, ◌>>◌, load_bytes,
}
use t4p4s_ma.Messages.Layout.At
use t4p4s_ma.Messages.Layout.Size
use t4p4s_ma.Messages.Layout.Code.{type_code, P4Type}
use t4p4s_ma.Messages.Header.{netconv_p4_header, unpack}
use t4p4s_ma.Messages.Digest.{netconv_p4_digest_field}
use t4p4s_ma.Controller.Parts.{Mac, buffer_size, begin_entry, put_lpm, put_action}
use t4p4s_ma.Messages.Entry.{netconv_match_length}
use t4p4s_ma.Messages.Action.{add_p4_action_parameter, netconv_p4_action_parameter}
use t4p4s_ma.Controller.Session.{Outgoing}
use t4p4s_ma.Controller.L2fwd
use t4p4s_ma.Controller.PsaL2fwd
use t4p4s_ma.Controller.StateMachine.{fill_map_flow_to_state_table}

-- The bytes from the address on are these.
abbrev same_bytes : Mem → ℕ → List ℕ → Bool
same_bytes m a [] = true
same_bytes m a (x ∷ xs) = (m a == x) && same_bytes m (a + 1) xs

-- `strcmp(p, s) == 0`
abbrev pub strcmp_is_zero : Mem → ℕ → String → Bool
strcmp_is_zero m p s = same_bytes m p (codes s ++ 0 ∷ [])

-- `df = netconv_p4_digest_field(unpack_p4_digest_field(b, offset)); memcpy(to, df->value, n)`
unfoldable pub read_field : ℕ → ℕ → ℕ → Cmd (List ℕ)
unfolding netconv_p4_digest_field load_bytes
read_field b offset n = do
  let df = unpack b offset
  netconv_p4_digest_field df
  get (λ m. load_bytes m (df + At.field_value) n)

abbrev to_mac : List ℕ → Mac
to_mac v = record {
  b0 = get_or v 0 0;
  b1 = get_or v 1 0;
  b2 = get_or v 2 0;
  b3 = get_or v 3 0;
  b4 = get_or v 4 0;
  b5 = get_or v 5 0;
}

-- `mac_learn_digest` of the layer 2 controller: the messages that it sends.
unfoldable pub mac_learn_digest : ℕ → Cmd (List Outgoing)
unfolding read_field L2fwd.fill_dmac_table L2fwd.fill_smac_table
mac_learn_digest b = do
  mac ← read_field b Size.digest 6
  port ← read_field b (Size.digest + Size.digest_field) 2
  pure (
      (L2fwd.fill_dmac_table (get_or port 0 0) (to_mac mac), buffer_size)
      ∷ (L2fwd.fill_smac_table (get_or port 0 0) (to_mac mac), buffer_size)
      ∷ [])

-- `mac_learn_digest` of the PSA's controller, where a port has four bytes.
unfoldable pub psa_mac_learn_digest : ℕ → Cmd (List Outgoing)
unfolding read_field PsaL2fwd.fill_dmac_table PsaL2fwd.fill_smac_table
psa_mac_learn_digest b = do
  mac ← read_field b Size.digest 6
  port ← read_field b (Size.digest + Size.digest_field) 4
  pure (
      (PsaL2fwd.fill_dmac_table (get_or port 0 0) (to_mac mac), buffer_size)
      ∷ (PsaL2fwd.fill_smac_table (get_or port 0 0) (to_mac mac), buffer_size)
      ∷ [])

-- `state_update_digest`: a flow that is new and one that is not are written in the same way.
unfoldable pub state_update_digest : ℕ → Cmd (List Outgoing)
unfolding read_field fill_map_flow_to_state_table
state_update_digest b = do
  state ← read_field b Size.digest 2
  flow ← read_field b (Size.digest + Size.digest_field) 4
  new_flow ← read_field b (Size.digest + Size.digest_field + Size.digest_field) 1
  pure (
      (
        fill_map_flow_to_state_table
            (record {
              b0 = get_or flow 0 0;
              b1 = get_or flow 1 0;
              b2 = get_or flow 2 0;
              b3 = get_or flow 3 0;
            })
            state,
        buffer_size,
      )
      ∷ [])

-- `memcpy(ap->bitmap, &i, 4)` on a new parameter, whose name stays empty and whose length stays 0.
unfoldable put_bare : ℕ → ℕ → List ℕ → Cmd ℕ
unfolding add_p4_action_parameter store_bytes
put_bare h a bits = do
  ap ← add_p4_action_parameter h a buffer_size
  memcpy (← arrow ap At.param_bitmap) bits
  arrow ap 0

-- The message that `test_learn_ip` sends.
unfoldable pub learned_ip : List ℕ → ℕ → List ℕ → List ℕ → List ℕ → Cmd (Unit {0})
unfolding begin_entry put_lpm put_action put_bare netconv_p4_header netconv_match_length
    netconv_p4_action_parameter
learned_ip ip pr i1 i2 i3 = do
  (h, te) ← begin_entry "table1"
  lpm ← put_lpm te "field1" ip pr
  a ← put_action h "korte"
  ap1 ← put_bare h a i1
  ap2 ← put_bare h a i2
  ap3 ← put_bare h a i3
  netconv_p4_header h
  netconv_match_length lpm
  netconv_p4_action_parameter ap1
  netconv_p4_action_parameter ap2
  netconv_p4_action_parameter ap3

-- `test_learn_ip`
unfoldable pub test_learn_ip : ℕ → Cmd (List Outgoing)
unfolding read_field learned_ip
test_learn_ip b = do
  ip ← read_field b Size.digest 4
  pr ← read_field b (Size.digest + Size.digest_field) 2
  i1 ← read_field b (Size.digest + 2 * Size.digest_field) 4
  i2 ← read_field b (Size.digest + 3 * Size.digest_field) 4
  i3 ← read_field b (Size.digest + 4 * Size.digest_field) 4
  pure ((learned_ip ip (get_or pr 0 0 + 256 * get_or pr 1 0) i1 i2 i3, buffer_size) ∷ [])

-- The digests that a controller knows.
abbrev pub Digests : Type 0
Digests = List (String × (ℕ → Cmd (List Outgoing)))

-- The chain of tests in `dhf`, on the name of the digest.
unfoldable pub dispatch : Digests → ℕ → Cmd (List Outgoing)
dispatch [] b m = ok [] m
dispatch ((name, f) ∷ ds) b m =
    if strcmp_is_zero m (b + At.field_list_name) name then f b m else dispatch ds b m

-- `dhf`: what is not a digest is left alone.
unfoldable pub dhf : Digests → ℕ → Cmd (List Outgoing)
unfolding netconv_p4_header dispatch
dhf known b = do
  netconv_p4_header b
  typ ← get (λ m. m (b + At.typ))
  if typ == type_code P4Type.digest then dispatch known b else pure []

unfoldable pub l2fwd_digests : Digests
unfolding mac_learn_digest test_learn_ip
l2fwd_digests = ("mac_learn_digest", mac_learn_digest) ∷ ("test_learn_ip", test_learn_ip) ∷ []

unfoldable pub psa_digests : Digests
unfolding psa_mac_learn_digest test_learn_ip
psa_digests = ("mac_learn_digest", psa_mac_learn_digest) ∷ ("test_learn_ip", test_learn_ip) ∷ []

unfoldable pub state_digests : Digests
unfolding state_update_digest
state_digests = ("state_update_digest", state_update_digest) ∷ []
