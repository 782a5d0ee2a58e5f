-- ===== src/NicOff.antt =====
-- src/hardware_dep/dpdk/dpdk_nicoff.c: the variant with no network card, which feeds the switch with
-- the packets of a test case and compares what it sends with what the test case expects.
pub mod Checks
pub mod Run
pub mod Verdict
mod Tests
pub mod Exit
pub mod Suite
use t4p4s_ma.Common.{
  ℕ, zero, suc, ◌+◌, ◌-◌, ◌*◌, ◌/◌, ◌%◌, Bool, true, false, ◌&&◌, not, Option, none, some, List, [],
  ◌∷◌, ◌++◌, ltb, leb, ◌==◌, length, get_elem?, if◌then◌else◌, map,
}
use t4p4s_ma.Memory.{Mem, store_bytes}
use t4p4s_ma.MainLoop.{Nic, ◌>>=◌}

-- A C string, without its terminating zero.
abbrev pub Text : Type 0
Text = List ℕ

-- `enum fake_cmd_e`
pub data Action : Type 0 where
  fake_pkt : Action
  fake_setdef : Action
  fake_end : Action

-- `fake_cmd_t`; `sleep_millis` is left out.
pub record Cmd : Type 0 where
  pub action : Action
  pub ptr : ℕ
  pub in_port : ℕ
  pub in_texts : List Text
  pub out_port : ℕ
  pub out_texts : List Text

abbrev pub is_pkt : Action → Bool
is_pkt fake_pkt = true
is_pkt fake_setdef = false
is_pkt fake_end = false

abbrev pub is_setdef : Action → Bool
is_setdef fake_pkt = false
is_setdef fake_setdef = true
is_setdef fake_end = false

abbrev pub is_end : Action → Bool
is_end fake_pkt = false
is_end fake_setdef = false
is_end fake_end = true

-- The value of a hex digit.
abbrev pub hex_digit : ℕ → Option ℕ
hex_digit c =
    if leb b'0' c && leb c b'9'
    then some (c - b'0')
    else if leb b'a' c && leb c b'f'
    then some (c - b'a' + 10)
    else if leb b'A' c && leb c b'F'
    then some (c - b'A' + 10)
    else none

-- `sscanf(pos, "%2hhx", dst)` at two hex digits. What it does with any other text is not modelled:
-- the program says that its texts are hex numbers without spaces, and `none` stands for the rest.
unfoldable pub scan_byte : ℕ → ℕ → Option ℕ
scan_byte c d = hex_digit c >>= (λ h. hex_digit d >>= (λ l. some (16 * h + l)))

-- The bytes that the loop of `str2bytes` writes: `strlen(str) / 2` of them.
unfoldable pub str2bytes : Text → Option (List ℕ)
unfolding scan_byte
str2bytes [] = some []
str2bytes (c ∷ []) = some []
str2bytes (c ∷ d ∷ str) = do b ← scan_byte c d; rest ← str2bytes str; some (b ∷ rest)

-- `total_fake_byte_count`: an empty text ends the array. Where there is none, a null pointer is read.
unfoldable pub total_fake_byte_count : List Text → Option ℕ
total_fake_byte_count [] = none
total_fake_byte_count ([] ∷ texts) = some 0
total_fake_byte_count ((c ∷ text) ∷ texts) = do
  n ← total_fake_byte_count texts
  some (length (c ∷ text) / 2 + n)

-- The bytes that the loop of `fake_packet` writes one after the other, and those that
-- `get_wrong_byte_count` compares with: one text behind the other, up to the empty one.
unfoldable pub fake_bytes : List Text → Option (List ℕ)
unfolding str2bytes
fake_bytes [] = none
fake_bytes ([] ∷ texts) = some []
fake_bytes ((c ∷ text) ∷ texts) = do
  bs ← str2bytes (c ∷ text)
  rest ← fake_bytes texts
  some (bs ++ rest)

-- A packet descriptor, as far as the variant and main.c look at it: `rte_pktmbuf_pkt_len(wrapper)`,
-- the bytes from `data` on, and the metadata fields that main.c reads.
pub record Packet : Type 0 where
  pub pkt_len : ℕ
  pub bytes : Mem
  pub drop : Bool
  pub egress_port : ℕ
  pub ingress_port : ℕ

-- The generated switch, with its tables, and what DPDK gives: how much room is in front of the data
-- of a new buffer, and what the buffer holds at first.
pub record Switch (S : Type 0) : Type 0 where
  pub handle_packet : S → Packet → ℕ → S × Packet
  pub setdef : ℕ → Text → S → S
  pub headroom : ℕ
  pub fresh : Mem
  pub max_ethports : ℕ

-- `struct lcore_data`, `pd`, `encountered_error`, the tables, and how many buffers the core can still
-- take from the pool: nothing gives one back. What other cores take of the pool is not modelled.
pub record World (S : Type 0) : Type 0 where
  pub is_valid : Bool
  pub idx : ℕ
  pub pkt_idx : ℕ
  pub pd : Packet
  pub encountered_error : Bool
  pub free_mbufs : ℕ
  pub switch : S

-- `init_lcore_data`; what is not in `lcdata` stays.
unfoldable pub init_lcore_data : {S : Type 0} → World S → World S
init_lcore_data w = record w { is_valid = true; idx = 0; pkt_idx = 0 }

-- `get_port_mask` and `get_port_count`, which is `__builtin_popcount` of it
abbrev pub port_mask : ℕ
port_mask = 0xF

unfoldable pub popcount : ℕ → ℕ → ℕ
popcount zero m = 0
popcount (suc bits) m = m % 2 + popcount bits (m / 2)

unfoldable pub port_count : ℕ
unfolding popcount
port_count = popcount 32 port_mask % 256

-- The count of `get_wrong_byte_count`, with the expected bytes that are left, from `byte_idx` on.
unfoldable pub wrong_bytes : List ℕ → Mem → ℕ → ℕ
wrong_bytes [] m byte_idx = 0
wrong_bytes (b ∷ bs) m byte_idx =
    (if b == m byte_idx then 0 else 1) + wrong_bytes bs m (byte_idx + 1)

unfoldable pub get_wrong_byte_count : Cmd → Packet → Option ℕ
unfolding fake_bytes wrong_bytes
get_wrong_byte_count cmd pd = do bs ← fake_bytes cmd.out_texts; some (wrong_bytes bs pd.bytes 0)

-- `strlen(cmd.in[0]) > 0`
abbrev pub has_packet : List Text → Option Bool
has_packet [] = none
has_packet ([] ∷ texts) = some false
has_packet ((c ∷ text) ∷ texts) = some true

-- The commands of this core, `(*(current_test_case->steps))[rte_lcore_id()]`.
module _ {S : Type 0} (sw : Switch S) (steps : List Cmd) where
  unfoldable pub get_cmd : World S → Option Cmd
  get_cmd w = get_elem? steps w.idx

  unfoldable pub check_egress_port : Cmd → ℕ → World S → World S
  check_egress_port cmd egress_port w =
      if cmd.out_port == egress_port then w else record w { is_valid = false }

  unfoldable pub check_byte_count : Cmd → World S → Option (Bool × World S)
  check_byte_count cmd w = do
    expected_byte_count ← total_fake_byte_count cmd.out_texts
    if expected_byte_count == w.pd.pkt_len
        then some (true, w)
        else some (false, record w { is_valid = false })

  unfoldable pub check_packet_contents : Cmd → World S → Option (World S)
  check_packet_contents cmd w = do
    wrong_byte_count ← get_wrong_byte_count cmd w.pd
    if wrong_byte_count == 0 then some w else some (record w { is_valid = false })

  unfoldable pub check_sent_packet : ℕ → ℕ → World S → Option (World S)
  unfolding get_cmd check_egress_port check_byte_count check_packet_contents
  check_sent_packet egress_port ingress_port w = do
    cmd ← get_cmd w
    (is_ok, w₁) ← check_byte_count cmd (check_egress_port cmd egress_port w)
    w₂ ← (if is_ok then check_packet_contents cmd w₁ else some w₁)
    if w₂.is_valid then some w₂ else some (record w₂ { encountered_error = true })

  -- `send_single_packet`; the packet is not looked at, but `pd` is.
  unfoldable pub send_single_packet : Unit {0} → ℕ → ℕ → World S → Option (World S)
  unfolding check_sent_packet
  send_single_packet pkt egress_port ingress_port w = check_sent_packet egress_port ingress_port w

  -- `core_is_working`
  unfoldable pub core_is_working : World S → Option Bool
  unfolding get_cmd
  core_is_working w = do cmd ← get_cmd w; some (not (is_end cmd.action))

  -- `fake_packet`: a buffer is taken from the pool, room is made in front of its data, and the bytes
  -- are written there. With no buffer left, or too little room, a null pointer is used.
  unfoldable pub fake_packet : Cmd → World S → Option (World S)
  fake_packet cmd w = do
    byte_count ← total_fake_byte_count cmd.in_texts
    bs ← fake_bytes cmd.in_texts
    if ltb 0 w.free_mbufs && leb byte_count sw.headroom
        then some (record w {
          free_mbufs = w.free_mbufs - 1;
          pd = record w.pd { pkt_len = byte_count; bytes = store_bytes sw.fresh 0 bs };
        })
        else none

  unfoldable pub receive_packet : ℕ → World S → Option (Bool × World S)
  unfolding get_cmd fake_packet
  receive_packet pkt_idx w = do
    cmd ← get_cmd w
    if is_pkt cmd.action
        then has_packet cmd.in_texts >>= (λ got_packet.
          if got_packet then fake_packet cmd w >>= (λ w'. some (true, w')) else some (false, w))
        else if is_setdef cmd.action
        then get_elem? cmd.in_texts 1
          >>= (λ arg. some (false, record w { switch = sw.setdef cmd.ptr arg w.switch }))
        else some (false, w)

  unfoldable pub is_packet_handled : World S → Option Bool
  unfolding get_cmd
  is_packet_handled w = do cmd ← get_cmd w; some (is_pkt cmd.action)

  unfoldable pub main_loop_post_single_rx : Bool → World S → Option (World S)
  unfolding get_cmd
  main_loop_post_single_rx got_packet w = do
    cmd ← get_cmd w
    some (record w {
      pkt_idx = (if is_pkt cmd.action && got_packet then w.pkt_idx + 1 else w.pkt_idx);
      idx = w.idx + 1;
    })

  unfoldable pub get_portid : ℕ → World S → Option ℕ
  unfolding get_cmd
  get_portid queue_idx w = do cmd ← get_cmd w; some cmd.in_port

  abbrev pub handle_packet : ℕ → World S → World S
  handle_packet port w =
      let (s, pd) = sw.handle_packet w.switch w.pd port in record w { switch = s; pd = pd }

  -- `clone_packet`, of dpdk_lib.c: `rte_pktmbuf_clone` takes a buffer of the same pool. With none left
  -- it gives null, which this variant never looks at.
  unfoldable pub clone_packet : Unit {0} → World S → Unit {0} × World S
  clone_packet p w = (tt, record w { free_mbufs = w.free_mbufs - 1 })

  -- `free_packet`: `rte_free` of a buffer that is not its own gives nothing back to the pool.
  unfoldable pub free_packet : World S → World S
  free_packet w = w

  -- The functions of the variant.
  unfoldable pub nic_off : Nic (Unit {0}) (World S)
  unfolding core_is_working receive_packet is_packet_handled main_loop_post_single_rx get_portid
      send_single_packet port_count clone_packet free_packet
  nic_off = record {
    is_valid = λ w. w.is_valid;
    core_is_working = core_is_working;
    main_loop_pre_rx = some;
    main_loop_post_rx = some;
    get_queue_count = λ w. 1;
    main_loop_rx_group = λ queue_idx w. some w;
    get_pkt_count_in_group = λ w. 1;
    receive_packet = receive_packet;
    is_packet_handled = is_packet_handled;
    get_portid = get_portid;
    main_loop_post_single_rx = main_loop_post_single_rx;
    handle_packet = handle_packet;
    drop = λ w. w.pd.drop;
    egress_port = λ w. w.pd.egress_port;
    ingress_port = λ w. w.pd.ingress_port;
    wrapper = λ w. tt;
    clone_packet = clone_packet;
    free_packet = free_packet;
    send_single_packet = send_single_packet;
    port_count = port_count;
    port_mask = port_mask;
    max_ethports = sw.max_ethports;
  }
