-- ===== src/Digest/Report.antt =====
-- A digest on its way: built and sent by the switch, and handled by the controller.
use t4p4s_ma.Common.{ℕ, ◌≡◌, ◌≤◌, true, none, some, List, [], ◌∷◌, arith, refl, pos, append-nil}
use Prim.Native.String.{String}
use t4p4s_ma.Memory.{
  Returns, Mem, Run, ok, fault, Cmd, pure, arrow, ◌>>=◌, ◌>>◌, store_bytes, load_bytes,
}
use t4p4s_ma.Messages.Layout.Size
use t4p4s_ma.Fifo.{Fifo}
use t4p4s_ma.Sock.{Answer, read_p4_msg, write_p4_msg}
use t4p4s_ma.Sock.Read.{sock}
use t4p4s_ma.Sock.Message.{declared, read_p4_msg_lem, write_p4_msg_lem}
use t4p4s_ma.Controller.Parts.{Mac, mac_bytes, Ip, ip_bytes, buffer_size}
use t4p4s_ma.Controller.Session.{World, IsSteady, AllConvey, fits}
use t4p4s_ma.Controller.Learn.{dhf, l2fwd_digests, psa_digests, state_digests}
use t4p4s_ma.Controller.L2fwd.Delivery.{
  fill_dmac_table_lem, fill_smac_table_lem, dmac_order, smac_order,
}
use t4p4s_ma.Controller.PsaL2fwd.Delivery.{
  psa_fill_dmac_table_lem, psa_fill_smac_table_lem, psa_dmac_order, psa_smac_order,
}
use t4p4s_ma.Controller.StateMachine.Delivery.{fill_map_flow_to_state_table_lem, flow_order}
use t4p4s_ma.Digest.{create_digest, add_digest_field, send_digest, cell_size, extern_digest_pack}

-- The fields of a digest: the bytes at the pointer given, and the length in bits.
abbrev pub add_fields : ℕ → List (List ℕ × ℕ) → Cmd (Unit {0})
add_fields d [] = pure tt
add_fields d ((value, bits) ∷ fs) = add_digest_field d value bits >>= λ _. add_fields d fs

-- The calls by which the generated code reports: a digest is created, its fields are added, and it
-- is sent, here with the pointer 1 and into a queue of its own.
unfoldable pub report : String → List (List ℕ × ℕ) → Fifo → Cmd (Unit {0})
unfolding create_digest add_digest_field send_digest
report name fields q = do
  digest ← create_digest name
  d ← arrow digest 0
  add_fields d fields
  _ ← send_digest d 1 q
  pure tt

-- What the digest handler does on a digest that the output thread of the switch writes to the
-- socket and the controller reads into its buffer.
unfoldable pub reported : {A : Type 0} → World → Cmd (Unit {0}) → Cmd A → Run A
unfolding write_p4_msg read_p4_msg
reported w build handler = elim (build w.buffer) [
  | fault ↦ fault
  | ok _ m ↦ elim (write_p4_msg 0 cell_size m (sock [] [] w.writes)) [
    | none ↦ fault
    | some (wval, m', s) ↦ elim (read_p4_msg 0 buffer_size w.cell (sock s.sent [] w.reads)) [
      | none ↦ fault
      | some (rval, m'', s') ↦ handler m''
    ]
  ]
]

abbrev pub after : Run (Unit {0}) → Mem
after (ok _ m) = m
after fault = λ a. 0

reported_step :
    {A : Type 0} (w : World) (build : Cmd (Unit {0})) (handler : Cmd A) (g : Mem) (bytes : List ℕ)
    {n k : ℕ} {m : Mem} {ws rs : List Answer}
    → build w.buffer ≡ ok tt g
    → write_p4_msg 0 cell_size g (sock [] [] w.writes) ≡ some (pos n, g, sock [] bytes ws)
    → read_p4_msg 0 buffer_size w.cell (sock bytes [] w.reads) ≡ some (pos k, m, sock [] [] rs)
    → reported w build handler ≡ handler m
unfolding reported
reported_step w build handler g bytes built wrote got = rw (reported, built, wrote, got) refl

reported_lem :
    {A : Type 0} (w : World) (build : Cmd (Unit {0})) (handler : Cmd A) (g : Mem)
    → IsSteady w
    → build w.buffer ≡ ok tt g
    → Size.header ≤ declared g 0
    → declared g 0 ≤ cell_size
    → reported w build handler ≡ handler (store_bytes w.cell 0 (load_bytes g 0 (declared g 0)))
reported_lem w build handler g steady built long short =
    let (ws, st, wrote) =
      write_p4_msg_lem 0 cell_size g [] [] w.writes (omega arith) short steady.writes in
    let (rs, st', got) =
      read_p4_msg_lem 0 buffer_size 0 w.cell g [] [] w.reads long short steady.reads in
    reported_step w build handler g (load_bytes g 0 (declared g 0)) built wrote
      (rw append-nil at got)

reported-Returns :
    {A : Type 0} (w : World) (build : Cmd (Unit {0})) (handler : Cmd A) (P : A → Mem → Type 0)
    (d : ℕ)
    → IsSteady w
    → build w.buffer ≡ ok tt (after (build w.buffer))
    → declared (after (build w.buffer)) 0 ≡ d
    → fits d cell_size ≡ true
    → Returns P (handler (store_bytes w.cell 0 (load_bytes (after (build w.buffer)) 0 d)))
    → Returns P (reported w build handler)
reported-Returns w build handler P d steady built e f h =
    rw
      (
        reported_lem w build handler (after (build w.buffer)) steady built (ground (arith, e, f))
            (ground (arith, e, f)),
        e,
      )
      h

-- If no call on the sockets fails, neither for the digest nor for the answers: a digest
-- `mac_learn_digest` with an address of 48 bits and a port of 16 bits makes the layer 2 controller
-- send two messages, and the switch's callback sees the entries that they stand for: the address
-- forwards to the port, and is known.
pub mac_learn_lem :
    (w w' : World) (mac : Mac) (lo hi : ℕ) (q : Fifo)
    → IsSteady w
    → IsSteady w'
    → Returns
        (λ sent m. AllConvey w' sent (dmac_order lo mac ∷ smac_order mac ∷ []))
        (reported w
          (report "mac_learn_digest" ((mac_bytes mac, 48) ∷ (lo ∷ hi ∷ [], 16) ∷ []) q)
          (dhf l2fwd_digests 0))
unfolding report dhf l2fwd_digests load_bytes
mac_learn_lem w w' mac lo hi q st st' =
    reported-Returns w (report "mac_learn_digest" ((mac_bytes mac, 48) ∷ (lo ∷ hi ∷ [], 16) ∷ []) q)
      (dhf l2fwd_digests 0) (λ sent m. AllConvey w' sent (dmac_order lo mac ∷ smac_order mac ∷ []))
      468 st refl refl refl
      (fill_dmac_table_lem w' st' lo mac, (fill_smac_table_lem w' st' lo mac, tt))

-- If no call on the sockets fails: a digest `state_update_digest` with a state of 16 bits, a flow of
-- 32 bits and a flag of one bit makes the controller of the state machine send one message, whatever
-- the flag, and the switch's callback sees the entry that maps the flow to the state.
pub state_update_lem :
    (w w' : World) (flow : Ip) (lo hi new : ℕ) (q : Fifo)
    → IsSteady w
    → IsSteady w'
    → Returns
        (λ sent m. AllConvey w' sent (flow_order flow (lo ∷ hi ∷ []) ∷ []))
        (reported w
          (report "state_update_digest"
            ((lo ∷ hi ∷ [], 16) ∷ (ip_bytes flow, 32) ∷ (new ∷ [], 1) ∷ [])
            q)
          (dhf state_digests 0))
unfolding report dhf state_digests load_bytes
state_update_lem w w' flow lo hi new q st st' =
    reported-Returns w
      (report "state_update_digest" ((lo ∷ hi ∷ [], 16) ∷ (ip_bytes flow, 32) ∷ (new ∷ [], 1) ∷ [])
        q)
      (dhf state_digests 0) (λ sent m. AllConvey w' sent (flow_order flow (lo ∷ hi ∷ []) ∷ [])) 632
      st refl refl refl (fill_map_flow_to_state_table_lem w' st' flow lo hi, tt)

-- The address that arrives when the switch reports `mac` with `extern_Digest_pack`: the length 6 is
-- taken for a number of bits, so one byte is copied, and the other five are what the cell held.
abbrev pub packed : Mac → Mem → Mac
packed mac cell = record {
  b0 = mac.b0;
  b1 = cell 273;
  b2 = cell 274;
  b3 = cell 275;
  b4 = cell 276;
  b5 = cell 277;
}

-- If no call on the sockets fails: the digest of `extern_Digest_pack` makes the PSA's controller send
-- two messages, and the switch's callback sees the entries that they stand for, which are those of
-- an address with the first byte of the reported one, and with five bytes from what the cell held
-- before.
pub extern_digest_pack_lem :
    (w w' : World) (mac : Mac) (p0 p1 p2 p3 cell : ℕ) (q : Fifo)
    → IsSteady w
    → IsSteady w'
    → Returns
        (λ sent m.
          AllConvey w' sent
            (psa_dmac_order p0 (packed mac w.buffer) ∷ psa_smac_order (packed mac w.buffer) ∷ []))
        (reported w
          (extern_digest_pack (mac_bytes mac) (p0 ∷ p1 ∷ p2 ∷ p3 ∷ []) cell q >>= λ _. pure tt)
          (dhf psa_digests 0))
unfolding extern_digest_pack dhf psa_digests load_bytes
extern_digest_pack_lem w w' mac p0 p1 p2 p3 cell q st st' =
    reported-Returns w
      (extern_digest_pack (mac_bytes mac) (p0 ∷ p1 ∷ p2 ∷ p3 ∷ []) cell q >>= λ _. pure tt)
      (dhf psa_digests 0)
      (λ sent m.
        AllConvey w' sent
          (psa_dmac_order p0 (packed mac w.buffer) ∷ psa_smac_order (packed mac w.buffer) ∷ []))
      468 st refl refl refl
      (
        psa_fill_dmac_table_lem w' st' p0 (packed mac w.buffer),
        (psa_fill_smac_table_lem w' st' p0 (packed mac w.buffer), tt),
      )
