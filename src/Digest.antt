-- ===== src/Digest.antt =====
-- src/hardware_dep/shared/ctrl_plane/ctrl_plane_backend.c and
-- src/hardware_dep/dpdk/data_plane/dpdkx_digest.c: how the switch builds a digest in a memory cell
-- and queues it for the controller. The data of the cell starts at address 0.
pub mod Report
mod Tests
use t4p4s_ma.Common.{
  ℕ, ◌+◌, ◌-◌, ◌*◌, ◌/◌, ◌%◌, ◌^◌, Option, none, some, List, [], ◌∷◌, ◌++◌, length, take, ltb,
  if◌then◌else◌, ℤ, pos, replicate,
}
use Prim.Native.String.{String}
use t4p4s_ma.Memory.{
  Run, ok, Cmd, pure, modify, arrow, memcpy, codes, ◌>>=◌, ◌>>◌, store8, store32, store_bytes,
}
use t4p4s_ma.Messages.Layout.At
use t4p4s_ma.Messages.Header.{create_p4_header, netconv_p4_header}
use t4p4s_ma.Messages.Digest.{create_p4_digest, add_p4_digest_field, netconv_p4_digest_field}
use t4p4s_ma.Fifo.{Fifo, add_msg}

-- P4_BG_MEM_CELL_SIZE, the `length` of every cell
abbrev pub cell_size : ℕ
cell_size = 2048

-- P4_MAX_FIELD_LIST_NAME_LEN
abbrev pub max_list_name : ℕ
max_list_name = 128

-- P4_MAX_FIELD_VALUE_LENGTH
abbrev pub max_value : ℕ
max_value = 32

-- `create_digest`, once a cell is taken: null if the name is too long. `strncpy` fills the rest of
-- the name with zeros.
unfoldable pub create_digest : String → Cmd (Option ℕ)
unfolding create_p4_header create_p4_digest store_bytes store8
create_digest name = do
  _ ← create_p4_header 0 0 cell_size
  d ← create_p4_digest 0 0 cell_size
  if ltb (max_list_name - 1) (length (codes name)) then pure none else do
    at ← arrow d At.field_list_name
    memcpy at (codes name ++ replicate (max_list_name - length (codes name)) 0)
    modify (λ m. store8 m (at + (max_list_name - 1)) 0)
    pure d

-- `(length-1)/8+1` on a `uint32_t`
abbrev pub byte_length : ℕ → ℕ
byte_length bits = (bits + (2 ^ 32 - 1)) % 2 ^ 32 / 8 + 1

-- `add_digest_field`: the length is in bits. `value` are the bytes at the pointer given.
unfoldable pub add_digest_field : ℕ → List ℕ → ℕ → Cmd (Option ℕ)
unfolding add_p4_digest_field netconv_p4_digest_field store32 store_bytes
add_digest_field d value bits = do
  field ← add_p4_digest_field d cell_size
  if ltb max_value (byte_length bits) then pure none else do
    memcpy (← arrow field At.field_value) (take (byte_length bits) value)
    at ← arrow field At.field_length
    modify (λ m. store32 m at bits)
    netconv_p4_digest_field (← arrow field 0)
    pure (some d)

-- `send_digest`: the cell's pointer is queued. `fifo_add_msg` never returns null.
unfoldable pub send_digest : ℕ → ℕ → Fifo → Cmd (ℤ × Fifo)
unfolding netconv_p4_header add_msg
send_digest d cell output_queue = do
  netconv_p4_header d
  pure (pos 0, (add_msg output_queue cell).0)

-- `extern_Digest_pack`: the bytes of the address and of the port; it passes their lengths in bytes.
unfoldable pub extern_digest_pack : List ℕ → List ℕ → ℕ → Fifo → Cmd (ℤ × Fifo)
unfolding create_digest add_digest_field send_digest
extern_digest_pack src_addr ingress_port cell output_queue = do
  digest ← create_digest "mac_learn_digest"
  d ← arrow digest 0
  _ ← add_digest_field d src_addr 6
  _ ← add_digest_field d ingress_port 4
  send_digest d cell output_queue
