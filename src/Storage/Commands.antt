-- ===== src/Storage/Commands.antt =====
-- storage/nvmed/src/nvme/cmd.rs: the builders of the NVMe commands that the driver submits.
pub mod Fields
use drivers.Base.{ℕ, ◌*◌, ◌/◌, ◌%◌, ◌^◌, bit_or, Option, none, some}
use drivers.Storage.Queues.{NvmeCmd}

-- A command with the fields that its builder sets, and 0 in the others.
abbrev command : (opcode cid nsid : ℕ) → ℕ × ℕ → (cdw10 cdw11 cdw12 : ℕ) → NvmeCmd
command opcode cid nsid dptr cdw10 cdw11 cdw12 = record {
  opcode = opcode;
  flags = 0;
  cid = cid;
  nsid = nsid;
  mptr = 0;
  dptr = dptr;
  cdw10 = cdw10;
  cdw11 = cdw11;
  cdw12 = cdw12;
  cdw13 = 0;
  cdw14 = 0;
  cdw15 = 0;
}

-- The interrupt bits of dword 11, if there is a vector
abbrev pub interrupt_bits : Option ℕ → ℕ
interrupt_bits none = 0
interrupt_bits (some iv) = bit_or 2 (iv * 2 ^ 16 % 2 ^ 32)

unfoldable pub create_io_completion_queue : (cid qid ptr size : ℕ) → Option ℕ → NvmeCmd
create_io_completion_queue cid qid ptr size iv =
    command 5 cid 0 (ptr, 0) (bit_or (size * 2 ^ 16 % 2 ^ 32) qid) (bit_or 1 (interrupt_bits iv)) 0

unfoldable pub create_io_submission_queue : (cid qid ptr size cqid : ℕ) → NvmeCmd
create_io_submission_queue cid qid ptr size cqid =
    command 1 cid 0 (ptr, 0) (bit_or (size * 2 ^ 16 % 2 ^ 32) qid)
      (bit_or (cqid * 2 ^ 16 % 2 ^ 32) 1) 0

unfoldable pub identify_namespace : (cid ptr nsid : ℕ) → NvmeCmd
identify_namespace cid ptr nsid = command 6 cid nsid (ptr, 0) 0 0 0

unfoldable pub identify_controller : (cid ptr : ℕ) → NvmeCmd
identify_controller cid ptr = command 6 cid 0 (ptr, 0) 1 0 0

unfoldable pub identify_namespace_list : (cid ptr base : ℕ) → NvmeCmd
identify_namespace_list cid ptr base = command 6 cid base (ptr, 0) 2 0 0

-- The command identifier is left at its default of 0.
unfoldable pub get_features : (cid ptr fid : ℕ) → NvmeCmd
get_features cid ptr fid = command 0xA 0 0 (ptr, 0) fid 0 0

unfoldable pub io_read : (cid nsid lba blocks_1 ptr0 ptr1 : ℕ) → NvmeCmd
io_read cid nsid lba blocks_1 ptr0 ptr1 =
    command 2 cid nsid (ptr0, ptr1) (lba % 2 ^ 32) (lba / 2 ^ 32 % 2 ^ 32) blocks_1

unfoldable pub io_write : (cid nsid lba blocks_1 ptr0 ptr1 : ℕ) → NvmeCmd
io_write cid nsid lba blocks_1 ptr0 ptr1 =
    command 1 cid nsid (ptr0, ptr1) (lba % 2 ^ 32) (lba / 2 ^ 32 % 2 ^ 32) blocks_1
