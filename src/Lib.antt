-- ===== src/Lib.antt =====
-- volumecrypt-kit: transparent volume encryption. A filter driver (lib/windrv) sits between a file
-- system and its disk; a sweep encrypts or decrypts the data region of the volume batch by batch,
-- and a boundary separates the sectors that are ciphertext from those that are not. READ and WRITE
-- requests are decrypted and encrypted below the boundary.
--
-- What is modelled. Types, Error, Device and Cipher: lib/common/src/types.rs, error.rs and
-- store.rs, the traits as records of operations with the laws that the code relies on. Xts:
-- lib/common/src/xts.rs, down to blocks of bytes, over a block cipher that is a parameter (the aes
-- crate). Engine: lib/windrv/src/offset/engine.rs, the sweep. Pipeline:
-- lib/windrv/src/crypto/pipeline.rs. Registry: `VolumeAttachRegistry` of
-- lib/windrv/src/registry.rs, the map of the attached volumes. Dispatch: handle_detach,
-- handle_detach_all_volumes and handle_pause_os_volume of lib/windrv/src/ioctl/dispatch.rs, with
-- unbind_filter and detach_filter of lib/windrv/src/filter/manager.rs; Prepare:
-- handle_jvck_prepare_adddevice_path of the same file, over the registry, the device below the
-- filter and the JVCK store; Nt: win32_volume_path_to_nt of lib/windrv/src/nt.rs. Volume:
-- `AttachedVolume` of lib/windrv/src/registry.rs and `IoConfig` of lib/windrv/src/provider.rs. Irp:
-- process_read and process_write of lib/windrv/src/filter/volume_thread.rs. Filter:
-- lib/windrv/src/filter/io.rs. Hook: lib/loader/src/hook, the boot loader's hooks, over what each
-- function pointer does when it is called. Jvck: lib/common/src/jvck. Jvck itself has options.rs
-- and the geometry of store.rs; Jvck/Store the replicated metadata as an offset store over any
-- codec; Jvck/Metadata the block of 512 bytes (metadata.rs), over the crypto crates as a parameter
-- with the laws of IsCrypto; Jvck/Codec the codec trait and the default codec (codec.rs);
-- Jvck/Vendor the vendor data beside the blocks; Jvck/Reader and Jvck/Open how a volume is created
-- and opened (store.rs). System: one volume with its burst and its devices, and the operations on
-- it. Thread: thread_main, enqueue and stop of lib/windrv/src/filter/volume_thread.rs, as events
-- that interleave, beside a server that only keeps requests in order. Config:
-- sample/common/src/config.rs, the scanner of vck.json and its base64 decoder; Config/Json/Strings
-- and Config/Base64/Coded have a printer and an encoder of their own to compare with. Examples: a
-- disk in memory, and every theorem at a concrete volume. Plain is the specification: the plaintext
-- that a volume stands for.
--
-- How it corresponds. A device and a store act on a world `W`, and an operation returns the world
-- also beside an error, so what was written before a failure stays written. Buffers are lists of
-- bytes. u64 additions wrap, and IsValid says when they do not. A request carries what the kernel
-- decides: whether its buffer could be mapped and the copy allocated, and the Cancel flag of its
-- IRP. A failed write may leave any contents in the sectors that it names.
--
-- Bounds. The scanner of vck.json takes one turn for each byte at most, which is proved to be
-- enough. The batch loop of the cipher is bounded by the number of blocks, and gives the same for
-- every bound. The pieces of a buffer are bounded by its length. The attempts to dismount a volume
-- are those of the source, 100. The steps of a thread after stop are counted, and the count is
-- proved to be enough.
--
-- Not modelled: a codec's read_offset sees the block and not the vendor data of the replica. Not
-- modelled either: Windows and UEFI calls, key expansion and the memory that keys stand in,
-- logging, the ACPI tables, the rest of the samples.
pub mod Prelude
pub mod Error
pub mod Exec
pub mod Types
pub mod Device
pub mod Nt
pub mod Dispatch
pub mod Cipher
pub mod Plain
pub mod Registry
pub mod Pipeline
pub mod Engine
pub mod Volume
pub mod Irp
pub mod Thread
pub mod Xts
pub mod Filter
pub mod Hook
pub mod Jvck
pub mod System
pub mod Config
pub mod Prepare
pub mod Examples
