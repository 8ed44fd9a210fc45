-- ===== src/NineP/Carries/Attributes.antt =====
-- The messages on attributes: what fits the wire, and that it is read back.
use nix_wasm.NineP.Wire.{
  Carries, Carries->>=, Carries-map, IsU32, IsU64, IsWireQid, IsWireStr, qid-Carries, str-Carries,
  u32-Carries, u64-Carries,
}
use nix_wasm.Prelude.{◌$◌}
use nix_wasm.NineP.Messages.Attributes.{
  Tstatfs, write_tstatfs, read_tstatfs, Rstatfs, write_rstatfs, read_rstatfs, Tgetattr,
  write_tgetattr, read_tgetattr, Rgetattr, write_rgetattr, read_rgetattr, Tsetattr, write_tsetattr,
  read_tsetattr, Txattrwalk, write_txattrwalk, read_txattrwalk,
}

abbrev pub TstatfsFits : Tstatfs → Type 0
TstatfsFits m = IsU32 m.fid

pub tstatfs-Carries : (m : Tstatfs) → TstatfsFits m → Carries (write_tstatfs m) read_tstatfs m
unfolding write_tstatfs read_tstatfs
tstatfs-Carries m h = Carries-map _ (u32-Carries m.fid h)

abbrev pub RstatfsFits : Rstatfs → Type 0
RstatfsFits m =
    IsU32 m.fstype
    × IsU32 m.bsize
    × IsU64 m.blocks
    × IsU64 m.bfree
    × IsU64 m.bavail
    × IsU64 m.files
    × IsU64 m.ffree
    × IsU64 m.fsid
    × IsU32 m.namelen

pub rstatfs-Carries : (m : Rstatfs) → RstatfsFits m → Carries (write_rstatfs m) read_rstatfs m
unfolding write_rstatfs read_rstatfs
rstatfs-Carries m h =
    Carries->>= _ (u32-Carries m.fstype h.0)
    $ Carries->>= _ (u32-Carries m.bsize h.1)
    $ Carries->>= _ (u64-Carries m.blocks h.2)
    $ Carries->>= _ (u64-Carries m.bfree h.3)
    $ Carries->>= _ (u64-Carries m.bavail h.4)
    $ Carries->>= _ (u64-Carries m.files h.5)
    $ Carries->>= _ (u64-Carries m.ffree h.6)
    $ Carries->>= _ (u64-Carries m.fsid h.7)
    $ Carries-map _ (u32-Carries m.namelen h.8)

abbrev pub TgetattrFits : Tgetattr → Type 0
TgetattrFits m = IsU32 m.fid × IsU64 m.request_mask

pub tgetattr-Carries : (m : Tgetattr) → TgetattrFits m → Carries (write_tgetattr m) read_tgetattr m
unfolding write_tgetattr read_tgetattr
tgetattr-Carries m h =
    Carries->>= _ (u32-Carries m.fid h.0) $ Carries-map _ (u64-Carries m.request_mask h.1)

abbrev pub RgetattrFits : Rgetattr → Type 0
RgetattrFits m =
    IsU64 m.valid
    × IsWireQid m.qid
    × IsU32 m.mode
    × IsU32 m.uid
    × IsU32 m.gid
    × IsU64 m.nlink
    × IsU64 m.rdev
    × IsU64 m.size
    × IsU64 m.blksize
    × IsU64 m.blocks
    × IsU64 m.atime_sec
    × IsU64 m.atime_nsec
    × IsU64 m.mtime_sec
    × IsU64 m.mtime_nsec
    × IsU64 m.ctime_sec
    × IsU64 m.ctime_nsec
    × IsU64 m.btime_sec
    × IsU64 m.btime_nsec
    × IsU64 m.gen
    × IsU64 m.data_version

pub rgetattr-Carries : (m : Rgetattr) → RgetattrFits m → Carries (write_rgetattr m) read_rgetattr m
unfolding write_rgetattr read_rgetattr
rgetattr-Carries m h =
    Carries->>= _ (u64-Carries m.valid h.0)
    $ Carries->>= _ (qid-Carries m.qid h.1)
    $ Carries->>= _ (u32-Carries m.mode h.2)
    $ Carries->>= _ (u32-Carries m.uid h.3)
    $ Carries->>= _ (u32-Carries m.gid h.4)
    $ Carries->>= _ (u64-Carries m.nlink h.5)
    $ Carries->>= _ (u64-Carries m.rdev h.6)
    $ Carries->>= _ (u64-Carries m.size h.7)
    $ Carries->>= _ (u64-Carries m.blksize h.8)
    $ Carries->>= _ (u64-Carries m.blocks h.9)
    $ Carries->>= _ (u64-Carries m.atime_sec h.10)
    $ Carries->>= _ (u64-Carries m.atime_nsec h.11)
    $ Carries->>= _ (u64-Carries m.mtime_sec h.12)
    $ Carries->>= _ (u64-Carries m.mtime_nsec h.13)
    $ Carries->>= _ (u64-Carries m.ctime_sec h.14)
    $ Carries->>= _ (u64-Carries m.ctime_nsec h.15)
    $ Carries->>= _ (u64-Carries m.btime_sec h.16)
    $ Carries->>= _ (u64-Carries m.btime_nsec h.17)
    $ Carries->>= _ (u64-Carries m.gen h.18)
    $ Carries-map _ (u64-Carries m.data_version h.19)

abbrev pub TsetattrFits : Tsetattr → Type 0
TsetattrFits m =
    IsU32 m.fid
    × IsU32 m.valid
    × IsU32 m.mode
    × IsU32 m.uid
    × IsU32 m.gid
    × IsU64 m.size
    × IsU64 m.atime_sec
    × IsU64 m.atime_nsec
    × IsU64 m.mtime_sec
    × IsU64 m.mtime_nsec

pub tsetattr-Carries : (m : Tsetattr) → TsetattrFits m → Carries (write_tsetattr m) read_tsetattr m
unfolding write_tsetattr read_tsetattr
tsetattr-Carries m h =
    Carries->>= _ (u32-Carries m.fid h.0)
    $ Carries->>= _ (u32-Carries m.valid h.1)
    $ Carries->>= _ (u32-Carries m.mode h.2)
    $ Carries->>= _ (u32-Carries m.uid h.3)
    $ Carries->>= _ (u32-Carries m.gid h.4)
    $ Carries->>= _ (u64-Carries m.size h.5)
    $ Carries->>= _ (u64-Carries m.atime_sec h.6)
    $ Carries->>= _ (u64-Carries m.atime_nsec h.7)
    $ Carries->>= _ (u64-Carries m.mtime_sec h.8)
    $ Carries-map _ (u64-Carries m.mtime_nsec h.9)

abbrev pub TxattrwalkFits : Txattrwalk → Type 0
TxattrwalkFits m = IsU32 m.fid × IsU32 m.newfid × IsWireStr m.name

pub txattrwalk-Carries :
    (m : Txattrwalk) → TxattrwalkFits m → Carries (write_txattrwalk m) read_txattrwalk m
unfolding write_txattrwalk read_txattrwalk
txattrwalk-Carries m h =
    Carries->>= _ (u32-Carries m.fid h.0)
    $ Carries->>= _ (u32-Carries m.newfid h.1)
    $ Carries-map _ (str-Carries m.name h.2)
