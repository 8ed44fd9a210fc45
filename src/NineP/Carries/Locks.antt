-- ===== src/NineP/Carries/Locks.antt =====
-- The messages on byte-range locks: what fits the wire, and that it is read back.
use nix_wasm.NineP.Wire.{
  Carries, Carries->>=, Carries-map, IsU32, IsU64, IsU8, IsWireStr, str-Carries, u32-Carries,
  u64-Carries, u8-Carries,
}
use nix_wasm.Prelude.{◌$◌}
use nix_wasm.NineP.Messages.Locks.{
  Tlock, write_tlock, read_tlock, Rlock, write_rlock, read_rlock, Tgetlock, write_tgetlock,
  read_tgetlock, Rgetlock, write_rgetlock, read_rgetlock,
}

abbrev pub TlockFits : Tlock → Type 0
TlockFits m =
    IsU32 m.fid
    × IsU8 m.locktype
    × IsU32 m.flags
    × IsU64 m.start
    × IsU64 m.length
    × IsU32 m.proc_id
    × IsWireStr m.client_id

pub tlock-Carries : (m : Tlock) → TlockFits m → Carries (write_tlock m) read_tlock m
unfolding write_tlock read_tlock
tlock-Carries m h =
    Carries->>= _ (u32-Carries m.fid h.0)
    $ Carries->>= _ (u8-Carries m.locktype h.1)
    $ Carries->>= _ (u32-Carries m.flags h.2)
    $ Carries->>= _ (u64-Carries m.start h.3)
    $ Carries->>= _ (u64-Carries m.length h.4)
    $ Carries->>= _ (u32-Carries m.proc_id h.5)
    $ Carries-map _ (str-Carries m.client_id h.6)

abbrev pub RlockFits : Rlock → Type 0
RlockFits m = IsU8 m.status

pub rlock-Carries : (m : Rlock) → RlockFits m → Carries (write_rlock m) read_rlock m
unfolding write_rlock read_rlock
rlock-Carries m h = Carries-map _ (u8-Carries m.status h)

abbrev pub TgetlockFits : Tgetlock → Type 0
TgetlockFits m =
    IsU32 m.fid
    × IsU8 m.locktype
    × IsU64 m.start
    × IsU64 m.length
    × IsU32 m.proc_id
    × IsWireStr m.client_id

pub tgetlock-Carries : (m : Tgetlock) → TgetlockFits m → Carries (write_tgetlock m) read_tgetlock m
unfolding write_tgetlock read_tgetlock
tgetlock-Carries m h =
    Carries->>= _ (u32-Carries m.fid h.0)
    $ Carries->>= _ (u8-Carries m.locktype h.1)
    $ Carries->>= _ (u64-Carries m.start h.2)
    $ Carries->>= _ (u64-Carries m.length h.3)
    $ Carries->>= _ (u32-Carries m.proc_id h.4)
    $ Carries-map _ (str-Carries m.client_id h.5)

abbrev pub RgetlockFits : Rgetlock → Type 0
RgetlockFits m =
    IsU8 m.locktype × IsU64 m.start × IsU64 m.length × IsU32 m.proc_id × IsWireStr m.client_id

pub rgetlock-Carries : (m : Rgetlock) → RgetlockFits m → Carries (write_rgetlock m) read_rgetlock m
unfolding write_rgetlock read_rgetlock
rgetlock-Carries m h =
    Carries->>= _ (u8-Carries m.locktype h.0)
    $ Carries->>= _ (u64-Carries m.start h.1)
    $ Carries->>= _ (u64-Carries m.length h.2)
    $ Carries->>= _ (u32-Carries m.proc_id h.3)
    $ Carries-map _ (str-Carries m.client_id h.4)
