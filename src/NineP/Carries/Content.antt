-- ===== src/NineP/Carries/Content.antt =====
-- The messages on the content of files and folders: what fits the wire, and that it is read back.
use nix_wasm.NineP.Wire.{
  Carries, Carries->>=, Carries-map, IsBlob, IsU32, IsU64, blob-Carries, u32-Carries, u64-Carries,
}
use nix_wasm.Prelude.{◌$◌}
use nix_wasm.NineP.Messages.Content.{
  Treaddir, write_treaddir, read_treaddir, Rreaddir, write_rreaddir, read_rreaddir, Tfsync,
  write_tfsync, read_tfsync, Tread, write_tread, read_tread, Rread, write_rread, read_rread, Twrite,
  write_twrite, read_twrite, Rwrite, write_rwrite, read_rwrite,
}

abbrev pub TreaddirFits : Treaddir → Type 0
TreaddirFits m = IsU32 m.fid × IsU64 m.offset × IsU32 m.count

pub treaddir-Carries : (m : Treaddir) → TreaddirFits m → Carries (write_treaddir m) read_treaddir m
unfolding write_treaddir read_treaddir
treaddir-Carries m h =
    Carries->>= _ (u32-Carries m.fid h.0)
    $ Carries->>= _ (u64-Carries m.offset h.1)
    $ Carries-map _ (u32-Carries m.count h.2)

abbrev pub RreaddirFits : Rreaddir → Type 0
RreaddirFits m = IsBlob m.payload

pub rreaddir-Carries : (m : Rreaddir) → RreaddirFits m → Carries (write_rreaddir m) read_rreaddir m
unfolding write_rreaddir read_rreaddir
rreaddir-Carries m h = Carries-map _ (blob-Carries m.payload h)

abbrev pub TfsyncFits : Tfsync → Type 0
TfsyncFits m = IsU32 m.fid × IsU32 m.datasync

pub tfsync-Carries : (m : Tfsync) → TfsyncFits m → Carries (write_tfsync m) read_tfsync m
unfolding write_tfsync read_tfsync
tfsync-Carries m h =
    Carries->>= _ (u32-Carries m.fid h.0) $ Carries-map _ (u32-Carries m.datasync h.1)

abbrev pub TreadFits : Tread → Type 0
TreadFits m = IsU32 m.fid × IsU64 m.offset × IsU32 m.count

pub tread-Carries : (m : Tread) → TreadFits m → Carries (write_tread m) read_tread m
unfolding write_tread read_tread
tread-Carries m h =
    Carries->>= _ (u32-Carries m.fid h.0)
    $ Carries->>= _ (u64-Carries m.offset h.1)
    $ Carries-map _ (u32-Carries m.count h.2)

abbrev pub RreadFits : Rread → Type 0
RreadFits m = IsBlob m.payload

pub rread-Carries : (m : Rread) → RreadFits m → Carries (write_rread m) read_rread m
unfolding write_rread read_rread
rread-Carries m h = Carries-map _ (blob-Carries m.payload h)

abbrev pub TwriteFits : Twrite → Type 0
TwriteFits m = IsU32 m.fid × IsU64 m.offset × IsBlob m.payload

pub twrite-Carries : (m : Twrite) → TwriteFits m → Carries (write_twrite m) read_twrite m
unfolding write_twrite read_twrite
twrite-Carries m h =
    Carries->>= _ (u32-Carries m.fid h.0)
    $ Carries->>= _ (u64-Carries m.offset h.1)
    $ Carries-map _ (blob-Carries m.payload h.2)

abbrev pub RwriteFits : Rwrite → Type 0
RwriteFits m = IsU32 m.count

pub rwrite-Carries : (m : Rwrite) → RwriteFits m → Carries (write_rwrite m) read_rwrite m
unfolding write_rwrite read_rwrite
rwrite-Carries m h = Carries-map _ (u32-Carries m.count h)
