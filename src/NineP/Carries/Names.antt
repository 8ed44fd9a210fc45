-- ===== src/NineP/Carries/Names.antt =====
-- The messages on names and links: what fits the wire, and that it is read back.
use nix_wasm.NineP.Wire.{
  Carries, Carries->>=, Carries-map, IsU32, IsWireStr, str-Carries, u32-Carries,
}
use nix_wasm.Prelude.{◌$◌}
use nix_wasm.NineP.Messages.Names.{
  Trename, write_trename, read_trename, Treadlink, write_treadlink, read_treadlink, Rreadlink,
  write_rreadlink, read_rreadlink, Trenameat, write_trenameat, read_trenameat, Tunlinkat,
  write_tunlinkat, read_tunlinkat,
}

abbrev pub TrenameFits : Trename → Type 0
TrenameFits m = IsU32 m.fid × IsU32 m.dfid × IsWireStr m.name

pub trename-Carries : (m : Trename) → TrenameFits m → Carries (write_trename m) read_trename m
unfolding write_trename read_trename
trename-Carries m h =
    Carries->>= _ (u32-Carries m.fid h.0)
    $ Carries->>= _ (u32-Carries m.dfid h.1)
    $ Carries-map _ (str-Carries m.name h.2)

abbrev pub TreadlinkFits : Treadlink → Type 0
TreadlinkFits m = IsU32 m.fid

pub treadlink-Carries :
    (m : Treadlink) → TreadlinkFits m → Carries (write_treadlink m) read_treadlink m
unfolding write_treadlink read_treadlink
treadlink-Carries m h = Carries-map _ (u32-Carries m.fid h)

abbrev pub RreadlinkFits : Rreadlink → Type 0
RreadlinkFits m = IsWireStr m.target

pub rreadlink-Carries :
    (m : Rreadlink) → RreadlinkFits m → Carries (write_rreadlink m) read_rreadlink m
unfolding write_rreadlink read_rreadlink
rreadlink-Carries m h = Carries-map _ (str-Carries m.target h)

abbrev pub TrenameatFits : Trenameat → Type 0
TrenameatFits m = IsU32 m.olddirfid × IsWireStr m.oldname × IsU32 m.newdirfid × IsWireStr m.newname

pub trenameat-Carries :
    (m : Trenameat) → TrenameatFits m → Carries (write_trenameat m) read_trenameat m
unfolding write_trenameat read_trenameat
trenameat-Carries m h =
    Carries->>= _ (u32-Carries m.olddirfid h.0)
    $ Carries->>= _ (str-Carries m.oldname h.1)
    $ Carries->>= _ (u32-Carries m.newdirfid h.2)
    $ Carries-map _ (str-Carries m.newname h.3)

abbrev pub TunlinkatFits : Tunlinkat → Type 0
TunlinkatFits m = IsU32 m.dirfid × IsWireStr m.name × IsU32 m.flags

pub tunlinkat-Carries :
    (m : Tunlinkat) → TunlinkatFits m → Carries (write_tunlinkat m) read_tunlinkat m
unfolding write_tunlinkat read_tunlinkat
tunlinkat-Carries m h =
    Carries->>= _ (u32-Carries m.dirfid h.0)
    $ Carries->>= _ (str-Carries m.name h.1)
    $ Carries-map _ (u32-Carries m.flags h.2)
