-- ===== src/NineP/Carries/Create.antt =====
-- The messages that open files and make new ones: what fits the wire, and that it is read back.
use nix_wasm.NineP.Wire.{
  Carries, Carries->>=, Carries-map, IsU32, IsWireQid, IsWireStr, qid-Carries, str-Carries,
  u32-Carries,
}
use nix_wasm.Prelude.{◌$◌}
use nix_wasm.NineP.Messages.Create.{
  Tlopen, write_tlopen, read_tlopen, Rlopen, write_rlopen, read_rlopen, Tlcreate, write_tlcreate,
  read_tlcreate, Rlcreate, write_rlcreate, read_rlcreate, Tsymlink, write_tsymlink, read_tsymlink,
  Rsymlink, write_rsymlink, read_rsymlink, Tmknod, write_tmknod, read_tmknod, Rmknod, write_rmknod,
  read_rmknod, Tmkdir, write_tmkdir, read_tmkdir, Rmkdir, write_rmkdir, read_rmkdir,
}

abbrev pub TlopenFits : Tlopen → Type 0
TlopenFits m = IsU32 m.fid × IsU32 m.flags

pub tlopen-Carries : (m : Tlopen) → TlopenFits m → Carries (write_tlopen m) read_tlopen m
unfolding write_tlopen read_tlopen
tlopen-Carries m h = Carries->>= _ (u32-Carries m.fid h.0) $ Carries-map _ (u32-Carries m.flags h.1)

abbrev pub RlopenFits : Rlopen → Type 0
RlopenFits m = IsWireQid m.qid × IsU32 m.iounit

pub rlopen-Carries : (m : Rlopen) → RlopenFits m → Carries (write_rlopen m) read_rlopen m
unfolding write_rlopen read_rlopen
rlopen-Carries m h =
    Carries->>= _ (qid-Carries m.qid h.0) $ Carries-map _ (u32-Carries m.iounit h.1)

abbrev pub TlcreateFits : Tlcreate → Type 0
TlcreateFits m = IsU32 m.fid × IsWireStr m.name × IsU32 m.flags × IsU32 m.mode × IsU32 m.gid

pub tlcreate-Carries : (m : Tlcreate) → TlcreateFits m → Carries (write_tlcreate m) read_tlcreate m
unfolding write_tlcreate read_tlcreate
tlcreate-Carries m h =
    Carries->>= _ (u32-Carries m.fid h.0)
    $ Carries->>= _ (str-Carries m.name h.1)
    $ Carries->>= _ (u32-Carries m.flags h.2)
    $ Carries->>= _ (u32-Carries m.mode h.3)
    $ Carries-map _ (u32-Carries m.gid h.4)

abbrev pub RlcreateFits : Rlcreate → Type 0
RlcreateFits m = IsWireQid m.qid × IsU32 m.iounit

pub rlcreate-Carries : (m : Rlcreate) → RlcreateFits m → Carries (write_rlcreate m) read_rlcreate m
unfolding write_rlcreate read_rlcreate
rlcreate-Carries m h =
    Carries->>= _ (qid-Carries m.qid h.0) $ Carries-map _ (u32-Carries m.iounit h.1)

abbrev pub TsymlinkFits : Tsymlink → Type 0
TsymlinkFits m = IsU32 m.fid × IsWireStr m.name × IsWireStr m.symtgt × IsU32 m.gid

pub tsymlink-Carries : (m : Tsymlink) → TsymlinkFits m → Carries (write_tsymlink m) read_tsymlink m
unfolding write_tsymlink read_tsymlink
tsymlink-Carries m h =
    Carries->>= _ (u32-Carries m.fid h.0)
    $ Carries->>= _ (str-Carries m.name h.1)
    $ Carries->>= _ (str-Carries m.symtgt h.2)
    $ Carries-map _ (u32-Carries m.gid h.3)

abbrev pub RsymlinkFits : Rsymlink → Type 0
RsymlinkFits m = IsWireQid m.qid

pub rsymlink-Carries : (m : Rsymlink) → RsymlinkFits m → Carries (write_rsymlink m) read_rsymlink m
unfolding write_rsymlink read_rsymlink
rsymlink-Carries m h = Carries-map _ (qid-Carries m.qid h)

abbrev pub TmknodFits : Tmknod → Type 0
TmknodFits m =
    IsU32 m.dfid × IsWireStr m.name × IsU32 m.mode × IsU32 m.major × IsU32 m.minor × IsU32 m.gid

pub tmknod-Carries : (m : Tmknod) → TmknodFits m → Carries (write_tmknod m) read_tmknod m
unfolding write_tmknod read_tmknod
tmknod-Carries m h =
    Carries->>= _ (u32-Carries m.dfid h.0)
    $ Carries->>= _ (str-Carries m.name h.1)
    $ Carries->>= _ (u32-Carries m.mode h.2)
    $ Carries->>= _ (u32-Carries m.major h.3)
    $ Carries->>= _ (u32-Carries m.minor h.4)
    $ Carries-map _ (u32-Carries m.gid h.5)

abbrev pub RmknodFits : Rmknod → Type 0
RmknodFits m = IsWireQid m.qid

pub rmknod-Carries : (m : Rmknod) → RmknodFits m → Carries (write_rmknod m) read_rmknod m
unfolding write_rmknod read_rmknod
rmknod-Carries m h = Carries-map _ (qid-Carries m.qid h)

abbrev pub TmkdirFits : Tmkdir → Type 0
TmkdirFits m = IsU32 m.dfid × IsWireStr m.name × IsU32 m.mode × IsU32 m.gid

pub tmkdir-Carries : (m : Tmkdir) → TmkdirFits m → Carries (write_tmkdir m) read_tmkdir m
unfolding write_tmkdir read_tmkdir
tmkdir-Carries m h =
    Carries->>= _ (u32-Carries m.dfid h.0)
    $ Carries->>= _ (str-Carries m.name h.1)
    $ Carries->>= _ (u32-Carries m.mode h.2)
    $ Carries-map _ (u32-Carries m.gid h.3)

abbrev pub RmkdirFits : Rmkdir → Type 0
RmkdirFits m = IsWireQid m.qid

pub rmkdir-Carries : (m : Rmkdir) → RmkdirFits m → Carries (write_rmkdir m) read_rmkdir m
unfolding write_rmkdir read_rmkdir
rmkdir-Carries m h = Carries-map _ (qid-Carries m.qid h)
