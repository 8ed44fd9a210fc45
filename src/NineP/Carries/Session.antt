-- ===== src/NineP/Carries/Session.antt =====
-- The messages that open a session and walk to files: what fits the wire, and that it is read back.
use nix_wasm.NineP.Wire.{
  Carries, Carries->>=, Carries-map, AreWireNames, AreWireQids, IsU16, IsU32, IsWireQid, IsWireStr,
  qid-Carries, qids-Carries, str-Carries, u16-Carries, u32-Carries, wnames-Carries,
}
use nix_wasm.Prelude.{◌$◌}
use nix_wasm.NineP.Messages.Session.{
  Tversion, write_tversion, read_tversion, Rversion, write_rversion, read_rversion, Tauth,
  write_tauth, read_tauth, Rauth, write_rauth, read_rauth, Tattach, write_tattach, read_tattach,
  Rattach, write_rattach, read_rattach, Rlerror, write_rlerror, read_rlerror, Tflush, write_tflush,
  read_tflush, Twalk, write_twalk, read_twalk, Rwalk, write_rwalk, read_rwalk, Tclunk, write_tclunk,
  read_tclunk, Tremove, write_tremove, read_tremove,
}

abbrev pub TversionFits : Tversion → Type 0
TversionFits m = IsU32 m.msize × IsWireStr m.version

pub tversion-Carries : (m : Tversion) → TversionFits m → Carries (write_tversion m) read_tversion m
unfolding write_tversion read_tversion
tversion-Carries m h =
    Carries->>= _ (u32-Carries m.msize h.0) $ Carries-map _ (str-Carries m.version h.1)

abbrev pub RversionFits : Rversion → Type 0
RversionFits m = IsU32 m.msize × IsWireStr m.version

pub rversion-Carries : (m : Rversion) → RversionFits m → Carries (write_rversion m) read_rversion m
unfolding write_rversion read_rversion
rversion-Carries m h =
    Carries->>= _ (u32-Carries m.msize h.0) $ Carries-map _ (str-Carries m.version h.1)

abbrev pub TauthFits : Tauth → Type 0
TauthFits m = IsU32 m.afid × IsWireStr m.uname × IsWireStr m.aname × IsU32 m.n_uname

pub tauth-Carries : (m : Tauth) → TauthFits m → Carries (write_tauth m) read_tauth m
unfolding write_tauth read_tauth
tauth-Carries m h =
    Carries->>= _ (u32-Carries m.afid h.0)
    $ Carries->>= _ (str-Carries m.uname h.1)
    $ Carries->>= _ (str-Carries m.aname h.2)
    $ Carries-map _ (u32-Carries m.n_uname h.3)

abbrev pub RauthFits : Rauth → Type 0
RauthFits m = IsWireQid m.aqid

pub rauth-Carries : (m : Rauth) → RauthFits m → Carries (write_rauth m) read_rauth m
unfolding write_rauth read_rauth
rauth-Carries m h = Carries-map _ (qid-Carries m.aqid h)

abbrev pub TattachFits : Tattach → Type 0
TattachFits m = IsU32 m.fid × IsU32 m.afid × IsWireStr m.uname × IsWireStr m.aname × IsU32 m.n_uname

pub tattach-Carries : (m : Tattach) → TattachFits m → Carries (write_tattach m) read_tattach m
unfolding write_tattach read_tattach
tattach-Carries m h =
    Carries->>= _ (u32-Carries m.fid h.0)
    $ Carries->>= _ (u32-Carries m.afid h.1)
    $ Carries->>= _ (str-Carries m.uname h.2)
    $ Carries->>= _ (str-Carries m.aname h.3)
    $ Carries-map _ (u32-Carries m.n_uname h.4)

abbrev pub RattachFits : Rattach → Type 0
RattachFits m = IsWireQid m.qid

pub rattach-Carries : (m : Rattach) → RattachFits m → Carries (write_rattach m) read_rattach m
unfolding write_rattach read_rattach
rattach-Carries m h = Carries-map _ (qid-Carries m.qid h)

abbrev pub RlerrorFits : Rlerror → Type 0
RlerrorFits m = IsU32 m.ecode

pub rlerror-Carries : (m : Rlerror) → RlerrorFits m → Carries (write_rlerror m) read_rlerror m
unfolding write_rlerror read_rlerror
rlerror-Carries m h = Carries-map _ (u32-Carries m.ecode h)

abbrev pub TflushFits : Tflush → Type 0
TflushFits m = IsU16 m.oldtag

pub tflush-Carries : (m : Tflush) → TflushFits m → Carries (write_tflush m) read_tflush m
unfolding write_tflush read_tflush
tflush-Carries m h = Carries-map _ (u16-Carries m.oldtag h)

abbrev pub TwalkFits : Twalk → Type 0
TwalkFits m = IsU32 m.fid × IsU32 m.newfid × AreWireNames m.wnames

pub twalk-Carries : (m : Twalk) → TwalkFits m → Carries (write_twalk m) read_twalk m
unfolding write_twalk read_twalk
twalk-Carries m h =
    Carries->>= _ (u32-Carries m.fid h.0)
    $ Carries->>= _ (u32-Carries m.newfid h.1)
    $ Carries-map _ (wnames-Carries m.wnames h.2)

abbrev pub RwalkFits : Rwalk → Type 0
RwalkFits m = AreWireQids m.qids

pub rwalk-Carries : (m : Rwalk) → RwalkFits m → Carries (write_rwalk m) read_rwalk m
unfolding write_rwalk read_rwalk
rwalk-Carries m h = Carries-map _ (qids-Carries m.qids h)

abbrev pub TclunkFits : Tclunk → Type 0
TclunkFits m = IsU32 m.fid

pub tclunk-Carries : (m : Tclunk) → TclunkFits m → Carries (write_tclunk m) read_tclunk m
unfolding write_tclunk read_tclunk
tclunk-Carries m h = Carries-map _ (u32-Carries m.fid h)

abbrev pub TremoveFits : Tremove → Type 0
TremoveFits m = IsU32 m.fid

pub tremove-Carries : (m : Tremove) → TremoveFits m → Carries (write_tremove m) read_tremove m
unfolding write_tremove read_tremove
tremove-Carries m h = Carries-map _ (u32-Carries m.fid h)
