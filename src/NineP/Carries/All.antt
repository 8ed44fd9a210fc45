-- ===== src/NineP/Carries/All.antt =====
-- What fits the wire, over all messages, and that each case of `encode` is read back by the case of
-- `decode` for its type.
use nix_wasm.NineP.Wire.{Carries, Carries-pure, Carries-map}
use nix_wasm.NineP.Message.{
  Request, Reply, Body, request, reply, request_kind, reply_kind, body_kind,
}
use nix_wasm.NineP.Codec.{write_request, write_reply, write_body, read_body}
use nix_wasm.NineP.Carries.Session.{
  TversionFits, tversion-Carries, RversionFits, rversion-Carries, TauthFits, tauth-Carries,
  RauthFits, rauth-Carries, TattachFits, tattach-Carries, RattachFits, rattach-Carries, RlerrorFits,
  rlerror-Carries, TflushFits, tflush-Carries, TwalkFits, twalk-Carries, RwalkFits, rwalk-Carries,
  TclunkFits, tclunk-Carries, TremoveFits, tremove-Carries,
}
use nix_wasm.NineP.Carries.Attributes.{
  TstatfsFits, tstatfs-Carries, RstatfsFits, rstatfs-Carries, TgetattrFits, tgetattr-Carries,
  RgetattrFits, rgetattr-Carries, TsetattrFits, tsetattr-Carries, TxattrwalkFits,
  txattrwalk-Carries,
}
use nix_wasm.NineP.Carries.Create.{
  TlopenFits, tlopen-Carries, RlopenFits, rlopen-Carries, TlcreateFits, tlcreate-Carries,
  RlcreateFits, rlcreate-Carries, TsymlinkFits, tsymlink-Carries, RsymlinkFits, rsymlink-Carries,
  TmknodFits, tmknod-Carries, RmknodFits, rmknod-Carries, TmkdirFits, tmkdir-Carries, RmkdirFits,
  rmkdir-Carries,
}
use nix_wasm.NineP.Carries.Names.{
  TrenameFits, trename-Carries, TreadlinkFits, treadlink-Carries, RreadlinkFits, rreadlink-Carries,
  TrenameatFits, trenameat-Carries, TunlinkatFits, tunlinkat-Carries,
}
use nix_wasm.NineP.Carries.Content.{
  TreaddirFits, treaddir-Carries, RreaddirFits, rreaddir-Carries, TfsyncFits, tfsync-Carries,
  TreadFits, tread-Carries, RreadFits, rread-Carries, TwriteFits, twrite-Carries, RwriteFits,
  rwrite-Carries,
}
use nix_wasm.NineP.Carries.Locks.{
  TlockFits, tlock-Carries, RlockFits, rlock-Carries, TgetlockFits, tgetlock-Carries, RgetlockFits,
  rgetlock-Carries,
}

abbrev pub RequestFits : Request → Type 0
RequestFits (Request.tversion m) = TversionFits m
RequestFits (Request.tauth m) = TauthFits m
RequestFits (Request.tattach m) = TattachFits m
RequestFits (Request.tstatfs m) = TstatfsFits m
RequestFits (Request.tlopen m) = TlopenFits m
RequestFits (Request.tlcreate m) = TlcreateFits m
RequestFits (Request.tsymlink m) = TsymlinkFits m
RequestFits (Request.tmknod m) = TmknodFits m
RequestFits (Request.trename m) = TrenameFits m
RequestFits (Request.treadlink m) = TreadlinkFits m
RequestFits (Request.tgetattr m) = TgetattrFits m
RequestFits (Request.tsetattr m) = TsetattrFits m
RequestFits (Request.txattrwalk m) = TxattrwalkFits m
RequestFits (Request.treaddir m) = TreaddirFits m
RequestFits (Request.tfsync m) = TfsyncFits m
RequestFits (Request.tlock m) = TlockFits m
RequestFits (Request.tgetlock m) = TgetlockFits m
RequestFits (Request.tmkdir m) = TmkdirFits m
RequestFits (Request.trenameat m) = TrenameatFits m
RequestFits (Request.tunlinkat m) = TunlinkatFits m
RequestFits (Request.tflush m) = TflushFits m
RequestFits (Request.twalk m) = TwalkFits m
RequestFits (Request.tread m) = TreadFits m
RequestFits (Request.twrite m) = TwriteFits m
RequestFits (Request.tclunk m) = TclunkFits m
RequestFits (Request.tremove m) = TremoveFits m

abbrev pub ReplyFits : Reply → Type 0
ReplyFits (Reply.rversion m) = RversionFits m
ReplyFits (Reply.rauth m) = RauthFits m
ReplyFits (Reply.rattach m) = RattachFits m
ReplyFits (Reply.rlerror m) = RlerrorFits m
ReplyFits (Reply.rstatfs m) = RstatfsFits m
ReplyFits (Reply.rlopen m) = RlopenFits m
ReplyFits (Reply.rlcreate m) = RlcreateFits m
ReplyFits (Reply.rsymlink m) = RsymlinkFits m
ReplyFits (Reply.rmknod m) = RmknodFits m
ReplyFits Reply.rrename = Unit
ReplyFits (Reply.rreadlink m) = RreadlinkFits m
ReplyFits (Reply.rgetattr m) = RgetattrFits m
ReplyFits Reply.rsetattr = Unit
ReplyFits (Reply.rreaddir m) = RreaddirFits m
ReplyFits Reply.rfsync = Unit
ReplyFits (Reply.rlock m) = RlockFits m
ReplyFits (Reply.rgetlock m) = RgetlockFits m
ReplyFits (Reply.rmkdir m) = RmkdirFits m
ReplyFits Reply.rrenameat = Unit
ReplyFits Reply.runlinkat = Unit
ReplyFits Reply.rflush = Unit
ReplyFits (Reply.rwalk m) = RwalkFits m
ReplyFits (Reply.rread m) = RreadFits m
ReplyFits (Reply.rwrite m) = RwriteFits m
ReplyFits Reply.rclunk = Unit
ReplyFits Reply.rremove = Unit

abbrev pub BodyFits : Body → Type 0
BodyFits (request m) = RequestFits m
BodyFits (reply m) = ReplyFits m

request-Carries :
    (m : Request)
    → RequestFits m
    → Carries (write_request m) (read_body (request_kind m)) (request m)
unfolding write_request read_body request_kind
request-Carries (Request.tversion m) h = Carries-map _ (tversion-Carries m h)
request-Carries (Request.tauth m) h = Carries-map _ (tauth-Carries m h)
request-Carries (Request.tattach m) h = Carries-map _ (tattach-Carries m h)
request-Carries (Request.tstatfs m) h = Carries-map _ (tstatfs-Carries m h)
request-Carries (Request.tlopen m) h = Carries-map _ (tlopen-Carries m h)
request-Carries (Request.tlcreate m) h = Carries-map _ (tlcreate-Carries m h)
request-Carries (Request.tsymlink m) h = Carries-map _ (tsymlink-Carries m h)
request-Carries (Request.tmknod m) h = Carries-map _ (tmknod-Carries m h)
request-Carries (Request.trename m) h = Carries-map _ (trename-Carries m h)
request-Carries (Request.treadlink m) h = Carries-map _ (treadlink-Carries m h)
request-Carries (Request.tgetattr m) h = Carries-map _ (tgetattr-Carries m h)
request-Carries (Request.tsetattr m) h = Carries-map _ (tsetattr-Carries m h)
request-Carries (Request.txattrwalk m) h = Carries-map _ (txattrwalk-Carries m h)
request-Carries (Request.treaddir m) h = Carries-map _ (treaddir-Carries m h)
request-Carries (Request.tfsync m) h = Carries-map _ (tfsync-Carries m h)
request-Carries (Request.tlock m) h = Carries-map _ (tlock-Carries m h)
request-Carries (Request.tgetlock m) h = Carries-map _ (tgetlock-Carries m h)
request-Carries (Request.tmkdir m) h = Carries-map _ (tmkdir-Carries m h)
request-Carries (Request.trenameat m) h = Carries-map _ (trenameat-Carries m h)
request-Carries (Request.tunlinkat m) h = Carries-map _ (tunlinkat-Carries m h)
request-Carries (Request.tflush m) h = Carries-map _ (tflush-Carries m h)
request-Carries (Request.twalk m) h = Carries-map _ (twalk-Carries m h)
request-Carries (Request.tread m) h = Carries-map _ (tread-Carries m h)
request-Carries (Request.twrite m) h = Carries-map _ (twrite-Carries m h)
request-Carries (Request.tclunk m) h = Carries-map _ (tclunk-Carries m h)
request-Carries (Request.tremove m) h = Carries-map _ (tremove-Carries m h)

reply-Carries :
    (m : Reply) → ReplyFits m → Carries (write_reply m) (read_body (reply_kind m)) (reply m)
unfolding write_reply read_body reply_kind
reply-Carries (Reply.rversion m) h = Carries-map _ (rversion-Carries m h)
reply-Carries (Reply.rauth m) h = Carries-map _ (rauth-Carries m h)
reply-Carries (Reply.rattach m) h = Carries-map _ (rattach-Carries m h)
reply-Carries (Reply.rlerror m) h = Carries-map _ (rlerror-Carries m h)
reply-Carries (Reply.rstatfs m) h = Carries-map _ (rstatfs-Carries m h)
reply-Carries (Reply.rlopen m) h = Carries-map _ (rlopen-Carries m h)
reply-Carries (Reply.rlcreate m) h = Carries-map _ (rlcreate-Carries m h)
reply-Carries (Reply.rsymlink m) h = Carries-map _ (rsymlink-Carries m h)
reply-Carries (Reply.rmknod m) h = Carries-map _ (rmknod-Carries m h)
reply-Carries Reply.rrename h = Carries-pure _
reply-Carries (Reply.rreadlink m) h = Carries-map _ (rreadlink-Carries m h)
reply-Carries (Reply.rgetattr m) h = Carries-map _ (rgetattr-Carries m h)
reply-Carries Reply.rsetattr h = Carries-pure _
reply-Carries (Reply.rreaddir m) h = Carries-map _ (rreaddir-Carries m h)
reply-Carries Reply.rfsync h = Carries-pure _
reply-Carries (Reply.rlock m) h = Carries-map _ (rlock-Carries m h)
reply-Carries (Reply.rgetlock m) h = Carries-map _ (rgetlock-Carries m h)
reply-Carries (Reply.rmkdir m) h = Carries-map _ (rmkdir-Carries m h)
reply-Carries Reply.rrenameat h = Carries-pure _
reply-Carries Reply.runlinkat h = Carries-pure _
reply-Carries Reply.rflush h = Carries-pure _
reply-Carries (Reply.rwalk m) h = Carries-map _ (rwalk-Carries m h)
reply-Carries (Reply.rread m) h = Carries-map _ (rread-Carries m h)
reply-Carries (Reply.rwrite m) h = Carries-map _ (rwrite-Carries m h)
reply-Carries Reply.rclunk h = Carries-pure _
reply-Carries Reply.rremove h = Carries-pure _

-- Whatever the message, the case for its type reads what the case for it wrote.
pub body-Carries : (b : Body) → BodyFits b → Carries (write_body b) (read_body (body_kind b)) b
unfolding write_body body_kind
body-Carries (request m) h = request-Carries m h
body-Carries (reply m) h = reply-Carries m h
