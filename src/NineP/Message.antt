-- ===== src/NineP/Message.antt =====
-- The message types of runtime/ninep/protocol.ts: the numbers `P9`, the reverse map `MSG_NAME`, and
-- the union `P9Message`.
use nix_wasm.Prelude.{ℕ, List, [], ◌∷◌, Option, none, some, ◌==◌, if◌then◌else◌}
use nix_wasm.NineP.Messages.Session.{
  Tversion, Rversion, Tauth, Rauth, Tattach, Rattach, Rlerror, Tflush, Twalk, Rwalk, Tclunk,
  Tremove,
}
use nix_wasm.NineP.Messages.Attributes.{Tstatfs, Rstatfs, Tgetattr, Rgetattr, Tsetattr, Txattrwalk}
use nix_wasm.NineP.Messages.Create.{
  Tlopen, Rlopen, Tlcreate, Rlcreate, Tsymlink, Rsymlink, Tmknod, Rmknod, Tmkdir, Rmkdir,
}
use nix_wasm.NineP.Messages.Names.{Trename, Treadlink, Rreadlink, Trenameat, Tunlinkat}
use nix_wasm.NineP.Messages.Content.{Treaddir, Rreaddir, Tfsync, Tread, Rread, Twrite, Rwrite}
use nix_wasm.NineP.Messages.Locks.{Tlock, Rlock, Tgetlock, Rgetlock}

-- The keys of `P9`. `rxattrwalk` has a number, and no message.
pub data Kind : Type 0 where
  rlerror tstatfs rstatfs tlopen rlopen tlcreate rlcreate tsymlink rsymlink tmknod : Kind
  rmknod trename rrename treadlink rreadlink tgetattr rgetattr tsetattr rsetattr : Kind
  txattrwalk rxattrwalk treaddir rreaddir tfsync rfsync tlock rlock tgetlock : Kind
  rgetlock tmkdir rmkdir trenameat rrenameat tunlinkat runlinkat tversion rversion : Kind
  tauth rauth tattach rattach tflush rflush twalk rwalk tread rread twrite rwrite : Kind
  tclunk rclunk tremove rremove : Kind

unfoldable pub code : Kind → ℕ
code Kind.rlerror = 7
code Kind.tstatfs = 8
code Kind.rstatfs = 9
code Kind.tlopen = 12
code Kind.rlopen = 13
code Kind.tlcreate = 14
code Kind.rlcreate = 15
code Kind.tsymlink = 16
code Kind.rsymlink = 17
code Kind.tmknod = 18
code Kind.rmknod = 19
code Kind.trename = 20
code Kind.rrename = 21
code Kind.treadlink = 22
code Kind.rreadlink = 23
code Kind.tgetattr = 24
code Kind.rgetattr = 25
code Kind.tsetattr = 26
code Kind.rsetattr = 27
code Kind.txattrwalk = 30
code Kind.rxattrwalk = 31
code Kind.treaddir = 40
code Kind.rreaddir = 41
code Kind.tfsync = 50
code Kind.rfsync = 51
code Kind.tlock = 52
code Kind.rlock = 53
code Kind.tgetlock = 54
code Kind.rgetlock = 55
code Kind.tmkdir = 72
code Kind.rmkdir = 73
code Kind.trenameat = 74
code Kind.rrenameat = 75
code Kind.tunlinkat = 76
code Kind.runlinkat = 77
code Kind.tversion = 100
code Kind.rversion = 101
code Kind.tauth = 102
code Kind.rauth = 103
code Kind.tattach = 104
code Kind.rattach = 105
code Kind.tflush = 108
code Kind.rflush = 109
code Kind.twalk = 110
code Kind.rwalk = 111
code Kind.tread = 116
code Kind.rread = 117
code Kind.twrite = 118
code Kind.rwrite = 119
code Kind.tclunk = 120
code Kind.rclunk = 121
code Kind.tremove = 122
code Kind.rremove = 123

abbrev pub all_kinds : List Kind
all_kinds =
    Kind.rlerror ∷ Kind.tstatfs ∷ Kind.rstatfs ∷ Kind.tlopen ∷ Kind.rlopen ∷ Kind.tlcreate
    ∷ Kind.rlcreate ∷ Kind.tsymlink ∷ Kind.rsymlink ∷ Kind.tmknod ∷ Kind.rmknod ∷ Kind.trename
    ∷ Kind.rrename ∷ Kind.treadlink ∷ Kind.rreadlink ∷ Kind.tgetattr ∷ Kind.rgetattr ∷ Kind.tsetattr
    ∷ Kind.rsetattr ∷ Kind.txattrwalk ∷ Kind.rxattrwalk ∷ Kind.treaddir ∷ Kind.rreaddir
    ∷ Kind.tfsync ∷ Kind.rfsync ∷ Kind.tlock ∷ Kind.rlock ∷ Kind.tgetlock ∷ Kind.rgetlock
    ∷ Kind.tmkdir ∷ Kind.rmkdir ∷ Kind.trenameat ∷ Kind.rrenameat ∷ Kind.tunlinkat ∷ Kind.runlinkat
    ∷ Kind.tversion ∷ Kind.rversion ∷ Kind.tauth ∷ Kind.rauth ∷ Kind.tattach ∷ Kind.rattach
    ∷ Kind.tflush ∷ Kind.rflush ∷ Kind.twalk ∷ Kind.rwalk ∷ Kind.tread ∷ Kind.rread ∷ Kind.twrite
    ∷ Kind.rwrite ∷ Kind.tclunk ∷ Kind.rclunk ∷ Kind.tremove ∷ Kind.rremove ∷ []

-- The first key with the number; no two have the same.
unfoldable pub find_kind : ℕ → List Kind → Option Kind
unfolding code
find_kind n [] = none
find_kind n (k ∷ ks) = if code k == n then some k else find_kind n ks

-- `MSG_NAME[n]`, which is also the `case` that a `switch` on a type takes.
unfoldable pub msg_name : ℕ → Option Kind
unfolding find_kind
msg_name n = find_kind n all_kinds

pub data Request : Type 0 where
  tversion : Tversion → Request
  tauth : Tauth → Request
  tattach : Tattach → Request
  tstatfs : Tstatfs → Request
  tlopen : Tlopen → Request
  tlcreate : Tlcreate → Request
  tsymlink : Tsymlink → Request
  tmknod : Tmknod → Request
  trename : Trename → Request
  treadlink : Treadlink → Request
  tgetattr : Tgetattr → Request
  tsetattr : Tsetattr → Request
  txattrwalk : Txattrwalk → Request
  treaddir : Treaddir → Request
  tfsync : Tfsync → Request
  tlock : Tlock → Request
  tgetlock : Tgetlock → Request
  tmkdir : Tmkdir → Request
  trenameat : Trenameat → Request
  tunlinkat : Tunlinkat → Request
  tflush : Tflush → Request
  twalk : Twalk → Request
  tread : Tread → Request
  twrite : Twrite → Request
  tclunk : Tclunk → Request
  tremove : Tremove → Request

pub data Reply : Type 0 where
  rversion : Rversion → Reply
  rauth : Rauth → Reply
  rattach : Rattach → Reply
  rlerror : Rlerror → Reply
  rstatfs : Rstatfs → Reply
  rlopen : Rlopen → Reply
  rlcreate : Rlcreate → Reply
  rsymlink : Rsymlink → Reply
  rmknod : Rmknod → Reply
  rrename : Reply
  rreadlink : Rreadlink → Reply
  rgetattr : Rgetattr → Reply
  rsetattr : Reply
  rreaddir : Rreaddir → Reply
  rfsync : Reply
  rlock : Rlock → Reply
  rgetlock : Rgetlock → Reply
  rmkdir : Rmkdir → Reply
  rrenameat : Reply
  runlinkat : Reply
  rflush : Reply
  rwalk : Rwalk → Reply
  rread : Rread → Reply
  rwrite : Rwrite → Reply
  rclunk : Reply
  rremove : Reply

pub data Body : Type 0 where
  request : Request → Body
  reply : Reply → Body

-- A message with its tag, which the sender may leave out.
pub record Message : Type 0 where
  pub tag : Option ℕ
  pub body : Body

unfoldable pub request_kind : Request → Kind
request_kind (Request.tversion m) = Kind.tversion
request_kind (Request.tauth m) = Kind.tauth
request_kind (Request.tattach m) = Kind.tattach
request_kind (Request.tstatfs m) = Kind.tstatfs
request_kind (Request.tlopen m) = Kind.tlopen
request_kind (Request.tlcreate m) = Kind.tlcreate
request_kind (Request.tsymlink m) = Kind.tsymlink
request_kind (Request.tmknod m) = Kind.tmknod
request_kind (Request.trename m) = Kind.trename
request_kind (Request.treadlink m) = Kind.treadlink
request_kind (Request.tgetattr m) = Kind.tgetattr
request_kind (Request.tsetattr m) = Kind.tsetattr
request_kind (Request.txattrwalk m) = Kind.txattrwalk
request_kind (Request.treaddir m) = Kind.treaddir
request_kind (Request.tfsync m) = Kind.tfsync
request_kind (Request.tlock m) = Kind.tlock
request_kind (Request.tgetlock m) = Kind.tgetlock
request_kind (Request.tmkdir m) = Kind.tmkdir
request_kind (Request.trenameat m) = Kind.trenameat
request_kind (Request.tunlinkat m) = Kind.tunlinkat
request_kind (Request.tflush m) = Kind.tflush
request_kind (Request.twalk m) = Kind.twalk
request_kind (Request.tread m) = Kind.tread
request_kind (Request.twrite m) = Kind.twrite
request_kind (Request.tclunk m) = Kind.tclunk
request_kind (Request.tremove m) = Kind.tremove

unfoldable pub reply_kind : Reply → Kind
reply_kind (Reply.rversion m) = Kind.rversion
reply_kind (Reply.rauth m) = Kind.rauth
reply_kind (Reply.rattach m) = Kind.rattach
reply_kind (Reply.rlerror m) = Kind.rlerror
reply_kind (Reply.rstatfs m) = Kind.rstatfs
reply_kind (Reply.rlopen m) = Kind.rlopen
reply_kind (Reply.rlcreate m) = Kind.rlcreate
reply_kind (Reply.rsymlink m) = Kind.rsymlink
reply_kind (Reply.rmknod m) = Kind.rmknod
reply_kind Reply.rrename = Kind.rrename
reply_kind (Reply.rreadlink m) = Kind.rreadlink
reply_kind (Reply.rgetattr m) = Kind.rgetattr
reply_kind Reply.rsetattr = Kind.rsetattr
reply_kind (Reply.rreaddir m) = Kind.rreaddir
reply_kind Reply.rfsync = Kind.rfsync
reply_kind (Reply.rlock m) = Kind.rlock
reply_kind (Reply.rgetlock m) = Kind.rgetlock
reply_kind (Reply.rmkdir m) = Kind.rmkdir
reply_kind Reply.rrenameat = Kind.rrenameat
reply_kind Reply.runlinkat = Kind.runlinkat
reply_kind Reply.rflush = Kind.rflush
reply_kind (Reply.rwalk m) = Kind.rwalk
reply_kind (Reply.rread m) = Kind.rread
reply_kind (Reply.rwrite m) = Kind.rwrite
reply_kind Reply.rclunk = Kind.rclunk
reply_kind Reply.rremove = Kind.rremove

-- `msg.type`
unfoldable pub body_kind : Body → Kind
unfolding request_kind reply_kind
body_kind (request m) = request_kind m
body_kind (reply m) = reply_kind m
