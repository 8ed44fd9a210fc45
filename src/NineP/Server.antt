-- ===== src/NineP/Server.antt =====
-- runtime/ninep/server.ts: what the 9P server is made of. Its backends are an interface, `NinePVfs`: each
-- call may change what they store, and may throw. A request runs to its end before the next one does.
pub mod Parts
pub mod Files
pub mod Handlers
pub mod Creates
pub mod Dispatch
pub mod Handle
pub mod Steps
pub mod Deeds
pub mod Opens
pub mod Makes
pub mod Requests
pub mod Frames
pub mod Isolation
pub mod Inodes
pub mod Qids
mod Tests
use nix_wasm.Prelude.{ℕ, zero, suc, ◌+◌, ◌/◌, ◌%◌, ◌^◌, List, [], ◌∷◌, ◌++◌}
use nix_wasm.Prelude.{
  Bool, true, false, ◌&&◌, Option, none, some, ltb, leb, ◌==◌, if◌then◌else◌, length, get_elem?,
}
use nix_wasm.Text.{Str, utf8_encode}
use nix_wasm.NineP.Writer.{Qid}
use nix_wasm.NineP.Dirent.{Dirent}

-- What is thrown: an error of the server's own with its errno, one with a code, or another with a message.
pub data Thrown : Type 0 where
  p9err : ℕ → Thrown
  coded : Str → Thrown
  plain : Str → Thrown

pub data Result {ℓ} (A : Type ℓ) : Type ℓ where
  ok : A → Result A
  err : Thrown → Result A

abbrev pub M {ℓ} : Type 0 → Type ℓ → Type ℓ
M S A = S → Result A × S

abbrev pub and_then {ℓ κ} :
    {S : Type 0} {A : Type ℓ} {B : Type κ} → Result A × S → (A → M S B) → Result B × S
and_then (ok a, s) f = f a s
and_then (err e, s) f = (err e, s)

infixl 5 ◌>>=◌ ◌>>◌
abbrev pub ◌>>=◌ {ℓ κ} : {S : Type 0} {A : Type ℓ} {B : Type κ} → M S A → (A → M S B) → M S B
◌>>=◌ m f s = and_then (m s) f

abbrev pub ◌>>◌ {ℓ} : {S : Type 0} {B : Type ℓ} → M S (Unit {0}) → M S B → M S B
m >> k = m >>= λ _. k

abbrev pub pure {ℓ} : {S : Type 0} {A : Type ℓ} → A → M S A
pure a s = (ok a, s)

abbrev pub throw {ℓ} : {S : Type 0} {A : Type ℓ} → Thrown → M S A
throw e s = (err e, s)

-- `try { m } catch { k }`
abbrev pub caught {ℓ} : {S : Type 0} {A : Type ℓ} → Result A × S → M S A → Result A × S
caught (ok a, s) k = (ok a, s)
caught (err e, s) k = k s

abbrev pub try {ℓ} : {S : Type 0} {A : Type ℓ} → M S A → M S A → M S A
try m k s = caught (m s) k

pub data RecordType : Type 0 where
  folder alias file : RecordType

-- `VfsRecord`, a type that is neither of two being a file.
pub record VfsRecord : Type 0 where
  pub inode : Option Str
  pub rtype : RecordType
  pub name : Str
  pub path : Str
  pub modified_at : ℕ
  pub size : Option ℕ
  pub target : Str

-- What the server hands to `vfs.write`: the bytes of a file, or the target of a link.
pub data WriteRecord : Type 0 where
  file_of : List ℕ → WriteRecord
  alias_of : Str → WriteRecord

-- `NinePVfs`, over what the backends store. A writer is named by a number.
pub record Vfs (V : Type 0) : Type 0 where
  pub stat : Str → M V (Option VfsRecord)
  pub list : Str → M V (List VfsRecord)
  pub read_blob : Str → M V (List ℕ)
  pub write : Str → WriteRecord → M V (Unit {0})
  pub mkdir : Str → M V (Unit {0})
  pub remove : Str → M V (Unit {0})
  pub move : Str → Str → M V (Unit {0})
  pub open_write : Option (Str → Bool → M V ℕ)
  pub writer_size : ℕ → V → ℕ
  pub writer_write : ℕ → List ℕ → M V (Unit {0})
  pub writer_truncate : ℕ → ℕ → M V (Unit {0})
  pub writer_flush : ℕ → M V (Unit {0})
  pub writer_close : ℕ → M V (Unit {0})

-- A fid's object. A backend is a number.
pub record Fid : Type 0 where
  pub path : Str
  pub vfs : ℕ
  pub opened : Bool
  pub dirents : Option (List Dirent)
  pub writer : Option ℕ
  pub writer_path : Option Str

-- A map from numbers to objects, in the order in which they were entered.
abbrev pub Fids : Type 0
Fids = List (ℕ × ℕ)

pub record Conn : Type 0 where
  pub cid : ℕ
  pub msize : ℕ
  pub fids : Fids

-- Whose deferred writer has a path of a backend.
pub record Owner : Type 0 where
  pub vfs : ℕ
  pub path : Str
  pub object : ℕ

pub record Server (V : Type 0) : Type 0 where
  pub store : V
  pub heap : List Fid
  pub conns : List Conn
  pub owners : List Owner
  pub qid_paths : List (Str × ℕ)
  pub qid_seq : ℕ
  pub negotiated : ℕ

pub record Export : Type 0 where
  pub name : Str
  pub vfs : ℕ
  pub root : Str

-- The exports are keyed by their normalized names.
pub record Config : Type 0 where
  pub max_msize : ℕ
  pub uid : ℕ
  pub gid : ℕ
  pub exports : List Export

abbrev pub str_eq : Str → Str → Bool
str_eq [] [] = true
str_eq [] (d ∷ ds) = false
str_eq (c ∷ cs) [] = false
str_eq (c ∷ cs) (d ∷ ds) = (c == d) && str_eq cs ds

abbrev pub slash : ℕ
slash = 47

abbrev pub root : Str
root = slash ∷ []

-- `p.slice(0, p.lastIndexOf("/"))`, where there is one.
abbrev pub before_slash : Str → Option Str
before_slash [] = none
before_slash (c ∷ cs) = elim (before_slash cs) [
  | some front ↦ some (c ∷ front)
  | none ↦ if c == slash then some [] else none
]

unfoldable pub parent_of : Str → Str
parent_of p =
    if str_eq p root
    then root
    else (elim (before_slash p) [ none ↦ root | some [] ↦ root | some (c ∷ cs) ↦ c ∷ cs ])

abbrev pub has_slash : Str → Bool
has_slash [] = false
has_slash (c ∷ cs) = if c == slash then true else has_slash cs

abbrev pub einval : ℕ
einval = 22

abbrev pub joined : Str → Str → Str
joined base seg = if str_eq base root then (slash ∷ seg) else (base ++ (slash ∷ seg))

unfoldable pub join_name : Str → Str → Result Str
unfolding parent_of
join_name base [] = ok base
join_name base (c ∷ cs) =
    if str_eq (c ∷ cs) (46 ∷ [])
    then ok base
    else if str_eq (c ∷ cs) (46 ∷ 46 ∷ [])
    then ok (parent_of base)
    else if has_slash (c ∷ cs)
    then err (p9err einval)
    else ok (joined base (c ∷ cs))

-- `CODE_TO_ERRNO`, the codes as text.
abbrev pub errnos : List (Str × ℕ)
errnos =
    (69 ∷ 80 ∷ 69 ∷ 82 ∷ 77 ∷ [], 1)
    ∷ (69 ∷ 78 ∷ 79 ∷ 69 ∷ 78 ∷ 84 ∷ [], 2)
    ∷ (69 ∷ 73 ∷ 79 ∷ [], 5)
    ∷ (69 ∷ 66 ∷ 65 ∷ 68 ∷ 70 ∷ [], 9)
    ∷ (69 ∷ 65 ∷ 67 ∷ 67 ∷ 69 ∷ 83 ∷ [], 13)
    ∷ (69 ∷ 69 ∷ 88 ∷ 73 ∷ 83 ∷ 84 ∷ [], 17)
    ∷ (69 ∷ 88 ∷ 68 ∷ 69 ∷ 86 ∷ [], 18)
    ∷ (69 ∷ 78 ∷ 79 ∷ 68 ∷ 69 ∷ 86 ∷ [], 19)
    ∷ (69 ∷ 78 ∷ 79 ∷ 84 ∷ 68 ∷ 73 ∷ 82 ∷ [], 20)
    ∷ (69 ∷ 73 ∷ 83 ∷ 68 ∷ 73 ∷ 82 ∷ [], 21)
    ∷ (69 ∷ 73 ∷ 78 ∷ 86 ∷ 65 ∷ 76 ∷ [], 22)
    ∷ (69 ∷ 82 ∷ 79 ∷ 70 ∷ 83 ∷ [], 30)
    ∷ (69 ∷ 78 ∷ 79 ∷ 84 ∷ 69 ∷ 77 ∷ 80 ∷ 84 ∷ 89 ∷ [], 39)
    ∷ (69 ∷ 78 ∷ 79 ∷ 83 ∷ 89 ∷ 83 ∷ [], 38)
    ∷ (69 ∷ 78 ∷ 65 ∷ 77 ∷ 69 ∷ 84 ∷ 79 ∷ 79 ∷ 76 ∷ 79 ∷ 78 ∷ 71 ∷ [], 36)
    ∷ []

abbrev pub errno_of : Str → List (Str × ℕ) → ℕ
errno_of c [] = 5
errno_of c ((d, n) ∷ table) = if str_eq c d then n else errno_of c table

-- The capital letters that a colon follows: `/^([A-Z]+):/`.
abbrev pub code_of : Str → Option Str
code_of [] = none
code_of (c ∷ cs) =
    let rest = code_of cs in
    if c == 58
    then some []
    else if leb 65 c && leb c 90
    then (elim rest [ none ↦ none | some letters ↦ some (c ∷ letters) ])
    else none

-- No letter before the colon is no match, and the empty code has no errno, so both are EIO.
unfoldable pub errno_from_error : Thrown → ℕ
errno_from_error (p9err n) = n
errno_from_error (coded c) = errno_of c errnos
errno_from_error (plain message) = elim (code_of message) [ none ↦ 5 | some c ↦ errno_of c errnos ]
